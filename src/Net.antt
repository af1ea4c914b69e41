-- ===== src/Net.antt =====
-- Addresses of containers: pkg/container/net and its renumbering of IPv6 prefixes.
pub mod Ip
pub mod Allocation
pub mod Walk
pub mod Prefix
pub mod Selection
