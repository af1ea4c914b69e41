-- ===== src/Dhcp.antt =====
-- DHCP (pkg/lib/dhcp): the DHCPv4 messages and their round trips, and the DHCPv6 lease loop.
pub mod Options
pub mod Packet
pub mod RoundTrip
pub mod Parse
pub mod Lease
pub mod LeaseDue
pub mod LeaseOrder
