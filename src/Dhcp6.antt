-- ===== src/Dhcp6.antt =====
-- DHCPv6 (pkg/lib/dhcp): the messages on the wire and what the client reads and writes of them.
pub mod Options
pub mod Packet
pub mod RoundTrip
pub mod Client
pub mod Exchange
pub mod Identity
pub mod Answers
