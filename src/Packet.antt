-- ===== src/Packet.antt =====
-- The package packet.
pub mod Swap
pub mod Header
pub mod Checksum
pub mod Parse
pub mod Edit
pub mod Init
pub mod Arp
pub mod Icmp6
pub mod Sample
