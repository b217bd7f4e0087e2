-- ===== src/Network.antt =====
-- Kernel/Source/Network: the network stack.
pub mod Arp
pub mod Buf
pub mod IpV4
