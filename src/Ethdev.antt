-- ===== src/Ethdev.antt =====
-- ethdev: the statistics of ports, the buffers of packets to send, and the rules of flows.
pub mod Stats
pub mod TxBuffer
pub mod Flow
