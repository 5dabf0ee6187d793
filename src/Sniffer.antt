-- ===== src/Sniffer.antt =====
-- The package main of app/test-sniffer.
pub mod Pools
pub mod Port
pub mod Answer
pub mod Queues
pub mod Report
