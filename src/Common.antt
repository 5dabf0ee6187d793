-- ===== src/Common.antt =====
-- The package common: sets, registries and allocator sessions.
pub mod Raw
pub mod Errno
pub mod Split
pub mod Set
pub mod Registry
pub mod Allocator
