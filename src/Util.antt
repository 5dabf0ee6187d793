-- ===== src/Util.antt =====
-- util: lists of logical cores, and the wrapper of a hash function.
pub mod LcoresList
pub mod Hash32
