-- ===== src/Memory.antt =====
-- Byte-addressed memory, as the `unsafe.Pointer` casts of the packages packet and mbuf see it on a
-- little-endian host. An address is a natural number and 0 is nil. A cell counts modulo 256.
mod Cell
mod Block
mod Runs
mod Wide
unfoldable pub use Cell.*
unfoldable pub use Block.*
pub use Runs.*
unfoldable pub use Wide.*
