-- ===== src/Mem.antt =====
-- Raw memory routines: mem/mem.go. Pointers and lengths are natural numbers, a length being the
-- result of `len`.
mod Copy
mod Compare
mod Fill
mod Chunk
mod Tests
pub mod Long
mod Flat
pub mod Rows
pub mod Filled
pub mod Order
pub mod Move
unfoldable pub use Copy.*
unfoldable pub use Compare.*
unfoldable pub use Flat.*
unfoldable pub use Fill.*
