-- ===== src/Base/Word.antt =====
-- Fixed-width unsigned integers as native numbers: casts wrap, shifts are by powers of two.
use Prim.Native.Nat.{ℕ, ◌+◌, ◌-◌, ◌*◌, ◌/◌, ◌%◌, ◌^◌}

abbrev pub u8 : ℕ → ℕ
u8 n = n % 2 ^ 8

abbrev pub u16 : ℕ → ℕ
u16 n = n % 2 ^ 16

abbrev pub u32 : ℕ → ℕ
u32 n = n % 2 ^ 32

abbrev pub u64 : ℕ → ℕ
u64 n = n % 2 ^ 64

-- Subtraction at width 16, 32 and 64: the modulus goes in first, since `-` on ℕ stops at 0.
abbrev pub sub16 : ℕ → ℕ → ℕ
sub16 a b = u16 (u16 a + 2 ^ 16 - u16 b)

abbrev pub sub32 : ℕ → ℕ → ℕ
sub32 a b = u32 (u32 a + 2 ^ 32 - u32 b)

abbrev pub sub64 : ℕ → ℕ → ℕ
sub64 a b = u64 (u64 a + 2 ^ 64 - u64 b)

infixl 75 ◌<<<◌ ◌>>>◌
abbrev pub ◌<<<◌ : ℕ → ℕ → ℕ
x <<< k = x * 2 ^ k

abbrev pub ◌>>>◌ : ℕ → ℕ → ℕ
x >>> k = x / 2 ^ k

-- `^x` on a uint32 and on a uint16.
abbrev pub not32 : ℕ → ℕ
not32 x = 2 ^ 32 - 1 - u32 x

abbrev pub not16 : ℕ → ℕ
not16 x = 2 ^ 16 - 1 - u16 x
