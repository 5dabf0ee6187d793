-- ===== src/Bits.antt =====
-- The bit operators of Go on unsigned values, as arithmetic.
mod Digit
pub use Digit.{bit_and_digit, bit_or_digit, bit_and-zero, bit_or-zero}
use native.Mathlib.Nat.{pow-suc, one-le-pow, div-one, mul-one, div-div-eq-div-mul}
use go_dpdk.Base.{
  ℕ, zero, suc, ◌+◌, ◌-◌, ◌*◌, ◌/◌, ◌%◌, ◌^◌, ◌<◌, bit_and, bit_or, ◌≡◌, refl, ap, arith,
}

twice_shift : (q k : ℕ) → q * 2 ^ suc k ≡ (q * 2 ^ k) * 2
twice_shift q k = omega (arith, ap (λ (t : ℕ). q * t) (pow-suc 2 k))

pub halve_shift : (a k : ℕ) → a / 2 / 2 ^ k ≡ a / 2 ^ suc k
halve_shift a k = rw (div-div-eq-div-mul, pow-suc) (ap (λ (t : ℕ). a / t) (omega arith))

-- A shifted field and one that fits below it do not overlap, so their `|` is their sum.
pub bit_or-eq-add : (k q r : ℕ) → r < 2 ^ k → bit_or (q * 2 ^ k) r ≡ q * 2 ^ k + r
bit_or-eq-add zero q r h = ground (arith, bit_or-zero q)
bit_or-eq-add (suc k) q r h = ground (
  arith,
  twice_shift q k,
  bit_or_digit (q * 2 ^ suc k) r,
  pow-suc 2 k,
  bit_or-eq-add k q (r / 2) (omega (arith, pow-suc 2 k)),
)

-- A mask of higher bits takes a quotient and shifts it back.
pub bit_and_high : (k a m : ℕ) → bit_and a (m * 2 ^ k) ≡ bit_and (a / 2 ^ k) m * 2 ^ k
bit_and_high zero a m = simp (div-one, mul-one)
bit_and_high (suc k) a m = ground (
  arith,
  twice_shift m k,
  twice_shift (bit_and (a / 2 ^ suc k) m) k,
  bit_and_digit a (m * 2 ^ suc k),
  bit_and_high k (a / 2) m,
  ap (λ (t : ℕ). bit_and t m) (halve_shift a k),
)

pub mod_twice : (a p : ℕ) → 0 < p → a % (p * 2) ≡ (a / 2 % p) * 2 + a % 2
mod_twice a p h = grind arith

-- A mask of the `k` low bits is the remainder by `2 ^ k`.
pub bit_and_low : (k a : ℕ) → bit_and a (2 ^ k - 1) ≡ a % 2 ^ k
bit_and_low zero a = omega (arith, bit_and-zero a)
bit_and_low (suc k) a = ground (
  arith,
  pow-suc 2 k,
  one-le-pow k 2,
  mod_twice a (2 ^ k),
  ap (λ (t : ℕ). a % t) (pow-suc 2 k),
  bit_and_digit a (2 ^ suc k - 1),
  bit_and_low k (a / 2),
)
