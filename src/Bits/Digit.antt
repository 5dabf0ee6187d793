-- ===== src/Bits/Digit.antt =====
-- One equation for the lowest binary digit of `&` and of `|`, without the fuel of `digits`.
use Prim.Native.Nat.{digits, bitwise, bit_and-bitwise, bit_or-bitwise}
use native.Mathlib.Nat.{le_refl}
use go_dpdk.Base.{
  ℕ, zero, suc, ◌+◌, ◌*◌, ◌/◌, ◌%◌, ◌≤◌, ◌<◌, bit_and, bit_or, min, max, ◌≡◌, refl, sym, ◌∙◌, arith,
}

module _ (left : ℕ → ℕ) (f : ℕ → ℕ → ℕ) where
  -- Any two fuels that cover the left operand give the same digits.
  digits_zero : (n b : ℕ) → digits left f n 0 b ≡ left b
  digits_zero zero b = refl
  digits_zero (suc n) b = refl

  digits_any : (n m a b : ℕ) → a ≤ n → a ≤ m → digits left f n a b ≡ digits left f m a b
  digits_any n m zero b h k = digits_zero n b ∙ sym (digits_zero m b)
  digits_any zero m (suc a) b h k = absurd (omega arith)
  digits_any (suc n) zero (suc a) b h k = absurd (omega arith)
  digits_any (suc n) (suc m) (suc a) b h k =
      rw (digits_any n m (suc a / 2) (b / 2) (omega arith) (omega arith))

  bitwise_digit :
      (a b : ℕ)
      → bitwise left f (suc a) b ≡ bitwise left f (suc a / 2) (b / 2) * 2 + f (suc a % 2) (b % 2)
  bitwise_digit a b =
      omega (arith, digits_any a (suc a / 2) (suc a / 2) (b / 2) (omega arith) (le_refl _))

pub bit_and_digit : (a b : ℕ) → bit_and a b ≡ bit_and (a / 2) (b / 2) * 2 + min (a % 2) (b % 2)
bit_and_digit zero b = simp bit_and-bitwise (omega arith)
bit_and_digit (suc a) b = simp bit_and-bitwise (bitwise_digit (λ d. 0) min a b)

pub bit_or_digit : (a b : ℕ) → bit_or a b ≡ bit_or (a / 2) (b / 2) * 2 + max (a % 2) (b % 2)
bit_or_digit zero b = simp bit_or-bitwise (omega arith)
bit_or_digit (suc a) b = simp bit_or-bitwise (bitwise_digit (λ d. d) max a b)

and_zero_below : (n a : ℕ) → a < n → bit_and a 0 ≡ 0
and_zero_below zero a h = absurd (omega arith)
and_zero_below (suc n) zero h = refl
and_zero_below (suc n) (suc a) h =
    omega (arith, bit_and_digit (suc a) 0, and_zero_below n (suc a / 2) (omega arith))

or_zero_below : (n a : ℕ) → a < n → bit_or a 0 ≡ a
or_zero_below zero a h = absurd (omega arith)
or_zero_below (suc n) zero h = refl
or_zero_below (suc n) (suc a) h =
    omega (arith, bit_or_digit (suc a) 0, or_zero_below n (suc a / 2) (omega arith))

pub bit_and-zero : (a : ℕ) → bit_and a 0 ≡ 0
bit_and-zero a = and_zero_below (suc a) a (le_refl _)

pub bit_or-zero : (a : ℕ) → bit_or a 0 ≡ a
bit_or-zero a = or_zero_below (suc a) a (le_refl _)
