-- ===== src/Pipeline/Flush.antt =====
-- The test of RunLoop on its argument.
use native.Mathlib.Nat.{pow-suc, one-le-pow}
use go_dpdk.Base.{
  ℕ, zero, suc, ◌+◌, ◌-◌, ◌*◌, ◌/◌, ◌%◌, ◌^◌, ◌<◌, ◌≡◌, ◌↔◌, ◌⊎◌, inl, inr, refl, ◌∙◌, arith,
  bit_and, sub32, dec_lt,
}
use go_dpdk.Bits.{bit_and_digit, bit_and-zero}

bit_and_self : (n y : ℕ) → y < n → bit_and y y ≡ y
bit_and_self zero y h = absurd (omega arith)
bit_and_self (suc n) zero h = bit_and-zero 0
bit_and_self (suc n) (suc y) h =
    omega (arith, bit_and_digit (suc y) (suc y), bit_and_self n (suc y / 2) (omega arith))

-- The bits of a number and of the one below it.
odd_test : (y : ℕ) → bit_and (2 * y + 1) (2 * y) ≡ y * 2
odd_test y =
    let p : (2 * y + 1) / 2 ≡ y = omega arith in
    let q : 2 * y / 2 ≡ y = omega arith in
    bit_and_digit (2 * y + 1) (2 * y)
    ∙ rw (p, q) (omega (arith, bit_and_self (suc y) y (omega arith)))

even_test : (y : ℕ) → 0 < y → bit_and (2 * y) (2 * y - 1) ≡ bit_and y (y - 1) * 2
even_test y some_bit =
    let p : 2 * y / 2 ≡ y = omega arith in
    let q : (2 * y - 1) / 2 ≡ y - 1 = omega arith in
    bit_and_digit (2 * y) (2 * y - 1) ∙ rw (p, q) (omega arith)

-- A number that shares no bit with the one below it is a power of 2.
shared_bits : (n x : ℕ) → x < n → 0 < x → bit_and x (x - 1) ≡ 0 → (k : ℕ) × (x ≡ 2 ^ k)
shared_bits zero x lt some_bit e = absurd (omega arith)
shared_bits (suc n) x lt some_bit e = elim (dec_lt (x % 2) 1) [
  | yes even ↦
      let split : x ≡ 2 * (x / 2) = omega arith in
      let half : bit_and (2 * (x / 2)) (2 * (x / 2) - 1) ≡ 0 = rw (← split) e in
      let (k, power) =
        shared_bits n (x / 2) (omega arith) (omega arith)
          (omega (arith, even_test (x / 2) (omega arith))) in
      (suc k, omega (arith, pow-suc 2 k))
  | no odd ↦
      let split : x ≡ 2 * (x / 2) + 1 = omega arith in
      let below : x - 1 ≡ 2 * (x / 2) = omega arith in
      let half : bit_and (2 * (x / 2) + 1) (2 * (x / 2)) ≡ 0 = cc in
      (0, omega (arith, odd_test (x / 2)))
]

pow_pos : (k : ℕ) → 0 < 2 ^ k
pow_pos k = omega (arith, one-le-pow k 2)

pub power_test : (k : ℕ) → bit_and (2 ^ k) (2 ^ k - 1) ≡ 0
power_test zero = bit_and-zero 1
power_test (suc k) =
    let twice : 2 ^ suc k ≡ 2 * 2 ^ k = omega (arith, pow-suc 2 k) in
    rw twice (even_test (2 ^ k) (pow_pos k) ∙ omega (arith, power_test k))

passes :
    (flush : ℕ)
    → flush < 2 ^ 32
    → (flush ≡ 0) ⊎ ((k : ℕ) × (flush ≡ 2 ^ k))
    → bit_and flush (sub32 flush 1) ≡ 0
passes flush lt (inl none_set) = rw none_set refl
passes flush lt (inr (k, power)) =
    let some_bit : 0 < flush = omega (arith, pow_pos k) in
    let below : sub32 flush 1 ≡ 2 ^ k - 1 = omega arith in cc (power_test k)

-- RunLoop's test passes for 0 and the powers of 2, and for no other uint32.
pub flush_test :
    (flush : ℕ)
    → flush < 2 ^ 32
    → (bit_and flush (sub32 flush 1) ≡ 0) ↔ ((flush ≡ 0) ⊎ ((k : ℕ) × (flush ≡ 2 ^ k)))
flush_test flush lt = (
  λ e. elim (dec_lt 0 flush) [
    | yes some_bit ↦
        let below : sub32 flush 1 ≡ flush - 1 = omega arith in
        inr (shared_bits (suc flush) flush (omega arith) some_bit (cc))
    | no zero_bits ↦ inl (omega arith)
  ],
  λ h. passes flush lt h,
)
