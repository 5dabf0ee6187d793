-- ===== src/Sniffer/Port/Bits.antt =====
-- The bit counts of app/test-sniffer/port.go on a uint64.
use go_dpdk.Base.{
  ℕ, zero, suc, ◌+◌, ◌*◌, ◌/◌, ◌%◌, ◌^◌, ◌<◌, ◌≤◌, ◌≡◌, ◌≢◌, ◌⊎◌, inl, inr, refl, ap, ◌∙◌, arith,
  u64, ◌<<<◌, ◌>>>◌, some,
}
use native.Mathlib.Nat.{pow-suc}
use go_dpdk.Sniffer.Port.{ctz_loop, ctzll, clz_loop, clzll}

twice_pow : (a k : ℕ) → a * 2 ^ suc k ≡ a * 2 ^ k * 2
twice_pow a k = omega (arith, ap (λ (t : ℕ). a * t) (pow-suc 2 k))

twice_in : (x p : ℕ) → x * 2 * p ≡ x * p * 2
twice_in x p = grind arith

zero_or_suc : (n : ℕ) → (n ≡ 0) ⊎ ((m : ℕ) × (n ≡ suc m))
zero_or_suc zero = inl refl
zero_or_suc (suc m) = inr (m, refl)

ctz_even : (fuel x i : ℕ) → x % 2 ≡ 0 → ctz_loop (suc fuel) x i ≡ ctz_loop fuel (x >>> 1) (i + 1)
unfolding ctz_loop
ctz_even fuel x i even = rw (ctz_loop, even) refl

clz_clear :
    (fuel x i : ℕ)
    → x < 2 ^ 64
    → x / 2 ^ 63 ≡ 0
    → clz_loop (suc fuel) x i ≡ clz_loop fuel (x * 2) (i + 1)
unfolding clz_loop
clz_clear fuel x i lt clear =
    let wrap : u64 (x <<< 1) ≡ x * 2 = omega arith in rw (clz_loop, clear, wrap) refl

-- The loop finds the lowest bit that is set: what is below it is zero.
ctz_loop_lem :
    (fuel x i : ℕ)
    → x ≢ 0
    → x < 2 ^ fuel
    → (k : ℕ) × (q : ℕ) × (ctz_loop fuel x i ≡ some (i + k))
      × (k < fuel)
      × (x ≡ (2 * q + 1) * 2 ^ k)
unfolding ctz_loop
ctz_loop_lem zero x i nonzero lt = absurd (nonzero (omega arith))
ctz_loop_lem (suc fuel) x i nonzero lt = elim (zero_or_suc (x % 2)) [
  | inl even ↦
      let (k, q, found, room, split) =
        ctz_loop_lem fuel (x >>> 1) (i + 1) (λ e. nonzero (omega arith))
          (ground (arith, twice_pow 1 fuel)) in
      (
        suc k,
        q,
        ctz_even fuel x i even ∙ found ∙ ap some (omega arith),
        omega arith,
        omega (arith, twice_pow (2 * q + 1) k),
      )
  | inr (odd, e) ↦ (0, x / 2, rw (ctz_loop, e) (ap some (omega arith)), omega arith, omega arith)
]

clz_loop_lem :
    (fuel x i : ℕ)
    → x < 2 ^ 64
    → 2 ^ 64 ≤ x * 2 ^ fuel
    → (k : ℕ) × (clz_loop fuel x i ≡ some (i + k))
      × (k < fuel)
      × (2 ^ 63 ≤ x * 2 ^ k)
      × (x * 2 ^ k < 2 ^ 64)
unfolding clz_loop
clz_loop_lem zero x i lt top = absurd (omega arith)
clz_loop_lem (suc fuel) x i lt top = elim (zero_or_suc (x / 2 ^ 63)) [
  | inl clear ↦
      let wrap : u64 (x <<< 1) ≡ x * 2 = omega arith in
      let (k, found, room, low, high) =
        clz_loop_lem fuel (x * 2) (i + 1) (omega arith)
          (omega (arith, twice_pow x fuel, twice_in x (2 ^ fuel))) in
      (
        suc k,
        clz_clear fuel x i lt clear ∙ found ∙ ap some (omega arith),
        omega arith,
        omega (arith, twice_pow x k, twice_in x (2 ^ k)),
        omega (arith, twice_pow x k, twice_in x (2 ^ k)),
      )
  | inr (t, e) ↦
      (0, rw (clz_loop, e) (ap some (omega arith)), omega arith, omega arith, omega arith)
]

-- On a uint64 other than 0, ctzll is the number of times that 2 divides it.
pub ctzll_lem :
    (x : ℕ)
    → x ≢ 0
    → x < 2 ^ 64
    → (k : ℕ) × (q : ℕ) × (ctzll x ≡ some k) × (k < 64) × (x ≡ (2 * q + 1) * 2 ^ k)
unfolding ctzll
ctzll_lem x nonzero lt =
    let (k, q, found, room, split) = ctz_loop_lem 64 x 0 nonzero lt in
    (k, q, ground (arith, found), room, split)

-- On a uint64 other than 0, clzll is the number of places by which it can be shifted to the left
-- until its highest bit is set, and no bit is lost.
pub clzll_lem :
    (x : ℕ)
    → x ≢ 0
    → x < 2 ^ 64
    → (k : ℕ) × (clzll x ≡ some k) × (k < 64) × (2 ^ 63 ≤ x * 2 ^ k) × (x * 2 ^ k < 2 ^ 64)
unfolding clzll
clzll_lem x nonzero lt =
    let (k, found, room, low, high) = clz_loop_lem 64 x 0 lt (omega arith) in
    (k, ground (arith, found), room, low, high)
