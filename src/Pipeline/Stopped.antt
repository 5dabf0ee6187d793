-- ===== src/Pipeline/Stopped.antt =====
-- When the loop of a pipeline ends.
use native.Mathlib.Nat.{
  pow-suc, pow-le-pow_right, one-le-pow, zero-add, mul_assoc, add-mul-mod_self_right, mul-mod_left,
  div-add-mod', mod-lt,
}
use go_dpdk.Base.{
  ℕ, zero, suc, ◌+◌, ◌-◌, ◌*◌, ◌/◌, ◌%◌, ◌^◌, ◌<◌, ◌≤◌, ◌≡◌, ◌⊎◌, inl, inr, refl, sym, ap, ◌∙◌,
  arith, bit_and, u32, sub32, leb, ◌==◌, not, ◌||◌, Bool-cases, none, some, ℤ, pos,
}
use go_dpdk.Bits.{bit_and_low}
use go_dpdk.Pipeline.{
  Control, loop_round, pipeline_loop, running, returned, run_loop, simple_control,
}
use go_dpdk.Pipeline.Flush.{power_test}

interval : (k : ℕ) → k < 32 → (0 < 2 ^ k) × (2 ^ k ≤ 2 ^ 31)
interval k lt = (
  omega (arith, one-le-pow k 2),
  pow-le-pow_right {n = 2} (omega arith) {i = k} {j = 31} (omega arith),
)

mul_swap : (a b : ℕ) → a * 2 * b ≡ a * b * 2
mul_swap a b = grind arith

-- A power of 2 is a multiple of each smaller one.
split_power : (j k : ℕ) → 2 ^ (j + k) ≡ 2 ^ j * 2 ^ k
split_power zero k = omega (arith, ap (λ (t : ℕ). 2 ^ t) (zero-add k))
split_power (suc j) k =
    let shift : suc j + k ≡ suc (j + k) = omega arith in
    rw shift (
      omega (
        arith,
        pow-suc 2 (j + k),
        split_power j k,
        ap (λ (t : ℕ). t * 2 ^ k) (pow-suc 2 j),
        mul_swap (2 ^ j) (2 ^ k),
      ))

mod_of_mod : (q p c : ℕ) → 2 ^ 32 ≡ c * p → u32 (q * p) % p ≡ 0
mod_of_mod q p c whole =
    let z = q * p / 2 ^ 32 in
    let parts : q * p ≡ u32 (q * p) + z * c * p =
      omega (arith, ap (λ (t : ℕ). z * t) whole, mul_assoc z c p) in
    sym (add-mul-mod_self_right (u32 (q * p)) (z * c) p)
    ∙ ap (λ (t : ℕ). t % p) (sym parts)
    ∙ mul-mod_left q p

-- The counter agrees with the round in its low bits.
counter_low : (k q : ℕ) → k < 32 → bit_and (u32 (q * 2 ^ k)) (sub32 (2 ^ k) 1) ≡ 0
counter_low k q lt =
    let whole : 2 ^ 32 ≡ 2 ^ (32 - k) * 2 ^ k =
      sym (ap (λ (t : ℕ). 2 ^ t) {x = 32 - k + k} {y = 32} (omega arith))
      ∙ split_power (32 - k) k in
    let mask : sub32 (2 ^ k) 1 ≡ 2 ^ k - 1 = omega (arith, interval k lt) in
    rw (mask, bit_and_low k (u32 (q * 2 ^ k))) (mod_of_mod q (2 ^ k) (2 ^ (32 - k)) whole)

-- In a round that is a multiple of the flush interval, from the stop on, the loop returns 0; in
-- any other round it returns 0 or goes on.
round_stops :
    (k q stop : ℕ)
    → k < 32
    → stop ≤ q * 2 ^ k
    → loop_round (2 ^ k) (simple_control stop) (u32 (q * 2 ^ k)) (q * 2 ^ k) ≡ some (pos 0)
unfolding loop_round simple_control
round_stops k q stop lt late = ground (arith, interval k lt, counter_low k q lt)

round_goes :
    (flush stop n t : ℕ)
    → (loop_round flush (simple_control stop) n t ≡ none)
      ⊎ (loop_round flush (simple_control stop) n t ≡ some (pos 0))
unfolding loop_round simple_control
round_goes flush stop n t = elim (Bool-cases (flush == 0 || not (bit_and n (sub32 flush 1) == 0))) [
  | inl skip ↦ rw skip (inl refl)
  | inr flushes ↦ rw flushes (elim (Bool-cases (leb stop t)) [
    | inl late ↦ rw late (inr refl)
    | inr early ↦ rw early (inl refl)
  ])
]

round_on :
    (rounds flush : ℕ) (ctrl : Control) (n t : ℕ)
    → loop_round flush ctrl n t ≡ none
    → pipeline_loop (suc rounds) flush ctrl n t
      ≡ pipeline_loop rounds flush ctrl (u32 (n + 1)) (t + 1)
unfolding pipeline_loop
round_on rounds flush ctrl n t e = rw (pipeline_loop, e) refl

round_ends :
    (rounds flush : ℕ) (ctrl : Control) (n t : ℕ) (rc : ℤ)
    → loop_round flush ctrl n t ≡ some rc
    → pipeline_loop (suc rounds) flush ctrl n t ≡ some rc
unfolding pipeline_loop
round_ends rounds flush ctrl n t rc e = rw (pipeline_loop, e) refl

loop_stops :
    (d more k q stop t : ℕ)
    → k < 32
    → t + d ≡ q * 2 ^ k
    → stop ≤ q * 2 ^ k
    → pipeline_loop (suc (d + more)) (2 ^ k) (simple_control stop) (u32 t) t ≡ some (pos 0)
loop_stops zero more k q stop t lt at late =
    let now : t ≡ q * 2 ^ k = omega arith in
    round_ends (0 + more) (2 ^ k) (simple_control stop) (u32 t) t (pos 0)
      (rw now (round_stops k q stop lt late))
loop_stops (suc d) more k q stop t lt at late =
    let count : u32 (u32 t + 1) ≡ u32 (t + 1) = omega arith in
    let fuel : suc d + more ≡ suc (d + more) = omega arith in
    elim (round_goes (2 ^ k) stop (u32 t) t) [
      | inl on ↦ rw fuel (
          round_on (suc (d + more)) (2 ^ k) (simple_control stop) (u32 t) t on
          ∙ rw count (loop_stops d more k q stop (t + 1) lt (omega arith) late))
      | inr ended ↦ round_ends (suc d + more) (2 ^ k) (simple_control stop) (u32 t) t (pos 0) ended
    ]

run_of_ends :
    (rounds flush : ℕ) (ctrl : Control) (rc : ℤ)
    → bit_and flush (sub32 flush 1) ≡ 0
    → pipeline_loop rounds flush ctrl 0 0 ≡ some rc
    → run_loop rounds flush ctrl ≡ returned rc
unfolding run_loop
run_of_ends rounds flush ctrl rc passes ends = rw (run_loop, passes, ends) refl

next_multiple : (stop p : ℕ) → 0 < p → (stop ≤ (stop / p + 1) * p) × ((stop / p + 1) * p ≤ stop + p)
next_multiple stop p some_p =
    let split : (stop / p + 1) * p ≡ stop / p * p + p = grind arith in
    (omega (arith, div-add-mod' stop p, mod-lt stop some_p), omega (arith, div-add-mod' stop p))

-- With an interval that is a power of 2, RunLoop returns nil at the latest one interval after Stop:
-- after that many rounds it has returned, whatever rounds are counted on top.
pub run_loop_stops :
    (k stop more : ℕ)
    → k < 32
    → run_loop (suc (stop + 2 ^ k + more)) (2 ^ k) (simple_control stop) ≡ returned (pos 0)
unfolding run_loop
run_loop_stops k stop more lt =
    let q = stop / 2 ^ k + 1 in
    let (late, soon) = next_multiple stop (2 ^ k) (interval k lt).0 in
    let d = q * 2 ^ k in
    let slack = stop + 2 ^ k + more - d in
    let fuel : stop + 2 ^ k + more ≡ d + slack = omega arith in
    let mask : sub32 (2 ^ k) 1 ≡ 2 ^ k - 1 = omega (arith, interval k lt) in
    let passes : bit_and (2 ^ k) (sub32 (2 ^ k) 1) ≡ 0 = rw mask (power_test k) in
    let ends = loop_stops d slack k q stop 0 lt (omega arith) late in
    rw (fuel) (run_of_ends (suc (d + slack)) (2 ^ k) (simple_control stop) (pos 0) passes ends)

zero_round : (ctrl : Control) (n t : ℕ) → loop_round 0 ctrl n t ≡ none
unfolding loop_round
zero_round ctrl n t = refl

zero_loop : (rounds n t : ℕ) (ctrl : Control) → pipeline_loop rounds 0 ctrl n t ≡ none
unfolding pipeline_loop
zero_loop zero n t ctrl = refl
zero_loop (suc rounds) n t ctrl =
    round_on rounds 0 ctrl n t (zero_round ctrl n t) ∙ zero_loop rounds (u32 (n + 1)) (t + 1) ctrl

-- With the interval 0, which RunLoop accepts, it never returns, whatever the controller answers.
pub run_loop_zero : (rounds : ℕ) (ctrl : Control) → run_loop rounds 0 ctrl ≡ running
unfolding run_loop
run_loop_zero rounds ctrl = rw (zero_loop rounds 0 0 ctrl) refl
