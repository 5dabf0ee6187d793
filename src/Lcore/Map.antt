-- ===== src/Lcore/Map.antt =====
-- Reading a map gives the numbers of its bits, in order.
use go_dpdk.Base.{
  ℕ, zero, suc, ◌+◌, ◌-◌, ◌*◌, ◌/◌, ◌%◌, ◌^◌, ◌<◌, ◌≡◌, refl, sym, ap, ◌∙◌, inl, inr, arith, Bool,
  true, false, not, List, [], ◌∷◌, ◌++◌, Option, none, some, length, get_or, bit_and, ltb, ◌==◌,
  if◌then◌else◌, Bool-cases, Option-cases, ℕ_discrete,
}
use mathlib.Core.List.{append_assoc, append-nil}
use go_dpdk.Lcore.{
  ok, failed, err_invalid_map, hex_map, lookup, append_if, append_digit, read_loop,
  read_cpu_hex_map,
}

abbrev pick : Bool → ℕ → List ℕ
pick b x = if b then x ∷ [] else []

-- The numbers from `low` on, `n` of them, that pass a test.
unfoldable pub members : (ℕ → Bool) → (low n : ℕ) → List ℕ
members p low zero = []
members p low (suc n) = pick (p low) low ++ members p (low + 1) n

abbrev pub digit_bit : Option ℕ → (k : ℕ) → Bool
digit_bit none k = false
digit_bit (some n) k = not (bit_and n (2 ^ k) == 0)

-- Bit `x` of a hexadecimal text.
abbrev pub bit_at : List ℕ → (x : ℕ) → Bool
bit_at w x =
    if ltb (x / 4) (length w)
    then digit_bit (lookup hex_map (get_or w (length w - x / 4 - 1) 0)) (x % 4)
    else false

-- Every byte of the text is a digit of the table.
abbrev pub IsHex : List ℕ → Type 0
IsHex w = (i : ℕ) → i < length w → (d : ℕ) × (lookup hex_map (get_or w i 0) ≡ some d)

members_none : (p : ℕ → Bool) (low : ℕ) → members p low (4 * 0) ≡ []
unfolding members
members_none p low = refl

append_if-pick :
    (n bit : ℕ) (cores : List ℕ) (core : ℕ)
    → append_if n bit cores core ≡ cores ++ pick (not (bit_and n bit == 0)) core
unfolding append_if
append_if-pick n bit cores core = elim (Bool-cases (bit_and n bit == 0)) [
  | inl zero_bit ↦ rw zero_bit (sym (append-nil cores))
  | inr one_bit ↦ rw one_bit refl
]

append_digit-members :
    (p : ℕ → Bool) (n i : ℕ) (cores : List ℕ) (left : ℕ)
    → ((k : ℕ) → k < 4 → not (bit_and n (2 ^ k) == 0) ≡ p (4 * i + k))
    → append_digit n i cores ++ members p (4 * i + 4) left
      ≡ cores ++ members p (4 * i) (suc (suc (suc (suc left))))
unfolding append_digit members
append_digit-members p n i cores left h =
    let two : 4 * i + 1 + 1 ≡ 4 * i + 2 = omega arith in
    let three : 4 * i + 2 + 1 ≡ 4 * i + 3 = omega arith in
    let four : 4 * i + 3 + 1 ≡ 4 * i + 4 = omega arith in
    let start : 4 * i + 0 ≡ 4 * i = omega arith in
    let b0 : not (bit_and n 1 == 0) ≡ p (4 * i) = h 0 (omega arith) ∙ ap p start in
    let b1 : not (bit_and n 2 == 0) ≡ p (4 * i + 1) = h 1 (omega arith) in
    let b2 : not (bit_and n 4 == 0) ≡ p (4 * i + 2) = h 2 (omega arith) in
    let b3 : not (bit_and n 8 == 0) ≡ p (4 * i + 3) = h 3 (omega arith) in
    rw (two, three, four)
      (rw
        (
          append_if-pick n 1 cores (4 * i),
          append_if-pick n 2 _ (4 * i + 1),
          append_if-pick n 4 _ (4 * i + 2),
          append_if-pick n 8 _ (4 * i + 3),
          b0,
          b1,
          b2,
          b3,
        )
        (simp append_assoc refl))

digit_bits :
    (w : List ℕ) (i d : ℕ)
    → i < length w
    → lookup hex_map (get_or w (length w - i - 1) 0) ≡ some d
    → (k : ℕ) → k < 4
    → not (bit_and d (2 ^ k) == 0) ≡ bit_at w (4 * i + k)
digit_bits w i d inside found k lt =
    let quotient : (4 * i + k) / 4 ≡ i = omega arith in
    let remainder : (4 * i + k) % 4 ≡ k = omega arith in
    let holds : ltb i (length w) ≡ true = ground arith in
    rw (quotient, remainder, holds, found) refl

read_loop-members :
    (w : List ℕ)
    → IsHex w
    → (left i : ℕ) (cores : List ℕ) → left + i ≡ length w
    → read_loop w left i cores ≡ ok (cores ++ members (bit_at w) (4 * i) (4 * left))
unfolding read_loop
read_loop-members w hex zero i cores e =
    let none_left : members (bit_at w) (4 * i) (4 * 0) ≡ [] = members_none (bit_at w) (4 * i) in
    ap ok (sym (append-nil cores) ∙ ap (λ t. cores ++ t) (sym none_left))
read_loop-members w hex (suc left) i cores e =
    let (d, found) = hex (length w - i - 1) (omega (arith, e)) in
    let four : 4 * suc left ≡ suc (suc (suc (suc (4 * left)))) = omega arith in
    let next : 4 * (i + 1) ≡ 4 * i + 4 = omega arith in
    let step =
      append_digit-members (bit_at w) d i cores (4 * left)
        (digit_bits w i d (omega (arith, e)) found) in
    let rest = read_loop-members w hex left (i + 1) (append_digit d i cores) (omega (arith, e)) in
    rw found (
      rest
      ∙ ap ok (
          ap (λ a. append_digit d i cores ++ members (bit_at w) a (4 * left)) next
          ∙ step
          ∙ ap (λ n. cores ++ members (bit_at w) (4 * i) n) (sym four)))

-- A text of hexadecimal digits reads as the numbers of its bits, in order; the last digit has the
-- bits 0 to 3.
pub read_cpu_hex_map-members :
    (w : List ℕ) → IsHex w → read_cpu_hex_map (some w) ≡ ok (members (bit_at w) 0 (4 * length w))
unfolding read_cpu_hex_map
read_cpu_hex_map-members w hex = read_loop-members w hex (length w) 0 [] (omega arith)

read_loop-invalid :
    (w : List ℕ) (at left i : ℕ) (cores : List ℕ)
    → at < length w
    → lookup hex_map (get_or w at 0) ≡ none
    → left + i ≡ length w
    → at + i < length w
    → read_loop w left i cores ≡ failed err_invalid_map
unfolding read_loop
read_loop-invalid w at zero i cores inside bad e le = absurd (omega (arith, e, le))
read_loop-invalid w at (suc left) i cores inside bad e le =
    elim (ℕ_discrete (length w - i - 1) at) [
      | yes here ↦ rw (here, bad) refl
      | no there ↦ elim (Option-cases (lookup hex_map (get_or w (length w - i - 1) 0))) [
        | inl missing ↦ rw missing refl
        | inr (d, found) ↦
            let further : at + (i + 1) < length w = omega (arith, le, there) in
            rw found (
              read_loop-invalid w at left (i + 1) (append_digit d i cores) inside bad
                (omega (arith, e)) further)
      ]
    ]

-- A byte that is no digit makes the map invalid.
pub read_cpu_hex_map-invalid :
    (w : List ℕ) (i : ℕ)
    → i < length w
    → lookup hex_map (get_or w i 0) ≡ none
    → read_cpu_hex_map (some w) ≡ failed err_invalid_map
unfolding read_cpu_hex_map
read_cpu_hex_map-invalid w i inside bad =
    read_loop-invalid w i (length w) 0 [] inside bad (omega arith) (omega (arith, inside))
