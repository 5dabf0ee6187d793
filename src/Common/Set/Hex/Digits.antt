-- ===== src/Common/Set/Hex/Digits.antt =====
-- One number sets one bit of the text.
use go_dpdk.Base.{
  ℕ, zero, suc, ◌+◌, ◌-◌, ◌*◌, ◌/◌, ◌%◌, ◌<◌, ◌≡◌, refl, ap, ◌∙◌, inl, inr, arith, true, false,
  ◌||◌, List, [], ◌∷◌, ◌++◌, some, length, get_or, set, ltb, leb, ◌==◌, if◌then◌else◌, Bool-cases,
  ℕ_discrete, length-set, length-append,
}
use go_dpdk.Lcore.{lookup}
use go_dpdk.Lcore
use go_dpdk.Lcore.Map.{digit_bit, bit_at, IsHex}
use go_dpdk.Common.Set.Hex.{zeros, grow, add_number, hex}
use go_dpdk.Common.Set.Hex.Tables.{
  all_below, all_below-at, same_bool, with_bit, or_false, same_bool-eq, with_bit-bits,
}

get_or-set :
    (w : List ℕ) (j v m : ℕ)
    → j < length w
    → get_or (set w j v) m 0 ≡ (if m == j then v else get_or w m 0)
get_or-set [] j v m lt = absurd (omega (arith, lt))
get_or-set (x ∷ w) zero v zero lt = refl
get_or-set (x ∷ w) zero v (suc m) lt = let ne : (suc m == 0) ≡ false = ground arith in rw ne refl
get_or-set (x ∷ w) (suc j) v zero lt = let ne : (0 == suc j) ≡ false = ground arith in rw ne refl
get_or-set (x ∷ w) (suc j) v (suc m) lt =
    let shift : (suc m == suc j) ≡ (m == j) = ground arith in
    rw shift (get_or-set w j v m (omega (arith, lt)))

set-bit :
    (w : List ℕ) (i r d d' x : ℕ)
    → let j = length w - 1 - i in
      let c = get_or w j 0 in
      let w' = set w j (with_bit c r) in
      j < length w
      → i < length w
      → r < 4
      → length w' ≡ length w
      → lookup Lcore.hex_map c ≡ some d
      → lookup Lcore.hex_map (with_bit c r) ≡ some d'
      → ((k : ℕ) → k < 4 → digit_bit (some d') k ≡ digit_bit (some d) k || (r == k))
      → bit_at w' x ≡ bit_at w x || (4 * i + r == x)
set-bit w i r d d' x at inside lt same_length found found' bits =
    let j = length w - 1 - i in
    let c = get_or w j 0 in
    let w' = set w j (with_bit c r) in
    let m = length w - x / 4 - 1 in
    let read = get_or-set w j (with_bit c r) m at in
    elim (ℕ_discrete (x / 4) i) [
      | yes here ↦
          let here_j : m ≡ j = omega (arith, here) in
          let holds : ltb (x / 4) (length w) ≡ true = ground (arith, here, inside) in
          let test : (m == j) ≡ true = ground (arith, here_j) in
          let digits : (r == x % 4) ≡ (4 * i + r == x) = ground (arith, here, lt) in
          let old : get_or w m 0 ≡ c = ap (λ a. get_or w a 0) here_j in
          rw (same_length, holds, read, test, found', old, found)
            (bits (x % 4) (omega arith) ∙ rw digits refl)
      | no there ↦ elim (Bool-cases (ltb (x / 4) (length w))) [
        | inl holds ↦
            let test : (m == j) ≡ false = ground (arith, holds, there, inside) in
            let away : (4 * i + r == x) ≡ false = ground (arith, there, lt) in
            rw (same_length, holds, read, test, away) (or_false _)
        | inr fails ↦
            let away : (4 * i + r == x) ≡ false = ground (arith, there, lt) in
            rw (same_length, fails, away) refl
      ]
    ]

-- Setting bit `r` of digit `i`, counted from the end.
set-bit_at :
    (w : List ℕ) (i r : ℕ)
    → IsHex w
    → i < length w
    → r < 4
    → let w' = set w (length w - 1 - i) (with_bit (get_or w (length w - 1 - i) 0) r) in
      IsHex w' × ((x : ℕ) → bit_at w' x ≡ bit_at w x || (4 * i + r == x))
set-bit_at w i r hex inside lt =
    let j = length w - 1 - i in
    let at : j < length w = omega (arith, inside) in
    let c = get_or w j 0 in
    let (d, found) = hex j at in
    let (d', found', bits) = with_bit-bits c d r found lt in
    let same_length = length-set w j (with_bit c r) in
    (
      λ m m_inside. elim (ℕ_discrete m j) [
        | yes here ↦
            let test : (m == j) ≡ true = ground (arith, here) in
            (d', rw (get_or-set w j (with_bit c r) m at, test) found')
        | no there ↦
            let test : (m == j) ≡ false = ground (arith, there) in
            rw (get_or-set w j (with_bit c r) m at, test)
              (hex m (omega (arith, same_length, m_inside)))
      ],
      λ x. set-bit w i r d d' x at inside lt same_length found found' bits,
    )

zeros-length : (k : ℕ) → length (zeros k) ≡ k
zeros-length zero = refl
zeros-length (suc k) = ap suc (zeros-length k)

get_or-zeros :
    (k : ℕ) (w : List ℕ) (m : ℕ)
    → get_or (zeros k ++ w) m 0 ≡ (if ltb m k then 48 else get_or w (m - k) 0)
get_or-zeros zero w m =
    let no : ltb m 0 ≡ false = ground arith in
    let back : m - 0 ≡ m = omega arith in rw (no, back) refl
get_or-zeros (suc k) w zero = let yes_ : ltb 0 (suc k) ≡ true = ground arith in rw yes_ refl
get_or-zeros (suc k) w (suc m) =
    let shift : ltb (suc m) (suc k) ≡ ltb m k = ground arith in
    let back : suc m - suc k ≡ m - k = omega arith in rw (shift, back) (get_or-zeros k w m)

zeros-IsHex : (k : ℕ) (w : List ℕ) → IsHex w → IsHex (zeros k ++ w)
unfolding lookup
zeros-IsHex k w hex m inside = elim (Bool-cases (ltb m k)) [
  | inl before ↦ (0, rw (get_or-zeros k w m, before) refl)
  | inr behind ↦
      let (d, found) =
        hex (m - k) (ground (arith, inside, behind, length-append (zeros k) w, zeros-length k)) in
      (d, rw (get_or-zeros k w m, behind) found)
]

zero_digit : all_below 4 (λ k. same_bool (digit_bit (lookup Lcore.hex_map 48) k) false) ≡ true
unfolding lookup
zero_digit = refl

zeros-bit_at : (k : ℕ) (w : List ℕ) (x : ℕ) → bit_at (zeros k ++ w) x ≡ bit_at w x
zeros-bit_at k w x =
    let total : length (zeros k ++ w) ≡ k + length w =
      length-append (zeros k) w ∙ ap (λ n. n + length w) (zeros-length k) in
    let read = get_or-zeros k w (k + length w - x / 4 - 1) in
    elim (Bool-cases (ltb (x / 4) (length w))) [
      | inl holds ↦
          let inside : ltb (x / 4) (k + length w) ≡ true = ground (arith, holds) in
          let behind : ltb (k + length w - x / 4 - 1) k ≡ false = ground (arith, holds) in
          let shift : k + length w - x / 4 - 1 - k ≡ length w - x / 4 - 1 = ground (arith, holds) in
          rw (total, read, holds, inside, behind, shift) refl
      | inr fails ↦ elim (Bool-cases (ltb (x / 4) (k + length w))) [
        | inl inside ↦
            let before : ltb (k + length w - x / 4 - 1) k ≡ true = ground (arith, fails, inside) in
            let off =
              all_below-at 4 (λ j. same_bool (digit_bit (lookup Lcore.hex_map 48) j) false) (x % 4)
                zero_digit (omega arith) in
            rw (total, read, fails, inside, before)
              (same_bool-eq (digit_bit (lookup Lcore.hex_map 48) (x % 4)) false off)
        | inr outside ↦ rw (total, fails, outside) refl
      ]
    ]

grow-bits :
    (w : List ℕ) (i : ℕ)
    → IsHex w
    → IsHex (grow w i) × (i < length (grow w i)) × ((x : ℕ) → bit_at (grow w i) x ≡ bit_at w x)
unfolding grow
grow-bits w i hex = elim (Bool-cases (leb (length w) i)) [
  | inl short ↦
      let k = i - length w + 1 in
      rw short (
        zeros-IsHex k w hex,
        ground (arith, short, length-append (zeros k) w, zeros-length k),
        zeros-bit_at k w,
      )
  | inr long ↦ rw long (hex, ground (arith, long), λ x. refl)
]

-- A number sets its bit, and no other.
pub add_number-bit_at :
    (w : List ℕ) (n : ℕ)
    → IsHex w
    → IsHex (add_number w n) × ((x : ℕ) → bit_at (add_number w n) x ≡ bit_at w x || (n == x))
unfolding add_number
add_number-bit_at w n hex =
    let (grown, room, same) = grow-bits w (n / 4) hex in
    let (still, bits) = set-bit_at (grow w (n / 4)) (n / 4) (n % 4) grown room (omega arith) in
    let number : 4 * (n / 4) + n % 4 ≡ n = omega arith in
    (still, λ x. bits x ∙ ap (λ b. b || (4 * (n / 4) + n % 4 == x)) (same x) ∙ rw number refl)
