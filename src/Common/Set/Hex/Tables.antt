-- ===== src/Common/Set/Hex/Tables.antt =====
-- The two tables of digits, and what setting a bit of a digit does.
use go_dpdk.Base.{
  ℕ, zero, suc, ◌^◌, ◌<◌, ◌≡◌, refl, sym, inl, inr, arith, Bool, true, false, not, ◌&&◌, ◌||◌, List,
  [], ◌∷◌, Option, none, some, bit_or, ltb, ◌==◌, if◌then◌else◌, Bool-cases, ℕ_discrete,
}
use go_dpdk.Lcore.{lookup}
use go_dpdk.Lcore
use go_dpdk.Lcore.Map.{digit_bit}
use go_dpdk.Common.Set.Hex.{get_hex_byte, hex_index_loop, get_hex_index}

-- A test holds of all numbers below a bound.
abbrev pub all_below : ℕ → (ℕ → Bool) → Bool
all_below zero f = true
all_below (suc n) f = f n && all_below n f

pub all_below-at : (n : ℕ) (f : ℕ → Bool) (k : ℕ) → all_below n f ≡ true → k < n → f k ≡ true
all_below-at zero f k h lt = absurd (omega (arith, lt))
all_below-at (suc n) f k h lt = elim (ℕ_discrete k n) [
  | yes here ↦ rw here (ground (arith, h))
  | no there ↦ all_below-at n f k (ground (arith, h)) (omega (arith, lt, there))
]

-- A test holds of all rows of a table.
abbrev all_rows : (ℕ → ℕ → Bool) → List (ℕ × ℕ) → Bool
all_rows f [] = true
all_rows f ((k, v) ∷ rest) = f k v && all_rows f rest

all_rows-lookup :
    (f : ℕ → ℕ → Bool) (table : List (ℕ × ℕ)) (c d : ℕ)
    → all_rows f table ≡ true
    → lookup table c ≡ some d
    → f c d ≡ true
unfolding lookup
all_rows-lookup f [] c d h e = cc
all_rows-lookup f ((k, v) ∷ rest) c d h e = elim (Bool-cases (k == c)) [
  | inl here ↦
      let key : k ≡ c = ground arith in
      let value : v ≡ d = ground (arith, e) in
      let holds : f k v ≡ true = ground (arith, h) in rw (sym key, sym value) holds
  | inr there ↦ all_rows-lookup f rest c d (ground (arith, h)) (ground (arith, e))
]

-- The table of the reader is the inverse of the table of the writer.
lookup-byte : (c d : ℕ) → lookup Lcore.hex_map c ≡ some d → (d < 16) × (get_hex_byte d ≡ c)
unfolding get_hex_byte
lookup-byte c d e =
    let both : (ltb d 16 && (get_hex_byte d == c)) ≡ true =
      all_rows-lookup (λ c d. ltb d 16 && (get_hex_byte d == c)) Lcore.hex_map c d refl e in
    (ground (arith, both), ground (arith, both))

abbrev pub same_bool : Bool → Bool → Bool
same_bool a b = if a then b else not b

-- Digit `d` with bit `r` set is found, with the bits of `d` and that one.
abbrev is_set_in : Option ℕ → (d r : ℕ) → Bool
is_set_in none d r = false
is_set_in (some d') d r =
    all_below 4 (λ k. same_bool (digit_bit (some d') k) (digit_bit (some d) k || (r == k)))

abbrev pub with_bit : (c r : ℕ) → ℕ
with_bit c r = get_hex_byte (bit_or (get_hex_index c) (2 ^ r))

all_digits :
    all_below 16
      (λ d. all_below 4 (λ r. is_set_in (lookup Lcore.hex_map (with_bit (get_hex_byte d) r)) d r))
    ≡ true
unfolding lookup get_hex_byte get_hex_index hex_index_loop
all_digits = refl

pub or_false : (b : Bool) → b ≡ b || false
or_false true = refl
or_false false = refl

pub same_bool-eq : (a b : Bool) → same_bool a b ≡ true → a ≡ b
same_bool-eq true true h = refl
same_bool-eq true false h = cc
same_bool-eq false true h = cc
same_bool-eq false false h = refl

is_set_in-bits :
    (o : Option ℕ) (d r : ℕ)
    → is_set_in o d r ≡ true
    → (d' : ℕ) × (o ≡ some d')
      × ((k : ℕ) → k < 4 → digit_bit (some d') k ≡ digit_bit (some d) k || (r == k))
is_set_in-bits none d r h = cc
is_set_in-bits (some d') d r h = (
  d',
  refl,
  λ k lt. same_bool-eq (digit_bit (some d') k) (digit_bit (some d) k || (r == k)) (
      all_below-at 4 (λ k. same_bool (digit_bit (some d') k) (digit_bit (some d) k || (r == k))) k h
        lt),
)

pub with_bit-bits :
    (c d r : ℕ)
    → lookup Lcore.hex_map c ≡ some d
    → r < 4
    → (d' : ℕ) × (lookup Lcore.hex_map (with_bit c r) ≡ some d')
      × ((k : ℕ) → k < 4 → digit_bit (some d') k ≡ digit_bit (some d) k || (r == k))
with_bit-bits c d r found lt =
    let (small, byte) = lookup-byte c d found in
    let row =
      all_below-at 16
        (λ d. all_below 4 (λ r. is_set_in (lookup Lcore.hex_map (with_bit (get_hex_byte d) r)) d r))
        d all_digits small in
    let cell =
      all_below-at 4 (λ r. is_set_in (lookup Lcore.hex_map (with_bit (get_hex_byte d) r)) d r) r row
        lt in
    is_set_in-bits (lookup Lcore.hex_map (with_bit c r)) d r (rw (sym byte) cell)
