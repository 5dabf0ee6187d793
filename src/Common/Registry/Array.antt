-- ===== src/Common/Registry/Array.antt =====
-- The registry in an array, which starts again when the last object is deleted.
use go_dpdk.Base.{
  ℕ, zero, suc, ◌^◌, ◌≤◌, ◌<◌, ◌≡◌, ◌≢◌, ◌∙◌, refl, ap, arith, true, false, List, [], ◌∷◌, ◌++◌,
  Option, none, some, length, get_elem?, set, get_elem?-set_ne, sub64, ltb, ◌==◌,
}
use go_dpdk.Common.Registry.{ObjArray, array_create, array_read, array_delete}

module _ {ℓ} {A : Type ℓ} where
  -- The number of objects that are not nil.
  unfoldable pub live : List (Option A) → ℕ
  live [] = 0
  live (none ∷ xs) = live xs
  live (some a ∷ xs) = suc (live xs)

  -- The counter counts the objects.
  pub record IsCounted (r : ObjArray A) : Type ℓ where
    pub counted : r.cnt ≡ live r.array
    pub narrow : length r.array < 2 ^ 63

  live-le : (xs : List (Option A)) → live xs ≤ length xs
  unfolding live
  live-le [] = omega arith
  live-le (none ∷ xs) = omega (arith, live-le xs)
  live-le (some a ∷ xs) = omega (arith, live-le xs)

  live-set :
      (xs : List (Option A)) (i : ℕ) {a : A}
      → get_elem? xs i ≡ some (some a)
      → (i < length xs) × (live xs ≡ suc (live (set xs i none)))
  unfolding live
  live-set [] i h = absurd cc
  live-set (none ∷ xs) zero h = absurd cc
  live-set (some b ∷ xs) zero h = (omega arith, refl)
  live-set (none ∷ xs) (suc i) h = let ih = live-set xs i h in (omega arith, ih.1)
  live-set (some b ∷ xs) (suc i) h = let ih = live-set xs i h in (omega arith, ap suc ih.1)

  live-get : (xs : List (Option A)) (i : ℕ) {a : A} → get_elem? xs i ≡ some (some a) → 0 < live xs
  live-get xs i h = omega (arith, live-set xs i h)

  live-append : (xs : List (Option A)) (a : A) → live (xs ++ (some a ∷ [])) ≡ suc (live xs)
  unfolding live
  live-append [] a = refl
  live-append (none ∷ xs) a = live-append xs a
  live-append (some b ∷ xs) a = ap suc (live-append xs a)

  get_elem?-append_self :
      (xs : List (Option A)) (o : Option A) → get_elem? (xs ++ (o ∷ [])) (length xs) ≡ some o
  get_elem?-append_self [] o = refl
  get_elem?-append_self (x ∷ xs) o = get_elem?-append_self xs o

  get_elem?-append_front :
      (xs ys : List (Option A)) (j : ℕ) → j < length xs → get_elem? (xs ++ ys) j ≡ get_elem? xs j
  get_elem?-append_front [] ys j h = absurd (omega arith)
  get_elem?-append_front (x ∷ xs) ys zero h = refl
  get_elem?-append_front (x ∷ xs) ys (suc j) h = get_elem?-append_front xs ys j (omega arith)

  -- Where the counter counts the objects, creating an object keeps it right; the object is read back under the new identifier,
  -- and every other one is read as before.
  pub array_create_lem :
      (r : ObjArray A) (a : A) (j : ℕ)
      → IsCounted r
      → j < length r.array
      → ((array_create r (some a)).0.cnt ≡ live (array_create r (some a)).0.array)
        × (array_read (array_create r (some a)).0 (array_create r (some a)).1 ≡ some (some a))
        × (array_read (array_create r (some a)).0 j ≡ array_read r j)
  unfolding array_create array_read
  array_create_lem r a j c h =
      let counted = c.counted in
      let narrow = c.narrow in
      (
        omega (arith, live-append r.array a, live-le r.array),
        get_elem?-append_self r.array (some a),
        get_elem?-append_front r.array (some a ∷ []) j h,
      )

  -- What deleting does to a slot and to the others; `none` is a panic.
  abbrev pub reads_after : Option (ObjArray A) → ℕ → Option (Option A)
  reads_after none j = none
  reads_after (some r) j = array_read r j

  -- Where the counter counts the objects, deleting an object that is there keeps every other object readable, although the array starts
  -- again when the counter reaches zero.
  pub array_delete_lem :
      (r : ObjArray A) (id j : ℕ) {a b : A}
      → IsCounted r
      → array_read r id ≡ some (some a)
      → id ≢ j
      → array_read r j ≡ some (some b)
      → reads_after (array_delete r id) j ≡ some (some b)
  unfolding array_delete array_read
  array_delete_lem r id j c at other there =
      let found = live-set r.array id at in
      let inside : ltb id (length r.array) ≡ true = ground arith in
      let kept = get_elem?-set_ne r.array none other ∙ there in
      let counted = c.counted in
      let narrow = c.narrow in
      let more : 0 < live (set r.array id none) = live-get (set r.array id none) j kept in
      let nonzero : (sub64 r.cnt 1 == 0) ≡ false = ground (arith, live-le r.array) in
      rw (inside, nonzero) kept

  pub inside_of :
      (xs : List (Option A)) (i : ℕ) {o : Option A} → get_elem? xs i ≡ some o → i < length xs
  inside_of [] i h = absurd cc
  inside_of (x ∷ xs) zero h = omega arith
  inside_of (x ∷ xs) (suc i) h = omega (arith, inside_of xs i h)

  -- Deleting an identifier a second time is counted again: where the counter counts the objects and
  -- one is left, the second deletion succeeds and empties the array, and reading that object panics.
  pub array_delete_twice :
      (r : ObjArray A) (id j : ℕ) {a : A}
      → IsCounted r
      → live r.array ≡ 1
      → array_read r id ≡ some none
      → array_read r j ≡ some (some a)
      → (array_delete r id ≡ some (record { array = []; cnt = 0 }))
        × (reads_after (array_delete r id) j ≡ none)
  unfolding array_delete array_read
  array_delete_twice r id j c one dead there =
      let counted = c.counted in
      let inside : ltb id (length r.array) ≡ true = ground (arith, inside_of r.array id dead) in
      let last : sub64 r.cnt 1 ≡ 0 = omega arith in rw (inside, last) (refl, refl)
