-- ===== src/Common/Set/Insert.antt =====
-- The slice operations of `Map.Set` insert at the place that the search gives.
use go_dpdk.Base.{
  ℕ, zero, suc, ◌-◌, ◌≤◌, ◌<◌, ◌≡◌, inl, inr, refl, ap, ◌∙◌, arith, Bool, true, false, ◌&&◌, ◌||◌,
  List, [], ◌∷◌, ◌++◌, length, take, drop, get_or, ltb, ◌==◌, if◌then◌else◌, Bool-cases,
}
use go_dpdk.Common.Set.{search_ints, find, copy_up, assign, set, is_set, count}

-- What `set` means on ascending slices.
unfoldable pub insert : List ℕ → ℕ → List ℕ
insert [] n = n ∷ []
insert (x ∷ xs) n =
    let rest = insert xs n in if ltb x n then x ∷ rest else if x == n then x ∷ xs else n ∷ x ∷ xs

unfoldable pub member : List ℕ → ℕ → Bool
member [] n = false
member (x ∷ xs) n = (x == n) || member xs n

-- The slice ascends, from `low` on.
abbrev pub IsFrom : ℕ → List ℕ → Type 0
IsFrom low [] = Unit
IsFrom low (x ∷ xs) = (low ≤ x) × IsFrom (suc x) xs

abbrev pub IsAscending : List ℕ → Type 0
IsAscending xs = IsFrom 0 xs

take-length_append : (xs ys : List ℕ) → take (length xs) (xs ++ ys) ≡ xs
take-length_append [] ys = refl
take-length_append (x ∷ xs) ys = ap (λ t. x ∷ t) (take-length_append xs ys)

length-snoc : (xs : List ℕ) (n : ℕ) → length (xs ++ (n ∷ [])) ≡ suc (length xs)
length-snoc [] n = refl
length-snoc (x ∷ xs) n = ap suc (length-snoc xs n)

assign-copy_up :
    (xs : List ℕ) (k n : ℕ)
    → k ≤ length xs
    → assign (copy_up (xs ++ (n ∷ [])) k) k n ≡ take k xs ++ (n ∷ drop k xs)
unfolding assign copy_up
assign-copy_up [] zero n h = refl
assign-copy_up [] (suc k) n h = absurd (omega arith)
assign-copy_up (x ∷ xs) zero n h =
    ap (λ t. n ∷ t)
      (ap (λ j. take j (x ∷ (xs ++ (n ∷ [])))) {y = length (x ∷ xs)}
          (omega (arith, length-snoc xs n))
        ∙ take-length_append (x ∷ xs) (n ∷ []))
assign-copy_up (x ∷ xs) (suc k) n h =
    let s = xs ++ (n ∷ []) in
    let left : length (x ∷ s) - suc (suc k) ≡ length s - suc k = omega arith in
    rw left (ap (λ t. x ∷ t) (assign-copy_up xs k n (omega arith)))

search_ints-le : (m : List ℕ) (n : ℕ) → search_ints m n ≤ length m
unfolding search_ints
search_ints-le [] n = omega arith
search_ints-le (x ∷ xs) n = ground (arith, search_ints-le xs n)

if_cons :
    (b : Bool) (x : ℕ) (xs ys : List ℕ)
    → (if b then x ∷ xs else (x ∷ ys)) ≡ x ∷ (if b then xs else ys)
if_cons true x xs ys = refl
if_cons false x xs ys = refl

placed :
    (xs : List ℕ) (n : ℕ)
    → (if (find xs n).1
        then xs
        else (take (search_ints xs n) xs ++ (n ∷ drop (search_ints xs n) xs)))
      ≡ insert xs n
unfolding find search_ints insert
placed [] n = refl
placed (x ∷ xs) n = elim (Bool-cases (ltb x n)) [
  | inl below ↦
      let k = search_ints xs n in
      let shift : ltb (suc k) (suc (length xs)) ≡ ltb k (length xs) = ground arith in
      rw (below, shift)
        (if_cons (ltb k (length xs) && (get_or xs k 0 == n)) x xs (take k xs ++ (n ∷ drop k xs))
          ∙ ap (λ t. x ∷ t) (placed xs n))
  | inr here ↦ let inside : ltb 0 (suc (length xs)) ≡ true = ground arith in rw (here, inside)
]

-- The slice operations of `Set` insert the number before the first that is not below it, unless
-- that is the number itself.
pub set-eq-insert : (xs : List ℕ) (n : ℕ) → set xs n ≡ insert xs n
unfolding set find insert
set-eq-insert xs n = rw (assign-copy_up xs (search_ints xs n) n (search_ints-le xs n)) (placed xs n)

pub member_above : (low n : ℕ) (xs : List ℕ) → IsFrom low xs → n < low → member xs n ≡ false
unfolding member
member_above low n [] a h = refl
member_above low n (x ∷ xs) a h = ground (arith, member_above (suc x) n xs)

is_set_from : (low : ℕ) (xs : List ℕ) (n : ℕ) → IsFrom low xs → is_set xs n ≡ member xs n
unfolding is_set find search_ints member
is_set_from low [] n a = refl
is_set_from low (x ∷ xs) n (_, a) = elim (Bool-cases (ltb x n)) [
  | inl below ↦
      let k = search_ints xs n in
      let shift : ltb (suc k) (suc (length xs)) ≡ ltb k (length xs) = ground arith in
      let other : (x == n) ≡ false = ground arith in
      rw (below, shift, other) (is_set_from (suc x) xs n a)
  | inr here ↦
      let inside : ltb 0 (suc (length xs)) ≡ true = ground arith in
      rw (here, inside) (ground (arith, member_above (suc x) n xs a))
]

-- `IsSet` finds exactly the elements of an ascending slice.
pub is_set-eq-member : (xs : List ℕ) (n : ℕ) → IsAscending xs → is_set xs n ≡ member xs n
is_set-eq-member xs n a = is_set_from 0 xs n a

pub member-insert : (xs : List ℕ) (n j : ℕ) → member (insert xs n) j ≡ (n == j) || member xs j
unfolding member insert
member-insert [] n j = refl
member-insert (x ∷ xs) n j = ground (arith, member-insert xs n j)

insert-IsFrom : (low n : ℕ) (xs : List ℕ) → low ≤ n → IsFrom low xs → IsFrom low (insert xs n)
unfolding insert
insert-IsFrom low n [] h a = (h, tt)
insert-IsFrom low n (x ∷ xs) h (lt, a) = elim (Bool-cases (ltb x n)) [
  | inl below ↦ let le : suc x ≤ n = ground arith in rw below (lt, insert-IsFrom (suc x) n xs le a)
  | inr here ↦ elim (Bool-cases (x == n)) [
    | inl same ↦ rw (here, same) (lt, a)
    | inr other ↦ let le : suc n ≤ x = ground arith in rw (here, other) (h, (le, a))
  ]
]

pub length-insert :
    (low : ℕ) (xs : List ℕ) (n : ℕ)
    → IsFrom low xs
    → length (insert xs n) ≡ (if member xs n then length xs else suc (length xs))
unfolding insert member
length-insert low [] n a = refl
length-insert low (x ∷ xs) n (_, a) =
    ground (arith, length-insert (suc x) xs n a, member_above (suc x) n xs a)

-- `Set` keeps a slice ascending.
pub set-IsAscending : (xs : List ℕ) (n : ℕ) → IsAscending xs → IsAscending (set xs n)
set-IsAscending xs n a = rw (set-eq-insert xs n) (insert-IsFrom 0 n xs (omega arith) a)

-- On an ascending slice, after `Set` of `n` the set has `n` and the numbers that it had, and its
-- count grows by one exactly if `n` is new.
pub is_set-set :
    (xs : List ℕ) (n j : ℕ)
    → IsAscending xs
    → (is_set (set xs n) j ≡ ((n == j) || is_set xs j))
      × (count (set xs n) ≡ (if is_set xs n then count xs else suc (count xs)))
unfolding count
is_set-set xs n j a = (
  is_set-eq-member (set xs n) j (set-IsAscending xs n a)
      ∙ rw (set-eq-insert xs n, is_set-eq-member xs j a) (member-insert xs n j),
  rw (set-eq-insert xs n, is_set-eq-member xs n a) (length-insert 0 xs n a),
)
