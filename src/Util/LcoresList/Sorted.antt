-- ===== src/Util/LcoresList/Sorted.antt =====
-- Sorting keeps the elements and puts them in order.
use go_dpdk.Base.{
  ℕ, suc, ◌≤◌, ◌≡◌, refl, ap, ◌∙◌, inl, inr, arith, ◌||◌, List, [], ◌∷◌, length, ltb, ◌==◌,
  if◌then◌else◌, Bool-cases,
}
use go_dpdk.Common.Set.Insert.{member}
use go_dpdk.Util.LcoresList.{insert, sort}

-- How often a number stands in a list.
unfoldable pub count : List ℕ → ℕ → ℕ
count [] y = 0
count (x ∷ xs) y = if x == y then suc (count xs y) else count xs y

-- The list ascends from `low` on, where a number may repeat.
abbrev pub IsSortedFrom : ℕ → List ℕ → Type 0
IsSortedFrom low [] = Unit
IsSortedFrom low (x ∷ xs) = (low ≤ x) × IsSortedFrom x xs

pub insert-IsSortedFrom :
    (low x : ℕ) (xs : List ℕ) → low ≤ x → IsSortedFrom low xs → IsSortedFrom low (insert x xs)
unfolding insert
insert-IsSortedFrom low x [] le s = (le, tt)
insert-IsSortedFrom low x (y ∷ ys) le (here, s) = elim (Bool-cases (ltb y x)) [
  | inl below ↦ rw below (here, insert-IsSortedFrom y x ys (ground arith) s)
  | inr above ↦ rw above (le, (ground arith, s))
]

pub sort-IsSortedFrom : (xs : List ℕ) → IsSortedFrom 0 (sort xs)
unfolding sort
sort-IsSortedFrom [] = tt
sort-IsSortedFrom (x ∷ xs) = insert-IsSortedFrom 0 x (sort xs) (omega arith) (sort-IsSortedFrom xs)

pub member-insert :
    (x : ℕ) (xs : List ℕ) (y : ℕ) → member (insert x xs) y ≡ ((x == y) || member xs y)
unfolding insert member
member-insert x [] y = refl
member-insert x (z ∷ zs) y = ground (arith, member-insert x zs y)

pub member-sort : (xs : List ℕ) (y : ℕ) → member (sort xs) y ≡ member xs y
unfolding sort member
member-sort [] y = refl
member-sort (x ∷ xs) y = member-insert x (sort xs) y ∙ ap (λ b. (x == y) || b) (member-sort xs y)

pub count-insert : (x : ℕ) (xs : List ℕ) (y : ℕ) → count (insert x xs) y ≡ count (x ∷ xs) y
unfolding insert count
count-insert x [] y = refl
count-insert x (z ∷ zs) y = ground (arith, count-insert x zs y)

pub count-sort : (xs : List ℕ) (y : ℕ) → count (sort xs) y ≡ count xs y
unfolding sort count
count-sort [] y = refl
count-sort (x ∷ xs) y = ground (arith, count-insert x (sort xs) y, count-sort xs y)

pub length-insert : (x : ℕ) (xs : List ℕ) → length (insert x xs) ≡ suc (length xs)
unfolding insert
length-insert x [] = refl
length-insert x (y ∷ ys) = ground (arith, length-insert x ys)

pub length-sort : (xs : List ℕ) → length (sort xs) ≡ length xs
unfolding sort
length-sort [] = refl
length-sort (x ∷ xs) = length-insert x (sort xs) ∙ ap suc (length-sort xs)
