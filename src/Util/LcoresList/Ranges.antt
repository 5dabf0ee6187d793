-- ===== src/Util/LcoresList/Ranges.antt =====
-- What the printed ranges contain.
use go_dpdk.Base.{
  ℕ, zero, suc, ◌+◌, ◌-◌, ◌^◌, ◌≤◌, ◌<◌, ◌≡◌, refl, sym, ap, ◌∙◌, inl, inr, arith, Bool, false,
  ◌||◌, ◌&&◌, List, [], ◌∷◌, length, drop, get_or, ltb, leb, sub64, ◌==◌, if◌then◌else◌, Bool-cases,
}
use go_dpdk.Common.Set.Insert.{member}
use go_dpdk.Util.LcoresList.{Range, single, range, insert, range_of, ranges_loop, ranges, sort, dup}
use go_dpdk.Util.LcoresList.Sorted.{IsSortedFrom, sort-IsSortedFrom, member-sort, length-sort}

-- A list of ranges contains a number.
unfoldable pub contains : List Range → ℕ → Bool
contains [] y = false
contains (single x ∷ rs) y = (x == y) || contains rs y
contains (range first last ∷ rs) y = (leb first y && leb y last) || contains rs y

-- The numbers are the uint of Go.
abbrev pub IsBelow : List ℕ → Type 0
IsBelow [] = Unit
IsBelow (x ∷ xs) = (x < 2 ^ 64) × IsBelow xs

pub drop-head :
    (l : List ℕ) (i x : ℕ) (xs : List ℕ)
    → drop i l ≡ x ∷ xs
    → (get_or l i 0 ≡ x) × (drop (suc i) l ≡ xs)
drop-head [] zero x xs e = cc
drop-head [] (suc i) x xs e = cc
drop-head (y ∷ l) zero x xs e = (cc, cc)
drop-head (y ∷ l) (suc i) x xs e = drop-head l i x xs e

contains-range_of :
    (l : List ℕ) (prev next first last : ℕ)
    → get_or l prev 0 ≡ first
    → get_or l next 0 ≡ last
    → (prev ≡ next → first ≡ last)
    → first ≤ last
    → (rs : List Range) (y : ℕ)
    → contains (range_of l prev next ∷ rs) y ≡ ((leb first y && leb y last) || contains rs y)
unfolding contains
contains-range_of l prev next first last a b one le rs y = elim (Bool-cases (prev == next)) [
  | inl same ↦ let e : prev ≡ next = ground arith in let f = one e in rw (same, a) (ground arith)
  | inr other ↦ rw (other, a, b) refl
]

-- The ranges from the elements `xs` on, where `first` to `last` is open.
ranges_loop-contains :
    (l : List ℕ) (i prev next first last : ℕ) (xs : List ℕ)
    → drop (suc i) l ≡ xs
    → get_or l prev 0 ≡ first
    → get_or l next 0 ≡ last
    → get_or l i 0 ≡ last
    → (prev ≡ next → first ≡ last)
    → prev ≤ i
    → next ≤ i
    → first ≤ last
    → IsSortedFrom last xs
    → IsBelow (last ∷ xs)
    → (y : ℕ)
    → contains (ranges_loop l (length xs) (suc i) prev next) y
      ≡ ((leb first y && leb y last) || member xs y)
unfolding ranges_loop contains member
ranges_loop-contains l i prev next first last [] d a b c one hp hn le s bd y =
    contains-range_of l prev next first last a b one le [] y
ranges_loop-contains l i prev next first last (x ∷ xs) d a b c one hp hn le (ge, s) (bl, (bx, bd))
      y =
    let (here, next_d) = drop-head l (suc i) x xs d in
    let at : get_or l (suc i - 1) 0 ≡ last =
      ap (λ j. get_or l j 0) {x = suc i - 1} (omega arith) ∙ c in
    let two : suc i + 1 ≡ suc (suc i) = omega arith in
    elim (Bool-cases (x == last)) [
      | inl same ↦
          let e : x ≡ last = ground arith in
          let rest =
            ranges_loop-contains l (suc i) prev next first last xs next_d a b (here ∙ e) one
              (omega arith) (omega arith) le (coe 0 1 (i. IsSortedFrom (e i) xs) s) (bl, bd) y in
          rw (two, here, at, same, rest) (ground arith)
      | inr other ↦ elim (Bool-cases (sub64 x last == 1)) [
        | inl follows ↦
            let e : x ≡ suc last = ground arith in
            let rest =
              ranges_loop-contains l (suc i) prev (suc i) first x xs next_d a here here
                (λ p. absurd (omega arith)) (omega arith) (omega arith) (omega arith) s (bx, bd)
                y in
            rw (two, here, at, other, follows, rest) (ground arith)
        | inr gap ↦
            let rest =
              ranges_loop-contains l (suc i) (suc i) (suc i) x x xs next_d here here here
                (λ p. refl) (omega arith) (omega arith) (omega arith) s (bx, bd) y in
            rw (two, here, at, other, gap)
              (contains-range_of l prev next first last a b one le _ y ∙ rw rest (ground arith))
      ]
    ]

insert-IsBelow : (x : ℕ) (xs : List ℕ) → x < 2 ^ 64 → IsBelow xs → IsBelow (insert x xs)
unfolding insert
insert-IsBelow x [] lt b = (lt, tt)
insert-IsBelow x (y ∷ ys) lt (here, b) = elim (Bool-cases (ltb y x)) [
  | inl below ↦ rw below (here, insert-IsBelow x ys lt b)
  | inr above ↦ rw above (lt, (here, b))
]

sort-IsBelow : (xs : List ℕ) → IsBelow xs → IsBelow (sort xs)
unfolding sort
sort-IsBelow [] b = tt
sort-IsBelow (x ∷ xs) (lt, b) = insert-IsBelow x (sort xs) lt (sort-IsBelow xs b)

sorted-contains :
    (l : List ℕ)
    → IsSortedFrom 0 l
    → IsBelow l
    → (y : ℕ)
    → contains (if length l == 0 then [] else ranges_loop l (length l - 1) 1 0 0) y ≡ member l y
unfolding contains member
sorted-contains [] s b y = refl
sorted-contains (x ∷ xs) (le, s) b y =
    let some_left : (suc (length xs) == 0) ≡ false = ground arith in
    let left : suc (length xs) - 1 ≡ length xs = omega arith in
    rw (some_left, left)
      (ranges_loop-contains (x ∷ xs) 0 0 0 x x xs refl refl refl refl (λ e. refl) (omega arith)
          (omega arith) (omega arith) s b y
        ∙ ground arith)

-- A number stands in a list of cores exactly when one of the ranges that `String` prints of the
-- list contains it, where the numbers are below 2 ^ 64.
pub ranges-contains :
    (list : List ℕ) → IsBelow list → (y : ℕ) → contains (ranges list) y ≡ member list y
unfolding ranges dup
ranges-contains list b y =
    let sorted = sorted-contains (sort list) (sort-IsSortedFrom list) (sort-IsBelow list b) y in
    rw (sym (length-sort list)) (sorted ∙ member-sort list y)
