-- ===== src/Util/LcoresList/Same.antt =====
-- `Equal` compares what stands in the lists, and how often.
use go_dpdk.Base.{
  ℕ, zero, suc, ◌+◌, ◌<◌, ◌≡◌, ◌↔◌, refl, sym, ap, ◌∙◌, inl, inr, arith, true, false, List, [], ◌∷◌,
  length, drop, ltb, ◌==◌, Bool-cases,
}
use go_dpdk.Util.LcoresList.{sort, dup, equal_loop, equal}
use go_dpdk.Util.LcoresList.Sorted.{IsSortedFrom, sort-IsSortedFrom, count, count-sort}
use go_dpdk.Util.LcoresList.Ranges.{drop-head}

count_below : (low : ℕ) (xs : List ℕ) (z : ℕ) → IsSortedFrom low xs → z < low → count xs z ≡ 0
unfolding count
count_below low [] z s lt = refl
count_below low (x ∷ xs) z (le, s) lt =
    let other : (x == z) ≡ false = ground arith in rw other (count_below x xs z s (omega arith))

count_nil : (z : ℕ) → count [] z ≡ 0
unfolding count
count_nil z = refl

count_here : (x : ℕ) (xs : List ℕ) → count (x ∷ xs) x ≡ suc (count xs x)
unfolding count
count_here x xs = let same : (x == x) ≡ true = ground arith in rw same refl

heads_same :
    (x y : ℕ) (xs ys : List ℕ)
    → IsSortedFrom x xs
    → IsSortedFrom y ys
    → ((z : ℕ) → count (x ∷ xs) z ≡ count (y ∷ ys) z)
    → x ≡ y
heads_same x y xs ys s t e = elim (Bool-cases (ltb x y)) [
  | inl lower ↦
      let lt : x < y = ground arith in
      let none_there = count_below y (y ∷ ys) x (omega arith, t) lt in
      absurd (omega (arith, e x, none_there, count_here x xs))
  | inr above ↦ elim (Bool-cases (ltb y x)) [
    | inl lower ↦
        let lt : y < x = ground arith in
        let none_there = count_below x (x ∷ xs) y (omega arith, s) lt in
        absurd (omega (arith, e y, none_there, count_here y ys))
    | inr below ↦ ground arith
  ]
]

count_tail :
    (x y : ℕ) (xs ys : List ℕ) (z : ℕ)
    → x ≡ y
    → count (x ∷ xs) z ≡ count (y ∷ ys) z
    → count xs z ≡ count ys z
unfolding count
count_tail x y xs ys z same e = ground (arith, same, e)

-- Lists in order are the same where they hold every number equally often.
sorted_unique :
    (low : ℕ) (xs ys : List ℕ)
    → IsSortedFrom low xs
    → IsSortedFrom low ys
    → ((z : ℕ) → count xs z ≡ count ys z)
    → xs ≡ ys
sorted_unique low [] [] s t e = refl
sorted_unique low [] (y ∷ ys) s t e =
    let none_there : 0 ≡ count (y ∷ ys) y = sym (count_nil y) ∙ e y in
    absurd (omega (arith, none_there, count_here y ys))
sorted_unique low (x ∷ xs) [] s t e =
    let none_there : count (x ∷ xs) x ≡ 0 = e x ∙ count_nil x in
    absurd (omega (arith, none_there, count_here x xs))
sorted_unique low (x ∷ xs) (y ∷ ys) (le, s) (le', t) e =
    let same = heads_same x y xs ys s t e in
    let rest : (z : ℕ) → count xs z ≡ count ys z = λ z. count_tail x y xs ys z same (e z) in
    let ordered : IsSortedFrom x ys = coe 0 1 (i. IsSortedFrom (sym same i) ys) t in
    rw same (ap (λ l. y ∷ l) (sorted_unique x xs ys s ordered rest))

equal_loop_refl : (l : List ℕ) (left i : ℕ) → equal_loop l l left i ≡ true
unfolding equal_loop
equal_loop_refl l zero i = refl
equal_loop_refl l (suc left) i = ground (arith, equal_loop_refl l left (i + 1))

equal_loop-same :
    (l o : List ℕ) (i : ℕ) (xs ys : List ℕ)
    → drop i l ≡ xs
    → drop i o ≡ ys
    → length xs ≡ length ys
    → equal_loop l o (length xs) i ≡ true
    → xs ≡ ys
unfolding equal_loop
equal_loop-same l o i [] [] d d' n e = refl
equal_loop-same l o i [] (y ∷ ys) d d' n e = absurd (omega (arith, n))
equal_loop-same l o i (x ∷ xs) [] d d' n e = absurd (omega (arith, n))
equal_loop-same l o i (x ∷ xs) (y ∷ ys) d d' n e =
    let (at, more) = drop-head l i x xs d in
    let (at', more') = drop-head o i y ys d' in
    elim (Bool-cases (x == y)) [
      | inl same ↦
          let here : x ≡ y = ground arith in
          let one : i + 1 ≡ suc i = omega arith in
          let rest : equal_loop l o (length xs) (suc i) ≡ true = ground (arith, e) in
          rw here
            (ap (λ t. y ∷ t) (equal_loop-same l o (suc i) xs ys more more' (omega (arith, n)) rest))
      | inr other ↦ absurd (ground (arith, e))
    ]

equal-dup : (list other : List ℕ) → equal list other ≡ true → sort list ≡ sort other
unfolding equal dup
equal-dup list other e =
    let lengths : length (sort list) ≡ length (sort other) = ground (arith, e) in
    let looped : equal_loop (sort list) (sort other) (length (sort list)) 0 ≡ true =
      ground (arith, e) in
    equal_loop-same (sort list) (sort other) 0 (sort list) (sort other) refl refl lengths looped

-- `Equal` holds exactly of lists that hold every number equally often, in whatever order.
pub equal-count :
    (list other : List ℕ) → (equal list other ≡ true) ↔ ((y : ℕ) → count list y ≡ count other y)
unfolding equal dup
equal-count list other = (
  λ e y.
      sym (count-sort list y) ∙ ap (λ l. count l y) (equal-dup list other e) ∙ count-sort other y,
  λ e.
      let same : sort list ≡ sort other =
        sorted_unique 0 (sort list) (sort other) (sort-IsSortedFrom list) (sort-IsSortedFrom other)
          (λ y. count-sort list y ∙ e y ∙ sym (count-sort other y)) in
      let lengths : (length (sort other) == length (sort other)) ≡ true = ground arith in
      rw (same, lengths) (equal_loop_refl (sort other) (length (sort other)) 0),
)
