-- ===== src/Exporter/Counted.antt =====
-- What the counters show after a number of collections.
use go_dpdk.Base.{
  ℕ, zero, suc, ◌+◌, ◌-◌, ◌^◌, ◌≤◌, ◌≡◌, refl, ap, ◌∙◌, arith, inl, inr, Bool-cases, Option, none,
  some, List, [], ◌∷◌, replicate, ltb, if◌then◌else◌,
}
use go_dpdk.Exporter.{
  CounterOps, EthXstat, new_eth_xstat, add_deltas, Reading, read, failed, Collected, collected, err,
  panicked, collect_port,
}

-- What is documented of the counters: a new one shows 0, and `Add` adds; whole numbers up to 2 ^ 53
-- are exact in a float64.
pub record IsCounter {F C : Type 0} (ops : CounterOps F C) : Type 0 where
  pub shows_new : ops.value ops.new ≡ ops.float64 0
  pub shows_add :
      (c : C) (a b : ℕ)
      → ops.value c ≡ ops.float64 a
      → a + b ≤ 2 ^ 53
      → ops.value (ops.add c (ops.float64 b)) ≡ ops.float64 (a + b)

-- No value of the second array is below the first's, or above 2 ^ 53.
abbrev pub Grows : List ℕ → List ℕ → Type 0
Grows [] [] = Unit
Grows [] (y ∷ ys) = ⊥
Grows (x ∷ xs) [] = ⊥
Grows (x ∷ xs) (y ∷ ys) = (x ≤ y) × (y ≤ 2 ^ 53) × Grows xs ys

-- The values of the last reading that did not fail.
pub last_read : List ℕ → List Reading → List ℕ
last_read values [] = values
last_read values (read ys ∷ rs) = last_read ys rs
last_read values (failed ys ∷ rs) = last_read values rs

-- The readings that do not fail never fall, and stay up to 2 ^ 53.
abbrev pub AllGrow : List ℕ → List Reading → Type 0
AllGrow values [] = Unit
AllGrow values (read ys ∷ rs) = Grows values ys × AllGrow ys rs
AllGrow values (failed ys ∷ rs) = AllGrow values rs

-- One collection after the other, whether they fail or not; `none` where one panics.
continued :
    {C : Type 0} → (EthXstat C → Option (EthXstat C)) → Collected (EthXstat C) → Option (EthXstat C)
continued next (collected ex) = next ex
continued next (err ex) = next ex
continued next panicked = none

module _ {F C : Type 0} (ops : CounterOps F C) where
  pub collect_all : List Reading → EthXstat C → Option (EthXstat C)
  unfolding continued
  collect_all [] ex = some ex
  collect_all (r ∷ rs) ex = continued (collect_all rs) (collect_port ops ex r)

  -- The counters show the values.
  abbrev pub AreShown : List C → List ℕ → Type 0
  AreShown [] [] = Unit
  AreShown [] (x ∷ xs) = ⊥
  AreShown (c ∷ cnt) [] = ⊥
  AreShown (c ∷ cnt) (x ∷ xs) = (ops.value c ≡ ops.float64 x) × AreShown cnt xs

  module _ (counts : IsCounter ops) where
    new-AreShown : (n : ℕ) → AreShown (replicate n ops.new) (replicate n 0)
    new-AreShown zero = tt
    new-AreShown (suc n) = (counts.shows_new, new-AreShown n)

    one_added :
        (c : C) (x y : ℕ)
        → ops.value c ≡ ops.float64 x
        → x ≤ y
        → y ≤ 2 ^ 53
        → ops.value (if ltb x y then ops.add c (ops.float64 (y - x)) else c) ≡ ops.float64 y
    one_added c x y shown le small = elim (Bool-cases (ltb x y)) [
      | inl grows ↦
          let whole : x + (y - x) ≡ y = omega (arith, le) in
          rw grows (
            counts.shows_add c x (y - x) shown (omega (arith, whole, small)) ∙ ap ops.float64 whole)
      | inr still ↦
          let same : x ≡ y = ground (arith, still, le) in rw still (shown ∙ ap ops.float64 same)
    ]

    add_deltas-Grows :
        (prev next : List ℕ) (cnt : List C)
        → Grows prev next
        → AreShown cnt prev
        → (cnt' : List C) × (add_deltas ops prev next cnt ≡ some cnt') × AreShown cnt' next
    unfolding add_deltas
    add_deltas-Grows [] [] [] h shown = ([], refl, tt)
    add_deltas-Grows [] [] (c ∷ cnt) h shown = absurd shown
    add_deltas-Grows [] (y ∷ ys) cnt h shown = absurd h
    add_deltas-Grows (x ∷ xs) [] cnt h shown = absurd h
    add_deltas-Grows (x ∷ xs) (y ∷ ys) [] h shown = absurd shown
    add_deltas-Grows (x ∷ xs) (y ∷ ys) (c ∷ cnt) (le, small, h) (now, shown) =
        let (cnt', e, shown') = add_deltas-Grows xs ys cnt h shown in
        (
          (if ltb x y then ops.add c (ops.float64 (y - x)) else c) ∷ cnt',
          rw e refl,
          (one_added c x y now le small, shown'),
        )

    collect_all-counted :
        (rs : List Reading) (ex : EthXstat C)
        → AreShown ex.cnt ex.prev
        → AllGrow ex.prev rs
        → (ex' : EthXstat C) × (collect_all rs ex ≡ some ex')
          × AreShown ex'.cnt (last_read ex.prev rs)
    unfolding collect_all last_read collect_port
    collect_all-counted [] ex shown h = (ex, refl, shown)
    collect_all-counted (read ys ∷ rs) ex shown (grows, h) =
        let (cnt, e, shown') = add_deltas-Grows ex.prev ys ex.cnt grows shown in
        rw e (collect_all-counted rs (record { cnt = cnt; prev = ys; next = ex.prev }) shown' h)
    collect_all-counted (failed ys ∷ rs) ex shown h =
        collect_all-counted rs (record ex { next = ys }) shown h

    -- With counters that behave as documented, on a new port, after any number of collections of
    -- which any may fail, and where the values that were read never fall and are at most 2 ^ 53: the
    -- counters show the values that were read last, as numbers of float64, and no collection panics.
    pub collect_all-last_read :
        (n : ℕ) (rs : List Reading)
        → AllGrow (replicate n 0) rs
        → (ex : EthXstat C) × (collect_all rs (new_eth_xstat ops n) ≡ some ex)
          × AreShown ex.cnt (last_read (replicate n 0) rs)
    unfolding new_eth_xstat
    collect_all-last_read n rs h = collect_all-counted rs (new_eth_xstat ops n) (new-AreShown n) h
