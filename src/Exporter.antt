-- ===== src/Exporter.antt =====
-- EthXstats.Collect of app/dpdk-exporter/metrics.go: the extended counters of ports. Numbers of
-- float64 and the counters of Prometheus are not under src and are parameters.
pub mod Counted
pub mod Rings
mod Tests
use go_dpdk.Base.{
  ℕ, zero, suc, ◌-◌, ltb, if◌then◌else◌, Bool, true, false, Option, none, some, List, [], ◌∷◌,
  replicate,
}

-- The conversion float64 of a uint64, and of a counter: a new one, Add, and the value it shows.
pub record CounterOps (F C : Type 0) : Type 0 where
  pub float64 : ℕ → F
  pub new : C
  pub add : C → F → C
  pub value : C → F

-- ethXstat: the counters, and the two arrays that change places.
pub record EthXstat (C : Type 0) : Type 0 where
  pub cnt : List C
  pub prev : List ℕ
  pub next : List ℕ

-- What XstatGetByID does to the array: the values, or those that were there before it failed.
pub data Reading : Type 0 where
  read : List ℕ → Reading
  failed : List ℕ → Reading

-- How the collection of one port, and of all, ends.
pub data Collected {ℓ} (S : Type ℓ) : Type ℓ where
  collected : S → Collected S
  err : S → Collected S
  panicked : Collected S

module _ {C : Type 0} where
  abbrev pub added : EthXstat C → List ℕ → Option (List C) → Collected (EthXstat C)
  added ex values none = panicked
  added ex values (some cnt) = collected (record { cnt = cnt; prev = values; next = ex.prev })

  abbrev pub before : EthXstat C → Collected (List (EthXstat C)) → Collected (List (EthXstat C))
  before ex (collected rest) = collected (ex ∷ rest)
  before ex (err rest) = err (ex ∷ rest)
  before ex panicked = panicked

  abbrev pub then_rest :
      List (EthXstat C)
      → (Unit {0} → Collected (List (EthXstat C)))
      → Collected (EthXstat C)
      → Collected (List (EthXstat C))
  then_rest stats rest (collected ex) = before ex (rest tt)
  then_rest stats rest (err ex) = err (ex ∷ stats)
  then_rest stats rest panicked = panicked

module _ {F C : Type 0} (ops : CounterOps F C) where
  -- What NewEthXstats makes for a port with so many counters.
  unfoldable pub new_eth_xstat : ℕ → EthXstat C
  new_eth_xstat n = record { cnt = replicate n ops.new; prev = replicate n 0; next = replicate n 0 }

  -- The loop over the counters. `none` is an index out of range.
  unfoldable pub add_deltas : List ℕ → List ℕ → List C → Option (List C)
  add_deltas [] next cnt = some cnt
  add_deltas (p ∷ prev) [] cnt = none
  add_deltas (p ∷ prev) (n ∷ next) [] = none
  add_deltas (p ∷ prev) (n ∷ next) (c ∷ cnt) = elim (add_deltas prev next cnt) [
    | none ↦ none
    | some cnt' ↦ some ((if ltb p n then ops.add c (ops.float64 (n - p)) else c) ∷ cnt')
  ]

  -- The body of the loop over the ports.
  unfoldable pub collect_port : EthXstat C → Reading → Collected (EthXstat C)
  unfolding add_deltas
  collect_port ex (failed values) = err (record ex { next = values })
  collect_port ex (read values) = added ex values (add_deltas ex.prev values ex.cnt)

  -- Collect, by the ports in the order of the map and what each answers.
  unfoldable pub collect : List (EthXstat C) → List Reading → Collected (List (EthXstat C))
  unfolding collect_port
  collect [] readings = collected []
  collect (ex ∷ stats) [] = panicked
  collect (ex ∷ stats) (r ∷ readings) =
      then_rest stats (λ _. collect stats readings) (collect_port ex r)
