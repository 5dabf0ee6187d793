-- ===== src/Sniffer/Pools.antt =====
-- app/test-sniffer/mempool.go: a memory pool for each port. The ports that are valid, their number
-- and the pool factory are parameters; a pool that cannot be made is `none`.
mod Tests
use mathlib.Core.Path.{subst}
use go_dpdk.Base.{
  ap, dec_lt, ℕ, zero, suc, ◌+◌, ◌≤◌, ◌<◌, ◌≡◌, ◌≢◌, refl, ◌∙◌, arith, Bool, true, false,
  if◌then◌else◌, Option, none, some, List, [], ◌∷◌, ◌++◌, length, get_elem?, set, replicate,
  length-set, get_elem?-set_self, get_elem?-set_ne, length-replicate, Option-cases, Bool-cases, inl,
  inr,
}

-- What GetRxMempool does; a pool that is nil is `none`.
pub data Found {ℓ} (P : Type ℓ) : Type ℓ where
  found : Option P → Found P
  invalid : Found P
  panicked : Found P

abbrev pub slot {ℓ} : {P : Type ℓ} → Option (Option P) → Found P
slot none = panicked
slot (some mp) = found mp

module _ {ℓ} {P : Type ℓ} (is_valid : ℕ → Bool) where
  unfoldable pub get_rx_mempool : List (Option P) → ℕ → Found P
  get_rx_mempool pools pid = if is_valid pid then slot (get_elem? pools pid) else invalid

module _ {ℓ} {P : Type ℓ} (is_valid : ℕ → Bool) (new_mempool : ℕ → Option P) where
  -- The loop over the ports, by the rounds left: the pools made so far, and the array. The array is
  -- `none` when the loop returns an error.
  unfoldable pub pools_loop : ℕ → ℕ → List P → List (Option P) → List P × Option (List (Option P))
  pools_loop zero i made pools = (made, some pools)
  pools_loop (suc rounds) i made pools =
      let skip = pools_loop rounds (i + 1) made pools in
      if is_valid i
      then elim (new_mempool i) [
        | none ↦ (made, none)
        | some mp ↦ pools_loop rounds (i + 1) (made ++ mp ∷ []) (set pools i (some mp))
      ]
      else skip

  unfoldable pub new_mempool_per_port : ℕ → List P × Option (List (Option P))
  unfolding pools_loop
  new_mempool_per_port count_total = pools_loop count_total 0 [] (replicate count_total none)

  -- The array holds the pool of each valid port below `i`.
  abbrev Filled : List (Option P) → ℕ → Type ℓ
  Filled pools i =
      (pid : ℕ)
      → pid < i
      → is_valid pid ≡ true
      → (mp : P) × (new_mempool pid ≡ some mp) × (get_elem? pools pid ≡ some (some mp))

  -- The pool of port `i` is put into its place.
  Filled-set :
      (pools : List (Option P)) (i : ℕ) (mp : P)
      → i < length pools
      → new_mempool i ≡ some mp
      → Filled pools i
      → Filled (set pools i (some mp)) (i + 1)
  Filled-set pools i mp inside made h pid lt valid = elim (dec_lt pid i) [
    | yes below ↦
        let (old, from, at) = h pid below valid in
        (old, from, get_elem?-set_ne pools (some mp) (λ e. omega arith) ∙ at)
    | no here ↦
        let same : i ≡ pid = omega arith in
        rw (← same) (mp, made, get_elem?-set_self pools i (some mp) inside)
  ]

  Filled-skip :
      (pools : List (Option P)) (i : ℕ) → is_valid i ≡ false → Filled pools i → Filled pools (i + 1)
  Filled-skip pools i skipped h pid lt valid = elim (dec_lt pid i) [
    | yes below ↦ h pid below valid
    | no here ↦ let same : i ≡ pid = omega arith in absurd (cc (ap is_valid same))
  ]

  abbrev Complete : Option (List (Option P)) → ℕ → Type ℓ
  Complete none n = Unit
  Complete (some pools) n = (length pools ≡ n) × Filled pools n

  pools_loop-Complete :
      (rounds i : ℕ) (made : List P) (pools : List (Option P))
      → length pools ≡ i + rounds
      → Filled pools i
      → Complete (pools_loop rounds i made pools).1 (i + rounds)
  unfolding pools_loop
  pools_loop-Complete zero i made pools size h = (size, λ pid lt. h pid (omega arith))
  pools_loop-Complete (suc rounds) i made pools size h =
      let sum : i + 1 + rounds ≡ i + suc rounds = omega arith in
      elim (Bool-cases (is_valid i)) [
        | inl valid ↦ elim (Option-cases (new_mempool i)) [
          | inl failed ↦ rw (pools_loop, valid, failed) tt
          | inr (mp, from) ↦
              rw (pools_loop, valid, from, ← sum)
                (pools_loop-Complete rounds (i + 1) (made ++ mp ∷ []) (set pools i (some mp))
                  (length-set pools i (some mp) ∙ size ∙ omega arith)
                  (Filled-set pools i mp (omega arith) from h))
        ]
        | inr skipped ↦
            rw (pools_loop, skipped, ← sum)
              (pools_loop-Complete rounds (i + 1) made pools (size ∙ omega arith)
                (Filled-skip pools i skipped h))
      ]

  get_elem?-past : (pools : List (Option P)) (i : ℕ) → length pools ≤ i → get_elem? pools i ≡ none
  get_elem?-past [] i h = refl
  get_elem?-past (x ∷ xs) zero h = absurd (omega arith)
  get_elem?-past (x ∷ xs) (suc i) h = get_elem?-past xs i (omega arith)

  -- Where NewMempoolPerPort succeeds over `count_total` ports, GetRxMempool gives each valid port
  -- below that number the pool that was made for it, and panics at a valid port from that number
  -- on.
  pub get_rx_mempool-new_mempool_per_port :
      (count_total pid : ℕ) (pools : List (Option P))
      → (new_mempool_per_port count_total).1 ≡ some pools
      → is_valid pid ≡ true
      → (pid < count_total
          → (mp : P) × (new_mempool pid ≡ some mp)
            × (get_rx_mempool is_valid pools pid ≡ found (some mp)))
        × (count_total ≤ pid → get_rx_mempool is_valid pools pid ≡ panicked)
  unfolding get_rx_mempool new_mempool_per_port
  get_rx_mempool-new_mempool_per_port count_total pid pools e valid =
      let (size, all) =
        subst (λ (o : Option (List (Option P))). Complete o (0 + count_total)) e
          (pools_loop-Complete count_total 0 [] (replicate count_total none)
            (length-replicate count_total none ∙ omega arith) (λ p lt v. absurd (omega arith))) in
      (
        λ below.
            let (mp, from, at) = all pid (omega arith) valid in (mp, from, rw (valid, at) refl),
        λ above. rw (valid, get_elem?-past pools pid (omega arith)) refl,
      )
