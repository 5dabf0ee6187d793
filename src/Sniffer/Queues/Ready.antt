-- ===== src/Sniffer/Queues/Ready.antt =====
-- Cores that wait for a queue, and the loop that gives them queues.
use go_dpdk.Base.{
  ℕ, zero, suc, ◌+◌, ◌≤◌, ◌<◌, ◌≡◌, ◌≢◌, ◌⊎◌, inl, inr, refl, sym, ap, ◌∙◌, arith, Bool-cases,
  false, List, [], ◌∷◌, none, some, length, ◌==◌, ℕ_discrete,
}
use go_dpdk.Sniffer.Queues.{PortQueue, Table, LcoreMap, put, assign_loop}

abbrev pub IsNotIn : ℕ → List ℕ → Type 0
IsNotIn x [] = Unit
IsNotIn x (y ∷ ys) = (x ≢ y) × IsNotIn x ys

abbrev pub IsDistinct : List ℕ → Type 0
IsDistinct [] = Unit
IsDistinct (x ∷ xs) = IsNotIn x xs × IsDistinct xs

-- Queues that are assigned stay so.
abbrev pub IsKept : Table → Table → Type 0
IsKept table table' = (x : ℕ) (q : PortQueue) → table x ≡ some q → table' x ≡ some q

IsKept-put : (table : Table) (x : ℕ) (q : PortQueue) → table x ≡ none → IsKept table (put table x q)
IsKept-put table x q free y v e = ground arith

module _ (lcore_to_socket : ℕ → ℕ) where
  -- The cores are on the socket and have no queue yet.
  abbrev pub IsFree : (s : ℕ) → Table → List ℕ → Type 0
  IsFree s table [] = Unit
  IsFree s table (x ∷ xs) = ((lcore_to_socket x ≡ s) × (table x ≡ none)) × IsFree s table xs

  -- The invariant of the two maps.
  abbrev pub IsReady : LcoreMap → Table → Type 0
  IsReady map table = (s : ℕ) (l : List ℕ) → map s ≡ some l → IsDistinct l × IsFree s table l

  -- Giving a core a queue keeps cores free that are others, or on another socket.
  IsFree-put_other :
      (s x : ℕ) (table : Table) (q : PortQueue) (l : List ℕ)
      → (s ≢ lcore_to_socket x) ⊎ IsNotIn x l
      → IsFree s table l
      → IsFree s (put table x q) l
  IsFree-put_other s x table q [] h f = tt
  IsFree-put_other s x table q (y ∷ ys) (inl h) ((on, free), f) =
      let ne : y ≢ x = λ e. h (sym on ∙ ap lcore_to_socket e) in
      let other : (y == x) ≡ false = ground arith in
      ((on, rw other free), IsFree-put_other s x table q ys (inl h) f)
  IsFree-put_other s x table q (y ∷ ys) (inr (ne, h)) ((on, free), f) =
      let other : (y == x) ≡ false = ground arith in
      ((on, rw other free), IsFree-put_other s x table q ys (inr h) f)

  IsReady-put :
      (map : LcoreMap) (table : Table) (x : ℕ) (xs : List ℕ) (q : PortQueue) {socket : ℕ}
      → map socket ≡ some (x ∷ xs)
      → IsReady map table
      → IsReady (put map socket xs) (put table x q)
  IsReady-put map table x xs q {socket} at r s l e =
      let ((apart, distinct), ((on, free), rest)) = r socket (x ∷ xs) at in
      elim (Bool-cases (s == socket)) [
        | inl same ↦
            let here : s ≡ socket = ground arith in
            let list : xs ≡ l = ground arith in
            rw (← list, here) (distinct, IsFree-put_other socket x table q xs (inr apart) rest)
        | inr other ↦
            let there : map s ≡ some l = ground arith in
            let away : s ≢ lcore_to_socket x = ground arith in
            let (d, f) = r s l there in (d, IsFree-put_other s x table q l (inl away) f)
      ]

  -- The queues of a port from `i` up to `n` have a core on the socket.
  abbrev pub IsServed : (pid socket i n : ℕ) → Table → Type 0
  IsServed pid socket i n table =
      (q : ℕ)
      → i ≤ q
      → q < n
      → (x : ℕ) × (lcore_to_socket x ≡ socket)
        × (table x ≡ some (record { pid = pid; rx_qid = q; tx_qid = 0 }))

  pub assign_loop-IsServed :
      (pid socket left i : ℕ) (l : List ℕ) (map : LcoreMap) (table : Table)
      → map socket ≡ some l
      → IsReady map table
      → left ≤ length l
      → (map' : LcoreMap) × (table' : Table) × (assign_loop pid socket left i l map table
          ≡ some (map', table'))
        × IsReady map' table'
        × IsKept table table'
        × IsServed pid socket i (i + left) table'
  unfolding assign_loop
  assign_loop-IsServed pid socket zero i l map table at r le =
      (map, table, refl, r, λ x q e. e, λ q lo hi. absurd (omega arith))
  assign_loop-IsServed pid socket (suc left) i [] map table at r le = absurd (omega arith)
  assign_loop-IsServed pid socket (suc left) i (x ∷ xs) map table at r le =
      let pq : PortQueue = record { pid = pid; rx_qid = i; tx_qid = 0 } in
      let free = (r socket (x ∷ xs) at).1.0 in
      let here : put map socket xs socket ≡ some xs = ground arith in
      let (map', table', run, ready, kept, served) =
        assign_loop-IsServed pid socket left (i + 1) xs (put map socket xs) (put table x pq) here
          (IsReady-put map table x xs pq at r) (omega arith) in
      let first : put table x pq x ≡ some pq = ground arith in
      (
        map',
        table',
        run,
        ready,
        λ y v e. kept y v (IsKept-put table x pq free.1 y v e),
        λ q lo hi. elim (ℕ_discrete q i) [
          | yes e ↦ (x, free.0, kept x _ (rw (e, first)))
          | no ne ↦ served q (omega arith) (omega arith)
        ],
      )
