-- ===== src/Sniffer/Report/Stale.antt =====
-- Differences of one port are added to the counters of the next.
use go_dpdk.Base.{
  ℕ, suc, ◌≡◌, refl, ap, arith, false, List, [], ◌∷◌, ◌++◌, length, Option, some, ltb,
}
use go_dpdk.Ethdev.Stats.{stats_diff}
use go_dpdk.Sniffer.Report.{PortStats, Added, report_loop, report, extended_added}

stats_diff-same : (xs delta : List ℕ) → stats_diff xs xs delta ≡ delta
unfolding stats_diff
stats_diff-same [] delta = refl
stats_diff-same (x ∷ xs) [] = refl
stats_diff-same (x ∷ xs) (d ∷ delta) =
    let still : ltb x x ≡ false = ground arith in
    rw still (ap (λ t. d ∷ t) (stats_diff-same xs delta))

module _ (stats_get xstat_get_by_id : ℕ → Option (List ℕ)) where
  -- DPDK answers for the ports.
  abbrev pub AreAnswered : List PortStats → Type 0
  AreAnswered [] = Unit
  AreAnswered (p ∷ ports) =
      (cur : List ℕ) × (vals : List ℕ) × (stats_get p.pid ≡ some cur)
      × (xstat_get_by_id p.pid ≡ some vals)
      × AreAnswered ports

  loop_stale :
      (front : List PortStats) (p q : PortStats) (rest : List PortStats) (diff cur x_p x_q : List ℕ)
      → AreAnswered front
      → stats_get p.pid ≡ some cur
      → stats_get q.pid ≡ some q.prev_stats
      → xstat_get_by_id p.pid ≡ some x_p
      → xstat_get_by_id q.pid ≡ some x_q
      → (early : List Added) × (basic : List ℕ) × (more : List Added) × ((report_loop stats_get
            xstat_get_by_id
            (front ++ (p ∷ q ∷ rest))
            diff).added
          ≡ early
            ++ (record { port = p.pid; basic = basic; extended = extended_added x_p p.prev_vals }
                ∷ record { port = q.pid; basic = basic; extended = extended_added x_q q.prev_vals }
                ∷ more))
        × (length early ≡ length front)
  unfolding report_loop
  loop_stale [] p q rest diff cur x_p x_q answered sp sq xp xq =
      let basic = stats_diff cur p.prev_stats diff in
      (
        [],
        basic,
        (report_loop stats_get xstat_get_by_id rest basic).added,
        rw (sp, sq, xp, xq, stats_diff-same q.prev_stats basic) refl,
        refl,
      )
  loop_stale (a ∷ front) p q rest diff cur x_p x_q (now, vals, s, x, answered) sp sq xp xq =
      let changed = stats_diff now a.prev_stats diff in
      let (early, basic, more, e, n) =
        loop_stale front p q rest changed cur x_p x_q answered sp sq xp xq in
      let first : Added = record {
        port = a.pid;
        basic = changed;
        extended = extended_added vals a.prev_vals;
      } in
      (first ∷ early, basic, more, rw (s, x, e) refl, ap suc n)

  -- Where DPDK answers for two ports that follow each other, wherever in the list, and for the ports
  -- before them, and no basic counter of the second has changed since the last report, what is added
  -- to its counters is what is added to those of the first.
  pub report_stale :
      (front : List PortStats) (p q : PortStats) (rest : List PortStats) (cur x_p x_q : List ℕ)
      → AreAnswered front
      → stats_get p.pid ≡ some cur
      → stats_get q.pid ≡ some q.prev_stats
      → xstat_get_by_id p.pid ≡ some x_p
      → xstat_get_by_id q.pid ≡ some x_q
      → (early : List Added) × (basic : List ℕ) × (more : List Added) × ((report stats_get
            xstat_get_by_id
            (front ++ (p ∷ q ∷ rest))).added
          ≡ early
            ++ (record { port = p.pid; basic = basic; extended = extended_added x_p p.prev_vals }
                ∷ record { port = q.pid; basic = basic; extended = extended_added x_q q.prev_vals }
                ∷ more))
        × (length early ≡ length front)
  unfolding report
  report_stale front p q rest = loop_stale front p q rest (0 ∷ 0 ∷ 0 ∷ 0 ∷ 0 ∷ 0 ∷ 0 ∷ 0 ∷ [])
