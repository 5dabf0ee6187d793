-- ===== src/Sniffer/Report/Tests.antt =====
-- Runs and instances for the report.
use go_dpdk.Base.{ℕ, ◌≡◌, refl, List, [], ◌∷◌, ◌++◌, length, Option, some, ◌==◌, if◌then◌else◌}
use go_dpdk.Ethdev.Stats.{stats_diff}
use go_dpdk.Sniffer.Report.{PortStats, Added, report, report_loop, extended_added}
use go_dpdk.Sniffer.Report.Stale.{report_stale}

abbrev eight : ℕ → List ℕ
eight v = v ∷ v ∷ v ∷ v ∷ v ∷ v ∷ v ∷ v ∷ []

abbrev port : ℕ → PortStats
port i = record { pid = i; prev_stats = eight 10; prev_vals = 3 ∷ [] }

-- Port 0 has moved on by 7 and port 1 stands still.
abbrev stats_get : ℕ → Option (List ℕ)
stats_get pid = if pid == 0 then some (eight 17) else some (eight 10)

abbrev xstat_get : ℕ → Option (List ℕ)
xstat_get pid = some (4 ∷ [])

stale_run :
    (report stats_get xstat_get (port 0 ∷ port 1 ∷ [])).added
    ≡ record { port = 0; basic = eight 7; extended = 1 ∷ [] }
      ∷ record { port = 1; basic = eight 7; extended = 1 ∷ [] }
      ∷ []
unfolding report report_loop stats_diff extended_added
stale_run = refl

-- Before them is a port that has moved on.
abbrev front : List PortStats
front = record { pid = 0; prev_stats = eight 12; prev_vals = 4 ∷ [] } ∷ []

report_stale_example :
    (early : List Added) × (basic : List ℕ) × (more : List Added) × ((report stats_get xstat_get
        (front ++ (port 0 ∷ port 1 ∷ []))).added
      ≡ early
        ++ (record { port = 0; basic = basic; extended = extended_added (4 ∷ []) (3 ∷ []) }
            ∷ record { port = 1; basic = basic; extended = extended_added (4 ∷ []) (3 ∷ []) }
            ∷ more))
    × (length early ≡ length front)
report_stale_example =
    report_stale stats_get xstat_get front (port 0) (port 1) [] (eight 17) (4 ∷ []) (4 ∷ [])
      (eight 17, 4 ∷ [], refl, refl, tt) refl refl refl refl
