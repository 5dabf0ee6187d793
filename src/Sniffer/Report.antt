-- ===== src/Sniffer/Report.antt =====
-- app/test-sniffer/stats.go: the report of the counters of the ports. DPDK and the counters of
-- Prometheus are not under src: what the first answers is a parameter, and of the second the
-- amounts that are added are kept.
pub mod Stale
mod Tests
use go_dpdk.Base.{
  ℕ, ◌-◌, Bool, true, false, List, [], ◌∷◌, Option, none, some, ltb, sub64, if◌then◌else◌,
}
use go_dpdk.Ethdev.Stats.{stats_diff}

-- What is kept of a port: the counters of the last report.
pub record PortStats : Type 0 where
  pub pid : ℕ
  pub prev_stats : List ℕ
  pub prev_vals : List ℕ

-- The amounts of the calls of `Add` for a port, where 0 is no call.
pub record Added : Type 0 where
  pub port : ℕ
  pub basic : List ℕ
  pub extended : List ℕ

-- What was added, the state of the ports, and whether there was no error.
pub record Outcome : Type 0 where
  pub added : List Added
  pub ports : List PortStats
  pub complete : Bool

-- The loop over the extended counters.
unfoldable pub extended_added : (cur prev : List ℕ) → List ℕ
extended_added [] prev = []
extended_added (c ∷ cur) [] = []
extended_added (c ∷ cur) (p ∷ prev) = (if ltb p c then sub64 c p else 0) ∷ extended_added cur prev

-- One port before the others.
abbrev pub before : Added → PortStats → Outcome → Outcome
before a ps o = record o { added = a ∷ o.added; ports = ps ∷ o.ports }

-- `XstatGetByID` has answered; the basic counters are added already.
abbrev pub on_extended :
    PortStats
    → (basic : List ℕ) (cur : List ℕ) → List PortStats
    → Option (List ℕ)
    → Outcome
    → Outcome
on_extended ps basic cur rest none next = record {
  added = record { port = ps.pid; basic = basic; extended = [] } ∷ [];
  ports = record ps { prev_stats = cur } ∷ rest;
  complete = false;
}
on_extended ps basic cur rest (some vals) next =
    before (record { port = ps.pid; basic = basic; extended = extended_added vals ps.prev_vals })
      (record ps { prev_stats = cur; prev_vals = vals }) next

abbrev pub on_stats : PortStats → List PortStats → Option (List ℕ) → (List ℕ → Outcome) → Outcome
on_stats ps rest none next = record { added = []; ports = ps ∷ rest; complete = false }
on_stats ps rest (some cur) next = next cur

-- What `StatsGet` and `XstatGetByID` answer for a port, `none` where they fail.
module _ (stats_get xstat_get_by_id : ℕ → Option (List ℕ)) where
  -- The loop over the ports; `diff_stats` is the variable that stands before it.
  unfoldable pub report_loop : List PortStats → (diff_stats : List ℕ) → Outcome
  report_loop [] diff_stats = record { added = []; ports = []; complete = true }
  report_loop (ps ∷ rest) diff_stats = on_stats ps rest (stats_get ps.pid) (λ cur.
      let diff_stats = stats_diff cur ps.prev_stats diff_stats in
      on_extended ps diff_stats cur rest (xstat_get_by_id ps.pid) (report_loop rest diff_stats))

  -- `diffStats` begins with zeros. Of its counters the 8 of `GoStats` are kept, which alone are added.
  unfoldable pub report : List PortStats → Outcome
  report ports = report_loop ports (0 ∷ 0 ∷ 0 ∷ 0 ∷ 0 ∷ 0 ∷ 0 ∷ 0 ∷ [])
