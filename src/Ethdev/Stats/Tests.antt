-- ===== src/Ethdev/Stats/Tests.antt =====
-- Runs and instances for the differences of counters.
use go_dpdk.Base.{ℕ, ◌≡◌, refl, arith, List, [], ◌∷◌}
use go_dpdk.Ethdev.Stats.{
  Xstat, xstat_diff, search_xstat, search_loop, diff_old, diff_delta, value_at, put_value,
  stats_diff,
}
use go_dpdk.Ethdev.Stats.Delta.{find, renewed, gained, IsSample, xstat_diff-find}

abbrev x : ℕ → ℕ → Xstat
x i v = record { index = i; value = v }

abbrev incoming : List Xstat
incoming = x 1 100 ∷ x 2 50 ∷ x 3 7 ∷ []

abbrev old : List Xstat
old = x 2 30 ∷ x 1 0 ∷ []

diff_run : (xstat_diff incoming old []).1 ≡ x 1 0 ∷ x 2 20 ∷ x 3 0 ∷ []
unfolding xstat_diff search_xstat search_loop diff_old diff_delta value_at put_value
diff_run = refl

-- A counter that has not grown keeps the difference that was there.
stats_run : stats_diff (5 ∷ 9 ∷ 3 ∷ []) (5 ∷ 4 ∷ 0 ∷ []) (8 ∷ 8 ∷ 8 ∷ []) ≡ 8 ∷ 5 ∷ 8 ∷ []
unfolding stats_diff
stats_run = refl

sample : IsSample incoming
unfolding find
sample = ((refl, omega arith), ((refl, omega arith), ((refl, omega arith), tt)))

xstat_diff-find_example :
    (find (xstat_diff incoming old []).0 2 ≡ renewed (find incoming 2) (find old 2))
    × (find (xstat_diff incoming old []).1 2 ≡ gained (find incoming 2) (find old 2) (find [] 2))
xstat_diff-find_example = xstat_diff-find incoming old [] 2 sample
