-- ===== src/Ethdev/Stats.antt =====
-- ethdev/stats.go: the differences of counters.
pub mod Delta
mod Tests
use go_dpdk.Base.{
  ℕ, zero, suc, ◌+◌, Bool, true, false, ◌&&◌, not, List, [], ◌∷◌, ◌++◌, ltb, ◌==◌, sub64,
  if◌then◌else◌, ℤ, pos, negsuc,
}

pub record Xstat : Type 0 where
  pub index : ℕ
  pub value : ℕ

-- The loop of `searchXstat` from position `n` on.
unfoldable pub search_loop : List Xstat → (idx n : ℕ) → ℤ
search_loop [] idx n = negsuc 0
search_loop (x ∷ xs) idx n =
    let rest = search_loop xs idx (n + 1) in if x.index == idx then pos n else rest

unfoldable pub search_xstat : List Xstat → (idx : ℕ) → ℤ
search_xstat xs idx = search_loop xs idx 0

-- `xs[n].Value`, and the assignment to it.
unfoldable pub value_at : List Xstat → (n : ℕ) → ℕ
value_at [] n = 0
value_at (x ∷ xs) zero = x.value
value_at (x ∷ xs) (suc n) = value_at xs n

unfoldable pub put_value : List Xstat → (n v : ℕ) → List Xstat
put_value [] n v = []
put_value (x ∷ xs) zero v = record x { value = v } ∷ xs
put_value (x ∷ xs) (suc n) v = x ∷ put_value xs n v

-- What one incoming value does to `old`, and the value that it comes to.
unfoldable pub diff_old : ℤ → List Xstat → Xstat → List Xstat × ℕ
diff_old (negsuc _) old d = (old ++ (d ∷ []), 0)
diff_old (pos n) old d =
    let f = value_at old n in
    if ltb 0 f && ltb f d.value
    then (put_value old n d.value, sub64 d.value f)
    else (put_value old n d.value, 0)

-- What it does to `delta`.
unfoldable pub diff_delta : ℤ → List Xstat → Xstat → List Xstat
diff_delta (negsuc _) delta d = delta ++ (d ∷ [])
diff_delta (pos k) delta d = put_value delta k d.value

unfoldable pub xstat_diff : (incoming old delta : List Xstat) → List Xstat × List Xstat
xstat_diff [] old delta = (old, delta)
xstat_diff (d ∷ incoming) old delta =
    let changed = diff_old (search_xstat old d.index) old d in
    let d = record d { value = changed.1 } in
    xstat_diff incoming changed.0 (diff_delta (search_xstat delta d.index) delta d)

-- `Stats.Diff` on the counters as an array; the result is `delta` after it.
unfoldable pub stats_diff : (cur old delta : List ℕ) → List ℕ
stats_diff [] old delta = delta
stats_diff (c ∷ cur) [] delta = delta
stats_diff (c ∷ cur) (s ∷ old) [] = []
stats_diff (c ∷ cur) (s ∷ old) (d ∷ delta) =
    (if ltb s c && not (s == 0) then sub64 c s else d) ∷ stats_diff cur old delta
