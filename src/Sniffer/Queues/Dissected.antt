-- ===== src/Sniffer/Queues/Dissected.antt =====
-- The cores by socket that `dissectLcores` makes.
use go_dpdk.Base.{
  ℕ, ◌≡◌, inl, inr, refl, sym, arith, Bool-cases, List, [], ◌∷◌, ◌++◌, Option, none, some, ◌==◌,
}
use mathlib.Core.List.{append_assoc, append-nil}
use go_dpdk.Sniffer.Queues.{Table, LcoreMap, affine_with, add_lcore, dissect_loop, dissect_lcores}
use go_dpdk.Sniffer.Queues.Ready.{IsNotIn, IsDistinct, IsFree, IsReady}

IsNotIn-drop : (x y : ℕ) (l rest : List ℕ) → IsNotIn x (l ++ (y ∷ rest)) → IsNotIn x (l ++ rest)
IsNotIn-drop x y [] rest (ne, h) = h
IsNotIn-drop x y (z ∷ l) rest (ne, h) = (ne, IsNotIn-drop x y l rest h)

IsDistinct-drop : (y : ℕ) (l rest : List ℕ) → IsDistinct (l ++ (y ∷ rest)) → IsDistinct (l ++ rest)
IsDistinct-drop y [] rest (h, d) = d
IsDistinct-drop y (x ∷ l) rest (h, d) = (IsNotIn-drop x y l rest h, IsDistinct-drop y l rest d)

module _ (lcore_to_socket : ℕ → ℕ) where
  IsFree-append :
      (s x : ℕ) (table : Table) (l : List ℕ)
      → IsFree lcore_to_socket s table l
      → lcore_to_socket x ≡ s
      → table x ≡ none
      → IsFree lcore_to_socket s table (l ++ (x ∷ []))
  IsFree-append s x table [] f on free = ((on, free), tt)
  IsFree-append s x table (y ∷ l) (h, f) on free = (h, IsFree-append s x table l f on free)

  -- The invariant of `dissectLcores`, with the cores that are still to come.
  abbrev IsDissected : LcoreMap → List ℕ → Type 0
  IsDissected map rest =
      (s : ℕ) (l : List ℕ)
      → map s ≡ some l
      → IsDistinct (l ++ rest) × IsFree lcore_to_socket s (λ _. none) l

  affine_with-IsDissected :
      (map : LcoreMap) (x : ℕ) (rest : List ℕ) (affine : Option (List ℕ))
      → map (lcore_to_socket x) ≡ affine
      → IsDistinct (x ∷ rest)
      → IsDissected map (x ∷ rest)
      → IsDistinct (affine_with affine x ++ rest)
        × IsFree lcore_to_socket (lcore_to_socket x) (λ _. none) (affine_with affine x)
  affine_with-IsDissected map x rest none at distinct d = (distinct, ((refl, refl), tt))
  affine_with-IsDissected map x rest (some l) at distinct d =
      let (h, f) = d (lcore_to_socket x) l at in
      (
        coe 0 1 (i. IsDistinct (sym (append_assoc l (x ∷ []) rest) i)) h,
        IsFree-append (lcore_to_socket x) x (λ _. none) l f refl refl,
      )

  IsDissected-add_lcore :
      (map : LcoreMap) (x : ℕ) (rest : List ℕ)
      → IsDistinct (x ∷ rest)
      → IsDissected map (x ∷ rest)
      → IsDissected (add_lcore lcore_to_socket map x) rest
  IsDissected-add_lcore map x rest distinct d s l e =
      let affine = affine_with (map (lcore_to_socket x)) x in
      elim (Bool-cases (s == lcore_to_socket x)) [
        | inl same ↦
            let here : s ≡ lcore_to_socket x = ground arith in
            let list : affine ≡ l = ground arith in
            rw (← list, here)
              (affine_with-IsDissected map x rest (map (lcore_to_socket x)) refl distinct d)
        | inr other ↦
            let there : map s ≡ some l = ground arith in
            let (h, f) = d s l there in (IsDistinct-drop x l rest h, f)
      ]

  dissect_loop-IsReady :
      (map : LcoreMap) (rest : List ℕ)
      → IsDistinct rest
      → IsDissected map rest
      → IsReady lcore_to_socket (dissect_loop lcore_to_socket map rest) (λ _. none)
  unfolding dissect_loop
  dissect_loop-IsReady map [] distinct d =
      λ s l e. let (h, f) = d s l e in (coe 0 1 (i. IsDistinct (append-nil l i)) h, f)
  dissect_loop-IsReady map (x ∷ rest) distinct d =
      dissect_loop-IsReady (add_lcore lcore_to_socket map x) rest distinct.1
        (IsDissected-add_lcore map x rest distinct d)

  pub dissect_lcores-IsReady :
      (lcores : List ℕ)
      → IsDistinct lcores
      → IsReady lcore_to_socket (dissect_lcores lcore_to_socket lcores) (λ _. none)
  unfolding dissect_lcores
  dissect_lcores-IsReady lcores distinct =
      dissect_loop-IsReady (λ _. none) lcores distinct (λ s l e. cc)
