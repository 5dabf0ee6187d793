-- ===== src/Lcore/Numa/Nodes.antt =====
-- The nodes that are loaded are those of the files.
use go_dpdk.Base.{
  ℕ, zero, suc, ◌+◌, ◌≤◌, ◌<◌, ◌≡◌, refl, sym, ap, ◌∙◌, inl, inr, arith, true, false, List, [], ◌∷◌,
  Option, none, some, length, get_or, ltb, ◌==◌, if◌then◌else◌, pos, negsuc, Bool-cases, ℕ_discrete,
}
use go_dpdk.Common.Set.Insert.{member}
use go_dpdk.Lcore.{ok, read_cpu_hex_map}
use go_dpdk.Lcore.Numa.{
  Opened, missing, opened, NodeMap, add_cores, fill, loaded, load_loop, load_cpu_map, get_numa_node,
}

-- What the cores of a node change.
record IsAdded (n : ℕ) (cores : List ℕ) (before : NodeMap) (low : ℕ) (after : NodeMap) (high : ℕ)
    : Type 0 where
  here : (x : ℕ) → member cores x ≡ true → after x ≡ some n
  elsewhere : (x : ℕ) → member cores x ≡ false → after x ≡ before x
  grown : low ≤ high
  above : (x : ℕ) → member cores x ≡ true → x ≤ high
  below : (b : ℕ) → low < b → ((x : ℕ) → member cores x ≡ true → x < b) → high < b

add_cores-IsAdded :
    (n : ℕ) (cores : List ℕ) (node_map : NodeMap) (max : ℕ)
    → IsAdded n cores node_map max
        (add_cores n cores node_map max).0
        (add_cores n cores node_map max).1
unfolding add_cores member
add_cores-IsAdded n [] node_map max = record {
  here = λ x e. cc;
  elsewhere = λ x e. refl;
  grown = omega arith;
  above = λ x e. cc;
  below = λ b lt h. lt;
}
add_cores-IsAdded n (c ∷ cores) node_map max =
    let next : NodeMap = λ x. if x == c then some n else node_map x in
    let top : ℕ = if ltb max c then c else max in
    let rest = add_cores-IsAdded n cores next top in
    record {
      here = λ x e. elim (Bool-cases (member cores x)) [
        | inl again ↦ rest.here x again
        | inr only ↦ rest.elsewhere x only ∙ ground (arith, e, only)
      ];
      elsewhere = λ x e. rest.elsewhere x (ground (arith, e)) ∙ ground (arith, e);
      grown = ground (arith, rest.grown);
      above = λ x e. elim (Bool-cases (member cores x)) [
        | inl again ↦ rest.above x again
        | inr only ↦ ground (arith, e, only, rest.grown)
      ];
      below = λ b lt h. rest.below b (ground (arith, lt, h c)) (λ x e. h x (ground (arith, e)));
    }

get_or-fill :
    (node_map : NodeMap) (left i k n : ℕ)
    → k < left
    → node_map (i + k) ≡ some n
    → get_or (fill node_map left i) k 0 ≡ n
unfolding fill
get_or-fill node_map zero i k n lt e = absurd (omega (arith, lt))
get_or-fill node_map (suc left) i zero n lt e =
    let at : node_map i ≡ some n = ap node_map {y = i + 0} (omega arith) ∙ e in rw at refl
get_or-fill node_map (suc left) i (suc k) n lt e =
    get_or-fill node_map left (i + 1) k n (omega (arith, lt))
      (ap node_map {y = i + suc k} (omega arith) ∙ e)

length-fill : (node_map : NodeMap) (left i : ℕ) → length (fill node_map left i) ≡ left
unfolding fill
length-fill node_map zero i = refl
length-fill node_map (suc left) i = ap suc (length-fill node_map left (i + 1))

-- The files of the nodes below `k` hold the maps, and there is no other.
pub record IsLaid (open_map : ℕ → Opened) (k : ℕ) (maps : ℕ → List ℕ) : Type 0 where
  pub last : open_map k ≡ missing
  pub held :
      (n : ℕ)
      → n < k
      → (word : Option (List ℕ)) × (open_map n ≡ opened word)
        × (read_cpu_hex_map word ≡ ok (maps n))

module _ (maps : ℕ → List ℕ) where
  -- The last node below `n` whose map has the core.
  abbrev IsLastNode : (n m x : ℕ) → Type 0
  IsLastNode n m x =
      (m < n)
      × (member (maps m) x ≡ true)
      × ((m' : ℕ) → m < m' → m' < n → member (maps m') x ≡ false)

  -- The cores of the nodes below `n` are below `b`.
  abbrev AreBelow : (n b : ℕ) → Type 0
  AreBelow n b = (m x : ℕ) → m < n → member (maps m) x ≡ true → x < b

  -- What is known after the nodes below `n`.
  record IsSeen (n : ℕ) (node_map : NodeMap) (max : ℕ) : Type 0 where
    nodes : (m x : ℕ) → IsLastNode n m x → node_map x ≡ some m
    inside : AreBelow n (suc max)
    bounded : (b : ℕ) → 0 < b → AreBelow n b → max < b

  add_cores-IsSeen :
      (n : ℕ) (node_map : NodeMap) (max : ℕ)
      → IsSeen n node_map max
      → IsSeen (n + 1) (add_cores n (maps n) node_map max).0 (add_cores n (maps n) node_map max).1
  add_cores-IsSeen n node_map max seen =
      let added = add_cores-IsAdded n (maps n) node_map max in
      record {
        nodes = λ m x last. elim (ℕ_discrete m n) [
          | yes now ↦
              let has : member (maps n) x ≡ true = ap (λ j. member (maps j) x) (sym now) ∙ last.1 in
              added.here x has ∙ ap some (sym now)
          | no before ↦
              let not_now = last.2 n (omega (arith, last.0, before)) (omega arith) in
              let earlier = seen.nodes m x (
                omega (arith, last.0, before),
                last.1,
                λ m' lo hi. last.2 m' lo (omega (arith, hi)),
              ) in
              added.elsewhere x not_now ∙ earlier
        ];
        inside = λ m x lt has. elim (ℕ_discrete m n) [
          | yes now ↦
              let there : member (maps n) x ≡ true = ap (λ j. member (maps j) x) (sym now) ∙ has in
              omega (arith, added.above x there)
          | no before ↦ omega (arith, seen.inside m x (omega (arith, lt, before)) has, added.grown)
        ];
        bounded = λ b some_b all.
            added.below b (seen.bounded b some_b (λ m x lt has. all m x (omega (arith, lt)) has))
              (λ x has. all n x (omega arith) has);
      }

  -- What is promised of the table.
  abbrev pub IsNodes : (k : ℕ) → List ℕ → Type 0
  IsNodes k l =
      ((m x : ℕ) → IsLastNode k m x → get_numa_node l x ≡ pos m)
      × ((x : ℕ) → 0 < x → AreBelow k x → get_numa_node l x ≡ negsuc 0)

  fill-IsNodes :
      (k : ℕ) (node_map : NodeMap) (max : ℕ)
      → IsSeen k node_map max
      → IsNodes k (fill node_map (max + 1) 0)
  unfolding get_numa_node
  fill-IsNodes k node_map max seen =
      let size = length-fill node_map (max + 1) 0 in
      (
        λ m x last.
            let low = seen.inside m x last.0 last.1 in
            let holds : ltb x (max + 1) ≡ true = ground (arith, low) in
            let at : node_map (0 + x) ≡ some m =
              ap node_map {x = 0 + x} (omega arith) ∙ seen.nodes m x last in
            let node = get_or-fill node_map (max + 1) 0 x m (omega (arith, low)) at in
            rw (size, holds, node) refl,
        λ x some_x all.
            let high = seen.bounded x some_x all in
            let outside : ltb x (max + 1) ≡ false = ground (arith, high) in rw (size, outside) refl,
      )

  module _ (open_map : ℕ → Opened) (k : ℕ) where
    load_loop-IsNodes :
        (fuel n : ℕ) (node_map : NodeMap) (max : ℕ)
        → IsLaid open_map k maps
        → n ≤ k
        → k < n + fuel
        → IsSeen n node_map max
        → (l : List ℕ) × (load_loop open_map fuel n node_map max ≡ some (loaded l)) × IsNodes k l
    unfolding load_loop
    load_loop-IsNodes zero n node_map max laid le lt seen = absurd (omega (arith, le, lt))
    load_loop-IsNodes (suc fuel) n node_map max laid le lt seen = elim (ℕ_discrete n k) [
      | yes end ↦
          let closed : open_map n ≡ missing = ap open_map end ∙ laid.last in
          (
            fill node_map (max + 1) 0,
            rw closed refl,
            fill-IsNodes k node_map max (coe 0 1 (i. IsSeen (end i) node_map max) seen),
          )
      | no more ↦
          let (word, file, read) = laid.held n (omega (arith, le, more)) in
          let (l, run, nodes) =
            load_loop-IsNodes fuel (n + 1) (add_cores n (maps n) node_map max).0
              (add_cores n (maps n) node_map max).1 laid (omega (arith, le, more))
              (omega (arith, lt)) (add_cores-IsSeen n node_map max seen) in
          (l, rw (file, read) run, nodes)
    ]

    -- Where there are maps of the nodes below `k` and of no other, more than `k` steps load them:
    -- the node of a core is the last one whose map has the core, and a core above all that are in
    -- a map, and above 0, has none.
    pub load_cpu_map-IsNodes :
        (fuel : ℕ)
        → IsLaid open_map k maps
        → k < fuel
        → (l : List ℕ) × (load_cpu_map open_map fuel ≡ some (loaded l)) × IsNodes k l
    unfolding load_cpu_map
    load_cpu_map-IsNodes fuel laid lt =
        load_loop-IsNodes fuel 0 (λ _. none) 0 laid (omega arith) (omega (arith, lt))
          (record {
            nodes = λ m x last. absurd (omega (arith, last.0));
            inside = λ m x lt has. absurd (omega (arith, lt));
            bounded = λ b some_b all. some_b;
          })
