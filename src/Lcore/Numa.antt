-- ===== src/Lcore/Numa.antt =====
-- lcore/lcore_linux.go: the nodes of the logical cores.
pub mod Nodes
use go_dpdk.Base.{
  ℕ, zero, suc, ◌+◌, Bool, List, [], ◌∷◌, Option, none, some, length, get_or, ltb, ◌==◌,
  if◌then◌else◌, ℤ, pos, negsuc,
}
use go_dpdk.Lcore.{Error, Result, ok, failed, read_cpu_hex_map}

-- What `os.Open` of the map of a node gives: ENOENT, another error, or a file, with the scanner's
-- error or first word.
pub data Opened : Type 0 where
  missing : Opened
  broken : Opened
  opened : Option (List ℕ) → Opened

abbrev pub NodeMap : Type 0
NodeMap = ℕ → Option ℕ

-- The loop over the cores of node `n`; the result is `nodeMap` and `maxLcoreID`.
unfoldable pub add_cores : (n : ℕ) → List ℕ → NodeMap → (max : ℕ) → NodeMap × ℕ
add_cores n [] node_map max = (node_map, max)
add_cores n (c ∷ cores) node_map max =
    add_cores n cores (λ x. if x == c then some n else node_map x) (if ltb max c then c else max)

abbrev node_or_zero : Option ℕ → ℕ
node_or_zero none = 0
node_or_zero (some n) = n

-- `lcore2node` from index `i` on, with `left` to go; a core without a node keeps 0.
unfoldable pub fill : NodeMap → (left i : ℕ) → List ℕ
fill node_map zero i = []
fill node_map (suc left) i = node_or_zero (node_map i) ∷ fill node_map left (i + 1)

-- A panic, or the table `lcore2node`.
pub data Loaded : Type 0 where
  panicked : Loaded
  loaded : List ℕ → Loaded

-- What the loop does with a file: stop, panic, or go on with the cores.
abbrev pub on_cores : Result → (List ℕ → Option Loaded) → Option Loaded
on_cores (failed e) next = some panicked
on_cores (ok cores) next = next cores

abbrev pub on_file : Opened → Option Loaded → (List ℕ → Option Loaded) → Option Loaded
on_file missing last next = last
on_file broken last next = some panicked
on_file (opened word) last next = on_cores (read_cpu_hex_map word) next

-- The file system is the parameter.
module _ (open_map : ℕ → Opened) where
  -- The loop from node `n` on; `none` is the end of the fuel.
  unfoldable pub load_loop : (fuel n : ℕ) → NodeMap → (max : ℕ) → Option Loaded
  load_loop zero n node_map max = none
  load_loop (suc fuel) n node_map max =
      on_file (open_map n) (some (loaded (fill node_map (max + 1) 0))) (λ cores.
        let added = add_cores n cores node_map max in load_loop fuel (n + 1) added.0 added.1)

  unfoldable pub load_cpu_map : (fuel : ℕ) → Option Loaded
  load_cpu_map fuel = load_loop fuel 0 (λ _. none) 0

unfoldable pub get_numa_node : (lcore2node : List ℕ) → (id : ℕ) → ℤ
get_numa_node lcore2node id =
    if ltb id (length lcore2node) then pos (get_or lcore2node id 0) else negsuc 0
