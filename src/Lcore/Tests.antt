-- ===== src/Lcore/Tests.antt =====
-- Runs and instances for the maps of processors.
use go_dpdk.Base.{
  ℕ, zero, suc, ◌*◌, ◌<◌, ◌≡◌, refl, arith, List, [], ◌∷◌, Option, some, length, ◌==◌,
  if◌then◌else◌,
}
use go_dpdk.Lcore.{ok, lookup, append_if, append_digit, read_loop, read_cpu_hex_map}
use go_dpdk.Lcore.Map.{IsHex, members, bit_at, read_cpu_hex_map-members}
use go_dpdk.Lcore.Numa.{Opened, missing, opened, loaded, load_cpu_map, load_loop, add_cores, fill}
use go_dpdk.Lcore.Numa.Nodes.{IsLaid, IsNodes, load_cpu_map-IsNodes}

-- "a3"
abbrev word : List ℕ
word = 97 ∷ 51 ∷ []

read_run : read_cpu_hex_map (some word) ≡ ok (0 ∷ 1 ∷ 5 ∷ 7 ∷ [])
unfolding read_cpu_hex_map read_loop lookup append_digit append_if
read_run = refl

word-IsHex : IsHex word
unfolding lookup
word-IsHex zero lt = (10, refl)
word-IsHex (suc zero) lt = (3, refl)
word-IsHex (suc (suc i)) lt = absurd (omega (arith, lt))

read_cpu_hex_map-members_example :
    read_cpu_hex_map (some word) ≡ ok (members (bit_at word) 0 (4 * length word))
read_cpu_hex_map-members_example = read_cpu_hex_map-members word word-IsHex

-- "00000000,000000ff": the kernel puts a comma between groups of 32 processors.
abbrev wide_word : List ℕ
wide_word =
    48 ∷ 48 ∷ 48 ∷ 48 ∷ 48 ∷ 48 ∷ 48 ∷ 48 ∷ 44 ∷ 48 ∷ 48 ∷ 48 ∷ 48 ∷ 48 ∷ 48 ∷ 102 ∷ 102 ∷ []

-- Two nodes: the cores 0, 1, 5, 7, and the cores 2 and 3.
abbrev open_map : ℕ → Opened
open_map n =
    if n == 0 then opened (some word) else if n == 1 then opened (some (99 ∷ [])) else missing

abbrev maps : ℕ → List ℕ
maps n = if n == 0 then 0 ∷ 1 ∷ 5 ∷ 7 ∷ [] else 2 ∷ 3 ∷ []

files :
    (n : ℕ)
    → n < 2
    → (w : Option (List ℕ)) × (open_map n ≡ opened w) × (read_cpu_hex_map w ≡ ok (maps n))
unfolding read_cpu_hex_map read_loop lookup append_digit append_if
files zero lt = (some word, refl, refl)
files (suc zero) lt = (some (99 ∷ []), refl, refl)
files (suc (suc n)) lt = absurd (omega (arith, lt))

laid : IsLaid open_map 2 maps
laid = record { last = refl; held = λ n lt. files n lt }

load_run : load_cpu_map open_map 3 ≡ some (loaded (0 ∷ 0 ∷ 1 ∷ 1 ∷ 0 ∷ 0 ∷ 0 ∷ 0 ∷ []))
unfolding load_cpu_map load_loop add_cores fill read_cpu_hex_map read_loop lookup append_digit
    append_if
load_run = refl

load_cpu_map-IsNodes_example :
    (l : List ℕ) × (load_cpu_map open_map 3 ≡ some (loaded l)) × IsNodes maps 2 l
load_cpu_map-IsNodes_example = load_cpu_map-IsNodes maps open_map 2 3 laid (omega arith)
