-- ===== src/Exporter/Tests.antt =====
-- A port with two counters, and two memory zones of which one holds a ring.
use go_dpdk.Base.{ℕ, ◌+◌, ◌^◌, ltb, if◌then◌else◌, ◌≡◌, refl, arith, some, List, [], ◌∷◌, replicate}
use go_dpdk.Common.Registry.{ObjArray}
use go_dpdk.Exporter.{CounterOps, EthXstat, new_eth_xstat, Reading, read, failed}
use go_dpdk.Exporter.Counted.{IsCounter, AreShown, collect_all, last_read, collect_all-last_read}
use go_dpdk.Exporter.Rings.{Zone, Metrics}

abbrev readings : List Reading
readings = read (3 ∷ 0 ∷ []) ∷ failed (9 ∷ 0 ∷ []) ∷ read (5 ∷ 7 ∷ []) ∷ []

-- Numbers that are exact up to 2 ^ 53, and no greater.
abbrev rounded : ℕ → ℕ
rounded n = if ltb n (2 ^ 53) then n else 2 ^ 53

abbrev counter : CounterOps ℕ ℕ
counter = record { float64 = rounded; new = 0; add = λ c v. rounded (c + v); value = λ c. c }

counter-IsCounter : IsCounter counter
counter-IsCounter = record { shows_new = refl; shows_add = λ c a b shown small. ground arith }

collect_all-last_read_example :
    (ex : EthXstat ℕ) × (collect_all counter readings (new_eth_xstat counter 2) ≡ some ex)
    × AreShown counter ex.cnt (last_read (replicate 2 0) readings)
collect_all-last_read_example =
    collect_all-last_read counter counter-IsCounter 2 readings (omega arith)

-- RG_ is the prefix of rings.
abbrev prefix : List ℕ
prefix = 82 ∷ 71 ∷ 95 ∷ []

abbrev ring_zone : Zone
ring_zone = record {
  name = 82 ∷ 71 ∷ 95 ∷ 97 ∷ [];
  size = 4096;
  page_size = 2048;
  socket_id = 0;
  ring_cap = 63;
  ring_count = 5;
}

abbrev pool_zone : Zone
pool_zone = record ring_zone { name = 77 ∷ 80 ∷ 95 ∷ [] }

abbrev zones : List Zone
zones = pool_zone ∷ ring_zone ∷ []

abbrev nothing : Zone → Metrics → Metrics
nothing mz s = s

abbrev registered : ObjArray (Zone → Metrics → Metrics)
registered = record { array = some nothing ∷ []; cnt = 1 }
