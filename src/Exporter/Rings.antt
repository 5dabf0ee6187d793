-- ===== src/Exporter/Rings.antt =====
-- RingMetrics.Collect of app/dpdk-exporter/metrics.go: a walk over the memory zones that sets the
-- gauges of those that hold a ring. The registry of callbacks is that of package memzone.
use go_dpdk.Base.{ℕ, ◌≡◌, ◌==◌, ◌&&◌, if◌then◌else◌, Bool, true, false, Option, some, List, [], ◌∷◌}
use go_dpdk.Common.Registry.{ObjArray}
use go_dpdk.Memzone.{walk}

-- What is asked of a zone, and of the ring at its address.
pub record Zone : Type 0 where
  pub name : List ℕ
  pub size : ℕ
  pub page_size : ℕ
  pub socket_id : ℕ
  pub ring_cap : ℕ
  pub ring_count : ℕ

-- The five gauges under one label.
pub record Gauges : Type 0 where
  pub memzone_len : ℕ
  pub memzone_page_size : ℕ
  pub memzone_socket_id : ℕ
  pub cap_of : ℕ
  pub count_of : ℕ

-- The gauges by their label.
abbrev pub Metrics : Type 0
Metrics = List ℕ → Option Gauges

unfoldable pub has_prefix : List ℕ → List ℕ → Bool
has_prefix name [] = true
has_prefix [] (p ∷ prefix) = false
has_prefix (c ∷ name) (p ∷ prefix) = c == p && has_prefix name prefix

-- Two labels are one.
unfoldable pub same_name : List ℕ → List ℕ → Bool
same_name [] [] = true
same_name [] (d ∷ ds) = false
same_name (c ∷ cs) [] = false
same_name (c ∷ cs) (d ∷ ds) = c == d && same_name cs ds

unfoldable pub gauges_of : Zone → Gauges
gauges_of mz = record {
  memzone_len = mz.size;
  memzone_page_size = mz.page_size;
  memzone_socket_id = mz.socket_id;
  cap_of = mz.ring_cap;
  count_of = mz.ring_count;
}

-- The closure that Collect passes to Walk; `prefix` is RTE_RING_MZ_PREFIX.
unfoldable pub on_zone : (prefix : List ℕ) → Zone → Metrics → Metrics
on_zone prefix mz s label =
    if has_prefix mz.name prefix && same_name mz.name label then some (gauges_of mz) else s label

unfoldable pub collect_rings :
    (prefix : List ℕ)
    → ObjArray (Zone → Metrics → Metrics)
    → List Zone
    → Metrics
    → Option (ObjArray (Zone → Metrics → Metrics) × Metrics)
unfolding on_zone has_prefix same_name gauges_of
collect_rings prefix callbacks zones s = walk callbacks (on_zone prefix) zones s

module _ (prefix : List ℕ) where
  -- No other zone has the name.
  abbrev pub IsOther : List ℕ → List Zone → Type 0
  IsOther name [] = Unit
  IsOther name (mz ∷ zones) = (same_name mz.name name ≡ false) × IsOther name zones

  -- The names of the zones differ.
  abbrev pub AreDistinct : List Zone → Type 0
  AreDistinct [] = Unit
  AreDistinct (mz ∷ zones) = IsOther mz.name zones × AreDistinct zones
