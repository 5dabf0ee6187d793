-- ===== src/Mempool/Tests.antt =====
-- Pools that are their flags, and the objects of a pool in a state that sums sizes.
use go_dpdk.Base.{
  ℕ, ◌+◌, ◌^◌, ◌≡◌, refl, arith, Option, none, some, List, [], ◌∷◌, length, u32, map,
}
use go_dpdk.Common.Registry.{ObjArray, array_create, array_read, array_delete}
use go_dpdk.Common.Registry.Array.{IsCounted, live}
use go_dpdk.Memzone.Walked.{visit}
use go_dpdk.Mempool.{
  PoolOption, opt_cache_size, opt_flag, configured, configure, PoolRte, create_empty,
  create_mbuf_pool, set_ops_ring, Slice, obj_iter, obj_iter_c, go_object_cb,
}
use go_dpdk.Mempool.Flags.{
  any_flag, ops_for, unflagged, set_ops_ring-create_empty, create_mbuf_pool-unflagged,
}
use go_dpdk.Mempool.Iter.{object, obj_iter-visit}

abbrev flags_only : PoolRte ℕ
flags_only = record {
  create_empty = λ n elt_size cache_size priv_data_size socket flags. some flags;
  pool_create_by_ops = λ n cache_size priv_size data_room_size socket ops. some cache_size;
  cache_create = λ size socket. some size;
}

abbrev same_flags : ℕ → ℕ
same_flags pool = pool

-- A single producer, with bits 2 and 3 for the two flags.
abbrev opts : List PoolOption
opts = opt_cache_size 32 ∷ opt_flag 4 ∷ opt_flag 1 ∷ []

created : create_empty flags_only 100 64 opts ≡ some 5
unfolding create_empty configured configure
created = refl

kept : (pool flags : ℕ) → ◌≡◌ {A = Option ℕ} (some flags) (some pool) → pool ≡ flags
kept pool flags e = cc

set_ops_ring-create_empty_example :
    set_ops_ring (2 ^ 2) (2 ^ 3) (same_flags 5) ≡ ops_for (any_flag 2 opts) (any_flag 3 opts)
set_ops_ring-create_empty_example =
    set_ops_ring-create_empty flags_only same_flags 2 3 100 64 opts 5
      (λ n elt_size cache_size priv_data_size socket flags pool e. rw (kept pool flags e) refl)
      (λ n elt_size cache_size priv_data_size socket flags pool e. rw (kept pool flags e) refl)
      (omega arith) (omega arith) created

create_mbuf_pool-unflagged_example :
    create_mbuf_pool flags_only 100 2048 opts
    ≡ create_mbuf_pool flags_only 100 2048 (unflagged opts)
create_mbuf_pool-unflagged_example = create_mbuf_pool-unflagged flags_only 100 2048 opts

abbrev add_size : Slice → ℕ → ℕ
add_size b s = s + b.count

abbrev last_start : Slice → ℕ → ℕ
last_start b s = b.start

abbrev registered : ObjArray (Slice → ℕ → ℕ)
registered = record { array = some last_start ∷ []; cnt = 1 }

abbrev three : List ℕ
three = 4096 ∷ 4160 ∷ 4224 ∷ []

iterated :
    obj_iter registered add_size 64 three 0
    ≡ some (record { array = some last_start ∷ none ∷ []; cnt = 1 }, (192, 3))
unfolding obj_iter obj_iter_c go_object_cb array_create array_read array_delete
iterated = refl

registered-IsCounted : IsCounted registered
unfolding live
registered-IsCounted = record { counted = refl; narrow = omega arith }

there : array_read registered 0 ≡ some (some last_start)
unfolding array_read
there = refl

obj_iter-visit_example :
    (callbacks' : ObjArray (Slice → ℕ → ℕ)) × (obj_iter registered add_size 64 three 0
      ≡ some (callbacks', (visit add_size (map (object 64) three) 0, u32 (length three))))
    × (array_read callbacks' 0 ≡ some (some last_start))
obj_iter-visit_example =
    obj_iter-visit registered add_size last_start 64 three 0 0 registered-IsCounted (omega arith)
      there
