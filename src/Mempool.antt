-- ===== src/Mempool.antt =====
-- mempool/mempool.go, mempool/mbuf.go and mempool/cache.go: the options, the calls that they lead
-- to, and the iteration over the objects of a pool through the callback registry. The functions of
-- the C library are parameters, with the name of the pool already given; C.CString is left out.
pub mod Flags
pub mod Iter
mod Tests
use go_dpdk.Base.{
  ℕ, ◌+◌, ◌-◌, ◌^◌, ◌%◌, bit_and, bit_or, u16, u32, Bool, not, Option, none, some, List, [], ◌∷◌,
  ◌++◌, ◌==◌, if◌then◌else◌,
}
use go_dpdk.Common.Registry.{ObjArray, array_create, array_read, array_delete}

-- `mpConf`. The socket is the bit pattern of a C int.
pub record MpConf : Type 0 where
  pub cache_size : ℕ
  pub priv_data_size : ℕ
  pub socket : ℕ
  pub flags : ℕ
  pub ops_name : Option (List ℕ)

-- An option by the function that makes it.
pub data PoolOption : Type 0 where
  opt_ops_name : List ℕ → PoolOption
  opt_cache_size : ℕ → PoolOption
  opt_private_data_size : ℕ → PoolOption
  opt_socket : ℕ → PoolOption
  opt_flag : ℕ → PoolOption

unfoldable pub configure : PoolOption → MpConf → MpConf
configure (opt_ops_name name) conf = record conf { ops_name = some name }
configure (opt_cache_size size) conf = record conf { cache_size = u32 size }
configure (opt_private_data_size size) conf = record conf { priv_data_size = u32 size }
configure (opt_socket socket) conf = record conf { socket = u32 socket }
configure (opt_flag flag) conf = record conf { flags = bit_or conf.flags (u32 flag) }

-- The loop over the options.
unfoldable pub configured : List PoolOption → MpConf → MpConf
configured [] conf = conf
configured (o ∷ opts) conf = configured opts (configure o conf)

-- SOCKET_ID_ANY is -1.
abbrev pub default_conf : MpConf
default_conf = record {
  cache_size = 0;
  priv_data_size = 0;
  socket = 2 ^ 32 - 1;
  flags = 0;
  ops_name = none;
}

-- The three constructors of the C library. `none` is NULL.
pub record PoolRte {ℓ} (P : Type ℓ) : Type ℓ where
  pub create_empty : (n elt_size cache_size priv_data_size socket flags : ℕ) → Option P
  pub pool_create_by_ops :
      (n cache_size priv_size data_room_size socket : ℕ) → Option (List ℕ) → Option P
  pub cache_create : (size socket : ℕ) → Option P

module _ {ℓ} {P : Type ℓ} (rte : PoolRte P) where
  -- `none` is the error of the C library.
  unfoldable pub create_empty : (n elt_size : ℕ) → List PoolOption → Option P
  create_empty n elt_size opts =
      let conf = configured opts default_conf in
      rte.create_empty (u32 n) (u32 elt_size) conf.cache_size conf.priv_data_size conf.socket
        conf.flags

  unfoldable pub create_mbuf_pool : (n data_room_size : ℕ) → List PoolOption → Option P
  create_mbuf_pool n data_room_size opts =
      let conf = configured opts default_conf in
      rte.pool_create_by_ops (u32 n) conf.cache_size (u16 conf.priv_data_size) (u16 data_room_size)
        conf.socket conf.ops_name

  unfoldable pub create_cache : List PoolOption → Option P
  create_cache opts =
      let conf = configured opts default_conf in rte.cache_create conf.cache_size conf.socket

-- "ring_sp" and "ring_mp", "_sc" and "_mc".
abbrev pub ring_sp : List ℕ
ring_sp = b'r' ∷ b'i' ∷ b'n' ∷ b'g' ∷ b'_' ∷ b's' ∷ b'p' ∷ []

abbrev pub ring_mp : List ℕ
ring_mp = b'r' ∷ b'i' ∷ b'n' ∷ b'g' ∷ b'_' ∷ b'm' ∷ b'p' ∷ []

abbrev pub sc : List ℕ
sc = b'_' ∷ b's' ∷ b'c' ∷ []

abbrev pub mc : List ℕ
mc = b'_' ∷ b'm' ∷ b'c' ∷ []

-- The name that SetOpsRing gives to SetOpsByName, by the field `flags` of the pool. `sp_put` and
-- `sc_get` are MEMPOOL_F_SP_PUT and MEMPOOL_F_SC_GET.
unfoldable pub set_ops_ring : (sp_put sc_get flags : ℕ) → List ℕ
set_ops_ring sp_put sc_get flags =
    let ops = if not (bit_and flags sp_put == 0) then ring_sp else ring_mp in
    ops ++ (if not (bit_and flags sc_get == 0) then sc else mc)

-- The slice of bytes that a callback is given.
pub record Slice : Type 0 where
  pub start : ℕ
  pub count : ℕ
  pub cap : ℕ

module _ {ℓ} {S : Type ℓ} where
  -- A callback changes the caller's state. goObjectCb: a missing identifier and a nil object panic.
  unfoldable pub go_object_cb : ObjArray (Slice → S → S) → (cb elt_size obj : ℕ) → S → Option S
  go_object_cb callbacks cb elt_size obj s = elim (array_read callbacks cb) [
    | none ↦ none
    | some none ↦ none
    | some (some fn) ↦ some (fn (record { start = obj; count = elt_size; cap = elt_size }) s)
  ]

  -- rte_mempool_obj_iter calls goObjectCb for each object, in its order, and returns their number.
  unfoldable pub obj_iter_c :
      ObjArray (Slice → S → S) → (cb elt_size : ℕ) → List ℕ → S → Option (S × ℕ)
  obj_iter_c callbacks cb elt_size [] s = some (s, 0)
  obj_iter_c callbacks cb elt_size (obj ∷ objs) s =
      elim (go_object_cb callbacks cb elt_size obj s) [
        | none ↦ none
        | some s' ↦ elim (obj_iter_c callbacks cb elt_size objs s') [
          | none ↦ none
          | some (s'', n) ↦ some (s'', n + 1)
        ]
      ]

  -- The objects of the pool by their addresses.
  unfoldable pub obj_iter :
      ObjArray (Slice → S → S)
      → (Slice → S → S)
      → (elt_size : ℕ) → List ℕ
      → S
      → Option (ObjArray (Slice → S → S) × (S × ℕ))
  obj_iter callbacks fn elt_size objs s =
      let created = array_create callbacks (some fn) in
      elim (obj_iter_c created.0 created.1 elt_size objs s) [
        | none ↦ none
        | some iterated ↦ elim (array_delete created.0 created.1) [
          | none ↦ none
          | some callbacks' ↦ some (callbacks', (iterated.0, u32 iterated.1))
        ]
      ]
