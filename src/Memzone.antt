-- ===== src/Memzone.antt =====
-- memzone/memzone.go: the options of Reserve, the call that they lead to, and Walk over the zones
-- through the callback registry. The functions of the C library are parameters.
pub mod Reserved
pub mod Walked
mod Tests
use go_dpdk.Base.{ℕ, ◌^◌, ◌-◌, ◌%◌, bit_or, u32, Option, none, some, List, [], ◌∷◌}
use go_dpdk.Common.Registry.{ObjArray, array_create, array_read, array_delete}

-- `conf`. The socket is the bit pattern of a C int.
pub record Conf : Type 0 where
  pub size : ℕ
  pub socket : ℕ
  pub flags : ℕ
  pub aligned : Option ℕ
  pub bound : Option ℕ

-- An option by the function that makes it.
pub data ReserveOption : Type 0 where
  opt_socket : ℕ → ReserveOption
  opt_flag : ℕ → ReserveOption
  opt_aligned : ℕ → ReserveOption
  opt_bounded : ℕ → ReserveOption

-- What the option's function does to the configuration.
unfoldable pub apply_option : ReserveOption → Conf → Conf
apply_option (opt_socket socket) rc = record rc { socket = u32 socket }
apply_option (opt_flag flag) rc = record rc { flags = bit_or rc.flags (u32 flag) }
apply_option (opt_aligned align) rc = record rc { aligned = some (u32 align) }
apply_option (opt_bounded bound) rc = record rc { bound = some (u32 bound) }

-- The loop over the options.
unfoldable pub apply_options : List ReserveOption → Conf → Conf
apply_options [] rc = rc
apply_options (o ∷ opts) rc = apply_options opts (apply_option o rc)

-- The three functions of the C library, with the name already given. `none` is NULL.
pub record Rte {ℓ} (Z : Type ℓ) : Type ℓ where
  pub reserve : ℕ → ℕ → ℕ → Option Z
  pub reserve_aligned : ℕ → ℕ → ℕ → ℕ → Option Z
  pub reserve_bounded : ℕ → ℕ → ℕ → ℕ → ℕ → Option Z

-- How Reserve ends.
pub data Outcome {ℓ} (Z : Type ℓ) : Type ℓ where
  reserved : Z → Outcome Z
  failed : Outcome Z
  panicked : Outcome Z

-- SOCKET_ID_ANY is -1.
abbrev pub initial : ℕ → Conf
initial size = record { size = size; socket = 2 ^ 32 - 1; flags = 0; aligned = none; bound = none }

module _ {ℓ} {Z : Type ℓ} where
  -- `mz == nil` is an error.
  unfoldable pub checked : Option Z → Outcome Z
  checked none = failed
  checked (some mz) = reserved mz

  -- The switch of doReserve, on `bound` and then on `aligned`, both nil or not. The last case reads
  -- through `aligned` whether it is nil or not.
  unfoldable pub do_reserve : Rte Z → Conf → Option ℕ → Option ℕ → Outcome Z
  unfolding checked
  do_reserve rte rc none none = checked (rte.reserve rc.size rc.socket rc.flags)
  do_reserve rte rc none (some align) =
      checked (rte.reserve_aligned rc.size rc.socket rc.flags align)
  do_reserve rte rc (some bound) none = panicked
  do_reserve rte rc (some bound) (some align) =
      checked (rte.reserve_bounded rc.size rc.socket rc.flags align bound)

  unfoldable pub reserve : Rte Z → ℕ → List ReserveOption → Outcome Z
  unfolding do_reserve apply_options apply_option
  reserve rte size opts =
      let rc = apply_options opts (initial size) in do_reserve rte rc rc.bound rc.aligned

module _ {ℓ} {Z S : Type ℓ} where
  -- A callback changes the caller's state. mzCb:  a missing identifier and a nil object panic.
  unfoldable pub mz_cb : ObjArray (Z → S → S) → ℕ → Z → S → Option S
  mz_cb callbacks cb mz s = elim (array_read callbacks cb) [
    | none ↦ none
    | some none ↦ none
    | some (some fn) ↦ some (fn mz s)
  ]

  -- rte_memzone_walk calls mzCb for each zone, in its order.
  unfoldable pub walk_zones : ObjArray (Z → S → S) → ℕ → List Z → S → Option S
  walk_zones callbacks cb [] s = some s
  walk_zones callbacks cb (mz ∷ zones) s = elim (mz_cb callbacks cb mz s) [
    | none ↦ none
    | some s' ↦ walk_zones callbacks cb zones s'
  ]

  unfoldable pub walk :
      ObjArray (Z → S → S) → (Z → S → S) → List Z → S → Option (ObjArray (Z → S → S) × S)
  unfolding walk_zones mz_cb
  walk callbacks fn zones s =
      let entry = array_create callbacks (some fn) in
      let created = entry.0 in
      let cb = entry.1 in
      elim (walk_zones created cb zones s) [
        | none ↦ none
        | some s' ↦ elim (array_delete created cb) [
          | none ↦ none
          | some callbacks' ↦ some (callbacks', s')
        ]
      ]
