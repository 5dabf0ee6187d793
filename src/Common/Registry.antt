-- ===== src/Common/Registry.antt =====
-- common/objects.go: the two registries of objects. Object identifiers are uint64, `none` is the nil
-- object. The mutex makes every operation one step.
pub mod Table
pub mod Array
mod Tests
use go_dpdk.Base.{
  ℕ, suc, ◌+◌, ◌%◌, ◌^◌, Bool, List, [], ◌∷◌, ◌++◌, Option, none, some, length, get_elem?, set, u64,
  sub64, ltb, ◌==◌, if◌then◌else◌,
}

-- `objTable`: reading a missing key gives nil.
pub record ObjTable {ℓ} (A : Type ℓ) : Type ℓ where
  pub hash : ℕ → Option A
  pub id : ℕ

-- `objArray`: an index out of range panics, which is `none`.
pub record ObjArray {ℓ} (A : Type ℓ) : Type ℓ where
  pub array : List (Option A)
  pub cnt : ℕ

module _ {ℓ} {A : Type ℓ} where
  abbrev put : (ℕ → Option A) → ℕ → Option A → (ℕ → Option A)
  put hash id obj j = if j == id then obj else hash j

  unfoldable pub table_create : ObjTable A → Option A → ObjTable A × ℕ
  table_create r obj = (record { hash = put r.hash r.id obj; id = u64 (r.id + 1) }, r.id)

  unfoldable pub table_read : ObjTable A → ℕ → Option A
  table_read r id = r.hash id

  unfoldable pub table_update : ObjTable A → ℕ → Option A → ObjTable A
  table_update r id obj = record r { hash = put r.hash id obj }

  unfoldable pub table_delete : ObjTable A → ℕ → ObjTable A
  table_delete r id = record r { hash = put r.hash id none }

  unfoldable pub array_create : ObjArray A → Option A → ObjArray A × ℕ
  array_create r obj =
      (record { array = r.array ++ (obj ∷ []); cnt = u64 (r.cnt + 1) }, length r.array)

  unfoldable pub array_read : ObjArray A → ℕ → Option (Option A)
  array_read r id = get_elem? r.array id

  unfoldable pub array_update : ObjArray A → ℕ → Option A → Option (ObjArray A)
  array_update r id obj =
      if ltb id (length r.array) then some (record r { array = set r.array id obj }) else none

  unfoldable pub array_delete : ObjArray A → ℕ → Option (ObjArray A)
  array_delete r id =
      if ltb id (length r.array)
      then some (
          let cnt = sub64 r.cnt 1 in
          record { array = if cnt == 0 then [] else set r.array id none; cnt = cnt })
      else none
