-- ===== src/Common/Registry/Table.antt =====
-- The registry in a map.
use go_dpdk.Base.{ℕ, ◌+◌, ◌^◌, ◌≤◌, ◌<◌, ◌≡◌, ◌≢◌, arith, Option, none, ◌==◌, true, false}
use go_dpdk.Common.Registry.{ObjTable, table_create, table_read}

module _ {ℓ} {A : Type ℓ} where
  -- Nothing is stored at the identifiers that are still to be given out, and they do not wrap.
  pub record IsFresh (r : ObjTable A) : Type ℓ where
    pub unused : (j : ℕ) → r.id ≤ j → r.hash j ≡ none
    pub narrow : r.id + 1 < 2 ^ 64

  -- `Create` gives an identifier that holds nothing yet, and reading it gives the object; the objects
  -- under all other identifiers stay, and those still to be given out are unused. The identifiers
  -- below the counter are the only ones in use, and the counter does not wrap.
  pub table_create_lem :
      (r : ObjTable A) (obj : Option A)
      → IsFresh r
      → (j k : ℕ) → j ≢ (table_create r obj).1
      → (table_create r obj).0.id ≤ k
      → (table_read r (table_create r obj).1 ≡ none)
        × (table_read (table_create r obj).0 (table_create r obj).1 ≡ obj)
        × (table_read (table_create r obj).0 j ≡ table_read r j)
        × (table_read (table_create r obj).0 k ≡ none)
  unfolding table_create table_read
  table_create_lem r obj f j k h le =
      let narrow = f.narrow in
      let behind : (k == r.id) ≡ false = ground arith in
      let other : (j == r.id) ≡ false = ground arith in
      let same : (r.id == r.id) ≡ true = ground arith in
      (f.unused r.id (omega arith), rw same, rw other, rw behind (f.unused k (omega arith)))
