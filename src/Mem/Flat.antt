-- ===== src/Mem/Flat.antt =====
-- Rows of mem/flat.go: Parse, Container.Save and Container.Dump. A field of the object is the list
-- of the bytes that its pointer leads to, the text of a string. A row is memory from address 0
-- on, with its length. `none` is a panic.
use go_dpdk.Base.{
  ℕ, ◌+◌, ◌-◌, ltb, leb, if◌then◌else◌, ◌&&◌, Option, none, some, List, [], ◌∷◌, ◌++◌, length, take,
  get_elem?,
}
use go_dpdk.Memory.{Memory, load16, store16, load_bytes, store_bytes}

-- reflect.Kind, as Parse tells kinds apart.
pub data Kind : Type 0 where
  string : Kind
  int64 : Kind
  float64 : Kind
  other_kind : Kind

-- What TypeInfo holds for one field.
pub record Field : Type 0 where
  pub kind : Kind
  pub position : ℕ
  pub size : ℕ

unfoldable pub field_size : Kind → ℕ
field_size string = 2 + 64
field_size int64 = 8
field_size float64 = 8
field_size other_kind = 0

unfoldable pub parse_fields : ℕ → List Kind → List Field
parse_fields start [] = []
parse_fields start (k ∷ ks) =
    record { kind = k; position = start; size = field_size k }
    ∷ parse_fields (start + field_size k) ks

-- The TypeInfo of Parse.
unfoldable pub parse : List Kind → List Field
unfolding parse_fields field_size
parse ks = parse_fields 0 ks

unfoldable pub mem_save : ℕ → Field → List ℕ → Memory → Option Memory
mem_save size f src m =
    if ltb f.position size then some (store_bytes m f.position (take f.size src)) else none

unfoldable pub mem_dump : ℕ → Field → Memory → Option (List ℕ)
mem_dump size f m = if ltb f.position size then some (load_bytes m f.position f.size) else none

-- `copy` stops at the end of the row, not of the field.
unfoldable pub str_save : ℕ → Field → List ℕ → Memory → Option Memory
str_save size f p m =
    if ltb f.position size && leb (f.position + 2) size
    then some (
        store_bytes (store16 m f.position (length p)) (f.position + 2)
          (take (size - (f.position + 2)) p))
    else none

unfoldable pub str_dump : ℕ → Field → Memory → Option (List ℕ)
str_dump size f m =
    let n = load16 m f.position in
    if ltb f.position size && leb (f.position + 2 + n) size
    then some (load_bytes m (f.position + 2) n)
    else none

-- The function that Parse puts into Save and Dump for the kind.
unfoldable pub save_field : Kind → ℕ → Field → List ℕ → Memory → Option Memory
unfolding mem_save str_save
save_field string = str_save
save_field int64 = mem_save
save_field float64 = mem_save
save_field other_kind = mem_save

unfoldable pub dump_field : Kind → ℕ → Field → Memory → Option (List ℕ)
unfolding mem_dump str_dump
dump_field string = str_dump
dump_field int64 = mem_dump
dump_field float64 = mem_dump
dump_field other_kind = mem_dump

-- The loop of Save. An object has a value for each field.
unfoldable pub save_fields : ℕ → List Field → List (List ℕ) → Memory → Option Memory
save_fields size [] vs m = some m
save_fields size (f ∷ fs) [] m = none
save_fields size (f ∷ fs) (v ∷ vs) m = elim (save_field f.kind size f v m) [
  | none ↦ none
  | some m' ↦ save_fields size fs vs m'
]

-- The loop of Dump.
unfoldable pub dump_fields : ℕ → List Field → Memory → Option (List (List ℕ))
dump_fields size [] m = some []
dump_fields size (f ∷ fs) m = elim (dump_field f.kind size f m) [
  | none ↦ none
  | some v ↦ elim (dump_fields size fs m) [ none ↦ none | some vs ↦ some (v ∷ vs) ]
]

pub record Row : Type 0 where
  pub size : ℕ
  pub cells : Memory

-- The end of the last field; with no field its index is -1.
unfoldable pub row_size : List Field → Option ℕ
row_size [] = none
row_size (f ∷ []) = some (f.position + f.size)
row_size (f ∷ g ∷ fs) = row_size (g ∷ fs)

-- A new row is zeros.
abbrev pub blank : Memory
blank = λ b. 0

unfoldable pub save : List Field → List Row → List (List ℕ) → Option (List Row)
unfolding row_size save_fields save_field
save fs rows obj = elim (row_size fs) [
  | none ↦ none
  | some size ↦ elim (save_fields size fs obj blank) [
    | none ↦ none
    | some m ↦ some (rows ++ record { size = size; cells = m } ∷ [])
  ]
]

unfoldable pub dump : List Field → List Row → ℕ → Option (List (List ℕ))
unfolding dump_fields dump_field
dump fs rows n = elim (get_elem? rows n) [
  | none ↦ none
  | some row ↦ dump_fields row.size fs row.cells
]
