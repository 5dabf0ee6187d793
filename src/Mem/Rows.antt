-- ===== src/Mem/Rows.antt =====
-- What a row gives back of the object that was saved into it.
use go_dpdk.Base.{
  ℕ, zero, suc, ◌+◌, ◌-◌, ◌≤◌, ◌<◌, ◌≡◌, refl, ap, ◌∙◌, arith, some, List, [], ◌∷◌, ◌++◌, length,
  take, get_elem?,
}
use go_dpdk.Memory.{
  Memory, load8, load16, store16, load8-store16, load_bytes, store_bytes, IsBytes,
  load8-store_bytes_out, load_bytes-same, stored_run,
}
use go_dpdk.Mem.Flat.{
  Kind, string, int64, float64, other_kind, Field, field_size, parse_fields, parse, mem_save,
  mem_dump, str_save, str_dump, save_field, dump_field, save_fields, dump_fields, Row, row_size,
  blank, save, dump,
}

-- The value fits its field: at most 64 bytes of text, or the eight bytes of a number.
abbrev Fits : Kind → List ℕ → Type 0
Fits string v = (length v ≤ 64) × IsBytes v
Fits int64 v = (length v ≡ 8) × IsBytes v
Fits float64 v = (length v ≡ 8) × IsBytes v
Fits other_kind v = ⊥

abbrev pub FitsAll : List Kind → List (List ℕ) → Type 0
FitsAll [] [] = Unit
FitsAll [] (v ∷ vs) = ⊥
FitsAll (k ∷ ks) [] = ⊥
FitsAll (k ∷ ks) (v ∷ vs) = Fits k v × FitsAll ks vs

take-all : (n : ℕ) (xs : List ℕ) → length xs ≤ n → take n xs ≡ xs
take-all zero [] h = refl
take-all zero (x ∷ xs) h = absurd (omega arith)
take-all (suc n) [] h = refl
take-all (suc n) (x ∷ xs) h = ap (λ t. x ∷ t) (take-all n xs (omega arith))

abbrev field_at : Kind → ℕ → Field
field_at k start = record { kind = k; position = start; size = field_size k }

-- The bytes below `b` are the same in both memories.
abbrev SameBelow : ℕ → Memory → Memory → Type 0
SameBelow b m m' = (a : ℕ) → a < b → load8 m' a ≡ load8 m a

-- One field saved: it dumps to its value wherever the bytes up to its end are kept.
abbrev Saved : Kind → ℕ → ℕ → List ℕ → Memory → Memory → Type 0
Saved k size start v m m' =
    (save_field k size (field_at k start) v m ≡ some m')
    × SameBelow start m m'
    × ((m'' : Memory)
        → SameBelow (start + field_size k) m' m''
        → dump_field k size (field_at k start) m'' ≡ some v)

module _ (size start : ℕ) (v : List ℕ) (m : Memory) where
  str_save-Saved :
      start + 66 ≤ size
      → length v ≤ 64
      → IsBytes v
      → Saved string size start v m (store_bytes (store16 m start (length v)) (start + 2) v)
  unfolding save_field dump_field field_size load16 str_save str_dump
  str_save-Saved room fits bytes =
      let head = store16 m start (length v) in
      let row = store_bytes head (start + 2) v in
      (
        ground (arith, take-all (size - (start + 2)) v),
        λ a below.
            ground (
              arith,
              load8-store_bytes_out head (start + 2) a v,
              load8-store16 m start a (length v),
            ),
        λ m'' same.
            let text : load_bytes m'' (start + 2) (length v) ≡ v =
              load_bytes-same row m'' (start + 2) (length v) (λ b lo hi. same b (omega arith))
              ∙ stored_run head (start + 2) (length v) v bytes refl in
            ground (
              arith,
              text,
              same start,
              same (start + 1),
              load8-store_bytes_out head (start + 2) start v,
              load8-store_bytes_out head (start + 2) (start + 1) v,
              load8-store16 m start start (length v),
              load8-store16 m start (start + 1) (length v),
            ),
      )

  mem_save-kept :
      (k : Kind)
      → start + 8 ≤ size
      → length v ≡ 8
      → IsBytes v
      → let f : Field = record { kind = k; position = start; size = 8 } in
        (mem_save size f v m ≡ some (store_bytes m start v))
        × SameBelow start m (store_bytes m start v)
        × ((m'' : Memory)
            → SameBelow (start + 8) (store_bytes m start v) m''
            → mem_dump size f m'' ≡ some v)
  unfolding mem_save mem_dump
  mem_save-kept k room eight bytes = (
    ground (arith, take-all 8 v),
    λ a below. load8-store_bytes_out m start a v (omega arith),
    λ m'' same.
        let kept : load_bytes m'' start 8 ≡ v =
          load_bytes-same (store_bytes m start v) m'' start 8 (λ b lo hi. same b (omega arith))
          ∙ stored_run m start 8 v bytes eight in
        ground (arith, kept),
  )

  save_field-Saved :
      (k : Kind)
      → start + field_size k ≤ size
      → Fits k v
      → (m' : Memory) × Saved k size start v m m'
  unfolding save_field dump_field field_size
  save_field-Saved string room (fits, bytes) = (_, str_save-Saved room fits bytes)
  save_field-Saved int64 room (eight, bytes) = (_, mem_save-kept int64 room eight bytes)
  save_field-Saved float64 room (eight, bytes) = (_, mem_save-kept float64 room eight bytes)
  save_field-Saved other_kind room h = absurd h

-- Where the fields end.
total : ℕ → List Kind → ℕ
total start [] = start
total start (k ∷ ks) = total (start + field_size k) ks

total-le : (start : ℕ) (ks : List Kind) → start ≤ total start ks
unfolding total
total-le start [] = omega arith
total-le start (k ∷ ks) = omega (arith, total-le (start + field_size k) ks)

row_size-parse_fields :
    (start : ℕ) (k : Kind) (ks : List Kind)
    → row_size (parse_fields start (k ∷ ks)) ≡ some (total start (k ∷ ks))
unfolding row_size parse_fields total
row_size-parse_fields start k [] = refl
row_size-parse_fields start k (j ∷ ks) = row_size-parse_fields (start + field_size k) j ks

fields_saved :
    (size start : ℕ) (ks : List Kind) (vs : List (List ℕ)) (m : Memory)
    → total start ks ≤ size
    → FitsAll ks vs
    → (m' : Memory) × (save_fields size (parse_fields start ks) vs m ≡ some m')
      × SameBelow start m m'
      × (dump_fields size (parse_fields start ks) m' ≡ some vs)
unfolding save_fields dump_fields parse_fields total
fields_saved size start [] [] m room h = (m, refl, λ a below. refl, refl)
fields_saved size start [] (v ∷ vs) m room h = absurd h
fields_saved size start (k ∷ ks) [] m room h = absurd h
fields_saved size start (k ∷ ks) (v ∷ vs) m room h =
    let (m', (put, kept, back)) =
      save_field-Saved size start v m k (omega (arith, total-le (start + field_size k) ks)) h.0 in
    let (m'', rest, above, later) = fields_saved size (start + field_size k) ks vs m' room h.1 in
    (
      m'',
      rw (put, save_fields) rest,
      λ a below. above a (omega arith) ∙ kept a below,
      rw (back m'' above, dump_fields) (rw later refl),
    )

get_elem?-append_here {ℓ} :
    {A : Type ℓ} (xs : List A) (a : A) → get_elem? (xs ++ a ∷ []) (length xs) ≡ some a
get_elem?-append_here [] a = refl
get_elem?-append_here (x ∷ xs) a = get_elem?-append_here xs a

module _ (fs : List Field) (rows : List Row) (obj : List (List ℕ)) (size : ℕ) (m : Memory) where
  pub save-eq :
      row_size fs ≡ some size
      → save_fields size fs obj blank ≡ some m
      → save fs rows obj ≡ some (rows ++ record { size = size; cells = m } ∷ [])
  unfolding save
  save-eq p q = ground (arith, p, q)

  pub dump-eq :
      dump_fields size fs m ≡ some obj
      → dump fs (rows ++ record { size = size; cells = m } ∷ []) (length rows) ≡ some obj
  unfolding dump
  dump-eq p = ground (arith, get_elem?-append_here rows (record { size = size; cells = m }), p)

-- An object with at least one field, whose texts have at most 64 bytes and whose other fields are
-- int64 or float64, is saved as one more row, and that row dumps to the object.
pub dump-save :
    (k : Kind) (ks : List Kind) (obj : List (List ℕ)) (rows : List Row)
    → FitsAll (k ∷ ks) obj
    → (row : Row) × (save (parse (k ∷ ks)) rows obj ≡ some (rows ++ row ∷ []))
      × (dump (parse (k ∷ ks)) (rows ++ row ∷ []) (length rows) ≡ some obj)
unfolding parse
dump-save k ks obj rows h =
    let size = total 0 (k ∷ ks) in
    let fs = parse_fields 0 (k ∷ ks) in
    let (m, put, kept, back) = fields_saved size 0 (k ∷ ks) obj blank (omega arith) h in
    (
      record { size = size; cells = m },
      save-eq fs rows obj size m (row_size-parse_fields 0 k ks) put,
      dump-eq fs rows obj size m back,
    )
