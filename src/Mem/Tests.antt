-- ===== src/Mem/Tests.antt =====
-- Runs of the routines on memory that holds at each address its number, and on a small object.
use go_dpdk.Base.{ℕ, ◌+◌, ◌<◌, ◌≡◌, refl, arith, none, some, List, [], ◌∷◌, ◌++◌, replicate, pos}
use go_dpdk.Memory.{Memory, load8, store8, store16, store32, store64, load16, load32, load64}
use go_dpdk.Mem.{
  memmove, memcmp, Kind, string, int64, Field, parse, save, dump, Row, str_save, str_dump, blank,
}
use go_dpdk.Mem.Move.{memmove_lem}
use go_dpdk.Mem.Order.{memcmp_last_byte}
use go_dpdk.Mem.Rows.{dump-save, FitsAll}
use go_dpdk.Mem.Long.{str_dump-str_save_long}

abbrev counting : Memory
counting = λ a. a

-- Two runs that overlap: byte 5 of the source stands where byte 2 of the destination does.
memmove_lem_example : load8 (memmove 13 10 9 counting).1 18 ≡ load8 counting 15
memmove_lem_example = memmove_lem counting 13 10 9 18

moved_twice : load8 (memmove 13 10 9 counting).1 21 ≡ 18
unfolding memmove load8 store8 store64 store32 store16 load64 load32 load16
moved_twice = refl

-- The first byte is 1 less at the destination, the eighth 1 greater.
abbrev two_words : Memory
two_words = store8 (store8 (store8 blank 8 1) 7 1) 20 0

eighth : load8 two_words (8 + 7) < load8 two_words (0 + 7)
unfolding load8 store8
eighth = omega arith

memcmp_last_byte_example : memcmp 0 8 8 two_words ≡ pos 1
memcmp_last_byte_example = memcmp_last_byte two_words 0 8 8 (omega arith) eighth

abbrev kinds : List Kind
kinds = int64 ∷ []

abbrev object : List (List ℕ)
object = (104 ∷ 105 ∷ []) ∷ (1 ∷ 2 ∷ 3 ∷ 4 ∷ 5 ∷ 6 ∷ 7 ∷ 8 ∷ []) ∷ []

object-FitsAll : FitsAll (string ∷ kinds) object
object-FitsAll = omega arith

dump-save_example :
    (row : Row) × (save (parse (string ∷ kinds)) [] object ≡ some ([] ++ row ∷ []))
    × (dump (parse (string ∷ kinds)) ([] ++ row ∷ []) 0 ≡ some object)
dump-save_example = dump-save string kinds object [] object-FitsAll

abbrev last_field : Field
last_field = record { kind = string; position = 8; size = 66 }

abbrev long_text : List ℕ
long_text = replicate 65 97

str_dump-str_save_long_example :
    (m' : Memory) × (str_save 74 last_field long_text blank ≡ some m')
    × (str_dump 74 last_field m' ≡ none)
str_dump-str_save_long_example =
    str_dump-str_save_long 74 last_field long_text blank refl (omega arith) (omega arith)
