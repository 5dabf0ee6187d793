-- ===== src/Common/Raw.antt =====
-- Raw memory of common/endian.go and common/pointers.go, and the byte orders of
-- ethdev/flow/utils.go. A slice made from a pointer is the run of bytes at that address.
pub mod Order
mod Tests
use go_dpdk.Base.{ℕ, zero, suc, ◌+◌, ◌^◌, ◌>>>◌, u8, min, List, [], ◌∷◌, ◌++◌, length, take, drop}
use go_dpdk.Memory.{Memory, store8, load_bytes, store_bytes}

-- binary.ByteOrder, and the bytes that its Put functions write.
pub data ByteOrder : Type 0 where
  big_endian : ByteOrder
  little_endian : ByteOrder

abbrev pub bytes16 : ByteOrder → ℕ → List ℕ
bytes16 big_endian d = u8 (d >>> 8) ∷ u8 d ∷ []
bytes16 little_endian d = u8 d ∷ u8 (d >>> 8) ∷ []

abbrev pub bytes32 : ByteOrder → ℕ → List ℕ
bytes32 big_endian d = u8 (d >>> 24) ∷ u8 (d >>> 16) ∷ u8 (d >>> 8) ∷ u8 d ∷ []
bytes32 little_endian d = u8 d ∷ u8 (d >>> 8) ∷ u8 (d >>> 16) ∷ u8 (d >>> 24) ∷ []

abbrev pub bytes64 : ByteOrder → ℕ → List ℕ
bytes64 big_endian d = bytes32 big_endian (d >>> 32) ++ bytes32 big_endian d
bytes64 little_endian d = bytes32 little_endian d ++ bytes32 little_endian (d >>> 32)

unfoldable pub put_uint16 : ByteOrder → ℕ → ℕ → Memory → Memory
put_uint16 b dst d m = store_bytes m dst (bytes16 b d)

unfoldable pub put_uint32 : ByteOrder → ℕ → ℕ → Memory → Memory
put_uint32 b dst d m = store_bytes m dst (bytes32 b d)

unfoldable pub put_uint64 : ByteOrder → ℕ → ℕ → Memory → Memory
put_uint64 b dst d m = store_bytes m dst (bytes64 b d)

-- beU16, beU32 and leU32 of flow/utils.go.
unfoldable pub be_u16 : ℕ → ℕ → Memory → Memory
be_u16 n p m = store_bytes m p (bytes16 big_endian n)

unfoldable pub be_u32 : ℕ → ℕ → Memory → Memory
be_u32 n p m = store_bytes m p (bytes32 big_endian n)

unfoldable pub le_u32 : ℕ → ℕ → Memory → Memory
le_u32 n p m = store_bytes m p (bytes32 little_endian n)

-- The number of bytes copied, and the memory.
unfoldable pub copy_from_bytes : ℕ → List ℕ → ℕ → Memory → ℕ × Memory
copy_from_bytes dst src max m = (min max (length src), store_bytes m dst (take max src))

-- The number of bytes copied, and the slice that was copied into.
unfoldable pub copy_to_bytes : List ℕ → ℕ → ℕ → Memory → ℕ × List ℕ
copy_to_bytes dst src max m = let n = min (length dst) max in (n, load_bytes m src n ++ drop n dst)

-- Memset of common/pointers.go: the rounds left, and the index.
unfoldable pub memset_loop : ℕ → ℕ → ℕ → ℕ → Memory → Memory
memset_loop zero i p init m = m
memset_loop (suc rounds) i p init m = memset_loop rounds (i + 1) p init (store8 m (p + i) init)

unfoldable pub memset : ℕ → ℕ → ℕ → Memory → Memory
unfolding memset_loop
memset p init n m = memset_loop n 0 p init m
