-- ===== src/Util/Hash32.antt =====
-- util/make_hash.go: the hash with state, and hash/crc.go, which builds it on the CRC of DPDK.
pub mod Laws
mod Tests
use go_dpdk.Base.{
  ℕ, ◌+◌, Bool, true, false, List, [], ◌∷◌, ◌++◌, length, u8, not32, ◌>>>◌, if◌then◌else◌,
}

-- A function that takes bytes into a value.
abbrev pub Accum : Type 0
Accum = List ℕ → ℕ → ℕ

pub record Hash32 : Type 0 where
  pub seed : ℕ
  pub value : ℕ
  pub block : ℕ
  pub ones_complement : Bool
  pub accum : Accum

-- The number of bytes is returned; there is no error.
unfoldable pub write : Hash32 → List ℕ → Hash32 × ℕ
write h p =
    let value =
      if h.ones_complement then not32 (h.accum p (not32 h.value)) else h.accum p h.value in
    (record h { value = value }, length p)

unfoldable pub sum : Hash32 → List ℕ → List ℕ
sum h b = let s = h.value in b ++ (u8 (s >>> 24) ∷ u8 (s >>> 16) ∷ u8 (s >>> 8) ∷ u8 s ∷ [])

unfoldable pub sum32 : Hash32 → ℕ
sum32 h = h.value

unfoldable pub reset : Hash32 → Hash32
reset h = record h { value = h.seed }

unfoldable pub size : Hash32 → ℕ
size h = 4

unfoldable pub block_size : Hash32 → ℕ
block_size h = h.block

unfoldable pub complement_func : Accum → Accum
complement_func f bytes acc = not32 (f bytes (not32 acc))

-- `rte_hash_crc` is the parameter: the bytes, their number and the value so far.
module _ (rte_hash_crc : (bytes : List ℕ) (len acc : ℕ) → ℕ) where
  unfoldable pub crc_update : Accum
  crc_update bytes acc = rte_hash_crc bytes (length bytes) acc

  unfoldable pub new_crc_hash : (seed : ℕ) (complement : Bool) → Hash32
  new_crc_hash seed complement = record {
    seed = seed;
    value = seed;
    block = 8;
    ones_complement = false;
    accum = if complement then complement_func crc_update else crc_update;
  }
