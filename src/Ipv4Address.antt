-- ===== src/Ipv4Address.antt =====
-- types/ipv4.go: IPv4 addresses as uint32 and as bytes. The first byte is the lowest.
mod Tests
use go_dpdk.Base.{
  ℕ, ◌+◌, ◌*◌, ◌/◌, ◌%◌, ◌^◌, ◌<◌, ◌≡◌, ap, ◌∙◌, arith, u8, u32, List, [], ◌∷◌, ◌<<<◌, ◌>>>◌,
  bit_or,
}
use go_dpdk.Bits.{bit_or-eq-add}
use go_dpdk.Memory.{IsBytes}

-- `ArrayToIPv4` and `SliceToIPv4` have the same body, on the elements of an array or a slice.
unfoldable pub bytes_to_ipv4 : (a b c d : ℕ) → ℕ
bytes_to_ipv4 a b c d = bit_or (bit_or (bit_or (u32 (d <<< 24)) (u32 (c <<< 16))) (u32 (b <<< 8))) a

unfoldable pub ipv4_to_bytes : ℕ → List ℕ
ipv4_to_bytes v = u8 v ∷ u8 (v >>> 8) ∷ u8 (v >>> 16) ∷ u8 (v >>> 24) ∷ []

bytes_as_sum :
    (a b c d : ℕ)
    → a < 256
    → b < 256
    → c < 256
    → d < 256
    → bytes_to_ipv4 a b c d ≡ d * 2 ^ 24 + c * 2 ^ 16 + b * 2 ^ 8 + a
unfolding bytes_to_ipv4
bytes_as_sum a b c d ha hb hc hd = ground (
  arith,
  bit_or-eq-add 24 d (c * 2 ^ 16),
  bit_or-eq-add 16 (d * 2 ^ 8 + c) (b * 2 ^ 8),
  bit_or-eq-add 8 (d * 2 ^ 16 + c * 2 ^ 8 + b) a,
)

-- Every uint32 is the address of its bytes.
pub bytes_to_ipv4-ipv4_to_bytes :
    (v : ℕ) → v < 2 ^ 32 → bytes_to_ipv4 (u8 v) (u8 (v >>> 8)) (u8 (v >>> 16)) (u8 (v >>> 24)) ≡ v
bytes_to_ipv4-ipv4_to_bytes v h =
    omega (arith, bytes_as_sum (u8 v) (u8 (v >>> 8)) (u8 (v >>> 16)) (u8 (v >>> 24)))

-- Four bytes are the bytes of their address.
pub ipv4_to_bytes-bytes_to_ipv4 :
    (a b c d : ℕ)
    → a < 256
    → b < 256
    → c < 256
    → d < 256
    → ipv4_to_bytes (bytes_to_ipv4 a b c d) ≡ a ∷ b ∷ c ∷ d ∷ []
unfolding ipv4_to_bytes
ipv4_to_bytes-bytes_to_ipv4 a b c d ha hb hc hd = ground (arith, bytes_as_sum a b c d ha hb hc hd)

pub ipv4_to_bytes-IsBytes : (v : ℕ) → IsBytes (ipv4_to_bytes v)
unfolding ipv4_to_bytes
ipv4_to_bytes-IsBytes v = ground arith
