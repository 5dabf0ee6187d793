-- ===== src/Common/Set/Hex/Tests.antt =====
-- Runs and instances for the text of a set.
use go_dpdk.Base.{ℕ, ◌≡◌, refl, [], ◌∷◌}
use go_dpdk.Common.Set.Hex.{
  hex, hex_loop, add_number, grow, get_hex_byte, get_hex_index, hex_index_loop,
}
use go_dpdk.Common.Set.Hex.Read.{hex-bit_at}
use go_dpdk.Common.Set.Insert.{member}
use go_dpdk.Lcore.Map.{IsHex, bit_at}

hex_run : hex (0 ∷ 1 ∷ 5 ∷ 7 ∷ []) ≡ 97 ∷ 51 ∷ []
unfolding hex hex_loop add_number grow get_hex_byte get_hex_index hex_index_loop
hex_run = refl

hex-bit_at_example :
    IsHex (hex (7 ∷ 0 ∷ 7 ∷ []))
    × ((x : ℕ) → bit_at (hex (7 ∷ 0 ∷ 7 ∷ [])) x ≡ member (7 ∷ 0 ∷ 7 ∷ []) x)
hex-bit_at_example = hex-bit_at (7 ∷ 0 ∷ 7 ∷ [])
