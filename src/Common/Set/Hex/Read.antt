-- ===== src/Common/Set/Hex/Read.antt =====
-- The reader of package lcore is the inverse of the writer.
use go_dpdk.Base.{
  ℕ, ◌/◌, ◌≡◌, refl, ap, ◌∙◌, arith, Bool, true, false, ◌||◌, List, [], ◌∷◌, ltb, ◌==◌,
}
use go_dpdk.Lcore.Map.{bit_at, IsHex}
use go_dpdk.Common.Set.Insert.{member}
use go_dpdk.Common.Set.Hex.{add_number, hex_loop, hex}
use go_dpdk.Common.Set.Hex.Digits.{add_number-bit_at}

or_assoc : (a b c : Bool) → (a || b) || c ≡ a || (b || c)
or_assoc true b c = refl
or_assoc false b c = refl

hex_loop-bit_at :
    (w a : List ℕ)
    → IsHex w
    → IsHex (hex_loop w a) × ((x : ℕ) → bit_at (hex_loop w a) x ≡ bit_at w x || member a x)
unfolding hex_loop member
hex_loop-bit_at w [] h = (h, λ x. ground arith)
hex_loop-bit_at w (n ∷ a) h =
    let (h', bits) = add_number-bit_at w n h in
    let (h'', more) = hex_loop-bit_at (add_number w n) a h' in
    (
      h'',
      λ x.
          more x ∙ ap (λ b. b || member a x) (bits x) ∙ or_assoc (bit_at w x) (n == x) (member a x),
    )

nothing_set : (a : List ℕ) (x : ℕ) → bit_at [] x || member a x ≡ member a x
nothing_set a x = let outside : ltb (x / 4) 0 ≡ false = ground arith in rw outside refl

-- The text of numbers consists of digits, and a bit is set exactly where its number is given.
pub hex-bit_at : (a : List ℕ) → IsHex (hex a) × ((x : ℕ) → bit_at (hex a) x ≡ member a x)
unfolding hex
hex-bit_at a =
    let (h, bits) = hex_loop-bit_at [] a (λ i inside. absurd (omega (arith, inside))) in
    (h, λ x. bits x ∙ nothing_set a x)
