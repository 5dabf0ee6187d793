-- ===== src/Packet/Checksum/Words.antt =====
-- `calculateDataChecksum` against the sum of RFC 1071.
use go_dpdk.Base.{
  ℕ, zero, suc, ◌+◌, ◌-◌, ◌*◌, ◌/◌, ◌%◌, ◌^◌, ◌≤◌, ◌<◌, ◌≡◌, refl, ◌∙◌, arith, bit_and, u32, u64,
  if◌then◌else◌, ◌==◌, ap,
}
use go_dpdk.Bits.{bit_and_low}
use go_dpdk.Memory.{Memory, load8, load16, load8-lt}
use go_dpdk.Packet.Swap.{be16, be16-lt, swap_bytes_uint16, swap16-load16}
use go_dpdk.Packet.Checksum.{data_loop, calculate_data_checksum}

-- The sum of the first `n` big-endian words at `a`.
abbrev pub words_sum : Memory → ℕ → ℕ → ℕ
words_sum m a zero = 0
words_sum m a (suc n) = words_sum m a n + be16 m (a + 2 * n)

-- The sum of RFC 1071 over `len` bytes: an odd last byte is padded with a zero byte.
unfoldable pub byte_sum : Memory → ℕ → ℕ → ℕ
byte_sum m a len =
    words_sum m a (len / 2) + (if len % 2 == 0 then 0 else load8 m (a + (len - 1)) * 256)

pub words_sum-le : (m : Memory) (a n : ℕ) → words_sum m a n ≤ n * 65535
words_sum-le m a zero = omega arith
words_sum-le m a (suc n) = omega (arith, words_sum-le m a n, be16-lt m (a + 2 * n))

next_sum :
    (m : Memory) (a i : ℕ)
    → i < 32768
    → u32 (words_sum m a i + swap_bytes_uint16 (load16 m (a + 2 * i))) ≡ words_sum m a (suc i)
next_sum m a i h =
    omega (arith, swap16-load16 m (a + 2 * i), words_sum-le m a i, be16-lt m (a + 2 * i))

data_loop_lem :
    (m : Memory) (a left i sum : ℕ)
    → i + left ≤ 32768
    → sum ≡ words_sum m a i
    → data_loop m a left i sum ≡ words_sum m a (i + left)
unfolding data_loop
data_loop_lem m a zero i sum h e = e ∙ ap (words_sum m a) (omega arith)
data_loop_lem m a (suc left) i sum h e = rw e (
    data_loop_lem m a left (i + 1) _ (omega arith)
      (next_sum m a i (omega arith) ∙ ap (words_sum m a) {x = suc i} (omega arith))
    ∙ ap (words_sum m a) (omega arith))

pub byte_sum-lt : (m : Memory) (a len : ℕ) → len < 2 ^ 16 → byte_sum m a len < 2 ^ 31
unfolding byte_sum
byte_sum-lt m a len h = ground (arith, words_sum-le m a (len / 2), load8-lt m (a + (len - 1)))

-- For every length that fits a uint16 and data at a 64-bit address, the function computes the sum of RFC 1071: no addition
-- wraps, and the odd last byte counts as the high half of a word.
pub calculate_data_checksum-eq-byte_sum :
    (m : Memory) (a len : ℕ)
    → a < 2 ^ 64
    → len < 2 ^ 16
    → calculate_data_checksum m a len 0 ≡ byte_sum m a len
unfolding calculate_data_checksum byte_sum
calculate_data_checksum-eq-byte_sum m a len ha h =
    let at : u64 (a + 0) ≡ a = omega arith in
    let low : bit_and len 1 ≡ len % 2 = bit_and_low 1 len in
    rw (at, low, data_loop_lem m a (len / 2) 0 0 (omega arith) refl)
      (ground (arith, words_sum-le m a (len / 2), load8-lt m (a + (len - 1))))
