-- ===== src/Ethdev/TxBuffer/Room.antt =====
-- The packets of a TxBuffer lie in the memory that was allocated for it.
use go_dpdk.Base.{
  ℕ, ◌+◌, ◌*◌, ◌/◌, ◌^◌, ◌<◌, ◌≤◌, ◌≡◌, ◌↔◌, refl, arith, false, some, u16, ltb, ◌==◌,
}
use go_dpdk.Ethdev.TxBuffer.{
  ptr_size, frac_ceil_round, TxBuffer, tx_buffer_size, init, new_tx_buffer, mbufs,
}

abbrev ceil8 : ℕ → ℕ
ceil8 x = (x + 7) / 8

frac_ceil_round_lem : (x : ℕ) → frac_ceil_round x 8 ≡ some (ceil8 x)
unfolding frac_ceil_round
frac_ceil_round_lem x = ground arith

tx_buffer_size_lem :
    (sizeof cnt : ℕ) → sizeof + cnt * 8 < 2 ^ 64 → tx_buffer_size sizeof cnt ≡ sizeof + cnt * 8
unfolding tx_buffer_size
tx_buffer_size_lem sizeof cnt p = omega (arith, p)

-- For a structure that is not empty, below the end of the addresses, and a number of packets with
-- which it fits, rounded up to a slot, in the greatest allocation of the Go run time, which is below
-- 2 ^ 63: NewTxBuffer does not panic; it takes the memory of the structure and of the packets,
-- rounded up to a slot; the slice that Mbufs returns of the new buffer is empty, starts behind the
-- structure and, up to its capacity, ends in that memory; and its capacity is the number of packets
-- exactly if that is below 2 ^ 16.
pub new_tx_buffer-mbufs :
    (sizeof max_alloc address cnt : ℕ)
    → 0 < sizeof
    → max_alloc < 2 ^ 63
    → sizeof + cnt * ptr_size + 7 ≤ max_alloc
    → address + sizeof < 2 ^ 64
    → (buf : TxBuffer) × (new_tx_buffer sizeof max_alloc address cnt ≡ some buf)
      × (sizeof + cnt * ptr_size ≤ buf.slots * ptr_size)
      × (buf.slots * ptr_size < sizeof + cnt * ptr_size + ptr_size)
      × ((mbufs sizeof buf).start ≡ buf.address + sizeof)
      × ((mbufs sizeof buf).start + (mbufs sizeof buf).cap * ptr_size
          ≤ buf.address + buf.slots * ptr_size)
      × ((mbufs sizeof buf).count ≡ 0)
      × (((mbufs sizeof buf).cap ≡ cnt) ↔ (cnt < 2 ^ 16))
unfolding new_tx_buffer mbufs init
new_tx_buffer-mbufs sizeof max_alloc address cnt some_size bounded fits below =
    let slots = ceil8 (sizeof + cnt * 8) in
    let allocated : ltb max_alloc (slots * 8) ≡ false = ground (arith, fits) in
    let filled : (slots == 0) ≡ false = ground (arith, some_size) in
    (
      record { length = 0; size = u16 cnt; address = address; slots = slots },
      rw
          (
            new_tx_buffer,
            tx_buffer_size_lem sizeof cnt (omega arith),
            frac_ceil_round_lem (sizeof + cnt * 8),
            allocated,
            filled,
          )
          refl,
      omega arith,
      omega arith,
      omega (arith, below),
      omega (arith, below),
      refl,
      (λ e. omega (arith, e), λ p. omega (arith, p)),
    )
