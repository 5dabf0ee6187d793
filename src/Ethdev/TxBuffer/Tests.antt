-- ===== src/Ethdev/TxBuffer/Tests.antt =====
-- A buffer of five packets, behind a structure of 40 bytes, and one of 2 ^ 16.
use go_dpdk.Base.{◌+◌, ◌*◌, ◌^◌, ◌<◌, ◌≤◌, ◌≡◌, ◌↔◌, refl, arith, none, some}
use go_dpdk.Ethdev.TxBuffer.{
  ptr_size, TxBuffer, new_tx_buffer, mbufs, init, frac_ceil_round, tx_buffer_size,
}
use go_dpdk.Ethdev.TxBuffer.Room.{new_tx_buffer-mbufs}

made_five :
    new_tx_buffer 40 (2 ^ 48) 4096 5
    ≡ some (record { length = 0; size = 5; address = 4096; slots = 10 })
unfolding new_tx_buffer frac_ceil_round tx_buffer_size init
made_five = refl

-- No room at all.
made_many :
    new_tx_buffer 40 (2 ^ 48) 4096 65536
    ≡ some (record { length = 0; size = 0; address = 4096; slots = 65541 })
unfolding new_tx_buffer frac_ceil_round tx_buffer_size init
made_many = refl

-- More than can be allocated.
made_none : new_tx_buffer 40 (2 ^ 48) 4096 (2 ^ 50) ≡ none
unfolding new_tx_buffer frac_ceil_round tx_buffer_size init
made_none = refl

new_tx_buffer-mbufs_example :
    (buf : TxBuffer) × (new_tx_buffer 40 (2 ^ 48) 4096 5 ≡ some buf)
    × (40 + 5 * ptr_size ≤ buf.slots * ptr_size)
    × (buf.slots * ptr_size < 40 + 5 * ptr_size + ptr_size)
    × ((mbufs 40 buf).start ≡ buf.address + 40)
    × ((mbufs 40 buf).start + (mbufs 40 buf).cap * ptr_size ≤ buf.address + buf.slots * ptr_size)
    × ((mbufs 40 buf).count ≡ 0)
    × (((mbufs 40 buf).cap ≡ 5) ↔ (5 < 2 ^ 16))
new_tx_buffer-mbufs_example =
    new_tx_buffer-mbufs 40 (2 ^ 48) 4096 5 (omega arith) (omega arith) (omega arith) (omega arith)
