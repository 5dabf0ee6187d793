-- ===== src/Mbuf/Room.antt =====
-- The data room: its invariant, the guards, and the pairs of operations that undo one another.
use go_dpdk.Base.{ℕ, ◌+◌, ◌^◌, ◌≤◌, ◌<◌, ◌≡◌, ◌↔◌, true, arith}
use go_dpdk.Mbuf.{Mbuf, prepend_mbuf, append_mbuf, adj_mbuf, trim_mbuf, tail_room_size}

-- The data lies in the buffer, behind the `reserved` bytes at its start (the packet structure that
-- is kept there), and the packet consists of this one segment.
pub record IsValid (reserved : ℕ) (m : Mbuf) : Type 0 where
  pub small : m.buf_len < 2 ^ 16
  pub behind : reserved ≤ m.data_off
  pub within : m.data_off + m.data_len ≤ m.buf_len
  pub single : m.pkt_len ≡ m.data_len

module _ {reserved : ℕ} {m : Mbuf} (v : IsValid reserved m) (len : ℕ) (narrow : len < 2 ^ 16) where
  -- Each of the four functions keeps a valid mbuf valid, whether it succeeds or not, for every
  -- length that fits a uint16.
  pub ops-IsValid :
      IsValid reserved (prepend_mbuf reserved m len).0
      × IsValid reserved (append_mbuf m len).0
      × IsValid reserved (adj_mbuf m len).0
      × IsValid reserved (trim_mbuf m len).0
  unfolding prepend_mbuf append_mbuf adj_mbuf trim_mbuf
  ops-IsValid = (ground arith, ground arith, ground arith, ground arith)

  -- On a valid mbuf and for a length that fits a uint16, each function succeeds exactly when the room or the data it takes is there.
  pub ops_guard :
      (((prepend_mbuf reserved m len).1 ≡ true) ↔ (reserved + len ≤ m.data_off))
      × (((append_mbuf m len).1 ≡ true) ↔ (m.data_off + m.data_len + len ≤ m.buf_len))
      × (((adj_mbuf m len).1 ≡ true) ↔ (len ≤ m.data_len))
      × (((trim_mbuf m len).1 ≡ true) ↔ (len ≤ m.data_len))
  unfolding prepend_mbuf append_mbuf adj_mbuf trim_mbuf
  ops_guard = (ground arith, ground arith, ground arith, ground arith)

  -- On a valid mbuf and for a length that fits a uint16, removing at the front undoes a successful
  -- prepend.
  pub adj-prepend :
      (prepend_mbuf reserved m len).1 ≡ true
      → adj_mbuf (prepend_mbuf reserved m len).0 len ≡ (m, true)
  unfolding prepend_mbuf adj_mbuf
  adj-prepend h = ground arith

  -- On a valid mbuf and for a length that fits a uint16, trimming undoes a successful append.
  pub trim-append : (append_mbuf m len).1 ≡ true → trim_mbuf (append_mbuf m len).0 len ≡ (m, true)
  unfolding append_mbuf trim_mbuf
  trim-append h = ground arith

  -- On a valid mbuf and for lengths that fit a uint16, `TailRoomSize` is the largest length that can be appended.
  pub append_tail_room : ((append_mbuf m len).1 ≡ true) ↔ (len ≤ tail_room_size m)
  unfolding append_mbuf tail_room_size
  append_tail_room = ground arith

-- On a valid mbuf, whenever an append of 2 ^ 16 bytes or more, and less than 2 ^ 31, is accepted,
-- the data length ends below the packet length: the guard looks at the length cut to a uint16.
pub append_wide :
    {reserved : ℕ} {m : Mbuf}
    → IsValid reserved m
    → (len : ℕ) → 2 ^ 16 ≤ len
    → len < 2 ^ 31
    → (append_mbuf m len).1 ≡ true
    → (append_mbuf m len).0.data_len < (append_mbuf m len).0.pkt_len
unfolding append_mbuf
append_wide v len wide h ok = ground arith
