-- ===== src/Mbuf.antt =====
-- mbuf/mbuf.go: the data room of one unchained mbuf, and the four functions that move its ends.
pub mod Room
mod Tests
use go_dpdk.Base.{
  ℕ, ◌+◌, ◌-◌, ◌*◌, ◌/◌, ◌%◌, ◌^◌, Bool, true, false, List, u16, u32, sub16, sub32, ltb,
  if◌then◌else◌,
}
use go_dpdk.Memory.{Memory, load_bytes, store_bytes}

-- The fields of `struct rte_mbuf` that the Go code reads and writes. `data_off`, `data_len` and
-- `buf_len` are uint16, `pkt_len` is uint32.
pub record Mbuf : Type 0 where
  pub buf_addr : ℕ
  pub buf_len : ℕ
  pub data_off : ℕ
  pub data_len : ℕ
  pub pkt_len : ℕ

unfoldable pub prepend_mbuf : (packet_struct_size : ℕ) → Mbuf → ℕ → Mbuf × Bool
prepend_mbuf packet_struct_size mb len =
    if ltb (sub16 mb.data_off packet_struct_size) (u16 len) then (mb, false) else (
      record mb {
        data_off = sub16 mb.data_off len;
        data_len = u16 (mb.data_len + u16 len);
        pkt_len = u32 (mb.pkt_len + u32 len);
      },
      true,
    )

unfoldable pub append_mbuf : Mbuf → ℕ → Mbuf × Bool
append_mbuf mb len =
    if ltb (sub16 (sub16 mb.buf_len mb.data_off) mb.data_len) (u16 len) then (mb, false) else (
      record mb { data_len = u16 (mb.data_len + u16 len); pkt_len = u32 (mb.pkt_len + u32 len) },
      true,
    )

unfoldable pub adj_mbuf : Mbuf → ℕ → Mbuf × Bool
adj_mbuf m len = if ltb m.data_len (u16 len) then (m, false) else (
  record m {
    data_off = u16 (m.data_off + u16 len);
    data_len = sub16 m.data_len len;
    pkt_len = sub32 m.pkt_len len;
  },
  true,
)

unfoldable pub trim_mbuf : Mbuf → ℕ → Mbuf × Bool
trim_mbuf m len =
    if ltb m.data_len (u16 len)
    then (m, false)
    else (record m { data_len = sub16 m.data_len len; pkt_len = sub32 m.pkt_len len }, true)

-- `GetPacketDataStartPointer`, and the method `L2`, which has the same body.
unfoldable pub get_packet_data_start_pointer : Mbuf → ℕ
get_packet_data_start_pointer mb = mb.buf_addr + mb.data_off

unfoldable pub l2 : Mbuf → ℕ
l2 m = m.buf_addr + m.data_off

unfoldable pub write_data_to_mbuf : Memory → Mbuf → List ℕ → Memory
write_data_to_mbuf mem mb bytes = store_bytes mem (get_packet_data_start_pointer mb) bytes

unfoldable pub get_raw_packet_bytes_mbuf : Memory → Mbuf → List ℕ
get_raw_packet_bytes_mbuf mem mb = load_bytes mem (mb.buf_addr + mb.data_off) mb.data_len

unfoldable pub get_pkt_len_mbuf : Mbuf → ℕ
get_pkt_len_mbuf mb = mb.pkt_len

unfoldable pub get_data_len_mbuf : Mbuf → ℕ
get_data_len_mbuf mb = mb.data_len

unfoldable pub head_room_size : Mbuf → ℕ
head_room_size m = m.data_off

unfoldable pub tail_room_size : Mbuf → ℕ
tail_room_size m = sub16 (sub16 m.buf_len m.data_off) m.data_len
