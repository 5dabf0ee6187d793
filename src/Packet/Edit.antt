-- ===== src/Packet/Edit.antt =====
-- packet/packet.go: the functions that insert, remove and overwrite bytes of a packet. They work on
-- the memory at `StartAtOffset`, which counts from the field `L2`. Offsets and lengths stay below
-- 2 ^ 63, so that their conversions to int keep them.
pub mod Shift
pub mod Tail
pub mod Head
pub mod Bytes
mod Tests
use go_dpdk.Base.{
  ℕ, zero, suc, ◌+◌, ◌-◌, ◌%◌, ◌^◌, Bool, true, false, List, [], ◌∷◌, Option, none, some, length,
  drop, u64, sub64, ltb, if◌then◌else◌, ℤ, pos, negsuc,
}
use go_dpdk.Memory.{Memory, load8, store8}
use go_dpdk.Mbuf
use go_dpdk.Mbuf.{Mbuf}
use go_dpdk.Packet.Parse.{Packet, start_at_offset, parse_data}

-- `for i := low + left - 1 .. low { base[i + len] = base[i] }`, downwards.
unfoldable pub shift_up : Memory → (base len low left : ℕ) → Memory
shift_up m base len low zero = m
shift_up m base len low (suc left) =
    shift_up (store8 m (base + (low + left + len)) (load8 m (base + (low + left)))) base len low
      left

-- `for i := i .. i + left - 1 { base[i] = base[i + len] }`, upwards.
unfoldable pub shift_down : Memory → (base len left i : ℕ) → Memory
shift_down m base len zero i = m
shift_down m base len (suc left) i =
    shift_down (store8 m (base + i) (load8 m (base + (i + len)))) base len left (i + 1)

unfoldable pub encapsulate_head :
    (packet_struct_size : ℕ) → Memory → Packet → (start len : ℕ) → (Memory × Packet) × Bool
encapsulate_head packet_struct_size m p start len =
    let (mb, done) = Mbuf.prepend_mbuf packet_struct_size p.cmbuf len in
    if done
    then (
      (
        shift_down m (start_at_offset p 0) len start 0,
        record p { cmbuf = mb; ether = sub64 p.ether len },
      ),
      true,
    )
    else ((m, p), false)

-- The loop runs over the length after the append; its index is `i + len` here.
unfoldable pub encapsulate_tail : Memory → Packet → (start len : ℕ) → (Memory × Packet) × Bool
encapsulate_tail m p start len =
    let (mb, done) = Mbuf.append_mbuf p.cmbuf len in
    let packet_length = Mbuf.get_pkt_len_mbuf mb in
    if done
    then (
      (
        shift_up m (start_at_offset p 0) len start (packet_length - u64 (start + len)),
        record p { cmbuf = mb },
      ),
      true,
    )
    else ((m, p), false)

unfoldable pub decapsulate_head : Memory → Packet → (start len : ℕ) → (Memory × Packet) × Bool
decapsulate_head m p start len =
    let (mb, done) = Mbuf.adj_mbuf p.cmbuf len in
    if done
    then (
      (
        shift_up m (start_at_offset p 0) len 0 start,
        record p { cmbuf = mb; ether = u64 (p.ether + len) },
      ),
      true,
    )
    else ((m, p), false)

-- `packetLength` is read before the trim.
unfoldable pub decapsulate_tail : Memory → Packet → (start len : ℕ) → (Memory × Packet) × Bool
decapsulate_tail m p start len =
    let packet_length = Mbuf.get_pkt_len_mbuf p.cmbuf in
    let (mb, done) = Mbuf.trim_mbuf p.cmbuf len in
    if done
    then (
      (
        shift_down m (start_at_offset p 0) len (packet_length - start) start,
        record p { cmbuf = mb },
      ),
      true,
    )
    else ((m, p), false)

-- The writing loop of `PacketBytesChange`.
unfoldable pub write_loop : Memory → (base i : ℕ) → List ℕ → Memory
write_loop m base i [] = m
write_loop m base i (b ∷ bytes) = write_loop (store8 m (base + i) b) base (i + 1) bytes

unfoldable pub packet_bytes_change : Memory → Packet → (start : ℕ) → List ℕ → Memory × Bool
packet_bytes_change m p start bytes =
    if ltb (Mbuf.get_pkt_len_mbuf p.cmbuf) (u64 (start + length bytes))
    then (m, false)
    else (write_loop m (start_at_offset p 0) start bytes, true)

-- The end of `GetPacketPayload`, on the result of `ParseData`; `none` is the panic of slicing past
-- the end.
unfoldable pub slice_payload : Memory → Packet → Packet × ℤ → Option (Packet × List ℕ × Bool)
slice_payload m p (q, negsuc _) = some (q, [], false)
slice_payload m p (q, pos _) =
    let pkt_start_addr = start_at_offset p 0 in
    let pkt_bytes = Mbuf.get_raw_packet_bytes_mbuf m p.cmbuf in
    let hdrs_len = sub64 q.payload pkt_start_addr in
    if ltb (length pkt_bytes) hdrs_len then none else some (q, drop hdrs_len pkt_bytes, true)

unfoldable pub get_packet_payload : Memory → Packet → Option (Packet × List ℕ × Bool)
get_packet_payload m p = slice_payload m p (parse_data m p)
