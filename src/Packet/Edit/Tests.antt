-- ===== src/Packet/Edit/Tests.antt =====
-- Runs and instances for the functions that edit a packet.
use go_dpdk.Base.{◌+◌, ◌≡◌, true, arith}
use go_dpdk.Memory.{load8}
use go_dpdk.Mbuf.Room.{IsValid}
use go_dpdk.Packet.Sample.{mbuf, packet, tcp_frame}
use go_dpdk.Packet.Edit.{encapsulate_head, encapsulate_tail, decapsulate_tail}
use go_dpdk.Packet.Edit.Tail.{decapsulate_tail-encapsulate_tail}
use go_dpdk.Packet.Edit.Head.{encapsulate_head-byte}

mbuf-IsValid : IsValid 64 (mbuf 57)
mbuf-IsValid = ground arith

decapsulate_tail-encapsulate_tail_example :
    let there = encapsulate_tail tcp_frame (packet 57) 14 4 in
    let back = decapsulate_tail there.0.0 there.0.1 14 4 in
    (back.1 ≡ true)
    × (back.0.1 ≡ packet 57)
    × (load8 back.0.0 (4096 + 30) ≡ load8 tcp_frame (4096 + 30))
decapsulate_tail-encapsulate_tail_example =
    decapsulate_tail-encapsulate_tail tcp_frame (packet 57) mbuf-IsValid 14 4 30 (omega arith)
      (omega arith) (omega arith)

encapsulate_head-byte_example :
    load8 (encapsulate_head 64 tcp_frame (packet 57) 12 4).0.0 (4092 + 2)
    ≡ load8 tcp_frame (4092 + 2)
encapsulate_head-byte_example =
    encapsulate_head-byte tcp_frame (packet 57) mbuf-IsValid 12 4 (omega arith) (omega arith) 2
      (omega arith)
