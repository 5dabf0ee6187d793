-- ===== src/Packet/Init/Ipv4.antt =====
-- The IPv4 packets: what is laid out is what the parser finds.
use go_dpdk.Base.{
  ℕ, ◌+◌, ◌*◌, ◌%◌, ◌≤◌, ◌≡◌, inl, refl, ap, ◌∙◌, arith, u16, u64, Bool, true, false, some,
}
use go_dpdk.Memory.{Memory, load8, store8, store16}
use go_dpdk.Mbuf
use go_dpdk.Mbuf.{Mbuf}
use go_dpdk.Mbuf.Room.{IsValid}
use go_dpdk.Packet.Swap.{be16, swap_bytes_uint16}
use go_dpdk.Packet.Parse.{Packet, unparsed, parse_l3, parse_l4_for_ipv4, tcp_payload}
use go_dpdk.Packet.Parse.Wire.{payload_at, transport, header_length, tcp_payload_lem}
use go_dpdk.Packet.Init.{
  State, append_then, set_ether_type, fill_ipv4_default, reset_checksum, init_empty_ipv4_tcp_packet,
  init_empty_ipv4_udp_packet, init_empty_ipv4_icmp_packet,
}
use go_dpdk.Packet.Init.Fill.{
  IsFrame4, load8-store16_ne, fill-IsFrame4, store8-IsFrame4, store16-IsFrame4,
  reset_checksum-IsFrame4,
}

-- The parser at such a frame goes on with the transport header at offset 34.
payload_at-IsFrame4 :
    {s proto len : ℕ} (m : Memory)
    → IsFrame4 s proto len m
    → payload_at m s ≡ transport m 1 proto (s + 34)
payload_at-IsFrame4 {s} {proto} m f =
    let l4 : s + 14 + load8 m (s + 14) % 16 * 4 ≡ s + 34 = omega (arith, f.version) in
    rw (l4, f.ether_type, f.protocol) refl

-- What a packet is before the call: the mbuf is valid and has room for `size` bytes, and the two
-- pointers to the frame agree.
pub record IsReady (reserved size : ℕ) (p : Packet) : Type 0 where
  pub valid : IsValid reserved p.cmbuf
  pub room : p.cmbuf.data_off + p.cmbuf.data_len + size ≤ p.cmbuf.buf_len
  pub here : p.ether ≡ p.l2

pub append_then-run :
    {reserved size : ℕ} (n : ℕ) (rest : Memory → Packet → State) (m : Memory) (p : Packet)
    → IsReady reserved size p
    → n ≡ size
    → append_then n rest m p ≡ (
      rest m (record p {
        cmbuf = record p.cmbuf {
          data_len = p.cmbuf.data_len + size;
          pkt_len = p.cmbuf.data_len + size;
        };
      }),
      true,
    )
unfolding append_then Mbuf.append_mbuf
append_then-run {size} n rest m p r e =
    let run : Mbuf.append_mbuf p.cmbuf n ≡ (
      record p.cmbuf { data_len = p.cmbuf.data_len + size; pkt_len = p.cmbuf.data_len + size },
      true,
    ) =
      ground arith in
    rw run

-- What a caller has after a successful call for the frame at `s`: the parser finds the payload where
-- the packet says, and the IPv4 header and the mbuf have the right lengths.
pub record IsLaidOut (s len data_len : ℕ) (r : State × Bool) : Type 0 where
  pub succeeds : r.1 ≡ true
  pub parsed : payload_at r.0.0 s ≡ some r.0.1.payload
  pub total : be16 r.0.0 (s + 14 + 2) ≡ len
  pub mbuf_len : r.0.1.cmbuf.data_len ≡ data_len
  pub pkt_len : r.0.1.cmbuf.pkt_len ≡ data_len

-- `ParseL4ForIPv4` at such a frame.
parse_l4-IsFrame4 :
    {s proto len : ℕ} (m : Memory) (p : Packet)
    → IsFrame4 s proto len m
    → p.l3 ≡ s + 14
    → parse_l4_for_ipv4 m p ≡ record p { l4 = s + 34 }
unfolding parse_l4_for_ipv4
parse_l4-IsFrame4 {s} m p f e =
    ap (λ a. record p { l4 = a }) (rw e (omega (arith, header_length m (s + 14), f.version)))

-- What the end of each function needs: the frame, and where the payload is.
laid_out :
    {s proto len dl : ℕ} (m : Memory) (p : Packet)
    → IsFrame4 s proto len m
    → p.cmbuf.data_len ≡ dl
    → p.cmbuf.pkt_len ≡ dl
    → transport m 1 proto (s + 34) ≡ some p.payload
    → IsLaidOut s len dl ((m, p), true)
laid_out m p f d k e = record {
  succeeds = refl;
  parsed = payload_at-IsFrame4 m f ∙ e;
  total = f.total;
  mbuf_len = d;
  pkt_len = k;
}

-- `HdrChecksum` is in the IPv4 header.
reset_checksum-behind :
    (hw : Bool) (m : Memory) (p : Packet) (a : ℕ)
    → p.l3 + 12 ≤ a
    → load8 (reset_checksum hw m p) a ≡ load8 m a
unfolding reset_checksum
reset_checksum-behind true m p a h = load8-store16_ne m (p.l3 + 10) 0 a (omega arith) (omega arith)
reset_checksum-behind false m p a h = refl

module _ (hwtxchecksum : Bool) (m : Memory) {reserved : ℕ} (p : Packet) (pl_size : ℕ) where
  -- An empty TCP packet in a valid mbuf that has room for it, and whose pointers to the frame agree,
  -- parses as TCP, with its payload where `Data` points and the
  -- total length of both headers and the payload.
  pub init_empty_ipv4_tcp_packet-IsLaidOut :
      IsReady reserved (pl_size + 54) p
      → IsLaidOut p.l2
          (pl_size + 40)
          (p.cmbuf.data_len + (pl_size + 54))
          (init_empty_ipv4_tcp_packet hwtxchecksum m p pl_size)
  unfolding init_empty_ipv4_tcp_packet parse_l3 unparsed
  init_empty_ipv4_tcp_packet-IsLaidOut r =
      let small = r.valid.small in
      let room = r.room in
      let p1 = record p {
        cmbuf = record p.cmbuf {
          data_len = p.cmbuf.data_len + (pl_size + 54);
          pkt_len = p.cmbuf.data_len + (pl_size + 54);
        };
      } in
      let q = record p1 { l3 = p.l2 + 14 } in
      let q4 = record q { l4 = p.l2 + 34 } in
      let m2 = fill_ipv4_default (set_ether_type m p1 0x0800) q (pl_size + 40) 6 in
      let f2 : IsFrame4 p.l2 6 (pl_size + 40) m2 =
        fill-IsFrame4 m p1 q (pl_size + 40) 6 r.here refl (omega arith) (omega arith) in
      let m3 = store8 m2 (p.l2 + 34 + 12) 0x50 in
      let f3 : IsFrame4 p.l2 6 (pl_size + 40) m3 =
        store8-IsFrame4 f2 (p.l2 + 34 + 12) 0x50 (omega arith) in
      let len : u16 (20 + 20 + pl_size) ≡ pl_size + 40 = omega arith in
      let q5 = record q4 { payload = tcp_payload m3 (p.l2 + 34) } in
      rw
        (
          append_then-run (u64 (pl_size + 14 + 20 + 20)) _ m p r (omega arith),
          len,
          parse_l4-IsFrame4 m2 q f2 refl,
        )
        (laid_out (reset_checksum hwtxchecksum m3 q5) q5
          (reset_checksum-IsFrame4 f3 hwtxchecksum q5 refl) refl refl
          (rw
            (
              reset_checksum-behind hwtxchecksum m3 q5 (p.l2 + 34 + 12) (omega arith),
              tcp_payload_lem m3 (p.l2 + 34),
            )
            refl))

  -- An empty UDP packet in a valid mbuf that has room for it, and whose pointers to the frame agree,
  -- parses as UDP, with its payload where `Data` points and the
  -- total length of both headers and the payload.
  pub init_empty_ipv4_udp_packet-IsLaidOut :
      IsReady reserved (pl_size + 42) p
      → IsLaidOut p.l2
          (pl_size + 28)
          (p.cmbuf.data_len + (pl_size + 42))
          (init_empty_ipv4_udp_packet hwtxchecksum m p pl_size)
  unfolding init_empty_ipv4_udp_packet parse_l3 unparsed
  init_empty_ipv4_udp_packet-IsLaidOut r =
      let small = r.valid.small in
      let room = r.room in
      let p1 = record p {
        cmbuf = record p.cmbuf {
          data_len = p.cmbuf.data_len + (pl_size + 42);
          pkt_len = p.cmbuf.data_len + (pl_size + 42);
        };
      } in
      let q = record p1 { l3 = p.l2 + 14; payload = p.l2 + 14 + 20 + 8 } in
      let q4 = record q { l4 = p.l2 + 34 } in
      let m2 = fill_ipv4_default (set_ether_type m p1 0x0800) q (pl_size + 28) 17 in
      let f2 : IsFrame4 p.l2 17 (pl_size + 28) m2 =
        fill-IsFrame4 m p1 q (pl_size + 28) 17 r.here refl (omega arith) (omega arith) in
      let udp_len = swap_bytes_uint16 (u16 (8 + pl_size)) in
      let f3 = store16-IsFrame4 f2 (p.l2 + 34 + 4) udp_len (inl (omega arith)) in
      let len : u16 (20 + 8 + pl_size) ≡ pl_size + 28 = omega arith in
      rw
        (
          append_then-run (u64 (pl_size + 14 + 20 + 8)) _ m p r (omega arith),
          len,
          parse_l4-IsFrame4 m2 q f2 refl,
        )
        (laid_out (reset_checksum hwtxchecksum (store16 m2 (p.l2 + 34 + 4) udp_len) q4) q4
          (reset_checksum-IsFrame4 f3 hwtxchecksum q4 refl) refl refl (ap some (omega arith)))

  -- An empty ICMP packet in a valid mbuf that has room for it, and whose pointers to the frame agree,
  -- parses as ICMP, with its payload where `Data` points and the
  -- total length of both headers and the payload.
  pub init_empty_ipv4_icmp_packet-IsLaidOut :
      IsReady reserved (pl_size + 42) p
      → IsLaidOut p.l2
          (pl_size + 28)
          (p.cmbuf.data_len + (pl_size + 42))
          (init_empty_ipv4_icmp_packet hwtxchecksum m p pl_size)
  unfolding init_empty_ipv4_icmp_packet parse_l3 unparsed
  init_empty_ipv4_icmp_packet-IsLaidOut r =
      let small = r.valid.small in
      let room = r.room in
      let p1 = record p {
        cmbuf = record p.cmbuf {
          data_len = p.cmbuf.data_len + (pl_size + 42);
          pkt_len = p.cmbuf.data_len + (pl_size + 42);
        };
      } in
      let q = record p1 { l3 = p.l2 + 14; payload = p.l2 + 14 + 20 + 8 } in
      let q4 = record q { l4 = p.l2 + 34 } in
      let m2 = fill_ipv4_default (set_ether_type m p1 0x0800) q (pl_size + 28) 1 in
      let f2 : IsFrame4 p.l2 1 (pl_size + 28) m2 =
        fill-IsFrame4 m p1 q (pl_size + 28) 1 r.here refl (omega arith) (omega arith) in
      let len : u16 (20 + 8 + pl_size) ≡ pl_size + 28 = omega arith in
      rw
        (
          append_then-run (u64 (pl_size + 14 + 20 + 8)) _ m p r (omega arith),
          len,
          parse_l4-IsFrame4 m2 q f2 refl,
        )
        (laid_out (reset_checksum hwtxchecksum m2 q4) q4
          (reset_checksum-IsFrame4 f2 hwtxchecksum q4 refl) refl refl (ap some (omega arith)))
