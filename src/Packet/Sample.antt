-- ===== src/Packet/Sample.antt =====
-- Frames to run the packet functions on.
use go_dpdk.Base.{ℕ, ◌-◌, List, [], ◌∷◌, ◌++◌, get_or, false}
use go_dpdk.Memory.{Memory}
use go_dpdk.Mbuf.{Mbuf}
use go_dpdk.Packet.Parse.{Packet}

-- Bytes at 0x1000.
abbrev pub at_page : List ℕ → Memory
at_page bytes a = get_or bytes (a - 0x1000) 0

-- An mbuf of 2048 bytes behind a headroom of 128, whose data begins at 0x1000.
abbrev pub mbuf : ℕ → Mbuf
mbuf len = record { buf_addr = 3968; buf_len = 2176; data_off = 128; data_len = len; pkt_len = len }

abbrev pub packet : ℕ → Packet
packet len = record {
  l2 = 0x1000;
  l3 = 0;
  l4 = 0;
  payload = 0;
  outer_l2 = 0;
  outer_l3 = 0;
  outer_l4 = 0;
  outer_ether = 0;
  outer_ipv4_hdr = 0;
  outer_udp_hdr = 0;
  vxlan_header = 0;
  overlay = false;
  ether = 0x1000;
  cmbuf = mbuf len;
}

abbrev pub ethernet : (high low : ℕ) → List ℕ
ethernet high low = 2 ∷ 0 ∷ 0 ∷ 0 ∷ 0 ∷ 1 ∷ 2 ∷ 0 ∷ 0 ∷ 0 ∷ 0 ∷ 2 ∷ high ∷ low ∷ []

abbrev pub ipv4 : (total proto : ℕ) → List ℕ
ipv4 total proto =
    0x45 ∷ 0 ∷ 0 ∷ total ∷ 0 ∷ 1 ∷ 0 ∷ 0 ∷ 64 ∷ proto ∷ 0 ∷ 0 ∷ 10 ∷ 0 ∷ 0 ∷ 1 ∷ 10 ∷ 0 ∷ 0 ∷ 2 ∷ []

-- A TCP segment with three bytes of data.
abbrev pub tcp_segment : List ℕ
tcp_segment =
    0x12 ∷ 0x34 ∷ 0 ∷ 80 ∷ 0 ∷ 0 ∷ 0 ∷ 1 ∷ 0 ∷ 0 ∷ 0 ∷ 0 ∷ 0x50 ∷ 2 ∷ 255 ∷ 255 ∷ 0 ∷ 0 ∷ 0 ∷ 0 ∷ 97
    ∷ 98 ∷ 99 ∷ []

-- 57 bytes.
abbrev pub tcp_bytes : List ℕ
tcp_bytes = ethernet 8 0 ++ (ipv4 43 6 ++ tcp_segment)

abbrev pub tcp_frame : Memory
tcp_frame = at_page tcp_bytes

-- UDP to the port of VXLAN, with three bytes of data.
abbrev pub udp_frame : Memory
udp_frame = at_page (
    ethernet 8 0
    ++ (ipv4 31 17 ++ (0x12 ∷ 0x34 ∷ 0x12 ∷ 0xb5 ∷ 0 ∷ 11 ∷ 0 ∷ 0 ∷ 97 ∷ 98 ∷ 99 ∷ [])))

abbrev pub icmp_frame : Memory
icmp_frame =
    at_page (ethernet 8 0 ++ (ipv4 31 1 ++ (8 ∷ 0 ∷ 0 ∷ 0 ∷ 0 ∷ 1 ∷ 0 ∷ 7 ∷ 97 ∷ 98 ∷ 99 ∷ [])))

abbrev pub arp_frame : Memory
arp_frame = at_page (ethernet 8 6)

-- A frame inside VXLAN.
abbrev pub vxlan_frame : List ℕ → Memory
vxlan_frame inner = at_page (
    ethernet 8 0
    ++ (ipv4 107 17
        ++ (0x12 ∷ 0x34 ∷ 0x12 ∷ 0xb5 ∷ 0 ∷ 87 ∷ 0 ∷ 0 ∷ 8 ∷ 0 ∷ 0 ∷ 0 ∷ 0 ∷ 0 ∷ 7 ∷ 0 ∷ inner)))

-- An IPv6 header, and the transport header given behind it.
abbrev pub ipv6_frame : (payload_len next : ℕ) → List ℕ → Memory
ipv6_frame payload_len next rest = at_page (
    ethernet 0x86 0xdd
    ++ (0x60 ∷ 0 ∷ 0 ∷ 0 ∷ 0 ∷ payload_len ∷ next ∷ 255 ∷ 0xfe ∷ 0x80 ∷ 0 ∷ 0 ∷ 0 ∷ 0 ∷ 0 ∷ 0 ∷ 0
        ∷ 0 ∷ 0 ∷ 0 ∷ 0 ∷ 0 ∷ 0 ∷ 1 ∷ 0xfe ∷ 0x80 ∷ 0 ∷ 0 ∷ 0 ∷ 0 ∷ 0 ∷ 0 ∷ 0 ∷ 0 ∷ 0 ∷ 0 ∷ 0 ∷ 0
        ∷ 0 ∷ 2 ∷ rest))
