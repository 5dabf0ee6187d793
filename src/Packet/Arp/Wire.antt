-- ===== src/Packet/Arp/Wire.antt =====
-- The four ARP functions against the format on the wire.
use go_dpdk.Base.{ℕ, ◌+◌, ◌^◌, ◌<◌, ◌≡◌, refl, arith, Bool, true, List}
use go_dpdk.Memory.{Memory}
use go_dpdk.Packet.Parse.{Packet, parse_l3, unparsed}
use go_dpdk.Packet.Init.{State, init_empty_arp_packet}
use go_dpdk.Packet.Init.Ipv4.{IsReady, append_then-run}
use go_dpdk.Packet.Arp.{
  broadcast, init_arp_common_data, init_arp, init_arp_request_packet, init_arp_reply_packet,
  init_garp_announcement_request_packet, init_garp_announcement_reply_packet,
}
use go_dpdk.Packet.Arp.Laid.{IsArp, IsMac, fill_arp-IsArp}

-- What a caller has after a successful call.
pub record IsSent (s op : ℕ) (d_addr sha tha : List ℕ) (spa tpa data_len : ℕ) (r : State × Bool)
    : Type 0 where
  pub succeeds : r.1 ≡ true
  pub frame : IsArp s op d_addr sha tha spa tpa r.0.0
  pub mbuf_len : r.0.1.cmbuf.data_len ≡ data_len

broadcast-IsMac : IsMac broadcast
broadcast-IsMac = ground arith

module _ (m : Memory) {reserved : ℕ} (p : Packet) (ready : IsReady reserved 42 p) where
  init_arp-IsSent :
      {sha d_addr tha : List ℕ}
      → IsMac sha
      → IsMac d_addr
      → IsMac tha
      → (op spa tpa : ℕ) → op < 2 ^ 16
      → IsSent p.l2 op d_addr sha tha spa tpa
          (p.cmbuf.data_len + 42)
          (init_arp m p op sha d_addr tha spa tpa)
  unfolding init_arp init_arp_common_data init_empty_arp_packet parse_l3 unparsed
  init_arp-IsSent hs hd ht op spa tpa narrow =
      let p1 = record p {
        cmbuf = record p.cmbuf {
          data_len = p.cmbuf.data_len + 42;
          pkt_len = p.cmbuf.data_len + 42;
        };
      } in
      let q = record p1 { l3 = p.l2 + 14 } in
      rw (append_then-run 42 _ m p ready refl) (record {
        succeeds = refl;
        frame = fill_arp-IsArp hs hd ht m op spa tpa narrow p1 q refl ready.here ready.here;
        mbuf_len = refl;
      })

  module _ {sha : List ℕ} (hs : IsMac sha) where
    -- With room in a valid mbuf, pointers that agree and MAC addresses of six bytes, an ARP request
    -- is broadcast, asks for `tpa` with all ones as the target's hardware address, and carries the
    -- sender's addresses.
    pub init_arp_request_packet-IsSent :
        (spa tpa : ℕ)
        → IsSent p.l2 1 broadcast sha broadcast spa tpa
            (p.cmbuf.data_len + 42)
            (init_arp_request_packet m p sha spa tpa)
    unfolding init_arp_request_packet
    init_arp_request_packet-IsSent spa tpa =
        init_arp-IsSent hs broadcast-IsMac broadcast-IsMac 1 spa tpa (omega arith)

    -- Under the same conditions an ARP reply goes to the host that asked, and carries the addresses
    -- of both hosts.
    pub init_arp_reply_packet-IsSent :
        {tha : List ℕ}
        → IsMac tha
        → (spa tpa : ℕ)
        → IsSent p.l2 2 tha sha tha spa tpa
            (p.cmbuf.data_len + 42)
            (init_arp_reply_packet m p sha tha spa tpa)
    unfolding init_arp_reply_packet
    init_arp_reply_packet-IsSent ht spa tpa = init_arp-IsSent hs ht ht 2 spa tpa (omega arith)

    -- Under the same conditions both announcements are broadcast with the sender's IP address as the
    -- target, and with all ones as the target's hardware address.
    pub garp-IsSent :
        (spa : ℕ)
        → IsSent p.l2 1 broadcast sha broadcast spa spa
            (p.cmbuf.data_len + 42)
            (init_garp_announcement_request_packet m p sha spa)
          × IsSent p.l2 2 broadcast sha broadcast spa spa
              (p.cmbuf.data_len + 42)
              (init_garp_announcement_reply_packet m p sha spa)
    unfolding init_garp_announcement_request_packet init_garp_announcement_reply_packet
    garp-IsSent spa = (
      init_arp-IsSent hs broadcast-IsMac broadcast-IsMac 1 spa spa (omega arith),
      init_arp-IsSent hs broadcast-IsMac broadcast-IsMac 2 spa spa (omega arith),
    )
