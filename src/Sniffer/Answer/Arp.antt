-- ===== src/Sniffer/Answer/Arp.antt =====
-- The answer to an ARP request.
use go_dpdk.Base.{ℕ, ◌+◌, ◌≡◌, ◌≢◌, ap, ◌∙◌, arith, false, List}
use go_dpdk.Memory.{Memory}
use go_dpdk.Mbuf.{Mbuf}
use go_dpdk.Packet.Swap.{be16}
use go_dpdk.Packet.Parse.{Packet, vxlan_decap}
use go_dpdk.Packet.Parse.Vxlan.{is_vxlan, vxlan_decap_start}
use go_dpdk.Packet.Arp.Laid.{IsArp}
use go_dpdk.Sniffer.Answer.{sent, dropped, own_mac, fresh, handle}
use go_dpdk.Sniffer.Answer.Parsed.{parsed, handle-parsed, parse_data-arp}
use go_dpdk.Sniffer.Answer.ArpSteps.{
  swapped, last, types_at, ethernet_at, operation_at, addresses_at, answer_arp-run, answer_arp-drop,
}

-- The packet that the two parsers leave of an ARP frame.
module _ (m : Memory) (mb : Mbuf) where
  abbrev begin : ℕ
  begin = mb.buf_addr + mb.data_off

  parsed-layers :
      be16 m (begin + 12) ≡ 0x0806
      → ((parsed m mb).l2 ≡ begin)
        × ((parsed m mb).l3 ≡ begin + 14)
        × ((parsed m mb).overlay ≡ false)
  unfolding parsed
  parsed-layers h =
      let plain : is_vxlan m begin ≡ false = ground arith in
      let (overlay, l2, _) = vxlan_decap_start m (fresh mb) plain in
      let p = (vxlan_decap m (fresh mb)).0 in
      let run = parse_data-arp m p (rw l2 h) in rw run (l2, ap (λ a. a + 14) l2, overlay)

  -- An ARP request is answered by the reply to it: a frame from the program's own hardware address
  -- to the host that asked, for the address that it asked for.
  pub handle_request :
      {d_addr sha tha : List ℕ} {spa tpa : ℕ}
      → IsArp begin 1 d_addr sha tha spa tpa m
      → (m' : Memory) × (p : Packet) × (handle m mb ≡ sent m' p)
        × IsArp begin 2 sha own_mac sha tpa spa m'
  handle_request f =
      let (l2, l3, plain) = parsed-layers f.ether_type in
      let types = types_at m begin in
      let ethernet = ethernet_at m begin in
      let addresses = addresses_at m begin in
      (
        last m begin,
        parsed m mb,
        handle-parsed m mb ∙ answer_arp-run m begin (parsed m mb) l2 l3 plain f.ether_type f.op,
        record {
          destination = ethernet.0 ∙ f.source;
          source = ethernet.1;
          ether_type = types.0 ∙ f.ether_type;
          h_type = types.1 ∙ f.h_type;
          p_type = types.2 ∙ f.p_type;
          h_len = types.3 ∙ f.h_len;
          p_len = types.4 ∙ f.p_len;
          op = operation_at m begin;
          sender_mac = addresses.0;
          sender_ip = addresses.1 ∙ f.target_ip;
          target_mac = addresses.2 ∙ f.sender_mac;
          target_ip = addresses.3 ∙ f.sender_ip;
        },
      )

  -- Every other ARP operation is dropped.
  pub handle_not_request :
      be16 m (begin + 12) ≡ 0x0806
      → be16 m (begin + 14 + 6) ≢ 1
      → (m' : Memory) × (p : Packet) × (handle m mb ≡ dropped m' p)
  handle_not_request type op =
      let (l2, l3, _) = parsed-layers type in
      (
        swapped m begin,
        (parsed m mb),
        handle-parsed m mb ∙ answer_arp-drop m begin (parsed m mb) l2 l3 type op,
      )
