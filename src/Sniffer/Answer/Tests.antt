-- ===== src/Sniffer/Answer/Tests.antt =====
-- Runs and instances for the answers.
use go_dpdk.Base.{ℕ, ◌≡◌, refl, arith, [], ◌∷◌, ◌++◌}
use go_dpdk.Memory.{Memory, load8, load_bytes}
use go_dpdk.Packet.Swap.{be16}
use go_dpdk.Ipv4Address.{ipv4_to_bytes}
use go_dpdk.Packet.Arp.Laid.{IsArp}
use go_dpdk.Packet.Parse.{Packet}
use go_dpdk.Packet.Sample.{at_page, mbuf, ethernet, icmp_frame, ipv6_frame}
use go_dpdk.Sniffer.Answer.{dropped, sent, panicked, own_mac, handle}
use go_dpdk.Sniffer.Answer.Arp.{handle_request, handle_not_request}
use go_dpdk.Sniffer.Answer.Echo.{IsEcho, IsReply, handle_echo}
use go_dpdk.Sniffer.Answer.Solicitation.{handle_solicitation}

abbrev arp_operation : ℕ → Memory
arp_operation op = at_page (
    ethernet 8 6
    ++ (0 ∷ 1 ∷ 8 ∷ 0 ∷ 6 ∷ 4 ∷ 0 ∷ op ∷ 2 ∷ 0 ∷ 0 ∷ 0 ∷ 0 ∷ 2 ∷ 10 ∷ 0 ∷ 0 ∷ 1 ∷ 0 ∷ 0 ∷ 0 ∷ 0 ∷ 0
        ∷ 0 ∷ 10 ∷ 0 ∷ 0 ∷ 2 ∷ []))

asked :
    IsArp 0x1000 1
      (2 ∷ 0 ∷ 0 ∷ 0 ∷ 0 ∷ 1 ∷ [])
      (2 ∷ 0 ∷ 0 ∷ 0 ∷ 0 ∷ 2 ∷ [])
      (0 ∷ 0 ∷ 0 ∷ 0 ∷ 0 ∷ 0 ∷ [])
      0x0100000a
      0x0200000a
      (arp_operation 1)
unfolding be16 load8 load_bytes ipv4_to_bytes
asked = record {
  destination = refl;
  source = refl;
  ether_type = refl;
  h_type = refl;
  p_type = refl;
  h_len = refl;
  p_len = refl;
  op = refl;
  sender_mac = refl;
  sender_ip = refl;
  target_mac = refl;
  target_ip = refl;
}

handle_request_example :
    (m' : Memory) × (p : Packet) × (handle (arp_operation 1) (mbuf 42) ≡ sent m' p)
    × IsArp 0x1000 2
        (2 ∷ 0 ∷ 0 ∷ 0 ∷ 0 ∷ 2 ∷ [])
        own_mac
        (2 ∷ 0 ∷ 0 ∷ 0 ∷ 0 ∷ 2 ∷ [])
        0x0200000a
        0x0100000a
        m'
handle_request_example = handle_request (arp_operation 1) (mbuf 42) asked

handle_not_request_example :
    (m' : Memory) × (p : Packet) × (handle (arp_operation 2) (mbuf 42) ≡ dropped m' p)
unfolding be16 load8
handle_not_request_example = handle_not_request (arp_operation 2) (mbuf 42) refl (omega arith)

echo : IsEcho 0x1000 icmp_frame
unfolding be16 load8
echo = record {
  ether_type = refl;
  header = refl;
  protocol = refl;
  total = omega arith;
  type = refl;
}

handle_echo_example :
    (m' : Memory) × (p : Packet) × (handle icmp_frame (mbuf 45) ≡ sent m' p)
    × IsReply 0x1000 icmp_frame m'
unfolding load8
handle_echo_example = handle_echo icmp_frame (mbuf 45) echo (omega arith)

abbrev solicitation : Memory
solicitation = ipv6_frame 24 58 (
    135 ∷ 0 ∷ 0 ∷ 0 ∷ 0 ∷ 0 ∷ 0 ∷ 0 ∷ 0xfe ∷ 0x80 ∷ 0 ∷ 0 ∷ 0 ∷ 0 ∷ 0 ∷ 0 ∷ 0 ∷ 0 ∷ 0 ∷ 0 ∷ 0 ∷ 0
    ∷ 0 ∷ 2 ∷ [])

handle_solicitation_example : handle solicitation (mbuf 78) ≡ panicked
unfolding be16 load8
handle_solicitation_example =
    handle_solicitation solicitation (mbuf 78) (omega arith) (omega arith) refl refl refl
