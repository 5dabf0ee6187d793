-- ===== src/Sniffer/Answer/Echo.antt =====
-- The answer to an ICMP echo request over IPv4.
use go_dpdk.Base.{ℕ, ◌+◌, ◌-◌, ◌*◌, ◌%◌, ◌^◌, ◌≤◌, ◌<◌, ◌≡◌, ap, ◌∙◌, arith, false}
use go_dpdk.Memory.{Memory, load8, load_bytes}
use go_dpdk.Mbuf.{Mbuf}
use go_dpdk.Packet.Swap.{be16}
use go_dpdk.Packet.Parse.{Packet, vxlan_decap}
use go_dpdk.Packet.Parse.Vxlan.{is_vxlan, vxlan_decap_start}
use go_dpdk.Packet.Checksum.{reduce_checksum}
use go_dpdk.Packet.Checksum.Words.{words_sum, byte_sum}
use go_dpdk.Packet.Checksum.Parts.{icmp_words}
use go_dpdk.Packet.Checksum.Ipv4.{ipv4_checksum_accepted}
use go_dpdk.Sniffer.Answer.{sent, fresh, handle}
use go_dpdk.Sniffer.Answer.Parsed.{parsed, handle-parsed, parse_data-icmp}
use go_dpdk.Sniffer.Answer.EchoSteps.{
  m5, last, addresses_at, fields_at, first_at, data_at, checksum_at, answer_ipv4-run,
}

-- What an echo request at `s` is, as far as the answer looks: IPv4 with a header without options,
-- ICMP, and a total length that holds both headers.
pub record IsEcho (s : ℕ) (m : Memory) : Type 0 where
  pub ether_type : be16 m (s + 12) ≡ 0x0800
  pub header : load8 m (s + 14) % 16 ≡ 5
  pub protocol : load8 m (s + 14 + 9) ≡ 1
  pub total : 28 ≤ be16 m (s + 14 + 2)
  pub type : load8 m (s + 14 + load8 m (s + 14) % 16 * 4) ≡ 8

-- The reply `m'` to the request `m`: the addresses of both layers change places, identifier,
-- sequence number and data are repeated, and a receiver accepts both checksums: that of the IPv4
-- header over as many words as the header says, that of ICMP over all that is behind the header.
pub record IsReply (s : ℕ) (m m' : Memory) : Type 0 where
  pub destination : load_bytes m' s 6 ≡ load_bytes m (s + 6) 6
  pub source : load_bytes m' (s + 6) 6 ≡ load_bytes m s 6
  pub src_addr : load_bytes m' (s + 14 + 12) 4 ≡ load_bytes m (s + 14 + 16) 4
  pub dst_addr : load_bytes m' (s + 14 + 16) 4 ≡ load_bytes m (s + 14 + 12) 4
  pub version_ihl : load8 m' (s + 14) ≡ load8 m (s + 14)
  pub total : be16 m' (s + 14 + 2) ≡ be16 m (s + 14 + 2)
  pub protocol : load8 m' (s + 14 + 9) ≡ 1
  pub header_accepted :
      reduce_checksum (words_sum m' (s + 14) (2 * (load8 m (s + 14) % 16))) ≡ 0xffff
  pub type : load8 m' (s + 14 + load8 m (s + 14) % 16 * 4) ≡ 0
  pub identifier :
      be16 m' (s + 14 + load8 m (s + 14) % 16 * 4 + 4)
      ≡ be16 m (s + 14 + load8 m (s + 14) % 16 * 4 + 4)
  pub sequence :
      be16 m' (s + 14 + load8 m (s + 14) % 16 * 4 + 6)
      ≡ be16 m (s + 14 + load8 m (s + 14) % 16 * 4 + 6)
  pub repeated :
      (n : ℕ)
      → load_bytes m' (s + 14 + load8 m (s + 14) % 16 * 4 + 8) n
        ≡ load_bytes m (s + 14 + load8 m (s + 14) % 16 * 4 + 8) n
  pub message_accepted :
      reduce_checksum (
        icmp_words m' (s + 14 + load8 m (s + 14) % 16 * 4)
        + byte_sum m'
            (s + 14 + load8 m (s + 14) % 16 * 4 + 8)
            (be16 m (s + 14 + 2) - load8 m (s + 14) % 16 * 4 - 8)
        + be16 m' (s + 14 + load8 m (s + 14) % 16 * 4 + 2))
      ≡ 0xffff

module _ (m : Memory) (mb : Mbuf) where
  abbrev begin : ℕ
  begin = mb.buf_addr + mb.data_off

  abbrev message : ℕ
  message = begin + 14 + load8 m (begin + 14) % 16 * 4

  parsed-layers :
      be16 m (begin + 12) ≡ 0x0800
      → load8 m (begin + 14 + 9) ≡ 1
      → ((parsed m mb).l2 ≡ begin)
        × ((parsed m mb).l3 ≡ begin + 14)
        × ((parsed m mb).l4 ≡ message)
        × ((parsed m mb).payload ≡ message + 8)
        × ((parsed m mb).overlay ≡ false)
  unfolding parsed
  parsed-layers h proto =
      let plain : is_vxlan m begin ≡ false = ground arith in
      let (overlay, l2, _) = vxlan_decap_start m (fresh mb) plain in
      let p = (vxlan_decap m (fresh mb)).0 in
      let run = parse_data-icmp m p (rw l2 h) (rw l2 proto) in
      let at : p.l2 + 14 + load8 m (p.l2 + 14) % 16 * 4 ≡ message = rw l2 in
      rw run (l2, ap (λ a. a + 14) l2, at, ap (λ a. a + 8) at, overlay)

  words_accepted :
      (m' : Memory) (p words : ℕ)
      → words ≡ 5
      → reduce_checksum (words_sum m' p 10) ≡ 0xffff
      → reduce_checksum (words_sum m' p (2 * words)) ≡ 0xffff
  words_accepted m' p words e h = rw e h

  -- The length behind both headers.
  behind :
      IsEcho begin m
      → be16 m (begin + 14 + 2) - load8 m (begin + 14) % 16 * 4 - 8 ≡ be16 m (begin + 14 + 2) - 28
  behind f = omega (arith, f.header)

  -- An ICMP echo request below the end of the address space, with an IPv4 header without options,
  -- is answered by the echo reply to it, whose two checksums a receiver accepts.
  pub handle_echo :
      IsEcho begin m
      → message + 8 < 2 ^ 64
      → (m' : Memory) × (p : Packet) × (handle m mb ≡ sent m' p) × IsReply begin m m'
  handle_echo f low =
      let far : begin + 14 + 20 ≤ message = omega (arith, f.header) in
      let (l2, l3, l4, at, plain) = parsed-layers f.ether_type f.protocol in
      let addresses = addresses_at m begin message far in
      let fields = fields_at m begin message far in
      (
        last m begin message,
        parsed m mb,
        handle-parsed m mb
            ∙ answer_ipv4-run m begin message far (parsed m mb) l2 l3 l4 at plain f.ether_type
                f.protocol f.type,
        record {
          destination = addresses.0;
          source = addresses.1;
          src_addr = addresses.2;
          dst_addr = addresses.3;
          version_ihl = first_at m begin message far;
          total = fields.1;
          protocol = fields.2 ∙ f.protocol;
          header_accepted =
              words_accepted (last m begin message) (begin + 14) (load8 m (begin + 14) % 16)
                f.header (ipv4_checksum_accepted (m5 m begin message) (begin + 14));
          type = fields.3;
          identifier = fields.4;
          sequence = fields.5;
          repeated = data_at m begin message far;
          message_accepted = rw (behind f) (checksum_at m begin message far low f.total);
        },
      )
