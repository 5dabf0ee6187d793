-- ===== src/Packet/Parse/Wire.antt =====
-- The parser against the formats on the wire: fields are read big-endian, as the standards draw
-- them, and each header is found from the lengths before it.
use go_dpdk.Base.{
  ℕ, ◌+◌, ◌*◌, ◌/◌, ◌%◌, ◌^◌, ◌<◌, ◌≡◌, refl, inl, inr, not, Bool-cases, true, false, Option, some,
  none, ◌==◌, if◌then◌else◌, ℤ, pos, negsuc, arith, u8, ◌<<<◌, bit_and, ◌≢◌,
}
use go_dpdk.Bits.{bit_and_low, bit_and_high}
use go_dpdk.Memory.{Memory, load8, load16, load8-lt, load16-lt}
use go_dpdk.Packet.Swap.{be16, swap_bytes_uint16, swap16-load16, swap16_as_sum}
use go_dpdk.Packet.Parse.{
  Packet, nil, parse_data, parse_all_known_l3, set_payload, parse_all_known_l4_for_ipv4,
  parse_all_known_l4_for_ipv6, tcp_payload, parse_known_l4,
}

module _ (m : Memory) where
  -- Where the payload of a transport header at `l4` starts; `icmp` is the number of ICMP.
  abbrev pub transport : (icmp proto l4 : ℕ) → Option ℕ
  transport icmp proto l4 =
      if proto == 6
      then some (l4 + load8 m (l4 + 12) / 16 * 4)
      else if proto == 17
      then some (l4 + 8)
      else if proto == icmp
      then some (l4 + 8)
      else none

  -- Where the payload of the frame at `start` starts.
  abbrev pub payload_at : (start : ℕ) → Option ℕ
  payload_at start =
      let l3 = start + 14 in
      if be16 m (start + 12) == 0x0800
      then transport 1 (load8 m (l3 + 9)) (l3 + load8 m l3 % 16 * 4)
      else if be16 m (start + 12) == 0x86dd
      then transport 58 (load8 m (l3 + 6)) (l3 + 40)
      else none

-- What a caller learns from a parser's result: the payload, if the status is 0.
abbrev pub outcome : Packet × ℤ → Option ℕ
outcome (p, pos _) = some p.payload
outcome (p, negsuc _) = none

module _ (m : Memory) where
  -- A test of a field against a swapped constant is a test of the big-endian value.
  pub swapped_test : (a n : ℕ) → n < 2 ^ 16 → (load16 m a == swap_bytes_uint16 n) ≡ (be16 m a == n)
  swapped_test a n h =
      ground (arith, swap16-load16 m a, swap16_as_sum (load16 m a), load16-lt m a, swap16_as_sum n)

  -- Layer 3 is what the EtherType says, right behind the Ethernet header.
  pub parse_l3_lem :
      (p : Packet)
      → parse_all_known_l3 m p ≡ (
          let l3 = p.l2 + 14 in
          let q = record p { l3 = l3 } in
          if be16 m (p.l2 + 12) == 0x0800
          then (q, (l3, nil, nil))
          else if be16 m (p.l2 + 12) == 0x0806
          then (q, (nil, nil, l3))
          else if be16 m (p.l2 + 12) == 0x86dd
          then (q, (nil, l3, nil))
          else (q, (nil, nil, nil)))
  unfolding parse_all_known_l3
  parse_l3_lem p = ground (
    arith,
    swapped_test (p.l2 + 12) 0x0800 (omega arith),
    swapped_test (p.l2 + 12) 0x0806 (omega arith),
    swapped_test (p.l2 + 12) 0x86dd (omega arith),
  )

  pub header_length : (l3 : ℕ) → u8 (bit_and (load8 m l3) 0x0f <<< 2) ≡ load8 m l3 % 16 * 4
  header_length l3 = omega (arith, bit_and_low 4 (load8 m l3))

  pub tcp_payload_lem : (l4 : ℕ) → tcp_payload m l4 ≡ l4 + load8 m (l4 + 12) / 16 * 4
  unfolding tcp_payload
  tcp_payload_lem l4 = omega (
    arith,
    bit_and_high 4 (load8 m (l4 + 12)) 15,
    bit_and_low 4 (load8 m (l4 + 12) / 16),
    load8-lt m (l4 + 12),
  )

  -- Behind an IPv4 header the payload is that of the transport header after its options.
  pub set_payload-ipv4 :
      (p : Packet)
      → p.l3 ≢ 0
      → outcome (set_payload m (parse_all_known_l4_for_ipv4 m p))
        ≡ transport m 1 (load8 m (p.l3 + 9)) (p.l3 + load8 m p.l3 % 16 * 4)
  unfolding set_payload parse_all_known_l4_for_ipv4
  set_payload-ipv4 p h =
      rw (header_length p.l3) (ground (arith, tcp_payload_lem (p.l3 + load8 m p.l3 % 16 * 4)))

  pub set_payload-ipv6 :
      (p : Packet)
      → outcome (set_payload m (parse_all_known_l4_for_ipv6 m p))
        ≡ transport m 58 (load8 m (p.l3 + 6)) (p.l3 + 40)
  unfolding set_payload parse_all_known_l4_for_ipv6
  set_payload-ipv6 p = ground (arith, tcp_payload_lem (p.l3 + 40))

  -- `ParseData` finds the payload of exactly those frames that are TCP, UDP or ICMP over IPv4 or
  -- IPv6, at the place that the lengths in the headers give, and fails on all others.
  pub parse_data-payload_at : (p : Packet) → outcome (parse_data m p) ≡ payload_at m p.l2
  unfolding parse_data parse_known_l4
  parse_data-payload_at p =
      let q = record p { l3 = p.l2 + 14 } in
      let none_known : outcome (set_payload m (q, (nil, nil, nil))) ≡ none =
        unfold set_payload in refl in
      let l3 : not (p.l2 + 14 == nil) ≡ true = ground arith in
      rw (parse_l3_lem p) (elim (Bool-cases (be16 m (p.l2 + 12) == 0x0800)) [
        | inl ip4 ↦ rw (ip4, l3) (set_payload-ipv4 q (omega arith))
        | inr not4 ↦ elim (Bool-cases (be16 m (p.l2 + 12) == 0x0806)) [
          | inl arp ↦
              let not6 : (be16 m (p.l2 + 12) == 0x86dd) ≡ false = ground arith in
              rw (not4, arp, not6) none_known
          | inr not_arp ↦ elim (Bool-cases (be16 m (p.l2 + 12) == 0x86dd)) [
            | inl ip6 ↦ rw (not4, not_arp, ip6, l3) (set_payload-ipv6 q)
            | inr not6 ↦ rw (not4, not_arp, not6) none_known
          ]
        ]
      ])
