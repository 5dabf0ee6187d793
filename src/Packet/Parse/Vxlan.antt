-- ===== src/Packet/Parse/Vxlan.antt =====
-- `VxlanDecap`: which frames it takes for VXLAN, and what it finds inside.
use go_dpdk.Base.{
  ℕ, ◌+◌, ◌*◌, ◌%◌, ◌≡◌, refl, ap, ◌∙◌, ◌≢◌, ◌⊎◌, inl, inr, Bool, true, false, ◌&&◌, ◌||◌,
  Bool-cases, some, ◌==◌, ℤ, pos, negsuc, arith,
}
use go_dpdk.Memory.{Memory, load8, load16}
use go_dpdk.Packet.Swap.{be16, swap_bytes_uint16, swap16-load16}
use go_dpdk.Packet.Parse.{
  Packet, nil, parse_all_known_l3, parse_known_l4, set_payload, parse_all_known_l4_for_ipv4,
  parse_all_known_l4_for_ipv6, vxlan_inner, enter_overlay, vxlan_outer, vxlan_decap,
}
use go_dpdk.Packet.Parse.Wire.{
  outcome, payload_at, swapped_test, parse_l3_lem, header_length, set_payload-ipv4,
  set_payload-ipv6,
}

module _ (m : Memory) where
  -- The transport header of an IPv4 frame at `start`.
  abbrev pub outer_l4_of : (start : ℕ) → ℕ
  outer_l4_of start = start + 14 + load8 m (start + 14) % 16 * 4

  -- IPv4, UDP, and the port that is assigned to VXLAN.
  abbrev pub is_vxlan : (start : ℕ) → Bool
  is_vxlan start =
      (be16 m (start + 12) == 0x0800)
      && ((load8 m (start + 14 + 9) == 17) && (be16 m (outer_l4_of start + 2) == 4789))

  -- The inner frame begins behind the UDP and the VXLAN header.
  abbrev pub inner_of : (start : ℕ) → ℕ
  inner_of start = outer_l4_of start + 8 + 8

  module _ (p : Packet) where
    abbrev start : ℕ
    start = p.cmbuf.buf_addr + p.cmbuf.data_off

    -- The packet with the outer layers 2 and 3 parsed.
    abbrev outer : Packet
    outer = record p { overlay = false; l2 = start; l3 = start + 14 }

    -- The EtherType tests of the function, on the big-endian value.
    tests :
        (a : ℕ)
        → ((load16 m a == 0x0608) ≡ (be16 m a == 0x0806))
          × ((load16 m a == 0xdd86) ≡ (be16 m a == 0x86dd))
          × ((load16 m a == 0x0008) ≡ (be16 m a == 0x0800))
    unfolding swap_bytes_uint16
    tests a = (
      swapped_test m a 0x0806 (omega arith),
      swapped_test m a 0x86dd (omega arith),
      swapped_test m a 0x0800 (omega arith),
    )

    decap_ipv4 :
        (be16 m (start + 12) == 0x0800) ≡ true
        → vxlan_decap m p ≡ vxlan_outer m start (outer, (start + 14, nil, nil))
    unfolding vxlan_decap
    decap_ipv4 h =
        let t = tests (start + 12) in
        let arp : (be16 m (start + 12) == 0x0806) ≡ false = ground arith in
        let ip6 : (be16 m (start + 12) == 0x86dd) ≡ false = ground arith in
        rw (t.0, t.1, t.2, arp, ip6, h) (rw (parse_l3_lem m outer, h))

    decap_other :
        (be16 m (start + 12) == 0x0800) ≡ false
        → ((vxlan_decap m p).1 ≡ negsuc 0)
          × ((vxlan_decap m p).0.overlay ≡ false)
          × ((vxlan_decap m p).0.l2 ≡ start)
          × ((vxlan_decap m p).0.cmbuf ≡ p.cmbuf)
    unfolding vxlan_decap vxlan_outer
    decap_other h =
        let t = tests (start + 12) in
        let q = record p { overlay = false; l2 = start } in
        rw (t.0, t.1, t.2, h)
          (elim (Bool-cases ((be16 m (start + 12) == 0x0806) || (be16 m (start + 12) == 0x86dd))) [
            | inl known ↦ rw known (refl, refl, refl, refl)
            | inr unknown ↦
                let arp : (be16 m (start + 12) == 0x0806) ≡ false = ground arith in
                let ip6 : (be16 m (start + 12) == 0x86dd) ≡ false = ground arith in
                rw (unknown, parse_l3_lem m q, h) (rw (arp, ip6) (refl, refl, refl, refl))
          ])

    -- The outer UDP header is where the lengths say, and the inner frame behind it.
    outer_udp :
        (is_vxlan start ≡ true)
        → vxlan_outer m start (outer, (start + 14, nil, nil))
          ≡ vxlan_inner m (outer_l4_of start) (
              parse_all_known_l3 m (
                enter_overlay m start
                  (start + 14)
                  (outer_l4_of start)
                  (record outer { l4 = outer_l4_of start })))
    unfolding vxlan_outer parse_all_known_l4_for_ipv4
    outer_udp h =
        let proto : (load8 m (start + 14 + 9) == 17) ≡ true = ground arith in
        let port : (be16 m (outer_l4_of start + 2) == 4789) ≡ true = ground arith in
        let l3 : (start + 14 == nil) ≡ false = ground arith in
        let l4 : (outer_l4_of start == nil) ≡ false = ground arith in
        rw
          (
            header_length m (start + 14),
            proto,
            l3,
            l4,
            swap16-load16 m (outer_l4_of start + 2),
            port,
          )
          (rw l4)

    outer_other :
        (be16 m (start + 12) == 0x0800) ≡ true
        → is_vxlan start ≡ false
        → ((vxlan_outer m start (outer, (start + 14, nil, nil))).1 ≡ negsuc 0)
          × ((vxlan_outer m start (outer, (start + 14, nil, nil))).0.overlay ≡ false)
          × ((vxlan_outer m start (outer, (start + 14, nil, nil))).0.l2 ≡ start)
          × ((vxlan_outer m start (outer, (start + 14, nil, nil))).0.cmbuf ≡ p.cmbuf)
    unfolding vxlan_outer parse_all_known_l4_for_ipv4
    outer_other h other =
        let l3 : (start + 14 == nil) ≡ false = ground arith in
        let l4 : (outer_l4_of start == nil) ≡ false = ground arith in
        rw (header_length m (start + 14), l3)
          (elim (Bool-cases (load8 m (start + 14 + 9) == 17)) [
            | inl udp ↦
                let port : (be16 m (outer_l4_of start + 2) == 4789) ≡ false = ground arith in
                rw (udp, l4, swap16-load16 m (outer_l4_of start + 2), port)
                  (rw l4 (refl, refl, refl, refl))
            | inr not_udp ↦ rw not_udp (ground arith)
          ])

  set_payload-overlay : (t : Packet × (ℕ × ℕ × ℕ)) → (set_payload m t).0.overlay ≡ t.0.overlay
  unfolding set_payload
  set_payload-overlay t = ground arith

  known_l3-overlay : (q : Packet) → (parse_all_known_l3 m q).0.overlay ≡ q.overlay
  unfolding parse_all_known_l3
  known_l3-overlay q = ground arith

  ipv4-overlay : (q : Packet) → (parse_all_known_l4_for_ipv4 m q).0.overlay ≡ q.overlay
  unfolding parse_all_known_l4_for_ipv4
  ipv4-overlay q = ground arith

  ipv6-overlay : (q : Packet) → (parse_all_known_l4_for_ipv6 m q).0.overlay ≡ q.overlay
  unfolding parse_all_known_l4_for_ipv6
  ipv6-overlay q = ground arith

  known_l4-overlay :
      (before : ℕ × ℕ × ℕ) (t : Packet × (ℕ × ℕ × ℕ))
      → (parse_known_l4 m before t).0.overlay ≡ t.0.overlay
  unfolding parse_known_l4
  known_l4-overlay before t = ground (arith, ipv4-overlay t.0, ipv6-overlay t.0)

  -- What happens inside, at a packet whose layer 2 is the inner frame.
  module _ (udp : ℕ) (q : Packet) where
    abbrev found : Packet × ℤ
    found = vxlan_inner m udp (parse_all_known_l3 m q)

    keeps_overlay : found.0.overlay ≡ q.overlay
    unfolding vxlan_inner
    keeps_overlay = ground (
      arith,
      set_payload-overlay (parse_known_l4 m (nil, udp, nil) (parse_all_known_l3 m q)),
      known_l4-overlay (nil, udp, nil) (parse_all_known_l3 m q),
      known_l3-overlay q,
    )

    inner_ipv4 : (be16 m (q.l2 + 12) == 0x0800) ≡ true → outcome found ≡ payload_at m q.l2
    unfolding vxlan_inner parse_known_l4
    inner_ipv4 h =
        let l3 : (q.l2 + 14 == nil) ≡ false = ground arith in
        rw (parse_l3_lem m q, h)
          (rw l3 (set_payload-ipv4 m (record q { l3 = q.l2 + 14 }) (omega arith)))

    inner_ipv6 : (be16 m (q.l2 + 12) == 0x86dd) ≡ true → outcome found ≡ payload_at m q.l2
    unfolding vxlan_inner parse_known_l4
    inner_ipv6 h =
        let l3 : (q.l2 + 14 == nil) ≡ false = ground arith in
        let ip4 : (be16 m (q.l2 + 12) == 0x0800) ≡ false = ground arith in
        let arp : (be16 m (q.l2 + 12) == 0x0806) ≡ false = ground arith in
        rw (parse_l3_lem m q, ip4, arp, h)
          (rw l3 (set_payload-ipv6 m (record q { l3 = q.l2 + 14 })))

    inner_arp : (be16 m (q.l2 + 12) == 0x0806) ≡ true → found.1 ≡ pos 0
    unfolding vxlan_inner
    inner_arp h =
        let l3 : (q.l2 + 14 == nil) ≡ false = ground arith in
        let ip4 : (be16 m (q.l2 + 12) == 0x0800) ≡ false = ground arith in
        rw (parse_l3_lem m q, ip4, h) (rw l3)

    inner_unknown :
        be16 m (q.l2 + 12) ≢ 0x0800
        → be16 m (q.l2 + 12) ≢ 0x0806
        → be16 m (q.l2 + 12) ≢ 0x86dd
        → udp ≢ nil
        → outcome found ≡ some (q.l4 + 8)
    unfolding vxlan_inner parse_known_l4 set_payload
    inner_unknown a b c u =
        let ip4 : (be16 m (q.l2 + 12) == 0x0800) ≡ false = ground arith in
        let arp : (be16 m (q.l2 + 12) == 0x0806) ≡ false = ground arith in
        let ip6 : (be16 m (q.l2 + 12) == 0x86dd) ≡ false = ground arith in
        let given : (udp == nil) ≡ false = ground arith in
        rw (parse_l3_lem m q, ip4, arp, ip6) (rw given)

  module _ (p : Packet) where
    abbrev begin : ℕ
    begin = p.cmbuf.buf_addr + p.cmbuf.data_off

    decap_inner :
        is_vxlan begin ≡ true
        → (q : Packet) × (q.l2 ≡ inner_of begin)
          × (q.l4 ≡ 0)
          × (q.overlay ≡ true)
          × (vxlan_decap m p ≡ found (outer_l4_of begin) q)
    unfolding enter_overlay
    decap_inner h = (
      enter_overlay m begin (begin + 14) (outer_l4_of begin)
          (record (outer p) { l4 = outer_l4_of begin }),
      refl,
      refl,
      refl,
      decap_ipv4 p (ground arith) ∙ outer_udp p h,
    )

    -- `Overlay` is set for exactly the frames that are VXLAN in UDP over IPv4.
    pub vxlan_decap-overlay : (vxlan_decap m p).0.overlay ≡ is_vxlan begin
    vxlan_decap-overlay = elim (Bool-cases (is_vxlan begin)) [
      | inl vx ↦
          let (q, _, _, set, run) = decap_inner vx in
          rw (run, vx) (keeps_overlay (outer_l4_of begin) q ∙ set)
      | inr other ↦ elim (Bool-cases (be16 m (begin + 12) == 0x0800)) [
        | inl ip4 ↦ rw (decap_ipv4 p ip4, other) (outer_other p ip4 other).1
        | inr not4 ↦ rw other (decap_other p not4).1
      ]
    ]

    -- A frame that is not VXLAN leaves layer 2 at its start, and the mbuf as it is.
    pub vxlan_decap_start :
        is_vxlan begin ≡ false
        → ((vxlan_decap m p).0.overlay ≡ false)
          × ((vxlan_decap m p).0.l2 ≡ begin)
          × ((vxlan_decap m p).0.cmbuf ≡ p.cmbuf)
    vxlan_decap_start other = elim (Bool-cases (be16 m (begin + 12) == 0x0800)) [
      | inl ip4 ↦ let r = outer_other p ip4 other in rw (decap_ipv4 p ip4) (r.1, r.2, r.3)
      | inr not4 ↦ let r = decap_other p not4 in (r.1, r.2, r.3)
    ]

    -- The status is -1 for every frame that is not VXLAN.
    pub vxlan_decap-other : is_vxlan begin ≡ false → (vxlan_decap m p).1 ≡ negsuc 0
    vxlan_decap-other other = elim (Bool-cases (be16 m (begin + 12) == 0x0800)) [
      | inl ip4 ↦ rw (decap_ipv4 p ip4) (outer_other p ip4 other).0
      | inr not4 ↦ (decap_other p not4).0
    ]

    -- Inside a VXLAN frame that carries IP the payload is found as `ParseData` would find it in the
    -- inner frame: it succeeds for TCP, UDP and ICMP and fails for other protocols.
    pub vxlan_decap-inner :
        is_vxlan begin ≡ true
        → (be16 m (inner_of begin + 12) ≡ 0x0800) ⊎ (be16 m (inner_of begin + 12) ≡ 0x86dd)
        → outcome (vxlan_decap m p) ≡ payload_at m (inner_of begin)
    vxlan_decap-inner vx ip =
        let (q, at, _, _, run) = decap_inner vx in
        rw (run, ← at)
          (elim ip [
            | inl ip4 ↦ inner_ipv4 (outer_l4_of begin) q (rw (at, ip4))
            | inr ip6 ↦ inner_ipv6 (outer_l4_of begin) q (rw (at, ip6))
          ])

    -- An inner frame that is neither IP nor ARP is reported as parsed, with the address 8 for its
    -- payload: the variable `pktUDP` still holds the outer header, and `L4` is nil.
    pub vxlan_decap_stale :
        is_vxlan begin ≡ true
        → be16 m (inner_of begin + 12) ≢ 0x0800
        → be16 m (inner_of begin + 12) ≢ 0x0806
        → be16 m (inner_of begin + 12) ≢ 0x86dd
        → outcome (vxlan_decap m p) ≡ some 8
    vxlan_decap_stale vx a b c =
        let (q, at, l4, _, run) = decap_inner vx in
        rw run (
          inner_unknown (outer_l4_of begin) q (rw at a) (rw at b) (rw at c) (omega arith)
          ∙ ap some (omega arith))
