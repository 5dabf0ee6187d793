-- ===== src/Packet/Arp/Laid.antt =====
-- What the ARP functions put on the wire.
use go_dpdk.Base.{ℕ, ◌+◌, ◌^◌, ◌≤◌, ◌<◌, ◌≡◌, ◌⊎◌, inl, inr, refl, ◌∙◌, arith, List, length}
use go_dpdk.Memory.{
  Memory, load8, store8, store16, load_bytes, store_bytes, IsBytes, load8-store8,
  load8-store_bytes_out, load_bytes-same, stored_run,
}
use go_dpdk.Ipv4Address.{ipv4_to_bytes, ipv4_to_bytes-IsBytes}
use go_dpdk.Packet.Swap.{be16, swap_bytes_uint16, be16-store16, be16-store16_ne}
use go_dpdk.Packet.Parse.{Packet}
use go_dpdk.Packet.Init.{set_ether_type}
use go_dpdk.Packet.Init.Fill.{be16-store8_ne, be16-same, load8-store16_ne}
use go_dpdk.Packet.Arp.{fill_arp_common, fill_arp}

-- A frame at `s` with an ARP packet for Ethernet and IPv4, as RFC 826 draws it.
pub record IsArp (s operation : ℕ) (d_addr sha tha : List ℕ) (spa tpa : ℕ) (m : Memory)
    : Type 0 where
  pub destination : load_bytes m s 6 ≡ d_addr
  pub source : load_bytes m (s + 6) 6 ≡ sha
  pub ether_type : be16 m (s + 12) ≡ 0x0806
  pub h_type : be16 m (s + 14) ≡ 1
  pub p_type : be16 m (s + 14 + 2) ≡ 0x0800
  pub h_len : load8 m (s + 14 + 4) ≡ 6
  pub p_len : load8 m (s + 14 + 5) ≡ 4
  pub op : be16 m (s + 14 + 6) ≡ operation
  pub sender_mac : load_bytes m (s + 14 + 8) 6 ≡ sha
  pub sender_ip : load_bytes m (s + 14 + 14) 4 ≡ ipv4_to_bytes spa
  pub target_mac : load_bytes m (s + 14 + 18) 6 ≡ tha
  pub target_ip : load_bytes m (s + 14 + 24) 4 ≡ ipv4_to_bytes tpa

-- What a run of bytes stored behind or before a field leaves of it.
module _ (m : Memory) (a : ℕ) (xs : List ℕ) where
  keep8 : (b : ℕ) → (b < a) ⊎ (a + length xs ≤ b) → load8 (store_bytes m a xs) b ≡ load8 m b
  keep8 b h = load8-store_bytes_out m a b xs h

  keep16 : (b : ℕ) → (b + 1 < a) ⊎ (a + length xs ≤ b) → be16 (store_bytes m a xs) b ≡ be16 m b
  keep16 b h =
      be16-same m (store_bytes m a xs) b (keep8 b (ground arith)) (keep8 (b + 1) (ground arith))

  keep_run :
      (b n : ℕ)
      → (b + n ≤ a) ⊎ (a + length xs ≤ b)
      → load_bytes (store_bytes m a xs) b n ≡ load_bytes m b n
  keep_run b n h = load_bytes-same m (store_bytes m a xs) b n (λ c lo hi. keep8 c (ground arith))

-- What `initARPCommonData` writes at `l3`.
record IsCommon (l3 : ℕ) (m m' : Memory) : Type 0 where
  h_type : be16 m' l3 ≡ 1
  p_type : be16 m' (l3 + 2) ≡ 0x0800
  h_len : load8 m' (l3 + 4) ≡ 6
  p_len : load8 m' (l3 + 5) ≡ 4
  before : (b : ℕ) → b < l3 → load8 m' b ≡ load8 m b

fill_arp_common-IsCommon : (m : Memory) (p : Packet) → IsCommon p.l3 m (fill_arp_common m p)
unfolding fill_arp_common
fill_arp_common-IsCommon m p =
    let m1 = store16 m p.l3 (swap_bytes_uint16 1) in
    let m2 = store16 m1 (p.l3 + 2) (swap_bytes_uint16 0x0800) in
    let m3 = store8 m2 (p.l3 + 4) 6 in
    record {
      h_type =
          be16-store8_ne m3 (p.l3 + 5) 4 p.l3 (omega arith) (omega arith)
          ∙ be16-store8_ne m2 (p.l3 + 4) 6 p.l3 (omega arith) (omega arith)
          ∙ be16-store16_ne m1 (p.l3 + 2) (swap_bytes_uint16 0x0800) p.l3 (inl (omega arith))
          ∙ be16-store16 m p.l3 1 (omega arith);
      p_type =
          be16-store8_ne m3 (p.l3 + 5) 4 (p.l3 + 2) (omega arith) (omega arith)
          ∙ be16-store8_ne m2 (p.l3 + 4) 6 (p.l3 + 2) (omega arith) (omega arith)
          ∙ be16-store16 m1 (p.l3 + 2) 0x0800 (omega arith);
      h_len =
          ground (
            arith,
            load8-store8 m3 (p.l3 + 5) (p.l3 + 4) 4,
            load8-store8 m2 (p.l3 + 4) (p.l3 + 4) 6,
          );
      p_len = ground (arith, load8-store8 m3 (p.l3 + 5) (p.l3 + 5) 4);
      before = λ b lt. ground (
        arith,
        load8-store8 m3 (p.l3 + 5) b 4,
        load8-store8 m2 (p.l3 + 4) b 6,
        load8-store16_ne m1 (p.l3 + 2) (swap_bytes_uint16 0x0800) b,
        load8-store16_ne m p.l3 (swap_bytes_uint16 1) b,
      );
    }

-- A MAC address.
pub record IsMac (xs : List ℕ) : Type 0 where
  pub six : length xs ≡ 6
  pub small : IsBytes xs

module _ {sha d_addr tha : List ℕ} (hs : IsMac sha) (hd : IsMac d_addr) (ht : IsMac tha)
    (m : Memory) (p : Packet) (l3 : p.l3 ≡ p.ether + 14) (op spa tpa : ℕ) where
  -- The memory before the sender's addresses are stored in the ARP header.
  abbrev headed : Memory
  headed =
      store16 (store_bytes (store_bytes m (p.ether + 6) sha) p.ether d_addr) (p.l3 + 6)
        (swap_bytes_uint16 op)

  abbrev spa_stored : Memory
  spa_stored = store_bytes (store_bytes headed (p.l3 + 8) sha) (p.l3 + 14) (ipv4_to_bytes spa)

  -- Below the addresses of the ARP header the last four stores change nothing.
  below : (b : ℕ) → b < p.l3 + 8 → load8 (fill_arp m p op sha d_addr tha spa tpa) b ≡ load8 headed b
  unfolding fill_arp
  below b h =
      keep8 (store_bytes spa_stored (p.l3 + 18) tha) (p.l3 + 24) (ipv4_to_bytes tpa) b
        (inl (omega arith))
      ∙ keep8 spa_stored (p.l3 + 18) tha b (inl (omega arith))
      ∙ keep8 (store_bytes headed (p.l3 + 8) sha) (p.l3 + 14) (ipv4_to_bytes spa) b
          (inl (omega arith))
      ∙ keep8 headed (p.l3 + 8) sha b (inl (omega arith))

  -- Behind the Ethernet addresses, and before the operation, all of them change nothing.
  between :
      (b : ℕ)
      → p.ether + 12 ≤ b
      → b < p.l3 + 6
      → load8 (fill_arp m p op sha d_addr tha spa tpa) b ≡ load8 m b
  between b h k =
      let m1 = store_bytes m (p.ether + 6) sha in
      below b (omega arith)
      ∙ load8-store16_ne (store_bytes m1 p.ether d_addr) (p.l3 + 6) (swap_bytes_uint16 op) b
          (omega arith) (omega arith)
      ∙ keep8 m1 p.ether d_addr b (inr (omega (arith, hd.six)))
      ∙ keep8 m (p.ether + 6) sha b (inr (omega (arith, hs.six)))

  -- The runs of bytes that the stores leave.
  abbrev final : Memory
  final = fill_arp m p op sha d_addr tha spa tpa

  four : (v : ℕ) → length (ipv4_to_bytes v) ≡ 4
  unfolding ipv4_to_bytes
  four v = refl

  destination_at : load_bytes final p.ether 6 ≡ d_addr
  destination_at =
      let m1 = store_bytes m (p.ether + 6) sha in
      let m2 = store_bytes m1 p.ether d_addr in
      load_bytes-same m2 final p.ether 6 (λ b lo hi.
        below b (omega arith)
        ∙ load8-store16_ne m2 (p.l3 + 6) (swap_bytes_uint16 op) b (omega arith) (omega arith))
      ∙ stored_run m1 p.ether 6 d_addr hd.small hd.six

  source_at : load_bytes final (p.ether + 6) 6 ≡ sha
  source_at =
      let m1 = store_bytes m (p.ether + 6) sha in
      let m2 = store_bytes m1 p.ether d_addr in
      load_bytes-same m1 final (p.ether + 6) 6 (λ b lo hi.
        below b (omega arith)
        ∙ load8-store16_ne m2 (p.l3 + 6) (swap_bytes_uint16 op) b (omega arith) (omega arith)
        ∙ keep8 m1 p.ether d_addr b (inr (omega (arith, hd.six))))
      ∙ stored_run m (p.ether + 6) 6 sha hs.small hs.six

  operation_at : op < 2 ^ 16 → be16 final (p.l3 + 6) ≡ op
  operation_at h =
      be16-same headed final (p.l3 + 6) (below (p.l3 + 6) (omega arith))
        (below (p.l3 + 6 + 1) (omega arith))
      ∙ be16-store16 _ (p.l3 + 6) op h

  addresses_at :
      (load_bytes final (p.l3 + 8) 6 ≡ sha)
      × (load_bytes final (p.l3 + 14) 4 ≡ ipv4_to_bytes spa)
      × (load_bytes final (p.l3 + 18) 6 ≡ tha)
      × (load_bytes final (p.l3 + 24) 4 ≡ ipv4_to_bytes tpa)
  unfolding fill_arp
  addresses_at =
      let m4 = store_bytes headed (p.l3 + 8) sha in
      let m6 = store_bytes spa_stored (p.l3 + 18) tha in
      (
        keep_run m6 (p.l3 + 24) (ipv4_to_bytes tpa) (p.l3 + 8) 6 (inl (omega arith))
            ∙ keep_run spa_stored (p.l3 + 18) tha (p.l3 + 8) 6 (inl (omega arith))
            ∙ keep_run m4 (p.l3 + 14) (ipv4_to_bytes spa) (p.l3 + 8) 6 (inl (omega arith))
            ∙ stored_run headed (p.l3 + 8) 6 sha hs.small hs.six,
        keep_run m6 (p.l3 + 24) (ipv4_to_bytes tpa) (p.l3 + 14) 4 (inl (omega arith))
            ∙ keep_run spa_stored (p.l3 + 18) tha (p.l3 + 14) 4 (inl (omega arith))
            ∙ stored_run m4 (p.l3 + 14) 4 (ipv4_to_bytes spa) (ipv4_to_bytes-IsBytes spa)
                (four spa),
        keep_run m6 (p.l3 + 24) (ipv4_to_bytes tpa) (p.l3 + 18) 6 (inl (omega arith))
            ∙ stored_run spa_stored (p.l3 + 18) 6 tha ht.small ht.six,
        stored_run m6 (p.l3 + 24) 4 (ipv4_to_bytes tpa) (ipv4_to_bytes-IsBytes tpa) (four tpa),
      )

-- The whole frame, from the memory before `initARPCommonData`.
module _ {sha d_addr tha : List ℕ} (hs : IsMac sha) (hd : IsMac d_addr) (ht : IsMac tha)
    (m : Memory) (op spa tpa : ℕ) (narrow : op < 2 ^ 16) where
  pub fill_arp-IsArp :
      (p q : Packet)
      → q.l3 ≡ p.l2 + 14
      → q.ether ≡ p.l2
      → p.ether ≡ p.l2
      → IsArp p.l2 op d_addr sha tha spa tpa
          (fill_arp (fill_arp_common (set_ether_type m p 0x0806) q) q op sha d_addr tha spa tpa)
  unfolding set_ether_type
  fill_arp-IsArp p q l3 there here =
      let m1 = store16 m (p.ether + 12) (swap_bytes_uint16 0x0806) in
      let m2 = fill_arp_common m1 q in
      let at : q.l3 ≡ q.ether + 14 = omega arith in
      let last = fill_arp m2 q op sha d_addr tha spa tpa in
      let c = fill_arp_common-IsCommon m1 q in
      let keep : (b : ℕ) → q.ether + 12 ≤ b → b < q.l3 + 6 → load8 last b ≡ load8 m2 b =
        between hs hd ht m2 q at op spa tpa in
      let runs = addresses_at hs hd ht m2 q at op spa tpa in
      record {
        destination = rw (← there) (destination_at hs hd ht m2 q at op spa tpa);
        source = rw (← there) (source_at hs hd ht m2 q at op spa tpa);
        ether_type =
            be16-same m1 last (p.l2 + 12)
              (keep (p.l2 + 12) (omega arith) (omega arith) ∙ c.before (p.l2 + 12) (omega arith))
              (keep (p.l2 + 12 + 1) (omega arith) (omega arith)
                ∙ c.before (p.l2 + 12 + 1) (omega arith))
            ∙ rw (← here) (be16-store16 m (p.ether + 12) 0x0806 (omega arith));
        h_type = rw (← l3) (
            be16-same m2 last q.l3 (keep q.l3 (omega arith) (omega arith))
              (keep (q.l3 + 1) (omega arith) (omega arith))
            ∙ c.h_type);
        p_type = rw (← l3) (
            be16-same m2 last (q.l3 + 2) (keep (q.l3 + 2) (omega arith) (omega arith))
              (keep (q.l3 + 2 + 1) (omega arith) (omega arith))
            ∙ c.p_type);
        h_len = rw (← l3) (keep (q.l3 + 4) (omega arith) (omega arith) ∙ c.h_len);
        p_len = rw (← l3) (keep (q.l3 + 5) (omega arith) (omega arith) ∙ c.p_len);
        op = rw (← l3) (operation_at hs hd ht m2 q at op spa tpa narrow);
        sender_mac = rw (← l3) runs.0;
        sender_ip = rw (← l3) runs.1;
        target_mac = rw (← l3) runs.2;
        target_ip = rw (← l3) runs.3;
      }
