-- ===== src/Sniffer/Answer/ArpSteps.antt =====
-- The memory after each step of the answer to an ARP request, and what is left of the frame.
use go_dpdk.Base.{
  ℕ, ◌+◌, ◌≡◌, ◌≢◌, refl, sym, ◌∙◌, arith, true, false, List, [], ◌∷◌, ◌++◌, take, drop, ◌==◌,
  ◌>>>◌,
}
use go_dpdk.Memory.{
  Memory, load8, store16, load_bytes, store_bytes, Stores, stores, IsApart, load8-stores,
  load_bytes-stores, stored_run, load_bytes-IsBytes,
}
use go_dpdk.Packet.Swap.{be16, swap_bytes_uint16, be16-store16}
use go_dpdk.Packet.Parse.{Packet, nil, get_arp, get_ether}
use go_dpdk.Packet.Parse.Wire.{swapped_test}
use go_dpdk.Sniffer.Answer.{
  sent, dropped, own_mac, swap_runs, answer_arp, answer_inner, answer_outer, answer,
}
use go_dpdk.Sniffer.Answer.Sums.{be16-stores}

-- The frame as the request leaves it, after the hardware addresses of the frame are swapped.
module _ (m : Memory) (s : ℕ) where
  abbrev pub swapped : Memory
  swapped = swap_runs m (s + 6) s 6

  abbrev turned : Stores
  turned = (s, load_bytes m (s + 6) 6) ∷ (s + 6, load_bytes m s 6) ∷ []

  abbrev pub a : ℕ
  a = s + 14

  -- The memories after the stores of the answer, in their order.
  abbrev m3 : Memory
  m3 = store16 swapped (a + 6) (swap_bytes_uint16 2)

  abbrev m4 : Memory
  m4 = store_bytes m3 (a + 8) own_mac

  abbrev m5 : Memory
  m5 = store_bytes m4 (s + 6) (load_bytes m4 (a + 8) 6)

  abbrev m6 : Memory
  m6 = store_bytes m5 (a + 18) (load_bytes m3 (a + 8) 6)

  abbrev pub last : Memory
  last = swap_runs m6 (a + 14) (a + 24) 4

  abbrev word : List ℕ
  word = swap_bytes_uint16 2 ∷ swap_bytes_uint16 2 >>> 8 ∷ []

  -- The runs stored from `m3` on, from `swapped` on, and all of them.
  abbrev late : Stores
  late =
      (a + 24, load_bytes m6 (a + 14) 4)
      ∷ (a + 14, load_bytes m6 (a + 24) 4)
      ∷ (a + 18, load_bytes m3 (a + 8) 6)
      ∷ (s + 6, load_bytes m4 (a + 8) 6)
      ∷ (a + 8, own_mac)
      ∷ []

  abbrev later : Stores
  later = late ++ ((a + 6, word) ∷ [])

  abbrev all : Stores
  all = later ++ ((s, load_bytes m (s + 6) 6) ∷ (s + 6, load_bytes m s 6) ∷ [])

  last-stores : (last ≡ stores m all) × (last ≡ stores swapped later) × (last ≡ stores m3 late)
  unfolding store16 store_bytes
  last-stores = (refl, refl, refl)

  kept16 : (b : ℕ) → IsApart b 2 all → be16 last b ≡ be16 m b
  kept16 b h = rw last-stores.0 (be16-stores m b all h)

  kept8 : (b : ℕ) → IsApart b 1 all → load8 last b ≡ load8 m b
  kept8 b h = rw last-stores.0 (load8-stores m b all h)

  -- The type fields are not touched.
  pub types_at :
      (be16 last (s + 12) ≡ be16 m (s + 12))
      × (be16 last a ≡ be16 m a)
      × (be16 last (a + 2) ≡ be16 m (a + 2))
      × (load8 last (a + 4) ≡ load8 m (a + 4))
      × (load8 last (a + 5) ≡ load8 m (a + 5))
  unfolding load_bytes
  types_at = (
    kept16 (s + 12) (omega arith),
    kept16 a (omega arith),
    kept16 (a + 2) (omega arith),
    kept8 (a + 4) (omega arith),
    kept8 (a + 5) (omega arith),
  )

  -- The frame goes back, from the program's own address.
  pub ethernet_at :
      (load_bytes last s 6 ≡ load_bytes m (s + 6) 6) × (load_bytes last (s + 6) 6 ≡ own_mac)
  unfolding load_bytes
  ethernet_at =
      let m1 = store_bytes m (s + 6) (load_bytes m s 6) in
      let front : Stores = take 3 late in
      (
        rw last-stores.1 (load_bytes-stores swapped s 6 later (omega arith))
            ∙ stored_run m1 s 6 (load_bytes m (s + 6) 6) (load_bytes-IsBytes m (s + 6) 6) refl,
        load_bytes-stores m5 (s + 6) 6 front (omega arith)
            ∙ stored_run m4 (s + 6) 6 (load_bytes m4 (a + 8) 6) (load_bytes-IsBytes m4 (a + 8) 6)
                refl
            ∙ stored_run m3 (a + 8) 6 own_mac (ground arith) refl,
      )

  pub operation_at : be16 last (a + 6) ≡ 2
  unfolding load_bytes
  operation_at =
      rw last-stores.2 (be16-stores m3 (a + 6) late (omega arith))
      ∙ be16-store16 swapped (a + 6) 2 (omega arith)

  -- Both hosts' addresses change places, and the sender's hardware address is the program's own.
  pub addresses_at :
      (load_bytes last (a + 8) 6 ≡ own_mac)
      × (load_bytes last (a + 14) 4 ≡ load_bytes m (a + 24) 4)
      × (load_bytes last (a + 18) 6 ≡ load_bytes m (a + 8) 6)
      × (load_bytes last (a + 24) 4 ≡ load_bytes m (a + 14) 4)
  unfolding load_bytes
  addresses_at =
      let m7 = store_bytes m6 (a + 14) (load_bytes m6 (a + 24) 4) in
      let early : Stores = drop 2 all in
      let before : Stores = drop 5 all in
      let same : stores m early ≡ m6 = unfold store16 store_bytes in refl in
      let same3 : stores m before ≡ m3 = unfold store16 store_bytes in refl in
      (
        load_bytes-stores m4 (a + 8) 6 (take 4 late) (omega arith)
            ∙ stored_run m3 (a + 8) 6 own_mac (ground arith) refl,
        load_bytes-stores m7 (a + 14) 4 (take 1 late) (omega arith)
            ∙ stored_run m6 (a + 14) 4 (load_bytes m6 (a + 24) 4) (load_bytes-IsBytes m6 (a + 24) 4)
                refl
            ∙ rw (← same) (load_bytes-stores m (a + 24) 4 early (omega arith)),
        load_bytes-stores m6 (a + 18) 6 (take 2 late) (omega arith)
            ∙ stored_run m5 (a + 18) 6 (load_bytes m3 (a + 8) 6) (load_bytes-IsBytes m3 (a + 8) 6)
                refl
            ∙ rw (← same3) (load_bytes-stores m (a + 8) 6 before (omega arith)),
        stored_run m7 (a + 24) 4 (load_bytes m6 (a + 14) 4) (load_bytes-IsBytes m6 (a + 14) 4) refl
            ∙ rw (← same) (load_bytes-stores m (a + 14) 4 early (omega arith)),
      )

  swapped-be16 :
      (be16 swapped (s + 12) ≡ be16 m (s + 12)) × (be16 swapped (s + 14 + 6) ≡ be16 m (s + 14 + 6))
  unfolding load_bytes
  swapped-be16 =
      (be16-stores m (s + 12) turned (omega arith), be16-stores m (s + 14 + 6) turned (omega arith))

  -- At the swapped frame the answer's tests succeed.
  pub answer_arp-run :
      (p : Packet)
      → p.l2 ≡ s
      → p.l3 ≡ s + 14
      → p.overlay ≡ false
      → be16 m (s + 12) ≡ 0x0806
      → be16 m (s + 14 + 6) ≡ 1
      → answer m p ≡ sent last p
  unfolding answer answer_inner answer_outer answer_arp get_ether get_arp
  answer_arp-run p l2 l3 plain type op =
      let w : be16 swapped (s + 12) ≡ 0x0806 = swapped-be16.0 ∙ type in
      let o : be16 swapped (s + 14 + 6) ≡ 1 = swapped-be16.1 ∙ op in
      let is_arp : (be16 swapped (s + 12) == 0x0806) ≡ true = ground arith in
      let asks : (be16 swapped (s + 14 + 6) == 1) ≡ true = ground arith in
      let nonzero : (s + 14 == nil) ≡ false = ground arith in
      rw
        (
          l2,
          swapped_test swapped (s + 12) 0x0806 (omega arith),
          is_arp,
          l3,
          swapped_test swapped (s + 14 + 6) 1 (omega arith),
          asks,
          plain,
        )
        refl

  pub answer_arp-drop :
      (p : Packet)
      → p.l2 ≡ s
      → p.l3 ≡ s + 14
      → be16 m (s + 12) ≡ 0x0806
      → be16 m (s + 14 + 6) ≢ 1
      → answer m p ≡ dropped swapped p
  unfolding answer answer_inner answer_outer answer_arp get_ether get_arp
  answer_arp-drop p l2 l3 type op =
      let w : be16 swapped (s + 12) ≡ 0x0806 = swapped-be16.0 ∙ type in
      let o : be16 swapped (s + 14 + 6) ≢ 1 = λ e. op (sym swapped-be16.1 ∙ e) in
      let is_arp : (be16 swapped (s + 12) == 0x0806) ≡ true = ground arith in
      let other : (be16 swapped (s + 14 + 6) == 1) ≡ false = ground arith in
      rw
        (
          l2,
          swapped_test swapped (s + 12) 0x0806 (omega arith),
          is_arp,
          l3,
          swapped_test swapped (s + 14 + 6) 1 (omega arith),
          other,
        )
        refl
