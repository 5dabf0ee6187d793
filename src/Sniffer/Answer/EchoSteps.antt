-- ===== src/Sniffer/Answer/EchoSteps.antt =====
-- The memory after each step of the answer to an echo request, and what is left of the frame.
use go_dpdk.Base.{
  ℕ, ◌+◌, ◌-◌, ◌^◌, ◌≤◌, ◌<◌, ◌≡◌, refl, ◌∙◌, arith, true, false, List, [], ◌∷◌, ◌++◌, take, ◌==◌,
  ◌>>>◌,
}
use go_dpdk.Memory.{
  Memory, load8, load32, store8, store16, store32, load_bytes, store_bytes, Stores, stores,
  load8-stores, load_bytes-stores, length-load_bytes, stored_run, load_bytes-IsBytes, load8-store8,
}
use go_dpdk.Packet.Swap.{be16, swap_bytes_uint16, be16-store16}
use go_dpdk.Packet.Header.{ipv4_at, icmp_at}
use go_dpdk.Packet.Parse.{Packet, get_ether, get_ipv4, get_for_ipv4}
use go_dpdk.Packet.Parse.Wire.{swapped_test}
use go_dpdk.Packet.Checksum.{reduce_checksum, calculate_ipv4_checksum, calculate_ipv4_icmp_checksum}
use go_dpdk.Packet.Checksum.Words.{byte_sum}
use go_dpdk.Packet.Checksum.Parts.{icmp_words}
use go_dpdk.Packet.Checksum.Ipv4.{with_checksum}
use go_dpdk.Packet.Checksum.Transport.{icmp_checksum_accepted}
use go_dpdk.Sniffer.Answer.{sent, swap_runs, answer_ipv4, answer_inner, answer_outer, answer}
use go_dpdk.Sniffer.Answer.Sums.{be16-stores}
use go_dpdk.Sniffer.Answer.Sums.{byte_sum-stores, load_bytes-copy32}

-- The frame at `s`, its IPv4 header at `a` and its ICMP header at `i`.
module _ (m : Memory) (s i : ℕ) where
  abbrev pub a : ℕ
  a = s + 14

  -- The memories after the stores of the answer, in their order.
  abbrev m1 : Memory
  m1 = swap_runs m (s + 6) s 6

  abbrev m2 : Memory
  m2 = store32 m1 (a + 12) (load32 m1 (a + 16))

  abbrev m3 : Memory
  m3 = store32 m2 (a + 16) (load32 m1 (a + 12))

  abbrev m4 : Memory
  m4 = store8 m3 i 0

  abbrev sum : ℕ
  sum = calculate_ipv4_icmp_checksum m4 (ipv4_at m4 a) (icmp_at m4 i) (i + 8)

  abbrev pub m5 : Memory
  m5 = store16 m4 (i + 2) (swap_bytes_uint16 sum)

  abbrev pub last : Memory
  last = with_checksum m5 a

  -- The runs stored after `m4`, after `m3`, and all.
  abbrev word : ℕ → List ℕ
  word v = v ∷ v >>> 8 ∷ []

  abbrev header_word : List ℕ
  header_word = word (swap_bytes_uint16 (calculate_ipv4_checksum (ipv4_at m5 a)))

  abbrev late : Stores
  late = (a + 10, header_word) ∷ (i + 2, word (swap_bytes_uint16 sum)) ∷ []

  abbrev ips : Stores
  ips =
      (a + 16 + 2, word (load32 m1 (a + 12) >>> 16))
      ∷ (a + 16, word (load32 m1 (a + 12)))
      ∷ (a + 12 + 2, word (load32 m1 (a + 16) >>> 16))
      ∷ (a + 12, word (load32 m1 (a + 16)))
      ∷ []

  abbrev macs : Stores
  macs = (s, load_bytes m (s + 6) 6) ∷ (s + 6, load_bytes m s 6) ∷ []

  abbrev all : Stores
  all = late ++ ((i, 0 ∷ []) ∷ (ips ++ macs))

  sum-lt : sum < 2 ^ 16
  unfolding calculate_ipv4_icmp_checksum
  sum-lt = omega arith

  abbrev typed : Stores
  typed = late ++ ((i, 0 ∷ []) ∷ [])

  last-stores :
      (last ≡ stores m all)
      × (last ≡ stores (store_bytes m (s + 6) (load_bytes m s 6)) (typed ++ (ips ++ take 1 macs)))
      × (last ≡ stores m1 (typed ++ ips))
      × (last ≡ stores m2 (typed ++ take 2 ips))
      × (last ≡ stores m3 typed)
      × (last ≡ stores m4 late)
      × (m4 ≡ stores m ((i, 0 ∷ []) ∷ (ips ++ macs)))
      × (last ≡ stores m5 (take 1 late))
  unfolding store16 store32 store_bytes
  last-stores = (refl, refl, refl, refl, refl, refl, refl, refl)

  module _ (far : a + 20 ≤ i) where
    -- The two hosts' addresses change places.
    pub addresses_at :
        (load_bytes last s 6 ≡ load_bytes m (s + 6) 6)
        × (load_bytes last (s + 6) 6 ≡ load_bytes m s 6)
        × (load_bytes last (a + 12) 4 ≡ load_bytes m (a + 16) 4)
        × (load_bytes last (a + 16) 4 ≡ load_bytes m (a + 12) 4)
    unfolding load_bytes
    addresses_at =
        let m0 = store_bytes m (s + 6) (load_bytes m s 6) in
        (
          rw last-stores.2 (load_bytes-stores m1 s 6 (typed ++ ips) (omega arith))
              ∙ stored_run m0 s 6 (load_bytes m (s + 6) 6) (load_bytes-IsBytes m (s + 6) 6) refl,
          rw last-stores.1
                (load_bytes-stores m0 (s + 6) 6 (typed ++ (ips ++ take 1 macs)) (omega arith))
              ∙ stored_run m (s + 6) 6 (load_bytes m s 6) (load_bytes-IsBytes m s 6) refl,
          rw last-stores.3 (load_bytes-stores m2 (a + 12) 4 (typed ++ take 2 ips) (omega arith))
              ∙ load_bytes-copy32 m1 m1 (a + 12) (a + 16)
              ∙ load_bytes-stores m (a + 16) 4 macs (omega arith),
          rw last-stores.4 (load_bytes-stores m3 (a + 16) 4 typed (omega arith))
              ∙ load_bytes-copy32 m2 m1 (a + 16) (a + 12)
              ∙ load_bytes-stores m (a + 12) 4 macs (omega arith),
        )

    -- The fields that a reply repeats, and the type of the message.
    pub fields_at :
        (be16 last (s + 12) ≡ be16 m (s + 12))
        × (be16 last (a + 2) ≡ be16 m (a + 2))
        × (load8 last (a + 9) ≡ load8 m (a + 9))
        × (load8 last i ≡ 0)
        × (be16 last (i + 4) ≡ be16 m (i + 4))
        × (be16 last (i + 6) ≡ be16 m (i + 6))
    unfolding load_bytes
    fields_at =
        let type : load8 m4 i ≡ 0 = ground (arith, load8-store8 m3 i i 0) in
        let kept : load8 last i ≡ load8 m4 i =
          rw last-stores.5 (load8-stores m4 i late (omega arith)) in
        (
          rw last-stores.0 (be16-stores m (s + 12) all (omega arith)),
          rw last-stores.0 (be16-stores m (a + 2) all (omega arith)),
          rw last-stores.0 (load8-stores m (a + 9) all (omega arith)),
          kept ∙ type,
          rw last-stores.0 (be16-stores m (i + 4) all (omega arith)),
          rw last-stores.0 (be16-stores m (i + 6) all (omega arith)),
        )

    pub first_at : load8 last a ≡ load8 m a
    unfolding load_bytes
    first_at = rw last-stores.0 (load8-stores m a all (omega arith))

    pub data_at : (n : ℕ) → load_bytes last (i + 8) n ≡ load_bytes m (i + 8) n
    data_at n = rw last-stores.0 (
        load_bytes-stores m (i + 8) n all
          (omega (arith, length-load_bytes m (s + 6) 6, length-load_bytes m s 6)))

    total_at : be16 m4 (a + 2) ≡ be16 m (a + 2)
    unfolding load_bytes
    total_at = rw last-stores.6 (be16-stores m (a + 2) ((i, 0 ∷ []) ∷ (ips ++ macs)) (omega arith))

    -- The checksum of the message is right where it is stored.
    pub checksum_at :
        i + 8 < 2 ^ 64
        → 28 ≤ be16 m (a + 2)
        → reduce_checksum
            (icmp_words last i + byte_sum last (i + 8) (be16 m (a + 2) - 28) + be16 last (i + 2))
          ≡ 0xffff
    checksum_at low enough =
        let n = be16 m (a + 2) - 28 in
        let kept : be16 last (i + 2) ≡ be16 m5 (i + 2) =
          rw last-stores.7 (be16-stores m5 (i + 2) (take 1 late) (omega arith)) in
        let stored : be16 last (i + 2) ≡ sum = kept ∙ be16-store16 m4 (i + 2) sum sum-lt in
        let words : icmp_words last i ≡ icmp_words m4 i = rw last-stores.5 (
          omega (
            arith,
            be16-stores m4 i late (omega arith),
            be16-stores m4 (i + 4) late (omega arith),
            be16-stores m4 (i + 6) late (omega arith),
          )) in
        let bytes : byte_sum last (i + 8) n ≡ byte_sum m4 (i + 8) n =
          rw last-stores.5 (byte_sum-stores m4 (i + 8) n late (omega arith)) in
        rw (stored, words, bytes, ← total_at)
          (icmp_checksum_accepted m4 a i (i + 8) low (omega (arith, total_at)))

    -- What the answer's tests see.
    seen :
        (be16 m1 (s + 12) ≡ be16 m (s + 12))
        × (load8 m3 (a + 9) ≡ load8 m (a + 9))
        × (load8 m3 i ≡ load8 m i)
        × (be16 m3 (s + 12) ≡ be16 m (s + 12))
    unfolding load_bytes store32 store16 store_bytes
    seen = (
      be16-stores m (s + 12) macs (omega arith),
      load8-stores m (a + 9) (ips ++ macs) (omega arith),
      load8-stores m i (ips ++ macs) (omega arith),
      be16-stores m (s + 12) (ips ++ macs) (omega arith),
    )

    pub answer_ipv4-run :
        (p : Packet)
        → p.l2 ≡ s
        → p.l3 ≡ a
        → p.l4 ≡ i
        → p.payload ≡ i + 8
        → p.overlay ≡ false
        → be16 m (s + 12) ≡ 0x0800
        → load8 m (a + 9) ≡ 1
        → load8 m i ≡ 8
        → answer m p ≡ sent last p
    unfolding answer answer_inner answer_outer answer_ipv4 get_ether get_ipv4 get_for_ipv4
    answer_ipv4-run p l2 l3 l4 at plain type proto echo =
        let is_arp : (be16 m1 (s + 12) == 0x0806) ≡ false = ground (arith, seen) in
        let is_ipv4 : (be16 m1 (s + 12) == 0x0800) ≡ true = ground (arith, seen) in
        let icmp : (load8 m3 (a + 9) == 1) ≡ true = ground (arith, seen) in
        let asks : (load8 m3 i == 8) ≡ true = ground (arith, seen) in
        rw
          (
            l2,
            swapped_test m1 (s + 12) 0x0806 (omega arith),
            is_arp,
            swapped_test m1 (s + 12) 0x0800 (omega arith),
            is_ipv4,
            l3,
            icmp,
            l4,
            asks,
            at,
            plain,
          )
          refl
