-- ===== src/Ethdev/Flow/Item/Tests.antt =====
-- A pattern of an Ethernet frame with a tag, of UDP with a mask, and of any packet.
use go_dpdk.Base.{ℕ, ◌≡◌, refl, arith, true, none, some, List, [], ◌∷◌, map, ◌==◌, if◌then◌else◌}
use go_dpdk.Common.Allocator.Counter.{Counter, live, counter, counter-IsAllocator, counter_filled}
use go_dpdk.Ethdev.Flow.Pattern.{Item, c_pattern, c_item, c_part}
use go_dpdk.Ethdev.Flow.Pattern.Read.{items_until_end, item_of, AllShow, NoEnd}
use go_dpdk.Ethdev.Flow.Item.{
  GoItem, item_type, item_eth, item_udp, zeros, Store, ItemTypes, items, create_or_ret,
  reload_fields, type_in,
}
use go_dpdk.Ethdev.Flow.Item.Kept.{IsGood, Shows}
use go_dpdk.Ethdev.Flow.Item.Read.{c_pattern-items}

abbrev types : ItemTypes
types = record { eth = 9; vlan = 10; ipv4 = 11; ipv6 = 12; udp = 14; tcp = 15; vxlan = 17 }

abbrev eth : GoItem
eth =
    item_eth
      (record { has_vlan = true; src = []; dst = 2 ∷ 0 ∷ 0 ∷ 0 ∷ 0 ∷ 1 ∷ []; ether_type = 2048 })

abbrev udp_to : ℕ → GoItem
udp_to port = item_udp (record { src_port = 0; dst_port = port; length = 0; checksum = 0 })

abbrev go : ℕ → GoItem
go i =
    if i == 0
    then eth
    else if i == 1
    then udp_to 53
    else if i == 2
    then udp_to 65535
    else item_type 3

abbrev sizes : GoItem → ℕ
sizes item = 16

abbrev start : Store Counter
start = record { heap = (1, λ x. true); cptr = λ i. 0; structs = λ p. zeros }

abbrev pattern : List (Item ℕ)
pattern =
    record { spec = 0; last = none; mask = none }
    ∷ record { spec = 1; last = none; mask = some 2 }
    ∷ record { spec = 3; last = none; mask = none }
    ∷ []

read_run :
    items_until_end (c_pattern (items counter sizes types go) start pattern).1
    ≡ record { type = 9; spec = 2; last = 0; mask = 0 }
      ∷ record { type = 14; spec = 3; last = 0; mask = 4 }
      ∷ record { type = 3; spec = 0; last = 0; mask = 0 }
      ∷ []
unfolding items_until_end c_pattern c_item c_part create_or_ret reload_fields type_in
read_run = refl

start-IsGood : IsGood counter live sizes start
start-IsGood = record { alive = λ i h. absurd (h refl); apart = λ i j h e. absurd (h refl) }

ends_not : NoEnd (items counter sizes types go) pattern
unfolding type_in
ends_not = (λ e. omega (arith, e), (λ e. omega (arith, e), (λ e. omega (arith, e), tt)))

c_pattern-items_example :
    (items_until_end (c_pattern (items counter sizes types go) start pattern).1
      ≡ map
          (item_of
            (items counter sizes types go)
            (c_pattern (items counter sizes types go) start pattern).0)
          pattern)
    × AllShow
        (Shows counter live sizes go)
        (c_pattern (items counter sizes types go) start pattern).0
        pattern
c_pattern-items_example =
    c_pattern-items counter live sizes types go start pattern counter-IsAllocator counter_filled
      start-IsGood ends_not
