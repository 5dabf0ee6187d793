-- ===== src/Ethdev/Flow/Item/Read.antt =====
-- cPattern on the items of the package.
use go_dpdk.Base.{ℕ, ◌≡◌, ◌≢◌, Bool, List, map}
use go_dpdk.Common.Allocator.{Ops}
use go_dpdk.Common.Allocator.Session.{IsAllocator}
use go_dpdk.Ethdev.Flow.Pattern.{Item, c_pattern}
use go_dpdk.Ethdev.Flow.Pattern.Read.{items_until_end, item_of, AllShow, NoEnd, c_pattern_lem}
use go_dpdk.Ethdev.Flow.Item.{GoItem, Store, ItemTypes, items}
use go_dpdk.Ethdev.Flow.Item.Kept.{IsGood, Shows, items-IsItems}

module _ {S : Type 0} (ops : Ops S) (live : S → ℕ → Bool) (sizeof : GoItem → ℕ) where
  -- With an allocator that behaves as documented and does not fail, where the blocks of the items
  -- are live and no two items share one, and no Spec is of the type END: the C library reads in the array
  -- of cPattern one element for each item, in order, with the type of its Spec, and with the
  -- pointers of its Spec, Last and Mask, nil where there is none, as they are after cPattern; and
  -- at each of these pointers that is not that of an ItemType there is a block that says what the
  -- fields of the item do: two-byte fields in network order, and addresses of Ethernet that have six
  -- bytes; of a TCP header the ports and the checksum, of an IPv6 header the protocol and the
  -- addresses, and the number of ItemVXLAN lowest byte first, that of ItemVXLAN2 highest byte first.
  pub c_pattern-items :
      (types : ItemTypes) (go : ℕ → GoItem) (s : Store S) (pattern : List (Item ℕ))
      → IsAllocator ops live
      → ((s : S) (size : ℕ) → (ops.malloc s size).1 ≢ 0)
      → IsGood ops live sizeof s
      → NoEnd (items ops sizeof types go) pattern
      → (items_until_end (c_pattern (items ops sizeof types go) s pattern).1
          ≡ map
              (item_of
                (items ops sizeof types go)
                (c_pattern (items ops sizeof types go) s pattern).0)
              pattern)
        × AllShow
            (Shows ops live sizeof go)
            (c_pattern (items ops sizeof types go) s pattern).0
            pattern
  c_pattern-items types go s pattern a filled good no_end =
      c_pattern_lem (items ops sizeof types go) (IsGood ops live sizeof) (Shows ops live sizeof go)
        (items-IsItems ops live sizeof a filled types go) s pattern good no_end
