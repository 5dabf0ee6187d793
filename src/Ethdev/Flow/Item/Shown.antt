-- ===== src/Ethdev/Flow/Item/Shown.antt =====
-- What the C structure of an item says, in the terms of the item.
use go_dpdk.Base.{
  ℕ, zero, suc, ◌+◌, ◌*◌, ◌%◌, ◌^◌, ◌≡◌, refl, ap, arith, Bool, true, List, [], ◌∷◌, ◌++◌, length,
  take, drop, ltb, if◌then◌else◌,
}
use go_dpdk.Ethdev.Flow.Item.{
  GoItem, item_type, item_eth, item_vlan, item_ipv4, item_udp, item_tcp, item_ipv6, item_vxlan,
  item_vxlan2, is_type, Struct, c_eth, c_vlan, c_ipv4, c_udp, c_tcp, c_ipv6, c_vxlan, set_addr,
  set_some_addr, written, be16, eth_in, eth_written, vlan_written, cvt_ipv4_header, cvt_udp_header,
  cvt_tcp_header, cvt_ipv6_header, vxlan_written, vxlan2_written,
}

-- The number that bytes are on the wire, the highest first, and the lowest first.
unfoldable pub wire_value : ℕ → List ℕ → ℕ
wire_value acc [] = acc
wire_value acc (b ∷ bs) = wire_value (acc * 256 + b) bs

unfoldable pub reversed_value : List ℕ → ℕ
reversed_value [] = 0
reversed_value (b ∷ bs) = reversed_value bs * 256 + b

-- A field of two bytes says a number.
abbrev pub Says : List ℕ → ℕ → Type 0
Says bytes n = wire_value 0 bytes ≡ n % 2 ^ 16

abbrev pub flag : Bool → ℕ
flag b = if b then 1 else 0

-- An address of six bytes is in the structure; of another length nothing is said.
abbrev pub ShownBy : GoItem → Struct → Type 0
ShownBy (item_type n) st = Unit
ShownBy (item_eth item) (c_eth c) =
    (c.has_vlan ≡ flag item.has_vlan)
    × Says c.ether_type item.ether_type
    × (length item.src ≡ 6 → c.src_addr ≡ item.src)
    × (length item.dst ≡ 6 → c.dst_addr ≡ item.dst)
ShownBy (item_vlan item) (c_vlan c) =
    (c.has_more_vlan ≡ flag item.has_more_vlan)
    × Says c.vlan_tci item.tci
    × Says c.eth_proto item.inner_type
ShownBy (item_ipv4 src) (c_ipv4 c) =
    (c.version_ihl ≡ src.version_ihl)
    × (c.type_of_service ≡ src.tos)
    × Says c.total_length src.total_length
    × Says c.packet_id src.id
    × Says c.fragment_offset src.fragment_offset
    × (c.time_to_live ≡ src.ttl)
    × (c.next_proto_id ≡ src.proto)
    × Says c.hdr_checksum src.checksum
    × (c.src_addr ≡ src.src_addr)
    × (c.dst_addr ≡ src.dst_addr)
ShownBy (item_udp src) (c_udp c) =
    Says c.src_port src.src_port
    × Says c.dst_port src.dst_port
    × Says c.dgram_len src.length
    × Says c.dgram_cksum src.checksum
ShownBy (item_tcp src) (c_tcp c) =
    Says c.src_port src.src_port × Says c.dst_port src.dst_port × Says c.cksum src.cksum
ShownBy (item_ipv6 src) (c_ipv6 c) =
    (c.proto ≡ src.proto) × (c.src_addr ≡ src.src_addr) × (c.dst_addr ≡ src.dst_addr)
ShownBy (item_vxlan vni) (c_vxlan bytes) = reversed_value bytes ≡ vni % 2 ^ 24
ShownBy (item_vxlan2 vni) (c_vxlan bytes) = wire_value 0 bytes ≡ vni % 2 ^ 24
ShownBy _ _ = ⊥

says : (n : ℕ) → Says (be16 n) n
unfolding wire_value
says n = omega arith

take_whole : (n : ℕ) (xs ys : List ℕ) → length xs ≡ n → take n (xs ++ ys) ≡ xs
take_whole zero [] ys e = refl
take_whole zero (x ∷ xs) ys e = absurd (omega (arith, e))
take_whole (suc n) [] ys e = absurd (omega (arith, e))
take_whole (suc n) (x ∷ xs) ys e = ap (λ l. x ∷ l) (take_whole n xs ys (omega (arith, e)))

all_six : (addr old : List ℕ) → length addr ≡ 6 → set_some_addr addr old ≡ addr
unfolding set_some_addr set_addr
all_six addr old e =
    let some_bytes : ltb 0 (length addr) ≡ true = ground (arith, e) in
    rw some_bytes (take_whole 6 addr (drop (length addr) old) e)

pub written-ShownBy : (item : GoItem) (st : Struct) → ShownBy item (written item st)
unfolding written wire_value reversed_value eth_written vlan_written cvt_ipv4_header cvt_udp_header
    cvt_tcp_header cvt_ipv6_header vxlan_written vxlan2_written
written-ShownBy (item_type n) st = tt
written-ShownBy (item_eth item) st = (
  refl,
  says item.ether_type,
  all_six item.src (eth_in st).src_addr,
  all_six item.dst (eth_in st).dst_addr,
)
written-ShownBy (item_vlan item) st = (refl, says item.tci, says item.inner_type)
written-ShownBy (item_ipv4 src) st = (
  refl,
  refl,
  says src.total_length,
  says src.id,
  says src.fragment_offset,
  refl,
  refl,
  says src.checksum,
  refl,
  refl,
)
written-ShownBy (item_udp src) st =
    (says src.src_port, says src.dst_port, says src.length, says src.checksum)
written-ShownBy (item_tcp src) st = (says src.src_port, says src.dst_port, says src.cksum)
written-ShownBy (item_ipv6 src) st = (refl, refl, refl)
written-ShownBy (item_vxlan vni) st = omega arith
written-ShownBy (item_vxlan2 vni) st = omega arith

pub type_shown : (item : GoItem) (st : Struct) → is_type item ≡ true → ShownBy item st
type_shown (item_type n) st h = tt
type_shown (item_eth item) st h = absurd cc
type_shown (item_vlan item) st h = absurd cc
type_shown (item_ipv4 item) st h = absurd cc
type_shown (item_udp item) st h = absurd cc
type_shown (item_tcp item) st h = absurd cc
type_shown (item_ipv6 item) st h = absurd cc
type_shown (item_vxlan vni) st h = absurd cc
type_shown (item_vxlan2 vni) st h = absurd cc
