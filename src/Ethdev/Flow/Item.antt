-- ===== src/Ethdev/Flow/Item.antt =====
-- The items of ethdev/flow: item.go, item_eth.go, item_vlan.go, item_ipv4.go, item_udp.go,
-- item_tcp.go, item_ipv6.go, item_vxlan.go, item_vxlan2.go, and the pointer that they share (utils.go). The allocator of C is a parameter, and
-- so are the sizes and the numbers of the types.
pub mod Shown
pub mod Kept
pub mod Read
mod Tests
use go_dpdk.Base.{
  put, ℕ, ◌>>>◌, u8, Bool, true, false, ltb, List, [], ◌∷◌, ◌++◌, length, take, drop, ◌==◌,
  if◌then◌else◌,
}
use go_dpdk.Common.Allocator.{Ops}
use go_dpdk.Common.Raw.{bytes16, bytes32, big_endian, little_endian}
use go_dpdk.Ethdev.Flow.Pattern.{ItemOps}

-- The exported fields of the items. An address is the list of its bytes.
pub record ItemEth : Type 0 where
  pub has_vlan : Bool
  pub src : List ℕ
  pub dst : List ℕ
  pub ether_type : ℕ

pub record ItemVlan : Type 0 where
  pub has_more_vlan : Bool
  pub tci : ℕ
  pub inner_type : ℕ

pub record Ipv4Header : Type 0 where
  pub version_ihl : ℕ
  pub tos : ℕ
  pub total_length : ℕ
  pub id : ℕ
  pub fragment_offset : ℕ
  pub ttl : ℕ
  pub proto : ℕ
  pub checksum : ℕ
  pub src_addr : List ℕ
  pub dst_addr : List ℕ

pub record Ipv6Header : Type 0 where
  pub vtc_flow : ℕ
  pub payload_length : ℕ
  pub proto : ℕ
  pub hop_limits : ℕ
  pub src_addr : List ℕ
  pub dst_addr : List ℕ

pub record UdpHeader : Type 0 where
  pub src_port : ℕ
  pub dst_port : ℕ
  pub length : ℕ
  pub checksum : ℕ

pub record TcpHdr : Type 0 where
  pub src_port : ℕ
  pub dst_port : ℕ
  pub sent_seq : ℕ
  pub recv_ack : ℕ
  pub data_off : ℕ
  pub tcp_flags : ℕ
  pub rx_win : ℕ
  pub cksum : ℕ
  pub tcp_urp : ℕ

-- A value behind the interface ItemStruct. An ItemType is an item with no structure.
pub data GoItem : Type 0 where
  item_type : ℕ → GoItem
  item_eth : ItemEth → GoItem
  item_vlan : ItemVlan → GoItem
  item_ipv4 : Ipv4Header → GoItem
  item_udp : UdpHeader → GoItem
  item_tcp : TcpHdr → GoItem
  item_ipv6 : Ipv6Header → GoItem
  item_vxlan : (vni : ℕ) → GoItem
  item_vxlan2 : (vni : ℕ) → GoItem

-- An ItemType has an empty Reload and a nil Pointer.
abbrev pub is_type : GoItem → Bool
is_type (item_type n) = true
is_type _ = false

-- The C structures, by the fields that the code writes; a field of two bytes or more is the list of
-- its bytes.
pub record CEth : Type 0 where
  pub has_vlan : ℕ
  pub src_addr : List ℕ
  pub dst_addr : List ℕ
  pub ether_type : List ℕ

pub record CVlan : Type 0 where
  pub has_more_vlan : ℕ
  pub vlan_tci : List ℕ
  pub eth_proto : List ℕ

pub record CIpv4 : Type 0 where
  pub version_ihl : ℕ
  pub type_of_service : ℕ
  pub total_length : List ℕ
  pub packet_id : List ℕ
  pub fragment_offset : List ℕ
  pub time_to_live : ℕ
  pub next_proto_id : ℕ
  pub hdr_checksum : List ℕ
  pub src_addr : List ℕ
  pub dst_addr : List ℕ

pub record CIpv6 : Type 0 where
  pub proto : ℕ
  pub src_addr : List ℕ
  pub dst_addr : List ℕ

pub record CUdp : Type 0 where
  pub src_port : List ℕ
  pub dst_port : List ℕ
  pub dgram_len : List ℕ
  pub dgram_cksum : List ℕ

pub record CTcp : Type 0 where
  pub src_port : List ℕ
  pub dst_port : List ℕ
  pub cksum : List ℕ

-- A block of C memory: of zeros, or one of the structures.
pub data Struct : Type 0 where
  zeros : Struct
  c_eth : CEth → Struct
  c_vlan : CVlan → Struct
  c_ipv4 : CIpv4 → Struct
  c_udp : CUdp → Struct
  c_tcp : CTcp → Struct
  c_ipv6 : CIpv6 → Struct
  c_vxlan : (vni : List ℕ) → Struct

-- The structure of an item of Ethernet at a block.
abbrev pub eth_in : Struct → CEth
eth_in (c_eth c) = c
eth_in _ = record {
  has_vlan = 0;
  src_addr = 0 ∷ 0 ∷ 0 ∷ 0 ∷ 0 ∷ 0 ∷ [];
  dst_addr = 0 ∷ 0 ∷ 0 ∷ 0 ∷ 0 ∷ 0 ∷ [];
  ether_type = 0 ∷ 0 ∷ [];
}

abbrev pub be16 : ℕ → List ℕ
be16 n = bytes16 big_endian n

-- setAddr: `copy` into the six bytes of the structure, the rest of which stay.
unfoldable pub set_addr : (addr old : List ℕ) → List ℕ
set_addr addr old = take 6 (addr ++ drop (length addr) old)

-- `if len(addr) > 0`
unfoldable pub set_some_addr : (addr old : List ℕ) → List ℕ
unfolding set_addr
set_some_addr addr old = if ltb 0 (length addr) then set_addr addr old else old

-- What the Reload of each item writes to its structure.
unfoldable pub eth_written : ItemEth → CEth → CEth
unfolding set_some_addr
eth_written item c = record {
  has_vlan = if item.has_vlan then 1 else 0;
  src_addr = set_some_addr item.src c.src_addr;
  dst_addr = set_some_addr item.dst c.dst_addr;
  ether_type = be16 item.ether_type;
}

unfoldable pub vlan_written : ItemVlan → CVlan
vlan_written item = record {
  has_more_vlan = if item.has_more_vlan then 1 else 0;
  vlan_tci = be16 item.tci;
  eth_proto = be16 item.inner_type;
}

unfoldable pub cvt_ipv4_header : Ipv4Header → CIpv4
cvt_ipv4_header src = record {
  version_ihl = src.version_ihl;
  type_of_service = src.tos;
  total_length = be16 src.total_length;
  packet_id = be16 src.id;
  fragment_offset = be16 src.fragment_offset;
  time_to_live = src.ttl;
  next_proto_id = src.proto;
  hdr_checksum = be16 src.checksum;
  src_addr = src.src_addr;
  dst_addr = src.dst_addr;
}

unfoldable pub cvt_udp_header : UdpHeader → CUdp
cvt_udp_header src = record {
  src_port = be16 src.src_port;
  dst_port = be16 src.dst_port;
  dgram_len = be16 src.length;
  dgram_cksum = be16 src.checksum;
}

unfoldable pub cvt_tcp_header : TcpHdr → CTcp
cvt_tcp_header src = record {
  src_port = be16 src.src_port;
  dst_port = be16 src.dst_port;
  cksum = be16 src.cksum;
}

unfoldable pub cvt_ipv6_header : Ipv6Header → CIpv6
cvt_ipv6_header src = record { proto = src.proto; src_addr = src.src_addr; dst_addr = src.dst_addr }

-- Three bytes of the number as it lies in memory.
unfoldable pub vxlan_written : (vni : ℕ) → List ℕ
vxlan_written vni = take 3 (bytes32 little_endian vni)

-- `encap` of item_vxlan2.go.
unfoldable pub vxlan2_written : (vni : ℕ) → List ℕ
vxlan2_written vni = u8 (vni >>> 16) ∷ u8 (vni >>> 8) ∷ u8 vni ∷ []

-- What Reload makes of the block of an item.
unfoldable pub written : GoItem → Struct → Struct
unfolding eth_written vlan_written cvt_ipv4_header cvt_udp_header cvt_tcp_header cvt_ipv6_header
    vxlan_written vxlan2_written
written (item_type n) st = st
written (item_eth item) st = c_eth (eth_written item (eth_in st))
written (item_vlan item) st = c_vlan (vlan_written item)
written (item_ipv4 src) st = c_ipv4 (cvt_ipv4_header src)
written (item_udp src) st = c_udp (cvt_udp_header src)
written (item_tcp src) st = c_tcp (cvt_tcp_header src)
written (item_ipv6 src) st = c_ipv6 (cvt_ipv6_header src)
written (item_vxlan vni) st = c_vxlan (vxlan_written vni)
written (item_vxlan2 vni) st = c_vxlan (vxlan2_written vni)

-- The state: the allocator's, the field `cptr` of each item, and the blocks by their addresses.
pub record Store (S : Type 0) : Type 0 where
  pub heap : S
  pub cptr : ℕ → ℕ
  pub structs : ℕ → Struct

-- The numbers of the types.
pub record ItemTypes : Type 0 where
  pub eth : ℕ
  pub vlan : ℕ
  pub ipv4 : ℕ
  pub ipv6 : ℕ
  pub udp : ℕ
  pub tcp : ℕ
  pub vxlan : ℕ

-- The methods Type of the items.
unfoldable pub type_in : ItemTypes → GoItem → ℕ
type_in types (item_type n) = n
type_in types (item_eth item) = types.eth
type_in types (item_vlan item) = types.vlan
type_in types (item_ipv4 item) = types.ipv4
type_in types (item_udp item) = types.udp
type_in types (item_tcp item) = types.tcp
type_in types (item_ipv6 item) = types.ipv6
type_in types (item_vxlan vni) = types.vxlan
type_in types (item_vxlan2 vni) = types.vxlan

module _ {S : Type 0} (ops : Ops S) (sizeof : GoItem → ℕ) where
  -- cPointer.createOrRet: malloc and memset to 0, unless there is a block.
  unfoldable pub create_or_ret : Store S → (i size : ℕ) → Store S
  create_or_ret s i size =
      if s.cptr i == 0
      then (let made = ops.malloc s.heap size in
          record {
            heap = made.0;
            cptr = put s.cptr i made.1;
            structs = put s.structs made.1 zeros;
          })
      else s

  -- Item `i` has the fields `item`.
  unfoldable pub reload_fields : Store S → (i : ℕ) → GoItem → Store S
  unfolding create_or_ret written
  reload_fields s i item =
      let s' = create_or_ret s i (sizeof item) in
      record s' { structs = put s'.structs (s'.cptr i) (written item (s'.structs (s'.cptr i))) }

  -- The methods Type, Reload and Pointer of the items, where item `i` has the fields `go i`.
  abbrev pub items : ItemTypes → (ℕ → GoItem) → ItemOps (Store S) ℕ
  items types go = record {
    type_of = λ i. type_in types (go i);
    reload = λ s i. if is_type (go i) then s else reload_fields s i (go i);
    pointer = λ s i. if is_type (go i) then 0 else s.cptr i;
  }
