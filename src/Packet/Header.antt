-- ===== src/Packet/Header.antt =====
-- packet/packet.go and packet/arp.go: the header structures, and what a cast of a pointer to one of
-- them reads. Multi-byte fields hold the value that the little-endian host sees.
use go_dpdk.Base.{ℕ, ◌+◌, List}
use go_dpdk.Memory.{Memory, load8, load16, load32, load_bytes}

pub record EtherHdr : Type 0 where
  pub d_addr : List ℕ
  pub s_addr : List ℕ
  pub ether_type : ℕ

pub record IPv4Hdr : Type 0 where
  pub version_ihl : ℕ
  pub type_of_service : ℕ
  pub total_length : ℕ
  pub packet_id : ℕ
  pub fragment_offset : ℕ
  pub time_to_live : ℕ
  pub next_proto_id : ℕ
  pub hdr_checksum : ℕ
  pub src_addr : ℕ
  pub dst_addr : ℕ

-- The addresses are arrays of 16 bytes.
pub record IPv6Hdr : Type 0 where
  pub vtc_flow : ℕ
  pub payload_len : ℕ
  pub proto : ℕ
  pub hop_limits : ℕ
  pub src_addr : ℕ → ℕ
  pub dst_addr : ℕ → ℕ

pub record TcpHdr : Type 0 where
  pub src_port : ℕ
  pub dst_port : ℕ
  pub sent_seq : ℕ
  pub recv_ack : ℕ
  pub data_off : ℕ
  pub tcp_flags : ℕ
  pub rx_win : ℕ
  pub cksum : ℕ
  pub tcp_urp : ℕ

pub record UdpHdr : Type 0 where
  pub src_port : ℕ
  pub dst_port : ℕ
  pub dgram_len : ℕ
  pub dgram_cksum : ℕ

pub record IcmpHdr : Type 0 where
  pub type : ℕ
  pub code : ℕ
  pub cksum : ℕ
  pub identifier : ℕ
  pub seq_num : ℕ

module _ (m : Memory) (p : ℕ) where
  unfoldable pub ether_at : EtherHdr
  ether_at = record {
    d_addr = load_bytes m p 6;
    s_addr = load_bytes m (p + 6) 6;
    ether_type = load16 m (p + 12);
  }

  unfoldable pub ipv4_at : IPv4Hdr
  ipv4_at = record {
    version_ihl = load8 m p;
    type_of_service = load8 m (p + 1);
    total_length = load16 m (p + 2);
    packet_id = load16 m (p + 4);
    fragment_offset = load16 m (p + 6);
    time_to_live = load8 m (p + 8);
    next_proto_id = load8 m (p + 9);
    hdr_checksum = load16 m (p + 10);
    src_addr = load32 m (p + 12);
    dst_addr = load32 m (p + 16);
  }

  unfoldable pub ipv6_at : IPv6Hdr
  ipv6_at = record {
    vtc_flow = load32 m p;
    payload_len = load16 m (p + 4);
    proto = load8 m (p + 6);
    hop_limits = load8 m (p + 7);
    src_addr = λ i. load8 m (p + (8 + i));
    dst_addr = λ i. load8 m (p + (24 + i));
  }

  unfoldable pub tcp_at : TcpHdr
  tcp_at = record {
    src_port = load16 m p;
    dst_port = load16 m (p + 2);
    sent_seq = load32 m (p + 4);
    recv_ack = load32 m (p + 8);
    data_off = load8 m (p + 12);
    tcp_flags = load8 m (p + 13);
    rx_win = load16 m (p + 14);
    cksum = load16 m (p + 16);
    tcp_urp = load16 m (p + 18);
  }

  unfoldable pub udp_at : UdpHdr
  udp_at = record {
    src_port = load16 m p;
    dst_port = load16 m (p + 2);
    dgram_len = load16 m (p + 4);
    dgram_cksum = load16 m (p + 6);
  }

  unfoldable pub icmp_at : IcmpHdr
  icmp_at = record {
    type = load8 m p;
    code = load8 m (p + 1);
    cksum = load16 m (p + 2);
    identifier = load16 m (p + 4);
    seq_num = load16 m (p + 6);
  }
