-- ===== src/Types.antt =====
-- types/const.go: the lengths and numbers that the package packet uses.
use go_dpdk.Base.{ℕ}

abbrev pub ether_addr_len : ℕ
ether_addr_len = 6

abbrev pub ipv4_addr_len : ℕ
ipv4_addr_len = 4

abbrev pub ether_len : ℕ
ether_len = 14

abbrev pub ipv4_min_len : ℕ
ipv4_min_len = 20

abbrev pub ipv6_len : ℕ
ipv6_len = 40

abbrev pub icmp_len : ℕ
icmp_len = 8

abbrev pub tcp_min_len : ℕ
tcp_min_len = 20

abbrev pub udp_len : ℕ
udp_len = 8

abbrev pub arp_len : ℕ
arp_len = 28

abbrev pub vxlan_len : ℕ
vxlan_len = 8

abbrev pub ipv4_number : ℕ
ipv4_number = 0x0800

abbrev pub arp_number : ℕ
arp_number = 0x0806

abbrev pub ipv6_number : ℕ
ipv6_number = 0x86dd

abbrev pub swap_ipv4_number : ℕ
swap_ipv4_number = 0x0008

abbrev pub swap_arp_number : ℕ
swap_arp_number = 0x0608

abbrev pub swap_ipv6_number : ℕ
swap_ipv6_number = 0xdd86

abbrev pub icmp_number : ℕ
icmp_number = 0x01

abbrev pub tcp_number : ℕ
tcp_number = 0x06

abbrev pub udp_number : ℕ
udp_number = 0x11

abbrev pub icmpv6_number : ℕ
icmpv6_number = 0x3a

abbrev pub no_next_header : ℕ
no_next_header = 0x3b

abbrev pub tcp_min_data_offset : ℕ
tcp_min_data_offset = 0x50

abbrev pub ipv4_version_ihl : ℕ
ipv4_version_ihl = 0x45

abbrev pub ipv6_vtc_flow : ℕ
ipv6_vtc_flow = 0x60

abbrev pub icmpv6_neighbor_solicitation : ℕ
icmpv6_neighbor_solicitation = 135

abbrev pub icmpv6_neighbor_advertisement : ℕ
icmpv6_neighbor_advertisement = 136

abbrev pub icmp_type_echo_request : ℕ
icmp_type_echo_request = 8

abbrev pub icmp_type_echo_response : ℕ
icmp_type_echo_response = 0

abbrev pub icmpv6_type_echo_request : ℕ
icmpv6_type_echo_request = 128

abbrev pub icmpv6_type_echo_response : ℕ
icmpv6_type_echo_response = 129

abbrev pub icmpv6_type_router_solicitation : ℕ
icmpv6_type_router_solicitation = 133
