-- ===== src/Packet/Arp.antt =====
-- packet/arp.go: the ARP packets. A MAC address is a list of six bytes.
pub mod Laid
pub mod Wire
mod Tests
use go_dpdk.Base.{ℕ, ◌+◌, Bool, true, false, List, [], ◌∷◌, if◌then◌else◌}
use go_dpdk.Types
use go_dpdk.Memory.{Memory, store8, store16, store_bytes}
use go_dpdk.Ipv4Address.{ipv4_to_bytes}
use go_dpdk.Packet.Swap.{swap_bytes_uint16}
use go_dpdk.Packet.Parse.{Packet}
use go_dpdk.Packet.Init.{State, init_empty_arp_packet}

abbrev pub arp_request : ℕ
arp_request = 1

abbrev pub arp_reply : ℕ
arp_reply = 2

abbrev pub broadcast : List ℕ
broadcast = 0xff ∷ 0xff ∷ 0xff ∷ 0xff ∷ 0xff ∷ 0xff ∷ []

-- The assignments at the end of `initARPCommonData`.
unfoldable pub fill_arp_common : Memory → Packet → Memory
fill_arp_common m p =
    let m = store16 m p.l3 (swap_bytes_uint16 1) in
    let m = store16 m (p.l3 + 2) (swap_bytes_uint16 Types.ipv4_number) in
    let m = store8 m (p.l3 + 4) Types.ether_addr_len in store8 m (p.l3 + 5) Types.ipv4_addr_len

unfoldable pub init_arp_common_data : Memory → Packet → State × Bool
init_arp_common_data m p =
    let ((m, p), done) = init_empty_arp_packet m p in
    if done then ((fill_arp_common m p, p), true) else ((m, p), false)

-- The assignments that the four functions have in common.
unfoldable pub fill_arp :
    Memory → Packet → (operation : ℕ) → (sha d_addr tha : List ℕ) → (spa tpa : ℕ) → Memory
fill_arp m p operation sha d_addr tha spa tpa =
    let m = store_bytes m (p.ether + 6) sha in
    let m = store_bytes m p.ether d_addr in
    let m = store16 m (p.l3 + 6) (swap_bytes_uint16 operation) in
    let m = store_bytes m (p.l3 + 8) sha in
    let m = store_bytes m (p.l3 + 14) (ipv4_to_bytes spa) in
    let m = store_bytes m (p.l3 + 18) tha in store_bytes m (p.l3 + 24) (ipv4_to_bytes tpa)

-- `initARPCommonData`, then the assignments if it succeeds.
unfoldable pub init_arp :
    Memory → Packet → (operation : ℕ) → (sha d_addr tha : List ℕ) → (spa tpa : ℕ) → State × Bool
init_arp m p operation sha d_addr tha spa tpa =
    let ((m, p), done) = init_arp_common_data m p in
    if done then ((fill_arp m p operation sha d_addr tha spa tpa, p), true) else ((m, p), false)

unfoldable pub init_arp_request_packet :
    Memory → Packet → (sha : List ℕ) → (spa tpa : ℕ) → State × Bool
init_arp_request_packet m p sha spa tpa = init_arp m p arp_request sha broadcast broadcast spa tpa

unfoldable pub init_arp_reply_packet :
    Memory → Packet → (sha tha : List ℕ) → (spa tpa : ℕ) → State × Bool
init_arp_reply_packet m p sha tha spa tpa = init_arp m p arp_reply sha tha tha spa tpa

unfoldable pub init_garp_announcement_request_packet :
    Memory → Packet → (sha : List ℕ) → (spa : ℕ) → State × Bool
init_garp_announcement_request_packet m p sha spa =
    init_arp m p arp_request sha broadcast broadcast spa spa

unfoldable pub init_garp_announcement_reply_packet :
    Memory → Packet → (sha : List ℕ) → (spa : ℕ) → State × Bool
init_garp_announcement_reply_packet m p sha spa =
    init_arp m p arp_reply sha broadcast broadcast spa spa
