-- ===== src/Packet/Arp/Tests.antt =====
-- Instances for the ARP functions.
use go_dpdk.Base.{ℕ, refl, List, [], ◌∷◌, arith}
use go_dpdk.Packet.Sample.{packet}
use go_dpdk.Packet.Init.Ipv4.{IsReady}
use go_dpdk.Packet.Arp.Laid.{IsMac}

abbrev sender : List ℕ
sender = 2 ∷ 0 ∷ 0 ∷ 0 ∷ 0 ∷ 1 ∷ []

abbrev target : List ℕ
target = 2 ∷ 0 ∷ 0 ∷ 0 ∷ 0 ∷ 2 ∷ []

sender-IsMac : IsMac sender
sender-IsMac = ground arith

target-IsMac : IsMac target
target-IsMac = ground arith

room_for_arp : IsReady 64 42 (packet 0)
room_for_arp = record { valid = ground arith; room = omega arith; here = refl }
