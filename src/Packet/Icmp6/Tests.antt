-- ===== src/Packet/Icmp6/Tests.antt =====
-- Runs and instances for neighbour discovery.
use go_dpdk.Base.{ℕ, List, [], ◌∷◌}
use go_dpdk.Packet.Parse.{Packet}
use go_dpdk.Packet.Sample.{packet}

abbrev zeros : List ℕ
zeros = 0 ∷ 0 ∷ 0 ∷ 0 ∷ 0 ∷ 0 ∷ 0 ∷ 0 ∷ 0 ∷ 0 ∷ 0 ∷ 0 ∷ 0 ∷ 0 ∷ 0 ∷ 0 ∷ []

abbrev parsed : Packet
parsed = record (packet 86) { payload = 4158 }
