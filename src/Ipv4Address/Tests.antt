-- ===== src/Ipv4Address/Tests.antt =====
-- Runs and instances for IPv4 addresses.
use go_dpdk.Base.{◌≡◌, refl}
use go_dpdk.Ipv4Address.{bytes_to_ipv4}

loopback : bytes_to_ipv4 127 0 0 1 ≡ 0x0100007f
unfolding bytes_to_ipv4
loopback = refl
