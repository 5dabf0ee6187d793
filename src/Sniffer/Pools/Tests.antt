-- ===== src/Sniffer/Pools/Tests.antt =====
-- Two ports with the numbers 0 and 2, after the port between them was removed.
use go_dpdk.Base.{ℕ, ◌==◌, ◌||◌, ◌+◌, ◌<◌, ◌≤◌, ◌≡◌, refl, Bool, Option, none, some, List, [], ◌∷◌}
use go_dpdk.Sniffer.Pools.{
  found, panicked, new_mempool_per_port, get_rx_mempool, get_rx_mempool-new_mempool_per_port,
}

abbrev is_valid : ℕ → Bool
is_valid pid = pid == 0 || pid == 2

abbrev new_mempool : ℕ → Option ℕ
new_mempool pid = some (pid + 100)

abbrev pools : List (Option ℕ)
pools = some 100 ∷ none ∷ []

made : (new_mempool_per_port is_valid new_mempool 2).1 ≡ some pools
unfolding new_mempool_per_port
made = refl

get_rx_mempool-new_mempool_per_port_example :
    (2 < 2
      → (mp : ℕ) × (new_mempool 2 ≡ some mp) × (get_rx_mempool is_valid pools 2 ≡ found (some mp)))
    × (2 ≤ 2 → get_rx_mempool is_valid pools 2 ≡ panicked)
get_rx_mempool-new_mempool_per_port_example =
    get_rx_mempool-new_mempool_per_port is_valid new_mempool 2 2 pools made refl
