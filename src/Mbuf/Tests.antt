-- ===== src/Mbuf/Tests.antt =====
-- Runs and instances for the data room.
use go_dpdk.Base.{◌≡◌, refl, true, false, arith}
use go_dpdk.Mbuf.{Mbuf, prepend_mbuf, append_mbuf, adj_mbuf, trim_mbuf}
use go_dpdk.Mbuf.Room.{IsValid, ops-IsValid}

-- 60 bytes of data behind a headroom of 128, where 64 bytes are reserved.
abbrev sample : Mbuf
sample = record { buf_addr = 3968; buf_len = 2176; data_off = 128; data_len = 60; pkt_len = 60 }

sample-IsValid : IsValid 64 sample
sample-IsValid = ground arith

prepend_room : (prepend_mbuf 64 sample 64).1 ≡ true
unfolding prepend_mbuf
prepend_room = refl

prepend_full : (prepend_mbuf 64 sample 65).1 ≡ false
unfolding prepend_mbuf
prepend_full = refl

append_room : (append_mbuf sample 1988).1 ≡ true
unfolding append_mbuf
append_room = refl

append_full : (append_mbuf sample 1989).1 ≡ false
unfolding append_mbuf
append_full = refl

append_long : (append_mbuf sample 65546).1 ≡ true
unfolding append_mbuf
append_long = refl

ops-IsValid_example :
    IsValid 64 (prepend_mbuf 64 sample 14).0
    × IsValid 64 (append_mbuf sample 14).0
    × IsValid 64 (adj_mbuf sample 14).0
    × IsValid 64 (trim_mbuf sample 14).0
ops-IsValid_example = ops-IsValid sample-IsValid 14 (omega arith)
