-- ===== src/Common/Raw/Tests.antt =====
-- Stores on blank memory.
use go_dpdk.Base.{◌≡◌, refl, [], ◌∷◌}
use go_dpdk.Memory.{Memory, load_bytes, load8, store8, store_bytes}
use go_dpdk.Common.Raw.{big_endian, put_uint16, memset}

abbrev blank : Memory
blank = λ b. 0

port_on_wire : load_bytes (put_uint16 big_endian 4 4789 blank) 4 2 ≡ 18 ∷ 181 ∷ []
unfolding put_uint16 load_bytes store_bytes load8 store8
port_on_wire = refl

three_set : load_bytes (memset 4 255 3 blank) 3 5 ≡ 0 ∷ 255 ∷ 255 ∷ 255 ∷ 0 ∷ []
unfolding memset load_bytes load8 store8
three_set = refl
