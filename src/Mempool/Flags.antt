-- ===== src/Mempool/Flags.antt =====
-- Which flags of a pool come from its options.
use native.Mathlib.Nat.{pow-suc, one-le-pow}
use go_dpdk.Base.{
  ℕ, zero, suc, ◌*◌, ◌/◌, ◌%◌, ◌^◌, ◌<◌, bit_and, bit_or, u16, u32, ◌≡◌, refl, sym, ap, ◌∙◌, arith,
  Bool, true, false, not, ◌||◌, some, List, [], ◌∷◌, ◌++◌, ◌==◌, if◌then◌else◌,
}
use go_dpdk.Bits.{bit_or_digit, bit_and_high, bit_and_low, mod_twice, halve_shift}
use go_dpdk.Mempool.{
  MpConf, PoolOption, opt_ops_name, opt_cache_size, opt_private_data_size, opt_socket, opt_flag,
  configure, configured, default_conf, PoolRte, create_empty, create_mbuf_pool, ring_sp, ring_mp,
  sc, mc, set_ops_ring,
}

-- Bit `k` of a number.
abbrev pub bit : ℕ → ℕ → Bool
bit k n = n / 2 ^ k % 2 == 1

bit_or-bit : (k a b : ℕ) → bit k (bit_or a b) ≡ bit k a || bit k b
bit_or-bit zero a b = ground (arith, bit_or_digit a b)
bit_or-bit (suc k) a b =
    let half : bit_or a b / 2 ≡ bit_or (a / 2) (b / 2) = omega (arith, bit_or_digit a b) in
    rw (sym (halve_shift (bit_or a b) k), sym (halve_shift a k), sym (halve_shift b k), half)
      (bit_or-bit k (a / 2) (b / 2))

mod_half : (a n : ℕ) → a % 2 ^ suc n / 2 ≡ a / 2 % 2 ^ n
mod_half a n =
    omega (
      arith,
      mod_twice a (2 ^ n) (one-le-pow n 2 (omega arith)),
      ap (λ (t : ℕ). a % t) (pow-suc 2 n),
    )

mod-bit : (k n a : ℕ) → k < n → bit k (a % 2 ^ n) ≡ bit k a
mod-bit k zero a h = absurd (omega arith)
mod-bit zero (suc n) a h =
    ground (
      arith,
      mod_twice a (2 ^ n) (one-le-pow n 2 (omega arith)),
      ap (λ (t : ℕ). a % t) (pow-suc 2 n),
    )
mod-bit (suc k) (suc n) a h =
    rw (sym (halve_shift (a % 2 ^ suc n) k), sym (halve_shift a k), mod_half a n)
      (mod-bit k n (a / 2) (omega arith))

mask_times : (d p : ℕ) → 0 < p → d < 2 → not (d * p == 0) ≡ (d == 1)
mask_times zero p pos small = ground arith
mask_times (suc zero) p pos small = ground (arith, pos)
mask_times (suc (suc d)) p pos small = absurd (omega arith)

mask_bit : (k n : ℕ) → not (bit_and n (2 ^ k) == 0) ≡ bit k n
mask_bit k n =
    let masked : bit_and n (2 ^ k) ≡ (n / 2 ^ k % 2) * 2 ^ k =
      ap (λ (t : ℕ). bit_and n t) (omega arith)
      ∙ bit_and_high k n 1
      ∙ ap (λ (t : ℕ). t * 2 ^ k) (bit_and_low 1 (n / 2 ^ k)) in
    rw masked (mask_times (n / 2 ^ k % 2) (2 ^ k) (omega (arith, one-le-pow k 2)) (omega arith))

-- One of the options is an OptFlag with the bit.
pub any_flag : ℕ → List PoolOption → Bool
any_flag k [] = false
any_flag k (opt_flag flag ∷ opts) = bit k flag || any_flag k opts
any_flag k (opt_ops_name name ∷ opts) = any_flag k opts
any_flag k (opt_cache_size size ∷ opts) = any_flag k opts
any_flag k (opt_private_data_size size ∷ opts) = any_flag k opts
any_flag k (opt_socket socket ∷ opts) = any_flag k opts

or_next : (b c d e : Bool) → b ≡ c || d → b || e ≡ c || (d || e)
or_next b true d e h = rw h refl
or_next b false d e h = rw h refl

configured-bit :
    (k : ℕ) (opts : List PoolOption) (conf : MpConf)
    → k < 32
    → bit k (configured opts conf).flags ≡ bit k conf.flags || any_flag k opts
unfolding configured configure any_flag
configured-bit k [] conf h = ground arith
configured-bit k (opt_flag flag ∷ opts) conf h =
    configured-bit k opts (configure (opt_flag flag) conf) h
    ∙ or_next (bit k (bit_or conf.flags (u32 flag))) (bit k conf.flags) (bit k flag)
        (any_flag k opts)
        (bit_or-bit k conf.flags (u32 flag) ∙ ap (λ b. bit k conf.flags || b) (mod-bit k 32 flag h))
configured-bit k (opt_ops_name name ∷ opts) conf h =
    configured-bit k opts (configure (opt_ops_name name) conf) h
configured-bit k (opt_cache_size size ∷ opts) conf h =
    configured-bit k opts (configure (opt_cache_size size) conf) h
configured-bit k (opt_private_data_size size ∷ opts) conf h =
    configured-bit k opts (configure (opt_private_data_size size) conf) h
configured-bit k (opt_socket socket ∷ opts) conf h =
    configured-bit k opts (configure (opt_socket socket) conf) h

bit_none : (k : ℕ) → bit k 0 ≡ false
bit_none k = ground arith

abbrev pub ops_for : (single_producer single_consumer : Bool) → List ℕ
ops_for true true = ring_sp ++ sc
ops_for true false = ring_sp ++ mc
ops_for false true = ring_mp ++ sc
ops_for false false = ring_mp ++ mc

chosen : (b d : Bool) → (if b then ring_sp else ring_mp) ++ (if d then sc else mc) ≡ ops_for b d
chosen true true = refl
chosen true false = refl
chosen false true = refl
chosen false false = refl

set_ops_ring-ops_for :
    (p c : ℕ) (flags : ℕ) → set_ops_ring (2 ^ p) (2 ^ c) flags ≡ ops_for (bit p flags) (bit c flags)
unfolding set_ops_ring
set_ops_ring-ops_for p c flags =
    rw (mask_bit p flags, mask_bit c flags) (chosen (bit p flags) (bit c flags))

-- The C library gives a pool the bit that its constructor was called with.
abbrev pub KeepsBit {ℓ} : {P : Type ℓ} → PoolRte P → (P → ℕ) → (k : ℕ) → Type ℓ
KeepsBit {P = P} rte flags_of k =
    (n elt_size cache_size priv_data_size socket flags : ℕ) (pool : P)
    → rte.create_empty n elt_size cache_size priv_data_size socket flags ≡ some pool
    → bit k (flags_of pool) ≡ bit k flags

created-bit {ℓ} :
    {P : Type ℓ} (rte : PoolRte P) (flags_of : P → ℕ) (k n elt_size : ℕ) (opts : List PoolOption)
    (pool : P)
    → KeepsBit rte flags_of k
    → k < 32
    → create_empty rte n elt_size opts ≡ some pool
    → bit k (flags_of pool) ≡ any_flag k opts
unfolding create_empty
created-bit rte flags_of k n elt_size opts pool keeps h e =
    let conf = configured opts default_conf in
    keeps (u32 n) (u32 elt_size) conf.cache_size conf.priv_data_size conf.socket conf.flags pool e
    ∙ configured-bit k opts default_conf h
    ∙ rw (bit_none k) refl

-- Where the flags for a single producer and a single consumer are one bit each, below bit 32, and
-- a pool has those that the C library was called with: SetOpsRing on a pool that CreateEmpty has
-- made sets "ring_sp" or "ring_mp", with "_sc" or "_mc", by whether any of the options of
-- CreateEmpty is a flag with the bit for a single producer, and for a single consumer.
pub set_ops_ring-create_empty {ℓ} :
    {P : Type ℓ} (rte : PoolRte P) (flags_of : P → ℕ) (p c n elt_size : ℕ) (opts : List PoolOption)
    (pool : P)
    → KeepsBit rte flags_of p
    → KeepsBit rte flags_of c
    → p < 32
    → c < 32
    → create_empty rte n elt_size opts ≡ some pool
    → set_ops_ring (2 ^ p) (2 ^ c) (flags_of pool) ≡ ops_for (any_flag p opts) (any_flag c opts)
set_ops_ring-create_empty rte flags_of p c n elt_size opts pool keeps_p keeps_c hp hc e =
    set_ops_ring-ops_for p c (flags_of pool)
    ∙ rw
        (
          created-bit rte flags_of p n elt_size opts pool keeps_p hp e,
          created-bit rte flags_of c n elt_size opts pool keeps_c hc e,
        )
        refl

-- The options that are no flag.
pub unflagged : List PoolOption → List PoolOption
unflagged [] = []
unflagged (opt_flag flag ∷ opts) = unflagged opts
unflagged (opt_ops_name name ∷ opts) = opt_ops_name name ∷ unflagged opts
unflagged (opt_cache_size size ∷ opts) = opt_cache_size size ∷ unflagged opts
unflagged (opt_private_data_size size ∷ opts) = opt_private_data_size size ∷ unflagged opts
unflagged (opt_socket socket ∷ opts) = opt_socket socket ∷ unflagged opts

-- The fields of a configuration but for the flags.
abbrev with_flags : ℕ → MpConf → MpConf
with_flags flags conf = record conf { flags = flags }

configured-unflagged :
    (opts : List PoolOption) (conf : MpConf) (flags : ℕ)
    → with_flags 0 (configured opts conf)
      ≡ with_flags 0 (configured (unflagged opts) (with_flags flags conf))
unfolding configured configure unflagged
configured-unflagged [] conf flags = refl
configured-unflagged (opt_flag flag ∷ opts) conf flags =
    configured-unflagged opts (configure (opt_flag flag) conf) flags
configured-unflagged (opt_ops_name name ∷ opts) conf flags =
    configured-unflagged opts (configure (opt_ops_name name) conf) flags
configured-unflagged (opt_cache_size size ∷ opts) conf flags =
    configured-unflagged opts (configure (opt_cache_size size) conf) flags
configured-unflagged (opt_private_data_size size ∷ opts) conf flags =
    configured-unflagged opts (configure (opt_private_data_size size) conf) flags
configured-unflagged (opt_socket socket ∷ opts) conf flags =
    configured-unflagged opts (configure (opt_socket socket) conf) flags

-- CreateMbufPool does the same without those of its options that are flags.
pub create_mbuf_pool-unflagged {ℓ} :
    {P : Type ℓ} (rte : PoolRte P) (n data_room_size : ℕ) (opts : List PoolOption)
    → create_mbuf_pool rte n data_room_size opts
      ≡ create_mbuf_pool rte n data_room_size (unflagged opts)
unfolding create_mbuf_pool
create_mbuf_pool-unflagged rte n data_room_size opts =
    ap
      (λ (conf : MpConf).
        rte.pool_create_by_ops (u32 n) conf.cache_size (u16 conf.priv_data_size)
          (u16 data_room_size) conf.socket conf.ops_name)
      (configured-unflagged opts default_conf 0)
