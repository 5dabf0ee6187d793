-- ===== src/Sniffer/Port.antt =====
-- EthdevConfig.Configure of app/test-sniffer/port.go, by the calls that it makes on the port, and the
-- bit counts of the same file. What the driver answers is a parameter; printing is left out.
pub mod Plan
mod Tests
pub mod Bits
use go_dpdk.Base.{
  ℕ, zero, suc, ◌+◌, ◌%◌, ◌==◌, ltb, u16, u64, ◌<<<◌, ◌>>>◌, bit_and, if◌then◌else◌, Bool, true,
  false, Option, none, some, List, [], ◌∷◌, ◌++◌,
}

-- A call on the port, its pooler or its hooks.
pub data Call : Type 0 where
  info_get : Call
  register_callback_lsc : Call
  dev_configure : ℕ → ℕ → Bool → Call
  promisc_enable : Call
  get_rx_mempool : ℕ → Call
  rxq_setup : ℕ → Call
  txq_setup : ℕ → Call
  hairpin_queue_setup : ℕ → ℕ → ℕ → Call
  ethdev_call : ℕ → Call

-- The error of each call, `none` where it succeeds. No call is made twice.
abbrev pub Answers : Type 0
Answers = Call → Option ℕ

-- The fields of EthdevConfig that say what is called; `hooks` is the length of OnConfig.
pub record EthdevConfig : Type 0 where
  pub rx_queues : ℕ
  pub tx_queues : ℕ
  pub hairpin_queues : ℕ
  pub hooks : ℕ

-- The calls made so far, in order, and the error that is returned.
abbrev pub Trace : Type 0
Trace = List Call × Option ℕ

module _ (answers : Answers) where
  -- `if err := call; err != nil { return err }`
  abbrev pub checked : Call → (List Call → Trace) → List Call → Trace
  checked c next made = elim (answers c) [
    | some e ↦ (made ++ c ∷ [], some e)
    | none ↦ next (made ++ c ∷ [])
  ]

  -- A call whose error is dropped.
  abbrev pub unchecked : Call → (List Call → Trace) → List Call → Trace
  unchecked c next made = next (made ++ c ∷ [])

  -- The three loops, by the rounds left, with what follows them.
  unfoldable pub rx_loop : ℕ → ℕ → (List Call → Trace) → List Call → Trace
  rx_loop zero qid next made = next made
  rx_loop (suc rounds) qid next made =
      checked (get_rx_mempool qid) (checked (rxq_setup qid) (rx_loop rounds (qid + 1) next)) made

  unfoldable pub tx_loop : ℕ → ℕ → (List Call → Trace) → List Call → Trace
  tx_loop zero qid next made = next made
  tx_loop (suc rounds) qid next made = checked (txq_setup qid) (tx_loop rounds (qid + 1) next) made

  unfoldable pub hook_loop : ℕ → ℕ → List Call → Trace
  hook_loop zero i made = (made, none)
  hook_loop (suc rounds) i made = checked (ethdev_call i) (hook_loop rounds (i + 1)) made

  -- The last part of Configure.
  unfoldable pub configure_hairpin : EthdevConfig → List Call → Trace
  unfolding hook_loop
  configure_hairpin conf made =
      let hooks = hook_loop conf.hooks 0 in
      if ltb 0 conf.hairpin_queues
      then unchecked (hairpin_queue_setup conf.rx_queues conf.tx_queues conf.hairpin_queues) hooks
          made
      else hooks made

  -- Configure; `is_lsc` is what the device flags of InfoGet say. Numbers of queues are uint16.
  unfoldable pub configure : EthdevConfig → Bool → Trace
  unfolding rx_loop tx_loop configure_hairpin
  configure conf is_lsc =
      let setup =
        checked
          (dev_configure (u16 (conf.rx_queues + conf.hairpin_queues))
            (u16 (conf.tx_queues + conf.hairpin_queues)) is_lsc)
          (checked promisc_enable
            (rx_loop conf.rx_queues 0 (tx_loop conf.tx_queues 0 (configure_hairpin conf)))) in
      checked info_get
        (λ made. if is_lsc then unchecked register_callback_lsc setup made else setup made) []

-- The loops of ctzll and clzll on a uint64 that is not 0, by the rounds that may be left.
unfoldable pub ctz_loop : ℕ → ℕ → ℕ → Option ℕ
ctz_loop zero x i = none
ctz_loop (suc fuel) x i = elim (x % 2) [ zero ↦ ctz_loop fuel (x >>> 1) (i + 1) | suc odd ↦ some i ]

unfoldable pub ctzll : ℕ → Option ℕ
unfolding ctz_loop
ctzll x = if x == 0 then some 64 else ctz_loop 64 x 0

unfoldable pub clz_loop : ℕ → ℕ → ℕ → Option ℕ
clz_loop zero x i = none
clz_loop (suc fuel) x i = elim (x >>> 63) [
  | zero ↦ clz_loop fuel (u64 (x <<< 1)) (i + 1)
  | suc top ↦ some i
]

unfoldable pub clzll : ℕ → Option ℕ
unfolding clz_loop
clzll x = if x == 0 then some 64 else clz_loop 64 x 0
