-- ===== src/Ring.antt =====
-- ring/ring.go: the options, and how rings are made and freed. The functions of the C library are
-- parameters, with the name of the ring already given; C.CString is left out.
pub mod Lifecycle
pub mod Eal
mod Tests
use go_dpdk.Base.{
  ℕ, ◌-◌, ◌^◌, ◌%◌, bit_or, Bool, true, false, not, ◌&&◌, Option, none, some, List, [], ◌∷◌, ◌==◌,
  u32, if◌then◌else◌, ℤ,
}
use go_dpdk.Common.Errno.{Error, Codes, int_or_err, int_to_err, rte_errno}

-- `ringConf`. The socket is the bit pattern of a C int.
pub record RingConf : Type 0 where
  pub socket : ℕ
  pub flags : ℕ
  pub align : ℕ

-- An option by the function that makes it.
pub data RingOption : Type 0 where
  opt_align : ℕ → RingOption
  opt_socket : ℕ → RingOption
  opt_flag : ℕ → RingOption

unfoldable pub apply_option : RingOption → RingConf → RingConf
apply_option (opt_align align) rc = record rc { align = u32 align }
apply_option (opt_socket socket) rc = record rc { socket = u32 socket }
apply_option (opt_flag flag) rc = record rc { flags = bit_or rc.flags (u32 flag) }

unfoldable pub apply_options : List RingOption → RingConf → RingConf
apply_options [] rc = rc
apply_options (o ∷ opts) rc = apply_options opts (apply_option o rc)

-- SOCKET_ID_ANY is -1.
unfoldable pub make_opts : List RingOption → RingConf
make_opts opts = apply_options opts (record { socket = 2 ^ 32 - 1; flags = 0; align = 0 })

-- The functions of the C library on its state, where 0 is NULL, and the allocation of a slice of
-- bytes in Go. `memzone` is that field of a ring.
pub record Rte (S : Type 0) : Type 0 where
  pub memsize : (count : ℕ) → ℤ
  pub zmalloc : S → (size align socket : ℕ) → S × ℕ
  pub rte_free : S → (p : ℕ) → S
  pub ring_init : S → (r count flags : ℕ) → S × ℤ
  pub ring_create : S → (count socket flags : ℕ) → S × ℕ
  pub ring_free : S → (r : ℕ) → S
  pub memzone : S → (r : ℕ) → ℕ
  pub errno_of : S → ℤ
  pub go_make : S → (size : ℕ) → S × ℕ

-- The two results of a function that makes a ring.
pub record Made : Type 0 where
  pub r : ℕ
  pub err : Error

-- `err == nil`.
abbrev pub is_nil : Error → Bool
is_nil Error.no_error = true
is_nil _ = false

-- Number 12.
abbrev pub enomem : Error
enomem = Error.syscall_errno 12

module _ {S : Type 0} (rte : Rte S) (codes : Codes) where
  unfoldable pub get_mem_size : (count : ℕ) → ℕ × Error
  get_mem_size count = int_or_err codes (rte.memsize (u32 count))

  unfoldable pub init : S → (r count : ℕ) → List RingOption → S × Error
  init s r count opts =
      let (s', rc) = rte.ring_init s r (u32 count) (make_opts opts).flags in
      (s', int_to_err codes rc)

  unfoldable pub create : S → (count : ℕ) → List RingOption → S × Made
  create s count opts =
      let rc = make_opts opts in
      let (s', r) = rte.ring_create s (u32 count) rc.socket rc.flags in
      if r == 0
      then (s', record { r = 0; err = rte_errno codes (rte.errno_of s') })
      else (s', record { r = r; err = Error.no_error })

  -- `&p[0]` panics where the slice is empty.
  unfoldable pub new : S → (count : ℕ) → List RingOption → Option (S × Made)
  new s count opts =
      let size = get_mem_size count in
      if not (is_nil size.1)
      then some (s, record { r = 0; err = size.1 })
      else if size.0 == 0
      then none
      else (let made = rte.go_make s size.0 in
          let inited = init made.0 made.1 count opts in
          some (inited.0, record { r = made.1; err = inited.1 }))

  unfoldable pub new_eal : S → (count : ℕ) → List RingOption → S × Made
  new_eal s count opts =
      let size = get_mem_size count in
      let rc = make_opts opts in
      let made = rte.zmalloc s size.0 rc.align rc.socket in
      let inited = init made.0 made.1 count opts in
      if not (is_nil size.1)
      then (s, record { r = 0; err = size.1 })
      else if made.1 == 0
      then (made.0, record { r = 0; err = enomem })
      else if not (is_nil inited.1)
      then (rte.rte_free inited.0 made.1, record { r = 0; err = inited.1 })
      else (inited.0, record { r = made.1; err = Error.no_error })

  unfoldable pub free : S → (r : ℕ) → S
  free s r =
      if not (r == 0) && not (rte.memzone s r == 0) then rte.ring_free s r else rte.rte_free s r
