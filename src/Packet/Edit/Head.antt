-- ===== src/Packet/Edit/Head.antt =====
-- `EncapsulateHead` and `DecapsulateHead`.
use go_dpdk.Base.{
  ℕ, ◌+◌, ◌-◌, ◌≤◌, ◌<◌, ◌≡◌, inl, inr, refl, ap, ◌∙◌, true, false, dec_lt, arith, ltb, lt→ltb,
  if◌then◌else◌, u64, sub64,
}
use go_dpdk.Memory.{Memory, load8}
use go_dpdk.Mbuf
use go_dpdk.Mbuf.{Mbuf}
use go_dpdk.Mbuf.Room.{IsValid}
use go_dpdk.Packet.Parse.{Packet, start_at_offset}
use go_dpdk.Packet.Edit.{shift_up, shift_down, encapsulate_head, decapsulate_head}
use go_dpdk.Packet.Edit.Shift.{shift_up_in, shift_up_out, shift_down_in, shift_down_out}

module _ (m : Memory) {reserved : ℕ} (p : Packet) (v : IsValid reserved p.cmbuf)
    (start len : ℕ) where
  module _ (enough : len ≤ p.cmbuf.data_len) where
    decapsulate_head_run : decapsulate_head m p start len ≡ (
      (
        shift_up m p.l2 len 0 start,
        record p {
          cmbuf = record p.cmbuf {
            data_off = p.cmbuf.data_off + len;
            data_len = p.cmbuf.data_len - len;
            pkt_len = p.cmbuf.data_len - len;
          };
          ether = u64 (p.ether + len);
        },
      ),
      true,
    )
    unfolding decapsulate_head start_at_offset Mbuf.adj_mbuf
    decapsulate_head_run = ground arith

    -- On a valid mbuf with `len` bytes or more, `DecapsulateHead` removes `len` bytes at `start` from a packet whose `L2` is
    -- current: the bytes before the gap are moved up to the new start, those behind it stay.
    pub decapsulate_head-byte :
        (j : ℕ)
        → load8 (decapsulate_head m p start len).0.0 (p.l2 + (j + len))
          ≡ (if ltb j start then load8 m (p.l2 + j) else load8 m (p.l2 + (j + len)))
    decapsulate_head-byte j = rw decapsulate_head_run (elim (dec_lt j start) [
      | yes before ↦
          let at : p.l2 + (j + len) ≡ p.l2 + j + len = omega arith in
          rw (lt→ltb _ _ before, at)
            (shift_up_in p.l2 len m 0 start (p.l2 + j) (omega arith) (omega arith))
      | no behind ↦
          let test : ltb j start ≡ false = ground arith in
          rw test (shift_up_out p.l2 len m 0 start (p.l2 + (j + len)) (inr (omega arith)))
    ])

    -- It moves the mbuf's data but not the packet's `L2`, so that offsets still count from the old
    -- start.
    pub decapsulate_head-l2 :
        let q = (decapsulate_head m p start len).0.1 in
        (q.cmbuf.data_off ≡ p.cmbuf.data_off + len) × (start_at_offset q 0 ≡ start_at_offset p 0)
    unfolding start_at_offset
    decapsulate_head-l2 = rw decapsulate_head_run (refl, refl)

  module _ (room : reserved + len ≤ p.cmbuf.data_off) where
    encapsulate_head_run : encapsulate_head reserved m p start len ≡ (
      (
        shift_down m p.l2 len start 0,
        record p {
          cmbuf = record p.cmbuf {
            data_off = p.cmbuf.data_off - len;
            data_len = p.cmbuf.data_len + len;
            pkt_len = p.cmbuf.data_len + len;
          };
          ether = sub64 p.ether len;
        },
      ),
      true,
    )
    unfolding encapsulate_head start_at_offset Mbuf.prepend_mbuf
    encapsulate_head_run = ground arith

    -- On a valid mbuf with a headroom for `len` more bytes, after `EncapsulateHead` the byte at `j < start` of the longer packet is byte `j`
    -- of the old one only from `len` on. The first `len` bytes of the head are not moved to the new
    -- start, since `StartAtOffset` counts from the old one: there the headroom shows through.
    pub encapsulate_head-byte :
        len ≤ p.l2
        → (j : ℕ) → j < start
        → load8 (encapsulate_head reserved m p start len).0.0 (p.l2 - len + j)
          ≡ (if ltb j len then load8 m (p.l2 - len + j) else load8 m (p.l2 + j))
    encapsulate_head-byte low j h = rw encapsulate_head_run (elim (dec_lt j len) [
      | yes before ↦
          rw (lt→ltb _ _ before)
            (shift_down_out p.l2 len m start 0 (p.l2 - len + j) (inl (omega arith)))
      | no behind ↦
          let test : ltb j len ≡ false = ground arith in
          rw test (
            shift_down_in p.l2 len m start 0 (p.l2 - len + j) (omega arith) (omega arith)
            ∙ ap (load8 m) (omega arith))
    ])
