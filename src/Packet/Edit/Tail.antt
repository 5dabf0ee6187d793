-- ===== src/Packet/Edit/Tail.antt =====
-- `EncapsulateTail` and `DecapsulateTail`.
use go_dpdk.Base.{
  ℕ, ◌+◌, ◌-◌, ◌≤◌, ◌<◌, ◌≡◌, inl, refl, ap, ◌∙◌, true, false, dec_lt, arith, ltb, lt→ltb,
  if◌then◌else◌,
}
use go_dpdk.Memory.{Memory, load8}
use go_dpdk.Mbuf
use go_dpdk.Mbuf.{Mbuf}
use go_dpdk.Mbuf.Room.{IsValid}
use go_dpdk.Packet.Parse.{Packet, start_at_offset}
use go_dpdk.Packet.Edit.{shift_up, shift_down, encapsulate_tail, decapsulate_tail}
use go_dpdk.Packet.Edit.Shift.{shift_up_in, shift_up_out, shift_down_in, shift_down_out}

module _ (m : Memory) {reserved : ℕ} (p : Packet) (v : IsValid reserved p.cmbuf) (start len : ℕ)
    (inside : start ≤ p.cmbuf.data_len) where
  module _ (room : p.cmbuf.data_off + p.cmbuf.data_len + len ≤ p.cmbuf.buf_len) where
    encapsulate_tail_run : encapsulate_tail m p start len ≡ (
      (
        shift_up m p.l2 len start (p.cmbuf.data_len - start),
        record p {
          cmbuf = record p.cmbuf {
            data_len = p.cmbuf.data_len + len;
            pkt_len = p.cmbuf.data_len + len;
          };
        },
      ),
      true,
    )
    unfolding encapsulate_tail start_at_offset Mbuf.append_mbuf Mbuf.get_pkt_len_mbuf
    encapsulate_tail_run = ground arith

    -- On a valid mbuf with room for `len` more bytes and a start inside the packet, `EncapsulateTail`
    -- opens a gap of `len` bytes at `start`: the bytes before it stay,
    -- and those behind it are the old ones, moved up.
    pub encapsulate_tail-byte :
        (j : ℕ)
        → j < p.cmbuf.data_len + len
        → load8 (encapsulate_tail m p start len).0.0 (p.l2 + j)
          ≡ (if ltb j (start + len) then load8 m (p.l2 + j) else load8 m (p.l2 + (j - len)))
    encapsulate_tail-byte j h = rw encapsulate_tail_run (elim (dec_lt j (start + len)) [
      | yes before ↦
          rw (lt→ltb _ _ before) (
            shift_up_out p.l2 len m start (p.cmbuf.data_len - start) (p.l2 + j) (inl (omega arith)))
      | no behind ↦
          let test : ltb j (start + len) ≡ false = ground arith in
          let at : p.l2 + j ≡ p.l2 + (j - len) + len = omega arith in
          rw (test, at)
            (shift_up_in p.l2 len m start (p.cmbuf.data_len - start) (p.l2 + (j - len))
              (omega arith) (omega arith))
    ])

  module _ (enough : len ≤ p.cmbuf.data_len) where
    decapsulate_tail_run : decapsulate_tail m p start len ≡ (
      (
        shift_down m p.l2 len (p.cmbuf.data_len - start) start,
        record p {
          cmbuf = record p.cmbuf {
            data_len = p.cmbuf.data_len - len;
            pkt_len = p.cmbuf.data_len - len;
          };
        },
      ),
      true,
    )
    unfolding decapsulate_tail start_at_offset Mbuf.trim_mbuf Mbuf.get_pkt_len_mbuf
    decapsulate_tail_run = ground arith

    -- On a valid mbuf with `len` bytes or more and a start inside the packet, `DecapsulateTail` closes a gap of `len` bytes at `start`, within the packet that
    -- is left.
    pub decapsulate_tail-byte :
        (j : ℕ)
        → j < p.cmbuf.data_len - len
        → load8 (decapsulate_tail m p start len).0.0 (p.l2 + j)
          ≡ (if ltb j start then load8 m (p.l2 + j) else load8 m (p.l2 + (j + len)))
    decapsulate_tail-byte j h = rw decapsulate_tail_run (elim (dec_lt j start) [
      | yes before ↦ rw (lt→ltb _ _ before) (
          shift_down_out p.l2 len m (p.cmbuf.data_len - start) start (p.l2 + j) (inl (omega arith)))
      | no behind ↦
          let test : ltb j start ≡ false = ground arith in
          rw test (
            shift_down_in p.l2 len m (p.cmbuf.data_len - start) start (p.l2 + j) (omega arith)
              (omega arith)
            ∙ ap (load8 m) (omega arith))
    ])

-- On a valid mbuf with room for `len` more bytes and a start inside the packet, `DecapsulateTail`
-- undoes `EncapsulateTail`: it succeeds, the packet is the one before, and so is
-- every byte of it.
pub decapsulate_tail-encapsulate_tail :
    (m : Memory) {reserved : ℕ} (p : Packet)
    → IsValid reserved p.cmbuf
    → (start len j : ℕ) → start ≤ p.cmbuf.data_len
    → p.cmbuf.data_off + p.cmbuf.data_len + len ≤ p.cmbuf.buf_len
    → j < p.cmbuf.data_len
    → let there = encapsulate_tail m p start len in
      let back = decapsulate_tail there.0.0 there.0.1 start len in
      (back.1 ≡ true) × (back.0.1 ≡ p) × (load8 back.0.0 (p.l2 + j) ≡ load8 m (p.l2 + j))
decapsulate_tail-encapsulate_tail m {reserved} p v start len j inside room h =
    let q = record p {
      cmbuf = record p.cmbuf {
        data_len = p.cmbuf.data_len + len;
        pkt_len = p.cmbuf.data_len + len;
      };
    } in
    let m' = shift_up m p.l2 len start (p.cmbuf.data_len - start) in
    let w : IsValid reserved q.cmbuf = record {
      small = v.small;
      behind = v.behind;
      within = omega arith;
      single = refl;
    } in
    let run = decapsulate_tail_run m' q w start len (omega arith) (omega arith) in
    let byte = decapsulate_tail-byte m' q w start len (omega arith) (omega arith) j (omega arith) in
    rw (encapsulate_tail_run m p v start len inside room) (
      ap (λ r. r.1) run,
      ap (λ r. r.0.1) run ∙ ground arith,
      elim (dec_lt j start) [
        | yes before ↦
            byte
            ∙ rw (lt→ltb _ _ before) (
                shift_up_out p.l2 len m start (p.cmbuf.data_len - start) (p.l2 + j)
                  (inl (omega arith)))
        | no behind ↦
            let test : ltb j start ≡ false = ground arith in
            let at : p.l2 + (j + len) ≡ p.l2 + j + len = omega arith in
            byte
            ∙ rw (test, at)
                (shift_up_in p.l2 len m start (p.cmbuf.data_len - start) (p.l2 + j) (omega arith)
                  (omega arith))
      ],
    )
