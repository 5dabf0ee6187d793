-- ===== src/Packet/Edit/Bytes.antt =====
-- `PacketBytesChange` and `GetPacketPayload`.
use go_dpdk.Base.{
  ℕ, ◌+◌, ◌-◌, ◌%◌, ◌*◌, ◌^◌, ◌≤◌, ◌<◌, ◌≡◌, ◌⊎◌, ◌↔◌, refl, sym, inl, inr, ap, ◌∙◌, true, false,
  Bool, List, [], ◌∷◌, Option, none, some, arith, ltb, if◌then◌else◌, u64, sub64, length, drop, pos,
  negsuc, Bool-cases, ℤ,
}
use go_dpdk.Memory.{
  Memory, load8, store8, load_bytes, store_bytes, IsBytes, load8-lt, length-load_bytes,
  load_bytes-store_bytes, load8-store_bytes_out,
}
use go_dpdk.Mbuf
use go_dpdk.Mbuf.{Mbuf}
use go_dpdk.Mbuf.Room.{IsValid}
use go_dpdk.Packet.Parse.{Packet, start_at_offset, parse_data}
use go_dpdk.Packet.Parse.Wire.{payload_at, outcome, parse_data-payload_at}
use go_dpdk.Packet.Edit.{write_loop, packet_bytes_change, slice_payload, get_packet_payload}

write_loop-eq-store_bytes :
    (m : Memory) (base i : ℕ) (bytes : List ℕ)
    → write_loop m base i bytes ≡ store_bytes m (base + i) bytes
unfolding write_loop store_bytes
write_loop-eq-store_bytes m base i [] = refl
write_loop-eq-store_bytes m base i (b ∷ bytes) =
    write_loop-eq-store_bytes (store8 m (base + i) b) base (i + 1) bytes
    ∙ ap (λ a. store_bytes (store8 m (base + i) b) a bytes) (omega arith)

module _ (m : Memory) {reserved : ℕ} (p : Packet) (v : IsValid reserved p.cmbuf) (start : ℕ)
    (bytes : List ℕ) (narrow : start + length bytes < 2 ^ 64) where
  -- On a valid mbuf and for ranges that end below 2 ^ 64, `PacketBytesChange` accepts exactly the ranges that lie in the packet.
  pub packet_bytes_change_guard :
      ((packet_bytes_change m p start bytes).1 ≡ true) ↔ (start + length bytes ≤ p.cmbuf.data_len)
  unfolding packet_bytes_change Mbuf.get_pkt_len_mbuf
  packet_bytes_change_guard = ground arith

  module _ (fits : start + length bytes ≤ p.cmbuf.data_len) where
    change_run : (packet_bytes_change m p start bytes).0 ≡ store_bytes m (p.l2 + start) bytes
    unfolding packet_bytes_change Mbuf.get_pkt_len_mbuf start_at_offset
    change_run =
        let test : ltb p.cmbuf.pkt_len (u64 (start + length bytes)) ≡ false = ground arith in
        rw test (
          write_loop-eq-store_bytes m (p.l2 + 0) start bytes
          ∙ ap (λ a. store_bytes m a bytes) (omega arith))

    -- On a valid mbuf, a range that lies in the packet and ends below 2 ^ 64 holds the new bytes, all
    -- below 256, after `PacketBytesChange`, and no other byte changes.
    pub packet_bytes_change_lem :
        IsBytes bytes
        → (a : ℕ) → (a < p.l2 + start) ⊎ (p.l2 + start + length bytes ≤ a)
        → let m' = (packet_bytes_change m p start bytes).0 in
          (load_bytes m' (p.l2 + start) (length bytes) ≡ bytes) × (load8 m' a ≡ load8 m a)
    packet_bytes_change_lem h a out = rw change_run (
      load_bytes-store_bytes m (p.l2 + start) bytes h,
      load8-store_bytes_out m (p.l2 + start) a bytes out,
    )

payload_at_bounds : (m : Memory) (s : ℕ) {q : ℕ} → payload_at m s ≡ some q → (s ≤ q) × (q < s + 200)
payload_at_bounds m s h =
    ground
      (arith, load8-lt m (s + 14 + load8 m (s + 14) % 16 * 4 + 12), load8-lt m (s + 14 + 40 + 12))

-- What a caller gets, without the packet; `none` is a panic.
abbrev pub result : Option (Packet × List ℕ × Bool) → Option (List ℕ × Bool)
result none = none
result (some (p, bytes, found)) = some (bytes, found)

-- The bytes behind the headers, for what the headers say of their end.
abbrev pub behind_headers : Memory → (start len : ℕ) → Option ℕ → Option (List ℕ × Bool)
behind_headers m start len none = some ([], false)
behind_headers m start len (some q) =
    if ltb len (q - start) then none else some (drop (q - start) (load_bytes m start len), true)

slice_payload_lem :
    (m : Memory) (p : Packet) (r : Packet × ℤ)
    → p.l2 ≡ p.cmbuf.buf_addr + p.cmbuf.data_off
    → p.l2 + 200 < 2 ^ 64
    → ((q : ℕ) → outcome r ≡ some q → (p.l2 ≤ q) × (q < p.l2 + 200))
    → result (slice_payload m p r) ≡ behind_headers m p.l2 p.cmbuf.data_len (outcome r)
unfolding slice_payload Mbuf.get_raw_packet_bytes_mbuf start_at_offset
slice_payload_lem m p (q, negsuc _) at high bounds = refl
slice_payload_lem m p (q, pos _) at high bounds =
    let near = bounds q.payload refl in
    let hdrs : sub64 q.payload (p.l2 + 0) ≡ q.payload - p.l2 = omega arith in
    rw (← at, hdrs, length-load_bytes m p.l2 p.cmbuf.data_len)
      (elim (Bool-cases (ltb p.cmbuf.data_len (q.payload - p.l2))) [
        | inl short ↦ rw short
        | inr long ↦ rw long
      ])

-- `GetPacketPayload` returns the bytes behind the headers; it reports failure where `ParseData`
-- fails, and it panics exactly when the headers claim more bytes than the packet has. The packet's
-- `L2` is current and not within 200 bytes of the end of the address space.
pub get_packet_payload_lem :
    (m : Memory) (p : Packet)
    → p.l2 ≡ p.cmbuf.buf_addr + p.cmbuf.data_off
    → p.l2 + 200 < 2 ^ 64
    → result (get_packet_payload m p) ≡ behind_headers m p.l2 p.cmbuf.data_len (payload_at m p.l2)
unfolding get_packet_payload
get_packet_payload_lem m p at high = rw (← parse_data-payload_at m p) (
    slice_payload_lem m p (parse_data m p) at high
      λ q e. payload_at_bounds m p.l2 (sym (parse_data-payload_at m p) ∙ e))
