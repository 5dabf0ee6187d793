-- ===== src/Util/Hash32/Laws.antt =====
-- What is hashed does not depend on how it is cut into writes.
use go_dpdk.Base.{
  ℕ, ◌+◌, ◌*◌, ◌^◌, ◌<◌, ◌≡◌, refl, sym, ap, ◌∙◌, arith, Bool, true, false, List, [], ◌∷◌, ◌++◌,
  length, u8, not32, ◌>>>◌, if◌then◌else◌,
}
use mathlib.Core.List.{append-nil}
use go_dpdk.Util.Hash32.{
  Accum, Hash32, write, sum, sum32, reset, size, complement_func, crc_update, new_crc_hash,
}

-- The state after some writes.
abbrev pub writes : Hash32 → List (List ℕ) → Hash32
writes h [] = h
writes h (p ∷ ps) = writes (write h p).0 ps

abbrev pub joined : List (List ℕ) → List ℕ
joined [] = []
joined (p ∷ ps) = p ++ joined ps

not32-not32 : (x : ℕ) → x < 2 ^ 32 → not32 (not32 x) ≡ x
not32-not32 x lt = omega (arith, lt)

-- A hash function that can go on from its result, which is a uint32.
pub record IsStreaming (f : Accum) : Type 0 where
  pub append : (p q : List ℕ) (acc : ℕ) → f (p ++ q) acc ≡ f q (f p acc)
  pub low : (p : List ℕ) (acc : ℕ) → f p acc < 2 ^ 32

abbrev advance : Accum → Bool → List ℕ → ℕ → ℕ
advance f c p v = if c then not32 (f p (not32 v)) else f p v

advance-append :
    (f : Accum)
    → IsStreaming f
    → (c : Bool) (p q : List ℕ) (v : ℕ) → advance f c q (advance f c p v) ≡ advance f c (p ++ q) v
advance-append f s true p q v =
    rw (not32-not32 (f p (not32 v)) (s.low p (not32 v))) (ap not32 (sym (s.append p q (not32 v))))
advance-append f s false p q v = sym (s.append p q v)

write-append :
    (h : Hash32) (p q : List ℕ)
    → IsStreaming h.accum
    → (write (write h p).0 q).0 ≡ (write h (p ++ q)).0
unfolding write
write-append h p q f =
    ap (λ v. record h { value = v }) (advance-append h.accum f h.ones_complement p q h.value)

writes-joined :
    (h : Hash32) (p : List ℕ) (ps : List (List ℕ))
    → IsStreaming h.accum
    → writes h (p ∷ ps) ≡ (write h (p ++ joined ps)).0
unfolding write
writes-joined h p [] f = ap (λ s. (write h s).0) (sym (append-nil p))
writes-joined h p (q ∷ ps) f =
    writes-joined (write h p).0 q ps f ∙ write-append h p (q ++ joined ps) f

complement_func-IsStreaming : (f : Accum) → IsStreaming f → IsStreaming (complement_func f)
unfolding complement_func
complement_func-IsStreaming f s = record {
  append = λ p q acc.
      rw (not32-not32 (f p (not32 acc)) (s.low p (not32 acc)))
        (ap not32 (s.append p q (not32 acc)));
  low = λ p acc. omega arith;
}

reset-writes : (h : Hash32) (ps : List (List ℕ)) → reset (writes h ps) ≡ reset h
unfolding reset write
reset-writes h [] = refl
reset-writes h (p ∷ ps) = reset-writes (write h p).0 ps

-- The number that bytes stand for, the most significant first.
abbrev pub value_from : ℕ → List ℕ → ℕ
value_from acc [] = acc
value_from acc (x ∷ xs) = value_from (acc * 256 + x) xs

-- `Sum` appends as many bytes as `Size` says to its argument, and they are the value that `Sum32`
-- returns, the most significant byte first, where that is a uint32.
pub sum-sum32 :
    (h : Hash32) (b : List ℕ)
    → sum32 h < 2 ^ 32
    → (s : List ℕ) × (sum h b ≡ b ++ s) × (length s ≡ size h) × (value_from 0 s ≡ sum32 h)
unfolding sum sum32 size
sum-sum32 h b low = (
  u8 (h.value >>> 24) ∷ u8 (h.value >>> 16) ∷ u8 (h.value >>> 8) ∷ u8 h.value ∷ [],
  refl,
  refl,
  omega (arith, low),
)

abbrev with_accum : (complement : Bool) → Accum → (seed value : ℕ) → Hash32
with_accum complement f seed value = record {
  seed = seed;
  value = value;
  block = 8;
  ones_complement = complement;
  accum = f;
}

writes-ones_complement :
    (f : Accum) (seed value : ℕ) (ps : List (List ℕ))
    → sum32 (writes (with_accum false (complement_func f) seed value) ps)
      ≡ sum32 (writes (with_accum true f seed value) ps)
unfolding sum32 write complement_func
writes-ones_complement f seed value [] = refl
writes-ones_complement f seed value (p ∷ ps) =
    writes-ones_complement f seed (not32 (f p (not32 value))) ps

module _ (rte_hash_crc : (bytes : List ℕ) (len acc : ℕ) → ℕ) where
  new_crc_hash-IsStreaming :
      (seed : ℕ) (complement : Bool)
      → IsStreaming (crc_update rte_hash_crc)
      → IsStreaming (new_crc_hash rte_hash_crc seed complement).accum
  unfolding new_crc_hash
  new_crc_hash-IsStreaming seed true f = complement_func-IsStreaming (crc_update rte_hash_crc) f
  new_crc_hash-IsStreaming seed false f = f

  written :
      (seed : ℕ) (complement : Bool) (p : List ℕ)
      → sum32 (write (reset (new_crc_hash rte_hash_crc seed complement)) p).0 ≡ (
          if complement
          then not32 (crc_update rte_hash_crc p (not32 seed))
          else crc_update rte_hash_crc p seed)
  unfolding sum32 write reset new_crc_hash complement_func
  written seed true p = refl
  written seed false p = refl

  -- Where the CRC function can go on from its result, which is a uint32: after `Reset`, whatever
  -- was written before it, the hash is the CRC of all bytes that are written, in however many
  -- writes, from the seed on; with the complement, of the complemented seed, complemented.
  pub new_crc_hash-joined :
      (seed : ℕ) (complement : Bool) (before : List (List ℕ)) (p : List ℕ) (ps : List (List ℕ))
      → IsStreaming (crc_update rte_hash_crc)
      → sum32 (writes (reset (writes (new_crc_hash rte_hash_crc seed complement) before)) (p ∷ ps))
        ≡ (if complement
            then not32 (crc_update rte_hash_crc (p ++ joined ps) (not32 seed))
            else crc_update rte_hash_crc (p ++ joined ps) seed)
  unfolding new_crc_hash reset
  new_crc_hash-joined seed complement before p ps f =
      let h = new_crc_hash rte_hash_crc seed complement in
      let streaming = new_crc_hash-IsStreaming seed complement f in
      ap (λ s. sum32 (writes s (p ∷ ps))) (reset-writes h before)
      ∙ ap sum32 (writes-joined (reset h) p ps streaming)
      ∙ written seed complement (p ++ joined ps)

  -- The accumulator that `NewCrcHash` complements and the flag `OnesComplement` on the plain one
  -- give the same hash, whatever is written.
  pub new_crc_hash-ones_complement :
      (seed : ℕ) (ps : List (List ℕ))
      → let flagged : Hash32 = record {
        seed = seed;
        value = seed;
        block = 8;
        ones_complement = true;
        accum = crc_update rte_hash_crc;
      } in
        sum32 (writes (new_crc_hash rte_hash_crc seed true) ps) ≡ sum32 (writes flagged ps)
  unfolding new_crc_hash
  new_crc_hash-ones_complement seed ps =
      writes-ones_complement (crc_update rte_hash_crc) seed seed ps
