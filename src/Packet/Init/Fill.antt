-- ===== src/Packet/Init/Fill.antt =====
-- What the stores of the Init functions leave at each address.
use go_dpdk.Base.{ℕ, ◌+◌, ◌^◌, ◌≤◌, ◌<◌, ◌≡◌, ◌≢◌, ◌⊎◌, inl, inr, ◌∙◌, arith, u8, Bool, true, false}
use go_dpdk.Memory.{Memory, load8, store8, store16, load8-store8, load8-store16}
use go_dpdk.Packet.Swap.{be16, swap_bytes_uint16, be16-store16, be16-store16_ne}
use go_dpdk.Packet.Parse.{Packet}
use go_dpdk.Packet.Init.{fill_ipv4_default, reset_checksum, set_ether_type}

-- A word that a byte store does not touch.
pub be16-store8_ne : (m : Memory) (a v b : ℕ) → b ≢ a → b + 1 ≢ a → be16 (store8 m a v) b ≡ be16 m b
unfolding be16
be16-store8_ne m a v b h k = ground (arith, load8-store8 m a b v, load8-store8 m a (b + 1) v)

-- A word is its two bytes.
pub be16-same :
    (m m' : Memory) (a : ℕ)
    → load8 m' a ≡ load8 m a
    → load8 m' (a + 1) ≡ load8 m (a + 1)
    → be16 m' a ≡ be16 m a
unfolding be16
be16-same m m' a h k = omega arith

pub load8-store16_ne :
    (m : Memory) (a v b : ℕ) → b ≢ a → b ≢ a + 1 → load8 (store16 m a v) b ≡ load8 m b
load8-store16_ne m a v b h k = ground (arith, load8-store16 m a b v)

module _ (m : Memory) (p : Packet) (len proto : ℕ) where
  -- The fields that `fillIPv4Default` sets.
  pub record IsFilled4 (m' : Memory) : Type 0 where
    pub version : load8 m' p.l3 ≡ 0x45
    pub protocol : load8 m' (p.l3 + 9) ≡ u8 proto
    pub total : be16 m' (p.l3 + 2) ≡ len
    pub before : (a : ℕ) → a < p.l3 → load8 m' a ≡ load8 m a

  pub fill_ipv4_default-IsFilled : len < 2 ^ 16 → IsFilled4 (fill_ipv4_default m p len proto)
  unfolding fill_ipv4_default
  fill_ipv4_default-IsFilled h =
      let m1 = store8 m p.l3 0x45 in
      let m2 = store16 m1 (p.l3 + 2) (swap_bytes_uint16 len) in
      let m3 = store8 m2 (p.l3 + 9) proto in
      record {
        version = ground (
          arith,
          load8-store8 m3 (p.l3 + 8) p.l3 64,
          load8-store8 m2 (p.l3 + 9) p.l3 proto,
          load8-store16_ne m1 (p.l3 + 2) (swap_bytes_uint16 len) p.l3,
          load8-store8 m p.l3 p.l3 0x45,
        );
        protocol = ground (
          arith,
          load8-store8 m3 (p.l3 + 8) (p.l3 + 9) 64,
          load8-store8 m2 (p.l3 + 9) (p.l3 + 9) proto,
        );
        total =
            be16-store8_ne m3 (p.l3 + 8) 64 (p.l3 + 2) (omega arith) (omega arith)
            ∙ be16-store8_ne m2 (p.l3 + 9) proto (p.l3 + 2) (omega arith) (omega arith)
            ∙ be16-store16 m1 (p.l3 + 2) len h;
        before = λ a lt. ground (
          arith,
          load8-store8 m3 (p.l3 + 8) a 64,
          load8-store8 m2 (p.l3 + 9) a proto,
          load8-store16_ne m1 (p.l3 + 2) (swap_bytes_uint16 len) a,
          load8-store8 m p.l3 a 0x45,
        );
      }

-- A frame at `s` that says IPv4 without options, the protocol and the total length.
pub record IsFrame4 (s proto len : ℕ) (m : Memory) : Type 0 where
  pub ether_type : be16 m (s + 12) ≡ 0x0800
  pub version : load8 m (s + 14) ≡ 0x45
  pub protocol : load8 m (s + 14 + 9) ≡ proto
  pub total : be16 m (s + 14 + 2) ≡ len

module _ {s proto len : ℕ} {m : Memory} (f : IsFrame4 s proto len m) where
  -- Stores behind the IPv4 header keep it.
  pub store8-IsFrame4 : (a v : ℕ) → s + 34 ≤ a → IsFrame4 s proto len (store8 m a v)
  store8-IsFrame4 a v h = record {
    ether_type = be16-store8_ne m a v (s + 12) (omega arith) (omega arith) ∙ f.ether_type;
    version = ground (arith, load8-store8 m a (s + 14) v);
    protocol = ground (arith, load8-store8 m a (s + 14 + 9) v);
    total = be16-store8_ne m a v (s + 14 + 2) (omega arith) (omega arith) ∙ f.total;
  }

  pub store16-IsFrame4 :
      (a v : ℕ) → (s + 34 ≤ a) ⊎ (a ≡ s + 14 + 10) → IsFrame4 s proto len (store16 m a v)
  store16-IsFrame4 a v h = record {
    ether_type = be16-store16_ne m a v (s + 12) (inl (omega arith)) ∙ f.ether_type;
    version = ground (arith, load8-store16_ne m a v (s + 14));
    protocol = ground (arith, load8-store16_ne m a v (s + 14 + 9));
    total = be16-store16_ne m a v (s + 14 + 2) (inl (omega arith)) ∙ f.total;
  }

  pub reset_checksum-IsFrame4 :
      (hw : Bool) (p : Packet) → p.l3 ≡ s + 14 → IsFrame4 s proto len (reset_checksum hw m p)
  unfolding reset_checksum
  reset_checksum-IsFrame4 true p e = store16-IsFrame4 (p.l3 + 10) 0 (inr (omega arith))
  reset_checksum-IsFrame4 false p e = f

-- The EtherType and the IPv4 defaults make such a frame.
pub fill-IsFrame4 :
    (m : Memory) (p q : Packet) (len proto : ℕ)
    → p.ether ≡ p.l2
    → q.l3 ≡ p.l2 + 14
    → len < 2 ^ 16
    → proto < 256
    → IsFrame4 p.l2 proto len (fill_ipv4_default (set_ether_type m p 0x0800) q len proto)
unfolding set_ether_type
fill-IsFrame4 m p q len proto here l3 h k =
    let m1 = store16 m (p.ether + 12) (swap_bytes_uint16 0x0800) in
    let f = fill_ipv4_default-IsFilled m1 q len proto h in
    record {
      ether_type =
          be16-same m1 (fill_ipv4_default m1 q len proto) (p.l2 + 12)
            (f.before (p.l2 + 12) (omega arith)) (f.before (p.l2 + 12 + 1) (omega arith))
          ∙ rw (← here) (be16-store16 m (p.ether + 12) 0x0800 (omega arith));
      version = rw (← l3) f.version;
      protocol = rw (← l3) (f.protocol ∙ omega arith);
      total = rw (← l3) f.total;
    }
