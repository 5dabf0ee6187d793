-- ===== src/Memzone/Walked.antt =====
-- Walk calls its function on every zone and leaves the registry's other objects.
use go_dpdk.Base.{
  ℕ, ◌+◌, ◌^◌, ◌<◌, ◌≡◌, refl, ◌∙◌, arith, Option, none, some, List, [], ◌∷◌, length, length-append,
  get_elem?,
}
use go_dpdk.Common.Registry.{ObjArray, array_create, array_read, array_delete}
use go_dpdk.Common.Registry.Array.{
  IsCounted, array_create_lem, array_delete_lem, reads_after, inside_of,
}
use go_dpdk.Memzone.{mz_cb, walk_zones, walk}

module _ {ℓ} {Z S : Type ℓ} where
  -- The function on the zones, one after the other.
  unfoldable pub visit : (Z → S → S) → List Z → S → S
  visit fn [] s = s
  visit fn (mz ∷ zones) s = visit fn zones (fn mz s)

  walk_zones-visit :
      (callbacks : ObjArray (Z → S → S)) (cb : ℕ) (fn : Z → S → S) (zones : List Z) (s : S)
      → array_read callbacks cb ≡ some (some fn)
      → walk_zones callbacks cb zones s ≡ some (visit fn zones s)
  unfolding walk_zones mz_cb visit
  walk_zones-visit callbacks cb fn [] s e = refl
  walk_zones-visit callbacks cb fn (mz ∷ zones) s e =
      rw (walk_zones, mz_cb, e) (walk_zones-visit callbacks cb fn zones (fn mz s) e)

  deleted :
      (o : Option (ObjArray (Z → S → S))) (j : ℕ) (b : Z → S → S)
      → reads_after o j ≡ some (some b)
      → (r' : ObjArray (Z → S → S)) × (o ≡ some r') × (array_read r' j ≡ some (some b))
  deleted none j b h = absurd cc
  deleted (some r) j b h = (r, refl, h)

  reads :
      (r : ObjArray (Z → S → S)) (j : ℕ) {o : Option (Z → S → S)}
      → array_read r j ≡ some o
      → get_elem? r.array j ≡ some o
  unfolding array_read
  reads r j e = e

  walk-eq :
      (callbacks callbacks' : ObjArray (Z → S → S)) (fn : Z → S → S) (zones : List Z) (s s' : S)
      → walk_zones (array_create callbacks (some fn)).0 (array_create callbacks (some fn)).1 zones s
        ≡ some s'
      → array_delete (array_create callbacks (some fn)).0 (array_create callbacks (some fn)).1
        ≡ some callbacks'
      → walk callbacks fn zones s ≡ some (callbacks', s')
  unfolding walk
  walk-eq callbacks callbacks' fn zones s s' p q = rw (walk, p, q) refl

  created_at :
      (callbacks : ObjArray (Z → S → S)) (fn : Z → S → S)
      → ((array_create callbacks (some fn)).1 ≡ length callbacks.array)
        × (length (array_create callbacks (some fn)).0.array ≡ length callbacks.array + 1)
  unfolding array_create
  created_at callbacks fn = (refl, length-append callbacks.array (some fn ∷ []) ∙ omega arith)

  -- While a function is registered it is read back, and every callback that was registered before
  -- is there when the function has been deleted again.
  pub with_callback :
      (callbacks : ObjArray (Z → S → S)) (fn other : Z → S → S) (j : ℕ)
      → IsCounted callbacks
      → length callbacks.array + 1 < 2 ^ 63
      → array_read callbacks j ≡ some (some other)
      → (callbacks' : ObjArray (Z → S → S)) × (array_read
            (array_create callbacks (some fn)).0
            (array_create callbacks (some fn)).1
          ≡ some (some fn))
        × (array_delete (array_create callbacks (some fn)).0 (array_create callbacks (some fn)).1
            ≡ some callbacks')
        × (array_read callbacks' j ≡ some (some other))
  with_callback callbacks fn other j counted room there =
      let r = (array_create callbacks (some fn)).0 in
      let cb = (array_create callbacks (some fn)).1 in
      let inside = inside_of callbacks.array j (reads callbacks j there) in
      let (cnt, mine, kept) = array_create_lem callbacks fn j counted inside in
      let (at, size) = created_at callbacks fn in
      let still : IsCounted r = record { counted = cnt; narrow = omega arith } in
      let (callbacks', gone, back) =
        deleted (array_delete r cb) j other
          (array_delete_lem r cb j still mine (λ e. omega arith) (kept ∙ there)) in
      (callbacks', mine, gone, back)

  -- Where the registry's counter counts its objects, Walk calls the function on every zone in
  -- order, and every callback that was registered is registered afterwards.
  pub walk-visit :
      (callbacks : ObjArray (Z → S → S)) (fn other : Z → S → S) (zones : List Z) (s : S) (j : ℕ)
      → IsCounted callbacks
      → length callbacks.array + 1 < 2 ^ 63
      → array_read callbacks j ≡ some (some other)
      → (callbacks' : ObjArray (Z → S → S)) × (walk callbacks fn zones s
          ≡ some (callbacks', visit fn zones s))
        × (array_read callbacks' j ≡ some (some other))
  walk-visit callbacks fn other zones s j counted room there =
      let (callbacks', mine, gone, back) = with_callback callbacks fn other j counted room there in
      (
        callbacks',
        walk-eq callbacks callbacks' fn zones s (visit fn zones s)
            (walk_zones-visit (array_create callbacks (some fn)).0
              (array_create callbacks (some fn)).1 fn zones s mine)
            gone,
        back,
      )
