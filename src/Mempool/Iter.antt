-- ===== src/Mempool/Iter.antt =====
-- ObjIter hands every object to its function and leaves the registry's other objects.
use go_dpdk.Base.{ℕ, ◌+◌, ◌^◌, ◌<◌, ◌≡◌, refl, ap, arith, some, List, [], ◌∷◌, length, u32, map}
use go_dpdk.Common.Registry.{ObjArray, array_create, array_read, array_delete}
use go_dpdk.Common.Registry.Array.{IsCounted}
use go_dpdk.Memzone.Walked.{visit, with_callback}
use go_dpdk.Mempool.{Slice, go_object_cb, obj_iter_c, obj_iter}

-- The bytes of an object.
abbrev pub object : (elt_size obj : ℕ) → Slice
object elt_size obj = record { start = obj; count = elt_size; cap = elt_size }

module _ {S : Type 0} where
  obj_iter_c-visit :
      (callbacks : ObjArray (Slice → S → S)) (cb elt_size : ℕ) (fn : Slice → S → S) (objs : List ℕ)
      (s : S)
      → array_read callbacks cb ≡ some (some fn)
      → obj_iter_c callbacks cb elt_size objs s
        ≡ some (visit fn (map (object elt_size) objs) s, length objs)
  unfolding obj_iter_c go_object_cb visit
  obj_iter_c-visit callbacks cb elt_size fn [] s e = refl
  obj_iter_c-visit callbacks cb elt_size fn (obj ∷ objs) s e =
      rw
        (
          obj_iter_c,
          go_object_cb,
          e,
          obj_iter_c-visit callbacks cb elt_size fn objs (fn (object elt_size obj) s) e,
        )
        (ap
          (λ (n : ℕ). some (visit fn (map (object elt_size) objs) (fn (object elt_size obj) s), n))
          (omega arith))

  obj_iter_eq :
      (callbacks callbacks' : ObjArray (Slice → S → S)) (fn : Slice → S → S) (elt_size : ℕ)
      (objs : List ℕ) (s s' : S) (n : ℕ)
      → obj_iter_c
          (array_create callbacks (some fn)).0
          (array_create callbacks (some fn)).1
          elt_size
          objs
          s
        ≡ some (s', n)
      → array_delete (array_create callbacks (some fn)).0 (array_create callbacks (some fn)).1
        ≡ some callbacks'
      → obj_iter callbacks fn elt_size objs s ≡ some (callbacks', (s', u32 n))
  unfolding obj_iter
  obj_iter_eq callbacks callbacks' fn elt_size objs s s' n p q = rw (obj_iter, p, q) refl

  -- Where the registry's counter counts its objects, and it has a callback and room for one more:
  -- ObjIter calls its function on the bytes of every object of the pool in order, it returns their
  -- number as a uint32, and the callback is still registered.
  pub obj_iter-visit :
      (callbacks : ObjArray (Slice → S → S)) (fn other : Slice → S → S) (elt_size : ℕ)
      (objs : List ℕ) (s : S) (j : ℕ)
      → IsCounted callbacks
      → length callbacks.array + 1 < 2 ^ 63
      → array_read callbacks j ≡ some (some other)
      → (callbacks' : ObjArray (Slice → S → S)) × (obj_iter callbacks fn elt_size objs s
          ≡ some (callbacks', (visit fn (map (object elt_size) objs) s, u32 (length objs))))
        × (array_read callbacks' j ≡ some (some other))
  obj_iter-visit callbacks fn other elt_size objs s j counted room there =
      let (callbacks', mine, gone, back) = with_callback callbacks fn other j counted room there in
      (
        callbacks',
        obj_iter_eq callbacks callbacks' fn elt_size objs s
            (visit fn (map (object elt_size) objs) s) (length objs)
            (obj_iter_c-visit (array_create callbacks (some fn)).0
              (array_create callbacks (some fn)).1 elt_size fn objs s mine)
            gone,
        back,
      )
