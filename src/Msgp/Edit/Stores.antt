-- ===== src/Msgp/Edit/Stores.antt =====
-- msgp/edit.go on any bytes: the stores, and `resizeMap` by any number.
use truepack.Prelude.{
  ℕ, ◌+◌, ◌-◌, ◌%◌, ◌^◌, ◌≤◌, ◌≡◌, refl, ap, ◌∙◌, ◌⊎◌, inl, inr, Bool, true, false, Option, some,
  [], ◌∷◌, arith, leb, ◌==◌, if◌then◌else◌, ◌>>=◌, Bool-cases, length, take, drop, replicate,
  get_elem?, length-append, length-take, take_all, slice_from_in_range, length-drop,
}
use truepack.Msgp.Append.{to32}
use truepack.Msgp.Append.Laws.{append_map_header-Appends}
use truepack.Msgp.Edit.{
  copy_at, extend, int_below, int_at_most, shift_in_place, rebuild, resize_map16, resize_map32,
  resize_fixmap, resize_map,
}
use truepack.Msgp.Edit.Header.{BehindHeader}
use truepack.Msgp.Integers.{byte, be16, be32, put_all}
use truepack.Msgp.Integers.Laws.{put_all_fits}
use truepack.Msgp.Safety.Rules.{be_uint16_total, be_uint32_total}
use truepack.Msgp.Slice.{Slice, cap, go_copy, store}
use truepack.Msgp.Wire.{mmap16, mmap32, Bytes, rfixmap, wfixmap}

-- The call returns: no index is out of range.
abbrev pub Returns : {A : Type 0} → Option A → Type 0
Returns {A} r = (o : A) × (r ≡ some o)

module _ {A : Type 0} where
  pub if-Returns :
      {x y : Option A} (c : Bool) → Returns x → Returns y → Returns (if c then x else y)
  if-Returns true p q = p
  if-Returns false p q = q

  pub bind-Returns :
      {B : Type 0} {x : Option A} (k : A → Option B)
      → Returns x
      → ((a : A) → Returns (k a))
      → Returns (x >>= k)
  bind-Returns k (a, p) f = rw p (f a)

store-Returns :
    (o : Slice) (n : ℕ) (vs : Bytes)
    → n + length vs ≤ length o.visible
    → Returns (store o n (put_all vs))
unfolding store
store-Returns o n vs h =
    let (t, e, l) = slice_from_in_range o.visible n (omega arith) in
    rw (e, put_all_fits vs t (omega arith)) (_, refl)

length-go_copy : (dst src : Bytes) → length (go_copy dst src) ≡ length dst
unfolding go_copy
length-go_copy dst src = elim (Bool-cases (leb (length dst) (length src))) [
  | inl e ↦
      let h : length dst ≤ length src = ground (arith, e) in
      omega (
        arith,
        length-append (take (length dst) src) (drop (length src) dst),
        length-take (length dst) src h,
        length-drop (length src) dst,
      )
  | inr e ↦
      let h : length src ≤ length dst = ground (arith, e) in
      omega (
        arith,
        length-append (take (length dst) src) (drop (length src) dst),
        ap length (take_all src (length dst) h),
        length-drop (length src) dst,
      )
]

copy_at-Returns :
    (o : Slice) (n : ℕ) (src : Bytes)
    → n ≤ length o.visible
    → (o' : Slice) × (copy_at o n src ≡ some o') × (length o'.visible ≡ length o.visible)
unfolding copy_at store
copy_at-Returns o n src h =
    let (t, e, l) = slice_from_in_range o.visible n h in
    rw e (
      _,
      refl,
      omega (
        arith,
        length-append (take n o.visible) (go_copy t src),
        length-take n o.visible h,
        length-go_copy t src,
      ),
    )

module _ (raw : Slice) (k from n : ℕ) (vs : Bytes) where
  shift-Returns :
      k ≤ length raw.spare
      → from ≤ length raw.visible
      → n + length vs ≤ length raw.visible + k
      → Returns (shift_in_place raw k from (λ r. store r n (put_all vs)))
  unfolding shift_in_place extend
  shift-Returns room h fits =
      let longer : length (extend raw k).visible ≡ length raw.visible + k =
        length-append raw.visible (take k raw.spare)
        ∙ omega (arith, length-take k raw.spare room) in
      let (t, e, l) = slice_from_in_range (extend raw k).visible from (omega arith) in
      let (raw2, c, l2) = copy_at-Returns (extend raw k) (from + k) t (omega arith) in
      rw (e, c) (store-Returns raw2 n vs (omega arith))

rebuild-Returns :
    (raw : Slice) (from sz : ℕ) → from ≤ length raw.visible → Returns (rebuild raw from sz)
unfolding rebuild
rebuild-Returns raw from sz h =
    let new : Slice = record { visible = []; spare = replicate (length raw.visible + 5) 0 } in
    let (o, e, f) = append_map_header-Appends new (to32 sz) in
    let (t, p, l) = slice_from_in_range raw.visible from h in rw (e, p) (_, refl)

room_of : (raw : Slice) (k : ℕ) → leb k (cap raw - length raw.visible) ≡ true → k ≤ length raw.spare
room_of raw k e = ground (arith, e)

module _ (raw : Slice) (delta : ℕ) where
  -- A case of `resizeMap` that moves the fields behind a longer header, in place where it can.
  longer-Returns :
      (k from n : ℕ) (vs : Bytes) (sz : ℕ)
      → from ≤ length raw.visible
      → n + length vs ≤ length raw.visible + k
      → Returns (
          if leb k (cap raw - length raw.visible)
          then shift_in_place raw k from (λ r. store r n (put_all vs))
          else rebuild raw from sz)
  longer-Returns k from n vs sz h fits = elim (Bool-cases (leb k (cap raw - length raw.visible))) [
    | inl p ↦ rw p (shift-Returns raw k from n vs (room_of raw k p) h fits)
    | inr p ↦ rw p (rebuild-Returns raw from sz h)
  ]

  resize16-Returns : 3 ≤ length raw.visible → Returns (resize_map16 raw delta)
  unfolding resize_map16
  resize16-Returns h =
      let (t, e, l) = slice_from_in_range raw.visible 1 (omega arith) in
      let (old, f) = be_uint16_total t (omega arith) in
      let sz = (old + delta) % 2 ^ 64 in
      rw (e, f)
        (if-Returns (int_at_most sz (2 ^ 16 - 1)) (store-Returns raw 1 _ (omega arith))
          (longer-Returns 2 3 1 (be32 sz) sz h (omega arith)))

  resize32-Returns : 5 ≤ length raw.visible → Returns (resize_map32 raw delta)
  unfolding resize_map32
  resize32-Returns h =
      let (t, e, l) = slice_from_in_range raw.visible 1 (omega arith) in
      let (old, f) = be_uint32_total t (omega arith) in
      rw (e, f) (store-Returns raw 1 _ (omega arith))

  resize_fix-Returns : (lead : ℕ) → 1 ≤ length raw.visible → Returns (resize_fixmap raw lead delta)
  unfolding resize_fixmap
  resize_fix-Returns lead h =
      let sz = (rfixmap lead + delta) % 2 ^ 64 in
      if-Returns (int_below sz 16) (store-Returns raw 0 (wfixmap (byte sz) ∷ []) (omega arith)) (
        if-Returns (int_at_most sz (2 ^ 16 - 1))
          (longer-Returns 2 1 0 (mmap16 ∷ be16 sz) sz h (omega arith))
          (longer-Returns 4 1 0 (mmap32 ∷ be32 sz) sz h (omega arith)))

  pub resize-Returns :
      (s : ℕ) → BehindHeader raw.visible s → s ≤ length raw.visible → Returns (resize_map raw delta)
  unfolding resize_map
  resize-Returns s (lead, t, e, p, q, r) h =
      let at : get_elem? raw.visible 0 ≡ some lead = rw e in
      rw at (go (Bool-cases (lead == mmap16)) (Bool-cases (lead == mmap32)))
    where
      go :
          ((lead == mmap16) ≡ true) ⊎ ((lead == mmap16) ≡ false)
          → ((lead == mmap32) ≡ true) ⊎ ((lead == mmap32) ≡ false)
          → Returns (
              if lead == mmap16
              then resize_map16 raw delta
              else if lead == mmap32
              then resize_map32 raw delta
              else resize_fixmap raw lead delta)
      go (inl a) b = let u = q a in rw a (resize16-Returns (omega arith))
      go (inr a) (inl b) = let u = r b in rw (a, b) (resize32-Returns (omega arith))
      go (inr a) (inr b) = rw (a, b) (resize_fix-Returns lead (omega arith))
