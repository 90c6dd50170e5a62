-- ===== src/Msgp/Edit/Safety.antt =====
-- msgp/edit.go on any bytes: Locate, Replace, CopyReplace, Remove and HasKey.
use truepack.Prelude.{
  ℕ, zero, suc, ◌+◌, ◌-◌, ◌^◌, ◌≤◌, ◌≡◌, refl, sym, ap, ◌∙◌, inl, inr, Bool, true, false, none,
  some, [], ◌∷◌, ◌++◌, append_assoc, arith, ◌==◌, if◌then◌else◌, length, take, drop, get_elem?,
  length-append, length-take, length-drop,
}
use truepack.Msgp.Edit.{
  same_bytes, reslice, locate_range, locate_kv, locate, replace_range, replace, copy_replace, cut,
  remove, has_key_loop, has_key,
}
use truepack.Msgp.Edit.Copies.{split_at, fill_over, slice_from_at}
use truepack.Msgp.Edit.Header.{BehindHeader, HeaderRead, header_read}
use truepack.Msgp.Edit.Locate.{reslice_part}
use truepack.Msgp.Edit.Ranges.{read_string-Safe, FieldRange, field_ranges}
use truepack.Msgp.Edit.Splice.{replace_range_splices}
use truepack.Msgp.Edit.Stores.{Returns, if-Returns, resize-Returns}
use truepack.Msgp.Read.{nil_slice, read_string_zc, read_map_header_bytes}
use truepack.Msgp.Safety.Rules.{Safe}
use truepack.Msgp.Slice.{Slice}
use truepack.Msgp.Wire.{Bytes}

-- A slice in three parts, from two offsets.
three_parts :
    (xs : Bytes) (s n : ℕ)
    → s ≤ n
    → n ≤ length xs
    → (front mid back : Bytes) × (xs ≡ front ++ (mid ++ back))
      × (s ≡ length front)
      × (n ≡ length front + length mid)
three_parts xs s n h k =
    let rest = drop s xs in
    let lr = length-drop s xs in
    let lf = length-take s xs (omega arith) in
    let lm = length-take (n - s) rest (omega arith) in
    (
      take s xs,
      take (n - s) rest,
      drop (n - s) rest,
      split_at s xs (omega arith) ∙ ap (λ t. take s xs ++ t) (split_at (n - s) rest (omega arith)),
      sym lf,
      omega (arith, lf, lm),
    )

module _ (raw : Slice) (s n : ℕ) (h : s ≤ n) (k : n ≤ length raw.visible) where
  reslice-Returns : Returns (reslice raw s n)
  reslice-Returns =
      let (front, mid, back, e, p, q) = three_parts raw.visible s n h k in
      let (o, f, g) = reslice_part raw front mid back s n e p q in (o, f)

  replace_range-Returns :
      (val : Bytes) (inplace : Bool) → Returns (replace_range raw s n val inplace)
  replace_range-Returns val inplace =
      let (front, mid, back, e, p, q) = three_parts raw.visible s n h k in
      let (o, f, g) = replace_range_splices raw front mid back val s n e p q inplace in (o, f)

  -- The header is still there behind the cut.
  cut-Returns :
      BehindHeader raw.visible s
      → (o : Slice) × (cut raw s n ≡ some o) × BehindHeader o.visible s × (s ≤ length o.visible)
  unfolding cut
  cut-Returns (lead, t, e', a, b, c) =
      let (front, mid, back, e, p, q) = three_parts raw.visible s n h k in
      let behind =
        slice_from_at raw.visible (front ++ mid) back n (e ∙ sym (append_assoc front mid back))
          (q ∙ sym (length-append front mid)) in
      let (o, f, g) = fill_over raw front mid back s e p in
      (
        o,
        rw behind f,
        kept front (mid ++ back) back o.visible (omega arith) (sym e ∙ e') g,
        omega (arith, ap length g, length-append front back),
      )
    where
      kept :
          (front rest back xs : Bytes)
          → 1 ≤ length front
          → front ++ rest ≡ lead ∷ t
          → xs ≡ front ++ back
          → BehindHeader xs s
      kept [] rest back xs l e'' g = absurd (omega arith)
      kept (x ∷ front) rest back xs l e'' g =
          let same : x ≡ lead = let z = ap (λ ys. get_elem? ys 0) e'' in ground (arith, z) in
          (lead, front ++ back, g ∙ ap (λ y. y ∷ (front ++ back)) same, a, b, c)

module _ (key : Bytes) (raw : Slice) where
  locate-Returns : Returns (locate key raw)
  unfolding locate
  locate-Returns = go (field_ranges raw.visible key).0
    where
      go : FieldRange raw.visible (locate_range raw.visible key) → Returns (locate key raw)
      go (s, n, p, inl (z, w)) = rw p (reslice-Returns raw s n (omega arith) (omega arith))
      go (s, n, p, inr (b, z, w)) = rw p (reslice-Returns raw s n (omega arith) w)

  replace-Returns :
      (val : Bytes) → Returns (replace key raw val) × Returns (copy_replace key raw val)
  unfolding replace copy_replace
  replace-Returns val = go (field_ranges raw.visible key).0
    where
      both :
          (s n : ℕ)
          → s ≤ n
          → n ≤ length raw.visible
          → Returns (if s == n then some nil_slice else replace_range raw s n val true)
            × Returns (if s == n then some nil_slice else replace_range raw s n val false)
      both s n h k = (
        if-Returns (s == n) (nil_slice, refl) (replace_range-Returns raw s n h k val true),
        if-Returns (s == n) (nil_slice, refl) (replace_range-Returns raw s n h k val false),
      )

      go :
          FieldRange raw.visible (locate_range raw.visible key)
          → Returns (replace key raw val) × Returns (copy_replace key raw val)
      go (s, n, p, inl (z, w)) = rw p (both s n (omega arith) (omega arith))
      go (s, n, p, inr (b, z, w)) = rw p (both s n (omega arith) w)

  remove-Returns : Returns (remove key raw)
  unfolding remove
  remove-Returns = go (field_ranges raw.visible key).1
    where
      go : FieldRange raw.visible (locate_kv raw.visible key) → Returns (remove key raw)
      go (s, n, p, inl (z, w)) =
          let same : (s == n) ≡ true = ground arith in rw (p, same) (raw, refl)
      go (s, n, p, inr (b, z, w)) =
          let (o, e, b', l) = cut-Returns raw s n (omega arith) w b in
          let (o', f) = resize-Returns o (2 ^ 64 - 1) s b' l in
          rw p (if-Returns (s == n) (raw, refl) (rw e (o', f)))

  has_key_loop-Returns : (n : ℕ) (bts : Bytes) → Returns (has_key_loop key n bts)
  unfolding has_key_loop
  has_key_loop-Returns zero bts = (false, refl)
  has_key_loop-Returns (suc n) bts = go (read_string-Safe bts) (has_key_loop-Returns n)
    where
      go :
          Safe bts (read_string_zc none bts)
          → ((b : Bytes) → Returns (has_key_loop key n b))
          → Returns (has_key_loop key (suc n) bts)
      go (v, o, some e, p, q) ih = rw p (false, refl)
      go (v, o, none, p, q) ih = rw p (if-Returns (same_bytes v key) (true, refl) (ih o))

  has_key-Returns : Returns (has_key key raw)
  unfolding has_key
  has_key-Returns = go (header_read raw.visible)
    where
      go :
          HeaderRead raw.visible (read_map_header_bytes none raw.visible)
          → Returns (has_key key raw)
      go (n, bts, some e, p, l, b) = rw p (false, refl)
      go (n, bts, none, p, l, b) = rw p (has_key_loop-Returns n bts)

  -- Whatever the bytes of `raw`, with any spare capacity, and whatever the key and the value, Locate,
  -- Replace, CopyReplace, Remove and HasKey return: no index or slice is out of range.
  pub edits-Returns :
      (val : Bytes)
      → Returns (locate key raw)
        × Returns (replace key raw val)
        × Returns (copy_replace key raw val)
        × Returns (remove key raw)
        × Returns (has_key key raw)
  edits-Returns val =
      let (r, c) = replace-Returns val in (locate-Returns, r, c, remove-Returns, has_key-Returns)
