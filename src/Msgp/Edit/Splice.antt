-- ===== src/Msgp/Edit/Splice.antt =====
-- msgp/edit.go: the four ways of `replace`, on a slice cut into three parts.
use truepack.Prelude.{
  ℕ, ◌+◌, ◌-◌, ◌≤◌, ◌≡◌, refl, sym, ap, ◌∙◌, inl, inr, Bool, true, false, Option, some, [], ◌++◌,
  append_assoc, append-nil, arith, ltb, ◌==◌, Bool-cases, length, take, drop, replicate, slice_from,
  length-append, length-replicate, length-take, take_append, length-drop,
}
use Prim.Native.Nat.{min}
use truepack.Msgp.Edit.{
  copy_at, extend, replace_anew, replace_smaller, replace_larger, replace_range,
}
use truepack.Msgp.Edit.Copies.{split_at, copy_at_part, copy_at_end, fill_over, slice_from_at}
use truepack.Msgp.Slice.{Slice, cap, copied}
use truepack.Msgp.Wire.{Bytes}

module _ (raw : Slice) (front old back val : Bytes) (start end : ℕ)
    (v : raw.visible ≡ front ++ (old ++ back)) (s : start ≡ length front)
    (e : end ≡ length front + length old) where
  -- What a branch of `replace` has to return.
  abbrev Replaced : Option Slice → Type 0
  Replaced r = (o : Slice) × (r ≡ some o) × (o.visible ≡ front ++ (val ++ back))

  front_old : length (front ++ old) ≡ length front + length old
  front_old = length-append front old

  total_length : length raw.visible ≡ length front + (length old + length back)
  total_length =
      ap length v ∙ omega (arith, length-append front (old ++ back), length-append old back)

  behind : slice_from raw.visible end ≡ some back
  behind =
      slice_from_at raw.visible (front ++ old) back end (v ∙ sym (append_assoc front old back))
        (omega (arith, front_old))

  smaller : length val ≤ length old → Replaced (replace_smaller raw start end val)
  unfolding replace_smaller copied
  smaller h =
      let old1 = take (length val) old in
      let old2 = drop (length val) old in
      let l1 : length old1 ≡ length val = length-take (length val) old h in
      let parts : old ++ back ≡ old1 ++ (old2 ++ back) =
        ap (λ t. t ++ back) (split_at (length val) old h) ∙ append_assoc old1 old2 back in
      let (raw1, c, w) =
        copy_at_part raw front old1 (old2 ++ back) val start (v ∙ ap (λ t. front ++ t) parts) s
          l1 in
      let w' : raw1.visible ≡ (front ++ val) ++ (old2 ++ back) =
        w ∙ sym (append_assoc front val (old2 ++ back)) in
      let t : slice_from raw1.visible end ≡ some back =
        slice_from_at raw1.visible ((front ++ val) ++ old2) back end
          (w' ∙ sym (append_assoc (front ++ val) old2 back))
          (omega (
            arith,
            e,
            length-append (front ++ val) old2,
            length-append front val,
            length-drop (length val) old,
          )) in
      let (o, f, x) =
        fill_over raw1 (front ++ val) old2 back (start + min (length (old ++ back)) (length val)) w'
          (omega (arith, s, length-append front val, length-append old back)) in
      (
        o,
        rw (slice_from_at raw.visible front (old ++ back) start v s, c, t) f,
        x ∙ append_assoc front val back,
      )

  larger :
      (extra : ℕ)
      → length val ≡ length old + extra
      → extra ≤ length raw.spare
      → Replaced (replace_larger raw start end val extra)
  unfolding replace_larger extend
  larger extra h room =
      let new = take extra raw.spare in
      let ln : length new ≡ extra = length-take extra raw.spare room in
      let raw1 = extend raw extra in
      let v1 : raw1.visible ≡ (front ++ old) ++ (back ++ new) =
        ap (λ t. t ++ new) (v ∙ sym (append_assoc front old back))
        ∙ append_assoc (front ++ old) back new in
      let gap = take extra (back ++ new) in
      let last = drop extra (back ++ new) in
      let fits : extra ≤ length (back ++ new) = omega (arith, ln, length-append back new) in
      let lg : length gap ≡ extra = length-take extra (back ++ new) fits in
      let v2 : raw1.visible ≡ ((front ++ old) ++ gap) ++ last =
        v1
        ∙ ap (λ t. (front ++ old) ++ t) (split_at extra (back ++ new) fits)
        ∙ sym (append_assoc (front ++ old) gap last) in
      let (raw2, c, w) =
        copy_at_end raw1 ((front ++ old) ++ gap) last back new (end + extra) v2
          (omega (arith, e, lg, front_old, length-append (front ++ old) gap))
          (omega (arith, ln, length-append back new, length-drop extra (back ++ new))) in
      let (o, d, x) =
        copy_at_part raw2 front (old ++ gap) back val start
          (w
            ∙ ap (λ t. t ++ back) (append_assoc front old gap)
            ∙ append_assoc front (old ++ gap) back)
          s (omega (arith, h, lg, length-append old gap)) in
      (
        o,
        rw
            (
              slice_from_at raw1.visible (front ++ old) (back ++ new) end v1
                  (omega (arith, e, front_old)),
              c,
            )
            d,
        x,
      )

  -- The three copies into new memory `z`, one behind the other.
  ThreeCopies : Bytes → Type 0
  ThreeCopies z =
      (out1 out2 out3 : Slice) × (dst : Bytes) × (copy_at (record { visible = z; spare = [] }) 0
          front
        ≡ some out1)
      × (slice_from out1.visible (length front) ≡ some dst)
      × (min (length dst) (length val) ≡ length val)
      × (copy_at out1 (length front) val ≡ some out2)
      × (copy_at out2 (length front + length val) back ≡ some out3)
      × (out3.visible ≡ front ++ (val ++ back))

  three_copies :
      (head slot last : Bytes)
      → length head ≡ length front
      → length slot ≡ length val
      → length last ≡ length back
      → ThreeCopies (head ++ (slot ++ last))
  unfolding ThreeCopies
  three_copies head slot last lh ls ll =
      let (out1, c1, w1) =
        copy_at_part (record { visible = head ++ (slot ++ last); spare = [] }) [] head
          (slot ++ last) front 0 refl refl lh in
      let (out2, c2, w2) = copy_at_part out1 front slot last val (length front) w1 refl ls in
      let (out3, c3, w3) =
        copy_at_part out2 (front ++ val) last [] back (length front + length val)
          (w2
            ∙ sym (append_assoc front val last)
            ∙ ap (λ t. (front ++ val) ++ t) (sym (append-nil last)))
          (omega (arith, length-append front val)) ll in
      (
        out1,
        out2,
        out3,
        slot ++ last,
        c1,
        slice_from_at out1.visible front (slot ++ last) (length front) w1 refl,
        omega (arith, length-append slot last),
        c2,
        c3,
        w3 ∙ ap (λ t. (front ++ val) ++ t) (append-nil back) ∙ append_assoc front val back,
      )

  new_memory : (z : Bytes) → length z ≡ length front + (length val + length back) → ThreeCopies z
  new_memory z l =
      let rest = drop (length front) z in
      let lr : length rest ≡ length val + length back =
        omega (arith, length-drop (length front) z) in
      let parts : z ≡ take (length front) z ++ (take (length val) rest ++ drop (length val) rest) =
        split_at (length front) z (omega arith)
        ∙ ap (λ t. take (length front) z ++ t) (split_at (length val) rest (omega arith)) in
      rw parts (
        three_copies (take (length front) z) (take (length val) rest) (drop (length val) rest)
          (length-take (length front) z (omega arith)) (length-take (length val) rest (omega arith))
          (omega (arith, length-drop (length val) rest)))

  front_of : take start raw.visible ≡ front
  front_of = rw (v, s) (take_append front (old ++ back))

  anew : Replaced (replace_anew raw start end val)
  unfolding replace_anew copied ThreeCopies
  anew =
      let size = length raw.visible + length val - (end - start) in
      let z : Bytes = replicate size 0 in
      let lz : length z ≡ size = length-replicate {A = ℕ} size 0 in
      let total : length z ≡ length front + (length val + length back) =
        omega (arith, total_length, s, e) in
      let least : min (length z) (length front) ≡ length front = omega arith in
      let (out1, out2, out3, dst, c1, t, m, c2, c3, w3) = new_memory z total in
      (out3, rw (front_of, least, c1, t, m, c2, behind) c3, w3)

  same_size : length val ≡ length old → Replaced (copy_at raw start val)
  same_size h = copy_at_part raw front old back val start v s (sym h)

  -- Whichever way `replace` goes, in place or in new memory, the value stands in place of the old one
  -- between what was in front of it and what was behind it.
  pub replace_range_splices : (inplace : Bool) → Replaced (replace_range raw start end val inplace)
  unfolding replace_range
  replace_range_splices false = anew
  replace_range_splices true = elim (Bool-cases (length val == end - start)) [
    | inl p ↦ rw p (same_size (ground (arith, p, e, s)))
    | inr p ↦ elim (Bool-cases (ltb (length val) (end - start))) [
      | inl q ↦ rw (p, q) (smaller (ground (arith, q, e, s)))
      | inr q ↦
          elim (Bool-cases (ltb (length val - (end - start)) (cap raw - length raw.visible))) [
            | inl r ↦
                rw (p, q, r)
                  (larger (length val - (end - start)) (ground (arith, q, e, s))
                    (ground (arith, r)))
            | inr r ↦ rw (p, q, r) anew
          ]
    ]
  ]
