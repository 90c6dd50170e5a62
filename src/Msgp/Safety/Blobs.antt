-- ===== src/Msgp/Safety/Blobs.antt =====
-- msgp/read_bytes.go: the readers of strings, binary objects, map keys, complex numbers and times on
-- any input.
use truepack.Prelude.{
  ℕ, ◌+◌, ◌%◌, ◌^◌, ◌≤◌, ◌≡◌, refl, sym, ap, ◌∙◌, inl, inr, Bool, true, false, ◌&&◌, Option, none,
  some, [], ◌∷◌, ◌++◌, append_assoc, arith, ltb, leb, ◌==◌, if◌then◌else◌, ◌>>=◌, Bool-cases,
  length, take, replicate, slice_from, slice_from_in_range, length-slice_from,
}
use Prim.Native.Nat.{min}
use truepack.Msgp.Integers.{get_unix}
use truepack.Msgp.Nilbits.{NilBitsStack, is_unsafe_zero_copy}
use truepack.Msgp.Read.{
  Read, ok, nil_guard, sized, bytes_data, read_bytes_bytes_zc, read_bytes_bytes, nil_slice,
  read_bytes_zc, exact_data, exact_body, read_exact_bytes, string_data, string_body, read_string_zc,
  read_string_bytes, read_string_as_bytes, encoded_bin, map_key_rest, read_map_key_zc,
  complex128_body, read_complex128_bytes, complex64_body, read_complex64_bytes, time_unix,
  zero_time, time_body, read_time_bytes,
}
use truepack.Msgp.Safety.Rules.{
  EndsIn, Safe, slice_from_front, ok-Safe, fail-Safe, if-Safe, nil_guard-Safe, need-Safe, then-Safe,
  be_uint16_total, be_uint32_total, be_uint64_total, get_elem?_total,
}
use truepack.Msgp.Skip.{skip}
use truepack.Msgp.Slice.{Slice, cap, go_copy, copied}
use truepack.Msgp.Wire.{
  mbin8, mbin16, mbin32, mext8, mfixext8, mfixext16, mstr8, mstr16, mstr32, complex64_extension,
  complex128_extension, time_extension, Bytes, isfixstr, Error,
}

-- A read behind a prefix is a read of the whole.
behind-Safe :
    {A : Type 0} (b front b' : Bytes) {r : Read A} → b ≡ front ++ b' → Safe b' r → Safe b r
behind-Safe b front b' h (v, o, e, p, (front', h')) =
    (v, o, e, p, (front ++ front', h ∙ ap (λ t. front ++ t) h' ∙ sym (append_assoc front front' o)))

sized-Safe :
    (b : Bytes) (skip : ℕ) (size : Option ℕ) (rest : ℕ → Bytes → Read Bytes)
    → (skip ≤ length b → (v : ℕ) × (size ≡ some v))
    → ((n : ℕ) (t : Bytes) → Safe t (rest n t))
    → Safe b (sized b skip size rest)
unfolding sized
sized-Safe b skip size rest p q = need-Safe b skip [] _ (λ h.
    let (v, e) = p h in
    let (front, o, f, g) = slice_from_front b skip h in rw (e, f) (behind-Safe b front o g (q v o)))

string_data-Safe : (read : ℕ) (b : Bytes) → Safe b (string_data read b)
unfolding string_data
string_data-Safe read b = elim (Bool-cases (ltb (length b) read)) [
  | inl e ↦ rw e (fail-Safe [] b _)
  | inr e ↦
      let (front, o, f, g) = slice_from_front b read (ground (arith, e)) in
      rw (e, f) (ok-Safe (take read b) b front o g)
]

bytes_data-Safe :
    (scratch : Slice) (zc : Bool) (read : ℕ) (b : Bytes) → Safe b (bytes_data scratch zc read b)
unfolding bytes_data copied
bytes_data-Safe scratch zc read b = elim (Bool-cases (ltb (length b) read)) [
  | inl e ↦ rw e (fail-Safe [] b _)
  | inr e ↦
      let (front, o, f, g) = slice_from_front b read (ground (arith, e)) in
      rw e (if-Safe b zc (rw f (ok-Safe (take read b) b front o g)) copy)
]
  where
    copy :
        let v =
          if leb read (cap scratch)
          then take read (scratch.visible ++ scratch.spare)
          else replicate read 0 in
        Safe b (slice_from b (min (length v) (length b)) >>= λ o. ok (go_copy v b) o)
    copy =
        let v =
          if leb read (cap scratch)
          then take read (scratch.visible ++ scratch.spare)
          else replicate read 0 in
        let (front, o, f, g) = slice_from_front b (min (length v) (length b)) (omega arith) in
        rw f (ok-Safe (go_copy v b) b front o g)

string_body-Safe : (b : Bytes) → Safe b (string_body b)
unfolding string_body
string_body-Safe [] = fail-Safe [] [] _
string_body-Safe (lead ∷ t) =
    let b = lead ∷ t in
    if-Safe b (isfixstr lead) (behind-Safe b (lead ∷ []) t refl (string_data-Safe _ t)) (
      if-Safe b (lead == mstr8)
        (sized-Safe b 2 _ _ (λ h. get_elem?_total b 1 (omega arith)) string_data-Safe)
        (if-Safe b (lead == mstr16)
          (sized-Safe b 3 _ _ (λ h. be_uint16_total t (omega arith)) string_data-Safe)
          (if-Safe b (lead == mstr32)
            (sized-Safe b 5 _ _ (λ h. be_uint32_total t (omega arith)) string_data-Safe)
            (fail-Safe [] b _))))

read_bytes_bytes_zc-Safe :
    (b : Bytes) (scratch : Slice) (zc : Bool) → Safe b (read_bytes_bytes_zc b scratch zc)
unfolding read_bytes_bytes_zc
read_bytes_bytes_zc-Safe [] scratch zc = fail-Safe [] [] _
read_bytes_bytes_zc-Safe (lead ∷ t) scratch zc =
    let b = lead ∷ t in
    if-Safe b (lead == mbin8)
      (sized-Safe b 2 _ _ (λ h. get_elem?_total b 1 (omega arith)) (bytes_data-Safe scratch zc))
      (if-Safe b (lead == mbin16)
        (sized-Safe b 3 _ _ (λ h. be_uint16_total t (omega arith)) (bytes_data-Safe scratch zc))
        (if-Safe b (lead == mbin32)
          (sized-Safe b 5 _ _ (λ h. be_uint32_total t (omega arith)) (bytes_data-Safe scratch zc))
          (fail-Safe [] b _)))

exact_data-Safe :
    (b into : Bytes) (skip : ℕ) (size : Option ℕ)
    → (skip ≤ length b → (v : ℕ) × (size ≡ some v))
    → Safe b (exact_data b into skip size)
unfolding exact_data copied
exact_data-Safe b into skip size p = elim (Bool-cases (ltb (length b) skip)) [
  | inl e ↦ rw e (fail-Safe into b _)
  | inr e ↦
      let (v, f) = p (ground (arith, e)) in
      let (front, tail, g, h) = slice_from_front b skip (ground (arith, e)) in
      let (front', o, g', h') =
        slice_from_front b (skip + min (length into) (length tail))
          (omega (arith, length-slice_from b skip tail g)) in
      rw (e, f)
        (if-Safe b (v == length into % 2 ^ 32) (rw (g, g') (ok-Safe _ b front' o h'))
          (fail-Safe into b _))
]

exact_body-Safe : (b into : Bytes) → Safe b (exact_body b into)
unfolding exact_body
exact_body-Safe [] into = fail-Safe into [] _
exact_body-Safe (lead ∷ t) into =
    let b = lead ∷ t in
    if-Safe b (lead == mbin8) (exact_data-Safe b into 2 _ (λ h. get_elem?_total b 1 (omega arith)))
      (if-Safe b (lead == mbin16)
        (exact_data-Safe b into 3 _ (λ h. be_uint16_total t (omega arith)))
        (if-Safe b (lead == mbin32)
          (exact_data-Safe b into 5 _ (λ h. be_uint32_total t (omega arith))) (fail-Safe into b _)))

complex128_body-Safe : (b : Bytes) → Safe b (complex128_body b)
unfolding complex128_body
complex128_body-Safe b =
    need-Safe b 18 (0, 0) _
      (λ h.
        let (lead, e0) = get_elem?_total b 0 (omega arith) in
        let (typ, e1) = get_elem?_total b 1 (omega arith) in
        let (b2, e2, l2) = slice_from_in_range b 2 (omega arith) in
        let (re, e3) = be_uint64_total b2 (omega arith) in
        let (b10, e4, l10) = slice_from_in_range b 10 (omega arith) in
        let (im, e5) = be_uint64_total b10 (omega arith) in
        let (front, o, e6, f) = slice_from_front b 18 h in
        rw (e0, e1)
          (if-Safe b (lead == mfixext16)
            (if-Safe b (typ == complex128_extension)
              (rw (e2, e3, e4, e5, e6) (ok-Safe (re, im) b front o f)) (fail-Safe (0, 0) b _))
            (fail-Safe (0, 0) b _)))

complex64_body-Safe : (b : Bytes) → Safe b (complex64_body b)
unfolding complex64_body
complex64_body-Safe b =
    need-Safe b 10 (0, 0) _
      (λ h.
        let (lead, e0) = get_elem?_total b 0 (omega arith) in
        let (typ, e1) = get_elem?_total b 1 (omega arith) in
        let (b2, e2, l2) = slice_from_in_range b 2 (omega arith) in
        let (re, e3) = be_uint32_total b2 (omega arith) in
        let (b6, e4, l6) = slice_from_in_range b 6 (omega arith) in
        let (im, e5) = be_uint32_total b6 (omega arith) in
        let (front, o, e6, f) = slice_from_front b 10 h in
        rw (e0, e1)
          (if-Safe b (lead == mfixext8)
            (if-Safe b (typ == complex64_extension)
              (rw (e2, e3, e4, e5, e6) (ok-Safe (re, im) b front o f)) (fail-Safe (0, 0) b _))
            (fail-Safe (0, 0) b _)))

time_body-Safe : (b : Bytes) → Safe b (time_body b)
unfolding time_body get_unix
time_body-Safe b = need-Safe b 15 zero_time _ (λ h.
    let (lead, e0) = get_elem?_total b 0 (omega arith) in
    let (size, e1) = get_elem?_total b 1 (omega arith) in
    let (typ, e2) = get_elem?_total b 2 (omega arith) in
    let (b3, e3, l3) = slice_from_in_range b 3 (omega arith) in
    let (sec, e4) = be_uint64_total b3 (omega arith) in
    let (b11, e5, l11) = slice_from_in_range b3 8 (omega arith) in
    let (nsec, e6) = be_uint32_total b11 (omega arith) in
    let (front, o, e7, f) = slice_from_front b 15 h in
    rw (e0, e1, e2)
      (if-Safe b (lead == mext8 && size == 12)
        (if-Safe b (typ == time_extension)
          (rw (e3, e4, e5, e6, e7) (ok-Safe (time_unix sec nsec) b front o f))
          (fail-Safe zero_time b _))
        (fail-Safe zero_time b _)))

module _ (nbs : Option NilBitsStack) (b : Bytes) where
  string_zc-Safe : Safe b (nil_guard nbs b [] (string_body b))
  string_zc-Safe = nil_guard-Safe nbs b [] _ (string_body-Safe b)

  map_key_rest-Safe :
      (v o : Bytes) (e : Option Error) → EndsIn b o → Safe b (map_key_rest nbs (v, o, e))
  unfolding map_key_rest read_bytes_zc
  map_key_rest-Safe v o none q = (v, o, none, refl, q)
  map_key_rest-Safe v o (some err) (front, h) =
      if-Safe b (encoded_bin err)
        (behind-Safe b front o h
          (nil_guard-Safe nbs o [] _ (read_bytes_bytes_zc-Safe o nil_slice true)))
        ([], o, some err, refl, (front, h))

  -- Whatever the bytes, each of these readers returns, and its rest is an end of them.
  pub read_blob-Safe :
      (into : Bytes) (scratch : Slice)
      → Safe b (read_bytes_bytes nbs b scratch)
        × Safe b (read_bytes_zc nbs b)
        × Safe b (read_exact_bytes nbs b into)
        × Safe b (read_string_zc nbs b)
        × Safe b (read_string_bytes nbs b)
        × Safe b (read_string_as_bytes nbs b scratch)
        × Safe b (read_map_key_zc nbs b)
        × Safe b (read_complex128_bytes nbs b)
        × Safe b (read_complex64_bytes nbs b)
        × Safe b (read_time_bytes nbs b)
  unfolding read_bytes_bytes read_bytes_zc read_exact_bytes read_string_zc read_string_bytes
      read_string_as_bytes read_map_key_zc read_complex128_bytes read_complex64_bytes
      read_time_bytes
  read_blob-Safe into scratch = (
    nil_guard-Safe nbs b [] _ (read_bytes_bytes_zc-Safe b scratch false),
    nil_guard-Safe nbs b [] _ (read_bytes_bytes_zc-Safe b nil_slice true),
    nil_guard-Safe nbs b _ _ (exact_body-Safe b into),
    string_zc-Safe,
    nil_guard-Safe nbs b [] _ (
        then-Safe b _ string_zc-Safe
          (λ v o e q. if-Safe b (is_unsafe_zero_copy nbs) (v, o, e, refl, q) (v, o, e, refl, q))),
    nil_guard-Safe nbs b [] _ (then-Safe b _ string_zc-Safe (λ v o e q. (_, o, e, refl, q))),
    nil_guard-Safe nbs b [] _ (then-Safe b _ string_zc-Safe map_key_rest-Safe),
    nil_guard-Safe nbs b (0, 0) _ (complex128_body-Safe b),
    nil_guard-Safe nbs b (0, 0) _ (complex64_body-Safe b),
    nil_guard-Safe nbs b zero_time _ (time_body-Safe b),
  )
