-- ===== src/Msgp/Extension/Reads.antt =====
-- msgp/extension.go: ReadExtensionBytes on what AppendExtension appends, and on the other forms.
use truepack.Prelude.{
  ℕ, ◌+◌, ◌^◌, ◌<◌, ◌≡◌, refl, sym, inl, inr, true, false, Option, some, [], ◌∷◌, ◌++◌, arith, ltb,
  ◌==◌, le→ltb, Bool-cases, length, slice_from, length-append, take_append,
}
use truepack.Msgp.Edit.Copies.{slice_from_at}
use truepack.Msgp.Extension.{Extension, users, ReadExt, unmarshal, ext_data, read_extension_bytes}
use truepack.Msgp.Extension.Laws.{ext_header}
use truepack.Msgp.Integers.{be16, be32}
use truepack.Msgp.Integers.Laws.{be_uint16-be16, be_uint32-be32}
use truepack.Msgp.Nilbits.{NilBitsStack, is_always_nil}
use truepack.Msgp.Wire.{
  mext8, mext16, mext32, mfixext1, mfixext2, mfixext4, mfixext8, mfixext16, Bytes,
}

-- The prefixes of the fixexts, with the sizes of their data.
pub data IsFixext : ℕ → ℕ → Type 0 where
  fixext1 : IsFixext mfixext1 1
  fixext2 : IsFixext mfixext2 2
  fixext4 : IsFixext mfixext4 4
  fixext8 : IsFixext mfixext8 8
  fixext16 : IsFixext mfixext16 16

module _ {E U : Type 0} (ext : Extension E U) (e : E) where
  -- What ReadExtensionBytes makes of the data and of what UnmarshalBinary answers.
  abbrev pub Unmarshalled : Bytes → Bytes → ReadExt ext → Type 0
  Unmarshalled bs rest r =
      r ≡ some (rest, (ext.unmarshal_binary e bs).0, users (ext.unmarshal_binary e bs).1)

  ext_data-exact :
      (b bs rest : Bytes) (t sz off : ℕ)
      → t ≡ ext.ext_type e
      → sz ≡ length bs
      → slice_from b off ≡ some (bs ++ rest)
      → slice_from b (off + sz) ≡ some rest
      → Unmarshalled bs rest (ext_data ext b e t sz off)
  unfolding ext_data unmarshal
  ext_data-exact b bs rest t sz off p q f g =
      let same : (t == ext.ext_type e) ≡ true = ground (arith, p) in
      rw
        (
          same,
          f,
          q,
          le→ltb (length (bs ++ rest)) (length bs) (omega (arith, length-append bs rest)),
          sym q,
          g,
        )
        (rw (q, take_append bs rest))

  -- A fixext of the type is read.
  pub fixext_read :
      (nbs : Option NilBitsStack) (prefix n t : ℕ) (bs rest : Bytes)
      → is_always_nil nbs ≡ false
      → IsFixext prefix n
      → t ≡ ext.ext_type e
      → n ≡ length bs
      → Unmarshalled bs rest (read_extension_bytes ext nbs (prefix ∷ t ∷ (bs ++ rest)) e)
  unfolding read_extension_bytes
  fixext_read nbs prefix n t [] rest live f p q = absurd (no_size prefix n f q)
    where
      no_size : (prefix n : ℕ) → IsFixext prefix n → n ≡ 0 → ⊥
      no_size prefix n fixext1 q = omega arith
      no_size prefix n fixext2 q = omega arith
      no_size prefix n fixext4 q = omega arith
      no_size prefix n fixext8 q = omega arith
      no_size prefix n fixext16 q = omega arith
  fixext_read nbs prefix n t (x ∷ xs) rest live fixext1 p q =
      rw (live, le→ltb (length (mfixext1 ∷ t ∷ ((x ∷ xs) ++ rest))) 3 (omega arith))
        (ext_data-exact (mfixext1 ∷ t ∷ ((x ∷ xs) ++ rest)) (x ∷ xs) rest t 1 2 p q refl
          (slice_from_at ((x ∷ xs) ++ rest) (x ∷ xs) rest 1 refl q))
  fixext_read nbs prefix n t (x ∷ xs) rest live fixext2 p q =
      rw (live, le→ltb (length (mfixext2 ∷ t ∷ ((x ∷ xs) ++ rest))) 3 (omega arith))
        (ext_data-exact (mfixext2 ∷ t ∷ ((x ∷ xs) ++ rest)) (x ∷ xs) rest t 2 2 p q refl
          (slice_from_at ((x ∷ xs) ++ rest) (x ∷ xs) rest 2 refl q))
  fixext_read nbs prefix n t (x ∷ xs) rest live fixext4 p q =
      rw (live, le→ltb (length (mfixext4 ∷ t ∷ ((x ∷ xs) ++ rest))) 3 (omega arith))
        (ext_data-exact (mfixext4 ∷ t ∷ ((x ∷ xs) ++ rest)) (x ∷ xs) rest t 4 2 p q refl
          (slice_from_at ((x ∷ xs) ++ rest) (x ∷ xs) rest 4 refl q))
  fixext_read nbs prefix n t (x ∷ xs) rest live fixext8 p q =
      rw (live, le→ltb (length (mfixext8 ∷ t ∷ ((x ∷ xs) ++ rest))) 3 (omega arith))
        (ext_data-exact (mfixext8 ∷ t ∷ ((x ∷ xs) ++ rest)) (x ∷ xs) rest t 8 2 p q refl
          (slice_from_at ((x ∷ xs) ++ rest) (x ∷ xs) rest 8 refl q))
  fixext_read nbs prefix n t (x ∷ xs) rest live fixext16 p q =
      rw (live, le→ltb (length (mfixext16 ∷ t ∷ ((x ∷ xs) ++ rest))) 3 (omega arith))
        (ext_data-exact (mfixext16 ∷ t ∷ ((x ∷ xs) ++ rest)) (x ∷ xs) rest t 16 2 p q refl
          (slice_from_at ((x ∷ xs) ++ rest) (x ∷ xs) rest 16 refl q))

  module _ (nbs : Option NilBitsStack) (t : ℕ) (rest : Bytes) (live : is_always_nil nbs ≡ false)
      (same : t ≡ ext.ext_type e) where
    pub ext8_read :
        (bs : Bytes)
        → Unmarshalled bs rest
            (read_extension_bytes ext nbs (mext8 ∷ length bs ∷ t ∷ (bs ++ rest)) e)
    unfolding read_extension_bytes
    ext8_read [] = rw (live, le→ltb (length (mext8 ∷ 0 ∷ t ∷ rest)) 3 (omega arith))
    ext8_read (x ∷ xs) =
        let some_data : (length (x ∷ xs) == 0) ≡ false = ground arith in
        rw
          (
            live,
            le→ltb (length (mext8 ∷ length (x ∷ xs) ∷ t ∷ ((x ∷ xs) ++ rest))) 3 (omega arith),
            some_data,
          )
          (ext_data-exact (mext8 ∷ length (x ∷ xs) ∷ t ∷ ((x ∷ xs) ++ rest)) (x ∷ xs) rest t
            (length (x ∷ xs)) 3 same refl refl
            (slice_from_at (mext8 ∷ length (x ∷ xs) ∷ t ∷ ((x ∷ xs) ++ rest))
              (mext8 ∷ length (x ∷ xs) ∷ t ∷ (x ∷ xs)) rest (3 + length (x ∷ xs)) refl
              (omega arith)))

    ext16_read :
        (bs : Bytes)
        → length bs < 2 ^ 16
        → Unmarshalled bs rest
            (read_extension_bytes ext nbs (mext16 ∷ (be16 (length bs) ++ (t ∷ (bs ++ rest)))) e)
    unfolding read_extension_bytes
    ext16_read bs h =
        let b = mext16 ∷ (be16 (length bs) ++ (t ∷ (bs ++ rest))) in
        rw
          (
            live,
            le→ltb (length b) 3 (omega arith),
            le→ltb (length b) 4 (omega arith),
            be_uint16-be16 (length bs) (t ∷ (bs ++ rest)) h,
          )
          (ext_data-exact b bs rest t (length bs) 4 same refl refl (
            slice_from_at b (mext16 ∷ (be16 (length bs) ++ (t ∷ bs))) rest (4 + length bs) refl
              (omega arith)))

    ext32_read :
        (bs : Bytes)
        → length bs < 2 ^ 32
        → Unmarshalled bs rest
            (read_extension_bytes ext nbs (mext32 ∷ (be32 (length bs) ++ (t ∷ (bs ++ rest)))) e)
    unfolding read_extension_bytes
    ext32_read bs h =
        let b = mext32 ∷ (be32 (length bs) ++ (t ∷ (bs ++ rest))) in
        rw
          (
            live,
            le→ltb (length b) 3 (omega arith),
            le→ltb (length b) 6 (omega arith),
            be_uint32-be32 (length bs) (t ∷ (bs ++ rest)) h,
          )
          (ext_data-exact b bs rest t (length bs) 6 same refl refl (
            slice_from_at b (mext32 ∷ (be32 (length bs) ++ (t ∷ bs))) rest (6 + length bs) refl
              (omega arith)))

    pub ext_header_read :
        (bs : Bytes)
        → length bs < 2 ^ 32
        → Unmarshalled bs rest
            (read_extension_bytes ext nbs ((ext_header (length bs) t ++ bs) ++ rest) e)
    unfolding ext_header
    ext_header_read bs h = elim (Bool-cases (ltb (length bs) 255)) [
      | inl p ↦ rw p (ext8_read bs)
      | inr p ↦ elim (Bool-cases (ltb (length bs) 65535)) [
        | inl q ↦ rw (p, q) (ext16_read bs (ground (arith, q)))
        | inr q ↦ rw (p, q) (ext32_read bs h)
      ]
    ]

pub fixext_small : (prefix n : ℕ) → IsFixext prefix n → n < 255
fixext_small prefix n fixext1 = omega arith
fixext_small prefix n fixext2 = omega arith
fixext_small prefix n fixext4 = omega arith
fixext_small prefix n fixext8 = omega arith
fixext_small prefix n fixext16 = omega arith
