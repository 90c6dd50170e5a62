-- ===== src/Msgp/Skip/Flat.antt =====
-- msgp/read_bytes.go: getSize and NextType on the formats that hold no other objects.
use truepack.Prelude.{
  ℕ, ◌+◌, ◌%◌, ◌^◌, ◌≤◌, ◌<◌, ◌≡◌, refl, Bool, true, false, ◌&&◌, none, some, [], ◌∷◌, ◌++◌, arith,
  ltb, leb, le→ltb, length, length-append, slice_from_append,
}
use truepack.Msgp.Append.Format.{
  str_header, bin_header, bool_bytes, complex64_bytes, complex128_bytes, time_bytes,
}
use truepack.Msgp.Integers.{byte, be16, be32, be64}
use truepack.Msgp.Integers.Laws.{be_uint16-be16, be_uint32-be32}
use truepack.Msgp.RoundTrip.Data.{str_header-cases, bin_header-cases}
use truepack.Msgp.Skip.{next_type, size_by_mode, get_size, skip, skip_bytes}
use truepack.Msgp.Wire.{
  mnfixint, mfixstr, mnil, mfloat32, mfloat64, muint8, muint16, muint32, muint64, mint8, mint16,
  mint32, mint64, sizes, Bytes, WireType, str_type, bin_type, float64_type, float32_type, bool_type,
  int8_type, int16_type, int32_type, int64_type, uint8_type, uint16_type, uint32_type, uint64_type,
  nil_type, extension_type, complex64_type, complex128_type, time_type, constsize,
}
use truepack.Msgp.Wire.Tables.{rfixstr_mod}

-- The entries of the prefixes that carry a length.
sizes_fixstr :
    (n : ℕ) → n ≤ 31 → sizes (160 + n) ≡ record { size = 1 + n; extra = constsize; typ = str_type }
unfolding sizes
sizes_fixstr n h =
    let r1 : ltb (160 + n) 0x80 ≡ false = ground arith in
    let r2 : leb mnfixint (160 + n) ≡ false = ground arith in
    let r3 : (leb mfixstr (160 + n) && ltb (160 + n) 0xc0) ≡ true = ground arith in
    let r4 : (160 + n) % 32 ≡ n = omega arith in
    rw (r1, r2, r3, rfixstr_mod (160 + n) (omega arith), r4)

-- Skip takes an object that getSize measures as a whole.
pub skip_flat :
    (bs rest : Bytes)
    → get_size (bs ++ rest) ≡ some (length bs, 0, none)
    → skip_bytes (bs ++ rest) ≡ some (rest, none)
unfolding skip_bytes skip
skip_flat bs rest e = rw (
  e,
  le→ltb (length (bs ++ rest)) (length bs) (omega (arith, length-append bs rest)),
  slice_from_append bs rest,
)

-- NextType names the type and getSize the size, with no objects inside.
abbrev pub IsFlat : Bytes → Bytes → WireType → Type 0
IsFlat bs rest t =
    (next_type (bs ++ rest) ≡ some t) × (get_size (bs ++ rest) ≡ some (length bs, 0, none))

module _ (rest : Bytes) where
  short_str-IsFlat : (s : Bytes) → length s ≤ 31 → IsFlat ((160 + length s) ∷ s) rest str_type
  unfolding next_type get_size size_by_mode
  short_str-IsFlat s h = rw (sizes_fixstr (length s) h) (refl, ground arith)

  pub str-IsFlat :
      (s : Bytes) → length s < 2 ^ 32 → IsFlat (str_header (length s) ++ s) rest str_type
  unfolding next_type get_size size_by_mode sizes
  str-IsFlat s h =
      str_header-cases (λ hd. IsFlat (hd ++ s) rest str_type) (length s)
        (λ small. short_str-IsFlat s small) (λ small. (refl, ground arith))
        (λ small. (refl, ground (arith, be_uint16-be16 (length s) (s ++ rest))))
        (refl, ground (arith, be_uint32-be32 (length s) (s ++ rest) h))

  pub bin-IsFlat :
      (s : Bytes) → length s < 2 ^ 32 → IsFlat (bin_header (length s) ++ s) rest bin_type
  unfolding next_type get_size size_by_mode sizes
  bin-IsFlat s h =
      bin_header-cases (λ hd. IsFlat (hd ++ s) rest bin_type) (length s)
        (λ small. (refl, ground arith))
        (λ small. (refl, ground (arith, be_uint16-be16 (length s) (s ++ rest))))
        (refl, ground (arith, be_uint32-be32 (length s) (s ++ rest) h))

  -- The formats of fixed length.
  pub fixed-IsFlat :
      (x : ℕ) (t : Bool)
      → IsFlat (mnil ∷ []) rest nil_type
        × IsFlat (bool_bytes t) rest bool_type
        × IsFlat (mfloat32 ∷ be32 x) rest float32_type
        × IsFlat (mfloat64 ∷ be64 x) rest float64_type
        × IsFlat (mint8 ∷ byte x ∷ []) rest int8_type
        × IsFlat (mint16 ∷ be16 x) rest int16_type
        × IsFlat (mint32 ∷ be32 x) rest int32_type
        × IsFlat (mint64 ∷ be64 x) rest int64_type
        × IsFlat (muint8 ∷ byte x ∷ []) rest uint8_type
        × IsFlat (muint16 ∷ be16 x) rest uint16_type
        × IsFlat (muint32 ∷ be32 x) rest uint32_type
        × IsFlat (muint64 ∷ be64 x) rest uint64_type
  unfolding next_type get_size size_by_mode sizes
  fixed-IsFlat x t = (
    (refl, refl),
    bool_case t,
    (refl, refl),
    (refl, refl),
    (refl, refl),
    (refl, refl),
    (refl, refl),
    (refl, refl),
    (refl, refl),
    (refl, refl),
    (refl, refl),
    (refl, refl),
  )
    where
      bool_case : (t : Bool) → IsFlat (bool_bytes t) rest bool_type
      bool_case true = unfold bool_bytes in (refl, refl)
      bool_case false = unfold bool_bytes in (refl, refl)

  -- A time is known by the byte behind its length.
  pub time-IsFlat : (sec nsec : ℕ) → IsFlat (time_bytes sec nsec) rest time_type
  unfolding next_type get_size size_by_mode sizes
  time-IsFlat sec nsec = (ground arith, ground arith)

-- NextType tests `len(b) > spec.size`, and the size of a fixext is that of the whole object: it knows a
-- complex number only if another byte follows, and takes one that ends the input for an extension of
-- the user. Skip takes both alike.
pub next_type_complex :
    (re im x : ℕ) (rest : Bytes)
    → (next_type (complex64_bytes re im) ≡ some extension_type)
      × (next_type (complex64_bytes re im ++ (x ∷ rest)) ≡ some complex64_type)
      × (next_type (complex128_bytes re im) ≡ some extension_type)
      × (next_type (complex128_bytes re im ++ (x ∷ rest)) ≡ some complex128_type)
      × (skip_bytes (complex64_bytes re im ++ rest) ≡ some (rest, none))
      × (skip_bytes (complex128_bytes re im ++ rest) ≡ some (rest, none))
unfolding next_type get_size size_by_mode sizes
next_type_complex re im x rest = (
  refl,
  ground arith,
  refl,
  ground arith,
  skip_flat (complex64_bytes re im) rest refl,
  skip_flat (complex128_bytes re im) rest refl,
)
