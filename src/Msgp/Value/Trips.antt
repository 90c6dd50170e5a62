-- ===== src/Msgp/Value/Trips.antt =====
-- msgp/read_bytes.go: ReadIntfBytes on one object of each wire type.
use truepack.Prelude.{
  ℕ, zero, suc, ◌^◌, ◌≤◌, ◌<◌, ◌≡◌, refl, sym, ap, ◌∙◌, inl, inr, Bool, true, false, Option, some,
  [], ◌∷◌, ◌++◌, arith, ◌==◌, Bool-cases, length,
}
use mathlib.Core.Path.{subst}
use truepack.Msgp.Append.Format.{
  str_header, bin_header, bool_bytes, complex64_bytes, complex128_bytes, time_bytes,
}
use truepack.Msgp.Append.Laws.{
  append_bytes-Appends, append_string-Appends, append_time-Appends, append_fixed-Appends,
  append_integer-Appends,
}
use truepack.Msgp.Edit.Format.{key_bytes}
use truepack.Msgp.Integers.{byte, be16, be32, be64}
use truepack.Msgp.Nilbits.{NilBitsStack, is_always_nil}
use truepack.Msgp.Read.{
  read_int32_bytes, read_int16_bytes, read_int8_bytes, Read, ok, nil_guard, read_bytes_bytes,
  nil_slice, read_string_bytes, read_map_key_zc, read_bool_bytes, read_time_bytes,
  read_uint32_bytes, read_uint16_bytes, read_uint8_bytes,
}
use truepack.Msgp.RoundTrip.Blobs.{string_RoundTrips, bytes_RoundTrips}
use truepack.Msgp.RoundTrip.Exts.{
  read_float32-mfloat32, read_float64-mfloat64, read_complex64-complex64_bytes,
  read_complex128-complex128_bytes, fixed_RoundTrips, time_RoundTrips,
}
use truepack.Msgp.RoundTrip.Numbers.{
  read_uint64-muint64, read_int64-mint64, uint_RoundTrips, int_RoundTrips,
}
use truepack.Msgp.RoundTrip.Rules.{RoundTrips}
use truepack.Msgp.Skip.{next_type}
use truepack.Msgp.Skip.Flat.{str-IsFlat, bin-IsFlat, fixed-IsFlat, time-IsFlat, next_type_complex}
use truepack.Msgp.Slice.{Slice, Appends}
use truepack.Msgp.Value.{
  Value, val_nil, val_bool, val_float32, val_float64, val_complex64, val_complex128, val_string,
  val_bytes, val_int8, val_int16, val_int32, val_int64, val_uint8, val_uint16, val_uint32,
  val_uint64, val_time,
}
use truepack.Msgp.Value.Read.{as_value, intf_by_type, intf_body, read_intf}
use truepack.Msgp.Wire.{
  mnil, mfloat32, mfloat64, muint8, muint16, muint32, muint64, mint8, mint16, mint32, mint64, sizes,
  Bytes, WireType, invalid_type, str_type, bin_type, float64_type, float32_type, bool_type,
  int8_type, int16_type, int32_type, int64_type, uint8_type, uint16_type, uint32_type, uint64_type,
  nil_type, complex64_type, complex128_type, time_type,
}

-- A reader that takes what an append wrote, without the append.
trip_read :
    {A : Type 0} (rest vs : Bytes) (r : Option Slice) (read : Bytes → Read A) (v : A)
    → RoundTrips nil_slice rest r read v
    → Appends nil_slice vs r
    → read (vs ++ rest) ≡ ok v rest
trip_read rest vs r read v (o, bs, e, w, h) (o', e', w') =
    let same : o ≡ o' = cc in
    let bytes : bs ≡ vs = sym w ∙ ap (λ s. s.visible) same ∙ w' in
    subst (λ s. read (s ++ rest) ≡ ok v rest) bytes h

pub as_value-ok :
    {A : Type 0} (f : A → Value) (r : Read A) (x : A) (o : Bytes)
    → r ≡ ok x o
    → as_value f r ≡ ok (f x) o
unfolding as_value
as_value-ok f r x o e = rw e refl

-- The types of objects that are no nil.
unfoldable pub ordinary : WireType → Bool
ordinary nil_type = false
ordinary invalid_type = false
ordinary _ = true

not_ordinary : (k j : WireType) → some j ≡ some k → ordinary k ≡ true → ordinary j ≡ true
not_ordinary k j e q = let same : j ≡ k = cc in rw same q

ordinary_lead :
    (lead : ℕ) (t : Bytes) (k : WireType)
    → next_type (lead ∷ t) ≡ some k
    → ordinary k ≡ true
    → (lead == mnil) ≡ false
unfolding ordinary
ordinary_lead lead t k e q = elim (Bool-cases (lead == mnil)) [
  | inr f ↦ f
  | inl f ↦
      let same : lead ≡ mnil = ground (arith, f) in
      let wrong =
        not_ordinary k nil_type (sym (nil_lead t) ∙ ap (λ x. next_type (x ∷ t)) (sym same) ∙ e) q in
      ground (arith, wrong)
]
  where
    nil_lead : (t : Bytes) → next_type (mnil ∷ t) ≡ some nil_type
    nil_lead t = unfold next_type sizes in refl

ordinary_bytes : (k : WireType) → next_type [] ≡ some k → ordinary k ≡ true → false ≡ true
unfolding ordinary next_type
ordinary_bytes k e q = not_ordinary k invalid_type e q

complex_types :
    (re im : ℕ) (rest : Bytes)
    → 1 ≤ length rest
    → (next_type (complex64_bytes re im ++ rest) ≡ some complex64_type)
      × (next_type (complex128_bytes re im ++ rest) ≡ some complex128_type)
complex_types re im [] h = absurd (omega arith)
complex_types re im (x ∷ rest) h = let t = next_type_complex re im x rest in (t.1, t.3)

module _ (nbs : Option NilBitsStack) (live : is_always_nil nbs ≡ false) (behind : ℕ) where
  pub ordinary_pass :
      {A : Type 0} (b : Bytes) (k : WireType) (v : A) (r : Read A)
      → next_type b ≡ some k
      → ordinary k ≡ true
      → nil_guard nbs b v r ≡ r
  unfolding nil_guard
  ordinary_pass [] k v r e q = rw live refl
  ordinary_pass (lead ∷ t) k v r e q = rw (live, ordinary_lead lead t k e q) refl

  intf_step :
      (fuel : ℕ) (b : Bytes) (k : WireType) (w : Value) (rest : Bytes)
      → next_type b ≡ some k
      → ordinary k ≡ true
      → ((lead : ℕ) → intf_by_type nbs (read_intf fuel nbs) lead b k ≡ ok w rest)
      → read_intf (suc fuel) nbs b ≡ ok w rest
  unfolding read_intf nil_guard intf_body
  intf_step fuel [] k w rest e q h = ground (arith, ordinary_bytes k e q)
  intf_step fuel (lead ∷ t) k w rest e q h = rw (live, ordinary_lead lead t k e q, e) (h lead)

  -- ReadIntfBytes takes the bytes off the front of any others, at least `behind` many, with the value, if
  -- its fuel exceeds these.
  abbrev pub Reads : Bytes → Value → Type 0
  Reads bs w =
      (fuel : ℕ) (rest : Bytes)
      → behind ≤ length rest
      → length (bs ++ rest) < fuel
      → read_intf fuel nbs (bs ++ rest) ≡ ok w rest

  pub followed-Reads :
      (bs : Bytes) (w : Value) (k : WireType)
      → ordinary k ≡ true
      → ((rest : Bytes) → behind ≤ length rest → next_type (bs ++ rest) ≡ some k)
      → ((fuel : ℕ) (rest : Bytes) (lead : ℕ)
          → behind ≤ length rest
          → length (bs ++ rest) ≤ fuel
          → intf_by_type nbs (read_intf fuel nbs) lead (bs ++ rest) k ≡ ok w rest)
      → Reads bs w
  followed-Reads bs w k q e h zero rest f l = absurd (omega arith)
  followed-Reads bs w k q e h (suc fuel) rest f l =
      intf_step fuel (bs ++ rest) k w rest (e rest f) q (λ lead. h fuel rest lead f (omega arith))

  pub typed-Reads :
      (bs : Bytes) (w : Value) (k : WireType)
      → ordinary k ≡ true
      → ((rest : Bytes) → next_type (bs ++ rest) ≡ some k)
      → ((fuel : ℕ) (rest : Bytes) (lead : ℕ)
          → length (bs ++ rest) ≤ fuel
          → intf_by_type nbs (read_intf fuel nbs) lead (bs ++ rest) k ≡ ok w rest)
      → Reads bs w
  typed-Reads bs w k q e h =
      followed-Reads bs w k q (λ rest f. e rest) (λ fuel rest lead f. h fuel rest lead)

  pub nil-Reads : Reads (mnil ∷ []) val_nil
  unfolding read_intf nil_guard
  nil-Reads zero rest f l = absurd (omega arith)
  nil-Reads (suc fuel) rest f l = rw live refl

  pub int-Reads :
      (i : ℕ)
      → (i < 2 ^ 8 → Reads (mint8 ∷ byte i ∷ []) (val_int8 i))
        × (i < 2 ^ 16 → Reads (mint16 ∷ be16 i) (val_int16 i))
        × (i < 2 ^ 32 → Reads (mint32 ∷ be32 i) (val_int32 i))
        × (i < 2 ^ 64 → Reads (mint64 ∷ be64 i) (val_int64 i))
  unfolding intf_by_type ordinary
  int-Reads i = (
    λ h.
        typed-Reads (mint8 ∷ byte i ∷ []) _ int8_type refl (λ rest. (fixed-IsFlat rest i true).4.0)
          (λ fuel rest lead l. as_value-ok val_int8 _ i rest (
            trip_read rest (mint8 ∷ byte i ∷ []) _ (read_int8_bytes nbs) i
              (int_RoundTrips nbs nil_slice rest live i 0 0 0 h (omega arith) (omega arith)
                (omega arith)).0
              (append_integer-Appends nil_slice i).0)),
    λ h.
        typed-Reads (mint16 ∷ be16 i) _ int16_type refl (λ rest. (fixed-IsFlat rest i true).5.0)
          (λ fuel rest lead l. as_value-ok val_int16 _ i rest (
            trip_read rest (mint16 ∷ be16 i) _ (read_int16_bytes nbs) i
              (int_RoundTrips nbs nil_slice rest live 0 i 0 0 (omega arith) h (omega arith)
                (omega arith)).1
              (append_integer-Appends nil_slice i).1)),
    λ h.
        typed-Reads (mint32 ∷ be32 i) _ int32_type refl (λ rest. (fixed-IsFlat rest i true).6.0)
          (λ fuel rest lead l. as_value-ok val_int32 _ i rest (
            trip_read rest (mint32 ∷ be32 i) _ (read_int32_bytes nbs) i
              (int_RoundTrips nbs nil_slice rest live 0 0 i 0 (omega arith) (omega arith) h
                (omega arith)).2
              (append_integer-Appends nil_slice i).2)),
    λ h.
        typed-Reads (mint64 ∷ be64 i) _ int64_type refl (λ rest. (fixed-IsFlat rest i true).7.0)
          (λ fuel rest lead l.
            as_value-ok val_int64 _ i rest (read_int64-mint64 nbs rest live i h)),
  )

  pub uint-Reads :
      (i : ℕ)
      → (i < 2 ^ 8 → Reads (muint8 ∷ byte i ∷ []) (val_uint8 i))
        × (i < 2 ^ 16 → Reads (muint16 ∷ be16 i) (val_uint16 i))
        × (i < 2 ^ 32 → Reads (muint32 ∷ be32 i) (val_uint32 i))
        × (i < 2 ^ 64 → Reads (muint64 ∷ be64 i) (val_uint64 i))
  unfolding intf_by_type ordinary
  uint-Reads i = (
    λ h.
        typed-Reads (muint8 ∷ byte i ∷ []) _ uint8_type refl
          (λ rest. (fixed-IsFlat rest i true).8.0)
          (λ fuel rest lead l. as_value-ok val_uint8 _ i rest (
            trip_read rest (muint8 ∷ byte i ∷ []) _ (read_uint8_bytes nbs) i
              (uint_RoundTrips nbs nil_slice rest live i 0 0 0 h (omega arith) (omega arith)
                (omega arith)).0
              (append_integer-Appends nil_slice i).5)),
    λ h.
        typed-Reads (muint16 ∷ be16 i) _ uint16_type refl (λ rest. (fixed-IsFlat rest i true).9.0)
          (λ fuel rest lead l. as_value-ok val_uint16 _ i rest (
            trip_read rest (muint16 ∷ be16 i) _ (read_uint16_bytes nbs) i
              (uint_RoundTrips nbs nil_slice rest live 0 i 0 0 (omega arith) h (omega arith)
                (omega arith)).1
              (append_integer-Appends nil_slice i).7)),
    λ h.
        typed-Reads (muint32 ∷ be32 i) _ uint32_type refl (λ rest. (fixed-IsFlat rest i true).10.0)
          (λ fuel rest lead l. as_value-ok val_uint32 _ i rest (
            trip_read rest (muint32 ∷ be32 i) _ (read_uint32_bytes nbs) i
              (uint_RoundTrips nbs nil_slice rest live 0 0 i 0 (omega arith) (omega arith) h
                (omega arith)).2
              (append_integer-Appends nil_slice i).8)),
    λ h.
        typed-Reads (muint64 ∷ be64 i) _ uint64_type refl (λ rest. (fixed-IsFlat rest i true).11.0)
          (λ fuel rest lead l.
            as_value-ok val_uint64 _ i rest (read_uint64-muint64 nbs rest live i h)),
  )

  pub bool-Reads : (t : Bool) → Reads (bool_bytes t) (val_bool t)
  unfolding intf_by_type ordinary
  bool-Reads t =
      typed-Reads (bool_bytes t) _ bool_type refl (λ rest. (fixed-IsFlat rest 0 t).1.0)
        (λ fuel rest lead l. as_value-ok val_bool _ t rest (
          trip_read rest (bool_bytes t) _ (read_bool_bytes nbs) t
            (fixed_RoundTrips nbs nil_slice rest live t 0 0 0 0 (omega arith) (omega arith)
              (omega arith) (omega arith)).0
            (append_fixed-Appends nil_slice 0 0 t).1))

  pub float-Reads :
      (x : ℕ)
      → (x < 2 ^ 32 → Reads (mfloat32 ∷ be32 x) (val_float32 x))
        × (x < 2 ^ 64 → Reads (mfloat64 ∷ be64 x) (val_float64 x))
  unfolding intf_by_type ordinary
  float-Reads x = (
    λ h.
        typed-Reads (mfloat32 ∷ be32 x) _ float32_type refl (λ rest. (fixed-IsFlat rest x true).2.0)
          (λ fuel rest lead l.
            as_value-ok val_float32 _ x rest (read_float32-mfloat32 nbs rest live x h)),
    λ h.
        typed-Reads (mfloat64 ∷ be64 x) _ float64_type refl (λ rest. (fixed-IsFlat rest x true).3.0)
          (λ fuel rest lead l.
            as_value-ok val_float64 _ x rest (read_float64-mfloat64 nbs rest live x h)),
  )

  -- A complex number is one if a byte follows; its NextType is that of an extension at the end.
  pub complex-Reads :
      (re im : ℕ)
      → 1 ≤ behind
      → (re < 2 ^ 32 → im < 2 ^ 32 → Reads (complex64_bytes re im) (val_complex64 re im))
        × (re < 2 ^ 64 → im < 2 ^ 64 → Reads (complex128_bytes re im) (val_complex128 re im))
  unfolding intf_by_type ordinary
  complex-Reads re im m = (
    λ h k.
        followed-Reads (complex64_bytes re im) _ complex64_type refl
          (λ rest f. (complex_types re im rest (omega (arith, m, f))).0)
          (λ fuel rest lead f l.
            as_value-ok (λ (x, y). val_complex64 x y) _ (re, im) rest
              (read_complex64-complex64_bytes nbs rest live re im h k)),
    λ h k.
        followed-Reads (complex128_bytes re im) _ complex128_type refl
          (λ rest f. (complex_types re im rest (omega (arith, m, f))).1)
          (λ fuel rest lead f l.
            as_value-ok (λ (x, y). val_complex128 x y) _ (re, im) rest
              (read_complex128-complex128_bytes nbs rest live re im h k)),
  )

  pub blob-Reads :
      (s : Bytes)
      → length s < 2 ^ 32
      → Reads (str_header (length s) ++ s) (val_string s)
        × Reads (bin_header (length s) ++ s) (val_bytes s)
  unfolding intf_by_type ordinary
  blob-Reads s h = (
    typed-Reads (str_header (length s) ++ s) _ str_type refl (λ rest. (str-IsFlat rest s h).0)
        (λ fuel rest lead l. as_value-ok val_string _ s rest (
          trip_read rest (str_header (length s) ++ s) _ (read_string_bytes nbs) s
            (string_RoundTrips nbs nil_slice rest live s nil_slice h).1
            (append_string-Appends nil_slice s h))),
    typed-Reads (bin_header (length s) ++ s) _ bin_type refl (λ rest. (bin-IsFlat rest s h).0)
        (λ fuel rest lead l. as_value-ok val_bytes _ s rest (
          trip_read rest (bin_header (length s) ++ s) _ (λ t. read_bytes_bytes nbs t nil_slice) s
            (bytes_RoundTrips nbs nil_slice rest live s nil_slice h).0
            (append_bytes-Appends nil_slice s h))),
  )

  pub time-Reads :
      (sec nsec : ℕ)
      → sec < 2 ^ 64
      → nsec < 1000000000
      → Reads (time_bytes sec nsec) (val_time sec nsec)
  unfolding intf_by_type ordinary
  time-Reads sec nsec h k =
      typed-Reads (time_bytes sec nsec) _ time_type refl (λ rest. (time-IsFlat rest sec nsec).0)
        (λ fuel rest lead l.
          as_value-ok (λ (s, n). val_time s n) _ (sec, nsec) rest
            (trip_read rest (time_bytes sec nsec) _ (read_time_bytes nbs) (sec, nsec)
              (time_RoundTrips nbs nil_slice rest live sec nsec h k)
              (append_time-Appends nil_slice sec nsec)))

  -- A key is read as what it was.
  pub read_map_key-key_bytes :
      (key rest : Bytes)
      → length key < 2 ^ 32
      → read_map_key_zc nbs (key_bytes key ++ rest) ≡ ok key rest
  read_map_key-key_bytes key rest h =
      trip_read rest (key_bytes key) _ (read_map_key_zc nbs) key
        (string_RoundTrips nbs nil_slice rest live key nil_slice h).3
        (append_string-Appends nil_slice key h)
