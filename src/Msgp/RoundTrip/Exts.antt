-- ===== src/Msgp/RoundTrip/Exts.antt =====
-- The readers of booleans, floats, headers, complex numbers and times of msgp/read_bytes.go on what
-- msgp/write_bytes.go appends.
use truepack.Prelude.{
  ℕ, ◌+◌, ◌%◌, ◌^◌, ◌≤◌, ◌<◌, ◌≡◌, refl, ◌∙◌, inl, inr, Bool, true, false, ◌&&◌, Option, ◌∷◌, ◌++◌,
  arith, ltb, leb, le→ltb, Bool-cases, length,
}
use truepack.Msgp.Append.{
  append_float64, append_float32, append_bool, append_complex64, append_complex128, append_time,
}
use truepack.Msgp.Append.Format.{
  map_header, array_header, bool_bytes, complex64_bytes, complex128_bytes, time_bytes,
}
use truepack.Msgp.Append.Laws.{append_time-Appends, append_fixed-Appends}
use truepack.Msgp.Integers.{be16, be32, be64, get_muint64, get_muint32, get_unix}
use truepack.Msgp.Integers.Laws.{be_uint16-be16, be_uint32-be32, be_uint64-be64}
use truepack.Msgp.Nilbits.{NilBitsStack, is_always_nil}
use truepack.Msgp.Read.{
  ok, float32_body, read_float32_bytes, float64_body, read_float64_bytes, map_header_body,
  read_map_header_bytes, array_header_body, read_array_header_bytes, bool_body, read_bool_bytes,
  complex128_body, read_complex128_bytes, complex64_body, read_complex64_bytes, time_unix,
  zero_time, time_body, read_time_bytes,
}
use truepack.Msgp.RoundTrip.Data.{test_le}
use truepack.Msgp.RoundTrip.Rules.{
  RoundTrips, round_trip, need-pass, take_value-eq, field-eq, guarded,
}
use truepack.Msgp.Slice.{Slice}
use truepack.Msgp.Wire.{
  mfalse, mtrue, mext8, mfloat32, mfloat64, mfixext8, mfixext16, marray16, marray32, mmap16, mmap32,
  Bytes, isfixmap, isfixarray,
}
use truepack.Msgp.Wire.Tables.{isfixmap_range, isfixarray_range, rfixmap_mod, rfixarray_mod}

module _ (nbs : Option NilBitsStack) (rest : Bytes) (live : is_always_nil nbs ≡ false) where
  read_bool-bool_bytes : (t : Bool) → read_bool_bytes nbs (bool_bytes t ++ rest) ≡ ok t rest
  unfolding read_bool_bytes bool_body bool_bytes
  read_bool-bool_bytes true = guarded nbs mtrue rest false true _ rest live refl refl
  read_bool-bool_bytes false = guarded nbs mfalse rest false false _ rest live refl refl

  pub read_float32-mfloat32 :
      (x : ℕ) → x < 2 ^ 32 → read_float32_bytes nbs (mfloat32 ∷ (be32 x ++ rest)) ≡ ok x rest
  unfolding read_float32_bytes float32_body get_muint32
  read_float32-mfloat32 x h =
      guarded nbs mfloat32 (be32 x ++ rest) 0 x _ rest live refl (
        need-pass _ 5 0 _ (omega arith) ∙ take_value-eq _ _ 5 x rest (be_uint32-be32 x rest h) refl)

  pub read_float64-mfloat64 :
      (x : ℕ) → x < 2 ^ 64 → read_float64_bytes nbs (mfloat64 ∷ (be64 x ++ rest)) ≡ ok x rest
  unfolding read_float64_bytes float64_body get_muint64
  read_float64-mfloat64 x h = guarded nbs mfloat64 (be64 x ++ rest) 0 x _ rest live refl (
      rw (le→ltb (length (mfloat64 ∷ (be64 x ++ rest))) 9 (omega arith))
        (take_value-eq _ _ 9 x rest (be_uint64-be64 x rest h) refl))

  pub read_complex64-complex64_bytes :
      (re im : ℕ)
      → re < 2 ^ 32
      → im < 2 ^ 32
      → read_complex64_bytes nbs (complex64_bytes re im ++ rest) ≡ ok (re, im) rest
  unfolding read_complex64_bytes complex64_body
  read_complex64-complex64_bytes re im h k =
      guarded nbs mfixext8 _ (0, 0) (re, im) _ rest live refl
        (need-pass _ 10 (0, 0) _ (omega arith)
          ∙ rw (be_uint32-be32 re (be32 im ++ rest) h, be_uint32-be32 im rest k))

  pub read_complex128-complex128_bytes :
      (re im : ℕ)
      → re < 2 ^ 64
      → im < 2 ^ 64
      → read_complex128_bytes nbs (complex128_bytes re im ++ rest) ≡ ok (re, im) rest
  unfolding read_complex128_bytes complex128_body
  read_complex128-complex128_bytes re im h k =
      guarded nbs mfixext16 _ (0, 0) (re, im) _ rest live refl
        (need-pass _ 18 (0, 0) _ (omega arith)
          ∙ rw (be_uint64-be64 re (be64 im ++ rest) h, be_uint64-be64 im rest k))

  time_unix_normal :
      (sec nsec : ℕ) → sec < 2 ^ 64 → nsec < 1000000000 → time_unix sec nsec ≡ (sec, nsec)
  unfolding time_unix
  time_unix_normal sec nsec h k = ground arith

  read_time-time_bytes :
      (sec nsec : ℕ)
      → sec < 2 ^ 64
      → nsec < 1000000000
      → read_time_bytes nbs (time_bytes sec nsec ++ rest) ≡ ok (sec, nsec) rest
  unfolding read_time_bytes time_body get_unix
  read_time-time_bytes sec nsec h k =
      guarded nbs mext8 _ zero_time (sec, nsec) _ rest live refl
        (need-pass _ 15 zero_time _ (omega arith)
          ∙ rw (
            be_uint64-be64 sec (be32 nsec ++ rest) h,
            be_uint32-be32 nsec rest (omega arith),
            time_unix_normal sec nsec h k,
          ))

  pub fix_header :
      (n : ℕ)
      → n ≤ 15
      → (read_map_header_bytes nbs ((128 + n) ∷ rest) ≡ ok n rest)
        × (read_array_header_bytes nbs ((144 + n) ∷ rest) ≡ ok n rest)
  unfolding read_map_header_bytes read_array_header_bytes map_header_body array_header_body
  fix_header n h = (
    guarded nbs (128 + n) rest 0 n _ rest live (ground arith) (
        rw (
          isfixmap_range (128 + n) (omega arith),
          in_map,
          rfixmap_mod (128 + n) (omega arith),
          low,
        )),
    guarded nbs (144 + n) rest 0 n _ rest live (ground arith) (
        rw (
          isfixarray_range (144 + n) (omega arith),
          in_array,
          rfixarray_mod (144 + n) (omega arith),
          high,
        )),
  )
    where
      in_map : (leb 128 (128 + n) && ltb (128 + n) 144) ≡ true
      in_map = ground arith

      in_array : (leb 144 (144 + n) && ltb (144 + n) 160) ≡ true
      in_array = ground arith

      low : (128 + n) % 16 ≡ n
      low = omega arith

      high : (144 + n) % 16 ≡ n
      high = omega arith

  pub read_map_header-map_header :
      (n : ℕ) → n < 2 ^ 32 → read_map_header_bytes nbs (map_header n ++ rest) ≡ ok n rest
  unfolding read_map_header_bytes map_header map_header_body isfixmap
  read_map_header-map_header n h = elim (Bool-cases (leb n 15)) [
    | inl e ↦ rw e (fix_header n (test_le n 15 e)).0
    | inr e ↦ elim (Bool-cases (leb n 65535)) [
      | inl f ↦
          let small = test_le n 65535 f in
          rw (e, f)
            (guarded nbs mmap16 (be16 n ++ rest) 0 n _ rest live refl
              (field-eq _ _ 3 n 0 rest (omega arith) (be_uint16-be16 n rest (omega arith)) refl))
      | inr f ↦
          rw (e, f)
            (guarded nbs mmap32 (be32 n ++ rest) 0 n _ rest live refl
              (field-eq _ _ 5 n 0 rest (omega arith) (be_uint32-be32 n rest h) refl))
    ]
  ]

  pub read_array_header-array_header :
      (n : ℕ) → n < 2 ^ 32 → read_array_header_bytes nbs (array_header n ++ rest) ≡ ok n rest
  unfolding read_array_header_bytes array_header array_header_body isfixarray
  read_array_header-array_header n h = elim (Bool-cases (leb n 15)) [
    | inl e ↦ rw e (fix_header n (test_le n 15 e)).1
    | inr e ↦ elim (Bool-cases (leb n 65535)) [
      | inl f ↦
          let small = test_le n 65535 f in
          rw (e, f)
            (guarded nbs marray16 (be16 n ++ rest) 0 n _ rest live refl
              (field-eq _ _ 3 n 0 rest (omega arith) (be_uint16-be16 n rest (omega arith)) refl))
      | inr f ↦
          rw (e, f)
            (guarded nbs marray32 (be32 n ++ rest) 0 n _ rest live refl
              (field-eq _ _ 5 n 0 rest (omega arith) (be_uint32-be32 n rest h) refl))
    ]
  ]

module _ (nbs : Option NilBitsStack) (b : Slice) (rest : Bytes)
    (live : is_always_nil nbs ≡ false) where
  -- Booleans, floats by their bits and complex numbers by the bits of their parts, all within their
  -- widths: each append returns, and its bytes are read back with the value off the front of any bytes,
  -- while no nils are simulated.
  pub fixed_RoundTrips :
      (t : Bool) (x y z w : ℕ)
      → x < 2 ^ 32
      → y < 2 ^ 32
      → z < 2 ^ 64
      → w < 2 ^ 64
      → RoundTrips b rest (append_bool b t) (read_bool_bytes nbs) t
        × RoundTrips b rest (append_float32 b x) (read_float32_bytes nbs) x
        × RoundTrips b rest (append_float64 b z) (read_float64_bytes nbs) z
        × RoundTrips b rest (append_complex64 b x y) (read_complex64_bytes nbs) (x, y)
        × RoundTrips b rest (append_complex128 b z w) (read_complex128_bytes nbs) (z, w)
  fixed_RoundTrips t x y z w hx hy hz hw =
      let at_x = append_fixed-Appends b x y t in
      let at_z = append_fixed-Appends b z w t in
      (
        round_trip b _ rest (append_bool b t) (read_bool_bytes nbs) t at_x.1
            (read_bool-bool_bytes nbs rest live t),
        round_trip b _ rest (append_float32 b x) (read_float32_bytes nbs) x at_x.2
            (read_float32-mfloat32 nbs rest live x hx),
        round_trip b _ rest (append_float64 b z) (read_float64_bytes nbs) z at_z.3
            (read_float64-mfloat64 nbs rest live z hz),
        round_trip b _ rest (append_complex64 b x y) (read_complex64_bytes nbs) (x, y) at_x.4
            (read_complex64-complex64_bytes nbs rest live x y hx hy),
        round_trip b _ rest (append_complex128 b z w) (read_complex128_bytes nbs) (z, w) at_z.5
            (read_complex128-complex128_bytes nbs rest live z w hz hw),
      )

  -- Times whose nanoseconds are below a second: AppendTime returns, and its bytes are read back as the
  -- same instant off the front of any bytes, while no nils are simulated.
  pub time_RoundTrips :
      (sec nsec : ℕ)
      → sec < 2 ^ 64
      → nsec < 1000000000
      → RoundTrips b rest (append_time b sec nsec) (read_time_bytes nbs) (sec, nsec)
  time_RoundTrips sec nsec h k =
      round_trip b _ rest (append_time b sec nsec) (read_time_bytes nbs) (sec, nsec)
        (append_time-Appends b sec nsec) (read_time-time_bytes nbs rest live sec nsec h k)
