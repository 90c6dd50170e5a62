-- ===== src/Msgp/RoundTrip/Numbers.antt =====
-- The readers of integers of msgp/read_bytes.go on what msgp/write_bytes.go appends.
use truepack.Prelude.{ℕ, ◌^◌, ◌<◌, ◌≡◌, refl, ap, ◌∙◌, false, Option, ◌∷◌, ◌++◌}
use truepack.Msgp.Append.{
  append_int64, append_int, append_int8, append_int16, append_int32, append_uint64, append_uint,
  append_uint8, append_byte, append_uint16, append_uint32,
}
use truepack.Msgp.Append.Laws.{append_integer-Appends}
use truepack.Msgp.Integers.{byte, be16, be32, be64}
use truepack.Msgp.Nilbits.{NilBitsStack, is_always_nil}
use truepack.Msgp.Read.{
  sign_extend, read_int64_bytes, narrow_int, read_int32_bytes, read_int16_bytes, read_int8_bytes,
  read_int_bytes, ok, read_uint64_bytes, narrow_uint, read_uint32_bytes, read_uint16_bytes,
  read_uint8_bytes, read_uint_bytes, read_byte_bytes,
}
use truepack.Msgp.RoundTrip.Formats.{
  uint64_body-muint8, uint64_body-muint16, uint64_body-muint32, uint64_body-muint64,
  int64_body-mint8, int64_body-mint16, int64_body-mint32, int64_body-mint64,
  narrow_int-sign_extend8, narrow_int-sign_extend16, narrow_int-sign_extend32, narrow_uint8,
  narrow_uint16, narrow_uint32,
}
use truepack.Msgp.RoundTrip.Rules.{RoundTrips, round_trip, guarded}
use truepack.Msgp.Slice.{Slice}
use truepack.Msgp.Wire.{muint8, muint16, muint32, muint64, mint8, mint16, mint32, mint64, Bytes}

module _ (nbs : Option NilBitsStack) (rest : Bytes) (live : is_always_nil nbs ≡ false) where
  read_uint8-muint8 :
      (x : ℕ) → x < 2 ^ 8 → read_uint8_bytes nbs (muint8 ∷ byte x ∷ rest) ≡ ok x rest
  unfolding read_uint8_bytes read_uint64_bytes
  read_uint8-muint8 x h =
      let wide =
        guarded nbs muint8 (byte x ∷ rest) 0 x _ rest live refl (uint64_body-muint8 rest x h) in
      guarded nbs muint8 (byte x ∷ rest) 0 x _ rest live refl
        (ap (narrow_uint 8) wide ∙ narrow_uint8 x rest h)

  read_uint16-muint16 :
      (x : ℕ) → x < 2 ^ 16 → read_uint16_bytes nbs (muint16 ∷ (be16 x ++ rest)) ≡ ok x rest
  unfolding read_uint16_bytes read_uint64_bytes
  read_uint16-muint16 x h =
      let wide =
        guarded nbs muint16 (be16 x ++ rest) 0 x _ rest live refl (uint64_body-muint16 rest x h) in
      guarded nbs muint16 (be16 x ++ rest) 0 x _ rest live refl
        (ap (narrow_uint 16) wide ∙ narrow_uint16 x rest h)

  read_uint32-muint32 :
      (x : ℕ) → x < 2 ^ 32 → read_uint32_bytes nbs (muint32 ∷ (be32 x ++ rest)) ≡ ok x rest
  unfolding read_uint32_bytes read_uint64_bytes
  read_uint32-muint32 x h =
      let wide =
        guarded nbs muint32 (be32 x ++ rest) 0 x _ rest live refl (uint64_body-muint32 rest x h) in
      guarded nbs muint32 (be32 x ++ rest) 0 x _ rest live refl
        (ap (narrow_uint 32) wide ∙ narrow_uint32 x rest h)

  pub read_uint64-muint64 :
      (x : ℕ) → x < 2 ^ 64 → read_uint64_bytes nbs (muint64 ∷ (be64 x ++ rest)) ≡ ok x rest
  unfolding read_uint64_bytes
  read_uint64-muint64 x h =
      let wide =
        guarded nbs muint64 (be64 x ++ rest) 0 x _ rest live refl (uint64_body-muint64 rest x h) in
      wide

  read_int8-mint8 : (x : ℕ) → x < 2 ^ 8 → read_int8_bytes nbs (mint8 ∷ byte x ∷ rest) ≡ ok x rest
  unfolding read_int8_bytes read_int64_bytes
  read_int8-mint8 x h =
      let wide =
        guarded nbs mint8 (byte x ∷ rest) 0 (sign_extend 8 x) _ rest live refl
          (int64_body-mint8 rest x h) in
      guarded nbs mint8 (byte x ∷ rest) 0 x _ rest live refl
        (ap (narrow_int 8) wide ∙ narrow_int-sign_extend8 x rest h)

  read_int16-mint16 :
      (x : ℕ) → x < 2 ^ 16 → read_int16_bytes nbs (mint16 ∷ (be16 x ++ rest)) ≡ ok x rest
  unfolding read_int16_bytes read_int64_bytes
  read_int16-mint16 x h =
      let wide =
        guarded nbs mint16 (be16 x ++ rest) 0 (sign_extend 16 x) _ rest live refl
          (int64_body-mint16 rest x h) in
      guarded nbs mint16 (be16 x ++ rest) 0 x _ rest live refl
        (ap (narrow_int 16) wide ∙ narrow_int-sign_extend16 x rest h)

  read_int32-mint32 :
      (x : ℕ) → x < 2 ^ 32 → read_int32_bytes nbs (mint32 ∷ (be32 x ++ rest)) ≡ ok x rest
  unfolding read_int32_bytes read_int64_bytes
  read_int32-mint32 x h =
      let wide =
        guarded nbs mint32 (be32 x ++ rest) 0 (sign_extend 32 x) _ rest live refl
          (int64_body-mint32 rest x h) in
      guarded nbs mint32 (be32 x ++ rest) 0 x _ rest live refl
        (ap (narrow_int 32) wide ∙ narrow_int-sign_extend32 x rest h)

  pub read_int64-mint64 :
      (x : ℕ) → x < 2 ^ 64 → read_int64_bytes nbs (mint64 ∷ (be64 x ++ rest)) ≡ ok x rest
  unfolding read_int64_bytes
  read_int64-mint64 x h =
      let wide =
        guarded nbs mint64 (be64 x ++ rest) 0 x _ rest live refl (int64_body-mint64 rest x h) in
      wide

module _ (nbs : Option NilBitsStack) (b : Slice) (rest : Bytes)
    (live : is_always_nil nbs ≡ false) where
  -- Unsigned integers that fit their types: AppendUint8 to AppendUint64, AppendUint and AppendByte
  -- return and append bytes which the readers of the same names, while no nils are simulated, take off
  -- the front of any bytes, with the value.
  pub uint_RoundTrips :
      (x y z w : ℕ)
      → x < 2 ^ 8
      → y < 2 ^ 16
      → z < 2 ^ 32
      → w < 2 ^ 64
      → RoundTrips b rest (append_uint8 b x) (read_uint8_bytes nbs) x
        × RoundTrips b rest (append_uint16 b y) (read_uint16_bytes nbs) y
        × RoundTrips b rest (append_uint32 b z) (read_uint32_bytes nbs) z
        × RoundTrips b rest (append_uint64 b w) (read_uint64_bytes nbs) w
        × RoundTrips b rest (append_uint b w) (read_uint_bytes nbs) w
        × RoundTrips b rest (append_byte b x) (read_byte_bytes nbs) x
  unfolding read_uint_bytes read_byte_bytes
  uint_RoundTrips x y z w hx hy hz hw =
      let at_x = append_integer-Appends b x in
      let at_y = append_integer-Appends b y in
      let at_z = append_integer-Appends b z in
      let at_w = append_integer-Appends b w in
      (
        round_trip b _ rest (append_uint8 b x) (read_uint8_bytes nbs) x at_x.5
            (read_uint8-muint8 nbs rest live x hx),
        round_trip b _ rest (append_uint16 b y) (read_uint16_bytes nbs) y at_y.7
            (read_uint16-muint16 nbs rest live y hy),
        round_trip b _ rest (append_uint32 b z) (read_uint32_bytes nbs) z at_z.8
            (read_uint32-muint32 nbs rest live z hz),
        round_trip b _ rest (append_uint64 b w) (read_uint64_bytes nbs) w at_w.9
            (read_uint64-muint64 nbs rest live w hw),
        round_trip b _ rest (append_uint b w) (read_uint_bytes nbs) w at_w.10 (
            guarded nbs muint64 (be64 w ++ rest) 0 w _ rest live refl
              (read_uint64-muint64 nbs rest live w hw)),
        round_trip b _ rest (append_byte b x) (read_byte_bytes nbs) x at_x.6 (
            guarded nbs muint8 (byte x ∷ rest) 0 x _ rest live refl
              (read_uint8-muint8 nbs rest live x hx)),
      )

  -- Signed integers as bit patterns: AppendInt8 to AppendInt64 and AppendInt return and append bytes
  -- which the readers of the same names, while no nils are simulated, take off the front of any bytes,
  -- with the value.
  pub int_RoundTrips :
      (x y z w : ℕ)
      → x < 2 ^ 8
      → y < 2 ^ 16
      → z < 2 ^ 32
      → w < 2 ^ 64
      → RoundTrips b rest (append_int8 b x) (read_int8_bytes nbs) x
        × RoundTrips b rest (append_int16 b y) (read_int16_bytes nbs) y
        × RoundTrips b rest (append_int32 b z) (read_int32_bytes nbs) z
        × RoundTrips b rest (append_int64 b w) (read_int64_bytes nbs) w
        × RoundTrips b rest (append_int b w) (read_int_bytes nbs) w
  unfolding read_int_bytes
  int_RoundTrips x y z w hx hy hz hw =
      let at_x = append_integer-Appends b x in
      let at_y = append_integer-Appends b y in
      let at_z = append_integer-Appends b z in
      let at_w = append_integer-Appends b w in
      (
        round_trip b _ rest (append_int8 b x) (read_int8_bytes nbs) x at_x.0
            (read_int8-mint8 nbs rest live x hx),
        round_trip b _ rest (append_int16 b y) (read_int16_bytes nbs) y at_y.1
            (read_int16-mint16 nbs rest live y hy),
        round_trip b _ rest (append_int32 b z) (read_int32_bytes nbs) z at_z.2
            (read_int32-mint32 nbs rest live z hz),
        round_trip b _ rest (append_int64 b w) (read_int64_bytes nbs) w at_w.3
            (read_int64-mint64 nbs rest live w hw),
        round_trip b _ rest (append_int b w) (read_int_bytes nbs) w at_w.4 (
            guarded nbs mint64 (be64 w ++ rest) 0 w _ rest live refl
              (read_int64-mint64 nbs rest live w hw)),
      )
