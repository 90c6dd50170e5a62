-- ===== src/Msgp/Skip/Frames.antt =====
-- NextType and Skip of msgp/read_bytes.go on what msgp/write_bytes.go appends.
use truepack.Prelude.{ℕ, ◌≡◌, true, Option, none, some, ◌++◌}
use truepack.Msgp.Append.{
  append_int64, append_int, append_int8, append_int16, append_int32, append_uint64, append_uint,
  append_uint8, append_byte, append_uint16, append_uint32,
}
use truepack.Msgp.Append.Laws.{append_integer-Appends}
use truepack.Msgp.Skip.{next_type, skip_bytes}
use truepack.Msgp.Skip.Flat.{skip_flat, IsFlat, fixed-IsFlat}
use truepack.Msgp.Slice.{Slice, Appends}
use truepack.Msgp.Wire.{
  Bytes, WireType, int8_type, int16_type, int32_type, int64_type, uint8_type, uint16_type,
  uint32_type, uint64_type,
}

-- The append returns, it adds bytes behind those of `b`, and in front of any bytes these have the
-- type `t` for NextType and are what Skip takes.
abbrev pub Frames : Slice → Bytes → Option Slice → WireType → Type 0
Frames b rest r t =
    (o : Slice) × (bs : Bytes) × (r ≡ some o)
    × (o.visible ≡ b.visible ++ bs)
    × (next_type (bs ++ rest) ≡ some t)
    × (skip_bytes (bs ++ rest) ≡ some (rest, none))

frame :
    (b : Slice) (bs rest : Bytes) (r : Option Slice) (t : WireType)
    → Appends b bs r
    → IsFlat bs rest t
    → Frames b rest r t
frame b bs rest r t (o, e, f) (g, h) = (o, bs, e, f, g, skip_flat bs rest h)

module _ (b : Slice) (rest : Bytes) where
  -- Each integer keeps its own Go type on the wire, whatever its value: the type that NextType names
  -- in front of any bytes is the type that was written (int and uint are written as int64 and uint64),
  -- and Skip takes just what was written.
  pub integer_Frames :
      (x : ℕ)
      → Frames b rest (append_int8 b x) int8_type
        × Frames b rest (append_int16 b x) int16_type
        × Frames b rest (append_int32 b x) int32_type
        × Frames b rest (append_int64 b x) int64_type
        × Frames b rest (append_int b x) int64_type
        × Frames b rest (append_uint8 b x) uint8_type
        × Frames b rest (append_byte b x) uint8_type
        × Frames b rest (append_uint16 b x) uint16_type
        × Frames b rest (append_uint32 b x) uint32_type
        × Frames b rest (append_uint64 b x) uint64_type
        × Frames b rest (append_uint b x) uint64_type
  integer_Frames x =
      let a = append_integer-Appends b x in
      let f = fixed-IsFlat rest x true in
      (
        frame b _ rest (append_int8 b x) int8_type a.0 f.4,
        frame b _ rest (append_int16 b x) int16_type a.1 f.5,
        frame b _ rest (append_int32 b x) int32_type a.2 f.6,
        frame b _ rest (append_int64 b x) int64_type a.3 f.7,
        frame b _ rest (append_int b x) int64_type a.4 f.7,
        frame b _ rest (append_uint8 b x) uint8_type a.5 f.8,
        frame b _ rest (append_byte b x) uint8_type a.6 f.8,
        frame b _ rest (append_uint16 b x) uint16_type a.7 f.9,
        frame b _ rest (append_uint32 b x) uint32_type a.8 f.10,
        frame b _ rest (append_uint64 b x) uint64_type a.9 f.11,
        frame b _ rest (append_uint b x) uint64_type a.10 f.11,
      )
