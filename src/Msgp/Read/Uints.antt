-- ===== src/Msgp/Read/Uints.antt =====
-- msgp/read_bytes.go: the readers of unsigned integers.
use truepack.Prelude.{ℕ, ◌-◌, ◌%◌, ◌^◌, Option, some, [], ◌∷◌, ltb, ◌==◌, if◌then◌else◌, ◌>>=◌}
use truepack.Msgp.Integers.{get_muint64, get_muint32, get_muint16, get_muint8}
use truepack.Msgp.Nilbits.{NilBitsStack}
use truepack.Msgp.Read.Guard.{Read, ok, fail, nil_guard, need, take_value}
use truepack.Msgp.Read.Ints.{smallint}
use truepack.Msgp.Wire.{
  muint8, muint16, muint32, muint64, bad_prefix, Bytes, isfixint, rfixint, uint64_type,
  err_short_bytes, uint_overflow,
}

unfoldable pub uint64_body : Bytes → Read ℕ
uint64_body [] = fail 0 [] err_short_bytes
uint64_body (lead ∷ t) =
    let b = lead ∷ t in
    if isfixint lead
    then ok (rfixint lead) t
    else if lead == muint8
    then need b 2 0 (take_value (get_muint8 b) b 2)
    else if lead == muint16
    then need b 3 0 (take_value (get_muint16 b) b 3)
    else if lead == muint32
    then need b 5 0 (take_value (get_muint32 b) b 5)
    else if lead == muint64
    then need b 9 0 (take_value (get_muint64 b) b 9)
    else fail 0 [] (bad_prefix uint64_type lead)

unfoldable pub read_uint64_bytes : Option NilBitsStack → Bytes → Read ℕ
read_uint64_bytes nbs b = nil_guard nbs b 0 (uint64_body b)

-- `v, o, err := ReadUint64Bytes(b)`, the overflow test, which drops the rest, and the conversion.
unfoldable pub narrow_uint : ℕ → Read ℕ → Read ℕ
narrow_uint w r = r >>= λ (v, o, err).
    if ltb (2 ^ w - 1) v then fail 0 [] (uint_overflow v w) else some (v % 2 ^ w, o, err)

unfoldable pub read_uint32_bytes : Option NilBitsStack → Bytes → Read ℕ
read_uint32_bytes nbs b = nil_guard nbs b 0 (narrow_uint 32 (read_uint64_bytes nbs b))

unfoldable pub read_uint16_bytes : Option NilBitsStack → Bytes → Read ℕ
read_uint16_bytes nbs b = nil_guard nbs b 0 (narrow_uint 16 (read_uint64_bytes nbs b))

unfoldable pub read_uint8_bytes : Option NilBitsStack → Bytes → Read ℕ
read_uint8_bytes nbs b = nil_guard nbs b 0 (narrow_uint 8 (read_uint64_bytes nbs b))

unfoldable pub read_uint_bytes : Option NilBitsStack → Bytes → Read ℕ
read_uint_bytes nbs b =
    nil_guard nbs b 0 (if smallint then read_uint32_bytes nbs b else read_uint64_bytes nbs b)

unfoldable pub read_byte_bytes : Option NilBitsStack → Bytes → Read ℕ
read_byte_bytes nbs b = nil_guard nbs b 0 (read_uint8_bytes nbs b)
