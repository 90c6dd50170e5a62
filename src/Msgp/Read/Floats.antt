-- ===== src/Msgp/Read/Floats.antt =====
-- msgp/read_bytes.go: the readers of floats. A float is its IEEE 754 bits.
use truepack.Prelude.{
  ℕ, zero, suc, ◌+◌, ◌-◌, ◌*◌, ◌/◌, ◌%◌, ◌^◌, bit_or, ◌&&◌, Option, some, [], ◌∷◌, ltb, leb, ◌==◌,
  if◌then◌else◌, ◌>>=◌, length,
}
use truepack.Msgp.Integers.{get_muint64, get_muint32}
use truepack.Msgp.Nilbits.{NilBitsStack}
use truepack.Msgp.Read.Guard.{Read, fail, nil_guard, need, take_value}
use truepack.Msgp.Wire.{
  mfloat32, mfloat64, get_type, bad_prefix, Bytes, float64_type, float32_type, err_short_bytes,
  type_error,
}

-- The place of the highest one of `m`, looked for from `k - 1` down.
unfoldable pub top_one : ℕ → ℕ → ℕ
top_one zero m = 0
top_one (suc k) m = let below = top_one k m in if leb (2 ^ k) m then k else below

-- `float64(f)` of a float32: exact on numbers and infinities; a NaN keeps its sign and payload and
-- becomes quiet, as the processors' conversion leaves it. A subnormal is normalised.
unfoldable pub float64_of_float32 : ℕ → ℕ
unfolding top_one
float64_of_float32 w =
    let s = w / 2 ^ 31 * 2 ^ 63 in
    let e = w / 2 ^ 23 % 2 ^ 8 in
    let m = w % 2 ^ 23 in
    let p = top_one 23 m in
    if e == 255
    then (if m == 0 then s + 2047 * 2 ^ 52 else s + 2047 * 2 ^ 52 + bit_or (2 ^ 51) (m * 2 ^ 29))
    else if e == 0
    then (if m == 0 then s else s + (p + 874) * 2 ^ 52 + (m - 2 ^ p) * 2 ^ (52 - p))
    else s + (e + 896) * 2 ^ 52 + m * 2 ^ 29

unfoldable pub float32_body : Bytes → Read ℕ
float32_body [] = fail 0 [] err_short_bytes
float32_body (lead ∷ t) =
    let b = lead ∷ t in
    need b 5 0 (
      if lead == mfloat32
      then take_value (get_muint32 b) b 5
      else fail 0 [] (type_error float32_type (get_type lead)))

unfoldable pub read_float32_bytes : Option NilBitsStack → Bytes → Read ℕ
read_float32_bytes nbs b = nil_guard nbs b 0 (float32_body b)

-- `tf, o, err = ReadFloat32Bytes(b); f = float64(tf); return`
unfoldable pub widened : Read ℕ → Read ℕ
widened r = r >>= λ (tf, o, err). some (float64_of_float32 tf, o, err)

unfoldable pub float64_body : Option NilBitsStack → Bytes → Read ℕ
float64_body nbs [] = fail 0 [] err_short_bytes
float64_body nbs (lead ∷ t) =
    let b = lead ∷ t in
    let narrow = widened (read_float32_bytes nbs b) in
    if ltb (length b) 9
    then (if leb 5 (length b) && lead == mfloat32 then narrow else fail 0 [] err_short_bytes)
    else if lead == mfloat64
    then take_value (get_muint64 b) b 9
    else if lead == mfloat32
    then narrow
    else fail 0 [] (bad_prefix float64_type lead)

unfoldable pub read_float64_bytes : Option NilBitsStack → Bytes → Read ℕ
read_float64_bytes nbs b = nil_guard nbs b 0 (float64_body nbs b)
