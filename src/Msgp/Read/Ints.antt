-- ===== src/Msgp/Read/Ints.antt =====
-- msgp/read_bytes.go: the readers of signed integers. An intN is its bit pattern below 2 ^ N.
use truepack.Prelude.{
  ℕ, ◌+◌, ◌-◌, ◌%◌, ◌^◌, Bool, false, ◌&&◌, ◌||◌, Option, some, [], ◌∷◌, ltb, leb, ◌==◌,
  if◌then◌else◌, ◌>>=◌,
}
use Prim.Native.Nat.{max}
use truepack.Msgp.Integers.{get_mint64, get_mint32, get_mint16, get_mint8}
use truepack.Msgp.Nilbits.{NilBitsStack}
use truepack.Msgp.Read.Guard.{Read, ok, fail, nil_guard, need, take_value}
use truepack.Msgp.Wire.{
  mint8, mint16, mint32, mint64, bad_prefix, Bytes, isfixint, isnfixint, rfixint, rnfixint,
  int64_type, err_short_bytes, int_overflow,
}

-- The 32-bit platforms' constant: the model is of a 64-bit platform.
abbrev pub smallint : Bool
smallint = false

-- `int64(x)` of an x of `w` bits: the sign is carried on.
unfoldable pub sign_extend : ℕ → ℕ → ℕ
sign_extend w x = if ltb x (2 ^ (w - 1)) then x else x + 2 ^ 64 - 2 ^ w

-- `i > max || i < -max-1` for an int64 `i`, with `max` below 2 ^ 63.
unfoldable pub exceeds : ℕ → ℕ → Bool
exceeds i max = (ltb i (2 ^ 63) && ltb max i) || (leb (2 ^ 63) i && ltb i (2 ^ 64 - 1 - max))

unfoldable pub int64_body : Bytes → Read ℕ
unfolding sign_extend
int64_body [] = fail 0 [] err_short_bytes
int64_body (lead ∷ t) =
    let b = lead ∷ t in
    if isfixint lead
    then ok (rfixint lead) t
    else if isnfixint lead
    then ok (sign_extend 8 (rnfixint lead)) t
    else if lead == mint8
    then need b 2 0 (take_value (get_mint8 b >>= λ i. some (sign_extend 8 i)) b 2)
    else if lead == mint16
    then need b 3 0 (take_value (get_mint16 b >>= λ i. some (sign_extend 16 i)) b 3)
    else if lead == mint32
    then need b 5 0 (take_value (get_mint32 b >>= λ i. some (sign_extend 32 i)) b 5)
    else if lead == mint64
    then need b 9 0 (take_value (get_mint64 b) b 9)
    else fail 0 [] (bad_prefix int64_type lead)

unfoldable pub read_int64_bytes : Option NilBitsStack → Bytes → Read ℕ
read_int64_bytes nbs b = nil_guard nbs b 0 (int64_body b)

-- `i, o, err := ReadInt64Bytes(b)`, the overflow test, and the conversion.
unfoldable pub narrow_int : ℕ → Read ℕ → Read ℕ
unfolding exceeds
narrow_int w r = r >>= λ (i, o, err).
    if exceeds i (2 ^ (w - 1) - 1) then fail 0 o (int_overflow i w) else some (i % 2 ^ w, o, err)

unfoldable pub read_int32_bytes : Option NilBitsStack → Bytes → Read ℕ
read_int32_bytes nbs b = nil_guard nbs b 0 (narrow_int 32 (read_int64_bytes nbs b))

unfoldable pub read_int16_bytes : Option NilBitsStack → Bytes → Read ℕ
read_int16_bytes nbs b = nil_guard nbs b 0 (narrow_int 16 (read_int64_bytes nbs b))

unfoldable pub read_int8_bytes : Option NilBitsStack → Bytes → Read ℕ
read_int8_bytes nbs b = nil_guard nbs b 0 (narrow_int 8 (read_int64_bytes nbs b))

unfoldable pub read_int_bytes : Option NilBitsStack → Bytes → Read ℕ
read_int_bytes nbs b = nil_guard nbs b 0 (
    if smallint
    then (read_int32_bytes nbs b >>= λ (i, o, err). some (sign_extend 32 i, o, err))
    else read_int64_bytes nbs b)
