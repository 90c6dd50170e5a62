-- ===== src/Msgp/Read/Headers.antt =====
-- msgp/read_bytes.go: IsNil, ReadNilBytes, the headers of maps and arrays, and ReadBoolBytes.
use truepack.Prelude.{ℕ, Bool, true, false, Option, none, some, [], ◌∷◌, ◌==◌, if◌then◌else◌}
use truepack.Msgp.Integers.{be_uint16, be_uint32}
use truepack.Msgp.Nilbits.{NilBitsStack, leads_nil, is_always_nil}
use truepack.Msgp.Read.Guard.{Read, ok, fail, nil_guard, need, take_value}
use truepack.Msgp.Wire.{
  mnil, mfalse, mtrue, marray16, marray32, mmap16, mmap32, bad_prefix, Bytes, isfixmap, isfixarray,
  rfixmap, rfixarray, map_type, array_type, bool_type, nil_type, Error, err_short_bytes,
}

unfoldable pub is_nil : Bytes → Bool
unfolding leads_nil
is_nil b = leads_nil b

-- From the test `l < 1` on.
unfoldable pub map_header_body : Bytes → Read ℕ
map_header_body [] = fail 0 [] err_short_bytes
map_header_body (lead ∷ t) =
    let b = lead ∷ t in
    if isfixmap lead
    then ok (rfixmap lead) t
    else if lead == mmap16
    then need b 3 0 (take_value (be_uint16 t) b 3)
    else if lead == mmap32
    then need b 5 0 (take_value (be_uint32 t) b 5)
    else fail 0 [] (bad_prefix map_type lead)

unfoldable pub read_map_header_bytes : Option NilBitsStack → Bytes → Read ℕ
read_map_header_bytes nbs b = nil_guard nbs b 0 (map_header_body b)

unfoldable pub array_header_body : Bytes → Read ℕ
array_header_body [] = fail 0 [] err_short_bytes
array_header_body (lead ∷ t) =
    let b = lead ∷ t in
    if isfixarray lead
    then ok (rfixarray lead) t
    else if lead == marray16
    then need b 3 0 (take_value (be_uint16 t) b 3)
    else if lead == marray32
    then need b 5 0 (take_value (be_uint32 t) b 5)
    else fail 0 [] (bad_prefix array_type lead)

unfoldable pub read_array_header_bytes : Option NilBitsStack → Bytes → Read ℕ
read_array_header_bytes nbs b = nil_guard nbs b 0 (array_header_body b)

-- The result has no value: (rest, err).
unfoldable pub read_nil_bytes : Option NilBitsStack → Bytes → Bytes × Option Error
unfolding is_always_nil
read_nil_bytes nbs [] = if is_always_nil nbs then ([], none) else ([], some err_short_bytes)
read_nil_bytes nbs (x ∷ b) =
    if is_always_nil nbs
    then (x ∷ b, none)
    else if x == mnil
    then (b, none)
    else (x ∷ b, some (bad_prefix nil_type x))

unfoldable pub bool_body : Bytes → Read Bool
bool_body [] = fail false [] err_short_bytes
bool_body (lead ∷ t) =
    if lead == mtrue
    then ok true t
    else if lead == mfalse
    then ok false t
    else fail false (lead ∷ t) (bad_prefix bool_type lead)

unfoldable pub read_bool_bytes : Option NilBitsStack → Bytes → Read Bool
read_bool_bytes nbs b = nil_guard nbs b false (bool_body b)
