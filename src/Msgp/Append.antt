-- ===== src/Msgp/Append.antt =====
-- msgp/write_bytes.go: the functions that append one object to a byte slice. Signed integers are
-- their bit patterns, a float is its IEEE 754 bits (math.Float64bits and the like are the identity
-- here), a complex number is the pair of its parts, and a time is its instant, the pair of Unix
-- seconds and nanoseconds, so that `t.UTC()` keeps it. `none` is a panic.
pub mod Format
pub mod Laws
use truepack.Prelude.{
  ℕ, ◌-◌, ◌%◌, ◌^◌, Bool, true, Option, some, [], ◌∷◌, ◌++◌, ltb, leb, if◌then◌else◌, ◌>>=◌, length,
  take, slice_from,
}
use truepack.Msgp.Integers.{
  byte, be32, be64, put_all, put_mint64, put_mint32, put_mint16, put_mint8, put_muint64,
  put_muint32, put_muint16, put_muint8, put_unix, prefixu8, prefixu16, prefixu32, prefixu64,
}
use truepack.Msgp.Slice.{Slice, go_append, append_with, append_prefixed}
use truepack.Msgp.Wire.{
  mnil, mfalse, mtrue, mbin8, mbin16, mbin32, mext8, mfloat32, mfloat64, mfixext8, mfixext16, mstr8,
  mstr16, mstr32, marray16, marray32, mmap16, mmap32, complex64_extension, complex128_extension,
  time_extension, Bytes, wfixint, wnfixint, wfixmap, wfixstr, wfixarray,
}

-- The constant trueIntType of the file.
abbrev pub true_int_type : Bool
true_int_type = true

abbrev max_uint8 : ℕ
max_uint8 = 2 ^ 8 - 1

abbrev max_uint16 : ℕ
max_uint16 = 2 ^ 16 - 1

abbrev max_uint32 : ℕ
max_uint32 = 2 ^ 32 - 1

-- `uint16(x)` and `uint32(x)`, or the signed conversions to these widths.
abbrev pub to16 : ℕ → ℕ
to16 x = x % 2 ^ 16

abbrev pub to32 : ℕ → ℕ
to32 x = x % 2 ^ 32

unfoldable pub append_map_header : Slice → ℕ → Option Slice
append_map_header b sz =
    if leb sz 15
    then some (go_append b (wfixmap (byte sz) ∷ []))
    else if leb sz max_uint16
    then append_with b 3 (λ t. prefixu16 t mmap16 (to16 sz))
    else append_with b 5 (λ t. prefixu32 t mmap32 sz)

unfoldable pub append_array_header : Slice → ℕ → Option Slice
append_array_header b sz =
    if leb sz 15
    then some (go_append b (wfixarray (byte sz) ∷ []))
    else if leb sz max_uint16
    then append_with b 3 (λ t. prefixu16 t marray16 (to16 sz))
    else append_with b 5 (λ t. prefixu32 t marray32 sz)

unfoldable pub append_nil : Slice → Option Slice
append_nil b = some (go_append b (mnil ∷ []))

unfoldable pub append_float64 : Slice → ℕ → Option Slice
append_float64 b f = append_with b 9 (λ t. prefixu64 t mfloat64 f)

unfoldable pub append_float32 : Slice → ℕ → Option Slice
append_float32 b f = append_with b 5 (λ t. prefixu32 t mfloat32 f)

-- The branch that trueIntType turns off: the smallest form that holds the value. A pattern from
-- 2 ^ 63 on is negative.
unfoldable pub append_int64_compact : Slice → ℕ → Option Slice
append_int64_compact b i =
    if ltb i (2 ^ 63)
    then (if leb i (2 ^ 7 - 1)
        then some (go_append b (wfixint (byte i) ∷ []))
        else if leb i (2 ^ 15 - 1)
        then append_with b 3 (λ t. put_mint16 t (to16 i))
        else if leb i (2 ^ 31 - 1)
        then append_with b 5 (λ t. put_mint32 t (to32 i))
        else append_with b 9 (λ t. put_mint64 t i))
    else if leb (2 ^ 64 - 32) i
    then some (go_append b (wnfixint (byte i) ∷ []))
    else if leb (2 ^ 64 - 2 ^ 7) i
    then append_with b 2 (λ t. put_mint8 t (byte i))
    else if leb (2 ^ 64 - 2 ^ 15) i
    then append_with b 3 (λ t. put_mint16 t (to16 i))
    else if leb (2 ^ 64 - 2 ^ 31) i
    then append_with b 5 (λ t. put_mint32 t (to32 i))
    else append_with b 9 (λ t. put_mint64 t i)

unfoldable pub append_int64 : Slice → ℕ → Option Slice
append_int64 b i =
    if true_int_type then append_with b 9 (λ t. put_mint64 t i) else append_int64_compact b i

unfoldable pub append_int : Slice → ℕ → Option Slice
unfolding append_int64
append_int b i = append_int64 b i

unfoldable pub append_int8 : Slice → ℕ → Option Slice
append_int8 b i = append_with b 2 (λ t. put_mint8 t i)

unfoldable pub append_int16 : Slice → ℕ → Option Slice
append_int16 b i = append_with b 3 (λ t. put_mint16 t i)

unfoldable pub append_int32 : Slice → ℕ → Option Slice
append_int32 b i = append_with b 5 (λ t. put_mint32 t i)

unfoldable pub append_uint64_compact : Slice → ℕ → Option Slice
append_uint64_compact b u =
    if leb u (2 ^ 7 - 1)
    then some (go_append b (wfixint (byte u) ∷ []))
    else if leb u max_uint8
    then append_with b 2 (λ t. put_muint8 t (byte u))
    else if leb u max_uint16
    then append_with b 3 (λ t. put_muint16 t (to16 u))
    else if leb u max_uint32
    then append_with b 5 (λ t. put_muint32 t (to32 u))
    else append_with b 9 (λ t. put_muint64 t u)

unfoldable pub append_uint64 : Slice → ℕ → Option Slice
append_uint64 b u =
    if true_int_type then append_with b 9 (λ t. put_muint64 t u) else append_uint64_compact b u

unfoldable pub append_uint : Slice → ℕ → Option Slice
unfolding append_uint64
append_uint b u = append_uint64 b u

unfoldable pub append_uint8 : Slice → ℕ → Option Slice
append_uint8 b u = append_with b 2 (λ t. put_muint8 t u)

unfoldable pub append_byte : Slice → ℕ → Option Slice
unfolding append_uint8
append_byte b u = append_uint8 b u

unfoldable pub append_uint16 : Slice → ℕ → Option Slice
append_uint16 b u = append_with b 3 (λ t. put_muint16 t u)

unfoldable pub append_uint32 : Slice → ℕ → Option Slice
append_uint32 b u = append_with b 5 (λ t. put_muint32 t u)

unfoldable pub append_bytes : Slice → Bytes → Option Slice
append_bytes b bts =
    let sz = length bts in
    if leb sz max_uint8
    then append_prefixed b 2 (λ t. prefixu8 t mbin8 (byte sz)) bts
    else if leb sz max_uint16
    then append_prefixed b 3 (λ t. prefixu16 t mbin16 (to16 sz)) bts
    else append_prefixed b 5 (λ t. prefixu32 t mbin32 (to32 sz)) bts

unfoldable pub append_bool : Slice → Bool → Option Slice
append_bool b t = if t then some (go_append b (mtrue ∷ [])) else some (go_append b (mfalse ∷ []))

-- A string is the list of its bytes.
unfoldable pub append_string : Slice → Bytes → Option Slice
append_string b s =
    let sz = length s in
    if leb sz 31
    then append_prefixed b 1 (λ t. put_all (wfixstr (byte sz) ∷ []) t) s
    else if leb sz max_uint8
    then append_prefixed b 2 (λ t. prefixu8 t mstr8 (byte sz)) s
    else if leb sz max_uint16
    then append_prefixed b 3 (λ t. prefixu16 t mstr16 (to16 sz)) s
    else append_prefixed b 5 (λ t. prefixu32 t mstr32 (to32 sz)) s

unfoldable pub append_string_from_bytes : Slice → Bytes → Option Slice
append_string_from_bytes b str =
    let sz = length str in
    if leb sz 31
    then append_prefixed b 1 (λ t. put_all (wfixstr (byte sz) ∷ []) t) str
    else if leb sz max_uint8
    then append_prefixed b 2 (λ t. prefixu8 t mstr8 (byte sz)) str
    else if leb sz max_uint16
    then append_prefixed b 3 (λ t. prefixu16 t mstr16 (to16 sz)) str
    else append_prefixed b 5 (λ t. prefixu32 t mstr32 (to32 sz)) str

-- The stores `o[n]`, `o[n+1]` and the two calls of BigEndian.PutUint32 fill the room in order.
unfoldable pub append_complex64 : Slice → ℕ → ℕ → Option Slice
append_complex64 b re im =
    append_with b 10 (put_all (mfixext8 ∷ complex64_extension ∷ (be32 re ++ be32 im)))

unfoldable pub append_complex128 : Slice → ℕ → ℕ → Option Slice
append_complex128 b re im =
    append_with b 18 (put_all (mfixext16 ∷ complex128_extension ∷ (be64 re ++ be64 im)))

unfoldable pub append_time : Slice → ℕ → ℕ → Option Slice
append_time b sec nsec = append_with b 15 (λ t.
    put_all (mext8 ∷ 12 ∷ time_extension ∷ []) t >>= λ t'.
    slice_from t' 3 >>= λ tail. put_unix tail sec nsec >>= λ tail'. some (take 3 t' ++ tail'))

-- The int64 -1, then the string.
unfoldable pub append_negative_one_and_string_as_bytes : Slice → Bytes → Option Slice
unfolding append_int64 append_string_from_bytes
append_negative_one_and_string_as_bytes b str =
    append_int64 b (2 ^ 64 - 1) >>= λ o. append_string_from_bytes o str
