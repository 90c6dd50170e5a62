-- ===== src/Msgp/Tests.antt =====
-- Runs at concrete inputs, and the theorems about msgp at concrete inputs.
use truepack.Prelude.{◌≡◌, refl, true, false, none, some, List, [], ◌∷◌, ◌++◌, arith, set_elem}
use truepack.Msgp.Append.{
  append_int64, append_int, append_int8, append_int16, append_int32, append_uint64, append_uint,
  append_uint8, append_byte, append_uint16, append_uint32, append_string, append_string_from_bytes,
}
use truepack.Msgp.Append.Format.{bin_header, complex64_bytes, complex128_bytes}
use truepack.Msgp.Errors.Overflow.{NarrowsInt, read_narrow_int}
use truepack.Msgp.Errors.Truncated.{read_exact_bytes_truncated, read_map_key_zc_bin}
use truepack.Msgp.Integers.{be64, put_all, join16, be_uint16, get_mint16, put_mint16}
use truepack.Msgp.Nilbits.{
  NilBitsStack, zero_stack, init, only_nil_slice, push_always_nil, pop_always_nil, is_always_nil,
}
use truepack.Msgp.Nilbits.Laws.{IsStack, SameElsewhere, zero_stack-IsStack, pop-push_always_nil}
use truepack.Msgp.Read.{
  int64_body, read_int64_bytes, narrow_int, read_int32_bytes, read_int16_bytes, read_int8_bytes,
  read_int_bytes, ok, fail, nil_guard, need, take_value, read_bytes_bytes, read_bytes_zc,
  read_exact_bytes, read_string_zc, read_string_bytes, read_string_as_bytes, read_map_key_zc,
  read_map_header_bytes, read_uint64_bytes, read_uint32_bytes, read_uint16_bytes, read_uint8_bytes,
  read_uint_bytes, read_byte_bytes,
}
use truepack.Msgp.RoundTrip.Blobs.{string_RoundTrips}
use truepack.Msgp.RoundTrip.Numbers.{uint_RoundTrips, int_RoundTrips}
use truepack.Msgp.RoundTrip.Rules.{RoundTrips}
use truepack.Msgp.Safety.Blobs.{read_blob-Safe}
use truepack.Msgp.Safety.Numbers.{read_number-Safe}
use truepack.Msgp.Safety.Rules.{Safe}
use truepack.Msgp.Skip.{next_type, size_by_mode, get_size, skip, skip_bytes}
use truepack.Msgp.Skip.Flat.{next_type_complex}
use truepack.Msgp.Skip.Frames.{Frames, integer_Frames}
use truepack.Msgp.Skip.Total.{SkipOk, skip_bytes_total}
use truepack.Msgp.Slice.{Slice, ensure, store, append_with}
use truepack.Msgp.Wire.{
  mbin8, mint64, sizes, Bytes, isfixint, isnfixint, rfixmap, rfixstr, rfixarray, int8_type,
  extension_type, complex64_type, complex128_type, err_short_bytes, int_overflow,
}

abbrev ten : Slice
ten = record { visible = 10 ∷ []; spare = 0 ∷ 0 ∷ 0 ∷ [] }

abbrev hi : Bytes
hi = 104 ∷ 105 ∷ []

-- A nil receiver simulates no nils.
no_stack : is_always_nil none ≡ false
unfolding is_always_nil
no_stack = refl

-- -2 as an int16 is three bytes, and fits the spare room.
run_append_int16 :
    append_int16 ten 0xfffe ≡ some (record { visible = 10 ∷ 0xd1 ∷ 0xff ∷ 0xfe ∷ []; spare = [] })
unfolding append_int16 append_with ensure store put_mint16 put_all
run_append_int16 = refl

-- 300 does not fit an int8, and the rest is still there.
run_read_int8_overflow :
    read_int8_bytes none (0xd1 ∷ 1 ∷ 44 ∷ 7 ∷ []) ≡ fail 0 (7 ∷ []) (int_overflow 300 8)
unfolding read_int8_bytes read_int64_bytes nil_guard int64_body narrow_int need take_value
    get_mint16 be_uint16 join16 isfixint isnfixint
run_read_int8_overflow = refl

run_skip_map : skip_bytes (0x81 ∷ 0xa1 ∷ 97 ∷ 0x92 ∷ 1 ∷ 2 ∷ 9 ∷ []) ≡ some (9 ∷ [], none)
unfolding skip_bytes skip get_size size_by_mode sizes rfixmap rfixstr rfixarray
run_skip_map = refl

int_RoundTrips_example :
    RoundTrips ten hi (append_int8 ten 0xff) (read_int8_bytes none) 0xff
    × RoundTrips ten hi (append_int16 ten 0xfffe) (read_int16_bytes none) 0xfffe
    × RoundTrips ten hi (append_int32 ten 7) (read_int32_bytes none) 7
    × RoundTrips ten hi
        (append_int64 ten 0xffff_ffff_ffff_ffff)
        (read_int64_bytes none)
        0xffff_ffff_ffff_ffff
    × RoundTrips ten hi
        (append_int ten 0xffff_ffff_ffff_ffff)
        (read_int_bytes none)
        0xffff_ffff_ffff_ffff
int_RoundTrips_example =
    int_RoundTrips none ten hi no_stack 0xff 0xfffe 7 0xffff_ffff_ffff_ffff (omega arith)
      (omega arith) (omega arith) (omega arith)

uint_RoundTrips_example :
    RoundTrips ten hi (append_uint8 ten 5) (read_uint8_bytes none) 5
    × RoundTrips ten hi (append_uint16 ten 5) (read_uint16_bytes none) 5
    × RoundTrips ten hi (append_uint32 ten 5) (read_uint32_bytes none) 5
    × RoundTrips ten hi (append_uint64 ten 5) (read_uint64_bytes none) 5
    × RoundTrips ten hi (append_uint ten 5) (read_uint_bytes none) 5
    × RoundTrips ten hi (append_byte ten 5) (read_byte_bytes none) 5
uint_RoundTrips_example =
    uint_RoundTrips none ten hi no_stack 5 5 5 5 (omega arith) (omega arith) (omega arith)
      (omega arith)

string_RoundTrips_example :
    RoundTrips ten hi (append_string ten hi) (read_string_zc none) hi
    × RoundTrips ten hi (append_string ten hi) (read_string_bytes none) hi
    × RoundTrips ten hi (append_string ten hi) (λ t. read_string_as_bytes none t ten) hi
    × RoundTrips ten hi (append_string ten hi) (read_map_key_zc none) hi
    × RoundTrips ten hi (append_string_from_bytes ten hi) (read_string_bytes none) hi
string_RoundTrips_example = string_RoundTrips none ten hi no_stack hi ten (omega arith)

read_number-Safe_example : Safe hi (read_map_header_bytes none hi)
read_number-Safe_example = (read_number-Safe none hi).0

read_blob-Safe_example : Safe hi (read_bytes_bytes none hi ten)
read_blob-Safe_example = (read_blob-Safe none hi hi ten).0

skip_bytes_total_example : SkipOk hi (skip_bytes hi)
skip_bytes_total_example = skip_bytes_total hi

integer_Frames_example : Frames ten hi (append_int8 ten 255) int8_type
integer_Frames_example = (integer_Frames ten hi 255).0

read_narrow_int_example : NarrowsInt 8 300 hi (read_int8_bytes none (mint64 ∷ (be64 300 ++ hi)))
read_narrow_int_example = (read_narrow_int none hi no_stack 300 (omega arith)).0

pop-push_always_nil_example :
    (ys : List Bytes) × (set_elem zero_stack.lifo_bts 0 hi ≡ some ys)
    × (r' : NilBitsStack) × (push_always_nil zero_stack hi ≡ some (only_nil_slice, r'))
    × (r' ≡ record zero_stack { always_nil = true; lifo_always_nil = 1; lifo_bts = ys })
    × IsStack r'
    × (is_always_nil (some r') ≡ true)
    × (pop_always_nil r' ≡ some (hi, record zero_stack { lifo_bts = ys }))
    × IsStack (record zero_stack { lifo_bts = ys })
    × SameElsewhere 0 zero_stack.lifo_bts ys
unfolding init
pop-push_always_nil_example =
    pop-push_always_nil zero_stack hi (zero_stack-IsStack none) (omega arith)

read_exact_bytes_truncated_example :
    (read_exact_bytes none (mbin8 ∷ 3 ∷ hi) (1 ∷ 2 ∷ 3 ∷ []) ≡ ok (104 ∷ 105 ∷ 3 ∷ []) [])
    × (read_bytes_zc none (mbin8 ∷ 3 ∷ hi) ≡ fail [] [] err_short_bytes)
read_exact_bytes_truncated_example =
    read_exact_bytes_truncated none no_stack (1 ∷ 2 ∷ 3 ∷ []) hi (omega arith) (omega arith)

read_map_key_zc_bin_example :
    read_map_key_zc none (mbin8 ∷ 2 ∷ (hi ++ hi)) ≡ fail [] [] err_short_bytes
unfolding bin_header
read_map_key_zc_bin_example = read_map_key_zc_bin none no_stack hi hi

next_type_complex_example :
    (next_type (complex64_bytes 1 2) ≡ some extension_type)
    × (next_type (complex64_bytes 1 2 ++ (9 ∷ [])) ≡ some complex64_type)
    × (next_type (complex128_bytes 1 2) ≡ some extension_type)
    × (next_type (complex128_bytes 1 2 ++ (9 ∷ [])) ≡ some complex128_type)
    × (skip_bytes (complex64_bytes 1 2 ++ []) ≡ some ([], none))
    × (skip_bytes (complex128_bytes 1 2 ++ []) ≡ some ([], none))
next_type_complex_example = next_type_complex 1 2 9 []
