-- ===== src/Msgp/Read/Exts.antt =====
-- msgp/read_bytes.go: the readers of the package's own extensions, complex numbers and times.
use truepack.Prelude.{
  ℕ, ◌+◌, ◌-◌, ◌/◌, ◌%◌, ◌^◌, ◌&&◌, Option, [], ltb, ◌==◌, if◌then◌else◌, ◌>>=◌, get_elem?,
  slice_from,
}
use truepack.Msgp.Integers.{be_uint32, be_uint64, get_unix}
use truepack.Msgp.Nilbits.{NilBitsStack}
use truepack.Msgp.Read.Guard.{Read, ok, fail, nil_guard, need}
use truepack.Msgp.Wire.{
  mext8, mfixext8, mfixext16, complex64_extension, complex128_extension, time_extension, bad_prefix,
  Bytes, complex64_type, complex128_type, time_type, err_ext,
}

unfoldable pub complex128_body : Bytes → Read (ℕ × ℕ)
complex128_body b =
    need b 18 (0, 0)
      (get_elem? b 0 >>= λ lead. get_elem? b 1 >>= λ typ.
        if lead == mfixext16
        then (if typ == complex128_extension
            then (slice_from b 2 >>= λ b2. be_uint64 b2 >>= λ re. slice_from b 10 >>= λ b10.
                be_uint64 b10 >>= λ im. slice_from b 18 >>= λ o. ok (re, im) o)
            else fail (0, 0) [] (err_ext typ complex128_extension))
        else fail (0, 0) [] (bad_prefix complex128_type lead))

unfoldable pub read_complex128_bytes : Option NilBitsStack → Bytes → Read (ℕ × ℕ)
read_complex128_bytes nbs b = nil_guard nbs b (0, 0) (complex128_body b)

unfoldable pub complex64_body : Bytes → Read (ℕ × ℕ)
complex64_body b =
    need b 10 (0, 0)
      (get_elem? b 0 >>= λ lead. get_elem? b 1 >>= λ typ.
        if lead == mfixext8
        then (if typ == complex64_extension
            then (slice_from b 2 >>= λ b2. be_uint32 b2 >>= λ re. slice_from b 6 >>= λ b6.
                be_uint32 b6 >>= λ im. slice_from b 10 >>= λ o. ok (re, im) o)
            else fail (0, 0) [] (err_ext typ complex64_extension))
        else fail (0, 0) [] (bad_prefix complex64_type lead))

unfoldable pub read_complex64_bytes : Option NilBitsStack → Bytes → Read (ℕ × ℕ)
read_complex64_bytes nbs b = nil_guard nbs b (0, 0) (complex64_body b)

-- `time.Unix(sec, int64(nsec))`, with `nsec` an int32 as its bit pattern: whole seconds are carried
-- from nanoseconds outside 0 to 999999999 into the seconds, which wrap as an int64. A negative
-- nanosecond count is above -3 seconds.
unfoldable pub time_unix : ℕ → ℕ → ℕ × ℕ
time_unix sec nsec =
    if ltb nsec (2 ^ 31)
    then ((sec + nsec / 1000000000) % 2 ^ 64, nsec % 1000000000)
    else (let n = nsec + 3000000000 - 2 ^ 32 in
        ((sec + n / 1000000000 + 2 ^ 64 - 3) % 2 ^ 64, n % 1000000000))

-- The zero time.Time is January 1 of the year 1.
abbrev pub zero_time : ℕ × ℕ
zero_time = (2 ^ 64 - 62135596800, 0)

unfoldable pub time_body : Bytes → Read (ℕ × ℕ)
unfolding time_unix
time_body b = need b 15 zero_time (
    get_elem? b 0 >>= λ lead. get_elem? b 1 >>= λ size. get_elem? b 2 >>= λ typ.
    if lead == mext8 && size == 12
    then (if typ == time_extension
        then (slice_from b 3 >>= λ b3.
            get_unix b3 >>= λ (sec, nsec). slice_from b 15 >>= λ o. ok (time_unix sec nsec) o)
        else fail zero_time [] (err_ext typ time_extension))
    else fail zero_time [] (bad_prefix time_type lead))

unfoldable pub read_time_bytes : Option NilBitsStack → Bytes → Read (ℕ × ℕ)
read_time_bytes nbs b = nil_guard nbs b zero_time (time_body b)
