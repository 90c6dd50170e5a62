-- ===== src/Msgp/Stream/Exts.antt =====
-- msgp/read.go: the Reader's methods for complex numbers and times.
use truepack.Prelude.{ℕ, not, ◌||◌, ◌==◌, if◌then◌else◌, ◌>>=◌, get_elem?, slice_from}
use truepack.Msgp.Integers.{be_uint32, be_uint64, get_unix}
use truepack.Msgp.Read.{time_unix, zero_time}
use truepack.Msgp.Stream.{FwdReader, Reader, Step, refuse, peek, skip_return, guard}
use truepack.Msgp.Wire.{
  mext8, mfixext8, mfixext16, complex64_extension, complex128_extension, time_extension, bad_prefix,
  Bytes, complex64_type, complex128_type, time_type, err_ext,
}

module _ {S E : Type 0} (f : FwdReader S E) where
  unfoldable pub complex64_peeked : Bytes → Reader S → Step S E (ℕ × ℕ)
  unfolding skip_return
  complex64_peeked p m = get_elem? p 0 >>= λ lead. get_elem? p 1 >>= λ typ.
      if not (lead == mfixext8)
      then refuse m (0, 0) (bad_prefix complex64_type lead)
      else if not (typ == complex64_extension)
      then refuse m (0, 0) (err_ext typ complex64_extension)
      else (slice_from p 2 >>= λ p2. be_uint32 p2 >>= λ re.
          slice_from p 6 >>= λ p6. be_uint32 p6 >>= λ im. skip_return f m 10 (re, im))

  unfoldable pub read_complex64 : Reader S → Step S E (ℕ × ℕ)
  unfolding guard peek complex64_peeked
  read_complex64 m = guard f m (0, 0) (λ m'. peek f m' 10 (0, 0) complex64_peeked)

  unfoldable pub complex128_peeked : Bytes → Reader S → Step S E (ℕ × ℕ)
  unfolding skip_return
  complex128_peeked p m = get_elem? p 0 >>= λ lead. get_elem? p 1 >>= λ typ.
      if not (lead == mfixext16)
      then refuse m (0, 0) (bad_prefix complex128_type lead)
      else if not (typ == complex128_extension)
      then refuse m (0, 0) (err_ext typ complex128_extension)
      else (slice_from p 2 >>= λ p2. be_uint64 p2 >>= λ re.
          slice_from p 10 >>= λ p10. be_uint64 p10 >>= λ im. skip_return f m 18 (re, im))

  unfoldable pub read_complex128 : Reader S → Step S E (ℕ × ℕ)
  unfolding guard peek complex128_peeked
  read_complex128 m = guard f m (0, 0) (λ m'. peek f m' 18 (0, 0) complex128_peeked)

  unfoldable pub time_peeked : Bytes → Reader S → Step S E (ℕ × ℕ)
  unfolding skip_return time_unix
  time_peeked p m = get_elem? p 0 >>= λ lead. get_elem? p 1 >>= λ size. get_elem? p 2 >>= λ typ.
      if not (lead == mext8) || not (size == 12)
      then refuse m zero_time (bad_prefix time_type lead)
      else if not (typ == time_extension)
      then refuse m zero_time (err_ext typ time_extension)
      else (slice_from p 3 >>= λ p3.
          get_unix p3 >>= λ (sec, nsec). skip_return f m 15 (time_unix sec nsec))

  unfoldable pub read_time : Reader S → Step S E (ℕ × ℕ)
  unfolding guard peek time_peeked
  read_time m = guard f m zero_time (λ m'. peek f m' 15 zero_time time_peeked)
