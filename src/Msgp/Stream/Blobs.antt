-- ===== src/Msgp/Stream/Blobs.antt =====
-- msgp/read.go: the Reader's methods for `bin` and `str` objects and for map keys. A string is its
-- bytes, and nil the empty slice. The value beside an error is what the code returns there.
use truepack.Prelude.{
  ℕ, ◌%◌, ◌^◌, not, ◌||◌, Option, none, some, [], ◌++◌, ltb, ◌==◌, if◌then◌else◌, ◌>>=◌, length,
  take, replicate, get_elem?, slice_from,
}
use truepack.Msgp.Integers.{be_uint16, be_uint32}
use truepack.Msgp.Read.{encoded_bin}
use truepack.Msgp.Skip.{skip}
use truepack.Msgp.Slice.{Slice, cap, fill}
use truepack.Msgp.Stream.{
  FwdReader, Reader, StreamError, io_error, msgp_error, at, Step, refuse, peek, next, next_value,
  skip_over, guard, by_lead,
}
use truepack.Msgp.Wire.{
  mbin8, mbin16, mbin32, mstr8, mstr16, mstr32, bad_prefix, Bytes, isfixstr, rfixstr, str_type,
  bin_type, err_short_bytes, array_error,
}

module _ {S E : Type 0} (f : FwdReader S E) where
  unfoldable pub filled : Reader S → Bytes × Option E × S → Step S E Bytes
  filled m (p, none, s) = some (p, none, at m s)
  filled m (p, some e, s) = some (p, some (io_error e), at m s)

  -- `_, err = m.R.ReadFull(p)`, for what `p` then holds and the error.
  unfoldable pub read_full : Reader S → Bytes → Step S E Bytes
  unfolding filled
  read_full m p = filled m (f.read_full_bytes m.r p)

  -- `b = make([]byte, read)` or `b = scratch[0:read]`, and ReadFull.
  unfoldable pub read_into : Slice → Reader S → ℕ → Step S E Bytes
  unfolding read_full
  read_into scratch m read = read_full m (
      if ltb (cap scratch) read
      then replicate read 0
      else take read (scratch.visible ++ scratch.spare))

  -- A prefix of `n` bytes that holds the size.
  unfoldable pub next_sized :
      Reader S → ℕ → (Bytes → Option ℕ) → (Reader S → ℕ → Step S E Bytes) → Step S E Bytes
  unfolding next
  next_sized m n size k = next f m n [] (λ p m'. size p >>= λ read. k m' read)

  unfoldable pub bytes_peeked : Slice → Bytes → Reader S → Step S E Bytes
  unfolding read_into next_sized skip_over
  bytes_peeked scratch p m = get_elem? p 0 >>= λ lead.
      if lead == mbin8
      then (get_elem? p 1 >>= λ read. read_into scratch (skip_over f m 2) read)
      else if lead == mbin16
      then next_sized m 3 (λ p'. slice_from p' 1 >>= λ t. be_uint16 t) (read_into scratch)
      else if lead == mbin32
      then next_sized m 5 (λ p'. slice_from p' 1 >>= λ t. be_uint32 t) (read_into scratch)
      else refuse m [] (bad_prefix bin_type lead)

  unfoldable pub read_bytes : Reader S → Slice → Step S E Bytes
  unfolding guard peek bytes_peeked
  read_bytes m scratch = guard f m [] (λ m'. peek f m' 2 [] (bytes_peeked scratch))

  unfoldable pub bytes_header_by_lead : ℕ → Reader S → Step S E ℕ
  unfolding next_value
  bytes_header_by_lead lead m =
      if lead == mbin8
      then next_value f m 2 0 (λ p. get_elem? p 1)
      else if lead == mbin16
      then next_value f m 3 0 (λ p. slice_from p 1 >>= λ t. be_uint16 t)
      else if lead == mbin32
      then next_value f m 5 0 (λ p. slice_from p 1 >>= λ t. be_uint32 t)
      else refuse m 0 (bad_prefix bin_type lead)

  unfoldable pub read_bytes_header : Reader S → Step S E ℕ
  unfolding by_lead bytes_header_by_lead
  read_bytes_header m = by_lead f m 0 bytes_header_by_lead

  -- The comparison of the sizes, and what follows. The value is what `into` holds.
  unfoldable pub exact_sized : Reader S → Bytes → ℕ → ℕ → Step S E Bytes
  unfolding read_full skip_over
  exact_sized m into skip read =
      if not (read == length into)
      then refuse m into (array_error (length into % 2 ^ 32) (read % 2 ^ 32))
      else read_full (skip_over f m skip) into

  unfoldable pub exact_peeked : Bytes → Bytes → Reader S → Step S E Bytes
  unfolding exact_sized peek
  exact_peeked into p m = get_elem? p 0 >>= λ lead.
      if lead == mbin8
      then (get_elem? p 1 >>= λ read. exact_sized m into 2 read)
      else if lead == mbin16
      then peek f m 3 into
          (λ p' m'. slice_from p' 1 >>= λ t. be_uint16 t >>= λ read. exact_sized m' into 3 read)
      else if lead == mbin32
      then peek f m 5 into
          (λ p' m'. slice_from p' 1 >>= λ t. be_uint32 t >>= λ read. exact_sized m' into 5 read)
      else refuse m into (bad_prefix bin_type lead)

  unfoldable pub read_exact : Reader S → Bytes → Step S E Bytes
  unfolding guard peek exact_peeked
  read_exact m into =
      guard f m (replicate (length into) 0) (λ m'. peek f m' 2 into (exact_peeked into))

  -- The `str` prefixes, before the size is used.
  unfoldable pub str_by_lead : (Reader S → ℕ → Step S E Bytes) → ℕ → Reader S → Step S E Bytes
  unfolding next_sized skip_over
  str_by_lead fill lead m =
      if isfixstr lead
      then fill (skip_over f m 1) (rfixstr lead)
      else if lead == mstr8
      then next_sized m 2 (λ p. get_elem? p 1) fill
      else if lead == mstr16
      then next_sized m 3 (λ p. slice_from p 1 >>= λ t. be_uint16 t) fill
      else if lead == mstr32
      then next_sized m 5 (λ p. slice_from p 1 >>= λ t. be_uint32 t) fill
      else refuse m [] (bad_prefix str_type lead)

  unfoldable pub stream_string_as_bytes : Reader S → Slice → Step S E Bytes
  unfolding by_lead str_by_lead read_into
  stream_string_as_bytes m scratch = by_lead f m [] (str_by_lead (read_into scratch))

  -- ReadString, from its label fill on.
  unfoldable pub string_fill : Reader S → ℕ → Step S E Bytes
  unfolding read_full
  string_fill m read =
      if read == 0
      then some ([], none, m)
      else (read_full m (replicate read 0) >>= λ (out, err, m'). elim err [
        | none ↦ some (out, none, m')
        | some e ↦ some ([], some e, m')
      ])

  unfoldable pub read_string : Reader S → Step S E Bytes
  unfolding by_lead str_by_lead string_fill
  read_string m = by_lead f m [] (str_by_lead string_fill)

  unfoldable pub string_header_by_lead : ℕ → Reader S → Step S E ℕ
  unfolding next_value skip_over
  string_header_by_lead lead m =
      if isfixstr lead
      then some (rfixstr lead, none, skip_over f m 1)
      else if lead == mstr8
      then next_value f m 2 0 (λ p. get_elem? p 1)
      else if lead == mstr16
      then next_value f m 3 0 (λ p. slice_from p 1 >>= λ t. be_uint16 t)
      else if lead == mstr32
      then next_value f m 5 0 (λ p. slice_from p 1 >>= λ t. be_uint32 t)
      else refuse m 0 (bad_prefix str_type lead)

  unfoldable pub read_string_header : Reader S → Step S E ℕ
  unfolding by_lead string_header_by_lead
  read_string_header m = by_lead f m 0 string_header_by_lead

  unfoldable pub map_key_read : Slice → Bytes × Option (StreamError E) × Reader S → Step S E Bytes
  unfolding read_bytes encoded_bin
  map_key_read scratch (out, none, m) = some (out, none, m)
  map_key_read scratch (out, some (io_error e), m) = some ([], some (io_error e), m)
  map_key_read scratch (out, some (msgp_error e), m) =
      if encoded_bin e then read_bytes m scratch else refuse m [] e

  unfoldable pub read_map_key : Reader S → Slice → Step S E Bytes
  unfolding guard stream_string_as_bytes map_key_read
  read_map_key m scratch =
      guard f m [] (λ m'. stream_string_as_bytes m' scratch >>= λ t. map_key_read scratch t)

  -- ReadMapKeyPtr, from its label fill on.
  unfoldable pub key_ptr_fill : Reader S → ℕ → Step S E Bytes
  key_ptr_fill m read =
      if read == 0 then refuse m [] err_short_bytes else filled m (f.next_bytes m.r read)

  unfoldable pub key_ptr_by_lead : ℕ → Reader S → Step S E Bytes
  unfolding key_ptr_fill next_sized skip_over
  key_ptr_by_lead lead m =
      if isfixstr lead
      then key_ptr_fill (skip_over f m 1) (rfixstr lead)
      else if lead == mstr8 || lead == mbin8
      then next_sized m 2 (λ p. get_elem? p 1) key_ptr_fill
      else if lead == mstr16 || lead == mbin16
      then next_sized m 3 (λ p. slice_from p 1 >>= λ t. be_uint16 t) key_ptr_fill
      else if lead == mstr32 || lead == mbin32
      then next_sized m 5 (λ p. slice_from p 1 >>= λ t. be_uint32 t) key_ptr_fill
      else refuse m [] (bad_prefix str_type lead)

  unfoldable pub read_map_key_ptr : Reader S → Step S E Bytes
  unfolding by_lead key_ptr_by_lead
  read_map_key_ptr m = by_lead f m [] key_ptr_by_lead
