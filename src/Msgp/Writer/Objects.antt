-- ===== src/Msgp/Writer/Objects.antt =====
-- msgp/write.go: the methods of Writer that write one object. A value is what the functions of
-- msgp/write_bytes.go take: a bit pattern, the bytes of a string, the two parts of a complex number,
-- the instant of a time.
pub mod Api
pub mod Laws
pub mod Refine
use truepack.Prelude.{
  ℕ, ◌-◌, ◌^◌, Bool, none, some, List, [], ◌∷◌, ◌++◌, ltb, leb, if◌then◌else◌, ◌>>=◌, length, take,
  slice_from,
}
use truepack.Msgp.Append.{to16, to32}
use truepack.Msgp.Integers.{byte, be32, be64, put_all, put_unix}
use truepack.Msgp.Wire.{
  mnil, mfalse, mtrue, mbin8, mbin16, mbin32, mext8, mfloat32, mfloat64, muint8, muint16, muint32,
  muint64, mint8, mint16, mint32, mint64, mfixext8, mfixext16, mstr8, mstr16, mstr32, marray16,
  marray32, mmap16, mmap32, complex64_extension, complex128_extension, time_extension, Bytes,
  wfixint, wnfixint, wfixmap, wfixstr, wfixarray,
}
use truepack.Msgp.Writer.{
  IoWriter, Writer, Written, and_then, push, prefix8, prefix16, prefix32, prefix64, write,
  write_string_bytes, require_put,
}

module _ {W X : Type 0} (io : IoWriter W X) where
  unfoldable pub write_map_header : Writer W → ℕ → Written io
  write_map_header mw sz =
      if leb sz 15
      then push io mw (wfixmap (byte sz))
      else if leb sz 65535
      then prefix16 io mw mmap16 (to16 sz)
      else prefix32 io mw mmap32 sz

  unfoldable pub write_array_header : Writer W → ℕ → Written io
  write_array_header mw sz =
      if leb sz 15
      then push io mw (wfixarray (byte sz))
      else if leb sz 65535
      then prefix16 io mw marray16 (to16 sz)
      else prefix32 io mw marray32 sz

  unfoldable pub write_nil : Writer W → Written io
  write_nil mw = push io mw mnil

  unfoldable pub write_float64 : Writer W → ℕ → Written io
  write_float64 mw f = prefix64 io mw mfloat64 f

  unfoldable pub write_float32 : Writer W → ℕ → Written io
  write_float32 mw f = prefix32 io mw mfloat32 f

  unfoldable pub write_int64 : Writer W → ℕ → Written io
  write_int64 mw i = prefix64 io mw mint64 i

  -- From 2 ^ 7 on the pattern is negative, and from 2 ^ 8 - 32 on at least -32.
  unfoldable pub write_int8 : Writer W → ℕ → Written io
  write_int8 mw i =
      if ltb i (2 ^ 7)
      then push io mw (wfixint i)
      else if leb (2 ^ 8 - 32) i
      then push io mw (wnfixint i)
      else prefix8 io mw mint8 i

  unfoldable pub write_int16 : Writer W → ℕ → Written io
  write_int16 mw i = prefix16 io mw mint16 i

  unfoldable pub write_int32 : Writer W → ℕ → Written io
  write_int32 mw i = prefix32 io mw mint32 i

  unfoldable pub write_int : Writer W → ℕ → Written io
  unfolding write_int64
  write_int mw i = write_int64 mw i

  unfoldable pub write_uint64 : Writer W → ℕ → Written io
  write_uint64 mw u = prefix64 io mw muint64 u

  unfoldable pub write_uint8 : Writer W → ℕ → Written io
  write_uint8 mw u = if leb u (2 ^ 7 - 1) then push io mw (wfixint u) else prefix8 io mw muint8 u

  unfoldable pub write_byte : Writer W → ℕ → Written io
  unfolding write_uint8
  write_byte mw u = write_uint8 mw u

  unfoldable pub write_uint16 : Writer W → ℕ → Written io
  write_uint16 mw u = prefix16 io mw muint16 u

  unfoldable pub write_uint32 : Writer W → ℕ → Written io
  write_uint32 mw u = prefix32 io mw muint32 u

  unfoldable pub write_uint : Writer W → ℕ → Written io
  unfolding write_uint64
  write_uint mw u = write_uint64 mw u

  unfoldable pub write_bytes_header : Writer W → ℕ → Written io
  write_bytes_header mw sz =
      if leb sz 255
      then prefix8 io mw mbin8 (byte sz)
      else if leb sz 65535
      then prefix16 io mw mbin16 (to16 sz)
      else prefix32 io mw mbin32 sz

  -- WriteBytes chooses among the same prefixes as WriteBytesHeader.
  unfoldable pub write_bytes : Writer W → Bytes → Written io
  unfolding and_then write_bytes_header
  write_bytes mw b = and_then io (write_bytes_header mw (to32 (length b))) (λ m. write io m b)

  unfoldable pub write_bool : Writer W → Bool → Written io
  write_bool mw b = if b then push io mw mtrue else push io mw mfalse

  unfoldable pub write_string_header : Writer W → ℕ → Written io
  write_string_header mw sz =
      if leb sz 31
      then push io mw (wfixstr (byte sz))
      else if leb sz 255
      then prefix8 io mw mstr8 (byte sz)
      else if leb sz 65535
      then prefix16 io mw mstr16 (to16 sz)
      else prefix32 io mw mstr32 sz

  -- The prefixes of WriteString and WriteStringFromBytes are those of WriteStringHeader.
  unfoldable pub write_string : Writer W → Bytes → Written io
  unfolding and_then write_string_header
  write_string mw s =
      and_then io (write_string_header mw (to32 (length s))) (λ m. write_string_bytes io m s)

  unfoldable pub write_string_from_bytes : Writer W → Bytes → Written io
  unfolding and_then write_string_header
  write_string_from_bytes mw str =
      and_then io (write_string_header mw (to32 (length str))) (λ m. write io m str)

  unfoldable pub write_complex64 : Writer W → ℕ → ℕ → Written io
  write_complex64 mw re im =
      require_put io mw 10 (put_all (mfixext8 ∷ complex64_extension ∷ (be32 re ++ be32 im)))

  unfoldable pub write_complex128 : Writer W → ℕ → ℕ → Written io
  write_complex128 mw re im =
      require_put io mw 18 (put_all (mfixext16 ∷ complex128_extension ∷ (be64 re ++ be64 im)))

  unfoldable pub write_time : Writer W → ℕ → ℕ → Written io
  write_time mw sec nsec = require_put io mw 15 (λ t.
      put_all (mext8 ∷ 12 ∷ time_extension ∷ []) t >>= λ t'.
      slice_from t' 3 >>= λ tail. put_unix tail sec nsec >>= λ tail'. some (take 3 t' ++ tail'))

  -- The loop of WriteMapStrStr, over the pairs in the order that the runtime picks.
  unfoldable pub write_pairs : Writer W → List (Bytes × Bytes) → Written io
  unfolding and_then
  write_pairs mw [] = some (mw, none)
  write_pairs mw ((key, val) ∷ mp) =
      and_then io (write_string mw key)
        (λ m. and_then io (write_string m val) (λ m'. write_pairs m' mp))

  unfoldable pub write_map_str_str : Writer W → List (Bytes × Bytes) → Written io
  unfolding and_then write_pairs
  write_map_str_str mw mp =
      and_then io (write_map_header mw (to32 (length mp))) (λ m. write_pairs m mp)
