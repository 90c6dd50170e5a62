-- ===== src/Msgp/Stream/Numbers.antt =====
-- msgp/read.go: the Reader's methods for nil, the headers, Booleans, integers and floats. An intN is
-- its bit pattern below 2 ^ N, a float its IEEE 754 bits.
use truepack.Prelude.{
  ℕ, ◌-◌, ◌%◌, ◌^◌, Bool, true, false, not, ◌&&◌, Option, none, some, [], ◌∷◌, ltb, ◌==◌,
  if◌then◌else◌, ◌>>=◌, get_elem?, slice_from,
}
use truepack.Msgp.Integers.{
  be_uint16, be_uint32, get_mint64, get_mint32, get_mint16, get_mint8, get_muint64, get_muint32,
  get_muint16, get_muint8,
}
use truepack.Msgp.Read.{smallint, sign_extend, exceeds, float64_of_float32}
use truepack.Msgp.Stream.{
  FwdReader, Reader, io_error, at, Step, refuse, peek, next_value, skip_return, guard, by_lead,
}
use truepack.Msgp.Wire.{
  mnil, mfalse, mtrue, mfloat32, mfloat64, muint8, muint16, muint32, muint64, mint8, mint16, mint32,
  mint64, marray16, marray32, mmap16, mmap32, bad_prefix, Bytes, isfixint, isnfixint, isfixmap,
  isfixarray, rfixint, rnfixint, rfixmap, rfixarray, map_type, array_type, float64_type,
  float32_type, bool_type, int64_type, uint64_type, nil_type, int_overflow, uint_overflow,
}

-- `in, err = m.ReadInt64()`, the overflow test, and the conversion.
unfoldable pub narrowed_int : {S E : Type 0} → ℕ → Step S E ℕ → Step S E ℕ
narrowed_int w t = t >>= λ (i, err, m).
    if exceeds i (2 ^ (w - 1) - 1) then refuse m 0 (int_overflow i w) else some (i % 2 ^ w, err, m)

-- `in, err = m.ReadUint64()`, the overflow test, and the conversion.
unfoldable pub narrowed_uint : {S E : Type 0} → ℕ → Step S E ℕ → Step S E ℕ
narrowed_uint w t = t >>= λ (u, err, m).
    if ltb (2 ^ w - 1) u then refuse m 0 (uint_overflow u w) else some (u % 2 ^ w, err, m)

module _ {S E : Type 0} (f : FwdReader S E) where
  unfoldable pub map_header_by_lead : ℕ → Reader S → Step S E ℕ
  unfolding skip_return next_value
  map_header_by_lead lead m =
      if isfixmap lead
      then skip_return f m 1 (rfixmap lead)
      else if lead == mmap16
      then next_value f m 3 0 (λ p. slice_from p 1 >>= λ t. be_uint16 t)
      else if lead == mmap32
      then next_value f m 5 0 (λ p. slice_from p 1 >>= λ t. be_uint32 t)
      else refuse m 0 (bad_prefix map_type lead)

  unfoldable pub read_map_header : Reader S → Step S E ℕ
  unfolding by_lead map_header_by_lead
  read_map_header m = by_lead f m 0 map_header_by_lead

  unfoldable pub array_header_by_lead : ℕ → Reader S → Step S E ℕ
  unfolding skip_return next_value
  array_header_by_lead lead m =
      if isfixarray lead
      then skip_return f m 1 (rfixarray lead)
      else if lead == marray16
      then next_value f m 3 0 (λ p. slice_from p 1 >>= λ t. be_uint16 t)
      else if lead == marray32
      then next_value f m 5 0 (λ p. slice_from p 1 >>= λ t. be_uint32 t)
      else refuse m 0 (bad_prefix array_type lead)

  unfoldable pub read_array_header : Reader S → Step S E ℕ
  unfolding by_lead array_header_by_lead
  read_array_header m = by_lead f m 0 array_header_by_lead

  unfoldable pub nil_by_lead : ℕ → Reader S → Step S E (Unit {0})
  unfolding skip_return
  nil_by_lead lead m =
      if not (lead == mnil) then refuse m tt (bad_prefix nil_type lead) else skip_return f m 1 tt

  unfoldable pub read_nil : Reader S → Step S E (Unit {0})
  unfolding peek nil_by_lead
  read_nil m =
      if m.always_nil
      then some (tt, none, m)
      else peek f m 1 tt (λ p m'. get_elem? p 0 >>= λ lead. nil_by_lead lead m')

  unfoldable pub bool_by_lead : ℕ → Reader S → Step S E Bool
  unfolding skip_return
  bool_by_lead lead m =
      if lead == mtrue
      then skip_return f m 1 true
      else if lead == mfalse
      then skip_return f m 1 false
      else refuse m false (bad_prefix bool_type lead)

  unfoldable pub read_bool : Reader S → Step S E Bool
  unfolding by_lead bool_by_lead
  read_bool m = by_lead f m false bool_by_lead

  unfoldable pub int64_by_lead : ℕ → Reader S → Step S E ℕ
  unfolding skip_return next_value
  int64_by_lead lead m =
      if isfixint lead
      then skip_return f m 1 (rfixint lead)
      else if isnfixint lead
      then skip_return f m 1 (sign_extend 8 (rnfixint lead))
      else if lead == mint8
      then next_value f m 2 0 (λ p. get_mint8 p >>= λ i. some (sign_extend 8 i))
      else if lead == mint16
      then next_value f m 3 0 (λ p. get_mint16 p >>= λ i. some (sign_extend 16 i))
      else if lead == mint32
      then next_value f m 5 0 (λ p. get_mint32 p >>= λ i. some (sign_extend 32 i))
      else if lead == mint64
      then next_value f m 9 0 get_mint64
      else refuse m 0 (bad_prefix int64_type lead)

  unfoldable pub read_int64 : Reader S → Step S E ℕ
  unfolding by_lead int64_by_lead
  read_int64 m = by_lead f m 0 int64_by_lead

  unfoldable pub uint64_by_lead : ℕ → Reader S → Step S E ℕ
  unfolding skip_return next_value
  uint64_by_lead lead m =
      if isfixint lead
      then skip_return f m 1 (rfixint lead)
      else if lead == muint8
      then next_value f m 2 0 get_muint8
      else if lead == muint16
      then next_value f m 3 0 get_muint16
      else if lead == muint32
      then next_value f m 5 0 get_muint32
      else if lead == muint64
      then next_value f m 9 0 get_muint64
      else refuse m 0 (bad_prefix uint64_type lead)

  unfoldable pub read_uint64 : Reader S → Step S E ℕ
  unfolding by_lead uint64_by_lead
  read_uint64 m = by_lead f m 0 uint64_by_lead

  unfoldable pub read_int32 : Reader S → Step S E ℕ
  unfolding guard narrowed_int read_int64
  read_int32 m = guard f m 0 (λ m'. narrowed_int 32 (read_int64 m'))

  unfoldable pub read_int16 : Reader S → Step S E ℕ
  unfolding guard narrowed_int read_int64
  read_int16 m = guard f m 0 (λ m'. narrowed_int 16 (read_int64 m'))

  unfoldable pub read_int8 : Reader S → Step S E ℕ
  unfolding guard narrowed_int read_int64
  read_int8 m = guard f m 0 (λ m'. narrowed_int 8 (read_int64 m'))

  unfoldable pub read_int : Reader S → Step S E ℕ
  unfolding guard read_int32 read_int64
  read_int m = guard f m 0 (λ m'.
      if smallint
      then (read_int32 m' >>= λ (i, err, m2). some (sign_extend 32 i, err, m2))
      else read_int64 m')

  unfoldable pub read_uint32 : Reader S → Step S E ℕ
  unfolding guard narrowed_uint read_uint64
  read_uint32 m = guard f m 0 (λ m'. narrowed_uint 32 (read_uint64 m'))

  unfoldable pub read_uint16 : Reader S → Step S E ℕ
  unfolding guard narrowed_uint read_uint64
  read_uint16 m = guard f m 0 (λ m'. narrowed_uint 16 (read_uint64 m'))

  unfoldable pub read_uint8 : Reader S → Step S E ℕ
  unfolding guard narrowed_uint read_uint64
  read_uint8 m = guard f m 0 (λ m'. narrowed_uint 8 (read_uint64 m'))

  unfoldable pub read_uint : Reader S → Step S E ℕ
  unfolding guard read_uint32 read_uint64
  read_uint m = guard f m 0 (λ m'. if smallint then read_uint32 m' else read_uint64 m')

  unfoldable pub read_byte : Reader S → Step S E ℕ
  unfolding guard narrowed_uint read_uint64
  read_byte m = guard f m 0 (λ m'. narrowed_uint 8 (read_uint64 m'))

  unfoldable pub float32_peeked : Bytes → Reader S → Step S E ℕ
  unfolding skip_return
  float32_peeked p m = get_elem? p 0 >>= λ lead.
      if not (lead == mfloat32)
      then refuse m 0 (bad_prefix float32_type lead)
      else (get_muint32 p >>= λ v. skip_return f m 5 v)

  unfoldable pub read_float32 : Reader S → Step S E ℕ
  unfolding guard peek float32_peeked
  read_float32 m = guard f m 0 (λ m'. peek f m' 5 0 float32_peeked)

  -- `ef, err := m.ReadFloat32(); return float64(ef), err`
  unfoldable pub read_widened : Reader S → Step S E ℕ
  unfolding read_float32
  read_widened m = read_float32 m >>= λ (ef, err, m'). some (float64_of_float32 ef, err, m')

  -- ReadFloat64, after its Peek(9).
  unfoldable pub float64_peeked : Reader S → Bytes × Option E × S → Step S E ℕ
  unfolding read_widened skip_return
  float64_peeked m ([], none, s) = none
  float64_peeked m (lead ∷ p, none, s) =
      if not (lead == mfloat64)
      then (if lead == mfloat32
          then read_widened (at m s)
          else refuse (at m s) 0 (bad_prefix float64_type lead))
      else (get_muint64 (lead ∷ p) >>= λ v. skip_return f (at m s) 9 v)
  float64_peeked m ([], some e, s) = some (0, some (io_error e), at m s)
  float64_peeked m (lead ∷ p, some e, s) =
      if f.is_eof e && lead == mfloat32
      then read_widened (at m s)
      else some (0, some (io_error e), at m s)

  unfoldable pub read_float64 : Reader S → Step S E ℕ
  unfolding guard float64_peeked
  read_float64 m = guard f m 0 (λ m'. float64_peeked m' (f.peek_bytes m'.r 9))
