-- ===== src/Msgp/Wire/Sizes.antt =====
-- msgp/elsize.go: the table `sizes` after its `init`, and getType; msgp/errors.go: badPrefix.
-- A table entry that neither the literal nor `init` sets is the zero bytespec.
use truepack.Prelude.{ℕ, ◌+◌, ◌*◌, Bool, true, false, ◌&&◌, ltb, leb, ◌==◌, if◌then◌else◌}
use truepack.Msgp.Wire.Consts.{
  mnfixint, mfixmap, mfixarray, mfixstr, mnil, mfalse, mtrue, mbin8, mbin16, mbin32, mext8, mext16,
  mext32, mfloat32, mfloat64, muint8, muint16, muint32, muint64, mint8, mint16, mint32, mint64,
  mfixext1, mfixext2, mfixext4, mfixext8, mfixext16, mstr8, mstr16, mstr32, marray16, marray32,
  mmap16, mmap32,
}
use truepack.Msgp.Wire.Types.{
  rfixmap, rfixstr, rfixarray, WireType, invalid_type, str_type, bin_type, map_type, array_type,
  float64_type, float32_type, bool_type, int8_type, int16_type, int32_type, int64_type, uint8_type,
  uint16_type, uint32_type, uint64_type, nil_type, extension_type, VarMode, elements, extra8,
  extra16, extra32, map16v, map32v, array16v, array32v, constsize, ByteSpec, Error, type_error,
  invalid_prefix_error,
}

abbrev spec : ℕ → VarMode → WireType → ByteSpec
spec n m t = record { size = n; extra = m; typ = t }

-- The entries of the literal.
unfoldable pub sizes_literal : ℕ → ByteSpec
sizes_literal b =
    if b == mnil
    then spec 1 constsize nil_type
    else if b == mfalse
    then spec 1 constsize bool_type
    else if b == mtrue
    then spec 1 constsize bool_type
    else if b == mbin8
    then spec 2 extra8 bin_type
    else if b == mbin16
    then spec 3 extra16 bin_type
    else if b == mbin32
    then spec 5 extra32 bin_type
    else if b == mext8
    then spec 3 extra8 extension_type
    else if b == mext16
    then spec 4 extra16 extension_type
    else if b == mext32
    then spec 6 extra32 extension_type
    else if b == mfloat32
    then spec 5 constsize float32_type
    else if b == mfloat64
    then spec 9 constsize float64_type
    else if b == muint8
    then spec 2 constsize uint8_type
    else if b == muint16
    then spec 3 constsize uint16_type
    else if b == muint32
    then spec 5 constsize uint32_type
    else if b == muint64
    then spec 9 constsize uint64_type
    else if b == mint8
    then spec 2 constsize int8_type
    else if b == mint16
    then spec 3 constsize int16_type
    else if b == mint32
    then spec 5 constsize int32_type
    else if b == mint64
    then spec 9 constsize int64_type
    else if b == mfixext1
    then spec 3 constsize extension_type
    else if b == mfixext2
    then spec 4 constsize extension_type
    else if b == mfixext4
    then spec 6 constsize extension_type
    else if b == mfixext8
    then spec 10 constsize extension_type
    else if b == mfixext16
    then spec 18 constsize extension_type
    else if b == mstr8
    then spec 2 extra8 str_type
    else if b == mstr16
    then spec 3 extra16 str_type
    else if b == mstr32
    then spec 5 extra32 str_type
    else if b == marray16
    then spec 3 array16v array_type
    else if b == marray32
    then spec 5 array32v array_type
    else if b == mmap16
    then spec 3 map16v map_type
    else if b == mmap32
    then spec 5 map32v map_type
    else spec 0 constsize invalid_type

-- The loops of `init` set whole ranges, which no entry of the literal lies in.
unfoldable pub sizes : ℕ → ByteSpec
unfolding sizes_literal
sizes b =
    if ltb b 0x80
    then spec 1 constsize int8_type
    else if leb mnfixint b
    then spec 1 constsize int8_type
    else if leb mfixstr b && ltb b 0xc0
    then spec (1 + rfixstr b) constsize str_type
    else if leb mfixmap b && ltb b 0x90
    then spec 1 (elements (2 * rfixmap b)) map_type
    else if leb mfixarray b && ltb b 0xa0
    then spec 1 (elements (rfixarray b)) array_type
    else sizes_literal b

unfoldable pub get_type : ℕ → WireType
unfolding sizes
get_type v = (sizes v).typ

unfoldable pub is_invalid : WireType → Bool
is_invalid invalid_type = true
is_invalid _ = false

unfoldable pub bad_prefix : WireType → ℕ → Error
unfolding sizes
bad_prefix want lead =
    let t = (sizes lead).typ in
    if is_invalid t then invalid_prefix_error lead else type_error want t
