-- ===== src/Msgp/Wire/Types.antt =====
-- msgp/defs.go: the prefix tests and the values packed into a prefix; msgp/read.go: Type;
-- msgp/elsize.go: bytespec and varmode; msgp/errors.go: the errors and their Resumable methods.
use truepack.Prelude.{ℕ, ◌/◌, ◌^◌, Bool, true, false, ◌==◌, bit_and, bit_or}
use truepack.Msgp.Wire.Consts.{
  last4, first4, last5, first3, last7, mnfixint, mfixmap, mfixarray, mfixstr,
}
use truepack.Prelude.{List}

abbrev pub Bytes : Type 0
Bytes = List ℕ

unfoldable pub isfixint : ℕ → Bool
isfixint b = b / 2 ^ 7 == 0

unfoldable pub isnfixint : ℕ → Bool
isnfixint b = bit_and b first3 == mnfixint

unfoldable pub isfixmap : ℕ → Bool
isfixmap b = bit_and b first4 == mfixmap

unfoldable pub isfixarray : ℕ → Bool
isfixarray b = bit_and b first4 == mfixarray

unfoldable pub isfixstr : ℕ → Bool
isfixstr b = bit_and b first3 == mfixstr

unfoldable pub wfixint : ℕ → ℕ
wfixint u = bit_and u last7

unfoldable pub rfixint : ℕ → ℕ
rfixint b = b

-- An int8 is its bit pattern, so the conversions `byte(i)` and `int8(b)` keep the number.
unfoldable pub wnfixint : ℕ → ℕ
wnfixint i = bit_or i mnfixint

unfoldable pub rnfixint : ℕ → ℕ
rnfixint b = b

unfoldable pub rfixmap : ℕ → ℕ
rfixmap b = bit_and b last4

unfoldable pub wfixmap : ℕ → ℕ
wfixmap u = bit_or mfixmap (bit_and u last4)

unfoldable pub rfixstr : ℕ → ℕ
rfixstr b = bit_and b last5

unfoldable pub wfixstr : ℕ → ℕ
wfixstr u = bit_or (bit_and u last5) mfixstr

unfoldable pub rfixarray : ℕ → ℕ
rfixarray b = bit_and b last4

unfoldable pub wfixarray : ℕ → ℕ
wfixarray u = bit_or (bit_and u last4) mfixarray

-- The Type of msgp/read.go.
pub data WireType : Type 0 where
  invalid_type str_type bin_type map_type array_type : WireType
  float64_type float32_type bool_type : WireType
  int8_type int16_type int32_type int64_type : WireType
  uint8_type uint16_type uint32_type uint64_type : WireType
  nil_type extension_type complex64_type complex128_type time_type : WireType

-- varmode: `elements n` is the mode n ≥ 0 (constsize is `elements 0`), the others are -1 to -7.
pub data VarMode : Type 0 where
  elements : ℕ → VarMode
  extra8 extra16 extra32 map16v map32v array16v array32v : VarMode

abbrev pub constsize : VarMode
constsize = elements 0

pub record ByteSpec : Type 0 where
  pub size : ℕ
  pub extra : VarMode
  pub typ : WireType

-- The error values. `int_overflow` and `uint_overflow` hold Value and FailedBitsize, an int64
-- being its bit pattern; `type_error` holds Method and Encoded; `array_error` Wanted and Got;
-- `extension_type_error` Got and Want, each an int8 as its bit pattern.
pub data Error : Type 0 where
  err_short_bytes fatal : Error
  array_error : ℕ → ℕ → Error
  int_overflow : ℕ → ℕ → Error
  uint_overflow : ℕ → ℕ → Error
  type_error : WireType → WireType → Error
  invalid_prefix_error : ℕ → Error
  extension_type_error : ℕ → ℕ → Error

unfoldable pub resumable : Error → Bool
resumable err_short_bytes = false
resumable fatal = false
resumable (array_error w g) = true
resumable (int_overflow v n) = true
resumable (uint_overflow v n) = true
resumable (type_error m e) = true
resumable (invalid_prefix_error b) = false
resumable (extension_type_error g w) = true

unfoldable pub err_ext : ℕ → ℕ → Error
err_ext got wanted = extension_type_error got wanted
