-- ===== src/Msgp/Number.antt =====
-- msgp/number.go: Number over byte slices. Its bits are a uint64, a float is its bit pattern and an
-- int64 too. The setters do not look at the receiver. `none` is a panic. The sizes are those of
-- msgp/size.go.
pub mod Laws
pub mod Safety
mod Tests
use truepack.Prelude.{ℕ, Bool, true, false, Option, none, some, ◌==◌, if◌then◌else◌, ◌>>=◌}
use truepack.Msgp.Append.{to32, append_float64, append_float32, append_int64, append_uint64}
use truepack.Msgp.Read.{
  read_int64_bytes, Read, float64_of_float32, read_float32_bytes, read_float64_bytes,
  read_uint64_bytes,
}
use truepack.Msgp.Skip.{next_type}
use truepack.Msgp.Slice.{Slice}
use truepack.Msgp.Wire.{
  Bytes, WireType, invalid_type, float64_type, float32_type, int8_type, int16_type, int32_type,
  int64_type, uint8_type, uint16_type, uint32_type, uint64_type, Error, type_error,
}

pub record Number : Type 0 where
  pub bits : ℕ
  pub typ : WireType

unfoldable pub as_int : ℕ → Number
as_int i =
    if i == 0
    then record { bits = 0; typ = invalid_type }
    else record { bits = i; typ = int64_type }

abbrev pub as_uint : ℕ → Number
as_uint u = record { bits = u; typ = uint64_type }

abbrev pub as_float32 : ℕ → Number
as_float32 f = record { bits = f; typ = float32_type }

abbrev pub as_float64 : ℕ → Number
as_float64 f = record { bits = f; typ = float64_type }

unfoldable pub int : Number → ℕ × Bool
int n = elim n.typ [
  | int64_type ↦ (n.bits, true)
  | invalid_type ↦ (n.bits, true)
  | _ ↦ (n.bits, false)
]

unfoldable pub uint : Number → ℕ × Bool
uint n = elim n.typ [ uint64_type ↦ (n.bits, true) | _ ↦ (n.bits, false) ]

unfoldable pub float : Number → ℕ × Bool
float n = elim n.typ [
  | float32_type ↦ (float64_of_float32 (to32 n.bits), true)
  | float64_type ↦ (n.bits, true)
  | _ ↦ (0, false)
]

unfoldable pub number_type : Number → WireType
number_type n = elim n.typ [ invalid_type ↦ int64_type | t ↦ t ]

-- The cases of the switches over a type.
pub data NumberCase : Type 0 where
  an_int : NumberCase
  a_uint : NumberCase
  a_float64 : NumberCase
  a_float32 : NumberCase
  no_number : NumberCase

unfoldable pub case_of : WireType → NumberCase
case_of int8_type = an_int
case_of int16_type = an_int
case_of int32_type = an_int
case_of int64_type = an_int
case_of uint8_type = a_uint
case_of uint16_type = a_uint
case_of uint32_type = a_uint
case_of uint64_type = a_uint
case_of float64_type = a_float64
case_of float32_type = a_float32
case_of _ = no_number

-- `v, o, err := read; if err != nil { return b, err }; n.As(v); return o, nil`
unfoldable pub set_number :
    Bytes → Number → (ℕ → Number) → Read ℕ → Option (Bytes × Number × Option Error)
set_number b n set r =
    r >>= λ (v, o, err). elim err [ none ↦ some (o, set v, none) | some e ↦ some (b, n, some e) ]

-- (rest, what the number is afterwards, err).
unfoldable pub unmarshal_msg : Number → Bytes → Option (Bytes × Number × Option Error)
unfolding case_of set_number
unmarshal_msg n b = next_type b >>= λ typ. elim (case_of typ) [
  | an_int ↦ set_number b n as_int (read_int64_bytes none b)
  | a_uint ↦ set_number b n as_uint (read_uint64_bytes none b)
  | a_float64 ↦ set_number b n as_float64 (read_float64_bytes none b)
  | a_float32 ↦ set_number b n as_float32 (read_float32_bytes none b)
  | no_number ↦ some (b, n, some (type_error int64_type typ))
]

unfoldable pub marshal_msg : Number → Slice → Option Slice
unfolding case_of
marshal_msg n b = elim (case_of n.typ) [
  | an_int ↦ append_int64 b n.bits
  | a_uint ↦ append_uint64 b n.bits
  | a_float64 ↦ append_float64 b n.bits
  | a_float32 ↦ append_float32 b (to32 n.bits)
  | no_number ↦ append_int64 b 0
]

unfoldable pub msgsize : Number → ℕ
unfolding case_of
msgsize n = elim (case_of n.typ) [
  | an_int ↦ 9
  | a_uint ↦ 9
  | a_float64 ↦ 9
  | a_float32 ↦ 5
  | no_number ↦ 1
]
