-- ===== src/Msgp/Number/Tests.antt =====
-- The theorems about msgp/number.go at concrete inputs.
use truepack.Prelude.{[], ◌∷◌, arith}
use truepack.Msgp.Number.{as_int, as_uint, as_float32, as_float64, unmarshal_msg}
use truepack.Msgp.Number.Laws.{NumberRoundTrips, number_RoundTrips}
use truepack.Msgp.Number.Safety.{UnmarshalOk, unmarshal_msg-UnmarshalOk}
use truepack.Msgp.Slice.{Slice}
use truepack.Msgp.Wire.{mint64}

abbrev three : Slice
three = record { visible = 3 ∷ []; spare = 0 ∷ [] }

number_RoundTrips_example :
    NumberRoundTrips three (5 ∷ []) (as_uint 8) (as_int 0) 8
    × NumberRoundTrips three (5 ∷ []) (as_uint 8) (as_uint 7) 0
    × NumberRoundTrips three (5 ∷ []) (as_uint 8) (as_float64 0x3ff0000000000000) 0
    × NumberRoundTrips three (5 ∷ []) (as_uint 8) (as_float32 0x3f800000) 0
number_RoundTrips_example =
    number_RoundTrips three (5 ∷ []) (as_uint 8) 0 7 0x3ff0000000000000 0x3f800000 (omega arith)
      (omega arith) (omega arith) (omega arith)

unmarshal_msg-UnmarshalOk_example :
    UnmarshalOk (mint64 ∷ 1 ∷ []) (as_uint 8) (unmarshal_msg (as_uint 8) (mint64 ∷ 1 ∷ []))
unmarshal_msg-UnmarshalOk_example = unmarshal_msg-UnmarshalOk (mint64 ∷ 1 ∷ []) (as_uint 8)
