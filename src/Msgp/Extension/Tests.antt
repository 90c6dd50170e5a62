-- ===== src/Msgp/Extension/Tests.antt =====
-- Runs of the functions of msgp/extension.go, and the theorems about them at concrete inputs.
use truepack.Prelude.{◌≡◌, refl, false, none, some, [], ◌∷◌, ◌++◌, arith}
use truepack.Msgp.Extension.{
  RawExtension, raw_extension, put_fixext, marshal_at, put_extension, append_sized,
  append_extension, read_extension_bytes,
}
use truepack.Msgp.Extension.Laws.{Encodes}
use truepack.Msgp.Extension.Reads.{Unmarshalled}
use truepack.Msgp.Extension.RoundTrip.{
  ExtRoundTrips, RefusesType, extension-ExtRoundTrips, empty_type_ignored, raw-Encodes,
  raw_RoundTrips,
}
use truepack.Msgp.Extension.Safety.{SafeExt, read_extension-SafeExt}
use truepack.Msgp.Integers.{put_all}
use truepack.Msgp.Nilbits.{is_always_nil}
use truepack.Msgp.Slice.{Slice, go_copy, ensure, store}
use truepack.Msgp.Wire.{mext8, mext16, mext32, Bytes}

abbrev seven : Slice
seven = record { visible = 7 ∷ []; spare = 0 ∷ 0 ∷ 0 ∷ 0 ∷ 0 ∷ [] }

abbrev four_bytes : RawExtension
four_bytes = record { data_slice = record { visible = 1 ∷ 2 ∷ 3 ∷ 4 ∷ []; spare = [] }; typ = 9 }

abbrev blank : RawExtension
blank = record { data_slice = record { visible = []; spare = [] }; typ = 9 }

live_nil : is_always_nil none ≡ false
unfolding is_always_nil
live_nil = refl

four_bytes-Encodes : Encodes raw_extension four_bytes (1 ∷ 2 ∷ 3 ∷ 4 ∷ [])
four_bytes-Encodes = raw-Encodes four_bytes (omega arith)

-- Four bytes are written as an ext 8, not as a fixext 4.
run_append_extension :
    append_extension raw_extension seven four_bytes
    ≡ some (
      record {
        visible = 7 ∷ 0xc7 ∷ 4 ∷ 9 ∷ 1 ∷ 2 ∷ 3 ∷ 4 ∷ [];
        spare = 0 ∷ 0 ∷ 0 ∷ 0 ∷ 0 ∷ 0 ∷ 0 ∷ 0 ∷ 0 ∷ 0 ∷ 0 ∷ [];
      },
      none,
    )
unfolding append_extension append_sized put_extension marshal_at put_fixext raw_extension ensure
    store put_all go_copy
run_append_extension = refl

extension-ExtRoundTrips_example :
    ExtRoundTrips raw_extension none seven (5 ∷ []) four_bytes blank (1 ∷ 2 ∷ 3 ∷ 4 ∷ [])
unfolding raw_extension
extension-ExtRoundTrips_example =
    extension-ExtRoundTrips raw_extension none seven (5 ∷ []) live_nil four_bytes blank
      (1 ∷ 2 ∷ 3 ∷ 4 ∷ []) four_bytes-Encodes (omega arith) refl

empty_type_ignored_example :
    Unmarshalled raw_extension blank []
      (5 ∷ [])
      (read_extension_bytes raw_extension none (mext8 ∷ 0 ∷ 77 ∷ 5 ∷ []) blank)
    × RefusesType raw_extension none blank 77 (mext8 ∷ 1 ∷ 77 ∷ 6 ∷ 5 ∷ [])
    × RefusesType raw_extension none blank 77 (mext16 ∷ 0 ∷ 0 ∷ 77 ∷ 5 ∷ [])
    × RefusesType raw_extension none blank 77 (mext32 ∷ 0 ∷ 0 ∷ 0 ∷ 0 ∷ 77 ∷ 5 ∷ [])
unfolding raw_extension
empty_type_ignored_example =
    empty_type_ignored raw_extension none seven (5 ∷ []) live_nil 77 6 blank (λ h. omega (arith, h))

raw_RoundTrips_example :
    (o : Slice) × (vs : Bytes) × (append_extension raw_extension seven four_bytes ≡ some (o, none))
    × (o.visible ≡ 7 ∷ vs)
    × (r : RawExtension) × (read_extension_bytes raw_extension none (vs ++ (5 ∷ [])) blank
        ≡ some (5 ∷ [], r, none))
    × (r.data_slice.visible ≡ 1 ∷ 2 ∷ 3 ∷ 4 ∷ [])
    × (r.typ ≡ 9)
raw_RoundTrips_example =
    raw_RoundTrips none seven (5 ∷ []) four_bytes blank live_nil (omega arith) (omega arith) refl

read_extension-SafeExt_example :
    SafeExt raw_extension
      (mext32 ∷ 0 ∷ 0 ∷ [])
      blank
      (read_extension_bytes raw_extension none (mext32 ∷ 0 ∷ 0 ∷ []) blank)
read_extension-SafeExt_example =
    read_extension-SafeExt raw_extension (mext32 ∷ 0 ∷ 0 ∷ []) blank none
