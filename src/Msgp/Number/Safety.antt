-- ===== src/Msgp/Number/Safety.antt =====
-- msgp/number.go: UnmarshalMsg on any input.
use truepack.Prelude.{ℕ, ◌≡◌, refl, Option, none, some}
use truepack.Msgp.Number.{
  Number, as_int, as_uint, as_float32, as_float64, NumberCase, an_int, a_uint, a_float64, a_float32,
  no_number, case_of, set_number, unmarshal_msg,
}
use truepack.Msgp.Read.{
  read_int64_bytes, Read, read_float32_bytes, read_float64_bytes, read_uint64_bytes,
}
use truepack.Msgp.Safety.Numbers.{read_number-Safe}
use truepack.Msgp.Safety.Rules.{EndsIn, Safe}
use truepack.Msgp.Skip.Types.{next_type_total}
use truepack.Msgp.Wire.{Bytes, WireType, int64_type, Error, type_error}

-- What UnmarshalMsg leaves of the input, and of the receiver after an error.
abbrev Kept : Bytes → Number → Bytes → Number → Option Error → Type 0
Kept b m o n none = EndsIn b o
Kept b m o n (some e) = (o ≡ b) × (n ≡ m)

abbrev pub UnmarshalOk : Bytes → Number → Option (Bytes × Number × Option Error) → Type 0
UnmarshalOk b m r =
    (o : Bytes) × (n : Number) × (err : Option Error) × (r ≡ some (o, n, err)) × Kept b m o n err

set_number-UnmarshalOk :
    (b : Bytes) (m : Number) (set : ℕ → Number) (r : Read ℕ)
    → Safe b r
    → UnmarshalOk b m (set_number b m set r)
unfolding set_number
set_number-UnmarshalOk b m set r (v, o, none, p, q) = rw p (o, set v, none, refl, q)
set_number-UnmarshalOk b m set r (v, o, some e, p, q) = rw p (b, m, some e, refl, (refl, refl))

-- On every input UnmarshalMsg returns, without a panic; if it answers no error what it leaves is an
-- end of the input, and if it answers one it leaves the input and the Number as they were.
pub unmarshal_msg-UnmarshalOk : (b : Bytes) (m : Number) → UnmarshalOk b m (unmarshal_msg m b)
unfolding unmarshal_msg
unmarshal_msg-UnmarshalOk b m = let (t, p) = next_type_total b in rw p (by_case t (case_of t))
  where
    by_case :
        (t : WireType) (c : NumberCase)
        → UnmarshalOk b m (elim c [
          | an_int ↦ set_number b m as_int (read_int64_bytes none b)
          | a_uint ↦ set_number b m as_uint (read_uint64_bytes none b)
          | a_float64 ↦ set_number b m as_float64 (read_float64_bytes none b)
          | a_float32 ↦ set_number b m as_float32 (read_float32_bytes none b)
          | no_number ↦ some (b, m, some (type_error int64_type t))
        ])
    by_case t an_int = set_number-UnmarshalOk b m as_int _ (read_number-Safe none b).3
    by_case t a_uint = set_number-UnmarshalOk b m as_uint _ (read_number-Safe none b).8
    by_case t a_float64 = set_number-UnmarshalOk b m as_float64 _ (read_number-Safe none b).15
    by_case t a_float32 = set_number-UnmarshalOk b m as_float32 _ (read_number-Safe none b).14
    by_case t no_number = (b, m, some (type_error int64_type t), refl, (refl, refl))
