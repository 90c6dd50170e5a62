-- ===== src/Msgp/Number/Laws.antt =====
-- msgp/number.go: the getters after the setters, MarshalMsg and UnmarshalMsg, and Msgsize.
use truepack.Prelude.{
  ℕ, ◌+◌, ◌^◌, ◌<◌, ◌≡◌, refl, ◌⊎◌, inl, inr, true, false, none, some, ◌∷◌, ◌++◌, arith, ◌==◌,
  if◌then◌else◌, Bool-cases, length,
}
use truepack.Msgp.Append.{to32}
use truepack.Msgp.Append.Laws.{append_fixed-Appends, append_integer-Appends}
use truepack.Msgp.Integers.{be32, be64}
use truepack.Msgp.Nilbits.{is_always_nil}
use truepack.Msgp.Number.{
  Number, as_int, as_uint, as_float32, as_float64, unmarshal_msg, marshal_msg, msgsize,
}
use truepack.Msgp.RoundTrip.Exts.{read_float32-mfloat32, read_float64-mfloat64}
use truepack.Msgp.RoundTrip.Numbers.{read_uint64-muint64, read_int64-mint64}
use truepack.Msgp.Skip.Flat.{fixed-IsFlat}
use truepack.Msgp.Slice.{Slice, Appends}
use truepack.Msgp.Wire.{mfloat32, mfloat64, muint64, mint64, Bytes, invalid_type, int64_type}

-- MarshalMsg returns, it adds bytes behind those of `b`, as many as Msgsize says or more by `over`,
-- and UnmarshalMsg takes just these off the front of any others, into the same Number.
abbrev pub NumberRoundTrips : Slice → Bytes → Number → Number → ℕ → Type 0
NumberRoundTrips b rest m n over =
    (o : Slice) × (bs : Bytes) × (marshal_msg n b ≡ some o)
    × (o.visible ≡ b.visible ++ bs)
    × (length bs ≡ msgsize n + over)
    × (unmarshal_msg m (bs ++ rest) ≡ some (rest, n, none))

live_nil : is_always_nil none ≡ false
unfolding is_always_nil
live_nil = refl

to32_same : (x : ℕ) → x < 2 ^ 32 → to32 x ≡ x
to32_same x h = omega arith

module _ (b : Slice) (rest : Bytes) (m : Number) where
  number_trip :
      (n : Number) (bs : Bytes) (over : ℕ)
      → Appends b bs (marshal_msg n b)
      → length bs ≡ msgsize n + over
      → unmarshal_msg m (bs ++ rest) ≡ some (rest, n, none)
      → NumberRoundTrips b rest m n over
  number_trip n bs over (o, p, v) l q = (o, bs, p, v, l, q)

  int_trip : (i : ℕ) → i < 2 ^ 64 → (i == 0) ≡ false → NumberRoundTrips b rest m (as_int i) 0
  unfolding as_int marshal_msg unmarshal_msg msgsize
  int_trip i h nonzero = rw nonzero (
      number_trip (record { bits = i; typ = int64_type }) (mint64 ∷ be64 i) 0
        (append_integer-Appends b i).3 refl
        (rw ((fixed-IsFlat rest i true).7.0, read_int64-mint64 none rest live_nil i h, nonzero)))

  -- The number 0, which is kept without a type.
  zero_trip : NumberRoundTrips b rest m (as_int 0) 8
  unfolding as_int marshal_msg unmarshal_msg msgsize
  zero_trip =
      number_trip (record { bits = 0; typ = invalid_type }) (mint64 ∷ be64 0) 8
        (append_integer-Appends b 0).3 refl
        (rw ((fixed-IsFlat rest 0 true).7.0, read_int64-mint64 none rest live_nil 0 (omega arith)))

  -- A Number that a setter made, of any int64, uint64, float32 or float64, is written by MarshalMsg and
  -- read back by UnmarshalMsg as the same Number, whatever the receiver and the bytes behind. The
  -- bytes written are as many as Msgsize says, but for the int 0: these are eight more.
  pub number_RoundTrips :
      (i u f g : ℕ)
      → i < 2 ^ 64
      → u < 2 ^ 64
      → f < 2 ^ 64
      → g < 2 ^ 32
      → NumberRoundTrips b rest m (as_int i) (if i == 0 then 8 else 0)
        × NumberRoundTrips b rest m (as_uint u) 0
        × NumberRoundTrips b rest m (as_float64 f) 0
        × NumberRoundTrips b rest m (as_float32 g) 0
  unfolding marshal_msg unmarshal_msg msgsize
  number_RoundTrips i u f g hi hu hf hg = (
    ints (Bool-cases (i == 0)),
    number_trip (as_uint u) (muint64 ∷ be64 u) 0 (append_integer-Appends b u).9 refl
        (rw ((fixed-IsFlat rest u true).11.0, read_uint64-muint64 none rest live_nil u hu)),
    number_trip (as_float64 f) (mfloat64 ∷ be64 f) 0 (append_fixed-Appends b f f true).3 refl
        (rw ((fixed-IsFlat rest f true).3.0, read_float64-mfloat64 none rest live_nil f hf)),
    number_trip (as_float32 g) (mfloat32 ∷ be32 g) 0
        (rw (to32_same g hg) (append_fixed-Appends b g g true).2) refl
        (rw ((fixed-IsFlat rest g true).2.0, read_float32-mfloat32 none rest live_nil g hg)),
  )
    where
      ints :
          ((i == 0) ≡ true) ⊎ ((i == 0) ≡ false)
          → NumberRoundTrips b rest m (as_int i) (if i == 0 then 8 else 0)
      ints (inl e) = let z : i ≡ 0 = ground (arith, e) in rw z zero_trip
      ints (inr e) = rw e (int_trip i hi e)
