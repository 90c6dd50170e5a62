-- ===== src/Msgp/RoundTrip/Rules.antt =====
-- The parts of the readers of msgp/read_bytes.go on an input that holds what they look for.
use truepack.Prelude.{
  ℕ, ◌≤◌, ◌≡◌, ◌∙◌, false, Option, some, ◌∷◌, ◌++◌, ◌==◌, le→ltb, length, slice_from,
}
use truepack.Msgp.Nilbits.{NilBitsStack, is_always_nil}
use truepack.Msgp.Read.{Read, ok, nil_guard, need, take_value}
use truepack.Msgp.Slice.{Slice, Appends}
use truepack.Msgp.Wire.{mnil, Bytes}

-- The append returns, it adds bytes behind those of `b`, and the reader takes just these off the
-- front of any bytes, with the value.
abbrev pub RoundTrips : {A : Type 0} → Slice → Bytes → Option Slice → (Bytes → Read A) → A → Type 0
RoundTrips b rest r read v =
    (o : Slice) × (bs : Bytes) × (r ≡ some o)
    × (o.visible ≡ b.visible ++ bs)
    × (read (bs ++ rest) ≡ ok v rest)

module _ {A : Type 0} where
  pub round_trip :
      (b : Slice) (bs rest : Bytes) (r : Option Slice) (read : Bytes → Read A) (v : A)
      → Appends b bs r
      → read (bs ++ rest) ≡ ok v rest
      → RoundTrips b rest r read v
  round_trip b bs rest r read v (o, e, f) h = (o, bs, e, f, h)

  pub nil_guard-pass :
      (nbs : Option NilBitsStack) (x : ℕ) (b : Bytes) (v : A) (r : Read A)
      → is_always_nil nbs ≡ false
      → (x == mnil) ≡ false
      → nil_guard nbs (x ∷ b) v r ≡ r
  unfolding nil_guard
  nil_guard-pass nbs x b v r h e = rw (h, e)

  pub need-pass : (b : Bytes) (n : ℕ) (v : A) (r : Read A) → n ≤ length b → need b n v r ≡ r
  unfolding need
  need-pass b n v r h = rw (le→ltb (length b) n h)

  pub take_value-eq :
      (x : Option A) (b : Bytes) (n : ℕ) (v : A) (o : Bytes)
      → x ≡ some v
      → slice_from b n ≡ some o
      → take_value x b n ≡ ok v o
  unfolding take_value
  take_value-eq x b n v o e f = rw (e, f)

  -- A field of fixed size behind its prefix.
  pub field-eq :
      (x : Option A) (b : Bytes) (n : ℕ) (v w : A) (o : Bytes)
      → n ≤ length b
      → x ≡ some v
      → slice_from b n ≡ some o
      → need b n w (take_value x b n) ≡ ok v o
  field-eq x b n v w o h e f = need-pass b n w _ h ∙ take_value-eq x b n v o e f

  pub guarded :
      (nbs : Option NilBitsStack) (x : ℕ) (b : Bytes) (v v' : A) (r : Read A) (o : Bytes)
      → is_always_nil nbs ≡ false
      → (x == mnil) ≡ false
      → r ≡ ok v' o
      → nil_guard nbs (x ∷ b) v r ≡ ok v' o
  guarded nbs x b v v' r o h e p = nil_guard-pass nbs x b v r h e ∙ p
