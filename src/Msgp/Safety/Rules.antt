-- ===== src/Msgp/Safety/Rules.antt =====
-- What it means for a reader of msgp/read_bytes.go to be safe on an input, with a rule for each of
-- the pieces that the readers are made of.
use truepack.Prelude.{
  ℕ, zero, suc, ◌≤◌, ◌<◌, ◌≡◌, refl, sym, ap, inl, inr, Bool, true, false, Option, none, some, [],
  ◌∷◌, ◌++◌, append-nil, arith, ltb, ◌==◌, if◌then◌else◌, ◌>>=◌, Bool-cases, length, get_elem?,
  slice_from,
}
use truepack.Msgp.Integers.{join16, join32, join64, be_uint16, be_uint32, be_uint64}
use truepack.Msgp.Nilbits.{NilBitsStack, is_always_nil}
use truepack.Msgp.Read.{Read, ok, fail, nil_guard, need, take_value}
use truepack.Msgp.Wire.{mnil, Bytes, Error, err_short_bytes}

abbrev pub EndsIn : Bytes → Bytes → Type 0
EndsIn b o = (front : Bytes) × (b ≡ front ++ o)

-- The reader returns, and the rest is an end of the input, with an error too (`[]` is one).
abbrev pub Safe : {A : Type 0} → Bytes → Read A → Type 0
Safe {A} b r = (v : A) × (o : Bytes) × (e : Option Error) × (r ≡ some (v, o, e)) × EndsIn b o

-- Only what is there can be sliced off.
pub slice_from_front :
    (b : Bytes) (n : ℕ)
    → n ≤ length b
    → (front o : Bytes) × (slice_from b n ≡ some o) × (b ≡ front ++ o)
slice_from_front b zero h = ([], b, refl, refl)
slice_from_front [] (suc n) h = absurd (omega arith)
slice_from_front (x ∷ b) (suc n) h =
    let (front, o, e, f) = slice_from_front b n (omega arith) in
    (x ∷ front, o, e, ap (λ t. x ∷ t) f)

module _ {A : Type 0} where
  pub ok-Safe : (v : A) (b front o : Bytes) → b ≡ front ++ o → Safe b (ok v o)
  ok-Safe v b front o h = (v, o, none, refl, (front, h))

  pub fail-Safe : (v : A) (b : Bytes) (e : Error) → Safe b (fail v [] e)
  fail-Safe v b e = (v, [], some e, refl, (b, sym (append-nil b)))

  pub if-Safe :
      (b : Bytes) {x y : Read A} (c : Bool) → Safe b x → Safe b y → Safe b (if c then x else y)
  if-Safe b true p q = p
  if-Safe b false p q = q

  pub nil_guard-Safe :
      (nbs : Option NilBitsStack) (b : Bytes) (v : A) (r : Read A)
      → Safe b r
      → Safe b (nil_guard nbs b v r)
  unfolding nil_guard
  nil_guard-Safe nbs [] v r p = if-Safe [] (is_always_nil nbs) (ok-Safe v [] [] [] refl) p
  nil_guard-Safe nbs (x ∷ b) v r p =
      if-Safe (x ∷ b) (is_always_nil nbs) (ok-Safe v (x ∷ b) [] (x ∷ b) refl)
        (if-Safe (x ∷ b) (x == mnil) (ok-Safe v (x ∷ b) (x ∷ []) b refl) p)

  pub need-Safe :
      (b : Bytes) (n : ℕ) (v : A) (r : Read A) → (n ≤ length b → Safe b r) → Safe b (need b n v r)
  unfolding need
  need-Safe b n v r p = elim (Bool-cases (ltb (length b) n)) [
    | inl e ↦ rw e (fail-Safe v b err_short_bytes)
    | inr e ↦ rw e (p (ground (arith, e)))
  ]

  pub take_value-Safe :
      (x : Option A) (b : Bytes) (n : ℕ)
      → (v : A) × (x ≡ some v)
      → n ≤ length b
      → Safe b (take_value x b n)
  unfolding take_value
  take_value-Safe x b n (v, e) h =
      let (front, o, f, g) = slice_from_front b n h in rw (e, f) (ok-Safe v b front o g)

  pub then-Safe :
      {B : Type 0} (b : Bytes) {r : Read A} (k : A × Bytes × Option Error → Read B)
      → Safe b r
      → ((v : A) (o : Bytes) (e : Option Error) → EndsIn b o → Safe b (k (v, o, e)))
      → Safe b (r >>= k)
  then-Safe b k (v, o, e, p, q) f = rw p (f v o e q)

pub be_uint16_total : (b : Bytes) → 2 ≤ length b → (v : ℕ) × (be_uint16 b ≡ some v)
unfolding be_uint16
be_uint16_total [] h = absurd (omega arith)
be_uint16_total (x ∷ []) h = absurd (omega arith)
be_uint16_total (x ∷ y ∷ b) h = (join16 x y, refl)

pub be_uint32_total : (b : Bytes) → 4 ≤ length b → (v : ℕ) × (be_uint32 b ≡ some v)
unfolding be_uint32
be_uint32_total [] h = absurd (omega arith)
be_uint32_total (x ∷ []) h = absurd (omega arith)
be_uint32_total (x ∷ y ∷ []) h = absurd (omega arith)
be_uint32_total (x ∷ y ∷ z ∷ []) h = absurd (omega arith)
be_uint32_total (x ∷ y ∷ z ∷ w ∷ b) h = (join32 x y z w, refl)

pub be_uint64_total : (b : Bytes) → 8 ≤ length b → (v : ℕ) × (be_uint64 b ≡ some v)
unfolding be_uint64
be_uint64_total [] h = absurd (omega arith)
be_uint64_total (x ∷ []) h = absurd (omega arith)
be_uint64_total (x ∷ y ∷ []) h = absurd (omega arith)
be_uint64_total (x ∷ y ∷ z ∷ []) h = absurd (omega arith)
be_uint64_total (x ∷ y ∷ z ∷ w ∷ []) h = absurd (omega arith)
be_uint64_total (x ∷ y ∷ z ∷ w ∷ p ∷ []) h = absurd (omega arith)
be_uint64_total (x ∷ y ∷ z ∷ w ∷ p ∷ q ∷ []) h = absurd (omega arith)
be_uint64_total (x ∷ y ∷ z ∷ w ∷ p ∷ q ∷ r ∷ []) h = absurd (omega arith)
be_uint64_total (x ∷ y ∷ z ∷ w ∷ p ∷ q ∷ r ∷ s ∷ b) h = (join64 x y z w p q r s, refl)

pub get_elem?_total : (b : Bytes) (i : ℕ) → i < length b → (v : ℕ) × (get_elem? b i ≡ some v)
get_elem?_total [] i h = absurd (omega arith)
get_elem?_total (x ∷ b) zero h = (x, refl)
get_elem?_total (x ∷ b) (suc i) h = get_elem?_total b i (omega arith)
