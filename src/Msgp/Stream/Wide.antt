-- ===== src/Msgp/Stream/Wide.antt =====
-- msgp/read.go: ReadFloat64, which widens a float32 also where the stream ends within nine bytes,
-- against ReadFloat64Bytes.
use truepack.Prelude.{
  ℕ, ◌<◌, ◌≡◌, refl, ◌∙◌, inl, inr, Bool, true, false, ◌&&◌, Option, some, [], ◌∷◌, arith, leb,
  ◌==◌, if◌then◌else◌, lt→ltb, le→ltb, lt_or_ge, length,
}
use mathlib.Core.Path.{subst}
use truepack.Msgp.Integers.{get_muint64}
use truepack.Msgp.Nilbits.{NilBitsStack, is_always_nil}
use truepack.Msgp.Read.{
  Read, fail, nil_guard, need, take_value, float64_of_float32, float32_body, read_float32_bytes,
  widened, float64_body, read_float64_bytes, read_complex128_bytes, read_complex64_bytes,
  read_time_bytes,
}
use truepack.Msgp.Stream.{FwdReader, Reader, io_error, at, Step}
use truepack.Msgp.Stream.Exts.{read_complex64, read_complex128, read_time}
use truepack.Msgp.Stream.Fixed.{
  read_complex64-Agrees, read_complex128-Agrees, read_time-Agrees, read_float32-Agrees,
}
use truepack.Msgp.Stream.Guard.{guarded-Agrees}
use truepack.Msgp.Stream.Laws.{
  IsStream, Agrees, if-Agrees, if_not-Agrees, Fails-Agrees, refuse-Agrees,
}
use truepack.Msgp.Stream.Narrow.{at-Agrees, mapped-Agrees}
use truepack.Msgp.Stream.Numbers.{read_float32, read_widened, float64_peeked, read_float64}
use truepack.Msgp.Stream.Peeked.{bind-Agrees, end-Agrees}
use truepack.Msgp.Stream.Prefix.{get_muint64-take}
use truepack.Msgp.Wire.{mnil, mfloat32, mfloat64, Bytes, err_short_bytes}

short_float32 :
    (nbs : Option NilBitsStack) (lead : ℕ) (t : Bytes)
    → is_always_nil nbs ≡ false
    → (lead == mfloat32) ≡ true
    → length (lead ∷ t) < 5
    → read_float32_bytes nbs (lead ∷ t) ≡ fail 0 [] err_short_bytes
unfolding read_float32_bytes nil_guard float32_body need
short_float32 nbs lead t n c l =
    let d : (lead == mnil) ≡ false = ground arith in rw (n, d, lt→ltb _ _ l) refl

abbrev pub FixedAgree :
    {S E : Type 0} (f : FwdReader S E) (rest : S → Bytes) (nbs : Option NilBitsStack) (m : Reader S)
    → Type 0
FixedAgree f rest nbs m =
    Agrees rest m (read_float32_bytes nbs (rest m.r)) (read_float32 f m)
    × Agrees rest m (read_float64_bytes nbs (rest m.r)) (read_float64 f m)
    × Agrees rest m (read_complex64_bytes nbs (rest m.r)) (read_complex64 f m)
    × Agrees rest m (read_complex128_bytes nbs (rest m.r)) (read_complex128 f m)
    × Agrees rest m (read_time_bytes nbs (rest m.r)) (read_time f m)

module _ {S E : Type 0} (f : FwdReader S E) (rest : S → Bytes) (law : IsStream f rest) where
  module _ (nbs : Option NilBitsStack) (m : Reader S) (a : is_always_nil nbs ≡ m.always_nil) where
    widened-Agrees :
        (b : Bytes) (s : S)
        → rest s ≡ b
        → Agrees rest m (widened (read_float32_bytes nbs b)) (read_widened f (at m s))
    unfolding widened read_widened
    widened-Agrees b s e = mapped-Agrees rest m float64_of_float32 _ _ (
        at-Agrees rest m s _ _ (
          subst (λ b'. Agrees rest (at m s) (read_float32_bytes nbs b') (read_float32 f (at m s))) e
            (read_float32-Agrees f rest law nbs (at m s) a)))

    -- The tests of the short stream.
    short-Agrees :
        (c5 c32 : Bool) (narrow : Read ℕ) (t : Step S E ℕ) (x : E) (s : S)
        → (c5 ≡ true → c32 ≡ true → Agrees rest m narrow t)
        → (c5 ≡ false → c32 ≡ true → Agrees rest m (fail 0 [] err_short_bytes) t)
        → Agrees rest m
            (if c5 && c32 then narrow else fail 0 [] err_short_bytes)
            (if c32 then t else some (0, some (io_error x), at m s))
    unfolding Agrees
    short-Agrees true true narrow t x s h h' = h refl refl
    short-Agrees false true narrow t x s h h' = h' refl refl
    short-Agrees true false narrow t x s h h' = (0, io_error x, at m s, refl)
    short-Agrees false false narrow t x s h h' = (0, io_error x, at m s, refl)

    module _ (n : is_always_nil nbs ≡ false) (s : S) where
      ends_early :
          (lead : ℕ) (t : Bytes)
          → rest s ≡ lead ∷ t
          → (leb 5 (length (lead ∷ t))) ≡ false
          → (lead == mfloat32) ≡ true
          → Agrees rest m (fail 0 [] err_short_bytes) (read_widened f (at m s))
      unfolding Agrees widened
      ends_early lead t e c5 c =
          subst (λ r. Agrees rest m (widened r) (read_widened f (at m s)))
            (short_float32 nbs lead t n c (ground arith)) (widened-Agrees (lead ∷ t) s e)

    float64-Agrees :
        is_always_nil nbs ≡ false
        → (b : Bytes) (s : S) → rest s ≡ b
        → Agrees rest m (float64_body nbs b) (float64_peeked f (at m s) (f.peek_bytes s 9))
    unfolding float64_body float64_peeked take_value
    float64-Agrees n [] s e =
        let (x, s', q, l, z) = law.peek_short s 9 (rw e (omega arith)) in
        rw (q, e) (Fails-Agrees rest m 0 [] err_short_bytes 0 (io_error x) (at m s'))
    float64-Agrees n (lead ∷ t) s e = elim (lt_or_ge (length (lead ∷ t)) 9) [
      | inl h ↦
          let (x, s', q, l, z) = law.peek_short s 9 (rw e h) in
          rw (q, e, z, lt→ltb _ _ h)
            (short-Agrees (leb 5 (length (lead ∷ t))) (lead == mfloat32) _ _ x s'
              (λ _ _. widened-Agrees (lead ∷ t) s' (l ∙ e))
              (λ c5 c. ends_early n s' lead t (l ∙ e) c5 c))
      | inr h ↦
          let (s', q, l) = law.peek_all s 9 (rw e h) in
          rw (q, e, le→ltb _ _ h, get_muint64-take (lead ∷ t))
            (if_not-Agrees rest m (lead == mfloat64) _ _ _ _
              (bind-Agrees f rest law m (get_muint64 (lead ∷ t)) _ _
                (λ v. end-Agrees f rest law m s' (lead ∷ t) 9 v (l ∙ e) h))
              (if-Agrees rest m (lead == mfloat32) _ _ _ _ (widened-Agrees (lead ∷ t) s' (l ∙ e))
                (refuse-Agrees E rest m (at m s') _ _ _ _ _)))
    ]

    read_float64-Agrees : Agrees rest m (read_float64_bytes nbs (rest m.r)) (read_float64 f m)
    unfolding read_float64_bytes read_float64
    read_float64-Agrees = guarded-Agrees f rest law nbs m 0 _ _ a (λ n s e.
        subst
          (λ b. Agrees rest m (float64_body nbs b) (float64_peeked f (at m s) (f.peek_bytes s 9))) e
          (float64-Agrees n (rest s) s refl))

    -- Each of ReadFloat32, ReadFloat64, ReadComplex64, ReadComplex128 and ReadTime of the
    -- Reader agrees with the function of the same object on the bytes that the stream still delivers,
    -- nils being simulated by both or by neither, over a fwd.Reader that keeps its contract: both
    -- panic, both fail, or both find the same value with the same bytes behind it.
    pub read_fixed-Agree : FixedAgree f rest nbs m
    read_fixed-Agree = (
      read_float32-Agrees f rest law nbs m a,
      read_float64-Agrees,
      read_complex64-Agrees f rest law nbs m a,
      read_complex128-Agrees f rest law nbs m a,
      read_time-Agrees f rest law nbs m a,
    )
