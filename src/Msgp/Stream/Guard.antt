-- ===== src/Msgp/Stream/Guard.antt =====
-- msgp/read.go: the test for a nil at the head of the Reader's methods, and the look at the lead byte,
-- against those of the readers of slices.
use truepack.Prelude.{
  ℕ, ◌≡◌, refl, ap, ◌∙◌, inl, inr, true, false, Option, some, [], ◌∷◌, arith, ◌==◌, ◌>>=◌,
  Bool-cases, drop, get_elem?,
}
use truepack.Msgp.Nilbits.{NilBitsStack, is_always_nil}
use truepack.Msgp.Read.{Read, ok, fail, nil_guard}
use truepack.Msgp.Stream.{
  FwdReader, Reader, io_error, at, Step, received, peek, skip_over, nil_peeked,
  check_and_consume_nil, guard, by_lead,
}
use truepack.Msgp.Stream.Laws.{IsStream, Agrees}
use truepack.Msgp.Wire.{mnil, Bytes, Error}

nil_guard_always :
    {A : Type 0} (nbs : Option NilBitsStack) (b : Bytes) (empty : A) (r : Read A)
    → is_always_nil nbs ≡ true
    → nil_guard nbs b empty r ≡ ok empty b
unfolding nil_guard
nil_guard_always nbs [] empty r a = rw a refl
nil_guard_always nbs (x ∷ b) empty r a = rw a refl

module _ {S E : Type 0} (f : FwdReader S E) (rest : S → Bytes) (law : IsStream f rest) where
  module _ (m : Reader S) (a : m.always_nil ≡ false) where
    check_end :
        rest m.r ≡ []
        → (s : S) × (check_and_consume_nil f m ≡ some (false, at m s)) × (rest s ≡ rest m.r)
    unfolding check_and_consume_nil nil_peeked
    check_end e =
        let (x, s, e', l, _) = law.peek_short m.r 1 (rw e (omega arith)) in (s, rw (a, e') refl, l)

    check_nil :
        (x : ℕ) (t : Bytes)
        → rest m.r ≡ x ∷ t
        → (x == mnil) ≡ true
        → (s : S) × (check_and_consume_nil f m ≡ some (true, at m s)) × (rest s ≡ t)
    unfolding check_and_consume_nil nil_peeked skip_over
    check_nil x t e c =
        let (s, e', l) = law.peek_all m.r 1 (rw e (omega arith)) in
        let (s', e'', l') = law.skip_all_of s 1 (rw (l, e) (omega arith)) in
        (s', rw (a, e', e, c, e'') refl, l' ∙ ap (drop 1) (l ∙ e))

    check_other :
        (x : ℕ) (t : Bytes)
        → rest m.r ≡ x ∷ t
        → (x == mnil) ≡ false
        → (s : S) × (check_and_consume_nil f m ≡ some (false, at m s)) × (rest s ≡ rest m.r)
    unfolding check_and_consume_nil nil_peeked
    check_other x t e c =
        let (s, e', l) = law.peek_all m.r 1 (rw e (omega arith)) in (s, rw (a, e', e, c) refl, l)

  module _ {A : Type 0} (nbs : Option NilBitsStack) (m : Reader S) (empty : A) where
    not_nil-Agrees :
        (b : Bytes) (r : Read A) (k : Reader S → Step S E A)
        → rest m.r ≡ b
        → is_always_nil nbs ≡ false
        → m.always_nil ≡ false
        → ((s : S) → rest s ≡ rest m.r → Agrees rest m r (k (at m s)))
        → Agrees rest m (nil_guard nbs b empty r) (guard f m empty k)
    unfolding Agrees nil_guard guard
    not_nil-Agrees [] r k e a a' h = let (s, c, l) = check_end m a' e in rw (a, c) (h s l)
    not_nil-Agrees (x ∷ t) r k e a a' h = elim (Bool-cases (x == mnil)) [
      | inl n ↦ let (s, c, l) = check_nil m a' x t e n in rw (a, n, c) (s, refl, l)
      | inr n ↦ let (s, c, l) = check_other m a' x t e n in rw (a, n, c) (h s l)
    ]

    always-Agrees :
        (r : Read A) (k : Reader S → Step S E A)
        → is_always_nil nbs ≡ true
        → check_and_consume_nil f m ≡ some (true, m)
        → Agrees rest m (nil_guard nbs (rest m.r) empty r) (guard f m empty k)
    unfolding Agrees guard
    always-Agrees r k a c = rw (nil_guard_always nbs (rest m.r) empty r a, c) (m.r, refl, refl)

    pub guarded-Agrees :
        (r : Read A) (k : Reader S → Step S E A)
        → is_always_nil nbs ≡ m.always_nil
        → (is_always_nil nbs ≡ false → (s : S) → rest s ≡ rest m.r → Agrees rest m r (k (at m s)))
        → Agrees rest m (nil_guard nbs (rest m.r) empty r) (guard f m empty k)
    unfolding check_and_consume_nil
    guarded-Agrees r k a h = elim (Bool-cases m.always_nil) [
      | inl c ↦ always-Agrees r k (a ∙ c) (rw c refl)
      | inr c ↦ not_nil-Agrees (rest m.r) r k refl (a ∙ c) c (h (a ∙ c))
    ]

    pub guard-Agrees :
        (r : Read A) (k : Reader S → Step S E A)
        → is_always_nil nbs ≡ m.always_nil
        → ((s : S) → rest s ≡ rest m.r → Agrees rest m r (k (at m s)))
        → Agrees rest m (nil_guard nbs (rest m.r) empty r) (guard f m empty k)
    guard-Agrees r k a h = guarded-Agrees r k a (λ _. h)

  peeked-Agrees :
      {A : Type 0} (m : Reader S) (empty : A) (body : Bytes → Read A) (v : A) (o : Bytes)
      (x : Error) (k : ℕ → Reader S → Step S E A)
      → body [] ≡ fail v o x
      → ((lead : ℕ) (t : Bytes) (s : S)
          → rest s ≡ lead ∷ t
          → Agrees rest m (body (lead ∷ t)) (k lead (at m s)))
      → (s : S) (b : Bytes) → rest s ≡ b
      → Agrees rest m
          (body b)
          (peek f (at m s) 1 empty (λ p m2. get_elem? p 0 >>= λ lead. k lead m2))
  unfolding Agrees peek received
  peeked-Agrees m empty body v o x k z h s [] e =
      let (e1, s', e', l, _) = law.peek_short s 1 (rw e (omega arith)) in
      rw (z, e') (empty, io_error e1, at m s', refl)
  peeked-Agrees m empty body v o x k z h s (lead ∷ t) e =
      let (s', e', l) = law.peek_all s 1 (rw e (omega arith)) in rw (e', e) (h lead t s' (l ∙ e))

  -- A method that goes by the lead byte, against the body of a reader of slices.
  pub by_lead-Agrees :
      {A : Type 0} (nbs : Option NilBitsStack) (m : Reader S) (empty : A) (body : Bytes → Read A)
      (v : A) (o : Bytes) (x : Error) (k : ℕ → Reader S → Step S E A)
      → is_always_nil nbs ≡ m.always_nil
      → body [] ≡ fail v o x
      → ((lead : ℕ) (t : Bytes) (s : S)
          → rest s ≡ lead ∷ t
          → Agrees rest m (body (lead ∷ t)) (k lead (at m s)))
      → Agrees rest m (nil_guard nbs (rest m.r) empty (body (rest m.r))) (by_lead f m empty k)
  unfolding by_lead
  by_lead-Agrees nbs m empty body v o x k a z h =
      guard-Agrees nbs m empty (body (rest m.r)) _ a
        (λ s e. peeked-Agrees m empty body v o x k z h s (rest m.r) e)
