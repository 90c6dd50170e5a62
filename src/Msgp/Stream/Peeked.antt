-- ===== src/Msgp/Stream/Peeked.antt =====
-- msgp/read.go: the steps of the Reader's methods that look at the whole object before they skip it,
-- against those of msgp/read_bytes.go.
-- A value that is found from the offset `n` on is found in the first `k` bytes there.
use truepack.Prelude.{
  ℕ, zero, suc, ◌+◌, ◌≤◌, ◌≡◌, refl, ap, ◌∙◌, inl, inr, Bool, true, false, not, ◌&&◌, ◌||◌, Option,
  none, some, [], ◌∷◌, arith, if◌then◌else◌, ◌>>=◌, lt→ltb, le→ltb, lt_or_ge, length, take, drop,
  slice_from, slice_from-drop,
}
use mathlib.Core.Path.{subst}
use truepack.Msgp.Read.{Read, ok, need}
use truepack.Msgp.Stream.{FwdReader, Reader, io_error, at, Step, received, peek, skip_return}
use truepack.Msgp.Stream.Laws.{IsStream, Agrees, skip_return-Agrees}
use truepack.Msgp.Wire.{Bytes}

field-take :
    {A : Type 0} (n k l : ℕ) (b : Bytes) (g : Bytes → Option A)
    → l ≡ n + k
    → ((c : Bytes) → g (take k c) ≡ g c)
    → (slice_from (take l b) n >>= g) ≡ (slice_from b n >>= g)
field-take zero k l b g e h = ap (λ l'. g (take l' b)) (omega arith) ∙ h b
field-take (suc n) k zero b g e h = absurd (omega arith)
field-take (suc n) k (suc l) [] g e h = refl
field-take (suc n) k (suc l) (x ∷ b) g e h = field-take n k l b g (omega arith) h

module _ {S E : Type 0} (f : FwdReader S E) (rest : S → Bytes) (law : IsStream f rest) where
  module _ (m : Reader S) where
    pub bind-Agrees :
        {A B : Type 0} (x : Option B) (k : B → Read A) (k' : B → Step S E A)
        → ((v : B) → Agrees rest m (k v) (k' v))
        → Agrees rest m (x >>= k) (x >>= k')
    unfolding Agrees
    bind-Agrees none k k' h = refl
    bind-Agrees (some v) k k' h = h v

    -- A Peek of `n` bytes where the reader of slices needs as many.
    pub peek-Agrees :
        {A : Type 0} (s : S) (n : ℕ) (empty : A) (r : Read A) (k : Bytes → Reader S → Step S E A)
        → (n ≤ length (rest s)
            → (s' : S) → rest s' ≡ rest s
            → Agrees rest m r (k (take n (rest s)) (at m s')))
        → Agrees rest m (need (rest s) n empty r) (peek f (at m s) n empty k)
    unfolding Agrees need peek received
    peek-Agrees s n empty r k h = elim (lt_or_ge (length (rest s)) n) [
      | inl l ↦
          let (e, s', q, _, _) = law.peek_short s n l in
          rw (q, lt→ltb _ _ l) (empty, io_error e, at m s', refl)
      | inr l ↦ let (s', q, l') = law.peek_all s n l in rw (q, le→ltb _ _ l) (h l s' l')
    ]

    -- The return of a value with a Skip over the `n` bytes that held it.
    pub end-Agrees :
        {A : Type 0} (s : S) (b : Bytes) (n : ℕ) (v : A)
        → rest s ≡ b
        → n ≤ length b
        → Agrees rest m (slice_from b n >>= λ o. ok v o) (skip_return f (at m s) n v)
    end-Agrees s b n v e l = rw (slice_from-drop b n l) (
        subst (λ b'. Agrees rest m (ok v (drop n b')) (skip_return f (at m s) n v)) e
          (skip_return-Agrees f rest law m s n v (rw e l)))

    -- A value of the first `l` bytes, from the offset `n` on, is the one of the whole slice.
    pub field-Agrees :
        {A B : Type 0} (n k l : ℕ) (b : Bytes) (g : Bytes → Option B) (kr : B → Read A)
        (kt : B → Step S E A)
        → l ≡ n + k
        → ((c : Bytes) → g (take k c) ≡ g c)
        → ((v : B) → Agrees rest m (kr v) (kt v))
        → Agrees rest m
            (slice_from b n >>= λ c. g c >>= kr)
            (slice_from (take l b) n >>= λ c. g c >>= kt)
    field-Agrees n k l b g kr kt e h q =
        rw (field-take n k l b (λ c. g c >>= kt) e (λ c. ap (λ x. x >>= kt) (h c)))
          (bind-Agrees (slice_from b n) _ _ (λ c. bind-Agrees (g c) kr kt q))

    pub if_or-Agrees :
        {A : Type 0} (c d : Bool) (r r' : Read A) (t t' : Step S E A)
        → Agrees rest m r t
        → Agrees rest m r' t'
        → Agrees rest m (if c && d then r else r') (if not c || not d then t' else t)
    if_or-Agrees true true r r' t t' h h' = h
    if_or-Agrees true false r r' t t' h h' = h'
    if_or-Agrees false d r r' t t' h h' = h'
