-- ===== src/Msgp/Stream/Laws.antt =====
-- msgp/read.go: what the Reader relies on in the fwd.Reader, and what it means that a method of the
-- Reader agrees with the function of msgp/read_bytes.go that reads the same object off a slice.
use truepack.Prelude.{
  ℕ, ◌≤◌, ◌<◌, ◌≡◌, refl, inl, inr, Bool, true, false, not, Option, none, some, if◌then◌else◌,
  ◌>>=◌, lt→ltb, le→ltb, lt_or_ge, length, take, drop, slice_from-drop,
}
use truepack.Msgp.Read.{Read, ok, fail, need, take_value}
use truepack.Msgp.Stream.{
  FwdReader, Reader, StreamError, io_error, msgp_error, at, Step, refuse, received, next,
  next_value, after_skip, skip_return,
}
use truepack.Msgp.Wire.{Bytes, Error}

-- `rest s` is what the fwd.Reader still delivers, buffered or not, before the end of the file. Peek
-- does not advance, and gives a shorter slice with an error only; with Next a short read leaves the
-- position as it is; Skip and ReadFull, short of bytes, return an error; Buffered counts bytes that
-- are to be delivered. The io.Reader below is no io.Seeker: with one, Skip goes by Seek, which may
-- pass the end without an error.
pub record IsStream {S E : Type 0} (f : FwdReader S E) (rest : S → Bytes) : Type 0 where
  pub peek_all :
      (s : S) (n : ℕ)
      → n ≤ length (rest s)
      → (s' : S) × (f.peek_bytes s n ≡ (take n (rest s), none, s')) × (rest s' ≡ rest s)
  pub peek_short :
      (s : S) (n : ℕ)
      → length (rest s) < n
      → (e : E) × (s' : S) × (f.peek_bytes s n ≡ (rest s, some e, s'))
        × (rest s' ≡ rest s)
        × (f.is_eof e ≡ true)
  pub next_all :
      (s : S) (n : ℕ)
      → n ≤ length (rest s)
      → (s' : S) × (f.next_bytes s n ≡ (take n (rest s), none, s')) × (rest s' ≡ drop n (rest s))
  pub next_short :
      (s : S) (n : ℕ)
      → length (rest s) < n
      → (p : Bytes) × (e : E) × (s' : S) × (f.next_bytes s n ≡ (p, some e, s')) × (rest s' ≡ rest s)
  pub skip_all_of :
      (s : S) (n : ℕ)
      → n ≤ length (rest s)
      → (s' : S) × (f.skip_bytes_of s n ≡ (none, s')) × (rest s' ≡ drop n (rest s))
  pub skip_short :
      (s : S) (n : ℕ)
      → length (rest s) < n
      → (e : E) × (s' : S) × (f.skip_bytes_of s n ≡ (some e, s'))
  pub full_all :
      (s : S) (p : Bytes)
      → length p ≤ length (rest s)
      → (s' : S) × (f.read_full_bytes s p ≡ (take (length p) (rest s), none, s'))
        × (rest s' ≡ drop (length p) (rest s))
  pub buffered_within : (s : S) → f.buffered_of s ≤ length (rest s)
  pub full_short :
      (s : S) (p : Bytes)
      → length (rest s) < length p
      → (p' : Bytes) × (e : E) × (s' : S) × (f.read_full_bytes s p ≡ (p', some e, s'))

-- An error is returned.
abbrev pub Fails : {S E A : Type 0} → Step S E A → Type 0
Fails {S} {E} {A} t = (v : A) × (e : StreamError E) × (m : Reader S) × (t ≡ some (v, some e, m))

module _ {S E : Type 0} (rest : S → Bytes) (m : Reader S) where
  -- A panic, a value with what is left behind it, or an error, on both sides. Only the fwd.Reader of
  -- `m` changes.
  unfoldable pub Agrees : {A : Type 0} → Read A → Step S E A → Type 0
  Agrees none t = t ≡ none
  Agrees (some (v, o, none)) t = (s : S) × (t ≡ some (v, none, at m s)) × (rest s ≡ o)
  Agrees (some (v, o, some e)) t = Fails t

  pub if-Agrees :
      {A : Type 0} (c : Bool) (r r' : Read A) (t t' : Step S E A)
      → Agrees r t
      → Agrees r' t'
      → Agrees (if c then r else r') (if c then t else t')
  if-Agrees true r r' t t' h h' = h
  if-Agrees false r r' t t' h h' = h'

  -- The Reader tests for the opposite.
  pub if_not-Agrees :
      {A : Type 0} (c : Bool) (r r' : Read A) (t t' : Step S E A)
      → Agrees r t
      → Agrees r' t'
      → Agrees (if c then r else r') (if not c then t' else t)
  if_not-Agrees true r r' t t' h h' = h
  if_not-Agrees false r r' t t' h h' = h'

pub Fails-Agrees :
    {S E A : Type 0} (rest : S → Bytes) (m : Reader S) (v : A) (o : Bytes) (e : Error) (w : A)
    (x : StreamError E) (m' : Reader S)
    → Agrees rest m (fail v o e) (some (w, some x, m'))
unfolding Agrees
Fails-Agrees rest m v o e w x m' = (w, x, m', refl)

-- A refusal by both.
pub refuse-Agrees :
    {S A : Type 0} (E : Type 0) (rest : S → Bytes) (m m' : Reader S) (v w : A) (o : Bytes)
    (e e' : Error)
    → Agrees rest m (fail v o e) (refuse {S = S} {E = E} m' w e')
unfolding Agrees
refuse-Agrees E rest m m' v w o e e' = (w, msgp_error e', m', refl)

module _ {S E : Type 0} (f : FwdReader S E) (rest : S → Bytes) (law : IsStream f rest) where
  module _ (m : Reader S) where
    pub skip_return-Agrees :
        {A : Type 0} (s : S) (n : ℕ) (v : A)
        → n ≤ length (rest s)
        → Agrees rest m (ok v (drop n (rest s))) (skip_return f (at m s) n v)
    unfolding Agrees skip_return after_skip
    skip_return-Agrees s n v h = let (s', e, l) = law.skip_all_of s n h in (s', rw e refl, l)

    next_value_found :
        {A : Type 0} (x : Option A) (s : S) (o : Bytes)
        → rest s ≡ o
        → Agrees {E = E} rest m (x >>= λ v. ok v o) (x >>= λ v. some (v, none, at m s))
    unfolding Agrees
    next_value_found none s o e = refl
    next_value_found (some v) s o e = (s, refl, e)

    -- `need`, and what a getter finds in the bytes, against the Next of as many.
    pub next_value-Agrees :
        {A : Type 0} (s : S) (n : ℕ) (empty : A) (x : Option A) (get : Bytes → Option A)
        → get (take n (rest s)) ≡ x
        → Agrees rest m
            (need (rest s) n empty (take_value x (rest s) n))
            (next_value f (at m s) n empty get)
    unfolding Agrees need take_value next_value next received
    next_value-Agrees s n empty x get e = elim (lt_or_ge (length (rest s)) n) [
      | inl h ↦
          let (p, x', s', e', l) = law.next_short s n h in
          rw (e', lt→ltb _ _ h) (empty, io_error x', at m s', refl)
      | inr h ↦
          let (s', e', l) = law.next_all s n h in
          rw (e', le→ltb _ _ h, slice_from-drop (rest s) n h, e)
            (next_value_found x s' (drop n (rest s)) l)
    ]
