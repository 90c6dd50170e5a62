-- ===== src/Msgp/Stream/Strings.antt =====
-- msgp/read.go: ReadString, ReadStringAsBytes and ReadBytes, against the functions of
-- msgp/read_bytes.go.
use truepack.Prelude.{
  ℕ, ◌≡◌, refl, ap, ◌∙◌, inl, inr, Bool, true, false, Option, none, some, [], ◌∷◌, arith, ◌==◌,
  if◌then◌else◌, ◌>>=◌, le→ltb, Bool-cases, length,
}
use mathlib.Core.Path.{subst}
use truepack.Msgp.Nilbits.{NilBitsStack, is_always_nil}
use truepack.Msgp.Read.{
  Read, ok, fail, nil_guard, need, sized, bytes_data, read_bytes_bytes_zc, read_bytes_bytes,
  string_body, read_string_zc, read_string_as_bytes,
}
use truepack.Msgp.Slice.{Slice, go_append}
use truepack.Msgp.Stream.{FwdReader, Reader, io_error, at, Step, received, peek}
use truepack.Msgp.Stream.Blobs.{
  read_into, bytes_peeked, read_bytes, stream_string_as_bytes, string_fill, read_string,
}
use truepack.Msgp.Stream.Guard.{guard-Agrees, by_lead-Agrees}
use truepack.Msgp.Stream.Laws.{IsStream, Agrees, if-Agrees, Fails-Agrees, refuse-Agrees}
use truepack.Msgp.Stream.Prefix.{be_uint16-take, be_uint32-take}
use truepack.Msgp.Stream.Sized.{
  bytes_data-string_data, sized-Agrees, after_skip-Agrees, str-Agrees, string_fill-Agrees,
  read_into-Agrees,
}
use truepack.Msgp.Wire.{
  mnil, mbin8, mbin16, mbin32, bad_prefix, Bytes, bin_type, Error, err_short_bytes,
}

nil_guard_twice :
    {A : Type 0} (nbs : Option NilBitsStack) (b : Bytes) (v : A) (r : Read A)
    (g : A × Bytes × Option Error → Read A)
    → ((o : Bytes) → g (v, o, none) ≡ ok v o)
    → nil_guard nbs b v (nil_guard nbs b v r >>= g) ≡ nil_guard nbs b v (r >>= g)
unfolding nil_guard
nil_guard_twice nbs [] v r g h = elim (Bool-cases (is_always_nil nbs)) [
  | inl a ↦ rw a refl
  | inr a ↦ rw a refl
]
nil_guard_twice nbs (x ∷ b) v r g h = elim (Bool-cases (is_always_nil nbs)) [
  | inl a ↦ rw a refl
  | inr a ↦ elim (Bool-cases (x == mnil)) [ inl c ↦ rw (a, c) refl | inr c ↦ rw (a, c) refl ]
]

string_body_end : string_body [] ≡ fail [] [] err_short_bytes
unfolding string_body
string_body_end = refl

abbrev pub StringsAgree :
    {S E : Type 0} (f : FwdReader S E) (rest : S → Bytes) (nbs : Option NilBitsStack) (m : Reader S)
    (scratch : Slice)
    → Type 0
StringsAgree f rest nbs m scratch =
    Agrees rest m (read_string_zc nbs (rest m.r)) (read_string f m)
    × Agrees rest m (read_string_as_bytes nbs (rest m.r) scratch)
        (stream_string_as_bytes f m scratch)
    × Agrees rest m (read_bytes_bytes nbs (rest m.r) scratch) (read_bytes f m scratch)

module _ {S E : Type 0} (f : FwdReader S E) (rest : S → Bytes) (law : IsStream f rest) where
  module _ (m : Reader S) where
    either-Agrees :
        {A : Type 0} (c : Bool) (r r' : Read A) (t : Step S E A)
        → Agrees rest m r t
        → Agrees rest m r' t
        → Agrees rest m (if c then r else r') t
    either-Agrees true r r' t h h' = h
    either-Agrees false r r' t h h' = h'

    no_header-Agrees :
        (x : ℕ) (scratch : Slice) (e : E) (m' : Reader S)
        → Agrees rest m
            (read_bytes_bytes_zc (x ∷ []) scratch false)
            (some ([], some (io_error e), m'))
    unfolding read_bytes_bytes_zc sized need
    no_header-Agrees x scratch e m' =
        either-Agrees (x == mbin8) _ _ _ (Fails-Agrees rest m [] [] _ [] (io_error e) m') (
          either-Agrees (x == mbin16) _ _ _ (Fails-Agrees rest m [] [] _ [] (io_error e) m') (
            either-Agrees (x == mbin32) _ _ _ (Fails-Agrees rest m [] [] _ [] (io_error e) m')
              (Fails-Agrees rest m [] [] _ [] (io_error e) m')))

    bytes_fill-Agrees :
        (scratch : Slice) (s : S) (read : ℕ)
        → Agrees rest m (bytes_data scratch false read (rest s)) (read_into f scratch (at m s) read)
    bytes_fill-Agrees scratch s read =
        rw (bytes_data-string_data scratch read (rest s))
          (read_into-Agrees f rest law m scratch s read)

    bytes-Agrees :
        (scratch : Slice) (b : Bytes) (s : S)
        → rest s ≡ b
        → Agrees rest m
            (read_bytes_bytes_zc b scratch false)
            (peek f (at m s) 2 [] (bytes_peeked f scratch))
    unfolding read_bytes_bytes_zc peek received bytes_peeked sized need
    bytes-Agrees scratch [] s e =
        let (x, s', q, _, _) = law.peek_short s 2 (rw e (omega arith)) in
        rw q (Fails-Agrees rest m [] [] err_short_bytes [] (io_error x) (at m s'))
    bytes-Agrees scratch (x ∷ []) s e =
        let (x', s', q, _, _) = law.peek_short s 2 (rw e (omega arith)) in
        rw q (no_header-Agrees x scratch x' (at m s'))
    bytes-Agrees scratch (x ∷ y ∷ t) s e =
        let (s', q, l) = law.peek_all s 2 (rw e (omega arith)) in
        rw (q, e)
          (if-Agrees rest m (x == mbin8) _ _ _ _
            (rw (le→ltb (length (x ∷ y ∷ t)) 2 (omega arith)) (
              after_skip-Agrees f rest law m s' (x ∷ y ∷ t) 2 (bytes_data scratch false y)
                (λ m'. read_into f scratch m' y) (l ∙ e) (omega arith)
                (λ s2. bytes_fill-Agrees scratch s2 y)))
            (if-Agrees rest m (x == mbin16) _ _ _ _
              (sized-Agrees f rest law m s' (x ∷ y ∷ t) 3 _ _ (bytes_data scratch false)
                (read_into f scratch) (l ∙ e) (be_uint16-take 2 (y ∷ t) (omega arith))
                (bytes_fill-Agrees scratch))
              (if-Agrees rest m (x == mbin32) _ _ _ _
                (sized-Agrees f rest law m s' (x ∷ y ∷ t) 5 _ _ (bytes_data scratch false)
                  (read_into f scratch) (l ∙ e) (be_uint32-take 4 (y ∷ t) (omega arith))
                  (bytes_fill-Agrees scratch))
                (refuse-Agrees E rest m (at m s') [] [] [] (bad_prefix bin_type x)
                  (bad_prefix bin_type x)))))

    -- The same result, passed on.
    passed-Agrees :
        (r : Read Bytes) (t : Step S E Bytes)
        → Agrees rest m r t
        → Agrees rest m (r >>= λ (v, o, err). some (v, o, err)) t
    unfolding Agrees
    passed-Agrees none t h = h
    passed-Agrees (some (v, o, none)) t h = h
    passed-Agrees (some (v, o, some e)) t h = h

  module _ (nbs : Option NilBitsStack) (m : Reader S) (a : is_always_nil nbs ≡ m.always_nil) where
    -- Each of ReadString, ReadStringAsBytes and ReadBytes of the
    -- Reader agrees with the function of the same object on the bytes that the stream still delivers,
    -- nils being simulated by both or by neither, over a fwd.Reader that keeps its contract: both
    -- panic, both fail, or both find the same value with the same bytes behind it,
    -- whatever the buffer that the caller lends.
    pub read_strings-Agree : (scratch : Slice) → StringsAgree f rest nbs m scratch
    unfolding read_string_zc read_string read_string_as_bytes go_append stream_string_as_bytes
        read_bytes_bytes read_bytes
    read_strings-Agree scratch = (
      by_lead-Agrees f rest law nbs m [] string_body [] [] err_short_bytes _ a string_body_end
          (str-Agrees f rest law m (string_fill f) (string_fill-Agrees f rest law m)),
      rw
          (nil_guard_twice nbs (rest m.r) [] (string_body (rest m.r))
            (λ (v, o, err). some (v, o, err)) (λ o. refl))
          (by_lead-Agrees f rest law nbs m []
            (λ b. string_body b >>= λ (v, o, err). some (v, o, err)) [] [] err_short_bytes _ a
            (ap (λ r. r >>= λ (v, o, err). some (v, o, err)) string_body_end)
            (λ lead t s e. passed-Agrees m _ _ (
              str-Agrees f rest law m (read_into f scratch) (read_into-Agrees f rest law m scratch)
                lead t s e))),
      guard-Agrees f rest law nbs m [] _ _ a (λ s e.
          subst
            (λ b.
              Agrees rest m (read_bytes_bytes_zc b scratch false)
                (peek f (at m s) 2 [] (bytes_peeked f scratch)))
            e (bytes-Agrees m scratch (rest s) s refl)),
    )
