-- ===== src/Msgp/Stream/Sizes.antt =====
-- msgp/read.go: the two ways in which Skip finds the size of the next object, getSize on five bytes
-- that are buffered and getNextSize, against getSize on all that the stream still delivers.
use truepack.Prelude.{
  ℕ, suc, ◌+◌, ◌≤◌, ◌≡◌, refl, ◌∙◌, inl, inr, false, Option, none, some, [], ◌∷◌, arith, leb, ◌==◌,
  ◌>>=◌, leb→le, lt→ltb, le→ltb, le→leb, Bool-cases, lt_or_ge, length, length-take,
}
use truepack.Msgp.Integers.{be_uint32}
use truepack.Msgp.Read.{Read}
use truepack.Msgp.Skip.{size_by_mode, is_elements, get_size}
use truepack.Msgp.Skip.Tables.{sizes-is_wide}
use truepack.Msgp.Stream.{FwdReader, Reader, io_error, msgp_error, at, received, peek}
use truepack.Msgp.Stream.Fits.{elements_size, get_size-take, four_behind, whole_prefix}
use truepack.Msgp.Stream.Laws.{IsStream, Agrees, Fails-Agrees, refuse-Agrees}
use truepack.Msgp.Stream.Skips.{sizes_of, size_by_lead, get_next_size, object_size, skip_object}
use truepack.Msgp.Wire.{mext32, sizes, Bytes, Error, err_short_bytes}

-- getSize, as a reader that takes nothing.
abbrev pub sized_read : Bytes → Read (ℕ × ℕ)
sized_read b = get_size b >>= λ (v, o, err). some ((v, o), b, err)

module _ {S E : Type 0} (f : FwdReader S E) (rest : S → Bytes) (law : IsStream f rest) where
  module _ (m : Reader S) where
    sizes_of-Agrees :
        (r : Option (ℕ × ℕ × Option Error)) (s : S) (b : Bytes)
        → rest s ≡ b
        → Agrees {E = E} rest m (r >>= λ (v, o, err). some ((v, o), b, err)) (sizes_of (at m s) r)
    unfolding sizes_of Agrees
    sizes_of-Agrees none s b e = refl
    sizes_of-Agrees (some (v, o, none)) s b e = (s, refl, e)
    sizes_of-Agrees (some (v, o, some x)) s b e = ((v, o), msgp_error x, at m s, refl)

    -- getNextSize.
    size_by_lead-Agrees :
        (lead : ℕ) (t : Bytes) (s : S)
        → rest s ≡ lead ∷ t
        → Agrees rest m (sized_read (lead ∷ t)) (size_by_lead f lead (at m s))
    unfolding get_size size_by_lead peek received
    size_by_lead-Agrees lead t s e = elim (Bool-cases ((sizes lead).size == 0)) [
      | inl z ↦ rw z (refuse-Agrees E rest m (at m s) _ _ _ _ _)
      | inr z ↦ elim (Bool-cases (is_elements (sizes lead).extra)) [
        | inl d ↦
            rw (z, d, elements_size (sizes lead).size (sizes lead).extra lead t [] d)
              (sizes_of-Agrees _ s (lead ∷ t) e)
        | inr d ↦
            rw (z, d)
              (elim (lt_or_ge (length (lead ∷ t)) (sizes lead).size) [
                | inl l ↦
                    let (x, s', q, _, _) = law.peek_short s (sizes lead).size (rw e l) in
                    rw (q, lt→ltb _ _ l)
                      (Fails-Agrees rest m (0, 0) (lead ∷ t) err_short_bytes (0, 0) (io_error x)
                        (at m s'))
                | inr l ↦
                    let (s', q, r) = law.peek_all s (sizes lead).size (rw e l) in
                    rw
                      (
                        q,
                        le→ltb _ _ l,
                        e,
                        whole_prefix (sizes lead).size _ (sizes lead).typ lead t
                            (sizes-is_wide lead) z,
                      )
                      (sizes_of-Agrees _ s' (lead ∷ t) (r ∙ e))
              ])
      ]
    ]

    size_peeked :
        (b : Bytes) (s : S) → rest s ≡ b → Agrees rest m (sized_read b) (get_next_size f (at m s))
    unfolding get_next_size peek received Agrees get_size
    size_peeked [] s e =
        let (x, s', q, _, _) = law.peek_short s 1 (rw e (omega arith)) in
        rw q (Fails-Agrees rest m (0, 0) [] err_short_bytes (0, 0) (io_error x) (at m s'))
    size_peeked (lead ∷ t) s e =
        let (s', q, l) = law.peek_all s 1 (rw e (omega arith)) in
        rw (q, e) (size_by_lead-Agrees lead t s' (l ∙ e))

    pub slow_size-Agrees :
        leb 5 (f.buffered_of m.r) ≡ false → Agrees rest m (sized_read (rest m.r)) (object_size f m)
    unfolding object_size
    slow_size-Agrees h = rw h (size_peeked (rest m.r) m.r refl)

    -- The next object is not one behind an ext 32 prefix. Then the size that Skip goes by is the one
    -- that getSize finds in all that the stream still delivers, whether five bytes of it are buffered
    -- or not, and nothing is taken from the stream yet; where getSize fails, so does Skip.
    pub object_size-Agrees :
        (lead : ℕ) (t : Bytes)
        → rest m.r ≡ lead ∷ t
        → (lead == mext32) ≡ false
        → Agrees rest m (sized_read (rest m.r)) (object_size f m)
    unfolding object_size peek received
    object_size-Agrees lead t e c = elim (Bool-cases (leb 5 (f.buffered_of m.r))) [
      | inl h ↦
          let n : 5 ≤ length (rest m.r) =
            omega (arith, leb→le 5 (f.buffered_of m.r) h, law.buffered_within m.r) in
          let (s', q, l) = law.peek_all m.r 5 n in
          rw (h, q, e, get_size-take lead t c (four_behind lead t _ e n))
            (sizes_of-Agrees (get_size (lead ∷ t)) s' (lead ∷ t) (l ∙ e))
      | inr h ↦ rw h (size_peeked (rest m.r) m.r refl)
    ]

    -- With five bytes buffered, Skip refuses every object behind an ext 32 prefix as too short,
    -- although getSize, on all that the stream still delivers, finds its size.
    pub skip_ext32_buffered :
        (t : Bytes) (n : ℕ) (fuel : ℕ)
        → rest m.r ≡ mext32 ∷ t
        → 5 ≤ length t
        → be_uint32 t ≡ some n
        → 5 ≤ f.buffered_of m.r
        → (get_size (rest m.r) ≡ some (6 + n, 0, none))
          × ((s : S) × (skip_object f (suc fuel) m
                ≡ some (tt, some (msgp_error err_short_bytes), at m s)))
    unfolding get_size is_elements size_by_mode sizes skip_object object_size peek received sizes_of
    skip_ext32_buffered t n fuel e l u b =
        let (s', q, r) = law.peek_all m.r 5 (rw e (omega arith)) in
        (
          rw (e, le→ltb (length (mext32 ∷ t)) 6 (omega arith), u) refl,
          (s', rw (le→leb 5 (f.buffered_of m.r) b, q, e, length-take 4 t (omega arith)) refl),
        )
