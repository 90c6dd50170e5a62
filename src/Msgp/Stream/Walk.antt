-- ===== src/Msgp/Stream/Walk.antt =====
-- msgp/read.go: Skip of the Reader, over maps and arrays of any depth, against Skip of
-- msgp/read_bytes.go.
use truepack.Prelude.{
  ℕ, zero, suc, ◌≡◌, refl, sym, ap, ◌∙◌, ◌≢◌, inl, inr, Bool, true, false, not, ◌&&◌, Option, none,
  some, [], ◌∷◌, arith, ltb, ◌==◌, if◌then◌else◌, ◌>>=◌, lt→ltb, le→ltb, Bool-cases, lt_or_ge,
  length, drop, slice_from, slice_from-drop,
}
use mathlib.Core.Bool.{false≢true}
use mathlib.Core.Path.{subst}
use truepack.Msgp.Read.{Read}
use truepack.Msgp.Skip.{get_size, skip_all, skip, skip_bytes}
use truepack.Msgp.Skip.Total.{skip_bytes_total}
use truepack.Msgp.Stream.{
  FwdReader, Reader, StreamError, io_error, at, Step, after_skip, skip_return,
}
use truepack.Msgp.Stream.Laws.{IsStream, Agrees}
use truepack.Msgp.Stream.Narrow.{done-Agrees, at-Agrees}
use truepack.Msgp.Stream.Sizes.{sized_read, slow_size-Agrees, object_size-Agrees}
use truepack.Msgp.Stream.Skips.{object_size, skip_elements, skip_object}
use truepack.Msgp.Wire.{mext32, Bytes, Error, err_short_bytes}

-- Skip of slices, as a reader without a value.
abbrev pub skip_read : Option (Bytes × Option Error) → Read (Unit {0})
skip_read r = r >>= λ (b, err). some (tt, b, err)

-- `o` objects in a row, the first at the front of `b`, that are all `P`: `one` skips one of them.
abbrev AllObjects : (Bytes → Type 0) → (Bytes → Option (Bytes × Option Error)) → ℕ → Bytes → Type 0
AllObjects P one zero b = Unit {0}
AllObjects P one (suc o) b = P b × ((b' : Bytes) → one b ≡ some (b', none) → AllObjects P one o b')

-- Neither the object at the front of `b` nor one in it, at any depth, has an ext 32 prefix.
abbrev NoExt32 : ℕ → Bytes → Type 0
NoExt32 zero b = Unit {0}
NoExt32 (suc fuel) b =
    ((t : Bytes) → b ≢ mext32 ∷ t)
    × ((v o : ℕ)
        → get_size b ≡ some (v, o, none)
        → AllObjects (NoExt32 fuel) (skip fuel) o (drop v b))

-- The test of `o` objects in a row; what is not an object, Skip refuses.
unfoldable all_objects : (Bytes → Bool) → (Bytes → Option (Bytes × Option Error)) → ℕ → Bytes → Bool
all_objects test one zero b = true
all_objects test one (suc o) b = test b && elim (one b) [
  | none ↦ true
  | some (b', err) ↦ elim err [ none ↦ all_objects test one o b' | some e ↦ true ]
]

unfoldable leads_ext32 : Bytes → Bool
leads_ext32 [] = false
leads_ext32 (x ∷ b) = x == mext32

-- NoExt32, as a test.
unfoldable pub no_ext32 : ℕ → Bytes → Bool
unfolding all_objects leads_ext32
no_ext32 zero b = true
no_ext32 (suc fuel) b = not (leads_ext32 b) && elim (get_size b) [
  | none ↦ true
  | some (v, o, err) ↦ elim err [
    | none ↦ all_objects (no_ext32 fuel) (skip fuel) o (drop v b)
    | some e ↦ true
  ]
]

and_split : (c d : Bool) → (c && d) ≡ true → (c ≡ true) × (d ≡ true)
and_split true d h = (refl, h)
and_split false d h = absurd (false≢true h)

all_objects-AllObjects :
    (test : Bytes → Bool) (P : Bytes → Type 0) (one : Bytes → Option (Bytes × Option Error))
    → ((b : Bytes) → test b ≡ true → P b)
    → (o : ℕ) (b : Bytes) → all_objects test one o b ≡ true
    → AllObjects P one o b
unfolding all_objects
all_objects-AllObjects test P one sound zero b h = tt
all_objects-AllObjects test P one sound (suc o) b h =
    let (p, q) = and_split _ _ h in
    (
      sound b p,
      λ b' e. all_objects-AllObjects test P one sound o b' (
          subst
            (λ r.
              elim r as (λ _. Bool) [
                | none ↦ true
                | some (b1, err) ↦ elim err as (λ _. Bool) [
                  | none ↦ all_objects test one o b1
                  | some x ↦ true
                ]
              ]
              ≡ true)
            e q),
    )

no_ext32-lead : (b : Bytes) → not (leads_ext32 b) ≡ true → (t : Bytes) → b ≢ mext32 ∷ t
unfolding leads_ext32
no_ext32-lead b h t e = absurd (false≢true (subst (λ x. not (leads_ext32 x) ≡ true) e h))

no_ext32-NoExt32 : (fuel : ℕ) (b : Bytes) → no_ext32 fuel b ≡ true → NoExt32 fuel b
unfolding no_ext32
no_ext32-NoExt32 zero b h = tt
no_ext32-NoExt32 (suc fuel) b h =
    let (p, q) = and_split _ _ h in
    (
      no_ext32-lead b p,
      λ v o e.
          all_objects-AllObjects (no_ext32 fuel) (NoExt32 fuel) (skip fuel) (no_ext32-NoExt32 fuel)
            o (drop v b)
            (subst
              (λ r.
                elim r as (λ _. Bool) [
                  | none ↦ true
                  | some (v', o', err) ↦ elim err as (λ _. Bool) [
                    | none ↦ all_objects (no_ext32 fuel) (skip fuel) o' (drop v' b)
                    | some x ↦ true
                  ]
                ]
                ≡ true)
              e q),
    )

returned :
    {S E : Type 0} (rest : S → Bytes) (m : Reader S) (o : Bytes) (err : Option Error)
    (t : Step S E (Unit {0}))
    → Agrees rest m (skip_read (some (o, err))) t
    → (x : Unit {0} × Option (StreamError E) × Reader S) × (t ≡ some x)
unfolding Agrees
returned rest m o none t (s, e, _) = (_, e)
returned rest m o (some x) t (v, y, m', e) = (_, e)

module _ {S E : Type 0} (f : FwdReader S E) (rest : S → Bytes) (law : IsStream f rest) where
  module _ (m : Reader S) where
    -- The next element, and the others.
    element-Agrees :
        (one : Reader S → Step S E (Unit {0})) (slice_one : Bytes → Option (Bytes × Option Error))
        (n : ℕ) (r : Option (Bytes × Option Error)) (t : Step S E (Unit {0}))
        → Agrees rest m (skip_read r) t
        → ((s : S)
            → r ≡ some (rest s, none)
            → Agrees rest m
                (skip_read (skip_all slice_one n (rest s)))
                (skip_elements f one n (at m s)))
        → Agrees rest m
            (skip_read (
              r >>= λ (b', err). elim err [
                | none ↦ skip_all slice_one n b'
                | some e ↦ some (b', some e)
              ]))
            (t >>= λ (u, err, m'). elim err [
              | none ↦ skip_elements f one n m'
              | some e ↦ some (tt, some e, m')
            ])
    unfolding Agrees
    element-Agrees one slice_one n none t h k = rw h refl
    element-Agrees one slice_one n (some (b, none)) t (s, q, l) k = rw q (
        subst
          (λ b'.
            Agrees rest m (skip_read (skip_all slice_one n b')) (skip_elements f one n (at m s)))
          l (k s (ap (λ b'. some (b', none)) (sym l))))
    element-Agrees one slice_one n (some (b, some e)) t (u, x, m', q) k = rw q (tt, x, m', refl)

    module _ (P : Bytes → Type 0) (one : Reader S → Step S E (Unit {0}))
        (slice_one : Bytes → Option (Bytes × Option Error))
        (h : (s : S)
          → P (rest s)
          → Agrees rest m (skip_read (slice_one (rest s))) (one (at m s))) where
      elements-Agree :
          (n : ℕ) (s : S)
          → AllObjects P slice_one n (rest s)
          → Agrees rest m
              (skip_read (skip_all slice_one n (rest s)))
              (skip_elements f one n (at m s))
      unfolding skip_all skip_elements
      elements-Agree zero s c = done-Agrees E rest m tt (rest s) s refl
      elements-Agree (suc n) s (p, c) =
          element-Agrees one slice_one n (slice_one (rest s)) (one (at m s)) (h s p)
            (λ s' q. elements-Agree n s' (c (rest s') q))

      -- An object whose size is found, with the elements in it.
      sized_object-Agrees :
          (b : Bytes) (r : Option (ℕ × ℕ × Option Error)) (t : Step S E (ℕ × ℕ))
          → ((v o : ℕ) → r ≡ some (v, o, none) → AllObjects P slice_one o (drop v b))
          → Agrees rest m (r >>= λ (v, o, err). some ((v, o), b, err)) t
          → Agrees rest m
              (skip_read (
                r >>= λ (sz, asz, err). elim err [
                  | none ↦
                      if ltb (length b) sz
                      then some (b, some err_short_bytes)
                      else (slice_from b sz >>= λ b'. skip_all slice_one asz b')
                  | some e ↦ some (b, some e)
                ]))
              (t >>= λ ((v, o), err, m1). elim err [
                | some e ↦ some (tt, some e, m1)
                | none ↦ skip_return f m1 v tt >>= λ (u, err', m2). elim err' [
                  | some e ↦ some (tt, some e, m2)
                  | none ↦ skip_elements f one o m2
                ]
              ])
      unfolding Agrees skip_return after_skip
      sized_object-Agrees b none t c q = rw q refl
      sized_object-Agrees b (some (v, o, none)) t c (s, q, l) = rw q (elim (lt_or_ge (length b) v) [
        | inl k ↦
            let (x, s', e) = law.skip_short s v (rw l k) in
            rw (lt→ltb _ _ k, e) (tt, io_error x, at m s', refl)
        | inr k ↦
            let (s', e, d) = law.skip_all_of s v (rw l k) in
            let at_rest : rest s' ≡ drop v b = d ∙ ap (drop v) l in
            rw (le→ltb _ _ k, e, slice_from-drop b v k)
              (subst
                (λ b'.
                  Agrees rest m (skip_read (skip_all slice_one o b'))
                    (skip_elements f one o (at m s')))
                at_rest
                (elements-Agree o s' (subst (AllObjects P slice_one o) (sym at_rest) (c v o refl))))
      ])
      sized_object-Agrees b (some (v, o, some e)) t c (w, x, m', q) = rw q (tt, x, m', refl)

  any_size-Agrees :
      (m : Reader S) (b : Bytes)
      → rest m.r ≡ b
      → ((t : Bytes) → b ≢ mext32 ∷ t)
      → Agrees rest m (sized_read (rest m.r)) (object_size f m)
  any_size-Agrees m [] e c =
      slow_size-Agrees f rest law m (ground (arith, law.buffered_within m.r, ap length e))
  any_size-Agrees m (lead ∷ t) e c = elim (Bool-cases (lead == mext32)) [
    | inl p ↦ let d : lead ≡ mext32 = ground (arith, p) in absurd (c t (ap (λ x. x ∷ t) d))
    | inr p ↦ object_size-Agrees f rest law m lead t e p
  ]

  skip_object-Agrees :
      (fuel : ℕ) (m : Reader S)
      → NoExt32 fuel (rest m.r)
      → Agrees rest m (skip_read (skip fuel (rest m.r))) (skip_object f fuel m)
  unfolding Agrees skip skip_object
  skip_object-Agrees zero m c = refl
  skip_object-Agrees (suc fuel) m (c, d) =
      sized_object-Agrees m (NoExt32 fuel) (skip_object f fuel) (skip fuel)
        (λ s p. at-Agrees rest m s _ _ (skip_object-Agrees fuel (at m s) p)) (rest m.r)
        (get_size (rest m.r)) (object_size f m) d (any_size-Agrees m (rest m.r) refl c)

  -- Over a fwd.Reader that keeps its contract and whose io.Reader is no io.Seeker: where neither the
  -- next object of the stream nor one in it, at any depth, has an ext 32 prefix, Skip of the Reader
  -- returns, on one unit of fuel more than the stream still delivers bytes, and it agrees with Skip of
  -- slices on these bytes, however many of them are buffered: both skip the same bytes, or both fail.
  pub reader_skip_lem :
      (m : Reader S)
      → no_ext32 (suc (length (rest m.r))) (rest m.r) ≡ true
      → Agrees rest m
          (skip_read (skip_bytes (rest m.r)))
          (skip_object f (suc (length (rest m.r))) m)
        × ((x : Unit {0} × Option (StreamError E) × Reader S) × (skip_object f
                (suc (length (rest m.r)))
                m
              ≡ some x))
  unfolding skip_bytes
  reader_skip_lem m c =
      let h = skip_object-Agrees (suc (length (rest m.r))) m (no_ext32-NoExt32 _ (rest m.r) c) in
      let (o, err, e, _, _) = skip_bytes_total (rest m.r) in
      (
        h,
        returned rest m o err _ (
            subst (λ r. Agrees rest m (skip_read r) (skip_object f (suc (length (rest m.r))) m)) e
              h),
      )
