-- ===== src/Msgp/Value/Safety/Loops.antt =====
-- msgp/read_bytes.go: the headers and the loops of ReadIntfBytes and ReadMapStrIntfBytes on any input.
use truepack.Prelude.{
  ℕ, zero, suc, ◌-◌, ◌≤◌, ◌<◌, ◌≡◌, refl, ap, inl, inr, Bool, true, false, Option, none, some, [],
  ◌∷◌, arith, ltb, ◌==◌, if◌then◌else◌, ◌>>=◌, Bool-cases, length, slice_from, length-slice_from,
}
use truepack.Msgp.Extension.{peek_extension}
use truepack.Msgp.Integers.{be_uint16, be_uint32}
use truepack.Msgp.Nilbits.{NilBitsStack}
use truepack.Msgp.Read.{
  Read, ok, fail, need, take_value, nil_slice, map_header_body, array_header_body,
}
use truepack.Msgp.Safety.Blobs.{read_blob-Safe}
use truepack.Msgp.Safety.Rules.{EndsIn, Safe, if-Safe, then-Safe, get_elem?_total}
use truepack.Msgp.Skip.{is_extension, is_constsize}
use truepack.Msgp.Skip.Total.{ends_trans, ends_le}
use truepack.Msgp.Skip.Types.{extension_size}
use truepack.Msgp.Value.{Value, no_values, value_more, Entries}
use truepack.Msgp.Value.Read.{put_entry, nil_values, as_value, read_values, read_entries}
use truepack.Msgp.Wire.{
  marray16, marray32, mmap16, mmap32, sizes, bad_prefix, Bytes, isfixmap, isfixarray, rfixmap,
  rfixarray, extension_type, Error, err_short_bytes,
}

-- What a reader that succeeds leaves is shorter than its input.
abbrev pub Shortens : {A : Type 0} → Bytes → Read A → Type 0
Shortens {A} b r = (v : A) (o : Bytes) → r ≡ some (v, o, none) → length o < length b

module _ {A : Type 0} (b : Bytes) where
  if_Shortens :
      {x y : Read A} (c : Bool) → Shortens b x → Shortens b y → Shortens b (if c then x else y)
  if_Shortens true p q = p
  if_Shortens false p q = q

  fail-Shortens : (v : A) (o : Bytes) (e : Error) → Shortens b (fail v o e)
  fail-Shortens v o e v' o' q = cc

  field_Shortens :
      (x : Option A) (n : ℕ) (v : A) → 1 ≤ n → Shortens b (need b n v (take_value x b n))
  unfolding need take_value
  field_Shortens x n v h =
      if_Shortens (ltb (length b) n) (fail-Shortens v [] err_short_bytes) (taken x)
    where
      sliced : (w : A) (s : Option Bytes) → slice_from b n ≡ s → Shortens b (s >>= λ o. ok w o)
      sliced w none e v' o' q = cc
      sliced w (some o) e v' o' q =
          let same : o ≡ o' = cc in omega (arith, length-slice_from b n o e, ap length same)

      taken : (x : Option A) → Shortens b (x >>= λ w. slice_from b n >>= λ o. ok w o)
      taken none v' o' q = cc
      taken (some w) v' o' q = sliced w (slice_from b n) refl v' o' q

pub header_Shortens :
    (b : Bytes) → Shortens b (map_header_body b) × Shortens b (array_header_body b)
unfolding map_header_body array_header_body
header_Shortens [] = (fail-Shortens [] 0 [] err_short_bytes, fail-Shortens [] 0 [] err_short_bytes)
header_Shortens (lead ∷ t) =
    let b = lead ∷ t in
    (
      if_Shortens b (isfixmap lead) (one_byte (rfixmap lead)) (
          if_Shortens b (lead == mmap16) (field_Shortens b (be_uint16 t) 3 0 (omega arith)) (
            if_Shortens b (lead == mmap32) (field_Shortens b (be_uint32 t) 5 0 (omega arith))
              (fail-Shortens b 0 [] _))),
      if_Shortens b (isfixarray lead) (one_byte (rfixarray lead)) (
          if_Shortens b (lead == marray16) (field_Shortens b (be_uint16 t) 3 0 (omega arith)) (
            if_Shortens b (lead == marray32) (field_Shortens b (be_uint32 t) 5 0 (omega arith))
              (fail-Shortens b 0 [] _))),
    )
  where
    one_byte : (n : ℕ) → Shortens (lead ∷ t) (ok n t)
    one_byte n v' o' q = let same : t ≡ o' = cc in omega (arith, ap length same)

pub peek_extension_total :
    (lead : ℕ) (t : Bytes)
    → (x : ℕ) × (err : Option Error) × (peek_extension (lead ∷ t) ≡ some (x, err))
unfolding peek_extension
peek_extension_total lead t = elim (Bool-cases (is_extension (sizes lead).typ)) [
  | inr e ↦ rw e (0, some (bad_prefix extension_type lead), refl)
  | inl e ↦ elim (Bool-cases (ltb (length (lead ∷ t)) (sizes lead).size)) [
    | inl f ↦ rw (e, f) (0, some err_short_bytes, refl)
    | inr f ↦
        let size = extension_size lead e in
        let long : (sizes lead).size ≤ length (lead ∷ t) = ground (arith, f) in
        let (x, p) = get_elem?_total (lead ∷ t) 1 (omega arith) in
        let (y, q) = get_elem?_total (lead ∷ t) ((sizes lead).size - 1) (omega arith) in
        elim (Bool-cases (is_constsize (sizes lead).extra)) [
          | inl c ↦ rw (e, f, c, p) (x, none, refl)
          | inr c ↦ rw (e, f, c, q) (y, none, refl)
        ]
  ]
]

pub behind-Safe : {A : Type 0} (b b' : Bytes) (r : Read A) → EndsIn b b' → Safe b' r → Safe b r
behind-Safe b b' r q (v, o, e, p, q') = (v, o, e, p, ends_trans b b' o q q')

-- A call that goes on without an error.
pub by_error :
    {A : Type 0} (b : Bytes) (e : Option Error) (x : Read A) (y : Error → Read A)
    → Safe b x
    → ((err : Error) → Safe b (y err))
    → Safe b (elim e [ none ↦ x | some err ↦ y err ])
by_error b none x y p q = p
by_error b (some err) x y p q = q err

pub as_value-Safe :
    {A : Type 0} (b : Bytes) (f : A → Value) (r : Read A) → Safe b r → Safe b (as_value f r)
unfolding as_value
as_value-Safe b f r p = then-Safe b _ p (λ v o e q. (f v, o, e, refl, q))

-- The reader of the parts is safe on inputs of at most `k` bytes.
module _ (nbs : Option NilBitsStack) (read : Bytes → Read Value) (k : ℕ)
    (parts : (o : Bytes) → length o ≤ k → Safe o (read o)) where
  pub read_values-Safe : (n : ℕ) (o : Bytes) → length o ≤ k → Safe o (read_values nbs read n o)
  unfolding read_values
  read_values-Safe zero o h = (no_values, o, none, refl, ([], refl))
  read_values-Safe (suc n) o h = then-Safe o _ (parts o h) (λ v o' e q.
      by_error o e _ _
        (behind-Safe o o' _ q (
          then-Safe o' _ (read_values-Safe n o' (omega (arith, ends_le o o' q)))
            (λ vs o'' e' q'. (value_more v vs, o'', e', refl, q'))))
        (λ x. (value_more v (nil_values n), o', some x, refl, q)))

  pub read_entries-Safe :
      (n : ℕ) (es : Entries) (o : Bytes) → length o ≤ k → Safe o (read_entries nbs read n es o)
  unfolding read_entries
  read_entries-Safe zero es o h = (es, o, none, refl, ([], refl))
  read_entries-Safe (suc n) es o h =
      if-Safe o (ltb (length o) 1) (es, o, some err_short_bytes, refl, ([], refl))
        (then-Safe o _ (read_blob-Safe nbs o [] nil_slice).6 (λ key o' e q.
          by_error o e _ _
            (behind-Safe o o' _ q (
              then-Safe o' _ (parts o' (omega (arith, ends_le o o' q))) (λ val o'' e' q'.
                by_error o' e' _ _
                  (behind-Safe o' o'' _ q' (
                    read_entries-Safe n (put_entry key val es) o''
                      (omega (arith, ends_le o o' q, ends_le o' o'' q'))))
                  (λ x. (es, o'', some x, refl, q')))))
            (λ x. (es, o', some x, refl, q))))

  -- A header that was read is gone from the input.
  pub counted-Safe :
      {A : Type 0} (b : Bytes) (r : Read ℕ) (bad : Bytes → Error → Read A)
      (loop : ℕ → Bytes → Read A)
      → length b ≤ suc k
      → Safe b r
      → Shortens b r
      → ((o : Bytes) (e : Error) → EndsIn b o → Safe b (bad o e))
      → ((n : ℕ) (o : Bytes) → length o ≤ k → Safe o (loop n o))
      → Safe b (r >>= λ (sz, o, err). elim err [ some e ↦ bad o e | none ↦ loop sz o ])
  counted-Safe b r bad loop h (n, o, none, p, q) short f g =
      rw p (behind-Safe b o _ q (g n o (omega (arith, short n o p))))
  counted-Safe b r bad loop h (n, o, some e, p, q) short f g = rw p (f o e q)
