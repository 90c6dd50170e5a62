-- ===== src/Msgp/Edit/Header.antt =====
-- msgp/edit.go on any bytes: the headers that its loops start from.
use truepack.Prelude.{
  ℕ, ◌-◌, ◌≤◌, ◌≡◌, refl, sym, ap, ◌∙◌, inl, inr, Bool, true, false, Option, none, some, [], ◌∷◌,
  arith, ltb, ◌==◌, if◌then◌else◌, Bool-cases, length, slice_from_in_range,
}
use mathlib.Core.Bool.{false≢true}
use truepack.Msgp.Integers.{be_uint16, be_uint32}
use truepack.Msgp.Nilbits.{is_always_nil}
use truepack.Msgp.Read.{
  Read, ok, fail, nil_guard, need, take_value, map_header_body, read_map_header_bytes,
}
use truepack.Msgp.Safety.Rules.{be_uint16_total, be_uint32_total}
use truepack.Msgp.Wire.{
  mnil, mmap16, mmap32, bad_prefix, Bytes, isfixmap, rfixmap, map_type, Error, err_short_bytes,
}

-- An offset behind the header that `raw` begins with.
abbrev pub BehindHeader : Bytes → ℕ → Type 0
BehindHeader raw s =
    (lead : ℕ) × (t : Bytes) × (raw ≡ lead ∷ t)
    × (1 ≤ s)
    × (((lead == mmap16) ≡ true) → 3 ≤ s)
    × (((lead == mmap32) ≡ true) → 5 ≤ s)

-- A header was read from `raw`: its size, the rest and the error. A map with fields has a header.
abbrev pub HeaderRead : Bytes → Read ℕ → Type 0
HeaderRead raw r =
    (n : ℕ) × (bts : Bytes) × (err : Option Error) × (r ≡ some (n, bts, err))
    × (length bts ≤ length raw)
    × ((err ≡ none) → 1 ≤ n → BehindHeader raw (length raw - length bts))

failed : (raw : Bytes) (e : Error) → HeaderRead raw (fail 0 [] e)
failed raw e = (0, [], some e, refl, omega arith, λ p h. absurd (omega (arith, h)))

empty_read : (raw bts : Bytes) → length bts ≤ length raw → HeaderRead raw (ok 0 bts)
empty_read raw bts h = (0, bts, none, refl, h, λ p q. absurd (omega (arith, q)))

-- A field of fixed size behind the lead byte.
sized_read :
    (lead : ℕ) (t : Bytes) (x : Option ℕ) (k : ℕ)
    → (k ≤ length (lead ∷ t) → (v : ℕ) × (x ≡ some v))
    → 1 ≤ k
    → (((lead == mmap16) ≡ true) → 3 ≤ k)
    → (((lead == mmap32) ≡ true) → 5 ≤ k)
    → HeaderRead (lead ∷ t) (need (lead ∷ t) k 0 (take_value x (lead ∷ t) k))
unfolding need take_value
sized_read lead t x k p a b c = elim (Bool-cases (ltb (length (lead ∷ t)) k)) [
  | inl e ↦ rw e (failed (lead ∷ t) err_short_bytes)
  | inr e ↦
      let h : k ≤ length (lead ∷ t) = ground (arith, e) in
      let (v, f) = p h in
      let (o, g, l) = slice_from_in_range (lead ∷ t) k h in
      rw (e, f, g)
        (
          v,
          o,
          none,
          refl,
          omega arith,
          λ q r. (
            lead,
            t,
            refl,
            omega arith,
            λ s. let u = b s in omega arith,
            λ s. let u = c s in omega arith,
          ),
        )
]

fixmap_not : (lead m : ℕ) → isfixmap lead ≡ true → isfixmap m ≡ false → (lead == m) ≡ false
fixmap_not lead m p q = elim (Bool-cases (lead == m)) [
  | inl e ↦
      let f : lead ≡ m = ground (arith, e) in absurd (false≢true (sym q ∙ ap isfixmap (sym f) ∙ p))
  | inr e ↦ e
]

if_read :
    (raw : Bytes) {x y : Read ℕ} (c : Bool)
    → ((c ≡ true) → HeaderRead raw x)
    → ((c ≡ false) → HeaderRead raw y)
    → HeaderRead raw (if c then x else y)
if_read raw true p q = p refl
if_read raw false p q = q refl

body_read : (lead : ℕ) (t : Bytes) → HeaderRead (lead ∷ t) (map_header_body (lead ∷ t))
unfolding map_header_body isfixmap
body_read lead t =
    let b = lead ∷ t in
    if_read b (isfixmap lead)
      (λ f. (
        rfixmap lead,
        t,
        none,
        refl,
        omega arith,
        λ p h. (
          lead,
          t,
          refl,
          omega arith,
          λ q. absurd (false≢true (sym (fixmap_not lead mmap16 f refl) ∙ q)),
          λ q. absurd (false≢true (sym (fixmap_not lead mmap32 f refl) ∙ q)),
        ),
      ))
      (λ f.
        if_read b (lead == mmap16)
          (λ g.
            sized_read lead t (be_uint16 t) 3 (λ h. be_uint16_total t (omega arith)) (omega arith)
              (λ p. omega arith) (λ p. ground (arith, g, p)))
          (λ g.
            if_read b (lead == mmap32)
              (λ k.
                sized_read lead t (be_uint32 t) 5 (λ h. be_uint32_total t (omega arith))
                  (omega arith) (λ p. omega arith) (λ p. omega arith))
              (λ k. failed b (bad_prefix map_type lead))))

pub header_read : (raw : Bytes) → HeaderRead raw (read_map_header_bytes none raw)
unfolding read_map_header_bytes nil_guard is_always_nil map_header_body
header_read [] = failed [] err_short_bytes
header_read (lead ∷ t) =
    if_read (lead ∷ t) (lead == mnil) (λ e. empty_read (lead ∷ t) t (omega arith))
      (λ e. body_read lead t)
