-- ===== src/Msgp/Value/Skips/Parts.antt =====
-- msgp/read_bytes.go: Skip on the parts of an interface value, from the headers to the loops.
use truepack.Prelude.{
  ℕ, zero, suc, ◌+◌, ◌*◌, ◌%◌, ◌^◌, ◌≤◌, ◌<◌, ◌≡◌, refl, ap, ◌∙◌, inl, inr, Bool, true, false, ◌&&◌,
  none, some, List, [], ◌∷◌, ◌++◌, append_assoc, arith, ltb, leb, leb→le, le→ltb, Bool-cases,
  length, slice_from, All, length-append, slice_from_append,
}
use mathlib.Core.Path.{subst}
use truepack.Msgp.Append.Format.{
  map_header, array_header, str_header, complex64_bytes, complex128_bytes,
}
use truepack.Msgp.Extension.Laws.{ext_header}
use truepack.Msgp.Integers.Laws.{be_uint16-be16, be_uint32-be32}
use truepack.Msgp.Skip.{size_by_mode, get_size, skip_all, skip}
use truepack.Msgp.Skip.Flat.{str-IsFlat}
use truepack.Msgp.Wire.{
  mnfixint, mfixmap, mfixarray, mfixstr, sizes, Bytes, map_type, array_type, elements,
}
use truepack.Msgp.Wire.Tables.{rfixmap_mod, rfixarray_mod}
use truepack.Msgp.Writer.Objects.Api.{string_bytes, pairs_bytes}

pub and_parts : (c d : Bool) → (c && d) ≡ true → (c ≡ true) × (d ≡ true)
and_parts true true e = (refl, refl)
and_parts true false e = ground (arith, e)
and_parts false d e = ground (arith, e)

-- One object, on any fuel that exceeds the input.
abbrev pub Skips : Bytes → Type 0
Skips bs =
    (fuel : ℕ) (rest : Bytes)
    → length (bs ++ rest) < fuel
    → skip fuel (bs ++ rest) ≡ some (rest, none)

-- So many objects.
abbrev pub SkipsAll : ℕ → Bytes → Type 0
SkipsAll n bs =
    (fuel : ℕ) (rest : Bytes)
    → length (bs ++ rest) < fuel
    → skip_all (skip fuel) n (bs ++ rest) ≡ some (rest, none)

abbrev pub Measures : Bytes → ℕ → Type 0
Measures bs asz = (rest : Bytes) → get_size (bs ++ rest) ≡ some (length bs, asz, none)

pub skip_step :
    (fuel : ℕ) (b b' : Bytes) (sz asz : ℕ)
    → get_size b ≡ some (sz, asz, none)
    → ltb (length b) sz ≡ false
    → slice_from b sz ≡ some b'
    → skip (suc fuel) b ≡ skip_all (skip fuel) asz b'
unfolding skip
skip_step fuel b b' sz asz g l s = rw (g, l, s) refl

-- A header that counts the objects behind it.
pub holder-Skips :
    (hd body : Bytes) (n : ℕ) → 1 ≤ length hd → Measures hd n → SkipsAll n body → Skips (hd ++ body)
holder-Skips hd body n one h all zero rest l = absurd (omega arith)
holder-Skips hd body n one h all (suc fuel) rest l =
    let b = hd ++ (body ++ rest) in
    let size : length b ≡ length hd + length (body ++ rest) = length-append hd (body ++ rest) in
    let same : (hd ++ body) ++ rest ≡ b = append_assoc hd body rest in
    rw same (
      skip_step fuel b (body ++ rest) (length hd) n (h (body ++ rest))
        (le→ltb (length b) (length hd) (omega arith)) (slice_from_append hd (body ++ rest))
      ∙ all fuel rest (omega (arith, ap length same)))

pub no_more : (fuel : ℕ) (rest : Bytes) → skip_all (skip fuel) 0 rest ≡ some (rest, none)
unfolding skip_all
no_more fuel rest = refl

pub nothing-SkipsAll : SkipsAll 0 []
nothing-SkipsAll fuel rest l = no_more fuel rest

pub flat-Skips : (bs : Bytes) → Measures bs 0 → Skips bs
flat-Skips bs h zero rest l = absurd (omega arith)
flat-Skips bs h (suc fuel) rest l =
    skip_step fuel (bs ++ rest) rest (length bs) 0 (h rest)
      (le→ltb (length (bs ++ rest)) (length bs) (omega (arith, length-append bs rest)))
      (slice_from_append bs rest)
    ∙ no_more fuel rest

pub more-SkipsAll : (bs cs : Bytes) (n : ℕ) → Skips bs → SkipsAll n cs → SkipsAll (suc n) (bs ++ cs)
unfolding skip_all
more-SkipsAll bs cs n one all fuel rest l = rw (append_assoc bs cs rest) (
    rw (one fuel (cs ++ rest) (omega (arith, ap length (append_assoc bs cs rest)))) (
      all fuel rest
        (omega (arith, ap length (append_assoc bs cs rest), length-append bs (cs ++ rest)))))

pub sizes_fixmap :
    (n : ℕ)
    → n ≤ 15
    → sizes (128 + n) ≡ record { size = 1; extra = elements (2 * n); typ = map_type }
unfolding sizes
sizes_fixmap n h =
    let r1 : ltb (128 + n) 0x80 ≡ false = ground arith in
    let r2 : leb mnfixint (128 + n) ≡ false = ground arith in
    let r3 : (leb mfixstr (128 + n) && ltb (128 + n) 0xc0) ≡ false = ground arith in
    let r4 : (leb mfixmap (128 + n) && ltb (128 + n) 0x90) ≡ true = ground arith in
    let r5 : (128 + n) % 16 ≡ n = omega arith in
    rw (r1, r2, r3, r4, rfixmap_mod (128 + n) (omega arith), r5)

pub sizes_fixarray :
    (n : ℕ) → n ≤ 15 → sizes (144 + n) ≡ record { size = 1; extra = elements n; typ = array_type }
unfolding sizes
sizes_fixarray n h =
    let r1 : ltb (144 + n) 0x80 ≡ false = ground arith in
    let r2 : leb mnfixint (144 + n) ≡ false = ground arith in
    let r3 : (leb mfixstr (144 + n) && ltb (144 + n) 0xc0) ≡ false = ground arith in
    let r4 : (leb mfixmap (144 + n) && ltb (144 + n) 0x90) ≡ false = ground arith in
    let r5 : (leb mfixarray (144 + n) && ltb (144 + n) 0xa0) ≡ true = ground arith in
    let r6 : (144 + n) % 16 ≡ n = omega arith in
    rw (r1, r2, r3, r4, r5, rfixarray_mod (144 + n) (omega arith), r6)

pub map_header-Measures : (n : ℕ) → n < 2 ^ 32 → Measures (map_header n) (2 * n)
unfolding get_size size_by_mode map_header sizes
map_header-Measures n h rest = elim (Bool-cases (leb n 15)) [
  | inl e ↦ rw e (fix (leb→le n 15 e))
  | inr e ↦ elim (Bool-cases (leb n 65535)) [
    | inl f ↦ let small = leb→le n 65535 f in rw (e, f) (ground (arith, be_uint16-be16 n rest))
    | inr f ↦ rw (e, f) (ground (arith, be_uint32-be32 n rest h))
  ]
]
  where
    fix : n ≤ 15 → get_size ((128 + n) ∷ rest) ≡ some (1, 2 * n, none)
    fix small = rw (sizes_fixmap n small) refl

pub array_header-Measures : (n : ℕ) → n < 2 ^ 32 → Measures (array_header n) n
unfolding get_size size_by_mode array_header sizes
array_header-Measures n h rest = elim (Bool-cases (leb n 15)) [
  | inl e ↦ rw e (fix (leb→le n 15 e))
  | inr e ↦ elim (Bool-cases (leb n 65535)) [
    | inl f ↦ let small = leb→le n 65535 f in rw (e, f) (ground (arith, be_uint16-be16 n rest))
    | inr f ↦ rw (e, f) (ground (arith, be_uint32-be32 n rest h))
  ]
]
  where
    fix : n ≤ 15 → get_size ((144 + n) ∷ rest) ≡ some (1, n, none)
    fix small = rw (sizes_fixarray n small) refl

pub ext_header-Measures :
    (body : Bytes) (t : ℕ) → length body < 2 ^ 32 → Measures (ext_header (length body) t ++ body) 0
unfolding get_size size_by_mode ext_header sizes
ext_header-Measures body t h rest = elim (Bool-cases (ltb (length body) 255)) [
  | inl e ↦ rw e (ground arith)
  | inr e ↦ elim (Bool-cases (ltb (length body) 65535)) [
    | inl f ↦
        let small : length body < 2 ^ 16 = ground (arith, f) in
        rw (e, f) (ground (arith, be_uint16-be16 (length body) (t ∷ (body ++ rest))))
    | inr f ↦ rw (e, f) (ground (arith, be_uint32-be32 (length body) (t ∷ (body ++ rest)) h))
  ]
]

pub string-Skips : (s : Bytes) → length s < 2 ^ 32 → Skips (str_header (length s) ++ s)
string-Skips s h = flat-Skips (str_header (length s) ++ s) (λ rest. (str-IsFlat rest s h).1)

pub double : (n : ℕ) → suc (suc (2 * n)) ≡ 2 * suc n
double n = omega arith

pub pairs-SkipsAll :
    (m : List (Bytes × Bytes))
    → All (λ (key, val). (length key < 2 ^ 32) × (length val < 2 ^ 32)) m
    → SkipsAll (2 * length m) (pairs_bytes m)
pairs-SkipsAll [] h = nothing-SkipsAll
pairs-SkipsAll ((key, val) ∷ m) ((hk, hv), h) =
    subst (λ n. SkipsAll n (pairs_bytes ((key, val) ∷ m))) (double (length m))
      (more-SkipsAll (string_bytes key) _ _ (string-Skips key hk) (
        more-SkipsAll (string_bytes val) (pairs_bytes m) (2 * length m) (string-Skips val hv)
          (pairs-SkipsAll m h)))

pub map_header_one : (n : ℕ) → 1 ≤ length (map_header n)
unfolding map_header
map_header_one n = ground arith

pub array_header_one : (n : ℕ) → 1 ≤ length (array_header n)
unfolding array_header
array_header_one n = ground arith

pub map-Skips :
    (n : ℕ) (body : Bytes) → n < 2 ^ 32 → SkipsAll (2 * n) body → Skips (map_header n ++ body)
map-Skips n body h all =
    holder-Skips (map_header n) body (2 * n) (map_header_one n) (map_header-Measures n h) all

pub array-Skips :
    (n : ℕ) (body : Bytes) → n < 2 ^ 32 → SkipsAll n body → Skips (array_header n ++ body)
array-Skips n body h all =
    holder-Skips (array_header n) body n (array_header_one n) (array_header-Measures n h) all

pub complex-Measures :
    (re im : ℕ) → Measures (complex64_bytes re im) 0 × Measures (complex128_bytes re im) 0
unfolding get_size size_by_mode sizes
complex-Measures re im = (λ rest. refl, λ rest. refl)
