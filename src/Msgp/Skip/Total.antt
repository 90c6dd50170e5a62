-- ===== src/Msgp/Skip/Total.antt =====
-- msgp/read_bytes.go: getSize and Skip on any input.
use truepack.Prelude.{
  ℕ, zero, suc, ◌+◌, ◌*◌, ◌≤◌, ◌<◌, ◌≡◌, refl, sym, ap, ◌∙◌, inl, inr, true, false, not, ◌&&◌,
  Option, none, some, [], ◌∷◌, ◌++◌, append_assoc, arith, ltb, ◌==◌, ◌>>=◌, leb→le, Bool-cases,
  length, length-append, length-slice_from,
}
use truepack.Msgp.Safety.Rules.{
  EndsIn, slice_from_front, be_uint16_total, be_uint32_total, get_elem?_total,
}
use truepack.Msgp.Skip.{size_by_mode, is_elements, get_size, skip_all, skip, skip_bytes}
use truepack.Msgp.Skip.Tables.{is_wide, sizes-is_wide}
use truepack.Msgp.Wire.{
  sizes, Bytes, nil_type, VarMode, elements, extra8, extra16, extra32, map16v, map32v, array16v,
  array32v, Error, err_short_bytes, invalid_prefix_error,
}

-- What getSize promises: an object has at least its first byte.
abbrev AtLeastOne : ℕ → Option Error → Type 0
AtLeastOne sz none = 1 ≤ sz
AtLeastOne sz (some e) = Unit

abbrev SizeOk : Option (ℕ × ℕ × Option Error) → Type 0
SizeOk r = (sz asz : ℕ) × (err : Option Error) × (r ≡ some (sz, asz, err)) × AtLeastOne sz err

read_extra :
    (x : Option ℕ) (f : ℕ → ℕ × ℕ)
    → (v : ℕ) × (x ≡ some v)
    → ((n : ℕ) → 1 ≤ (f n).0)
    → SizeOk (x >>= λ n. some ((f n).0, (f n).1, none))
read_extra x f (v, e) h = ((f v).0, (f v).1, none, rw e, h v)

size_by_mode_total :
    (lead : ℕ) (t : Bytes) (size : ℕ) (mode : VarMode)
    → 1 ≤ size
    → is_wide (record { size = size; extra = mode; typ = nil_type }) ≡ true
    → (is_elements mode ≡ false → size ≤ length t + 1)
    → SizeOk (size_by_mode (lead ∷ t) size mode)
unfolding size_by_mode is_wide is_elements
size_by_mode_total lead t size (elements n) p w l = (size, n, none, refl, p)
size_by_mode_total lead t size extra8 p w l =
    read_extra _ (λ n. (size + n, 0)) (get_elem?_total t 0 (omega (arith, l refl, leb→le 2 size w)))
      (λ n. omega arith)
size_by_mode_total lead t size extra16 p w l =
    read_extra _ (λ n. (size + n, 0)) (be_uint16_total t (omega (arith, l refl, leb→le 3 size w)))
      (λ n. omega arith)
size_by_mode_total lead t size extra32 p w l =
    read_extra _ (λ n. (size + n, 0)) (be_uint32_total t (omega (arith, l refl, leb→le 5 size w)))
      (λ n. omega arith)
size_by_mode_total lead t size map16v p w l =
    read_extra _ (λ n. (size, 2 * n)) (be_uint16_total t (omega (arith, l refl, leb→le 3 size w)))
      (λ n. p)
size_by_mode_total lead t size map32v p w l =
    read_extra _ (λ n. (size, 2 * n)) (be_uint32_total t (omega (arith, l refl, leb→le 5 size w)))
      (λ n. p)
size_by_mode_total lead t size array16v p w l =
    read_extra _ (λ n. (size, n)) (be_uint16_total t (omega (arith, l refl, leb→le 3 size w)))
      (λ n. p)
size_by_mode_total lead t size array32v p w l =
    read_extra _ (λ n. (size, n)) (be_uint32_total t (omega (arith, l refl, leb→le 5 size w)))
      (λ n. p)

pub get_size_total : (b : Bytes) → SizeOk (get_size b)
unfolding get_size
get_size_total [] = (0, 0, some err_short_bytes, refl, tt)
get_size_total (lead ∷ t) = elim (Bool-cases ((sizes lead).size == 0)) [
  | inl e ↦ rw e (0, 0, some (invalid_prefix_error lead), refl, tt)
  | inr e ↦
      elim (Bool-cases
        (not (is_elements (sizes lead).extra) && ltb (length (lead ∷ t)) (sizes lead).size)) [
          | inl f ↦ rw (e, f) (0, 0, some err_short_bytes, refl, tt)
          | inr f ↦
              rw (e, f)
                (size_by_mode_total lead t (sizes lead).size (sizes lead).extra (ground (arith, e))
                  (unfold is_wide in sizes-is_wide lead)
                  (λ g. in_range (sizes lead).extra (sizes lead).size (length t) g f))
        ]
]
  where
    in_range :
        (mode : VarMode) (size l : ℕ)
        → is_elements mode ≡ false
        → (not (is_elements mode) && ltb (suc l) size) ≡ false
        → size ≤ l + 1
    in_range mode size l g f = ground (arith, rw g at f)

-- Skip on an input returns an end of it, and a shorter one if it succeeds.
abbrev Shorter : Bytes → Bytes → Option Error → Type 0
Shorter b o none = length o < length b
Shorter b o (some e) = Unit

abbrev pub SkipOk : Bytes → Option (Bytes × Option Error) → Type 0
SkipOk b r = (o : Bytes) × (err : Option Error) × (r ≡ some (o, err)) × EndsIn b o × Shorter b o err

-- The loop over the elements of a composite that is longer than its elements.
abbrev LoopOk : Bytes → Option (Bytes × Option Error) → Type 0
LoopOk b r =
    (o : Bytes) × (err : Option Error) × (r ≡ some (o, err)) × EndsIn b o × (length o ≤ length b)

pub ends_trans : (b m o : Bytes) → EndsIn b m → EndsIn m o → EndsIn b o
ends_trans b m o (f, e) (g, h) = (f ++ g, e ∙ ap (λ t. f ++ t) h ∙ sym (append_assoc f g o))

pub ends_le : (b o : Bytes) → EndsIn b o → length o ≤ length b
ends_le b o (f, e) = omega (arith, ap length e, length-append f o)

skip_all_total :
    (k : ℕ) (skip_one : Bytes → Option (Bytes × Option Error))
    → ((b : Bytes) → length b < k → SkipOk b (skip_one b))
    → (asz : ℕ) (b : Bytes) → length b < k
    → LoopOk b (skip_all skip_one asz b)
unfolding skip_all
skip_all_total k skip_one h zero b l = (b, none, refl, ([], refl), omega arith)
skip_all_total k skip_one h (suc asz) b l = go (h b l) (skip_all_total k skip_one h asz)
  where
    go :
        SkipOk b (skip_one b)
        → ((b' : Bytes) → length b' < k → LoopOk b' (skip_all skip_one asz b'))
        → LoopOk b (skip_all skip_one (suc asz) b)
    go (o, some e, p, q, s) ih = (o, some e, rw p, q, ends_le b o q)
    go (o, none, p, q, s) ih =
        let (o', err, p', q', s') = ih o (omega arith) in
        (o', err, rw p p', ends_trans b o o' q q', omega arith)

-- With more fuel than bytes Skip returns: it neither panics nor recurs too deep.
pub skip_total : (fuel : ℕ) (b : Bytes) → length b < fuel → SkipOk b (skip fuel b)
unfolding skip
skip_total zero b l = absurd (omega arith)
skip_total (suc fuel) b l = go (get_size_total b) (skip_total fuel)
  where
    go :
        SizeOk (get_size b)
        → ((b' : Bytes) → length b' < fuel → SkipOk b' (skip fuel b'))
        → SkipOk b (skip (suc fuel) b)
    go (sz, asz, some e, p, s) ih = (b, some e, rw p, ([], refl), tt)
    go (sz, asz, none, p, s) ih = elim (Bool-cases (ltb (length b) sz)) [
      | inl e ↦ (b, some err_short_bytes, rw (p, e), ([], refl), tt)
      | inr e ↦
          let (front, b', f, g) = slice_from_front b sz (ground (arith, e)) in
          let l' = length-slice_from b sz b' f in
          let (o, err, p', q, s') = skip_all_total fuel (skip fuel) ih asz b' (omega arith) in
          (o, err, rw (p, e, f) p', ends_trans b b' o (front, g) q, shorter err o (omega arith))
    ]
      where
        shorter : (err : Option Error) (o : Bytes) → length o < length b → Shorter b o err
        shorter none o h = h
        shorter (some e) o h = tt

-- On every input Skip returns, so that no index is out of range and its recursion ends; what it leaves
-- is an end of the input, and a shorter one if it answers no error.
pub skip_bytes_total : (b : Bytes) → SkipOk b (skip_bytes b)
unfolding skip_bytes
skip_bytes_total b = skip_total (suc (length b)) b (omega arith)
