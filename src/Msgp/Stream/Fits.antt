-- ===== src/Msgp/Stream/Fits.antt =====
-- msgp/elsize.go and msgp/read_bytes.go: how many bytes getSize reads.
-- A length within five bytes, but for the prefix of ext 32.
use truepack.Prelude.{
  ℕ, zero, suc, ◌≤◌, ◌≡◌, refl, inl, inr, Bool, true, false, ◌||◌, ◌∷◌, arith, ltb, leb, ◌==◌,
  leb→le, le→ltb, le→leb, Bool-cases, length, take, length-take,
}
use truepack.Prelude.Bits.{table, table_sound}
use mathlib.Core.Bool.{false≢true}
use mathlib.Core.Path.{subst}
use truepack.Msgp.Skip.{size_by_mode, is_elements, get_size}
use truepack.Msgp.Skip.Tables.{is_wide, sizes-is_wide}
use truepack.Msgp.Stream.Prefix.{be_uint16-take, be_uint32-take, get_elem?-take}
use truepack.Msgp.Wire.{
  mnfixint, mext32, sizes, Bytes, WireType, VarMode, elements, extra8, extra16, extra32, map16v,
  map32v, array16v, array32v,
}

unfoldable fits_five : ℕ → Bool
fits_five b = b == mext32 || is_elements (sizes b).extra || leb (sizes b).size 5

fits_five_above : (b : ℕ) → 256 ≤ b → fits_five b ≡ true
unfolding fits_five sizes is_elements
fits_five_above b h =
    let d : (b == mext32) ≡ false = ground arith in
    rw (d, le→ltb b 128 (omega arith), le→leb mnfixint b (omega arith)) refl

all_fits_five : (b : ℕ) → fits_five b ≡ true
unfolding fits_five table sizes is_elements
all_fits_five b = elim (Bool-cases (ltb b 256)) [
  | inl e ↦ table_sound 256 fits_five b refl (ground (arith, e))
  | inr e ↦ fits_five_above b (ground (arith, e))
]

pub size_by_mode-take :
    (size : ℕ) (mode : VarMode) (ty : WireType) (n : ℕ) (lead : ℕ) (t : Bytes)
    → is_wide (record { size = size; extra = mode; typ = ty }) ≡ true
    → size ≤ suc n
    → size_by_mode (lead ∷ take n t) size mode ≡ size_by_mode (lead ∷ t) size mode
unfolding is_wide size_by_mode
size_by_mode-take size (elements k) ty n lead t w h = refl
size_by_mode-take size extra8 ty n lead t w h =
    rw (get_elem?-take n 0 t (ground (arith, leb→le _ _ w))) refl
size_by_mode-take size extra16 ty n lead t w h =
    rw (be_uint16-take n t (ground (arith, leb→le _ _ w))) refl
size_by_mode-take size extra32 ty n lead t w h =
    rw (be_uint32-take n t (ground (arith, leb→le _ _ w))) refl
size_by_mode-take size map16v ty n lead t w h =
    rw (be_uint16-take n t (ground (arith, leb→le _ _ w))) refl
size_by_mode-take size map32v ty n lead t w h =
    rw (be_uint32-take n t (ground (arith, leb→le _ _ w))) refl
size_by_mode-take size array16v ty n lead t w h =
    rw (be_uint16-take n t (ground (arith, leb→le _ _ w))) refl
size_by_mode-take size array32v ty n lead t w h =
    rw (be_uint32-take n t (ground (arith, leb→le _ _ w))) refl

pub elements_size :
    (size : ℕ) (mode : VarMode) (lead : ℕ) (x y : Bytes)
    → is_elements mode ≡ true
    → size_by_mode (lead ∷ x) size mode ≡ size_by_mode (lead ∷ y) size mode
unfolding is_elements size_by_mode
elements_size size (elements k) lead x y e = refl
elements_size size extra8 lead x y e = absurd (false≢true e)
elements_size size extra16 lead x y e = absurd (false≢true e)
elements_size size extra32 lead x y e = absurd (false≢true e)
elements_size size map16v lead x y e = absurd (false≢true e)
elements_size size map32v lead x y e = absurd (false≢true e)
elements_size size array16v lead x y e = absurd (false≢true e)
elements_size size array32v lead x y e = absurd (false≢true e)

pub five_bound :
    (lead : ℕ)
    → (lead == mext32) ≡ false
    → is_elements (sizes lead).extra ≡ false
    → (sizes lead).size ≤ 5
unfolding fits_five
five_bound lead c d = leb→le _ _ (
    subst (λ x. (x || leb (sizes lead).size 5) ≡ true) d
      (subst (λ x. (x || is_elements (sizes lead).extra || leb (sizes lead).size 5) ≡ true) c
        (all_fits_five lead)))

-- Five bytes are enough for getSize, but for ext 32.
pub get_size-take :
    (lead : ℕ) (t : Bytes)
    → (lead == mext32) ≡ false
    → 4 ≤ length t
    → get_size (lead ∷ take 4 t) ≡ get_size (lead ∷ t)
unfolding get_size
get_size-take lead t c h = elim (Bool-cases ((sizes lead).size == 0)) [
  | inl z ↦ rw z refl
  | inr z ↦ elim (Bool-cases (is_elements (sizes lead).extra)) [
    | inl d ↦ rw (z, d) (elements_size (sizes lead).size (sizes lead).extra lead _ t d)
    | inr d ↦
        let l = five_bound lead c d in
        rw
          (
            z,
            d,
            length-take 4 t h,
            le→ltb 5 _ l,
            le→ltb (suc (length t)) (sizes lead).size (omega arith),
          )
          (size_by_mode-take _ _ (sizes lead).typ 4 lead t (sizes-is_wide lead) l)
  ]
]

pub four_behind : (lead : ℕ) (t b : Bytes) → b ≡ lead ∷ t → 5 ≤ length b → 4 ≤ length t
four_behind lead t b e h =
    let h' : 5 ≤ length (lead ∷ t) = subst (λ x. 5 ≤ length x) e h in omega arith

pub whole_prefix :
    (size : ℕ) (mode : VarMode) (ty : WireType) (lead : ℕ) (t : Bytes)
    → is_wide (record { size = size; extra = mode; typ = ty }) ≡ true
    → (size == 0) ≡ false
    → size_by_mode (take size (lead ∷ t)) size mode ≡ size_by_mode (lead ∷ t) size mode
whole_prefix zero mode ty lead t w z = ground (arith, z)
whole_prefix (suc k) mode ty lead t w z = size_by_mode-take (suc k) mode ty k lead t w (omega arith)
