-- ===== src/Msgp/Wire/Tables.antt =====
-- Facts on every byte from tables over the 256 values: the masks of msgp/defs.go as ranges and
-- remainders.
use truepack.Prelude.{
  ℕ, ◌+◌, ◌%◌, ◌<◌, ◌≡◌, refl, sym, inl, inr, Bool, true, not, ◌&&◌, arith, ltb, leb, ◌==◌,
  if◌then◌else◌, Bool-cases,
}
use truepack.Prelude.Bits.{table, table_sound}
use truepack.Msgp.Wire.Types.{
  isfixint, isnfixint, isfixmap, isfixarray, isfixstr, wfixint, wnfixint, rfixmap, wfixmap, rfixstr,
  wfixstr, rfixarray, wfixarray,
}

-- `p` holds exactly of the bytes from `lo` up to, not including, `hi`.
abbrev same_range : (p : ℕ → Bool) (lo hi : ℕ) → ℕ → Bool
same_range p lo hi b = if p b then leb lo b && ltb b hi else not (leb lo b && ltb b hi)

same_range-eq :
    (p : ℕ → Bool) (lo hi b : ℕ) → same_range p lo hi b ≡ true → p b ≡ (leb lo b && ltb b hi)
same_range-eq p lo hi b h = elim (Bool-cases (p b)) [
  | inl e ↦ rw e (sym (rw e at h))
  | inr e ↦ ground (arith, e, h)
]

range_below :
    (p : ℕ → Bool) (lo hi : ℕ)
    → table 256 (same_range p lo hi) ≡ true
    → (b : ℕ) → b < 256
    → p b ≡ (leb lo b && ltb b hi)
range_below p lo hi t b h = same_range-eq p lo hi b (table_sound 256 (same_range p lo hi) b t h)

eq_below : (f g : ℕ → ℕ) (n : ℕ) → table n (λ b. f b == g b) ≡ true → (b : ℕ) → b < n → f b ≡ g b
eq_below f g n t b h = let e = table_sound n (λ b. f b == g b) b t h in ground (arith, e)

pub isfixint_range : (b : ℕ) → b < 256 → isfixint b ≡ (leb 0 b && ltb b 128)
unfolding isfixint table
isfixint_range = range_below isfixint 0 128 refl

pub isnfixint_range : (b : ℕ) → b < 256 → isnfixint b ≡ (leb 224 b && ltb b 256)
unfolding isnfixint table
isnfixint_range = range_below isnfixint 224 256 refl

pub isfixmap_range : (b : ℕ) → b < 256 → isfixmap b ≡ (leb 128 b && ltb b 144)
unfolding isfixmap table
isfixmap_range = range_below isfixmap 128 144 refl

pub isfixarray_range : (b : ℕ) → b < 256 → isfixarray b ≡ (leb 144 b && ltb b 160)
unfolding isfixarray table
isfixarray_range = range_below isfixarray 144 160 refl

pub isfixstr_range : (b : ℕ) → b < 256 → isfixstr b ≡ (leb 160 b && ltb b 192)
unfolding isfixstr table
isfixstr_range = range_below isfixstr 160 192 refl

pub wfixmap_sum : (u : ℕ) → u < 16 → wfixmap u ≡ 128 + u
unfolding wfixmap table
wfixmap_sum = eq_below wfixmap (λ u. 128 + u) 16 refl

pub wfixarray_sum : (u : ℕ) → u < 16 → wfixarray u ≡ 144 + u
unfolding wfixarray table
wfixarray_sum = eq_below wfixarray (λ u. 144 + u) 16 refl

pub wfixstr_sum : (u : ℕ) → u < 32 → wfixstr u ≡ 160 + u
unfolding wfixstr table
wfixstr_sum = eq_below wfixstr (λ u. 160 + u) 32 refl

pub rfixmap_mod : (b : ℕ) → b < 256 → rfixmap b ≡ b % 16
unfolding rfixmap table
rfixmap_mod = eq_below rfixmap (λ b. b % 16) 256 refl

pub rfixarray_mod : (b : ℕ) → b < 256 → rfixarray b ≡ b % 16
unfolding rfixarray table
rfixarray_mod = eq_below rfixarray (λ b. b % 16) 256 refl

pub rfixstr_mod : (b : ℕ) → b < 256 → rfixstr b ≡ b % 32
unfolding rfixstr table
rfixstr_mod = eq_below rfixstr (λ b. b % 32) 256 refl

pub wfixint_same : (u : ℕ) → u < 128 → wfixint u ≡ u
unfolding wfixint table
wfixint_same = eq_below wfixint (λ u. u) 128 refl

pub wnfixint_same : (k : ℕ) → k < 32 → wnfixint (224 + k) ≡ 224 + k
unfolding wnfixint table
wnfixint_same = eq_below (λ k. wnfixint (224 + k)) (λ k. 224 + k) 32 refl
