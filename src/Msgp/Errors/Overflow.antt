-- ===== src/Msgp/Errors/Overflow.antt =====
-- msgp/read_bytes.go: the narrow readers of integers on the 64-bit formats, which the writers of this
-- package use for int, int64, uint and uint64.
use truepack.Prelude.{
  ℕ, ◌-◌, ◌%◌, ◌^◌, ◌≤◌, ◌<◌, ◌≡◌, refl, ◌⊎◌, inl, inr, false, Option, [], ◌∷◌, ◌++◌, arith,
  Bool-cases,
}
use truepack.Msgp.Integers.{be64}
use truepack.Msgp.Nilbits.{NilBitsStack, is_always_nil}
use truepack.Msgp.Read.{
  sign_extend, exceeds, int64_body, read_int64_bytes, narrow_int, read_int32_bytes,
  read_int16_bytes, read_int8_bytes, Read, ok, fail, nil_guard,
}
use truepack.Msgp.RoundTrip.Formats.{int64_body-mint64}
use truepack.Msgp.RoundTrip.Rules.{nil_guard-pass, guarded}
use truepack.Msgp.Wire.{mint64, Bytes, int_overflow, uint_overflow}

-- The reader of `w` bits takes an int64 that fits, sign and all, and answers IntOverflow, with the
-- value and the rest behind it, to any other.
abbrev pub NarrowsInt : (w x : ℕ) → Bytes → Read ℕ → Type 0
NarrowsInt w x rest r =
    ((y : ℕ) × (y < 2 ^ w) × (x ≡ sign_extend w y) × (r ≡ ok y rest))
    ⊎ ((2 ^ (w - 1) ≤ x) × (x < 2 ^ 64 - 2 ^ (w - 1)) × (r ≡ fail 0 rest (int_overflow x w)))

-- The reader of `w` bits takes a uint64 that fits, and answers UintOverflow, without the rest, to
-- any other.
abbrev pub NarrowsUint : (w x : ℕ) → Bytes → Read ℕ → Type 0
NarrowsUint w x rest r =
    ((x < 2 ^ w) × (r ≡ ok x rest)) ⊎ ((2 ^ w ≤ x) × (r ≡ fail 0 [] (uint_overflow x w)))

narrow_int8_cases :
    (x : ℕ) (rest : Bytes) → x < 2 ^ 64 → NarrowsInt 8 x rest (narrow_int 8 (ok x rest))
unfolding narrow_int exceeds sign_extend
narrow_int8_cases x rest h = elim (Bool-cases (exceeds x (2 ^ 7 - 1))) [
  | inl e ↦ inr (ground (arith, e), ground (arith, e), rw e)
  | inr e ↦ inl (x % 2 ^ 8, omega arith, ground (arith, e), rw e)
]

narrow_int16_cases :
    (x : ℕ) (rest : Bytes) → x < 2 ^ 64 → NarrowsInt 16 x rest (narrow_int 16 (ok x rest))
unfolding narrow_int exceeds sign_extend
narrow_int16_cases x rest h = elim (Bool-cases (exceeds x (2 ^ 15 - 1))) [
  | inl e ↦ inr (ground (arith, e), ground (arith, e), rw e)
  | inr e ↦ inl (x % 2 ^ 16, omega arith, ground (arith, e), rw e)
]

narrow_int32_cases :
    (x : ℕ) (rest : Bytes) → x < 2 ^ 64 → NarrowsInt 32 x rest (narrow_int 32 (ok x rest))
unfolding narrow_int exceeds sign_extend
narrow_int32_cases x rest h = elim (Bool-cases (exceeds x (2 ^ 31 - 1))) [
  | inl e ↦ inr (ground (arith, e), ground (arith, e), rw e)
  | inr e ↦ inl (x % 2 ^ 32, omega arith, ground (arith, e), rw e)
]

module _ (nbs : Option NilBitsStack) (rest : Bytes) (live : is_always_nil nbs ≡ false) where
  -- ReadInt8Bytes, ReadInt16Bytes and ReadInt32Bytes on an int64, while no nils are simulated: one that
  -- fits is returned, sign and all, and any other is answered by IntOverflow with the value.
  pub read_narrow_int :
      (x : ℕ)
      → x < 2 ^ 64
      → NarrowsInt 8 x rest (read_int8_bytes nbs (mint64 ∷ (be64 x ++ rest)))
        × NarrowsInt 16 x rest (read_int16_bytes nbs (mint64 ∷ (be64 x ++ rest)))
        × NarrowsInt 32 x rest (read_int32_bytes nbs (mint64 ∷ (be64 x ++ rest)))
  unfolding read_int8_bytes read_int16_bytes read_int32_bytes read_int64_bytes
  read_narrow_int x h =
      let b = mint64 ∷ (be64 x ++ rest) in
      let wide : nil_guard nbs b 0 (int64_body b) ≡ ok x rest =
        guarded nbs mint64 (be64 x ++ rest) 0 x _ rest live refl (int64_body-mint64 rest x h) in
      let at = λ (r : Read ℕ). nil_guard-pass nbs mint64 (be64 x ++ rest) 0 r live refl in
      (
        rw (at (narrow_int 8 (nil_guard nbs b 0 (int64_body b))), wide)
            (narrow_int8_cases x rest h),
        rw (at (narrow_int 16 (nil_guard nbs b 0 (int64_body b))), wide)
            (narrow_int16_cases x rest h),
        rw (at (narrow_int 32 (nil_guard nbs b 0 (int64_body b))), wide)
            (narrow_int32_cases x rest h),
      )
