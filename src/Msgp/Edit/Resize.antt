-- ===== src/Msgp/Edit/Resize.antt =====
-- msgp/edit.go: `resizeMap` by -1, which Remove calls, on a map header in each of its forms.
use truepack.Prelude.{
  ℕ, suc, ◌+◌, ◌-◌, ◌%◌, ◌^◌, ◌≤◌, ◌<◌, ◌≡◌, refl, ap, ◌∙◌, true, false, some, [], ◌∷◌, ◌++◌, arith,
  ◌==◌, get_elem?, slice_from,
}
use truepack.Msgp.Edit.{
  int_below, int_at_most, resize_map16, resize_map32, resize_fixmap, resize_map,
}
use truepack.Msgp.Edit.Format.{MapForm, form_fix, form16, form32, form_limit, header_of}
use truepack.Msgp.Integers.{byte, be16, be32, put_all}
use truepack.Msgp.Integers.Laws.{be_uint16-be16, be_uint32-be32}
use truepack.Msgp.Slice.{Slice}
use truepack.Msgp.Slice.Laws.{store_behind}
use truepack.Msgp.Wire.{mmap16, mmap32, Bytes, rfixmap, wfixmap}
use truepack.Msgp.Wire.Tables.{wfixmap_sum, rfixmap_mod}

-- The int64 -1.
abbrev minus_one : ℕ
minus_one = 2 ^ 64 - 1

less_one : (n : ℕ) → n < 2 ^ 32 → (suc n + minus_one) % 2 ^ 64 ≡ n
less_one n h = omega arith

small_below : (x n : ℕ) → x < n → int_below x n ≡ true
unfolding int_below
small_below x n h = ground arith

small_at_most : (x n : ℕ) → x ≤ n → int_at_most x n ≡ true
unfolding int_at_most
small_at_most x n h = ground arith

abbrev pub Resized : MapForm → ℕ → Bytes → Slice → Type 0
Resized form n body raw =
    (o : Slice) × (resize_map raw (2 ^ 64 - 1) ≡ some o) × (o.visible ≡ header_of form n ++ body)

module _ (raw : Slice) (n : ℕ) (body : Bytes) where
  resize_fix :
      raw.visible ≡ header_of form_fix (suc n) ++ body → suc n < 16 → Resized form_fix n body raw
  unfolding resize_map resize_fixmap header_of put_all
  resize_fix v h =
      let lead : get_elem? raw.visible 0 ≡ some (128 + suc n) = rw v in
      let not16 : (128 + suc n == mmap16) ≡ false = ground arith in
      let not32 : (128 + suc n == mmap32) ≡ false = ground arith in
      let size : rfixmap (128 + suc n) ≡ suc n =
        rfixmap_mod (128 + suc n) (omega arith) ∙ omega arith in
      let new : wfixmap (byte n) ≡ 128 + n =
        ap wfixmap (omega arith) ∙ wfixmap_sum n (omega arith) in
      rw (lead, not16, not32, size, less_one n (omega arith), small_below n 16 (omega arith), new)
        (store_behind raw [] ((128 + suc n) ∷ body) ((128 + n) ∷ body) 0 (put_all ((128 + n) ∷ []))
          v refl refl)

  resize_16 :
      raw.visible ≡ header_of form16 (suc n) ++ body → suc n < 2 ^ 16 → Resized form16 n body raw
  unfolding resize_map resize_map16 header_of put_all
  resize_16 v h =
      let lead : get_elem? raw.visible 0 ≡ some mmap16 = rw v in
      let from : slice_from raw.visible 1 ≡ some (be16 (suc n) ++ body) = rw v in
      rw
        (
          lead,
          from,
          be_uint16-be16 (suc n) body h,
          less_one n (omega arith),
          small_at_most n (2 ^ 16 - 1) (omega arith),
        )
        (store_behind raw (mmap16 ∷ []) (be16 (suc n) ++ body) (be16 n ++ body) 1 (put_all (be16 n))
          v refl refl)

  resize_32 :
      raw.visible ≡ header_of form32 (suc n) ++ body → suc n < 2 ^ 32 → Resized form32 n body raw
  unfolding resize_map resize_map32 header_of put_all
  resize_32 v h =
      let lead : get_elem? raw.visible 0 ≡ some mmap32 = rw v in
      let from : slice_from raw.visible 1 ≡ some (be32 (suc n) ++ body) = rw v in
      rw (lead, from, be_uint32-be32 (suc n) body h, less_one n (omega arith))
        (store_behind raw (mmap32 ∷ []) (be32 (suc n) ++ body) (be32 n ++ body) 1 (put_all (be32 n))
          v refl refl)

-- One field less: the header stays in its form.
pub resize_down :
    (form : MapForm) (raw : Slice) (n : ℕ) (body : Bytes)
    → raw.visible ≡ header_of form (suc n) ++ body
    → suc n < form_limit form
    → Resized form n body raw
resize_down form_fix raw n body v h = resize_fix raw n body v h
resize_down form16 raw n body v h = resize_16 raw n body v h
resize_down form32 raw n body v h = resize_32 raw n body v h
