-- ===== src/Msgp/Errors/Truncated.antt =====
-- msgp/read_bytes.go: binary objects whose data is cut off, and binary map keys.
use truepack.Prelude.{
  ℕ, ◌+◌, ◌%◌, ◌^◌, ◌<◌, ◌≡◌, refl, ◌∙◌, true, false, Option, some, [], ◌∷◌, ◌++◌, arith, ◌==◌,
  lt→ltb, le→ltb, length, drop, take_all, slice_from_end,
}
use truepack.Msgp.Append.Format.{bin_header}
use truepack.Msgp.Nilbits.{NilBitsStack, is_always_nil}
use truepack.Msgp.Read.{
  ok, fail, nil_guard, sized, bytes_data, read_bytes_bytes_zc, read_bytes_zc, exact_data,
  exact_body, read_exact_bytes, string_body, read_string_zc, map_key_rest, read_map_key_zc,
}
use truepack.Msgp.RoundTrip.Data.{bin_header-cases}
use truepack.Msgp.RoundTrip.Rules.{nil_guard-pass, need-pass, guarded}
use truepack.Msgp.Slice.{go_copy, copied}
use truepack.Msgp.Wire.{
  mnil, mbin8, mbin16, mbin32, get_type, Bytes, isfixstr, str_type, bin_type, err_short_bytes,
  type_error,
}

go_copy_short :
    (into s : Bytes) → length s < length into → go_copy into s ≡ s ++ drop (length s) into
unfolding go_copy
go_copy_short into s k = rw (take_all s (length into) (omega arith))

copied_short : (into s : Bytes) → length s < length into → copied into s ≡ length s
unfolding copied
copied_short into s k = omega arith

-- With too little data the copy just ends.
exact_data_short :
    (into s : Bytes)
    → length into < 256
    → length s < length into
    → exact_data (mbin8 ∷ length into ∷ s) into 2 (some (length into))
      ≡ ok (s ++ drop (length s) into) []
unfolding exact_data
exact_data_short into s h k =
    let b = mbin8 ∷ length into ∷ s in
    let right : (length into == length into % 2 ^ 32) ≡ true = ground arith in
    rw (
      le→ltb (length b) 2 (omega arith),
      right,
      copied_short into s k,
      go_copy_short into s k,
      slice_from_end b (2 + length s) (omega arith),
    )

string_body_bin :
    (t : Bytes)
    → (string_body (mbin8 ∷ t) ≡ fail [] [] (type_error str_type bin_type))
      × (string_body (mbin16 ∷ t) ≡ fail [] [] (type_error str_type bin_type))
      × (string_body (mbin32 ∷ t) ≡ fail [] [] (type_error str_type bin_type))
unfolding string_body isfixstr get_type
string_body_bin t = (refl, refl, refl)

module _ (nbs : Option NilBitsStack) (live : is_always_nil nbs ≡ false) where
  -- While no nils are simulated ReadExactBytes does not test that the data is there: with a `bin 8` header that announces the
  -- length of `into`, and less data than that, it answers no error, and the end of `into` stays as it
  -- was. ReadBytesZC answers ErrShortBytes to the same input.
  pub read_exact_bytes_truncated :
      (into s : Bytes)
      → length into < 256
      → length s < length into
      → (read_exact_bytes nbs (mbin8 ∷ length into ∷ s) into ≡ ok (s ++ drop (length s) into) [])
        × (read_bytes_zc nbs (mbin8 ∷ length into ∷ s) ≡ fail [] [] err_short_bytes)
  unfolding read_exact_bytes exact_body read_bytes_zc read_bytes_bytes_zc sized bytes_data
  read_exact_bytes_truncated into s h k = (
    guarded nbs mbin8 (length into ∷ s) _ _ _ [] live refl (exact_data_short into s h k),
    nil_guard-pass nbs mbin8 (length into ∷ s) [] _ live refl
        ∙ need-pass _ 2 [] _ (omega arith)
        ∙ rw (lt→ltb (length s) (length into) k),
  )

  bin_key :
      (lead : ℕ) (t : Bytes)
      → (lead == mnil) ≡ false
      → string_body (lead ∷ t) ≡ fail [] [] (type_error str_type bin_type)
      → read_map_key_zc nbs (lead ∷ t) ≡ fail [] [] err_short_bytes
  unfolding read_map_key_zc read_string_zc map_key_rest read_bytes_zc read_bytes_bytes_zc nil_guard
  bin_key lead t e f = rw (live, e, f, live)

  -- While no nils are simulated, a key with a `bin` header is never read as a key: ReadMapKeyZC answers
  -- ErrShortBytes to each, and looks for the object in what the failed ReadStringZC left, which is nothing.
  pub read_map_key_zc_bin :
      (s rest : Bytes)
      → read_map_key_zc nbs ((bin_header (length s) ++ s) ++ rest) ≡ fail [] [] err_short_bytes
  read_map_key_zc_bin s rest =
      bin_header-cases (λ hd. read_map_key_zc nbs ((hd ++ s) ++ rest) ≡ fail [] [] err_short_bytes)
        (length s) (λ _. bin_key mbin8 _ refl (string_body_bin _).0)
        (λ _. bin_key mbin16 _ refl (string_body_bin _).1)
        (bin_key mbin32 _ refl (string_body_bin _).2)
