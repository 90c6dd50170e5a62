-- ===== src/Msgp/RoundTrip/Blobs.antt =====
-- The readers of strings and binary objects of msgp/read_bytes.go on what msgp/write_bytes.go appends.
use truepack.Prelude.{
  ◌+◌, ◌%◌, ◌^◌, ◌≤◌, ◌<◌, ◌≡◌, refl, ◌∙◌, Bool, true, false, ◌&&◌, Option, [], ◌∷◌, ◌++◌, arith,
  ltb, leb, if◌then◌else◌, length,
}
use truepack.Msgp.Append.{append_bytes, append_string, append_string_from_bytes}
use truepack.Msgp.Append.Format.{str_header, bin_header}
use truepack.Msgp.Append.Laws.{
  append_bytes-Appends, append_string-Appends, append_string_from_bytes-eq,
}
use truepack.Msgp.Integers.{be16, be32}
use truepack.Msgp.Integers.Laws.{be_uint16-be16, be_uint32-be32}
use truepack.Msgp.Nilbits.{NilBitsStack, is_always_nil, is_unsafe_zero_copy}
use truepack.Msgp.Read.{
  Read, ok, nil_guard, bytes_data, read_bytes_bytes_zc, read_bytes_bytes, nil_slice, read_bytes_zc,
  string_data, string_body, read_string_zc, read_string_bytes, read_string_as_bytes, map_key_rest,
  read_map_key_zc,
}
use truepack.Msgp.RoundTrip.Data.{
  string_data-exact, bytes_data-exact, sized-eq, str_header-cases, bin_header-cases,
}
use truepack.Msgp.RoundTrip.Rules.{RoundTrips, round_trip, guarded}
use truepack.Msgp.Slice.{Slice}
use truepack.Msgp.Wire.{mbin8, mbin16, mbin32, mstr8, mstr16, mstr32, Bytes, isfixstr}
use truepack.Msgp.Wire.Tables.{isfixstr_range, rfixstr_mod}

module _ (nbs : Option NilBitsStack) (rest : Bytes) (live : is_always_nil nbs ≡ false) where
  short_string :
      (s : Bytes) → length s ≤ 31 → read_string_zc nbs ((160 + length s) ∷ (s ++ rest)) ≡ ok s rest
  unfolding read_string_zc string_body
  short_string s h = guarded nbs (160 + length s) (s ++ rest) [] s _ rest live (ground arith) (
      rw
        (
          isfixstr_range (160 + length s) (omega arith),
          range,
          rfixstr_mod (160 + length s) (omega arith),
          size,
        )
        (string_data-exact s rest))
    where
      range : (leb 160 (160 + length s) && ltb (160 + length s) 192) ≡ true
      range = ground arith

      size : (160 + length s) % 32 ≡ length s
      size = omega arith

  -- ReadStringZC on what the format says of `s`.
  pub read_string_zc-str_header :
      (s : Bytes)
      → length s < 2 ^ 32
      → read_string_zc nbs ((str_header (length s) ++ s) ++ rest) ≡ ok s rest
  unfolding read_string_zc string_body isfixstr
  read_string_zc-str_header s h =
      str_header-cases (λ hd. read_string_zc nbs ((hd ++ s) ++ rest) ≡ ok s rest) (length s)
        (λ small. short_string s small)
        (λ small. guarded nbs mstr8 (length s ∷ (s ++ rest)) [] s _ rest live refl (
          sized-eq _ 2 _ string_data (length s) (s ++ rest) (omega arith) refl refl
          ∙ string_data-exact s rest))
        (λ small. guarded nbs mstr16 (be16 (length s) ++ (s ++ rest)) [] s _ rest live refl (
          sized-eq _ 3 _ string_data (length s) (s ++ rest) (omega arith)
            (be_uint16-be16 (length s) (s ++ rest) (omega arith)) refl
          ∙ string_data-exact s rest))
        (guarded nbs mstr32 (be32 (length s) ++ (s ++ rest)) [] s _ rest live refl (
          sized-eq _ 5 _ string_data (length s) (s ++ rest) (omega arith)
            (be_uint32-be32 (length s) (s ++ rest) h) refl
          ∙ string_data-exact s rest))

  -- readBytesBytes on what the format says of `s`, copying or not, whatever the scratch space.
  read_bytes_bytes_zc-bin_header :
      (s : Bytes) (scratch : Slice) (zc : Bool)
      → length s < 2 ^ 32
      → read_bytes_bytes_zc ((bin_header (length s) ++ s) ++ rest) scratch zc ≡ ok s rest
  unfolding read_bytes_bytes_zc
  read_bytes_bytes_zc-bin_header s scratch zc h =
      bin_header-cases (λ hd. read_bytes_bytes_zc ((hd ++ s) ++ rest) scratch zc ≡ ok s rest)
        (length s)
        (λ small.
          sized-eq _ 2 _ (bytes_data scratch zc) (length s) (s ++ rest) (omega arith) refl refl
          ∙ bytes_data-exact scratch zc s rest)
        (λ small.
          sized-eq _ 3 _ (bytes_data scratch zc) (length s) (s ++ rest) (omega arith)
            (be_uint16-be16 (length s) (s ++ rest) (omega arith)) refl
          ∙ bytes_data-exact scratch zc s rest)
        (sized-eq _ 5 _ (bytes_data scratch zc) (length s) (s ++ rest) (omega arith)
            (be_uint32-be32 (length s) (s ++ rest) h) refl
          ∙ bytes_data-exact scratch zc s rest)

  guarded_bin :
      (s : Bytes) (r : Read Bytes)
      → r ≡ ok s rest
      → nil_guard nbs ((bin_header (length s) ++ s) ++ rest) [] r ≡ ok s rest
  guarded_bin s r p =
      bin_header-cases (λ hd. nil_guard nbs ((hd ++ s) ++ rest) [] r ≡ ok s rest) (length s)
        (λ small. guarded nbs mbin8 _ [] s _ rest live refl p)
        (λ small. guarded nbs mbin16 _ [] s _ rest live refl p)
        (guarded nbs mbin32 _ [] s _ rest live refl p)

  guarded_str :
      (s : Bytes) (r : Read Bytes)
      → r ≡ ok s rest
      → nil_guard nbs ((str_header (length s) ++ s) ++ rest) [] r ≡ ok s rest
  guarded_str s r p =
      str_header-cases (λ hd. nil_guard nbs ((hd ++ s) ++ rest) [] r ≡ ok s rest) (length s)
        (λ small. guarded nbs (160 + length s) _ [] s _ rest live (ground arith) p)
        (λ small. guarded nbs mstr8 _ [] s _ rest live refl p)
        (λ small. guarded nbs mstr16 _ [] s _ rest live refl p)
        (guarded nbs mstr32 _ [] s _ rest live refl p)

module _ (nbs : Option NilBitsStack) (b : Slice) (rest : Bytes)
    (live : is_always_nil nbs ≡ false) where
  -- Strings of less than 2 ^ 32 bytes: AppendString and AppendStringFromBytes return and append bytes
  -- which the three readers of strings and the reader of map keys take off the front of any bytes, with
  -- the string, whatever the scratch space and UnsafeZeroCopy, while no nils are simulated.
  pub string_RoundTrips :
      (s : Bytes) (scratch : Slice)
      → length s < 2 ^ 32
      → RoundTrips b rest (append_string b s) (read_string_zc nbs) s
        × RoundTrips b rest (append_string b s) (read_string_bytes nbs) s
        × RoundTrips b rest (append_string b s) (λ t. read_string_as_bytes nbs t scratch) s
        × RoundTrips b rest (append_string b s) (read_map_key_zc nbs) s
        × RoundTrips b rest (append_string_from_bytes b s) (read_string_bytes nbs) s
  unfolding read_string_bytes read_string_as_bytes read_map_key_zc map_key_rest
  string_RoundTrips s scratch h =
      let at = append_string-Appends b s h in
      let zc = read_string_zc-str_header nbs rest live s h in
      (
        round_trip b _ rest (append_string b s) (read_string_zc nbs) s at zc,
        round_trip b _ rest (append_string b s) (read_string_bytes nbs) s at whole,
        round_trip b _ rest (append_string b s) (λ t. read_string_as_bytes nbs t scratch) s at
            (guarded_str nbs rest live s _ (rw zc)),
        round_trip b _ rest (append_string b s) (read_map_key_zc nbs) s at
            (guarded_str nbs rest live s _ (rw zc)),
        round_trip b _ rest (append_string_from_bytes b s) (read_string_bytes nbs) s
            (rw (append_string_from_bytes-eq b s) at) whole,
      )
    where
      whole : read_string_bytes nbs ((str_header (length s) ++ s) ++ rest) ≡ ok s rest
      whole =
          guarded_str nbs rest live s _
            (rw (read_string_zc-str_header nbs rest live s h) (both (is_unsafe_zero_copy nbs)))
        where
          both : (c : Bool) → (if c then ok s rest else ok s rest) ≡ ok s rest
          both true = refl
          both false = refl

  -- Binary objects of less than 2 ^ 32 bytes: AppendBytes returns and appends bytes which the copying
  -- reader, whatever its scratch space, and the zero-copy one take off the front of any bytes, with the
  -- object, while no nils are simulated.
  pub bytes_RoundTrips :
      (s : Bytes) (scratch : Slice)
      → length s < 2 ^ 32
      → RoundTrips b rest (append_bytes b s) (λ t. read_bytes_bytes nbs t scratch) s
        × RoundTrips b rest (append_bytes b s) (read_bytes_zc nbs) s
  unfolding read_bytes_bytes read_bytes_zc
  bytes_RoundTrips s scratch h = (
    round_trip b _ rest (append_bytes b s) (λ t. read_bytes_bytes nbs t scratch) s
        (append_bytes-Appends b s h)
        (guarded_bin nbs rest live s _
          (read_bytes_bytes_zc-bin_header nbs rest live s scratch false h)),
    round_trip b _ rest (append_bytes b s) (read_bytes_zc nbs) s (append_bytes-Appends b s h) (
        guarded_bin nbs rest live s _
          (read_bytes_bytes_zc-bin_header nbs rest live s nil_slice true h)),
  )
