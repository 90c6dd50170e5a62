-- ===== src/Msgp/Value/Laws.antt =====
-- msgp/write_bytes.go: AppendIntf against the bytes of Value/Format.
use truepack.Prelude.{
  ℕ, zero, suc, ◌^◌, ◌<◌, ◌≡◌, refl, sym, ap, ◌∙◌, Bool, true, false, ◌&&◌, Option, none, some,
  List, [], ◌∷◌, ◌++◌, append_assoc, append-nil, arith, ◌==◌, if◌then◌else◌, ◌>>=◌, length, All,
}
use truepack.Msgp.Append.{to32, append_map_header, append_array_header}
use truepack.Msgp.Append.Format.{map_header, array_header}
use truepack.Msgp.Append.Laws.{
  to32_small, append_map_header-Appends, append_array_header-Appends, append_bytes-Appends,
  append_string-Appends, append_time-Appends, append_fixed-Appends, append_integer-Appends,
}
use truepack.Msgp.Edit.Format.{key_bytes}
use truepack.Msgp.Extension.{RawExtension, raw_extension}
use truepack.Msgp.Extension.Laws.{ext_header, append_extension-AppendsExt}
use truepack.Msgp.Extension.RoundTrip.{raw-Encodes}
use truepack.Msgp.Slice.{Slice, Appends}
use truepack.Msgp.Value.{
  Value, val_nil, val_bool, val_float32, val_float64, val_complex64, val_complex128, val_string,
  val_bytes, val_int8, val_int16, val_int32, val_int64, val_int, val_uint8, val_uint16, val_uint32,
  val_uint64, val_uint, val_time, val_extension, val_map_str_str, val_map_str_intf, val_map,
  val_map_other, val_slice, val_byte_slice, val_array, val_ptr, val_nil_ptr, val_other, Values,
  no_values, value_more, Entries, no_entries, entry_more, value_count, entry_count,
  err_unsupported_type, AppendedIntf, no_error, and_append, append_pairs, append_map_str_str,
  append_raw, append_intf, append_values, append_entries,
}
use truepack.Msgp.Value.Format.{
  value_bytes, values_bytes, entries_bytes, supported, supported_values, supported_entries, Fits,
  FitsValues, FitsEntries,
}
use truepack.Msgp.Wire.{Bytes}
use truepack.Msgp.Writer.Objects.Api.{string_bytes, pairs_bytes}

-- The call returns. It adds `vs` to `b` without an error if `fine` holds, and else adds some bytes with
-- the error of an unsupported type.
abbrev pub Adds : Slice → Bool → Bytes → AppendedIntf → Type 0
Adds b fine vs r =
    (o : Slice) × (bs : Bytes) × (r ≡ some (o, if fine then none else some err_unsupported_type))
    × (o.visible ≡ b.visible ++ bs)
    × (fine ≡ true → bs ≡ vs)

-- An append without an error.
Adds-all_args :
    (b : Slice) (vs : Bytes) (r : Option Slice) → Appends b vs r → Adds b true vs (no_error r)
Adds-all_args b vs r (o, e, v) = (o, vs, rw e refl, v, λ _. refl)

-- A failed part ends the sequence, behind a part that was appended.
behind :
    (b m o : Slice) (vs bs : Bytes)
    → m.visible ≡ b.visible ++ vs
    → o.visible ≡ m.visible ++ bs
    → o.visible ≡ b.visible ++ (vs ++ bs)
behind b m o vs bs p q = q ∙ ap (λ t. t ++ bs) p ∙ append_assoc b.visible vs bs

Adds-behind :
    (b : Slice) (fine : Bool) (vs ws : Bytes) (r : Option Slice) (k : Slice → AppendedIntf)
    → Appends b vs r
    → ((m : Slice) → Adds m fine ws (k m))
    → Adds b fine (vs ++ ws) (r >>= k)
Adds-behind b fine vs ws r k (m, e, v) h =
    let (o, bs, f, w, same) = h m in
    (o, vs ++ bs, rw e f, behind b m o vs bs v w, λ t. ap (λ x. vs ++ x) (same t))

Adds-sequence :
    (b : Slice) (c d : Bool) (vs ws : Bytes) (r : AppendedIntf) (k : Slice → AppendedIntf)
    → Adds b c vs r
    → ((m : Slice) → Adds m d ws (k m))
    → Adds b (c && d) (vs ++ ws) (and_append r k)
unfolding and_append
Adds-sequence b true d vs ws r k (m, bs, e, v, same) h =
    let (o, cs, f, w, same') = h m in
    (
      o,
      bs ++ cs,
      rw e f,
      behind b m o bs cs v w,
      λ t. ap (λ x. x ++ cs) (same refl) ∙ ap (λ x. vs ++ x) (same' t),
    )
Adds-sequence b false d vs ws r k (m, bs, e, v, same) h =
    (m, bs, rw e refl, v, λ t. ground (arith, t))

Adds-nothing : (b : Slice) → Adds b true [] (some (b, none))
Adds-nothing b = (b, [], refl, sym (append-nil _), λ _. refl)

Adds-unsupported : (b : Slice) (vs : Bytes) → Adds b false vs (some (b, some err_unsupported_type))
Adds-unsupported b vs = (b, [], refl, sym (append-nil _), λ t. ground (arith, t))

Adds-raw :
    (b : Slice) (r : RawExtension)
    → r.typ < 256
    → Adds b true
        (ext_header (length r.data_slice.visible) r.typ ++ r.data_slice.visible)
        (append_raw b r)
unfolding append_raw raw_extension
Adds-raw b r h =
    let (o, e, v) =
      append_extension-AppendsExt raw_extension r r.data_slice.visible (raw-Encodes r h) b in
    (o, _, rw e refl, v, λ _. refl)

append_pairs-Appends :
    (b : Slice) (m : List (Bytes × Bytes))
    → All (λ (key, val). (length key < 2 ^ 32) × (length val < 2 ^ 32)) m
    → Appends b (pairs_bytes m) (append_pairs b m)
unfolding append_pairs
append_pairs-Appends b [] h = (b, refl, sym (append-nil _))
append_pairs-Appends b ((key, val) ∷ m) ((hk, hv), h) =
    let (b1, e1, v1) = append_string-Appends b key hk in
    let (b2, e2, v2) = append_string-Appends b1 val hv in
    let (b3, e3, v3) = append_pairs-Appends b2 m h in
    (
      b3,
      rw (e1, e2) e3,
      behind b b1 b3 (string_bytes key) (string_bytes val ++ pairs_bytes m) v1
          (behind b1 b2 b3 (string_bytes val) (pairs_bytes m) v2 v3),
    )

map_header_small :
    (b : Slice) (n : ℕ) → n < 2 ^ 32 → Appends b (map_header n) (append_map_header b (to32 n))
map_header_small b n h = rw (to32_small n h) (append_map_header-Appends b n)

array_header_small :
    (b : Slice) (n : ℕ) → n < 2 ^ 32 → Appends b (array_header n) (append_array_header b (to32 n))
array_header_small b n h = rw (to32_small n h) (append_array_header-Appends b n)

pub append_map_str_str-Appends :
    (b : Slice) (m : List (Bytes × Bytes))
    → length m < 2 ^ 32
    → All (λ (key, val). (length key < 2 ^ 32) × (length val < 2 ^ 32)) m
    → Appends b (map_header (length m) ++ pairs_bytes m) (append_map_str_str b m)
unfolding append_map_str_str
append_map_str_str-Appends b m l h =
    let (b1, e1, v1) = map_header_small b (length m) l in
    let (b2, e2, v2) = append_pairs-Appends b1 m h in
    (b2, rw e1 e2, behind b b1 b2 (map_header (length m)) (pairs_bytes m) v1 v2)

-- A map whose keys are no strings is appended if it is empty.
Adds-other_map :
    (b : Slice) (n : ℕ)
    → n < 2 ^ 32
    → Adds b (n == 0) (map_header 0) (
        if to32 n == 0
        then no_error (append_map_header b 0)
        else some (b, some err_unsupported_type))
Adds-other_map b zero h = Adds-all_args b _ _ (append_map_header-Appends b 0)
Adds-other_map b (suc n) h =
    let other : (suc n == 0) ≡ false = ground arith in
    rw (to32_small (suc n) h, other) (Adds-unsupported b (map_header 0))

mutual
  unfolding append_intf value_bytes supported

  intf-Adds :
      (b : Slice) (v : Value) → Fits v → Adds b (supported v) (value_bytes v) (append_intf b v)
  intf-Adds b val_nil h = Adds-all_args b _ _ (append_fixed-Appends b 0 0 true).0
  intf-Adds b (val_bool i) h = Adds-all_args b _ _ (append_fixed-Appends b 0 0 i).1
  intf-Adds b (val_float32 i) h = Adds-all_args b _ _ (append_fixed-Appends b i 0 true).2
  intf-Adds b (val_float64 i) h = Adds-all_args b _ _ (append_fixed-Appends b i 0 true).3
  intf-Adds b (val_complex64 re im) h = Adds-all_args b _ _ (append_fixed-Appends b re im true).4
  intf-Adds b (val_complex128 re im) h = Adds-all_args b _ _ (append_fixed-Appends b re im true).5
  intf-Adds b (val_string i) h = Adds-all_args b _ _ (append_string-Appends b i h)
  intf-Adds b (val_bytes i) h = Adds-all_args b _ _ (append_bytes-Appends b i h)
  intf-Adds b (val_int8 i) h = Adds-all_args b _ _ (append_integer-Appends b i).0
  intf-Adds b (val_int16 i) h = Adds-all_args b _ _ (append_integer-Appends b i).1
  intf-Adds b (val_int32 i) h = Adds-all_args b _ _ (append_integer-Appends b i).2
  intf-Adds b (val_int64 i) h = Adds-all_args b _ _ (append_integer-Appends b i).3
  intf-Adds b (val_int i) h = Adds-all_args b _ _ (append_integer-Appends b i).3
  intf-Adds b (val_uint8 i) h = Adds-all_args b _ _ (append_integer-Appends b i).5
  intf-Adds b (val_uint16 i) h = Adds-all_args b _ _ (append_integer-Appends b i).7
  intf-Adds b (val_uint32 i) h = Adds-all_args b _ _ (append_integer-Appends b i).8
  intf-Adds b (val_uint64 i) h = Adds-all_args b _ _ (append_integer-Appends b i).9
  intf-Adds b (val_uint i) h = Adds-all_args b _ _ (append_integer-Appends b i).9
  intf-Adds b (val_time sec nsec) h = Adds-all_args b _ _ (append_time-Appends b sec nsec)
  intf-Adds b (val_extension i) h = Adds-raw b i h.1
  intf-Adds b (val_map_str_str i) h = Adds-all_args b _ _ (append_map_str_str-Appends b i h.0 h.1)
  intf-Adds b (val_map_str_intf i) h =
      Adds-behind b (supported_entries i) _ (entries_bytes i) _ _
        (map_header_small b (entry_count i) h.0) (λ m. entries-Adds m i h.1)
  intf-Adds b (val_map i) h =
      Adds-behind b (supported_entries i) _ (entries_bytes i) _ _
        (map_header_small b (entry_count i) h.0) (λ m. entries-Adds m i h.1)
  intf-Adds b (val_map_other n) h = Adds-other_map b n h
  intf-Adds b (val_slice i) h =
      Adds-behind b (supported_values i) _ (values_bytes i) _ _
        (array_header_small b (value_count i) h.0) (λ m. values-Adds m i h.1)
  intf-Adds b (val_byte_slice i) h =
      Adds-behind b (supported_values i) _ (values_bytes i) _ _
        (array_header_small b (value_count i) h.0) (λ m. values-Adds m i h.1)
  intf-Adds b (val_array i) h =
      Adds-behind b (supported_values i) _ (values_bytes i) _ _
        (array_header_small b (value_count i) h.0) (λ m. values-Adds m i h.1)
  intf-Adds b (val_ptr i) h = intf-Adds b i h
  intf-Adds b val_nil_ptr h = Adds-all_args b _ _ (append_fixed-Appends b 0 0 true).0
  intf-Adds b val_other h = Adds-unsupported b []

  values-Adds :
      (b : Slice) (vs : Values)
      → FitsValues vs
      → Adds b (supported_values vs) (values_bytes vs) (append_values b vs)
  values-Adds b no_values h = Adds-nothing b
  values-Adds b (value_more i k) (hi, hk) =
      Adds-sequence b (supported i) (supported_values k) (value_bytes i) (values_bytes k) _ _
        (intf-Adds b i hi) (λ m. values-Adds m k hk)

  entries-Adds :
      (b : Slice) (m : Entries)
      → FitsEntries m
      → Adds b (supported_entries m) (entries_bytes m) (append_entries b m)
  entries-Adds b no_entries h = Adds-nothing b
  entries-Adds b (entry_more key val m) (hk, hv, hm) =
      Adds-behind b (supported val && supported_entries m) (key_bytes key)
        (value_bytes val ++ entries_bytes m) _ _ (append_string-Appends b key hk)
        (λ b'.
          Adds-sequence b' (supported val) (supported_entries m) (value_bytes val) (entries_bytes m)
            _ _ (intf-Adds b' val hv) (λ b''. entries-Adds b'' m hm))

-- AppendIntf on a value whose lengths fit in 32 bits returns. If no part of the value, however deep, has
-- an unsupported type, it appends the bytes of the value without an error; else it answers
-- ErrUnsupportedType, and the bytes of `b` are still in front.
pub append_intf-Adds :
    (b : Slice) (v : Value) → Fits v → Adds b (supported v) (value_bytes v) (append_intf b v)
append_intf-Adds b v h = intf-Adds b v h
