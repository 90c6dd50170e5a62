-- ===== src/Msgp/Value/Skips.antt =====
-- msgp/read_bytes.go: Skip on the bytes of an interface value.
pub mod Parts
use truepack.Prelude.{suc, ◌*◌, ◌≡◌, true, ◌++◌, arith, length}
use Parts.{
  and_parts, Skips, SkipsAll, nothing-SkipsAll, flat-Skips, more-SkipsAll, map_header-Measures,
  ext_header-Measures, string-Skips, double, pairs-SkipsAll, map-Skips, array-Skips,
  complex-Measures,
}
use mathlib.Core.Path.{subst}
use truepack.Msgp.Append.Format.{map_header}
use truepack.Msgp.Edit.Format.{key_bytes, IsObject}
use truepack.Msgp.Skip.{skip_bytes}
use truepack.Msgp.Skip.Flat.{bin-IsFlat, fixed-IsFlat, time-IsFlat}
use truepack.Msgp.Value.{
  Value, val_nil, val_bool, val_float32, val_float64, val_complex64, val_complex128, val_string,
  val_bytes, val_int8, val_int16, val_int32, val_int64, val_int, val_uint8, val_uint16, val_uint32,
  val_uint64, val_uint, val_time, val_extension, val_map_str_str, val_map_str_intf, val_map,
  val_map_other, val_slice, val_byte_slice, val_array, val_ptr, val_nil_ptr, val_other, Values,
  no_values, value_more, Entries, no_entries, entry_more, value_count, entry_count,
}
use truepack.Msgp.Value.Format.{
  value_bytes, values_bytes, entries_bytes, supported, supported_values, supported_entries, Fits,
  FitsValues, FitsEntries,
}
use truepack.Msgp.Writer.Objects.Api.{pairs_bytes}

mutual
  unfolding value_bytes supported

  intf-Skips : (v : Value) → Fits v → supported v ≡ true → Skips (value_bytes v)
  intf-Skips val_nil h s = flat-Skips (value_bytes val_nil) (λ rest. (fixed-IsFlat rest 0 true).0.1)
  intf-Skips (val_bool i) h s =
      flat-Skips (value_bytes (val_bool i)) (λ rest. (fixed-IsFlat rest 0 i).1.1)
  intf-Skips (val_float32 i) h s =
      flat-Skips (value_bytes (val_float32 i)) (λ rest. (fixed-IsFlat rest i true).2.1)
  intf-Skips (val_float64 i) h s =
      flat-Skips (value_bytes (val_float64 i)) (λ rest. (fixed-IsFlat rest i true).3.1)
  intf-Skips (val_complex64 re im) h s =
      flat-Skips (value_bytes (val_complex64 re im)) (complex-Measures re im).0
  intf-Skips (val_complex128 re im) h s =
      flat-Skips (value_bytes (val_complex128 re im)) (complex-Measures re im).1
  intf-Skips (val_string i) h s = string-Skips i h
  intf-Skips (val_bytes i) h s =
      flat-Skips (value_bytes (val_bytes i)) (λ rest. (bin-IsFlat rest i h).1)
  intf-Skips (val_int8 i) h s =
      flat-Skips (value_bytes (val_int8 i)) (λ rest. (fixed-IsFlat rest i true).4.1)
  intf-Skips (val_int16 i) h s =
      flat-Skips (value_bytes (val_int16 i)) (λ rest. (fixed-IsFlat rest i true).5.1)
  intf-Skips (val_int32 i) h s =
      flat-Skips (value_bytes (val_int32 i)) (λ rest. (fixed-IsFlat rest i true).6.1)
  intf-Skips (val_int64 i) h s =
      flat-Skips (value_bytes (val_int64 i)) (λ rest. (fixed-IsFlat rest i true).7.1)
  intf-Skips (val_int i) h s =
      flat-Skips (value_bytes (val_int i)) (λ rest. (fixed-IsFlat rest i true).7.1)
  intf-Skips (val_uint8 i) h s =
      flat-Skips (value_bytes (val_uint8 i)) (λ rest. (fixed-IsFlat rest i true).8.1)
  intf-Skips (val_uint16 i) h s =
      flat-Skips (value_bytes (val_uint16 i)) (λ rest. (fixed-IsFlat rest i true).9.1)
  intf-Skips (val_uint32 i) h s =
      flat-Skips (value_bytes (val_uint32 i)) (λ rest. (fixed-IsFlat rest i true).10.1)
  intf-Skips (val_uint64 i) h s =
      flat-Skips (value_bytes (val_uint64 i)) (λ rest. (fixed-IsFlat rest i true).11.1)
  intf-Skips (val_uint i) h s =
      flat-Skips (value_bytes (val_uint i)) (λ rest. (fixed-IsFlat rest i true).11.1)
  intf-Skips (val_time sec nsec) h s =
      flat-Skips (value_bytes (val_time sec nsec)) (λ rest. (time-IsFlat rest sec nsec).1)
  intf-Skips (val_extension i) h s =
      flat-Skips (value_bytes (val_extension i))
        (ext_header-Measures i.data_slice.visible i.typ h.0)
  intf-Skips (val_map_str_str i) h s =
      map-Skips (length i) (pairs_bytes i) h.0 (pairs-SkipsAll i h.1)
  intf-Skips (val_map_str_intf i) h s =
      map-Skips (entry_count i) (entries_bytes i) h.0 (entries-SkipsAll i h.1 s)
  intf-Skips (val_map i) h s =
      map-Skips (entry_count i) (entries_bytes i) h.0 (entries-SkipsAll i h.1 s)
  intf-Skips (val_map_other n) h s = flat-Skips (map_header 0) (map_header-Measures 0 (omega arith))
  intf-Skips (val_slice i) h s =
      array-Skips (value_count i) (values_bytes i) h.0 (values-SkipsAll i h.1 s)
  intf-Skips (val_byte_slice i) h s =
      array-Skips (value_count i) (values_bytes i) h.0 (values-SkipsAll i h.1 s)
  intf-Skips (val_array i) h s =
      array-Skips (value_count i) (values_bytes i) h.0 (values-SkipsAll i h.1 s)
  intf-Skips (val_ptr i) h s = intf-Skips i h s
  intf-Skips val_nil_ptr h s =
      flat-Skips (value_bytes val_nil_ptr) (λ rest. (fixed-IsFlat rest 0 true).0.1)
  intf-Skips val_other h s = ground (arith, s)

  values-SkipsAll :
      (vs : Values)
      → FitsValues vs
      → supported_values vs ≡ true
      → SkipsAll (value_count vs) (values_bytes vs)
  values-SkipsAll no_values h s = nothing-SkipsAll
  values-SkipsAll (value_more i k) (hi, hk) s =
      let (si, sk) = and_parts (supported i) (supported_values k) s in
      more-SkipsAll (value_bytes i) (values_bytes k) (value_count k) (intf-Skips i hi si)
        (values-SkipsAll k hk sk)

  entries-SkipsAll :
      (m : Entries)
      → FitsEntries m
      → supported_entries m ≡ true
      → SkipsAll (2 * entry_count m) (entries_bytes m)
  entries-SkipsAll no_entries h s = nothing-SkipsAll
  entries-SkipsAll (entry_more key val m) (hk, hv, hm) s =
      let (sv, sm) = and_parts (supported val) (supported_entries m) s in
      subst (λ n. SkipsAll n (entries_bytes (entry_more key val m))) (double (entry_count m))
        (more-SkipsAll (key_bytes key) _ _ (string-Skips key hk) (
          more-SkipsAll (value_bytes val) (entries_bytes m) (2 * entry_count m)
            (intf-Skips val hv sv) (entries-SkipsAll m hm sm)))

-- The bytes of a value whose lengths fit in 32 bits, with no part of an unsupported type, are one object:
-- Skip takes just them off the front of any bytes, whatever the depth of its maps and arrays.
pub value_bytes-IsObject : (v : Value) → Fits v → supported v ≡ true → IsObject (value_bytes v)
unfolding skip_bytes
value_bytes-IsObject v h s rest =
    intf-Skips v h s (suc (length (value_bytes v ++ rest))) rest (omega arith)
