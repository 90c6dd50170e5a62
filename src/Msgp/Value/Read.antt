-- ===== src/Msgp/Value/Read.antt =====
-- msgp/read_bytes.go: ReadIntfBytes and ReadMapStrIntfBytes. The map that is read is a list of entries,
-- the nil map and the empty one being no_entries; so what ReadMapStrIntfBytes returns does not depend on
-- `old`, which it empties. No extension type is registered, so that each is read as a *RawExtension.
-- Fuel bounds the depth; ReadIntfBytes gets one unit more than its input has bytes. `none` is a panic.
use truepack.Prelude.{ℕ, zero, suc, Option, none, some, [], ◌∷◌, ltb, if◌then◌else◌, ◌>>=◌, length}
use truepack.Msgp.Edit.{same_bytes}
use truepack.Msgp.Extension.{
  CodecError, own_error, user_error, raw_extension, read_extension_bytes, peek_extension,
}
use truepack.Msgp.Nilbits.{NilBitsStack}
use truepack.Msgp.Read.{
  read_int64_bytes, read_int32_bytes, read_int16_bytes, read_int8_bytes, Read, ok, fail, nil_guard,
  read_bytes_bytes, nil_slice, read_string_bytes, read_map_key_zc, read_float32_bytes,
  read_float64_bytes, read_map_header_bytes, read_array_header_bytes, read_nil_bytes,
  read_bool_bytes, read_complex128_bytes, read_complex64_bytes, read_time_bytes, read_uint64_bytes,
  read_uint32_bytes, read_uint16_bytes, read_uint8_bytes,
}
use truepack.Msgp.Skip.{next_type}
use truepack.Msgp.Value.{
  Value, val_nil, val_bool, val_float32, val_float64, val_complex64, val_complex128, val_string,
  val_bytes, val_int8, val_int16, val_int32, val_int64, val_uint8, val_uint16, val_uint32,
  val_uint64, val_time, val_extension, val_map_str_intf, val_slice, Values, no_values, value_more,
  Entries, no_entries, entry_more,
}
use truepack.Msgp.Wire.{
  Bytes, WireType, invalid_type, str_type, bin_type, map_type, array_type, float64_type,
  float32_type, bool_type, int8_type, int16_type, int32_type, int64_type, uint8_type, uint16_type,
  uint32_type, uint64_type, nil_type, extension_type, complex64_type, complex128_type, time_type,
  Error, err_short_bytes, invalid_prefix_error,
}

-- `v[key] = val`
unfoldable pub put_entry : Bytes → Value → Entries → Entries
unfolding same_bytes
put_entry key val no_entries = entry_more key val no_entries
put_entry key val (entry_more k v es) =
    let rest = put_entry key val es in
    if same_bytes k key then entry_more k val es else entry_more k v rest

-- `make([]interface{}, n)`
abbrev pub nil_values : ℕ → Values
nil_values zero = no_values
nil_values (suc n) = value_more val_nil (nil_values n)

-- `i, o, err = r; return`
unfoldable pub as_value : {A : Type 0} → (A → Value) → Read A → Read Value
as_value f r = r >>= λ (v, o, err). some (f v, o, err)

-- The error of ReadExtensionBytes; RawExtension has none of its own.
unfoldable pub ext_error : Option (CodecError (Unit {0})) → Option Error
ext_error none = none
ext_error (some (own_error e)) = some e
ext_error (some (user_error u)) = none

module _ (nbs : Option NilBitsStack) (read : Bytes → Read Value) where
  -- The loop of the array; what it does not reach is nil.
  unfoldable pub read_values : ℕ → Bytes → Read Values
  read_values zero o = ok no_values o
  read_values (suc n) o = read o >>= λ (v, o', err). elim err [
    | none ↦ read_values n o' >>= λ (vs, o'', err'). some (value_more v vs, o'', err')
    | some e ↦ some (value_more v (nil_values n), o', some e)
  ]

  -- The loop of ReadMapStrIntfBytes, with the map as it is so far.
  unfoldable pub read_entries : ℕ → Entries → Bytes → Read Entries
  unfolding put_entry
  read_entries zero v o = ok v o
  read_entries (suc n) v o =
      if ltb (length o) 1
      then some (v, o, some err_short_bytes)
      else (read_map_key_zc nbs o >>= λ (key, o', err). elim err [
        | some e ↦ some (v, o', some e)
        | none ↦ read o' >>= λ (val, o'', err'). elim err' [
          | some e ↦ some (v, o'', some e)
          | none ↦ read_entries n (put_entry key val v) o''
        ]
      ])

  -- From ReadMapHeaderBytes on.
  unfoldable pub map_body : Bytes → Read Entries
  unfolding read_entries
  map_body b = read_map_header_bytes nbs b >>= λ (sz, o, err). elim err [
    | some e ↦ some (no_entries, o, some e)
    | none ↦ read_entries sz no_entries o
  ]

  unfoldable pub read_map_str_intf_with : Bytes → Read Entries
  unfolding map_body
  read_map_str_intf_with b = nil_guard nbs b no_entries (map_body b)

  -- The `switch k`, on an input that starts with `lead`.
  unfoldable pub intf_by_type : ℕ → Bytes → WireType → Read Value
  unfolding as_value read_values read_map_str_intf_with ext_error
  intf_by_type lead b map_type = as_value val_map_str_intf (read_map_str_intf_with b)
  intf_by_type lead b array_type = read_array_header_bytes nbs b >>= λ (sz, o, err). elim err [
    | some e ↦ some (val_nil, o, some e)
    | none ↦ as_value val_slice (read_values sz o)
  ]
  intf_by_type lead b float32_type = as_value val_float32 (read_float32_bytes nbs b)
  intf_by_type lead b float64_type = as_value val_float64 (read_float64_bytes nbs b)
  intf_by_type lead b int8_type = as_value val_int8 (read_int8_bytes nbs b)
  intf_by_type lead b int16_type = as_value val_int16 (read_int16_bytes nbs b)
  intf_by_type lead b int32_type = as_value val_int32 (read_int32_bytes nbs b)
  intf_by_type lead b int64_type = as_value val_int64 (read_int64_bytes nbs b)
  intf_by_type lead b uint8_type = as_value val_uint8 (read_uint8_bytes nbs b)
  intf_by_type lead b uint16_type = as_value val_uint16 (read_uint16_bytes nbs b)
  intf_by_type lead b uint32_type = as_value val_uint32 (read_uint32_bytes nbs b)
  intf_by_type lead b uint64_type = as_value val_uint64 (read_uint64_bytes nbs b)
  intf_by_type lead b bool_type = as_value val_bool (read_bool_bytes nbs b)
  intf_by_type lead b time_type =
      as_value (λ (sec, nsec). val_time sec nsec) (read_time_bytes nbs b)
  intf_by_type lead b complex64_type =
      as_value (λ (re, im). val_complex64 re im) (read_complex64_bytes nbs b)
  intf_by_type lead b complex128_type =
      as_value (λ (re, im). val_complex128 re im) (read_complex128_bytes nbs b)
  intf_by_type lead b extension_type = peek_extension b >>= λ (t, err). elim err [
    | some e ↦ fail val_nil [] e
    | none ↦
        read_extension_bytes raw_extension nbs b (record { data_slice = nil_slice; typ = t })
        >>= λ (o, e, err'). some (val_extension e, o, ext_error err')
  ]
  intf_by_type lead b nil_type = let (o, err) = read_nil_bytes nbs b in some (val_nil, o, err)
  intf_by_type lead b bin_type = as_value val_bytes (read_bytes_bytes nbs b nil_slice)
  intf_by_type lead b str_type = as_value val_string (read_string_bytes nbs b)
  intf_by_type lead b invalid_type = fail val_nil [] (invalid_prefix_error lead)

  -- From the test `len(b) < 1` on.
  unfoldable pub intf_body : Bytes → Read Value
  unfolding intf_by_type
  intf_body [] = fail val_nil [] err_short_bytes
  intf_body (lead ∷ t) = next_type (lead ∷ t) >>= λ k. intf_by_type lead (lead ∷ t) k

unfoldable pub read_intf : ℕ → Option NilBitsStack → Bytes → Read Value
unfolding intf_body
read_intf zero nbs b = none
read_intf (suc fuel) nbs b = nil_guard nbs b val_nil (intf_body nbs (read_intf fuel nbs) b)

unfoldable pub read_intf_bytes : Option NilBitsStack → Bytes → Read Value
unfolding read_intf
read_intf_bytes nbs b = read_intf (suc (length b)) nbs b

unfoldable pub read_map_str_intf_bytes : Option NilBitsStack → Bytes → Read Entries
unfolding read_intf read_map_str_intf_with
read_map_str_intf_bytes nbs b = read_map_str_intf_with nbs (read_intf (suc (length b)) nbs) b
