-- ===== src/Msgp/Value/Write.antt =====
-- msgp/write.go: WriteIntf, WriteMapStrIntf, writeSlice and writeMap. `unsupported` is the error for a
-- type that is not supported. Lengths are below 2 ^ 32. `none` is a panic: writeMap calls Elem on the
-- reflect.Value of a map, which only a pointer or an interface has.
pub mod Laws
use truepack.Prelude.{Bool, true, false, none, some, if◌then◌else◌}
use truepack.Msgp.Append.{to32}
use truepack.Msgp.Extension.{RawExtension, raw_extension}
use truepack.Msgp.Value.{
  Value, val_nil, val_bool, val_float32, val_float64, val_complex64, val_complex128, val_string,
  val_bytes, val_int8, val_int16, val_int32, val_int64, val_int, val_uint8, val_uint16, val_uint32,
  val_uint64, val_uint, val_time, val_extension, val_map_str_str, val_map_str_intf, val_map,
  val_map_other, val_slice, val_byte_slice, val_array, val_ptr, val_nil_ptr, val_other, Values,
  no_values, value_more, Entries, no_entries, entry_more, value_count, uint8s, entry_count,
}
use truepack.Msgp.Writer.{IoWriter, Writer, Written, and_then}
use truepack.Msgp.Writer.Extension.{write_extension}
use truepack.Msgp.Writer.Objects.{
  write_map_header, write_array_header, write_nil, write_float64, write_float32, write_int64,
  write_int8, write_int16, write_int32, write_int, write_uint64, write_uint8, write_uint16,
  write_uint32, write_uint, write_bytes, write_bool, write_string, write_complex64,
  write_complex128, write_time, write_map_str_str,
}

module _ {W X : Type 0} (io : IoWriter W X) (unsupported : X) where
  unfoldable pub write_raw : Writer W → RawExtension → Written io
  write_raw mw r = write_extension io raw_extension (λ u. unsupported) mw r

  unfoldable pub write_map : Writer W → Written io
  write_map mw = none

  -- writeSlice, with the test whether the type is convertible to []byte, and with its loop.
  unfoldable pub write_slice : Writer W → Bool → Values → (Writer W → Written io) → Written io
  unfolding and_then
  write_slice mw convertible v loop =
      if convertible
      then write_bytes io mw (uint8s v)
      else and_then io (write_array_header io mw (to32 (value_count v))) loop

  unfoldable mutual
    unfolding and_then write_raw write_map write_slice

    pub write_intf : Writer W → Value → Written io
    write_intf mw val_nil = write_nil io mw
    write_intf mw (val_extension v) = write_raw mw v
    write_intf mw (val_bool v) = write_bool io mw v
    write_intf mw (val_float32 v) = write_float32 io mw v
    write_intf mw (val_float64 v) = write_float64 io mw v
    write_intf mw (val_complex64 re im) = write_complex64 io mw re im
    write_intf mw (val_complex128 re im) = write_complex128 io mw re im
    write_intf mw (val_uint8 v) = write_uint8 io mw v
    write_intf mw (val_uint16 v) = write_uint16 io mw v
    write_intf mw (val_uint32 v) = write_uint32 io mw v
    write_intf mw (val_uint64 v) = write_uint64 io mw v
    write_intf mw (val_uint v) = write_uint io mw v
    write_intf mw (val_int8 v) = write_int8 io mw v
    write_intf mw (val_int16 v) = write_int16 io mw v
    write_intf mw (val_int32 v) = write_int32 io mw v
    write_intf mw (val_int64 v) = write_int64 io mw v
    write_intf mw (val_int v) = write_int io mw v
    write_intf mw (val_string v) = write_string io mw v
    write_intf mw (val_bytes v) = write_bytes io mw v
    write_intf mw (val_map_str_str v) = write_map_str_str io mw v
    -- WriteMapStrIntf
    write_intf mw (val_map_str_intf v) =
        and_then io (write_map_header io mw (to32 (entry_count v))) (λ m. write_entries m v)
    write_intf mw (val_time sec nsec) = write_time io mw sec nsec
    write_intf mw val_nil_ptr = write_nil io mw
    write_intf mw (val_ptr v) = write_intf mw v
    write_intf mw (val_byte_slice v) = write_slice mw true v (λ m. write_values m v)
    write_intf mw (val_slice v) = write_slice mw false v (λ m. write_values m v)
    write_intf mw (val_map v) = write_map mw
    write_intf mw (val_map_other n) = write_map mw
    write_intf mw (val_array v) = some (mw, some unsupported)
    write_intf mw val_other = some (mw, some unsupported)

    pub write_values : Writer W → Values → Written io
    write_values mw no_values = some (mw, none)
    write_values mw (value_more v vs) = and_then io (write_intf mw v) (λ m. write_values m vs)

    pub write_entries : Writer W → Entries → Written io
    write_entries mw no_entries = some (mw, none)
    write_entries mw (entry_more key val mp) =
        and_then io (write_string io mw key)
          (λ m. and_then io (write_intf m val) (λ m'. write_entries m' mp))
