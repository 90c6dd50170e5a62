-- ===== src/Msgp/Value/Write/Laws.antt =====
-- msgp/write.go: WriteIntf against the bytes of a value on a stream.
use truepack.Prelude.{◌<◌, ◌≡◌, true, false, [], ◌++◌, arith, length}
use truepack.Msgp.Append.Format.{map_header, array_header, bin_header}
use truepack.Msgp.Append.Laws.{to32_small}
use truepack.Msgp.Edit.Format.{key_bytes}
use truepack.Msgp.Extension.{RawExtension, raw_extension}
use truepack.Msgp.Value.{
  Value, val_nil, val_bool, val_float32, val_float64, val_complex64, val_complex128, val_string,
  val_bytes, val_int8, val_int16, val_int32, val_int64, val_int, val_uint8, val_uint16, val_uint32,
  val_uint64, val_uint, val_time, val_extension, val_map_str_str, val_map_str_intf, val_map,
  val_map_other, val_slice, val_byte_slice, val_array, val_ptr, val_nil_ptr, val_other, Values,
  no_values, value_more, Entries, no_entries, entry_more, value_count, uint8s, length-uint8s,
  entry_count,
}
use truepack.Msgp.Value.Format.{value_bytes, Fits, FitsValues, FitsEntries}
use truepack.Msgp.Value.Write.{write_raw, write_intf, write_values, write_entries}
use truepack.Msgp.Wire.{Bytes}
use truepack.Msgp.Writer.{IoWriter, Writer}
use truepack.Msgp.Writer.Extension.Laws.{stream_ext_header}
use truepack.Msgp.Writer.Extension.Raw.{write_raw_extension-Writes}
use truepack.Msgp.Writer.Objects.Api.{
  int8_bytes, uint8_bytes, WriteOp, op_nil, op_float64, op_float32, op_int64, op_int32, op_int16,
  op_int8, op_int, op_uint64, op_uint32, op_uint16, op_uint8, op_uint, op_bytes, op_bool, op_string,
  op_complex64, op_complex128, op_time, op_map_str_str, encoding, InRange, write_object,
}
use truepack.Msgp.Writer.Objects.Laws.{write_map_header-Writes, write_array_header-Writes}
use truepack.Msgp.Writer.Objects.Refine.{write_string-Writes, write_nothing, write_object-Writes}
use truepack.Msgp.Writer.Output.{IsIoWriter, IsWriter, Writes, and_then-Writes}

-- As value_bytes, but for the integers of 8 bits, the extensions and the named byte slices.
unfoldable mutual
  pub stream_bytes : Value → Bytes
  stream_bytes (val_int8 i) = int8_bytes i
  stream_bytes (val_uint8 i) = uint8_bytes i
  stream_bytes (val_extension r) =
      stream_ext_header (length r.data_slice.visible) r.typ ++ r.data_slice.visible
  stream_bytes (val_map_str_intf m) = map_header (entry_count m) ++ stream_entries m
  stream_bytes (val_byte_slice vs) = bin_header (length (uint8s vs)) ++ uint8s vs
  stream_bytes (val_slice vs) = array_header (value_count vs) ++ stream_values vs
  stream_bytes (val_ptr v) = stream_bytes v
  stream_bytes v = value_bytes v

  pub stream_values : Values → Bytes
  stream_values no_values = []
  stream_values (value_more v vs) = stream_bytes v ++ stream_values vs

  pub stream_entries : Entries → Bytes
  stream_entries no_entries = []
  stream_entries (entry_more key val m) = key_bytes key ++ (stream_bytes val ++ stream_entries m)

-- No part is an array, a map of another type than the two or of an unsupported type; integers of 8 bits
-- are below 256.
abbrev mutual
  pub Streams : Value → Type 0
  Streams (val_int8 i) = i < 256
  Streams (val_uint8 i) = i < 256
  Streams (val_map_str_intf m) = StreamsEntries m
  Streams (val_slice vs) = StreamsValues vs
  Streams (val_ptr v) = Streams v
  Streams (val_array vs) = false ≡ true
  Streams (val_map m) = false ≡ true
  Streams (val_map_other n) = false ≡ true
  Streams val_other = false ≡ true
  Streams _ = Unit {0}

  pub StreamsValues : Values → Type 0
  StreamsValues no_values = Unit {0}
  StreamsValues (value_more v vs) = Streams v × StreamsValues vs

  pub StreamsEntries : Entries → Type 0
  StreamsEntries no_entries = Unit {0}
  StreamsEntries (entry_more key val m) = Streams val × StreamsEntries m

module _ {W X : Type 0} (io : IoWriter W X) (unsupported : X) (accepted : W → Bytes)
    (law : IsIoWriter io accepted) where
  write_raw-Writes :
      (mw : Writer W) (r : RawExtension)
      → IsWriter mw
      → r.typ < 256
      → Writes accepted mw (stream_bytes (val_extension r)) (write_raw io unsupported mw r)
  unfolding write_raw raw_extension stream_bytes
  write_raw-Writes mw r i h = write_raw_extension-Writes io accepted law (λ u. unsupported) mw r i h

  -- A value that one of the other methods writes.
  object :
      (mw : Writer W) (op : WriteOp)
      → IsWriter mw
      → InRange op
      → Writes accepted mw (encoding op) (write_object io mw op)
  object mw op i h = write_object-Writes io accepted law mw op i h

  mutual
    unfolding stream_bytes write_intf value_bytes encoding write_object

    intf-Writes :
        (mw : Writer W) (v : Value)
        → IsWriter mw
        → Fits v
        → Streams v
        → Writes accepted mw (stream_bytes v) (write_intf io unsupported mw v)
    intf-Writes mw val_nil i h s = object mw op_nil i tt
    intf-Writes mw (val_bool b) i h s = object mw (op_bool b) i tt
    intf-Writes mw (val_float32 x) i h s = object mw (op_float32 x) i tt
    intf-Writes mw (val_float64 x) i h s = object mw (op_float64 x) i tt
    intf-Writes mw (val_complex64 re im) i h s = object mw (op_complex64 re im) i tt
    intf-Writes mw (val_complex128 re im) i h s = object mw (op_complex128 re im) i tt
    intf-Writes mw (val_string x) i h s = object mw (op_string x) i h
    intf-Writes mw (val_bytes x) i h s = object mw (op_bytes x) i h
    intf-Writes mw (val_int8 x) i h s = object mw (op_int8 x) i s
    intf-Writes mw (val_int16 x) i h s = object mw (op_int16 x) i tt
    intf-Writes mw (val_int32 x) i h s = object mw (op_int32 x) i tt
    intf-Writes mw (val_int64 x) i h s = object mw (op_int64 x) i tt
    intf-Writes mw (val_int x) i h s = object mw (op_int x) i tt
    intf-Writes mw (val_uint8 x) i h s = object mw (op_uint8 x) i s
    intf-Writes mw (val_uint16 x) i h s = object mw (op_uint16 x) i tt
    intf-Writes mw (val_uint32 x) i h s = object mw (op_uint32 x) i tt
    intf-Writes mw (val_uint64 x) i h s = object mw (op_uint64 x) i tt
    intf-Writes mw (val_uint x) i h s = object mw (op_uint x) i tt
    intf-Writes mw (val_time sec nsec) i h s = object mw (op_time sec nsec) i tt
    intf-Writes mw (val_extension r) i h s = write_raw-Writes mw r i h.1
    intf-Writes mw (val_map_str_str m) i h s = object mw (op_map_str_str m) i h
    intf-Writes mw (val_map_str_intf m) i h s = rw (to32_small (entry_count m) h.0) (
        and_then-Writes io accepted mw (map_header (entry_count m)) (stream_entries m) _ _
          (write_map_header-Writes io accepted law mw i (entry_count m))
          (λ w j. entries-Writes w m j.0 h.1 s))
    intf-Writes mw (val_map m) i h s = ground (arith, s)
    intf-Writes mw (val_map_other n) i h s = ground (arith, s)
    intf-Writes mw (val_slice vs) i h s = rw (to32_small (value_count vs) h.0) (
        and_then-Writes io accepted mw (array_header (value_count vs)) (stream_values vs) _ _
          (write_array_header-Writes io accepted law mw i (value_count vs))
          (λ w j. values-Writes w vs j.0 h.1 s))
    intf-Writes mw (val_byte_slice vs) i h s =
        object mw (op_bytes (uint8s vs)) i (rw (length-uint8s vs) h.0)
    intf-Writes mw (val_array vs) i h s = ground (arith, s)
    intf-Writes mw (val_ptr v) i h s = intf-Writes mw v i h s
    intf-Writes mw val_nil_ptr i h s = object mw op_nil i tt
    intf-Writes mw val_other i h s = ground (arith, s)

    values-Writes :
        (mw : Writer W) (vs : Values)
        → IsWriter mw
        → FitsValues vs
        → StreamsValues vs
        → Writes accepted mw (stream_values vs) (write_values io unsupported mw vs)
    values-Writes mw no_values i h s = write_nothing io accepted law mw i
    values-Writes mw (value_more v vs) i (hv, h) (sv, s) =
        and_then-Writes io accepted mw (stream_bytes v) (stream_values vs) _ _
          (intf-Writes mw v i hv sv) (λ w j. values-Writes w vs j.0 h s)

    entries-Writes :
        (mw : Writer W) (m : Entries)
        → IsWriter mw
        → FitsEntries m
        → StreamsEntries m
        → Writes accepted mw (stream_entries m) (write_entries io unsupported mw m)
    entries-Writes mw no_entries i h s = write_nothing io accepted law mw i
    entries-Writes mw (entry_more key v m) i (hk, hv, h) (sv, s) =
        and_then-Writes io accepted mw (key_bytes key) (stream_bytes v ++ stream_entries m) _ _
          (write_string-Writes io accepted law mw key i hk)
          (λ w j.
            and_then-Writes io accepted w (stream_bytes v) (stream_entries m) _ _
              (intf-Writes w v j.0 hv sv) (λ w' k. entries-Writes w' m k.0 h s))

  -- WriteIntf on a writer in order, for a value of any depth whose lengths fit in 32 bits and that has no
  -- part of a type that it refuses or panics on, does not panic: the output grows by the bytes of the
  -- value, however the buffer is flushed in between, or there is an error and it grows by a prefix.
  pub write_intf-Writes :
      (mw : Writer W) (v : Value)
      → IsWriter mw
      → Fits v
      → Streams v
      → Writes accepted mw (stream_bytes v) (write_intf io unsupported mw v)
  write_intf-Writes mw v i h s = intf-Writes mw v i h s
