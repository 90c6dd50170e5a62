-- ===== src/Msgp/Value/RoundTrip.antt =====
-- msgp/write_bytes.go and msgp/read_bytes.go: AppendIntf, then ReadIntfBytes.
pub mod Wire
pub mod Holders
use truepack.Prelude.{ℕ, suc, ◌+◌, ◌≡◌, true, false, Option, none, some, ◌++◌, arith, length}
use Holders.{array-Reads, map-Reads, extension-Reads, pairs-ReadsEntries, empty-Reads}
use Wire.{
  wire_pairs, wire_value, wire_values, wire_entries, Readable, ReadableValues, ReadableEntries,
  count_values, count_entries, count_pairs, wire-Apart,
}
use truepack.Msgp.Nilbits.{NilBitsStack, is_always_nil}
use truepack.Msgp.Read.{ok}
use truepack.Msgp.Slice.{Slice}
use truepack.Msgp.Stream.{at}
use truepack.Msgp.Value.{
  Value, val_nil, val_bool, val_float32, val_float64, val_complex64, val_complex128, val_string,
  val_bytes, val_int8, val_int16, val_int32, val_int64, val_int, val_uint8, val_uint16, val_uint32,
  val_uint64, val_uint, val_time, val_extension, val_map_str_str, val_map_str_intf, val_map,
  val_map_other, val_slice, val_byte_slice, val_array, val_ptr, val_nil_ptr, val_other, Values,
  no_values, value_more, Entries, no_entries, entry_more, value_count, entry_count, append_intf,
}
use truepack.Msgp.Value.Format.{
  value_bytes, values_bytes, entries_bytes, supported, supported_values, supported_entries, Fits,
  FitsValues, FitsEntries,
}
use truepack.Msgp.Value.Laws.{append_intf-Adds}
use truepack.Msgp.Value.Maps.{
  Distinct, ReadsValues, ReadsEntries, none-ReadsValues, more-ReadsValues, none-ReadsEntries,
  more-ReadsEntries,
}
use truepack.Msgp.Value.Read.{read_intf_bytes}
use truepack.Msgp.Value.Skips.Parts.{and_parts}
use truepack.Msgp.Value.Trips.{
  Reads, nil-Reads, int-Reads, uint-Reads, bool-Reads, float-Reads, complex-Reads, blob-Reads,
  time-Reads,
}
use truepack.Msgp.Wire.{Bytes}
use truepack.Msgp.Writer.Objects.Api.{pairs_bytes}

module _ (nbs : Option NilBitsStack) (live : is_always_nil nbs ≡ false) where
  mutual
    unfolding value_bytes supported wire_value

    intf-Reads :
        (behind : ℕ) (v : Value)
        → Fits v
        → supported v ≡ true
        → Readable behind v
        → Reads nbs live behind (value_bytes v) (wire_value v)
    intf-Reads behind val_nil h s r = nil-Reads nbs live behind
    intf-Reads behind (val_bool i) h s r = bool-Reads nbs live behind i
    intf-Reads behind (val_float32 i) h s r = (float-Reads nbs live behind i).0 r
    intf-Reads behind (val_float64 i) h s r = (float-Reads nbs live behind i).1 r
    intf-Reads behind (val_complex64 re im) h s r =
        (complex-Reads nbs live behind re im r.0).0 r.1 r.2
    intf-Reads behind (val_complex128 re im) h s r =
        (complex-Reads nbs live behind re im r.0).1 r.1 r.2
    intf-Reads behind (val_string i) h s r = (blob-Reads nbs live behind i h).0
    intf-Reads behind (val_bytes i) h s r = (blob-Reads nbs live behind i h).1
    intf-Reads behind (val_int8 i) h s r = (int-Reads nbs live behind i).0 r
    intf-Reads behind (val_int16 i) h s r = (int-Reads nbs live behind i).1 r
    intf-Reads behind (val_int32 i) h s r = (int-Reads nbs live behind i).2 r
    intf-Reads behind (val_int64 i) h s r = (int-Reads nbs live behind i).3 r
    intf-Reads behind (val_int i) h s r = (int-Reads nbs live behind i).3 r
    intf-Reads behind (val_uint8 i) h s r = (uint-Reads nbs live behind i).0 r
    intf-Reads behind (val_uint16 i) h s r = (uint-Reads nbs live behind i).1 r
    intf-Reads behind (val_uint32 i) h s r = (uint-Reads nbs live behind i).2 r
    intf-Reads behind (val_uint64 i) h s r = (uint-Reads nbs live behind i).3 r
    intf-Reads behind (val_uint i) h s r = (uint-Reads nbs live behind i).3 r
    intf-Reads behind (val_time sec nsec) h s r = time-Reads nbs live behind sec nsec r.0 r.1
    intf-Reads behind (val_extension i) h s r = extension-Reads nbs live behind i h.0 r
    intf-Reads behind (val_map_str_str m) h s r =
        map-Reads nbs live behind (length m) (pairs_bytes m) (wire_pairs m) h.0 (count_pairs m)
          (pairs-ReadsEntries nbs live behind m h.1 r)
    intf-Reads behind (val_map_str_intf m) h s r =
        map-Reads nbs live behind (entry_count m) (entries_bytes m) (wire_entries m) h.0
          (count_entries m) (entries-Reads behind m h.1 s r.0 r.1)
    intf-Reads behind (val_map m) h s r =
        map-Reads nbs live behind (entry_count m) (entries_bytes m) (wire_entries m) h.0
          (count_entries m) (entries-Reads behind m h.1 s r.0 r.1)
    intf-Reads behind (val_map_other n) h s r = empty-Reads nbs live behind
    intf-Reads behind (val_slice vs) h s r =
        array-Reads nbs live behind (value_count vs) (values_bytes vs) (wire_values vs) h.0
          (count_values vs) (values-Reads behind vs h.1 s r)
    intf-Reads behind (val_byte_slice vs) h s r =
        array-Reads nbs live behind (value_count vs) (values_bytes vs) (wire_values vs) h.0
          (count_values vs) (values-Reads behind vs h.1 s r)
    intf-Reads behind (val_array vs) h s r =
        array-Reads nbs live behind (value_count vs) (values_bytes vs) (wire_values vs) h.0
          (count_values vs) (values-Reads behind vs h.1 s r)
    intf-Reads behind (val_ptr v) h s r = intf-Reads behind v h s r
    intf-Reads behind val_nil_ptr h s r = nil-Reads nbs live behind
    intf-Reads behind val_other h s r = ground (arith, s)

    values-Reads :
        (behind : ℕ) (vs : Values)
        → FitsValues vs
        → supported_values vs ≡ true
        → ReadableValues behind vs
        → ReadsValues nbs live behind (values_bytes vs) (wire_values vs)
    values-Reads behind no_values h s r = none-ReadsValues nbs live behind
    values-Reads behind (value_more v vs) (hv, h) s (rv, r) =
        let (sv, sk) = and_parts (supported v) (supported_values vs) s in
        more-ReadsValues nbs live behind (value_bytes v) (values_bytes vs) (wire_value v)
          (wire_values vs) (intf-Reads (behind + length (values_bytes vs)) v hv sv rv)
          (values-Reads behind vs h sk r)

    entries-Reads :
        (behind : ℕ) (m : Entries)
        → FitsEntries m
        → supported_entries m ≡ true
        → Distinct m
        → ReadableEntries behind m
        → ReadsEntries nbs live behind (entries_bytes m) (wire_entries m)
    entries-Reads behind no_entries h s d r = none-ReadsEntries nbs live behind
    entries-Reads behind (entry_more key v m) (hk, hv, h) s (a, d) (rv, r) =
        let (sv, sk) = and_parts (supported v) (supported_entries m) s in
        more-ReadsEntries nbs live behind key (value_bytes v) (entries_bytes m) (wire_value v)
          (wire_entries m) hk (intf-Reads (behind + length (entries_bytes m)) v hv sv rv)
          (wire-Apart key m a) (entries-Reads behind m h sk d r)

  -- What AppendIntf appends for a value, ReadIntfBytes takes off the front of any bytes `rest`, as the value
  -- that the wire stands for, while no nils are simulated and no extension type is registered. The
  -- value may be of any depth. Asked for: lengths below 2 ^ 32, no part of an unsupported type,
  -- numbers of their widths, maps with distinct keys, and no extensions of the types of complex
  -- numbers and times; a complex number must not be the last object of all, that is, a byte of the
  -- value or of `rest` follows it.
  pub append_intf_RoundTrips :
      (b : Slice) (rest : Bytes) (v : Value)
      → Fits v
      → supported v ≡ true
      → Readable (length rest) v
      → (o : Slice) × (bs : Bytes) × (append_intf b v ≡ some (o, none))
        × (o.visible ≡ b.visible ++ bs)
        × (read_intf_bytes nbs (bs ++ rest) ≡ ok (wire_value v) rest)
  unfolding read_intf_bytes
  append_intf_RoundTrips b rest v h s r =
      let (o, bs, e, w, same) = append_intf-Adds b v h in
      (
        o,
        bs,
        rw s at e,
        w,
        rw (same s) (
            intf-Reads (length rest) v h s r (suc (length (value_bytes v ++ rest))) rest
              (omega arith) (omega arith)),
      )
