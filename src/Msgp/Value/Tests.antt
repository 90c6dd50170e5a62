-- ===== src/Msgp/Value/Tests.antt =====
-- Runs of AppendIntf, ReadIntfBytes, Skip and WriteIntf over interface values.
use truepack.Prelude.{
  ℕ, ◌+◌, ◌≤◌, ◌≡◌, refl, true, false, none, some, [], ◌∷◌, ◌++◌, arith, length, replicate,
}
use truepack.Msgp.Append.{
  append_map_header, append_array_header, append_nil, append_int8, append_string,
}
use truepack.Msgp.Append.Format.{map_header, complex64_bytes}
use truepack.Msgp.Edit.{same_bytes}
use truepack.Msgp.Edit.Format.{IsObject}
use truepack.Msgp.Extension.{users, raw_extension, read_extension_bytes, peek_extension}
use truepack.Msgp.Integers.{be32, put_all, put_mint8}
use truepack.Msgp.Nilbits.{is_always_nil}
use truepack.Msgp.Read.{ok, nil_guard}
use truepack.Msgp.Safety.Rules.{Safe}
use truepack.Msgp.Skip.{next_type}
use truepack.Msgp.Slice.{
  Slice, go_append, go_copy, copied, ensure, store, fill, append_with, append_prefixed,
}
use truepack.Msgp.Value.{
  Value, val_nil, val_bool, val_complex64, val_string, val_int8, val_extension, val_map_str_intf,
  val_slice, val_other, no_values, value_more, no_entries, entry_more, append_intf,
}
use truepack.Msgp.Value.Format.{value_bytes, supported, Fits}
use truepack.Msgp.Value.Guess.{guess_size, length-append_intf}
use truepack.Msgp.Value.Laws.{Adds, append_intf-Adds}
use truepack.Msgp.Value.Read.{intf_by_type, intf_body, read_intf_bytes, read_map_str_intf_bytes}
use truepack.Msgp.Value.RoundTrip.{append_intf_RoundTrips}
use truepack.Msgp.Value.RoundTrip.Wire.{wire_value, Readable}
use truepack.Msgp.Value.Safety.{read_intf_bytes-Safe}
use truepack.Msgp.Value.Skips.{value_bytes-IsObject}
use truepack.Msgp.Value.Write.{write_intf}
use truepack.Msgp.Value.Write.Laws.{stream_bytes, write_intf-Writes}
use truepack.Msgp.Wire.{complex64_extension, sizes, Bytes, wfixmap, wfixstr, wfixarray}
use truepack.Msgp.Writer.Output.{Writes}
use truepack.Msgp.Writer.Tests.{disk, stored, disk-IsIoWriter, sixteen, sixteen-IsWriter}

abbrev empty_slice : Slice
empty_slice = record { visible = []; spare = [] }

-- map[string]interface{}{"a": []interface{}{int8(5), nil}, "b": "x"}
abbrev nested : Value
nested = val_map_str_intf (
    entry_more (97 ∷ []) (val_slice (value_more (val_int8 5) (value_more val_nil no_values)))
      (entry_more (98 ∷ []) (val_string (120 ∷ [])) no_entries))

-- A channel within a slice.
abbrev bad_slice : Value
bad_slice = val_slice (value_more (val_bool true) (value_more val_other no_values))

nested-Fits : Fits nested
nested-Fits =
    (omega arith, (omega arith, (omega arith, (_, (_, _))), (omega arith, omega arith, _)))

-- A complex number with an object behind it.
abbrev paired : Value
paired = val_slice (value_more (val_complex64 1 2) (value_more nested no_values))

paired-Readable : Readable 0 paired
unfolding same_bytes value_bytes map_header
paired-Readable = (
  (omega arith, omega arith, omega arith),
  ((((refl, _), (_, _)), ((omega arith, (_, _)), (_, _))), _),
)

append_nested :
    append_intf empty_slice nested
    ≡ some (
      record {
        visible = 130 ∷ 161 ∷ 97 ∷ 146 ∷ 208 ∷ 5 ∷ 192 ∷ 161 ∷ 98 ∷ 161 ∷ 120 ∷ [];
        spare = replicate 11 0;
      },
      none,
    )
unfolding append_intf append_map_header append_string append_array_header append_int8 append_nil
    go_append go_copy copied put_all append_with append_prefixed ensure store fill put_mint8 wfixmap
    wfixstr wfixarray
append_nested = refl

-- ReadIntfBytes takes a complex64 that ends the input for an extension of type 3.
read_complex :
    read_intf_bytes none (complex64_bytes 1 2)
    ≡ some (
      val_extension (record {
        data_slice = record { visible = be32 1 ++ be32 2; spare = [] };
        typ = complex64_extension;
      }),
      [],
      none,
    )
unfolding read_intf_bytes nil_guard intf_body next_type sizes intf_by_type peek_extension
    read_extension_bytes raw_extension users
read_complex = refl

append_intf-Adds_example :
    Adds empty_slice false (value_bytes bad_slice) (append_intf empty_slice bad_slice)
unfolding supported
append_intf-Adds_example = append_intf-Adds empty_slice bad_slice (omega arith, (_, (_, _)))

value_bytes-IsObject_example : IsObject (value_bytes nested)
unfolding supported
value_bytes-IsObject_example = value_bytes-IsObject nested nested-Fits refl

read_intf_bytes-Safe_example :
    Safe (147 ∷ 1 ∷ []) (read_intf_bytes none (147 ∷ 1 ∷ []))
    × Safe (147 ∷ 1 ∷ []) (read_map_str_intf_bytes none (147 ∷ 1 ∷ []))
read_intf_bytes-Safe_example = read_intf_bytes-Safe none (147 ∷ 1 ∷ [])

append_intf_RoundTrips_example :
    (o : Slice) × (bs : Bytes) × (append_intf empty_slice paired ≡ some (o, none))
    × (o.visible ≡ [] ++ bs)
    × (read_intf_bytes none (bs ++ []) ≡ ok (wire_value paired) [])
unfolding supported is_always_nil
append_intf_RoundTrips_example =
    append_intf_RoundTrips none refl empty_slice [] paired (omega arith, (_, (nested-Fits, _))) refl
      paired-Readable

length-append_intf_example :
    (o : Slice) × (append_intf empty_slice (val_string (120 ∷ [])) ≡ some (o, none))
    × (length o.visible ≤ 0 + guess_size (val_string (120 ∷ [])))
length-append_intf_example = length-append_intf empty_slice (val_string (120 ∷ [])) (omega arith) _

write_intf-Writes_example :
    Writes {X = ℕ} stored
      (sixteen 100)
      (stream_bytes nested)
      (write_intf disk 9 (sixteen 100) nested)
write_intf-Writes_example =
    write_intf-Writes disk 9 stored disk-IsIoWriter (sixteen 100) nested (sixteen-IsWriter 100)
      nested-Fits ((omega arith, (_, _)), (_, _))
