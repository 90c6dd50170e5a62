-- ===== src/Msgp/Value/Guess.antt =====
-- msgp/write.go: GuessSize. The constants are those of msgp/size.go.
use truepack.Prelude.{
  ℕ, ◌+◌, ◌*◌, ◌≤◌, ◌≡◌, refl, ap, true, false, none, some, List, [], ◌∷◌, ◌++◌, arith, length,
  length-append,
}
use truepack.Msgp.Append.Format.{map_header, str_header, bin_header, bool_bytes}
use truepack.Msgp.Edit.Format.{key_bytes}
use truepack.Msgp.Extension.Laws.{ext_header}
use truepack.Msgp.Slice.{Slice}
use truepack.Msgp.Value.{
  Value, val_nil, val_bool, val_float32, val_float64, val_complex64, val_complex128, val_string,
  val_bytes, val_int8, val_int16, val_int32, val_int64, val_int, val_uint8, val_uint16, val_uint32,
  val_uint64, val_uint, val_time, val_extension, val_map_str_str, val_map_str_intf, val_map,
  val_map_other, val_slice, val_byte_slice, val_array, val_ptr, val_nil_ptr, val_other, Entries,
  no_entries, entry_more, entry_count, append_intf,
}
use truepack.Msgp.Value.Format.{value_bytes, entries_bytes, supported, supported_entries, Fits}
use truepack.Msgp.Value.Laws.{append_intf-Adds}
use truepack.Msgp.Wire.{Bytes}
use truepack.Msgp.Writer.Objects.Api.{string_bytes, pairs_bytes}

-- The loops over the maps.
unfoldable pub guess_pairs : List (Bytes × Bytes) → ℕ
guess_pairs [] = 0
guess_pairs ((key, val) ∷ m) = 2 * 5 + length key + length val + guess_pairs m

unfoldable mutual
  unfolding guess_pairs

  pub guess_size : Value → ℕ
  guess_size val_nil = 1
  guess_size (val_extension i) = 6 + length i.data_slice.visible
  guess_size (val_float64 i) = 9
  guess_size (val_float32 i) = 5
  guess_size (val_uint8 i) = 9
  guess_size (val_uint16 i) = 9
  guess_size (val_uint32 i) = 9
  guess_size (val_uint64 i) = 9
  guess_size (val_uint i) = 9
  guess_size (val_int8 i) = 9
  guess_size (val_int16 i) = 9
  guess_size (val_int32 i) = 9
  guess_size (val_int64 i) = 9
  guess_size (val_int i) = 9
  guess_size (val_bytes i) = 5 + length i
  guess_size (val_string i) = 5 + length i
  guess_size (val_complex64 re im) = 10
  guess_size (val_complex128 re im) = 18
  guess_size (val_bool i) = 1
  guess_size (val_map_str_intf i) = 5 + guess_entries i
  guess_size (val_map_str_str i) = 5 + guess_pairs i
  guess_size _ = 512

  pub guess_entries : Entries → ℕ
  guess_entries no_entries = 0
  guess_entries (entry_more key val m) = 5 + length key + guess_size val + guess_entries m

header_lengths :
    (n t : ℕ)
    → (length (map_header n) ≤ 5)
      × (length (str_header n) ≤ 5)
      × (length (bin_header n) ≤ 5)
      × (length (ext_header n t) ≤ 6)
unfolding map_header str_header bin_header ext_header
header_lengths n t = (ground arith, ground arith, ground arith, ground arith)

-- No part has a type that GuessSize answers 512 for, but for times and nil pointers.
abbrev mutual
  pub Guessed : Value → Type 0
  Guessed (val_map_str_intf m) = GuessedEntries m
  Guessed (val_map m) = false ≡ true
  Guessed (val_map_other n) = false ≡ true
  Guessed (val_slice vs) = false ≡ true
  Guessed (val_byte_slice vs) = false ≡ true
  Guessed (val_array vs) = false ≡ true
  Guessed (val_ptr v) = false ≡ true
  Guessed val_other = false ≡ true
  Guessed _ = Unit {0}

  pub GuessedEntries : Entries → Type 0
  GuessedEntries no_entries = Unit {0}
  GuessedEntries (entry_more key val m) = Guessed val × GuessedEntries m

header_and : (hd s : Bytes) (k : ℕ) → length hd ≤ k → length (hd ++ s) ≤ k + length s
header_and hd s k h = omega (arith, length-append hd s)

pairs_le : (m : List (Bytes × Bytes)) → length (pairs_bytes m) ≤ guess_pairs m
unfolding guess_pairs
pairs_le [] = omega arith
pairs_le ((key, val) ∷ m) = omega (
  arith,
  length-append (string_bytes key) (string_bytes val ++ pairs_bytes m),
  length-append (string_bytes val) (pairs_bytes m),
  header_and (str_header (length key)) key 5 (header_lengths (length key) 0).1,
  header_and (str_header (length val)) val 5 (header_lengths (length val) 0).1,
  pairs_le m,
)

mutual
  unfolding guess_size value_bytes bool_bytes

  value_le : (v : Value) → Guessed v → length (value_bytes v) ≤ guess_size v
  value_le val_nil g = omega arith
  value_le (val_bool b) g = ground arith
  value_le (val_float32 i) g = omega arith
  value_le (val_float64 i) g = omega arith
  value_le (val_complex64 re im) g = omega arith
  value_le (val_complex128 re im) g = omega arith
  value_le (val_string s) g = header_and (str_header (length s)) s 5 (header_lengths (length s) 0).1
  value_le (val_bytes s) g = header_and (bin_header (length s)) s 5 (header_lengths (length s) 0).2
  value_le (val_int8 i) g = omega arith
  value_le (val_int16 i) g = omega arith
  value_le (val_int32 i) g = omega arith
  value_le (val_int64 i) g = omega arith
  value_le (val_int i) g = omega arith
  value_le (val_uint8 i) g = omega arith
  value_le (val_uint16 i) g = omega arith
  value_le (val_uint32 i) g = omega arith
  value_le (val_uint64 i) g = omega arith
  value_le (val_uint i) g = omega arith
  value_le (val_time sec nsec) g = omega arith
  value_le (val_extension r) g =
      header_and (ext_header (length r.data_slice.visible) r.typ) r.data_slice.visible 6
        (header_lengths (length r.data_slice.visible) r.typ).3
  value_le (val_map_str_str m) g = omega (
    arith,
    length-append (map_header (length m)) (pairs_bytes m),
    (header_lengths (length m) 0).0,
    pairs_le m,
  )
  value_le (val_map_str_intf m) g = omega (
    arith,
    length-append (map_header (entry_count m)) (entries_bytes m),
    (header_lengths (entry_count m) 0).0,
    entries_le m g,
  )
  value_le (val_map m) g = ground (arith, g)
  value_le (val_map_other n) g = ground (arith, g)
  value_le (val_slice vs) g = ground (arith, g)
  value_le (val_byte_slice vs) g = ground (arith, g)
  value_le (val_array vs) g = ground (arith, g)
  value_le (val_ptr v) g = ground (arith, g)
  value_le val_nil_ptr g = omega arith
  value_le val_other g = ground (arith, g)

  entries_le : (m : Entries) → GuessedEntries m → length (entries_bytes m) ≤ guess_entries m
  entries_le no_entries g = omega arith
  entries_le (entry_more key v m) (gv, g) = omega (
    arith,
    length-append (key_bytes key) (value_bytes v ++ entries_bytes m),
    length-append (value_bytes v) (entries_bytes m),
    header_and (str_header (length key)) key 5 (header_lengths (length key) 0).1,
    value_le v gv,
    entries_le m g,
  )

mutual
  unfolding supported

  Guessed-value : (v : Value) → Guessed v → supported v ≡ true
  Guessed-value (val_map_str_intf m) g = Guessed-entries m g
  Guessed-value (val_map m) g = ground (arith, g)
  Guessed-value (val_map_other n) g = ground (arith, g)
  Guessed-value (val_slice vs) g = ground (arith, g)
  Guessed-value (val_byte_slice vs) g = ground (arith, g)
  Guessed-value (val_array vs) g = ground (arith, g)
  Guessed-value (val_ptr v) g = ground (arith, g)
  Guessed-value val_other g = ground (arith, g)
  Guessed-value _ g = refl

  Guessed-entries : (m : Entries) → GuessedEntries m → supported_entries m ≡ true
  Guessed-entries no_entries g = refl
  Guessed-entries (entry_more key v m) (gv, g) = rw (Guessed-value v gv, Guessed-entries m g) refl

-- AppendIntf grows the slice by no more than GuessSize, for a value whose lengths fit in 32 bits, if no
-- part of it is a slice, an array, a pointer, another map than the two or of an unsupported type.
pub length-append_intf :
    (b : Slice) (v : Value)
    → Fits v
    → Guessed v
    → (o : Slice) × (append_intf b v ≡ some (o, none))
      × (length o.visible ≤ length b.visible + guess_size v)
length-append_intf b v h g =
    let (o, bs, e, w, same) = append_intf-Adds b v h in
    let fine = Guessed-value v g in
    let l : length bs ≤ guess_size v = rw (same fine) (value_le v g) in
    (o, rw fine at e, omega (arith, ap length w, length-append b.visible bs))
