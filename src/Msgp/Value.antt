-- ===== src/Msgp/Value.antt =====
-- msgp/write_bytes.go: AppendIntf and the appends of maps, over the dynamic types that the functions
-- tell apart. A map is the list of its entries in the order that the runtime picks. Values with methods
-- of their own (Marshaler, Encodable, Extension) are left out, but for *RawExtension. `none` is a panic.
pub mod Format
pub mod Laws
pub mod Skips
pub mod Read
pub mod Safety
pub mod Trips
pub mod Maps
pub mod RoundTrip
pub mod Write
pub mod Guess
mod Tests
use truepack.Prelude.{
  ℕ, suc, ◌≡◌, refl, ap, Bool, Option, none, some, List, [], ◌∷◌, ◌==◌, if◌then◌else◌, ◌>>=◌,
  length,
}
use truepack.Msgp.Append.{
  to32, append_map_header, append_array_header, append_nil, append_float64, append_float32,
  append_int64, append_int8, append_int16, append_int32, append_uint64, append_uint8, append_uint16,
  append_uint32, append_bytes, append_bool, append_string, append_complex64, append_complex128,
  append_time,
}
use truepack.Msgp.Extension.{RawExtension, raw_extension, append_extension}
use truepack.Msgp.Slice.{Slice}
use truepack.Msgp.Wire.{Bytes}

mutual
  pub data Value : Type 0 where
    val_nil : Value
    val_bool : Bool → Value
    val_float32 val_float64 : ℕ → Value
    val_complex64 val_complex128 : ℕ → ℕ → Value
    val_string : Bytes → Value
    val_bytes : Bytes → Value
    val_int8 val_int16 val_int32 val_int64 val_int : ℕ → Value
    val_uint8 val_uint16 val_uint32 val_uint64 val_uint : ℕ → Value
    val_time : ℕ → ℕ → Value
    val_extension : RawExtension → Value
    -- map[string]string
    val_map_str_str : List (Bytes × Bytes) → Value
    -- map[string]interface{}
    val_map_str_intf : Entries → Value
    -- Another map whose keys are strings, and one whose keys are not, by its length.
    val_map : Entries → Value
    val_map_other : ℕ → Value
    -- A slice whose type is not convertible to []byte, and an array.
    val_slice : Values → Value
    -- A slice of a named type over []byte, by its elements, each of which is a uint8.
    val_byte_slice : Values → Value
    val_array : Values → Value
    val_ptr : Value → Value
    val_nil_ptr : Value
    -- A struct, function, channel and so on.
    val_other : Value

  pub data Values : Type 0 where
    no_values : Values
    value_more : Value → Values → Values

  pub data Entries : Type 0 where
    no_entries : Entries
    entry_more : Bytes → Value → Entries → Entries

abbrev pub value_count : Values → ℕ
value_count no_values = 0
value_count (value_more v vs) = suc (value_count vs)

-- `v.Bytes()` of a slice of uint8.
unfoldable pub byte_of : Value → ℕ
byte_of (val_uint8 x) = x
byte_of _ = 0

abbrev pub uint8s : Values → Bytes
uint8s no_values = []
uint8s (value_more v vs) = byte_of v ∷ uint8s vs

pub length-uint8s : (vs : Values) → length (uint8s vs) ≡ value_count vs
length-uint8s no_values = refl
length-uint8s (value_more v vs) = ap suc (length-uint8s vs)

abbrev pub entry_count : Entries → ℕ
entry_count no_entries = 0
entry_count (entry_more k v es) = suc (entry_count es)

-- ErrUnsupportedType, without its type.
pub data IntfError : Type 0 where
  err_unsupported_type : IntfError

abbrev pub AppendedIntf : Type 0
AppendedIntf = Option (Slice × Option IntfError)

-- `return r, nil`
abbrev pub no_error : Option Slice → AppendedIntf
no_error r = r >>= λ o. some (o, none)

-- `if err != nil { return b, err }`
unfoldable pub and_append : AppendedIntf → (Slice → AppendedIntf) → AppendedIntf
and_append r k = r >>= λ (o, err). elim err [ none ↦ k o | some e ↦ some (o, some e) ]

-- The loop of AppendMapStrStr.
unfoldable pub append_pairs : Slice → List (Bytes × Bytes) → Option Slice
append_pairs b [] = some b
append_pairs b ((key, val) ∷ m) =
    append_string b key >>= λ b'. append_string b' val >>= λ b''. append_pairs b'' m

unfoldable pub append_map_str_str : Slice → List (Bytes × Bytes) → Option Slice
unfolding append_pairs
append_map_str_str b m = append_map_header b (to32 (length m)) >>= λ b'. append_pairs b' m

-- MarshalBinaryTo of a RawExtension returns no error.
unfoldable pub append_raw : Slice → RawExtension → AppendedIntf
append_raw b r = append_extension raw_extension b r >>= λ (o, err). some (o, none)

unfoldable mutual
  unfolding and_append append_map_str_str append_raw

  pub append_intf : Slice → Value → AppendedIntf
  append_intf b val_nil = no_error (append_nil b)
  append_intf b (val_bool i) = no_error (append_bool b i)
  append_intf b (val_float32 i) = no_error (append_float32 b i)
  append_intf b (val_float64 i) = no_error (append_float64 b i)
  append_intf b (val_complex64 re im) = no_error (append_complex64 b re im)
  append_intf b (val_complex128 re im) = no_error (append_complex128 b re im)
  append_intf b (val_string i) = no_error (append_string b i)
  append_intf b (val_bytes i) = no_error (append_bytes b i)
  append_intf b (val_int8 i) = no_error (append_int8 b i)
  append_intf b (val_int16 i) = no_error (append_int16 b i)
  append_intf b (val_int32 i) = no_error (append_int32 b i)
  append_intf b (val_int64 i) = no_error (append_int64 b i)
  append_intf b (val_int i) = no_error (append_int64 b i)
  append_intf b (val_uint i) = no_error (append_uint64 b i)
  append_intf b (val_uint8 i) = no_error (append_uint8 b i)
  append_intf b (val_uint16 i) = no_error (append_uint16 b i)
  append_intf b (val_uint32 i) = no_error (append_uint32 b i)
  append_intf b (val_uint64 i) = no_error (append_uint64 b i)
  append_intf b (val_time sec nsec) = no_error (append_time b sec nsec)
  append_intf b (val_extension i) = append_raw b i
  append_intf b (val_map_str_intf i) =
      append_map_header b (to32 (entry_count i)) >>= λ b'. append_entries b' i
  append_intf b (val_map_str_str i) = no_error (append_map_str_str b i)
  append_intf b (val_slice i) =
      append_array_header b (to32 (value_count i)) >>= λ b'. append_values b' i
  append_intf b (val_byte_slice i) =
      append_array_header b (to32 (value_count i)) >>= λ b'. append_values b' i
  append_intf b (val_array i) =
      append_array_header b (to32 (value_count i)) >>= λ b'. append_values b' i
  append_intf b (val_ptr i) = append_intf b i
  append_intf b val_nil_ptr = no_error (append_nil b)
  -- AppendMapStrSomething writes the header at the first key.
  append_intf b (val_map m) =
      append_map_header b (to32 (entry_count m)) >>= λ b'. append_entries b' m
  append_intf b (val_map_other n) =
      if to32 n == 0 then no_error (append_map_header b 0) else some (b, some err_unsupported_type)
  append_intf b val_other = some (b, some err_unsupported_type)

  -- The loops over the elements of an array and over the entries of a map.
  pub append_values : Slice → Values → AppendedIntf
  append_values b no_values = some (b, none)
  append_values b (value_more i k) = and_append (append_intf b i) (λ b'. append_values b' k)

  pub append_entries : Slice → Entries → AppendedIntf
  append_entries b no_entries = some (b, none)
  append_entries b (entry_more key val m) =
      append_string b key >>= λ b'. and_append (append_intf b' val) (λ b''. append_entries b'' m)
