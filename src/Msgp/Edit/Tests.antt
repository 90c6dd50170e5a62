-- ===== src/Msgp/Edit/Tests.antt =====
-- Runs of the functions of msgp/edit.go, and the theorems about them at concrete inputs.
use truepack.Prelude.{◌≡◌, refl, false, some, List, [], ◌∷◌, arith}
use truepack.Msgp.Append.Format.{str_header}
use truepack.Msgp.Edit.{
  same_bytes, reslice, locate_range, locate_kv, locate, replace, copy_replace, int_below,
  resize_fixmap, resize_map, remove, has_key,
}
use truepack.Msgp.Edit.Fields.{lookup, delete}
use truepack.Msgp.Edit.Format.{form_fix, header_of, Field, IsObject, IsMap}
use truepack.Msgp.Edit.HasKey.{has_key_behind_int64}
use truepack.Msgp.Edit.Safety.{edits-Returns}
use truepack.Msgp.Edit.Stores.{Returns}
use truepack.Msgp.Edit.Update.{shown, locate_map, Updated, replace_map, remove-IsMap}
use truepack.Msgp.Integers.{be64, put_all}
use truepack.Msgp.Read.{
  nil_guard, string_data, string_body, read_string_zc, map_header_body, read_map_header_bytes,
}
use truepack.Msgp.Skip.{size_by_mode, get_size, skip, skip_bytes}
use truepack.Msgp.Skip.Flat.{skip_flat}
use truepack.Msgp.Slice.{Slice, go_copy, copied, store, fill}
use truepack.Msgp.Wire.{mtrue, mint64, sizes, Bytes, isfixmap, isfixstr, rfixmap, wfixmap, rfixstr}

abbrev hi : Bytes
hi = 104 ∷ 105 ∷ []

abbrev x_key : Bytes
x_key = 120 ∷ []

abbrev two_fields : List Field
two_fields = (hi, mtrue ∷ []) ∷ (x_key, 5 ∷ []) ∷ []

-- A map of two fields, a byte behind it, and two spare bytes.
abbrev two : Slice
two = record {
  visible = 0x82 ∷ 0xa2 ∷ 104 ∷ 105 ∷ 0xc3 ∷ 0xa1 ∷ 120 ∷ 5 ∷ 9 ∷ [];
  spare = 0 ∷ 0 ∷ [];
}

true-IsObject : IsObject (mtrue ∷ [])
unfolding get_size size_by_mode sizes
true-IsObject rest = skip_flat (mtrue ∷ []) rest refl

five-IsObject : IsObject (5 ∷ [])
unfolding get_size size_by_mode sizes
five-IsObject rest = skip_flat (5 ∷ []) rest refl

two-IsMap : IsMap form_fix two_fields (9 ∷ []) two
unfolding header_of str_header
two-IsMap = record {
  within = omega arith;
  valid = ((omega arith, true-IsObject), ((omega arith, five-IsObject), tt));
  bytes = refl;
}

run_locate : locate x_key two ≡ some (record { visible = 5 ∷ []; spare = 9 ∷ 0 ∷ 0 ∷ [] })
unfolding locate locate_range reslice read_string_zc string_body string_data read_map_header_bytes
    map_header_body nil_guard same_bytes skip_bytes skip get_size size_by_mode sizes isfixmap
    rfixmap isfixstr rfixstr
run_locate = refl

run_remove :
    remove hi two
    ≡ some (record {
      visible = 0x81 ∷ 0xa1 ∷ 120 ∷ 5 ∷ 9 ∷ [];
      spare = 161 ∷ 120 ∷ 5 ∷ 9 ∷ 0 ∷ 0 ∷ [];
    })
unfolding remove locate_kv fill resize_map resize_fixmap int_below store put_all read_string_zc
    string_body string_data read_map_header_bytes map_header_body nil_guard same_bytes skip_bytes
    skip get_size size_by_mode sizes isfixmap rfixmap wfixmap isfixstr rfixstr copied go_copy
run_remove = refl

locate_map_example :
    (o : Slice) × (locate x_key two ≡ some o) × (o.visible ≡ shown (lookup x_key two_fields))
locate_map_example = locate_map form_fix x_key two_fields (9 ∷ []) two two-IsMap

replace_map_example :
    ((o : Slice) × (replace hi two (5 ∷ []) ≡ some o)
      × Updated form_fix hi (5 ∷ []) two_fields (9 ∷ []) (lookup hi two_fields) o)
    × ((o : Slice) × (copy_replace hi two (5 ∷ []) ≡ some o)
        × Updated form_fix hi (5 ∷ []) two_fields (9 ∷ []) (lookup hi two_fields) o)
replace_map_example =
    replace_map form_fix hi two_fields (9 ∷ []) two two-IsMap (5 ∷ []) five-IsObject

remove-IsMap_example :
    (o : Slice) × (remove hi two ≡ some o) × IsMap form_fix (delete hi two_fields) (9 ∷ []) o
remove-IsMap_example = remove-IsMap form_fix hi two_fields (9 ∷ []) two two-IsMap

edits-Returns_example :
    Returns (locate hi two)
    × Returns (replace hi two hi)
    × Returns (copy_replace hi two hi)
    × Returns (remove hi two)
    × Returns (has_key hi two)
edits-Returns_example = edits-Returns hi two hi

-- `{"hi": 7, "x": 5}`, with the 7 as an int64.
abbrev int64_fields : List Field
int64_fields = (hi, mint64 ∷ be64 7) ∷ (x_key, 5 ∷ []) ∷ []

abbrev int64_map : Slice
int64_map = record {
  visible = 0x82 ∷ 0xa2 ∷ 104 ∷ 105 ∷ 0xd3 ∷ 0 ∷ 0 ∷ 0 ∷ 0 ∷ 0 ∷ 0 ∷ 0 ∷ 7 ∷ 0xa1 ∷ 120 ∷ 5 ∷ [];
  spare = [];
}

int64-IsMap : IsMap form_fix int64_fields [] int64_map
unfolding header_of str_header get_size size_by_mode sizes
int64-IsMap = record {
  within = omega arith;
  valid = (
    (omega arith, λ rest. skip_flat (mint64 ∷ be64 7) rest refl),
    ((omega arith, five-IsObject), tt),
  );
  bytes = refl;
}

has_key_behind_int64_example :
    (has_key x_key int64_map ≡ some false)
    × ((o : Slice) × (locate x_key int64_map ≡ some o) × (o.visible ≡ 5 ∷ []))
unfolding same_bytes lookup
has_key_behind_int64_example =
    has_key_behind_int64 form_fix hi x_key (5 ∷ []) 7 ((x_key, 5 ∷ []) ∷ []) [] int64_map
      int64-IsMap refl refl
