-- ===== src/Msgp/Edit/HasKey.antt =====
-- msgp/edit.go: HasKey on an encoded map.
use truepack.Prelude.{
  ℕ, zero, suc, ◌≡◌, refl, ap, ◌∙◌, false, none, some, List, [], ◌∷◌, ◌++◌, length,
}
use truepack.Msgp.Edit.{same_bytes, locate, has_key_loop, has_key}
use truepack.Msgp.Edit.Fields.{lookup}
use truepack.Msgp.Edit.Format.{
  MapForm, Field, fields_bytes, IsMap, read_map_header-header_of, read_string_zc-key,
}
use truepack.Msgp.Edit.Loops.{first_field}
use truepack.Msgp.Edit.Update.{shown, locate_map}
use truepack.Msgp.Integers.{be64}
use truepack.Msgp.Nilbits.{is_always_nil}
use truepack.Msgp.Read.{nil_guard, string_body, read_string_zc, read_map_header_bytes}
use truepack.Msgp.Slice.{Slice}
use truepack.Msgp.Wire.{mint64, get_type, Bytes, isfixstr, str_type, Error, type_error}

int64_no_string :
    (x : ℕ) (t : Bytes)
    → (v o : Bytes) × (e : Error) × (read_string_zc none (mint64 ∷ (be64 x ++ t))
        ≡ some (v, o, some e))
unfolding read_string_zc string_body isfixstr nil_guard is_always_nil
int64_no_string x t = ([], [], type_error str_type (get_type mint64), refl)

denied :
    (key : Bytes) (x : ℕ) (t : Bytes) (n : ℕ)
    → has_key_loop key n (mint64 ∷ (be64 x ++ t)) ≡ some false
unfolding has_key_loop
denied key x t zero = refl
denied key x t (suc n) = let (v, o, e, p) = int64_no_string x t in rw p

-- In an encoded map whose first field is an int64 under another key, HasKey denies every key of the
-- later fields, whose values Locate returns: HasKey reads the int64 as a key.
pub has_key_behind_int64 :
    (form : MapForm) (k key v : Bytes) (x : ℕ) (fs : List Field) (rest : Bytes) (raw : Slice)
    → IsMap form ((k, mint64 ∷ be64 x) ∷ fs) rest raw
    → same_bytes k key ≡ false
    → lookup key fs ≡ some v
    → (has_key key raw ≡ some false) × ((o : Slice) × (locate key raw ≡ some o) × (o.visible ≡ v))
unfolding has_key has_key_loop lookup
has_key_behind_int64 form k key v x fs rest raw m d p =
    let (o, e, f) = locate_map form key ((k, mint64 ∷ be64 x) ∷ fs) rest raw m in
    let t = fields_bytes fs ++ rest in
    let read : read_map_header_bytes none raw.visible
        ≡ some (suc (length fs), fields_bytes ((k, mint64 ∷ be64 x) ∷ fs) ++ rest, none) =
      rw m.bytes (read_map_header-header_of form (suc (length fs)) _ m.within) in
    let behind : lookup key ((k, mint64 ∷ be64 x) ∷ fs) ≡ some v = rw d p in
    let cut = first_field key 0 k (mint64 ∷ be64 x) fs rest in
    (
      rw (read, cut)
          (rw (read_string_zc-key k (mint64 ∷ (be64 x ++ t)) m.valid.0.0, d)
            (denied key x t (length fs))),
      (o, e, f ∙ ap shown behind),
    )
