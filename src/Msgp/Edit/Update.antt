-- ===== src/Msgp/Edit/Update.antt =====
-- msgp/edit.go: Locate, Replace, CopyReplace and Remove on an encoded map, against functions on the
-- list of its fields.
use truepack.Prelude.{
  ℕ, suc, ◌+◌, ◌<◌, ◌≡◌, refl, sym, ap, ◌∙◌, inl, inr, Bool, true, false, Option, none, some, List,
  [], ◌∷◌, ◌++◌, append_assoc, arith, ◌==◌, length, All, length-append,
}
use mathlib.Core.Path.{subst}
use truepack.Msgp.Edit.{reslice, locate, replace_range, replace, copy_replace, cut, remove}
use truepack.Msgp.Edit.Copies.{fill_over, slice_from_at}
use truepack.Msgp.Edit.Fields.{
  lookup, update, delete, find, lookup_found, update_found, delete_found, lookup-Lacks,
  delete-Lacks,
}
use truepack.Msgp.Edit.Format.{
  MapForm, form_limit, header_of, Field, key_bytes, fields_bytes, IsObject, IsField, Lacks, IsMap,
  object_length, key_length, fields_append, All-append,
}
use truepack.Msgp.Edit.Locate.{
  reslice_part, bytes_cut, head_part, cut_field, cut_value, fields_ok, locate_range_finds,
  locate_kv_finds, locate_value, locate_range-Lacks,
}
use truepack.Msgp.Edit.Resize.{resize_down}
use truepack.Msgp.Edit.Splice.{replace_range_splices}
use truepack.Msgp.Read.{ok, nil_slice}
use truepack.Msgp.Slice.{Slice}
use truepack.Msgp.Wire.{Bytes}

-- What Locate shows of a value that is looked up: no bytes for none.
abbrev pub shown : Option Bytes → Bytes
shown none = []
shown (some v) = v

module _ (form : MapForm) (key : Bytes) (fs : List Field) (rest : Bytes) (raw : Slice)
    (m : IsMap form fs rest raw) where
  -- On an encoded map, whatever follows it, Locate returns the bytes of the value that the first field
  -- with the key has, and no bytes if no field has the key.
  pub locate_map : (o : Slice) × (locate key raw ≡ some o) × (o.visible ≡ shown (lookup key fs))
  unfolding locate reslice
  locate_map = elim (find key fs) [
    | inl none_ok ↦ lacking none_ok
    | inr (before, v, after, p, first) ↦
        let (o, e, f) =
          locate_value form key v before after rest raw (subst (λ t. IsMap form t rest raw) p m)
            first in
        (o, e, f ∙ rw (p, lookup_found key before after v first))
  ]
    where
      lacking :
          Lacks key fs
          → (o : Slice) × (locate key raw ≡ some o) × (o.visible ≡ shown (lookup key fs))
      lacking none_ok =
          rw ((locate_range-Lacks form key fs rest raw m none_ok).0, lookup-Lacks key fs none_ok)
            (reslice_part raw [] [] raw.visible 0 0 refl refl refl)

-- What a replacement returns when the key looks up to `r`.
abbrev pub Updated : MapForm → Bytes → Bytes → List Field → Bytes → Option Bytes → Slice → Type 0
Updated form key val fs rest none o = o ≡ nil_slice
Updated form key val fs rest (some v) o = IsMap form (update key val fs) rest o

module _ (form : MapForm) (key val v : Bytes) (before after : List Field) (rest : Bytes)
    (raw : Slice) (m : IsMap form (before ++ ((key, v) ∷ after)) rest raw)
    (first : Lacks key before) (ok : IsObject val) where
  -- The bytes that `replace` leaves are those of the updated map.
  spliced :
      (o : Slice)
      → o.visible
        ≡ ((header_of form (length (before ++ ((key, v) ∷ after))) ++ fields_bytes before)
            ++ key_bytes key)
          ++ (val ++ (fields_bytes after ++ rest))
      → IsMap form (before ++ ((key, val) ∷ after)) rest o
  spliced o e =
      let (bs, (v_ok, after_ok)) = fields_ok form key v before after rest raw m first in
      record {
        within = subst (λ n. n < form_limit form) same_count m.within;
        valid = All-append IsField before ((key, val) ∷ after) bs ((v_ok.0, ok), after_ok);
        bytes =
            e
            ∙ sym (
                bytes_cut key val before after rest
                  (header_of form (length (before ++ ((key, v) ∷ after)))))
            ∙ ap (λ n. header_of form n ++ (fields_bytes (before ++ ((key, val) ∷ after)) ++ rest))
                same_count;
      }
    where
      same_count : length (before ++ ((key, v) ∷ after)) ≡ length (before ++ ((key, val) ∷ after))
      same_count = omega (
        arith,
        length-append before ((key, v) ∷ after),
        length-append before ((key, val) ∷ after),
      )

  ends_differ : (s : ℕ) → (s == s + length v) ≡ false
  ends_differ s =
      let (bs, (v_ok, after_ok)) = fields_ok form key v before after rest raw m first in
      let l = object_length v v_ok.1 in ground arith

  replaced :
      (inplace : Bool)
      → let s = length (head_part form key v before after rest raw m first ++ key_bytes key) in
        (o : Slice) × (replace_range raw s (s + length v) val inplace ≡ some o)
        × IsMap form (before ++ ((key, val) ∷ after)) rest o
  replaced inplace =
      let front = head_part form key v before after rest raw m first ++ key_bytes key in
      let (o, e, f) =
        replace_range_splices raw front v (fields_bytes after ++ rest) val (length front)
          (length front + length v) (cut_value form key v before after rest raw m first) refl refl
          inplace in
      (o, e, spliced o f)

  pub replace_found :
      ((o : Slice) × (replace key raw val ≡ some o)
        × IsMap form (before ++ ((key, val) ∷ after)) rest o)
      × ((o : Slice) × (copy_replace key raw val ≡ some o)
          × IsMap form (before ++ ((key, val) ∷ after)) rest o)
  unfolding replace copy_replace
  replace_found =
      let front = head_part form key v before after rest raw m first ++ key_bytes key in
      let e = locate_range_finds form key v before after rest raw m first in
      let d = ends_differ (length front) in (rw (e, d) (replaced true), rw (e, d) (replaced false))

module _ (form : MapForm) (key v : Bytes) (before after : List Field) (rest : Bytes) (raw : Slice)
    (m : IsMap form (before ++ ((key, v) ∷ after)) rest raw) (first : Lacks key before) where
  one_less : length (before ++ ((key, v) ∷ after)) ≡ suc (length (before ++ after))
  one_less = omega (arith, length-append before ((key, v) ∷ after), length-append before after)

  -- The slice without the field, under the old header.
  cut_out :
      let s = length (head_part form key v before after rest raw m first) in
      (o : Slice) × (cut raw s (s + length (key_bytes key ++ v)) ≡ some o)
      × (o.visible
          ≡ header_of form (suc (length (before ++ after)))
            ++ (fields_bytes (before ++ after) ++ rest))
  unfolding cut
  cut_out =
      let h = head_part form key v before after rest raw m first in
      let back = fields_bytes after ++ rest in
      let mid = key_bytes key ++ v in
      let parts : raw.visible ≡ h ++ (mid ++ back) =
        cut_field form key v before after rest raw m first
        ∙ ap (λ t. h ++ t) (sym (append_assoc (key_bytes key) v back)) in
      let behind =
        slice_from_at raw.visible (h ++ mid) back (length h + length mid)
          (parts ∙ sym (append_assoc h mid back)) (sym (length-append h mid)) in
      let (o, e, f) = fill_over raw h mid back (length h) parts refl in
      (
        o,
        rw behind e,
        f
            ∙ append_assoc (header_of form (length (before ++ ((key, v) ∷ after))))
                (fields_bytes before) back
            ∙ ap (λ n. header_of form n ++ (fields_bytes before ++ back)) one_less
            ∙ ap (λ t. header_of form (suc (length (before ++ after))) ++ t)
                (sym (append_assoc (fields_bytes before) (fields_bytes after) rest)
                  ∙ ap (λ t. t ++ rest) (sym (fields_append before after))),
      )

  remaining_ok : All IsField (before ++ after)
  remaining_ok =
      let (bs, (v_ok, after_ok)) = fields_ok form key v before after rest raw m first in
      All-append IsField before after bs after_ok

  pub remove_found : (o : Slice) × (remove key raw ≡ some o) × IsMap form (before ++ after) rest o
  unfolding remove
  remove_found =
      let h = head_part form key v before after rest raw m first in
      let l = key_length key in
      let d : (length h == length h + length (key_bytes key ++ v)) ≡ false =
        let s = length-append (key_bytes key) v in ground arith in
      let (o, e, f) = cut_out in
      let (o', e', f') =
        resize_down form o (length (before ++ after)) (fields_bytes (before ++ after) ++ rest) f
          (subst (λ n. n < form_limit form) one_less m.within) in
      (
        o',
        rw (locate_kv_finds form key v before after rest raw m first, d, e) e',
        record { within = omega (arith, m.within, one_less); valid = remaining_ok; bytes = f' },
      )

module _ (form : MapForm) (key : Bytes) (fs : List Field) (rest : Bytes) (raw : Slice)
    (m : IsMap form fs rest raw) where
  -- On an encoded map, and for a value that is one encoded object of any size, Replace and CopyReplace
  -- return nil if no field has the key. Else they return the same map, with what follows it, in which
  -- the first field with the key has the new value, whether the bytes are moved in place or copied.
  pub replace_map :
      (val : Bytes)
      → IsObject val
      → ((o : Slice) × (replace key raw val ≡ some o)
          × Updated form key val fs rest (lookup key fs) o)
        × ((o : Slice) × (copy_replace key raw val ≡ some o)
            × Updated form key val fs rest (lookup key fs) o)
  unfolding replace copy_replace
  replace_map val ok = elim (find key fs) [
    | inl none_ok ↦
        let e = (locate_range-Lacks form key fs rest raw m none_ok).0 in
        rw (e, lookup-Lacks key fs none_ok) ((nil_slice, refl, refl), (nil_slice, refl, refl))
    | inr (before, v, after, p, first) ↦
        let m' = subst (λ t. IsMap form t rest raw) p m in
        rw (p, lookup_found key before after v first, update_found key before after v val first)
          (replace_found form key val v before after rest raw m' first ok)
  ]

  -- On an encoded map Remove returns the map without the first field with the key, its count one less
  -- in a header of the same form, and what follows it; the map as it was if no field has the key.
  pub remove-IsMap : (o : Slice) × (remove key raw ≡ some o) × IsMap form (delete key fs) rest o
  unfolding remove
  remove-IsMap = elim (find key fs) [
    | inl none_ok ↦ rw (delete-Lacks key fs none_ok) (kept none_ok)
    | inr (before, v, after, p, first) ↦
        let m' = subst (λ t. IsMap form t rest raw) p m in
        rw (p, delete_found key before after v first)
          (remove_found form key v before after rest raw m' first)
  ]
    where
      kept : Lacks key fs → (o : Slice) × (remove key raw ≡ some o) × IsMap form fs rest o
      kept none_ok = (raw, rw (locate_range-Lacks form key fs rest raw m none_ok).1, m)
