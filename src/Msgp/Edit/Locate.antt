-- ===== src/Msgp/Edit/Locate.antt =====
-- msgp/edit.go: `locate`, `locateKV` and Locate on an encoded map.
use truepack.Prelude.{
  ℕ, suc, ◌+◌, ◌-◌, ◌≤◌, ◌≡◌, refl, sym, ap, ◌∙◌, Option, none, some, List, ◌∷◌, ◌++◌, append_assoc,
  arith, le→leb, length, take, drop, All, length-append, drop_append, take_append,
}
use truepack.Msgp.Edit.{reslice, locate_loop, locate_range, locate_kv_loop, locate_kv, locate}
use truepack.Msgp.Edit.Format.{
  MapForm, header_of, Field, key_bytes, fields_bytes, IsField, Lacks, IsMap,
  read_map_header-header_of, fields_append, All-split,
}
use truepack.Msgp.Edit.Loops.{first_field, loop_found, loop_absent}
use truepack.Msgp.Read.{read_map_header_bytes}
use truepack.Msgp.Slice.{Slice, cap}
use truepack.Msgp.Wire.{Bytes}

-- What stands in front of the field, and behind it.
abbrev pub head_bytes : MapForm → ℕ → List Field → Bytes
head_bytes form n before = header_of form n ++ fields_bytes before

abbrev a_range : ℕ → ℕ → Option (ℕ × ℕ)
a_range s n = some (s, n)

some_pair : {a b c d : ℕ} → a ≡ c → b ≡ d → a_range a b ≡ a_range c d
some_pair p q = rw (p, q)

pub reslice_part :
    (raw : Slice) (front mid back : Bytes) (s n : ℕ)
    → raw.visible ≡ front ++ (mid ++ back)
    → s ≡ length front
    → n ≡ length front + length mid
    → (o : Slice) × (reslice raw s n ≡ some o) × (o.visible ≡ mid)
unfolding reslice
reslice_part raw front mid back s n e p q =
    rw (le→leb s n (omega arith), le→leb n (cap raw) within) (_, refl, part)
  where
    within : n ≤ cap raw
    within = omega (arith, ap length e, length-append front (mid ++ back), length-append mid back)

    all : raw.visible ++ raw.spare ≡ front ++ (mid ++ (back ++ raw.spare))
    all =
        ap (λ t. t ++ raw.spare) e
        ∙ append_assoc front (mid ++ back) raw.spare
        ∙ ap (λ t. front ++ t) (append_assoc mid back raw.spare)

    gap : n - s ≡ length mid
    gap = omega arith

    part : take (n - s) (drop s (raw.visible ++ raw.spare)) ≡ mid
    part =
        rw (all, gap, p, drop_append front (mid ++ (back ++ raw.spare)))
          (take_append mid (back ++ raw.spare))

module _ (key v : Bytes) (before after : List Field) (rest : Bytes) where
  pub fields_cut :
      fields_bytes (before ++ ((key, v) ∷ after)) ++ rest
      ≡ fields_bytes before ++ (key_bytes key ++ (v ++ (fields_bytes after ++ rest)))
  fields_cut =
      ap (λ t. t ++ rest) (fields_append before ((key, v) ∷ after))
      ∙ append_assoc (fields_bytes before) (fields_bytes ((key, v) ∷ after)) rest
      ∙ ap (λ t. fields_bytes before ++ t) (first_field key 0 key v after rest)

  -- A map's bytes, cut around the value.
  pub bytes_cut :
      (h : Bytes)
      → h ++ (fields_bytes (before ++ ((key, v) ∷ after)) ++ rest)
        ≡ ((h ++ fields_bytes before) ++ key_bytes key) ++ (v ++ (fields_bytes after ++ rest))
  bytes_cut h =
      ap (λ t. h ++ t) fields_cut
      ∙ sym (
          append_assoc h (fields_bytes before)
            (key_bytes key ++ (v ++ (fields_bytes after ++ rest))))
      ∙ sym (
          append_assoc (h ++ fields_bytes before) (key_bytes key)
            (v ++ (fields_bytes after ++ rest)))

module _ (form : MapForm) (key v : Bytes) (before after : List Field) (rest : Bytes) (raw : Slice)
    (m : IsMap form (before ++ ((key, v) ∷ after)) rest raw) (first : Lacks key before) where
  abbrev pub head_part : Bytes
  head_part = head_bytes form (length (before ++ ((key, v) ∷ after))) before

  abbrev pub tail_part : Bytes
  tail_part = fields_bytes after ++ rest

  pub cut_field : raw.visible ≡ head_part ++ (key_bytes key ++ (v ++ tail_part))
  cut_field =
      let h = header_of form (length (before ++ ((key, v) ∷ after))) in
      m.bytes
      ∙ ap (λ t. h ++ t) (fields_cut key v before after rest)
      ∙ sym (append_assoc h (fields_bytes before) (key_bytes key ++ (v ++ tail_part)))

  pub cut_value : raw.visible ≡ (head_part ++ key_bytes key) ++ (v ++ tail_part)
  cut_value = cut_field ∙ sym (append_assoc head_part (key_bytes key) (v ++ tail_part))

  pub fields_ok : All IsField before × All IsField ((key, v) ∷ after)
  fields_ok = All-split IsField before ((key, v) ∷ after) m.valid

  count : length (before ++ ((key, v) ∷ after)) ≡ length before + suc (length after)
  count = length-append before ((key, v) ∷ after)

  loops :
      (locate_loop key
          (length raw.visible)
          (length (before ++ ((key, v) ∷ after)))
          (fields_bytes before ++ (key_bytes key ++ (v ++ tail_part)))
        ≡ some
            (length raw.visible - length (v ++ tail_part), length raw.visible - length tail_part))
      × (locate_kv_loop key
            (length raw.visible)
            (length (before ++ ((key, v) ∷ after)))
            (fields_bytes before ++ (key_bytes key ++ (v ++ tail_part)))
          ≡ some (
            length raw.visible - length (key_bytes key ++ (v ++ tail_part)),
            length raw.visible - length tail_part,
          ))
  loops =
      loop_found key (length raw.visible) before (length (before ++ ((key, v) ∷ after))) v tail_part
        (omega (arith, count)) fields_ok.0 first fields_ok.1.0

  header_read :
      read_map_header_bytes none raw.visible
      ≡ some (
        length (before ++ ((key, v) ∷ after)),
        fields_bytes before ++ (key_bytes key ++ (v ++ tail_part)),
        none,
      )
  header_read =
      rw (m.bytes, fields_cut key v before after rest)
        (read_map_header-header_of form (length (before ++ ((key, v) ∷ after)))
          (fields_bytes before ++ (key_bytes key ++ (v ++ tail_part))) m.within)

  size :
      length raw.visible
      ≡ length head_part + (length (key_bytes key) + (length v + length tail_part))
  size =
      ap length cut_field
      ∙ omega (
        arith,
        length-append head_part (key_bytes key ++ (v ++ tail_part)),
        length-append (key_bytes key) (v ++ tail_part),
        length-append v tail_part,
      )

  value_range :
      a_range (length raw.visible - length (v ++ tail_part)) (length raw.visible - length tail_part)
      ≡ a_range
          (length (head_part ++ key_bytes key))
          (length (head_part ++ key_bytes key) + length v)
  value_range =
      some_pair
        (omega (arith, size, length-append v tail_part, length-append head_part (key_bytes key)))
        (omega (arith, size, length-append head_part (key_bytes key)))

  field_range :
      a_range
        (length raw.visible - length (key_bytes key ++ (v ++ tail_part)))
        (length raw.visible - length tail_part)
      ≡ a_range (length head_part) (length head_part + length (key_bytes key ++ v))
  field_range =
      some_pair
        (omega
          (arith, size, length-append (key_bytes key) (v ++ tail_part), length-append v tail_part))
        (omega (arith, size, length-append (key_bytes key) v))

  -- `locate` finds the value, and `locateKV` the whole field.
  pub locate_range_finds :
      locate_range raw.visible key
      ≡ some (length (head_part ++ key_bytes key), length (head_part ++ key_bytes key) + length v)
  unfolding locate_range
  locate_range_finds = rw header_read (loops.0 ∙ value_range)

  pub locate_kv_finds :
      locate_kv raw.visible key
      ≡ some (length head_part, length head_part + length (key_bytes key ++ v))
  unfolding locate_kv
  locate_kv_finds = rw header_read (loops.1 ∙ field_range)

  -- Locate returns the value's bytes.
  pub locate_value : (o : Slice) × (locate key raw ≡ some o) × (o.visible ≡ v)
  unfolding locate
  locate_value =
      rw locate_range_finds
        (reslice_part raw (head_part ++ key_bytes key) v tail_part _ _ cut_value refl refl)

-- Neither finds a field that is not there.
pub locate_range-Lacks :
    (form : MapForm) (key : Bytes) (fs : List Field) (rest : Bytes) (raw : Slice)
    → IsMap form fs rest raw
    → Lacks key fs
    → (locate_range raw.visible key ≡ some (0, 0)) × (locate_kv raw.visible key ≡ some (0, 0))
unfolding locate_range locate_kv
locate_range-Lacks form key fs rest raw m none_ok =
    let (p, q) = loop_absent key (length raw.visible) fs rest m.valid none_ok in
    let h : read_map_header_bytes none raw.visible
        ≡ some (length fs, fields_bytes fs ++ rest, none) =
      rw m.bytes (read_map_header-header_of form (length fs) (fields_bytes fs ++ rest) m.within) in
    (rw h p, rw h q)
