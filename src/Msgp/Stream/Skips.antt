-- ===== src/Msgp/Stream/Skips.antt =====
-- msgp/read.go: NextType, getNextSize and Skip of the Reader, and peekExtensionType of
-- msgp/extension.go. Fuel bounds the depth of Skip.
use truepack.Prelude.{
  ℕ, zero, suc, ◌-◌, not, Option, none, some, [], ◌∷◌, leb, ◌==◌, if◌then◌else◌, ◌>>=◌, get_elem?,
}
use truepack.Msgp.Skip.{
  is_extension, is_constsize, extension_kind, size_by_mode, is_elements, get_size,
}
use truepack.Msgp.Stream.{FwdReader, Reader, Step, refuse, peek, skip_return}
use truepack.Msgp.Wire.{
  sizes, get_type, is_invalid, bad_prefix, Bytes, WireType, invalid_type, nil_type, extension_type,
  Error, invalid_prefix_error,
}

-- The results (size, elements) and the error of a function on bytes.
unfoldable pub sizes_of :
    {S E : Type 0} → Reader S → Option (ℕ × ℕ × Option Error) → Step S E (ℕ × ℕ)
sizes_of m r =
    r >>= λ (v, o, err). elim err [ none ↦ some ((v, o), none, m) | some e ↦ refuse m (v, o) e ]

module _ {S E : Type 0} (f : FwdReader S E) where
  -- peekExtensionType, after its first Peek.
  unfoldable pub extension_peeked : Bytes → Reader S → Step S E ℕ
  unfolding peek is_extension is_constsize
  extension_peeked p m = get_elem? p 0 >>= λ lead.
      let spec = sizes lead in
      if not (is_extension spec.typ)
      then refuse m 0 (bad_prefix extension_type lead)
      else if is_constsize spec.extra
      then (get_elem? p 1 >>= λ t. some (t, none, m))
      else peek f m spec.size 0 (λ p' m'. get_elem? p' (spec.size - 1) >>= λ t. some (t, none, m'))

  unfoldable pub peek_extension_type : Reader S → Step S E ℕ
  unfolding peek extension_peeked
  peek_extension_type m = peek f m 2 0 extension_peeked

  unfoldable pub lead_type : ℕ → Reader S → Step S E WireType
  unfolding peek_extension_type is_extension extension_kind
  lead_type lead m =
      let t = get_type lead in
      if is_invalid t
      then refuse m t (invalid_prefix_error lead)
      else if is_extension t
      then (peek_extension_type m >>= λ (v, err, m'). elim err [
        | none ↦ some (extension_kind v, none, m')
        | some e ↦ some (invalid_type, some e, m')
      ])
      else some (t, none, m)

  unfoldable pub stream_next_type : Reader S → Step S E WireType
  unfolding peek lead_type
  stream_next_type m =
      if m.always_nil
      then some (nil_type, none, m)
      else peek f m 1 invalid_type (λ p m'. get_elem? p 0 >>= λ lead. lead_type lead m')

  unfoldable pub size_by_lead : ℕ → Reader S → Step S E (ℕ × ℕ)
  unfolding peek is_elements size_by_mode sizes_of
  size_by_lead lead m =
      let spec = sizes lead in
      if spec.size == 0
      then refuse m (0, 0) (invalid_prefix_error lead)
      else if is_elements spec.extra
      then sizes_of m (size_by_mode (lead ∷ []) spec.size spec.extra)
      else peek f m spec.size (0, 0) (λ b m'. sizes_of m' (size_by_mode b spec.size spec.extra))

  unfoldable pub get_next_size : Reader S → Step S E (ℕ × ℕ)
  unfolding peek size_by_lead
  get_next_size m = peek f m 1 (0, 0) (λ p m'. get_elem? p 0 >>= λ lead. size_by_lead lead m')

  -- The size of the next object, by getSize where five bytes are buffered.
  unfoldable pub object_size : Reader S → Step S E (ℕ × ℕ)
  unfolding peek get_size sizes_of get_next_size
  object_size m =
      if leb 5 (f.buffered_of m.r)
      then peek f m 5 (0, 0) (λ p m'. sizes_of m' (get_size p))
      else get_next_size m

  -- The loop over the elements.
  unfoldable pub skip_elements :
      (Reader S → Step S E (Unit {0})) → ℕ → Reader S → Step S E (Unit {0})
  skip_elements skip_one zero m = some (tt, none, m)
  skip_elements skip_one (suc o) m = skip_one m >>= λ (u, err, m'). elim err [
    | none ↦ skip_elements skip_one o m'
    | some e ↦ some (tt, some e, m')
  ]

  unfoldable pub skip_object : ℕ → Reader S → Step S E (Unit {0})
  unfolding object_size skip_return skip_elements
  skip_object zero m = none
  skip_object (suc fuel) m = object_size m >>= λ ((v, o), err, m1). elim err [
    | some e ↦ some (tt, some e, m1)
    | none ↦ skip_return f m1 v tt >>= λ (u, err', m2). elim err' [
      | some e ↦ some (tt, some e, m2)
      | none ↦ skip_elements (skip_object fuel) o m2
    ]
  ]
