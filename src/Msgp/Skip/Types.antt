-- ===== src/Msgp/Skip/Types.antt =====
-- msgp/read_bytes.go: NextType on any input.
use truepack.Prelude.{
  ℕ, ◌-◌, ◌≤◌, ◌<◌, ◌≡◌, refl, ◌⊎◌, inl, inr, Bool, true, false, some, [], ◌∷◌, arith, ltb, leb,
  if◌then◌else◌, ◌>>=◌, leb→le, le→ltb, le→leb, Bool-cases, length, get_elem?,
}
use truepack.Prelude.Bits.{table, table_sound}
use truepack.Msgp.Safety.Rules.{get_elem?_total}
use truepack.Msgp.Skip.{is_extension, is_constsize, extension_kind, next_type}
use truepack.Msgp.Wire.{mnfixint, sizes, Bytes, WireType, invalid_type, ByteSpec}

-- An extension has a prefix and a type.
unfoldable has_prefix : ByteSpec → Bool
has_prefix s = if is_extension s.typ then leb 2 s.size else true

prefix_above : (b : ℕ) → 256 ≤ b → has_prefix (sizes b) ≡ true
unfolding has_prefix sizes is_extension
prefix_above b h = rw (le→ltb b 128 (omega arith), le→leb mnfixint b (omega arith)) refl

sizes-has_prefix : (b : ℕ) → has_prefix (sizes b) ≡ true
unfolding has_prefix table sizes is_extension
sizes-has_prefix b = elim (Bool-cases (ltb b 256)) [
  | inl e ↦ table_sound 256 (λ x. has_prefix (sizes x)) b refl (ground (arith, e))
  | inr e ↦ prefix_above b (ground (arith, e))
]

prefix_size : (s : ByteSpec) → has_prefix s ≡ true → is_extension s.typ ≡ true → 2 ≤ s.size
unfolding has_prefix
prefix_size s h e = leb→le 2 s.size (rw e at h)

-- On every input NextType returns: the byte that it looks at for an extension is there.
pub next_type_total : (b : Bytes) → (t : WireType) × (next_type b ≡ some t)
unfolding next_type
next_type_total [] = (invalid_type, refl)
next_type_total (lead ∷ t) = elim (Bool-cases (is_extension (sizes lead).typ)) [
  | inr e ↦ rw e ((sizes lead).typ, refl)
  | inl e ↦ elim (Bool-cases (ltb (sizes lead).size (length (lead ∷ t)))) [
    | inr f ↦ rw (e, f) ((sizes lead).typ, refl)
    | inl f ↦
        rw (e, f)
          (look (prefix_size (sizes lead) (sizes-has_prefix lead) e) (ground (arith, f))
            (Bool-cases (is_constsize (sizes lead).extra)))
  ]
]
  where
    look :
        2 ≤ (sizes lead).size
        → (sizes lead).size < length (lead ∷ t)
        → (is_constsize (sizes lead).extra ≡ true) ⊎ (is_constsize (sizes lead).extra ≡ false)
        → (u : WireType) × (((if is_constsize (sizes lead).extra
                then get_elem? (lead ∷ t) 1
                else get_elem? (lead ∷ t) ((sizes lead).size - 1))
              >>= λ tp. some (extension_kind tp))
            ≡ some u)
    look p q (inl c) =
        let (v, r) = get_elem?_total (lead ∷ t) 1 (omega arith) in
        rw (c, r) (extension_kind v, refl)
    look p q (inr c) =
        let (v, r) = get_elem?_total (lead ∷ t) ((sizes lead).size - 1) (omega arith) in
        rw (c, r) (extension_kind v, refl)

-- An entry of the table for an extension has room for its type.
pub extension_size : (lead : ℕ) → is_extension (sizes lead).typ ≡ true → 2 ≤ (sizes lead).size
extension_size lead e = prefix_size (sizes lead) (sizes-has_prefix lead) e
