-- ===== src/Msgp/Value/Safety.antt =====
-- msgp/read_bytes.go: ReadIntfBytes and ReadMapStrIntfBytes on any input.
pub mod Loops
use truepack.Prelude.{
  ℕ, zero, suc, ◌≤◌, ◌<◌, ◌≡◌, refl, inl, inr, Option, none, some, [], ◌∷◌, arith, ◌==◌, ◌>>=◌,
  Bool-cases, length,
}
use Loops.{
  Shortens, header_Shortens, peek_extension_total, by_error, as_value-Safe, read_values-Safe,
  read_entries-Safe, counted-Safe,
}
use truepack.Msgp.Extension.{raw_extension, read_extension_bytes}
use truepack.Msgp.Extension.Safety.{read_extension-SafeExt}
use truepack.Msgp.Nilbits.{NilBitsStack, is_always_nil}
use truepack.Msgp.Read.{
  Read, nil_guard, nil_slice, map_header_body, read_map_header_bytes, array_header_body,
  read_array_header_bytes, read_nil_bytes,
}
use truepack.Msgp.Safety.Blobs.{read_blob-Safe}
use truepack.Msgp.Safety.Numbers.{read_number-Safe}
use truepack.Msgp.Safety.Rules.{EndsIn, Safe, fail-Safe}
use truepack.Msgp.Skip.Types.{next_type_total}
use truepack.Msgp.Value.{
  Value, val_nil, val_bool, val_float32, val_float64, val_string, val_bytes, val_int8, val_int16,
  val_int32, val_int64, val_uint8, val_uint16, val_uint32, val_uint64, val_extension,
  val_map_str_intf, val_slice, no_entries,
}
use truepack.Msgp.Value.Read.{
  as_value, ext_error, read_values, read_entries, map_body, read_map_str_intf_with, intf_by_type,
  intf_body, read_intf, read_intf_bytes, read_map_str_intf_bytes,
}
use truepack.Msgp.Wire.{
  mnil, Bytes, WireType, invalid_type, str_type, bin_type, map_type, array_type, float64_type,
  float32_type, bool_type, int8_type, int16_type, int32_type, int64_type, uint8_type, uint16_type,
  uint32_type, uint64_type, nil_type, extension_type, complex64_type, complex128_type, time_type,
  err_short_bytes,
}

-- No nils are simulated, and the input does not start with one.
abbrev Passes : Option NilBitsStack → Bytes → Type 0
Passes nbs b = (r : Read ℕ) → nil_guard nbs b 0 r ≡ r

live_guard :
    {A : Type 0} (nbs : Option NilBitsStack) (b : Bytes) (v : A) (r : Read A)
    → (Passes nbs b → Safe b r)
    → Safe b (nil_guard nbs b v r)
unfolding nil_guard
live_guard nbs [] v r p = elim (Bool-cases (is_always_nil nbs)) [
  | inl e ↦ rw e (v, [], none, refl, ([], refl))
  | inr e ↦ rw e (p (λ s. rw e refl))
]
live_guard nbs (x ∷ b) v r p = elim (Bool-cases (is_always_nil nbs)) [
  | inl e ↦ rw e (v, x ∷ b, none, refl, ([], refl))
  | inr e ↦ elim (Bool-cases (x == mnil)) [
    | inl f ↦ rw (e, f) (v, b, none, refl, (x ∷ [], refl))
    | inr f ↦ rw (e, f) (p (λ s. rw (e, f) refl))
  ]
]

module _ (nbs : Option NilBitsStack) (read : Bytes → Read Value) (k : ℕ)
    (parts : (o : Bytes) → length o ≤ k → Safe o (read o)) where
  map_body-Safe : (b : Bytes) → length b ≤ suc k → Passes nbs b → Safe b (map_body nbs read b)
  unfolding map_body
  map_body-Safe b h pass =
      counted-Safe nbs read k parts b _ (λ o e. some (no_entries, o, some e))
        (λ n o. read_entries nbs read n no_entries o) h (read_number-Safe nbs b).0
        (map_header_Shortens b pass) (λ o e q. (no_entries, o, some e, refl, q))
        (λ n o l. read_entries-Safe nbs read k parts n no_entries o l)
    where
      map_header_Shortens : (b : Bytes) → Passes nbs b → Shortens b (read_map_header_bytes nbs b)
      map_header_Shortens b pass =
          unfold read_map_header_bytes in rw (pass (map_header_body b)) (header_Shortens b).0

  read_map-Safe : (b : Bytes) → length b ≤ suc k → Safe b (read_map_str_intf_with nbs read b)
  unfolding read_map_str_intf_with
  read_map-Safe b h = live_guard nbs b no_entries _ (map_body-Safe b h)

  array-Safe :
      (b : Bytes)
      → length b ≤ suc k
      → Passes nbs b
      → Safe b (
          read_array_header_bytes nbs b >>= λ (sz, o, err). elim err [
            | some e ↦ some (val_nil, o, some e)
            | none ↦ as_value val_slice (read_values nbs read sz o)
          ])
  array-Safe b h pass =
      counted-Safe nbs read k parts b _ (λ o e. some (val_nil, o, some e))
        (λ n o. as_value val_slice (read_values nbs read n o)) h (read_number-Safe nbs b).1
        (array_header_Shortens b pass) (λ o e q. (val_nil, o, some e, refl, q))
        (λ n o l. as_value-Safe o val_slice _ (read_values-Safe nbs read k parts n o l))
    where
      array_header_Shortens :
          (b : Bytes) → Passes nbs b → Shortens b (read_array_header_bytes nbs b)
      array_header_Shortens b pass =
          unfold read_array_header_bytes in rw (pass (array_header_body b)) (header_Shortens b).1

  extension-Safe :
      (lead : ℕ) (t : Bytes)
      → Safe (lead ∷ t) (intf_by_type nbs read lead (lead ∷ t) extension_type)
  unfolding intf_by_type
  extension-Safe lead t =
      let b = lead ∷ t in
      let (x, err, p) = peek_extension_total lead t in
      rw p (by_error b err _ _ (raw x) (λ e. fail-Safe val_nil b e))
    where
      raw :
          (x : ℕ)
          → Safe (lead ∷ t) (
              read_extension_bytes raw_extension nbs
                (lead ∷ t)
                (record { data_slice = nil_slice; typ = x })
              >>= λ (o, e, err'). some (val_extension e, o, ext_error err'))
      raw x =
          let (o, e, err, p, q) =
            read_extension-SafeExt raw_extension (lead ∷ t)
              (record { data_slice = nil_slice; typ = x }) nbs in
          rw p (val_extension e, o, ext_error err, refl, q)

  nil_ends : (b : Bytes) → EndsIn b (read_nil_bytes nbs b).0
  unfolding read_nil_bytes
  nil_ends [] = elim (Bool-cases (is_always_nil nbs)) [
    | inl e ↦ rw e ([], refl)
    | inr e ↦ rw e ([], refl)
  ]
  nil_ends (x ∷ b) = elim (Bool-cases (is_always_nil nbs)) [
    | inl e ↦ rw e ([], refl)
    | inr e ↦ elim (Bool-cases (x == mnil)) [
      | inl f ↦ rw (e, f) (x ∷ [], refl)
      | inr f ↦ rw (e, f) ([], refl)
    ]
  ]

  nil-Safe : (b : Bytes) → Safe b (let (o, err) = read_nil_bytes nbs b in some (val_nil, o, err))
  nil-Safe b = (val_nil, (read_nil_bytes nbs b).0, (read_nil_bytes nbs b).1, refl, nil_ends b)

  by_type-Safe :
      (lead : ℕ) (t : Bytes) (w : WireType)
      → length t ≤ k
      → Passes nbs (lead ∷ t)
      → Safe (lead ∷ t) (intf_by_type nbs read lead (lead ∷ t) w)
  unfolding intf_by_type
  by_type-Safe lead t map_type h pass =
      as_value-Safe _ val_map_str_intf _ (read_map-Safe (lead ∷ t) (omega arith))
  by_type-Safe lead t array_type h pass = array-Safe (lead ∷ t) (omega arith) pass
  by_type-Safe lead t bool_type h pass =
      as_value-Safe _ val_bool _ (read_number-Safe nbs (lead ∷ t)).2
  by_type-Safe lead t int64_type h pass =
      as_value-Safe _ val_int64 _ (read_number-Safe nbs (lead ∷ t)).3
  by_type-Safe lead t int32_type h pass =
      as_value-Safe _ val_int32 _ (read_number-Safe nbs (lead ∷ t)).4
  by_type-Safe lead t int16_type h pass =
      as_value-Safe _ val_int16 _ (read_number-Safe nbs (lead ∷ t)).5
  by_type-Safe lead t int8_type h pass =
      as_value-Safe _ val_int8 _ (read_number-Safe nbs (lead ∷ t)).6
  by_type-Safe lead t uint64_type h pass =
      as_value-Safe _ val_uint64 _ (read_number-Safe nbs (lead ∷ t)).8
  by_type-Safe lead t uint32_type h pass =
      as_value-Safe _ val_uint32 _ (read_number-Safe nbs (lead ∷ t)).9
  by_type-Safe lead t uint16_type h pass =
      as_value-Safe _ val_uint16 _ (read_number-Safe nbs (lead ∷ t)).10
  by_type-Safe lead t uint8_type h pass =
      as_value-Safe _ val_uint8 _ (read_number-Safe nbs (lead ∷ t)).11
  by_type-Safe lead t float32_type h pass =
      as_value-Safe _ val_float32 _ (read_number-Safe nbs (lead ∷ t)).14
  by_type-Safe lead t float64_type h pass =
      as_value-Safe _ val_float64 _ (read_number-Safe nbs (lead ∷ t)).15
  by_type-Safe lead t bin_type h pass =
      as_value-Safe _ val_bytes _ (read_blob-Safe nbs (lead ∷ t) [] nil_slice).0
  by_type-Safe lead t str_type h pass =
      as_value-Safe _ val_string _ (read_blob-Safe nbs (lead ∷ t) [] nil_slice).4
  by_type-Safe lead t complex128_type h pass =
      as_value-Safe _ _ _ (read_blob-Safe nbs (lead ∷ t) [] nil_slice).7
  by_type-Safe lead t complex64_type h pass =
      as_value-Safe _ _ _ (read_blob-Safe nbs (lead ∷ t) [] nil_slice).8
  by_type-Safe lead t time_type h pass =
      as_value-Safe _ _ _ (read_blob-Safe nbs (lead ∷ t) [] nil_slice).9
  by_type-Safe lead t extension_type h pass = extension-Safe lead t
  by_type-Safe lead t nil_type h pass = nil-Safe (lead ∷ t)
  by_type-Safe lead t invalid_type h pass = fail-Safe val_nil (lead ∷ t) _

  body-Safe : (b : Bytes) → length b ≤ suc k → Passes nbs b → Safe b (intf_body nbs read b)
  unfolding intf_body
  body-Safe [] h pass = fail-Safe val_nil [] err_short_bytes
  body-Safe (lead ∷ t) h pass =
      let (w, p) = next_type_total (lead ∷ t) in rw p (by_type-Safe lead t w (omega arith) pass)

read_intf-Safe :
    (fuel : ℕ) (nbs : Option NilBitsStack) (b : Bytes)
    → length b < fuel
    → Safe b (read_intf fuel nbs b)
unfolding read_intf
read_intf-Safe zero nbs b h = absurd (omega arith)
read_intf-Safe (suc zero) nbs [] h =
    live_guard nbs [] val_nil _ (λ pass. unfold intf_body in fail-Safe val_nil [] err_short_bytes)
read_intf-Safe (suc zero) nbs (x ∷ b) h = absurd (omega arith)
read_intf-Safe (suc (suc fuel)) nbs b h = live_guard nbs b val_nil _ (
    body-Safe nbs (read_intf (suc fuel) nbs) fuel
      (λ o l. read_intf-Safe (suc fuel) nbs o (omega arith)) b (omega arith))

-- On every input, and whether nils are simulated or not, ReadIntfBytes and ReadMapStrIntfBytes return:
-- no index is out of range, and their recursion is no deeper than the input has bytes. What they leave
-- is an end of the input.
pub read_intf_bytes-Safe :
    (nbs : Option NilBitsStack) (b : Bytes)
    → Safe b (read_intf_bytes nbs b) × Safe b (read_map_str_intf_bytes nbs b)
unfolding read_intf_bytes read_map_str_intf_bytes
read_intf_bytes-Safe nbs b = (
  read_intf-Safe (suc (length b)) nbs b (omega arith),
  read_map-Safe nbs (read_intf (suc (length b)) nbs) (length b)
      (λ o l. read_intf-Safe (suc (length b)) nbs o (omega arith)) b (omega arith),
)
