-- ===== src/Msgp/Value/RoundTrip/Holders.antt =====
-- msgp/read_bytes.go: ReadIntfBytes on arrays, maps and extensions.
use truepack.Prelude.{
  ℕ, suc, ◌+◌, ◌^◌, ◌≤◌, ◌<◌, ◌≡◌, refl, ap, ◌∙◌, inl, inr, Bool, true, false, Option, none, some,
  List, [], ◌∷◌, ◌++◌, append_assoc, append-nil, arith, ltb, leb, if◌then◌else◌, leb→le, Bool-cases,
  length, replicate, All, length-append, length-replicate,
}
use mathlib.Core.Path.{subst}
use truepack.Msgp.Append.Format.{map_header, array_header}
use truepack.Msgp.Extension.{
  users, RawExtension, raw_unmarshal_binary, raw_extension, read_extension_bytes, peek_extension,
}
use truepack.Msgp.Extension.Laws.{ext_header}
use truepack.Msgp.Extension.Reads.{ext_header_read}
use truepack.Msgp.Integers.{be16, be32}
use truepack.Msgp.Nilbits.{NilBitsStack, is_always_nil}
use truepack.Msgp.Read.{ok, nil_slice}
use truepack.Msgp.RoundTrip.Exts.{read_map_header-map_header, read_array_header-array_header}
use truepack.Msgp.Skip.{extension_kind, next_type}
use truepack.Msgp.Slice.{go_copy}
use truepack.Msgp.Slice.Laws.{go_copy_exact}
use truepack.Msgp.Value.{
  val_string, val_extension, val_map_str_intf, val_slice, Values, Entries, no_entries, value_count,
  entry_count,
}
use truepack.Msgp.Value.Maps.{
  Distinct, Disjoint-none, ReadsValues, ReadsEntries, none-ReadsEntries, more-ReadsEntries,
}
use truepack.Msgp.Value.Read.{
  ext_error, read_entries, map_body, read_map_str_intf_with, intf_by_type, read_intf,
}
use truepack.Msgp.Value.RoundTrip.Wire.{wire_pairs, wire_value}
use truepack.Msgp.Value.Skips.Parts.{sizes_fixmap, sizes_fixarray, map_header_one, array_header_one}
use truepack.Msgp.Value.Trips.{
  as_value-ok, ordinary, ordinary_pass, Reads, followed-Reads, typed-Reads, blob-Reads,
}
use truepack.Msgp.Wire.{
  mext8, mext16, mext32, sizes, Bytes, map_type, array_type, extension_type, Error, err_short_bytes,
}
use truepack.Msgp.Writer.Objects.Api.{string_bytes, pairs_bytes}

pub next_type-headers :
    (n : ℕ) (rest : Bytes)
    → (next_type (map_header n ++ rest) ≡ some map_type)
      × (next_type (array_header n ++ rest) ≡ some array_type)
unfolding next_type map_header array_header
next_type-headers n rest = elim (Bool-cases (leb n 15)) [
  | inl e ↦
      let small = leb→le n 15 e in
      rw e (rw (sizes_fixmap n small) refl, rw (sizes_fixarray n small) refl)
  | inr e ↦ elim (Bool-cases (leb n 65535)) [
    | inl f ↦ rw (e, f) (unfold sizes in (refl, refl))
    | inr f ↦ rw (e, f) (unfold sizes in (refl, refl))
  ]
]

-- Behind an extension's header NextType and peekExtension find its type.
pub ext_types :
    (body : Bytes) (t : ℕ) (rest : Bytes)
    → extension_kind t ≡ extension_type
    → (next_type ((ext_header (length body) t ++ body) ++ rest) ≡ some extension_type)
      × (peek_extension ((ext_header (length body) t ++ body) ++ rest) ≡ some (t, none))
unfolding next_type peek_extension ext_header sizes
ext_types body t rest e = elim (Bool-cases (ltb (length body) 255)) [
  | inl p ↦
      rw p
        (kinds _, enough (length (mext8 ∷ length body ∷ t ∷ (body ++ rest))) 3 _ (omega arith) refl)
  | inr p ↦ elim (Bool-cases (ltb (length body) 65535)) [
    | inl q ↦
        rw (p, q)
          (
            kinds _,
            enough (length (mext16 ∷ (be16 (length body) ++ (t ∷ (body ++ rest))))) 4 _
                (omega arith) refl,
          )
    | inr q ↦
        rw (p, q)
          (
            kinds _,
            enough (length (mext32 ∷ (be32 (length body) ++ (t ∷ (body ++ rest))))) 6 _
                (omega arith) refl,
          )
  ]
]
  where
    kinds :
        (c : Bool)
        → (if c then some (extension_kind t) else some extension_type) ≡ some extension_type
    kinds true = ap some e
    kinds false = refl

    enough :
        (m k : ℕ) (c : Bool)
        → k ≤ m
        → ltb m k ≡ c
        → ◌≡◌ {A = Option (ℕ × Option Error)}
            (if c then some (0, some err_short_bytes) else some (t, none))
            (some (t, none))
    enough m k true h p = ground (arith, h, p)
    enough m k false h p = refl

-- What UnmarshalBinary of a fresh RawExtension holds.
pub raw_fresh :
    (t : ℕ) (body : Bytes)
    → raw_unmarshal_binary (record { data_slice = nil_slice; typ = t }) body
      ≡ (record { data_slice = record { visible = body; spare = [] }; typ = t }, none)
unfolding raw_unmarshal_binary
raw_fresh t [] = unfold go_copy in refl
raw_fresh t (x ∷ body) =
    let no : leb (suc (length body)) 0 ≡ false = ground arith in
    rw
      (
        no,
        go_copy_exact (replicate (suc (length body)) 0) (x ∷ body)
            (length-replicate {A = ℕ} (suc (length body)) 0),
      )
      refl

module _ (nbs : Option NilBitsStack) (live : is_always_nil nbs ≡ false) (behind : ℕ) where
  pub array-Reads :
      (n : ℕ) (bs : Bytes) (ws : Values)
      → n < 2 ^ 32
      → value_count ws ≡ n
      → ReadsValues nbs live behind bs ws
      → Reads nbs live behind (array_header n ++ bs) (val_slice ws)
  unfolding intf_by_type ordinary
  array-Reads n bs ws h c all =
      followed-Reads nbs live behind (array_header n ++ bs) _ array_type refl
        (λ rest f. rw (append_assoc (array_header n) bs rest) (next_type-headers n (bs ++ rest)).1)
        (λ fuel rest lead f l.
          let same = append_assoc (array_header n) bs rest in
          let shorter = all fuel rest f (
            omega (
              arith,
              ap length same,
              length-append (array_header n) (bs ++ rest),
              array_header_one n,
            )) in
          rw (same, read_array_header-array_header nbs (bs ++ rest) live n h)
            (as_value-ok val_slice _ ws rest (rw c at shorter)))

  pub map-Reads :
      (n : ℕ) (bs : Bytes) (fs : Entries)
      → n < 2 ^ 32
      → entry_count fs ≡ n
      → ReadsEntries nbs live behind bs fs
      → Reads nbs live behind (map_header n ++ bs) (val_map_str_intf fs)
  unfolding intf_by_type ordinary read_map_str_intf_with
  map-Reads n bs fs h c all =
      followed-Reads nbs live behind (map_header n ++ bs) _ map_type refl
        (λ rest f. rw (append_assoc (map_header n) bs rest) (next_type-headers n (bs ++ rest)).0)
        (λ fuel rest lead f l.
          let same = append_assoc (map_header n) bs rest in
          let shorter =
            all fuel rest no_entries f
              (omega (
                arith,
                ap length same,
                length-append (map_header n) (bs ++ rest),
                map_header_one n,
              ))
              (Disjoint-none fs) in
          as_value-ok val_map_str_intf _ fs rest (
            ordinary_pass nbs live behind (bs' rest) map_type no_entries _ (named rest) refl
            ∙ read_body fuel rest shorter))
    where
      bs' : Bytes → Bytes
      bs' rest = (map_header n ++ bs) ++ rest

      named : (rest : Bytes) → next_type (bs' rest) ≡ some map_type
      named rest = rw (append_assoc (map_header n) bs rest) (next_type-headers n (bs ++ rest)).0

      read_body :
          (fuel : ℕ) (rest : Bytes)
          → read_entries nbs (read_intf fuel nbs) (entry_count fs) no_entries (bs ++ rest)
            ≡ ok fs rest
          → map_body nbs (read_intf fuel nbs) (bs' rest) ≡ ok fs rest
      read_body fuel rest e =
          unfold map_body in
          rw
            (
              append_assoc (map_header n) bs rest,
              read_map_header-map_header nbs (bs ++ rest) live n h,
            )
            (rw c at e)

  pub fresh_read :
      (t : ℕ) (body rest : Bytes)
      → length body < 2 ^ 32
      → read_extension_bytes raw_extension nbs
          ((ext_header (length body) t ++ body) ++ rest)
          (record { data_slice = nil_slice; typ = t })
        ≡ some (rest, record { data_slice = record { visible = body; spare = [] }; typ = t }, none)
  unfolding raw_extension users
  fresh_read t body rest h =
      ext_header_read raw_extension (record { data_slice = nil_slice; typ = t }) nbs t rest live
        refl body h
      ∙ ap (λ x. some (rest, x.0, users x.1)) (raw_fresh t body)

  pub extension-Reads :
      (r : RawExtension)
      → length r.data_slice.visible < 2 ^ 32
      → extension_kind r.typ ≡ extension_type
      → Reads nbs live behind
          (ext_header (length r.data_slice.visible) r.typ ++ r.data_slice.visible)
          (wire_value (val_extension r))
  unfolding intf_by_type ordinary wire_value ext_error
  extension-Reads r h e =
      let body = r.data_slice.visible in
      typed-Reads nbs live behind (ext_header (length body) r.typ ++ body) _ extension_type refl
        (λ rest. (ext_types body r.typ rest e).0)
        (λ fuel rest lead l.
          rw (ext_types body r.typ rest e).1 (rw (fresh_read r.typ body rest h) refl))

  pub pairs-ReadsEntries :
      (m : List (Bytes × Bytes))
      → All (λ (key, val). (length key < 2 ^ 32) × (length val < 2 ^ 32)) m
      → Distinct (wire_pairs m)
      → ReadsEntries nbs live behind (pairs_bytes m) (wire_pairs m)
  pairs-ReadsEntries [] h d = none-ReadsEntries nbs live behind
  pairs-ReadsEntries ((key, val) ∷ m) ((hk, hv), h) (a, d) =
      more-ReadsEntries nbs live behind key (string_bytes val) (pairs_bytes m) (val_string val)
        (wire_pairs m) hk (blob-Reads nbs live (behind + length (pairs_bytes m)) val hv).0 a
        (pairs-ReadsEntries m h d)

  -- A map without entries, whatever its type.
  pub empty-Reads : Reads nbs live behind (map_header 0) (val_map_str_intf no_entries)
  empty-Reads =
      subst (λ t. Reads nbs live behind t (val_map_str_intf no_entries)) (append-nil (map_header 0))
        (map-Reads 0 [] no_entries (omega arith) refl (none-ReadsEntries nbs live behind))
