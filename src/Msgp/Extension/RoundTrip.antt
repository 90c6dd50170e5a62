-- ===== src/Msgp/Extension/RoundTrip.antt =====
-- msgp/extension.go: AppendExtension, then ReadExtensionBytes, for any extension and for RawExtension.
use truepack.Prelude.{
  ℕ, ◌^◌, ◌<◌, ◌≡◌, refl, sym, ap, ◌∙◌, ◌≢◌, inl, inr, true, false, Option, none, some, [], ◌∷◌,
  ◌++◌, arith, ltb, leb, ◌==◌, le→ltb, Bool-cases, length, take, replicate, length-append,
  length-replicate, length-take,
}
use mathlib.Core.Path.{subst}
use truepack.Msgp.Extension.{
  Extension, own_error, users, RawExtension, raw_unmarshal_binary, raw_extension, append_extension,
  read_extension_bytes,
}
use truepack.Msgp.Extension.Laws.{Encodes, ext_header, append_extension-AppendsExt}
use truepack.Msgp.Extension.Reads.{
  IsFixext, Unmarshalled, fixext_read, ext8_read, ext_header_read, fixext_small,
}
use truepack.Msgp.Integers.{be_uint16, be_uint32}
use truepack.Msgp.Nilbits.{NilBitsStack, is_always_nil}
use truepack.Msgp.Slice.{Slice, cap}
use truepack.Msgp.Slice.Laws.{go_copy_exact}
use truepack.Msgp.Wire.{mext8, mext16, mext32, Bytes, err_ext}

-- The append returns without an error, it adds bytes behind those of `b`, and ReadExtensionBytes takes
-- just these off the front of `rest`, into what UnmarshalBinary makes of `e'` and the data.
abbrev pub ExtRoundTrips :
    {E U : Type 0} → Extension E U → Option NilBitsStack → Slice → Bytes → E → E → Bytes → Type 0
ExtRoundTrips ext nbs b rest e e' bs =
    (o : Slice) × (vs : Bytes) × (append_extension ext b e ≡ some (o, none))
    × (o.visible ≡ b.visible ++ vs)
    × Unmarshalled ext e' bs rest (read_extension_bytes ext nbs (vs ++ rest) e')

-- The object is refused for its type, and nothing is taken or stored.
abbrev pub RefusesType :
    {E U : Type 0} → Extension E U → Option NilBitsStack → E → ℕ → Bytes → Type 0
RefusesType ext nbs e t b =
    read_extension_bytes ext nbs b e ≡ some (b, e, some (own_error (err_ext t (ext.ext_type e))))

module _ {E U : Type 0} (ext : Extension E U) (nbs : Option NilBitsStack) (b : Slice) (rest : Bytes)
    (live : is_always_nil nbs ≡ false) where
  -- For every extension that encodes as the interface asks, with less than 2 ^ 32 bytes of data:
  -- AppendExtension appends bytes which ReadExtensionBytes takes off the front of any others, into a
  -- receiver of the same type, and gives the data to its UnmarshalBinary, while no nils are simulated.
  pub extension-ExtRoundTrips :
      (e e' : E) (bs : Bytes)
      → Encodes ext e bs
      → length bs < 2 ^ 32
      → ext.ext_type e ≡ ext.ext_type e'
      → ExtRoundTrips ext nbs b rest e e' bs
  extension-ExtRoundTrips e e' bs enc h same =
      let (o, p, v) = append_extension-AppendsExt ext e bs enc b in
      let r = ext_header_read ext e' nbs (ext.ext_type e) rest live same bs h in
      (
        o,
        _,
        p,
        v,
        subst
            (λ n.
              Unmarshalled ext e' bs rest
                (read_extension_bytes ext nbs ((ext_header n (ext.ext_type e) ++ bs) ++ rest) e'))
            enc.size r,
      )

  -- An object of 1, 2, 4, 8 or 16 bytes is read alike from the fixext and from the ext 8 form of it,
  -- into a receiver of its type while no nils are simulated. AppendExtension writes the ext 8 form,
  -- although it stores the prefix of the fixext first.
  pub fixext_forms :
      (prefix n : ℕ) (e e' : E) (bs : Bytes)
      → IsFixext prefix n
      → Encodes ext e bs
      → n ≡ length bs
      → ext.ext_type e ≡ ext.ext_type e'
      → (read_extension_bytes ext nbs (prefix ∷ ext.ext_type e ∷ (bs ++ rest)) e'
          ≡ read_extension_bytes ext nbs (mext8 ∷ n ∷ ext.ext_type e ∷ (bs ++ rest)) e')
        × ((o : Slice) × (append_extension ext b e ≡ some (o, none))
            × (o.visible ≡ b.visible ++ (mext8 ∷ n ∷ ext.ext_type e ∷ bs)))
  unfolding ext_header
  fixext_forms prefix n e e' bs f enc q same =
      let (o, p, v) = append_extension-AppendsExt ext e bs enc b in
      let small : ltb (ext.len e) 255 ≡ true =
        let l = fixext_small prefix n f in let s = enc.size in ground arith in
      let fix = fixext_read ext e' nbs prefix n (ext.ext_type e) bs rest live f same q in
      let one = ext8_read ext e' nbs (ext.ext_type e) rest live same bs in
      (fix ∙ sym (rw q one), (o, p, rw (q, enc.size) (v ∙ rw small)))

  -- ReadExtensionBytes does not look at the type of an ext 8 object without data, while no nils are
  -- simulated: whatever its type, it answers as UnmarshalBinary does. It refuses a type that is not the
  -- receiver's if the ext 8 object has a byte of data, and in an ext 16 or ext 32 object without data.
  pub empty_type_ignored :
      (t x : ℕ) (e : E)
      → t ≢ ext.ext_type e
      → Unmarshalled ext e [] rest (read_extension_bytes ext nbs (mext8 ∷ 0 ∷ t ∷ rest) e)
        × RefusesType ext nbs e t (mext8 ∷ 1 ∷ t ∷ x ∷ rest)
        × RefusesType ext nbs e t (mext16 ∷ 0 ∷ 0 ∷ t ∷ rest)
        × RefusesType ext nbs e t (mext32 ∷ 0 ∷ 0 ∷ 0 ∷ 0 ∷ t ∷ rest)
  unfolding read_extension_bytes be_uint16 be_uint32
  empty_type_ignored t x e other =
      let differs : (t == ext.ext_type e) ≡ false = ground arith in
      (
        rw (live, le→ltb (length (mext8 ∷ 0 ∷ t ∷ rest)) 3 (omega arith)),
        rw (live, le→ltb (length (mext8 ∷ 1 ∷ t ∷ x ∷ rest)) 3 (omega arith), differs),
        rw (
          live,
          le→ltb (length (mext16 ∷ 0 ∷ 0 ∷ t ∷ rest)) 3 (omega arith),
          le→ltb (length (mext16 ∷ 0 ∷ 0 ∷ t ∷ rest)) 4 (omega arith),
          differs,
        ),
        rw (
          live,
          le→ltb (length (mext32 ∷ 0 ∷ 0 ∷ 0 ∷ 0 ∷ t ∷ rest)) 3 (omega arith),
          le→ltb (length (mext32 ∷ 0 ∷ 0 ∷ 0 ∷ 0 ∷ t ∷ rest)) 6 (omega arith),
          differs,
        ),
      )

-- RawExtension encodes as its data.
pub raw-Encodes : (r : RawExtension) → r.typ < 256 → Encodes raw_extension r r.data_slice.visible
unfolding raw_extension
raw-Encodes r h = record {
  size = refl;
  type_byte = h;
  copies = λ d l. ap (λ x. (x, none)) (go_copy_exact d r.data_slice.visible l);
}

-- UnmarshalBinary holds the data afterwards, in the old memory or in new.
raw_unmarshal_data :
    (r : RawExtension) (bs : Bytes)
    → ((raw_unmarshal_binary r bs).0.data_slice.visible ≡ bs)
      × ((raw_unmarshal_binary r bs).0.typ ≡ r.typ)
unfolding raw_unmarshal_binary
raw_unmarshal_data r bs =
    let all = r.data_slice.visible ++ r.data_slice.spare in
    elim (Bool-cases (leb (length bs) (cap r.data_slice))) [
      | inl p ↦
          let fits : length (take (length bs) all) ≡ length bs =
            length-take (length bs) all
              (ground (arith, p, length-append r.data_slice.visible r.data_slice.spare)) in
          rw p (go_copy_exact (take (length bs) all) bs fits, refl)
      | inr p ↦ rw p (
        go_copy_exact (replicate (length bs) 0) bs (length-replicate {A = ℕ} (length bs) 0),
        refl,
      )
    ]

-- A RawExtension of less than 2 ^ 32 bytes that AppendExtension writes is read into any other one of
-- its type as one with the same data and type, off the front of any bytes, while no nils are simulated.
pub raw_RoundTrips :
    (nbs : Option NilBitsStack) (b : Slice) (rest : Bytes) (r r' : RawExtension)
    → is_always_nil nbs ≡ false
    → length r.data_slice.visible < 2 ^ 32
    → r.typ < 256
    → r.typ ≡ r'.typ
    → (o : Slice) × (vs : Bytes) × (append_extension raw_extension b r ≡ some (o, none))
      × (o.visible ≡ b.visible ++ vs)
      × (r'' : RawExtension) × (read_extension_bytes raw_extension nbs (vs ++ rest) r'
          ≡ some (rest, r'', none))
      × (r''.data_slice.visible ≡ r.data_slice.visible)
      × (r''.typ ≡ r.typ)
unfolding raw_extension raw_unmarshal_binary users
raw_RoundTrips nbs b rest r r' live h t same =
    let (o, vs, p, v, q) =
      extension-ExtRoundTrips raw_extension nbs b rest live r r' r.data_slice.visible
        (raw-Encodes r t) h same in
    let (d, k) = raw_unmarshal_data r' r.data_slice.visible in
    (o, vs, p, v, (raw_unmarshal_binary r' r.data_slice.visible).0, q, d, k ∙ sym same)
