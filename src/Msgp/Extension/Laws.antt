-- ===== src/Msgp/Extension/Laws.antt =====
-- msgp/extension.go: what AppendExtension appends, for an extension that keeps its interface's word.
use truepack.Prelude.{
  ℕ, ◌+◌, ◌-◌, ◌≤◌, ◌<◌, ◌≡◌, refl, sym, ap, ◌∙◌, inl, inr, Bool, true, false, Option, none, some,
  [], ◌∷◌, ◌++◌, append_assoc, arith, ltb, ◌==◌, if◌then◌else◌, ◌>>=◌, Bool-cases, length, drop,
  length-append, take_append, length-drop,
}
use truepack.Msgp.Edit.Copies.{slice_from_at}
use truepack.Msgp.Extension.{
  Extension, put_fixext, marshal_at, put_extension, append_sized, append_extension,
}
use truepack.Msgp.Integers.{byte, be16, be32, put_all}
use truepack.Msgp.Integers.Laws.{put_all_fits}
use truepack.Msgp.Slice.{Slice, cap, ensure, append_with}
use truepack.Msgp.Slice.Laws.{ensure_room, store_behind, append_with_all}
use truepack.Msgp.Wire.{
  mext8, mext16, mext32, mfixext1, mfixext2, mfixext4, mfixext8, mfixext16, Bytes,
}

-- What the comments of the interface ask for: the type is an int8, and MarshalBinaryTo fills a slice
-- of Len() bytes with the data.
pub record Encodes {E U : Type 0} (ext : Extension E U) (e : E) (bs : Bytes) : Type 0 where
  pub size : length bs ≡ ext.len e
  pub type_byte : ext.ext_type e < 256
  pub copies : (d : Bytes) → length d ≡ ext.len e → ext.marshal_binary_to e d ≡ (bs, none)

-- The header of an extension of `l` bytes, in the forms that AppendExtension uses.
unfoldable pub ext_header : ℕ → ℕ → Bytes
ext_header l t =
    if ltb l 255
    then mext8 ∷ l ∷ t ∷ []
    else if ltb l 65535
    then mext16 ∷ (be16 l ++ (t ∷ []))
    else mext32 ∷ (be32 l ++ (t ∷ []))

-- The call returns without an error, and what it returns is `b` with `vs` behind it.
abbrev pub AppendsExt : {U : Type 0} → Slice → Bytes → Option (Slice × Option U) → Type 0
AppendsExt b vs r = (o : Slice) × (r ≡ some (o, none)) × (o.visible ≡ b.visible ++ vs)

if_AppendsExt :
    {U : Type 0} (b : Slice) (vs : Bytes) {x y : Option (Slice × Option U)} (c : Bool)
    → ((c ≡ true) → AppendsExt b vs x)
    → ((c ≡ false) → AppendsExt b vs y)
    → AppendsExt b vs (if c then x else y)
if_AppendsExt b vs true p q = p refl
if_AppendsExt b vs false p q = q refl

-- The stores of a fixext prefix do not reach the visible bytes.
put_fixext_keeps :
    (b : Slice) (sz prefix t : ℕ)
    → 2 ≤ sz
    → (b' : Slice) × (put_fixext b sz prefix t ≡ some b') × (b'.visible ≡ b.visible)
unfolding put_fixext
put_fixext_keeps b sz prefix t h =
    let (tail, v, l, n, c) = ensure_room b sz in
    let two = prefix ∷ byte t ∷ [] in
    let (o, s, w) =
      store_behind (ensure b sz).0 b.visible tail (two ++ drop 2 tail) (ensure b sz).1 (put_all two)
        v n (put_all_fits two tail (omega arith)) in
    elim (Bool-cases (ltb (cap b - length b.visible) sz)) [
      | inl p ↦ rw (s, p) (b, refl, refl)
      | inr p ↦ rw (s, p) (_, refl, refl)
    ]

no_bytes : (xs : Bytes) → length xs ≡ 0 → xs ≡ []
no_bytes [] h = refl
no_bytes (x ∷ xs) h = absurd (omega arith)

byte_small : (x : ℕ) → x < 256 → byte x ≡ x
byte_small x h = omega arith

module _ {E U : Type 0} (ext : Extension E U) (e : E) (bs : Bytes) (enc : Encodes ext e bs) where
  put_extension-AppendsExt :
      (b : Slice) (header : Bytes) → AppendsExt b (header ++ bs) (put_extension ext b header e)
  unfolding put_extension marshal_at
  put_extension-AppendsExt b header =
      let k = length header in
      let (tail, v, l, n, c) = ensure_room b (ext.len e + k) in
      let d = drop k tail in
      let (o, s, w) =
        store_behind (ensure b (ext.len e + k)).0 b.visible tail (header ++ d)
          (ensure b (ext.len e + k)).1 (put_all header) v n
          (put_all_fits header tail (omega arith)) in
      let front = b.visible ++ header in
      let w' : o.visible ≡ front ++ d = w ∙ sym (append_assoc b.visible header d) in
      let at : (ensure b (ext.len e + k)).1 + k ≡ length front =
        omega (arith, length-append b.visible header) in
      let got = slice_from_at o.visible front d ((ensure b (ext.len e + k)).1 + k) w' at in
      let full : length d ≡ ext.len e = omega (arith, length-drop k tail) in
      rw (s, got, enc.copies d full)
        (
          _,
          refl,
          ap (λ t. t ++ bs) (rw (w', at) (take_append front d)) ∙ append_assoc b.visible header bs,
        )

  append_sized-AppendsExt :
      (b : Slice)
      → AppendsExt b (ext_header (ext.len e) (ext.ext_type e) ++ bs) (append_sized ext b e)
  unfolding append_sized ext_header
  append_sized-AppendsExt b =
      let l = ext.len e in
      let t = byte_small (ext.ext_type e) enc.type_byte in
      elim (Bool-cases (ltb l 255)) [
        | inl p ↦ rw (p, t, byte_small l (ground (arith, p))) (put_extension-AppendsExt b _)
        | inr p ↦ elim (Bool-cases (ltb l 65535)) [
          | inl q ↦ rw (p, q, t) (put_extension-AppendsExt b _)
          | inr q ↦ rw (p, q, t) (put_extension-AppendsExt b _)
        ]
      ]

  -- Behind the stores of a fixext prefix.
  behind_fixext :
      (b : Slice) (sz prefix : ℕ)
      → 2 ≤ sz
      → AppendsExt b
          (ext_header (ext.len e) (ext.ext_type e) ++ bs)
          (put_fixext b sz prefix (ext.ext_type e) >>= λ b'. append_sized ext b' e)
  behind_fixext b sz prefix h =
      let (b', p, v) = put_fixext_keeps b sz prefix (ext.ext_type e) h in
      let (o, q, w) = append_sized-AppendsExt b' in
      rw p (o, q, w ∙ ap (λ x. x ++ (ext_header (ext.len e) (ext.ext_type e) ++ bs)) v)

  -- The case of no data, which MarshalBinaryTo is not called for.
  no_data :
      (b : Slice)
      → ext.len e ≡ 0
      → AppendsExt {U = U} b (ext_header (ext.len e) (ext.ext_type e) ++ bs) (
          append_with b 3 (put_all (mext8 ∷ 0 ∷ byte (ext.ext_type e) ∷ [])) >>= λ o.
          some (o, none))
  unfolding ext_header
  no_data b p =
      let header = mext8 ∷ 0 ∷ ext.ext_type e ∷ [] in
      let (o, q, w) = append_with_all b 3 header refl in
      rw (byte_small (ext.ext_type e) enc.type_byte, q, p)
        (o, refl, w ∙ ap (λ t. b.visible ++ (header ++ t)) (sym (no_bytes bs (enc.size ∙ p))))

  pub append_extension-AppendsExt :
      (b : Slice)
      → AppendsExt b (ext_header (ext.len e) (ext.ext_type e) ++ bs) (append_extension ext b e)
  unfolding append_extension
  append_extension-AppendsExt b =
      let l = ext.len e in
      let vs = ext_header l (ext.ext_type e) ++ bs in
      if_AppendsExt b vs (l == 0) (λ p. no_data b (ground (arith, p)))
        (λ p.
          if_AppendsExt b vs (l == 1) (λ q. behind_fixext b 3 mfixext1 (omega arith))
            (λ q.
              if_AppendsExt b vs (l == 2) (λ r. behind_fixext b 4 mfixext2 (omega arith))
                (λ r.
                  if_AppendsExt b vs (l == 4) (λ s. behind_fixext b 6 mfixext4 (omega arith))
                    (λ s.
                      if_AppendsExt b vs (l == 8) (λ t. behind_fixext b 10 mfixext8 (omega arith))
                        (λ t.
                          if_AppendsExt b vs (l == 16)
                            (λ u. behind_fixext b 18 mfixext16 (omega arith))
                            (λ u. append_sized-AppendsExt b))))))
