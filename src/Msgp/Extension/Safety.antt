-- ===== src/Msgp/Extension/Safety.antt =====
-- msgp/extension.go: ReadExtensionBytes on any bytes, and the registry.
use truepack.Prelude.{
  ℕ, ◌+◌, ◌-◌, ◌≤◌, ◌≡◌, refl, Bool, true, false, not, Option, none, some, List, [], ◌∷◌, arith,
  ltb, ◌==◌, if◌then◌else◌, ◌>>=◌, length, take, get_elem?, slice_from, slice_from_in_range,
}
use truepack.Msgp.Extension.{
  Extension, CodecError, own_error, registered, ReadExt, unmarshal, ext_data, read_extension_bytes,
}
use truepack.Msgp.Integers.{be_uint16, be_uint32}
use truepack.Msgp.Nilbits.{NilBitsStack, is_always_nil}
use truepack.Msgp.Safety.Rules.{
  EndsIn, slice_from_front, be_uint16_total, be_uint32_total, get_elem?_total,
}
use truepack.Msgp.Wire.{
  mext8, mext16, mext32, mfixext1, mfixext2, mfixext4, mfixext8, mfixext16, bad_prefix, Bytes,
  extension_type, Error, err_short_bytes,
}

module _ {E U : Type 0} (ext : Extension E U) (b : Bytes) (e : E) where
  -- The call returns, and the rest is an end of the input.
  abbrev pub SafeExt : ReadExt ext → Type 0
  SafeExt r =
      (rest : Bytes) × (e' : E) × (err : Option (CodecError U)) × (r ≡ some (rest, e', err))
      × EndsIn b rest

  if-SafeExt :
      {x y : ReadExt ext} (c : Bool)
      → SafeExt x
      → ((c ≡ false) → SafeExt y)
      → SafeExt (if c then x else y)
  if-SafeExt true p q = p
  if-SafeExt false p q = q refl

  refused : (err : Error) → SafeExt (some (b, e, some (own_error err)))
  refused err = (b, e, some (own_error err), refl, ([], refl))

  unmarshal-SafeExt : (rest bs : Bytes) → EndsIn b rest → SafeExt (unmarshal ext rest e bs)
  unfolding unmarshal
  unmarshal-SafeExt rest bs q = (rest, _, _, refl, q)

  ext_data-SafeExt : (t sz off : ℕ) → off ≤ length b → SafeExt (ext_data ext b e t sz off)
  unfolding ext_data
  ext_data-SafeExt t sz off h =
      let (tail, p, l) = slice_from_in_range b off h in
      if-SafeExt (not (t == ext.ext_type e)) (refused _) (λ s. rw p (
        if-SafeExt (ltb (length tail) sz) (refused err_short_bytes) (λ k.
          let (front, rest, f, g) = slice_from_front b (off + sz) (ground (arith, k)) in
          rw f (unmarshal-SafeExt rest (take sz tail) (front, g)))))

  long_form :
      (k : ℕ) (size : Bytes → Option ℕ)
      → 3 ≤ length b
      → 1 ≤ k
      → ((t : Bytes) → k ≤ length t + 1 → (v : ℕ) × (size t ≡ some v))
      → SafeExt (
          if ltb (length b) k
          then some (b, e, some (own_error err_short_bytes))
          else (slice_from b 1 >>= λ t.
              size t >>= λ sz. get_elem? b (k - 1) >>= λ typ. ext_data ext b e typ sz k))
  long_form k size h one f = if-SafeExt (ltb (length b) k) (refused err_short_bytes) (λ s.
      let enough : k ≤ length b = ground (arith, s) in
      let (t, p, l) = slice_from_in_range b 1 (omega arith) in
      let (sz, q) = f t (omega arith) in
      let (typ, r) = get_elem?_total b (k - 1) (omega arith) in
      rw (p, q, r) (ext_data-SafeExt typ sz k enough))

  -- On every input, and whatever the user's methods answer, ReadExtensionBytes returns, so that no
  -- index is out of range; the rest that it returns is an end of the input.
  pub read_extension-SafeExt :
      (nbs : Option NilBitsStack) → SafeExt (read_extension_bytes ext nbs b e)
  unfolding read_extension_bytes
  read_extension-SafeExt nbs =
      if-SafeExt (is_always_nil nbs) (b, e, none, refl, ([], refl))
        (λ live. if-SafeExt (ltb (length b) 3) (refused err_short_bytes) (λ s.
          let h : 3 ≤ length b = ground (arith, s) in
          let (lead, p) = get_elem?_total b 0 (omega arith) in
          let (b1, q) = get_elem?_total b 1 (omega arith) in
          let (b2, r) = get_elem?_total b 2 (omega arith) in
          let (front, rest, f, g) = slice_from_front b 3 h in
          let two : 2 ≤ length b = omega arith in
          rw (p, q, r)
            (if-SafeExt (lead == mfixext1) (ext_data-SafeExt b1 1 2 two) (λ k1.
              if-SafeExt (lead == mfixext2) (ext_data-SafeExt b1 2 2 two) (λ k2.
                if-SafeExt (lead == mfixext4) (ext_data-SafeExt b1 4 2 two) (λ k4.
                  if-SafeExt (lead == mfixext8) (ext_data-SafeExt b1 8 2 two) (λ k8.
                    if-SafeExt (lead == mfixext16) (ext_data-SafeExt b1 16 2 two) (λ k16.
                      if-SafeExt (lead == mext8)
                        (if-SafeExt (b1 == 0) (rw f (unmarshal-SafeExt rest [] (front, g)))
                          (λ z. ext_data-SafeExt b2 b1 3 h))
                        (λ e8.
                          if-SafeExt (lead == mext16)
                            (long_form 4 be_uint16 h (omega arith)
                              (λ t l. be_uint16_total t (omega arith)))
                            (λ e16.
                              if-SafeExt (lead == mext32)
                                (long_form 6 be_uint32 h (omega arith)
                                  (λ t l. be_uint32_total t (omega arith)))
                                (λ e32. refused (bad_prefix extension_type lead))))))))))))

registered_same :
    {F : Type 0} (reg : List (ℕ × F)) (typ : ℕ) (f : F) → registered ((typ, f) ∷ reg) typ ≡ some f
unfolding registered
registered_same reg typ f = let e : (typ == typ) ≡ true = ground arith in rw e
