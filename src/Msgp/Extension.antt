-- ===== src/Msgp/Extension.antt =====
-- msgp/extension.go: the registry, RawExtension, AppendExtension, ReadExtensionBytes and
-- peekExtension. An int8 is its bit pattern, `none` is a panic. The methods of a user's extension are
-- the record Extension; the errors that these return are values of a type of the user's.
pub mod Laws
pub mod Reads
pub mod RoundTrip
pub mod Safety
mod Tests
use truepack.Prelude.{
  ℕ, ◌+◌, ◌-◌, not, ◌||◌, Option, none, some, List, [], ◌∷◌, ◌++◌, ltb, leb, ◌==◌, if◌then◌else◌,
  ◌>>=◌, length, take, drop, replicate, get_elem?, slice_from,
}
use truepack.Msgp.Integers.{byte, be16, be32, put_all, be_uint16, be_uint32}
use truepack.Msgp.Nilbits.{NilBitsStack, is_always_nil}
use truepack.Msgp.Read.{sized}
use truepack.Msgp.Skip.{is_extension, is_constsize}
use truepack.Msgp.Slice.{Slice, cap, go_copy, ensure, store, append_with}
use truepack.Msgp.Wire.{
  mext8, mext16, mext32, mfixext1, mfixext2, mfixext4, mfixext8, mfixext16, complex64_extension,
  complex128_extension, time_extension, sizes, bad_prefix, Bytes, extension_type, Error,
  err_short_bytes, err_ext,
}

-- What a method with the receiver `e` may change is its result.
pub record Extension (E U : Type 0) : Type 0 where
  pub ext_type : E → ℕ
  pub len : E → ℕ
  pub marshal_binary_to : E → Bytes → Bytes × Option U
  pub unmarshal_binary : E → Bytes → E × Option U

pub data CodecError (U : Type 0) : Type 0 where
  own_error : Error → CodecError U
  user_error : U → CodecError U

unfoldable pub users : {U : Type 0} → Option U → Option (CodecError U)
users none = none
users (some u) = some (user_error u)

pub record RawExtension : Type 0 where
  pub data_slice : Slice
  pub typ : ℕ

unfoldable pub raw_unmarshal_binary : RawExtension → Bytes → RawExtension × Option (Unit {0})
unfolding go_copy
raw_unmarshal_binary r b =
    let all = r.data_slice.visible ++ r.data_slice.spare in
    let sized : Slice =
      if leb (length b) (cap r.data_slice)
      then record { visible = take (length b) all; spare = drop (length b) all }
      else record { visible = replicate (length b) 0; spare = [] } in
    (
      record r { data_slice = record { visible = go_copy sized.visible b; spare = sized.spare } },
      none,
    )

unfoldable pub raw_extension : Extension RawExtension (Unit {0})
unfolding go_copy raw_unmarshal_binary
raw_extension = record {
  ext_type = λ r. r.typ;
  len = λ r. length r.data_slice.visible;
  marshal_binary_to = λ r d. (go_copy d r.data_slice.visible, none);
  unmarshal_binary = raw_unmarshal_binary;
}

-- The map extensionReg, from types to constructors.
unfoldable pub registered : {F : Type 0} → List (ℕ × F) → ℕ → Option F
registered [] typ = none
registered ((t, f) ∷ reg) typ = if t == typ then some f else registered reg typ

unfoldable pub register_extension : {F : Type 0} → List (ℕ × F) → ℕ → F → Option (List (ℕ × F))
unfolding registered
register_extension reg typ f =
    if typ == complex64_extension || typ == complex128_extension || typ == time_extension
    then none
    else elim (registered reg typ) [ none ↦ some ((typ, f) ∷ reg) | some g ↦ none ]

-- A case of the first `switch` of AppendExtension: the stores go into the spare room of `b` if they
-- fit there, and else into memory that nothing keeps. The second `switch` starts from `b` again.
unfoldable pub put_fixext : Slice → ℕ → ℕ → ℕ → Option Slice
put_fixext b sz prefix t =
    let (o, n) = ensure b sz in
    store o n (put_all (prefix ∷ byte t ∷ [])) >>= λ o'.
    if ltb (cap b - length b.visible) sz
    then some b
    else some
        (record { visible = b.visible; spare = drop (length b.visible) o'.visible ++ o'.spare })

module _ {E U : Type 0} (ext : Extension E U) where
  -- `return o, e.MarshalBinaryTo(o[n:])`
  unfoldable pub marshal_at : Slice → ℕ → E → Option (Slice × Option U)
  marshal_at o n e = slice_from o.visible n >>= λ d.
      let (d', err) = ext.marshal_binary_to e d in
      some (record o { visible = take n o.visible ++ d' }, err)

  unfoldable pub put_extension : Slice → Bytes → E → Option (Slice × Option U)
  put_extension b header e =
      let (o, n) = ensure b (ext.len e + length header) in
      store o n (put_all header) >>= λ o'. marshal_at o' (n + length header) e

  -- The second `switch`.
  unfoldable pub append_sized : Slice → E → Option (Slice × Option U)
  append_sized b e =
      let l = ext.len e in
      let t = byte (ext.ext_type e) in
      if ltb l 255
      then put_extension b (mext8 ∷ byte l ∷ t ∷ []) e
      else if ltb l 65535
      then put_extension b (mext16 ∷ (be16 l ++ (t ∷ []))) e
      else put_extension b (mext32 ∷ (be32 l ++ (t ∷ []))) e

  unfoldable pub append_extension : Slice → E → Option (Slice × Option U)
  append_extension b e =
      let l = ext.len e in
      let t = ext.ext_type e in
      if l == 0
      then (append_with b 3 (put_all (mext8 ∷ 0 ∷ byte t ∷ [])) >>= λ o. some (o, none))
      else if l == 1
      then (put_fixext b 3 mfixext1 t >>= λ b'. append_sized b' e)
      else if l == 2
      then (put_fixext b 4 mfixext2 t >>= λ b'. append_sized b' e)
      else if l == 4
      then (put_fixext b 6 mfixext4 t >>= λ b'. append_sized b' e)
      else if l == 8
      then (put_fixext b 10 mfixext8 t >>= λ b'. append_sized b' e)
      else if l == 16
      then (put_fixext b 18 mfixext16 t >>= λ b'. append_sized b' e)
      else append_sized b e

  -- (rest, what `e` is afterwards, err).
  abbrev pub ReadExt : Type 0
  ReadExt = Option (Bytes × E × Option (CodecError U))

  abbrev refuse : Bytes → E → Error → ReadExt
  refuse b e err = some (b, e, some (own_error err))

  unfoldable pub unmarshal : Bytes → E → Bytes → ReadExt
  unmarshal rest e bs = let (e', err) = ext.unmarshal_binary e bs in some (rest, e', users err)

  -- From the test of the type on.
  unfoldable pub ext_data : Bytes → E → ℕ → ℕ → ℕ → ReadExt
  unfolding unmarshal
  ext_data b e typ sz off =
      if not (typ == ext.ext_type e)
      then refuse b e (err_ext typ (ext.ext_type e))
      else (slice_from b off >>= λ tail.
          if ltb (length tail) sz
          then refuse b e err_short_bytes
          else (slice_from b (off + sz) >>= λ rest. unmarshal rest e (take sz tail)))

  unfoldable pub read_extension_bytes : Option NilBitsStack → Bytes → E → ReadExt
  unfolding ext_data unmarshal
  read_extension_bytes nbs b e =
      if is_always_nil nbs
      then some (b, e, none)
      else if ltb (length b) 3
      then refuse b e err_short_bytes
      else (get_elem? b 0 >>= λ lead. get_elem? b 1 >>= λ b1. get_elem? b 2 >>= λ b2.
          if lead == mfixext1
          then ext_data b e b1 1 2
          else if lead == mfixext2
          then ext_data b e b1 2 2
          else if lead == mfixext4
          then ext_data b e b1 4 2
          else if lead == mfixext8
          then ext_data b e b1 8 2
          else if lead == mfixext16
          then ext_data b e b1 16 2
          else if lead == mext8
          then (if b1 == 0
              then (slice_from b 3 >>= λ rest. unmarshal rest e [])
              else ext_data b e b2 b1 3)
          else if lead == mext16
          then (if ltb (length b) 4
              then refuse b e err_short_bytes
              else (slice_from b 1 >>= λ t.
                  be_uint16 t >>= λ sz. get_elem? b 3 >>= λ typ. ext_data b e typ sz 4))
          else if lead == mext32
          then (if ltb (length b) 6
              then refuse b e err_short_bytes
              else (slice_from b 1 >>= λ t.
                  be_uint32 t >>= λ sz. get_elem? b 5 >>= λ typ. ext_data b e typ sz 6))
          else refuse b e (bad_prefix extension_type lead))

-- The index panics on no bytes.
unfoldable pub peek_extension : Bytes → Option (ℕ × Option Error)
unfolding is_extension is_constsize
peek_extension b = get_elem? b 0 >>= λ lead.
    let spec = sizes lead in
    if not (is_extension spec.typ)
    then some (0, some (bad_prefix extension_type lead))
    else if ltb (length b) spec.size
    then some (0, some err_short_bytes)
    else ((if is_constsize spec.extra then get_elem? b 1 else get_elem? b (spec.size - 1)) >>= λ t.
        some (t, none))
