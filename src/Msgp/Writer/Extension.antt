-- ===== src/Msgp/Writer/Extension.antt =====
-- msgp/extension.go: WriteExtension. `lift` makes an error of the user's MarshalBinaryTo an error of the
-- Writer's.
pub mod Laws
pub mod Raw
use truepack.Prelude.{
  ℕ, Option, none, some, [], ◌∷◌, ◌++◌, ltb, leb, ◌==◌, if◌then◌else◌, ◌>>=◌, length, take,
  replicate, slice_from,
}
use truepack.Msgp.Extension.{Extension}
use truepack.Msgp.Integers.{byte, be16, be32, put_all}
use truepack.Msgp.Wire.{
  mext8, mext16, mext32, mfixext1, mfixext2, mfixext4, mfixext8, mfixext16, Bytes,
}
use truepack.Msgp.Writer.{IoWriter, Writer, Written, and_then, flush, require, require_put}

module _ {W X E U : Type 0} (io : IoWriter W X) (ext : Extension E U) (lift : U → X) where
  -- The `switch l`.
  unfoldable pub write_ext_header : Writer W → E → Written io
  write_ext_header mw e =
      let l = ext.len e in
      let t = byte (ext.ext_type e) in
      if l == 0
      then require_put io mw 3 (put_all (mext8 ∷ 0 ∷ t ∷ []))
      else if l == 1
      then require_put io mw 2 (put_all (mfixext1 ∷ t ∷ []))
      else if l == 2
      then require_put io mw 2 (put_all (mfixext2 ∷ t ∷ []))
      else if l == 4
      then require_put io mw 2 (put_all (mfixext4 ∷ t ∷ []))
      else if l == 8
      then require_put io mw 2 (put_all (mfixext8 ∷ t ∷ []))
      else if l == 16
      then require_put io mw 2 (put_all (mfixext16 ∷ t ∷ []))
      else if ltb l 255
      then require_put io mw 3 (put_all (mext8 ∷ byte l ∷ t ∷ []))
      else if ltb l 65535
      then require_put io mw 4 (put_all (mext16 ∷ (be16 l ++ (t ∷ []))))
      else require_put io mw 6 (put_all (mext32 ∷ (be32 l ++ (t ∷ []))))

  unfoldable pub lifted : Option U → Option X
  lifted none = none
  lifted (some u) = some (lift u)

  -- `return e.MarshalBinaryTo(mw.buf[o:])`
  unfoldable pub marshal_into : Writer W → ℕ → E → Written io
  unfolding lifted
  marshal_into m o e = slice_from m.buf o >>= λ t.
      let (t', err) = ext.marshal_binary_to e t in
      some (record { w = m.w; buf = take o m.buf ++ t'; wloc = m.wloc }, lifted err)

  -- The data that fits in the buffer, and the data that becomes the buffer.
  unfoldable pub write_ext_data : Writer W → E → Written io
  unfolding require marshal_into
  write_ext_data mw e = require io mw (ext.len e) >>= λ (m, o, err). elim err [
    | some x ↦ some (m, some x)
    | none ↦ marshal_into m o e
  ]

  unfoldable pub new_buffer : Writer W → ℕ → Bytes × Option U → Written io
  new_buffer mw l (buf, some u) = some (mw, some (lift u))
  new_buffer mw l (buf, none) = some (record { w = mw.w; buf = buf; wloc = l }, none)

  unfoldable pub replace_buffer : Writer W → E → Written io
  unfolding new_buffer
  replace_buffer mw e =
      new_buffer mw (ext.len e) (ext.marshal_binary_to e (replicate (ext.len e) 0))

  unfoldable pub write_extension : Writer W → E → Written io
  unfolding and_then write_ext_header write_ext_data replace_buffer
  write_extension mw e = and_then io (write_ext_header mw e) (λ m.
      if leb (ext.len e) (length m.buf)
      then write_ext_data m e
      else and_then io (flush io m) (λ m'. replace_buffer m' e))
