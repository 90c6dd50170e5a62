-- ===== src/Msgp/Writer/Extension/Laws.antt =====
-- msgp/extension.go: WriteExtension against the bytes of an extension.
use truepack.Prelude.{
  ℕ, ◌+◌, ◌-◌, ◌≤◌, ◌<◌, ◌≡◌, refl, sym, ap, inl, inr, true, none, some, [], ◌∷◌, ◌++◌, append-nil,
  arith, ltb, leb, ◌==◌, if◌then◌else◌, leb→le, Bool-cases, length, drop, replicate,
  length-replicate, drop_all, take_all, slice_from-drop, length-drop,
}
use truepack.Msgp.Extension.{Extension}
use truepack.Msgp.Extension.Laws.{ext_header}
use truepack.Msgp.Integers.{byte, put_all}
use truepack.Msgp.Wire.{mext8, mfixext1, mfixext2, mfixext4, mfixext8, mfixext16, Bytes}
use truepack.Msgp.Writer.{
  IoWriter, Writer, Written, and_then, flush, avail, with_room, put_next, require, require_put,
}
use truepack.Msgp.Writer.Extension.{
  write_ext_header, lifted, marshal_into, write_ext_data, new_buffer, replace_buffer,
  write_extension,
}
use truepack.Msgp.Writer.Objects.Laws.{if_Writes}
use truepack.Msgp.Writer.Output.{IsIoWriter, IsWriter, Writes, and_then-Writes}
use truepack.Msgp.Writer.Primitives.{put_all-Stores, require_put-Writes}
use truepack.Msgp.Writer.Room.{Stores, put_next-Writes, after_flush-Writes, with_room-Writes}

-- The header that WriteExtension writes: a fixext where there is one of the size.
unfoldable pub stream_ext_header : ℕ → ℕ → Bytes
unfolding ext_header
stream_ext_header l t =
    if l == 0
    then mext8 ∷ 0 ∷ t ∷ []
    else if l == 1
    then mfixext1 ∷ t ∷ []
    else if l == 2
    then mfixext2 ∷ t ∷ []
    else if l == 4
    then mfixext4 ∷ t ∷ []
    else if l == 8
    then mfixext8 ∷ t ∷ []
    else if l == 16
    then mfixext16 ∷ t ∷ []
    else ext_header l t

-- The type is an int8, and MarshalBinaryTo puts the data at the front of a slice that is long enough.
-- WriteExtension gives it the whole rest of the buffer.
pub record EncodesFront {E U : Type 0} (ext : Extension E U) (e : E) (bs : Bytes) : Type 0 where
  pub front_size : length bs ≡ ext.len e
  pub front_type : ext.ext_type e < 256
  pub front_copies :
      (d : Bytes)
      → length bs ≤ length d
      → ext.marshal_binary_to e d ≡ (bs ++ drop (length bs) d, none)

module _ {W X E U : Type 0} (io : IoWriter W X) (accepted : W → Bytes)
    (law : IsIoWriter io accepted) (ext : Extension E U) (lift : U → X) (e : E) (bs : Bytes)
    (enc : EncodesFront ext e bs) where
  header_put :
      (mw : Writer W) (n : ℕ) (vs : Bytes)
      → IsWriter mw
      → length vs ≡ n
      → n ≤ 18
      → Writes accepted mw vs (require_put io mw n (put_all vs))
  header_put mw n vs i l h =
      require_put-Writes io accepted law mw n vs _ i l (omega (arith, i.0)) (put_all-Stores vs)

  write_ext_header-Writes :
      (mw : Writer W)
      → IsWriter mw
      → Writes accepted mw
          (stream_ext_header (ext.len e) (ext.ext_type e))
          (write_ext_header io ext lift mw e)
  unfolding write_ext_header stream_ext_header ext_header
  write_ext_header-Writes mw i =
      let l = ext.len e in
      let same : byte (ext.ext_type e) ≡ ext.ext_type e = omega (arith, enc.front_type) in
      let short : (n : ℕ) → ltb n 255 ≡ true → byte n ≡ n = λ n h. ground (arith, h) in
      rw same (
        if_Writes io accepted law mw i (l == 0) (λ _. header_put mw 3 _ i refl (omega arith))
          (λ _.
            if_Writes io accepted law mw i (l == 1) (λ _. header_put mw 2 _ i refl (omega arith))
              (λ _.
                if_Writes io accepted law mw i (l == 2)
                  (λ _. header_put mw 2 _ i refl (omega arith))
                  (λ _.
                    if_Writes io accepted law mw i (l == 4)
                      (λ _. header_put mw 2 _ i refl (omega arith))
                      (λ _.
                        if_Writes io accepted law mw i (l == 8)
                          (λ _. header_put mw 2 _ i refl (omega arith))
                          (λ _.
                            if_Writes io accepted law mw i (l == 16)
                              (λ _. header_put mw 2 _ i refl (omega arith))
                              (λ _.
                                if_Writes io accepted law mw i (ltb l 255)
                                  (λ p. rw (short l p) (header_put mw 3 _ i refl (omega arith)))
                                  (λ _.
                                    if_Writes io accepted law mw i (ltb l 65535)
                                      (λ _. header_put mw 4 _ i refl (omega arith))
                                      (λ _. header_put mw 6 _ i refl (omega arith))))))))))

  -- The data behind a header is stored as bytes are.
  front-Stores : Stores (λ t. some (bs ++ drop (length bs) t)) bs
  front-Stores t h = refl

  -- `require`, and the data at its offset, is data in room made for it.
  ext_data-with_room :
      (mw : Writer W)
      → write_ext_data io ext lift mw e
        ≡ with_room io mw (ext.len e) (λ m.
          marshal_into io ext lift
            (record { w = m.w; buf = m.buf; wloc = m.wloc + ext.len e })
            m.wloc
            e)
  unfolding write_ext_data require with_room and_then avail
  ext_data-with_room mw = elim (Bool-cases (ltb (length mw.buf - mw.wloc) (ext.len e))) [
    | inl c ↦ by_flush (flush io mw) refl c
    | inr c ↦ rw c refl
  ]
    where
      by_flush :
          (r : Written io)
          → flush io mw ≡ r
          → ltb (length mw.buf - mw.wloc) (ext.len e) ≡ true
          → write_ext_data io ext lift mw e
            ≡ with_room io mw (ext.len e) (λ m.
              marshal_into io ext lift
                (record { w = m.w; buf = m.buf; wloc = m.wloc + ext.len e })
                m.wloc
                e)
      by_flush none q c = rw (c, q) refl
      by_flush (some (m, none)) q c = rw (c, q) refl
      by_flush (some (m, some x)) q c = rw (c, q) refl

  marshal_room :
      (m : Writer W)
      → IsWriter m
      → m.wloc + ext.len e ≤ length m.buf
      → marshal_into io ext lift
          (record { w = m.w; buf = m.buf; wloc = m.wloc + ext.len e })
          m.wloc
          e
        ≡ put_next io m (length bs) (λ t. some (bs ++ drop (length bs) t))
  unfolding marshal_into put_next lifted
  marshal_room m i room =
      let t = drop m.wloc m.buf in
      let fits : length bs ≤ length t = omega (arith, length-drop m.wloc m.buf, enc.front_size) in
      rw (slice_from-drop m.buf m.wloc i.1, enc.front_copies t fits, enc.front_size) refl

  write_ext_data-Writes :
      (mw : Writer W)
      → IsWriter mw
      → ext.len e ≤ length mw.buf
      → Writes accepted mw bs (write_ext_data io ext lift mw e)
  write_ext_data-Writes mw i fits = rw (ext_data-with_room mw) (
      with_room-Writes io accepted law mw (ext.len e) bs _ i fits (λ m j room.
        rw (marshal_room m j.0 room)
          (put_next-Writes io accepted m bs _ j.0 (omega (arith, enc.front_size)) front-Stores)))

  replace_buffer-Writes :
      (mw : Writer W)
      → IsWriter mw
      → mw.wloc ≡ 0
      → length mw.buf ≤ ext.len e
      → Writes accepted mw bs (replace_buffer io ext lift mw e)
  unfolding replace_buffer new_buffer
  replace_buffer-Writes mw i z h =
      let new : length (replicate (ext.len e) 0) ≡ ext.len e =
        length-replicate {A = ℕ} (ext.len e) 0 in
      let l : length bs ≡ ext.len e = enc.front_size in
      rw
        (
          enc.front_copies (replicate (ext.len e) 0) (omega arith),
          drop_all {A = ℕ} (replicate (ext.len e) 0) (length bs) (omega arith),
          append-nil,
        )
        (inl (
          record { w = mw.w; buf = bs; wloc = ext.len e },
          refl,
          ((omega (arith, i.0), omega arith), omega arith),
          rw (z, take_all bs (ext.len e) (omega arith))
              (ap (λ s. s ++ bs) (sym (append-nil (accepted mw.w)))),
        ))

  -- The header and the data, for an extension whose MarshalBinaryTo also takes a longer slice than the
  -- interface speaks of.
  pub write_extension-Writes :
      (mw : Writer W)
      → IsWriter mw
      → Writes accepted mw
          (stream_ext_header (ext.len e) (ext.ext_type e) ++ bs)
          (write_extension io ext lift mw e)
  unfolding write_extension
  write_extension-Writes mw i =
      and_then-Writes io accepted mw _ bs _ _ (write_ext_header-Writes mw i) (λ m j. body m j.0)
    where
      body :
          (m : Writer W)
          → IsWriter m
          → Writes accepted m bs (
              if leb (ext.len e) (length m.buf)
              then write_ext_data io ext lift m e
              else and_then io (flush io m) (λ m'. replace_buffer io ext lift m' e))
      body m j = elim (Bool-cases (leb (ext.len e) (length m.buf))) [
        | inl p ↦ rw p (write_ext_data-Writes m j (leb→le _ _ p))
        | inr p ↦ rw p (
            after_flush-Writes io accepted law m bs _ j
              (λ m' k z. replace_buffer-Writes m' k.0 z (ground (arith, p, k.1))))
      ]
