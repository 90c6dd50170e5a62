-- ===== src/Msgp/Writer/Flush.antt =====
-- msgp/write.go: `flush`.
use truepack.Prelude.{
  ℕ, zero, suc, ◌-◌, ◌≤◌, ◌≡◌, refl, ap, ◌∙◌, ◌⊎◌, inl, inr, Option, none, some, [], ◌∷◌, ◌++◌,
  append_assoc, append-nil, arith, ltb, ◌==◌, le→leb, Bool-cases, length, take, drop, length-append,
  length-take, take_all, take_append, slice_from-drop, length-drop,
}
use Prim.Native.Nat.{min}
use truepack.Msgp.Slice.{go_copy, copied}
use truepack.Msgp.Wire.{Bytes}
use truepack.Msgp.Writer.{IoWriter, Writer, slice_to, Written, sent, flush}
use truepack.Msgp.Writer.Output.{IsIoWriter, IsWriter, output, KeepsSize}

pub take-drop : (n : ℕ) (xs : Bytes) → take n xs ++ drop n xs ≡ xs
take-drop zero xs = refl
take-drop (suc n) [] = refl
take-drop (suc n) (x ∷ xs) = ap (λ t. x ∷ t) (take-drop n xs)

module _ {W X : Type 0} (io : IoWriter W X) (accepted : W → Bytes)
    (law : IsIoWriter io accepted) where
  -- What a flush returns: all of the output has reached the io.Writer, or there was an error and the
  -- output is what it was.
  abbrev pub Flushes : Writer W → Written io → Type 0
  Flushes mw r =
      ((m : Writer W) × (r ≡ some (m, none))
        × KeepsSize mw m
        × (m.wloc ≡ 0)
        × (accepted m.w ≡ output accepted mw))
      ⊎ ((m : Writer W) × (x : X) × (r ≡ some (m, some x))
          × KeepsSize mw m
          × (output accepted m ≡ output accepted mw))

  -- A short write moves the rest to the front of the buffer.
  abbrev rest_writer : Writer W → W → Bytes → Writer W
  rest_writer mw w' rest = record { w = w'; buf = go_copy mw.buf rest; wloc = copied mw.buf rest }

  rest_kept :
      (mw : Writer W) (w' : W) (n : ℕ)
      → IsWriter mw
      → n ≤ mw.wloc
      → accepted w' ≡ accepted mw.w ++ take n (take mw.wloc mw.buf)
      → KeepsSize mw (rest_writer mw w' (drop n (take mw.wloc mw.buf)))
        × (output accepted (rest_writer mw w' (drop n (take mw.wloc mw.buf))) ≡ output accepted mw)
  unfolding go_copy copied
  rest_kept mw w' n (size, loc) h a =
      let p = take mw.wloc mw.buf in
      let lp : length p ≡ mw.wloc = length-take mw.wloc mw.buf loc in
      let rest = drop n p in
      let lr : length rest ≡ mw.wloc - n = omega (arith, length-drop n p) in
      let all : take (length mw.buf) rest ≡ rest = take_all rest (length mw.buf) (omega arith) in
      let same : length (rest ++ drop (length rest) mw.buf) ≡ length mw.buf =
        omega (
          arith,
          length-append rest (drop (length rest) mw.buf),
          length-drop (length rest) mw.buf,
        ) in
      let c : min (length mw.buf) (length rest) ≡ length rest = omega arith in
      rw (all, c)
        (
          ((omega arith, omega arith), same),
          rw
              (
                take_append rest (drop (length rest) mw.buf),
                a,
                append_assoc (accepted mw.w) (take n p) rest,
                take-drop n p,
              )
              refl,
        )

  sent-Flushes :
      (mw : Writer W) (res : W × ℕ × Option X)
      → IsWriter mw
      → res.1 ≤ mw.wloc
      → accepted res.0 ≡ accepted mw.w ++ take res.1 (take mw.wloc mw.buf)
      → (res.2 ≡ none → res.1 ≡ mw.wloc)
      → Flushes mw (sent io mw (take mw.wloc mw.buf) res)
  unfolding sent
  sent-Flushes mw (w', n, none) (size, loc) h a full = inl (
    record { w = w'; buf = mw.buf; wloc = 0 },
    refl,
    ((size, omega arith), refl),
    refl,
    a
        ∙ ap (λ t. accepted mw.w ++ t)
            (take_all (take mw.wloc mw.buf) n
              (omega (arith, full refl, length-take mw.wloc mw.buf loc))),
  )
  sent-Flushes mw (w', n, some x) (size, loc) h a full = elim (Bool-cases (ltb 0 n)) [
    | inl e ↦
        rw
          (
            e,
            slice_from-drop (take mw.wloc mw.buf) n (omega (arith, length-take mw.wloc mw.buf loc)),
          )
          (let (k, o) = rest_kept mw w' n (size, loc) h a in
            inr (rest_writer mw w' (drop n (take mw.wloc mw.buf)), x, refl, k, o))
    | inr e ↦
        let z : n ≡ 0 = ground (arith, e) in
        rw e (
          inr (
            record { w = w'; buf = mw.buf; wloc = mw.wloc },
            x,
            refl,
            ((size, loc), refl),
            ap (λ t. t ++ take mw.wloc mw.buf) (a ∙ rw (z, append-nil) refl),
          ))
  ]

  -- On a writer in order, over an io.Writer that keeps its documented contract, `flush` does not panic
  -- and keeps the order. Without an error the buffer is empty and the io.Writer has accepted all that
  -- was written; with one, short writes included, the accepted bytes and the buffer together are what
  -- they were.
  pub flush-Flushes : (mw : Writer W) → IsWriter mw → Flushes mw (flush io mw)
  unfolding flush slice_to
  flush-Flushes mw (size, loc) = elim (Bool-cases (mw.wloc == 0)) [
    | inl e ↦
        let z : mw.wloc ≡ 0 = ground (arith, e) in
        rw e (inl (mw, refl, ((size, loc), refl), z, rw (z, append-nil) refl))
    | inr e ↦
        let p = take mw.wloc mw.buf in
        let lp : length p ≡ mw.wloc = length-take mw.wloc mw.buf loc in
        let (n, a, full) = law mw.w p in
        rw (e, le→leb mw.wloc (length mw.buf) loc)
          (sent-Flushes mw (io.write_to mw.w p) (size, loc) (omega arith) a (λ h. full h ∙ lp))
  ]
