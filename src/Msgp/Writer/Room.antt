-- ===== src/Msgp/Writer/Room.antt =====
-- msgp/write.go: the methods that make room for bytes and put them in the buffer.
use truepack.Prelude.{
  ℕ, ◌+◌, ◌-◌, ◌≤◌, ◌≡◌, refl, sym, ap, ◌∙◌, inl, inr, Option, some, [], ◌++◌, append_assoc,
  append-nil, arith, ltb, Bool-cases, length, take, drop, length-append, length-take, take_all,
  take_append, slice_from-drop, length-drop,
}
use Prim.Native.Nat.{min}
use truepack.Msgp.Integers.{put_all}
use truepack.Msgp.Integers.Laws.{put_all_fits}
use truepack.Msgp.Slice.{go_copy, copied}
use truepack.Msgp.Wire.{Bytes}
use truepack.Msgp.Writer.{
  IoWriter, Writer, Written, and_then, flush, avail, with_room, put_next, copy_next,
}
use truepack.Msgp.Writer.Flush.{flush-Flushes}
use truepack.Msgp.Writer.Output.{IsIoWriter, IsWriter, KeepsSize, Keeps, Writes, same-Writes}

-- A store that fills the front of any slice it fits in.
abbrev pub Stores : (Bytes → Option Bytes) → Bytes → Type 0
Stores put vs = (t : Bytes) → length vs ≤ length t → put t ≡ some (vs ++ drop (length vs) t)

take_behind : (a vs rest : Bytes) → take (length a + length vs) (a ++ (vs ++ rest)) ≡ a ++ vs
take_behind a vs rest =
    rw (sym (append_assoc a vs rest), sym (length-append a vs)) (take_append (a ++ vs) rest)

module _ {W X : Type 0} (io : IoWriter W X) (accepted : W → Bytes) where
  -- Bytes that fit are stored behind the output.
  pub put_next-Writes :
      (mw : Writer W) (vs : Bytes) (put : Bytes → Option Bytes)
      → IsWriter mw
      → mw.wloc + length vs ≤ length mw.buf
      → Stores put vs
      → Writes accepted mw vs (put_next io mw (length vs) put)
  unfolding put_next
  put_next-Writes mw vs put (size, loc) fits st =
      let a = take mw.wloc mw.buf in
      let la : length a ≡ mw.wloc = length-take mw.wloc mw.buf loc in
      let t = drop mw.wloc mw.buf in
      let lt : length t ≡ length mw.buf - mw.wloc = length-drop mw.wloc mw.buf in
      let rest = drop (length vs) t in
      let same : length (a ++ (vs ++ rest)) ≡ length mw.buf =
        omega
          (arith, length-append a (vs ++ rest), length-append vs rest, length-drop (length vs) t) in
      rw (slice_from-drop mw.buf mw.wloc loc, st t (omega arith))
        (inl (
          record { w = mw.w; buf = a ++ (vs ++ rest); wloc = mw.wloc + length vs },
          refl,
          ((omega arith, omega arith), omega arith),
          ap (λ t. accepted mw.w ++ t)
                (ap (λ n. take (n + length vs) (a ++ (vs ++ rest))) (sym la)
                  ∙ take_behind a vs rest)
              ∙ sym (append_assoc (accepted mw.w) a vs),
        ))

  -- `copy` of bytes that fit is a store of them.
  copy_next-put_next :
      (mw : Writer W) (p : Bytes)
      → mw.wloc + length p ≤ length mw.buf
      → copy_next io mw p ≡ put_next io mw (length p) (put_all p)
  unfolding copy_next put_next go_copy copied
  copy_next-put_next mw p fits =
      let t = drop mw.wloc mw.buf in
      let lt : length t ≡ length mw.buf - mw.wloc = length-drop mw.wloc mw.buf in
      let fit : length p ≤ length t = omega arith in
      let c : min (length t) (length p) ≡ length p = omega arith in
      rw
        (
          slice_from-drop mw.buf mw.wloc (omega arith),
          put_all_fits p t fit,
          take_all p (length t) fit,
          c,
        )
        refl

  pub copy_next-Writes :
      (mw : Writer W) (p : Bytes)
      → IsWriter mw
      → mw.wloc + length p ≤ length mw.buf
      → Writes accepted mw p (copy_next io mw p)
  copy_next-Writes mw p i fits =
      rw (copy_next-put_next mw p fits) (put_next-Writes mw p (put_all p) i fits (put_all_fits p))

module _ {W X : Type 0} (io : IoWriter W X) (accepted : W → Bytes)
    (law : IsIoWriter io accepted) where
  -- A flush, then a write that finds the buffer empty.
  pub after_flush-Writes :
      (mw : Writer W) (bs : Bytes) (k : Writer W → Written io)
      → IsWriter mw
      → ((m : Writer W) → KeepsSize mw m → m.wloc ≡ 0 → Writes accepted m bs (k m))
      → Writes accepted mw bs (and_then io (flush io mw) k)
  unfolding and_then
  after_flush-Writes mw bs k i h = elim (flush-Flushes io accepted law mw i) [
    | inl (m, e, (j, l), z, a) ↦
        rw e
          (same-Writes accepted mw m bs (k m) (omega arith) (rw (z, append-nil) a) (h m (j, l) z))
    | inr (m, x, e, j, o) ↦
        inr (m, x, [], bs, rw e refl, (j.0, omega (arith, j.1)), refl, o ∙ sym (append-nil _))
  ]

  pub with_room-Writes :
      (mw : Writer W) (n : ℕ) (bs : Bytes) (k : Writer W → Written io)
      → IsWriter mw
      → n ≤ length mw.buf
      → ((m : Writer W) → Keeps mw m → m.wloc + n ≤ length m.buf → Writes accepted m bs (k m))
      → Writes accepted mw bs (with_room io mw n k)
  unfolding with_room avail
  with_room-Writes mw n bs k i fits h = elim (Bool-cases (ltb (length mw.buf - mw.wloc) n)) [
    | inl e ↦ rw e (
        after_flush-Writes mw bs k i
          (λ m j z. h m (j.0, omega (arith, j.1)) (omega (arith, j.1, z))))
    | inr e ↦ rw e (h mw (i, omega arith) (ground (arith, e, i.1)))
  ]
