-- ===== src/Msgp/Writer/Output.antt =====
-- msgp/write.go: what a Writer has written: the bytes that the io.Writer has accepted and those in
-- the buffer. The hypotheses on the io.Writer are those of its documentation.
use truepack.Prelude.{
  ◌≤◌, ◌≡◌, refl, sym, ap, ◌∙◌, ◌⊎◌, inl, inr, Option, none, some, ◌++◌, append_assoc, arith,
  length, take,
}
use truepack.Msgp.Wire.{Bytes}
use truepack.Msgp.Writer.{IoWriter, Writer, Written, and_then}

-- `accepted w` is the bytes that have reached the io.Writer in the state `w`. Write takes the first
-- `n` bytes, for an `n` within them, and returns an error when these are not all.
abbrev pub IsIoWriter : {W X : Type 0} → IoWriter W X → (W → Bytes) → Type 0
IsIoWriter {W} io accepted =
    (w : W) (p : Bytes)
    → ((io.write_to w p).1 ≤ length p)
      × (accepted (io.write_to w p).0 ≡ accepted w ++ take (io.write_to w p).1 p)
      × ((io.write_to w p).2 ≡ none → (io.write_to w p).1 ≡ length p)

-- The room that `require` counts on, and a location within the buffer.
abbrev pub IsWriter : {W : Type 0} → Writer W → Type 0
IsWriter mw = (18 ≤ length mw.buf) × (mw.wloc ≤ length mw.buf)

abbrev pub output : {W : Type 0} → (W → Bytes) → Writer W → Bytes
output accepted mw = accepted mw.w ++ take mw.wloc mw.buf

-- The writer is in order, with a buffer of the same size, or one that is no shorter.
abbrev pub KeepsSize : {W : Type 0} → Writer W → Writer W → Type 0
KeepsSize mw m = IsWriter m × (length m.buf ≡ length mw.buf)

abbrev pub Keeps : {W : Type 0} → Writer W → Writer W → Type 0
Keeps mw m = IsWriter m × (length mw.buf ≤ length m.buf)

-- The call does not panic. Without an error the output grows by `bs`, with one by a prefix of it.
abbrev pub Writes :
    {W X : Type 0} → (W → Bytes) → Writer W → Bytes → Option (Writer W × Option X) → Type 0
Writes {W} {X} accepted mw bs r =
    ((m : Writer W) × (r ≡ some (m, none))
      × Keeps mw m
      × (output accepted m ≡ output accepted mw ++ bs))
    ⊎ ((m : Writer W) × (x : X) × (front : Bytes) × (back : Bytes) × (r ≡ some (m, some x))
        × Keeps mw m
        × (bs ≡ front ++ back)
        × (output accepted m ≡ output accepted mw ++ front))

module _ {W X : Type 0} (accepted : W → Bytes) where
  -- Writing may start at a writer with the same output.
  pub same-Writes :
      (mw m : Writer W) (bs : Bytes) (r : Option (Writer W × Option X))
      → length mw.buf ≤ length m.buf
      → output accepted m ≡ output accepted mw
      → Writes accepted m bs r
      → Writes accepted mw bs r
  same-Writes mw m bs r l o (inl (m', e, (i, l'), o')) =
      inl (m', e, (i, omega arith), o' ∙ ap (λ t. t ++ bs) o)
  same-Writes mw m bs r l o (inr (m', x, front, back, e, (i, l'), s, o')) =
      inr (m', x, front, back, e, (i, omega arith), s, o' ∙ ap (λ t. t ++ front) o)

module _ {W X : Type 0} (io : IoWriter W X) (accepted : W → Bytes) where
  -- A second part is written behind the first, unless that failed.
  pub and_then-Writes :
      (mw : Writer W) (bs cs : Bytes) (r : Written io) (k : Writer W → Written io)
      → Writes accepted mw bs r
      → ((m : Writer W) → Keeps mw m → Writes accepted m cs (k m))
      → Writes accepted mw (bs ++ cs) (and_then io r k)
  unfolding and_then
  and_then-Writes mw bs cs r k (inl (m, e, (i, l), o)) h = rw e (elim (h m (i, l)) [
    | inl (m', e', (i', l'), o') ↦ inl (
      m',
      e',
      (i', omega arith),
      o' ∙ ap (λ t. t ++ cs) o ∙ append_assoc (output accepted mw) bs cs,
    )
    | inr (m', x, front, back, e', (i', l'), s, o') ↦ inr (
      m',
      x,
      bs ++ front,
      back,
      e',
      (i', omega arith),
      ap (λ t. bs ++ t) s ∙ sym (append_assoc bs front back),
      o' ∙ ap (λ t. t ++ front) o ∙ append_assoc (output accepted mw) bs front,
    )
  ])
  and_then-Writes mw bs cs r k (inr (m, x, front, back, e, i, s, o)) h =
      inr
        (m, x, front, back ++ cs, rw e refl, i, ap (λ t. t ++ cs) s ∙ append_assoc front back cs, o)
