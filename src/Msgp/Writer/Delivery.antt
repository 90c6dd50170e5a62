-- ===== src/Msgp/Writer/Delivery.antt =====
-- msgp/write.go: NewWriterSize, Reset, Require, Append, Flush and Encode.
use truepack.Prelude.{
  ℕ, ◌+◌, ◌-◌, ◌≤◌, ◌≡◌, refl, sym, ap, ◌∙◌, inl, inr, Option, none, some, [], ◌∷◌, ◌++◌,
  append_assoc, append-nil, arith, ltb, leb, Bool-cases, length, take, length-replicate,
  length-take, drop_all, take_all,
}
use Prim.Native.Nat.{min}
use mathlib.Core.Option.{none-ne-some}
use truepack.Msgp.Append.Laws.{case_le}
use truepack.Msgp.Slice.{go_copy, copied}
use truepack.Msgp.Wire.{Bytes}
use truepack.Msgp.Writer.{
  IoWriter, Writer, new_writer_size, reset, Written, and_then, avail, with_room, copy_next, append,
  encode,
}
use truepack.Msgp.Writer.Flush.{flush-Flushes}
use truepack.Msgp.Writer.Output.{IsIoWriter, IsWriter, KeepsSize, Writes}
use truepack.Msgp.Writer.Room.{copy_next-Writes, after_flush-Writes}

pub new_writer_size-IsWriter :
    {W : Type 0} (w : W) (sz : ℕ)
    → IsWriter (new_writer_size w sz) × ((new_writer_size w sz).wloc ≡ 0)
unfolding new_writer_size
new_writer_size-IsWriter w sz = elim (Bool-cases (ltb sz 18)) [
  | inl e ↦ rw e ((omega (arith, length-replicate {A = ℕ} 18 0), omega arith), refl)
  | inr e ↦ rw e ((ground (arith, e, length-replicate {A = ℕ} sz 0), omega arith), refl)
]

no_bytes : (xs : Bytes) → length xs ≡ 0 → xs ≡ []
no_bytes [] e = refl
no_bytes (x ∷ xs) e = absurd (omega arith)

module _ {W X : Type 0} (io : IoWriter W X) (accepted : W → Bytes)
    (law : IsIoWriter io accepted) where
  -- Bytes that exceed the free part of the buffer are written up to its length, and no more.
  copy_next_cut :
      (mw : Writer W) (p : Bytes)
      → IsWriter mw
      → mw.wloc ≡ 0
      → length mw.buf ≤ length p
      → copy_next io mw p ≡ copy_next io mw (take (length mw.buf) p)
  unfolding copy_next go_copy copied
  copy_next_cut mw p i z h =
      let lt : length (take (length mw.buf) p) ≡ length mw.buf = length-take (length mw.buf) p h in
      let all : min (length mw.buf) (length p) ≡ length mw.buf = omega arith in
      let both : min (length mw.buf) (length mw.buf) ≡ length mw.buf = omega arith in
      rw
        (
          z,
          lt,
          take_all (take (length mw.buf) p) (length mw.buf) (omega arith),
          drop_all mw.buf (length p) h,
          drop_all mw.buf (length mw.buf) (omega arith),
          all,
          both,
        )
        refl

  -- Append on a writer in order does not panic: its output grows by the first bytes of `b`, as many as
  -- the whole buffer holds, or there is an error. The bytes behind those are dropped without one.
  pub append-Writes :
      (mw : Writer W) (b : Bytes)
      → IsWriter mw
      → Writes accepted mw (take (length mw.buf) b) (append io mw b)
  unfolding append with_room avail
  append-Writes mw b i = elim (Bool-cases (ltb (length mw.buf - mw.wloc) (length b))) [
    | inl e ↦ rw e (
        after_flush-Writes io accepted law mw (take (length mw.buf) b) _ i (λ m j z. emptied m j z))
    | inr e ↦
        let fits : mw.wloc + length b ≤ length mw.buf = ground (arith, e, i.1) in
        rw (e, take_all b (length mw.buf) (omega arith)) (copy_next-Writes io accepted mw b i fits)
  ]
    where
      emptied :
          (m : Writer W)
          → KeepsSize mw m
          → m.wloc ≡ 0
          → Writes accepted m (take (length mw.buf) b) (copy_next io m b)
      emptied m (j, l) z = elim (Bool-cases (leb (length m.buf) (length b))) [
        | inl more ↦
            let h : length m.buf ≤ length b = case_le (length m.buf) (length b) more in
            rw (sym l, copy_next_cut m b j z h)
              (copy_next-Writes io accepted m (take (length m.buf) b) j
                (omega (arith, length-take (length m.buf) b h)))
        | inr less ↦
            let h : length b ≤ length m.buf = ground (arith, less) in
            rw (sym l, take_all b (length m.buf) h)
              (copy_next-Writes io accepted m b j (omega arith))
      ]

  -- Encode, for an EncodeMsg that writes `bs`, does not panic. Without an error the io.Writer has accepted
  -- all of `bs`, behind what it had accepted before, with one a prefix of that.
  pub encode_lem :
      (pooled : Writer W) (w : W) (bs : Bytes) (encode_msg : Writer W → Written io)
      → 18 ≤ length pooled.buf
      → ((mw : Writer W) → IsWriter mw → Writes accepted mw bs (encode_msg mw))
      → (w' : W) × (err : Option X) × (rest : Bytes) × (encode io pooled w encode_msg
          ≡ some (w', err))
        × (accepted w' ++ rest ≡ accepted w ++ bs)
        × (err ≡ none → rest ≡ [])
  unfolding encode reset and_then
  encode_lem pooled w bs encode_msg size h = elim (h (reset pooled w) (size, omega arith)) [
    | inl (m, e, (j, l), o) ↦ elim (flush-Flushes io accepted law m j) [
      | inl (m', e', k, z, a) ↦
          (m'.w, none, [], rw (e, e') refl, append-nil _ ∙ a ∙ o ∙ start, λ _. refl)
      | inr (m', x, e', k, o') ↦ (
        m'.w,
        some x,
        take m'.wloc m'.buf,
        rw (e, e') refl,
        o' ∙ o ∙ start,
        λ c. absurd (none-ne-some x (sym c)),
      )
    ]
    | inr (m, x, front, back, e, j, s, o) ↦ (
      m.w,
      some x,
      take m.wloc m.buf ++ back,
      rw e refl,
      sym (append_assoc (accepted m.w) (take m.wloc m.buf) back)
          ∙ ap (λ t. t ++ back) o
          ∙ append_assoc (accepted w ++ []) front back
          ∙ ap (λ t. (accepted w ++ []) ++ t) (sym s)
          ∙ start,
      λ c. absurd (none-ne-some x (sym c)),
    )
  ]
    where
      start : (accepted w ++ []) ++ bs ≡ accepted w ++ bs
      start = ap (λ t. t ++ bs) (append-nil (accepted w))
