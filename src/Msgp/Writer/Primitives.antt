-- ===== src/Msgp/Writer/Primitives.antt =====
-- msgp/write.go: the methods that put one prefix, a run of bytes or a string in the buffer, from
-- `require` to `writeString`.
use truepack.Prelude.{
  ℕ, ◌+◌, ◌-◌, ◌≤◌, ◌≡◌, refl, sym, ap, ◌∙◌, inl, inr, true, Option, none, some, [], ◌∷◌, ◌++◌,
  append-nil, arith, ltb, ◌==◌, Bool-cases, length, take, drop, take_all,
}
use truepack.Msgp.Integers.{
  byte, be16, be32, be64, put_all, prefixu8, prefixu16, prefixu32, prefixu64,
}
use truepack.Msgp.Integers.Laws.{put_all_fits}
use truepack.Msgp.Wire.{Bytes}
use truepack.Msgp.Writer.{
  IoWriter, Writer, Written, and_then, flush, avail, with_room, put_next, push, prefix8, prefix16,
  prefix32, prefix64, write_direct, write, write_string_bytes, require, require_put,
}
use truepack.Msgp.Writer.Flush.{take-drop}
use truepack.Msgp.Writer.Output.{IsIoWriter, IsWriter, Writes}
use truepack.Msgp.Writer.Room.{
  Stores, put_next-Writes, copy_next-Writes, after_flush-Writes, with_room-Writes,
}

pub put_all-Stores : (vs : Bytes) → Stores (put_all vs) vs
put_all-Stores vs t h = put_all_fits vs t h

module _ {W X : Type 0} (io : IoWriter W X) (accepted : W → Bytes)
    (law : IsIoWriter io accepted) where
  -- `n` bytes, with room made for them.
  pub room_put-Writes :
      (mw : Writer W) (n : ℕ) (vs : Bytes) (put : Bytes → Option Bytes)
      → IsWriter mw
      → length vs ≡ n
      → n ≤ length mw.buf
      → Stores put vs
      → Writes accepted mw vs (with_room io mw n (λ m. put_next io m n put))
  room_put-Writes mw n vs put i e fits st =
      with_room-Writes io accepted law mw n vs _ i fits
        (λ m j room. rw (sym e) (put_next-Writes io accepted m vs put j.0 (omega arith) st))

  pub push-Writes :
      (mw : Writer W) (b : ℕ) → IsWriter mw → Writes accepted mw (b ∷ []) (push io mw b)
  unfolding push
  push-Writes mw b (size, loc) = elim (Bool-cases (mw.wloc == length mw.buf)) [
    | inl e ↦ rw e (
        after_flush-Writes io accepted law mw (b ∷ []) _ (size, loc)
          (λ m j z.
            put_next-Writes io accepted m (b ∷ []) _ j.0 (omega (arith, j.0))
              (put_all-Stores (b ∷ []))))
    | inr e ↦
        let room : mw.wloc + 1 ≤ length mw.buf = ground (arith, e, loc) in
        rw e (put_next-Writes io accepted mw (b ∷ []) _ (size, loc) room (put_all-Stores (b ∷ [])))
  ]

  -- The four widths of a prefix with a number behind it.
  pub prefix-Writes :
      (mw : Writer W) (b u : ℕ)
      → IsWriter mw
      → Writes accepted mw (b ∷ byte u ∷ []) (prefix8 io mw b u)
        × Writes accepted mw (b ∷ be16 u) (prefix16 io mw b u)
        × Writes accepted mw (b ∷ be32 u) (prefix32 io mw b u)
        × Writes accepted mw (b ∷ be64 u) (prefix64 io mw b u)
  unfolding prefix8 prefix16 prefix32 prefix64 prefixu8 prefixu16 prefixu32 prefixu64
  prefix-Writes mw b u i = (
    room_put-Writes mw 2 _ _ i refl (omega (arith, i.0)) (put_all-Stores _),
    room_put-Writes mw 3 _ _ i refl (omega (arith, i.0)) (put_all-Stores _),
    room_put-Writes mw 5 _ _ i refl (omega (arith, i.0)) (put_all-Stores _),
    room_put-Writes mw 9 _ _ i refl (omega (arith, i.0)) (put_all-Stores _),
  )

  -- `require`, and a store at its offset, is a store into room made for it.
  require_put-with_room :
      (mw : Writer W) (n : ℕ) (put : Bytes → Option Bytes)
      → require_put io mw n put ≡ with_room io mw n (λ m. put_next io m n put)
  unfolding require_put require with_room put_next and_then avail
  require_put-with_room mw n put = elim (Bool-cases (ltb (length mw.buf - mw.wloc) n)) [
    | inl e ↦ by_flush (flush io mw) refl e
    | inr e ↦ rw e refl
  ]
    where
      by_flush :
          (r : Written io)
          → flush io mw ≡ r
          → ltb (length mw.buf - mw.wloc) n ≡ true
          → require_put io mw n put ≡ with_room io mw n (λ m. put_next io m n put)
      by_flush none e c = rw (c, e) refl
      by_flush (some (m, none)) e c = rw (c, e) refl
      by_flush (some (m, some x)) e c = rw (c, e) refl

  pub require_put-Writes :
      (mw : Writer W) (n : ℕ) (vs : Bytes) (put : Bytes → Option Bytes)
      → IsWriter mw
      → length vs ≡ n
      → n ≤ length mw.buf
      → Stores put vs
      → Writes accepted mw vs (require_put io mw n put)
  require_put-Writes mw n vs put i e fits st =
      rw (require_put-with_room mw n put) (room_put-Writes mw n vs put i e fits st)

  -- Bytes that exceed the whole buffer go to the io.Writer, once the buffer is empty.
  write_direct-Writes :
      (mw : Writer W) (p : Bytes)
      → IsWriter mw
      → mw.wloc ≡ 0
      → Writes accepted mw p (write_direct io mw p)
  unfolding write_direct
  write_direct-Writes mw p i z = sent_to (io.write_to mw.w p) (law mw.w p)
    where
      sent_to :
          (res : W × ℕ × Option X)
          → (res.1 ≤ length p)
            × (accepted res.0 ≡ accepted mw.w ++ take res.1 p)
            × (res.2 ≡ none → res.1 ≡ length p)
          → Writes accepted mw p (some (record { w = res.0; buf = mw.buf; wloc = mw.wloc }, res.2))
      sent_to (w', n, none) (h, a, full) = inl (
        record { w = w'; buf = mw.buf; wloc = mw.wloc },
        refl,
        (i, omega arith),
        rw (z, append-nil, append-nil)
            (a ∙ ap (λ t. accepted mw.w ++ t) (take_all p n (omega (arith, full refl)))),
      )
      sent_to (w', n, some x) (h, a, full) = inr (
        record { w = w'; buf = mw.buf; wloc = mw.wloc },
        x,
        take n p,
        drop n p,
        refl,
        (i, omega arith),
        sym (take-drop n p),
        rw (z, append-nil, append-nil) a,
      )

  -- Write on a writer in order does not panic: its output grows by all of `p`, behind what was written
  -- before, whether it is copied to the buffer, copied after a flush, or too long for the buffer and
  -- passed on; or there is an error, and it grows by a prefix of `p`.
  pub write-Writes :
      (mw : Writer W) (p : Bytes) → IsWriter mw → Writes accepted mw p (write io mw p)
  unfolding write avail
  write-Writes mw p i = elim (Bool-cases (ltb (length mw.buf - mw.wloc) (length p))) [
    | inl e ↦ rw e (
        after_flush-Writes io accepted law mw p _ i (λ m j z.
          elim (Bool-cases (ltb (length m.buf) (length p))) [
            | inl f ↦ rw f (write_direct-Writes m p j.0 z)
            | inr f ↦ rw f (copy_next-Writes io accepted m p j.0 (ground (arith, f, z)))
          ]))
    | inr e ↦ rw e (copy_next-Writes io accepted mw p i (ground (arith, e, i.1)))
  ]

  -- The two functions have one body.
  pub write_string_bytes-Writes :
      (mw : Writer W) (s : Bytes) → IsWriter mw → Writes accepted mw s (write_string_bytes io mw s)
  unfolding write_string_bytes write
  write_string_bytes-Writes mw s i = write-Writes mw s i
