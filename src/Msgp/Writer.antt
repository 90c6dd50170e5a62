-- ===== src/Msgp/Writer.antt =====
-- msgp/write.go: the buffered Writer. The io.Writer below it is the record IoWriter of its one method,
-- over a state of its own; `none` is a panic. The bytes of `buf` are all of its capacity, since the
-- code never reslices it: so Reset keeps it. A method that returns an error alone is a function from
-- Writer to the Writer afterwards and the error.
pub mod Objects
pub mod Output
pub mod Flush
pub mod Room
pub mod Primitives
pub mod Delivery
pub mod Extension
pub mod Tests
use truepack.Prelude.{
  ℕ, ◌+◌, ◌-◌, ◌*◌, Option, none, some, [], ◌∷◌, ◌++◌, ltb, leb, ◌==◌, if◌then◌else◌, ◌>>=◌, length,
  take, replicate, slice_from,
}
use truepack.Msgp.Integers.{put_all, prefixu8, prefixu16, prefixu32, prefixu64}
use truepack.Msgp.Read.{need}
use truepack.Msgp.Slice.{Slice, cap, go_copy, copied}
use truepack.Msgp.Wire.{Bytes}

-- Write returns the number of bytes that it took, and an error.
pub record IoWriter (W X : Type 0) : Type 0 where
  pub write_to : W → Bytes → W × ℕ × Option X

pub record Writer (W : Type 0) : Type 0 where
  pub w : W
  pub buf : Bytes
  pub wloc : ℕ

-- `b[:n]`
unfoldable pub slice_to : Bytes → ℕ → Option Bytes
slice_to b n = if leb n (length b) then some (take n b) else none

unfoldable pub new_writer_size : {W : Type 0} → W → ℕ → Writer W
new_writer_size w sz = record { w = w; buf = replicate (if ltb sz 18 then 18 else sz) 0; wloc = 0 }

unfoldable pub reset : {W : Type 0} → Writer W → W → Writer W
reset mw w = record { w = w; buf = mw.buf; wloc = 0 }

-- Require, on a slice: the capacity for `extra` more bytes.
unfoldable pub require_cap : Slice → ℕ → Slice
require_cap old extra =
    let l = length old.visible in
    let c = cap old in
    let r = l + extra in
    if leb r c
    then old
    else if l == 0
    then record { visible = []; spare = replicate extra 0 }
    else record {
      visible = old.visible;
      spare = replicate ((if ltb (2 * c) r then r else 2 * c) - l) 0;
    }

module _ {W X : Type 0} (io : IoWriter W X) where
  abbrev pub Written : Type 0
  Written = Option (Writer W × Option X)

  -- `if err != nil { return err }`
  unfoldable pub and_then : Written → (Writer W → Written) → Written
  and_then r k = r >>= λ (mw, err). elim err [ none ↦ k mw | some x ↦ some (mw, some x) ]

  -- What flush does after the call of Write with `p`, the bytes up to `mw.wloc`.
  unfoldable pub sent : Writer W → Bytes → W × ℕ × Option X → Written
  unfolding go_copy copied
  sent mw p (w', n, none) = some (record { w = w'; buf = mw.buf; wloc = 0 }, none)
  sent mw p (w', n, some x) =
      if ltb 0 n
      then (slice_from p n >>= λ rest.
          some (record { w = w'; buf = go_copy mw.buf rest; wloc = copied mw.buf rest }, some x))
      else some (record { w = w'; buf = mw.buf; wloc = mw.wloc }, some x)

  unfoldable pub flush : Writer W → Written
  unfolding slice_to sent
  flush mw =
      if mw.wloc == 0
      then some (mw, none)
      else (slice_to mw.buf mw.wloc >>= λ p. sent mw p (io.write_to mw.w p))

  unfoldable pub avail : Writer W → ℕ
  avail mw = length mw.buf - mw.wloc

  -- `if len(mw.buf)-mw.wloc < n { if err := mw.flush(); err != nil { return err } }`
  unfoldable pub with_room : Writer W → ℕ → (Writer W → Written) → Written
  unfolding and_then avail
  with_room mw n k = if ltb (avail mw) n then and_then (flush mw) k else k mw

  -- `put(mw.buf[mw.wloc:]); mw.wloc += need`
  unfoldable pub put_next : Writer W → ℕ → (Bytes → Option Bytes) → Written
  put_next mw need put = slice_from mw.buf mw.wloc >>= λ t. put t >>= λ t'.
      some (record { w = mw.w; buf = take mw.wloc mw.buf ++ t'; wloc = mw.wloc + need }, none)

  unfoldable pub push : Writer W → ℕ → Written
  unfolding put_next and_then
  push mw b =
      if mw.wloc == length mw.buf
      then and_then (flush mw) (λ m. put_next m 1 (put_all (b ∷ [])))
      else put_next mw 1 (put_all (b ∷ []))

  unfoldable pub prefix8 : Writer W → ℕ → ℕ → Written
  unfolding with_room put_next
  prefix8 mw b u = with_room mw 2 (λ m. put_next m 2 (λ t. prefixu8 t b u))

  unfoldable pub prefix16 : Writer W → ℕ → ℕ → Written
  unfolding with_room put_next
  prefix16 mw b u = with_room mw 3 (λ m. put_next m 3 (λ t. prefixu16 t b u))

  unfoldable pub prefix32 : Writer W → ℕ → ℕ → Written
  unfolding with_room put_next
  prefix32 mw b u = with_room mw 5 (λ m. put_next m 5 (λ t. prefixu32 t b u))

  unfoldable pub prefix64 : Writer W → ℕ → ℕ → Written
  unfolding with_room put_next
  prefix64 mw b u = with_room mw 9 (λ m. put_next m 9 (λ t. prefixu64 t b u))

  -- `mw.wloc += copy(mw.buf[mw.wloc:], p)`
  unfoldable pub copy_next : Writer W → Bytes → Written
  unfolding go_copy copied
  copy_next mw p = slice_from mw.buf mw.wloc >>= λ t. some (
    record { w = mw.w; buf = take mw.wloc mw.buf ++ go_copy t p; wloc = mw.wloc + copied t p },
    none,
  )

  -- Append(b...).
  unfoldable pub append : Writer W → Bytes → Written
  unfolding with_room copy_next
  append mw b = with_room mw (length b) (λ m. copy_next m b)

  -- `return mw.w.Write(p)`, without the count.
  unfoldable pub write_direct : Writer W → Bytes → Written
  write_direct mw p =
      let (w', n, err) = io.write_to mw.w p in
      some (record { w = w'; buf = mw.buf; wloc = mw.wloc }, err)

  -- Write, whose callers drop the count. `writeString` is the same function of the string's bytes, as
  -- io.WriteString(w, s) writes what w.Write([]byte(s)) does.
  unfoldable pub write : Writer W → Bytes → Written
  unfolding and_then write_direct copy_next avail
  write mw p =
      if ltb (avail mw) (length p)
      then and_then (flush mw)
          (λ m. if ltb (length m.buf) (length p) then write_direct m p else copy_next m p)
      else copy_next mw p

  unfoldable pub write_string_bytes : Writer W → Bytes → Written
  unfolding and_then write_direct copy_next avail
  write_string_bytes mw s =
      if ltb (avail mw) (length s)
      then and_then (flush mw)
          (λ m. if ltb (length m.buf) (length s) then write_direct m s else copy_next m s)
      else copy_next mw s

  -- The offset of the room, which counts as written, and the error.
  unfoldable pub require : Writer W → ℕ → Option (Writer W × ℕ × Option X)
  unfolding avail
  require mw n =
      if ltb (avail mw) n
      then (flush mw >>= λ (m, err). elim err [
        | some x ↦ some (m, 0, some x)
        | none ↦ some (record { w = m.w; buf = m.buf; wloc = m.wloc + n }, m.wloc, none)
      ])
      else some (record { w = mw.w; buf = mw.buf; wloc = mw.wloc + n }, mw.wloc, none)

  -- `o, err := mw.require(n); if err != nil { return err }; put(mw.buf[o:]); return nil`
  unfoldable pub require_put : Writer W → ℕ → (Bytes → Option Bytes) → Written
  unfolding require
  require_put mw n put = require mw n >>= λ (m, o, err). elim err [
    | some x ↦ some (m, some x)
    | none ↦ slice_from m.buf o >>= λ t.
        put t >>= λ t'. some (record { w = m.w; buf = take o m.buf ++ t'; wloc = m.wloc }, none)
  ]

  -- Encode on an io.Writer that is no Writer, with the one that popWriter gets from the pool. `encode_msg`
  -- is the method EncodeMsg of the Encodable.
  unfoldable pub encode : Writer W → W → (Writer W → Written) → Option (W × Option X)
  unfolding and_then flush reset
  encode pooled w encode_msg =
      and_then (encode_msg (reset pooled w)) flush >>= λ (wr, err). some (wr.w, err)
