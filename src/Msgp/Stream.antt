-- ===== src/Msgp/Stream.antt =====
-- msgp/read.go: the buffered Reader. The fwd.Reader that it reads from is the record FwdReader of the
-- methods that it calls, over a state of its own; `none` is a panic. A method with the results
-- (v, err) is a function from Reader to the two and the Reader afterwards.
pub mod Numbers
pub mod Blobs
pub mod Exts
pub mod Skips
pub mod Laws
pub mod Guard
pub mod Prefix
pub mod Agree
pub mod Narrow
pub mod Peeked
pub mod Fixed
pub mod Wide
pub mod Sized
pub mod Strings
pub mod Fits
pub mod Sizes
pub mod Walk
pub mod Tests
use truepack.Prelude.{
  ℕ, ◌-◌, Bool, true, false, Option, none, some, List, [], ◌∷◌, ◌++◌, ◌==◌, if◌then◌else◌, ◌>>=◌,
  length, take, get_elem?,
}
use truepack.Msgp.Wire.{mnil, Bytes, Error}

pub record FwdReader (S E : Type 0) : Type 0 where
  pub peek_bytes : S → ℕ → Bytes × Option E × S
  pub next_bytes : S → ℕ → Bytes × Option E × S
  pub skip_bytes_of : S → ℕ → Option E × S
  -- ReadFull, from what its argument holds before to what it holds afterwards.
  pub read_full_bytes : S → Bytes → Bytes × Option E × S
  pub buffered_of : S → ℕ
  -- `err == io.EOF`
  pub is_eof : E → Bool

-- The Reader, with its NilTracker.
pub record Reader (S : Type 0) : Type 0 where
  pub r : S
  pub always_nil : Bool
  pub lifo_always_nil : List Bool

-- An error of the fwd.Reader, or one of the package's own.
pub data StreamError (E : Type 0) : Type 0 where
  io_error : E → StreamError E
  msgp_error : Error → StreamError E

-- The Reader with its fwd.Reader in another state.
abbrev pub at : {S : Type 0} → Reader S → S → Reader S
at m s = record { r = s; always_nil = m.always_nil; lifo_always_nil = m.lifo_always_nil }

abbrev pub Step : Type 0 → Type 0 → Type 0 → Type 0
Step S E A = Option (A × Option (StreamError E) × Reader S)

unfoldable pub tracker_push_always_nil : {S : Type 0} → Reader S → Reader S
tracker_push_always_nil m = record {
  r = m.r;
  always_nil = true;
  lifo_always_nil = m.lifo_always_nil ++ (m.always_nil ∷ []);
}

unfoldable pub tracker_pop_always_nil : {S : Type 0} → Reader S → Option (Reader S)
tracker_pop_always_nil m =
    let n = length m.lifo_always_nil in
    if n == 0
    then none
    else (get_elem? m.lifo_always_nil (n - 1) >>= λ a.
        some (record { r = m.r; always_nil = a; lifo_always_nil = take (n - 1) m.lifo_always_nil }))

-- `return v, e` for an error of the package.
abbrev pub refuse : {S E A : Type 0} → Reader S → A → Error → Step S E A
refuse m v e = some (v, some (msgp_error e), m)

module _ {S E : Type 0} (f : FwdReader S E) where
  -- `if err != nil { return }` after a call with the results p and err.
  unfoldable pub received :
      {A : Type 0}
      → Reader S
      → A
      → Bytes × Option E × S
      → (Bytes → Reader S → Step S E A)
      → Step S E A
  received m empty (p, none, s) k = k p (at m s)
  received m empty (p, some e, s) k = some (empty, some (io_error e), at m s)

  -- `p, err = m.R.Peek(n); if err != nil { return }`
  unfoldable pub peek :
      {A : Type 0} → Reader S → ℕ → A → (Bytes → Reader S → Step S E A) → Step S E A
  unfolding received
  peek m n empty k = received m empty (f.peek_bytes m.r n) k

  -- `p, err = m.R.Next(n); if err != nil { return }`
  unfoldable pub next :
      {A : Type 0} → Reader S → ℕ → A → (Bytes → Reader S → Step S E A) → Step S E A
  unfolding received
  next m n empty k = received m empty (f.next_bytes m.r n) k

  -- The same, with a return of what the bytes hold, where finding it may panic.
  unfoldable pub next_value : {A : Type 0} → Reader S → ℕ → A → (Bytes → Option A) → Step S E A
  unfolding next
  next_value m n empty get = next m n empty (λ p m'. get p >>= λ v. some (v, none, m'))

  unfoldable pub after_skip : {A : Type 0} → Reader S → A → Option E × S → Step S E A
  after_skip m v (none, s) = some (v, none, at m s)
  after_skip m v (some e, s) = some (v, some (io_error e), at m s)

  -- `_, err = m.R.Skip(n); return`
  unfoldable pub skip_return : {A : Type 0} → Reader S → ℕ → A → Step S E A
  unfolding after_skip
  skip_return m n v = after_skip m v (f.skip_bytes_of m.r n)

  -- `m.R.Skip(n)`, with its results dropped.
  unfoldable pub skip_over : Reader S → ℕ → Reader S
  skip_over m n = at m (f.skip_bytes_of m.r n).1

  -- checkAndConsumeNil, after its Peek.
  unfoldable pub nil_peeked : Reader S → Bytes × Option E × S → Option (Bool × Reader S)
  unfolding skip_over
  nil_peeked m (p, some e, s) = some (false, at m s)
  nil_peeked m ([], none, s) = none
  nil_peeked m (x ∷ p, none, s) =
      if x == mnil then some (true, skip_over (at m s) 1) else some (false, at m s)

  unfoldable pub check_and_consume_nil : Reader S → Option (Bool × Reader S)
  unfolding nil_peeked
  check_and_consume_nil m =
      if m.always_nil then some (true, m) else nil_peeked m (f.peek_bytes m.r 1)

  -- `if m.checkAndConsumeNil() { return empty, nil }`
  unfoldable pub guard : {A : Type 0} → Reader S → A → (Reader S → Step S E A) → Step S E A
  unfolding check_and_consume_nil
  guard m empty k = check_and_consume_nil m >>= λ (consumed, m').
      if consumed then some (empty, none, m') else k m'

  -- The guard, then `p, err = m.R.Peek(1)` and `lead = p[0]`.
  unfoldable pub by_lead : {A : Type 0} → Reader S → A → (ℕ → Reader S → Step S E A) → Step S E A
  unfolding guard peek
  by_lead m empty body =
      guard m empty (λ m1. peek m1 1 empty (λ p m2. get_elem? p 0 >>= λ lead. body lead m2))

  -- `p, err := m.R.Peek(1); return err == nil && p[0] == mnil`
  unfoldable pub is_nil_byte : Bytes × Option E × S → Option Bool
  is_nil_byte (p, some e, s) = some false
  is_nil_byte ([], none, s) = none
  is_nil_byte (x ∷ p, none, s) = some (x == mnil)

  unfoldable pub stream_peek_nil : Reader S → Option (Bool × Reader S)
  unfolding is_nil_byte
  stream_peek_nil m = let t = f.peek_bytes m.r 1 in is_nil_byte t >>= λ b. some (b, at m t.2)

  unfoldable pub stream_is_nil : Reader S → Option (Bool × Reader S)
  unfolding stream_peek_nil
  stream_is_nil m = if m.always_nil then some (true, m) else stream_peek_nil m
