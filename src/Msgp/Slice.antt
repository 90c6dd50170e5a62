-- ===== src/Msgp/Slice.antt =====
-- Go's byte slices, and `ensure` of msgp/write_bytes.go. A slice is its visible bytes and the spare
-- ones between its length and its capacity; what other slices over the same memory see of a store
-- is not modelled. `none` is a panic.
pub mod Laws
use truepack.Prelude.{
  ℕ, ◌+◌, ◌-◌, ◌*◌, ◌≡◌, Option, some, ◌++◌, ltb, if◌then◌else◌, ◌>>=◌, length, take, drop,
  replicate, slice_from,
}
use Prim.Native.Nat.{min}
use truepack.Msgp.Wire.{Bytes}

pub record Slice : Type 0 where
  pub visible : Bytes
  pub spare : Bytes

abbrev pub cap : Slice → ℕ
cap b = length b.visible + length b.spare

-- The builtin `append(b, xs...)`. The capacity of a slice that has to grow is the runtime's choice;
-- the model takes the least.
unfoldable pub go_append : Slice → Bytes → Slice
go_append b xs = record { visible = b.visible ++ xs; spare = drop (length xs) b.spare }

-- The builtin `copy(dst, src)`: what `dst` holds afterwards. It copies `copied dst src` bytes.
unfoldable pub go_copy : Bytes → Bytes → Bytes
go_copy dst src = take (length dst) src ++ drop (length src) dst

unfoldable pub copied : Bytes → Bytes → ℕ
copied dst src = min (length dst) (length src)

-- The slice with `sz` more bytes, and the old length. New memory is zero.
unfoldable pub ensure : Slice → ℕ → Slice × ℕ
ensure b sz =
    let l = length b.visible in
    let c = cap b in
    if ltb (c - l) sz
    then (record { visible = b.visible ++ replicate sz 0; spare = replicate (2 * c - l) 0 }, l)
    else (record { visible = b.visible ++ take sz b.spare; spare = drop sz b.spare }, l)

-- `put(o[n:])` for a function that stores into the slice it is given.
unfoldable pub store : Slice → ℕ → (Bytes → Option Bytes) → Option Slice
store o n put = do
  tail ← slice_from o.visible n
  tail' ← put tail
  some (record o { visible = take n o.visible ++ tail' })

-- `o[:n+copy(o[n:], src)]`
unfoldable pub fill : Slice → ℕ → Bytes → Option Slice
fill o n src = do
  tail ← slice_from o.visible n
  let all = take n o.visible ++ go_copy tail src
  let m = n + copied tail src
  some (record { visible = take m all; spare = drop m all ++ o.spare })

-- `o, n := ensure(b, sz); put(o[n:]); return o`
unfoldable pub append_with : Slice → ℕ → (Bytes → Option Bytes) → Option Slice
append_with b sz put = let (o, n) = ensure b sz in store o n put

-- `o, n := ensure(b, k+len(src)); put(o[n:]); n += k; return o[:n+copy(o[n:], src)]`
unfoldable pub append_prefixed : Slice → ℕ → (Bytes → Option Bytes) → Bytes → Option Slice
append_prefixed b k put src =
    let (o, n) = ensure b (k + length src) in store o n put >>= λ o'. fill o' (n + k) src

-- The call returns, and what it returns is `b` with `vs` behind it.
abbrev pub Appends : Slice → Bytes → Option Slice → Type 0
Appends b vs r = (o : Slice) × (r ≡ some o) × (o.visible ≡ b.visible ++ vs)
