-- ===== src/Msgp/Edit.antt =====
-- msgp/edit.go: the functions that find, replace and remove a field of an encoded map. What a caller
-- sees through another slice over the memory of `raw` is not modelled. `none` is a panic, and the nil
-- slice is the one with no bytes and no capacity.
pub mod Format
pub mod Copies
pub mod Splice
pub mod Fields
pub mod Loops
pub mod Locate
pub mod Resize
pub mod Update
pub mod Header
pub mod Ranges
pub mod Stores
pub mod Safety
pub mod HasKey
mod Tests
use truepack.Prelude.{
  ℕ, zero, suc, ◌+◌, ◌-◌, ◌%◌, ◌^◌, Bool, true, false, ◌&&◌, ◌||◌, Option, none, some, [], ◌∷◌,
  ◌++◌, ltb, leb, ◌==◌, if◌then◌else◌, ◌>>=◌, length, take, drop, replicate, get_elem?, slice_from,
}
use truepack.Msgp.Append.{to32, append_map_header}
use truepack.Msgp.Integers.{byte, be16, be32, put_all, be_uint16, be_uint32}
use truepack.Msgp.Read.{nil_slice, read_string_zc, read_map_header_bytes}
use truepack.Msgp.Skip.{skip_bytes}
use truepack.Msgp.Slice.{Slice, cap, go_append, go_copy, copied, store, fill}
use truepack.Msgp.Wire.{mmap16, mmap32, Bytes, rfixmap, wfixmap, Error}

-- `UnsafeString(field) == key`
unfoldable pub same_bytes : Bytes → Bytes → Bool
same_bytes [] [] = true
same_bytes (x ∷ xs) (y ∷ ys) = x == y && same_bytes xs ys
same_bytes _ _ = false

-- `raw[s:n]`, which a slice's capacity bounds.
unfoldable pub reslice : Slice → ℕ → ℕ → Option Slice
reslice raw s n =
    let all = raw.visible ++ raw.spare in
    if leb s n && leb n (cap raw)
    then some (record { visible = take (n - s) (drop s all); spare = drop n all })
    else none

-- Skip of the value behind `bts`, with the end of `raw` that is left; `(0, 0)` on an error.
unfoldable pub range_from : ℕ → ℕ → Bytes × Option Error → ℕ × ℕ
range_from l start (bts, none) = (start, l - length bts)
range_from l start (bts, some e) = (0, 0)

-- The loop of `locate`, with `l` for len(raw).
unfoldable pub locate_loop : Bytes → ℕ → ℕ → Bytes → Option (ℕ × ℕ)
unfolding range_from
locate_loop key l zero bts = some (0, 0)
locate_loop key l (suc n) bts = read_string_zc none bts >>= λ (field, bts', err). elim err [
  | some e ↦ some (0, 0)
  | none ↦
      if same_bytes field key
      then (skip_bytes bts' >>= λ skipped. some (range_from l (l - length bts') skipped))
      else (skip_bytes bts' >>= λ (bts'', err'). elim err' [
        | some e ↦ some (0, 0)
        | none ↦ locate_loop key l n bts''
      ])
]

unfoldable pub locate_range : Bytes → Bytes → Option (ℕ × ℕ)
unfolding locate_loop
locate_range raw key = read_map_header_bytes none raw >>= λ (sz, bts, err). elim err [
  | some e ↦ some (0, 0)
  | none ↦ locate_loop key (length raw) sz bts
]

-- The loop of `locateKV`: the range starts at the key.
unfoldable pub locate_kv_loop : Bytes → ℕ → ℕ → Bytes → Option (ℕ × ℕ)
unfolding range_from
locate_kv_loop key l zero bts = some (0, 0)
locate_kv_loop key l (suc n) bts = read_string_zc none bts >>= λ (field, bts', err). elim err [
  | some e ↦ some (0, 0)
  | none ↦
      if same_bytes field key
      then (skip_bytes bts' >>= λ skipped. some (range_from l (l - length bts) skipped))
      else (skip_bytes bts' >>= λ (bts'', err'). elim err' [
        | some e ↦ some (0, 0)
        | none ↦ locate_kv_loop key l n bts''
      ])
]

unfoldable pub locate_kv : Bytes → Bytes → Option (ℕ × ℕ)
unfolding locate_kv_loop
locate_kv raw key = read_map_header_bytes none raw >>= λ (sz, bts, err). elim err [
  | some e ↦ some (0, 0)
  | none ↦ locate_kv_loop key (length raw) sz bts
]

unfoldable pub locate : Bytes → Slice → Option Slice
locate key raw = locate_range raw.visible key >>= λ (s, n). reslice raw s n

-- `copy(raw[n:], src)`, by its effect on `raw`.
unfoldable pub copy_at : Slice → ℕ → Bytes → Option Slice
copy_at raw n src = store raw n (λ t. some (go_copy t src))

-- `raw[0 : len(raw)+k]`, for a `k` that the capacity allows.
unfoldable pub extend : Slice → ℕ → Slice
extend raw k = record { visible = raw.visible ++ take k raw.spare; spare = drop k raw.spare }

-- `make([]byte, len(raw)+len(val)-ll)`, and the three copies.
unfoldable pub replace_anew : Slice → ℕ → ℕ → Bytes → Option Slice
replace_anew raw start end val =
    let out : Slice = record {
      visible = replicate (length raw.visible + length val - (end - start)) 0;
      spare = [];
    } in
    let front = take start raw.visible in
    let x = copied out.visible front in
    do
      out1 ← copy_at out 0 front
      dst ← slice_from out1.visible x
      let y = copied dst val
      out2 ← copy_at out1 x val
      tail ← slice_from raw.visible end
      copy_at out2 (x + y) tail

-- The value is smaller than what it replaces: both copies, and the end cut off.
unfoldable pub replace_smaller : Slice → ℕ → ℕ → Bytes → Option Slice
replace_smaller raw start end val = do
  dst ← slice_from raw.visible start
  let x = copied dst val
  raw1 ← copy_at raw start val
  tail ← slice_from raw1.visible end
  fill raw1 (start + x) tail

-- The value needs `extra` bytes more, which the capacity has.
unfoldable pub replace_larger : Slice → ℕ → ℕ → Bytes → ℕ → Option Slice
replace_larger raw start end val extra =
    let raw1 = extend raw extra in
    do
      tail ← slice_from raw1.visible end
      raw2 ← copy_at raw1 (end + extra) tail
      copy_at raw2 start val

unfoldable pub replace_range : Slice → ℕ → ℕ → Bytes → Bool → Option Slice
replace_range raw start end val inplace =
    let ll = end - start in
    let lv = length val in
    if inplace && lv == ll
    then copy_at raw start val
    else if inplace && ltb lv ll
    then replace_smaller raw start end val
    else if inplace && ltb (lv - ll) (cap raw - length raw.visible)
    then replace_larger raw start end val (lv - ll)
    else replace_anew raw start end val

unfoldable pub replace : Bytes → Slice → Bytes → Option Slice
replace key raw val = locate_range raw.visible key >>= λ (start, end).
    if start == end then some nil_slice else replace_range raw start end val true

unfoldable pub copy_replace : Bytes → Slice → Bytes → Option Slice
copy_replace key raw val = locate_range raw.visible key >>= λ (start, end).
    if start == end then some nil_slice else replace_range raw start end val false

-- `x < n` and `x <= n` for an int64 `x` and an `n` that is not negative.
unfoldable pub int_below : ℕ → ℕ → Bool
int_below x n = leb (2 ^ 63) x || ltb x n

unfoldable pub int_at_most : ℕ → ℕ → Bool
int_at_most x n = leb (2 ^ 63) x || leb x n

-- `raw = raw[0 : len(raw)+k]; copy(raw[from+k:], raw[from:])`, and the stores of the header.
unfoldable pub shift_in_place : Slice → ℕ → ℕ → (Slice → Option Slice) → Option Slice
shift_in_place raw k from put_header =
    let raw1 = extend raw k in
    do tail ← slice_from raw1.visible from; raw2 ← copy_at raw1 (from + k) tail; put_header raw2

-- `n := make([]byte, 0, len(raw)+5); n = AppendMapHeader(n, sz); return append(n, raw[from:]...)`
unfoldable pub rebuild : Slice → ℕ → ℕ → Option Slice
rebuild raw from sz = do
  n ←
      append_map_header (record { visible = []; spare = replicate (length raw.visible + 5) 0 })
        (to32 sz)
  tail ← slice_from raw.visible from
  some (go_append n tail)

-- The cases of `resizeMap` for a map16, a map32 and a fixmap: `delta` is an int64's bit pattern.
unfoldable pub resize_map16 : Slice → ℕ → Option Slice
resize_map16 raw delta = slice_from raw.visible 1 >>= λ t. be_uint16 t >>= λ old.
    let sz = (old + delta) % 2 ^ 64 in
    if int_at_most sz (2 ^ 16 - 1)
    then store raw 1 (put_all (be16 sz))
    else if leb 2 (cap raw - length raw.visible)
    then shift_in_place raw 2 3 (λ r. store r 1 (put_all (be32 sz)))
    else rebuild raw 3 sz

unfoldable pub resize_map32 : Slice → ℕ → Option Slice
resize_map32 raw delta = do
  t ← slice_from raw.visible 1
  old ← be_uint32 t
  store raw 1 (put_all (be32 ((old + delta) % 2 ^ 64)))

unfoldable pub resize_fixmap : Slice → ℕ → ℕ → Option Slice
resize_fixmap raw lead delta =
    let sz = (rfixmap lead + delta) % 2 ^ 64 in
    if int_below sz 16
    then store raw 0 (put_all (wfixmap (byte sz) ∷ []))
    else if int_at_most sz (2 ^ 16 - 1)
    then (if leb 2 (cap raw - length raw.visible)
        then shift_in_place raw 2 1 (λ r. store r 0 (put_all (mmap16 ∷ be16 sz)))
        else rebuild raw 1 sz)
    else if leb 4 (cap raw - length raw.visible)
    then shift_in_place raw 4 1 (λ r. store r 0 (put_all (mmap32 ∷ be32 sz)))
    else rebuild raw 1 sz

unfoldable pub resize_map : Slice → ℕ → Option Slice
resize_map raw delta = get_elem? raw.visible 0 >>= λ lead.
    if lead == mmap16
    then resize_map16 raw delta
    else if lead == mmap32
    then resize_map32 raw delta
    else resize_fixmap raw lead delta

-- `raw[:start+copy(raw[start:], raw[end:])]`
unfoldable pub cut : Slice → ℕ → ℕ → Option Slice
cut raw start end = slice_from raw.visible end >>= λ tail. fill raw start tail

unfoldable pub remove : Bytes → Slice → Option Slice
unfolding cut
remove key raw = locate_kv raw.visible key >>= λ (start, end).
    if start == end then some raw else (cut raw start end >>= λ raw'. resize_map raw' (2 ^ 64 - 1))

-- The loop of HasKey: it reads strings only, and no values.
unfoldable pub has_key_loop : Bytes → ℕ → Bytes → Option Bool
has_key_loop key zero bts = some false
has_key_loop key (suc n) bts = read_string_zc none bts >>= λ (field, bts', err). elim err [
  | some e ↦ some false
  | none ↦ if same_bytes field key then some true else has_key_loop key n bts'
]

unfoldable pub has_key : Bytes → Slice → Option Bool
unfolding has_key_loop
has_key key raw = read_map_header_bytes none raw.visible >>= λ (sz, bts, err). elim err [
  | some e ↦ some false
  | none ↦ has_key_loop key sz bts
]
