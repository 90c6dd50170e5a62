-- ===== src/Msgp/Read/Blobs.antt =====
-- msgp/read_bytes.go: the readers of `bin` and `str` objects, and of map keys.
use truepack.Prelude.{
  ℕ, ◌+◌, ◌%◌, ◌^◌, Bool, true, false, Option, none, some, [], ◌∷◌, ◌++◌, ltb, leb, ◌==◌,
  if◌then◌else◌, ◌>>=◌, length, take, replicate, get_elem?, slice_from,
}
use truepack.Msgp.Integers.{be_uint16, be_uint32}
use truepack.Msgp.Nilbits.{NilBitsStack, is_unsafe_zero_copy}
use truepack.Msgp.Read.Guard.{Read, ok, fail, nil_guard, need}
use truepack.Msgp.Skip.{skip}
use truepack.Msgp.Slice.{Slice, cap, go_append, go_copy, copied}
use truepack.Msgp.Wire.{
  mbin8, mbin16, mbin32, mstr8, mstr16, mstr32, get_type, bad_prefix, Bytes, isfixstr, rfixstr,
  str_type, bin_type, Error, err_short_bytes, array_error, type_error,
}

-- The size after a prefix of `skip` bytes, in `k` of them from `b[1]` on, and what follows.
unfoldable pub sized : Bytes → ℕ → Option ℕ → (ℕ → Bytes → Read Bytes) → Read Bytes
sized b skip size rest =
    need b skip [] (size >>= λ read. slice_from b skip >>= λ tail. rest read tail)

-- The end of readBytesBytes: `b` is behind the prefix. The copy goes into `scratch` where its
-- capacity allows it.
unfoldable pub bytes_data : Slice → Bool → ℕ → Bytes → Read Bytes
unfolding go_copy copied
bytes_data scratch zc read b =
    if ltb (length b) read
    then fail [] [] err_short_bytes
    else if zc
    then (slice_from b read >>= λ o. ok (take read b) o)
    else (let v =
          if leb read (cap scratch)
          then take read (scratch.visible ++ scratch.spare)
          else replicate read 0 in
        slice_from b (copied v b) >>= λ o. ok (go_copy v b) o)

unfoldable pub read_bytes_bytes_zc : Bytes → Slice → Bool → Read Bytes
unfolding sized bytes_data
read_bytes_bytes_zc [] scratch zc = fail [] [] err_short_bytes
read_bytes_bytes_zc (lead ∷ t) scratch zc =
    let b = lead ∷ t in
    if lead == mbin8
    then sized b 2 (get_elem? b 1) (bytes_data scratch zc)
    else if lead == mbin16
    then sized b 3 (be_uint16 t) (bytes_data scratch zc)
    else if lead == mbin32
    then sized b 5 (be_uint32 t) (bytes_data scratch zc)
    else fail [] [] (bad_prefix bin_type lead)

unfoldable pub read_bytes_bytes : Option NilBitsStack → Bytes → Slice → Read Bytes
read_bytes_bytes nbs b scratch = nil_guard nbs b [] (read_bytes_bytes_zc b scratch false)

abbrev pub nil_slice : Slice
nil_slice = record { visible = []; spare = [] }

unfoldable pub read_bytes_zc : Option NilBitsStack → Bytes → Read Bytes
read_bytes_zc nbs b = nil_guard nbs b [] (read_bytes_bytes_zc b nil_slice true)

-- ReadExactBytes: the value is what `into` holds afterwards.
unfoldable pub exact_data : Bytes → Bytes → ℕ → Option ℕ → Read Bytes
unfolding go_copy copied
exact_data b into skip size =
    if ltb (length b) skip
    then fail into [] err_short_bytes
    else (size >>= λ read.
        if read == length into % 2 ^ 32
        then (slice_from b skip >>= λ tail.
            slice_from b (skip + copied into tail) >>= λ o. ok (go_copy into tail) o)
        else fail into [] (array_error (length into % 2 ^ 32) read))

unfoldable pub exact_body : Bytes → Bytes → Read Bytes
unfolding exact_data
exact_body [] into = fail into [] err_short_bytes
exact_body (lead ∷ t) into =
    let b = lead ∷ t in
    if lead == mbin8
    then exact_data b into 2 (get_elem? b 1)
    else if lead == mbin16
    then exact_data b into 3 (be_uint16 t)
    else if lead == mbin32
    then exact_data b into 5 (be_uint32 t)
    else fail into [] (bad_prefix bin_type lead)

unfoldable pub read_exact_bytes : Option NilBitsStack → Bytes → Bytes → Read Bytes
unfolding exact_body
read_exact_bytes nbs b into = nil_guard nbs b (replicate (length into) 0) (exact_body b into)

-- The end of ReadStringZC.
unfoldable pub string_data : ℕ → Bytes → Read Bytes
string_data read b =
    if ltb (length b) read
    then fail [] [] err_short_bytes
    else (slice_from b read >>= λ o. ok (take read b) o)

unfoldable pub string_body : Bytes → Read Bytes
string_body [] = fail [] [] err_short_bytes
string_body (lead ∷ t) =
    let b = lead ∷ t in
    if isfixstr lead
    then string_data (rfixstr lead) t
    else if lead == mstr8
    then sized b 2 (get_elem? b 1) string_data
    else if lead == mstr16
    then sized b 3 (be_uint16 t) string_data
    else if lead == mstr32
    then sized b 5 (be_uint32 t) string_data
    else fail [] [] (type_error str_type (get_type lead))

unfoldable pub read_string_zc : Option NilBitsStack → Bytes → Read Bytes
read_string_zc nbs b = nil_guard nbs b [] (string_body b)

-- A string is its bytes, copied or not, so both branches return the same.
unfoldable pub read_string_bytes : Option NilBitsStack → Bytes → Read Bytes
unfolding is_unsafe_zero_copy
read_string_bytes nbs b = nil_guard nbs b [] (
    read_string_zc nbs b >>= λ (v, o, err).
    if is_unsafe_zero_copy nbs then some (v, o, err) else some (v, o, err))

unfoldable pub read_string_as_bytes : Option NilBitsStack → Bytes → Slice → Read Bytes
unfolding go_append
read_string_as_bytes nbs b scratch = nil_guard nbs b [] (
    read_string_zc nbs b >>= λ (tmp, o, err).
    let all : Slice = record { visible = []; spare = scratch.visible ++ scratch.spare } in
    some ((go_append all tmp).visible, o, err))

-- `tperr, ok := err.(TypeError); ok && tperr.Encoded == BinType`
unfoldable pub encoded_bin : Error → Bool
encoded_bin (type_error m bin_type) = true
encoded_bin _ = false

-- `o, b, err := nbs.ReadStringZC(b)` declares no new `b`: the parameter is assigned the rest, and
-- the calls below it read that.
unfoldable pub map_key_rest : Option NilBitsStack → Bytes × Bytes × Option Error → Read Bytes
unfolding encoded_bin
map_key_rest nbs (o, b, none) = ok o b
map_key_rest nbs (o, b, some err) = if encoded_bin err then read_bytes_zc nbs b else fail [] b err

unfoldable pub read_map_key_zc : Option NilBitsStack → Bytes → Read Bytes
unfolding map_key_rest
read_map_key_zc nbs b = nil_guard nbs b [] (read_string_zc nbs b >>= λ r. map_key_rest nbs r)
