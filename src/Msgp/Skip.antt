-- ===== src/Msgp/Skip.antt =====
-- msgp/read_bytes.go: NextType, getSize and Skip, which go by the table of msgp/elsize.go. An
-- uintptr has 64 bits, and no sum or double here reaches 2 ^ 34. `none` is a panic, or fuel that
-- ran out; Skip calls itself, and gets one unit of fuel more than its input has bytes.
pub mod Tables
pub mod Total
pub mod Types
pub mod Flat
pub mod Frames
use truepack.Prelude.{
  ℕ, zero, suc, ◌+◌, ◌-◌, ◌*◌, Bool, true, false, not, ◌&&◌, Option, none, some, [], ◌∷◌, ltb, ◌==◌,
  if◌then◌else◌, ◌>>=◌, length, get_elem?, slice_from,
}
use truepack.Msgp.Integers.{be_uint16, be_uint32}
use truepack.Msgp.Wire.{
  complex64_extension, complex128_extension, time_extension, sizes, Bytes, WireType, invalid_type,
  extension_type, complex64_type, complex128_type, time_type, VarMode, elements, extra8, extra16,
  extra32, map16v, map32v, array16v, array32v, Error, err_short_bytes, invalid_prefix_error,
}

unfoldable pub is_extension : WireType → Bool
is_extension extension_type = true
is_extension _ = false

unfoldable pub is_constsize : VarMode → Bool
is_constsize (elements n) = n == 0
is_constsize _ = false

-- The int8 `tp` as its bit pattern.
unfoldable pub extension_kind : ℕ → WireType
extension_kind tp =
    if tp == time_extension
    then time_type
    else if tp == complex128_extension
    then complex128_type
    else if tp == complex64_extension
    then complex64_type
    else extension_type

unfoldable pub next_type : Bytes → Option WireType
unfolding is_extension is_constsize extension_kind
next_type [] = some invalid_type
next_type (lead ∷ t) =
    let b = lead ∷ t in
    let spec = sizes lead in
    if is_extension spec.typ && ltb spec.size (length b)
    then ((if is_constsize spec.extra then get_elem? b 1 else get_elem? b (spec.size - 1)) >>= λ tp.
        some (extension_kind tp))
    else some spec.typ

-- The `switch mode` of getSize, after the length test.
unfoldable pub size_by_mode : Bytes → ℕ → VarMode → Option (ℕ × ℕ × Option Error)
size_by_mode [] size mode = none
size_by_mode (lead ∷ t) size (elements n) = some (size, n, none)
size_by_mode (lead ∷ t) size extra8 = get_elem? t 0 >>= λ n. some (size + n, 0, none)
size_by_mode (lead ∷ t) size extra16 = be_uint16 t >>= λ n. some (size + n, 0, none)
size_by_mode (lead ∷ t) size extra32 = be_uint32 t >>= λ n. some (size + n, 0, none)
size_by_mode (lead ∷ t) size map16v = be_uint16 t >>= λ n. some (size, 2 * n, none)
size_by_mode (lead ∷ t) size map32v = be_uint32 t >>= λ n. some (size, 2 * n, none)
size_by_mode (lead ∷ t) size array16v = be_uint16 t >>= λ n. some (size, n, none)
size_by_mode (lead ∷ t) size array32v = be_uint32 t >>= λ n. some (size, n, none)

unfoldable pub is_elements : VarMode → Bool
is_elements (elements n) = true
is_elements _ = false

unfoldable pub get_size : Bytes → Option (ℕ × ℕ × Option Error)
unfolding is_elements
get_size [] = some (0, 0, some err_short_bytes)
get_size (lead ∷ t) =
    let b = lead ∷ t in
    let spec = sizes lead in
    if spec.size == 0
    then some (0, 0, some (invalid_prefix_error lead))
    else if not (is_elements spec.extra) && ltb (length b) spec.size
    then some (0, 0, some err_short_bytes)
    else size_by_mode b spec.size spec.extra

-- The loop `for asz > 0`.
unfoldable pub skip_all :
    (Bytes → Option (Bytes × Option Error)) → ℕ → Bytes → Option (Bytes × Option Error)
skip_all skip_one zero b = some (b, none)
skip_all skip_one (suc asz) b = skip_one b >>= λ (b', err). elim err [
  | none ↦ skip_all skip_one asz b'
  | some e ↦ some (b', some e)
]

unfoldable pub skip : ℕ → Bytes → Option (Bytes × Option Error)
unfolding skip_all
skip zero b = none
skip (suc fuel) b = get_size b >>= λ (sz, asz, err). elim err [
  | none ↦
      if ltb (length b) sz
      then some (b, some err_short_bytes)
      else (slice_from b sz >>= λ b'. skip_all (skip fuel) asz b')
  | some e ↦ some (b, some e)
]

unfoldable pub skip_bytes : Bytes → Option (Bytes × Option Error)
unfolding skip
skip_bytes b = skip (suc (length b)) b
