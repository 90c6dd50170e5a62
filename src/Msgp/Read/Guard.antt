-- ===== src/Msgp/Read/Guard.antt =====
-- msgp/read_bytes.go: the results, and the two tests that stand at the head of the readers.
use truepack.Prelude.{
  ℕ, Option, none, some, [], ◌∷◌, ltb, ◌==◌, if◌then◌else◌, ◌>>=◌, length, slice_from,
}
use truepack.Msgp.Nilbits.{NilBitsStack, is_always_nil}
use truepack.Msgp.Wire.{mnil, Bytes, Error, err_short_bytes}

abbrev pub Read : Type 0 → Type 0
Read A = Option (A × Bytes × Option Error)

-- `return v, o, nil` and `return v, o, e`.
abbrev pub ok : {A : Type 0} → A → Bytes → Read A
ok v o = some (v, o, none)

abbrev pub fail : {A : Type 0} → A → Bytes → Error → Read A
fail v o e = some (v, o, some e)

-- `if nbs != nil && nbs.AlwaysNil { return zero, b, nil }`
-- `if len(b) != 0 && b[0] == mnil { return zero, b[1:], nil }`
unfoldable pub nil_guard : {A : Type 0} → Option NilBitsStack → Bytes → A → Read A → Read A
unfolding is_always_nil
nil_guard nbs [] empty rest = if is_always_nil nbs then ok empty [] else rest
nil_guard nbs (x ∷ b) empty rest =
    if is_always_nil nbs then ok empty (x ∷ b) else if x == mnil then ok empty b else rest

-- `if l < n { err = ErrShortBytes; return }`
unfoldable pub need : {A : Type 0} → Bytes → ℕ → A → Read A → Read A
need b n empty rest = if ltb (length b) n then fail empty [] err_short_bytes else rest

-- `v = x; o = b[n:]; return`, where finding `x` may panic.
unfoldable pub take_value : {A : Type 0} → Option A → Bytes → ℕ → Read A
take_value x b n = x >>= λ v. slice_from b n >>= λ o. ok v o
