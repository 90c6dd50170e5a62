-- ===== src/Msgp/Nilbits.antt =====
-- msgp/nilbits.go: the NilBitsStack that makes the readers simulate nils on the wire, and
-- msgp/runtimecfg.go: the RuntimeConfig. The count LifoAlwaysNil starts at 0 and only the two
-- functions below change it, so it is a natural number. `none` is a panic.
pub mod Laws
use truepack.Prelude.{
  ℕ, ◌+◌, ◌-◌, Bool, true, false, Option, none, some, List, [], ◌∷◌, ◌==◌, if◌then◌else◌, ◌>>=◌,
  replicate, get_elem?, set_elem, slice_from,
}
use truepack.Msgp.Wire.{mnil, Bytes}

abbrev pub max_nested_struct_pointer_depth : ℕ
max_nested_struct_pointer_depth = 8

pub record RuntimeConfig : Type 0 where
  pub unsafe_zero_copy : Bool

pub record NilBitsStack : Type 0 where
  pub always_nil : Bool
  pub lifo_always_nil : ℕ
  pub lifo_bts : List Bytes
  pub unsafe_zero_copy : Bool

-- The zero value of the struct.
abbrev pub zero_stack : NilBitsStack
zero_stack = record {
  always_nil = false;
  lifo_always_nil = 0;
  lifo_bts = replicate max_nested_struct_pointer_depth [];
  unsafe_zero_copy = false;
}

unfoldable pub init : NilBitsStack → Option RuntimeConfig → NilBitsStack
init r none = r
init r (some cfg) = record r { unsafe_zero_copy = cfg.unsafe_zero_copy }

-- `len(b) != 0 && b[0] == mnil`
unfoldable pub leads_nil : Bytes → Bool
leads_nil [] = false
leads_nil (x ∷ b) = x == mnil

unfoldable pub is_nil_on : NilBitsStack → Bytes → Bool
unfolding leads_nil
is_nil_on r bts = if r.always_nil then true else leads_nil bts

abbrev pub only_nil_slice : Bytes
only_nil_slice = mnil ∷ []

unfoldable pub push_always_nil : NilBitsStack → Bytes → Option (Bytes × NilBitsStack)
push_always_nil r bts =
    if r.lifo_always_nil == max_nested_struct_pointer_depth
    then none
    else (set_elem r.lifo_bts r.lifo_always_nil bts >>= λ lifo. some (
      only_nil_slice,
      record r { always_nil = true; lifo_always_nil = r.lifo_always_nil + 1; lifo_bts = lifo },
    ))

unfoldable pub pop_always_nil : NilBitsStack → Option (Bytes × NilBitsStack)
pop_always_nil r =
    if r.lifo_always_nil == 0
    then none
    else (get_elem? r.lifo_bts (r.lifo_always_nil - 1) >>= λ bts.
        let n = r.lifo_always_nil - 1 in
        some (
          bts,
          record r { always_nil = (if n == 0 then false else r.always_nil); lifo_always_nil = n },
        ))

-- `nbs != nil && nbs.AlwaysNil`, and the same for UnsafeZeroCopy: a receiver may be nil.
unfoldable pub is_always_nil : Option NilBitsStack → Bool
is_always_nil none = false
is_always_nil (some r) = r.always_nil

unfoldable pub is_unsafe_zero_copy : Option NilBitsStack → Bool
is_unsafe_zero_copy none = false
is_unsafe_zero_copy (some r) = r.unsafe_zero_copy

-- msgp/read_bytes.go: DidConsumeNil, with what `*b` is afterwards, and PeekNil.
unfoldable pub did_consume_nil : Option NilBitsStack → Bytes → Option (Bool × Bytes)
unfolding is_always_nil leads_nil
did_consume_nil nbs b =
    if is_always_nil nbs
    then some (true, b)
    else if leads_nil b
    then (slice_from b 1 >>= λ rest. some (true, rest))
    else some (false, b)

unfoldable pub peek_nil : Option NilBitsStack → Bytes → Bool
unfolding is_always_nil leads_nil
peek_nil nbs b = if is_always_nil nbs then true else leads_nil b
