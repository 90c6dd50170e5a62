-- ===== src/Msgp/Nilbits/Laws.antt =====
-- msgp/nilbits.go: the stack of simulated nils.
use truepack.Prelude.{
  ℕ, zero, suc, ◌+◌, ◌-◌, ◌≤◌, ◌<◌, ◌≡◌, refl, ap, ◌≢◌, true, false, Option, none, some, List, [],
  ◌∷◌, arith, ltb, ◌==◌, if◌then◌else◌, length, get_elem?, set_elem,
}
use truepack.Msgp.Nilbits.{
  RuntimeConfig, NilBitsStack, zero_stack, init, only_nil_slice, push_always_nil, pop_always_nil,
  is_always_nil,
}
use truepack.Msgp.Wire.{Bytes}

-- What Init leaves and the two operations keep: eight slots, a depth within them, and AlwaysNil set
-- exactly while something is stacked.
pub record IsStack (r : NilBitsStack) : Type 0 where
  pub slots : length r.lifo_bts ≡ 8
  pub depth : r.lifo_always_nil ≤ 8
  pub flag : r.always_nil ≡ ltb 0 r.lifo_always_nil

-- All slots but the one at `n`.
abbrev pub SameElsewhere : (n : ℕ) → List Bytes → List Bytes → Type 0
SameElsewhere n xs ys = (i : ℕ) → i ≢ n → get_elem? xs i ≡ get_elem? ys i

set_elem_total :
    (xs : List Bytes) (i : ℕ) (v : Bytes)
    → i < length xs
    → (ys : List Bytes) × (set_elem xs i v ≡ some ys)
      × (length ys ≡ length xs)
      × (get_elem? ys i ≡ some v)
      × SameElsewhere i xs ys
set_elem_total [] i v h = absurd (omega arith)
set_elem_total (x ∷ xs) zero v h = (v ∷ xs, refl, refl, refl, at_front)
  where
    at_front : SameElsewhere 0 (x ∷ xs) (v ∷ xs)
    at_front zero l = absurd (l refl)
    at_front (suc j) l = refl
set_elem_total (x ∷ xs) (suc i) v h =
    let (ys, e, l, g, s) = set_elem_total xs i v (omega arith) in
    (x ∷ ys, rw e, omega arith, g, behind ys s)
  where
    behind : (ys : List Bytes) → SameElsewhere i xs ys → SameElsewhere (suc i) (x ∷ xs) (x ∷ ys)
    behind ys s zero l = refl
    behind ys s (suc j) l = s j (λ e. l (ap suc e))

pub zero_stack-IsStack : (cfg : Option RuntimeConfig) → IsStack (init zero_stack cfg)
unfolding init
zero_stack-IsStack none = record { slots = refl; depth = omega arith; flag = refl }
zero_stack-IsStack (some cfg) = record { slots = refl; depth = omega arith; flag = refl }

-- On a stack that meets the invariant and has room left, a push returns the lone nil and changes, beside
-- the flag and the depth, the slot at the old depth alone, which then holds what was pushed; it keeps
-- the invariant. The next pop returns what was pushed and the stack as it was before the push, every
-- field included, but for that slot, which keeps what was pushed.
pub pop-push_always_nil :
    (r : NilBitsStack) (bts : Bytes)
    → IsStack r
    → r.lifo_always_nil < 8
    → (ys : List Bytes) × (set_elem r.lifo_bts r.lifo_always_nil bts ≡ some ys)
      × (r' : NilBitsStack) × (push_always_nil r bts ≡ some (only_nil_slice, r'))
      × (r'
          ≡ record r { always_nil = true; lifo_always_nil = r.lifo_always_nil + 1; lifo_bts = ys })
      × IsStack r'
      × (is_always_nil (some r') ≡ true)
      × (pop_always_nil r' ≡ some (bts, record r { lifo_bts = ys }))
      × IsStack (record r { lifo_bts = ys })
      × SameElsewhere r.lifo_always_nil r.lifo_bts ys
unfolding push_always_nil pop_always_nil is_always_nil
pop-push_always_nil r bts h room =
    let n = r.lifo_always_nil in
    let (ys, e, l, g, s) = set_elem_total r.lifo_bts n bts (omega arith) in
    let not_full : (n == 8) ≡ false = ground arith in
    let not_empty : (n + 1 == 0) ≡ false = ground arith in
    let back : n + 1 - 1 ≡ n = omega arith in
    let flag : (if n == 0 then false else true) ≡ r.always_nil = ground arith in
    (
      ys,
      e,
      record r { always_nil = true; lifo_always_nil = n + 1; lifo_bts = ys },
      rw (not_full, e),
      refl,
      record { slots = omega arith; depth = omega arith; flag = ground arith },
      refl,
      rw (not_empty, back, g, flag),
      record { slots = omega arith; depth = h.depth; flag = h.flag },
      s,
    )
