-- ===== src/Msgp/Slice/Laws.antt =====
-- `ensure` of msgp/write_bytes.go, and stores into the room that it makes.
use truepack.Prelude.{
  ℕ, ◌+◌, ◌-◌, ◌*◌, ◌≤◌, ◌≡◌, refl, sym, ap, ◌∙◌, inl, inr, Option, some, [], ◌++◌, append_assoc,
  append-nil, arith, ltb, Bool-cases, length, take, drop, replicate, length-append,
  length-replicate, length-take, drop_all, take_all, take_append, slice_from_append, length-drop,
}
use truepack.Msgp.Integers.{put_all}
use truepack.Msgp.Integers.Laws.{put_all_fits}
use truepack.Msgp.Slice.{
  Slice, cap, go_copy, copied, ensure, store, fill, append_with, append_prefixed, Appends,
}
use truepack.Msgp.Wire.{Bytes}

-- `ensure` keeps the bytes of `b`, adds `sz`, returns the old length, and never shrinks the
-- capacity.
pub ensure_room :
    (b : Slice) (sz : ℕ)
    → (tail : Bytes) × ((ensure b sz).0.visible ≡ b.visible ++ tail)
      × (length tail ≡ sz)
      × ((ensure b sz).1 ≡ length b.visible)
      × (cap b ≤ cap (ensure b sz).0)
unfolding ensure
ensure_room b sz = elim (Bool-cases (ltb (cap b - length b.visible) sz)) [
  | inl grow ↦ rw grow (
    replicate sz 0,
    refl,
    length-replicate {A = ℕ} sz 0,
    refl,
    omega (
      arith,
      length-append b.visible (replicate sz 0),
      length-replicate {A = ℕ} sz 0,
      length-replicate {A = ℕ} (2 * cap b - length b.visible) 0,
    ),
  )
  | inr fits ↦ rw fits (
    take sz b.spare,
    refl,
    length-take sz b.spare (ground (arith, fits)),
    refl,
    let enough : sz ≤ length b.spare = ground (arith, fits) in
        omega (
          arith,
          length-append b.visible (take sz b.spare),
          length-take sz b.spare enough,
          length-drop sz b.spare,
        ),
  )
]

-- A store behind `front` leaves `front` alone.
pub store_behind :
    (o : Slice) (front tail tail' : Bytes) (n : ℕ) (put : Bytes → Option Bytes)
    → o.visible ≡ front ++ tail
    → n ≡ length front
    → put tail ≡ some tail'
    → Appends (record { visible = front; spare = [] }) tail' (store o n put)
unfolding store
store_behind o front tail tail' n put v e p = (
  record o { visible = front ++ tail' },
  rw (v, e, slice_from_append front tail, p, take_append front tail),
  refl,
)

pub put_all_exact : (vs tail : Bytes) → length tail ≡ length vs → put_all vs tail ≡ some vs
put_all_exact vs tail e =
    put_all_fits vs tail (omega arith)
    ∙ ap some (rw (drop_all tail (length vs) (omega arith), append-nil))

-- `ensure`, then a store of as many bytes as were made room for: the bytes are appended.
pub append_with_all :
    (b : Slice) (sz : ℕ) (vs : Bytes)
    → length vs ≡ sz
    → Appends b vs (append_with b sz (put_all vs))
unfolding append_with
append_with_all b sz vs e =
    let (tail, v, l, n, _) = ensure_room b sz in
    store_behind (ensure b sz).0 b.visible tail vs (ensure b sz).1 (put_all vs) v n
      (put_all_exact vs tail (l ∙ sym e))

pub go_copy_exact : (dst src : Bytes) → length dst ≡ length src → go_copy dst src ≡ src
unfolding go_copy
go_copy_exact dst src l = rw (
  l,
  take_all src (length src) (omega arith),
  drop_all dst (length src) (omega arith),
  append-nil,
)

copied_exact : (dst src : Bytes) → length dst ≡ length src → copied dst src ≡ length src
unfolding copied
copied_exact dst src l = omega arith

-- `fill` behind `front` writes `src` in place of a tail of its length.
pub fill_behind :
    (o : Slice) (front tail src : Bytes) (n : ℕ)
    → o.visible ≡ front ++ tail
    → n ≡ length front
    → length tail ≡ length src
    → Appends (record { visible = front; spare = [] }) src (fill o n src)
unfolding fill
fill_behind o front tail src n v e l =
    rw (v, e, slice_from_append front tail, take_append front tail)
      (rw (go_copy_exact tail src l, copied_exact tail src l)
        (
          record {
            visible = take (length front + length src) (front ++ src);
            spare = drop (length front + length src) (front ++ src) ++ o.spare;
          },
          refl,
          take_all (front ++ src) (length front + length src)
              (omega (arith, length-append front src)),
        ))

-- The prefix in `vs`, then the data in `src`: both are appended.
pub append_prefixed_all :
    (b : Slice) (k : ℕ) (vs src : Bytes)
    → length vs ≡ k
    → Appends b (vs ++ src) (append_prefixed b k (put_all vs) src)
unfolding append_prefixed
append_prefixed_all b k vs src e =
    let (tail, v, l, n, _) = ensure_room b (k + length src) in
    let (o, s, w) =
      store_behind (ensure b (k + length src)).0 b.visible tail (vs ++ drop (length vs) tail)
        (ensure b (k + length src)).1 (put_all vs) v n (put_all_fits vs tail (omega arith)) in
    let (o', f, x) =
      fill_behind o (b.visible ++ vs) (drop (length vs) tail) src
        ((ensure b (k + length src)).1 + k)
        (w ∙ sym (append_assoc b.visible vs (drop (length vs) tail)))
        (omega (arith, length-append b.visible vs)) (omega (arith, length-drop (length vs) tail)) in
    (o', rw s f, x ∙ append_assoc b.visible vs src)
