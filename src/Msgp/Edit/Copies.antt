-- ===== src/Msgp/Edit/Copies.antt =====
-- msgp/edit.go: the copies that `replace` and Remove are made of, on a slice cut into parts.
use truepack.Prelude.{
  ℕ, zero, suc, ◌≤◌, ◌≡◌, refl, sym, ap, some, [], ◌∷◌, ◌++◌, append_assoc, append-nil, arith,
  length, take, drop, slice_from, length-append, drop_all, take_all, drop_append, take_append,
  slice_from_append,
}
use Prim.Native.Nat.{min}
use truepack.Msgp.Edit.{copy_at}
use truepack.Msgp.Slice.{Slice, go_copy, copied, fill}
use truepack.Msgp.Slice.Laws.{store_behind}
use truepack.Msgp.Wire.{Bytes}

pub split_at : (n : ℕ) (xs : Bytes) → n ≤ length xs → xs ≡ take n xs ++ drop n xs
split_at zero xs h = refl
split_at (suc n) [] h = absurd (omega arith)
split_at (suc n) (x ∷ xs) h = ap (λ t. x ∷ t) (split_at n xs (omega arith))

-- `copy` over the front of the destination, and from the front of the source.
pub go_copy_front :
    (old rest src : Bytes) → length old ≡ length src → go_copy (old ++ rest) src ≡ src ++ rest
unfolding go_copy
go_copy_front old rest src e = rw (
  take_all src (length (old ++ rest)) (omega (arith, length-append old rest)),
  sym e,
  drop_append old rest,
)

pub go_copy_part :
    (dst src more : Bytes) → length dst ≡ length src → go_copy dst (src ++ more) ≡ src
unfolding go_copy
go_copy_part dst src more e = rw (
  e,
  take_append src more,
  drop_all dst (length (src ++ more)) (omega (arith, length-append src more)),
  append-nil,
)

-- A copy of `src` over a part of the same length puts it in place of the part.
pub copy_at_part :
    (o : Slice) (front old back src : Bytes) (n : ℕ)
    → o.visible ≡ front ++ (old ++ back)
    → n ≡ length front
    → length old ≡ length src
    → (o' : Slice) × (copy_at o n src ≡ some o') × (o'.visible ≡ front ++ (src ++ back))
unfolding copy_at
copy_at_part o front old back src n v e l =
    store_behind o front (old ++ back) (src ++ back) n (λ t. some (go_copy t src)) v e
      (ap some (go_copy_front old back src l))

-- The same at the end of the slice, where the source may go on.
pub copy_at_end :
    (o : Slice) (front old src more : Bytes) (n : ℕ)
    → o.visible ≡ front ++ old
    → n ≡ length front
    → length old ≡ length src
    → (o' : Slice) × (copy_at o n (src ++ more) ≡ some o') × (o'.visible ≡ front ++ src)
unfolding copy_at
copy_at_end o front old src more n v e l =
    store_behind o front old src n (λ t. some (go_copy t (src ++ more))) v e
      (ap some (go_copy_part old src more l))

-- `fill` with a source that is shorter than what it writes over: the slice ends behind it.
pub fill_over :
    (o : Slice) (front gap src : Bytes) (n : ℕ)
    → o.visible ≡ front ++ (gap ++ src)
    → n ≡ length front
    → (o' : Slice) × (fill o n src ≡ some o') × (o'.visible ≡ front ++ src)
unfolding fill go_copy copied
fill_over o front gap src n v e =
    rw (v, e, slice_from_append front (gap ++ src), take_append front (gap ++ src))
      (rw (take_all src (length (gap ++ src)) (omega (arith, length-append gap src)), least)
        (
          _,
          refl,
          rw
              (
                sym (append_assoc front src (drop (length src) (gap ++ src))),
                sym (length-append front src),
              )
              (take_append (front ++ src) (drop (length src) (gap ++ src))),
        ))
  where
    least : min (length (gap ++ src)) (length src) ≡ length src
    least = omega (arith, length-append gap src)

pub slice_from_at :
    (xs front back : Bytes) (n : ℕ)
    → xs ≡ front ++ back
    → n ≡ length front
    → slice_from xs n ≡ some back
slice_from_at xs front back n e l = rw (e, l) (slice_from_append front back)
