-- ===== src/Msgp/Edit/Ranges.antt =====
-- msgp/edit.go on any bytes: the ranges that `locate` and `locateKV` return.
use truepack.Prelude.{
  ℕ, zero, suc, ◌-◌, ◌≤◌, ◌<◌, ◌≡◌, refl, ap, ◌⊎◌, inl, inr, Bool, true, false, Option, none, some,
  [], arith, if◌then◌else◌, length, length-append,
}
use mathlib.Core.Option.{some-ne-none}
use truepack.Msgp.Edit.{
  same_bytes, range_from, locate_loop, locate_range, locate_kv_loop, locate_kv,
}
use truepack.Msgp.Edit.Header.{BehindHeader, HeaderRead, header_read}
use truepack.Msgp.Read.{nil_slice, read_string_zc, read_map_header_bytes}
use truepack.Msgp.Safety.Blobs.{read_blob-Safe}
use truepack.Msgp.Safety.Rules.{EndsIn, Safe}
use truepack.Msgp.Skip.{skip_bytes}
use truepack.Msgp.Skip.Total.{SkipOk, skip_bytes_total}
use truepack.Msgp.Wire.{Bytes, Error}

-- `(0, 0)`, or a range that is not empty and starts behind what was left of the input.
abbrev pub RangeOk : ℕ → Bytes → Option (ℕ × ℕ) → Type 0
RangeOk l bts r =
    (s n : ℕ) × (r ≡ some (s, n))
    × (((s ≡ 0) × (n ≡ 0)) ⊎ ((l - length bts ≤ s) × (s < n) × (n ≤ l)))

no_range : (l : ℕ) (bts : Bytes) → RangeOk l bts (some (0, 0))
no_range l bts = (0, 0, refl, inl (refl, refl))

pub read_string-Safe : (b : Bytes) → Safe b (read_string_zc none b)
read_string-Safe b = (read_blob-Safe none b [] nil_slice).3

module _ (l : ℕ) (bts : Bytes) (h : length bts ≤ l) where
  found_range :
      (start : ℕ) (o : Bytes) (err : Option Error)
      → l - length bts ≤ start
      → ((err ≡ none) → start < l - length o)
      → RangeOk l bts (some (range_from l start (o, err)))
  unfolding range_from
  found_range start o none p q = (start, l - length o, refl, inr (p, q refl, omega arith))
  found_range start o (some e) p q = no_range l bts

  -- A range behind a later point is one behind this point.
  later_range :
      (o : Bytes) (r : Option (ℕ × ℕ)) → length o ≤ length bts → RangeOk l o r → RangeOk l bts r
  later_range o r k (s, n, e, inl z) = (s, n, e, inl z)
  later_range o r k (s, n, e, inr (p, q, z)) = (s, n, e, inr (omega arith, q, z))

if_range :
    (l : ℕ) (bts : Bytes) {x y : Option (ℕ × ℕ)} (c : Bool)
    → RangeOk l bts x
    → RangeOk l bts y
    → RangeOk l bts (if c then x else y)
if_range l bts true p q = p
if_range l bts false p q = q

ends_length : (b o : Bytes) → EndsIn b o → length o ≤ length b
ends_length b o (front, e) = omega (arith, ap length e, length-append front o)

module _ (key : Bytes) (l : ℕ) where
  loop_ranges :
      (n : ℕ) (bts : Bytes)
      → length bts ≤ l
      → RangeOk l bts (locate_loop key l n bts) × RangeOk l bts (locate_kv_loop key l n bts)
  unfolding locate_loop locate_kv_loop
  loop_ranges zero bts h = (no_range l bts, no_range l bts)
  loop_ranges (suc n) bts h = go (read_string-Safe bts) (loop_ranges n)
    where
      go :
          Safe bts (read_string_zc none bts)
          → ((b : Bytes)
              → length b ≤ l
              → RangeOk l b (locate_loop key l n b) × RangeOk l b (locate_kv_loop key l n b))
          → RangeOk l bts (locate_loop key l (suc n) bts)
            × RangeOk l bts (locate_kv_loop key l (suc n) bts)
      go (v, o, some e, p, q) ih = (rw p (no_range l bts), rw p (no_range l bts))
      go (v, o, none, p, q) ih = skipped (skip_bytes_total o) (ends_length bts o q)
        where
          skipped :
              SkipOk o (skip_bytes o)
              → length o ≤ length bts
              → RangeOk l bts (locate_loop key l (suc n) bts)
                × RangeOk l bts (locate_kv_loop key l (suc n) bts)
          skipped (o', some e, p', q', s) k = (
            rw (p, p')
                (if_range l bts (same_bytes v key)
                  (found_range l bts h (l - length o) o' (some e) (omega arith)
                    (λ z. absurd (some-ne-none e z)))
                  (no_range l bts)),
            rw (p, p')
                (if_range l bts (same_bytes v key)
                  (found_range l bts h (l - length bts) o' (some e) (omega arith)
                    (λ z. absurd (some-ne-none e z)))
                  (no_range l bts)),
          )
          skipped (o', none, p', q', s) k =
              let (x, y) = ih o' (omega arith) in
              (
                rw (p, p')
                    (if_range l bts (same_bytes v key)
                      (found_range l bts h (l - length o) o' none (omega arith) (λ z. omega arith))
                      (later_range l bts h o' _ (omega arith) x)),
                rw (p, p')
                    (if_range l bts (same_bytes v key)
                      (found_range l bts h (l - length bts) o' none (omega arith)
                        (λ z. omega arith))
                      (later_range l bts h o' _ (omega arith) y)),
              )

-- `(0, 0)`, or a range inside `raw` that is not empty and starts behind its header.
abbrev pub FieldRange : Bytes → Option (ℕ × ℕ) → Type 0
FieldRange raw r =
    (s n : ℕ) × (r ≡ some (s, n))
    × (((s ≡ 0) × (n ≡ 0)) ⊎ (BehindHeader raw s × (s < n) × (n ≤ length raw)))

further : (raw : Bytes) (s s' : ℕ) → s ≤ s' → BehindHeader raw s → BehindHeader raw s'
further raw s s' h (lead, t, e, p, q, r) =
    (lead, t, e, omega arith, λ z. let w = q z in omega arith, λ z. let w = r z in omega arith)

narrow_range :
    (raw bts : Bytes) (r : Option (ℕ × ℕ))
    → BehindHeader raw (length raw - length bts)
    → RangeOk (length raw) bts r
    → FieldRange raw r
narrow_range raw bts r b (s, n, e, inl z) = (s, n, e, inl z)
narrow_range raw bts r b (s, n, e, inr (p, q, z)) =
    (s, n, e, inr (further raw (length raw - length bts) s p b, q, z))

pub field_ranges :
    (raw key : Bytes) → FieldRange raw (locate_range raw key) × FieldRange raw (locate_kv raw key)
unfolding locate_range locate_kv locate_loop locate_kv_loop
field_ranges raw key = go (header_read raw)
  where
    go :
        HeaderRead raw (read_map_header_bytes none raw)
        → FieldRange raw (locate_range raw key) × FieldRange raw (locate_kv raw key)
    go (n, bts, some e, p, l, b) =
        (rw p (0, 0, refl, inl (refl, refl)), rw p (0, 0, refl, inl (refl, refl)))
    go (zero, bts, none, p, l, b) =
        (rw p (0, 0, refl, inl (refl, refl)), rw p (0, 0, refl, inl (refl, refl)))
    go (suc n, bts, none, p, l, b) =
        let (x, y) = loop_ranges key (length raw) (suc n) bts l in
        let behind = b refl (omega arith) in
        (rw p (narrow_range raw bts _ behind x), rw p (narrow_range raw bts _ behind y))
