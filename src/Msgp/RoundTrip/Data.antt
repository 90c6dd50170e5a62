-- ===== src/Msgp/RoundTrip/Data.antt =====
-- msgp/read_bytes.go: the ends of the readers of strings and binary objects on data of the right
-- length, and which of the headers of msgp/write_bytes.go stands for a length.
use truepack.Prelude.{
  ℕ, ◌+◌, ◌≤◌, ◌<◌, ◌≡◌, ◌∙◌, inl, inr, Bool, true, false, Option, some, [], ◌∷◌, ◌++◌, append-nil,
  arith, leb, if◌then◌else◌, leb→le, le→ltb, Bool-cases, length, take, replicate, slice_from,
  length-append, length-replicate, length-take, drop_all, take_append, slice_from_append,
}
use truepack.Msgp.Append.Format.{str_header, bin_header}
use truepack.Msgp.Integers.{be16, be32}
use truepack.Msgp.Read.{Read, ok, sized, bytes_data, string_data}
use truepack.Msgp.RoundTrip.Rules.{need-pass}
use truepack.Msgp.Skip.{skip}
use truepack.Msgp.Slice.{Slice, cap, go_copy, copied}
use truepack.Msgp.Wire.{mbin8, mbin16, mbin32, mstr8, mstr16, mstr32, Bytes}

pub test_le : (x n : ℕ) → leb x n ≡ true → x ≤ n
test_le x n e = leb→le x n e

pub test_gt : (x n : ℕ) → leb x n ≡ false → n < x
test_gt x n e = ground (arith, e)

pub string_data-exact : (s rest : Bytes) → string_data (length s) (s ++ rest) ≡ ok s rest
unfolding string_data
string_data-exact s rest = rw (
  le→ltb (length (s ++ rest)) (length s) (omega (arith, length-append s rest)),
  slice_from_append s rest,
  take_append s rest,
)

-- The copy fills as many bytes as were asked for, in the scratch space or in new memory.
scratch_length :
    (scratch : Slice) (n : ℕ)
    → length
        (if leb n (cap scratch) then take n (scratch.visible ++ scratch.spare) else replicate n 0)
      ≡ n
scratch_length scratch n = elim (Bool-cases (leb n (cap scratch))) [
  | inl e ↦ rw e (
      length-take n (scratch.visible ++ scratch.spare)
        (omega (arith, test_le n (cap scratch) e, length-append scratch.visible scratch.spare)))
  | inr e ↦ rw e (length-replicate {A = ℕ} n 0)
]

go_copy_all : (v s rest : Bytes) → length v ≡ length s → go_copy v (s ++ rest) ≡ s
unfolding go_copy
go_copy_all v s rest e = rw (
  e,
  take_append s rest,
  drop_all v (length (s ++ rest)) (omega (arith, length-append s rest)),
  append-nil,
)

copied_all : (v s rest : Bytes) → length v ≡ length s → copied v (s ++ rest) ≡ length s
unfolding copied
copied_all v s rest e = omega (arith, length-append s rest)

pub bytes_data-exact :
    (scratch : Slice) (zc : Bool) (s rest : Bytes)
    → bytes_data scratch zc (length s) (s ++ rest) ≡ ok s rest
unfolding bytes_data
bytes_data-exact scratch true s rest = rw (
  le→ltb (length (s ++ rest)) (length s) (omega (arith, length-append s rest)),
  slice_from_append s rest,
  take_append s rest,
)
bytes_data-exact scratch false s rest = rw (
  le→ltb (length (s ++ rest)) (length s) (omega (arith, length-append s rest)),
  copied_all _ s rest (scratch_length scratch (length s)),
  go_copy_all _ s rest (scratch_length scratch (length s)),
  slice_from_append s rest,
)

pub sized-eq :
    (b : Bytes) (skip : ℕ) (size : Option ℕ) (k : ℕ → Bytes → Read Bytes) (n : ℕ) (t : Bytes)
    → skip ≤ length b
    → size ≡ some n
    → slice_from b skip ≡ some t
    → sized b skip size k ≡ k n t
unfolding sized
sized-eq b skip size k n t h e f = need-pass b skip [] _ h ∙ rw (e, f)

-- Which header `str_header` and `bin_header` choose, in a form to split on.
module _ (P : Bytes → Type 0) (n : ℕ) where
  pub str_header-cases :
      (n ≤ 31 → P ((160 + n) ∷ []))
      → (n ≤ 255 → P (mstr8 ∷ n ∷ []))
      → (n ≤ 65535 → P (mstr16 ∷ be16 n))
      → P (mstr32 ∷ be32 n)
      → P (str_header n)
  unfolding str_header
  str_header-cases p q r s = elim (Bool-cases (leb n 31)) [
    | inl d ↦ rw d (p (test_le n 31 d))
    | inr d ↦ elim (Bool-cases (leb n 255)) [
      | inl e ↦ rw (d, e) (q (test_le n 255 e))
      | inr e ↦ elim (Bool-cases (leb n 65535)) [
        | inl f ↦ rw (d, e, f) (r (test_le n 65535 f))
        | inr f ↦ rw (d, e, f) s
      ]
    ]
  ]

  pub bin_header-cases :
      (n ≤ 255 → P (mbin8 ∷ n ∷ []))
      → (n ≤ 65535 → P (mbin16 ∷ be16 n))
      → P (mbin32 ∷ be32 n)
      → P (bin_header n)
  unfolding bin_header
  bin_header-cases q r s = elim (Bool-cases (leb n 255)) [
    | inl e ↦ rw e (q (test_le n 255 e))
    | inr e ↦ elim (Bool-cases (leb n 65535)) [
      | inl f ↦ rw (e, f) (r (test_le n 65535 f))
      | inr f ↦ rw (e, f) s
    ]
  ]
