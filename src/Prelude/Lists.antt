-- ===== src/Prelude/Lists.antt =====
-- Lists measured by native numbers, and Go's slice expressions: `b[n:]`, `b[:n]` and `b[i]` panic
-- out of range.
use Prim.Native.Nat.{ℕ, zero, suc, ◌+◌, ◌-◌, ◌≤◌}
use mathlib.Core.Path.{◌≡◌, refl, ap}
use mathlib.Core.List.{List, [], ◌∷◌, ◌++◌}
use mathlib.Core.Option
use mathlib.Core.Option.{Option, none, some, none-ne-some}
use native.Mathlib.Omega.{arith}

module _ {ℓ} {A : Type ℓ} where
  abbrev pub length : List A → ℕ
  length [] = 0
  length (x ∷ xs) = suc (length xs)

  abbrev pub take : ℕ → List A → List A
  take zero xs = []
  take (suc n) [] = []
  take (suc n) (x ∷ xs) = x ∷ take n xs

  abbrev pub drop : ℕ → List A → List A
  drop zero xs = xs
  drop (suc n) [] = []
  drop (suc n) (x ∷ xs) = drop n xs

  abbrev pub replicate : ℕ → A → List A
  replicate zero a = []
  replicate (suc n) a = a ∷ replicate n a

  -- `b[i]`.
  abbrev pub get_elem? : List A → ℕ → Option A
  get_elem? [] i = none
  get_elem? (x ∷ xs) zero = some x
  get_elem? (x ∷ xs) (suc i) = get_elem? xs i

  -- `b[i] = v`.
  abbrev pub set_elem : List A → ℕ → A → Option (List A)
  set_elem [] i v = none
  set_elem (x ∷ xs) zero v = some (v ∷ xs)
  set_elem (x ∷ xs) (suc i) v = Option.map (λ ys. x ∷ ys) (set_elem xs i v)

  -- `b[n:]`, for `n` up to the length.
  abbrev pub slice_from : List A → ℕ → Option (List A)
  slice_from xs zero = some xs
  slice_from [] (suc n) = none
  slice_from (x ∷ xs) (suc n) = slice_from xs n

  abbrev pub All {κ} : (A → Type κ) → List A → Type κ
  All P [] = Unit {κ}
  All P (x ∷ xs) = P x × All P xs

module _ {ℓ} {A : Type ℓ} where
  pub length-append : (xs ys : List A) → length (xs ++ ys) ≡ length xs + length ys
  length-append [] ys = omega arith
  length-append (x ∷ xs) ys = omega (arith, length-append xs ys)

  pub length-replicate : (n : ℕ) (a : A) → length (replicate n a) ≡ n
  length-replicate zero a = refl
  length-replicate (suc n) a = ap suc (length-replicate n a)

  pub length-take : (n : ℕ) (xs : List A) → n ≤ length xs → length (take n xs) ≡ n
  length-take zero xs h = refl
  length-take (suc n) [] h = absurd (omega arith)
  length-take (suc n) (x ∷ xs) h = ap suc (length-take n xs (omega arith))

  pub drop_all : (xs : List A) (n : ℕ) → length xs ≤ n → drop n xs ≡ []
  drop_all [] zero h = refl
  drop_all [] (suc n) h = refl
  drop_all (x ∷ xs) zero h = absurd (omega arith)
  drop_all (x ∷ xs) (suc n) h = drop_all xs n (omega arith)

  pub take_all : (xs : List A) (n : ℕ) → length xs ≤ n → take n xs ≡ xs
  take_all [] zero h = refl
  take_all [] (suc n) h = refl
  take_all (x ∷ xs) zero h = absurd (omega arith)
  take_all (x ∷ xs) (suc n) h = ap (λ t. x ∷ t) (take_all xs n (omega arith))

  pub drop_append : (xs ys : List A) → drop (length xs) (xs ++ ys) ≡ ys
  drop_append [] ys = refl
  drop_append (x ∷ xs) ys = drop_append xs ys

  pub take_append : (xs ys : List A) → take (length xs) (xs ++ ys) ≡ xs
  take_append [] ys = refl
  take_append (x ∷ xs) ys = ap (λ t. x ∷ t) (take_append xs ys)

  pub slice_from_append : (xs ys : List A) → slice_from (xs ++ ys) (length xs) ≡ some ys
  slice_from_append [] ys = refl
  slice_from_append (x ∷ xs) ys = slice_from_append xs ys

  -- A slice expression within bounds does not panic.
  pub slice_from_in_range :
      (xs : List A) (n : ℕ)
      → n ≤ length xs
      → (ys : List A) × (slice_from xs n ≡ some ys) × (length ys + n ≡ length xs)
  slice_from_in_range xs zero h = (xs, refl, omega arith)
  slice_from_in_range [] (suc n) h = absurd (omega arith)
  slice_from_in_range (x ∷ xs) (suc n) h =
      let (ys, e, l) = slice_from_in_range xs n (omega arith) in (ys, e, omega arith)

  pub slice_from_end : (xs : List A) (n : ℕ) → n ≡ length xs → slice_from xs n ≡ some []
  slice_from_end [] zero e = refl
  slice_from_end [] (suc n) e = absurd (omega arith)
  slice_from_end (x ∷ xs) zero e = absurd (omega arith)
  slice_from_end (x ∷ xs) (suc n) e = slice_from_end xs n (omega arith)

  pub length-slice_from :
      (xs : List A) (n : ℕ) (ys : List A) → slice_from xs n ≡ some ys → length ys + n ≡ length xs
  length-slice_from [] zero ys e = ground arith
  length-slice_from [] (suc n) ys e = absurd (none-ne-some ys e)
  length-slice_from (x ∷ xs) zero ys e = ground arith
  length-slice_from (x ∷ xs) (suc n) ys e = omega (arith, length-slice_from xs n ys e)

  pub slice_from-drop : (xs : List A) (n : ℕ) → n ≤ length xs → slice_from xs n ≡ some (drop n xs)
  slice_from-drop xs zero h = refl
  slice_from-drop [] (suc n) h = absurd (omega arith)
  slice_from-drop (x ∷ xs) (suc n) h = slice_from-drop xs n (omega arith)

  pub length-drop : (n : ℕ) (xs : List A) → length (drop n xs) ≡ length xs - n
  length-drop zero xs = omega arith
  length-drop (suc n) [] = omega arith
  length-drop (suc n) (x ∷ xs) = omega (arith, length-drop n xs)
