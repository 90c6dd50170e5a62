-- ===== src/Msgp/Edit/Fields.antt =====
-- Functions on the list of a map's fields, which the functions of msgp/edit.go are measured by.
use truepack.Prelude.{
  ◌≡◌, refl, ap, ◌⊎◌, inl, inr, true, Option, none, some, List, [], ◌∷◌, ◌++◌, arith, ◌==◌,
  if◌then◌else◌, Bool-cases,
}
use truepack.Msgp.Edit.{same_bytes}
use truepack.Msgp.Edit.Format.{Field, Lacks, same_bytes_refl}
use truepack.Msgp.Wire.{Bytes}

-- The first field with the key is the one that counts.
unfoldable pub lookup : Bytes → List Field → Option Bytes
lookup key [] = none
lookup key ((k, v) ∷ fs) = if same_bytes k key then some v else lookup key fs

unfoldable pub update : Bytes → Bytes → List Field → List Field
update key val [] = []
update key val ((k, v) ∷ fs) =
    if same_bytes k key then (k, val) ∷ fs else (k, v) ∷ update key val fs

unfoldable pub delete : Bytes → List Field → List Field
delete key [] = []
delete key ((k, v) ∷ fs) = if same_bytes k key then fs else (k, v) ∷ delete key fs

same_bytes_sound : (xs ys : Bytes) → same_bytes xs ys ≡ true → xs ≡ ys
unfolding same_bytes
same_bytes_sound [] [] e = refl
same_bytes_sound [] (y ∷ ys) e = ground (arith, e)
same_bytes_sound (x ∷ xs) [] e = ground (arith, e)
same_bytes_sound (x ∷ xs) (y ∷ ys) e = elim (Bool-cases (x == y)) [
  | inl p ↦ let q : x ≡ y = ground (arith, p) in rw (q, same_bytes_sound xs ys (rw p at e))
  | inr p ↦ ground (arith, p, e)
]

-- Where the first field with the key stands.
abbrev pub Found : Bytes → List Field → Type 0
Found key fs =
    (before : List Field) × (v : Bytes) × (after : List Field) × (fs ≡ before ++ ((key, v) ∷ after))
    × Lacks key before

pub find : (key : Bytes) (fs : List Field) → Lacks key fs ⊎ Found key fs
find key [] = inl tt
find key ((k, v) ∷ fs) = elim (Bool-cases (same_bytes k key)) [
  | inl e ↦ inr ([], v, fs, rw (same_bytes_sound k key e), tt)
  | inr e ↦ elim (find key fs) [
    | inl none_ok ↦ inl (e, none_ok)
    | inr (before, w, after, p, first) ↦
        inr ((k, v) ∷ before, w, after, ap (λ t. (k, v) ∷ t) p, (e, first))
  ]
]

module _ (key : Bytes) where
  pub lookup_found :
      (before after : List Field) (v : Bytes)
      → Lacks key before
      → lookup key (before ++ ((key, v) ∷ after)) ≡ some v
  unfolding lookup
  lookup_found [] after v first = rw (same_bytes_refl key)
  lookup_found ((k, w) ∷ before) after v (d, first) = rw d (lookup_found before after v first)

  pub update_found :
      (before after : List Field) (v val : Bytes)
      → Lacks key before
      → update key val (before ++ ((key, v) ∷ after)) ≡ before ++ ((key, val) ∷ after)
  unfolding update
  update_found [] after v val first = rw (same_bytes_refl key)
  update_found ((k, w) ∷ before) after v val (d, first) =
      rw d (ap (λ t. (k, w) ∷ t) (update_found before after v val first))

  pub delete_found :
      (before after : List Field) (v : Bytes)
      → Lacks key before
      → delete key (before ++ ((key, v) ∷ after)) ≡ before ++ after
  unfolding delete
  delete_found [] after v first = rw (same_bytes_refl key)
  delete_found ((k, w) ∷ before) after v (d, first) =
      rw d (ap (λ t. (k, w) ∷ t) (delete_found before after v first))

  pub lookup-Lacks : (fs : List Field) → Lacks key fs → lookup key fs ≡ none
  unfolding lookup
  lookup-Lacks [] none_ok = refl
  lookup-Lacks ((k, w) ∷ fs) (d, none_ok) = rw d (lookup-Lacks fs none_ok)

  pub delete-Lacks : (fs : List Field) → Lacks key fs → delete key fs ≡ fs
  unfolding delete
  delete-Lacks [] none_ok = refl
  delete-Lacks ((k, w) ∷ fs) (d, none_ok) = rw d (ap (λ t. (k, w) ∷ t) (delete-Lacks fs none_ok))
