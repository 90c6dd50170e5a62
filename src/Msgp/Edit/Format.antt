-- ===== src/Msgp/Edit/Format.antt =====
-- The encoded maps of msgp/edit.go, stated without offsets: a header in one of its three forms, then
-- a key and a value for each field, and whatever follows.
use truepack.Prelude.{
  ℕ, ◌+◌, ◌^◌, ◌≤◌, ◌<◌, ◌≡◌, refl, true, false, none, some, List, [], ◌∷◌, ◌++◌, append_assoc,
  arith, length, All,
}
use truepack.Msgp.Append.Format.{str_header}
use truepack.Msgp.Edit.{same_bytes}
use truepack.Msgp.Integers.{be16, be32}
use truepack.Msgp.Integers.Laws.{be_uint16-be16, be_uint32-be32}
use truepack.Msgp.Nilbits.{is_always_nil}
use truepack.Msgp.Read.{read_string_zc, map_header_body, read_map_header_bytes}
use truepack.Msgp.RoundTrip.Blobs.{read_string_zc-str_header}
use truepack.Msgp.RoundTrip.Data.{str_header-cases}
use truepack.Msgp.RoundTrip.Exts.{fix_header}
use truepack.Msgp.RoundTrip.Rules.{field-eq, guarded}
use truepack.Msgp.Skip.{get_size, skip, skip_bytes}
use truepack.Msgp.Slice.{Slice}
use truepack.Msgp.Wire.{mmap16, mmap32, Bytes, isfixmap}

pub data MapForm : Type 0 where
  form_fix : MapForm
  form16 : MapForm
  form32 : MapForm

-- One more than the most fields of a form.
abbrev pub form_limit : MapForm → ℕ
form_limit form_fix = 16
form_limit form16 = 2 ^ 16
form_limit form32 = 2 ^ 32

unfoldable pub header_of : MapForm → ℕ → Bytes
header_of form_fix n = (128 + n) ∷ []
header_of form16 n = mmap16 ∷ be16 n
header_of form32 n = mmap32 ∷ be32 n

abbrev pub Field : Type 0
Field = Bytes × Bytes

abbrev pub key_bytes : Bytes → Bytes
key_bytes k = str_header (length k) ++ k

abbrev pub fields_bytes : List Field → Bytes
fields_bytes [] = []
fields_bytes ((k, v) ∷ fs) = key_bytes k ++ (v ++ fields_bytes fs)

-- One object, of any kind and depth: Skip takes just these bytes off the front of any others.
abbrev pub IsObject : Bytes → Type 0
IsObject v = (rest : Bytes) → skip_bytes (v ++ rest) ≡ some (rest, none)

abbrev pub IsField : Field → Type 0
IsField (k, v) = (length k < 2 ^ 32) × IsObject v

-- None of the fields has the key.
abbrev pub Lacks : Bytes → List Field → Type 0
Lacks key fs = All (λ (k, v). same_bytes k key ≡ false) fs

-- `raw` holds a map of these fields, and `rest` behind it.
pub record IsMap (form : MapForm) (fs : List Field) (rest : Bytes) (raw : Slice) : Type 0 where
  pub within : length fs < form_limit form
  pub valid : All IsField fs
  pub bytes : raw.visible ≡ header_of form (length fs) ++ (fields_bytes fs ++ rest)

pub same_bytes_refl : (xs : Bytes) → same_bytes xs xs ≡ true
unfolding same_bytes
same_bytes_refl [] = refl
same_bytes_refl (x ∷ xs) = let e = same_bytes_refl xs in ground (arith, e)

pub nil_receiver : is_always_nil none ≡ false
unfolding is_always_nil
nil_receiver = refl

-- The header is read back in each of its forms.
pub read_map_header-header_of :
    (form : MapForm) (n : ℕ) (rest : Bytes)
    → n < form_limit form
    → read_map_header_bytes none (header_of form n ++ rest) ≡ some (n, rest, none)
unfolding read_map_header_bytes map_header_body header_of isfixmap
read_map_header-header_of form_fix n rest h = (fix_header none rest nil_receiver n (omega arith)).0
read_map_header-header_of form16 n rest h =
    guarded none mmap16 (be16 n ++ rest) 0 n _ rest nil_receiver refl
      (field-eq _ _ 3 n 0 rest (omega arith) (be_uint16-be16 n rest h) refl)
read_map_header-header_of form32 n rest h =
    guarded none mmap32 (be32 n ++ rest) 0 n _ rest nil_receiver refl
      (field-eq _ _ 5 n 0 rest (omega arith) (be_uint32-be32 n rest h) refl)

pub read_string_zc-key :
    (k rest : Bytes)
    → length k < 2 ^ 32
    → read_string_zc none (key_bytes k ++ rest) ≡ some (k, rest, none)
read_string_zc-key k rest h = read_string_zc-str_header none rest nil_receiver k h

-- No object is empty.
pub object_length : (v : Bytes) → IsObject v → 1 ≤ length v
unfolding skip_bytes skip get_size
object_length [] h = let e = h [] in ground (arith, e)
object_length (x ∷ v) h = omega arith

pub key_length : (k : Bytes) → 1 ≤ length (key_bytes k)
key_length k =
    str_header-cases (λ hd. 1 ≤ length (hd ++ k)) (length k) (λ small. omega arith)
      (λ small. omega arith) (λ small. omega arith) (omega arith)

pub fields_append :
    (fs gs : List Field) → fields_bytes (fs ++ gs) ≡ fields_bytes fs ++ fields_bytes gs
fields_append [] gs = refl
fields_append ((k, v) ∷ fs) gs = rw (
  fields_append fs gs,
  append_assoc (key_bytes k) (v ++ fields_bytes fs) (fields_bytes gs),
  append_assoc v (fields_bytes fs) (fields_bytes gs),
)

module _ {A : Type 0} (P : A → Type 0) where
  pub All-append : (xs ys : List A) → All P xs → All P ys → All P (xs ++ ys)
  All-append [] ys p q = q
  All-append (x ∷ xs) ys (p, ps) q = (p, All-append xs ys ps q)

  pub All-split : (xs ys : List A) → All P (xs ++ ys) → All P xs × All P ys
  All-split [] ys q = (tt, q)
  All-split (x ∷ xs) ys (p, q) = let (ps, r) = All-split xs ys q in ((p, ps), r)
