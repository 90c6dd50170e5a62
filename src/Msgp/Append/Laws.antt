-- ===== src/Msgp/Append/Laws.antt =====
-- msgp/write_bytes.go: the appends against the formats of Append/Format.
use truepack.Prelude.{
  ℕ, ◌^◌, ◌≤◌, ◌<◌, ◌≡◌, refl, inl, inr, Bool, true, false, some, [], ◌∷◌, ◌++◌, arith, leb,
  if◌then◌else◌, ◌>>=◌, leb→le, Bool-cases, length, take, drop, slice_from, length-drop,
}
use truepack.Msgp.Append.{
  to16, to32, append_map_header, append_array_header, append_nil, append_float64, append_float32,
  append_int64, append_int, append_int8, append_int16, append_int32, append_uint64, append_uint,
  append_uint8, append_byte, append_uint16, append_uint32, append_bytes, append_bool, append_string,
  append_string_from_bytes, append_complex64, append_complex128, append_time,
}
use truepack.Msgp.Append.Format.{
  map_header, array_header, str_header, bin_header, bool_bytes, complex64_bytes, complex128_bytes,
  time_bytes,
}
use truepack.Msgp.Integers.{
  byte, be16, be32, be64, put_all, put_mint64, put_mint32, put_mint16, put_mint8, put_muint64,
  put_muint32, put_muint16, put_muint8, put_unix, prefixu8, prefixu16, prefixu32, prefixu64,
}
use truepack.Msgp.Integers.Laws.{put_all_fits}
use truepack.Msgp.Slice.{Slice, go_append, ensure, append_with, Appends}
use truepack.Msgp.Slice.Laws.{
  ensure_room, store_behind, put_all_exact, append_with_all, append_prefixed_all,
}
use truepack.Msgp.Wire.{
  mnil, mfalse, mtrue, mext8, mfloat32, mfloat64, muint8, muint16, muint32, muint64, mint8, mint16,
  mint32, mint64, time_extension, Bytes,
}
use truepack.Msgp.Wire.Tables.{wfixmap_sum, wfixarray_sum, wfixstr_sum}

pub go_append-Appends : (b : Slice) (vs : Bytes) → Appends b vs (some (go_append b vs))
unfolding go_append
go_append-Appends b vs = (go_append b vs, refl, refl)

pub byte_small : (x : ℕ) → x ≤ 255 → byte x ≡ x
byte_small x h = omega arith

pub to16_small : (x : ℕ) → x ≤ 65535 → to16 x ≡ x
to16_small x h = omega arith

pub to32_small : (x : ℕ) → x < 2 ^ 32 → to32 x ≡ x
to32_small x h = omega arith

-- The test of a `switch` case, as an order.
module _ (x n : ℕ) where
  pub case_le : leb x n ≡ true → x ≤ n
  case_le e = leb→le x n e

  case_gt : leb x n ≡ false → n < x
  case_gt e = ground (arith, e)

pub append_map_header-Appends :
    (b : Slice) (sz : ℕ) → Appends b (map_header sz) (append_map_header b sz)
unfolding append_map_header map_header prefixu16 prefixu32
append_map_header-Appends b sz = elim (Bool-cases (leb sz 15)) [
  | inl e ↦
      let small = case_le sz 15 e in
      rw (e, byte_small sz (omega arith), wfixmap_sum sz (omega arith)) (go_append-Appends b _)
  | inr e ↦ elim (Bool-cases (leb sz 65535)) [
    | inl f ↦ rw (e, f, to16_small sz (case_le sz 65535 f)) (append_with_all b 3 _ refl)
    | inr f ↦ rw (e, f) (append_with_all b 5 _ refl)
  ]
]

pub append_array_header-Appends :
    (b : Slice) (sz : ℕ) → Appends b (array_header sz) (append_array_header b sz)
unfolding append_array_header array_header prefixu16 prefixu32
append_array_header-Appends b sz = elim (Bool-cases (leb sz 15)) [
  | inl e ↦
      let small = case_le sz 15 e in
      rw (e, byte_small sz (omega arith), wfixarray_sum sz (omega arith)) (go_append-Appends b _)
  | inr e ↦ elim (Bool-cases (leb sz 65535)) [
    | inl f ↦ rw (e, f, to16_small sz (case_le sz 65535 f)) (append_with_all b 3 _ refl)
    | inr f ↦ rw (e, f) (append_with_all b 5 _ refl)
  ]
]

pub append_bytes-Appends :
    (b : Slice) (bts : Bytes)
    → length bts < 2 ^ 32
    → Appends b (bin_header (length bts) ++ bts) (append_bytes b bts)
unfolding append_bytes bin_header prefixu8 prefixu16 prefixu32
append_bytes-Appends b bts h = elim (Bool-cases (leb (length bts) 255)) [
  | inl e ↦
      let same = byte_small (length bts) (case_le (length bts) 255 e) in
      rw (e, same, same) (append_prefixed_all b 2 _ bts refl)
  | inr e ↦ elim (Bool-cases (leb (length bts) 65535)) [
    | inl f ↦
        rw (e, f, to16_small (length bts) (case_le (length bts) 65535 f))
          (append_prefixed_all b 3 _ bts refl)
    | inr f ↦ rw (e, f, to32_small (length bts) h) (append_prefixed_all b 5 _ bts refl)
  ]
]

pub append_string-Appends :
    (b : Slice) (s : Bytes)
    → length s < 2 ^ 32
    → Appends b (str_header (length s) ++ s) (append_string b s)
unfolding append_string str_header prefixu8 prefixu16 prefixu32
append_string-Appends b s h = elim (Bool-cases (leb (length s) 31)) [
  | inl d ↦
      let small = case_le (length s) 31 d in
      rw (d, byte_small (length s) (omega arith), wfixstr_sum (length s) (omega arith))
        (append_prefixed_all b 1 _ s refl)
  | inr d ↦ elim (Bool-cases (leb (length s) 255)) [
    | inl e ↦
        let same = byte_small (length s) (case_le (length s) 255 e) in
        rw (d, e, same, same) (append_prefixed_all b 2 _ s refl)
    | inr e ↦ elim (Bool-cases (leb (length s) 65535)) [
      | inl f ↦
          rw (d, e, f, to16_small (length s) (case_le (length s) 65535 f))
            (append_prefixed_all b 3 _ s refl)
      | inr f ↦ rw (d, e, f, to32_small (length s) h) (append_prefixed_all b 5 _ s refl)
    ]
  ]
]

-- The two functions have one body.
pub append_string_from_bytes-eq :
    (b : Slice) (s : Bytes) → append_string_from_bytes b s ≡ append_string b s
unfolding append_string_from_bytes append_string
append_string_from_bytes-eq b s = refl

-- A time is stored in two parts behind its three prefix bytes; together they fill the room.
pub append_time-Appends :
    (b : Slice) (sec nsec : ℕ) → Appends b (time_bytes sec nsec) (append_time b sec nsec)
unfolding append_time append_with put_unix
append_time-Appends b sec nsec =
    let (tail, v, l, n, _) = ensure_room b 15 in
    store_behind (ensure b 15).0 b.visible tail (time_bytes sec nsec) (ensure b 15).1 _ v n
      (store_time tail l)
  where
    store_time :
        (tail : Bytes)
        → length tail ≡ 15
        → (put_all (mext8 ∷ 12 ∷ time_extension ∷ []) tail >>= λ t'. slice_from t' 3 >>= λ rest.
            put_all (be64 sec ++ be32 nsec) rest >>= λ rest'. some (take 3 t' ++ rest'))
          ≡ some (time_bytes sec nsec)
    store_time tail l = rw (
      put_all_fits (mext8 ∷ 12 ∷ time_extension ∷ []) tail (omega arith),
      put_all_exact (be64 sec ++ be32 nsec) (drop 3 tail) (omega (arith, length-drop 3 tail)),
    )

-- The formats of fixed length, one for each function, in one statement: nothing else is written.
pub append_fixed-Appends :
    (b : Slice) (x y : ℕ) (t : Bool)
    → Appends b (mnil ∷ []) (append_nil b)
      × Appends b (bool_bytes t) (append_bool b t)
      × Appends b (mfloat32 ∷ be32 x) (append_float32 b x)
      × Appends b (mfloat64 ∷ be64 x) (append_float64 b x)
      × Appends b (complex64_bytes x y) (append_complex64 b x y)
      × Appends b (complex128_bytes x y) (append_complex128 b x y)
unfolding append_nil append_bool bool_bytes append_float32 append_float64 append_complex64
    append_complex128 prefixu32 prefixu64
append_fixed-Appends b x y t = (
  go_append-Appends b _,
  bool_case t,
  append_with_all b 5 _ refl,
  append_with_all b 9 _ refl,
  append_with_all b 10 _ refl,
  append_with_all b 18 _ refl,
)
  where
    bool_case :
        (t : Bool)
        → Appends b
            (if t then mtrue ∷ [] else mfalse ∷ [])
            (if t then some (go_append b (mtrue ∷ [])) else some (go_append b (mfalse ∷ [])))
    bool_case true = go_append-Appends b _
    bool_case false = go_append-Appends b _

-- Every integer is written with the prefix of its own Go type, whatever its value.
pub append_integer-Appends :
    (b : Slice) (x : ℕ)
    → Appends b (mint8 ∷ byte x ∷ []) (append_int8 b x)
      × Appends b (mint16 ∷ be16 x) (append_int16 b x)
      × Appends b (mint32 ∷ be32 x) (append_int32 b x)
      × Appends b (mint64 ∷ be64 x) (append_int64 b x)
      × Appends b (mint64 ∷ be64 x) (append_int b x)
      × Appends b (muint8 ∷ byte x ∷ []) (append_uint8 b x)
      × Appends b (muint8 ∷ byte x ∷ []) (append_byte b x)
      × Appends b (muint16 ∷ be16 x) (append_uint16 b x)
      × Appends b (muint32 ∷ be32 x) (append_uint32 b x)
      × Appends b (muint64 ∷ be64 x) (append_uint64 b x)
      × Appends b (muint64 ∷ be64 x) (append_uint b x)
unfolding append_int8 append_int16 append_int32 append_int64 append_int append_uint8 append_byte
    append_uint16 append_uint32 append_uint64 append_uint put_mint8 put_mint16 put_mint32 put_mint64
    put_muint8 put_muint16 put_muint32 put_muint64
append_integer-Appends b x = (
  append_with_all b 2 _ refl,
  append_with_all b 3 _ refl,
  append_with_all b 5 _ refl,
  append_with_all b 9 _ refl,
  append_with_all b 9 _ refl,
  append_with_all b 2 _ refl,
  append_with_all b 2 _ refl,
  append_with_all b 3 _ refl,
  append_with_all b 5 _ refl,
  append_with_all b 9 _ refl,
  append_with_all b 9 _ refl,
)
