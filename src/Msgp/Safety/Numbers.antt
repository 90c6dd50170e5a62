-- ===== src/Msgp/Safety/Numbers.antt =====
-- msgp/read_bytes.go: the readers of headers, booleans, integers and floats on any input.
use truepack.Prelude.{
  ℕ, ◌-◌, ◌%◌, ◌^◌, ◌≡◌, refl, inl, inr, false, ◌&&◌, Option, some, [], ◌∷◌, arith, ltb, leb, ◌==◌,
  ◌>>=◌, Bool-cases, length,
}
use truepack.Msgp.Integers.{
  get_mint64, get_mint32, get_mint16, get_mint8, get_muint64, get_muint32, get_muint16, get_muint8,
}
use truepack.Msgp.Nilbits.{NilBitsStack}
use truepack.Msgp.Read.{
  exceeds, int64_body, read_int64_bytes, narrow_int, read_int32_bytes, read_int16_bytes,
  read_int8_bytes, read_int_bytes, Read, nil_guard, float64_of_float32, float32_body,
  read_float32_bytes, widened, float64_body, read_float64_bytes, map_header_body,
  read_map_header_bytes, array_header_body, read_array_header_bytes, bool_body, read_bool_bytes,
  uint64_body, read_uint64_bytes, narrow_uint, read_uint32_bytes, read_uint16_bytes,
  read_uint8_bytes, read_uint_bytes, read_byte_bytes,
}
use truepack.Msgp.Safety.Rules.{
  Safe, ok-Safe, fail-Safe, if-Safe, nil_guard-Safe, need-Safe, take_value-Safe, then-Safe,
  be_uint16_total, be_uint32_total, be_uint64_total, get_elem?_total,
}
use truepack.Msgp.Wire.{
  mfalse, mtrue, mfloat32, mfloat64, muint8, muint16, muint32, muint64, mint8, mint16, mint32,
  mint64, marray16, marray32, mmap16, mmap32, Bytes, isfixint, isnfixint, isfixmap, isfixarray,
}

some_of :
    (f : ℕ → ℕ) {x : Option ℕ}
    → (v : ℕ) × (x ≡ some v)
    → (v : ℕ) × ((x >>= λ i. some (f i)) ≡ some v)
some_of f (v, e) = (f v, rw e)

map_header_body-Safe : (b : Bytes) → Safe b (map_header_body b)
unfolding map_header_body
map_header_body-Safe [] = fail-Safe 0 [] _
map_header_body-Safe (lead ∷ t) =
    let b = lead ∷ t in
    if-Safe b (isfixmap lead) (ok-Safe _ b (lead ∷ []) t refl) (
      if-Safe b (lead == mmap16)
        (need-Safe b 3 0 _ (λ h. take_value-Safe _ b 3 (be_uint16_total t (omega arith)) h))
        (if-Safe b (lead == mmap32)
          (need-Safe b 5 0 _ (λ h. take_value-Safe _ b 5 (be_uint32_total t (omega arith)) h))
          (fail-Safe 0 b _)))

array_header_body-Safe : (b : Bytes) → Safe b (array_header_body b)
unfolding array_header_body
array_header_body-Safe [] = fail-Safe 0 [] _
array_header_body-Safe (lead ∷ t) =
    let b = lead ∷ t in
    if-Safe b (isfixarray lead) (ok-Safe _ b (lead ∷ []) t refl) (
      if-Safe b (lead == marray16)
        (need-Safe b 3 0 _ (λ h. take_value-Safe _ b 3 (be_uint16_total t (omega arith)) h))
        (if-Safe b (lead == marray32)
          (need-Safe b 5 0 _ (λ h. take_value-Safe _ b 5 (be_uint32_total t (omega arith)) h))
          (fail-Safe 0 b _)))

bool_body-Safe : (b : Bytes) → Safe b (bool_body b)
unfolding bool_body
bool_body-Safe [] = fail-Safe false [] _
bool_body-Safe (lead ∷ t) =
    let b = lead ∷ t in
    if-Safe b (lead == mtrue) (ok-Safe _ b (lead ∷ []) t refl) (
      if-Safe b (lead == mfalse) (ok-Safe _ b (lead ∷ []) t refl)
        ((false, b, some _, refl, ([], refl))))

uint64_body-Safe : (b : Bytes) → Safe b (uint64_body b)
unfolding uint64_body get_muint8 get_muint16 get_muint32 get_muint64
uint64_body-Safe [] = fail-Safe 0 [] _
uint64_body-Safe (lead ∷ t) =
    let b = lead ∷ t in
    if-Safe b (isfixint lead) (ok-Safe _ b (lead ∷ []) t refl) (
      if-Safe b (lead == muint8)
        (need-Safe b 2 0 _ (λ h. take_value-Safe _ b 2 (get_elem?_total b 1 (omega arith)) h))
        (if-Safe b (lead == muint16)
          (need-Safe b 3 0 _ (λ h. take_value-Safe _ b 3 (be_uint16_total t (omega arith)) h))
          (if-Safe b (lead == muint32)
            (need-Safe b 5 0 _ (λ h. take_value-Safe _ b 5 (be_uint32_total t (omega arith)) h))
            (if-Safe b (lead == muint64)
              (need-Safe b 9 0 _ (λ h. take_value-Safe _ b 9 (be_uint64_total t (omega arith)) h))
              (fail-Safe 0 b _)))))

int64_body-Safe : (b : Bytes) → Safe b (int64_body b)
unfolding int64_body get_mint8 get_mint16 get_mint32 get_mint64
int64_body-Safe [] = fail-Safe 0 [] _
int64_body-Safe (lead ∷ t) =
    let b = lead ∷ t in
    if-Safe b (isfixint lead) (ok-Safe _ b (lead ∷ []) t refl) (
      if-Safe b (isnfixint lead) (ok-Safe _ b (lead ∷ []) t refl) (
        if-Safe b (lead == mint8)
          (need-Safe b 2 0 _
            (λ h. take_value-Safe _ b 2 (some_of _ (get_elem?_total b 1 (omega arith))) h))
          (if-Safe b (lead == mint16)
            (need-Safe b 3 0 _
              (λ h. take_value-Safe _ b 3 (some_of _ (be_uint16_total t (omega arith))) h))
            (if-Safe b (lead == mint32)
              (need-Safe b 5 0 _
                (λ h. take_value-Safe _ b 5 (some_of _ (be_uint32_total t (omega arith))) h))
              (if-Safe b (lead == mint64)
                (need-Safe b 9 0 _ (λ h. take_value-Safe _ b 9 (be_uint64_total t (omega arith)) h))
                (fail-Safe 0 b _))))))

-- The narrowing of a safe read is safe.
narrow_int-Safe : (b : Bytes) (w : ℕ) (r : Read ℕ) → Safe b r → Safe b (narrow_int w r)
unfolding narrow_int
narrow_int-Safe b w r p = then-Safe b _ p (λ i o e q.
    if-Safe b (exceeds i (2 ^ (w - 1) - 1)) (0, o, some _, refl, q) (i % 2 ^ w, o, e, refl, q))

narrow_uint-Safe : (b : Bytes) (w : ℕ) (r : Read ℕ) → Safe b r → Safe b (narrow_uint w r)
unfolding narrow_uint
narrow_uint-Safe b w r p =
    then-Safe b _ p
      (λ v o e q. if-Safe b (ltb (2 ^ w - 1) v) (fail-Safe 0 b _) (v % 2 ^ w, o, e, refl, q))

float32_body-Safe : (b : Bytes) → Safe b (float32_body b)
unfolding float32_body get_muint32
float32_body-Safe [] = fail-Safe 0 [] _
float32_body-Safe (lead ∷ t) =
    let b = lead ∷ t in
    need-Safe b 5 0 _ (λ h.
      if-Safe b (lead == mfloat32) (take_value-Safe _ b 5 (be_uint32_total t (omega arith)) h)
        (fail-Safe 0 b _))

module _ (nbs : Option NilBitsStack) where
  float64_body-Safe : (b : Bytes) → Safe b (float64_body nbs b)
  unfolding float64_body widened read_float32_bytes get_muint64
  float64_body-Safe [] = fail-Safe 0 [] _
  float64_body-Safe (lead ∷ t) = elim (Bool-cases (ltb (length b) 9)) [
    | inl e ↦ rw e (if-Safe b (leb 5 (length b) && lead == mfloat32) narrow (fail-Safe 0 b _))
    | inr e ↦ rw e (
        if-Safe b (lead == mfloat64)
          (take_value-Safe _ b 9 (be_uint64_total t (ground (arith, e))) (ground (arith, e)))
          (if-Safe b (lead == mfloat32) narrow (fail-Safe 0 b _)))
  ]
    where
      b : Bytes
      b = lead ∷ t

      narrow : Safe b (widened (nil_guard nbs b 0 (float32_body b)))
      narrow =
          then-Safe b _ (nil_guard-Safe nbs b 0 _ (float32_body-Safe b))
            (λ v o e q. (float64_of_float32 v, o, e, refl, q))

  -- Whatever the bytes, each of these readers returns, and its rest is an end of them.
  pub read_number-Safe :
      (b : Bytes)
      → Safe b (read_map_header_bytes nbs b)
        × Safe b (read_array_header_bytes nbs b)
        × Safe b (read_bool_bytes nbs b)
        × Safe b (read_int64_bytes nbs b)
        × Safe b (read_int32_bytes nbs b)
        × Safe b (read_int16_bytes nbs b)
        × Safe b (read_int8_bytes nbs b)
        × Safe b (read_int_bytes nbs b)
        × Safe b (read_uint64_bytes nbs b)
        × Safe b (read_uint32_bytes nbs b)
        × Safe b (read_uint16_bytes nbs b)
        × Safe b (read_uint8_bytes nbs b)
        × Safe b (read_uint_bytes nbs b)
        × Safe b (read_byte_bytes nbs b)
        × Safe b (read_float32_bytes nbs b)
        × Safe b (read_float64_bytes nbs b)
  unfolding read_map_header_bytes read_array_header_bytes read_bool_bytes read_int64_bytes
      read_int32_bytes read_int16_bytes read_int8_bytes read_int_bytes read_uint64_bytes
      read_uint32_bytes read_uint16_bytes read_uint8_bytes read_uint_bytes read_byte_bytes
      read_float32_bytes read_float64_bytes
  read_number-Safe b = (
    nil_guard-Safe nbs b 0 _ (map_header_body-Safe b),
    nil_guard-Safe nbs b 0 _ (array_header_body-Safe b),
    nil_guard-Safe nbs b false _ (bool_body-Safe b),
    int64,
    nil_guard-Safe nbs b 0 _ (narrow_int-Safe b 32 _ int64),
    nil_guard-Safe nbs b 0 _ (narrow_int-Safe b 16 _ int64),
    nil_guard-Safe nbs b 0 _ (narrow_int-Safe b 8 _ int64),
    nil_guard-Safe nbs b 0 _ int64,
    uint64,
    nil_guard-Safe nbs b 0 _ (narrow_uint-Safe b 32 _ uint64),
    nil_guard-Safe nbs b 0 _ (narrow_uint-Safe b 16 _ uint64),
    uint8,
    nil_guard-Safe nbs b 0 _ uint64,
    nil_guard-Safe nbs b 0 _ uint8,
    nil_guard-Safe nbs b 0 _ (float32_body-Safe b),
    nil_guard-Safe nbs b 0 _ (float64_body-Safe b),
  )
    where
      int64 : Safe b (nil_guard nbs b 0 (int64_body b))
      int64 = nil_guard-Safe nbs b 0 _ (int64_body-Safe b)

      uint64 : Safe b (nil_guard nbs b 0 (uint64_body b))
      uint64 = nil_guard-Safe nbs b 0 _ (uint64_body-Safe b)

      uint8 : Safe b (nil_guard nbs b 0 (narrow_uint 8 (nil_guard nbs b 0 (uint64_body b))))
      uint8 = nil_guard-Safe nbs b 0 _ (narrow_uint-Safe b 8 _ uint64)
