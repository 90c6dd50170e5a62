-- ===== src/Msgp/RoundTrip/Formats.antt =====
-- msgp/read_bytes.go: ReadUint64Bytes and ReadInt64Bytes on each of the integer formats.
use truepack.Prelude.{ℕ, ◌^◌, ◌<◌, ◌≡◌, refl, ap, Option, some, ◌∷◌, ◌++◌, arith, ◌>>=◌}
use truepack.Msgp.Integers.{
  byte, be16, be32, be64, get_mint64, get_mint32, get_mint16, get_mint8, get_muint64, get_muint32,
  get_muint16, get_muint8,
}
use truepack.Msgp.Integers.Laws.{be_uint16-be16, be_uint32-be32, be_uint64-be64}
use truepack.Msgp.Read.{sign_extend, exceeds, int64_body, narrow_int, ok, uint64_body, narrow_uint}
use truepack.Msgp.RoundTrip.Rules.{field-eq}
use truepack.Msgp.Wire.{
  muint8, muint16, muint32, muint64, mint8, mint16, mint32, mint64, Bytes, isfixint, isnfixint,
}

module _ (rest : Bytes) (x : ℕ) where
  pub uint64_body-muint8 : x < 2 ^ 8 → uint64_body (muint8 ∷ byte x ∷ rest) ≡ ok x rest
  unfolding uint64_body isfixint get_muint8
  uint64_body-muint8 h =
      field-eq _ (muint8 ∷ byte x ∷ rest) 2 x 0 rest (omega arith) (ap some (omega arith)) refl

  pub uint64_body-muint16 : x < 2 ^ 16 → uint64_body (muint16 ∷ (be16 x ++ rest)) ≡ ok x rest
  unfolding uint64_body isfixint get_muint16
  uint64_body-muint16 h =
      field-eq _ (muint16 ∷ (be16 x ++ rest)) 3 x 0 rest (omega arith) (be_uint16-be16 x rest h)
        refl

  pub uint64_body-muint32 : x < 2 ^ 32 → uint64_body (muint32 ∷ (be32 x ++ rest)) ≡ ok x rest
  unfolding uint64_body isfixint get_muint32
  uint64_body-muint32 h =
      field-eq _ (muint32 ∷ (be32 x ++ rest)) 5 x 0 rest (omega arith) (be_uint32-be32 x rest h)
        refl

  pub uint64_body-muint64 : x < 2 ^ 64 → uint64_body (muint64 ∷ (be64 x ++ rest)) ≡ ok x rest
  unfolding uint64_body isfixint get_muint64
  uint64_body-muint64 h =
      field-eq _ (muint64 ∷ (be64 x ++ rest)) 9 x 0 rest (omega arith) (be_uint64-be64 x rest h)
        refl

  pub int64_body-mint8 : x < 2 ^ 8 → int64_body (mint8 ∷ byte x ∷ rest) ≡ ok (sign_extend 8 x) rest
  unfolding int64_body isfixint isnfixint get_mint8
  int64_body-mint8 h =
      let same : byte x ≡ x = omega arith in
      field-eq _ (mint8 ∷ byte x ∷ rest) 2 (sign_extend 8 x) 0 rest (omega arith) (rw same) refl

  pub int64_body-mint16 :
      x < 2 ^ 16 → int64_body (mint16 ∷ (be16 x ++ rest)) ≡ ok (sign_extend 16 x) rest
  unfolding int64_body isfixint isnfixint get_mint16
  int64_body-mint16 h =
      field-eq _ (mint16 ∷ (be16 x ++ rest)) 3 (sign_extend 16 x) 0 rest (omega arith)
        (ap (λ (o : Option ℕ). o >>= λ i. some (sign_extend 16 i)) (be_uint16-be16 x rest h)) refl

  pub int64_body-mint32 :
      x < 2 ^ 32 → int64_body (mint32 ∷ (be32 x ++ rest)) ≡ ok (sign_extend 32 x) rest
  unfolding int64_body isfixint isnfixint get_mint32
  int64_body-mint32 h =
      field-eq _ (mint32 ∷ (be32 x ++ rest)) 5 (sign_extend 32 x) 0 rest (omega arith)
        (ap (λ (o : Option ℕ). o >>= λ i. some (sign_extend 32 i)) (be_uint32-be32 x rest h)) refl

  pub int64_body-mint64 : x < 2 ^ 64 → int64_body (mint64 ∷ (be64 x ++ rest)) ≡ ok x rest
  unfolding int64_body isfixint isnfixint get_mint64
  int64_body-mint64 h =
      field-eq _ (mint64 ∷ (be64 x ++ rest)) 9 x 0 rest (omega arith) (be_uint64-be64 x rest h) refl

-- A sign extension of `w` bits fits `w` bits, and cutting it gives the bits back.
pub narrow_int-sign_extend8 :
    (x : ℕ) (rest : Bytes) → x < 2 ^ 8 → narrow_int 8 (ok (sign_extend 8 x) rest) ≡ ok x rest
unfolding narrow_int sign_extend exceeds
narrow_int-sign_extend8 x rest h = ground arith

pub narrow_int-sign_extend16 :
    (x : ℕ) (rest : Bytes) → x < 2 ^ 16 → narrow_int 16 (ok (sign_extend 16 x) rest) ≡ ok x rest
unfolding narrow_int sign_extend exceeds
narrow_int-sign_extend16 x rest h = ground arith

pub narrow_int-sign_extend32 :
    (x : ℕ) (rest : Bytes) → x < 2 ^ 32 → narrow_int 32 (ok (sign_extend 32 x) rest) ≡ ok x rest
unfolding narrow_int sign_extend exceeds
narrow_int-sign_extend32 x rest h = ground arith

pub narrow_uint8 : (x : ℕ) (rest : Bytes) → x < 2 ^ 8 → narrow_uint 8 (ok x rest) ≡ ok x rest
unfolding narrow_uint
narrow_uint8 x rest h = ground arith

pub narrow_uint16 : (x : ℕ) (rest : Bytes) → x < 2 ^ 16 → narrow_uint 16 (ok x rest) ≡ ok x rest
unfolding narrow_uint
narrow_uint16 x rest h = ground arith

pub narrow_uint32 : (x : ℕ) (rest : Bytes) → x < 2 ^ 32 → narrow_uint 32 (ok x rest) ≡ ok x rest
unfolding narrow_uint
narrow_uint32 x rest h = ground arith
