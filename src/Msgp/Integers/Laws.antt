-- ===== src/Msgp/Integers/Laws.antt =====
-- msgp/integers.go: the big-endian loads on what the stores write.
use truepack.Prelude.{
  ℕ, ◌+◌, ◌*◌, ◌/◌, ◌^◌, ◌≤◌, ◌<◌, bit_or, ◌≡◌, refl, ap, some, [], ◌∷◌, ◌++◌, arith, length, drop,
}
use truepack.Prelude.Bits.{bit_or_shifted}
use truepack.Msgp.Integers.{
  byte, be16, be32, be64, put_all, join16, join32, join64, be_uint16, be_uint32, be_uint64,
}
use truepack.Msgp.Wire.{Bytes}

bit_or_multiple : (k q a r : ℕ) → a ≡ q * 2 ^ k → r < 2 ^ k → bit_or a r ≡ a + r
bit_or_multiple k q a r e h = rw e (bit_or_shifted k q r h)

pub join16_sum : (h l : ℕ) → l < 256 → join16 h l ≡ h * 256 + l
unfolding join16
join16_sum h l p = bit_or_shifted 8 h l p

pub join32_sum :
    (a b c d : ℕ)
    → b < 256
    → c < 256
    → d < 256
    → join32 a b c d ≡ ((a * 256 + b) * 256 + c) * 256 + d
unfolding join32
join32_sum a b c d hb hc hd =
    rw
      (
        bit_or_multiple 24 a (a * 2 ^ 24) (b * 2 ^ 16) refl (omega arith),
        bit_or_multiple 16 (a * 256 + b) (a * 2 ^ 24 + b * 2 ^ 16) (c * 2 ^ 8) (omega arith)
            (omega arith),
        bit_or_multiple 8 ((a * 256 + b) * 256 + c) (a * 2 ^ 24 + b * 2 ^ 16 + c * 2 ^ 8) d
            (omega arith) hd,
      )
      (omega arith)

-- The or of a high half that is a multiple of 2 ^ 32 with four lower bytes.
join_low :
    (q hi e f g h : ℕ)
    → hi ≡ q * 2 ^ 32
    → e < 256
    → f < 256
    → g < 256
    → h < 256
    → bit_or (bit_or (bit_or (bit_or hi (e * 2 ^ 24)) (f * 2 ^ 16)) (g * 2 ^ 8)) h
      ≡ hi + (((e * 256 + f) * 256 + g) * 256 + h)
join_low q hi e f g h eq he hf hg hh =
    rw
      (
        bit_or_multiple 32 q hi (e * 2 ^ 24) eq (omega arith),
        bit_or_multiple 24 (q * 256 + e) (hi + e * 2 ^ 24) (f * 2 ^ 16) (omega arith) (omega arith),
        bit_or_multiple 16 ((q * 256 + e) * 256 + f) (hi + e * 2 ^ 24 + f * 2 ^ 16) (g * 2 ^ 8)
            (omega arith) (omega arith),
        bit_or_multiple 8 (((q * 256 + e) * 256 + f) * 256 + g)
            (hi + e * 2 ^ 24 + f * 2 ^ 16 + g * 2 ^ 8) h (omega arith) hh,
      )
      (omega arith)

join_high :
    (a b c d : ℕ)
    → b < 256
    → c < 256
    → d < 256
    → bit_or (bit_or (bit_or (a * 2 ^ 56) (b * 2 ^ 48)) (c * 2 ^ 40)) (d * 2 ^ 32)
      ≡ (((a * 256 + b) * 256 + c) * 256 + d) * 2 ^ 32
join_high a b c d hb hc hd =
    rw
      (
        bit_or_multiple 56 a (a * 2 ^ 56) (b * 2 ^ 48) refl (omega arith),
        bit_or_multiple 48 (a * 256 + b) (a * 2 ^ 56 + b * 2 ^ 48) (c * 2 ^ 40) (omega arith)
            (omega arith),
        bit_or_multiple 40 ((a * 256 + b) * 256 + c) (a * 2 ^ 56 + b * 2 ^ 48 + c * 2 ^ 40)
            (d * 2 ^ 32) (omega arith) (omega arith),
      )
      (omega arith)

pub join64_sum :
    (a b c d e f g h : ℕ)
    → b < 256
    → c < 256
    → d < 256
    → e < 256
    → f < 256
    → g < 256
    → h < 256
    → join64 a b c d e f g h
      ≡ (((a * 256 + b) * 256 + c) * 256 + d) * 2 ^ 32 + (((e * 256 + f) * 256 + g) * 256 + h)
unfolding join64
join64_sum a b c d e f g h hb hc hd he hf hg hh =
    rw (join_high a b c d hb hc hd)
      (join_low (((a * 256 + b) * 256 + c) * 256 + d) _ e f g h refl he hf hg hh)

pub be_uint16-be16 : (u : ℕ) (rest : Bytes) → u < 2 ^ 16 → be_uint16 (be16 u ++ rest) ≡ some u
unfolding be_uint16
be_uint16-be16 u rest h =
    ap some (rw (join16_sum (byte (u / 2 ^ 8)) (byte u) (omega arith)) (omega arith))

pub be_uint32-be32 : (u : ℕ) (rest : Bytes) → u < 2 ^ 32 → be_uint32 (be32 u ++ rest) ≡ some u
unfolding be_uint32
be_uint32-be32 u rest h = ap some (
    rw
      (join32_sum (byte (u / 2 ^ 24)) (byte (u / 2 ^ 16)) (byte (u / 2 ^ 8)) (byte u) (omega arith)
        (omega arith) (omega arith))
      (omega arith))

pub be_uint64-be64 : (u : ℕ) (rest : Bytes) → u < 2 ^ 64 → be_uint64 (be64 u ++ rest) ≡ some u
unfolding be_uint64
be_uint64-be64 u rest h = ap some (
    rw
      (join64_sum (byte (u / 2 ^ 56)) (byte (u / 2 ^ 48)) (byte (u / 2 ^ 40)) (byte (u / 2 ^ 32))
        (byte (u / 2 ^ 24)) (byte (u / 2 ^ 16)) (byte (u / 2 ^ 8)) (byte u) (omega arith)
        (omega arith) (omega arith) (omega arith) (omega arith) (omega arith) (omega arith))
      (omega arith))

-- A store within bounds does not panic, and replaces as many bytes as it stores.
pub put_all_fits :
    (vs b : Bytes) → length vs ≤ length b → put_all vs b ≡ some (vs ++ drop (length vs) b)
unfolding put_all
put_all_fits [] b h = refl
put_all_fits (v ∷ vs) [] h = absurd (omega arith)
put_all_fits (v ∷ vs) (x ∷ b) h = rw (put_all_fits vs b (omega arith))
