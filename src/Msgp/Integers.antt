-- ===== src/Msgp/Integers.antt =====
-- msgp/integers.go: integers and prefixes in big-endian order. An intN or uintN is its bit
-- pattern, a number below 2 ^ N, so a conversion between the two keeps the number. An index out
-- of range panics. The parts of encoding/binary's BigEndian that the package calls are here too.
pub mod Laws
use truepack.Prelude.{
  ℕ, ◌*◌, ◌/◌, ◌%◌, ◌^◌, bit_or, Option, none, some, [], ◌∷◌, ◌++◌, ◌>>=◌, get_elem?, slice_from,
}
use truepack.Msgp.Wire.{muint8, muint16, muint32, muint64, mint8, mint16, mint32, mint64, Bytes}

-- `byte(x)`.
abbrev pub byte : ℕ → ℕ
byte x = x % 2 ^ 8

-- The big-endian bytes `byte(x >> 8)`, `byte(x)` and so on that the functions below store.
abbrev pub be16 : ℕ → Bytes
be16 x = byte (x / 2 ^ 8) ∷ byte x ∷ []

abbrev pub be32 : ℕ → Bytes
be32 x = byte (x / 2 ^ 24) ∷ byte (x / 2 ^ 16) ∷ be16 x

abbrev pub be64 : ℕ → Bytes
be64 x = byte (x / 2 ^ 56) ∷ byte (x / 2 ^ 48) ∷ byte (x / 2 ^ 40) ∷ byte (x / 2 ^ 32) ∷ be32 x

-- `b[0] = v0; b[1] = v1; …`
unfoldable pub put_all : Bytes → Bytes → Option Bytes
put_all [] b = some b
put_all (v ∷ vs) [] = none
put_all (v ∷ vs) (x ∷ b) = put_all vs b >>= λ rest. some (v ∷ rest)

-- A byte shifted left inside the width of its type does not wrap.
unfoldable pub join16 : ℕ → ℕ → ℕ
join16 h l = bit_or (h * 2 ^ 8) l

unfoldable pub join32 : ℕ → ℕ → ℕ → ℕ → ℕ
join32 a b c d = bit_or (bit_or (bit_or (a * 2 ^ 24) (b * 2 ^ 16)) (c * 2 ^ 8)) d

unfoldable pub join64 : (a b c d e f g h : ℕ) → ℕ
join64 a b c d e f g h =
    let hi = bit_or (bit_or (bit_or (a * 2 ^ 56) (b * 2 ^ 48)) (c * 2 ^ 40)) (d * 2 ^ 32) in
    bit_or (bit_or (bit_or (bit_or hi (e * 2 ^ 24)) (f * 2 ^ 16)) (g * 2 ^ 8)) h

-- BigEndian.Uint16, Uint32 and Uint64.
unfoldable pub be_uint16 : Bytes → Option ℕ
be_uint16 (h ∷ l ∷ _) = some (join16 h l)
be_uint16 _ = none

unfoldable pub be_uint32 : Bytes → Option ℕ
be_uint32 (a ∷ b ∷ c ∷ d ∷ _) = some (join32 a b c d)
be_uint32 _ = none

unfoldable pub be_uint64 : Bytes → Option ℕ
be_uint64 (a ∷ b ∷ c ∷ d ∷ e ∷ f ∷ g ∷ h ∷ _) = some (join64 a b c d e f g h)
be_uint64 _ = none

-- The getters skip the prefix `b[0]` and read the bytes from `b[1]` on.
unfoldable pub get_mint64 : Bytes → Option ℕ
unfolding be_uint64
get_mint64 [] = none
get_mint64 (_ ∷ b) = be_uint64 b

unfoldable pub get_mint32 : Bytes → Option ℕ
unfolding be_uint32
get_mint32 [] = none
get_mint32 (_ ∷ b) = be_uint32 b

unfoldable pub get_mint16 : Bytes → Option ℕ
unfolding be_uint16
get_mint16 [] = none
get_mint16 (_ ∷ b) = be_uint16 b

unfoldable pub get_mint8 : Bytes → Option ℕ
get_mint8 b = get_elem? b 1

unfoldable pub get_muint64 : Bytes → Option ℕ
unfolding be_uint64
get_muint64 [] = none
get_muint64 (_ ∷ b) = be_uint64 b

unfoldable pub get_muint32 : Bytes → Option ℕ
unfolding be_uint32
get_muint32 [] = none
get_muint32 (_ ∷ b) = be_uint32 b

unfoldable pub get_muint16 : Bytes → Option ℕ
unfolding be_uint16
get_muint16 [] = none
get_muint16 (_ ∷ b) = be_uint16 b

unfoldable pub get_muint8 : Bytes → Option ℕ
get_muint8 b = get_elem? b 1

unfoldable pub put_mint64 : Bytes → ℕ → Option Bytes
put_mint64 b i = put_all (mint64 ∷ be64 i) b

unfoldable pub put_mint32 : Bytes → ℕ → Option Bytes
put_mint32 b i = put_all (mint32 ∷ be32 i) b

unfoldable pub put_mint16 : Bytes → ℕ → Option Bytes
put_mint16 b i = put_all (mint16 ∷ be16 i) b

unfoldable pub put_mint8 : Bytes → ℕ → Option Bytes
put_mint8 b i = put_all (mint8 ∷ byte i ∷ []) b

unfoldable pub put_muint64 : Bytes → ℕ → Option Bytes
put_muint64 b u = put_all (muint64 ∷ be64 u) b

unfoldable pub put_muint32 : Bytes → ℕ → Option Bytes
put_muint32 b u = put_all (muint32 ∷ be32 u) b

unfoldable pub put_muint16 : Bytes → ℕ → Option Bytes
put_muint16 b u = put_all (muint16 ∷ be16 u) b

unfoldable pub put_muint8 : Bytes → ℕ → Option Bytes
put_muint8 b u = put_all (muint8 ∷ byte u ∷ []) b

-- The seconds and the nanoseconds.
unfoldable pub get_unix : Bytes → Option (ℕ × ℕ)
get_unix b = do sec ← be_uint64 b; tail ← slice_from b 8; nsec ← be_uint32 tail; some (sec, nsec)

unfoldable pub put_unix : Bytes → ℕ → ℕ → Option Bytes
put_unix b sec nsec = put_all (be64 sec ++ be32 nsec) b

unfoldable pub prefixu8 : Bytes → ℕ → ℕ → Option Bytes
prefixu8 b pre sz = put_all (pre ∷ byte sz ∷ []) b

unfoldable pub prefixu16 : Bytes → ℕ → ℕ → Option Bytes
prefixu16 b pre sz = put_all (pre ∷ be16 sz) b

unfoldable pub prefixu32 : Bytes → ℕ → ℕ → Option Bytes
prefixu32 b pre sz = put_all (pre ∷ be32 sz) b

unfoldable pub prefixu64 : Bytes → ℕ → ℕ → Option Bytes
prefixu64 b pre sz = put_all (pre ∷ be64 sz) b
