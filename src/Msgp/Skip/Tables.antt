-- ===== src/Msgp/Skip/Tables.antt =====
-- msgp/elsize.go: the sizes that getSize relies on, from a table of the 256 entries.
use truepack.Prelude.{
  ℕ, ◌≤◌, ◌≡◌, refl, inl, inr, Bool, true, arith, ltb, leb, le→ltb, le→leb, Bool-cases,
}
use truepack.Prelude.Bits.{table, table_sound}
use truepack.Msgp.Wire.{
  mnfixint, sizes, elements, extra8, extra16, extra32, map16v, map32v, array16v, array32v, ByteSpec,
}

-- The bytes that getSize reads for the mode lie within the size that it has tested.
unfoldable pub is_wide : ByteSpec → Bool
is_wide s = elim s.extra [
  | elements n ↦ true
  | extra8 ↦ leb 2 s.size
  | extra16 ↦ leb 3 s.size
  | extra32 ↦ leb 5 s.size
  | map16v ↦ leb 3 s.size
  | map32v ↦ leb 5 s.size
  | array16v ↦ leb 3 s.size
  | array32v ↦ leb 5 s.size
]

-- A number from 256 on is no byte; the model's table takes it for the last one.
wide_above : (b : ℕ) → 256 ≤ b → is_wide (sizes b) ≡ true
unfolding is_wide sizes
wide_above b h = rw (le→ltb b 128 (omega arith), le→leb mnfixint b (omega arith)) refl

pub sizes-is_wide : (b : ℕ) → is_wide (sizes b) ≡ true
unfolding is_wide table sizes
sizes-is_wide b = elim (Bool-cases (ltb b 256)) [
  | inl e ↦ table_sound 256 (λ x. is_wide (sizes x)) b refl (ground (arith, e))
  | inr e ↦ wide_above b (ground (arith, e))
]
