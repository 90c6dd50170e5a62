-- ===== src/Msgp/Stream/Prefix.antt =====
-- msgp/integers.go: what the getters find in a slice is in the bytes that they read: the Reader takes
-- these alone from the stream.
use truepack.Prelude.{ℕ, zero, suc, ◌≤◌, ◌<◌, ◌≡◌, refl, [], ◌∷◌, arith, take, get_elem?}
use truepack.Msgp.Integers.{
  be_uint16, be_uint32, be_uint64, get_mint64, get_mint32, get_mint16, get_muint64, get_muint32,
  get_muint16, get_unix,
}
use truepack.Msgp.Wire.{Bytes}

pub be_uint16-take : (n : ℕ) (b : Bytes) → 2 ≤ n → be_uint16 (take n b) ≡ be_uint16 b
unfolding be_uint16
be_uint16-take zero b p = absurd (omega arith)
be_uint16-take (suc zero) b p = absurd (omega arith)
be_uint16-take (suc (suc n)) [] p = refl
be_uint16-take (suc (suc n)) (a ∷ []) p = refl
be_uint16-take (suc (suc n)) (a ∷ b ∷ _) p = refl

pub be_uint32-take : (n : ℕ) (b : Bytes) → 4 ≤ n → be_uint32 (take n b) ≡ be_uint32 b
unfolding be_uint32
be_uint32-take zero b p = absurd (omega arith)
be_uint32-take (suc zero) b p = absurd (omega arith)
be_uint32-take (suc (suc zero)) b p = absurd (omega arith)
be_uint32-take (suc (suc (suc zero))) b p = absurd (omega arith)
be_uint32-take (suc (suc (suc (suc n)))) [] p = refl
be_uint32-take (suc (suc (suc (suc n)))) (a ∷ []) p = refl
be_uint32-take (suc (suc (suc (suc n)))) (a ∷ b ∷ []) p = refl
be_uint32-take (suc (suc (suc (suc n)))) (a ∷ b ∷ c ∷ []) p = refl
be_uint32-take (suc (suc (suc (suc n)))) (a ∷ b ∷ c ∷ d ∷ _) p = refl

pub be_uint64-take : (n : ℕ) (b : Bytes) → 8 ≤ n → be_uint64 (take n b) ≡ be_uint64 b
unfolding be_uint64
be_uint64-take zero b p = absurd (omega arith)
be_uint64-take (suc zero) b p = absurd (omega arith)
be_uint64-take (suc (suc zero)) b p = absurd (omega arith)
be_uint64-take (suc (suc (suc zero))) b p = absurd (omega arith)
be_uint64-take (suc (suc (suc (suc zero)))) b p = absurd (omega arith)
be_uint64-take (suc (suc (suc (suc (suc zero))))) b p = absurd (omega arith)
be_uint64-take (suc (suc (suc (suc (suc (suc zero)))))) b p = absurd (omega arith)
be_uint64-take (suc (suc (suc (suc (suc (suc (suc zero))))))) b p = absurd (omega arith)
be_uint64-take (suc (suc (suc (suc (suc (suc (suc (suc n)))))))) [] p = refl
be_uint64-take (suc (suc (suc (suc (suc (suc (suc (suc n)))))))) (a ∷ []) p = refl
be_uint64-take (suc (suc (suc (suc (suc (suc (suc (suc n)))))))) (a ∷ b ∷ []) p = refl
be_uint64-take (suc (suc (suc (suc (suc (suc (suc (suc n)))))))) (a ∷ b ∷ c ∷ []) p = refl
be_uint64-take (suc (suc (suc (suc (suc (suc (suc (suc n)))))))) (a ∷ b ∷ c ∷ d ∷ []) p = refl
be_uint64-take (suc (suc (suc (suc (suc (suc (suc (suc n)))))))) (a ∷ b ∷ c ∷ d ∷ e ∷ []) p = refl
be_uint64-take (suc (suc (suc (suc (suc (suc (suc (suc n)))))))) (a ∷ b ∷ c ∷ d ∷ e ∷ f ∷ []) p =
    refl
be_uint64-take (suc (suc (suc (suc (suc (suc (suc (suc n)))))))) (a ∷ b ∷ c ∷ d ∷ e ∷ f ∷ g ∷ [])
      p =
    refl
be_uint64-take (suc (suc (suc (suc (suc (suc (suc (suc n)))))))) (a ∷ b ∷ c ∷ d ∷ e ∷ f ∷ g ∷ h ∷ _)
      p =
    refl

pub get_mint64-take : (b : Bytes) → get_mint64 (take 9 b) ≡ get_mint64 b
unfolding get_mint64
get_mint64-take [] = refl
get_mint64-take (x ∷ b) = be_uint64-take 8 b (omega arith)

pub get_mint32-take : (b : Bytes) → get_mint32 (take 5 b) ≡ get_mint32 b
unfolding get_mint32
get_mint32-take [] = refl
get_mint32-take (x ∷ b) = be_uint32-take 4 b (omega arith)

pub get_mint16-take : (b : Bytes) → get_mint16 (take 3 b) ≡ get_mint16 b
unfolding get_mint16
get_mint16-take [] = refl
get_mint16-take (x ∷ b) = be_uint16-take 2 b (omega arith)

pub get_muint64-take : (b : Bytes) → get_muint64 (take 9 b) ≡ get_muint64 b
unfolding get_muint64
get_muint64-take [] = refl
get_muint64-take (x ∷ b) = be_uint64-take 8 b (omega arith)

pub get_muint32-take : (b : Bytes) → get_muint32 (take 5 b) ≡ get_muint32 b
unfolding get_muint32
get_muint32-take [] = refl
get_muint32-take (x ∷ b) = be_uint32-take 4 b (omega arith)

pub get_muint16-take : (b : Bytes) → get_muint16 (take 3 b) ≡ get_muint16 b
unfolding get_muint16
get_muint16-take [] = refl
get_muint16-take (x ∷ b) = be_uint16-take 2 b (omega arith)

pub get_elem?-take : (n i : ℕ) (b : Bytes) → i < n → get_elem? (take n b) i ≡ get_elem? b i
get_elem?-take zero i b h = absurd (omega arith)
get_elem?-take (suc n) i [] h = refl
get_elem?-take (suc n) zero (x ∷ b) h = refl
get_elem?-take (suc n) (suc i) (x ∷ b) h = get_elem?-take n i b (omega arith)

pub get_unix-take : (b : Bytes) → get_unix (take 12 b) ≡ get_unix b
unfolding get_unix be_uint64 be_uint32
get_unix-take [] = refl
get_unix-take (a ∷ []) = refl
get_unix-take (a ∷ b ∷ []) = refl
get_unix-take (a ∷ b ∷ c ∷ []) = refl
get_unix-take (a ∷ b ∷ c ∷ d ∷ []) = refl
get_unix-take (a ∷ b ∷ c ∷ d ∷ e ∷ []) = refl
get_unix-take (a ∷ b ∷ c ∷ d ∷ e ∷ f ∷ []) = refl
get_unix-take (a ∷ b ∷ c ∷ d ∷ e ∷ f ∷ g ∷ []) = refl
get_unix-take (a ∷ b ∷ c ∷ d ∷ e ∷ f ∷ g ∷ h ∷ []) = refl
get_unix-take (a ∷ b ∷ c ∷ d ∷ e ∷ f ∷ g ∷ h ∷ i ∷ []) = refl
get_unix-take (a ∷ b ∷ c ∷ d ∷ e ∷ f ∷ g ∷ h ∷ i ∷ j ∷ []) = refl
get_unix-take (a ∷ b ∷ c ∷ d ∷ e ∷ f ∷ g ∷ h ∷ i ∷ j ∷ k ∷ []) = refl
get_unix-take (a ∷ b ∷ c ∷ d ∷ e ∷ f ∷ g ∷ h ∷ i ∷ j ∷ k ∷ l ∷ _) = refl
