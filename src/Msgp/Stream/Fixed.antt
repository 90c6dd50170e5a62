-- ===== src/Msgp/Stream/Fixed.antt =====
-- msgp/read.go: ReadFloat32, ReadComplex64, ReadComplex128 and ReadTime of the Reader, against the
-- functions of msgp/read_bytes.go.
-- ReadComplex64Bytes, behind the test of the length.
use truepack.Prelude.{
  ℕ, ◌≤◌, ◌≡◌, refl, ◌&&◌, Option, [], ◌∷◌, arith, ◌==◌, if◌then◌else◌, ◌>>=◌, length, take,
  get_elem?, slice_from,
}
use mathlib.Core.Path.{subst}
use truepack.Msgp.Integers.{be_uint32, be_uint64, get_muint32, get_unix}
use truepack.Msgp.Nilbits.{NilBitsStack, is_always_nil}
use truepack.Msgp.Read.{
  Read, ok, fail, nil_guard, need, take_value, float32_body, read_float32_bytes, complex128_body,
  read_complex128_bytes, complex64_body, read_complex64_bytes, time_unix, zero_time, time_body,
  read_time_bytes,
}
use truepack.Msgp.Stream.{FwdReader, Reader, at, Step, peek, guard}
use truepack.Msgp.Stream.Exts.{
  complex64_peeked, read_complex64, complex128_peeked, read_complex128, time_peeked, read_time,
}
use truepack.Msgp.Stream.Guard.{guard-Agrees}
use truepack.Msgp.Stream.Laws.{IsStream, Agrees, if_not-Agrees, refuse-Agrees}
use truepack.Msgp.Stream.Numbers.{float32_peeked, read_float32}
use truepack.Msgp.Stream.Peeked.{bind-Agrees, peek-Agrees, end-Agrees, field-Agrees, if_or-Agrees}
use truepack.Msgp.Stream.Prefix.{
  be_uint32-take, be_uint64-take, get_muint32-take, get_elem?-take, get_unix-take,
}
use truepack.Msgp.Wire.{
  mext8, mfloat32, mfixext8, mfixext16, complex64_extension, complex128_extension, time_extension,
  get_type, bad_prefix, Bytes, float32_type, complex64_type, complex128_type, time_type, type_error,
  err_ext,
}

abbrev complex64_found : Bytes → Read (ℕ × ℕ)
complex64_found b = get_elem? b 0 >>= λ lead. get_elem? b 1 >>= λ typ.
    if lead == mfixext8
    then (if typ == complex64_extension
        then (slice_from b 2 >>= λ b2. be_uint32 b2 >>= λ re.
            slice_from b 6 >>= λ b6. be_uint32 b6 >>= λ im. slice_from b 10 >>= λ o. ok (re, im) o)
        else fail (0, 0) [] (err_ext typ complex64_extension))
    else fail (0, 0) [] (bad_prefix complex64_type lead)

-- ReadComplex128Bytes, behind the test of the length.
abbrev complex128_found : Bytes → Read (ℕ × ℕ)
complex128_found b = get_elem? b 0 >>= λ lead. get_elem? b 1 >>= λ typ.
    if lead == mfixext16
    then (if typ == complex128_extension
        then (slice_from b 2 >>= λ b2. be_uint64 b2 >>= λ re. slice_from b 10 >>= λ b10.
            be_uint64 b10 >>= λ im. slice_from b 18 >>= λ o. ok (re, im) o)
        else fail (0, 0) [] (err_ext typ complex128_extension))
    else fail (0, 0) [] (bad_prefix complex128_type lead)

-- ReadTimeBytes, behind the test of the length.
abbrev time_found : Bytes → Read (ℕ × ℕ)
time_found b = get_elem? b 0 >>= λ lead. get_elem? b 1 >>= λ size. get_elem? b 2 >>= λ typ.
    if lead == mext8 && size == 12
    then (if typ == time_extension
        then (slice_from b 3 >>= λ b3.
            get_unix b3 >>= λ (sec, nsec). slice_from b 15 >>= λ o. ok (time_unix sec nsec) o)
        else fail zero_time [] (err_ext typ time_extension))
    else fail zero_time [] (bad_prefix time_type lead)

-- ReadFloat32Bytes, behind the test of the length.
abbrev float32_found : Bytes → Read ℕ
float32_found b = get_elem? b 0 >>= λ lead.
    if lead == mfloat32
    then take_value (get_muint32 b) b 5
    else fail 0 [] (type_error float32_type (get_type lead))

float32_body-found : (b : Bytes) → float32_body b ≡ need b 5 0 (float32_found b)
unfolding float32_body need
float32_body-found [] = refl
float32_body-found (lead ∷ t) = refl

module _ {S E : Type 0} (f : FwdReader S E) (rest : S → Bytes) (law : IsStream f rest) where
  module _ (m : Reader S) where
    complex64-Agrees :
        (b : Bytes) (s : S)
        → rest s ≡ b
        → 10 ≤ length b
        → Agrees rest m (complex64_found b) (complex64_peeked f (take 10 b) (at m s))
    unfolding complex64_peeked
    complex64-Agrees b s e l =
        rw (get_elem?-take 10 0 b (omega arith), get_elem?-take 10 1 b (omega arith))
          (bind-Agrees f rest law m (get_elem? b 0) _ _ (λ lead.
            bind-Agrees f rest law m (get_elem? b 1) _ _ (λ typ.
              if_not-Agrees rest m (lead == mfixext8) _ _ _ _
                (if_not-Agrees rest m (typ == complex64_extension) _ _ _ _
                  (field-Agrees f rest law m 2 8 10 b be_uint32 _ _ refl
                    (λ c. be_uint32-take 8 c (omega arith))
                    (λ re.
                      field-Agrees f rest law m 6 4 10 b be_uint32 _ _ refl
                        (λ c. be_uint32-take 4 c (omega arith))
                        (λ im. end-Agrees f rest law m s b 10 (re, im) e l)))
                  (refuse-Agrees E rest m (at m s) _ _ _ _ _))
                (refuse-Agrees E rest m (at m s) _ _ _ _ _))))

    complex128-Agrees :
        (b : Bytes) (s : S)
        → rest s ≡ b
        → 18 ≤ length b
        → Agrees rest m (complex128_found b) (complex128_peeked f (take 18 b) (at m s))
    unfolding complex128_peeked
    complex128-Agrees b s e l =
        rw (get_elem?-take 18 0 b (omega arith), get_elem?-take 18 1 b (omega arith))
          (bind-Agrees f rest law m (get_elem? b 0) _ _ (λ lead.
            bind-Agrees f rest law m (get_elem? b 1) _ _ (λ typ.
              if_not-Agrees rest m (lead == mfixext16) _ _ _ _
                (if_not-Agrees rest m (typ == complex128_extension) _ _ _ _
                  (field-Agrees f rest law m 2 16 18 b be_uint64 _ _ refl
                    (λ c. be_uint64-take 16 c (omega arith))
                    (λ re.
                      field-Agrees f rest law m 10 8 18 b be_uint64 _ _ refl
                        (λ c. be_uint64-take 8 c (omega arith))
                        (λ im. end-Agrees f rest law m s b 18 (re, im) e l)))
                  (refuse-Agrees E rest m (at m s) _ _ _ _ _))
                (refuse-Agrees E rest m (at m s) _ _ _ _ _))))

    time-Agrees :
        (b : Bytes) (s : S)
        → rest s ≡ b
        → 15 ≤ length b
        → Agrees rest m (time_found b) (time_peeked f (take 15 b) (at m s))
    unfolding time_peeked time_unix
    time-Agrees b s e l =
        rw
          (
            get_elem?-take 15 0 b (omega arith),
            get_elem?-take 15 1 b (omega arith),
            get_elem?-take 15 2 b (omega arith),
          )
          (bind-Agrees f rest law m (get_elem? b 0) _ _ (λ lead.
            bind-Agrees f rest law m (get_elem? b 1) _ _ (λ size.
              bind-Agrees f rest law m (get_elem? b 2) _ _ (λ typ.
                if_or-Agrees f rest law m (lead == mext8) (size == 12) _ _ _ _
                  (if_not-Agrees rest m (typ == time_extension) _ _ _ _
                    (field-Agrees f rest law m 3 12 15 b get_unix _ _ refl get_unix-take
                      (λ t. end-Agrees f rest law m s b 15 (time_unix t.0 t.1) e l))
                    (refuse-Agrees E rest m (at m s) _ _ _ _ _))
                  (refuse-Agrees E rest m (at m s) _ _ _ _ _)))))

    float32-Agrees :
        (b : Bytes) (s : S)
        → rest s ≡ b
        → 5 ≤ length b
        → Agrees rest m (float32_found b) (float32_peeked f (take 5 b) (at m s))
    unfolding float32_peeked take_value
    float32-Agrees b s e l =
        rw (get_elem?-take 5 0 b (omega arith), get_muint32-take b)
          (bind-Agrees f rest law m (get_elem? b 0) _ _ (λ lead.
            if_not-Agrees rest m (lead == mfloat32) _ _ _ _
              (bind-Agrees f rest law m (get_muint32 b) _ _
                (λ v. end-Agrees f rest law m s b 5 v e l))
              (refuse-Agrees E rest m (at m s) _ _ _ _ _)))

module _ {S E : Type 0} (f : FwdReader S E) (rest : S → Bytes) (law : IsStream f rest) where
  module _ (nbs : Option NilBitsStack) (m : Reader S) (a : is_always_nil nbs ≡ m.always_nil) where
    -- A method behind the guard that peeks at `n` bytes.
    peeks-Agrees :
        {A : Type 0} (n : ℕ) (empty : A) (r : Bytes → Read A) (k : Bytes → Reader S → Step S E A)
        → ((b : Bytes) (s : S)
            → rest s ≡ b
            → n ≤ length b
            → Agrees rest m (r b) (k (take n b) (at m s)))
        → Agrees rest m
            (nil_guard nbs (rest m.r) empty (need (rest m.r) n empty (r (rest m.r))))
            (guard f m empty (λ m'. peek f m' n empty k))
    peeks-Agrees n empty r k h = guard-Agrees f rest law nbs m empty _ _ a (λ s e.
        subst (λ b. Agrees rest m (need b n empty (r b)) (peek f (at m s) n empty k)) e
          (peek-Agrees f rest law m s n empty (r (rest s)) k (λ l s' e'. h (rest s) s' e' l)))

    pub read_complex64-Agrees :
        Agrees rest m (read_complex64_bytes nbs (rest m.r)) (read_complex64 f m)
    unfolding read_complex64_bytes complex64_body read_complex64
    read_complex64-Agrees =
        peeks-Agrees 10 (0, 0) complex64_found (complex64_peeked f) (complex64-Agrees f rest law m)

    pub read_complex128-Agrees :
        Agrees rest m (read_complex128_bytes nbs (rest m.r)) (read_complex128 f m)
    unfolding read_complex128_bytes complex128_body read_complex128
    read_complex128-Agrees =
        peeks-Agrees 18 (0, 0) complex128_found (complex128_peeked f)
          (complex128-Agrees f rest law m)

    pub read_time-Agrees : Agrees rest m (read_time_bytes nbs (rest m.r)) (read_time f m)
    unfolding read_time_bytes time_body read_time
    read_time-Agrees =
        peeks-Agrees 15 zero_time time_found (time_peeked f) (time-Agrees f rest law m)

    pub read_float32-Agrees : Agrees rest m (read_float32_bytes nbs (rest m.r)) (read_float32 f m)
    unfolding read_float32_bytes read_float32
    read_float32-Agrees =
        rw (float32_body-found (rest m.r))
          (peeks-Agrees 5 0 float32_found (float32_peeked f) (float32-Agrees f rest law m))
