-- ===== src/Msgp/Stream/Narrow.antt =====
-- msgp/read.go: the Reader's methods for the narrower integers and for floats, against those of
-- msgp/read_bytes.go.
use truepack.Prelude.{
  ℕ, ◌-◌, ◌%◌, ◌^◌, ◌≡◌, refl, Bool, true, false, Option, none, some, [], ltb, if◌then◌else◌, ◌>>=◌,
}
use mathlib.Core.Path.{subst}
use truepack.Msgp.Nilbits.{NilBitsStack, is_always_nil}
use truepack.Msgp.Read.{
  exceeds, read_int64_bytes, narrow_int, read_int32_bytes, read_int16_bytes, read_int8_bytes,
  read_int_bytes, Read, ok, fail, nil_guard, read_map_header_bytes, read_array_header_bytes,
  read_bool_bytes, read_uint64_bytes, narrow_uint, read_uint32_bytes, read_uint16_bytes,
  read_uint8_bytes, read_uint_bytes,
}
use truepack.Msgp.Stream.{FwdReader, Reader, StreamError, msgp_error, at, Step, guard}
use truepack.Msgp.Stream.Agree.{
  read_map_header-Agrees, read_array_header-Agrees, read_bool-Agrees, read_int64-Agrees,
  read_uint64-Agrees,
}
use truepack.Msgp.Stream.Guard.{guard-Agrees}
use truepack.Msgp.Stream.Laws.{IsStream, Agrees, if-Agrees, refuse-Agrees}
use truepack.Msgp.Stream.Numbers.{
  narrowed_int, narrowed_uint, read_map_header, read_array_header, read_bool, read_int64,
  read_uint64, read_int32, read_int16, read_int8, read_int, read_uint32, read_uint16, read_uint8,
  read_uint,
}
use truepack.Msgp.Wire.{Bytes, Error, int_overflow, uint_overflow}

pub done-Agrees :
    {S A : Type 0} (E : Type 0) (rest : S → Bytes) (m : Reader S) (v : A) (o : Bytes) (s : S)
    → rest s ≡ o
    → Agrees {E = E} rest m (ok v o) (some (v, none, at m s))
unfolding Agrees
done-Agrees E rest m v o s l = (s, refl, l)

abbrev pub IntegersAgree :
    {S E : Type 0} (f : FwdReader S E) (rest : S → Bytes) (nbs : Option NilBitsStack) (m : Reader S)
    → Type 0
IntegersAgree f rest nbs m =
    Agrees rest m (read_map_header_bytes nbs (rest m.r)) (read_map_header f m)
    × Agrees rest m (read_array_header_bytes nbs (rest m.r)) (read_array_header f m)
    × Agrees rest m (read_bool_bytes nbs (rest m.r)) (read_bool f m)
    × Agrees rest m (read_int64_bytes nbs (rest m.r)) (read_int64 f m)
    × Agrees rest m (read_int32_bytes nbs (rest m.r)) (read_int32 f m)
    × Agrees rest m (read_int16_bytes nbs (rest m.r)) (read_int16 f m)
    × Agrees rest m (read_int8_bytes nbs (rest m.r)) (read_int8 f m)
    × Agrees rest m (read_int_bytes nbs (rest m.r)) (read_int f m)
    × Agrees rest m (read_uint64_bytes nbs (rest m.r)) (read_uint64 f m)
    × Agrees rest m (read_uint32_bytes nbs (rest m.r)) (read_uint32 f m)
    × Agrees rest m (read_uint16_bytes nbs (rest m.r)) (read_uint16 f m)
    × Agrees rest m (read_uint8_bytes nbs (rest m.r)) (read_uint8 f m)
    × Agrees rest m (read_uint_bytes nbs (rest m.r)) (read_uint f m)

module _ {S E : Type 0} (rest : S → Bytes) (m : Reader S) where
  -- The Reader with its fwd.Reader in another state agrees on the same results.
  pub at-Agrees :
      {A : Type 0} (s : S) (r : Read A) (t : Step S E A)
      → Agrees rest (at m s) r t
      → Agrees rest m r t
  unfolding Agrees
  at-Agrees s none t h = h
  at-Agrees s (some (v, o, none)) t h = h
  at-Agrees s (some (v, o, some e)) t h = h

  -- Two errors, whichever they are.
  fails-Agrees :
      {A : Type 0} (c c' : Bool) (v w v' w' : A) (o o' : Bytes) (e e' : Error)
      (x x' : StreamError E) (m1 m2 : Reader S)
      → Agrees rest m
          (if c then fail v o e else fail w o' e')
          (if c' then some (v', some x, m1) else some (w', some x', m2))
  unfolding Agrees
  fails-Agrees true true v w v' w' o o' e e' x x' m1 m2 = (v', x, m1, refl)
  fails-Agrees true false v w v' w' o o' e e' x x' m1 m2 = (w', x', m2, refl)
  fails-Agrees false true v w v' w' o o' e e' x x' m1 m2 = (v', x, m1, refl)
  fails-Agrees false false v w v' w' o o' e e' x x' m1 m2 = (w', x', m2, refl)

  narrowed_int-Agrees :
      (w : ℕ) (r : Read ℕ) (t : Step S E ℕ)
      → Agrees rest m r t
      → Agrees rest m (narrow_int w r) (narrowed_int w t)
  unfolding Agrees narrow_int narrowed_int
  narrowed_int-Agrees w none t h = rw h refl
  narrowed_int-Agrees w (some (v, o, none)) t (s, h, l) = rw h (
      if-Agrees rest m (exceeds v (2 ^ (w - 1) - 1)) _ _ _ _
        (refuse-Agrees E rest m (at m s) 0 0 o (int_overflow v w) (int_overflow v w))
        (done-Agrees E rest m (v % 2 ^ w) o s l))
  narrowed_int-Agrees w (some (v, o, some e)) t (v', e', m', h) = rw h (
      fails-Agrees (exceeds v (2 ^ (w - 1) - 1)) (exceeds v' (2 ^ (w - 1) - 1)) 0 (v % 2 ^ w) 0
        (v' % 2 ^ w) o o (int_overflow v w) e (msgp_error (int_overflow v' w)) e' m' m')

  narrowed_uint-Agrees :
      (w : ℕ) (r : Read ℕ) (t : Step S E ℕ)
      → Agrees rest m r t
      → Agrees rest m (narrow_uint w r) (narrowed_uint w t)
  unfolding Agrees narrow_uint narrowed_uint
  narrowed_uint-Agrees w none t h = rw h refl
  narrowed_uint-Agrees w (some (v, o, none)) t (s, h, l) = rw h (
      if-Agrees rest m (ltb (2 ^ w - 1) v) _ _ _ _
        (refuse-Agrees E rest m (at m s) 0 0 [] (uint_overflow v w) (uint_overflow v w))
        (done-Agrees E rest m (v % 2 ^ w) o s l))
  narrowed_uint-Agrees w (some (v, o, some e)) t (v', e', m', h) = rw h (
      fails-Agrees (ltb (2 ^ w - 1) v) (ltb (2 ^ w - 1) v') 0 (v % 2 ^ w) 0 (v' % 2 ^ w) [] o
        (uint_overflow v w) e (msgp_error (uint_overflow v' w)) e' m' m')

  -- A function of the value that is read.
  pub mapped-Agrees :
      {A B : Type 0} (g : A → B) (r : Read A) (t : Step S E A)
      → Agrees rest m r t
      → Agrees rest m
          (r >>= λ (v, o, err). some (g v, o, err))
          (t >>= λ (v, err, m'). some (g v, err, m'))
  unfolding Agrees
  mapped-Agrees g none t h = rw h refl
  mapped-Agrees g (some (v, o, none)) t (s, h, l) = rw h (s, refl, l)
  mapped-Agrees g (some (v, o, some e)) t (v', e', m', h) = rw h (g v', e', m', refl)

module _ {S E : Type 0} (f : FwdReader S E) (rest : S → Bytes) (law : IsStream f rest) where
  module _ (nbs : Option NilBitsStack) (m : Reader S) (a : is_always_nil nbs ≡ m.always_nil) where
    -- A method that tests for a nil and calls another one, which may test again.
    pub calls-Agrees :
        {A : Type 0} (empty : A) (r : Bytes → Read A) (t : Reader S → Step S E A)
        → ((m' : Reader S)
            → is_always_nil nbs ≡ m'.always_nil
            → Agrees rest m' (r (rest m'.r)) (t m'))
        → Agrees rest m (nil_guard nbs (rest m.r) empty (r (rest m.r))) (guard f m empty t)
    calls-Agrees empty r t h = guard-Agrees f rest law nbs m empty _ _ a (λ s e.
        at-Agrees rest m s _ _
          (subst (λ b. Agrees rest (at m s) (r b) (t (at m s))) e (h (at m s) a)))

    narrow_int_calls :
        (w : ℕ)
        → Agrees rest m
            (nil_guard nbs (rest m.r) 0 (narrow_int w (read_int64_bytes nbs (rest m.r))))
            (guard f m 0 (λ m'. narrowed_int w (read_int64 f m')))
    narrow_int_calls w =
        calls-Agrees 0 (λ b. narrow_int w (read_int64_bytes nbs b)) _
          (λ m' a'. narrowed_int-Agrees rest m' w _ _ (read_int64-Agrees f rest law nbs m' a'))

    narrow_uint_calls :
        (w : ℕ)
        → Agrees rest m
            (nil_guard nbs (rest m.r) 0 (narrow_uint w (read_uint64_bytes nbs (rest m.r))))
            (guard f m 0 (λ m'. narrowed_uint w (read_uint64 f m')))
    narrow_uint_calls w =
        calls-Agrees 0 (λ b. narrow_uint w (read_uint64_bytes nbs b)) _
          (λ m' a'. narrowed_uint-Agrees rest m' w _ _ (read_uint64-Agrees f rest law nbs m' a'))

    -- Each of ReadMapHeader, ReadArrayHeader, ReadBool and the methods for signed and unsigned
    -- integers of the
    -- Reader agrees with the function of the same object on the bytes that the stream still delivers,
    -- nils being simulated by both or by neither, over a fwd.Reader that keeps its contract: both
    -- panic, both fail, or both find the same value with the same bytes behind it.
    pub read_integers-Agree : IntegersAgree f rest nbs m
    unfolding read_int32_bytes read_int32 read_int16_bytes read_int16 read_int8_bytes read_int8
        read_int_bytes read_int read_uint32_bytes read_uint32 read_uint16_bytes read_uint16
        read_uint8_bytes read_uint8 read_uint_bytes read_uint
    read_integers-Agree = (
      read_map_header-Agrees f rest law nbs m a,
      read_array_header-Agrees f rest law nbs m a,
      read_bool-Agrees f rest law nbs m a,
      read_int64-Agrees f rest law nbs m a,
      narrow_int_calls 32,
      narrow_int_calls 16,
      narrow_int_calls 8,
      calls-Agrees 0 (read_int64_bytes nbs) (read_int64 f) (read_int64-Agrees f rest law nbs),
      read_uint64-Agrees f rest law nbs m a,
      narrow_uint_calls 32,
      narrow_uint_calls 16,
      narrow_uint_calls 8,
      calls-Agrees 0 (read_uint64_bytes nbs) (read_uint64 f) (read_uint64-Agrees f rest law nbs),
    )
