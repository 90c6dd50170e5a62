-- ===== src/Msgp/Stream/Agree.antt =====
-- msgp/read.go: the Reader's methods for headers, Booleans and integers, against those of
-- msgp/read_bytes.go on the bytes that the stream still delivers.
use truepack.Prelude.{
  ℕ, ◌≡◌, refl, ap, ◌∙◌, true, false, Option, some, [], ◌∷◌, arith, ◌>>=◌, take, drop,
}
use mathlib.Core.Path.{subst}
use truepack.Msgp.Integers.{get_mint8, get_muint8}
use truepack.Msgp.Nilbits.{NilBitsStack, is_always_nil}
use truepack.Msgp.Read.{
  sign_extend, int64_body, read_int64_bytes, ok, need, take_value, map_header_body,
  read_map_header_bytes, array_header_body, read_array_header_bytes, bool_body, read_bool_bytes,
  uint64_body, read_uint64_bytes,
}
use truepack.Msgp.Stream.{FwdReader, Reader, at, next_value, skip_return}
use truepack.Msgp.Stream.Guard.{by_lead-Agrees}
use truepack.Msgp.Stream.Laws.{
  IsStream, Agrees, if-Agrees, refuse-Agrees, skip_return-Agrees, next_value-Agrees,
}
use truepack.Msgp.Stream.Numbers.{
  map_header_by_lead, read_map_header, array_header_by_lead, read_array_header, bool_by_lead,
  read_bool, int64_by_lead, read_int64, uint64_by_lead, read_uint64,
}
use truepack.Msgp.Stream.Prefix.{
  be_uint16-take, be_uint32-take, get_mint64-take, get_mint32-take, get_mint16-take,
  get_muint64-take, get_muint32-take, get_muint16-take, get_elem?-take,
}
use truepack.Msgp.Wire.{Bytes, rfixint, rnfixint, rfixmap, rfixarray, err_short_bytes}

module _ {S E : Type 0} (f : FwdReader S E) (rest : S → Bytes) (law : IsStream f rest) where
  -- The forms of a lead byte: the value in the byte itself, and the next ones.
  fix-Agrees :
      {A : Type 0} (m : Reader S) (s : S) (lead : ℕ) (t : Bytes) (v : A)
      → rest s ≡ lead ∷ t
      → Agrees rest m (ok v t) (skip_return f (at m s) 1 v)
  fix-Agrees m s lead t v e =
      subst (λ b. Agrees rest m (ok v (drop 1 b)) (skip_return f (at m s) 1 v)) e
        (skip_return-Agrees f rest law m s 1 v (rw e (omega arith)))

  form-Agrees :
      {A : Type 0} (m : Reader S) (s : S) (b : Bytes) (n : ℕ) (empty : A) (x : Option A)
      (get : Bytes → Option A)
      → rest s ≡ b
      → get (take n b) ≡ x
      → Agrees rest m (need b n empty (take_value x b n)) (next_value f (at m s) n empty get)
  form-Agrees m s b n empty x get e g =
      subst
        (λ b'.
          Agrees rest m (need b' n empty (take_value x b' n)) (next_value f (at m s) n empty get))
        e (next_value-Agrees f rest law m s n empty x get (ap (λ b'. get (take n b')) e ∙ g))

  map_header_by_lead-Agrees :
      (m : Reader S) (lead : ℕ) (t : Bytes) (s : S)
      → rest s ≡ lead ∷ t
      → Agrees rest m (map_header_body (lead ∷ t)) (map_header_by_lead f lead (at m s))
  unfolding map_header_body map_header_by_lead
  map_header_by_lead-Agrees m lead t s e =
      if-Agrees rest m _ _ _ _ _ (fix-Agrees m s lead t (rfixmap lead) e) (
        if-Agrees rest m _ _ _ _ _
          (form-Agrees m s (lead ∷ t) 3 0 _ _ e (be_uint16-take 2 t (omega arith)))
          (if-Agrees rest m _ _ _ _ _
            (form-Agrees m s (lead ∷ t) 5 0 _ _ e (be_uint32-take 4 t (omega arith)))
            (refuse-Agrees E rest m (at m s) _ _ _ _ _)))

  pub read_map_header-Agrees :
      (nbs : Option NilBitsStack) (m : Reader S)
      → is_always_nil nbs ≡ m.always_nil
      → Agrees rest m (read_map_header_bytes nbs (rest m.r)) (read_map_header f m)
  unfolding read_map_header_bytes read_map_header map_header_body
  read_map_header-Agrees nbs m a =
      by_lead-Agrees f rest law nbs m 0 map_header_body 0 [] err_short_bytes (map_header_by_lead f)
        a refl (map_header_by_lead-Agrees m)

  array_header_by_lead-Agrees :
      (m : Reader S) (lead : ℕ) (t : Bytes) (s : S)
      → rest s ≡ lead ∷ t
      → Agrees rest m (array_header_body (lead ∷ t)) (array_header_by_lead f lead (at m s))
  unfolding array_header_body array_header_by_lead
  array_header_by_lead-Agrees m lead t s e =
      if-Agrees rest m _ _ _ _ _ (fix-Agrees m s lead t (rfixarray lead) e) (
        if-Agrees rest m _ _ _ _ _
          (form-Agrees m s (lead ∷ t) 3 0 _ _ e (be_uint16-take 2 t (omega arith)))
          (if-Agrees rest m _ _ _ _ _
            (form-Agrees m s (lead ∷ t) 5 0 _ _ e (be_uint32-take 4 t (omega arith)))
            (refuse-Agrees E rest m (at m s) _ _ _ _ _)))

  pub read_array_header-Agrees :
      (nbs : Option NilBitsStack) (m : Reader S)
      → is_always_nil nbs ≡ m.always_nil
      → Agrees rest m (read_array_header_bytes nbs (rest m.r)) (read_array_header f m)
  unfolding read_array_header_bytes read_array_header array_header_body
  read_array_header-Agrees nbs m a =
      by_lead-Agrees f rest law nbs m 0 array_header_body 0 [] err_short_bytes
        (array_header_by_lead f) a refl (array_header_by_lead-Agrees m)

  bool_by_lead-Agrees :
      (m : Reader S) (lead : ℕ) (t : Bytes) (s : S)
      → rest s ≡ lead ∷ t
      → Agrees rest m (bool_body (lead ∷ t)) (bool_by_lead f lead (at m s))
  unfolding bool_body bool_by_lead
  bool_by_lead-Agrees m lead t s e = if-Agrees rest m _ _ _ _ _ (fix-Agrees m s lead t true e) (
      if-Agrees rest m _ _ _ _ _ (fix-Agrees m s lead t false e)
        (refuse-Agrees E rest m (at m s) _ _ _ _ _))

  pub read_bool-Agrees :
      (nbs : Option NilBitsStack) (m : Reader S)
      → is_always_nil nbs ≡ m.always_nil
      → Agrees rest m (read_bool_bytes nbs (rest m.r)) (read_bool f m)
  unfolding read_bool_bytes read_bool bool_body
  read_bool-Agrees nbs m a =
      by_lead-Agrees f rest law nbs m false bool_body false [] err_short_bytes (bool_by_lead f) a
        refl (bool_by_lead-Agrees m)

  int64_by_lead-Agrees :
      (m : Reader S) (lead : ℕ) (t : Bytes) (s : S)
      → rest s ≡ lead ∷ t
      → Agrees rest m (int64_body (lead ∷ t)) (int64_by_lead f lead (at m s))
  unfolding int64_body int64_by_lead get_mint8
  int64_by_lead-Agrees m lead t s e =
      if-Agrees rest m _ _ _ _ _ (fix-Agrees m s lead t (rfixint lead) e) (
        if-Agrees rest m _ _ _ _ _ (fix-Agrees m s lead t (sign_extend 8 (rnfixint lead)) e) (
          if-Agrees rest m _ _ _ _ _
            (form-Agrees m s (lead ∷ t) 2 0 _ _ e (
              ap (λ x. x >>= λ i. some (sign_extend 8 i))
                (get_elem?-take 2 1 (lead ∷ t) (omega arith))))
            (if-Agrees rest m _ _ _ _ _
              (form-Agrees m s (lead ∷ t) 3 0 _ _ e
                (ap (λ x. x >>= λ i. some (sign_extend 16 i)) (get_mint16-take (lead ∷ t))))
              (if-Agrees rest m _ _ _ _ _
                (form-Agrees m s (lead ∷ t) 5 0 _ _ e
                  (ap (λ x. x >>= λ i. some (sign_extend 32 i)) (get_mint32-take (lead ∷ t))))
                (if-Agrees rest m _ _ _ _ _
                  (form-Agrees m s (lead ∷ t) 9 0 _ _ e (get_mint64-take (lead ∷ t)))
                  (refuse-Agrees E rest m (at m s) _ _ _ _ _))))))

  pub read_int64-Agrees :
      (nbs : Option NilBitsStack) (m : Reader S)
      → is_always_nil nbs ≡ m.always_nil
      → Agrees rest m (read_int64_bytes nbs (rest m.r)) (read_int64 f m)
  unfolding read_int64_bytes read_int64 int64_body
  read_int64-Agrees nbs m a =
      by_lead-Agrees f rest law nbs m 0 int64_body 0 [] err_short_bytes (int64_by_lead f) a refl
        (int64_by_lead-Agrees m)

  uint64_by_lead-Agrees :
      (m : Reader S) (lead : ℕ) (t : Bytes) (s : S)
      → rest s ≡ lead ∷ t
      → Agrees rest m (uint64_body (lead ∷ t)) (uint64_by_lead f lead (at m s))
  unfolding uint64_body uint64_by_lead get_muint8
  uint64_by_lead-Agrees m lead t s e =
      if-Agrees rest m _ _ _ _ _ (fix-Agrees m s lead t (rfixint lead) e) (
        if-Agrees rest m _ _ _ _ _
          (form-Agrees m s (lead ∷ t) 2 0 _ _ e (get_elem?-take 2 1 (lead ∷ t) (omega arith)))
          (if-Agrees rest m _ _ _ _ _
            (form-Agrees m s (lead ∷ t) 3 0 _ _ e (get_muint16-take (lead ∷ t)))
            (if-Agrees rest m _ _ _ _ _
              (form-Agrees m s (lead ∷ t) 5 0 _ _ e (get_muint32-take (lead ∷ t)))
              (if-Agrees rest m _ _ _ _ _
                (form-Agrees m s (lead ∷ t) 9 0 _ _ e (get_muint64-take (lead ∷ t)))
                (refuse-Agrees E rest m (at m s) _ _ _ _ _)))))

  pub read_uint64-Agrees :
      (nbs : Option NilBitsStack) (m : Reader S)
      → is_always_nil nbs ≡ m.always_nil
      → Agrees rest m (read_uint64_bytes nbs (rest m.r)) (read_uint64 f m)
  unfolding read_uint64_bytes read_uint64 uint64_body
  read_uint64-Agrees nbs m a =
      by_lead-Agrees f rest law nbs m 0 uint64_body 0 [] err_short_bytes (uint64_by_lead f) a refl
        (uint64_by_lead-Agrees m)
