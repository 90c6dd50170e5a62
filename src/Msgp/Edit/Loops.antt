-- ===== src/Msgp/Edit/Loops.antt =====
-- msgp/edit.go: the loops of `locate` and `locateKV` over the fields of an encoded map.
use truepack.Prelude.{
  ℕ, zero, suc, ◌-◌, ◌<◌, ◌≡◌, refl, ap, ◌∙◌, false, some, List, [], ◌∷◌, ◌++◌, append_assoc, arith,
  length, All,
}
use truepack.Msgp.Edit.{same_bytes, range_from, locate_loop, locate_kv_loop}
use truepack.Msgp.Edit.Format.{
  Field, key_bytes, fields_bytes, IsField, Lacks, same_bytes_refl, read_string_zc-key,
}
use truepack.Msgp.Wire.{Bytes}

module _ (key : Bytes) (l : ℕ) where
  -- A field with another key is passed over.
  pass :
      (n : ℕ) (k v t : Bytes)
      → IsField (k, v)
      → same_bytes k key ≡ false
      → (locate_loop key l (suc n) (key_bytes k ++ (v ++ t)) ≡ locate_loop key l n t)
        × (locate_kv_loop key l (suc n) (key_bytes k ++ (v ++ t)) ≡ locate_kv_loop key l n t)
  unfolding locate_loop locate_kv_loop
  pass n k v t (hk, hv) d = (
    rw (read_string_zc-key k (v ++ t) hk, d, hv t),
    rw (read_string_zc-key k (v ++ t) hk, d, hv t),
  )

  -- The field with the key ends the loop.
  hit :
      (n : ℕ) (v t : Bytes)
      → IsField (key, v)
      → (locate_loop key l (suc n) (key_bytes key ++ (v ++ t))
          ≡ some (l - length (v ++ t), l - length t))
        × (locate_kv_loop key l (suc n) (key_bytes key ++ (v ++ t))
            ≡ some (l - length (key_bytes key ++ (v ++ t)), l - length t))
  unfolding locate_loop locate_kv_loop range_from
  hit n v t (hk, hv) = (
    rw (read_string_zc-key key (v ++ t) hk, same_bytes_refl key, hv t),
    rw (read_string_zc-key key (v ++ t) hk, same_bytes_refl key, hv t),
  )

  pub first_field :
      (k v : Bytes) (fs : List Field) (t : Bytes)
      → fields_bytes ((k, v) ∷ fs) ++ t ≡ key_bytes k ++ (v ++ (fields_bytes fs ++ t))
  first_field k v fs t =
      append_assoc (key_bytes k) (v ++ fields_bytes fs) t
      ∙ ap (λ x. key_bytes k ++ x) (append_assoc v (fields_bytes fs) t)

  pub loop_found :
      (before : List Field) (n : ℕ) (v t : Bytes)
      → length before < n
      → All IsField before
      → Lacks key before
      → IsField (key, v)
      → (locate_loop key l n (fields_bytes before ++ (key_bytes key ++ (v ++ t)))
          ≡ some (l - length (v ++ t), l - length t))
        × (locate_kv_loop key l n (fields_bytes before ++ (key_bytes key ++ (v ++ t)))
            ≡ some (l - length (key_bytes key ++ (v ++ t)), l - length t))
  loop_found before zero v t h fs_ok none_ok v_ok = absurd (omega arith)
  loop_found [] (suc n) v t h fs_ok none_ok v_ok = hit n v t v_ok
  loop_found ((k, w) ∷ fs) (suc n) v t h (w_ok, fs_ok) (d, none_ok) v_ok =
      let (p, q) = loop_found fs n v t (omega arith) fs_ok none_ok v_ok in
      let x = key_bytes key ++ (v ++ t) in
      let (p', q') = pass n k w (fields_bytes fs ++ x) w_ok d in
      let e = first_field k w fs x in
      (ap (locate_loop key l (suc n)) e ∙ p' ∙ p, ap (locate_kv_loop key l (suc n)) e ∙ q' ∙ q)

  pub loop_absent :
      (fs : List Field) (t : Bytes)
      → All IsField fs
      → Lacks key fs
      → (locate_loop key l (length fs) (fields_bytes fs ++ t) ≡ some (0, 0))
        × (locate_kv_loop key l (length fs) (fields_bytes fs ++ t) ≡ some (0, 0))
  unfolding locate_loop locate_kv_loop
  loop_absent [] t fs_ok none_ok = (refl, refl)
  loop_absent ((k, w) ∷ fs) t (w_ok, fs_ok) (d, none_ok) =
      let (p, q) = loop_absent fs t fs_ok none_ok in
      let (p', q') = pass (length fs) k w (fields_bytes fs ++ t) w_ok d in
      let e = first_field k w fs t in
      (
        ap (locate_loop key l (suc (length fs))) e ∙ p' ∙ p,
        ap (locate_kv_loop key l (suc (length fs))) e ∙ q' ∙ q,
      )
