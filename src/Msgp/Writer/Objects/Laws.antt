-- ===== src/Msgp/Writer/Objects/Laws.antt =====
-- msgp/write.go: the methods of Writer that write one object, against the bytes of Objects/Api.
use truepack.Prelude.{
  ℕ, ◌+◌, ◌-◌, ◌≤◌, ◌<◌, ◌≡◌, refl, sym, ap, ◌∙◌, Bool, true, false, some, [], ◌∷◌, ◌++◌, arith,
  ltb, leb, if◌then◌else◌, ◌>>=◌, take, drop, slice_from, length-drop,
}
use mathlib.Core.Path.{subst}
use truepack.Msgp.Append.{to16}
use truepack.Msgp.Append.Format.{
  map_header, array_header, str_header, bin_header, bool_bytes, time_bytes,
}
use truepack.Msgp.Append.Laws.{byte_small, to16_small, case_le}
use truepack.Msgp.Integers.{byte, be16, be32, be64, put_all, put_unix}
use truepack.Msgp.Integers.Laws.{put_all_fits}
use truepack.Msgp.Wire.{
  mbin8, mbin16, mbin32, mext8, muint8, mint8, mstr8, mstr16, mstr32, marray16, marray32, mmap16,
  mmap32, time_extension, Bytes, wnfixint, wfixmap, wfixstr, wfixarray,
}
use truepack.Msgp.Wire.Tables.{wfixmap_sum, wfixarray_sum, wfixstr_sum, wfixint_same, wnfixint_same}
use truepack.Msgp.Writer.{IoWriter, Writer, Written, push, prefix8, prefix16, prefix32, prefix64}
use truepack.Msgp.Writer.Objects.{
  write_map_header, write_array_header, write_int8, write_uint8, write_bytes_header, write_bool,
  write_string_header,
}
use truepack.Msgp.Writer.Objects.Api.{int8_bytes, uint8_bytes}
use truepack.Msgp.Writer.Output.{IsIoWriter, IsWriter, Writes}
use truepack.Msgp.Writer.Primitives.{push-Writes, prefix-Writes}
use truepack.Msgp.Writer.Room.{Stores}

drop_time : (t : Bytes) → drop 12 (drop 3 t) ≡ drop 15 t
drop_time [] = refl
drop_time (a ∷ []) = refl
drop_time (a ∷ b ∷ []) = refl
drop_time (a ∷ b ∷ c ∷ t) = refl

-- The stores of a time: three bytes, then the rest behind them.
pub time-Stores :
    (sec nsec : ℕ)
    → Stores
        (λ t. put_all (mext8 ∷ 12 ∷ time_extension ∷ []) t >>= λ t'.
          slice_from t' 3 >>= λ tail. put_unix tail sec nsec >>= λ tail'. some (take 3 t' ++ tail'))
        (time_bytes sec nsec)
unfolding put_unix
time-Stores sec nsec t h =
    rw
      (
        put_all_fits (mext8 ∷ 12 ∷ time_extension ∷ []) t (omega arith),
        put_all_fits (be64 sec ++ be32 nsec) (drop 3 t) (omega (arith, length-drop 3 t)),
        drop_time t,
      )
      refl

module _ {W X : Type 0} (io : IoWriter W X) (accepted : W → Bytes) (law : IsIoWriter io accepted)
    (mw : Writer W) (i : IsWriter mw) where
  pub if_Writes :
      {bs cs : Bytes} {x y : Written io} (c : Bool)
      → ((c ≡ true) → Writes accepted mw bs x)
      → ((c ≡ false) → Writes accepted mw cs y)
      → Writes accepted mw (if c then bs else cs) (if c then x else y)
  if_Writes true p q = p refl
  if_Writes false p q = q refl

  push_same : (b u : ℕ) → b ≡ u → Writes accepted mw (u ∷ []) (push io mw b)
  push_same b u e = rw e (push-Writes io accepted law mw u i)

  put8 : (b u v : ℕ) → v ≤ 255 → u ≡ v → Writes accepted mw (b ∷ v ∷ []) (prefix8 io mw b u)
  put8 b u v h e =
      subst (λ t. Writes accepted mw (b ∷ t ∷ []) (prefix8 io mw b u)) (ap byte e ∙ byte_small v h)
        (prefix-Writes io accepted law mw b u i).0

  put16 : (b sz : ℕ) → sz ≤ 65535 → Writes accepted mw (b ∷ be16 sz) (prefix16 io mw b (to16 sz))
  put16 b sz h = rw (to16_small sz h) (prefix-Writes io accepted law mw b sz i).1

  pub put32 : (b u : ℕ) → Writes accepted mw (b ∷ be32 u) (prefix32 io mw b u)
  put32 b u = (prefix-Writes io accepted law mw b u i).2

  pub put64 : (b u : ℕ) → Writes accepted mw (b ∷ be64 u) (prefix64 io mw b u)
  put64 b u = (prefix-Writes io accepted law mw b u i).3

  pub write_map_header-Writes :
      (sz : ℕ) → Writes accepted mw (map_header sz) (write_map_header io mw sz)
  unfolding write_map_header map_header
  write_map_header-Writes sz =
      if_Writes (leb sz 15)
        (λ e.
          let h = case_le sz 15 e in
          push_same _ _ (ap wfixmap (byte_small sz (omega arith)) ∙ wfixmap_sum sz (omega arith)))
        (λ _.
          if_Writes (leb sz 65535) (λ e. put16 mmap16 sz (case_le sz 65535 e))
            (λ _. put32 mmap32 sz))

  pub write_array_header-Writes :
      (sz : ℕ) → Writes accepted mw (array_header sz) (write_array_header io mw sz)
  unfolding write_array_header array_header
  write_array_header-Writes sz =
      if_Writes (leb sz 15)
        (λ e.
          let h = case_le sz 15 e in
          push_same _ _
            (ap wfixarray (byte_small sz (omega arith)) ∙ wfixarray_sum sz (omega arith)))
        (λ _.
          if_Writes (leb sz 65535) (λ e. put16 marray16 sz (case_le sz 65535 e))
            (λ _. put32 marray32 sz))

  pub write_bytes_header-Writes :
      (sz : ℕ) → Writes accepted mw (bin_header sz) (write_bytes_header io mw sz)
  unfolding write_bytes_header bin_header
  write_bytes_header-Writes sz =
      if_Writes (leb sz 255)
        (λ e. put8 mbin8 _ sz (case_le sz 255 e) (byte_small sz (case_le sz 255 e)))
        (λ _.
          if_Writes (leb sz 65535) (λ e. put16 mbin16 sz (case_le sz 65535 e))
            (λ _. put32 mbin32 sz))

  pub write_string_header-Writes :
      (sz : ℕ) → Writes accepted mw (str_header sz) (write_string_header io mw sz)
  unfolding write_string_header str_header
  write_string_header-Writes sz =
      if_Writes (leb sz 31)
        (λ e.
          let h = case_le sz 31 e in
          push_same _ _ (ap wfixstr (byte_small sz (omega arith)) ∙ wfixstr_sum sz (omega arith)))
        (λ _.
          if_Writes (leb sz 255)
            (λ e. put8 mstr8 _ sz (case_le sz 255 e) (byte_small sz (case_le sz 255 e)))
            (λ _.
              if_Writes (leb sz 65535) (λ e. put16 mstr16 sz (case_le sz 65535 e))
                (λ _. put32 mstr32 sz)))

  pub write_int8-Writes : (x : ℕ) → x < 256 → Writes accepted mw (int8_bytes x) (write_int8 io mw x)
  unfolding write_int8 int8_bytes
  write_int8-Writes x h =
      if_Writes (ltb x 128) (λ e. push_same _ _ (wfixint_same x (ground (arith, e))))
        (λ _.
          if_Writes (leb 224 x)
            (λ e.
              let l : 224 ≤ x = case_le 224 x e in
              let s : 224 + (x - 224) ≡ x = omega arith in
              push_same _ _ (ap wnfixint (sym s) ∙ wnfixint_same (x - 224) (omega arith) ∙ s))
            (λ _. put8 mint8 x x (omega arith) refl))

  pub write_uint8-Writes :
      (x : ℕ) → x < 256 → Writes accepted mw (uint8_bytes x) (write_uint8 io mw x)
  unfolding write_uint8 uint8_bytes
  write_uint8-Writes x h =
      if_Writes (leb x 127) (λ e. push_same _ _ (wfixint_same x (ground (arith, e))))
        (λ _. put8 muint8 x x (omega arith) refl)

  pub write_bool-Writes : (b : Bool) → Writes accepted mw (bool_bytes b) (write_bool io mw b)
  unfolding write_bool bool_bytes
  write_bool-Writes b = if_Writes b (λ _. push_same _ _ refl) (λ _. push_same _ _ refl)
