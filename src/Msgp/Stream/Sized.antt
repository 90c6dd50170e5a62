-- ===== src/Msgp/Stream/Sized.antt =====
-- msgp/read.go: the sizes before strings and binary objects and the ReadFull behind them, against those
-- of msgp/read_bytes.go.
-- The memory for `read` bytes.
use truepack.Prelude.{
  ℕ, zero, suc, ◌≤◌, ◌≡◌, refl, sym, ap, ◌∙◌, inl, inr, false, Option, none, some, [], ◌∷◌, ◌++◌,
  append-nil, arith, ltb, leb, ◌==◌, if◌then◌else◌, ◌>>=◌, lt→ltb, le→ltb, le→leb, lt→leb, lt_or_ge,
  length, take, drop, replicate, slice_from, length-append, length-replicate, length-take, drop_all,
  slice_from-drop,
}
use Prim.Native.Nat.{min}
use mathlib.Core.Path.{subst}
use truepack.Msgp.Read.{Read, ok, need, sized, bytes_data, string_data, string_body}
use truepack.Msgp.Slice.{Slice, cap, go_copy, copied, fill}
use truepack.Msgp.Stream.{FwdReader, Reader, io_error, at, Step, received, next, skip_over}
use truepack.Msgp.Stream.Blobs.{filled, read_full, read_into, next_sized, str_by_lead, string_fill}
use truepack.Msgp.Stream.Laws.{IsStream, Agrees, if-Agrees, Fails-Agrees, refuse-Agrees}
use truepack.Msgp.Stream.Narrow.{done-Agrees}
use truepack.Msgp.Stream.Peeked.{bind-Agrees}
use truepack.Msgp.Stream.Prefix.{be_uint16-take, be_uint32-take, get_elem?-take}
use truepack.Msgp.Wire.{Bytes, rfixstr, err_short_bytes}

length-target :
    (scratch : Slice) (read : ℕ)
    → length (
        if ltb (cap scratch) read
        then replicate read 0
        else take read (scratch.visible ++ scratch.spare))
      ≡ read
length-target scratch read = elim (lt_or_ge (cap scratch) read) [
  | inl h ↦ rw (lt→ltb _ _ h) (length-replicate read 0)
  | inr h ↦
      rw (le→ltb _ _ h) (length-take read _ (rw (length-append scratch.visible scratch.spare) h))
]

length-room :
    (scratch : Slice) (read : ℕ)
    → length (
        if leb read (cap scratch)
        then take read (scratch.visible ++ scratch.spare)
        else replicate read 0)
      ≡ read
length-room scratch read = elim (lt_or_ge (cap scratch) read) [
  | inl h ↦ rw (lt→leb _ _ h) (length-replicate read 0)
  | inr h ↦
      rw (le→leb _ _ h) (length-take read _ (rw (length-append scratch.visible scratch.spare) h))
]

-- A copy that fills its target.
copy_whole :
    (v b : Bytes) (read : ℕ)
    → length v ≡ read
    → read ≤ length b
    → (slice_from b (copied v b) >>= λ o. ok (go_copy v b) o)
      ≡ (slice_from b read >>= λ o. ok (take read b) o)
unfolding copied go_copy
copy_whole v b read e h =
    let m : min (length v) (length b) ≡ read = ground arith in
    rw (m, e, drop_all v (length b) (rw e h), append-nil (take read b)) refl

-- ReadBytesBytes takes what ReadStringZC takes, in memory of the same length.
pub bytes_data-string_data :
    (scratch : Slice) (read : ℕ) (b : Bytes) → bytes_data scratch false read b ≡ string_data read b
unfolding bytes_data string_data
bytes_data-string_data scratch read b = elim (lt_or_ge (length b) read) [
  | inl h ↦ rw (lt→ltb _ _ h) refl
  | inr h ↦ rw (le→ltb _ _ h) (copy_whole _ b read (length-room scratch read) h)
]

module _ {S E : Type 0} (f : FwdReader S E) (rest : S → Bytes) (law : IsStream f rest) where
  module _ (m : Reader S) where
    -- ReadFull into `read` bytes.
    pub full-Agrees :
        (s : S) (read : ℕ) (p : Bytes)
        → length p ≡ read
        → Agrees rest m (string_data read (rest s)) (read_full f (at m s) p)
    unfolding string_data read_full filled Agrees
    full-Agrees s read p e = elim (lt_or_ge (length (rest s)) read) [
      | inl h ↦
          let (p', x, s', q) = law.full_short s p (rw e h) in
          rw (lt→ltb _ _ h, q) (p', io_error x, at m s', refl)
      | inr h ↦
          let (s', q, l) = law.full_all s p (rw e h) in
          rw (le→ltb _ _ h, slice_from-drop (rest s) read h, q, sym e) (s', refl, l)
    ]

    -- A prefix of `n` bytes with the size, and what is done with the rest.
    pub sized-Agrees :
        (s : S) (b : Bytes) (n : ℕ) (x : Option ℕ) (size : Bytes → Option ℕ)
        (data_of : ℕ → Bytes → Read Bytes) (fill : Reader S → ℕ → Step S E Bytes)
        → rest s ≡ b
        → size (take n b) ≡ x
        → ((s' : S) (read : ℕ) → Agrees rest m (data_of read (rest s')) (fill (at m s') read))
        → Agrees rest m (sized b n x data_of) (next_sized f (at m s) n size fill)
    unfolding sized need next_sized next received
    sized-Agrees s b n x size data_of fill e z h = elim (lt_or_ge (length b) n) [
      | inl l ↦
          let (p, e', s', q, _) = law.next_short s n (rw e l) in
          rw (lt→ltb _ _ l, q)
            (Fails-Agrees rest m [] [] err_short_bytes [] (io_error e') (at m s'))
      | inr l ↦
          let (s', q, d) = law.next_all s n (rw e l) in
          rw (le→ltb _ _ l, q, e, z, slice_from-drop b n l)
            (bind-Agrees f rest law m x _ _ (λ read.
              subst (λ t. Agrees rest m (data_of read t) (fill (at m s') read)) (d ∙ ap (drop n) e)
                (h s' read)))
    ]

    pub after_skip-Agrees :
        (s : S) (b : Bytes) (n : ℕ) (r : Bytes → Read Bytes) (k : Reader S → Step S E Bytes)
        → rest s ≡ b
        → n ≤ length b
        → ((s' : S) → Agrees rest m (r (rest s')) (k (at m s')))
        → Agrees rest m (r (drop n b)) (k (skip_over f (at m s) n))
    unfolding skip_over
    after_skip-Agrees s b n r k e l h =
        let (s', q, d) = law.skip_all_of s n (rw e l) in
        rw q (subst (λ t. Agrees rest m (r t) (k (at m s'))) (d ∙ ap (drop n) e) (h s'))

    pub str-Agrees :
        (fill : Reader S → ℕ → Step S E Bytes)
        → ((s : S) (read : ℕ) → Agrees rest m (string_data read (rest s)) (fill (at m s) read))
        → (lead : ℕ) (t : Bytes) (s : S) → rest s ≡ lead ∷ t
        → Agrees rest m (string_body (lead ∷ t)) (str_by_lead f fill lead (at m s))
    unfolding string_body str_by_lead
    str-Agrees fill h lead t s e =
        if-Agrees rest m _ _ _ _ _
          (after_skip-Agrees s (lead ∷ t) 1 (string_data (rfixstr lead))
            (λ m'. fill m' (rfixstr lead)) e (omega arith) (λ s'. h s' (rfixstr lead)))
          (if-Agrees rest m _ _ _ _ _
            (sized-Agrees s (lead ∷ t) 2 _ _ string_data fill e
              (get_elem?-take 2 1 (lead ∷ t) (omega arith)) h)
            (if-Agrees rest m _ _ _ _ _
              (sized-Agrees s (lead ∷ t) 3 _ _ string_data fill e (be_uint16-take 2 t (omega arith))
                h)
              (if-Agrees rest m _ _ _ _ _
                (sized-Agrees s (lead ∷ t) 5 _ _ string_data fill e
                  (be_uint32-take 4 t (omega arith)) h)
                (refuse-Agrees E rest m (at m s) _ _ _ _ _))))

    -- An error drops what was read.
    pub emptied-Agrees :
        (r : Read Bytes) (t : Step S E Bytes)
        → Agrees rest m r t
        → Agrees rest m r (
            t >>= λ (out, err, m'). elim err [
              | none ↦ some (out, none, m')
              | some e ↦ some ([], some e, m')
            ])
    unfolding Agrees
    emptied-Agrees none t h = rw h refl
    emptied-Agrees (some (v, o, none)) t (s, h, l) = rw h (s, refl, l)
    emptied-Agrees (some (v, o, some e)) t (v', e', m', h) = rw h ([], e', m', refl)

    pub string_fill-Agrees :
        (s : S) (read : ℕ) → Agrees rest m (string_data read (rest s)) (string_fill f (at m s) read)
    unfolding string_fill string_data
    string_fill-Agrees s zero =
        rw (le→ltb (length (rest s)) 0 (omega arith)) (done-Agrees E rest m [] (rest s) s refl)
    string_fill-Agrees s (suc n) =
        let d : (suc n == 0) ≡ false = ground arith in
        rw d (
          emptied-Agrees _ _
            (full-Agrees s (suc n) (replicate (suc n) 0) (length-replicate (suc n) 0)))

    pub read_into-Agrees :
        (scratch : Slice) (s : S) (read : ℕ)
        → Agrees rest m (string_data read (rest s)) (read_into f scratch (at m s) read)
    unfolding read_into
    read_into-Agrees scratch s read = full-Agrees s read _ (length-target scratch read)
