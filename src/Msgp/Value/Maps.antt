-- ===== src/Msgp/Value/Maps.antt =====
-- msgp/read_bytes.go: ReadIntfBytes on arrays, maps and extensions, given that it reads their parts.
use truepack.Prelude.{
  ℕ, ◌+◌, ◌^◌, ◌≤◌, ◌<◌, ◌≡◌, refl, ap, ◌∙◌, false, Option, [], ◌++◌, append_assoc, arith, ltb,
  length, length-append,
}
use truepack.Msgp.Append.Format.{str_header}
use truepack.Msgp.Edit.{same_bytes}
use truepack.Msgp.Edit.Format.{key_bytes}
use truepack.Msgp.Nilbits.{NilBitsStack, is_always_nil}
use truepack.Msgp.Read.{ok}
use truepack.Msgp.Value.{
  Value, Values, no_values, value_more, Entries, no_entries, entry_more, value_count, entry_count,
}
use truepack.Msgp.Value.Read.{put_entry, read_values, read_entries, read_intf}
use truepack.Msgp.Value.Trips.{Reads, read_map_key-key_bytes}
use truepack.Msgp.Wire.{Bytes}

abbrev pub join : Entries → Entries → Entries
join no_entries fs = fs
join (entry_more k v es) fs = entry_more k v (join es fs)

join_step :
    (es : Entries) (k : Bytes) (v : Value) (fs : Entries)
    → join (join es (entry_more k v no_entries)) fs ≡ join es (entry_more k v fs)
join_step no_entries k v fs = refl
join_step (entry_more k' v' es) k v fs = ap (λ t. entry_more k' v' t) (join_step es k v fs)

-- None of the keys is `key`.
abbrev pub Without : Bytes → Entries → Type 0
Without key no_entries = Unit {0}
Without key (entry_more k v es) = (same_bytes k key ≡ false) × Without key es

-- `key` is none of the keys.
abbrev pub Apart : Bytes → Entries → Type 0
Apart key no_entries = Unit {0}
Apart key (entry_more k v es) = (same_bytes key k ≡ false) × Apart key es

-- The keys differ from each other.
abbrev pub Distinct : Entries → Type 0
Distinct no_entries = Unit {0}
Distinct (entry_more k v es) = Apart k es × Distinct es

-- No key of `fs` is one of `es`.
abbrev Disjoint : Entries → Entries → Type 0
Disjoint es no_entries = Unit {0}
Disjoint es (entry_more k v fs) = Without k es × Disjoint es fs

Without-end :
    (key k : Bytes) (v : Value) (es : Entries)
    → Without key es
    → same_bytes k key ≡ false
    → Without key (join es (entry_more k v no_entries))
Without-end key k v no_entries h e = (e, tt)
Without-end key k v (entry_more k' v' es) (f, h) e = (f, Without-end key k v es h e)

Disjoint-end :
    (k : Bytes) (v : Value) (es fs : Entries)
    → Disjoint es fs
    → Apart k fs
    → Disjoint (join es (entry_more k v no_entries)) fs
Disjoint-end k v es no_entries h a = tt
Disjoint-end k v es (entry_more k' v' fs) (w, h) (e, a) =
    (Without-end k' k v es w e, Disjoint-end k v es fs h a)

pub Disjoint-none : (fs : Entries) → Disjoint no_entries fs
Disjoint-none no_entries = tt
Disjoint-none (entry_more k v fs) = (tt, Disjoint-none fs)

-- A new key goes to the end.
put_entry-join :
    (key : Bytes) (v : Value) (es : Entries)
    → Without key es
    → put_entry key v es ≡ join es (entry_more key v no_entries)
unfolding put_entry
put_entry-join key v no_entries h = refl
put_entry-join key v (entry_more k w es) (e, h) = rw (e, put_entry-join key v es h) refl

key_bytes_one : (key rest : Bytes) → ltb (length (key_bytes key ++ rest)) 1 ≡ false
unfolding str_header
key_bytes_one key rest = ground arith

module _ (nbs : Option NilBitsStack) (live : is_always_nil nbs ≡ false) (behind : ℕ) where
  abbrev pub ReadsValues : Bytes → Values → Type 0
  ReadsValues bs ws =
      (fuel : ℕ) (rest : Bytes)
      → behind ≤ length rest
      → length (bs ++ rest) < fuel
      → read_values nbs (read_intf fuel nbs) (value_count ws) (bs ++ rest) ≡ ok ws rest

  abbrev pub ReadsEntries : Bytes → Entries → Type 0
  ReadsEntries bs fs =
      (fuel : ℕ) (rest : Bytes) (es : Entries)
      → behind ≤ length rest
      → length (bs ++ rest) < fuel
      → Disjoint es fs
      → read_entries nbs (read_intf fuel nbs) (entry_count fs) es (bs ++ rest)
        ≡ ok (join es fs) rest

  pub none-ReadsValues : ReadsValues [] no_values
  unfolding read_values
  none-ReadsValues fuel rest f l = refl

  pub more-ReadsValues :
      (bs cs : Bytes) (w : Value) (ws : Values)
      → Reads nbs live (behind + length cs) bs w
      → ReadsValues cs ws
      → ReadsValues (bs ++ cs) (value_more w ws)
  unfolding read_values
  more-ReadsValues bs cs w ws one all fuel rest f l =
      let same = append_assoc bs cs rest in
      let len = ap length same in
      rw same (
        rw (one fuel (cs ++ rest) (omega (arith, f, length-append cs rest)) (omega (arith, len)))
          (rw (all fuel rest f (omega (arith, len, length-append bs (cs ++ rest)))) refl))

  join_none : (es : Entries) → join es no_entries ≡ es
  join_none no_entries = refl
  join_none (entry_more k v es) = ap (λ t. entry_more k v t) (join_none es)

  pub none-ReadsEntries : ReadsEntries [] no_entries
  unfolding read_entries
  none-ReadsEntries fuel rest es f l d = rw (join_none es) refl

  pub more-ReadsEntries :
      (key bs cs : Bytes) (w : Value) (fs : Entries)
      → length key < 2 ^ 32
      → Reads nbs live (behind + length cs) bs w
      → Apart key fs
      → ReadsEntries cs fs
      → ReadsEntries (key_bytes key ++ (bs ++ cs)) (entry_more key w fs)
  unfolding read_entries
  more-ReadsEntries key bs cs w fs hk one apart all fuel rest es f l (without, d) =
      let same = append_assoc (key_bytes key) (bs ++ cs) rest in
      let same' = append_assoc bs cs rest in
      let len = ap length same in
      let len' = ap length same' in
      let len_key = length-append (key_bytes key) ((bs ++ cs) ++ rest) in
      rw
        (
          same,
          key_bytes_one key ((bs ++ cs) ++ rest),
          read_map_key-key_bytes nbs live behind key ((bs ++ cs) ++ rest) hk,
        )
        (rw same' (
          rw
            (
              one fuel (cs ++ rest) (omega (arith, f, length-append cs rest))
                  (omega (arith, len, len', len_key)),
              put_entry-join key w es without,
            )
            (all fuel rest (join es (entry_more key w no_entries)) f
                (omega (arith, len, len', len_key, length-append bs (cs ++ rest)))
                (Disjoint-end key w es fs d apart)
              ∙ ap (λ t. ok t rest) (join_step es key w fs))))
