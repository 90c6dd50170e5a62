-- ===== src/Msgp/Stream/Tests.antt =====
-- msgp/read.go: the Reader on a stream of given bytes, all of which are buffered.
use truepack.Prelude.{
  ◌≡◌, refl, true, false, Option, none, some, [], ◌∷◌, arith, ltb, if◌then◌else◌, lt→ltb, le→ltb,
  length, take, drop,
}
use truepack.Msgp.Integers.{join32, be_uint32}
use truepack.Msgp.Nilbits.{is_always_nil}
use truepack.Msgp.Read.{nil_slice}
use truepack.Msgp.Skip.{size_by_mode, is_elements, get_size, skip, skip_bytes}
use truepack.Msgp.Stream.{
  FwdReader, Reader, StreamError, io_error, msgp_error, received, peek, next, next_value,
  after_skip, skip_return, skip_over, nil_peeked, check_and_consume_nil, guard, by_lead,
}
use truepack.Msgp.Stream.Blobs.{filled, read_full, read_into, bytes_peeked, read_bytes}
use truepack.Msgp.Stream.Laws.{IsStream, Agrees}
use truepack.Msgp.Stream.Narrow.{IntegersAgree, read_integers-Agree}
use truepack.Msgp.Stream.Numbers.{int64_by_lead, read_int64}
use truepack.Msgp.Stream.Sizes.{skip_ext32_buffered}
use truepack.Msgp.Stream.Skips.{skip_object}
use truepack.Msgp.Stream.Strings.{StringsAgree, read_strings-Agree}
use truepack.Msgp.Stream.Walk.{skip_read, no_ext32, reader_skip_lem}
use truepack.Msgp.Stream.Wide.{FixedAgree, read_fixed-Agree}
use truepack.Msgp.Wire.{
  mnil, mext32, sizes, Bytes, isfixint, isnfixint, rfixint, rfixstr, rfixarray, err_short_bytes,
}

-- What a list of bytes that is also the state delivers, all of which is buffered.
abbrev list_reader : FwdReader Bytes (Unit {0})
list_reader = record {
  peek_bytes = λ s n. if ltb (length s) n then (s, some tt, s) else (take n s, none, s);
  next_bytes = λ s n. if ltb (length s) n then (s, some tt, s) else (take n s, none, drop n s);
  skip_bytes_of = λ s n. if ltb (length s) n then (some tt, s) else (none, drop n s);
  read_full_bytes = λ s p.
      if ltb (length s) (length p)
      then (p, some tt, s)
      else (take (length p) s, none, drop (length p) s);
  buffered_of = length;
  is_eof = λ e. true;
}

list_reader-IsStream : IsStream list_reader (λ s. s)
list_reader-IsStream = record {
  peek_all = λ s n h. (s, rw (le→ltb _ _ h) refl, refl);
  peek_short = λ s n h. (tt, s, rw (lt→ltb _ _ h) refl, refl, refl);
  next_all = λ s n h. (drop n s, rw (le→ltb _ _ h) refl, refl);
  next_short = λ s n h. (s, tt, s, rw (lt→ltb _ _ h) refl, refl);
  skip_all_of = λ s n h. (drop n s, rw (le→ltb _ _ h) refl, refl);
  skip_short = λ s n h. (tt, s, rw (lt→ltb _ _ h) refl);
  full_all = λ s p h. (drop (length p) s, rw (le→ltb _ _ h) refl, refl);
  buffered_within = λ s. omega arith;
  full_short = λ s p h. (p, tt, s, rw (lt→ltb _ _ h) refl);
}

abbrev on : Bytes → Reader Bytes
on b = record { r = b; always_nil = false; lifo_always_nil = [] }

-- The fixint 7 and a byte behind it; then -1 as an int16, whose second byte is missing.
int_read : read_int64 list_reader (on (7 ∷ 9 ∷ [])) ≡ some (7, none, on (9 ∷ []))
unfolding read_int64 by_lead guard check_and_consume_nil nil_peeked peek received int64_by_lead
    skip_return after_skip isfixint rfixint
int_read = refl

int_short :
    read_int64 list_reader (on (0xd1 ∷ 0xff ∷ []))
    ≡ some (0, some (io_error tt), on (0xd1 ∷ 0xff ∷ []))
unfolding read_int64 by_lead guard check_and_consume_nil nil_peeked peek received int64_by_lead
    next_value next isfixint isnfixint
int_short = refl

-- A bin object with its two bytes, into a buffer that has room for one.
bytes_read :
    read_bytes list_reader
      (on (0xc4 ∷ 2 ∷ 5 ∷ 6 ∷ 7 ∷ []))
      (record { visible = []; spare = 0 ∷ [] })
    ≡ some (5 ∷ 6 ∷ [], none, on (7 ∷ []))
unfolding read_bytes guard check_and_consume_nil nil_peeked peek received bytes_peeked skip_over
    read_into read_full filled
bytes_read = refl

read_integers-Agree_example : IntegersAgree list_reader (λ s. s) none (on (0xd0 ∷ 0xfe ∷ 1 ∷ []))
unfolding is_always_nil
read_integers-Agree_example =
    read_integers-Agree list_reader (λ s. s) list_reader-IsStream none (on (0xd0 ∷ 0xfe ∷ 1 ∷ []))
      refl

read_fixed-Agree_example : FixedAgree list_reader (λ s. s) none (on (0xca ∷ 0 ∷ 0 ∷ 0 ∷ 0 ∷ []))
unfolding is_always_nil
read_fixed-Agree_example =
    read_fixed-Agree list_reader (λ s. s) list_reader-IsStream none (on (0xca ∷ 0 ∷ 0 ∷ 0 ∷ 0 ∷ []))
      refl

read_strings-Agree_example :
    StringsAgree list_reader (λ s. s) none (on (0xa1 ∷ 65 ∷ 66 ∷ [])) nil_slice
unfolding is_always_nil
read_strings-Agree_example =
    read_strings-Agree list_reader (λ s. s) list_reader-IsStream none (on (0xa1 ∷ 65 ∷ 66 ∷ []))
      refl nil_slice

-- An array with a string and a nil in it, and a byte behind it. A byte of the string is the prefix of
-- ext 32, which is not at the head of an object.
abbrev array : Bytes
array = 0x92 ∷ 0xa2 ∷ 65 ∷ mext32 ∷ mnil ∷ 7 ∷ []

reader_skip_lem_example :
    Agrees (λ s. s) (on array) (skip_read (skip_bytes array)) (skip_object list_reader 7 (on array))
    × ((x : Unit {0} × Option (StreamError (Unit {0})) × Reader Bytes) × (skip_object list_reader 7
            (on array)
          ≡ some x))
unfolding no_ext32 get_size sizes size_by_mode is_elements skip rfixarray rfixstr
reader_skip_lem_example = reader_skip_lem list_reader (λ s. s) list_reader-IsStream (on array) refl

abbrev ext32 : Bytes
ext32 = mext32 ∷ 0 ∷ 0 ∷ 0 ∷ 1 ∷ 9 ∷ 65 ∷ []

skip_ext32_buffered_example :
    (get_size ext32 ≡ some (7, 0, none))
    × ((s : Bytes) × (skip_object list_reader 8 (on ext32)
          ≡ some (tt, some (msgp_error err_short_bytes), on s)))
unfolding be_uint32 join32
skip_ext32_buffered_example =
    skip_ext32_buffered list_reader (λ s. s) list_reader-IsStream (on ext32)
      (0 ∷ 0 ∷ 0 ∷ 1 ∷ 9 ∷ 65 ∷ []) 1 7 refl (omega arith) refl (omega arith)
