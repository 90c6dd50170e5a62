-- ===== src/Msgp/Writer/Objects/Refine.antt =====
-- msgp/write.go: sequences of calls of the methods of Writer.
use truepack.Prelude.{
  ℕ, ◌^◌, ◌<◌, refl, sym, inl, none, some, List, [], ◌∷◌, ◌++◌, append-nil, arith, length, All,
}
use truepack.Msgp.Append.{to32}
use truepack.Msgp.Append.Format.{map_header, str_header, bin_header}
use truepack.Msgp.Append.Laws.{to32_small}
use truepack.Msgp.Wire.{
  mnil, mfloat32, mfloat64, muint16, muint32, muint64, mint16, mint32, mint64, Bytes,
}
use truepack.Msgp.Writer.{IoWriter, Writer, Written, and_then, write, write_string_bytes}
use truepack.Msgp.Writer.Objects.{
  write_nil, write_float64, write_float32, write_int64, write_int16, write_int32, write_int,
  write_uint64, write_byte, write_uint16, write_uint32, write_uint, write_bytes_header, write_bytes,
  write_string_header, write_string, write_string_from_bytes, write_complex64, write_complex128,
  write_time, write_pairs, write_map_str_str,
}
use truepack.Msgp.Writer.Objects.Api.{
  string_bytes, pairs_bytes, WriteOp, op_map_header, op_array_header, op_nil, op_float64,
  op_float32, op_int64, op_int32, op_int16, op_int8, op_int, op_uint64, op_uint32, op_uint16,
  op_uint8, op_byte, op_uint, op_bytes_header, op_bytes, op_bool, op_string_header, op_string,
  op_string_from_bytes, op_complex64, op_complex128, op_time, op_map_str_str, op_write, encoding,
  InRange, encodings, write_object, write_all,
}
use truepack.Msgp.Writer.Objects.Laws.{
  time-Stores, put32, put64, write_map_header-Writes, write_array_header-Writes,
  write_bytes_header-Writes, write_string_header-Writes, write_int8-Writes, write_uint8-Writes,
  write_bool-Writes,
}
use truepack.Msgp.Writer.Output.{IsIoWriter, IsWriter, Writes, and_then-Writes}
use truepack.Msgp.Writer.Primitives.{
  put_all-Stores, push-Writes, prefix-Writes, require_put-Writes, write-Writes,
  write_string_bytes-Writes,
}

module _ {W X : Type 0} (io : IoWriter W X) (accepted : W → Bytes)
    (law : IsIoWriter io accepted) where
  -- The prefix of a string or of a blob, then its bytes.
  write_blob-Writes :
      (mw : Writer W) (s : Bytes) (header : ℕ → Bytes) (write_header : Writer W → ℕ → Written io)
      → IsWriter mw
      → length s < 2 ^ 32
      → (write_rest : Writer W → Bytes → Written io)
      → ((sz : ℕ) → Writes accepted mw (header sz) (write_header mw sz))
      → ((m : Writer W) → IsWriter m → Writes accepted m s (write_rest m s))
      → Writes accepted mw
          (header (length s) ++ s)
          (and_then io (write_header mw (to32 (length s))) (λ m. write_rest m s))
  write_blob-Writes mw s header write_header i h write_rest p q =
      rw (to32_small (length s) h)
        (and_then-Writes io accepted mw (header (length s)) s _ _ (p (length s)) (λ m j. q m j.0))

  pub write_string-Writes :
      (mw : Writer W) (s : Bytes)
      → IsWriter mw
      → length s < 2 ^ 32
      → Writes accepted mw (string_bytes s) (write_string io mw s)
  unfolding write_string
  write_string-Writes mw s i h =
      write_blob-Writes mw s str_header (write_string_header io) i h (write_string_bytes io)
        (write_string_header-Writes io accepted law mw i)
        (λ m j. write_string_bytes-Writes io accepted law m s j)

  pub write_string_from_bytes-Writes :
      (mw : Writer W) (s : Bytes)
      → IsWriter mw
      → length s < 2 ^ 32
      → Writes accepted mw (string_bytes s) (write_string_from_bytes io mw s)
  unfolding write_string_from_bytes
  write_string_from_bytes-Writes mw s i h =
      write_blob-Writes mw s str_header (write_string_header io) i h (write io)
        (write_string_header-Writes io accepted law mw i)
        (λ m j. write-Writes io accepted law m s j)

  pub write_bytes-Writes :
      (mw : Writer W) (b : Bytes)
      → IsWriter mw
      → length b < 2 ^ 32
      → Writes accepted mw (bin_header (length b) ++ b) (write_bytes io mw b)
  unfolding write_bytes
  write_bytes-Writes mw b i h =
      write_blob-Writes mw b bin_header (write_bytes_header io) i h (write io)
        (write_bytes_header-Writes io accepted law mw i) (λ m j. write-Writes io accepted law m b j)

  pub write_nothing :
      (mw : Writer W) → IsWriter mw → Writes {X = X} accepted mw [] (some (mw, none))
  write_nothing mw i = inl (mw, refl, (i, omega arith), sym (append-nil _))

  write_pairs-Writes :
      (mw : Writer W) (mp : List (Bytes × Bytes))
      → IsWriter mw
      → All (λ (key, val). (length key < 2 ^ 32) × (length val < 2 ^ 32)) mp
      → Writes accepted mw (pairs_bytes mp) (write_pairs io mw mp)
  unfolding write_pairs
  write_pairs-Writes mw [] i h = write_nothing mw i
  write_pairs-Writes mw ((key, val) ∷ mp) i ((hk, hv), h) =
      and_then-Writes io accepted mw (string_bytes key) _ _ _ (write_string-Writes mw key i hk)
        (λ m j.
          and_then-Writes io accepted m (string_bytes val) (pairs_bytes mp) _ _
            (write_string-Writes m val j.0 hv) (λ m' j'. write_pairs-Writes m' mp j'.0 h))

  pub write_object-Writes :
      (mw : Writer W) (op : WriteOp)
      → IsWriter mw
      → InRange op
      → Writes accepted mw (encoding op) (write_object io mw op)
  unfolding write_object encoding write_nil write_float64 write_float32 write_int64 write_int32
      write_int16 write_int write_uint64 write_uint32 write_uint16 write_byte write_uint
      write_complex64 write_complex128 write_time write_map_str_str
  write_object-Writes mw (op_map_header sz) i h = write_map_header-Writes io accepted law mw i sz
  write_object-Writes mw (op_array_header sz) i h =
      write_array_header-Writes io accepted law mw i sz
  write_object-Writes mw op_nil i h = push-Writes io accepted law mw mnil i
  write_object-Writes mw (op_float64 f) i h = put64 io accepted law mw i mfloat64 f
  write_object-Writes mw (op_float32 f) i h = put32 io accepted law mw i mfloat32 f
  write_object-Writes mw (op_int64 x) i h = put64 io accepted law mw i mint64 x
  write_object-Writes mw (op_int32 x) i h = put32 io accepted law mw i mint32 x
  write_object-Writes mw (op_int16 x) i h = (prefix-Writes io accepted law mw mint16 x i).1
  write_object-Writes mw (op_int8 x) i h = write_int8-Writes io accepted law mw i x h
  write_object-Writes mw (op_int x) i h = put64 io accepted law mw i mint64 x
  write_object-Writes mw (op_uint64 x) i h = put64 io accepted law mw i muint64 x
  write_object-Writes mw (op_uint32 x) i h = put32 io accepted law mw i muint32 x
  write_object-Writes mw (op_uint16 x) i h = (prefix-Writes io accepted law mw muint16 x i).1
  write_object-Writes mw (op_uint8 x) i h = write_uint8-Writes io accepted law mw i x h
  write_object-Writes mw (op_byte x) i h = write_uint8-Writes io accepted law mw i x h
  write_object-Writes mw (op_uint x) i h = put64 io accepted law mw i muint64 x
  write_object-Writes mw (op_bytes_header sz) i h =
      write_bytes_header-Writes io accepted law mw i sz
  write_object-Writes mw (op_bytes b) i h = write_bytes-Writes mw b i h
  write_object-Writes mw (op_bool b) i h = write_bool-Writes io accepted law mw i b
  write_object-Writes mw (op_string_header sz) i h =
      write_string_header-Writes io accepted law mw i sz
  write_object-Writes mw (op_string s) i h = write_string-Writes mw s i h
  write_object-Writes mw (op_string_from_bytes s) i h = write_string_from_bytes-Writes mw s i h
  write_object-Writes mw (op_complex64 re im) i h =
      require_put-Writes io accepted law mw 10 _ _ i refl (omega (arith, i.0)) (put_all-Stores _)
  write_object-Writes mw (op_complex128 re im) i h =
      require_put-Writes io accepted law mw 18 _ _ i refl (omega (arith, i.0)) (put_all-Stores _)
  write_object-Writes mw (op_time sec nsec) i h =
      require_put-Writes io accepted law mw 15 _ _ i refl (omega (arith, i.0))
        (time-Stores sec nsec)
  write_object-Writes mw (op_map_str_str mp) i (hl, h) = rw (to32_small (length mp) hl) (
      and_then-Writes io accepted mw (map_header (length mp)) _ _ _
        (write_map_header-Writes io accepted law mw i (length mp))
        (λ m j. write_pairs-Writes m mp j.0 h))
  write_object-Writes mw (op_write p) i h = write-Writes io accepted law mw p i

  -- A sequence of calls of the Writer's methods, on a writer in order and with values in range, does
  -- not panic: its output grows by the encodings of the objects, one behind the other, or a call
  -- returns an error and it grows by a prefix of them.
  pub write_all-Writes :
      (mw : Writer W) (ops : List WriteOp)
      → IsWriter mw
      → All InRange ops
      → Writes accepted mw (encodings ops) (write_all io mw ops)
  unfolding write_all
  write_all-Writes mw [] i h = write_nothing mw i
  write_all-Writes mw (op ∷ ops) i (h, hs) =
      and_then-Writes io accepted mw (encoding op) (encodings ops) _ _
        (write_object-Writes mw op i h) (λ m j. write_all-Writes m ops j.0 hs)
