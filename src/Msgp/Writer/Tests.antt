-- ===== src/Msgp/Writer/Tests.antt =====
-- Runs of msgp/write.go over an io.Writer that has room for so many bytes, like a disk.
use truepack.Prelude.{
  ℕ, ◌-◌, ◌≡◌, refl, Option, none, some, List, [], ◌∷◌, ◌++◌, arith, ◌==◌, if◌then◌else◌, length,
  take, replicate,
}
use Prim.Native.Nat.{min}
use truepack.Msgp.Append.Format.{map_header, str_header}
use truepack.Msgp.Extension.{RawExtension, raw_extension}
use truepack.Msgp.Extension.Laws.{ext_header}
use truepack.Msgp.Wire.{Bytes}
use truepack.Msgp.Writer.{IoWriter, Writer, flush, append, write, encode}
use truepack.Msgp.Writer.Delivery.{append-Writes, encode_lem}
use truepack.Msgp.Writer.Extension.{write_extension}
use truepack.Msgp.Writer.Extension.Laws.{stream_ext_header}
use truepack.Msgp.Writer.Extension.Raw.{write_raw_extension-Writes}
use truepack.Msgp.Writer.Flush.{Flushes, flush-Flushes}
use truepack.Msgp.Writer.Objects.Api.{
  int8_bytes, WriteOp, op_map_header, op_int8, op_string, encoding, encodings, write_all,
}
use truepack.Msgp.Writer.Objects.Refine.{write_all-Writes}
use truepack.Msgp.Writer.Output.{IsIoWriter, IsWriter, Writes}
use truepack.Msgp.Writer.Primitives.{write-Writes}

-- The bytes that are stored, and the room for more.
abbrev pub Disk : Type 0
Disk = Bytes × ℕ

abbrev unless_all : ℕ → ℕ → Option ℕ
unless_all n m = if n == m then none else some 0

abbrev disk_write : Disk → Bytes → Disk × ℕ × Option ℕ
disk_write (log, room) p =
    let n = min room (length p) in ((log ++ take n p, room - n), n, unless_all n (length p))

abbrev pub disk : IoWriter Disk ℕ
disk = record { write_to = disk_write }

abbrev pub stored : Disk → Bytes
stored d = d.0

full_or_error : (n m : ℕ) → unless_all n m ≡ none → n ≡ m
full_or_error n m h = ground (arith, h)

pub disk-IsIoWriter : IsIoWriter disk stored
disk-IsIoWriter (log, room) p = (omega arith, refl, full_or_error (min room (length p)) (length p))

-- A buffer of 18 bytes, 16 of them written, over a disk.
abbrev pub sixteen : ℕ → Writer Disk
sixteen room = record { w = (7 ∷ [], room); buf = replicate 16 1 ++ (0 ∷ 0 ∷ []); wloc = 16 }

pub sixteen-IsWriter : (room : ℕ) → IsWriter (sixteen room)
sixteen-IsWriter room = (omega arith, omega arith)

-- A flush onto a disk with room for three bytes keeps the other thirteen at the front.
short_flush :
    flush disk (sixteen 3)
    ≡ some (
      record { w = (7 ∷ 1 ∷ 1 ∷ 1 ∷ [], 0); buf = replicate 16 1 ++ (0 ∷ 0 ∷ []); wloc = 13 },
      some 0,
    )
unfolding flush
short_flush = refl

-- Twenty bytes by Append: two of them are lost.
append_drops :
    append disk (sixteen 100) (replicate 20 5)
    ≡ some (record { w = (7 ∷ replicate 16 1, 84); buf = replicate 18 5; wloc = 18 }, none)
unfolding append flush
append_drops = refl

-- Twenty bytes by Write reach the disk.
write_through :
    write disk (sixteen 100) (replicate 20 5)
    ≡ some (
      record {
        w = (7 ∷ (replicate 16 1 ++ replicate 20 5), 64);
        buf = replicate 16 1 ++ (0 ∷ 0 ∷ []);
        wloc = 0;
      },
      none,
    )
unfolding write flush
write_through = refl

abbrev three_ops : List WriteOp
three_ops = op_map_header 1 ∷ op_string (97 ∷ []) ∷ op_int8 200 ∷ []

flush-Flushes_example : Flushes disk stored disk-IsIoWriter (sixteen 3) (flush disk (sixteen 3))
flush-Flushes_example = flush-Flushes disk stored disk-IsIoWriter (sixteen 3) (sixteen-IsWriter 3)

write-Writes_example :
    Writes stored (sixteen 10) (replicate 20 5) (write disk (sixteen 10) (replicate 20 5))
write-Writes_example =
    write-Writes disk stored disk-IsIoWriter (sixteen 10) (replicate 20 5) (sixteen-IsWriter 10)

write_all-Writes_example :
    Writes stored
      (sixteen 100)
      (129 ∷ 161 ∷ 97 ∷ 208 ∷ 200 ∷ [])
      (write_all disk (sixteen 100) three_ops)
unfolding encoding int8_bytes map_header str_header
write_all-Writes_example =
    write_all-Writes disk stored disk-IsIoWriter (sixteen 100) three_ops (sixteen-IsWriter 100)
      (_, (omega arith, (omega arith, _)))

append-Writes_example :
    Writes stored (sixteen 100) (replicate 18 5) (append disk (sixteen 100) (replicate 20 5))
append-Writes_example =
    append-Writes disk stored disk-IsIoWriter (sixteen 100) (replicate 20 5) (sixteen-IsWriter 100)

encode_lem_example :
    (w' : Disk) × (err : Option ℕ) × (rest : Bytes) × (encode disk
        (sixteen 0)
        ([], 4)
        (λ mw. write_all disk mw three_ops)
      ≡ some (w', err))
    × (w'.0 ++ rest ≡ 129 ∷ 161 ∷ 97 ∷ 208 ∷ 200 ∷ [])
    × (err ≡ none → rest ≡ [])
unfolding encoding int8_bytes map_header str_header
encode_lem_example =
    encode_lem disk stored disk-IsIoWriter (sixteen 0) ([], 4) (encodings three_ops)
      (λ mw. write_all disk mw three_ops) (omega arith)
      (λ mw i.
        write_all-Writes disk stored disk-IsIoWriter mw three_ops i
          (_, (omega arith, (omega arith, _))))

-- An extension of twenty bytes, which do not fit in the buffer.
abbrev long_extension : RawExtension
long_extension = record { data_slice = record { visible = replicate 20 5; spare = [] }; typ = 9 }

write_raw_extension-Writes_example :
    Writes stored
      (sixteen 100)
      (199 ∷ 20 ∷ 9 ∷ replicate 20 5)
      (write_extension disk raw_extension (λ u. 0) (sixteen 100) long_extension)
unfolding stream_ext_header ext_header
write_raw_extension-Writes_example =
    write_raw_extension-Writes disk stored disk-IsIoWriter (λ u. 0) (sixteen 100) long_extension
      (sixteen-IsWriter 100) (omega arith)
