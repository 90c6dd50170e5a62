-- ===== src/Msgp/Writer/Extension/Raw.antt =====
-- msgp/extension.go: WriteExtension of a RawExtension, whose MarshalBinaryTo is a copy.
use truepack.Prelude.{◌<◌, refl, ap, none, ◌++◌, length, drop, take_all}
use truepack.Msgp.Extension.{RawExtension, raw_extension}
use truepack.Msgp.Slice.{go_copy}
use truepack.Msgp.Wire.{Bytes}
use truepack.Msgp.Writer.{IoWriter, Writer}
use truepack.Msgp.Writer.Extension.{write_extension}
use truepack.Msgp.Writer.Extension.Laws.{stream_ext_header, EncodesFront, write_extension-Writes}
use truepack.Msgp.Writer.Output.{IsIoWriter, IsWriter, Writes}

raw-EncodesFront :
    (r : RawExtension) → r.typ < 256 → EncodesFront raw_extension r r.data_slice.visible
unfolding raw_extension go_copy
raw-EncodesFront r h = record {
  front_size = refl;
  front_type = h;
  front_copies = λ d l.
      ap (λ t. (t ++ drop (length r.data_slice.visible) d, none))
        (take_all r.data_slice.visible (length d) l);
}

-- WriteExtension of a RawExtension, whose type is an int8, on a writer in order does not panic: the
-- output grows by the header, a fixext where there is one of the size, and the data, whether these
-- fit in the buffer, or the data becomes a longer buffer; or there is an error, and it grows by a
-- prefix of them.
pub write_raw_extension-Writes :
    {W X : Type 0} (io : IoWriter W X) (accepted : W → Bytes)
    → IsIoWriter io accepted
    → (lift : Unit {0} → X) (mw : Writer W) (r : RawExtension) → IsWriter mw
    → r.typ < 256
    → Writes accepted mw
        (stream_ext_header (length r.data_slice.visible) r.typ ++ r.data_slice.visible)
        (write_extension io raw_extension lift mw r)
unfolding raw_extension
write_raw_extension-Writes io accepted law lift mw r i h =
    write_extension-Writes io accepted law raw_extension lift r r.data_slice.visible
      (raw-EncodesFront r h) mw i
