-- ===== src/Lib.antt =====
-- truepack: MessagePack encoding of Go values, with field versions and type clues.
--
-- The program has a support library (msgp), a code generator (gen, parse, printer, cfg, main.go), a
-- schema package (green) and a tool that adds zid tags (cmd/addzid). This development is about the
-- support library, whose functions the generated code calls.
--
-- Prelude            shared names, lists, Go's slice expressions, the panic monad, bit lemmas.
-- Msgp/Wire          msgp/defs.go, msgp/elsize.go, msgp/errors.go: prefixes, the table of sizes as a
--                    function of the first byte, errors as a data type.
-- Msgp/Integers      msgp/integers.go: big-endian stores and loads.
-- Msgp/Slice         Go's byte slices with spare capacity, and `ensure` of msgp/write_bytes.go.
-- Msgp/Append        msgp/write_bytes.go: AppendX is append_x. Append/Format states the wire formats.
-- Msgp/Nilbits       msgp/nilbits.go: the stack of simulated nils.
-- Msgp/Read          msgp/read_bytes.go: ReadXBytes is read_x_bytes.
-- Msgp/Skip          msgp/read_bytes.go: NextType, getSize and Skip.
-- Msgp/Edit          msgp/edit.go: Locate, Replace, CopyReplace, Remove and HasKey have their names in
--                    small letters; `locate` of the file is locate_range and `replace` is
--                    replace_range. Edit/Format states what an encoded map is, Edit/Fields the
--                    functions on its list of fields.
-- Msgp/Extension     msgp/extension.go over byte slices. A user's extension is the record Extension of
--                    its methods, and RawExtension fills it; Extension/Laws states what the
--                    interface asks of them.
-- Msgp/Number        msgp/number.go over byte slices; AsInt is as_int.
-- Msgp/Writer        msgp/write.go: the buffered Writer over an io.Writer, which is the record
--                    IoWriter; WriteX is write_x, Require is require_cap. Writer/Output states the
--                    contract of an io.Writer and what a Writer has written, Writer/Objects/Api the
--                    bytes of each object.
-- Msgp/Value         interface values, of msgp/write_bytes.go (AppendIntf), msgp/read_bytes.go
--                    (ReadIntfBytes, ReadMapStrIntfBytes) and msgp/write.go (WriteIntf, GuessSize).
--                    Value/Format states the bytes of a value, Value/RoundTrip/Wire the value that the
--                    bytes stand for. Writer/Extension is WriteExtension of msgp/extension.go.
-- Msgp/Stream        msgp/read.go: the buffered Reader over a fwd.Reader of github.com/philhofer/fwd,
--                    which is the record FwdReader of the methods called; ReadX is read_x,
--                    ReadStringAsBytes stream_string_as_bytes, ReadExactBytes read_exact, NextType
--                    stream_next_type and Skip skip_object. Stream/Laws states the documented
--                    behaviour of a fwd.Reader, record IsStream, and what it means that a method
--                    agrees with a reader of slices.
-- Msgp/Safety        the readers on any input. Msgp/RoundTrip: the readers on what the appends
--                    write. Msgp/Errors: wrong, too large and truncated input.
-- Msgp/Tests         runs, and the theorems at concrete inputs.
--
-- A byte is a number below 256. An intN, uintN or float is its bit pattern, a number below 2 ^ N, so
-- that conversions of the same width keep the number; sign_extend is int64(x) of a narrower x. A
-- string or slice that is only read is the list of its bytes, and the nil slice is the empty one.
-- What a writer is given is a Slice, its visible and its spare bytes; stores that other slices over
-- the same memory would see are not modelled. A Go result (value, rest, err) is a triple; `none` in
-- place of it is a panic. A time is its instant, Unix seconds and nanoseconds.
--
-- Skip and ReadIntfBytes recur on fuel, one unit more than their input has bytes; each object has at
-- least one byte, so that this is enough. Skip of the stream Reader gets one
-- unit more than its stream has bytes. The platform has 64 bits (smallint is false).
--
-- An interface value is of the dynamic types that the code tells apart; a map in it is the list of its
-- entries in the order that the runtime picks. Values with methods of their own are left out, but for
-- *RawExtension, and no extension type is registered for ReadIntfBytes.
--
-- Not modelled: Raw, writeVal and writeStruct, the stream Reader's ReadIntf, ReadMapStrIntf and
-- ReadExtension, the stream methods of msgp/number.go, msgp/clue.go, JSON output, memory-mapped files;
-- and the code generator, the schemas and the tools, which print Go text or work on go/ast.
pub mod Prelude
pub mod Msgp
