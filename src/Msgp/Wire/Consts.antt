-- ===== src/Msgp/Wire/Consts.antt =====
-- msgp/defs.go: the masks and the byte prefixes; msgp/extension.go: the extension numbers.
use truepack.Prelude.{ℕ}

abbrev pub last4 : ℕ
last4 = 0x0f

abbrev pub first4 : ℕ
first4 = 0xf0

abbrev pub last5 : ℕ
last5 = 0x1f

abbrev pub first3 : ℕ
first3 = 0xe0

abbrev pub last7 : ℕ
last7 = 0x7f

abbrev pub mfixint : ℕ
mfixint = 0x00

abbrev pub mnfixint : ℕ
mnfixint = 0xe0

abbrev pub mfixmap : ℕ
mfixmap = 0x80

abbrev pub mfixarray : ℕ
mfixarray = 0x90

abbrev pub mfixstr : ℕ
mfixstr = 0xa0

abbrev pub mnil : ℕ
mnil = 0xc0

abbrev pub mfalse : ℕ
mfalse = 0xc2

abbrev pub mtrue : ℕ
mtrue = 0xc3

abbrev pub mbin8 : ℕ
mbin8 = 0xc4

abbrev pub mbin16 : ℕ
mbin16 = 0xc5

abbrev pub mbin32 : ℕ
mbin32 = 0xc6

abbrev pub mext8 : ℕ
mext8 = 0xc7

abbrev pub mext16 : ℕ
mext16 = 0xc8

abbrev pub mext32 : ℕ
mext32 = 0xc9

abbrev pub mfloat32 : ℕ
mfloat32 = 0xca

abbrev pub mfloat64 : ℕ
mfloat64 = 0xcb

abbrev pub muint8 : ℕ
muint8 = 0xcc

abbrev pub muint16 : ℕ
muint16 = 0xcd

abbrev pub muint32 : ℕ
muint32 = 0xce

abbrev pub muint64 : ℕ
muint64 = 0xcf

abbrev pub mint8 : ℕ
mint8 = 0xd0

abbrev pub mint16 : ℕ
mint16 = 0xd1

abbrev pub mint32 : ℕ
mint32 = 0xd2

abbrev pub mint64 : ℕ
mint64 = 0xd3

abbrev pub mfixext1 : ℕ
mfixext1 = 0xd4

abbrev pub mfixext2 : ℕ
mfixext2 = 0xd5

abbrev pub mfixext4 : ℕ
mfixext4 = 0xd6

abbrev pub mfixext8 : ℕ
mfixext8 = 0xd7

abbrev pub mfixext16 : ℕ
mfixext16 = 0xd8

abbrev pub mstr8 : ℕ
mstr8 = 0xd9

abbrev pub mstr16 : ℕ
mstr16 = 0xda

abbrev pub mstr32 : ℕ
mstr32 = 0xdb

abbrev pub marray16 : ℕ
marray16 = 0xdc

abbrev pub marray32 : ℕ
marray32 = 0xdd

abbrev pub mmap16 : ℕ
mmap16 = 0xde

abbrev pub mmap32 : ℕ
mmap32 = 0xdf

abbrev pub complex64_extension : ℕ
complex64_extension = 3

abbrev pub complex128_extension : ℕ
complex128_extension = 4

abbrev pub time_extension : ℕ
time_extension = 5
