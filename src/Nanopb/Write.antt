-- ===== src/Nanopb/Write.antt =====
-- The helper functions of Kasei/Pods/nanopb/pb_encode.c: varints, fixed-width integers, tags and
-- strings on an output stream.
pub mod Varint
pub mod Scalars
use kaseiapp.Base.{ℕ, zero, suc, ◌+◌, ◌-◌, ◌*◌, ◌/◌, ◌%◌, ◌^◌, ◌<◌, bit_and, bit_or, arith}
use kaseiapp.Base.{Option, none, some, List, [], ◌∷◌, leb, ltb, if◌then◌else◌, length}
use kaseiapp.Base.Order.{lt_wf}
use kaseiapp.Nanopb.Pb.{
  Ltype, bool, varint, uvarint, svarint, fixed32, fixed64, bytes, string, submessage, extension,
  fixed_length_bytes, FieldInfo, invalid_field_type,
}
use kaseiapp.Nanopb.Pb.WireType
use kaseiapp.Nanopb.Ostream.{Writer, fail, ◌>>◌, pb_write}
use mathlib.Core.Logic.{dite}
use mathlib.Core.WellFounded.{Acc}
use native.Mathlib.Decide.{dec_lt}

pub shift_shrinks : (v : ℕ) → 0 < v → v / 128 < v
shift_shrinks v h = omega arith

-- `buffer[i] = (value & 0x7F) | 0x80; value >>= 7;` while value is not 0.
unfoldable pub varint_loop : (v : ℕ) → Acc ◌<◌ v → List ℕ
varint_loop v (Acc.intro _ smaller) =
    dite (dec_lt 0 v)
      (λ more.
        (bit_or (bit_and v 0x7f) 0x80 % 256)
        ∷ varint_loop (v / 128) (smaller (v / 128) (shift_shrinks v more)))
      (λ _. [])

-- `buffer[i-1] &= 0x7F`
unfoldable pub unset_top_bit : List ℕ → List ℕ
unset_top_bit [] = []
unset_top_bit (b ∷ []) = bit_and b 0x7f ∷ []
unset_top_bit (b ∷ c ∷ bs) = b ∷ unset_top_bit (c ∷ bs)

unfoldable pub varint_buffer : ℕ → List ℕ
unfolding varint_loop unset_top_bit lt_wf dec_lt
varint_buffer value = unset_top_bit (varint_loop value (lt_wf.apply value))

unfoldable pub pb_encode_varint : ℕ → Writer
unfolding varint_buffer
pb_encode_varint value =
    if leb value 0x7f
    then pb_write (value % 256 ∷ []) 1
    else pb_write (varint_buffer value) (length (varint_buffer value))

-- A `pb_int64_t` is its bit pattern, below 2 ^ 64; it is negative from 2 ^ 63 on.
unfoldable pub zigzag : ℕ → ℕ
zigzag value = if leb (2 ^ 63) value then 2 ^ 64 - 1 - value * 2 % 2 ^ 64 else value * 2 % 2 ^ 64

unfoldable pub pb_encode_svarint : ℕ → Writer
unfolding zigzag
pb_encode_svarint value = pb_encode_varint (zigzag value)

-- The bytes `(val >> 8 * i) & 0xFF`, for i below `n`.
unfoldable pub fixed_bytes : ℕ → ℕ → List ℕ
fixed_bytes zero val = []
fixed_bytes (suc n) val = bit_and val 0xff ∷ fixed_bytes n (val / 256)

unfoldable pub pb_encode_fixed32 : ℕ → Writer
unfolding fixed_bytes
pb_encode_fixed32 val = pb_write (fixed_bytes 4 val) 4

unfoldable pub pb_encode_fixed64 : ℕ → Writer
unfolding fixed_bytes
pb_encode_fixed64 val = pb_write (fixed_bytes 8 val) 8

unfoldable pub pb_encode_tag : ℕ → ℕ → Writer
pb_encode_tag wiretype field_number =
    pb_encode_varint (bit_or (field_number * 2 ^ 3 % 2 ^ 64) wiretype)

-- The `switch` on the PB_LTYPE; an extension has no wire type.
abbrev pub wire_type_of : Ltype → Option ℕ
wire_type_of bool = some WireType.varint
wire_type_of varint = some WireType.varint
wire_type_of uvarint = some WireType.varint
wire_type_of svarint = some WireType.varint
wire_type_of fixed32 = some WireType.fixed32
wire_type_of fixed64 = some WireType.fixed64
wire_type_of bytes = some WireType.string
wire_type_of string = some WireType.string
wire_type_of submessage = some WireType.string
wire_type_of fixed_length_bytes = some WireType.string
wire_type_of extension = none

unfoldable pub pb_encode_tag_for_field : FieldInfo → Writer
pb_encode_tag_for_field field = elim (wire_type_of field.ltype) [
  | some wiretype ↦ pb_encode_tag wiretype field.tag
  | none ↦ fail invalid_field_type
]

-- `size` bytes from `buffer`, behind their number.
unfoldable pub pb_encode_string : List ℕ → ℕ → Writer
pb_encode_string buffer size = pb_encode_varint (size % 2 ^ 64) >> pb_write buffer size
