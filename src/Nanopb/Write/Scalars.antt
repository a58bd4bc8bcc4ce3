-- ===== src/Nanopb/Write/Scalars.antt =====
-- What pb_encode_svarint, pb_encode_fixed32, pb_encode_fixed64, pb_encode_tag, pb_encode_tag_for_field
-- and pb_encode_string of Kasei/Pods/nanopb/pb_encode.c write.
use kaseiapp.Base.{ℕ, zero, suc, ◌+◌, ◌-◌, ◌*◌, ◌/◌, ◌%◌, ◌^◌, ◌<◌, bit_and, bit_or, arith}
use kaseiapp.Base.{◌≡◌, refl, ap, ◌∙◌, List, ◌++◌, none, some}
use kaseiapp.Base.{[], length, IsU32, IsU64, leb, if◌then◌else◌}
use kaseiapp.Base.Bits.{and_mask, or_high}
use kaseiapp.Nanopb.Pb.{
  Ltype, bool, varint, uvarint, svarint, fixed32, fixed64, bytes, string, submessage, extension,
  fixed_length_bytes, FieldInfo, invalid_field_type,
}
use kaseiapp.Nanopb.Ostream.{pb_write, fail}
use kaseiapp.Nanopb.Ostream.Emits.{Emits, Implements, Wire, emitted, stopped}
use kaseiapp.Nanopb.Ostream.Emits.Write.{pb_write-Emits}
use kaseiapp.Nanopb.Ostream.Emits.Sequence.{>>-Emits, fail-Implements}
use kaseiapp.Nanopb.Write.{
  zigzag, fixed_bytes, wire_type_of, pb_encode_svarint, pb_encode_fixed32, pb_encode_fixed64,
  pb_encode_tag, pb_encode_tag_for_field, pb_encode_string,
}
use native.Mathlib.Nat.{mod-eq_of_lt}
use kaseiapp.Nanopb.Write.Varint.{varint_bytes, pb_encode_varint-Emits}

pub zigzag-IsU64 : (v : ℕ) → IsU64 v → IsU64 (zigzag v)
unfolding zigzag
zigzag-IsU64 v h = ground arith

-- A negative number becomes an odd one, any other an even one.
pub zigzag_lem :
    (v : ℕ) → IsU64 v → zigzag v ≡ (if leb (2 ^ 63) v then 2 * (2 ^ 64 - 1 - v) + 1 else 2 * v)
unfolding zigzag
zigzag_lem v h = ground arith

-- `pb_encode_svarint` writes the varint of the zigzag code of a 64-bit pattern.
pub pb_encode_svarint-Emits :
    (v : ℕ) → IsU64 v → Emits (pb_encode_svarint v) (varint_bytes (zigzag v))
unfolding pb_encode_svarint
pb_encode_svarint-Emits v h = (pb_encode_varint-Emits (zigzag v) (zigzag-IsU64 v h)).0

pub length-fixed_bytes : (n v : ℕ) → length (fixed_bytes n v) ≡ n
unfolding fixed_bytes
length-fixed_bytes zero v = refl
length-fixed_bytes (suc n) v = ap suc (length-fixed_bytes n (v / 256))

pub low_byte : (v : ℕ) → bit_and v 0xff ≡ v % 256
low_byte v = and_mask 8 v

pub pb_encode_fixed32-Emits : (v : ℕ) → Emits (pb_encode_fixed32 v) (fixed_bytes 4 v)
unfolding pb_encode_fixed32
pb_encode_fixed32-Emits v = pb_write-Emits (fixed_bytes 4 v)

pub pb_encode_fixed64-Emits : (v : ℕ) → Emits (pb_encode_fixed64 v) (fixed_bytes 8 v)
unfolding pb_encode_fixed64
pb_encode_fixed64-Emits v = pb_write-Emits (fixed_bytes 8 v)

-- The key of a field: its number above three bits of wire type.
abbrev pub tag_bytes : ℕ → ℕ → List ℕ
tag_bytes wiretype number = varint_bytes (number * 8 + wiretype)

pub pb_encode_tag-Emits :
    (wiretype number : ℕ)
    → wiretype < 8
    → IsU32 number
    → Emits (pb_encode_tag wiretype number) (tag_bytes wiretype number)
unfolding pb_encode_tag
pb_encode_tag-Emits wiretype number hw hn =
    rw key (pb_encode_varint-Emits (number * 8 + wiretype) (omega arith)).0
  where
    key : bit_or (number * 2 ^ 3 % 2 ^ 64) wiretype ≡ number * 8 + wiretype
    key = ap (λ (t : ℕ). bit_or t wiretype) (omega arith) ∙ or_high 3 wiretype number hw

-- The key of a field by its type; none for an extension.
abbrev pub field_tag_bytes : FieldInfo → Wire
field_tag_bytes field = elim (wire_type_of field.ltype) [
  | some wiretype ↦ emitted (tag_bytes wiretype field.tag)
  | none ↦ stopped []
]

-- Length-delimited bytes.
abbrev pub string_bytes : List ℕ → List ℕ
string_bytes bs = varint_bytes (length bs) ++ bs

pub pb_encode_string-Emits :
    (bs : List ℕ) → IsU64 (length bs) → Emits (pb_encode_string bs (length bs)) (string_bytes bs)
unfolding pb_encode_string
pb_encode_string-Emits bs h =
    >>-Emits _ (pb_write bs (length bs)) (varint_bytes (length bs)) bs
      (rw (mod-eq_of_lt {n = length bs} {m = 2 ^ 64} h) (pb_encode_varint-Emits (length bs) h).0)
      (pb_write-Emits bs)

pub pb_encode_tag_for_field-Implements :
    (field : FieldInfo)
    → IsU32 field.tag
    → Implements (pb_encode_tag_for_field field) (field_tag_bytes field)
unfolding pb_encode_tag_for_field
pb_encode_tag_for_field-Implements field h = by_wire_type field.ltype
  where
    by_wire_type :
        (t : Ltype)
        → Implements
            (elim (wire_type_of t) [
              | some wiretype ↦ pb_encode_tag wiretype field.tag
              | none ↦ fail invalid_field_type
            ])
            (elim (wire_type_of t) [
              | some wiretype ↦ emitted (tag_bytes wiretype field.tag)
              | none ↦ stopped []
            ])
    by_wire_type extension = fail-Implements invalid_field_type
    by_wire_type bool = pb_encode_tag-Emits 0 field.tag (omega arith) h
    by_wire_type varint = pb_encode_tag-Emits 0 field.tag (omega arith) h
    by_wire_type uvarint = pb_encode_tag-Emits 0 field.tag (omega arith) h
    by_wire_type svarint = pb_encode_tag-Emits 0 field.tag (omega arith) h
    by_wire_type fixed32 = pb_encode_tag-Emits 5 field.tag (omega arith) h
    by_wire_type fixed64 = pb_encode_tag-Emits 1 field.tag (omega arith) h
    by_wire_type bytes = pb_encode_tag-Emits 2 field.tag (omega arith) h
    by_wire_type string = pb_encode_tag-Emits 2 field.tag (omega arith) h
    by_wire_type submessage = pb_encode_tag-Emits 2 field.tag (omega arith) h
    by_wire_type fixed_length_bytes = pb_encode_tag-Emits 2 field.tag (omega arith) h
