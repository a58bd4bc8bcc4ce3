-- ===== src/Nanopb/Wire/Tests.antt =====
-- The encoder of Kasei/Pods/nanopb/pb_encode.c at a message of three fields, and the theorems on it.
use kaseiapp.Base.{ℕ, ◌≡◌, refl, arith, none, List, [], ◌∷◌, ◌==◌, if◌then◌else◌, IsByte}
use kaseiapp.Base.Memory.{Memory, load, pos, negsuc}
use kaseiapp.Nanopb.Pb.{
  FieldInfo, varint, svarint, string, submessage, required, optional, repeated, static,
}
use kaseiapp.Nanopb.Ostream.{Ostream, pb_write, Writer, done, pb_ostream_from_buffer}
use kaseiapp.Nanopb.Ostream.Emits.{IsReady, Behaves, advance, Implements, Wire, emitted, stopped}
use kaseiapp.Nanopb.Ostream.Emits.Sequence.{done-Emits}
use kaseiapp.Base.{true}
use kaseiapp.Nanopb.RoundTrip.{from_buffer-IsReady}
use kaseiapp.Nanopb.Ostream.Emits.Write.{pb_write-Emits}
use kaseiapp.Nanopb.Fields.Find.{names_field, pb_field_iter_find-names_field}
use kaseiapp.Nanopb.Fields.{iter_at, pb_field_iter_find, Fields, last, field, null, submsg}
use kaseiapp.Nanopb.Field.{pb_encode_submessage}
use kaseiapp.Nanopb.Encode.{pb_encode, pb_get_encoded_size}
use kaseiapp.Nanopb.Wire.{delimited}
use kaseiapp.Nanopb.Reference.{value_encoding, has_nonzero, message_encoding}
use kaseiapp.Nanopb.Wire.Submessage.{pb_encode_submessage_lem}
use kaseiapp.Nanopb.Wire.Message.{pb_get_encoded_size_failed}
use kaseiapp.Nanopb.Write.{pb_encode_varint}
use kaseiapp.Nanopb.Write.Varint.{base128, varint_bytes, pb_encode_varint-Emits}

-- A struct at 16: an int32_t that is 150, an array of four int32_t with its count, which is 2, and a
-- submessage that has one int32_t.
abbrev struct_at_16 : Memory
struct_at_16 a =
    if a == 16
    then 150
    else if a == 20
    then 2
    else if a == 24
    then 3
    else if a == 28
    then 5
    else if a == 40
    then 7
    else 0

abbrev no_functions : ℕ → ℕ → Writer
no_functions f arg = done

abbrev no_bytes : ℕ → ℕ → Wire
no_bytes f arg = emitted []

no_functions_lem : (f arg : ℕ) → Implements (no_functions f arg) (no_bytes f arg)
no_functions_lem f arg = done-Emits

abbrev number : ℕ → FieldInfo
number tag = record {
  tag = tag;
  ltype = varint;
  htype = required;
  atype = static;
  data_offset = 0;
  size_offset = pos 0;
  data_size = 4;
  array_size = 0;
}

abbrev numbers : FieldInfo
numbers = record (number 2) {
  htype = repeated;
  data_offset = 4;
  size_offset = negsuc 3;
  array_size = 4;
}

abbrev inner : FieldInfo
inner = record (number 3) { ltype = submessage }

abbrev example : Fields
example =
    field (number 1) null
      (field numbers null (field inner (submsg (field (number 1) null last)) last))

abbrev example_bytes : List ℕ
example_bytes = 0x08 ∷ 0x96 ∷ 0x01 ∷ 0x12 ∷ 0x02 ∷ 0x03 ∷ 0x05 ∷ 0x1a ∷ 0x02 ∷ 0x08 ∷ 0x07 ∷ []

is_memory : (p : ℕ) → IsByte (struct_at_16 p)
is_memory p = ground arith

abbrev encode_example : Writer
encode_example = pb_encode struct_at_16 no_functions no_functions example 16

abbrev stream_of_16 : Ostream
stream_of_16 = pb_ostream_from_buffer (λ _. 0) 64 16

room_lem : IsReady stream_of_16
room_lem = from_buffer-IsReady (λ _. 0) 64 16 (omega arith)

pb_write-Emits_example :
    (pb_write (1 ∷ 2 ∷ []) 2 stream_of_16) ≡ (true, advance stream_of_16 (1 ∷ 2 ∷ []))
unfolding pb_ostream_from_buffer
pb_write-Emits_example = pb_write-Emits (1 ∷ 2 ∷ []) stream_of_16 room_lem (omega arith)

-- The text "hi", an int16_t -2 with its `has_` member, and an optional int32_t that is 0 and left out.
abbrev optional_at_16 : Memory
optional_at_16 a =
    if a == 16
    then 104
    else if a == 17
    then 105
    else if a == 20
    then 254
    else if a == 21
    then 255
    else if a == 22
    then 1
    else 0

abbrev optional_fields : Fields
optional_fields =
    field (record (number 1) { ltype = string; htype = optional }) null
      (field
        (record (number 2) {
          ltype = svarint;
          htype = optional;
          size_offset = pos 2;
          data_size = 2;
        })
        null (field (record (number 3) { htype = optional; data_offset = 2 }) null last))

optional_encoding :
    message_encoding optional_at_16 no_bytes no_bytes optional_fields 16
    ≡ emitted (0x0a ∷ 0x02 ∷ 104 ∷ 105 ∷ 0x10 ∷ 0x03 ∷ [])
unfolding message_encoding value_encoding has_nonzero base128 load
optional_encoding = refl

-- A field of a size that no integer has.
abbrev odd : Fields
odd = field (record (number 1) { data_size = 3 }) null last

odd_wire : message_encoding struct_at_16 no_bytes no_bytes odd 16 ≡ stopped (0x08 ∷ [])
unfolding message_encoding value_encoding base128
odd_wire = refl

pb_get_encoded_size_failed_example :
    pb_get_encoded_size struct_at_16 no_functions no_functions odd 16 ≡ none
pb_get_encoded_size_failed_example =
    pb_get_encoded_size_failed struct_at_16 is_memory no_functions no_functions no_bytes no_bytes
      no_functions_lem no_functions_lem odd 16 (0x08 ∷ []) (omega arith) odd_wire (omega arith)

pb_encode_submessage_lem_example :
    Behaves
      (delimited (emitted (varint_bytes 300)))
      stream_of_16
      (pb_encode_submessage (pb_encode_varint 300) stream_of_16)
unfolding base128 pb_ostream_from_buffer
pb_encode_submessage_lem_example =
    pb_encode_submessage_lem (pb_encode_varint 300) (emitted (varint_bytes 300)) stream_of_16
      (pb_encode_varint-Emits 300 (omega arith)).0 room_lem (omega arith)

pb_field_iter_find-names_field_example :
    (pb_field_iter_find 3 (iter_at example 16)).0 ≡ names_field 3 example
pb_field_iter_find-names_field_example = pb_field_iter_find-names_field 3 16 example (cc)
