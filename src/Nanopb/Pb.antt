-- ===== src/Nanopb/Pb.antt =====
-- The types of Kasei/Pods/nanopb/pb.h, in the configuration of the project's build settings:
-- PB_FIELD_32BIT (pb_size_t is uint32_t), PB_ENABLE_MALLOC, error messages on, 64-bit size_t.
pub mod WireType
use kaseiapp.Base.{ℕ, ◌^◌, ◌-◌, Bool, true, false, Option, none, some}
use kaseiapp.Base.Memory.{ℤ}

-- PB_LTYPE: the low four bits of a field's type.
pub data Ltype : Type 0 where
  bool varint uvarint svarint fixed32 fixed64 : Ltype
  bytes string submessage extension fixed_length_bytes : Ltype

-- PB_HTYPE: the repetition rule.
pub data Htype : Type 0 where
  required optional repeated oneof : Htype

-- PB_ATYPE: the allocation; `invalid` is the fourth pattern, 0xC0.
pub data Atype : Type 0 where
  static pointer callback invalid : Atype

-- `PB_LTYPE(type) <= PB_LTYPE_LAST_PACKABLE`
abbrev pub is_packable : Ltype → Bool
is_packable bool = true
is_packable varint = true
is_packable uvarint = true
is_packable svarint = true
is_packable fixed32 = true
is_packable fixed64 = true
is_packable _ = false

-- The plain members of a `pb_field_t`; its `ptr` stands in `Fields`.
pub record FieldInfo : Type 0 where
  pub tag : ℕ
  pub ltype : Ltype
  pub htype : Htype
  pub atype : Atype
  pub data_offset : ℕ
  pub size_offset : ℤ
  pub data_size : ℕ
  pub array_size : ℕ

abbrev pub size_max : ℕ
size_max = 2 ^ 32 - 1

-- The literals given to PB_RETURN_ERROR.
pub data Message : Type 0 where
  stream_full io_error array_max_size_exceeded missing_required_field : Message
  invalid_field_type callback_error submsg_size_changed invalid_data_size : Message
  bytes_size_exceeded invalid_field_descriptor : Message
  end_of_stream varint_overflow invalid_wire_type parent_stream_too_short : Message
  array_overflow integer_too_large bytes_overflow size_too_large string_overflow : Message
  callback_failed wrong_fixed_count incorrect_fixed_length : Message
  invalid_size realloc_failed too_many_entries invalid_union_tag iterator_error : Message

-- PB_SET_ERROR keeps the first message.
abbrev pub first_error : Option Message → Message → Option Message
first_error none msg = some msg
first_error (some old) msg = some old
