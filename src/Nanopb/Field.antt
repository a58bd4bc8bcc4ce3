-- ===== src/Nanopb/Field.antt =====
-- The field encoders of Kasei/Pods/nanopb/pb_encode.c: the pb_enc_ functions, and what they read from
-- the message in memory.
use kaseiapp.Base.{ℕ, zero, suc, ◌+◌, ◌-◌, ◌*◌, ◌^◌, Bool, true, false, not, ◌&&◌, ◌||◌}
use kaseiapp.Base.{Option, none, some, [], ltb, leb, ◌==◌, if◌then◌else◌}
use kaseiapp.Base.Memory.{Memory, load, bytes_at}
use kaseiapp.Nanopb.Pb.{
  FieldInfo, Ltype, bool, varint, uvarint, svarint, fixed32, fixed64, bytes, string, submessage,
  extension, fixed_length_bytes, invalid_data_size, bytes_size_exceeded, invalid_field_descriptor,
  invalid_field_type, submsg_size_changed, stream_full,
}
use kaseiapp.Nanopb.Ostream.{
  Ostream, Writer, fail, ◌>>◌, is_null, add_size, pb_write, pb_ostream_sizing,
}
use kaseiapp.Nanopb.Write.{
  pb_encode_varint, pb_encode_svarint, pb_encode_fixed32, pb_encode_fixed64, pb_encode_string,
}
use kaseiapp.Nanopb.Fields.{is_static, is_pointer}

-- `sizeof(bool)` is 1.
unfoldable pub safe_read_bool : Memory → ℕ → Bool
safe_read_bool mem p = not (mem p == 0)

-- The 64-bit pattern of a signed integer of `n` bytes.
unfoldable pub sign_extend : ℕ → ℕ → ℕ
sign_extend n v = if leb (2 ^ (8 * n - 1)) v then v + (2 ^ 64 - 2 ^ (8 * n)) else v

-- The sizes that `pb_enc_varint`, `pb_enc_uvarint` and `pb_enc_svarint` know.
abbrev pub is_int_size : ℕ → Bool
is_int_size n = (n == 1) || ((n == 2) || ((n == 4) || (n == 8)))

-- The loop that stands for strnlen().
unfoldable pub strnlen : Memory → ℕ → ℕ → ℕ
strnlen mem p zero = 0
strnlen mem p (suc max_size) = elim (mem p == 0) [
  | true ↦ 0
  | false ↦ suc (strnlen mem (p + 1) max_size)
]

module _ (mem : Memory) where
  unfoldable pub pb_enc_bool : ℕ → Writer
  unfolding safe_read_bool
  pb_enc_bool src = pb_encode_varint (if safe_read_bool mem src then 1 else 0)

  unfoldable pub pb_enc_varint : FieldInfo → ℕ → Writer
  unfolding sign_extend
  pb_enc_varint field src =
      if is_int_size field.data_size
      then pb_encode_varint (sign_extend field.data_size (load mem src field.data_size))
      else fail invalid_data_size

  unfoldable pub pb_enc_uvarint : FieldInfo → ℕ → Writer
  pb_enc_uvarint field src =
      if is_int_size field.data_size
      then pb_encode_varint (load mem src field.data_size)
      else fail invalid_data_size

  unfoldable pub pb_enc_svarint : FieldInfo → ℕ → Writer
  unfolding sign_extend
  pb_enc_svarint field src =
      if is_int_size field.data_size
      then pb_encode_svarint (sign_extend field.data_size (load mem src field.data_size))
      else fail invalid_data_size

  unfoldable pub pb_enc_fixed32 : ℕ → Writer
  pb_enc_fixed32 src = pb_encode_fixed32 (load mem src 4)

  unfoldable pub pb_enc_fixed64 : ℕ → Writer
  pb_enc_fixed64 src = pb_encode_fixed64 (load mem src 8)

  -- PB_BYTES_ARRAY_T_ALLOCSIZE adds the 4 bytes of the member `size`, which cannot overflow a size_t.
  unfoldable pub pb_enc_bytes : FieldInfo → ℕ → Writer
  pb_enc_bytes field src =
      let size = load mem src 4 in
      if src == 0
      then pb_encode_string [] 0
      else if ltb (add_size size 4) size
          || (is_static field.atype && ltb field.data_size (add_size size 4))
      then fail bytes_size_exceeded
      else pb_encode_string (bytes_at mem (src + 4) size) size

  -- `max_size` is the size of the array, or no limit for a pointer.
  unfoldable pub string_size : FieldInfo → ℕ → ℕ
  unfolding strnlen
  string_size field src =
      if src == 0
      then 0
      else strnlen mem src (if is_pointer field.atype then 2 ^ 64 - 1 else field.data_size)

  unfoldable pub pb_enc_string : FieldInfo → ℕ → Writer
  unfolding string_size
  pb_enc_string field src =
      pb_encode_string (bytes_at mem src (string_size field src)) (string_size field src)

  unfoldable pub pb_enc_fixed_length_bytes : FieldInfo → ℕ → Writer
  pb_enc_fixed_length_bytes field src =
      pb_encode_string (bytes_at mem src field.data_size) field.data_size

-- The part of pb_encode_submessage after its first pass; `encode` is the call of pb_encode.
abbrev pub finish_submessage : ℕ → Ostream → Bool × Ostream → Bool × Ostream
finish_submessage size s (status, sub) =
    let s' = record s {
      bytes_written = add_size s.bytes_written sub.bytes_written;
      state = sub.state;
      errmsg = sub.errmsg;
    } in
    if sub.bytes_written == size then (status, s') else fail submsg_size_changed s'

unfoldable pub write_submessage : Writer → ℕ → Writer
write_submessage encode size s =
    if is_null s.callback
    then pb_write [] size s
    else if ltb s.max_size (add_size s.bytes_written size)
    then fail stream_full s
    else finish_submessage size s
        (encode (record s { max_size = size; bytes_written = 0; errmsg = none }))

abbrev pub after_sizing : Writer → Bool × Ostream → Writer
after_sizing encode (true, sized) =
    pb_encode_varint sized.bytes_written >> write_submessage encode sized.bytes_written
after_sizing encode (false, sized) = λ s. (false, record s { errmsg = sized.errmsg })

-- The size is computed on a sizing stream, written, and checked against a second pass.
unfoldable pub pb_encode_submessage : Writer → Writer
unfolding write_submessage
pb_encode_submessage encode = after_sizing encode (encode pb_ostream_sizing)

-- `pb_enc_submessage`: `encode` is pb_encode for the fields at `field->ptr`, if that is not NULL.
abbrev pub pb_enc_submessage : Option (ℕ → Writer) → ℕ → Writer
pb_enc_submessage none src = fail invalid_field_descriptor
pb_enc_submessage (some encode) src = pb_encode_submessage (encode src)

-- PB_ENCODERS. The entry of an extension is NULL, and is never called.
unfoldable pub encoder_for : Memory → FieldInfo → Option (ℕ → Writer) → Ltype → ℕ → Writer
encoder_for mem field encode bool = pb_enc_bool mem
encoder_for mem field encode varint = pb_enc_varint mem field
encoder_for mem field encode uvarint = pb_enc_uvarint mem field
encoder_for mem field encode svarint = pb_enc_svarint mem field
encoder_for mem field encode fixed32 = pb_enc_fixed32 mem
encoder_for mem field encode fixed64 = pb_enc_fixed64 mem
encoder_for mem field encode bytes = pb_enc_bytes mem field
encoder_for mem field encode string = pb_enc_string mem field
encoder_for mem field encode submessage = pb_enc_submessage encode
encoder_for mem field encode extension = λ src. fail invalid_field_type
encoder_for mem field encode fixed_length_bytes = pb_enc_fixed_length_bytes mem field
