-- ===== src/Nanopb/Item.antt =====
-- allocate_field and the pb_dec_ functions of Kasei/Pods/nanopb/pb_decode.c.
use kaseiapp.Base.{ℕ, ◌+◌, ◌-◌, ◌*◌, ◌/◌, ◌%◌, ◌^◌, Bool, ◌&&◌, ◌||◌, Option, none, some}
use kaseiapp.Base.{◌∷◌, ltb, leb, ◌==◌, if◌then◌else◌}
use kaseiapp.Base.Memory.{load, store_bytes}
use kaseiapp.Nanopb.Pb.{
  FieldInfo, Ltype, bool, varint, uvarint, svarint, fixed32, fixed64, bytes, string, submessage,
  extension, fixed_length_bytes, size_max, invalid_data_size, integer_too_large, bytes_overflow,
  size_too_large, string_overflow, incorrect_fixed_length, invalid_size, realloc_failed,
  invalid_field_type, invalid_field_descriptor,
}
use kaseiapp.Nanopb.Ostream.{add_size}
use kaseiapp.Nanopb.Istream.{Istream, read_bytes}
use kaseiapp.Nanopb.Read.{
  pb_decode_varint, pb_decode_varint32, pb_decode_fixed32, pb_decode_fixed64, pb_decode_svarint,
  pb_make_string_substream, pb_close_string_substream,
}
use kaseiapp.Nanopb.Fields.{is_pointer, is_repeated}
use kaseiapp.Nanopb.Field.{sign_extend, is_int_size}
use kaseiapp.Nanopb.Store.{
  realloc_call, good, bad, hangs, Result, Step, succeed, fail, ◌>>◌, after_read, reading, writing,
  looking, put, clear, User,
}

-- The multiplication check: `size_max / array_size < data_size`, made only for large sizes.
abbrev pub product_overflows : ℕ → ℕ → Bool
product_overflows data_size array_size =
    (leb (2 ^ 32) data_size || leb (2 ^ 32) array_size) && ltb ((2 ^ 64 - 1) / array_size) data_size

abbrev pub keep_block : ℕ → ℕ → Step
keep_block p ptr = if ptr == 0 then fail realloc_failed else writing (put p 8 ptr)

-- The call of realloc(), and the pointer stored at `p`.
abbrev pub reallocate : User → ℕ → ℕ → Step
reallocate user p size s st =
    let (ptr, mem) = user.realloc st.calls st.mem (load st.mem p 8) size in
    keep_block p ptr s
      (record { mem = mem; calls = realloc_call (load st.mem p 8) size ∷ st.calls })

unfoldable pub allocate_field : User → ℕ → ℕ → ℕ → Step
allocate_field user p data_size array_size =
    if (data_size == 0) || (array_size == 0)
    then fail invalid_size
    else if product_overflows data_size array_size
    then fail size_too_large
    else reallocate user p (array_size * data_size % 2 ^ 64)

-- pb_read into memory.
abbrev pub read_into : ℕ → ℕ → Step
read_into p n = reading (read_bytes n) (λ bs. writing (λ mem. store_bytes mem p bs))

unfoldable pub pb_dec_bool : ℕ → Step
pb_dec_bool dest =
    reading pb_decode_varint32 (λ value. writing (put dest 1 (if value == 0 then 0 else 1)))

unfoldable pub pb_decode_bool : ℕ → Step
unfolding pb_dec_bool
pb_decode_bool = pb_dec_bool

-- The cast of a 64-bit value to an integer of `n` bytes, signed or not, and back.
abbrev pub clamp_signed : ℕ → ℕ → ℕ
clamp_signed n value = sign_extend n (value % 2 ^ (8 * n))

abbrev pub clamp_unsigned : ℕ → ℕ → ℕ
clamp_unsigned n value = value % 2 ^ (8 * n)

-- The number is stored first, and then checked.
unfoldable pub store_int : (ℕ → ℕ → ℕ) → FieldInfo → ℕ → ℕ → Step
store_int clamp field dest value =
    if is_int_size field.data_size
    then writing (put dest field.data_size value)
      >> (if clamp field.data_size value == value then succeed else fail integer_too_large)
    else fail invalid_data_size

-- Fields of up to 32 bits take the low 32 bits, as a signed number.
unfoldable pub pb_dec_varint : FieldInfo → ℕ → Step
unfolding store_int sign_extend
pb_dec_varint field dest = reading pb_decode_varint λ value.
    store_int clamp_signed field dest (if field.data_size == 8 then value else clamp_signed 4 value)

unfoldable pub pb_dec_uvarint : FieldInfo → ℕ → Step
unfolding store_int
pb_dec_uvarint field dest = reading pb_decode_varint (store_int clamp_unsigned field dest)

unfoldable pub pb_dec_svarint : FieldInfo → ℕ → Step
unfolding store_int sign_extend
pb_dec_svarint field dest = reading pb_decode_svarint (store_int clamp_signed field dest)

unfoldable pub pb_dec_fixed32 : ℕ → Step
pb_dec_fixed32 dest = reading pb_decode_fixed32 (λ value. writing (put dest 4 value))

unfoldable pub pb_dec_fixed64 : ℕ → Step
pb_dec_fixed64 dest = reading pb_decode_fixed64 (λ value. writing (put dest 8 value))

-- The member `size` and the bytes behind it, at `bdest`.
abbrev pub fill_bytes : ℕ → ℕ → Step
fill_bytes size bdest = writing (put bdest 4 size) >> read_into (bdest + 4) size

unfoldable pub bytes_of_size : User → FieldInfo → ℕ → ℕ → Step
unfolding allocate_field
bytes_of_size user field dest size =
    if ltb size_max size
    then fail bytes_overflow
    else if ltb (add_size size 4) size
    then fail size_too_large
    else if is_pointer field.atype
    then allocate_field user dest (add_size size 4) 1
      >> looking (λ mem. fill_bytes size (load mem dest 8))
    else if ltb field.data_size (add_size size 4)
    then fail bytes_overflow
    else fill_bytes size dest

unfoldable pub pb_dec_bytes : User → FieldInfo → ℕ → Step
unfolding bytes_of_size
pb_dec_bytes user field dest = reading pb_decode_varint32 (bytes_of_size user field dest)

-- `*((pb_byte_t*)dest + size) = 0`, whether the bytes were read or not.
abbrev pub terminated : ℕ → Result → Result
terminated p (status, s, st) = (status, s, record st { mem = put p 1 0 st.mem })

abbrev pub fill_string : ℕ → ℕ → Step
fill_string size dest s st = terminated (dest + size) (read_into dest size s st)

unfoldable pub string_of_size : User → FieldInfo → ℕ → ℕ → Step
unfolding allocate_field
string_of_size user field dest size =
    let alloc_size = (size + 1) % 2 ^ 32 in
    if ltb alloc_size size
    then fail size_too_large
    else if is_pointer field.atype
    then allocate_field user dest alloc_size 1
      >> looking (λ mem. fill_string size (load mem dest 8))
    else if ltb field.data_size alloc_size
    then fail string_overflow
    else fill_string size dest

unfoldable pub pb_dec_string : User → FieldInfo → ℕ → Step
unfolding string_of_size
pb_dec_string user field dest = reading pb_decode_varint32 (string_of_size user field dest)

unfoldable pub fixed_bytes_of_size : FieldInfo → ℕ → ℕ → Step
fixed_bytes_of_size field dest size =
    if ltb size_max size
    then fail bytes_overflow
    else if size == 0
    then writing (clear dest field.data_size)
    else if size == field.data_size
    then read_into dest field.data_size
    else fail incorrect_fixed_length

unfoldable pub pb_dec_fixed_length_bytes : FieldInfo → ℕ → Step
unfolding fixed_bytes_of_size
pb_dec_fixed_length_bytes field dest = reading pb_decode_varint32 (fixed_bytes_of_size field dest)

-- The substream is closed after a success as after a failure, and the status of its use is returned.
abbrev pub close_after : Istream → Result → Result
close_after s (good, sub, st) =
    after_read (pb_close_string_substream sub s) (λ done s' st'. (good, s', st')) st
close_after s (bad, sub, st) =
    after_read (pb_close_string_substream sub s) (λ done s' st'. (bad, s', st')) st
close_after s (hangs, sub, st) = (hangs, s, st)

abbrev pub in_substream : Step → Step
in_substream use_sub = reading pb_make_string_substream (λ sub s st. close_after s (use_sub sub st))

-- pb_decode and pb_decode_noinit for the fields at `field->ptr`, if that is not NULL.
pub record Sub : Type 0 where
  pub whole : ℕ → Step
  pub noinit : ℕ → Step

abbrev pub pb_dec_submessage : FieldInfo → Option Sub → ℕ → Step
pb_dec_submessage field none dest =
    reading pb_make_string_substream (λ sub. fail invalid_field_descriptor)
pb_dec_submessage field (some sub) dest =
    in_substream (if is_repeated field.htype then sub.whole dest else sub.noinit dest)

-- PB_DECODERS. The entry of an extension is NULL, and is never called.
unfoldable pub decoder_for : User → FieldInfo → Option Sub → Ltype → ℕ → Step
decoder_for user field sub bool = pb_dec_bool
decoder_for user field sub varint = pb_dec_varint field
decoder_for user field sub uvarint = pb_dec_uvarint field
decoder_for user field sub svarint = pb_dec_svarint field
decoder_for user field sub fixed32 = pb_dec_fixed32
decoder_for user field sub fixed64 = pb_dec_fixed64
decoder_for user field sub bytes = pb_dec_bytes user field
decoder_for user field sub string = pb_dec_string user field
decoder_for user field sub submessage = pb_dec_submessage field sub
decoder_for user field sub extension = λ dest. fail invalid_field_type
decoder_for user field sub fixed_length_bytes = pb_dec_fixed_length_bytes field
