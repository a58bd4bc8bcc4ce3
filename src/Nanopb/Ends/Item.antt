-- ===== src/Nanopb/Ends/Item.antt =====
-- The ends of the pb_dec_ functions of Kasei/Pods/nanopb/pb_decode.c, and of the uses of substreams.
use kaseiapp.Base.{ℕ, ◌+◌, ◌*◌, ◌%◌, ◌^◌, arith, Option, none, some}
use kaseiapp.Base.{◌==◌, if◌then◌else◌}
use kaseiapp.Base.Memory.{load, store_bytes}
use kaseiapp.Nanopb.Pb.{
  FieldInfo, Ltype, bool, varint, uvarint, svarint, fixed32, fixed64, bytes, string, submessage,
  extension, fixed_length_bytes, invalid_data_size, integer_too_large, bytes_overflow,
  size_too_large, string_overflow, incorrect_fixed_length, invalid_size, realloc_failed,
  invalid_field_type,
}
use kaseiapp.Nanopb.Ostream.{add_size}
use kaseiapp.Nanopb.Istream.{Istream, read_bytes}
use kaseiapp.Nanopb.Istream.Takes.{fewer-Takes, read_bytes-Takes}
use kaseiapp.Nanopb.Read.{
  pb_decode_varint, pb_decode_varint32, pb_decode_fixed32, pb_decode_fixed64, pb_decode_svarint,
  pb_make_string_substream, pb_close_string_substream,
}
use kaseiapp.Nanopb.Read.Takes.{
  pb_decode_varint-Takes, pb_decode_varint32-Takes, pb_decode_fixed32-Takes,
  pb_decode_fixed64-Takes, pb_decode_svarint-Takes, pb_close_string_substream-Takes, Parted,
  make_substream-Parted,
}
use kaseiapp.Nanopb.Fields.{is_pointer, is_repeated}
use kaseiapp.Nanopb.Field.{is_int_size}
use kaseiapp.Nanopb.Store.{
  Store, good, bad, hangs, Result, Step, after_read, reading, put, clear, User,
}
use kaseiapp.Nanopb.Item.{
  keep_block, reallocate, allocate_field, read_into, pb_dec_bool, clamp_signed, clamp_unsigned,
  store_int, pb_dec_varint, pb_dec_uvarint, pb_dec_svarint, pb_dec_fixed32, pb_dec_fixed64,
  fill_bytes, bytes_of_size, pb_dec_bytes, terminated, fill_string, string_of_size, pb_dec_string,
  fixed_bytes_of_size, pb_dec_fixed_length_bytes, close_after, in_substream, Sub, pb_dec_submessage,
  decoder_for,
}
use kaseiapp.Nanopb.Ends.{
  Ended, Ends, succeed-Ends, fail-Ends, writing-Ends, looking-Ends, if-Ends, fewer-Ends, >>-Ends,
  reading-Ends, later-Ended, after_read-Ended,
}

keep_block-Ends : (p ptr : ℕ) → Ends 0 (keep_block p ptr)
keep_block-Ends p ptr = if-Ends (ptr == 0) (fail-Ends 0 realloc_failed) (writing-Ends (put p 8 ptr))

reallocate-Ends : (user : User) (p size : ℕ) → Ends 0 (reallocate user p size)
reallocate-Ends user p size = record {
  at = λ s st. (keep_block-Ends p (user.realloc st.calls st.mem (load st.mem p 8) size).0).at s _;
}

pub allocate_field-Ends :
    (user : User) (p data_size array_size : ℕ) → Ends 0 (allocate_field user p data_size array_size)
unfolding allocate_field
allocate_field-Ends user p data_size array_size = if-Ends _ (fail-Ends 0 invalid_size) (
    if-Ends _ (fail-Ends 0 size_too_large)
      (reallocate-Ends user p (array_size * data_size % 2 ^ 64)))

read_into-Ends : (p n : ℕ) → Ends 0 (read_into p n)
read_into-Ends p n =
    reading-Ends (read_bytes n) _ (fewer-Takes 0 (read_bytes n) (omega arith) (read_bytes-Takes n))
      (λ bs. writing-Ends (λ mem. store_bytes mem p bs))

pub dec_bool-Ends : (dest : ℕ) → Ends 1 (pb_dec_bool dest)
unfolding pb_dec_bool
dec_bool-Ends dest =
    reading-Ends pb_decode_varint32 _ pb_decode_varint32-Takes (λ value. writing-Ends _)

store_int-Ends :
    (clamp : ℕ → ℕ → ℕ) (info : FieldInfo) (dest value : ℕ)
    → Ends 0 (store_int clamp info dest value)
unfolding store_int
store_int-Ends clamp info dest value =
    if-Ends (is_int_size info.data_size)
      (>>-Ends _ _ (writing-Ends (put dest info.data_size value))
        (if-Ends _ succeed-Ends (fail-Ends 0 integer_too_large)))
      (fail-Ends 0 invalid_data_size)

dec_varint-Ends : (info : FieldInfo) (dest : ℕ) → Ends 1 (pb_dec_varint info dest)
unfolding pb_dec_varint
dec_varint-Ends info dest = reading-Ends pb_decode_varint _ pb_decode_varint-Takes λ value.
    store_int-Ends clamp_signed info dest
      (if info.data_size == 8 then value else clamp_signed 4 value)

dec_uvarint-Ends : (info : FieldInfo) (dest : ℕ) → Ends 1 (pb_dec_uvarint info dest)
unfolding pb_dec_uvarint
dec_uvarint-Ends info dest =
    reading-Ends pb_decode_varint _ pb_decode_varint-Takes (store_int-Ends clamp_unsigned info dest)

dec_svarint-Ends : (info : FieldInfo) (dest : ℕ) → Ends 1 (pb_dec_svarint info dest)
unfolding pb_dec_svarint
dec_svarint-Ends info dest =
    reading-Ends pb_decode_svarint _ pb_decode_svarint-Takes (store_int-Ends clamp_signed info dest)

dec_fixed32-Ends : (dest : ℕ) → Ends 4 (pb_dec_fixed32 dest)
unfolding pb_dec_fixed32
dec_fixed32-Ends dest =
    reading-Ends pb_decode_fixed32 _ pb_decode_fixed32-Takes
      (λ value. writing-Ends (put dest 4 value))

dec_fixed64-Ends : (dest : ℕ) → Ends 8 (pb_dec_fixed64 dest)
unfolding pb_dec_fixed64
dec_fixed64-Ends dest =
    reading-Ends pb_decode_fixed64 _ pb_decode_fixed64-Takes
      (λ value. writing-Ends (put dest 8 value))

fill_bytes-Ends : (size bdest : ℕ) → Ends 0 (fill_bytes size bdest)
fill_bytes-Ends size bdest =
    >>-Ends _ _ (writing-Ends (put bdest 4 size)) (read_into-Ends (bdest + 4) size)

dec_bytes-Ends : (user : User) (info : FieldInfo) (dest : ℕ) → Ends 1 (pb_dec_bytes user info dest)
unfolding pb_dec_bytes bytes_of_size
dec_bytes-Ends user info dest = reading-Ends pb_decode_varint32 _ pb_decode_varint32-Takes λ size.
    if-Ends _ (fail-Ends 0 bytes_overflow) (
      if-Ends _ (fail-Ends 0 size_too_large) (
        if-Ends (is_pointer info.atype)
          (>>-Ends _ _ (allocate_field-Ends user dest (add_size size 4) 1)
            (looking-Ends _ (λ mem. fill_bytes-Ends size (load mem dest 8))))
          (if-Ends _ (fail-Ends 0 bytes_overflow) (fill_bytes-Ends size dest))))

terminated-Ended : (p n : ℕ) (r : Result) → Ended 0 n r → Ended 0 n (terminated p r)
terminated-Ended p n (good, t, st) h = h
terminated-Ended p n (bad, t, st) h = h
terminated-Ended p n (hangs, t, st) h = h

fill_string-Ends : (size dest : ℕ) → Ends 0 (fill_string size dest)
fill_string-Ends size dest = record {
  at = λ s st.
      terminated-Ended (dest + size) s.bytes_left (read_into dest size s st)
        ((read_into-Ends dest size).at s st);
}

dec_string-Ends :
    (user : User) (info : FieldInfo) (dest : ℕ) → Ends 1 (pb_dec_string user info dest)
unfolding pb_dec_string string_of_size
dec_string-Ends user info dest = reading-Ends pb_decode_varint32 _ pb_decode_varint32-Takes λ size.
    if-Ends _ (fail-Ends 0 size_too_large) (
      if-Ends (is_pointer info.atype)
        (>>-Ends _ _ (allocate_field-Ends user dest ((size + 1) % 2 ^ 32) 1)
          (looking-Ends _ (λ mem. fill_string-Ends size (load mem dest 8))))
        (if-Ends _ (fail-Ends 0 string_overflow) (fill_string-Ends size dest)))

dec_fixed_length_bytes-Ends :
    (info : FieldInfo) (dest : ℕ) → Ends 1 (pb_dec_fixed_length_bytes info dest)
unfolding pb_dec_fixed_length_bytes fixed_bytes_of_size
dec_fixed_length_bytes-Ends info dest =
    reading-Ends pb_decode_varint32 _ pb_decode_varint32-Takes λ size.
      if-Ends _ (fail-Ends 0 bytes_overflow) (
        if-Ends _ (writing-Ends (clear dest info.data_size))
          (if-Ends _ (read_into-Ends dest info.data_size) (fail-Ends 0 incorrect_fixed_length)))

closing_as :
    (sub s : Istream) (st : Store) (k : Unit {0} → Step)
    → ((done : Unit {0}) → Ends 0 (k done))
    → Ended 0 s.bytes_left (after_read (pb_close_string_substream sub s) k st)
closing_as sub s st k hk =
    after_read-Ended 0 0 s.bytes_left (pb_close_string_substream sub s) k st
      ((pb_close_string_substream-Takes sub).at s) hk

-- A use of a substream that ends, and the closing, have ended for the stream.
pub close_after-Ended :
    (n : ℕ) (s : Istream) (r : Result) → Ended 0 n r → Ended 0 s.bytes_left (close_after s r)
close_after-Ended n s (good, sub, st) h =
    closing_as sub s st _ (λ done. record { at = λ s' st'. omega arith })
close_after-Ended n s (bad, sub, st) h =
    closing_as sub s st _ (λ done. record { at = λ s' st'. omega arith })
close_after-Ended n s (hangs, sub, st) h = h

pub substream_read-Ended :
    (n : ℕ) (r : Option Istream × Istream) (k : Istream → Step) (st : Store)
    → Parted n r
    → ((sub s : Istream) → Ended 0 s.bytes_left (k sub s st))
    → Ended 1 n (after_read r k st)
substream_read-Ended n (some sub, s) k st h hk =
    later-Ended 1 0 n s (k sub s st) (omega arith) (hk sub s)
substream_read-Ended n (none, s) k st h hk = h

-- A value in a substream takes a byte at least, that of its length.
pub substream-Ends :
    (k : Istream → Step)
    → ((sub s : Istream) (st : Store) → Ended 0 s.bytes_left (k sub s st))
    → Ends 1 (reading pb_make_string_substream k)
substream-Ends k hk = record {
  at = λ s st.
      substream_read-Ended s.bytes_left (pb_make_string_substream s) k st (make_substream-Parted s)
        (λ sub s'. hk sub s' st);
}

pub in_substream-Ends : (use_sub : Step) → Ends 0 use_sub → Ends 1 (in_substream use_sub)
in_substream-Ends use_sub h =
    substream-Ends _ (λ sub s st. close_after-Ended sub.bytes_left s (use_sub sub st) (h.at sub st))

-- The decoders of a submessage end.
pub data SubEnds : Option Sub → Type 0 where
  no_sub : SubEnds none
  both :
      (sub : Sub)
      → ((p : ℕ) → Ends 0 (sub.whole p))
      → ((p : ℕ) → Ends 0 (sub.noinit p))
      → SubEnds (some sub)

dec_submessage-Ends :
    (info : FieldInfo) (sub : Option Sub) (dest : ℕ)
    → SubEnds sub
    → Ends 1 (pb_dec_submessage info sub dest)
dec_submessage-Ends info none dest h = substream-Ends _ (λ sub s st. omega arith)
dec_submessage-Ends info (some sub) dest (both _ hw hn) =
    in_substream-Ends _ (if-Ends (is_repeated info.htype) (hw dest) (hn dest))

-- Whatever the type, the value takes a byte at least.
pub decoder_for-Ends :
    (user : User) (info : FieldInfo) (sub : Option Sub) (ltype : Ltype) (dest : ℕ)
    → SubEnds sub
    → Ends 1 (decoder_for user info sub ltype dest)
unfolding decoder_for
decoder_for-Ends user info sub bool dest h = dec_bool-Ends dest
decoder_for-Ends user info sub varint dest h = dec_varint-Ends info dest
decoder_for-Ends user info sub uvarint dest h = dec_uvarint-Ends info dest
decoder_for-Ends user info sub svarint dest h = dec_svarint-Ends info dest
decoder_for-Ends user info sub fixed32 dest h = fewer-Ends 1 (omega arith) (dec_fixed32-Ends dest)
decoder_for-Ends user info sub fixed64 dest h = fewer-Ends 1 (omega arith) (dec_fixed64-Ends dest)
decoder_for-Ends user info sub bytes dest h = dec_bytes-Ends user info dest
decoder_for-Ends user info sub string dest h = dec_string-Ends user info dest
decoder_for-Ends user info sub submessage dest h = dec_submessage-Ends info sub dest h
decoder_for-Ends user info sub extension dest h = fail-Ends 1 invalid_field_type
decoder_for-Ends user info sub fixed_length_bytes dest h = dec_fixed_length_bytes-Ends info dest
