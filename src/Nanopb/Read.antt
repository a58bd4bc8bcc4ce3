-- ===== src/Nanopb/Read.antt =====
-- The helper functions of Kasei/Pods/nanopb/pb_decode.c: varints, tags, fixed-width integers,
-- skipping, and substreams.
pub mod Varint
pub mod Varint32
pub mod Overlong
pub mod Scalars
pub mod Takes
pub mod Skip
use kaseiapp.Base.{ℕ, zero, suc, ◌+◌, ◌-◌, ◌*◌, ◌/◌, ◌%◌, ◌^◌, bit_and, bit_or}
use kaseiapp.Base.{Bool, true, false, not, ◌&&◌, ◌||◌, Option, none, some, List, [], ◌∷◌}
use kaseiapp.Base.{ltb, leb, ◌==◌, if◌then◌else◌, length}
use kaseiapp.Nanopb.Pb.{varint_overflow, invalid_wire_type, parent_stream_too_short}
use kaseiapp.Nanopb.Pb.WireType
use kaseiapp.Nanopb.Istream.{
  Istream, Reader, give, refuse, stop, ◌>>=◌, ◌>>◌, read_bytes, pb_skip, first_byte, pb_readbyte,
}

-- `byte & 0x80`
abbrev pub has_more : ℕ → Bool
has_more b = not (bit_and b 0x80 == 0)

-- The do loop of pb_decode_varint, from the given `bitpos` and `result`. The test of `bitpos` ends
-- it in the eleventh round at the latest.
unfoldable pub decode_varint_loop : ℕ → ℕ → ℕ → Reader ℕ
decode_varint_loop zero bitpos result = refuse varint_overflow
decode_varint_loop (suc rounds) bitpos result =
    if leb 64 bitpos
    then refuse varint_overflow
    else pb_readbyte >>= λ b.
        let result' = bit_or result (bit_and b 0x7f * 2 ^ bitpos % 2 ^ 64) in
        let more = decode_varint_loop rounds ((bitpos + 7) % 256) result' in
        if has_more b then more else give result'

unfoldable pub pb_decode_varint : Reader ℕ
unfolding decode_varint_loop
pb_decode_varint = decode_varint_loop 11 0 0

-- `(bitpos < 63) ? 0xFF : 0x01`
abbrev pub sign_extension : ℕ → ℕ
sign_extension bitpos = if ltb bitpos 63 then 0xff else 0x01

-- The check of a byte past bit 32: padding by 0x80, or the upper bits of a negative number.
abbrev pub overflows_32 : ℕ → ℕ → ℕ → Bool
overflows_32 bitpos result b =
    not (bit_and b 0x7f == 0) && ((result / 2 ^ 31 == 0) || not (b == sign_extension bitpos))

-- The do loop of pb_decode_varint32_eof over the bytes after the first: the result, the last
-- `bitpos` and the last byte. Each round reads a byte, so `bytes_left` rounds are enough.
unfoldable pub decode_varint32_loop : ℕ → ℕ → ℕ → Reader (ℕ × ℕ × ℕ)
decode_varint32_loop zero bitpos result = pb_readbyte >>= λ b. stop
decode_varint32_loop (suc rounds) bitpos result = pb_readbyte >>= λ b.
    let result' =
      if leb 32 bitpos then result else bit_or result (bit_and b 0x7f * 2 ^ bitpos % 2 ^ 32) in
    let bitpos' = (bitpos + 7) % 256 in
    let more = decode_varint32_loop rounds bitpos' result' in
    if leb 32 bitpos && overflows_32 bitpos result b
    then refuse varint_overflow
    else if has_more b
    then more
    else give (result', bitpos', b)

-- What follows the loop: the last byte was at bit 28, so only its lowest 4 bits fit.
abbrev pub check_top_bits : ℕ × ℕ × ℕ → Reader ℕ
check_top_bits (result, bitpos, b) =
    if bitpos == 35 && not (bit_and b 0x70 == 0) then refuse varint_overflow else give result

-- The part of pb_decode_varint32_eof after its first byte.
unfoldable pub varint32_from : ℕ → Reader ℕ
unfolding decode_varint32_loop
varint32_from b s =
    let many = (decode_varint32_loop s.bytes_left 7 (bit_and b 0x7f) >>= check_top_bits) s in
    if bit_and b 0x80 == 0 then give b s else many

unfoldable pub pb_decode_varint32 : Reader ℕ
unfolding varint32_from
pb_decode_varint32 = pb_readbyte >>= varint32_from

abbrev pub eof_after : Option ℕ × Istream → Bool
eof_after (some b, t) = false
eof_after (none, t) = t.bytes_left == 0

-- The value of `*eof` after pb_decode_varint32_eof, for an `*eof` that was false.
unfoldable pub varint32_eof : Istream → Bool
varint32_eof s = eof_after (pb_readbyte s)

-- `pb_skip_varint`: each round reads a byte.
unfoldable pub skip_varint_loop : ℕ → Reader (Unit {0})
skip_varint_loop zero = read_bytes 1 >>= λ bs. stop
skip_varint_loop (suc rounds) = read_bytes 1 >>= λ bs.
    let more = skip_varint_loop rounds in if has_more (first_byte bs) then more else give tt

unfoldable pub pb_skip_varint : Reader (Unit {0})
unfolding skip_varint_loop
pb_skip_varint s = skip_varint_loop s.bytes_left s

unfoldable pub pb_skip_string : Reader (Unit {0})
pb_skip_string = do length ← pb_decode_varint32; pb_skip length; give tt

-- The outcome of pb_decode_tag: a wire type and a tag, or false with the value of `*eof`.
pub data TagRead : Type 0 where
  found : ℕ → ℕ → TagRead
  failed : Bool → TagRead

-- A zero ends the message, as the end of the stream does.
abbrev pub split_tag : ℕ → TagRead
split_tag temp = if temp == 0 then failed true else found (bit_and temp 7) (temp / 2 ^ 3)

abbrev pub tag_after : Bool → Option ℕ × Istream → TagRead × Istream
tag_after eof (some temp, t) = (split_tag temp, t)
tag_after eof (none, t) = (failed eof, t)

unfoldable pub pb_decode_tag : Istream → TagRead × Istream
pb_decode_tag s = tag_after (varint32_eof s) (pb_decode_varint32 s)

unfoldable pub pb_skip_field : ℕ → Reader (Unit {0})
pb_skip_field wire_type =
    if wire_type == WireType.varint
    then pb_skip_varint
    else if wire_type == WireType.fixed64
    then (pb_skip 8 >> give tt)
    else if wire_type == WireType.string
    then pb_skip_string
    else if wire_type == WireType.fixed32
    then (pb_skip 4 >> give tt)
    else refuse invalid_wire_type

-- read_raw_value, the varint case: `*size` may not pass `max_size`, here the rounds left.
unfoldable pub raw_varint : ℕ → Reader (List ℕ)
raw_varint zero = stop
raw_varint (suc rounds) = read_bytes 1 >>= λ bs.
    let more = raw_varint rounds >>= λ rest. give (first_byte bs ∷ rest) in
    if has_more (first_byte bs) then more else give (first_byte bs ∷ [])

unfoldable pub read_raw_value : ℕ → ℕ → Reader (List ℕ)
unfolding raw_varint
read_raw_value wire_type max_size =
    if wire_type == WireType.varint
    then raw_varint max_size
    else if wire_type == WireType.fixed64
    then read_bytes 8
    else if wire_type == WireType.fixed32
    then read_bytes 4
    else refuse invalid_wire_type

-- The substream for the next length-delimited value. The stream loses those bytes at once, and gets
-- its position when the substream is closed.
unfoldable pub pb_make_string_substream : Reader Istream
pb_make_string_substream = pb_decode_varint32 >>= λ size s.
    if ltb s.bytes_left size
    then refuse parent_stream_too_short s
    else (some (record s { bytes_left = size }), record s { bytes_left = s.bytes_left - size })

abbrev pub drain : Reader (List ℕ)
drain sub = if sub.bytes_left == 0 then give [] sub else pb_skip sub.bytes_left sub

abbrev pub close_with : Istream → Option (List ℕ) × Istream → Option (Unit {0}) × Istream
close_with s (some bs, sub) = (some tt, record s { state = sub.state; errmsg = sub.errmsg })
close_with s (none, sub) = (none, s)

-- The stream after `substream` is closed; what is left in the substream is skipped.
unfoldable pub pb_close_string_substream : Istream → Reader (Unit {0})
pb_close_string_substream substream s = close_with s (drain substream)

-- The little-endian number in the bytes, as the shifts and ors of pb_decode_fixed32 make it.
unfoldable pub or_bytes : ℕ → List ℕ → ℕ
or_bytes shift [] = 0
or_bytes shift (b ∷ bs) = bit_or (b * 2 ^ shift) (or_bytes (shift + 8) bs)

unfoldable pub pb_decode_fixed32 : Reader ℕ
unfolding or_bytes
pb_decode_fixed32 = read_bytes 4 >>= λ bs. give (or_bytes 0 bs)

unfoldable pub pb_decode_fixed64 : Reader ℕ
unfolding or_bytes
pb_decode_fixed64 = read_bytes 8 >>= λ bs. give (or_bytes 0 bs)

-- `value & 1 ? ~(value >> 1) : value >> 1`, as a 64-bit pattern.
unfoldable pub unzigzag : ℕ → ℕ
unzigzag value = if bit_and value 1 == 1 then 2 ^ 64 - 1 - value / 2 else value / 2

unfoldable pub pb_decode_svarint : Reader ℕ
unfolding unzigzag
pb_decode_svarint = pb_decode_varint >>= λ value. give (unzigzag value)
