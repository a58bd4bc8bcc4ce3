-- ===== src/Nanopb/Read/Takes.antt =====
-- How many bytes the readers of Kasei/Pods/nanopb/pb_decode.c take.
use kaseiapp.Base.{ℕ, zero, suc, ◌+◌, ◌-◌, ◌*◌, ◌%◌, ◌^◌, ◌≤◌, arith, bit_and, bit_or}
use kaseiapp.Base.{Bool, not, ◌&&◌, Option, none, some, List, ltb, leb, ◌==◌}
use kaseiapp.Base.{if◌then◌else◌, if-holds}
use kaseiapp.Nanopb.Pb.{varint_overflow, invalid_wire_type, parent_stream_too_short}
use kaseiapp.Nanopb.Pb.WireType
use kaseiapp.Nanopb.Istream.{
  Istream, give, refuse, proceed, ◌>>=◌, ◌>>◌, read_bytes, pb_skip, first_byte, pb_readbyte,
}
use kaseiapp.Nanopb.Istream.Takes.{
  Took, Takes, give-Takes, refuse-Takes, stop-Takes, if-Takes, if-Took, >>=-Takes, fewer-Takes,
  read_bytes-Takes, pb_readbyte-Takes, pb_skip-Takes,
}
use kaseiapp.Nanopb.Read.{
  has_more, decode_varint_loop, pb_decode_varint, overflows_32, decode_varint32_loop,
  check_top_bits, varint32_from, pb_decode_varint32, varint32_eof, skip_varint_loop, pb_skip_varint,
  pb_skip_string, TagRead, found, failed, split_tag, tag_after, pb_decode_tag, pb_skip_field,
  raw_varint, read_raw_value, pb_make_string_substream, drain, close_with,
  pb_close_string_substream, pb_decode_fixed32, pb_decode_fixed64, pb_decode_svarint,
}

varint_loop-Takes : (rounds bitpos result : ℕ) → Takes 1 (decode_varint_loop rounds bitpos result)
unfolding decode_varint_loop
varint_loop-Takes zero bitpos result = refuse-Takes 1 varint_overflow
varint_loop-Takes (suc rounds) bitpos result =
    if-Takes (leb 64 bitpos) (refuse-Takes 1 varint_overflow) (
      >>=-Takes pb_readbyte _ pb_readbyte-Takes λ b.
        if-Takes (has_more b)
          (fewer-Takes 0 _ (omega arith) (
            varint_loop-Takes rounds ((bitpos + 7) % 256)
              (bit_or result (bit_and b 0x7f * 2 ^ bitpos % 2 ^ 64))))
          (give-Takes (bit_or result (bit_and b 0x7f * 2 ^ bitpos % 2 ^ 64))))

pub pb_decode_varint-Takes : Takes 1 pb_decode_varint
unfolding pb_decode_varint
pb_decode_varint-Takes = varint_loop-Takes 11 0 0

varint32_loop-Takes :
    (rounds bitpos result : ℕ) → Takes 1 (decode_varint32_loop rounds bitpos result)
unfolding decode_varint32_loop
varint32_loop-Takes zero bitpos result =
    >>=-Takes pb_readbyte _ pb_readbyte-Takes (λ b. stop-Takes 0)
varint32_loop-Takes (suc rounds) bitpos result = >>=-Takes pb_readbyte _ pb_readbyte-Takes λ b.
    if-Takes (leb 32 bitpos && overflows_32 bitpos result b) (refuse-Takes 0 varint_overflow) (
      if-Takes (has_more b)
        (fewer-Takes 0 _ (omega arith) (varint32_loop-Takes rounds ((bitpos + 7) % 256) _))
        (give-Takes _))

check_top_bits-Takes : (r : ℕ × ℕ × ℕ) → Takes 0 (check_top_bits r)
check_top_bits-Takes (result, bitpos, b) =
    if-Takes (bitpos == 35 && not (bit_and b 0x70 == 0)) (refuse-Takes 0 varint_overflow)
      (give-Takes result)

varint32_from-Takes : (b : ℕ) → Takes 0 (varint32_from b)
unfolding varint32_from
varint32_from-Takes b = record {
  at = λ s.
      if-Took 0 s.bytes_left (bit_and b 0x80 == 0) _ _ (λ e. omega arith)
        (λ e.
          (fewer-Takes 0 (decode_varint32_loop s.bytes_left 7 (bit_and b 0x7f) >>= check_top_bits)
              (omega arith)
              (>>=-Takes _ check_top_bits (varint32_loop-Takes s.bytes_left 7 (bit_and b 0x7f))
                check_top_bits-Takes)).at
            s);
}

pub pb_decode_varint32-Takes : Takes 1 pb_decode_varint32
unfolding pb_decode_varint32
pb_decode_varint32-Takes = >>=-Takes pb_readbyte varint32_from pb_readbyte-Takes varint32_from-Takes

skip_varint_loop-Takes : (rounds : ℕ) → Takes 1 (skip_varint_loop rounds)
unfolding skip_varint_loop
skip_varint_loop-Takes zero = >>=-Takes (read_bytes 1) _ (read_bytes-Takes 1) (λ bs. stop-Takes 0)
skip_varint_loop-Takes (suc rounds) = >>=-Takes (read_bytes 1) _ (read_bytes-Takes 1) λ bs.
    if-Takes (has_more (first_byte bs))
      (fewer-Takes 0 _ (omega arith) (skip_varint_loop-Takes rounds)) (give-Takes tt)

skip_then_give : (n : ℕ) → Takes 0 (pb_skip n >> give (tt {0}))
skip_then_give n = >>=-Takes (pb_skip n) _ (pb_skip-Takes n) (λ bs. give-Takes tt)

skip_varint-Takes : Takes 0 pb_skip_varint
unfolding pb_skip_varint
skip_varint-Takes = record {
  at = λ s. (fewer-Takes 0 _ (omega arith) (skip_varint_loop-Takes s.bytes_left)).at s;
}

skip_string-Takes : Takes 0 pb_skip_string
unfolding pb_skip_string
skip_string-Takes =
    fewer-Takes 0 _ (omega arith)
      (>>=-Takes pb_decode_varint32 _ pb_decode_varint32-Takes skip_then_give)

pub pb_skip_field-Takes : (wire_type : ℕ) → Takes 0 (pb_skip_field wire_type)
unfolding pb_skip_field
pb_skip_field-Takes wire_type = if-Takes (wire_type == WireType.varint) skip_varint-Takes (
    if-Takes (wire_type == WireType.fixed64) (skip_then_give 8) (
      if-Takes (wire_type == WireType.string) skip_string-Takes (
        if-Takes (wire_type == WireType.fixed32) (skip_then_give 4)
          (refuse-Takes 0 invalid_wire_type))))

raw_varint-Takes : (rounds : ℕ) → Takes 0 (raw_varint rounds)
unfolding raw_varint
raw_varint-Takes zero = stop-Takes 0
raw_varint-Takes (suc rounds) = fewer-Takes 0 _ (omega arith) (
    >>=-Takes (read_bytes 1) _ (read_bytes-Takes 1) λ bs.
      if-Takes (has_more (first_byte bs))
        (>>=-Takes (raw_varint rounds) _ (raw_varint-Takes rounds) (λ rest. give-Takes _))
        (give-Takes _))

pub read_raw_value-Takes : (wire_type max_size : ℕ) → Takes 0 (read_raw_value wire_type max_size)
unfolding read_raw_value
read_raw_value-Takes wire_type max_size =
    if-Takes (wire_type == WireType.varint) (raw_varint-Takes max_size) (
      if-Takes (wire_type == WireType.fixed64)
        (fewer-Takes 0 (read_bytes 8) (omega arith) (read_bytes-Takes 8))
        (if-Takes (wire_type == WireType.fixed32)
          (fewer-Takes 0 (read_bytes 4) (omega arith) (read_bytes-Takes 4))
          (refuse-Takes 0 invalid_wire_type)))

pub pb_decode_fixed32-Takes : Takes 4 pb_decode_fixed32
unfolding pb_decode_fixed32
pb_decode_fixed32-Takes = >>=-Takes (read_bytes 4) _ (read_bytes-Takes 4) (λ bs. give-Takes _)

pub pb_decode_fixed64-Takes : Takes 8 pb_decode_fixed64
unfolding pb_decode_fixed64
pb_decode_fixed64-Takes = >>=-Takes (read_bytes 8) _ (read_bytes-Takes 8) (λ bs. give-Takes _)

pub pb_decode_svarint-Takes : Takes 1 pb_decode_svarint
unfolding pb_decode_svarint
pb_decode_svarint-Takes =
    >>=-Takes pb_decode_varint _ pb_decode_varint-Takes (λ value. give-Takes _)

drain-Takes : Takes 0 drain
drain-Takes = record {
  at = λ s.
      if-Took 0 s.bytes_left (s.bytes_left == 0) _ _ (λ e. omega arith)
        (λ e. (pb_skip-Takes s.bytes_left).at s);
}

close_with-Took :
    (s : Istream) (r : Option (List ℕ) × Istream) → Took 0 s.bytes_left (close_with s r)
close_with-Took s (some bs, sub) = omega arith
close_with-Took s (none, sub) = omega arith

-- Closing a substream takes no bytes of the stream: they went with its making.
pub pb_close_string_substream-Takes : (sub : Istream) → Takes 0 (pb_close_string_substream sub)
unfolding pb_close_string_substream
pb_close_string_substream-Takes sub = record { at = λ s. close_with-Took s (drain sub) }

-- Of `n` bytes, one at least is gone, and the substream and the stream have no more than the rest.
abbrev pub Parted : ℕ → Option Istream × Istream → Type 0
Parted n (some sub, t) = sub.bytes_left + t.bytes_left ≤ n - 1
Parted n (none, t) = t.bytes_left ≤ n

part-Parted :
    (n : ℕ) (r : Option ℕ × Istream)
    → Took 1 n r
    → Parted n (
        proceed r λ size s. if ltb s.bytes_left size then refuse parent_stream_too_short s else (
          some (record s { bytes_left = size }),
          record s { bytes_left = s.bytes_left - size },
        ))
part-Parted n (none, t) h = h
part-Parted n (some size, t) h =
    if-holds (Parted n) (ltb t.bytes_left size) _ _ (λ e. omega arith) (λ e. fits (ground arith))
  where
    fits : size ≤ t.bytes_left → size + (t.bytes_left - size) ≤ n - 1
    fits le = omega arith

-- pb_make_string_substream, where it succeeds, takes one byte at least, and its substream and the
-- stream have together no more bytes than are left then; where it fails, the stream has no more bytes
-- than before.
pub make_substream-Parted : (s : Istream) → Parted s.bytes_left (pb_make_string_substream s)
unfolding pb_make_string_substream
make_substream-Parted s =
    part-Parted s.bytes_left (pb_decode_varint32 s) (pb_decode_varint32-Takes.at s)

abbrev pub TookTag : ℕ → TagRead × Istream → Type 0
TookTag n (found wire_type tag, t) = t.bytes_left ≤ n - 1
TookTag n (failed eof, t) = t.bytes_left ≤ n

split_tag-TookTag :
    (n temp : ℕ) (t : Istream) → t.bytes_left ≤ n - 1 → TookTag n (split_tag temp, t)
split_tag-TookTag n temp t h =
    if-holds (λ (read : TagRead). TookTag n (read, t)) (temp == 0) _ _ (λ e. omega arith) (λ e. h)

tag_after-TookTag :
    (n : ℕ) (eof : Bool) (r : Option ℕ × Istream) → Took 1 n r → TookTag n (tag_after eof r)
tag_after-TookTag n eof (some temp, t) h = split_tag-TookTag n temp t h
tag_after-TookTag n eof (none, t) h = h

pub pb_decode_tag-TookTag : (s : Istream) → TookTag s.bytes_left (pb_decode_tag s)
unfolding pb_decode_tag
pb_decode_tag-TookTag s =
    tag_after-TookTag s.bytes_left (varint32_eof s) (pb_decode_varint32 s)
      (pb_decode_varint32-Takes.at s)
