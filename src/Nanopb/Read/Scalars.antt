-- ===== src/Nanopb/Read/Scalars.antt =====
-- pb_decode_svarint, pb_decode_fixed32, pb_decode_fixed64, pb_decode_tag and pb_skip_field of
-- Kasei/Pods/nanopb/pb_decode.c on the bytes that the encoder writes.
use kaseiapp.Base.{ℕ, zero, suc, ◌+◌, ◌-◌, ◌*◌, ◌/◌, ◌%◌, ◌^◌, ◌≤◌, ◌<◌, bit_and, arith}
use kaseiapp.Base.{◌≡◌, ap, ◌∙◌, List, ◌++◌, false}
use kaseiapp.Base.{length, IsU32, IsU64, ◌==◌}
use kaseiapp.Base.Bits.{and_mask, or_low, two_pow_suc, two_pow_pos}
use native.Mathlib.Numerals.{towards_suc}
use native.Mathlib.Nat.{div-add-mod}
use kaseiapp.Nanopb.Istream.{Istream, buf_read, read_bytes, ◌>>=◌, give}
use kaseiapp.Nanopb.Istream.Reads.{Reads, input, consume, read_bytes-Reads_of, map-Reads}
use kaseiapp.Nanopb.Read.{
  unzigzag, pb_decode_varint, pb_decode_svarint, or_bytes, pb_decode_fixed32, pb_decode_fixed64,
  found, pb_decode_tag,
}
use kaseiapp.Nanopb.Read.Varint.{pb_decode_varint-Reads}
use kaseiapp.Nanopb.Read.Varint32.{pb_decode_varint32-Reads}
use kaseiapp.Nanopb.Write.{zigzag, fixed_bytes}
use kaseiapp.Nanopb.Write.Varint.{varint_bytes}
use kaseiapp.Nanopb.Write.Scalars.{zigzag-IsU64, length-fixed_bytes, low_byte, tag_bytes}

-- The number that `pb_decode_svarint` makes of the zigzag code of `pb_encode_svarint` is the 64-bit
-- pattern that was encoded.
pub unzigzag-zigzag : (v : ℕ) → IsU64 v → unzigzag (zigzag v) ≡ v
unfolding unzigzag zigzag
unzigzag-zigzag v h =
    ground (arith, and_mask 1 (v * 2 % 2 ^ 64), and_mask 1 (2 ^ 64 - 1 - v * 2 % 2 ^ 64))

-- `pb_decode_svarint` reads the 64-bit pattern back.
pub pb_decode_svarint-Reads :
    (v : ℕ) → IsU64 v → Reads pb_decode_svarint (varint_bytes (zigzag v)) v
unfolding pb_decode_svarint
pb_decode_svarint-Reads v h = rw (unzigzag-zigzag v h) at (
    map-Reads pb_decode_varint unzigzag (varint_bytes (zigzag v)) (zigzag v)
      (pb_decode_varint-Reads (zigzag v) (zigzag-IsU64 v h)))

two_pow_eight : (k : ℕ) → 2 ^ (k + 8) ≡ 256 * 2 ^ k
two_pow_eight k = simp towards_suc (omega (arith, two_pow_suc k))

eight_more : (n : ℕ) → 2 ^ (8 * suc n) ≡ 256 * 2 ^ (8 * n)
eight_more n = ap (λ (t : ℕ). 2 ^ t) (omega arith) ∙ two_pow_eight (8 * n)

byte_room : (v shift : ℕ) → v % 256 * 2 ^ shift < 2 ^ (shift + 8)
byte_room v shift = omega (arith, two_pow_eight shift, two_pow_pos shift, at_most)
  where
    at_most : v % 256 * 2 ^ shift ≤ 255 * 2 ^ shift
    at_most = grind arith

split_byte : (v shift : ℕ) → v % 256 * 2 ^ shift + v / 256 * 2 ^ (shift + 8) ≡ v * 2 ^ shift
split_byte v shift = omega (
  arith,
  two_pow_eight shift,
  ap (λ (t : ℕ). v / 256 * t) (two_pow_eight shift),
  ap (λ (t : ℕ). t * 2 ^ shift) (div-add-mod v 256),
)

-- The shifts and ors put together again what the encoder took apart.
pub or_bytes-fixed_bytes :
    (n shift v : ℕ) → v < 2 ^ (8 * n) → or_bytes shift (fixed_bytes n v) ≡ v * 2 ^ shift
unfolding or_bytes fixed_bytes
or_bytes-fixed_bytes zero shift v h = omega (arith, ap (λ (t : ℕ). t * 2 ^ shift) none_left)
  where
    none_left : v ≡ 0
    none_left = omega arith
or_bytes-fixed_bytes (suc n) shift v h =
    rw (low_byte v, or_bytes-fixed_bytes n (shift + 8) (v / 256) (omega (arith, eight_more n)))
      (or_low (shift + 8) (v % 256 * 2 ^ shift) (v / 256) (byte_room v shift) ∙ split_byte v shift)

fixed-Reads :
    (n v : ℕ)
    → v < 2 ^ (8 * n)
    → Reads (read_bytes n >>= λ bs. give (or_bytes 0 bs)) (fixed_bytes n v) v
fixed-Reads n v h = rw whole at (
    map-Reads (read_bytes n) (or_bytes 0) (fixed_bytes n v) (fixed_bytes n v)
      (read_bytes-Reads_of n (fixed_bytes n v) (length-fixed_bytes n v)))
  where
    whole : or_bytes 0 (fixed_bytes n v) ≡ v
    whole = or_bytes-fixed_bytes n 0 v h ∙ omega arith

pub pb_decode_fixed32-Reads : (v : ℕ) → IsU32 v → Reads pb_decode_fixed32 (fixed_bytes 4 v) v
unfolding pb_decode_fixed32
pb_decode_fixed32-Reads v h = fixed-Reads 4 v h

pub pb_decode_fixed64-Reads : (v : ℕ) → IsU64 v → Reads pb_decode_fixed64 (fixed_bytes 8 v) v
unfolding pb_decode_fixed64
pb_decode_fixed64-Reads v h = fixed-Reads 8 v h

-- `pb_decode_tag` reads a key back: the wire type and the field number that were written.
pub pb_decode_tag-tag_bytes :
    (wiretype number : ℕ) (s : Istream) (rest : List ℕ)
    → wiretype < 8
    → 0 < number
    → number < 2 ^ 29
    → s.callback ≡ buf_read
    → input s ≡ tag_bytes wiretype number ++ rest
    → pb_decode_tag s ≡ (found wiretype number, consume s (length (tag_bytes wiretype number)))
unfolding pb_decode_tag
pb_decode_tag-tag_bytes wiretype number s rest hw pos hn buf e =
    rw (pb_decode_varint32-Reads (number * 8 + wiretype) (omega arith) s rest buf e)
      (rw (not_zero, low, high))
  where
    not_zero : (number * 8 + wiretype == 0) ≡ false
    not_zero = ground arith

    low : bit_and (number * 8 + wiretype) 7 ≡ wiretype
    low = and_mask 3 (number * 8 + wiretype) ∙ omega arith

    high : (number * 8 + wiretype) / 2 ^ 3 ≡ number
    high = omega arith
