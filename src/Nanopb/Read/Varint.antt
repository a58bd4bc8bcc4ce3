-- ===== src/Nanopb/Read/Varint.antt =====
-- pb_decode_varint of Kasei/Pods/nanopb/pb_decode.c on the bytes that pb_encode_varint writes.
use kaseiapp.Base.{ℕ, zero, suc, ◌+◌, ◌*◌, ◌/◌, ◌%◌, ◌^◌, ◌≤◌, ◌<◌, bit_and, bit_or, arith}
use kaseiapp.Base.{◌≡◌, ap, ◌∙◌, true, false, List, [], ◌∷◌, IsU64, Bool-cases, inl, inr}
use kaseiapp.Base.{ltb, leb}
use kaseiapp.Base.Bits.{and_top_bit, or_low, two_pow_suc}
use kaseiapp.Nanopb.Istream.Reads.{Reads, pb_readbyte-Reads, give-Reads, >>=-Reads}
use kaseiapp.Nanopb.Read.{has_more, decode_varint_loop, pb_decode_varint}
use kaseiapp.Nanopb.Write.Varint.{base128, low_seven, varint_bytes}
use native.Mathlib.Nat.{div-add-mod, mod-eq_of_lt}
use native.Mathlib.Numerals.{towards_suc}

pub has_more_last : (w : ℕ) → w < 128 → has_more w ≡ false
has_more_last w h = ground (arith, and_top_bit w (omega arith))

pub has_more_inner : (g : ℕ) → g < 128 → has_more (g + 128) ≡ true
has_more_inner g h = ground (arith, and_top_bit (g + 128) (omega arith))

pub two_pow_seven : (k : ℕ) → 2 ^ (k + 7) ≡ 128 * 2 ^ k
two_pow_seven k = simp towards_suc (omega (arith, two_pow_suc k))

-- The lowest digit of `w` at bit `bp`, and the rest at bit `bp + 7`.
pub split_digit : (w bp : ℕ) → w * 2 ^ bp ≡ w % 128 * 2 ^ bp + w / 128 * 2 ^ (bp + 7)
split_digit w bp = omega (
  arith,
  two_pow_seven bp,
  ap (λ (t : ℕ). w / 128 * t) (two_pow_seven bp),
  ap (λ (t : ℕ). t * 2 ^ bp) (div-add-mod w 128),
)

-- `result |= (uint64_t)(byte & 0x7F) << bitpos`
add_digit :
    (b acc bp : ℕ)
    → acc < 2 ^ bp
    → acc + b % 128 * 2 ^ bp < 2 ^ 64
    → bit_or acc (bit_and b 0x7f * 2 ^ bp % 2 ^ 64) ≡ acc + b % 128 * 2 ^ bp
add_digit b acc bp h fits =
    rw (low_seven b, mod-eq_of_lt {n = b % 128 * 2 ^ bp} {m = 2 ^ 64} (omega arith))
      (or_low bp acc (b % 128) h)

last_byte :
    (rounds w acc bp : ℕ)
    → w < 128
    → bp < 64
    → acc < 2 ^ bp
    → IsU64 (acc + w * 2 ^ bp)
    → Reads (decode_varint_loop (suc rounds) bp acc) (w ∷ []) (acc + w * 2 ^ bp)
unfolding decode_varint_loop
last_byte rounds w acc bp hw hb ha fits = rw early (
    >>=-Reads _ (w ∷ []) [] w _ (pb_readbyte-Reads w)
      (rw (has_more_last w hw, value) (give-Reads (acc + w * 2 ^ bp))))
  where
    early : leb 64 bp ≡ false
    early = ground arith

    digit : w % 128 ≡ w
    digit = omega arith

    value : bit_or acc (bit_and w 0x7f * 2 ^ bp % 2 ^ 64) ≡ acc + w * 2 ^ bp
    value = add_digit w acc bp ha (rw digit fits) ∙ ap (λ (t : ℕ). acc + t * 2 ^ bp) digit

inner_byte :
    (rounds g acc bp v : ℕ) (ys : List ℕ)
    → g < 128
    → bp < 64
    → acc < 2 ^ bp
    → acc + g * 2 ^ bp < 2 ^ 64
    → Reads (decode_varint_loop rounds (bp + 7) (acc + g * 2 ^ bp)) ys v
    → Reads (decode_varint_loop (suc rounds) bp acc) ((g + 128) ∷ ys) v
unfolding decode_varint_loop
inner_byte rounds g acc bp v ys hg hb ha fits tail = rw early (
    >>=-Reads _ ((g + 128) ∷ []) ys (g + 128) v (pb_readbyte-Reads (g + 128))
      (rw (has_more_inner g hg, value, mod-eq_of_lt {n = bp + 7} {m = 256} (omega arith)) tail))
  where
    early : leb 64 bp ≡ false
    early = ground arith

    digit : (g + 128) % 128 ≡ g
    digit = omega arith

    value : bit_or acc (bit_and (g + 128) 0x7f * 2 ^ bp % 2 ^ 64) ≡ acc + g * 2 ^ bp
    value = add_digit (g + 128) acc bp ha (rw digit fits) ∙ ap (λ (t : ℕ). acc + t * 2 ^ bp) digit

pub digit_room : (g acc bp : ℕ) → g < 128 → acc < 2 ^ bp → acc + g * 2 ^ bp < 2 ^ (bp + 7)
digit_room g acc bp hg ha = omega (arith, two_pow_seven bp, at_most)
  where
    at_most : g * 2 ^ bp ≤ 127 * 2 ^ bp
    at_most = grind arith

pub digit_total :
    (w acc bp : ℕ) → acc + w % 128 * 2 ^ bp + w / 128 * 2 ^ (bp + 7) ≡ acc + w * 2 ^ bp
digit_total w acc bp = omega (arith, split_digit w bp)

-- `w` is what is still to be read, and it counts from bit `bp` on.
loop-base128 :
    (k rounds w acc bp : ℕ)
    → k < rounds
    → w < 128 ^ suc k
    → bp + 7 * k < 64
    → acc < 2 ^ bp
    → IsU64 (acc + w * 2 ^ bp)
    → Reads (decode_varint_loop rounds bp acc) (base128 k w) (acc + w * 2 ^ bp)
unfolding base128
loop-base128 k zero w acc bp hr hw hb ha fits = absurd (omega arith)
loop-base128 zero (suc rounds) w acc bp hr hw hb ha fits =
    last_byte rounds w acc bp hw (omega arith) ha fits
loop-base128 (suc k) (suc rounds) w acc bp hr hw hb ha fits = elim (Bool-cases (ltb w 128)) [
  | inl small ↦ rw small (last_byte rounds w acc bp (ground arith) (omega arith) ha fits)
  | inr large ↦ rw large (
      inner_byte rounds (w % 128) acc bp (acc + w * 2 ^ bp) (base128 k (w / 128)) (omega arith)
        (omega arith) ha (omega (arith, split_digit w bp))
        (rw (digit_total w acc bp) at (
          loop-base128 k rounds (w / 128) (acc + w % 128 * 2 ^ bp) (bp + 7) (omega arith)
            (omega arith) (omega arith) (digit_room (w % 128) acc bp (omega arith) ha)
            (rw (digit_total w acc bp) fits))))
]

-- `pb_decode_varint` reads the number back from its varint, and leaves what follows.
pub pb_decode_varint-Reads : (v : ℕ) → IsU64 v → Reads pb_decode_varint (varint_bytes v) v
unfolding pb_decode_varint
pb_decode_varint-Reads v h =
    rw whole at
      (loop-base128 9 11 v 0 0 (omega arith) (omega arith) (omega arith) (omega arith) (rw whole h))
  where
    whole : 0 + v * 2 ^ 0 ≡ v
    whole = omega arith
