-- ===== src/Nanopb/Read/Varint32.antt =====
-- pb_decode_varint32 of Kasei/Pods/nanopb/pb_decode.c on the varint of a 32-bit number.
use kaseiapp.Base.{ℕ, zero, suc, ◌+◌, ◌*◌, ◌/◌, ◌%◌, ◌^◌, ◌≤◌, ◌<◌, bit_and, bit_or, arith}
use kaseiapp.Base.{◌≡◌, ap, ◌∙◌, true, false, some, List, [], ◌∷◌, IsU32, Bool-cases, inl, inr}
use kaseiapp.Base.{ltb, leb, ◌==◌, ◌++◌, ◌&&◌, not, length}
use kaseiapp.Base.Bits.{and_top_bit, and_0x70, or_low}
use kaseiapp.Nanopb.Istream.{Reader, ◌>>=◌}
use kaseiapp.Nanopb.Istream.Reads.{
  Reads, consume, consume-add, enough, input-consume, pb_readbyte-Reads, give-Reads, >>=-Reads,
}
use kaseiapp.Nanopb.Read.{decode_varint32_loop, check_top_bits, varint32_from, pb_decode_varint32}
use kaseiapp.Nanopb.Read.Varint.{
  has_more_last, has_more_inner, split_digit, digit_room, digit_total,
}
use kaseiapp.Nanopb.Write.Varint.{
  base128, length-base128_pos, low_seven, varint_bytes, varint_small,
}
use native.Mathlib.Nat.{mod-eq_of_lt}

-- `result |= (uint32_t)(byte & 0x7F) << bitpos`
add_digit32 :
    (b acc bp : ℕ)
    → acc < 2 ^ bp
    → acc + b % 128 * 2 ^ bp < 2 ^ 32
    → bit_or acc (bit_and b 0x7f * 2 ^ bp % 2 ^ 32) ≡ acc + b % 128 * 2 ^ bp
add_digit32 b acc bp h fits =
    rw (low_seven b, mod-eq_of_lt {n = b % 128 * 2 ^ bp} {m = 2 ^ 32} (omega arith))
      (or_low bp acc (b % 128) h)

-- A last digit at bit 28 is below 16, if the number is below 2 ^ 32.
top_digit : (w acc bp : ℕ) → IsU32 (acc + w * 2 ^ bp) → bp ≡ 28 → w < 16
top_digit w acc bp h e = let h' : IsU32 (acc + w * 2 ^ 28) = rw e at h in omega arith

abbrev Loop32 : ℕ → ℕ → ℕ → Reader ℕ
Loop32 rounds bp acc = decode_varint32_loop rounds bp acc >>= check_top_bits

checked :
    (w bp : ℕ)
    → w < 128
    → bp < 32
    → (bp ≡ 28 → w < 16)
    → ((bp + 7 == 35) && not (bit_and w 0x70 == 0)) ≡ false
checked w bp hw hb top = ground (arith, and_0x70 w (omega arith))

next_bit : (bp : ℕ) → bp < 32 → (bp + 7) % 256 ≡ bp + 7
next_bit bp h = omega arith

last_byte32 :
    (rounds w acc bp : ℕ)
    → w < 128
    → bp < 32
    → (bp ≡ 28 → w < 16)
    → acc < 2 ^ bp
    → IsU32 (acc + w * 2 ^ bp)
    → Reads (Loop32 (suc rounds) bp acc) (w ∷ []) (acc + w * 2 ^ bp)
unfolding decode_varint32_loop
last_byte32 rounds w acc bp hw hb top ha fits s rest buf e =
    rw (pb_readbyte-Reads w s rest buf e, early, has_more_last w hw, next_bit bp hb)
      (rw (checked w bp hw hb top, value))
  where
    early : leb 32 bp ≡ false
    early = ground arith

    digit : w % 128 ≡ w
    digit = omega arith

    value : bit_or acc (bit_and w 0x7f * 2 ^ bp % 2 ^ 32) ≡ acc + w * 2 ^ bp
    value = add_digit32 w acc bp ha (rw digit fits) ∙ ap (λ (t : ℕ). acc + t * 2 ^ bp) digit

inner_byte32 :
    (rounds g acc bp v : ℕ) (ys : List ℕ)
    → g < 128
    → bp < 32
    → acc < 2 ^ bp
    → IsU32 (acc + g * 2 ^ bp)
    → Reads (Loop32 rounds (bp + 7) (acc + g * 2 ^ bp)) ys v
    → Reads (Loop32 (suc rounds) bp acc) ((g + 128) ∷ ys) v
unfolding decode_varint32_loop
inner_byte32 rounds g acc bp v ys hg hb ha fits tail s rest buf e =
    rw
      (pb_readbyte-Reads (g + 128) s (ys ++ rest) buf e, early, has_more_inner g hg, next_bit bp hb)
      (rw value (
        tail (consume s 1) rest buf (input-consume s ((g + 128) ∷ []) (ys ++ rest) e)
        ∙ ap (λ t. (some v, t)) (consume-add s 1 (length ys) ∙ ap (consume s) (omega arith))))
  where
    early : leb 32 bp ≡ false
    early = ground arith

    digit : (g + 128) % 128 ≡ g
    digit = omega arith

    value : bit_or acc (bit_and (g + 128) 0x7f * 2 ^ bp % 2 ^ 32) ≡ acc + g * 2 ^ bp
    value = add_digit32 (g + 128) acc bp ha (rw digit fits) ∙ ap (λ (t : ℕ). acc + t * 2 ^ bp) digit

loop32-base128 :
    (k rounds w acc bp : ℕ)
    → length (base128 k w) ≤ rounds
    → w < 128 ^ suc k
    → bp + 7 * k ≡ 28
    → acc < 2 ^ bp
    → IsU32 (acc + w * 2 ^ bp)
    → Reads (Loop32 rounds bp acc) (base128 k w) (acc + w * 2 ^ bp)
unfolding base128
loop32-base128 zero zero w acc bp hr hw hb ha fits = absurd (omega arith)
loop32-base128 zero (suc rounds) w acc bp hr hw hb ha fits =
    last_byte32 rounds w acc bp hw (omega arith) (top_digit w acc bp fits) ha fits
loop32-base128 (suc k) zero w acc bp hr hw hb ha fits =
    absurd (ground (arith, length-base128_pos k (w / 128)))
loop32-base128 (suc k) (suc rounds) w acc bp hr hw hb ha fits = elim (Bool-cases (ltb w 128)) [
  | inl small ↦
      rw small (
        last_byte32 rounds w acc bp (ground arith) (omega arith) (λ e. absurd (omega arith)) ha
          fits)
  | inr large ↦ rw large (
      inner_byte32 rounds (w % 128) acc bp (acc + w * 2 ^ bp) (base128 k (w / 128)) (omega arith)
        (omega arith) ha (omega (arith, split_digit w bp))
        (rw (digit_total w acc bp) at (
          loop32-base128 k rounds (w / 128) (acc + w % 128 * 2 ^ bp) (bp + 7) (fewer large)
            (omega arith) (omega arith) (digit_room (w % 128) acc bp (omega arith) ha)
            (rw (digit_total w acc bp) fits))))
]
  where
    fewer : ltb w 128 ≡ false → length (base128 k (w / 128)) ≤ rounds
    fewer large = ground arith

-- The five digits that a 32-bit number may have are the first of the ten of a 64-bit one.
base128_fewer : (k v : ℕ) → v < 128 ^ suc k → base128 (suc k) v ≡ base128 k v
unfolding base128
base128_fewer zero v h = ground arith
base128_fewer (suc k) v h = elim (Bool-cases (ltb v 128)) [
  | inl small ↦ rw small
  | inr large ↦ rw large (ap (λ t. (v % 128 + 128) ∷ t) (base128_fewer k (v / 128) (omega arith)))
]

pub varint_bytes_32 : (v : ℕ) → IsU32 v → varint_bytes v ≡ base128 4 v
varint_bytes_32 v h =
    base128_fewer 8 v (omega arith)
    ∙ base128_fewer 7 v (omega arith)
    ∙ base128_fewer 6 v (omega arith)
    ∙ base128_fewer 5 v (omega arith)
    ∙ base128_fewer 4 v (omega arith)

many_bytes : (v : ℕ) → 128 ≤ v → IsU32 v → varint_bytes v ≡ (v % 128 + 128) ∷ base128 3 (v / 128)
unfolding base128
many_bytes v large h = varint_bytes_32 v h ∙ rw (ltb-false)
  where
    ltb-false : ltb v 128 ≡ false
    ltb-false = ground arith

one_byte : (v : ℕ) → v < 128 → Reads (varint32_from v) [] v
unfolding varint32_from
one_byte v h s rest buf e = rw quick (give-Reads v s rest buf e)
  where
    quick : (bit_and v 0x80 == 0) ≡ true
    quick = ground (arith, and_top_bit v (omega arith))

more_bytes :
    (v : ℕ) → 128 ≤ v → IsU32 v → Reads (varint32_from (v % 128 + 128)) (base128 3 (v / 128)) v
unfolding varint32_from
more_bytes v large h s rest buf e =
    rw (slow, first)
      (rw whole at (
        loop32-base128 3 s.bytes_left (v / 128) (v % 128) 7 (enough s _ rest e) (omega arith)
          (omega arith) (omega arith) (rw whole h) s rest buf e))
  where
    slow : (bit_and (v % 128 + 128) 0x80 == 0) ≡ false
    slow = ground (arith, and_top_bit (v % 128 + 128) (omega arith))

    first : bit_and (v % 128 + 128) 0x7f ≡ v % 128
    first = omega (arith, low_seven (v % 128 + 128))

    whole : v % 128 + v / 128 * 2 ^ 7 ≡ v
    whole = omega arith

-- `pb_decode_varint32` reads a 32-bit number back from its varint, and leaves what follows.
pub pb_decode_varint32-Reads : (v : ℕ) → IsU32 v → Reads pb_decode_varint32 (varint_bytes v) v
unfolding pb_decode_varint32
pb_decode_varint32-Reads v h = elim (Bool-cases (ltb v 128)) [
  | inl small ↦
      rw (varint_small v (ground arith))
        (>>=-Reads varint32_from (v ∷ []) [] v v (pb_readbyte-Reads v) (one_byte v (ground arith)))
  | inr large ↦ rw (many_bytes v (ground arith) h) (
      >>=-Reads varint32_from ((v % 128 + 128) ∷ []) (base128 3 (v / 128)) (v % 128 + 128) v
        (pb_readbyte-Reads (v % 128 + 128)) (more_bytes v (ground arith) h))
]
