-- ===== src/Nanopb/Read/Overlong.antt =====
-- pb_decode_varint32 of Kasei/Pods/nanopb/pb_decode.c on numbers that are padded past ten bytes.
use kaseiapp.Base.{
  ℕ, zero, suc, ◌+◌, ◌-◌, ◌*◌, ◌%◌, ◌^◌, ◌<◌, ◌≡◌, refl, ap, ◌∙◌, bit_and, bit_or, arith,
}
use kaseiapp.Base.{
  false, ◌&&◌, some, List, [], ◌∷◌, ◌++◌, replicate, leb, if◌then◌else◌, append-nil,
}
use kaseiapp.Nanopb.Istream.{Istream, buf_read}
use kaseiapp.Nanopb.Istream.Reads.{
  Reads, input, consume, enough, pb_readbyte-Reads, give-Reads, >>=-Reads,
}
use kaseiapp.Nanopb.Read.{
  overflows_32, decode_varint32_loop, check_top_bits, varint32_from, pb_decode_varint32,
}
use kaseiapp.Nanopb.Read.Varint.{has_more_last}
use kaseiapp.Nanopb.Write.Varint.{low_seven}
use kaseiapp.Base.Bits.{zero-bit_or}
use mathlib.Core.Path.{subst}
use native.Mathlib.Nat.{zero-mul}
use kaseiapp.Base.{Bool-cases, inl, inr}
use kaseiapp.Nanopb.Istream.{◌>>=◌}

-- A byte of padding changes nothing but `bitpos`.
padding-Reads :
    (rounds bp : ℕ) (ys : List ℕ) (r : ℕ × ℕ × ℕ)
    → Reads (decode_varint32_loop rounds ((bp + 7) % 256) 0) ys r
    → Reads (decode_varint32_loop (suc rounds) bp 0) (0x80 ∷ ys) r
unfolding decode_varint32_loop
padding-Reads rounds bp ys r more =
    >>=-Reads _ (0x80 ∷ []) ys 0x80 r (pb_readbyte-Reads 0x80) (rw (accepted, unchanged) more)
  where
    accepted : (leb 32 bp && overflows_32 bp 0 0x80) ≡ false
    accepted = ground arith

    nothing : 0 * 2 ^ bp % 2 ^ 32 ≡ 0
    nothing = ap (λ (n : ℕ). n % 2 ^ 32) (zero-mul (2 ^ bp))

    unchanged : (if leb 32 bp then 0 else bit_or 0 (bit_and 0x80 0x7f * 2 ^ bp % 2 ^ 32)) ≡ 0
    unchanged = elim (Bool-cases (leb 32 bp)) [
      | inl late ↦ rw late refl
      | inr early ↦ rw early (ap (bit_or 0) nothing ∙ zero-bit_or 0)
    ]

-- `k` rounds more, and the value of `bitpos` after `k` bytes.
more_rounds : ℕ → ℕ → ℕ
more_rounds zero rounds = rounds
more_rounds (suc k) rounds = suc (more_rounds k rounds)

bitpos_after : ℕ → ℕ → ℕ
bitpos_after zero bp = bp
bitpos_after (suc k) bp = bitpos_after k ((bp + 7) % 256)

more_rounds_lem : (k rounds : ℕ) → more_rounds k rounds ≡ k + rounds
unfolding more_rounds
more_rounds_lem zero rounds = omega arith
more_rounds_lem (suc k) rounds = omega (arith, more_rounds_lem k rounds)

paddings-Reads :
    (k rounds bp : ℕ) (ys : List ℕ) (r : ℕ × ℕ × ℕ)
    → Reads (decode_varint32_loop rounds (bitpos_after k bp) 0) ys r
    → Reads (decode_varint32_loop (more_rounds k rounds) bp 0) (replicate k 0x80 ++ ys) r
unfolding more_rounds bitpos_after
paddings-Reads zero rounds bp ys r h = h
paddings-Reads (suc k) rounds bp ys r h =
    padding-Reads (more_rounds k rounds) bp (replicate k 0x80 ++ ys) r
      (paddings-Reads k rounds ((bp + 7) % 256) ys r h)

-- A last byte at bit 3.
last-Reads :
    (rounds b : ℕ) → b < 128 → Reads (decode_varint32_loop (suc rounds) 3 0) (b ∷ []) (b * 8, 10, b)
unfolding decode_varint32_loop
last-Reads rounds b h =
    >>=-Reads _ (b ∷ []) [] b _ (pb_readbyte-Reads b)
      (rw (value, has_more_last b h) (give-Reads (b * 8, 10, b)))
  where
    value : bit_or 0 (bit_and b 0x7f * 2 ^ 3 % 2 ^ 32) ≡ b * 8
    value =
        ap (λ (t : ℕ). bit_or 0 (t * 2 ^ 3 % 2 ^ 32)) (low_seven b)
        ∙ zero-bit_or (b % 128 * 2 ^ 3 % 2 ^ 32)
        ∙ omega arith

long_loop-Reads :
    (rounds b : ℕ)
    → b < 128
    → Reads
        (decode_varint32_loop (more_rounds 36 (suc rounds)) 7 0 >>= check_top_bits)
        (replicate 36 0x80 ++ b ∷ [])
        (b * 8)
unfolding bitpos_after
long_loop-Reads rounds b h =
    subst
      (λ (xs : List ℕ).
        Reads (decode_varint32_loop (more_rounds 36 (suc rounds)) 7 0 >>= check_top_bits) xs
          (b * 8))
      (append-nil (replicate 36 0x80 ++ b ∷ []))
      (>>=-Reads check_top_bits (replicate 36 0x80 ++ b ∷ []) [] (b * 8, 10, b) (b * 8)
        (paddings-Reads 36 (suc rounds) 7 (b ∷ []) (b * 8, 10, b) (last-Reads rounds b h))
        (give-Reads (b * 8)))

from-Reads : (b : ℕ) → b < 128 → Reads (varint32_from 0x80) (replicate 36 0x80 ++ b ∷ []) (b * 8)
unfolding varint32_from
from-Reads b h s rest buf e =
    subst
      (λ (n : ℕ). (decode_varint32_loop n 7 0 >>= check_top_bits) s ≡ (some (b * 8), consume s 37))
      (more_rounds_lem 36 (suc (s.bytes_left - 37)) ∙ left)
      (long_loop-Reads (s.bytes_left - 37) b h s rest buf e)
  where
    left : 36 + suc (s.bytes_left - 37) ≡ s.bytes_left
    left = omega (arith, enough s (replicate 36 0x80 ++ b ∷ []) rest e)

-- On a stream over a buffer whose input begins with 37 bytes 0x80 and a byte below 128,
-- pb_decode_varint32 takes the 38 bytes and gives eight times the last of them: the byte is not refused,
-- and its bits are added at bit 3.
pub pb_decode_varint32-overlong :
    (b : ℕ) (s : Istream) (rest : List ℕ)
    → b < 128
    → s.callback ≡ buf_read
    → input s ≡ (0x80 ∷ replicate 36 0x80 ++ b ∷ []) ++ rest
    → pb_decode_varint32 s ≡ (some (b * 8), consume s 38)
unfolding pb_decode_varint32
pb_decode_varint32-overlong b s rest h buf e =
    >>=-Reads varint32_from (0x80 ∷ []) (replicate 36 0x80 ++ b ∷ []) 0x80 (b * 8)
      (pb_readbyte-Reads 0x80) (from-Reads b h) s rest buf e
