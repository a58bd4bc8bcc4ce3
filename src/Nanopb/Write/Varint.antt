-- ===== src/Nanopb/Write/Varint.antt =====
-- What pb_encode_varint and pb_encode_svarint of Kasei/Pods/nanopb/pb_encode.c write, in arithmetic.
use kaseiapp.Base.{ℕ, zero, suc, ◌+◌, ◌/◌, ◌%◌, ◌^◌, ◌≤◌, ◌<◌, bit_and, bit_or, arith}
use kaseiapp.Base.{
  ◌≡◌, refl, ap, ◌∙◌, List, [], ◌∷◌, ltb, leb, if◌then◌else◌, length, All, IsByte, IsU64,
}
use kaseiapp.Base.{Bool-cases, inl, inr}
use kaseiapp.Base.Bits.{and_mask, or_low}
use kaseiapp.Base.Order.{lt_wf}
use kaseiapp.Nanopb.Ostream.{pb_write}
use kaseiapp.Nanopb.Ostream.Emits.{Emits}
use kaseiapp.Nanopb.Ostream.Emits.Write.{pb_write-Emits}
use kaseiapp.Nanopb.Write.{
  shift_shrinks, varint_loop, unset_top_bit, varint_buffer, pb_encode_varint,
}
use mathlib.Core.Logic.{dif_pos}
use mathlib.Core.WellFounded.{Acc}
use native.Mathlib.Nat.{mod-eq_of_lt}
use native.Mathlib.Decide.{dec_lt}
use native.Mathlib.Bridge.{le_prop}

-- The base-128 digits of a number, lowest first, all but the last with 128 added; `rounds` more
-- digits are allowed after the first.
unfoldable pub base128 : ℕ → ℕ → List ℕ
base128 zero v = v ∷ []
base128 (suc rounds) v =
    let rest = base128 rounds (v / 128) in if ltb v 128 then v ∷ [] else (v % 128 + 128) ∷ rest

pub low_seven : (v : ℕ) → bit_and v 0x7f ≡ v % 128
low_seven v = and_mask 7 v

pub mark_more : (v : ℕ) → bit_or (bit_and v 0x7f) 0x80 ≡ v % 128 + 128
mark_more v = ap (λ (t : ℕ). bit_or t 0x80) (low_seven v) ∙ or_low 7 (v % 128) 1 (omega arith)

loop_end : (v : ℕ) (w : Acc ◌<◌ v) → v ≡ 0 → varint_loop v w ≡ []
unfolding varint_loop
loop_end v (Acc.intro _ smaller) h = ground arith

loop_step :
    (v : ℕ) (w : Acc ◌<◌ v)
    → 0 < v
    → (w' : Acc ◌<◌ (v / 128)) × (varint_loop v w ≡ (v % 128 + 128) ∷ varint_loop (v / 128) w')
unfolding varint_loop
loop_step v (Acc.intro _ smaller) pos = (
  smaller (v / 128) (shift_shrinks v pos),
  dif_pos (dec_lt 0 v) le_prop pos _ _
      ∙ ap (λ (t : ℕ). t ∷ varint_loop (v / 128) (smaller (v / 128) (shift_shrinks v pos))) byte,
)
  where
    byte : bit_or (bit_and v 0x7f) 0x80 % 256 ≡ v % 128 + 128
    byte = omega (arith, mark_more v)

unset-last : (v : ℕ) → v < 128 → unset_top_bit ((v % 128 + 128) ∷ []) ≡ v ∷ []
unfolding unset_top_bit
unset-last v h = ap (λ (t : ℕ). t ∷ []) (omega (arith, low_seven (v % 128 + 128)))

unset-inner : (b c : ℕ) (bs : List ℕ) → unset_top_bit (b ∷ c ∷ bs) ≡ b ∷ unset_top_bit (c ∷ bs)
unfolding unset_top_bit
unset-inner b c bs = refl

loop-base128 :
    (rounds v : ℕ) (w : Acc ◌<◌ v)
    → 0 < v
    → v < 128 ^ suc rounds
    → unset_top_bit (varint_loop v w) ≡ base128 rounds v
unfolding base128
loop-base128 zero v w pos h =
    let (w', step) = loop_step v w pos in
    rw (step, loop_end (v / 128) w' (omega arith), unset-last v (omega arith))
loop-base128 (suc rounds) v w pos h =
    let (w', step) = loop_step v w pos in
    elim (Bool-cases (ltb v 128)) [
      | inl small ↦
          rw (small, step, loop_end (v / 128) w' (ground arith), unset-last v (ground arith))
      | inr large ↦
          let (w'', next) = loop_step (v / 128) w' (ground arith) in
          rw (large, step, next, unset-inner)
            (ap (λ t. (v % 128 + 128) ∷ t)
              (rw (← next) (loop-base128 rounds (v / 128) w' (ground arith) (omega arith))))
    ]

pub length-base128 : (rounds v : ℕ) → length (base128 rounds v) ≤ suc rounds
unfolding base128
length-base128 zero v = omega arith
length-base128 (suc rounds) v = ground (arith, length-base128 rounds (v / 128))

pub length-base128_pos : (rounds v : ℕ) → 0 < length (base128 rounds v)
unfolding base128
length-base128_pos zero v = omega arith
length-base128_pos (suc rounds) v = ground arith

pub base128-IsByte : (rounds v : ℕ) → v < 128 ^ suc rounds → All IsByte (base128 rounds v)
unfolding base128
base128-IsByte zero v h = omega arith
base128-IsByte (suc rounds) v h = ground (arith, base128-IsByte rounds (v / 128) (omega arith))

-- The bytes of a varint: at most ten for a 64-bit number.
abbrev pub varint_bytes : ℕ → List ℕ
varint_bytes v = base128 9 v

pub varint_small : (v : ℕ) → v < 128 → varint_bytes v ≡ v ∷ []
unfolding base128
varint_small v h = ground arith

pub varint_buffer-base128 : (v : ℕ) → 0 < v → IsU64 v → varint_buffer v ≡ varint_bytes v
unfolding varint_buffer
varint_buffer-base128 v pos h = loop-base128 9 v (lt_wf.apply v) pos (omega arith)

-- Both branches of the function write these bytes.
pub pb_encode_varint_lem :
    (v : ℕ) → IsU64 v → pb_encode_varint v ≡ pb_write (varint_bytes v) (length (varint_bytes v))
unfolding pb_encode_varint
pb_encode_varint_lem v h = elim (Bool-cases (leb v 0x7f)) [
  | inl small ↦
      rw (small, varint_small v (ground arith), mod-eq_of_lt {n = v} {m = 256} (ground arith))
  | inr large ↦ rw (large, varint_buffer-base128 v (ground arith) h)
]

-- `pb_encode_varint` writes the base-128 digits of any 64-bit number, at most ten bytes, or refuses
-- for want of room with "stream full".
pub pb_encode_varint-Emits :
    (v : ℕ) → IsU64 v → Emits (pb_encode_varint v) (varint_bytes v) × (length (varint_bytes v) ≤ 10)
pb_encode_varint-Emits v h = (emits, length-base128 9 v)
  where
    emits : Emits (pb_encode_varint v) (varint_bytes v)
    emits = rw (pb_encode_varint_lem v h) (pb_write-Emits (varint_bytes v))
