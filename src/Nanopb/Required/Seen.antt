-- ===== src/Nanopb/Required/Seen.antt =====
-- The words `fields_seen` of pb_decode_noinit of Kasei/Pods/nanopb/pb_decode.c, as a set of the numbers
-- below 64.
use kaseiapp.Base.{
  ℕ, zero, suc, ◌+◌, ◌-◌, ◌*◌, ◌/◌, ◌%◌, ◌^◌, ◌≤◌, ◌<◌, bit_or, ◌≡◌, ◌≢◌, refl, sym, ap, ◌∙◌, arith,
  Bool, true, false, ◌==◌, both_true, if-holds, ==_iff, IsU32, ap₂, if◌then◌else◌,
}
use native.Mathlib.Decide.{ℕ_discrete, dec_lt}
use kaseiapp.Base.Bits.{two_pow_lt, agree_below, agree_below_sound}
use kaseiapp.Base.BitAt.{
  bit_at-le_one, bit_at-above, bit_at, bit_at-bit_or, bit_at-zero, bit_at-two_pow,
  bit_at-other_two_pow, bit_at-ones, ones_of_bits, bit_or-bound,
}
use kaseiapp.Nanopb.Required.{Words, none_seen, word, set_seen, allbits, words_full, all_seen}

-- Whether a field is marked: its bit, of its word.
abbrev pub seen_bit : Words → ℕ → ℕ
seen_bit seen i = bit_at (i % 32) (word seen (i / 32))

pub none-seen_bit : (i : ℕ) → seen_bit none_seen i ≡ 0
none-seen_bit i =
    if-holds (λ (w : ℕ). bit_at (i % 32) w ≡ 0) (i / 32 == 0) _ _ (λ e. bit_at-zero (i % 32))
      (λ e. bit_at-zero (i % 32))

abbrev choose : Bool → Words → ℕ
choose b (low, high) = if b then low else high

abbrev change : Bool → ℕ → Words → Words
change b tmp (low, high) = if b then (bit_or low tmp, high) else (low, bit_or high tmp)

choose-change :
    (b : Bool) (tmp : ℕ) (seen : Words) → choose b (change b tmp seen) ≡ bit_or (choose b seen) tmp
choose-change true tmp seen = refl
choose-change false tmp seen = refl

choose-change_other :
    (b c : Bool) (tmp : ℕ) (seen : Words) → b ≢ c → choose c (change b tmp seen) ≡ choose c seen
choose-change_other true true tmp seen h = absurd (h refl)
choose-change_other true false tmp seen h = refl
choose-change_other false true tmp seen h = refl
choose-change_other false false tmp seen h = absurd (h refl)

-- The word of `j` after a bit is set, in the same word or in the other.
word-set_seen :
    (i j : ℕ) (seen : Words)
    → i / 32 ≡ j / 32
    → word (set_seen i seen) (j / 32) ≡ bit_or (word seen (j / 32)) (2 ^ (i % 32))
unfolding set_seen
word-set_seen i j seen e = rw (e) (choose-change (j / 32 == 0) (2 ^ (i % 32)) seen)

word-set_other :
    (i j : ℕ) (seen : Words)
    → (i / 32 == 0) ≢ (j / 32 == 0)
    → word (set_seen i seen) (j / 32) ≡ word seen (j / 32)
unfolding set_seen
word-set_other i j seen h = choose-change_other (i / 32 == 0) (j / 32 == 0) (2 ^ (i % 32)) seen h

pub set_seen-itself : (i : ℕ) (seen : Words) → seen_bit (set_seen i seen) i ≡ 1
set_seen-itself i seen = omega (
  arith,
  ap (bit_at (i % 32)) (word-set_seen i i seen refl),
  bit_at-bit_or (i % 32) (word seen (i / 32)) (2 ^ (i % 32)),
  bit_at-two_pow (i % 32),
  bit_at-le_one (i % 32) (word seen (i / 32)),
)

pub set_seen-other :
    (i j : ℕ) (seen : Words)
    → i < 64
    → j < 64
    → i ≢ j
    → seen_bit (set_seen i seen) j ≡ seen_bit seen j
set_seen-other i j seen h h' ne = elim (ℕ_discrete (i / 32) (j / 32)) [
  | yes e ↦ omega (
    arith,
    ap (bit_at (j % 32)) (word-set_seen i j seen e),
    bit_at-bit_or (j % 32) (word seen (j / 32)) (2 ^ (i % 32)),
    bit_at-other_two_pow (i % 32) (j % 32) (λ e'. ne (omega arith)),
  )
  | no n ↦ ap (bit_at (j % 32)) (word-set_other i j seen (λ e'. n (ground arith)))
]

words_full-word :
    (seen : Words) (n k : ℕ) → words_full seen n ≡ true → k < n → word seen k ≡ allbits
unfolding words_full
words_full-word seen zero k e h = absurd (omega arith)
words_full-word seen (suc n) k e h =
    let (before, here) = both_true (words_full seen n) (word seen n == allbits) e in
    elim (ℕ_discrete k n) [
      | yes same ↦ ap (word seen) same ∙ (==_iff (word seen n) allbits).0 here
      | no other ↦ words_full-word seen n k before (omega arith)
    ]

-- `allbits >> (32 - r)`
low_bits : (r : ℕ) → r < 33 → allbits / 2 ^ (32 - r) ≡ 2 ^ r - 1
unfolding agree_below
low_bits = agree_below_sound (λ r. allbits / 2 ^ (32 - r)) (λ r. 2 ^ r - 1) 33 refl

rest_word : (b : Bool) (w v : ℕ) → (if b then true else w == v) ≡ true → b ≡ false → w ≡ v
rest_word b w v e h = (==_iff w v).0 (ap (λ (c : Bool). if c then true else w == v) (sym h) ∙ e)

pub all_seen-seen_bit :
    (seen : Words) (count i : ℕ) → all_seen seen count ≡ true → i < count → seen_bit seen i ≡ 1
unfolding all_seen
all_seen-seen_bit seen count i e h =
    let (whole, partial) =
      both_true (words_full seen (count / 32))
        (if count % 32 == 0
          then true
          else word seen (count / 32) == allbits / 2 ^ (32 - count % 32))
        e in
    elim (dec_lt (i / 32) (count / 32)) [
      | yes lt ↦
          ap (bit_at (i % 32)) (words_full-word seen (count / 32) (i / 32) whole lt)
          ∙ bit_at-ones 32 (i % 32) (omega arith)
      | no ge ↦
          ap (bit_at (i % 32)) (
            ap (word seen) (omega arith)
            ∙ rest_word (count % 32 == 0) (word seen (count / 32)) _ partial (ground arith)
            ∙ low_bits (count % 32) (omega arith))
          ∙ bit_at-ones (count % 32) (i % 32) (omega arith)
    ]

-- Both words are of type `uint32_t`.
abbrev pub AreU32 : Words → Type 0
AreU32 (low, high) = IsU32 low × IsU32 high

word-IsU32 : (seen : Words) (k : ℕ) → AreU32 seen → word seen k < 2 ^ 32
word-IsU32 (low, high) k (h, h') = if-holds IsU32 (k == 0) low high (λ e. h) (λ e. h')

pub set_seen-AreU32 : (i : ℕ) (seen : Words) → AreU32 seen → AreU32 (set_seen i seen)
unfolding set_seen
set_seen-AreU32 i (low, high) (h, h') =
    if-holds AreU32 (i / 32 == 0) _ _ (λ e. (bit_or-bound 32 low _ h small, h'))
      (λ e. (h, bit_or-bound 32 high _ h' small))
  where
    small : 2 ^ (i % 32) < 2 ^ 32
    small = two_pow_lt (i % 32) 32 (omega arith)

seen_bit-of :
    (seen : Words) (n k : ℕ) → k < 32 → seen_bit seen (n * 32 + k) ≡ bit_at k (word seen n)
seen_bit-of seen n k h =
    let digit : (n * 32 + k) % 32 ≡ k = omega arith in
    let place : (n * 32 + k) / 32 ≡ n = omega arith in
    ap₂ (λ (j m : ℕ). bit_at j (word seen m)) digit place

-- A word by the marks of its fields.
word_of_marks :
    (seen : Words) (n r : ℕ)
    → AreU32 seen
    → r ≤ 32
    → ((k : ℕ) → k < r → seen_bit seen (n * 32 + k) ≡ 1)
    → ((k : ℕ) → r ≤ k → k < 32 → seen_bit seen (n * 32 + k) ≡ 0)
    → word seen n ≡ 2 ^ r - 1
word_of_marks seen n r u32 le ones zeros =
    ones_of_bits 32 r (word seen n) (word-IsU32 seen n u32)
      (λ k lt. sym (seen_bit-of seen n k (omega arith)) ∙ ones k lt)
      (λ k ge. elim (dec_lt k 32) [
        | yes lt ↦ sym (seen_bit-of seen n k lt) ∙ zeros k ge lt
        | no above ↦ bit_at-above 32 k (word seen n) (word-IsU32 seen n u32) (omega arith)
      ])

words_full_of_marks :
    (seen : Words) (n : ℕ)
    → AreU32 seen
    → ((i : ℕ) → i < n * 32 → seen_bit seen i ≡ 1)
    → words_full seen n ≡ true
unfolding words_full
words_full_of_marks seen zero u32 ones = refl
words_full_of_marks seen (suc n) u32 ones =
    rw (words_full_of_marks seen n u32 (λ i lt. ones i (omega arith))) (
      (==_iff (word seen n) allbits).1 (
        word_of_marks seen n 32 u32 (omega arith) (λ k lt. ones (n * 32 + k) (omega arith))
          (λ k ge lt. absurd (omega arith))))

pub all_seen_of_marks :
    (seen : Words) (count : ℕ)
    → AreU32 seen
    → count ≤ 64
    → ((i : ℕ) → i < count → seen_bit seen i ≡ 1)
    → ((i : ℕ) → count ≤ i → i < 64 → seen_bit seen i ≡ 0)
    → all_seen seen count ≡ true
unfolding all_seen
all_seen_of_marks seen count u32 le ones zeros =
    rw (words_full_of_marks seen (count / 32) u32 (λ i lt. ones i (omega arith))) (
      if-holds (λ (b : Bool). b ≡ true) (count % 32 == 0) _ _ (λ e. refl)
        λ e. (==_iff _ _).1 (
          word_of_marks seen (count / 32) (count % 32) u32 (omega arith)
            (λ k lt. ones (count / 32 * 32 + k) (omega arith))
            (λ k ge lt. zeros (count / 32 * 32 + k) (omega arith) (ground arith))
          ∙ sym (low_bits (count % 32) (omega arith))))
