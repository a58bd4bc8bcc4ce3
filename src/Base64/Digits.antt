-- ===== src/Base64/Digits.antt =====
-- The digits of Base64 text, and the bits of three bytes in four digits: fbase64.c in
-- Kasei/Pods/FirebaseDatabase/FirebaseDatabase/Sources/third_party/SocketRocket.
use kaseiapp.Base.{
  ℕ, zero, suc, ◌-◌, ltb, ◌+◌, ◌*◌, ◌/◌, ◌%◌, ◌<◌, ◌≡◌, refl, ap, ◌∙◌, arith, bit_and, bit_or,
}
use kaseiapp.Base.{
  Bool, true, false, not, ◌&&◌, Option, none, some, IsByte, ◌==◌, ==_iff, if◌then◌else◌,
}
use kaseiapp.Base.Bits.{and_mask, or_high}
use kaseiapp.Base64.{
  alphabet, pad64, digit, index_of, isspace, output_0, output_1, output_2, output_3,
}

-- A test of the digits that are left of the 64.
digits_pass : (ℕ → Bool) → ℕ → Bool
digits_pass test zero = true
digits_pass test (suc left) = if test left then digits_pass test left else false

digit_passes :
    (test : ℕ → Bool) (left i : ℕ) → i < left → digits_pass test left ≡ true → test i ≡ true
unfolding digits_pass
digit_passes test zero i below passed = elim below [ ]
digit_passes test (suc left) i below passed = ground (arith, digit_passes test left i)

abbrev is_index : Option ℕ → ℕ → Bool
is_index none i = false
is_index (some j) i = j == i

is_index_lem : (o : Option ℕ) (i : ℕ) → is_index o i ≡ true → o ≡ some i
is_index_lem none i h = cc
is_index_lem (some j) i h = ap some ((==_iff j i).0 h)

digit_table : digits_pass (λ i. is_index (index_of (digit i) alphabet) i) 64 ≡ true
unfolding digits_pass digit index_of
digit_table = refl

plain_table : digits_pass (λ i. not (isspace (digit i)) && not (digit i == pad64)) 64 ≡ true
unfolding digits_pass digit
plain_table = refl

-- The characters of RFC 4648: letters, digits, plus and slash.
abbrev pub char_of : ℕ → ℕ
char_of i =
    if ltb i 26
    then 65 + i
    else if ltb i 52
    then 97 + (i - 26)
    else if ltb i 62
    then 48 + (i - 52)
    else if i == 62
    then 43
    else 47

char_table : digits_pass (λ i. digit i == char_of i) 64 ≡ true
unfolding digits_pass digit
char_table = refl

pub digit-char_of : (i : ℕ) → i < 64 → digit i ≡ char_of i
digit-char_of i h = (==_iff (digit i) (char_of i)).0 (digit_passes _ 64 i h char_table)

pub index_of-digit : (i : ℕ) → i < 64 → index_of (digit i) alphabet ≡ some i
index_of-digit i h = is_index_lem _ i (digit_passes _ 64 i h digit_table)

both_false : (a b : Bool) → (not a && not b) ≡ true → (a ≡ false) × (b ≡ false)
both_false true b h = cc
both_false false true h = cc
both_false false false h = (refl, refl)

pub digit_plain : (i : ℕ) → i < 64 → (isspace (digit i) ≡ false) × ((digit i == pad64) ≡ false)
digit_plain i h = both_false _ _ (digit_passes _ 64 i h plain_table)

-- The four digits are below 64.
pub output_1_lem : (a b : ℕ) → output_1 a b ≡ a % 4 * 16 + b / 16
output_1_lem a b = ap (λ (t : ℕ). t * 16 + b / 16) (and_mask 2 a)

pub output_2_lem : (b c : ℕ) → output_2 b c ≡ b % 16 * 4 + c / 64
output_2_lem b c = ap (λ (t : ℕ). t * 4 + c / 64) (and_mask 4 b)

pub output_3_lem : (c : ℕ) → output_3 c ≡ c % 64
output_3_lem c = and_mask 6 c

-- The bits of a digit behind those of the one before it, as the decoder puts them together.
pub first_byte_lem :
    (a b : ℕ) → IsByte a → IsByte b → bit_or (output_0 a * 4 % 256) (output_1 a b / 16) ≡ a
first_byte_lem a b ha hb =
    ap (λ (t : ℕ). bit_or (output_0 a * 4 % 256) (t / 16)) (output_1_lem a b)
    ∙ ap (λ (t : ℕ). bit_or t ((a % 4 * 16 + b / 16) / 16)) (omega arith)
    ∙ or_high 2 ((a % 4 * 16 + b / 16) / 16) (a / 4) (omega arith)
    ∙ omega arith

pub second_byte_lem :
    (a b c : ℕ)
    → IsByte b
    → IsByte c
    → bit_or (bit_and (output_1 a b) 0x0f * 16 % 256) (output_2 b c / 4) ≡ b
second_byte_lem a b c hb hc =
    ap (λ (t : ℕ). bit_or (t * 16 % 256) (output_2 b c / 4)) (and_mask 4 (output_1 a b))
    ∙ ap (λ (t : ℕ). bit_or (t % 16 * 16 % 256) (output_2 b c / 4)) (output_1_lem a b)
    ∙ ap (λ (t : ℕ). bit_or ((a % 4 * 16 + b / 16) % 16 * 16 % 256) (t / 4)) (output_2_lem b c)
    ∙ ap (λ (t : ℕ). bit_or t ((b % 16 * 4 + c / 64) / 4)) (omega arith)
    ∙ or_high 4 ((b % 16 * 4 + c / 64) / 4) (b / 16) (omega arith)
    ∙ omega arith

pub third_byte_lem :
    (b c : ℕ) → IsByte c → bit_or (bit_and (output_2 b c) 0x03 * 64 % 256) (output_3 c) ≡ c
third_byte_lem b c hc =
    ap (λ (t : ℕ). bit_or (t * 64 % 256) (output_3 c)) (and_mask 2 (output_2 b c))
    ∙ ap (λ (t : ℕ). bit_or (t % 4 * 64 % 256) (output_3 c)) (output_2_lem b c)
    ∙ ap (λ (t : ℕ). bit_or ((b % 16 * 4 + c / 64) % 4 * 64 % 256) t) (output_3_lem c)
    ∙ ap (λ (t : ℕ). bit_or t (c % 64)) (omega arith)
    ∙ or_high 6 (c % 64) (c / 64) (omega arith)
    ∙ omega arith

-- The bits of a last digit behind the last byte are zero.
pub one_byte_rest : (a : ℕ) → bit_and (output_1 a 0) 0x0f * 16 % 256 ≡ 0
one_byte_rest a =
    ap (λ (t : ℕ). t * 16 % 256) (and_mask 4 (output_1 a 0))
    ∙ ap (λ (t : ℕ). t % 16 * 16 % 256) (output_1_lem a 0)
    ∙ omega arith

pub two_bytes_rest : (b : ℕ) → bit_and (output_2 b 0) 0x03 * 64 % 256 ≡ 0
two_bytes_rest b =
    ap (λ (t : ℕ). t * 64 % 256) (and_mask 2 (output_2 b 0))
    ∙ ap (λ (t : ℕ). t % 4 * 64 % 256) (output_2_lem b 0)
    ∙ omega arith

pub output_bounds :
    (a b c : ℕ)
    → IsByte a
    → IsByte b
    → IsByte c
    → (output_0 a < 64) × (output_1 a b < 64) × (output_2 b c < 64) × (output_3 c < 64)
output_bounds a b c ha hb hc = omega (arith, output_1_lem a b, output_2_lem b c, output_3_lem c)
