-- ===== src/Base/BitAt.antt =====
-- The binary digits of a number, by which words that are used as sets of flags are read.
use Prim.Native.Nat.{ℕ, zero, suc, ◌-◌, ◌/◌, ◌%◌, ◌^◌, ◌≤◌, ◌<◌, max, bit_or}
use mathlib.Core.Path.{◌≡◌, refl, ap, ◌∙◌}
use mathlib.Core.Logic.{◌≢◌}
use native.Mathlib.Omega.{arith}
use kaseiapp.Base.Bits.{bit_or_lowest, two_pow_suc, two_pow_pos}

-- The binary digit `k` of a number, the lowest digit being 0.
abbrev pub bit_at : ℕ → ℕ → ℕ
bit_at zero w = w % 2
bit_at (suc k) w = bit_at k (w / 2)

pub bit_at-bit_or : (k a b : ℕ) → bit_at k (bit_or a b) ≡ max (bit_at k a) (bit_at k b)
bit_at-bit_or zero a b = omega (arith, bit_or_lowest a b)
bit_at-bit_or (suc k) a b =
    ap (bit_at k) (omega (arith, bit_or_lowest a b)) ∙ bit_at-bit_or k (a / 2) (b / 2)

pub bit_at-le_one : (k w : ℕ) → bit_at k w ≤ 1
bit_at-le_one zero w = omega arith
bit_at-le_one (suc k) w = bit_at-le_one k (w / 2)

pub bit_at-zero : (k : ℕ) → bit_at k 0 ≡ 0
bit_at-zero zero = refl
bit_at-zero (suc k) = bit_at-zero k

pub bit_at-two_pow : (k : ℕ) → bit_at k (2 ^ k) ≡ 1
bit_at-two_pow zero = refl
bit_at-two_pow (suc k) = ap (bit_at k) (omega (arith, two_pow_suc k)) ∙ bit_at-two_pow k

pub bit_at-other_two_pow : (j k : ℕ) → j ≢ k → bit_at k (2 ^ j) ≡ 0
bit_at-other_two_pow zero zero h = absurd (h refl)
bit_at-other_two_pow zero (suc k) h = bit_at-zero k
bit_at-other_two_pow (suc j) zero h = omega (arith, two_pow_suc j)
bit_at-other_two_pow (suc j) (suc k) h =
    ap (bit_at k) (omega (arith, two_pow_suc j)) ∙ bit_at-other_two_pow j k (λ e. h (ap suc e))

pub bit_at-above : (n k w : ℕ) → w < 2 ^ n → n ≤ k → bit_at k w ≡ 0
bit_at-above zero k w h le = let e : w ≡ 0 = omega arith in ap (bit_at k) e ∙ bit_at-zero k
bit_at-above (suc n) zero w h le = absurd (omega arith)
bit_at-above (suc n) (suc k) w h le =
    bit_at-above n k (w / 2) (omega (arith, two_pow_suc n)) (omega arith)

-- The digits of a number of `r` ones.
pub bit_at-ones : (r k : ℕ) → k < r → bit_at k (2 ^ r - 1) ≡ 1
bit_at-ones zero k h = absurd (omega arith)
bit_at-ones (suc r) zero h = omega (arith, two_pow_suc r, two_pow_pos r)
bit_at-ones (suc r) (suc k) h =
    ap (bit_at k) (omega (arith, two_pow_suc r, two_pow_pos r)) ∙ bit_at-ones r k (omega arith)

-- A number of `w` digits is that of `r` ones, if those are its digits.
zero_of_bits : (n w : ℕ) → w < 2 ^ n → ((k : ℕ) → bit_at k w ≡ 0) → w ≡ 0
zero_of_bits zero w h e = omega arith
zero_of_bits (suc n) w h e = omega (
  arith,
  e 0,
  two_pow_suc n,
  zero_of_bits n (w / 2) (omega (arith, two_pow_suc n)) (λ k. e (suc k)),
)

pub ones_of_bits :
    (n r w : ℕ)
    → w < 2 ^ n
    → ((k : ℕ) → k < r → bit_at k w ≡ 1)
    → ((k : ℕ) → r ≤ k → bit_at k w ≡ 0)
    → w ≡ 2 ^ r - 1
ones_of_bits n zero w h ones zeros = zero_of_bits n w h (λ k. zeros k (omega arith))
ones_of_bits zero (suc r) w h ones zeros = absurd (omega (arith, ones 0 (omega arith)))
ones_of_bits (suc n) (suc r) w h ones zeros = omega (
  arith,
  ones 0 (omega arith),
  two_pow_suc r,
  two_pow_pos r,
  ones_of_bits n r (w / 2) (omega (arith, two_pow_suc n)) (λ k lt. ones (suc k) (omega arith))
      (λ k le. zeros (suc k) (omega arith)),
)

pub bit_or-bound : (n a b : ℕ) → a < 2 ^ n → b < 2 ^ n → bit_or a b < 2 ^ n
bit_or-bound zero a b h h' =
    let e : a ≡ 0 = omega arith in let e' : b ≡ 0 = omega arith in rw (e, e') (omega arith)
bit_or-bound (suc n) a b h h' = omega (
  arith,
  bit_or_lowest a b,
  two_pow_suc n,
  bit_or-bound n (a / 2) (b / 2) (omega (arith, two_pow_suc n)) (omega (arith, two_pow_suc n)),
)
