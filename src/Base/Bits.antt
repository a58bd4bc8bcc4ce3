-- ===== src/Base/Bits.antt =====
-- Masks and shifts as arithmetic: laws of the native `bit_and` and `bit_or` at variables.
use Prim.Native.Nat.{
  ℕ, zero, suc, ◌+◌, ◌-◌, ◌*◌, ◌/◌, ◌%◌, ◌^◌, ◌≤◌, ◌<◌, min, max, bit_and, bit_or,
}
use Prim.Native.Nat.{digits, bit_and-bitwise, bit_or-bitwise}
use mathlib.Core.Path.{◌≡◌, refl, ap, ◌∙◌}
use mathlib.Core.Bool.{Bool, true, ◌&&◌}
use kaseiapp.Base.Tests.{◌==◌}
use native.Mathlib.Nat.{pow-suc, add-mul-mod_self_left, mod-eq_of_lt, mod-lt, div-add-mod}
use native.Mathlib.Omega.{arith}

-- The digit recursion does not depend on its fuel, once that covers the first number.
abbrev and_digits : ℕ → ℕ → ℕ → ℕ
and_digits n a b = digits (λ b. zero) min n a b

and_digits_enough : (n m a b : ℕ) → a ≤ n → a ≤ m → and_digits n a b ≡ and_digits m a b
and_digits_enough zero zero zero b p q = refl
and_digits_enough zero (suc m) zero b p q = refl
and_digits_enough (suc n) zero zero b p q = refl
and_digits_enough (suc n) (suc m) zero b p q = refl
and_digits_enough zero m (suc a) b p q = absurd (omega arith)
and_digits_enough (suc n) zero (suc a) b p q = absurd (omega arith)
and_digits_enough (suc n) (suc m) (suc a) b p q =
    omega (arith, and_digits_enough n m (suc a / 2) (b / 2) (omega arith) (omega arith))

bit_and_lowest : (a b : ℕ) → bit_and a b ≡ bit_and (a / 2) (b / 2) * 2 + min (a % 2) (b % 2)
bit_and_lowest zero b = omega (arith, bit_and-bitwise 0 b, bit_and-bitwise 0 (b / 2))
bit_and_lowest (suc a) b = omega (
  arith,
  bit_and-bitwise (suc a) b,
  bit_and-bitwise (suc a / 2) (b / 2),
  and_digits_enough a (suc a / 2) (suc a / 2) (b / 2) (omega arith) (omega arith),
)

abbrev or_digits : ℕ → ℕ → ℕ → ℕ
or_digits n a b = digits (λ b. b) max n a b

or_digits_enough : (n m a b : ℕ) → a ≤ n → a ≤ m → or_digits n a b ≡ or_digits m a b
or_digits_enough zero zero zero b p q = refl
or_digits_enough zero (suc m) zero b p q = refl
or_digits_enough (suc n) zero zero b p q = refl
or_digits_enough (suc n) (suc m) zero b p q = refl
or_digits_enough zero m (suc a) b p q = absurd (omega arith)
or_digits_enough (suc n) zero (suc a) b p q = absurd (omega arith)
or_digits_enough (suc n) (suc m) (suc a) b p q =
    omega (arith, or_digits_enough n m (suc a / 2) (b / 2) (omega arith) (omega arith))

pub zero-bit_or : (b : ℕ) → bit_or 0 b ≡ b
zero-bit_or b = bit_or-bitwise 0 b

pub bit_or_lowest : (a b : ℕ) → bit_or a b ≡ bit_or (a / 2) (b / 2) * 2 + max (a % 2) (b % 2)
bit_or_lowest zero b = omega (arith, zero-bit_or b, zero-bit_or (b / 2))
bit_or_lowest (suc a) b = omega (
  arith,
  bit_or-bitwise (suc a) b,
  bit_or-bitwise (suc a / 2) (b / 2),
  or_digits_enough a (suc a / 2) (suc a / 2) (b / 2) (omega arith) (omega arith),
)

bit_and-zero_below : (n a : ℕ) → a ≤ n → bit_and a 0 ≡ 0
bit_and-zero_below n zero h = refl
bit_and-zero_below zero (suc a) h = absurd (omega arith)
bit_and-zero_below (suc n) (suc a) h =
    omega (arith, bit_and_lowest (suc a) 0, bit_and-zero_below n (suc a / 2) (omega arith))

bit_and-zero : (a : ℕ) → bit_and a 0 ≡ 0
bit_and-zero a = bit_and-zero_below a a (omega arith)

bit_or-zero_below : (n a : ℕ) → a ≤ n → bit_or a 0 ≡ a
bit_or-zero_below n zero h = refl
bit_or-zero_below zero (suc a) h = absurd (omega arith)
bit_or-zero_below (suc n) (suc a) h =
    omega (arith, bit_or_lowest (suc a) 0, bit_or-zero_below n (suc a / 2) (omega arith))

pub bit_or-zero : (a : ℕ) → bit_or a 0 ≡ a
bit_or-zero a = bit_or-zero_below a a (omega arith)

-- Two shifts that meet at bit `k`: the lower number does not reach the upper one.
pub two_pow_suc : (k : ℕ) → 2 ^ suc k ≡ 2 * 2 ^ k
two_pow_suc k = omega (arith, pow-suc 2 k)

pub two_pow_pos : (k : ℕ) → 0 < 2 ^ k
two_pow_pos zero = omega arith
two_pow_pos (suc k) = omega (arith, two_pow_suc k, two_pow_pos k)

pub two_pow_lt : (j k : ℕ) → j < k → 2 ^ j < 2 ^ k
two_pow_lt j zero h = absurd (omega arith)
two_pow_lt zero (suc k) h = omega (arith, two_pow_suc k, two_pow_pos k)
two_pow_lt (suc j) (suc k) h =
    omega (arith, two_pow_suc j, two_pow_suc k, two_pow_lt j k (omega arith))

pub or_low : (k a b : ℕ) → a < 2 ^ k → bit_or a (b * 2 ^ k) ≡ a + b * 2 ^ k
or_low zero a b h = let e : a ≡ 0 = omega arith in rw (e, zero-bit_or) (omega arith)
or_low (suc k) a b h = omega (
  arith,
  bit_or_lowest a (b * 2 ^ suc k),
  ap (λ (t : ℕ). b * t) (two_pow_suc k),
  two_pow_suc k,
  halves,
  or_low k (a / 2) b (omega (arith, two_pow_suc k)),
)
  where
    halves : bit_or (a / 2) (b * 2 ^ suc k / 2) ≡ bit_or (a / 2) (b * 2 ^ k)
    halves = ap (λ (t : ℕ). bit_or (a / 2) t) (omega (arith, ap (λ (t : ℕ). b * t) (two_pow_suc k)))

pub or_high : (k a b : ℕ) → a < 2 ^ k → bit_or (b * 2 ^ k) a ≡ b * 2 ^ k + a
or_high zero a b h = let e : a ≡ 0 = omega arith in rw (e, bit_or-zero) (omega arith)
or_high (suc k) a b h = omega (
  arith,
  bit_or_lowest (b * 2 ^ suc k) a,
  ap (λ (t : ℕ). b * t) (two_pow_suc k),
  two_pow_suc k,
  halves,
  or_high k (a / 2) b (omega (arith, two_pow_suc k)),
)
  where
    halves : bit_or (b * 2 ^ suc k / 2) (a / 2) ≡ bit_or (b * 2 ^ k) (a / 2)
    halves = ap (λ (t : ℕ). bit_or t (a / 2)) (omega (arith, ap (λ (t : ℕ). b * t) (two_pow_suc k)))

-- The remainder by twice `m` is that of the half, with the lowest digit put back.
mod_double : (a m : ℕ) → 0 < m → a % (2 * m) ≡ a / 2 % m * 2 + a % 2
mod_double a m h =
    ap (λ (t : ℕ). t % (2 * m)) whole
    ∙ add-mul-mod_self_left (a / 2 % m * 2 + a % 2) (2 * m) (a / 2 / m)
    ∙ mod-eq_of_lt (omega (arith, mod-lt (a / 2) h))
  where
    whole : a ≡ a / 2 % m * 2 + a % 2 + 2 * m * (a / 2 / m)
    whole = omega (arith, div-add-mod (a / 2) m)

pub and_mask : (k a : ℕ) → bit_and a (2 ^ k - 1) ≡ a % 2 ^ k
and_mask zero a = rw bit_and-zero (omega arith)
and_mask (suc k) a = omega (
  arith,
  bit_and_lowest a (2 ^ suc k - 1),
  two_pow_suc k,
  two_pow_pos k,
  ap (λ (t : ℕ). a % t) (two_pow_suc k),
  mod_double a (2 ^ k) (two_pow_pos k),
  ap (λ (t : ℕ). bit_and (a / 2) t) half,
  and_mask k (a / 2),
)
  where
    half : (2 ^ suc k - 1) / 2 ≡ 2 ^ k - 1
    half = omega (arith, two_pow_suc k)

-- Byte masks that are no prefix of ones, over the values of a byte.
unfoldable pub agree_below : (f g : ℕ → ℕ) → ℕ → Bool
agree_below f g zero = true
agree_below f g (suc n) = f n == g n && agree_below f g n

pub agree_below_sound :
    (f g : ℕ → ℕ) (n : ℕ) → agree_below f g n ≡ true → (i : ℕ) → i < n → f i ≡ g i
unfolding agree_below
agree_below_sound f g zero e i h = absurd (omega arith)
agree_below_sound f g (suc n) e i h = ground (arith, agree_below_sound f g n (ground arith) i)

pub and_top_bit : (b : ℕ) → b < 256 → bit_and b 0x80 ≡ b / 128 * 128
unfolding agree_below
and_top_bit = agree_below_sound _ _ 256 refl

pub and_0x70 : (b : ℕ) → b < 256 → bit_and b 0x70 ≡ b / 16 % 8 * 16
unfolding agree_below
and_0x70 = agree_below_sound _ _ 256 refl
