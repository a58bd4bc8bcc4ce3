-- ===== src/Nanopb/Flat/Numbers.antt =====
-- Integers of one, two, four and eight bytes in memory: the conversions of the pb_enc_ functions of
-- Kasei/Pods/nanopb/pb_encode.c and of the pb_dec_ functions of Kasei/Pods/nanopb/pb_decode.c.
use kaseiapp.Base.{
  ℕ, zero, suc, ◌+◌, ◌-◌, ◌*◌, ◌/◌, ◌%◌, ◌^◌, ◌<◌, ◌≡◌, refl, sym, ap, ap₂, ◌∙◌, arith, Bool, true,
  false, ◌∷◌, leb, ◌==◌, if◌then◌else◌,
}
use native.Mathlib.Nat.{pow-suc, mul_comm, mul_assoc}
use kaseiapp.Base.Memory.{Memory, load, bytes_at}
use kaseiapp.Nanopb.Write.{fixed_bytes}
use kaseiapp.Nanopb.Write.Scalars.{low_byte}
use kaseiapp.Nanopb.Field.{sign_extend, is_int_size}
use kaseiapp.Nanopb.Item.{clamp_signed, clamp_unsigned}
use kaseiapp.Nanopb.Wire.Values.{for_int_size}

-- The bytes of a number of `n` bytes that was read from memory.
pub fixed_bytes-load :
    (mem : Memory)
    → ((a : ℕ) → mem a < 256)
    → (n p : ℕ) → fixed_bytes n (load mem p n) ≡ bytes_at mem p n
unfolding fixed_bytes load bytes_at
fixed_bytes-load mem small zero p = refl
fixed_bytes-load mem small (suc n) p =
    ap₂ ◌∷◌ (low_byte (mem p + 256 * load mem (p + 1) n) ∙ omega (arith, small p))
      (ap (fixed_bytes n) (omega (arith, small p)) ∙ fixed_bytes-load mem small n (p + 1))

-- The bytes below the sign bits, one by one.
fixed_bytes-suc :
    (n v w : ℕ)
    → v % 256 ≡ w % 256
    → fixed_bytes n (v / 256) ≡ fixed_bytes n (w / 256)
    → fixed_bytes (suc n) v ≡ fixed_bytes (suc n) w
unfolding fixed_bytes
fixed_bytes-suc n v w e rest = ap₂ ◌∷◌ (low_byte v ∙ e ∙ sym (low_byte w)) rest

-- What is above the bytes that are stored does not count.
fixed_bytes-above : (n v k : ℕ) → fixed_bytes n (v + 256 ^ n * k) ≡ fixed_bytes n v
unfolding fixed_bytes
fixed_bytes-above zero v k = refl
fixed_bytes-above (suc n) v k =
    let shifted : 256 ^ suc n * k ≡ 256 * (256 ^ n * k) =
      ap (λ (t : ℕ). t * k) (pow-suc 256 n ∙ mul_comm (256 ^ n) 256) ∙ mul_assoc 256 (256 ^ n) k in
    fixed_bytes-suc n (v + 256 ^ suc n * k) v (omega (arith, shifted))
      (ap (fixed_bytes n) (omega (arith, shifted)) ∙ fixed_bytes-above n (v / 256) k)

fixed_bytes_if :
    (b : Bool) (n v w k : ℕ)
    → w ≡ v + 256 ^ n * k
    → fixed_bytes n (if b then w else v) ≡ fixed_bytes n v
fixed_bytes_if true n v w k e = ap (fixed_bytes n) e ∙ fixed_bytes-above n v k
fixed_bytes_if false n v w k e = refl

pub fixed_bytes-sign_extend :
    (n v : ℕ) → is_int_size n ≡ true → fixed_bytes n (sign_extend n v) ≡ fixed_bytes n v
unfolding sign_extend
fixed_bytes-sign_extend n v e =
    for_int_size (λ k. fixed_bytes k (sign_extend k v) ≡ fixed_bytes k v) n e
      (fixed_bytes_if (leb (2 ^ 7) v) 1 v _ (2 ^ 56 - 1) (omega arith))
      (fixed_bytes_if (leb (2 ^ 15) v) 2 v _ (2 ^ 48 - 1) (omega arith))
      (fixed_bytes_if (leb (2 ^ 31) v) 4 v _ (2 ^ 32 - 1) (omega arith))
      (fixed_bytes_if (leb (2 ^ 63) v) 8 v _ 0 (omega arith))

pub clamp-sign_extend :
    (n v : ℕ)
    → is_int_size n ≡ true
    → v < 256 ^ n
    → clamp_signed n (sign_extend n v) ≡ sign_extend n v
unfolding sign_extend
clamp-sign_extend n v e =
    for_int_size (λ k. v < 256 ^ k → clamp_signed k (sign_extend k v) ≡ sign_extend k v) n e
      (λ h. ground arith) (λ h. ground arith) (λ h. ground arith) (λ h. ground arith)

-- A field of up to 32 bits goes through an `int32_t`.
pub narrowed :
    (n v : ℕ)
    → is_int_size n ≡ true
    → v < 256 ^ n
    → (if n == 8 then sign_extend n v else clamp_signed 4 (sign_extend n v)) ≡ sign_extend n v
unfolding sign_extend
narrowed n v e =
    for_int_size
      (λ k.
        v < 256 ^ k
        → (if k == 8 then sign_extend k v else clamp_signed 4 (sign_extend k v)) ≡ sign_extend k v)
      n e (λ h. ground arith) (λ h. ground arith) (λ h. ground arith) (λ h. refl)

pub clamp-unsigned : (n v : ℕ) → is_int_size n ≡ true → v < 256 ^ n → clamp_unsigned n v ≡ v
clamp-unsigned n v e =
    for_int_size (λ k. v < 256 ^ k → clamp_unsigned k v ≡ v) n e (λ h. omega arith)
      (λ h. omega arith) (λ h. omega arith) (λ h. omega arith)
