-- ===== src/Base64/Encode.antt =====
-- f_b64_ntop of fbase64.c against Base64 text, and f_b64_pton on what it writes.
use kaseiapp.Base.{ℕ, ◌+◌, ◌*◌, ◌/◌, ◌%◌, ◌^◌, ◌<◌, ◌≤◌, ◌≡◌, refl, sym, ap, ◌∙◌, arith}
use kaseiapp.Base.{
  true, false, List, [], ◌∷◌, ◌++◌, length, take, take-append, All, IsByte, leb, Bool-cases, inl,
  inr,
}
use kaseiapp.Base.Memory.{Memory, bytes_at}
use kaseiapp.Base64.{
  pad64, digit, output_0, output_1, output_2, output_3, minus_one, is_full, store, terminate,
  ntop_from, f_b64_ntop, f_b64_pton,
}
use kaseiapp.Base64.Text.{base64_text, base64_text_lem}
use kaseiapp.Base64.Decode.{base64, f_b64_pton-base64}
use mathlib.Core.Path.{subst}

-- Four characters for three bytes or a part of three.
pub length-base64 : (src : List ℕ) → length (base64 src) ≡ 4 * ((length src + 2) / 3)
unfolding base64
length-base64 [] = omega arith
length-base64 (a ∷ []) = omega arith
length-base64 (a ∷ b ∷ []) = omega arith
length-base64 (a ∷ b ∷ c ∷ rest) = omega (arith, length-base64 rest)

module _ (size : ℕ) (size_fits : size + 4 < 2 ^ 64) where
  terminate_lem : (n m : ℕ) → n < size → n ≡ m → terminate n size ≡ (m % 2 ^ 32, 0 ∷ [])
  terminate_lem n m h e =
      let room : leb size n ≡ false = ground arith in
      rw room (ap (λ (k : ℕ). (k % 2 ^ 32, 0 ∷ [])) e)

  not_full : (n : ℕ) → n + 4 < size → is_full n size ≡ false
  not_full n h = ground arith

  ntop_from-base64 :
      (src : List ℕ) (n : ℕ)
      → n + length (base64 src) < size
      → ntop_from size n src ≡ ((n + length (base64 src)) % 2 ^ 32, base64 src ++ 0 ∷ [])
  unfolding ntop_from base64
  ntop_from-base64 [] n h = terminate_lem n (n + 0) (omega arith) (omega arith)
  ntop_from-base64 (a ∷ []) n h = rw (not_full n (omega arith)) (
      ap (store (digit (output_0 a) ∷ digit (output_1 a 0) ∷ pad64 ∷ pad64 ∷ []))
        (terminate_lem (n + 4) (n + 4) h refl))
  ntop_from-base64 (a ∷ b ∷ []) n h = rw (not_full n (omega arith)) (
      ap (store (digit (output_0 a) ∷ digit (output_1 a b) ∷ digit (output_2 b 0) ∷ pad64 ∷ []))
        (terminate_lem (n + 4) (n + 4) h refl))
  ntop_from-base64 (a ∷ b ∷ c ∷ rest) n h = rw (not_full n (omega arith)) (
      ap
        (store (
          digit (output_0 a)
          ∷ digit (output_1 a b)
          ∷ digit (output_2 b c)
          ∷ digit (output_3 c)
          ∷ []))
        (ntop_from-base64 rest (n + 4) (omega arith)
          ∙ ap (λ (k : ℕ). (k % 2 ^ 32, base64 rest ++ 0 ∷ [])) (omega arith)))

  ntop_from-full :
      (src : List ℕ) (n : ℕ)
      → n ≤ size
      → size ≤ n + length (base64 src)
      → (ntop_from size n src).0 ≡ minus_one
  unfolding ntop_from base64
  ntop_from-full [] n below h = ground arith
  ntop_from-full (a ∷ []) n below h = ground arith
  ntop_from-full (a ∷ b ∷ []) n below h = ground arith
  ntop_from-full (a ∷ b ∷ c ∷ rest) n below h = elim (Bool-cases (is_full n size)) [
    | inl full ↦ rw full refl
    | inr more ↦ rw more (ntop_from-full rest (n + 4) (ground arith) (omega arith))
  ]

  ntop_from-le : (src : List ℕ) (n : ℕ) → n ≤ size → n + length (ntop_from size n src).1 ≤ size
  unfolding ntop_from
  ntop_from-le [] n below = ground arith
  ntop_from-le (a ∷ []) n below = ground arith
  ntop_from-le (a ∷ b ∷ []) n below = ground arith
  ntop_from-le (a ∷ b ∷ c ∷ rest) n below = elim (Bool-cases (is_full n size)) [
    | inl full ↦ rw full (omega arith)
    | inr more ↦ rw more (
        let ih : n + 4 + length (ntop_from size (n + 4) rest).1 ≤ size =
          ntop_from-le rest (n + 4) (ground arith) in
        omega arith)
  ]

  ntop-base64 :
      (src : List ℕ)
      → 4 * ((length src + 2) / 3) < size
      → f_b64_ntop src size ≡ (4 * ((length src + 2) / 3) % 2 ^ 32, base64 src ++ 0 ∷ [])
  unfolding f_b64_ntop
  ntop-base64 src room =
      ntop_from-base64 src 0 (omega (arith, length-base64 src))
      ∙ ap (λ (k : ℕ). (k % 2 ^ 32, base64 src ++ 0 ∷ [])) (omega (arith, length-base64 src))

  -- f_b64_ntop of bytes, with room for their Base64 text and a zero byte, in a target of fewer than
  -- 2 ^ 64 - 4 bytes, stores both and returns the length of the text, four characters for three bytes or a
  -- part of three, as a 32-bit number. The text is that of RFC 4648: each three bytes are a number of 24
  -- bits, written in four digits of six bits.
  pub f_b64_ntop_lem :
      (src : List ℕ)
      → All IsByte src
      → 4 * ((length src + 2) / 3) < size
      → f_b64_ntop src size ≡ (4 * ((length src + 2) / 3) % 2 ^ 32, base64_text src ++ 0 ∷ [])
  f_b64_ntop_lem src bytes room =
      ntop-base64 src room
      ∙ ap (λ (cs : List ℕ). (4 * ((length src + 2) / 3) % 2 ^ 32, cs ++ 0 ∷ []))
          (base64_text_lem src bytes)

  -- f_b64_ntop returns -1 if the target, of fewer than 2 ^ 64 - 4 bytes, has no room for the Base64 text
  -- and a zero byte.
  pub f_b64_ntop-full :
      (src : List ℕ) → size ≤ 4 * ((length src + 2) / 3) → (f_b64_ntop src size).0 ≡ minus_one
  unfolding f_b64_ntop
  f_b64_ntop-full src full = ntop_from-full src 0 (omega arith) (omega (arith, length-base64 src))

  -- f_b64_ntop stores no more bytes than a target of fewer than 2 ^ 64 - 4 bytes has, whether it fails or
  -- not.
  pub length-f_b64_ntop-le : (src : List ℕ) → length (f_b64_ntop src size).1 ≤ size
  unfolding f_b64_ntop
  length-f_b64_ntop-le src = omega (arith, ntop_from-le src 0 (omega arith))

-- The text before the zero byte that f_b64_ntop writes, when it has room.
abbrev pub text_of : ℕ × List ℕ → List ℕ
text_of (ret, out) = take ret out

text_of-base64 :
    (src : List ℕ)
    → length (base64 src) < 2 ^ 32
    → text_of (length (base64 src) % 2 ^ 32, base64 src ++ 0 ∷ []) ≡ base64 src
text_of-base64 src h =
    ap (λ (n : ℕ). take n (base64 src ++ 0 ∷ [])) (omega arith) ∙ take-append (base64 src) (0 ∷ [])

-- What f_b64_ntop writes for fewer than 2 ^ 31 bytes, into a target of fewer than 2 ^ 64 - 4 bytes with
-- room for the text and a zero byte, f_b64_pton reads back: into a target of more bytes than these it
-- stores them, and it returns their number.
pub f_b64_pton-f_b64_ntop :
    (src : List ℕ) (size : ℕ) (target : Memory) (target_size : ℕ)
    → All IsByte src
    → length src < 2 ^ 31
    → size + 4 < 2 ^ 64
    → 4 * ((length src + 2) / 3) < size
    → length src < target_size
    → let r = f_b64_pton (text_of (f_b64_ntop src size)) true target target_size in
      (r.0 ≡ length src) × (bytes_at r.1 0 (length src) ≡ src)
f_b64_pton-f_b64_ntop src size target target_size bytes short size_fits room more =
    subst
      (λ (text : List ℕ).
        let r = f_b64_pton text true target target_size in
        (r.0 ≡ length src) × (bytes_at r.1 0 (length src) ≡ src))
      (sym (
        ap text_of (ntop-base64 size size_fits src room)
        ∙ ap (λ (n : ℕ). text_of (n % 2 ^ 32, base64 src ++ 0 ∷ [])) (sym (length-base64 src))
        ∙ text_of-base64 src (omega (arith, length-base64 src))))
      (f_b64_pton-base64 src target target_size bytes more short)
