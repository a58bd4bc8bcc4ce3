-- ===== src/Base64/Text.antt =====
-- Base64 text as RFC 4648 describes it, for f_b64_ntop of fbase64.c in
-- Kasei/Pods/FirebaseDatabase/FirebaseDatabase/Sources/third_party/SocketRocket.
use kaseiapp.Base.{
  ℕ, ◌+◌, ◌*◌, ◌/◌, ◌%◌, ◌<◌, ◌≡◌, refl, ap, ap₂, ◌∙◌, arith, List, [], ◌∷◌, All, IsByte,
}
use kaseiapp.Base64.{digit, output_0, output_1, output_2, output_3}
use kaseiapp.Base64.Digits.{char_of, digit-char_of, output_1_lem, output_2_lem, output_3_lem}
use kaseiapp.Base64.Decode.{base64}

-- The characters of a number of 24 bits, six bits each from the top.
abbrev pub char_0 : ℕ → ℕ
char_0 v = char_of (v / 262144 % 64)

abbrev pub char_1 : ℕ → ℕ
char_1 v = char_of (v / 4096 % 64)

abbrev pub char_2 : ℕ → ℕ
char_2 v = char_of (v / 64 % 64)

abbrev pub char_3 : ℕ → ℕ
char_3 v = char_of (v % 64)

-- Three bytes as a number, the first one on top.
abbrev pub bits_of : ℕ → ℕ → ℕ → ℕ
bits_of a b c = a * 65536 + b * 256 + c

-- Where bytes are missing at the end, they are zero, and '=' stands for the characters that have none of
-- their bits.
unfoldable pub base64_text : List ℕ → List ℕ
base64_text [] = []
base64_text (a ∷ []) = char_0 (bits_of a 0 0) ∷ char_1 (bits_of a 0 0) ∷ 61 ∷ 61 ∷ []
base64_text (a ∷ b ∷ []) =
    char_0 (bits_of a b 0) ∷ char_1 (bits_of a b 0) ∷ char_2 (bits_of a b 0) ∷ 61 ∷ []
base64_text (a ∷ b ∷ c ∷ rest) =
    char_0 (bits_of a b c)
    ∷ char_1 (bits_of a b c)
    ∷ char_2 (bits_of a b c)
    ∷ char_3 (bits_of a b c)
    ∷ base64_text rest

char_lem : (i j : ℕ) → i < 64 → i ≡ j → digit i ≡ char_of j
char_lem i j h e = digit-char_of i h ∙ ap char_of e

module _ (a b c : ℕ) (ha : IsByte a) (hb : IsByte b) (hc : IsByte c) where
  first : digit (output_0 a) ≡ char_0 (a * 65536 + b * 256 + c)
  first =
      char_lem (output_0 a) ((a * 65536 + b * 256 + c) / 262144 % 64) (omega arith) (omega arith)

  second : digit (output_1 a b) ≡ char_1 (a * 65536 + b * 256 + c)
  second =
      char_lem (output_1 a b) ((a * 65536 + b * 256 + c) / 4096 % 64)
        (omega (arith, output_1_lem a b)) (omega (arith, output_1_lem a b))

  third : digit (output_2 b c) ≡ char_2 (a * 65536 + b * 256 + c)
  third =
      char_lem (output_2 b c) ((a * 65536 + b * 256 + c) / 64 % 64)
        (omega (arith, output_2_lem b c)) (omega (arith, output_2_lem b c))

  fourth : digit (output_3 c) ≡ char_3 (a * 65536 + b * 256 + c)
  fourth =
      char_lem (output_3 c) ((a * 65536 + b * 256 + c) % 64) (omega (arith, output_3_lem c))
        (omega (arith, output_3_lem c))

-- What the encoder computes by shifts and masks is this text.
pub base64_text_lem : (src : List ℕ) → All IsByte src → base64 src ≡ base64_text src
unfolding base64 base64_text
base64_text_lem [] h = refl
base64_text_lem (a ∷ []) (ha, h) =
    ap₂ (λ (x y : ℕ). x ∷ y ∷ 61 ∷ 61 ∷ []) (first a 0 0 ha (omega arith) (omega arith))
      (second a 0 0 ha (omega arith) (omega arith))
base64_text_lem (a ∷ b ∷ []) (ha, (hb, h)) =
    ap₂ (λ (x y : ℕ). x ∷ y ∷ digit (output_2 b 0) ∷ 61 ∷ []) (first a b 0 ha hb (omega arith))
      (second a b 0 ha hb (omega arith))
    ∙ ap (λ (x : ℕ). char_0 (bits_of a b 0) ∷ char_1 (bits_of a b 0) ∷ x ∷ 61 ∷ [])
        (third a b 0 ha hb (omega arith))
base64_text_lem (a ∷ b ∷ c ∷ rest) (ha, (hb, (hc, h))) =
    ap₂ (λ (x y : ℕ). x ∷ y ∷ digit (output_2 b c) ∷ digit (output_3 c) ∷ base64 rest)
      (first a b c ha hb hc) (second a b c ha hb hc)
    ∙ ap₂ (λ (x y : ℕ). char_0 v ∷ char_1 v ∷ x ∷ y ∷ base64 rest) (third a b c ha hb hc)
        (fourth a b c ha hb hc)
    ∙ ap (λ (cs : List ℕ). char_0 v ∷ char_1 v ∷ char_2 v ∷ char_3 v ∷ cs) (base64_text_lem rest h)
  where
    v : ℕ
    v = bits_of a b c
