-- ===== src/Base64/Decode.antt =====
-- f_b64_pton of fbase64.c on the Base64 text of bytes.
use kaseiapp.Base.{ℕ, ◌+◌, ◌*◌, ◌%◌, ◌^◌, ◌<◌, ◌≤◌, ◌≡◌, refl, ap, ◌∙◌, arith, bit_and}
use kaseiapp.Base.{true, List, [], ◌∷◌, ◌++◌, length, All, IsByte}
use kaseiapp.Base.Memory.{
  Memory, update, store_bytes, bytes_at, bytes_at-store_bytes, bytes_at-append,
}
use kaseiapp.Base64.{
  pad64, digit, output_0, output_1, output_2, output_3, start, one, two, three, scan, finish,
  all_space, second_pad, f_b64_pton,
}
use kaseiapp.Base64.Digits.{
  first_byte_lem, second_byte_lem, third_byte_lem, one_byte_rest, two_bytes_rest, output_bounds,
}
use kaseiapp.Base64.Steps.{
  update_here, decoder, scan-digit, accept_start, accept_one, accept_two, accept_three,
}

-- The Base64 text of bytes, by RFC 4648: four characters for three bytes, and padding.
unfoldable pub base64 : List ℕ → List ℕ
base64 [] = []
base64 (a ∷ []) = digit (output_0 a) ∷ digit (output_1 a 0) ∷ pad64 ∷ pad64 ∷ []
base64 (a ∷ b ∷ []) = digit (output_0 a) ∷ digit (output_1 a b) ∷ digit (output_2 b 0) ∷ pad64 ∷ []
base64 (a ∷ b ∷ c ∷ rest) =
    digit (output_0 a)
    ∷ digit (output_1 a b)
    ∷ digit (output_2 b c)
    ∷ digit (output_3 c)
    ∷ base64 rest

-- The bits that the decoder holds behind its last whole byte.
abbrev pub bits_1 : ℕ → ℕ → ℕ
bits_1 a b = bit_and (output_1 a b) 0x0f * 16 % 256

abbrev pub bits_2 : ℕ → ℕ → ℕ
bits_2 b c = bit_and (output_2 b c) 0x03 * 64 % 256

-- What is stored behind the bytes.
abbrev pub spill : List ℕ → List ℕ
spill [] = []
spill (a ∷ []) = 0 ∷ []
spill (a ∷ b ∷ []) = 0 ∷ []
spill (a ∷ b ∷ c ∷ rest) = spill rest

module _ (size : ℕ) where
  scan_first :
      (mem : Memory) (t a b : ℕ) (src : List ℕ)
      → IsByte a
      → IsByte b
      → t + 1 < size
      → t + 1 < 2 ^ 32
      → scan true size (digit (output_0 a) ∷ digit (output_1 a b) ∷ src) (decoder mem t start)
        ≡ scan true size src (decoder (update (update mem t a) (t + 1) (bits_1 a b)) (t + 1) two)
  scan_first mem t a b src ha hb room small =
      let bounds = output_bounds a b 0 ha hb (omega arith) in
      scan-digit size (output_0 a) (digit (output_1 a b) ∷ src) (decoder mem t start) _ bounds.0
        (accept_start size mem t (output_0 a) (omega arith))
      ∙ scan-digit size (output_1 a b) src (decoder (update mem t (output_0 a * 4 % 256)) t one) _
          bounds.1 (accept_one size mem t (output_1 a b) (output_0 a * 4 % 256) room small)
      ∙ ap
          (λ (x : ℕ).
            scan true size src (decoder (update (update mem t x) (t + 1) (bits_1 a b)) (t + 1) two))
          (first_byte_lem a b ha hb)

  scan_second :
      (mem : Memory) (t a b c : ℕ) (src : List ℕ)
      → IsByte b
      → IsByte c
      → t + 1 < size
      → t + 1 < 2 ^ 32
      → scan true size (digit (output_2 b c) ∷ src) (decoder (update mem t (bits_1 a b)) t two)
        ≡ scan true size src (decoder (update (update mem t b) (t + 1) (bits_2 b c)) (t + 1) three)
  scan_second mem t a b c src hb hc room small =
      let bounds = output_bounds 0 b c (omega arith) hb hc in
      scan-digit size (output_2 b c) src (decoder (update mem t (bits_1 a b)) t two) _ bounds.2
        (accept_two size mem t (output_2 b c) (bits_1 a b) room small)
      ∙ ap
          (λ (x : ℕ).
            scan true size src
              (decoder (update (update mem t x) (t + 1) (bits_2 b c)) (t + 1) three))
          (second_byte_lem a b c hb hc)

  scan_third :
      (mem : Memory) (t b c : ℕ) (src : List ℕ)
      → IsByte c
      → t < size
      → t + 1 < 2 ^ 32
      → scan true size (digit (output_3 c) ∷ src) (decoder (update mem t (bits_2 b c)) t three)
        ≡ scan true size src (decoder (update mem t c) (t + 1) start)
  scan_third mem t b c src hc room small =
      let bounds = output_bounds 0 0 c (omega arith) (omega arith) hc in
      scan-digit size (output_3 c) src (decoder (update mem t (bits_2 b c)) t three) _ bounds.3
        (accept_three size mem t (output_3 c) (bits_2 b c) room small)
      ∙ ap (λ (x : ℕ). scan true size src (decoder (update mem t x) (t + 1) start))
          (third_byte_lem b c hc)

  -- Four digits store three bytes.
  scan_group :
      (mem : Memory) (t a b c : ℕ) (src : List ℕ)
      → IsByte a
      → IsByte b
      → IsByte c
      → t + 3 ≤ size
      → t + 3 < 2 ^ 32
      → scan true size
          (digit (output_0 a)
            ∷ digit (output_1 a b)
            ∷ digit (output_2 b c)
            ∷ digit (output_3 c)
            ∷ src)
          (decoder mem t start)
        ≡ scan true size src (decoder (store_bytes mem t (a ∷ b ∷ c ∷ [])) (t + 1 + 1 + 1) start)
  unfolding store_bytes
  scan_group mem t a b c src ha hb hc room small =
      scan_first mem t a b (digit (output_2 b c) ∷ digit (output_3 c) ∷ src) ha hb (omega arith)
        (omega arith)
      ∙ scan_second (update mem t a) (t + 1) a b c (digit (output_3 c) ∷ src) hb hc (omega arith)
          (omega arith)
      ∙ scan_third (update (update mem t a) (t + 1) b) (t + 1 + 1) b c src hc (omega arith)
          (omega arith)

  end_of_text :
      (mem : Memory) (t : ℕ) → finish true (scan true size [] (decoder mem t start)) ≡ (t + 0, mem)
  unfolding scan
  end_of_text mem t = ap (λ (n : ℕ). (n, mem)) (omega arith)

  one_pad :
      (mem : Memory) (p : ℕ)
      → finish true (scan true size (pad64 ∷ []) (decoder (update mem p 0) p three))
        ≡ (p, update mem p 0)
  unfolding scan all_space
  one_pad mem p = rw (update_here mem p 0) refl

  two_pads :
      (mem : Memory) (p : ℕ)
      → finish true (scan true size (pad64 ∷ pad64 ∷ []) (decoder (update mem p 0) p two))
        ≡ (p, update mem p 0)
  unfolding scan second_pad all_space
  two_pads mem p = rw (update_here mem p 0) refl

  scan-base64 :
      (src : List ℕ) (mem : Memory) (t : ℕ)
      → All IsByte src
      → t + length src < size
      → t + length src + 1 < 2 ^ 32
      → finish true (scan true size (base64 src) (decoder mem t start))
        ≡ (t + length src, store_bytes mem t (src ++ spill src))
  unfolding base64 store_bytes
  scan-base64 [] mem t bytes room small = end_of_text mem t
  scan-base64 (a ∷ []) mem t bytes room small =
      ap (finish true)
        (scan_first mem t a 0 (pad64 ∷ pad64 ∷ []) bytes.0 (omega arith) room (omega arith))
      ∙ ap
          (λ (x : ℕ). finish true (
            scan true size (pad64 ∷ pad64 ∷ [])
              (decoder (update (update mem t a) (t + 1) x) (t + 1) two)))
          (one_byte_rest a)
      ∙ two_pads (update mem t a) (t + 1)
  scan-base64 (a ∷ b ∷ []) mem t bytes room small =
      ap (finish true) (
        scan_first mem t a b (digit (output_2 b 0) ∷ pad64 ∷ []) bytes.0 bytes.1.0 (omega arith)
          (omega arith))
      ∙ ap (finish true) (
          scan_second (update mem t a) (t + 1) a b 0 (pad64 ∷ []) bytes.1.0 (omega arith)
            (omega arith) (omega arith))
      ∙ ap
          (λ (x : ℕ). finish true (
            scan true size (pad64 ∷ []) (
              decoder (update (update (update mem t a) (t + 1) b) (t + 1 + 1) x) (t + 1 + 1)
                three)))
          (two_bytes_rest b)
      ∙ one_pad (update (update mem t a) (t + 1) b) (t + 1 + 1)
      ∙ ap (λ (n : ℕ). (n, update (update (update mem t a) (t + 1) b) (t + 1 + 1) 0)) (omega arith)
  scan-base64 (a ∷ b ∷ c ∷ rest) mem t bytes room small =
      ap (finish true) (
        scan_group mem t a b c (base64 rest) bytes.0 bytes.1.0 bytes.1.1.0 (omega arith)
          (omega arith))
      ∙ scan-base64 rest (store_bytes mem t (a ∷ b ∷ c ∷ [])) (t + 1 + 1 + 1) bytes.1.1.1
          (omega arith) (omega arith)
      ∙ ap (λ (n : ℕ). (n, store_bytes mem t ((a ∷ b ∷ c ∷ rest) ++ spill rest))) (omega arith)

-- f_b64_pton of the Base64 text of fewer than 2 ^ 31 bytes, into a target of more than as many bytes,
-- returns their number and stores them from the start of the target.
pub f_b64_pton-base64 :
    (src : List ℕ) (target : Memory) (size : ℕ)
    → All IsByte src
    → length src < size
    → length src < 2 ^ 31
    → let r = f_b64_pton (base64 src) true target size in
      (r.0 ≡ length src) × (bytes_at r.1 0 (length src) ≡ src)
unfolding f_b64_pton
f_b64_pton-base64 src target size bytes room small =
    let done = scan-base64 size src target 0 bytes (omega arith) (omega arith) in
    let stored = bytes_at-store_bytes target 0 (src ++ spill src) in
    let front =
      bytes_at-append (store_bytes target 0 (src ++ spill src)) 0 (length (src ++ spill src)) src
        (spill src) stored in
    (ap (λ r. r.0) done ∙ omega arith, ap (λ r. bytes_at r.1 0 (length src)) done ∙ front.0)
