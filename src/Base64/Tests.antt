-- ===== src/Base64/Tests.antt =====
-- Runs of f_b64_ntop and f_b64_pton of fbase64.c, and the theorems on them at concrete inputs.
use kaseiapp.Base.{◌≡◌, refl, arith, true, [], ◌∷◌, ◌++◌, ◌≤◌, length}
use kaseiapp.Base64.{digit, minus_one, f_b64_ntop, f_b64_pton}
use kaseiapp.Base.Memory.{bytes_at}
use kaseiapp.Base64.Text.{base64_text}
use kaseiapp.Base64.Encode.{
  text_of, f_b64_ntop_lem, f_b64_ntop-full, length-f_b64_ntop-le, f_b64_pton-f_b64_ntop,
}

-- The text of 251, 255 and 191 is "+/+/".
plus_slash : base64_text (251 ∷ 255 ∷ 191 ∷ []) ≡ 43 ∷ 47 ∷ 43 ∷ 47 ∷ []
unfolding base64_text
plus_slash = refl

-- "foo" is "Zm9v", and "fo" is "Zm8=".
ntop_foo : f_b64_ntop (102 ∷ 111 ∷ 111 ∷ []) 5 ≡ (4, 90 ∷ 109 ∷ 57 ∷ 118 ∷ 0 ∷ [])
unfolding f_b64_ntop digit
ntop_foo = refl

ntop_fo : f_b64_ntop (102 ∷ 111 ∷ []) 5 ≡ (4, 90 ∷ 109 ∷ 56 ∷ 61 ∷ 0 ∷ [])
unfolding f_b64_ntop digit
ntop_fo = refl

f_b64_ntop_lem_example : f_b64_ntop (102 ∷ 111 ∷ []) 8 ≡ (4, base64_text (102 ∷ 111 ∷ []) ++ 0 ∷ [])
f_b64_ntop_lem_example = f_b64_ntop_lem 8 (omega arith) (102 ∷ 111 ∷ []) (omega arith) (omega arith)

f_b64_ntop-full_example : (f_b64_ntop (102 ∷ 111 ∷ []) 4).0 ≡ minus_one
f_b64_ntop-full_example = f_b64_ntop-full 4 (omega arith) (102 ∷ 111 ∷ []) (omega arith)

length-f_b64_ntop-le_example : length (f_b64_ntop (102 ∷ 111 ∷ 111 ∷ 111 ∷ []) 5).1 ≤ 5
length-f_b64_ntop-le_example = length-f_b64_ntop-le 5 (omega arith) (102 ∷ 111 ∷ 111 ∷ 111 ∷ [])

f_b64_pton-f_b64_ntop_example :
    let r = f_b64_pton (text_of (f_b64_ntop (102 ∷ 0 ∷ 255 ∷ 7 ∷ []) 9)) true (λ _. 0) 5 in
    (r.0 ≡ 4) × (bytes_at r.1 0 4 ≡ 102 ∷ 0 ∷ 255 ∷ 7 ∷ [])
f_b64_pton-f_b64_ntop_example =
    f_b64_pton-f_b64_ntop (102 ∷ 0 ∷ 255 ∷ 7 ∷ []) 9 (λ _. 0) 5 (omega arith) (omega arith)
      (omega arith) (omega arith) (omega arith)
