-- ===== src/Base64/Steps.antt =====
-- The loop of f_b64_pton of fbase64.c, one digit at a time, into a target with room.
use kaseiapp.Base.{ℕ, ◌+◌, ◌*◌, ◌/◌, ◌%◌, ◌^◌, ◌<◌, ◌≡◌, refl, ap, ◌∙◌, arith, bit_and, bit_or}
use kaseiapp.Base.{true, false, some, List, ◌∷◌, leb, ◌==◌, Bool-cases, inl, inr}
use kaseiapp.Base.Memory.{Memory, update}
use kaseiapp.Base64.{digit, Decoder, State, start, one, two, three, scan, accept}
use kaseiapp.Base64.Digits.{index_of-digit, digit_plain}
use mathlib.Core.Path.{fun_ext}

abbrev pub decoder : Memory → ℕ → State → Decoder
decoder mem t s = record { target = mem; tarindex = t; state = s }

-- A digit is handed to the switch on the state.
pub scan-digit :
    (size i : ℕ) (src : List ℕ) (d d' : Decoder)
    → i < 64
    → accept true size i d d.state ≡ some d'
    → scan true size (digit i ∷ src) d ≡ scan true size src d'
unfolding scan
scan-digit size i src d d' h e =
    rw ((digit_plain i h).0, scan)
      (rw ((digit_plain i h).1, scan) (rw (index_of-digit i h, scan) (rw (e, scan) refl)))

pub update_here : (mem : Memory) (p x : ℕ) → update mem p x p ≡ x
unfolding update
update_here mem p x = ground arith

update_twice : (mem : Memory) (p x y : ℕ) → update (update mem p x) p y ≡ update mem p y
unfolding update
update_twice mem p x y =
    fun_ext (λ a. elim (Bool-cases (a == p)) [ inl here ↦ rw here refl | inr away ↦ rw away refl ])

-- `|=` on the byte written last.
or_here :
    (mem : Memory) (p x y : ℕ)
    → update (update mem p x) p (bit_or (update mem p x p) y) ≡ update mem p (bit_or x y)
or_here mem p x y =
    ap (λ (t : ℕ). update (update mem p x) p (bit_or t y)) (update_here mem p x)
    ∙ update_twice mem p x (bit_or x y)

module _ (size : ℕ) (mem : Memory) (t : ℕ) where
  pub accept_start :
      (i : ℕ)
      → t < size
      → accept true size i (decoder mem t start) start
        ≡ some (decoder (update mem t (i * 4 % 256)) t one)
  accept_start i h = let room : leb size t ≡ false = ground arith in rw room

  pub accept_one :
      (i x : ℕ)
      → t + 1 < size
      → t + 1 < 2 ^ 32
      → accept true size i (decoder (update mem t x) t one) one
        ≡ some (
            decoder
              (update (update mem t (bit_or x (i / 16))) (t + 1) (bit_and i 0x0f * 16 % 256))
              (t + 1)
              two)
  accept_one i x h small =
      let exact : (t + 1) % 2 ^ 32 ≡ t + 1 = omega arith in
      let room : leb size (t + 1) ≡ false = ground arith in
      rw exact (rw room (rw (or_here mem t x (i / 16)) refl))

  pub accept_two :
      (i x : ℕ)
      → t + 1 < size
      → t + 1 < 2 ^ 32
      → accept true size i (decoder (update mem t x) t two) two
        ≡ some (
            decoder
              (update (update mem t (bit_or x (i / 4))) (t + 1) (bit_and i 0x03 * 64 % 256))
              (t + 1)
              three)
  accept_two i x h small =
      let exact : (t + 1) % 2 ^ 32 ≡ t + 1 = omega arith in
      let room : leb size (t + 1) ≡ false = ground arith in
      rw exact (rw room (rw (or_here mem t x (i / 4)) refl))

  pub accept_three :
      (i x : ℕ)
      → t < size
      → t + 1 < 2 ^ 32
      → accept true size i (decoder (update mem t x) t three) three
        ≡ some (decoder (update mem t (bit_or x i)) (t + 1) start)
  accept_three i x h small =
      let exact : (t + 1) % 2 ^ 32 ≡ t + 1 = omega arith in
      let room : leb size t ≡ false = ground arith in
      rw exact (rw room (rw (or_here mem t x i) refl))
