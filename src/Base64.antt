-- ===== src/Base64.antt =====
-- f_b64_ntop and f_b64_pton of FirebaseDatabase/Sources/third_party/SocketRocket/fbase64.c in
-- Kasei/Pods/FirebaseDatabase: bytes to Base64 text and back.
pub mod Digits
pub mod Steps
pub mod Decode
pub mod Text
pub mod Encode
mod Tests
use kaseiapp.Base.{ℕ, suc, ◌+◌, ◌-◌, ◌*◌, ◌/◌, ◌%◌, ◌^◌, bit_and, bit_or}
use kaseiapp.Base.{Bool, true, false, not, ◌&&◌, ◌||◌, Option, none, some, List, [], ◌∷◌, ◌++◌}
use kaseiapp.Base.{ltb, leb, ◌==◌, if◌then◌else◌, get_or}
use kaseiapp.Base.Memory.{Memory, update}

-- The characters of `Base64`, A-Z, a-z, 0-9, + and /.
abbrev pub alphabet : List ℕ
alphabet =
    65 ∷ 66 ∷ 67 ∷ 68 ∷ 69 ∷ 70 ∷ 71 ∷ 72 ∷ 73 ∷ 74 ∷ 75 ∷ 76 ∷ 77 ∷ 78 ∷ 79 ∷ 80 ∷ 81 ∷ 82 ∷ 83
    ∷ 84 ∷ 85 ∷ 86 ∷ 87 ∷ 88 ∷ 89 ∷ 90 ∷ 97 ∷ 98 ∷ 99 ∷ 100 ∷ 101 ∷ 102 ∷ 103 ∷ 104 ∷ 105 ∷ 106
    ∷ 107 ∷ 108 ∷ 109 ∷ 110 ∷ 111 ∷ 112 ∷ 113 ∷ 114 ∷ 115 ∷ 116 ∷ 117 ∷ 118 ∷ 119 ∷ 120 ∷ 121 ∷ 122
    ∷ 48 ∷ 49 ∷ 50 ∷ 51 ∷ 52 ∷ 53 ∷ 54 ∷ 55 ∷ 56 ∷ 57 ∷ 43 ∷ 47 ∷ []

-- '='
abbrev pub pad64 : ℕ
pad64 = 61

-- `Base64[i]`
unfoldable pub digit : ℕ → ℕ
digit i = get_or alphabet i 0

-- The bit pattern of the `int` -1.
abbrev pub minus_one : ℕ
minus_one = 2 ^ 32 - 1

-- The `output` of three bytes.
abbrev pub output_0 : ℕ → ℕ
output_0 a = a / 4

abbrev pub output_1 : ℕ → ℕ → ℕ
output_1 a b = bit_and a 0x03 * 16 + b / 16

abbrev pub output_2 : ℕ → ℕ → ℕ
output_2 b c = bit_and b 0x0f * 4 + c / 64

abbrev pub output_3 : ℕ → ℕ
output_3 c = bit_and c 0x3f

-- `datalength + 4 > targsize`
abbrev pub is_full : ℕ → ℕ → Bool
is_full datalength targsize = ltb targsize ((datalength + 4) % 2 ^ 64)

-- The result: the pattern of the `int` that is returned, and what is stored to `target` in order.
abbrev pub store : List ℕ → ℕ × List ℕ → ℕ × List ℕ
store cs (ret, out) = (ret, cs ++ out)

abbrev pub terminate : ℕ → ℕ → ℕ × List ℕ
terminate datalength targsize =
    if leb targsize datalength then (minus_one, []) else (datalength % 2 ^ 32, 0 ∷ [])

-- The rest of f_b64_ntop, when `datalength` characters are stored.
unfoldable pub ntop_from : ℕ → ℕ → List ℕ → ℕ × List ℕ
unfolding digit
ntop_from targsize datalength [] = terminate datalength targsize
ntop_from targsize datalength (a ∷ []) =
    if is_full datalength targsize
    then (minus_one, [])
    else store (digit (output_0 a) ∷ digit (output_1 a 0) ∷ pad64 ∷ pad64 ∷ [])
        (terminate (datalength + 4) targsize)
ntop_from targsize datalength (a ∷ b ∷ []) =
    if is_full datalength targsize
    then (minus_one, [])
    else store (digit (output_0 a) ∷ digit (output_1 a b) ∷ digit (output_2 b 0) ∷ pad64 ∷ [])
        (terminate (datalength + 4) targsize)
ntop_from targsize datalength (a ∷ b ∷ c ∷ rest) =
    if is_full datalength targsize
    then (minus_one, [])
    else store
        (digit (output_0 a) ∷ digit (output_1 a b) ∷ digit (output_2 b c) ∷ digit (output_3 c) ∷ [])
        (ntop_from targsize (datalength + 4) rest)

unfoldable pub f_b64_ntop : List ℕ → ℕ → ℕ × List ℕ
unfolding ntop_from
f_b64_ntop src targsize = ntop_from targsize 0 src

-- isspace() in the C locale.
abbrev pub isspace : ℕ → Bool
isspace ch = (ch == 32) || (leb 9 ch && leb ch 13)

-- `strchr(Base64, ch) - Base64`, if that is not NULL, for a `ch` that is not '\0'.
unfoldable pub index_of : ℕ → List ℕ → Option ℕ
index_of ch [] = none
index_of ch (c ∷ cs) = elim (c == ch) [
  | true ↦ some 0
  | false ↦ elim (index_of ch cs) [ none ↦ none | some i ↦ some (suc i) ]
]

-- The variable `state`.
pub data State : Type 0 where
  start one two three : State

-- The variables of the loop; `target` from its first byte on.
pub record Decoder : Type 0 where
  pub target : Memory
  pub tarindex : ℕ
  pub state : State

-- The outcome of the loop: an error, the text behind a pad character, or the end of the text.
pub data Scan : Type 0 where
  bad : Memory → Scan
  padded : List ℕ → Decoder → Scan
  ended : Decoder → Scan

abbrev pub next_index : Decoder → ℕ
next_index d = (d.tarindex + 1) % 2 ^ 32

-- `target[tarindex] |= bits`, and `target[tarindex + 1] = low`.
abbrev pub or_in : Decoder → ℕ → Memory
or_in d bits = update d.target d.tarindex (bit_or (d.target d.tarindex) bits)

-- The `switch` on the state for a digit; without a target nothing is stored or checked. `none` is
-- `return (-1)`.
abbrev pub accept : Bool → ℕ → ℕ → Decoder → State → Option Decoder
accept has_target targsize i d start =
    if not has_target
    then some (record d { state = one })
    else if leb targsize d.tarindex
    then none
    else some (record d { target = update d.target d.tarindex (i * 4 % 256); state = one })
accept has_target targsize i d one =
    if not has_target
    then some (record d { tarindex = next_index d; state = two })
    else if leb targsize (next_index d)
    then none
    else some (record {
      target = update (or_in d (i / 16)) (next_index d) (bit_and i 0x0f * 16 % 256);
      tarindex = next_index d;
      state = two;
    })
accept has_target targsize i d two =
    if not has_target
    then some (record d { tarindex = next_index d; state = three })
    else if leb targsize (next_index d)
    then none
    else some (record {
      target = update (or_in d (i / 4)) (next_index d) (bit_and i 0x03 * 64 % 256);
      tarindex = next_index d;
      state = three;
    })
accept has_target targsize i d three =
    if not has_target
    then some (record d { tarindex = next_index d; state = start })
    else if leb targsize d.tarindex
    then none
    else some (record { target = or_in d i; tarindex = next_index d; state = start })

abbrev pub accept_digit : Bool → ℕ → Decoder → Option ℕ → Option Decoder
accept_digit has_target targsize d none = none
accept_digit has_target targsize d (some i) = accept has_target targsize i d d.state

-- The while loop over a text, without its '\0'.
unfoldable pub scan : Bool → ℕ → List ℕ → Decoder → Scan
unfolding index_of
scan has_target targsize [] d = ended d
scan has_target targsize (ch ∷ src) d = elim (isspace ch) [
  | true ↦ scan has_target targsize src d
  | false ↦ elim (ch == pad64) [
    | true ↦ padded src d
    | false ↦ elim (accept_digit has_target targsize d (index_of ch alphabet)) [
      | none ↦ bad d.target
      | some d' ↦ scan has_target targsize src d'
    ]
  ]
]

-- Whether there is nothing but whitespace.
unfoldable pub all_space : List ℕ → Bool
all_space [] = true
all_space (ch ∷ src) = isspace ch && all_space src

-- The text behind the second pad character, if whitespace alone is in front of it.
unfoldable pub second_pad : List ℕ → Option (List ℕ)
second_pad [] = none
second_pad (ch ∷ src) = elim (isspace ch) [
  | true ↦ second_pad src
  | false ↦ if ch == pad64 then some src else none
]

-- The `int` that is returned, as a pattern, and the target.
abbrev pub finish_padded : Bool → Decoder → Option (List ℕ) → ℕ × Memory
finish_padded has_target d none = (minus_one, d.target)
finish_padded has_target d (some rest) =
    if not (all_space rest)
    then (minus_one, d.target)
    else if has_target && not (d.target d.tarindex == 0)
    then (minus_one, d.target)
    else (d.tarindex, d.target)

abbrev pub finish_pad : Bool → List ℕ → Decoder → State → ℕ × Memory
finish_pad has_target src d start = (minus_one, d.target)
finish_pad has_target src d one = (minus_one, d.target)
finish_pad has_target src d two = finish_padded has_target d (second_pad src)
finish_pad has_target src d three = finish_padded has_target d (some src)

abbrev pub finish_end : Decoder → State → ℕ × Memory
finish_end d start = (d.tarindex, d.target)
finish_end d _ = (minus_one, d.target)

abbrev pub finish : Bool → Scan → ℕ × Memory
finish has_target (bad target) = (minus_one, target)
finish has_target (padded src d) = finish_pad has_target src d d.state
finish has_target (ended d) = finish_end d d.state

unfoldable pub f_b64_pton : List ℕ → Bool → Memory → ℕ → ℕ × Memory
unfolding scan all_space second_pad
f_b64_pton src has_target target targsize =
    finish has_target
      (scan has_target targsize src (record { target = target; tarindex = 0; state = start }))
