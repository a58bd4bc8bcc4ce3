-- ===== src/Nanopb/Flat/RoundTrip/Tests.antt =====
-- A message of five numbers, a text and two arrays, encoded and decoded.
use kaseiapp.Base.{
  ℕ, zero, suc, ◌-◌, ◌^◌, ◌<◌, ◌≤◌, ◌≡◌, refl, arith, true, List, [], ◌∷◌, get_or, length, IsByte,
  All,
}
use kaseiapp.Base.Memory.{Memory, load, bytes_at, pos}
use kaseiapp.Nanopb.Pb.{
  FieldInfo, Ltype, Htype, string, bytes, fixed_length_bytes, bool, varint, svarint, uvarint,
  fixed32, required, optional, static,
}
use kaseiapp.Nanopb.Pb.{callback_error}
use kaseiapp.Nanopb.Ostream.{Writer, fail, pb_ostream_from_buffer}
use kaseiapp.Nanopb.Ostream.Emits.{Wire, stopped, Implements}
use kaseiapp.Nanopb.Ostream.Emits.Sequence.{fail-Implements}
use kaseiapp.Nanopb.Fields.{Fields, last, field, null}
use kaseiapp.Nanopb.Field.{strnlen, sign_extend, safe_read_bool}
use kaseiapp.Nanopb.Write.{zigzag, fixed_bytes}
use kaseiapp.Nanopb.Write.Varint.{base128}
use kaseiapp.Nanopb.Store.{Store, good, succeed, Result, User}
use kaseiapp.Nanopb.Encode
use kaseiapp.Nanopb.Encode.{all_zero}
use kaseiapp.Nanopb.RoundTrip.{reopened, written}
use kaseiapp.Nanopb.Decode.{pb_decode}
use kaseiapp.Nanopb.Flat.Values.{Fits}
use kaseiapp.Nanopb.Flat.Messages.{IsSingle, IsScalar, AllScalars, AllValues, flat_bytes}
use kaseiapp.Nanopb.Flat.Copied.{AllCopied}
use kaseiapp.Nanopb.Flat.RoundTrip.{pb_decode-pb_encode}

abbrev number : FieldInfo
number = record {
  tag = 1;
  ltype = varint;
  htype = required;
  atype = static;
  data_offset = 0;
  size_offset = pos 0;
  data_size = 4;
  array_size = 0;
}

-- An int32_t, a bool, a sint64_t that is zero, a uint16_t, a fixed 32-bit number, a text, bytes with
-- their count, and two bytes.
abbrev message : Fields
message = field number null (
    field (record number { tag = 2; ltype = bool; htype = optional; data_size = 1 }) null
      (field
        (record number {
          tag = 300;
          ltype = svarint;
          htype = optional;
          data_offset = 3;
          data_size = 8;
        })
        null
        (field (record number { tag = 301; ltype = uvarint; htype = optional; data_size = 2 }) null
          (field (record number { tag = 302; ltype = fixed32; htype = optional; data_offset = 2 })
            null
            (field (record number { tag = 303; ltype = string; htype = optional }) null
              (field (record number { tag = 304; ltype = bytes; htype = optional; data_size = 7 })
                null
                (field (record number { tag = 305; ltype = fixed_length_bytes; data_size = 2 }) null
                  last)))))))

-- -2, true, 0, 513, 7, "hi" with a byte behind it, 200 and 0 with a byte behind them, and 5 and 6.
abbrev struct : List ℕ
struct =
    254 ∷ 255 ∷ 255 ∷ 255 ∷ 1 ∷ 0 ∷ 0 ∷ 0 ∷ 0 ∷ 0 ∷ 0 ∷ 0 ∷ 0 ∷ 0 ∷ 0 ∷ 0 ∷ 1 ∷ 2 ∷ 0 ∷ 0 ∷ 7 ∷ 0
    ∷ 0 ∷ 0 ∷ 104 ∷ 105 ∷ 0 ∷ 9 ∷ 2 ∷ 0 ∷ 0 ∷ 0 ∷ 200 ∷ 0 ∷ 9 ∷ 5 ∷ 6 ∷ []

abbrev struct_at : Memory
struct_at a = get_or struct (a - 16) 0

get_or-IsByte : (bs : List ℕ) (i : ℕ) → All IsByte bs → IsByte (get_or bs i 0)
get_or-IsByte [] i h = omega arith
get_or-IsByte (b ∷ bs) zero h = h.0
get_or-IsByte (b ∷ bs) (suc i) h = get_or-IsByte bs i h.1

is_memory : (a : ℕ) → IsByte (struct_at a)
is_memory a = get_or-IsByte struct (a - 16) (omega arith)

no_functions : ℕ → ℕ → Writer
no_functions f arg = fail callback_error

no_bytes : ℕ → ℕ → Wire
no_bytes f arg = stopped []

no_functions_lem : (f arg : ℕ) → Implements (no_functions f arg) (no_bytes f arg)
unfolding no_functions no_bytes
no_functions_lem f arg = fail-Implements callback_error

abbrev user : User
user = record {
  realloc = λ calls mem ptr size. (0, mem);
  free = λ calls mem ptr. mem;
  callbacks = λ f info arg. succeed;
  extension_decoders = λ f arg tag wire_type. succeed;
}

-- The memory that is decoded to has no zeros.
abbrev ones : Store
ones = record { mem = λ a. 1; calls = [] }

abbrev run : Writer
run = Encode.pb_encode struct_at no_functions no_functions message 16

abbrev decoded : Result
decoded = pb_decode user message 96 (reopened (written run (λ a. 0) 1000 64) 1000) ones

number-IsScalar :
    (tag n : ℕ) (lt : Ltype) (rule : Htype) (offset : ℕ)
    → IsSingle rule
    → Fits lt n
    → 0 < tag
    → tag < 2 ^ 29
    → IsScalar
        (record number { tag = tag; ltype = lt; htype = rule; data_offset = offset; data_size = n })
number-IsScalar tag n lt rule offset single fits tag_pos tag_bound = record {
  in_struct = refl;
  single = single;
  no_has = refl;
  fits = fits;
  tag_pos = tag_pos;
  tag_bound = tag_bound;
}

numbers : AllScalars message
numbers = (
  number-IsScalar 1 4 varint required 0 tt refl (omega arith) (omega arith),
  refl,
  refl,
  (
    number-IsScalar 2 1 bool optional 0 tt refl (omega arith) (omega arith),
    refl,
    refl,
    (
      number-IsScalar 300 8 svarint optional 3 tt refl (omega arith) (omega arith),
      refl,
      refl,
      (
        number-IsScalar 301 2 uvarint optional 0 tt refl (omega arith) (omega arith),
        refl,
        refl,
        (
          number-IsScalar 302 4 fixed32 optional 2 tt refl (omega arith) (omega arith),
          refl,
          refl,
          (
            number-IsScalar 303 4 string optional 0 tt (omega arith, omega arith) (omega arith)
                (omega arith),
            refl,
            refl,
            (
              number-IsScalar 304 7 bytes optional 0 tt (omega arith, omega arith) (omega arith)
                  (omega arith),
              refl,
              refl,
              (
                number-IsScalar 305 2 fixed_length_bytes required 0 tt (omega arith, omega arith)
                    (omega arith) (omega arith),
                refl,
                refl,
                tt,
              ),
            ),
          ),
        ),
      ),
    ),
  ),
)

values : AllValues struct_at message 16
unfolding strnlen load
values = (tt, (omega arith, (tt, (tt, (tt, (omega arith, (omega arith, (tt, tt))))))))

room : length (flat_bytes struct_at message 16) ≤ 64
unfolding all_zero load strnlen bytes_at base128 fixed_bytes zigzag sign_extend safe_read_bool
room = omega arith

pb_decode-pb_encode_example :
    ((run (pb_ostream_from_buffer (λ a. 0) 1000 64)).0 ≡ true)
    × (decoded.0 ≡ good)
    × (decoded.1.bytes_left ≡ 0)
    × AllCopied struct_at decoded.2.mem message 16 96
pb_decode-pb_encode_example =
    pb_decode-pb_encode struct_at is_memory no_functions no_functions no_bytes no_bytes
      no_functions_lem no_functions_lem user message (λ a. 0) 16 96 1000 64 ones numbers refl values
      (λ e. ground arith) (omega arith) (omega arith) room
