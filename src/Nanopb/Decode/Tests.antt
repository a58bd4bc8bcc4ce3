-- ===== src/Nanopb/Decode/Tests.antt =====
-- The decoder of Kasei/Pods/nanopb/pb_decode.c at a message of three fields, and the theorems on it.
use kaseiapp.Base.{
  ℕ, ◌+◌, ◌<◌, ◌≤◌, ◌^◌, ◌⊎◌, inl, inr, ◌≡◌, refl, arith, List, [], ◌∷◌, ◌++◌, get_or,
}
use kaseiapp.Base.Memory.{Memory, load, bytes_at, store_bytes, update, pos, negsuc}
use kaseiapp.Nanopb.Pb.{FieldInfo, varint, submessage, required, optional, repeated, static}
use kaseiapp.Nanopb.Istream.{Istream, pb_istream_from_buffer, pb_readbyte}
use kaseiapp.Nanopb.Istream.Takes.{pb_readbyte-Takes}
use kaseiapp.Nanopb.Fields.{Fields, last, field, null, submsg, iter_at, pb_field_iter_find}
use kaseiapp.Nanopb.Read.{
  pb_skip_field, pb_decode_tag, pb_decode_varint, pb_decode_varint32, pb_make_string_substream,
  pb_close_string_substream,
}
use kaseiapp.Nanopb.Write.{fixed_bytes}
use kaseiapp.Nanopb.Item.{pb_dec_varint}
use kaseiapp.Nanopb.Keeps.Item.{smaller}
use kaseiapp.Nanopb.Progress.{fixed_count_at}
use kaseiapp.Nanopb.Store.{Store, Status, good, bad, Result, succeed, reading, User}
use kaseiapp.Nanopb.Decode.{pb_decode, pb_decode_delimited}
use kaseiapp.Nanopb.Ends.{Ends, UserEnds, succeed-Ends, reading-Ends}
use kaseiapp.Nanopb.Ends.Whole.{pb_decode-Ends, pb_decode_delimited-Ends}
use kaseiapp.Nanopb.Keeps.{Avoids, Keeps}
use kaseiapp.Nanopb.Istream.Reads.{Reads}
use kaseiapp.Nanopb.Write.Varint.{varint_bytes}
use kaseiapp.Nanopb.Read.Skip.{string_field, pb_skip_field-Reads}
use kaseiapp.Nanopb.Read.Takes.{Parted, make_substream-Parted}
use kaseiapp.Nanopb.Keeps.Layout.{IsPlain, FieldsFit, StructFits, AllPlain}
use kaseiapp.Nanopb.Keeps.Placed.{Placed, iter_at-Placed, find-Placed}
use kaseiapp.Nanopb.Keeps.Whole.{pb_decode-Keeps}

-- An allocator that has no memory, and functions that take a byte and no byte.
abbrev pub plain_user : User
plain_user = record {
  realloc = λ calls mem ptr size. (0, mem);
  free = λ calls mem ptr. mem;
  callbacks = λ f info arg. reading pb_readbyte (λ b. succeed);
  extension_decoders = λ f arg tag wire_type. succeed;
}

plain_user-UserEnds : UserEnds plain_user
plain_user-UserEnds = record {
  callbacks = λ f info arg. reading-Ends pb_readbyte _ pb_readbyte-Takes (λ b. succeed-Ends);
  extension_decoders = λ f arg tag wire_type. succeed-Ends;
}

-- A struct of an int32_t, an array of two int32_t behind its count, and a submessage with one int32_t
-- behind its `has_` member.
abbrev number : FieldInfo
number = record {
  tag = 1;
  ltype = varint;
  htype = required;
  atype = static;
  data_offset = 0;
  size_offset = pos 0;
  data_size = 4;
  array_size = 0;
}

abbrev pub message : Fields
message = field number null (
    field
      (record number {
        tag = 2;
        htype = repeated;
        data_offset = 4;
        size_offset = negsuc 3;
        array_size = 2;
      })
      null
      (field
        (record number {
          tag = 3;
          ltype = submessage;
          htype = optional;
          data_offset = 4;
          size_offset = negsuc 3;
        })
        (submsg (field number null last)) last))

-- The fields 150, { 3, 5 } and a submessage with 7.
abbrev pub message_bytes : List ℕ
message_bytes = 8 ∷ 150 ∷ 1 ∷ 18 ∷ 2 ∷ 3 ∷ 5 ∷ 26 ∷ 2 ∷ 8 ∷ 7 ∷ []

abbrev pub stream : List ℕ → ℕ → Istream
stream bs n = pb_istream_from_buffer (λ a. get_or bs a 0) 0 n

abbrev pub ones : Store
ones = record { mem = λ a. 1; calls = [] }

abbrev status_of : Result → Status
status_of (status, s, st) = status

abbrev memory_of : Result → Memory
memory_of (status, s, st) = st.mem

abbrev outcome : ℕ → Status × ℕ × ℕ × ℕ
outcome n =
    let r = pb_decode plain_user message 16 (stream message_bytes n) ones in
    (status_of r, load (memory_of r) 16 4, load (memory_of r) 28 4, load (memory_of r) 36 4)

decoded : outcome 11 ≡ (good, 150, 5, 7)
unfolding pb_decode pb_istream_from_buffer pb_decode_tag pb_decode_varint32 pb_readbyte bytes_at
    pb_field_iter_find pb_make_string_substream load store_bytes fixed_bytes update pb_dec_varint
    pb_decode_varint pb_close_string_substream
decoded = refl

-- Without its first three bytes the message lacks a required field.
missing_status :
    status_of (pb_decode plain_user message 16 (stream (18 ∷ 2 ∷ 3 ∷ 5 ∷ []) 4) ones) ≡ bad
unfolding pb_decode pb_istream_from_buffer pb_decode_tag pb_decode_varint32 pb_readbyte bytes_at
    pb_field_iter_find pb_make_string_substream load store_bytes fixed_bytes update pb_dec_varint
    pb_decode_varint pb_close_string_substream
missing_status = refl

pb_decode-Ends_example : Ends 0 (pb_decode plain_user message 16)
pb_decode-Ends_example = pb_decode-Ends plain_user plain_user-UserEnds message 16

pb_decode_delimited-Ends_example : Ends 1 (pb_decode_delimited plain_user message 16)
pb_decode_delimited-Ends_example =
    pb_decode_delimited-Ends plain_user plain_user-UserEnds message 16

-- What lies before the struct at 16, and behind its 24 bytes, in a memory of 64-bit addresses.
abbrev Beside : ℕ → Type 0
Beside a = (a < 16) ⊎ ((40 ≤ a) × (a < 2 ^ 64))

number-IsPlain : IsPlain number
number-IsPlain = record { in_struct = refl; room = tt; no_extension = refl }

within : (p n : ℕ) → 16 ≤ p → p + n ≤ 40 → Avoids Beside p n
within p n low high a k = elim k [
  | inl below ↦ inl (omega arith)
  | inr (above, small) ↦ inr (omega arith)
]

message-AllPlain : AllPlain Beside message
unfolding AllPlain
message-AllPlain = (
  number-IsPlain,
  tt,
  (
    record { in_struct = refl; room = tt; no_extension = refl },
    tt,
    (
      record { in_struct = refl; room = tt; no_extension = refl },
      (
        (number-IsPlain, tt, tt),
        (λ q av. (smaller q 4 0 4 (omega arith) av, smaller q 4 0 1 (omega arith) av)),
      ),
      tt,
    ),
  ),
)

message-StructFits : StructFits Beside message 16
unfolding FieldsFit
message-StructFits = (
  within 16 4 (omega arith) (omega arith),
  (
    (within 24 8 (omega arith) (omega arith), omega arith, within 20 4 (omega arith) (omega arith)),
    (
      (within 36 4 (omega arith) (omega arith), (λ e. within 32 1 (omega arith) (omega arith))),
      within 36 1 (omega arith) (omega arith),
    ),
  ),
)

local_count : Avoids Beside fixed_count_at 4
local_count a k = elim k [ inl below ↦ inl (omega arith) | inr (above, small) ↦ inl (omega arith) ]

pb_decode-Keeps_example : Keeps Beside (pb_decode plain_user message 16)
pb_decode-Keeps_example =
    pb_decode-Keeps plain_user Beside local_count message 16 message-AllPlain message-StructFits

find-Placed_example : Placed Beside message (pb_field_iter_find 3 (iter_at message 16)).1
find-Placed_example =
    find-Placed Beside message 3 (iter_at message 16)
      (iter_at-Placed Beside message 16 message-StructFits)

make_substream-Parted_example : Parted 3 (pb_make_string_substream (stream (2 ∷ 8 ∷ 7 ∷ []) 3))
unfolding pb_istream_from_buffer
make_substream-Parted_example = make_substream-Parted (stream (2 ∷ 8 ∷ 7 ∷ []) 3)

pb_skip_field-Reads_example : Reads (pb_skip_field 2) (varint_bytes 2 ++ (8 ∷ 7 ∷ [])) tt
pb_skip_field-Reads_example =
    pb_skip_field-Reads 2 (varint_bytes 2 ++ (8 ∷ 7 ∷ [])) (string_field (8 ∷ 7 ∷ []) (omega arith))
