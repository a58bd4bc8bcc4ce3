-- ===== src/Nanopb/Flat/RoundTrip.antt =====
-- pb_encode of Kasei/Pods/nanopb/pb_encode.c and pb_decode of Kasei/Pods/nanopb/pb_decode.c together, for
-- messages of single values.
mod Tests
use mathlib.Core.Path.{subst}
use kaseiapp.Base.{
  ℕ, zero, suc, ◌+◌, ◌≤◌, ◌<◌, ◌^◌, ◌≡◌, ◌≢◌, refl, sym, ap, ◌∙◌, arith, true, none, List, [], ◌++◌,
  append-nil, length, inl, IsByte, IsU32, IsU64, ◌-◌,
}
use kaseiapp.Base.Memory.{Memory, load, offset_by}
use kaseiapp.Nanopb.Pb.{FieldInfo, Ltype}
use kaseiapp.Nanopb.Ostream.{Writer, pb_ostream_from_buffer}
use kaseiapp.Nanopb.Ostream.Emits.{Wire, Implements, Emits}
use kaseiapp.Nanopb.Istream.{Istream, buf_read, pb_istream_from_buffer}
use kaseiapp.Nanopb.Istream.Reads.{input, consume, length-input}
use kaseiapp.Nanopb.Fields.{Fields, last, field, Ptr, null, begin_data, size_address, iter_at}
use kaseiapp.Nanopb.Store.{Store, good, Result, put, User}
use kaseiapp.Nanopb.Default.{pb_message_set_to_defaults, set_fields}
use kaseiapp.Nanopb.Required.{has_tag}
use kaseiapp.Nanopb.Required.Index.{iter_at-Indexed}
use kaseiapp.Nanopb.Progress.{fixed_count_at}
use kaseiapp.Nanopb.Decode.{
  decode_loop, begin_progress, restore_count, release_on_failure, noinit_by, decode_by, nested_at,
  pb_decode,
}
use kaseiapp.Nanopb.Encode
use kaseiapp.Nanopb.Field.{is_int_size}
use kaseiapp.Nanopb.Wire.Values.{for_int_size}
use kaseiapp.Nanopb.Wire.{message_wire}
use kaseiapp.Nanopb.Wire.Rules.{IsDescriptor}
use kaseiapp.Nanopb.Wire.Message.{AllDescriptors, BelowPtr, pb_encode-Implements}
use kaseiapp.Nanopb.RoundTrip.{reopened, written, run_buffer, reopened-input}
use kaseiapp.Nanopb.Keeps.{put-Outside}
use kaseiapp.Nanopb.Flat.Values.{Fits, for_scalar}
use kaseiapp.Nanopb.Flat.Messages.{
  IsScalar, AllScalars, AllValues, flat_bytes, restored, fields-wire,
}
use kaseiapp.Nanopb.Flat.Seek.{find-sought}
use kaseiapp.Nanopb.Flat.Seen.{none-SeenTo}
use kaseiapp.Nanopb.Flat.Ready.{Ready}
use kaseiapp.Nanopb.Flat.Loop.{flat-loop}
use kaseiapp.Nanopb.Flat.Zeroed.{AllZero, EndsBelow, zero_in, set_fields-AllZero}
use kaseiapp.Nanopb.Flat.Copied.{AllCopied, copied_in, restored-AllCopied}

begin_same :
    (fields : Fields) (dest : ℕ)
    → AllScalars fields
    → size_address fields (begin_data fields dest) ≡ begin_data fields dest
begin_same last dest all = refl
begin_same (field info ptr rest) dest (scalar, no_default, other, all) =
    ap (offset_by (dest + info.data_offset)) scalar.no_has ∙ omega arith

begin-Ready :
    (user : User) (fields : Fields) (dest : ℕ)
    → Ready fields dest fields 0
        (begin_data fields dest)
        (size_address fields (begin_data fields dest))
        (begin_progress user fields dest)
begin-Ready user fields dest = record {
  no_count = refl;
  indexed = iter_at-Indexed fields dest;
  leads = λ tag e. find-sought fields dest tag fields 0 _ _ (omega arith) e;
  seen = none-SeenTo;
  total = omega arith;
  room = omega arith;
}

module _ (user : User) (mem : Memory) (is_memory : (a : ℕ) → IsByte (mem a)) (fields : Fields)
    (all : AllScalars fields) (tagged : has_tag fields ≡ true) (p dest : ℕ)
    (values : AllValues mem fields p)
    (ends : EndsBelow (2 ^ 64) fields (begin_data fields dest)) where
  -- The struct with its defaults, and the counter of the decoder.
  abbrev defaults : Memory → Memory
  defaults m = pb_message_set_to_defaults fields dest m

  abbrev cleared : Memory → Memory
  cleared m = put fixed_count_at 4 0 (defaults m)

  abbrev final : Memory → Memory
  final m =
      put fixed_count_at 4 (load (defaults m) fixed_count_at 4)
        (restored mem fields p (begin_data fields dest) (cleared m))

  outside : (v : ℕ) (m : Memory) (a : ℕ) → a < 2 ^ 64 → put fixed_count_at 4 v m a ≡ m a
  outside v m a lt = put-Outside fixed_count_at 4 v m a (inl lt)

  final-AllCopied : (m : Memory) → AllCopied mem (final m) fields p (begin_data fields dest)
  unfolding pb_message_set_to_defaults
  final-AllCopied m =
      copied_in (2 ^ 64) mem fields p (begin_data fields dest)
        (restored mem fields p (begin_data fields dest) (cleared m)) (final m) all values ends
        (λ a ge lt. outside _ _ a lt)
        (restored-AllCopied (2 ^ 64) mem fields p (begin_data fields dest) (cleared m) all values
          ends
          (zero_in (2 ^ 64) fields (begin_data fields dest) (defaults m) (cleared m) ends
            (λ a ge lt. outside 0 (defaults m) a lt)
            (set_fields-AllZero fields (begin_data fields dest)
              (size_address fields (begin_data fields dest)) m all (begin_same fields dest all))))

  pb_decode-flat :
      (s : Istream) (st : Store)
      → s.callback ≡ buf_read
      → input s ≡ flat_bytes mem fields p
      → pb_decode user fields dest s st
        ≡ (good, consume s (length (flat_bytes mem fields p)), record st { mem = final st.mem })
  unfolding pb_decode decode_by noinit_by
  pb_decode-flat s st buf e =
      ap
        (λ (r : Result).
          release_on_failure user fields dest (restore_count user (defaults st.mem) r))
        (flat-loop fields dest user (nested_at user fields) mem is_memory fields s.bytes_left p 0
          (begin_data fields dest) (size_address fields (begin_data fields dest))
          (begin_progress user fields dest) s (record st { mem = cleared st.mem }) tagged all values
          (begin-Ready user fields dest) (begin_same fields dest all) buf e (omega arith))

fits-IsU32 : (lt : Ltype) (n : ℕ) → Fits lt n → IsU32 n
fits-IsU32 lt n h =
    for_scalar (λ t. Fits t n → IsU32 n) lt n h (λ e. omega arith) int_small int_small int_small
      (λ e. omega arith) (λ e. omega arith) (λ e. e.1) (λ e. e.1) (λ e. e.1) h
  where
    int_small : is_int_size n ≡ true → IsU32 n
    int_small e =
        for_int_size (λ k. IsU32 k) n e (omega arith) (omega arith) (omega arith) (omega arith)

scalars-AllDescriptors : (fields : Fields) → AllScalars fields → AllDescriptors fields
scalars-AllDescriptors last all = tt
scalars-AllDescriptors (field info ptr rest) (scalar, no_default, other, all) = (
  record {
    tag_u32 = omega (arith, scalar.tag_bound);
    size_u32 = fits-IsU32 info.ltype info.data_size scalar.fits;
  },
  subst BelowPtr (sym no_default) tt,
  scalars-AllDescriptors rest all,
)

module _ (mem : Memory) (is_memory : (a : ℕ) → IsByte (mem a))
    (callbacks extension_encoders : ℕ → ℕ → Writer) (callback_wire extension_wire : ℕ → ℕ → Wire)
    (callbacks_lem : (f arg : ℕ) → Implements (callbacks f arg) (callback_wire f arg))
    (extensions_lem : (f arg : ℕ)
      → Implements (extension_encoders f arg) (extension_wire f arg)) where
  encode-Emits :
      (fields : Fields) (src : ℕ)
      → AllScalars fields
      → AllValues mem fields (begin_data fields src)
      → begin_data fields src ≢ 0
      → Emits
          (Encode.pb_encode mem callbacks extension_encoders fields src)
          (flat_bytes mem fields (begin_data fields src))
  unfolding message_wire
  encode-Emits fields src all values nonzero =
      subst (Implements (Encode.pb_encode mem callbacks extension_encoders fields src))
        (fields-wire mem callback_wire extension_wire fields (begin_data fields src) all values
          nonzero)
        (pb_encode-Implements mem is_memory callbacks extension_encoders callback_wire
          extension_wire callbacks_lem extensions_lem fields src
          (scalars-AllDescriptors fields all))

  -- pb_encode of a message of single values at `src` into a buffer that has room for its bytes
  -- succeeds, and pb_decode over the bytes that it wrote returns true, takes all of them, and leaves
  -- every field of the struct at `dest`, whatever it held before, with the value of that at `src`: the
  -- same bytes, of a text those to its terminator, and of a byte array with a count, the count and as
  -- many bytes. The message type has a field at least. Its fields are required, or optional with no
  -- `has_` member, lie in the struct itself, have the type of a bool, an integer of 1, 2, 4 or 8
  -- bytes, a number of 32 or 64 bits, a text, a byte array with a count, or one of a fixed length that
  -- is not 0, less than 2 ^ 32 bytes each, no default value, and different tags from 1 to 2 ^ 29 - 1.
  -- A bool is 0 or 1, a text ends in its array, a count is at most the room behind it, the data at
  -- `src` is not at the address 0, the buffer has fewer than 2 ^ 64 bytes, the struct at `dest` ends
  -- below 2 ^ 64, the memory at `src` has bytes, and the encoder's user functions write what their
  -- wires say.
  pub pb_decode-pb_encode :
      (user : User) (fields : Fields) (out : Memory) (src dest buf size : ℕ) (st : Store)
      → AllScalars fields
      → has_tag fields ≡ true
      → AllValues mem fields (begin_data fields src)
      → begin_data fields src ≢ 0
      → EndsBelow (2 ^ 64) fields (begin_data fields dest)
      → IsU64 size
      → length (flat_bytes mem fields (begin_data fields src)) ≤ size
      → let run = Encode.pb_encode mem callbacks extension_encoders fields src in
        let r = pb_decode user fields dest (reopened (written run out buf size) buf) st in
        ((run (pb_ostream_from_buffer out buf size)).0 ≡ true)
        × (r.0 ≡ good)
        × (r.1.bytes_left ≡ 0)
        × AllCopied mem r.2.mem fields (begin_data fields src) (begin_data fields dest)
  unfolding pb_istream_from_buffer
  pb_decode-pb_encode user fields out src dest buf size st all tagged values nonzero ends small
        enough_room =
      let run = Encode.pb_encode mem callbacks extension_encoders fields src in
      let bs = flat_bytes mem fields (begin_data fields src) in
      let emits = encode-Emits fields src all values nonzero in
      let s = reopened (written run out buf size) buf in
      let read : input s ≡ bs = reopened-input out buf size small run bs emits enough_room in
      let decoded =
        pb_decode-flat user mem is_memory fields all tagged (begin_data fields src) dest values ends
          s st refl read in
      (
        ap (λ r. r.0) (run_buffer out buf size small run bs emits enough_room),
        ap (λ r. r.0) decoded,
        ap (λ (r : Result). r.1.bytes_left) decoded ∙ omega (arith, length-input s, ap length read),
        subst
            (λ (r : Result).
              AllCopied mem r.2.mem fields (begin_data fields src) (begin_data fields dest))
            (sym decoded)
            (final-AllCopied user mem is_memory fields all tagged (begin_data fields src) dest
              values ends st.mem),
      )
