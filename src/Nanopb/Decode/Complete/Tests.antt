-- ===== src/Nanopb/Decode/Complete/Tests.antt =====
-- The theorems on the required fields of Kasei/Pods/nanopb/pb_decode.c at concrete messages.
use mathlib.Core.List.{Memᴰ}
use kaseiapp.Base.{
  ℕ, ◌-◌, ◌^◌, ◌<◌, ◌≡◌, ◌↔◌, refl, arith, true, false, List, [], ◌∷◌, All, take, length, min,
}
use kaseiapp.Base.Memory.{bytes_at, load, store_bytes, update}
use kaseiapp.Nanopb.Istream.{pb_istream_from_buffer}
use kaseiapp.Nanopb.Read.{
  pb_decode_tag, pb_decode_varint, pb_decode_varint32, pb_make_string_substream,
  pb_close_string_substream,
}
use kaseiapp.Nanopb.Istream.{pb_readbyte}
use kaseiapp.Nanopb.Write.{fixed_bytes}
use kaseiapp.Nanopb.Item.{pb_dec_varint}
use kaseiapp.Nanopb.Store.{good, Result}
use kaseiapp.Nanopb.Default.{pb_message_set_to_defaults}
use kaseiapp.Nanopb.Fields.{iter_at, pb_field_iter_next, pb_field_iter_find}
use kaseiapp.Nanopb.Required.{all_seen}
use kaseiapp.Nanopb.Required.Marks.{marks, all_seen-marks}
use kaseiapp.Nanopb.Required.Index.{
  required_tags, iter_at-Indexed, next-Indexed, required_count_lem,
}
use kaseiapp.Nanopb.Progress.{required_count}
use kaseiapp.Nanopb.Decode.{begin_progress, nested_at, restore_count, pb_decode}
use kaseiapp.Nanopb.Decode.Run.{Run}
use kaseiapp.Nanopb.Decode.Complete.{loop_store, pb_decode-required}
use kaseiapp.Nanopb.Decode.Tests.{plain_user, message, message_bytes, stream, ones}

decodes : (pb_decode plain_user message 16 (stream message_bytes 11) ones).0 ≡ good
unfolding pb_decode pb_istream_from_buffer pb_decode_tag pb_decode_varint32 pb_readbyte bytes_at
    pb_field_iter_find pb_make_string_substream load store_bytes fixed_bytes update pb_dec_varint
    pb_decode_varint pb_close_string_substream
decodes = refl

pb_decode-required_example :
    (tags : List ℕ) × (r : Result) × Run plain_user
      (nested_at plain_user message)
      (begin_progress plain_user message 16)
      (stream message_bytes 11)
      (loop_store plain_user message 16 ones)
      tags
      r
    × (pb_decode plain_user message 16 (stream message_bytes 11) ones
        ≡ restore_count plain_user (pb_message_set_to_defaults message 16 ones.mem) r)
    × All (λ tag. Memᴰ tag tags) (take 64 (1 ∷ []))
pb_decode-required_example =
    pb_decode-required plain_user message 16 (stream message_bytes 11) ones (λ e. ground arith)
      decodes

required_count_lem_example :
    required_count (pb_field_iter_next (iter_at message 16)).1
    ≡ min 64 (length (required_tags message))
required_count_lem_example =
    required_count_lem message (pb_field_iter_next (iter_at message 16)).1 refl
      (next-Indexed message (iter_at message 16) (iter_at-Indexed message 16))

all_seen-marks_example :
    (all_seen (marks (1 ∷ 0 ∷ 1 ∷ [])) 2 ≡ true) ↔ ((i : ℕ) → i < 2 → Memᴰ i (1 ∷ 0 ∷ 1 ∷ []))
all_seen-marks_example =
    all_seen-marks 2 (omega arith) (1 ∷ 0 ∷ 1 ∷ []) (omega arith, (omega arith, (omega arith, tt)))

-- Fields 0 to 32 are seen, but for the last.
one_missing : all_seen (2 ^ 32 - 1, 0) 33 ≡ false
unfolding all_seen
one_missing = refl

both_words : all_seen (2 ^ 32 - 1, 1) 33 ≡ true
unfolding all_seen
both_words = refl
