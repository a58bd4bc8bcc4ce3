-- ===== src/Nanopb/Required.antt =====
-- The part of pb_decode_noinit of Kasei/Pods/nanopb/pb_decode.c that counts the required fields: the
-- bits of `fields_seen`, and the check of them at the end of the message.
pub mod Seen
pub mod Marks
pub mod Index
use kaseiapp.Base.{ℕ, zero, suc, ◌+◌, ◌-◌, ◌/◌, ◌%◌, ◌^◌, bit_or, Bool, true, false, not, ◌&&◌}
use kaseiapp.Base.{ltb, ◌==◌, if◌then◌else◌}
use kaseiapp.Nanopb.Pb.{Htype, required}
use kaseiapp.Nanopb.Fields.{Fields, last, field, Iter, is_required, pb_field_iter_next}

-- `PB_MAX_REQUIRED_FIELDS`
abbrev pub max_required_fields : ℕ
max_required_fields = 64

-- `fields_seen[2]`
abbrev pub Words : Type 0
Words = ℕ × ℕ

abbrev pub none_seen : Words
none_seen = (0, 0)

abbrev pub word : Words → ℕ → ℕ
word (low, high) i = if i == 0 then low else high

abbrev pub or_word : ℕ → ℕ → Words → Words
or_word i tmp (low, high) = if i == 0 then (bit_or low tmp, high) else (low, bit_or high tmp)

-- `fields_seen[index >> 5] |= 1 << (index & 31)`
unfoldable pub set_seen : ℕ → Words → Words
set_seen index seen = or_word (index / 32) (2 ^ (index % 32)) seen

abbrev pub htype_at : Fields → Htype
htype_at last = required
htype_at (field info ptr rest) = info.htype

abbrev pub has_tag : Fields → Bool
has_tag last = false
has_tag (field info ptr rest) = not (info.tag == 0)

-- Notes the field at the iterator, if it is a required one.
unfoldable pub mark_seen : Iter → Words → Words
unfolding set_seen
mark_seen iter seen =
    if is_required (htype_at iter.pos) && ltb iter.required_field_index max_required_fields
    then set_seen iter.required_field_index seen
    else seen

abbrev pub stop_or_step : Iter → Bool × Iter → (Iter → ℕ × Htype × Iter) → ℕ × Htype × Iter
stop_or_step iter (true, next) k = k next
stop_or_step iter (false, next) k = (iter.required_field_index, htype_at iter.pos, next)

-- `do { ... } while (pb_field_iter_next(&iter))`: the index and the type of the last field, and the
-- iterator, which is back at the start. The fields from the position on are rounds enough.
unfoldable pub seek_end : ℕ → Iter → ℕ × Htype × Iter
unfolding pb_field_iter_next
seek_end zero iter = (iter.required_field_index, htype_at iter.pos, (pb_field_iter_next iter).1)
seek_end (suc rounds) iter = stop_or_step iter (pb_field_iter_next iter) (seek_end rounds)

abbrev pub counted_last : ℕ × Htype × Iter → ℕ
counted_last (index, last_type, iter) =
    if is_required last_type && has_tag iter.pos then index + 1 else index

abbrev pub at_most : ℕ → ℕ → ℕ
at_most bound n = if ltb bound n then bound else n

abbrev pub allbits : ℕ
allbits = 2 ^ 32 - 1

-- The words below the `n`th have all bits set.
unfoldable pub words_full : Words → ℕ → Bool
words_full seen zero = true
words_full seen (suc n) = words_full seen n && (word seen n == allbits)

-- The words that are full, and the bits of the last one: no others are set there.
unfoldable pub all_seen : Words → ℕ → Bool
unfolding words_full
all_seen seen count =
    words_full seen (count / 32)
    && (if count % 32 == 0 then true else word seen (count / 32) == allbits / 2 ^ (32 - count % 32))
