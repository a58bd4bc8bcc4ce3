-- ===== src/Nanopb/Decode.antt =====
-- The decoders of extensions, pb_decode_noinit, pb_decode and pb_decode_delimited of
-- Kasei/Pods/nanopb/pb_decode.c.
mod Tests
pub mod Passes
pub mod Run
pub mod Advanced
pub mod Ran
pub mod Complete
use kaseiapp.Base.{ℕ, zero, suc, ◌-◌, ◌^◌, Bool, true, false}
use kaseiapp.Base.{Option, none, some, leb, ◌==◌, if◌then◌else◌}
use kaseiapp.Base.Memory.{Memory, load}
use kaseiapp.Nanopb.Pb.{FieldInfo}
use kaseiapp.Nanopb.Istream.{Istream}
use kaseiapp.Nanopb.Read.{TagRead, found, failed, pb_decode_tag, pb_skip_field}
use kaseiapp.Nanopb.Fields.{
  Fields, last, field, Ptr, null, value, submsg, chain, Extensions, no_more, linked, Iter,
  remaining, found_address, iter_from_extension, iter_at, pb_field_iter_find,
}
use kaseiapp.Nanopb.Store.{
  Store, good, bad, hangs, Result, Step, succeed, ◌>>◌, reading, writing, looking, put, User,
}
use kaseiapp.Nanopb.Item.{Sub, in_substream}
use kaseiapp.Nanopb.Default.{pb_message_set_to_defaults}
use kaseiapp.Nanopb.Release.{pb_release}
use kaseiapp.Nanopb.DecodeCallback.{tag_at, decode_field, iter_after_release}
use kaseiapp.Nanopb.Required.{none_seen, mark_seen}
use kaseiapp.Nanopb.Progress.{
  Progress, find_extension_field, fixed_count_at, count_fixed, finish_message,
}

-- What the `ptr` of a field leads to: the decoders of a submessage, or that of an unknown field by the
-- extensions at a placeholder, which takes the tag and the wire type.
pub record Nested : Type 0 where
  pub sub : Option Sub
  pub extensions : ℕ → ℕ → Step

module _ (user : User) where
  -- The field is noted, and the iterator is where decode_field leaves it.
  abbrev pub noted : Memory → Progress → Progress
  noted mem pr = record pr {
    iter = iter_after_release mem pr.iter;
    fields_seen = mark_seen pr.iter pr.fields_seen;
  }

  -- A field of the message, whose counter is known.
  abbrev pub decode_counted : (ℕ → Nested) → ℕ → (Progress → Step) → Progress → Step
  decode_counted nested wire_type k pr = looking λ mem.
      decode_field user (λ position. (nested position).sub) wire_type pr.iter >> k (noted mem pr)

  unfoldable pub decode_known : (ℕ → Nested) → ℕ → Progress → (Progress → Step) → Step
  unfolding decode_field mark_seen iter_after_release put
  decode_known nested wire_type pr k = count_fixed pr (decode_counted nested wire_type k)

  abbrev pub skip : ℕ → Step → Step
  skip wire_type k = reading (pb_skip_field wire_type) (λ done. k)

  -- The field was handled if bytes were taken.
  abbrev pub handled_or_skip : ℕ → ℕ → Step → Step
  handled_or_skip bytes_left wire_type k s st =
      if s.bytes_left == bytes_left then skip wire_type k s st else k s st

  abbrev pub try_extensions : (ℕ → Nested) → ℕ → ℕ → Progress → (Progress → Step) → Step
  try_extensions nested tag wire_type pr k s st =
      if leb pr.extension_range_start tag
      then ((nested (remaining pr.iter.pos)).extensions tag wire_type
            >> handled_or_skip s.bytes_left wire_type (k pr))
          s st
      else skip wire_type (k pr) s st

  abbrev pub range_start : Bool × Iter → Progress → Progress
  range_start (true, iter) pr = record pr { iter = iter; extension_range_start = tag_at iter.pos }
  range_start (false, iter) pr = record pr { iter = iter; extension_range_start = 2 ^ 32 - 1 }

  -- A tag that the fields do not have.
  unfoldable pub decode_unknown : (ℕ → Nested) → ℕ → ℕ → Progress → (Progress → Step) → Step
  unfolding find_extension_field
  decode_unknown nested tag wire_type pr k =
      if leb pr.extension_range_start tag
      then try_extensions nested tag wire_type (range_start (find_extension_field pr.iter) pr) k
      else skip wire_type (k pr)

  abbrev pub after_find : (ℕ → Nested) → ℕ → ℕ → Bool × Iter → Progress → (Progress → Step) → Step
  after_find nested tag wire_type (true, iter) pr k =
      decode_known nested wire_type (record pr { iter = iter }) k
  after_find nested tag wire_type (false, iter) pr k =
      decode_unknown nested tag wire_type (record pr { iter = iter }) k

  abbrev pub after_tag :
      (ℕ → Nested) → TagRead × Istream → Progress → (Progress → Step) → Store → Result
  after_tag nested (failed true, s) pr k st = finish_message pr s st
  after_tag nested (failed false, s) pr k st = (bad, s, st)
  after_tag nested (found wire_type tag, s) pr k st =
      after_find nested tag wire_type (pb_field_iter_find tag pr.iter) pr k s st

  -- The while loop of pb_decode_noinit, and the checks that follow it. A tag takes a byte at least, so
  -- `bytes_left` rounds are enough.
  unfoldable pub decode_loop : (ℕ → Nested) → ℕ → Progress → Step
  unfolding decode_known decode_unknown finish_message
  decode_loop nested zero pr s st =
      if s.bytes_left == 0 then finish_message pr s st else (hangs, s, st)
  decode_loop nested (suc rounds) pr s st =
      let next = after_tag nested (pb_decode_tag s) pr (decode_loop nested rounds) st in
      if s.bytes_left == 0 then finish_message pr s st else next

  abbrev pub begin_progress : Fields → ℕ → Progress
  begin_progress fields dest = record {
    iter = iter_at fields dest;
    extension_range_start = 0;
    fixed_count_field = none;
    fields_seen = none_seen;
  }

  -- The counter is a local variable: the caller's is kept.
  abbrev pub restore_count : Memory → Result → Result
  restore_count before (status, s, st) =
      (status, s, record st { mem = put fixed_count_at 4 (load before fixed_count_at 4) st.mem })

  unfoldable pub noinit_by : (ℕ → Nested) → Fields → ℕ → Step
  unfolding decode_loop put
  noinit_by nested fields dest s st = restore_count st.mem (
      (writing (put fixed_count_at 4 0)
          >> decode_loop nested s.bytes_left (begin_progress fields dest))
        s st)

  abbrev pub release_on_failure : Fields → ℕ → Result → Result
  release_on_failure fields dest (good, s, st) = (good, s, st)
  release_on_failure fields dest (bad, s, st) = (bad, s, pb_release user fields dest st)
  release_on_failure fields dest (hangs, s, st) = (hangs, s, st)

  unfoldable pub decode_by : (ℕ → Nested) → Fields → ℕ → Step
  unfolding noinit_by pb_message_set_to_defaults pb_release
  decode_by nested fields dest s st =
      release_on_failure fields dest
        ((writing (pb_message_set_to_defaults fields dest) >> noinit_by nested fields dest) s st)

  -- default_extension_decoder.
  unfoldable pub default_extension_decoder : FieldInfo → Ptr → ℕ → ℕ → Option Sub → ℕ → ℕ → Step
  unfolding decode_field put
  default_extension_decoder info ptr dest dest_member sub tag wire_type =
      if info.tag == tag
      then writing (put (found_address dest_member) 1 1)
        >> decode_field user (λ position. sub) wire_type
            (iter_from_extension info ptr dest dest_member)
      else succeed

  abbrev pub unless_taken : ℕ → Step → Step
  unless_taken bytes_left next s st = if s.bytes_left == bytes_left then next s st else succeed s st

  abbrev pub nest : Option Sub → (ℕ → ℕ → Step) → Nested
  nest sub extensions = record { sub = sub; extensions = extensions }

  -- The descriptors of each position, by the fields from it on.
  unfoldable mutual
    unfolding noinit_by decode_by default_extension_decoder

    pub nested_at : Fields → ℕ → Nested
    nested_at last position = nest none (λ tag wire_type. succeed)
    nested_at (field info ptr rest) position =
        let later = nested_at rest position in
        let here = nest (sub_decoder ptr) (decode_extension ptr) in
        if position == suc (remaining rest) then here else later

    pub sub_decoder : Ptr → Option Sub
    sub_decoder null = none
    sub_decoder (value a) = none
    sub_decoder (submsg fields) = some (record {
      whole = decode_by (nested_at fields) fields;
      noinit = noinit_by (nested_at fields) fields;
    })
    sub_decoder (chain exts) = none

    pub decode_extension : Ptr → ℕ → ℕ → Step
    decode_extension null tag wire_type = succeed
    decode_extension (value a) tag wire_type = succeed
    decode_extension (submsg fields) tag wire_type = succeed
    decode_extension (chain exts) tag wire_type =
        λ s. decode_chain exts s.bytes_left tag wire_type s

    -- The loop of decode_extension, while no byte is taken.
    pub decode_chain : Extensions → ℕ → ℕ → ℕ → Step
    decode_chain no_more bytes_left tag wire_type = succeed
    decode_chain (linked encode decode info ptr dest dest_member next) bytes_left tag wire_type =
        let more = decode_chain next bytes_left tag wire_type in
        let by_default =
          default_extension_decoder info ptr dest dest_member (sub_decoder ptr) tag wire_type in
        (if decode == 0
          then by_default
          else user.extension_decoders decode dest_member tag wire_type)
        >> unless_taken bytes_left more

  unfoldable pub pb_decode_noinit : Fields → ℕ → Step
  unfolding nested_at noinit_by
  pb_decode_noinit fields dest = noinit_by (nested_at fields) fields dest

  unfoldable pub pb_decode : Fields → ℕ → Step
  unfolding nested_at decode_by
  pb_decode fields dest = decode_by (nested_at fields) fields dest

  unfoldable pub pb_decode_delimited_noinit : Fields → ℕ → Step
  unfolding pb_decode_noinit
  pb_decode_delimited_noinit fields dest = in_substream (pb_decode_noinit fields dest)

  unfoldable pub pb_decode_delimited : Fields → ℕ → Step
  unfolding pb_decode
  pb_decode_delimited fields dest = in_substream (pb_decode fields dest)

  unfoldable pub pb_decode_nullterminated : Fields → ℕ → Step
  unfolding pb_decode
  pb_decode_nullterminated = pb_decode
