-- ===== src/Nanopb/DecodeCallback.antt =====
-- decode_callback_field, decode_field and pb_release_union_field of Kasei/Pods/nanopb/pb_decode.c.
use kaseiapp.Base.{ℕ, zero, suc, ◌+◌, Bool, true, false, ◌&&◌, ◌||◌}
use kaseiapp.Base.{Option, List, ◌==◌, if◌then◌else◌, get_or, length}
use kaseiapp.Base.Memory.{Memory, load}
use kaseiapp.Nanopb.Pb.{
  FieldInfo, Atype, static, pointer, callback, invalid, invalid_field_type, callback_failed,
  invalid_union_tag, iterator_error,
}
use kaseiapp.Nanopb.Pb.WireType
use kaseiapp.Nanopb.Istream.{Istream, pb_istream_from_buffer}
use kaseiapp.Nanopb.Read.{pb_skip_field, read_raw_value, pb_make_string_substream}
use kaseiapp.Nanopb.Fields.{Fields, last, field, Ptr, Iter, is_oneof, remaining, pb_field_iter_find}
use kaseiapp.Nanopb.Store.{
  Store, good, bad, hangs, Result, Step, succeed, fail, ◌>>◌, reading, looking, User,
}
use kaseiapp.Nanopb.Item.{Sub, close_after, pb_dec_bool, decoder_for}
use kaseiapp.Nanopb.Release.{release_single}
use kaseiapp.Nanopb.DecodeField.{decode_static_field, decode_pointer_field}

abbrev pub is_empty : Istream → Bool
is_empty s = s.bytes_left == 0

-- `do { if (!decode(&substream, ...)) ... } while (substream.bytes_left)`
unfoldable pub callback_loop : Step → ℕ → Step
callback_loop call zero sub st = (hangs, sub, st)
callback_loop call (suc rounds) sub st =
    let more = callback_loop call rounds in
    (call >> λ sub' st'. if is_empty sub' then succeed sub' st' else more sub' st') sub st

-- A failure of the callback leaves the substream open.
abbrev pub callback_end : Istream → Result → Result
callback_end s (good, sub, st) = close_after s (good, sub, st)
callback_end s (bad, sub, st) = fail callback_failed s st
callback_end s (hangs, sub, st) = (hangs, s, st)

-- A callback that takes a byte or more in each call ends the loop in `bytes_left` rounds; one round
-- more is for the empty substream.
unfoldable pub callback_string : Step → Step
unfolding callback_loop
callback_string call =
    reading pb_make_string_substream
      λ sub s st. callback_end s (callback_loop call (suc sub.bytes_left) sub st)

-- The `buffer` of 10 bytes on the stack, as the memory of a stream.
abbrev pub buffer_of : List ℕ → Istream
buffer_of bs = pb_istream_from_buffer (λ a. get_or bs a 0) 0 (length bs)

abbrev pub back_to : Istream → Result → Result
back_to s (status, sub, st) = (status, s, st)

unfoldable pub callback_scalar : Step → ℕ → Step
callback_scalar call wire_type =
    reading (read_raw_value wire_type 10) λ bs s st. back_to s (call (buffer_of bs) st)

-- `funcs.decode` at the address of the pb_callback_t, and `arg` behind it.
unfoldable pub decode_callback_field : User → FieldInfo → ℕ → ℕ → Step
unfolding callback_string callback_scalar
decode_callback_field user info wire_type p = looking λ mem.
    let call = user.callbacks (load mem p 8) info (p + 8) in
    if (p == 0) || (load mem p 8 == 0)
    then reading (pb_skip_field wire_type) (λ done. succeed)
    else if wire_type == WireType.string
    then callback_string call
    else callback_scalar call wire_type

abbrev pub by_allocation : User → FieldInfo → Ptr → (ℕ → Step) → ℕ → ℕ → ℕ → Atype → Step
by_allocation user info ptr func wire_type p z static =
    decode_static_field info ptr func wire_type p z
by_allocation user info ptr func wire_type p z pointer =
    decode_pointer_field user info ptr func wire_type p z
by_allocation user info ptr func wire_type p z callback =
    decode_callback_field user info wire_type p
by_allocation user info ptr func wire_type p z invalid = fail invalid_field_type

abbrev pub tag_at : Fields → ℕ
tag_at last = 0
tag_at (field info ptr rest) = info.tag

abbrev pub oneof_at : Fields → Bool
oneof_at last = false
oneof_at (field info ptr rest) = is_oneof info.htype

-- pb_release_single_field at an iterator.
abbrev pub release_at : User → Iter → Fields → Store → Store
release_at user iter last st = st
release_at user iter (field info ptr rest) st =
    release_single user info ptr iter.data_at iter.size_at st

-- Whether the `which_` member has the tag of another field, whose data has to be released.
abbrev pub holds_other : Memory → Iter → Bool
holds_other mem iter =
    let old_tag = load mem iter.size_at 4 in
    if (old_tag == 0) || (old_tag == tag_at iter.pos) then false else true

abbrev pub after_restore : Bool × Iter → (Iter → Step) → Step
after_restore (true, iter) k = k iter
after_restore (false, iter) k = fail iterator_error

abbrev pub after_find_old : User → ℕ → Bool × Iter → (Iter → Step) → Step
after_find_old user new_tag (true, iter) k s st =
    after_restore (pb_field_iter_find new_tag iter) k s (release_at user iter iter.pos st)
after_find_old user new_tag (false, iter) k s st = fail invalid_union_tag s st

-- What follows is given the iterator, which comes back to the field by its tag.
unfoldable pub pb_release_union_field : User → Iter → (Iter → Step) → Step
unfolding release_single
pb_release_union_field user iter k = looking λ mem.
    if holds_other mem iter
    then after_find_old user (tag_at iter.pos) (pb_field_iter_find (load mem iter.size_at 4) iter) k
    else k iter

-- The iterator after pb_release_union_field: the search for the old tag, and back.
unfoldable pub iter_after_release : Memory → Iter → Iter
iter_after_release mem iter =
    if oneof_at iter.pos && holds_other mem iter
    then (pb_field_iter_find (tag_at iter.pos)
        (pb_field_iter_find (load mem iter.size_at 4) iter).1).1
    else iter

-- PB_LAST_FIELD has the type 0, a required bool: the position of an empty message, at the tag 0.
abbrev pub decode_at : User → (ℕ → Option Sub) → ℕ → Iter → Fields → Step
decode_at user sub_at wire_type iter last = pb_dec_bool iter.data_at
decode_at user sub_at wire_type iter (field info ptr rest) =
    by_allocation user info ptr (decoder_for user info (sub_at (suc (remaining rest))) info.ltype)
      wire_type iter.data_at iter.size_at info.atype

-- `sub_at` has the decoders of the submessage of each position, by the fields from it on.
unfoldable pub decode_field : User → (ℕ → Option Sub) → ℕ → Iter → Step
unfolding pb_release_union_field decode_static_field decode_pointer_field decode_callback_field
    decoder_for
decode_field user sub_at wire_type iter =
    if oneof_at iter.pos
    then pb_release_union_field user iter (λ it. decode_at user sub_at wire_type it it.pos)
    else decode_at user sub_at wire_type iter iter.pos
