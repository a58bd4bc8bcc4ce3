-- ===== src/Nanopb/Ends/Callback.antt =====
-- The ends of decode_callback_field, pb_release_union_field and decode_field of
-- Kasei/Pods/nanopb/pb_decode.c.
use kaseiapp.Base.{ℕ, zero, suc, ◌+◌, ◌<◌, arith, Bool, true, false, ◌||◌}
use kaseiapp.Base.{Option, ◌==◌, if-holds}
use kaseiapp.Base.Memory.{load}
use kaseiapp.Nanopb.Pb.{
  FieldInfo, Atype, static, pointer, callback, invalid, invalid_field_type, invalid_union_tag,
  iterator_error,
}
use kaseiapp.Nanopb.Pb.WireType
use kaseiapp.Nanopb.Istream.{Istream}
use kaseiapp.Nanopb.Read.{pb_skip_field, read_raw_value}
use kaseiapp.Nanopb.Read.Takes.{pb_skip_field-Takes, read_raw_value-Takes}
use kaseiapp.Nanopb.Fields.{Fields, last, field, Ptr, Iter, remaining, pb_field_iter_find}
use kaseiapp.Nanopb.Store.{Store, good, bad, hangs, Result, Step, User}
use kaseiapp.Nanopb.Item.{Sub}
use kaseiapp.Nanopb.DecodeCallback.{
  is_empty, callback_loop, callback_end, callback_string, buffer_of, back_to, callback_scalar,
  decode_callback_field, by_allocation, tag_at, release_at, after_restore, after_find_old,
  pb_release_union_field, decode_at, decode_field,
}
use kaseiapp.Nanopb.Ends.{
  Ended, Ends, succeed-Ends, fail-Ends, looking-Ends, if-Ends, fewer-Ends, fewer-Ended,
  reading-Ends, after-Ended, UserEnds,
}
use kaseiapp.Nanopb.Ends.Item.{
  close_after-Ended, substream-Ends, SubEnds, dec_bool-Ends, decoder_for-Ends,
}
use kaseiapp.Nanopb.Ends.Field.{decode_static_field-Ends, decode_pointer_field-Ends}

callback_end-Ended :
    (n : ℕ) (s : Istream) (r : Result) → Ended 0 n r → Ended 0 s.bytes_left (callback_end s r)
callback_end-Ended n s (good, sub, st) h = close_after-Ended n s (good, sub, st) h
callback_end-Ended n s (bad, sub, st) h = omega arith
callback_end-Ended n s (hangs, sub, st) h = h

back_to-Ended :
    (n : ℕ) (s : Istream) (r : Result) → Ended 1 n r → Ended 0 s.bytes_left (back_to s r)
back_to-Ended n s (good, sub, st) h = omega arith
back_to-Ended n s (bad, sub, st) h = omega arith
back_to-Ended n s (hangs, sub, st) h = h

module _ (call : Step) (h : Ends 1 call) where
  callback_loop-Ended :
      (rounds : ℕ) (sub : Istream) (st : Store)
      → sub.bytes_left < rounds
      → Ended 0 sub.bytes_left (callback_loop call rounds sub st)
  unfolding callback_loop
  callback_loop-Ended zero sub st lt = absurd (omega arith)
  callback_loop-Ended (suc rounds) sub st lt = fewer-Ended 1 0 sub.bytes_left _ (omega arith) (
      after-Ended 1 0 sub.bytes_left (call sub st) _ (h.at sub st) λ t st' le.
        if-holds (Ended 0 t.bytes_left) (is_empty t) _ _ (λ e. omega arith)
          (λ e. callback_loop-Ended rounds t st' (ground arith)))

  callback_string-Ends : Ends 1 (callback_string call)
  unfolding callback_string
  callback_string-Ends = substream-Ends _ λ sub s st.
      callback_end-Ended sub.bytes_left s (callback_loop call (suc sub.bytes_left) sub st)
        (callback_loop-Ended (suc sub.bytes_left) sub st (omega arith))

  callback_scalar-Ends : (wire_type : ℕ) → Ends 0 (callback_scalar call wire_type)
  unfolding callback_scalar
  callback_scalar-Ends wire_type =
      reading-Ends (read_raw_value wire_type 10) _ (read_raw_value-Takes wire_type 10) λ bs.
        record {
          at = λ s st.
              back_to-Ended (buffer_of bs).bytes_left s (call (buffer_of bs) st)
                (h.at (buffer_of bs) st);
        }

module _ (user : User) (ends : UserEnds user) where
  callback_field-Ends :
      (info : FieldInfo) (wire_type p : ℕ) → Ends 0 (decode_callback_field user info wire_type p)
  unfolding decode_callback_field
  callback_field-Ends info wire_type p = looking-Ends _ λ mem.
      if-Ends ((p == 0) || (load mem p 8 == 0))
        (reading-Ends (pb_skip_field wire_type) _ (pb_skip_field-Takes wire_type)
          (λ done. succeed-Ends))
        (if-Ends (wire_type == WireType.string)
          (fewer-Ends 0 (omega arith)
            (callback_string-Ends _ (ends.callbacks (load mem p 8) info (p + 8))))
          (callback_scalar-Ends _ (ends.callbacks (load mem p 8) info (p + 8)) wire_type))

  by_allocation-Ends :
      (info : FieldInfo) (ptr : Ptr) (func : ℕ → Step) (wire_type p z : ℕ) (atype : Atype)
      → ((q : ℕ) → Ends 1 (func q))
      → Ends 0 (by_allocation user info ptr func wire_type p z atype)
  by_allocation-Ends info ptr func wire_type p z static h =
      fewer-Ends 0 (omega arith) (decode_static_field-Ends info ptr func h wire_type p z)
  by_allocation-Ends info ptr func wire_type p z pointer h =
      fewer-Ends 0 (omega arith) (decode_pointer_field-Ends info ptr func h user wire_type p z)
  by_allocation-Ends info ptr func wire_type p z callback h = callback_field-Ends info wire_type p
  by_allocation-Ends info ptr func wire_type p z invalid h = fail-Ends 0 invalid_field_type

  module _ (k : Iter → Step) (h : (iter : Iter) → Ends 0 (k iter)) where
    after_restore-Ends : (r : Bool × Iter) → Ends 0 (after_restore r k)
    after_restore-Ends (true, iter) = h iter
    after_restore-Ends (false, iter) = fail-Ends 0 iterator_error

    after_find_old-Ends : (new_tag : ℕ) (r : Bool × Iter) → Ends 0 (after_find_old user new_tag r k)
    after_find_old-Ends new_tag (true, iter) = record {
      at = λ s st.
          (after_restore-Ends (pb_field_iter_find new_tag iter)).at s
            (release_at user iter iter.pos st);
    }
    after_find_old-Ends new_tag (false, iter) = fail-Ends 0 invalid_union_tag

    release_union-Ends : (iter : Iter) → Ends 0 (pb_release_union_field user iter k)
    unfolding pb_release_union_field
    release_union-Ends iter = looking-Ends _ λ mem.
        if-Ends _
          (after_find_old-Ends (tag_at iter.pos)
            (pb_field_iter_find (load mem iter.size_at 4) iter))
          (h iter)

  module _ (sub_at : ℕ → Option Sub) (subs : (position : ℕ) → SubEnds (sub_at position)) where
    decode_at-Ends :
        (wire_type : ℕ) (iter : Iter) (pos : Fields)
        → Ends 0 (decode_at user sub_at wire_type iter pos)
    decode_at-Ends wire_type iter last = fewer-Ends 0 (omega arith) (dec_bool-Ends iter.data_at)
    decode_at-Ends wire_type iter (field info ptr rest) =
        by_allocation-Ends info ptr _ wire_type iter.data_at iter.size_at info.atype λ q.
          decoder_for-Ends user info (sub_at (suc (remaining rest))) info.ltype q
            (subs (suc (remaining rest)))

    pub decode_field-Ends :
        (wire_type : ℕ) (iter : Iter) → Ends 0 (decode_field user sub_at wire_type iter)
    unfolding decode_field
    decode_field-Ends wire_type iter =
        if-Ends _ (release_union-Ends _ (λ it. decode_at-Ends wire_type it it.pos) iter)
          (decode_at-Ends wire_type iter iter.pos)
