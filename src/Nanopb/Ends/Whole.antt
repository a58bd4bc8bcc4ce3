-- ===== src/Nanopb/Ends/Whole.antt =====
-- The ends of pb_decode_noinit, the decoders of extensions, pb_decode and its variants of
-- Kasei/Pods/nanopb/pb_decode.c.
use kaseiapp.Base.{ℕ, zero, suc, ◌-◌, ◌≤◌, arith, Bool, true, false, Option}
use kaseiapp.Base.{leb, ◌==◌, if-holds}
use kaseiapp.Base.Memory.{Memory}
use kaseiapp.Nanopb.Pb.{FieldInfo, wrong_fixed_count, missing_required_field}
use kaseiapp.Nanopb.Istream.{Istream}
use kaseiapp.Nanopb.Read.{TagRead, found, failed, pb_decode_tag, pb_skip_field}
use kaseiapp.Nanopb.Read.Takes.{pb_skip_field-Takes, TookTag, pb_decode_tag-TookTag}
use kaseiapp.Nanopb.Fields.{
  Fields, last, field, Ptr, null, value, submsg, chain, Extensions, no_more, linked, Iter,
  remaining, pb_field_iter_find, found_address, iter_from_extension,
}
use kaseiapp.Nanopb.Store.{Store, good, bad, hangs, Result, Step, put, User}
use kaseiapp.Nanopb.Item.{Sub}
use kaseiapp.Nanopb.Required.{all_seen}
use kaseiapp.Nanopb.Progress.{Progress, wrong_count, required_count, check_required, finish_message}
use kaseiapp.Nanopb.Decode.{
  Nested, noted, decode_counted, decode_known, skip, handled_or_skip, try_extensions,
  decode_unknown, after_find, after_tag, decode_loop, begin_progress, restore_count, noinit_by,
  release_on_failure, decode_by, default_extension_decoder, unless_taken, nested_at, sub_decoder,
  decode_extension, decode_chain, pb_decode_noinit, pb_decode, pb_decode_delimited,
}
use kaseiapp.Nanopb.Ends.{
  Ended, Ends, succeed-Ends, fail-Ends, writing-Ends, looking-Ends, if-Ends, >>-Ends, later-Ended,
  UserEnds,
}
use kaseiapp.Nanopb.Ends.Item.{SubEnds, no_sub, both, in_substream-Ends}
use kaseiapp.Nanopb.Ends.Callback.{decode_field-Ends}
use kaseiapp.Nanopb.Ends.UpTo.{
  EndsUpTo, looking-EndsUpTo, if-EndsUpTo, >>-EndsUpTo, reading-EndsUpTo, count_fixed-EndsUpTo,
}

finish-Ends : (pr : Progress) → Ends 0 (finish_message pr)
unfolding finish_message check_required
finish-Ends pr = looking-Ends _ λ mem.
    if-Ends (wrong_count pr.fixed_count_field mem) (fail-Ends 0 wrong_fixed_count) (
      if-Ends (all_seen pr.fields_seen (required_count pr.iter)) succeed-Ends
        (fail-Ends 0 missing_required_field))

-- What the descriptors at a position lead to ends.
record NestedEnds (nested : Nested) : Type 0 where
  sub : SubEnds nested.sub
  extensions : (tag wire_type : ℕ) → Ends 0 (nested.extensions tag wire_type)

module _ (user : User) (ends : UserEnds user) where
  module _ (nested : ℕ → Nested) (nested_ends : (position : ℕ) → NestedEnds (nested position)) where
    module _ {bound : ℕ} (k : Progress → Step) (hk : (pr : Progress) → EndsUpTo bound (k pr)) where
      known-EndsUpTo :
          (wire_type : ℕ) (pr : Progress) → EndsUpTo bound (decode_known user nested wire_type pr k)
      unfolding decode_known
      known-EndsUpTo wire_type pr =
          count_fixed-EndsUpTo pr (decode_counted user nested wire_type k) λ pr'.
            looking-EndsUpTo _ λ mem.
              >>-EndsUpTo _ _
                (decode_field-Ends user ends _ (λ position. (nested_ends position).sub) wire_type
                  pr'.iter)
                (hk (noted user mem pr'))

      skip-EndsUpTo : (wire_type : ℕ) (pr : Progress) → EndsUpTo bound (skip user wire_type (k pr))
      skip-EndsUpTo wire_type pr =
          reading-EndsUpTo (pb_skip_field wire_type) _ (pb_skip_field-Takes wire_type)
            (λ done. hk pr)

      handled-EndsUpTo :
          (bytes_left wire_type : ℕ) (pr : Progress)
          → EndsUpTo bound (handled_or_skip user bytes_left wire_type (k pr))
      handled-EndsUpTo bytes_left wire_type pr = record {
        at = λ s st le.
            if-holds (Ended 0 s.bytes_left) (s.bytes_left == bytes_left) _ _
              (λ e. (skip-EndsUpTo wire_type pr).at s st le) (λ e. (hk pr).at s st le);
      }

      try-EndsUpTo :
          (tag wire_type : ℕ) (pr : Progress)
          → EndsUpTo bound (try_extensions user nested tag wire_type pr k)
      try-EndsUpTo tag wire_type pr = record {
        at = λ s st le.
            if-holds (Ended 0 s.bytes_left) (leb pr.extension_range_start tag) _ _
              (λ e.
                (>>-EndsUpTo _ _ ((nested_ends (remaining pr.iter.pos)).extensions tag wire_type)
                    (handled-EndsUpTo s.bytes_left wire_type pr)).at
                  s st le)
              (λ e. (skip-EndsUpTo wire_type pr).at s st le);
      }

      unknown-EndsUpTo :
          (tag wire_type : ℕ) (pr : Progress)
          → EndsUpTo bound (decode_unknown user nested tag wire_type pr k)
      unfolding decode_unknown
      unknown-EndsUpTo tag wire_type pr =
          if-EndsUpTo (leb pr.extension_range_start tag) (try-EndsUpTo tag wire_type _)
            (skip-EndsUpTo wire_type pr)

      after_find-EndsUpTo :
          (tag wire_type : ℕ) (r : Bool × Iter) (pr : Progress)
          → EndsUpTo bound (after_find user nested tag wire_type r pr k)
      after_find-EndsUpTo tag wire_type (true, iter) pr = known-EndsUpTo wire_type _
      after_find-EndsUpTo tag wire_type (false, iter) pr = unknown-EndsUpTo tag wire_type _

      after_tag-Ended :
          (n : ℕ) (r : TagRead × Istream) (pr : Progress) (st : Store)
          → TookTag n r
          → n - 1 ≤ bound
          → Ended 0 n (after_tag user nested r pr k st)
      after_tag-Ended n (found wire_type tag, t) pr st h le = later-Ended 0 0 n t _ (omega arith) (
          (after_find-EndsUpTo tag wire_type (pb_field_iter_find tag pr.iter) pr).at t st
            (omega arith))
      after_tag-Ended n (failed true, t) pr st h le =
          later-Ended 0 0 n t _ (omega arith) ((finish-Ends pr).at t st)
      after_tag-Ended n (failed false, t) pr st h le = h

    loop-EndsUpTo :
        (rounds : ℕ) (pr : Progress) → EndsUpTo rounds (decode_loop user nested rounds pr)
    unfolding decode_loop
    loop-EndsUpTo zero pr = record {
      at = λ s st le.
          if-holds (Ended 0 s.bytes_left) (s.bytes_left == 0) _ _ (λ e. (finish-Ends pr).at s st)
            (λ e. ground arith);
    }
    loop-EndsUpTo (suc rounds) pr = record {
      at = λ s st le.
          if-holds (Ended 0 s.bytes_left) (s.bytes_left == 0) _ _ (λ e. (finish-Ends pr).at s st)
            (λ e.
              after_tag-Ended (decode_loop user nested rounds) (loop-EndsUpTo rounds) s.bytes_left
                (pb_decode_tag s) pr st (pb_decode_tag-TookTag s) (omega arith));
    }

    restored-Ended :
        (mem : Memory) (n : ℕ) (r : Result) → Ended 0 n r → Ended 0 n (restore_count user mem r)
    restored-Ended mem n (good, t, st) h = h
    restored-Ended mem n (bad, t, st) h = h
    restored-Ended mem n (hangs, t, st) h = h

    noinit_by-Ends : (fields : Fields) (dest : ℕ) → Ends 0 (noinit_by user nested fields dest)
    unfolding noinit_by
    noinit_by-Ends fields dest = record {
      at = λ s st.
          restored-Ended st.mem s.bytes_left _
            ((loop-EndsUpTo s.bytes_left (begin_progress user fields dest)).at s _ (omega arith));
    }

    released-Ended :
        (fields : Fields) (dest n : ℕ) (r : Result)
        → Ended 0 n r
        → Ended 0 n (release_on_failure user fields dest r)
    released-Ended fields dest n (good, t, st) h = h
    released-Ended fields dest n (bad, t, st) h = h
    released-Ended fields dest n (hangs, t, st) h = h

    decode_by-Ends : (fields : Fields) (dest : ℕ) → Ends 0 (decode_by user nested fields dest)
    unfolding decode_by
    decode_by-Ends fields dest = record {
      at = λ s st. released-Ended fields dest s.bytes_left _ ((noinit_by-Ends fields dest).at s _);
    }

  default_extension-Ends :
      (info : FieldInfo) (ptr : Ptr) (dest dest_member : ℕ) (sub : Option Sub) (tag wire_type : ℕ)
      → SubEnds sub
      → Ends 0 (default_extension_decoder user info ptr dest dest_member sub tag wire_type)
  unfolding default_extension_decoder
  default_extension-Ends info ptr dest dest_member sub tag wire_type h =
      if-Ends (info.tag == tag)
        (>>-Ends _ _ (writing-Ends (put (found_address dest_member) 1 1)) (
          decode_field-Ends user ends _ (λ position. h) wire_type
            (iter_from_extension info ptr dest dest_member)))
        succeed-Ends

  unless_taken-Ends :
      (bytes_left : ℕ) (next : Step) → Ends 0 next → Ends 0 (unless_taken user bytes_left next)
  unless_taken-Ends bytes_left next h = record {
    at = λ s st.
        if-holds (Ended 0 s.bytes_left) (s.bytes_left == bytes_left) _ _ (λ e. h.at s st)
          (λ e. omega arith);
  }

  mutual
    unfolding nested_at

    nested_at-Ends : (fields : Fields) (position : ℕ) → NestedEnds (nested_at user fields position)
    nested_at-Ends last position = record {
      sub = no_sub;
      extensions = λ tag wire_type. succeed-Ends;
    }
    nested_at-Ends (field info ptr rest) position =
        if-holds NestedEnds (position == suc (remaining rest)) _ _
          (λ e. record { sub = sub_decoder-Ends ptr; extensions = decode_extension-Ends ptr })
          (λ e. nested_at-Ends rest position)

    sub_decoder-Ends : (ptr : Ptr) → SubEnds (sub_decoder user ptr)
    sub_decoder-Ends null = no_sub
    sub_decoder-Ends (value a) = no_sub
    sub_decoder-Ends (submsg fields) =
        both _ (decode_by-Ends (nested_at user fields) (nested_at-Ends fields) fields)
          (noinit_by-Ends (nested_at user fields) (nested_at-Ends fields) fields)
    sub_decoder-Ends (chain exts) = no_sub

    decode_extension-Ends :
        (ptr : Ptr) (tag wire_type : ℕ) → Ends 0 (decode_extension user ptr tag wire_type)
    decode_extension-Ends null tag wire_type = succeed-Ends
    decode_extension-Ends (value a) tag wire_type = succeed-Ends
    decode_extension-Ends (submsg fields) tag wire_type = succeed-Ends
    decode_extension-Ends (chain exts) tag wire_type = record {
      at = λ s st. (decode_chain-Ends exts s.bytes_left tag wire_type).at s st;
    }

    decode_chain-Ends :
        (exts : Extensions) (bytes_left tag wire_type : ℕ)
        → Ends 0 (decode_chain user exts bytes_left tag wire_type)
    decode_chain-Ends no_more bytes_left tag wire_type = succeed-Ends
    decode_chain-Ends (linked encode decode info ptr dest dest_member next) bytes_left tag
          wire_type =
        >>-Ends _ _
          (if-Ends (decode == 0)
            (default_extension-Ends info ptr dest dest_member (sub_decoder user ptr) tag wire_type
              (sub_decoder-Ends ptr))
            (ends.extension_decoders decode dest_member tag wire_type))
          (unless_taken-Ends bytes_left _ (decode_chain-Ends next bytes_left tag wire_type))

  pub pb_decode_noinit-Ends :
      (fields : Fields) (dest : ℕ) → Ends 0 (pb_decode_noinit user fields dest)
  unfolding pb_decode_noinit
  pb_decode_noinit-Ends fields dest =
      noinit_by-Ends (nested_at user fields) (nested_at-Ends fields) fields dest

  -- pb_decode of any message into any memory returns, true or false, and gives no bytes back to the
  -- stream, whatever the allocator does; user callbacks and decoders of extensions return and give no
  -- bytes back, and a callback that succeeds takes a byte, if there is one.
  pub pb_decode-Ends : (fields : Fields) (dest : ℕ) → Ends 0 (pb_decode user fields dest)
  unfolding pb_decode
  pb_decode-Ends fields dest =
      decode_by-Ends (nested_at user fields) (nested_at-Ends fields) fields dest

  -- pb_decode_delimited returns, and takes a byte at least where it succeeds and there is one; user
  -- functions are as for pb_decode.
  pub pb_decode_delimited-Ends :
      (fields : Fields) (dest : ℕ) → Ends 1 (pb_decode_delimited user fields dest)
  unfolding pb_decode_delimited
  pb_decode_delimited-Ends fields dest =
      in_substream-Ends (pb_decode user fields dest) (pb_decode-Ends fields dest)
