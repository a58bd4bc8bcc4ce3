-- ===== src/Nanopb/Keeps/Whole.antt =====
-- The memory that pb_decode_noinit and pb_decode of Kasei/Pods/nanopb/pb_decode.c write, for messages
-- whose fields are in the struct itself.
use kaseiapp.Base.{ℕ, zero, suc, ◌≡◌, refl, ap, ◌∙◌, Bool, true, false, not, ◌&&◌}
use kaseiapp.Base.{leb, ◌==◌, if-holds}
use mathlib.Core.Bool.{true≢false}
use kaseiapp.Base.Memory.{Memory}
use kaseiapp.Nanopb.Pb.{FieldInfo, wrong_fixed_count, missing_required_field}
use kaseiapp.Nanopb.Istream.{Istream}
use kaseiapp.Nanopb.Read.{TagRead, found, failed, pb_decode_tag, pb_skip_field}
use kaseiapp.Nanopb.Fields.{
  Fields, last, field, Ptr, null, value, submsg, chain, Iter, remaining, pb_field_iter_find,
  begin_data, size_address,
}
use kaseiapp.Nanopb.Store.{Store, good, bad, hangs, Result, Step, ◌>>◌, writing, put, User}
use kaseiapp.Nanopb.Default.{pb_message_set_to_defaults}
use kaseiapp.Nanopb.Required.{all_seen}
use kaseiapp.Nanopb.Progress.{
  Progress, fixed_count_at, wrong_count, is_same, is_fixed_count, count_fixed, required_count,
  check_required, finish_message, find_extension_field,
}
use kaseiapp.Nanopb.Decode.{
  noted, decode_counted, decode_known, skip, handled_or_skip, try_extensions, range_start,
  decode_unknown, after_find, after_tag, decode_loop, begin_progress, restore_count, noinit_by,
  release_on_failure, decode_by, nested_at, sub_decoder, pb_decode,
}
use kaseiapp.Nanopb.Keeps.{
  Keeps, Avoids, succeed-Keeps, fail-Keeps, writing-Keeps, looking-Keeps, if-Keeps, >>-Keeps,
  reading-Keeps, put-Keeps, put-Outside,
}
use kaseiapp.Nanopb.Keeps.Field.{SubKeeps, no_sub, both}
use kaseiapp.Nanopb.Keeps.Layout.{StructFits, AllPlain, PtrPlain, set_fields-kept, pb_release-same}
use kaseiapp.Nanopb.Keeps.Placed.{
  Placed, iter_at-Placed, find-Placed, find_extension-Placed, after_release-Placed, fixed-Placed,
}
use kaseiapp.Nanopb.Keeps.Dispatch.{AllSubs, extensions_at-Keeps, decode_field-Keeps}

finish-Keeps : {kept : ℕ → Type 0} (pr : Progress) → Keeps kept (finish_message pr)
unfolding finish_message check_required
finish-Keeps pr = looking-Keeps _ λ mem.
    if-Keeps (wrong_count pr.fixed_count_field mem) _ _ (λ e. fail-Keeps wrong_fixed_count)
      (λ e.
        if-Keeps (all_seen pr.fields_seen (required_count pr.iter)) _ _ (λ e'. succeed-Keeps)
          (λ e'. fail-Keeps missing_required_field))

repeated_of : (b c : Bool) → not (b && c) ≡ false → b ≡ true
repeated_of true c e = refl
repeated_of false c e = absurd (true≢false e)

module _ (user : User) (kept : ℕ → Type 0) (av : Avoids kept fixed_count_at 4) where
  module _ (fields : Fields) (plain : AllPlain kept fields) (subs : AllSubs user kept fields) where
    module _ (k : Progress → Step)
        (hk : (pr : Progress) → Placed kept fields pr.iter → Keeps kept (k pr)) where
      skip-Keeps :
          (wire_type : ℕ) (pr : Progress)
          → Placed kept fields pr.iter
          → Keeps kept (skip user wire_type (k pr))
      skip-Keeps wire_type pr h = reading-Keeps (pb_skip_field wire_type) _ (λ done. hk pr h)

      handled-Keeps :
          (bytes_left wire_type : ℕ) (pr : Progress)
          → Placed kept fields pr.iter
          → Keeps kept (handled_or_skip user bytes_left wire_type (k pr))
      handled-Keeps bytes_left wire_type pr h = record {
        at = λ s st a ka.
            if-holds (λ (r : Result). r.2.mem a ≡ st.mem a) (s.bytes_left == bytes_left) _ _
              (λ e. (skip-Keeps wire_type pr h).at s st a ka) (λ e. (hk pr h).at s st a ka);
      }

      try-Keeps :
          (tag wire_type : ℕ) (pr : Progress)
          → Placed kept fields pr.iter
          → Keeps kept (try_extensions user (nested_at user fields) tag wire_type pr k)
      try-Keeps tag wire_type pr h = record {
        at = λ s st a ka.
            if-holds (λ (r : Result). r.2.mem a ≡ st.mem a) (leb pr.extension_range_start tag) _ _
              (λ e.
                (>>-Keeps _ _
                    (extensions_at-Keeps user kept fields (remaining pr.iter.pos) tag wire_type
                      plain)
                    (handled-Keeps s.bytes_left wire_type pr h)).at
                  s st a ka)
              (λ e. (skip-Keeps wire_type pr h).at s st a ka);
      }

      range_start-Placed :
          (r : Bool × Iter) (pr : Progress)
          → Placed kept fields r.1
          → Placed kept fields (range_start user r pr).iter
      range_start-Placed (true, iter) pr h = h
      range_start-Placed (false, iter) pr h = h

      unknown-Keeps :
          (tag wire_type : ℕ) (pr : Progress)
          → Placed kept fields pr.iter
          → Keeps kept (decode_unknown user (nested_at user fields) tag wire_type pr k)
      unfolding decode_unknown
      unknown-Keeps tag wire_type pr h =
          if-Keeps (leb pr.extension_range_start tag) _ _
            (λ e. try-Keeps tag wire_type _ (
              range_start-Placed (find_extension_field pr.iter) pr
                (find_extension-Placed kept fields pr.iter h)))
            (λ e. skip-Keeps wire_type pr h)

      counted-Keeps :
          (pr : Progress) (g : Progress → Step)
          → ((pr' : Progress) → Placed kept fields pr'.iter → Keeps kept (g pr'))
          → Placed kept fields pr.iter
          → Keeps kept (count_fixed pr g)
      counted-Keeps pr g hg h =
          if-Keeps (not (is_fixed_count pr.iter)) _ _ (λ e. hg pr h)
            λ e.
              let moved = fixed-Placed kept fields pr.iter av (repeated_of _ _ e) h in
              if-Keeps (is_same pr.fixed_count_field (remaining pr.iter.pos)) _ _ (λ e'. hg _ moved)
                λ e'. looking-Keeps _ λ mem.
                  if-Keeps (wrong_count pr.fixed_count_field mem) _ _
                    (λ e''. fail-Keeps wrong_fixed_count)
                    (λ e''. >>-Keeps _ _ (put-Keeps fixed_count_at 4 0 av) (hg _ moved))

      known-Keeps :
          (wire_type : ℕ) (pr : Progress)
          → Placed kept fields pr.iter
          → Keeps kept (decode_known user (nested_at user fields) wire_type pr k)
      unfolding decode_known
      known-Keeps wire_type pr h =
          counted-Keeps pr (decode_counted user (nested_at user fields) wire_type k)
            (λ pr' h'. looking-Keeps _ λ mem.
              >>-Keeps _ _ (decode_field-Keeps user kept fields plain subs wire_type pr'.iter h')
                (hk (noted user mem pr') (after_release-Placed kept fields mem pr'.iter h')))
            h

      after_find-Keeps :
          (tag wire_type : ℕ) (r : Bool × Iter) (pr : Progress)
          → Placed kept fields r.1
          → Keeps kept (after_find user (nested_at user fields) tag wire_type r pr k)
      after_find-Keeps tag wire_type (true, iter) pr h = known-Keeps wire_type _ h
      after_find-Keeps tag wire_type (false, iter) pr h = unknown-Keeps tag wire_type _ h

      after_tag-Keeps :
          (r : TagRead × Istream) (pr : Progress) (st : Store) (a : ℕ)
          → Placed kept fields pr.iter
          → kept a
          → (after_tag user (nested_at user fields) r pr k st).2.mem a ≡ st.mem a
      after_tag-Keeps (found wire_type tag, t) pr st a h ka =
          (after_find-Keeps tag wire_type (pb_field_iter_find tag pr.iter) pr
              (find-Placed kept fields tag pr.iter h)).at
            t st a ka
      after_tag-Keeps (failed true, t) pr st a h ka = (finish-Keeps {kept = kept} pr).at t st a ka
      after_tag-Keeps (failed false, t) pr st a h ka = refl

    loop-Keeps :
        (rounds : ℕ) (pr : Progress)
        → Placed kept fields pr.iter
        → Keeps kept (decode_loop user (nested_at user fields) rounds pr)
    unfolding decode_loop
    loop-Keeps zero pr h = record {
      at = λ s st a ka.
          if-holds (λ (r : Result). r.2.mem a ≡ st.mem a) (s.bytes_left == 0) _ _
            (λ e. (finish-Keeps {kept = kept} pr).at s st a ka) (λ e. refl);
    }
    loop-Keeps (suc rounds) pr h = record {
      at = λ s st a ka.
          if-holds (λ (r : Result). r.2.mem a ≡ st.mem a) (s.bytes_left == 0) _ _
            (λ e. (finish-Keeps {kept = kept} pr).at s st a ka)
            (λ e.
              after_tag-Keeps (decode_loop user (nested_at user fields) rounds) (loop-Keeps rounds)
                (pb_decode_tag s) pr st a h ka);
    }

    restored-kept :
        (mem : Memory) (r : Result) (a : ℕ)
        → kept a
        → (restore_count user mem r).2.mem a ≡ r.2.mem a
    restored-kept mem (status, s, st) a ka = put-Outside fixed_count_at 4 _ st.mem a (av a ka)

    noinit_by-Keeps :
        (dest : ℕ)
        → StructFits kept fields dest
        → Keeps kept (noinit_by user (nested_at user fields) fields dest)
    unfolding noinit_by
    noinit_by-Keeps dest fits = record {
      at = λ s st a ka.
          restored-kept st.mem
            ((writing (put fixed_count_at 4 0)
                >> decode_loop user (nested_at user fields) s.bytes_left
                    (begin_progress user fields dest))
              s st)
            a ka
          ∙ (>>-Keeps _ _ (put-Keeps fixed_count_at 4 0 av) (
                loop-Keeps s.bytes_left (begin_progress user fields dest)
                  (iter_at-Placed kept fields dest fits))).at
              s st a ka;
    }

    released-kept :
        (dest : ℕ) (r : Result) (a : ℕ)
        → (release_on_failure user fields dest r).2.mem a ≡ r.2.mem a
    released-kept dest (good, s, st) a = refl
    released-kept dest (bad, s, st) a =
        ap (λ (t : Store). t.mem a) (pb_release-same user kept fields dest st plain)
    released-kept dest (hangs, s, st) a = refl

    decode_by-Keeps :
        (dest : ℕ)
        → StructFits kept fields dest
        → Keeps kept (decode_by user (nested_at user fields) fields dest)
    unfolding decode_by pb_message_set_to_defaults
    decode_by-Keeps dest fits = record {
      at = λ s st a ka.
          released-kept dest
            ((writing (pb_message_set_to_defaults fields dest)
                >> noinit_by user (nested_at user fields) fields dest)
              s st)
            a
          ∙ (>>-Keeps _ _
                (writing-Keeps _ λ mem b kb.
                  set_fields-kept kept fields (begin_data fields dest)
                    (size_address fields (begin_data fields dest)) mem b plain fits kb)
                (noinit_by-Keeps dest fits)).at
              s st a ka;
    }

  mutual
    unfolding nested_at AllPlain AllSubs

    all_subs : (fields : Fields) → AllPlain kept fields → AllSubs user kept fields
    all_subs last plain = tt
    all_subs (field info ptr rest) (plain, sub, plains) =
        (λ q avq. sub_decoder-Keeps info ptr q sub avq, all_subs rest plains)

    sub_decoder-Keeps :
        (info : FieldInfo) (ptr : Ptr) (q : ℕ)
        → PtrPlain kept info ptr
        → Avoids kept q info.data_size
        → SubKeeps kept q (sub_decoder user ptr)
    sub_decoder-Keeps info null q plain avq = no_sub
    sub_decoder-Keeps info (value a) q plain avq = no_sub
    sub_decoder-Keeps info (submsg fields) q (plain, fits) avq =
        both _ (decode_by-Keeps fields plain (all_subs fields plain) q (fits q avq))
          (noinit_by-Keeps fields plain (all_subs fields plain) q (fits q avq))
    sub_decoder-Keeps info (chain exts) q plain avq = no_sub

  -- pb_decode, on every input and whatever its result, leaves alone every byte of a set of addresses
  -- that has none of these: the data of a field of the struct, its `has_` member, and the four bytes
  -- of its count or `which_` member; for an array of fixed count, which has no count, the four bytes
  -- from the beginning of its data, which pb_message_set_to_defaults clears even where the array is
  -- shorter; the first byte of the last field, where an empty message stores a field of tag 0; and
  -- the decoder's local counter. Wherever the data of a submessage lie outside the set, its fields
  -- do in the same sense. All fields of the message type, and those of its submessages, are in the
  -- struct itself, and none is a placeholder for extensions; a bool or a number of 32 or 64 bits has
  -- room for its value, and an array has fewer than 2 ^ 32 bytes.
  pub pb_decode-Keeps :
      (fields : Fields) (dest : ℕ)
      → AllPlain kept fields
      → StructFits kept fields dest
      → Keeps kept (pb_decode user fields dest)
  unfolding pb_decode
  pb_decode-Keeps fields dest plain fits =
      decode_by-Keeps fields plain (all_subs fields plain) dest fits
