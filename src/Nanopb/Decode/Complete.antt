-- ===== src/Nanopb/Decode/Complete.antt =====
-- The required fields of a message that pb_decode_noinit and pb_decode of
-- Kasei/Pods/nanopb/pb_decode.c decode.
mod Tests
use mathlib.Core.List.{Memᴰ}
use mathlib.Core.Path.{subst}
use kaseiapp.Base.{
  ℕ, zero, suc, ◌<◌, ◌≡◌, refl, sym, inl, inr, arith, Bool, true, false, some, List, [], ◌∷◌,
  get_elem?, All, All-take, take, ◌==◌, if-holds, ==_iff,
}
use kaseiapp.Nanopb.Pb.{wrong_fixed_count, missing_required_field}
use kaseiapp.Nanopb.Istream.{Istream}
use kaseiapp.Nanopb.Read.{TagRead, found, failed, pb_decode_tag}
use kaseiapp.Nanopb.Fields.{Fields, Iter, pb_field_iter_find}
use kaseiapp.Nanopb.Store.{Store, Status, succeed, fail, good, bad, hangs, Result, Step, put, User}
use kaseiapp.Nanopb.DecodeCallback.{tag_at}
use kaseiapp.Nanopb.Required.{all_seen}
use kaseiapp.Nanopb.Required.Seen.{seen_bit, none-seen_bit, all_seen-seen_bit}
use kaseiapp.Nanopb.Required.Index.{required_tags, Indexed, next-Indexed}
use kaseiapp.Nanopb.Progress.{
  Progress, fixed_count_at, wrong_count, required_count, check_required, finish_message,
}
use kaseiapp.Nanopb.Moves.{find-keeps}
use kaseiapp.Nanopb.Decode.{
  Nested, decode_known, decode_unknown, after_find, after_tag, decode_loop, begin_progress,
  restore_count, noinit_by, release_on_failure, decode_by, nested_at, pb_decode,
}
use kaseiapp.Nanopb.Decode.Run.{Run, no_bytes, no_tag, known, unknown}
use kaseiapp.Nanopb.Decode.Advanced.{Advanced, matches-tag, known-Through, unknown-Through}
use kaseiapp.Nanopb.Required.Index.{StartsTagged, iter_at-Indexed, required_count-above}
use kaseiapp.Nanopb.Default.{pb_message_set_to_defaults}
use kaseiapp.Nanopb.Fields.Find.{find-matches}
use kaseiapp.Nanopb.Decode.Passes.{Passed, IsGood}
use kaseiapp.Nanopb.Decode.Ran.{loop-Ran}

good_as : {status : Status} → status ≡ good → IsGood status
good_as e = subst IsGood (sym e) tt

module _ (user : User) (fields : Fields) (dest : ℕ) where
  -- Where the loop begins: the defaults are set, and the counter is 0.
  abbrev pub loop_store : Store → Store
  loop_store st = record st {
    mem = put fixed_count_at 4 0 (pb_message_set_to_defaults fields dest st.mem);
  }

  abbrev loop_result : Istream → Store → Result
  loop_result s st =
      decode_loop user (nested_at user fields) s.bytes_left (begin_progress user fields dest) s
        (loop_store st)

  released-IsGood :
      (r : Result)
      → IsGood (release_on_failure user fields dest r).0
      → (release_on_failure user fields dest r ≡ r) × IsGood r.0
  released-IsGood (good, s, st) g = (refl, g)
  released-IsGood (bad, s, st) g = elim g [ ]
  released-IsGood (hangs, s, st) g = elim g [ ]

  pb_decode_lem :
      (s : Istream) (st : Store)
      → IsGood (pb_decode user fields dest s st).0
      → (pb_decode user fields dest s st
          ≡ restore_count user (pb_message_set_to_defaults fields dest st.mem) (loop_result s st))
        × IsGood (loop_result s st).0
  unfolding pb_decode decode_by noinit_by
  pb_decode_lem s st g =
      released-IsGood
        (restore_count user (pb_message_set_to_defaults fields dest st.mem) (loop_result s st)) g

  -- If pb_decode returns true, then there are rounds of its loop, from the state where the defaults are
  -- set to the result, in which each of the first 64 required fields of the message type was decoded by
  -- decode_field with success. The user's functions, the stream and the memory are arbitrary; the
  -- message type is empty, or its first field has a tag other than 0.
  pub pb_decode-required :
      (s : Istream) (st : Store)
      → StartsTagged fields
      → (pb_decode user fields dest s st).0 ≡ good
      → (tags : List ℕ) × (r : Result) × Run user
          (nested_at user fields)
          (begin_progress user fields dest)
          s
          (loop_store st)
          tags
          r
        × (pb_decode user fields dest s st
            ≡ restore_count user (pb_message_set_to_defaults fields dest st.mem) r)
        × All (λ tag. Memᴰ tag tags) (take 64 (required_tags fields))
  pb_decode-required s st tagged e =
      let (same, g) = pb_decode_lem s st (good_as e) in
      let ran =
        loop-Ran user (nested_at user fields) fields tagged s.bytes_left
          (begin_progress user fields dest) s (loop_store st) (iter_at-Indexed fields dest) g in
      (
        ran.tags,
        loop_result s st,
        ran.run,
        same,
        All-take (λ tag. Memᴰ tag ran.tags) (required_tags fields) 64
            (λ i t lt at. ran.decoded i t lt at (none-seen_bit i)),
      )
