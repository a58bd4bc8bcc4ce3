-- ===== src/Nanopb/Decode/Ran.antt =====
-- The rounds of the loop of pb_decode_noinit of Kasei/Pods/nanopb/pb_decode.c to a result, and the
-- required fields decoded in them.
use mathlib.Core.List.{Memᴰ}
use mathlib.Core.Path.{subst}
use kaseiapp.Base.{
  ℕ, zero, suc, ◌<◌, ◌≡◌, refl, sym, inl, inr, arith, Bool, true, false, some, List, [], ◌∷◌,
  get_elem?, ◌==◌, if-holds, ==_iff,
}
use kaseiapp.Nanopb.Pb.{wrong_fixed_count, missing_required_field}
use kaseiapp.Nanopb.Istream.{Istream}
use kaseiapp.Nanopb.Read.{TagRead, found, failed, pb_decode_tag}
use kaseiapp.Nanopb.Fields.{Fields, Iter, pb_field_iter_find}
use kaseiapp.Nanopb.Store.{Store, succeed, fail, Result, Step, User}
use kaseiapp.Nanopb.DecodeCallback.{tag_at}
use kaseiapp.Nanopb.Required.{all_seen}
use kaseiapp.Nanopb.Required.Seen.{seen_bit, all_seen-seen_bit}
use kaseiapp.Nanopb.Required.Index.{required_tags, Indexed, next-Indexed}
use kaseiapp.Nanopb.Progress.{Progress, wrong_count, required_count, check_required, finish_message}
use kaseiapp.Nanopb.Moves.{find-keeps}
use kaseiapp.Nanopb.Decode.{
  Nested, decode_known, decode_unknown, after_find, after_tag, decode_loop,
}
use kaseiapp.Nanopb.Decode.Run.{Run, no_bytes, no_tag, known, unknown}
use kaseiapp.Nanopb.Decode.Advanced.{Advanced, matches-tag, known-Through, unknown-Through}
use kaseiapp.Nanopb.Required.Index.{StartsTagged, required_count-above}
use kaseiapp.Nanopb.Fields.Find.{find-matches}
use kaseiapp.Nanopb.Decode.Passes.{Passed, IsGood}

module _ (user : User) (nested : ℕ → Nested) (fields : Fields) (tagged : StartsTagged fields) where
  -- The rounds to a result, with the tags of all required fields that were not marked before.
  pub record Ran (pr : Progress) (s : Istream) (st : Store) (r : Result) : Type 0 where
    pub tags : List ℕ
    pub run : Run user nested pr s st tags r
    pub decoded :
        (i t : ℕ)
        → i < 64
        → get_elem? (required_tags fields) i ≡ some t
        → seen_bit pr.fields_seen i ≡ 0
        → Memᴰ t tags

  finish-all_seen :
      (pr : Progress) (s : Istream) (st : Store)
      → IsGood (finish_message pr s st).0
      → all_seen pr.fields_seen (required_count pr.iter) ≡ true
  unfolding finish_message check_required
  finish-all_seen pr s st g =
      if-holds
        (λ (f : Step). IsGood (f s st).0 → all_seen pr.fields_seen (required_count pr.iter) ≡ true)
        (wrong_count pr.fixed_count_field st.mem) (fail wrong_fixed_count) _ (λ e. absurd)
        (λ e.
          if-holds
            (λ (f : Step).
              IsGood (f s st).0 → all_seen pr.fields_seen (required_count pr.iter) ≡ true)
            (all_seen pr.fields_seen (required_count pr.iter)) succeed (fail missing_required_field)
            (λ e' good. e') (λ e'. absurd))
        g

  -- All required fields, the first 64 at most, are marked when the checks pass.
  finish-marked :
      (pr : Progress) (s : Istream) (st : Store) (i t : ℕ)
      → Indexed fields pr.iter
      → IsGood (finish_message pr s st).0
      → i < 64
      → get_elem? (required_tags fields) i ≡ some t
      → seen_bit pr.fields_seen i ≡ 1
  finish-marked pr s st i t h g lt at =
      all_seen-seen_bit pr.fields_seen (required_count pr.iter) i (finish-all_seen pr s st g)
        (required_count-above fields pr.iter i t tagged h lt at)

  -- The rounds are over.
  ended :
      (pr : Progress) (s t : Istream) (st : Store)
      → Indexed fields pr.iter
      → Run user nested pr s st [] (finish_message pr t st)
      → IsGood (finish_message pr t st).0
      → Ran pr s st (finish_message pr t st)
  ended pr s t st h run g = record {
    tags = [];
    run = run;
    decoded =
        λ i t' lt at unseen. absurd (omega (arith, unseen, finish-marked pr t st i t' h g lt at));
  }

  module _ (k : Progress → Step)
      (ran : (pr : Progress) (s : Istream) (st : Store)
        → Indexed fields pr.iter
        → IsGood (k pr s st).0
        → Ran pr s st (k pr s st)) where
    -- What follows the round, put in front of what the round decoded.
    known-Ran :
        (s : Istream) (pr : Progress) (wire_type tag : ℕ) (t : Istream) (iter : Iter) (st : Store)
        → pb_decode_tag s ≡ (found wire_type tag, t)
        → pb_field_iter_find tag pr.iter ≡ (true, iter)
        → Passed
            (Advanced fields pr.fields_seen (tag ∷ []))
            (λ k'. decode_known user nested wire_type (record pr { iter = iter }) k' t st)
        → IsGood (decode_known user nested wire_type (record pr { iter = iter }) k t st).0
        → Ran pr s st (decode_known user nested wire_type (record pr { iter = iter }) k t st)
    known-Ran s pr wire_type tag t iter st e e' p g =
        let q =
          ran p.pr p.stream p.store p.holds.indexed
            (subst (λ (r : Result). IsGood r.0) (p.passes k) g) in
        subst (Ran pr s st) (sym (p.passes k)) (record {
          tags = tag ∷ q.tags;
          run = known e e' p.passes q.run;
          decoded = λ i t' lt at unseen. elim (p.holds.marked i t' lt at unseen) [
            | inl still ↦ Memᴰ.tail (q.decoded i t' lt at still)
            | inr m ↦ only m
          ];
        })
      where
        only : {t' : ℕ} {tags : List ℕ} → Memᴰ t' (tag ∷ []) → Memᴰ t' (tag ∷ tags)
        only (Memᴰ.head e) = Memᴰ.head e
        only (Memᴰ.tail m) = elim m [ ]

    unknown-Ran :
        (s : Istream) (pr : Progress) (wire_type tag : ℕ) (t : Istream) (iter : Iter) (st : Store)
        → pb_decode_tag s ≡ (found wire_type tag, t)
        → pb_field_iter_find tag pr.iter ≡ (false, iter)
        → Passed
            (Advanced fields pr.fields_seen [])
            (λ k'. decode_unknown user nested tag wire_type (record pr { iter = iter }) k' t st)
        → IsGood (decode_unknown user nested tag wire_type (record pr { iter = iter }) k t st).0
        → Ran pr s st (decode_unknown user nested tag wire_type (record pr { iter = iter }) k t st)
    unknown-Ran s pr wire_type tag t iter st e e' p g =
        let q =
          ran p.pr p.stream p.store p.holds.indexed
            (subst (λ (r : Result). IsGood r.0) (p.passes k) g) in
        subst (Ran pr s st) (sym (p.passes k)) (record {
          tags = q.tags;
          run = unknown e e' p.passes q.run;
          decoded = λ i t' lt at unseen. elim (p.holds.marked i t' lt at unseen) [
            | inl still ↦ q.decoded i t' lt at still
            | inr m ↦ elim m [ ]
          ];
        })

    after_find-Ran :
        (s : Istream) (pr : Progress) (wire_type tag : ℕ) (t : Istream) (hit : Bool × Iter)
        (st : Store)
        → pb_decode_tag s ≡ (found wire_type tag, t)
        → pb_field_iter_find tag pr.iter ≡ hit
        → Indexed fields hit.1
        → (hit.0 ≡ true → tag_at hit.1.pos ≡ tag)
        → IsGood (after_find user nested tag wire_type hit pr k t st).0
        → Ran pr s st (after_find user nested tag wire_type hit pr k t st)
    after_find-Ran s pr wire_type tag t (true, iter) st e e' h named g =
        known-Ran s pr wire_type tag t iter st e e'
          ((known-Through user nested fields wire_type tag (record pr { iter = iter }) h
              (named refl)).at
            k t st g)
          g
    after_find-Ran s pr wire_type tag t (false, iter) st e e' h named g =
        unknown-Ran s pr wire_type tag t iter st e e'
          ((unknown-Through user nested fields tag wire_type (record pr { iter = iter }) h).at k t
            st g)
          g

    after_tag-Ran :
        (s : Istream) (pr : Progress) (read : TagRead × Istream) (st : Store)
        → pb_decode_tag s ≡ read
        → Indexed fields pr.iter
        → IsGood (after_tag user nested read pr k st).0
        → Ran pr s st (after_tag user nested read pr k st)
    after_tag-Ran s pr (found wire_type tag, t) st e h g =
        after_find-Ran s pr wire_type tag t (pb_field_iter_find tag pr.iter) st e refl
          (find-keeps (Indexed fields) (next-Indexed fields) tag pr.iter h)
          (λ hit. matches-tag tag _ (find-matches tag pr.iter hit)) g
    after_tag-Ran s pr (failed true, t) st e h g = ended pr s t st h (no_tag e) g
    after_tag-Ran s pr (failed false, t) st e h g = elim g [ ]

  pub loop-Ran :
      (rounds : ℕ) (pr : Progress) (s : Istream) (st : Store)
      → Indexed fields pr.iter
      → IsGood (decode_loop user nested rounds pr s st).0
      → Ran pr s st (decode_loop user nested rounds pr s st)
  unfolding decode_loop
  loop-Ran zero pr s st h =
      if-holds (λ (r : Result). IsGood r.0 → Ran pr s st r) (s.bytes_left == 0) _ _
        (λ e g. ended pr s s st h (no_bytes ((==_iff s.bytes_left 0).0 e)) g) (λ e. absurd)
  loop-Ran (suc rounds) pr s st h =
      if-holds (λ (r : Result). IsGood r.0 → Ran pr s st r) (s.bytes_left == 0) _ _
        (λ e g. ended pr s s st h (no_bytes ((==_iff s.bytes_left 0).0 e)) g)
        (λ e.
          after_tag-Ran (decode_loop user nested rounds) (loop-Ran rounds) s pr (pb_decode_tag s) st
            refl h)
