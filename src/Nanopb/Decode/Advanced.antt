-- ===== src/Nanopb/Decode/Advanced.antt =====
-- The required fields that a round of the loop of pb_decode_noinit of Kasei/Pods/nanopb/pb_decode.c
-- marks.
use mathlib.Core.List.{Memᴰ}
use mathlib.Core.Option.{some-injective, none-ne-some}
use native.Mathlib.Decide.{ℕ_discrete}
use kaseiapp.Base.{
  ℕ, ◌-◌, ◌^◌, ◌<◌, ◌≡◌, refl, sym, ap, ◌∙◌, ◌⊎◌, inl, inr, arith, Bool, true, false, not, ◌&&◌,
  Option, some, List, [], ◌∷◌, get_elem?, ltb, leb, ◌==◌, both_true, if-holds, if◌then◌else◌,
}
use kaseiapp.Nanopb.Pb.{wrong_fixed_count}
use kaseiapp.Nanopb.Read.{pb_skip_field}
use kaseiapp.Nanopb.Fields.{Fields, last, field, Iter, remaining, matches, is_required}
use kaseiapp.Nanopb.Store.{◌>>◌, writing, put, User}
use kaseiapp.Nanopb.DecodeCallback.{tag_at, decode_field}
use kaseiapp.Nanopb.Required.{Words, mark_seen, htype_at, max_required_fields}
use kaseiapp.Nanopb.Required.Seen.{seen_bit, set_seen-other}
use kaseiapp.Nanopb.Required.Index.{
  required_tags, IndexedAt, Indexed, next-Indexed, get_elem?-required,
}
use kaseiapp.Nanopb.Progress.{
  Progress, fixed_count_at, wrong_count, is_same, is_fixed_count, count_fixed, use_fixed_count,
  find_extension_field,
}
use kaseiapp.Nanopb.Moves.{find_extension-keeps, after_release-keeps}
use kaseiapp.Nanopb.Decode.{
  Nested, noted, decode_counted, decode_known, skip, handled_or_skip, try_extensions, range_start,
  decode_unknown,
}
use kaseiapp.Nanopb.Decode.Passes.{
  Round, Through, here-Through, looking-Through, at_stream-Through, if-Through, if_at-Through,
  fail-Through, >>-Through, reading-Through,
}

pub matches-tag : (tag : ℕ) (pos : Fields) → matches tag pos ≡ true → tag_at pos ≡ tag
matches-tag tag last e = ground arith
matches-tag tag (field info ptr rest) e = ground arith

-- The required fields that a round marks are those of the tags.
pub record Advanced (fields : Fields) (seen : Words) (tags : List ℕ) (pr' : Progress) : Type 0 where
  pub indexed : Indexed fields pr'.iter
  pub marked :
      (i t : ℕ)
      → i < 64
      → get_elem? (required_tags fields) i ≡ some t
      → seen_bit seen i ≡ 0
      → (seen_bit pr'.fields_seen i ≡ 0) ⊎ Memᴰ t tags

-- At an index that is counted, a required field is the one of its number.
required-tag :
    (fields start pos : Fields) (index t : ℕ)
    → IndexedAt fields start pos index
    → is_required (htype_at pos) ≡ true
    → get_elem? (required_tags fields) index ≡ some t
    → t ≡ tag_at pos
required-tag fields start last index t h req e =
    absurd (none-ne-some t (sym (get_elem?-required fields h) ∙ e))
required-tag fields start (field info ptr rest) index t h req e =
    some-injective t info.tag (sym e ∙ get_elem?-required fields h ∙ first)
  where
    first : get_elem? (required_tags (field info ptr rest)) 0 ≡ some info.tag
    first = rw req refl

mark-marked :
    (fields : Fields) (iter : Iter) (seen : Words) (i t : ℕ)
    → Indexed fields iter
    → i < 64
    → get_elem? (required_tags fields) i ≡ some t
    → seen_bit seen i ≡ 0
    → (seen_bit (mark_seen iter seen) i ≡ 0) ⊎ (t ≡ tag_at iter.pos)
unfolding mark_seen
mark-marked fields iter seen i t h lt e unseen =
    if-holds (λ (w : Words). (seen_bit w i ≡ 0) ⊎ (t ≡ tag_at iter.pos))
      (is_required (htype_at iter.pos) && ltb iter.required_field_index max_required_fields) _ _
      (λ b. elim (ℕ_discrete iter.required_field_index i) [
        | yes same ↦ inr (
            required-tag fields iter.start iter.pos iter.required_field_index t h
              (both_true _ _ b).0 (ap (get_elem? (required_tags fields)) same ∙ e))
        | no ne ↦ inl (
            set_seen-other iter.required_field_index i seen
              (ground (
                arith,
                (both_true (is_required (htype_at iter.pos)) (ltb iter.required_field_index 64)
                    b).1,
              ))
              lt ne
            ∙ unseen)
      ])
      (λ b. inl unseen)

module _ (user : User) (nested : ℕ → Nested) (fields : Fields) where
  counted-Through :
      {Q : Progress → Type 0} (pr : Progress) (round : Progress → Round)
      → ((size_at : ℕ) (count : Option (ℕ × ℕ))
          → Through Q (
              round (record pr {
                iter = record pr.iter { size_at = size_at };
                fixed_count_field = count;
              })))
      → Through Q (λ k. count_fixed pr (λ pr'. round pr' k))
  counted-Through pr round h =
      if-Through (not (is_fixed_count pr.iter)) (round pr) _
        (λ e. h pr.iter.size_at pr.fixed_count_field)
        λ e.
          if-Through (is_same pr.fixed_count_field (remaining pr.iter.pos))
            (round (use_fixed_count pr)) _ (λ e'. h fixed_count_at pr.fixed_count_field)
            λ e'. looking-Through _ λ mem.
              if-Through (wrong_count pr.fixed_count_field mem) (λ k. _) _
                (λ e''. fail-Through wrong_fixed_count)
                (λ e''.
                  >>-Through (writing (put fixed_count_at 4 0)) (round _) (h fixed_count_at _))

  pub known-Through :
      (wire_type tag : ℕ) (pr : Progress)
      → Indexed fields pr.iter
      → tag_at pr.iter.pos ≡ tag
      → Through (Advanced fields pr.fields_seen (tag ∷ [])) (decode_known user nested wire_type pr)
  unfolding decode_known
  known-Through wire_type tag pr h e =
      counted-Through pr (λ pr' k. decode_counted user nested wire_type k pr')
        λ size_at count.
          let pr' = record pr {
            iter = record pr.iter { size_at = size_at };
            fixed_count_field = count;
          } in
          looking-Through _ λ mem.
            >>-Through (decode_field user (λ position. (nested position).sub) wire_type pr'.iter) _
              (here-Through (noted user mem pr') (record {
                indexed = after_release-keeps (Indexed fields) (next-Indexed fields) mem pr'.iter h;
                marked = λ i t lt at unseen.
                    tag_of t (mark-marked fields pr'.iter pr.fields_seen i t h lt at unseen);
              }))
    where
      tag_of : {A : Type 0} (t : ℕ) → A ⊎ (t ≡ tag_at pr.iter.pos) → A ⊎ Memᴰ t (tag ∷ [])
      tag_of t (inl a) = inl a
      tag_of t (inr same) = inr (Memᴰ.head (same ∙ e))

  -- A round that marks nothing.
  unmarked :
      (pr : Progress) (iter : Iter) (start : ℕ)
      → Indexed fields iter
      → Advanced fields pr.fields_seen [] (record pr { iter = iter; extension_range_start = start })
  unmarked pr iter start h = record { indexed = h; marked = λ i t lt at unseen. inl unseen }

  module _ {Q : Progress → Type 0} (pr : Progress) (q : Q pr) where
    skip-Through : (wire_type : ℕ) → Through Q (λ k. skip user wire_type (k pr))
    skip-Through wire_type = reading-Through (pb_skip_field wire_type) _ (λ done. here-Through pr q)

    handled-Through :
        (bytes_left wire_type : ℕ)
        → Through Q (λ k. handled_or_skip user bytes_left wire_type (k pr))
    handled-Through bytes_left wire_type =
        at_stream-Through
          (λ s k t st.
            if s.bytes_left == bytes_left then skip user wire_type (k pr) t st else k pr t st)
          λ s.
            if_at-Through (s.bytes_left == bytes_left) (λ k. skip user wire_type (k pr)) (λ k. k pr)
              (skip-Through wire_type) (here-Through pr q)

    try-Through :
        (tag wire_type : ℕ) → Through Q (λ k. try_extensions user nested tag wire_type pr k)
    try-Through tag wire_type =
        let extensions = (nested (remaining pr.iter.pos)).extensions tag wire_type in
        at_stream-Through
          (λ s k t st.
            if leb pr.extension_range_start tag
            then (extensions >> handled_or_skip user s.bytes_left wire_type (k pr)) t st
            else skip user wire_type (k pr) t st)
          λ s.
            if_at-Through (leb pr.extension_range_start tag)
              (λ k. extensions >> handled_or_skip user s.bytes_left wire_type (k pr))
              (λ k. skip user wire_type (k pr))
              (>>-Through extensions _ (handled-Through s.bytes_left wire_type))
              (skip-Through wire_type)

  ranged :
      (pr : Progress) (r : Bool × Iter)
      → Indexed fields r.1
      → Advanced fields pr.fields_seen [] (range_start user r pr)
  ranged pr (true, iter) h = unmarked pr iter (tag_at iter.pos) h
  ranged pr (false, iter) h = unmarked pr iter (2 ^ 32 - 1) h

  pub unknown-Through :
      (tag wire_type : ℕ) (pr : Progress)
      → Indexed fields pr.iter
      → Through (Advanced fields pr.fields_seen []) (decode_unknown user nested tag wire_type pr)
  unfolding decode_unknown
  unknown-Through tag wire_type pr h =
      if-Through (leb pr.extension_range_start tag) _ _
        (λ e.
          try-Through (range_start user (find_extension_field pr.iter) pr)
            (ranged pr (find_extension_field pr.iter)
              (find_extension-keeps (Indexed fields) (next-Indexed fields) pr.iter h))
            tag wire_type)
        (λ e. skip-Through pr (unmarked pr pr.iter pr.extension_range_start h) wire_type)
