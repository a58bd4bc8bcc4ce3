-- ===== src/Nanopb/Flat/Ready.antt =====
-- What the loop of pb_decode_noinit of Kasei/Pods/nanopb/pb_decode.c has left to do in a message of
-- single values, before and behind each of its fields.
use mathlib.Core.Path.{subst}
use mathlib.Core.Bool.{true≢false}
use kaseiapp.Base.{
  ℕ, suc, ◌+◌, ◌≤◌, ◌≡◌, refl, sym, ap, ◌∙◌, arith, Bool, true, false, ◌||◌, none, length,
  length-append, ==_iff, both_true, if◌then◌else◌, Bool-cases, inl, inr,
}
use kaseiapp.Base.Memory.{offset_by}
use kaseiapp.Nanopb.Pb.{FieldInfo}
use kaseiapp.Nanopb.Fields.{
  Fields, last, field, Ptr, Iter, matches, remaining, is_required, prev_size, data_after,
  size_after, pb_field_iter_find,
}
use kaseiapp.Nanopb.Fields.Find.{has_field, iter_of}
use kaseiapp.Nanopb.Required.{mark_seen}
use kaseiapp.Nanopb.Required.Index.{
  Indexed, next-Indexed, required_tag, required_tags, length-required_tag,
}
use kaseiapp.Nanopb.Progress.{Progress}
use kaseiapp.Nanopb.Moves.{find-keeps}
use kaseiapp.Nanopb.Flat.Messages.{IsScalar, AllScalars, scalar-is_no_extension}
use kaseiapp.Nanopb.Flat.Seek.{index_after, sought, find-sought}
use kaseiapp.Nanopb.Flat.Step.{single-not_oneof}
use kaseiapp.Nanopb.Flat.Seen.{SeenTo, index_after_lem, mark-SeenTo}

or_left : (a : Bool) {b : Bool} → b ≡ true → (a || b) ≡ true
or_left true e = refl
or_left false e = e

-- The data and the `has_` address of a value are the same.
pub same_after :
    (info : FieldInfo) (rest : Fields) (q z : ℕ)
    → IsScalar info
    → AllScalars rest
    → z ≡ q
    → size_after info rest q z ≡ data_after info rest q
same_after info last q z scalar all e = e
same_after info (field next ptr rest) q z scalar (next_scalar, no_default, other, all) e =
    rw (single-not_oneof info.htype scalar.single)
      (ap (offset_by (q + prev_size info + next.data_offset)) next_scalar.no_has ∙ omega arith)

module _ (fields : Fields) (dest : ℕ) where
  -- What is left to decode are the fields `cur`, to which a search for one of them leads.
  pub record Ready (cur : Fields) (index q z : ℕ) (pr : Progress) : Type 0 where
    pub no_count : pr.fixed_count_field ≡ none
    pub indexed : Indexed fields pr.iter
    pub leads :
        (tag : ℕ)
        → has_field tag cur ≡ true
        → pb_field_iter_find tag pr.iter ≡ (true, sought fields dest tag cur index q z)
    pub seen : SeenTo index pr.fields_seen
    pub total : length (required_tags fields) ≡ index + length (required_tags cur)
    pub room : remaining cur ≤ suc (remaining fields)

  next_total :
      (info : FieldInfo) (ptr : Ptr) (rest : Fields) (index : ℕ)
      → length (required_tags fields) ≡ index + length (required_tags (field info ptr rest))
      → length (required_tags fields) ≡ index_after info rest index + length (required_tags rest)
  next_total info ptr rest index e = omega (
    arith,
    e,
    index_after_lem info rest index,
    length-append (required_tag info) (required_tags rest),
    length-required_tag info,
  )

  -- A field of the rest is not the first one.
  passed :
      (tag : ℕ) (info : FieldInfo) (ptr : Ptr) (rest : Fields)
      → has_field info.tag rest ≡ false
      → has_field tag rest ≡ true
      → matches tag (field info ptr rest) ≡ false
  passed tag info ptr rest other e = elim (Bool-cases (matches tag (field info ptr rest))) [
    | inl hit ↦ absurd (
        true≢false (
          sym e
          ∙ ap (λ (t : ℕ). has_field t rest) (sym ((==_iff info.tag tag).0 (both_true _ _ hit).0))
          ∙ other))
    | inr miss ↦ miss
  ]

  sought_passed :
      (tag : ℕ) (info : FieldInfo) (ptr : Ptr) (rest : Fields) (index q z : ℕ)
      → matches tag (field info ptr rest) ≡ false
      → sought fields dest tag (field info ptr rest) index q z
        ≡ sought fields dest tag rest
            (index_after info rest index)
            (data_after info rest q)
            (size_after info rest q z)
  sought_passed tag info ptr rest index q z e = rw e refl

  module _ {info : FieldInfo} {ptr : Ptr} {rest : Fields} {index q z : ℕ} {pr : Progress}
      (scalar : IsScalar info) (other : has_field info.tag rest ≡ false)
      (ready : Ready (field info ptr rest) index q z pr) where
    abbrev After : Progress → Type 0
    After =
        Ready rest (index_after info rest index) (data_after info rest q) (size_after info rest q z)

    own_tag : matches info.tag (field info ptr rest) ≡ true
    own_tag =
        rw
          (
            (==_iff info.tag info.tag).1 refl,
            scalar-is_no_extension info.ltype info.data_size scalar.fits,
          )
          refl

    pub located :
        pb_field_iter_find info.tag pr.iter
        ≡ (true, iter_of fields (field info ptr rest) index dest q z)
    located =
        ready.leads info.tag (ap (λ (b : Bool). b || has_field info.tag rest) own_tag)
        ∙ ap
            (λ (b : Bool). (
              true,
              if b
                  then iter_of fields (field info ptr rest) index dest q z
                  else sought fields dest info.tag rest (index_after info rest index)
                      (data_after info rest q) (size_after info rest q z),
            ))
            own_tag

    -- The field is left out.
    pub left_out : is_required info.htype ≡ false → After pr
    left_out free = record {
      no_count = ready.no_count;
      indexed = ready.indexed;
      leads = λ tag e.
          ready.leads tag (or_left (matches tag (field info ptr rest)) e)
          ∙ ap (λ it. (true, it))
              (sought_passed tag info ptr rest index q z (passed tag info ptr rest other e));
      seen =
          subst (λ (n : ℕ). SeenTo n pr.fields_seen)
            (omega (
              arith,
              index_after_lem info rest index,
              ap {B = ℕ} (λ (b : Bool). if b then 1 else 0) free,
            ))
            ready.seen;
      total = next_total info ptr rest index ready.total;
      room = omega (arith, ready.room);
    }

    -- The field was decoded.
    pub taken : After (record pr {
      iter = iter_of fields (field info ptr rest) index dest q z;
      fields_seen = mark_seen (iter_of fields (field info ptr rest) index dest q z) pr.fields_seen;
    })
    taken = record {
      no_count = ready.no_count;
      indexed =
          subst (λ (r : Bool × Iter). Indexed fields r.1) located
            (find-keeps (Indexed fields) (next-Indexed fields) info.tag pr.iter ready.indexed);
      leads = λ tag e.
          find-sought fields dest tag (field info ptr rest) index q z ready.room
            (or_left (matches tag (field info ptr rest)) e)
          ∙ ap (λ it. (true, it))
              (sought_passed tag info ptr rest index q z (passed tag info ptr rest other e));
      seen = mark-SeenTo fields info ptr rest dest index q z pr.fields_seen ready.seen;
      total = next_total info ptr rest index ready.total;
      room = omega (arith, ready.room);
    }
