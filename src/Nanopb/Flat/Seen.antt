-- ===== src/Nanopb/Flat/Seen.antt =====
-- The words `fields_seen` of pb_decode_noinit of Kasei/Pods/nanopb/pb_decode.c, when the fields come in
-- their order.
use kaseiapp.Base.{
  ℕ, ◌+◌, ◌≤◌, ◌<◌, ◌≡◌, refl, sym, ap, ◌∙◌, arith, Bool, true, false, ◌&&◌, length, min, ltb, ◌==◌,
  if-holds, none, if◌then◌else◌,
}
use mathlib.Core.Path.{subst}
use native.Mathlib.Decide.{ℕ_discrete}
use kaseiapp.Nanopb.Pb.{FieldInfo, size_max}
use kaseiapp.Nanopb.Istream.{Istream}
use kaseiapp.Nanopb.Fields.{Fields, last, field, Ptr, is_required, is_oneof}
use kaseiapp.Nanopb.Fields.Find.{iter_of}
use kaseiapp.Nanopb.Store.{Store, good}
use kaseiapp.Nanopb.Required.{
  Words, none_seen, set_seen, mark_seen, max_required_fields, all_seen, has_tag,
}
use kaseiapp.Nanopb.Required.Seen.{
  seen_bit, none-seen_bit, set_seen-itself, set_seen-other, AreU32, set_seen-AreU32,
  all_seen_of_marks,
}
use kaseiapp.Nanopb.Required.Index.{
  Indexed, one_if_required, required_tags, required_count_lem, union_index,
}
use kaseiapp.Nanopb.Progress.{Progress, required_count, check_required, finish_message}
use kaseiapp.Nanopb.Flat.Seek.{index_after}

-- Exactly the first `count` required fields are marked, up to the 64th.
pub record SeenTo (count : ℕ) (seen : Words) : Type 0 where
  pub words : AreU32 seen
  pub ones : (i : ℕ) → i < count → i < 64 → seen_bit seen i ≡ 1
  pub zeros : (i : ℕ) → count ≤ i → i < 64 → seen_bit seen i ≡ 0

pub none-SeenTo : SeenTo 0 none_seen
none-SeenTo = record {
  words = (omega arith, omega arith);
  ones = λ i lt h. absurd (omega arith);
  zeros = λ i ge h. none-seen_bit i;
}

set-SeenTo :
    (count : ℕ) (seen : Words)
    → count < 64
    → SeenTo count seen
    → SeenTo (count + 1) (set_seen count seen)
set-SeenTo count seen small h = record {
  words = set_seen-AreU32 count seen h.words;
  ones = λ i lt bound. elim (ℕ_discrete count i) [
    | yes e ↦ ap (seen_bit (set_seen count seen)) (sym e) ∙ set_seen-itself count seen
    | no ne ↦ set_seen-other count i seen small bound ne ∙ h.ones i (omega arith) bound
  ];
  zeros = λ i ge bound.
      set_seen-other count i seen small bound (λ e. omega arith) ∙ h.zeros i (omega arith) bound;
}

-- Fields behind the 64th are not marked.
past-SeenTo : (count : ℕ) (seen : Words) → 64 ≤ count → SeenTo count seen → SeenTo (count + 1) seen
past-SeenTo count seen past h = record {
  words = h.words;
  ones = λ i lt bound. h.ones i (omega arith) bound;
  zeros = λ i ge bound. absurd (omega arith);
}

rule-SeenTo :
    (b : Bool) (index : ℕ) (seen : Words)
    → SeenTo index seen
    → SeenTo
        (index + (if b then 1 else 0))
        (if b && ltb index max_required_fields then set_seen index seen else seen)
rule-SeenTo false index seen h = subst (λ (n : ℕ). SeenTo n seen) (omega arith) h
rule-SeenTo true index seen h =
    if-holds (SeenTo (index + 1)) (ltb index 64) _ _ (λ e. set-SeenTo index seen (ground arith) h)
      (λ e. past-SeenTo index seen (ground arith) h)

pub index_after_lem :
    (info : FieldInfo) (rest : Fields) (index : ℕ)
    → index_after info rest index ≡ index + one_if_required info
index_after_lem info last index = refl
index_after_lem info (field next ptr rest) index =
    union_index info.htype (is_oneof next.htype) (next.data_offset == size_max) index

pub mark-SeenTo :
    (fields : Fields) (info : FieldInfo) (ptr : Ptr) (rest : Fields) (dest index q z : ℕ)
    (seen : Words)
    → SeenTo index seen
    → SeenTo
        (index_after info rest index)
        (mark_seen (iter_of fields (field info ptr rest) index dest q z) seen)
unfolding mark_seen
mark-SeenTo fields info ptr rest dest index q z seen h =
    subst
      (λ (n : ℕ). SeenTo n (mark_seen (iter_of fields (field info ptr rest) index dest q z) seen))
      (sym (index_after_lem info rest index)) (rule-SeenTo (is_required info.htype) index seen h)

-- The checks pass when all required fields are marked.
pub finish-good :
    (fields : Fields) (pr : Progress) (s : Istream) (st : Store)
    → has_tag fields ≡ true
    → pr.fixed_count_field ≡ none
    → Indexed fields pr.iter
    → SeenTo (length (required_tags fields)) pr.fields_seen
    → finish_message pr s st ≡ (good, s, st)
unfolding finish_message check_required
finish-good fields pr s st tagged no_count indexed h = rw (no_count, all) refl
  where
    total : ℕ
    total = length (required_tags fields)

    all : all_seen pr.fields_seen (required_count pr.iter) ≡ true
    all =
        ap (all_seen pr.fields_seen) (required_count_lem fields pr.iter tagged indexed)
        ∙ all_seen_of_marks pr.fields_seen (min 64 total) h.words (omega arith)
            (λ i lt. h.ones i (omega arith) (omega arith))
            (λ i ge bound. h.zeros i (omega arith) bound)
