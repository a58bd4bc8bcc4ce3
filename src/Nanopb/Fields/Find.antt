-- ===== src/Nanopb/Fields/Find.antt =====
-- pb_field_iter_find of Kasei/Pods/nanopb/pb_common.c against a search through the fields.
use kaseiapp.Base.{
  ℕ, suc, ◌≤◌, ◌≡◌, ◌≢◌, refl, sym, ap, ◌∙◌, arith, Bool, true, false, ◌||◌, ◌&&◌, not, ap₂, ◌==◌,
  if-holds, zero, if◌then◌else◌,
}
use mathlib.Core.Bool.{true≢false}
use kaseiapp.Nanopb.Pb.{
  FieldInfo, Ltype, bool, varint, uvarint, svarint, fixed32, fixed64, bytes, string, submessage,
  extension, fixed_length_bytes,
}
use kaseiapp.Nanopb.Fields.{
  Fields, last, field, Ptr, Iter, is_extension, matches, remaining, find_loop, iter_at,
  pb_field_iter_next, pb_field_iter_find,
}

-- Whether a field other than a placeholder for extensions has the tag.
abbrev pub has_field : ℕ → Fields → Bool
has_field tag last = false
has_field tag (field info ptr rest) = matches tag (field info ptr rest) || has_field tag rest

-- The same, with no test of the code: a placeholder has no tag of its own.
abbrev has_own_tag : ℕ → ℕ → Ltype → Bool
has_own_tag tag own extension = false
has_own_tag tag own _ = own == tag

abbrev pub names_field : ℕ → Fields → Bool
names_field tag last = false
names_field tag (field info ptr rest) = has_own_tag tag info.tag info.ltype || names_field tag rest

and_true : (b : Bool) → (b && true) ≡ b
and_true true = refl
and_true false = refl

and_false : (b : Bool) → (b && false) ≡ false
and_false true = refl
and_false false = refl

own_tag_lem :
    (tag own : ℕ) (t : Ltype) → ((own == tag) && not (is_extension t)) ≡ has_own_tag tag own t
own_tag_lem tag own bool = and_true (own == tag)
own_tag_lem tag own varint = and_true (own == tag)
own_tag_lem tag own uvarint = and_true (own == tag)
own_tag_lem tag own svarint = and_true (own == tag)
own_tag_lem tag own fixed32 = and_true (own == tag)
own_tag_lem tag own fixed64 = and_true (own == tag)
own_tag_lem tag own bytes = and_true (own == tag)
own_tag_lem tag own string = and_true (own == tag)
own_tag_lem tag own submessage = and_true (own == tag)
own_tag_lem tag own extension = and_false (own == tag)
own_tag_lem tag own fixed_length_bytes = and_true (own == tag)

has_field-names_field : (tag : ℕ) (fields : Fields) → has_field tag fields ≡ names_field tag fields
has_field-names_field tag last = refl
has_field-names_field tag (field info ptr rest) =
    ap₂ ◌||◌ (own_tag_lem tag info.tag info.ltype) (has_field-names_field tag rest)

abbrev pub iter_of : Fields → Fields → ℕ → ℕ → ℕ → ℕ → Iter
iter_of start pos index dest data_at size_at = record {
  start = start;
  pos = pos;
  required_field_index = index;
  dest_struct = dest;
  data_at = data_at;
  size_at = size_at;
}

-- One round of the loop.
pub find_loop_lem :
    (rounds begun tag : ℕ) (iter : Iter)
    → find_loop (suc rounds) begun tag iter ≡ (
        if matches tag iter.pos
        then (true, iter)
        else if remaining (pb_field_iter_next iter).1.pos == begun
        then (false, (pb_field_iter_next iter).1)
        else find_loop rounds begun tag (pb_field_iter_next iter).1)
unfolding find_loop
find_loop_lem rounds begun tag iter = refl

round_status :
    (b c : Bool) (i j : Iter) (r : Bool × Iter) (more : Bool)
    → (c ≡ true → more ≡ false)
    → (c ≡ false → r.0 ≡ more)
    → (if b then (true, i) else if c then (false, j) else r).0 ≡ (b || more)
round_status true c i j r more h k = refl
round_status false true i j r more h k = sym (h refl)
round_status false false i j r more h k = k refl

find_loop-matches :
    (rounds begun tag : ℕ) (iter : Iter)
    → (find_loop rounds begun tag iter).0 ≡ true
    → matches tag (find_loop rounds begun tag iter).1.pos ≡ true
unfolding find_loop
find_loop-matches zero begun tag iter = λ e. absurd (true≢false (sym e))
find_loop-matches (suc rounds) begun tag iter =
    let next = (pb_field_iter_next iter).1 in
    if-holds Right (matches tag iter.pos) _ _ (λ here e. here)
      λ elsewhere.
        if-holds Right (remaining next.pos == begun) (false, next) (find_loop rounds begun tag next)
          (λ back e. absurd (true≢false (sym e))) (λ on. find_loop-matches rounds begun tag next)
  where
    Right : Bool × Iter → Type 0
    Right (found, it) = found ≡ true → matches tag it.pos ≡ true

-- A field that is found, from any position, is one that the search is for.
pub find-matches :
    (tag : ℕ) (iter : Iter)
    → (pb_field_iter_find tag iter).0 ≡ true
    → matches tag (pb_field_iter_find tag iter).1.pos ≡ true
unfolding pb_field_iter_find
find-matches tag iter = find_loop-matches (suc (remaining iter.start)) (remaining iter.pos) tag iter

module _ (tag : ℕ) (start : Fields) (dest : ℕ) where
  find_loop-has_field :
      (info : FieldInfo) (ptr : Ptr) (rest : Fields) (index d z : ℕ)
      → suc (remaining rest) ≤ remaining start
      → (find_loop
          (suc (suc (remaining rest)))
          (remaining start)
          tag
          (iter_of start (field info ptr rest) index dest d z)).0
        ≡ has_field tag (field info ptr rest)
  unfolding pb_field_iter_next
  find_loop-has_field info ptr last index d z h =
      let iter = iter_of start (field info ptr last) index dest d z in
      let next = (pb_field_iter_next iter).1 in
      ap (λ r. r.0) (find_loop_lem 1 (remaining start) tag iter)
      ∙ round_status (matches tag (field info ptr last)) (remaining start == remaining start) iter
          next (find_loop 1 (remaining start) tag next) false (λ c. refl)
          (λ c. absurd (ground arith))
  find_loop-has_field info ptr (field after ptr' rest) index d z h =
      let iter = iter_of start (field info ptr (field after ptr' rest)) index dest d z in
      let next = (pb_field_iter_next iter).1 in
      ap (λ r. r.0) (find_loop_lem (suc (suc (remaining rest))) (remaining start) tag iter)
      ∙ round_status (matches tag (field info ptr (field after ptr' rest)))
          (suc (remaining rest) == remaining start) iter next
          (find_loop (suc (suc (remaining rest))) (remaining start) tag next)
          (has_field tag (field after ptr' rest)) (λ c. absurd (ground arith))
          (λ c.
            find_loop-has_field after ptr' rest next.required_field_index next.data_at next.size_at
              (omega arith))

found-has_field :
    (tag dest : ℕ) (fields : Fields)
    → tag ≢ 0
    → (pb_field_iter_find tag (iter_at fields dest)).0 ≡ has_field tag fields
unfolding pb_field_iter_find pb_field_iter_next
found-has_field tag dest last h =
    let iter = iter_at last dest in ap (λ r. r.0) (find_loop_lem 0 0 tag iter) ∙ ground arith
found-has_field tag dest (field info ptr rest) h =
    find_loop-has_field tag (field info ptr rest) dest info ptr rest 0 _ _ (omega arith)

-- pb_field_iter_find, from the first field of a message type, returns true exactly if a field other than
-- a placeholder for extensions has the tag, which is not 0.
pub pb_field_iter_find-names_field :
    (tag dest : ℕ) (fields : Fields)
    → tag ≢ 0
    → (pb_field_iter_find tag (iter_at fields dest)).0 ≡ names_field tag fields
pb_field_iter_find-names_field tag dest fields h =
    found-has_field tag dest fields h ∙ has_field-names_field tag fields
