-- ===== src/Nanopb/Flat/Seek.antt =====
-- pb_field_iter_find of Kasei/Pods/nanopb/pb_common.c, for a field that is ahead of the iterator.
use kaseiapp.Base.{
  ℕ, zero, suc, ◌+◌, ◌≤◌, ◌≡◌, refl, sym, ap, ◌∙◌, arith, Bool, true, false, ◌&&◌, ◌||◌, ◌==◌,
  if◌then◌else◌,
}
use mathlib.Core.Bool.{true≢false}
use kaseiapp.Nanopb.Pb.{FieldInfo, size_max}
use kaseiapp.Nanopb.Fields.{
  Fields, last, field, Iter, is_oneof, is_required, data_after, size_after, matches, remaining,
  find_loop, pb_field_iter_next, pb_field_iter_find,
}
use kaseiapp.Nanopb.Fields.Find.{has_field, iter_of, find_loop_lem}

-- The index of the field behind `prev`.
abbrev pub index_after : FieldInfo → Fields → ℕ → ℕ
index_after prev last index = index + (if is_required prev.htype then 1 else 0)
index_after prev (field next ptr rest) index =
    if is_oneof prev.htype && is_oneof next.htype && (next.data_offset == size_max)
    then index
    else index + (if is_required prev.htype then 1 else 0)

or_false : {a b : Bool} → a ≡ false → b ≡ false → (a || b) ≡ false
or_false e e' = rw (e, e') refl

or_right : {a b : Bool} → a ≡ false → (a || b) ≡ true → b ≡ true
or_right {a} {b} e h = ap (λ (c : Bool). c || b) (sym e) ∙ h

-- One round of the search.
picked :
    (b c : Bool) (i j : Iter) (r : Bool × Iter) (target : Iter)
    → (b ≡ false → c ≡ false)
    → (b ≡ false → r ≡ (true, target))
    → (if b then (true, i) else if c then (false, j) else r) ≡ (true, if b then i else target)
picked true c i j r target h k = refl
picked false true i j r target h k = absurd (true≢false (h refl))
picked false false i j r target h k = k refl

module _ (start : Fields) (dest tag : ℕ) where
  -- The iterator at the first of the fields from a position on that has the tag.
  abbrev pub sought : Fields → ℕ → ℕ → ℕ → Iter
  sought last index p z = iter_of start last index dest p z
  sought (field info ptr rest) index p z =
      if matches tag (field info ptr rest)
      then iter_of start (field info ptr rest) index dest p z
      else sought rest (index_after info rest index) (data_after info rest p)
          (size_after info rest p z)

  -- The search goes forward and does not come back to the position where it began.
  find_loop-sought :
      (pos : Fields) (rounds begun index p z : ℕ)
      → remaining pos ≤ begun
      → remaining pos ≤ rounds
      → has_field tag pos ≡ true
      → find_loop rounds begun tag (iter_of start pos index dest p z) ≡ (true, sought pos index p z)
  unfolding pb_field_iter_next
  find_loop-sought last rounds begun index p z h h' e = absurd (true≢false (sym e))
  find_loop-sought (field info ptr rest) zero begun index p z h h' e = absurd (omega arith)
  find_loop-sought (field info ptr last) (suc rounds) begun index p z h h' e =
      let iter = iter_of start (field info ptr last) index dest p z in
      find_loop_lem rounds begun tag iter
      ∙ picked (matches tag (field info ptr last))
          (remaining (pb_field_iter_next iter).1.pos == begun) iter (pb_field_iter_next iter).1 _ _
          (λ miss. absurd (true≢false (sym e ∙ or_false miss refl)))
          (λ miss. absurd (true≢false (sym e ∙ or_false miss refl)))
  find_loop-sought (field info ptr (field next nptr rest)) (suc rounds) begun index p z h h' e =
      let pos = field info ptr (field next nptr rest) in
      let iter = iter_of start pos index dest p z in
      let ahead = (pb_field_iter_next iter).1 in
      find_loop_lem rounds begun tag iter
      ∙ picked (matches tag pos) (suc (remaining rest) == begun) iter ahead _ _
          (λ miss. ground arith)
          (λ miss.
            find_loop-sought (field next nptr rest) rounds begun ahead.required_field_index
              ahead.data_at ahead.size_at (omega arith) (omega arith) (or_right miss e))

  pub find-sought :
      (pos : Fields) (index p z : ℕ)
      → remaining pos ≤ suc (remaining start)
      → has_field tag pos ≡ true
      → pb_field_iter_find tag (iter_of start pos index dest p z) ≡ (true, sought pos index p z)
  unfolding pb_field_iter_find
  find-sought pos index p z h e =
      find_loop-sought pos (suc (remaining start)) (remaining pos) index p z (omega arith) h e
