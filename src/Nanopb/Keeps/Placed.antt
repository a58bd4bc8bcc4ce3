-- ===== src/Nanopb/Keeps/Placed.antt =====
-- The positions and addresses of the iterator of Kasei/Pods/nanopb/pb_common.c over the fields of a
-- message.
use kaseiapp.Base.{ℕ, ◌≡◌, refl, sym, true, false}
use mathlib.Core.Bool.{true≢false}
use mathlib.Core.Path.{subst}
use kaseiapp.Base.Memory.{Memory}
use kaseiapp.Nanopb.Pb.{FieldInfo, Htype, required, optional, repeated, oneof}
use kaseiapp.Nanopb.Fields.{
  Fields, last, field, Ptr, is_oneof, is_repeated, data_after, size_after, Iter, iter_at,
  iter_next_at, pb_field_iter_next, pb_field_iter_find,
}
use kaseiapp.Nanopb.Required.{htype_at}
use kaseiapp.Nanopb.Progress.{find_extension_field, fixed_count_at}
use kaseiapp.Nanopb.DecodeCallback.{iter_after_release}
use kaseiapp.Nanopb.Moves.{find-keeps, find_extension-keeps, after_release-keeps}
use kaseiapp.Nanopb.Keeps.{Avoids}
use kaseiapp.Nanopb.Keeps.Field.{RuleFits}
use kaseiapp.Nanopb.Keeps.Layout.{Suffix, whole, behind, FieldsFit, StructFits}

-- The invariant of an iterator over `fields`.
pub record Placed (kept : ℕ → Type 0) (fields : Fields) (iter : Iter) : Type 0 where
  pub from_start : iter.start ≡ fields
  pub suffix : Suffix iter.pos fields
  pub struct_fits : StructFits kept fields iter.dest_struct
  pub rest_fits : FieldsFit kept iter.pos iter.data_at iter.size_at

next_suffix :
    {info : FieldInfo} {ptr : Ptr} {rest : Fields} (fields : Fields)
    → Suffix (field info ptr rest) fields
    → Suffix rest fields
next_suffix _ (whole _) = behind _ _ (whole _)
next_suffix _ (behind info ptr s) = behind info ptr (next_suffix _ s)

module _ (kept : ℕ → Type 0) (fields : Fields) where
  pub iter_at-Placed :
      (dest : ℕ) → StructFits kept fields dest → Placed kept fields (iter_at fields dest)
  iter_at-Placed dest fits = record {
    from_start = refl;
    suffix = whole fields;
    struct_fits = fits;
    rest_fits = fits;
  }

  next_at-Placed :
      (iter : Iter) (pos : Fields)
      → Placed kept fields iter
      → Suffix pos fields
      → FieldsFit kept pos iter.data_at iter.size_at
      → Placed kept fields (iter_next_at iter pos).1
  unfolding FieldsFit
  next_at-Placed iter last h s fits = h
  next_at-Placed iter (field info ptr last) h s (fits, later) =
      subst (λ (start : Fields). Placed kept fields (iter_at start iter.dest_struct))
        (sym h.from_start) (iter_at-Placed iter.dest_struct h.struct_fits)
  next_at-Placed iter (field info ptr (field next nptr rest)) h s (fits, later) = record {
    from_start = h.from_start;
    suffix = next_suffix fields s;
    struct_fits = h.struct_fits;
    rest_fits = later;
  }

  next-Placed :
      (iter : Iter) → Placed kept fields iter → Placed kept fields (pb_field_iter_next iter).1
  unfolding pb_field_iter_next
  next-Placed iter h = next_at-Placed iter iter.pos h h.suffix h.rest_fits

  -- pb_field_iter_find, of any tag and whether it finds the field or not, keeps the invariant of the
  -- iterator: the position is one of the message's fields, and the addresses computed for it and for the
  -- fields behind it lie outside a set that the layout of the struct lies outside of.
  pub find-Placed :
      (tag : ℕ) (iter : Iter)
      → Placed kept fields iter
      → Placed kept fields (pb_field_iter_find tag iter).1
  find-Placed = find-keeps (Placed kept fields) next-Placed

  pub find_extension-Placed :
      (iter : Iter) → Placed kept fields iter → Placed kept fields (find_extension_field iter).1
  find_extension-Placed = find_extension-keeps (Placed kept fields) next-Placed

  pub after_release-Placed :
      (mem : Memory) (iter : Iter)
      → Placed kept fields iter
      → Placed kept fields (iter_after_release mem iter)
  after_release-Placed = after_release-keeps (Placed kept fields) next-Placed

  -- A field of fixed count is given another counter, at which no address is kept.
  fixed_rule :
      (info : FieldInfo) (p z : ℕ) (rule : Htype)
      → Avoids kept fixed_count_at 4
      → is_repeated rule ≡ true
      → RuleFits kept info p z rule
      → RuleFits kept info p fixed_count_at rule
  fixed_rule info p z repeated av e (avp, small, avz) = (avp, small, av)
  fixed_rule info p z required av e fits = absurd (true≢false (sym e))
  fixed_rule info p z optional av e fits = absurd (true≢false (sym e))
  fixed_rule info p z oneof av e fits = absurd (true≢false (sym e))

  not_union : (rule : Htype) → is_repeated rule ≡ true → is_oneof rule ≡ false
  not_union repeated e = refl
  not_union required e = refl
  not_union optional e = refl
  not_union oneof e = sym e

  -- Only the members of a union share the place of the `which_` member before them.
  other_size :
      (info : FieldInfo) (rest : Fields) (p z y : ℕ)
      → is_oneof info.htype ≡ false
      → FieldsFit kept rest (data_after info rest p) (size_after info rest p z)
      → FieldsFit kept rest (data_after info rest p) (size_after info rest p y)
  unfolding FieldsFit
  other_size info last p z y e later = later
  other_size info (field next nptr rest) p z y e later =
      subst
        (λ (q : ℕ).
          FieldsFit kept (field next nptr rest) (data_after info (field next nptr rest) p) q)
        same later
    where
      same : size_after info (field next nptr rest) p z ≡ size_after info (field next nptr rest) p y
      same = rw (e) refl

  fixed_fit :
      (pos : Fields) (p z : ℕ)
      → Avoids kept fixed_count_at 4
      → is_repeated (htype_at pos) ≡ true
      → FieldsFit kept pos p z
      → FieldsFit kept pos p fixed_count_at
  unfolding FieldsFit
  fixed_fit last p z av e fits = fits
  fixed_fit (field info ptr rest) p z av e (fits, later) = (
    fixed_rule info p z info.htype av e fits,
    other_size info rest p z fixed_count_at (not_union info.htype e) later,
  )

  pub fixed-Placed :
      (iter : Iter)
      → Avoids kept fixed_count_at 4
      → is_repeated (htype_at iter.pos) ≡ true
      → Placed kept fields iter
      → Placed kept fields (record iter { size_at = fixed_count_at })
  fixed-Placed iter av e h = record {
    from_start = h.from_start;
    suffix = h.suffix;
    struct_fits = h.struct_fits;
    rest_fits = fixed_fit iter.pos iter.data_at iter.size_at av e h.rest_fits;
  }
