-- ===== src/Nanopb/Reference/Presence.antt =====
-- Which fields the reference encoding has: the tests of encode_basic_field and of
-- pb_check_proto3_default_value of Kasei/Pods/nanopb/pb_encode.c.
use kaseiapp.Base.{
  ℕ, zero, suc, ◌+◌, ◌≡◌, refl, sym, ap, ap₂, ◌∙◌, arith, Bool, true, false, not, ◌&&◌, ◌||◌, ltb,
  ◌==◌, if◌then◌else◌,
}
use kaseiapp.Base.Memory.{Memory, ℤ, pos, negsuc, load, offset_by, is_zero_offset}
use kaseiapp.Nanopb.Pb.{
  FieldInfo, Ltype, bool, varint, uvarint, svarint, fixed32, fixed64, bytes, string, submessage,
  extension, fixed_length_bytes, Htype, required, optional, repeated, oneof, Atype, static, pointer,
  callback, invalid, is_packable,
}
use kaseiapp.Nanopb.Fields.{
  Fields, last, field, Ptr, null, value, submsg, chain, is_static, is_pointer, begin_data,
  data_after,
}
use kaseiapp.Nanopb.Field.{safe_read_bool}
use kaseiapp.Nanopb.Encode.{
  all_zero, static_default, singular_default, default_by_rule, check_default, all_default,
  sub_all_default, is_present, field_data, item_count,
}
use kaseiapp.Nanopb.Reference.{
  is_number, has_member, has_nonzero, has_content, has_data, array_set, is_set, any_set,
  sub_any_set, is_there_by, is_there, data_of, count_of,
}
use kaseiapp.Nanopb.Reference.Values.{is_number_lem}

not-not : (b : Bool) → not (not b) ≡ b
not-not true = refl
not-not false = refl

not-or : (a b : Bool) → (a && not b) ≡ not (not a || b)
not-or true b = refl
not-or false b = refl

and-not : (a b : Bool) → (not a && not b) ≡ not (a || b)
and-not true b = refl
and-not false b = refl

if-not :
    (b x y x' y' : Bool)
    → x ≡ not x'
    → y ≡ not y'
    → (if b then x else y) ≡ not (if b then x' else y')
if-not true x y x' y' hx hy = hx
if-not false x y x' y' hx hy = hy

flip_if :
    (b x y x' y' : Bool)
    → x ≡ not x'
    → y ≡ not y'
    → (if not b then x else y) ≡ not (if b then y' else x')
flip_if true x y x' y' hx hy = hy
flip_if false x y x' y' hx hy = hx

pub has_member_lem : (z : ℤ) → not (is_zero_offset z) ≡ has_member z
has_member_lem (pos n) = ground arith
has_member_lem (negsuc n) = refl

is_zero_lem : (n : ℕ) → (n == 0) ≡ not (ltb 0 n)
is_zero_lem n = ground arith

module _ (mem : Memory) where
  has_nonzero_lem : (p n : ℕ) → all_zero mem p n ≡ not (has_nonzero mem p n)
  unfolding all_zero has_nonzero
  has_nonzero_lem p zero = refl
  has_nonzero_lem p (suc n) =
      ap (λ (b : Bool). (mem p == 0) && b) (has_nonzero_lem (p + 1) n)
      ∙ not-or (mem p == 0) (has_nonzero mem (p + 1) n)

  module _ (info : FieldInfo) (sub_default sub_set : ℕ → Bool)
      (h : (q : ℕ) → sub_default q ≡ not (sub_set q)) (p : ℕ) where
    has_content_lem :
        (t : Ltype)
        → static_default mem info sub_default p t ≡ not (has_content mem info sub_set p t)
    has_content_lem bool = has_nonzero_lem p info.data_size
    has_content_lem varint = has_nonzero_lem p info.data_size
    has_content_lem uvarint = has_nonzero_lem p info.data_size
    has_content_lem svarint = has_nonzero_lem p info.data_size
    has_content_lem fixed32 = has_nonzero_lem p info.data_size
    has_content_lem fixed64 = has_nonzero_lem p info.data_size
    has_content_lem bytes = is_zero_lem (load mem p 4)
    has_content_lem string = sym (not-not (mem p == 0))
    has_content_lem submessage = h p
    has_content_lem extension = has_nonzero_lem p info.data_size
    has_content_lem fixed_length_bytes = is_zero_lem info.data_size

    by_allocation :
        (a : Atype)
        → (if is_static a
            then static_default mem info sub_default p info.ltype
            else if is_pointer a && not (is_packable info.ltype)
            then load mem p 8 == 0
            else all_zero mem p info.data_size)
          ≡ not (has_data mem info sub_set p a)
    by_allocation static = has_content_lem info.ltype
    by_allocation pointer =
        ap (λ (b : Bool). if not b then load mem p 8 == 0 else all_zero mem p info.data_size)
          (is_number_lem info.ltype)
        ∙ flip_if (is_number info.ltype) _ _ (not (load mem p 8 == 0)) _
            (sym (not-not (load mem p 8 == 0))) (has_nonzero_lem p info.data_size)
    by_allocation callback = has_nonzero_lem p info.data_size
    by_allocation invalid = has_nonzero_lem p info.data_size

    has_data_lem :
        singular_default mem info sub_default p ≡ not (has_data mem info sub_set p info.atype)
    has_data_lem = by_allocation info.atype

    array_set_lem :
        (a : Atype)
        → info.atype ≡ a
        → (if is_static a then false else singular_default mem info sub_default p)
          ≡ not (array_set mem info sub_set p a)
    array_set_lem static e = refl
    array_set_lem pointer e =
        has_data_lem ∙ ap (λ (a : Atype). not (has_data mem info sub_set p a)) e
    array_set_lem callback e =
        has_data_lem ∙ ap (λ (a : Atype). not (has_data mem info sub_set p a)) e
    array_set_lem invalid e =
        has_data_lem ∙ ap (λ (a : Atype). not (has_data mem info sub_set p a)) e

    is_set_lem :
        (rule : Htype)
        → default_by_rule mem info sub_default p rule ≡ not (is_set mem info sub_set p rule)
    unfolding safe_read_bool
    is_set_lem required = refl
    is_set_lem optional =
        rw (has_member_lem info.size_offset)
          (if-not (has_member info.size_offset) _ _ _ _ refl has_data_lem)
    is_set_lem repeated = rw (has_member_lem info.size_offset) (
        if-not (has_member info.size_offset) _ _ _ _ (sym (not-not _))
          (array_set_lem info.atype refl))
    is_set_lem oneof = sym (not-not _)

    pub check_default_lem :
        check_default mem info sub_default p ≡ not (is_set mem info sub_set p info.htype)
    unfolding check_default
    check_default_lem = is_set_lem info.htype

    is_there_by_lem :
        (a : Atype)
        → info.atype ≡ a
        → (if is_pointer a
            then not (load mem p 8 == 0)
            else not (singular_default mem info sub_default p))
          ≡ is_there_by mem info sub_set p a
    is_there_by_lem pointer e = refl
    is_there_by_lem static e =
        ap not has_data_lem ∙ not-not _ ∙ ap (λ (a : Atype). has_data mem info sub_set p a) e
    is_there_by_lem callback e =
        ap not has_data_lem ∙ not-not _ ∙ ap (λ (a : Atype). has_data mem info sub_set p a) e
    is_there_by_lem invalid e =
        ap not has_data_lem ∙ not-not _ ∙ ap (λ (a : Atype). has_data mem info sub_set p a) e

    same_else :
        (b c x : Bool) (y : Bool → Bool) (z : Bool)
        → b ≡ c
        → (c ≡ false → y b ≡ z)
        → (if b then x else y b) ≡ (if c then x else z)
    same_else true true x y z e k = refl
    same_else false false x y z e k = k refl
    same_else true false x y z e k = cc
    same_else false true x y z e k = cc

    pub is_there_lem :
        info.htype ≡ optional → is_present mem info sub_default p ≡ is_there mem info sub_set p
    unfolding safe_read_bool check_default
    is_there_lem e =
        same_else (not (is_zero_offset info.size_offset)) (has_member info.size_offset)
          (not (mem (offset_by p info.size_offset) == 0))
          (λ member.
            if is_pointer info.atype
            then not (load mem p 8 == 0)
            else not (check_default mem info sub_default p))
          (is_there_by mem info sub_set p info.atype) (has_member_lem info.size_offset) without
      where
        by_optional :
            has_member info.size_offset ≡ false
            → check_default mem info sub_default p ≡ singular_default mem info sub_default p
        by_optional none =
            ap (default_by_rule mem info sub_default p) e
            ∙ rw (has_member_lem info.size_offset, none) refl

        without :
            has_member info.size_offset ≡ false
            → (if is_pointer info.atype
                then not (load mem p 8 == 0)
                else not (check_default mem info sub_default p))
              ≡ is_there_by mem info sub_set p info.atype
        without none = rw (by_optional none) (is_there_by_lem info.atype refl)

  mutual
    unfolding all_default any_set

    any_set_lem : (fields : Fields) (p : ℕ) → all_default mem fields p ≡ not (any_set mem fields p)
    any_set_lem last p = refl
    any_set_lem (field info ptr rest) p =
        ap₂ ◌&&◌
          (check_default_lem info (sub_all_default mem ptr) (sub_any_set mem ptr)
            (sub_any_set_lem ptr) p)
          (any_set_lem rest (data_after info rest p))
        ∙ and-not _ _

    pub sub_any_set_lem :
        (ptr : Ptr) (p : ℕ) → sub_all_default mem ptr p ≡ not (sub_any_set mem ptr p)
    sub_any_set_lem null p = refl
    sub_any_set_lem (value a) p = refl
    sub_any_set_lem (submsg fields) p = any_set_lem fields (begin_data fields p)
    sub_any_set_lem (chain exts) p = refl

  by_pointer : (p : ℕ) (a : Atype) → (if is_pointer a then load mem p 8 else p) ≡ data_of mem p a
  by_pointer p static = refl
  by_pointer p pointer = refl
  by_pointer p callback = refl
  by_pointer p invalid = refl

  pub data_of_lem : (info : FieldInfo) (p : ℕ) → field_data mem info p ≡ data_of mem p info.atype
  data_of_lem info p = by_pointer p info.atype

  pub count_of_lem : (info : FieldInfo) (p : ℕ) → item_count mem info p ≡ count_of mem info p
  count_of_lem info p =
      ap (λ (b : Bool). if b then load mem (offset_by p info.size_offset) 4 else info.array_size)
        (has_member_lem info.size_offset)
