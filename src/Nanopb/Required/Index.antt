-- ===== src/Nanopb/Required/Index.antt =====
-- The member `required_field_index` of the iterator of Kasei/Pods/nanopb/pb_common.c, and the number of
-- the required fields that pb_decode_noinit of Kasei/Pods/nanopb/pb_decode.c finds with it.
use kaseiapp.Base.{
  ℕ, ◌+◌, ◌<◌, ◌≡◌, ◌≢◌, refl, sym, ap, ◌∙◌, arith, Bool, true, false, some, List, [], ◌∷◌, ◌++◌,
  append_assoc, length, length-append, get_elem?, get_elem?-append, get_elem?-bound, min, ◌&&◌,
  ◌==◌, if◌then◌else◌,
}
use mathlib.Core.Path.{subst}
use mathlib.Core.Option.{none-ne-some}
use kaseiapp.Nanopb.Pb.{FieldInfo, Htype, required, optional, repeated, oneof, size_max}
use kaseiapp.Nanopb.Fields.{
  Fields, last, field, Ptr, Iter, iter_at, iter_next_at, is_required, is_oneof, pb_field_iter_next,
  remaining,
}
use kaseiapp.Nanopb.Required.{seek_end, counted_last, has_tag, at_most}
use kaseiapp.Nanopb.Progress.{required_count}

-- The tags of the required fields, in the order of the fields.
abbrev pub required_tag : FieldInfo → List ℕ
required_tag info = if is_required info.htype then info.tag ∷ [] else []

abbrev pub required_tags : Fields → List ℕ
required_tags last = []
required_tags (field info ptr rest) = required_tag info ++ required_tags rest

-- Only PB_LAST_FIELD has the tag 0.
abbrev pub StartsTagged : Fields → Type 0
StartsTagged last = Unit
StartsTagged (field info ptr rest) = info.tag ≢ 0

-- The index is the number of the required fields before the position.
pub record IndexedAt (fields start pos : Fields) (index : ℕ) : Type 0 where
  pub from_start : start ≡ fields
  pub before : List ℕ
  pub counted : length before ≡ index
  pub parted : required_tags fields ≡ before ++ required_tags pos

abbrev pub Indexed : Fields → Iter → Type 0
Indexed fields iter = IndexedAt fields iter.start iter.pos iter.required_field_index

pub iter_at-Indexed : (fields : Fields) (dest : ℕ) → Indexed fields (iter_at fields dest)
iter_at-Indexed fields dest = record {
  from_start = refl;
  before = [];
  counted = refl;
  parted = refl;
}

abbrev pub one_if_required : FieldInfo → ℕ
one_if_required info = if is_required info.htype then 1 else 0

pub length-required_tag : (info : FieldInfo) → length (required_tag info) ≡ one_if_required info
length-required_tag info = ground arith

-- The members of a union are not required.
pub union_index :
    (rule : Htype) (b c : Bool) (index : ℕ)
    → (if is_oneof rule && b && c then index else index + (if is_required rule then 1 else 0))
      ≡ index + (if is_required rule then 1 else 0)
union_index oneof true true index = omega arith
union_index oneof true false index = refl
union_index oneof false c index = refl
union_index required b c index = refl
union_index optional b c index = refl
union_index repeated b c index = refl

-- The tags before the next field.
next_parted :
    (fields : Fields) (info : FieldInfo) (ptr : Ptr) (rest : Fields) (before : List ℕ)
    → required_tags fields ≡ before ++ required_tags (field info ptr rest)
    → required_tags fields ≡ (before ++ required_tag info) ++ required_tags rest
next_parted fields info ptr rest before e =
    e ∙ sym (append_assoc before (required_tag info) (required_tags rest))

next_counted :
    (info : FieldInfo) (before : List ℕ) (index : ℕ)
    → length before ≡ index
    → length (before ++ required_tag info) ≡ index + one_if_required info
next_counted info before index e =
    omega (arith, length-append before (required_tag info), length-required_tag info)

last_count :
    (b : Bool) (tag index : ℕ)
    → (if b && true then index + 1 else index) ≡ index + length ((if b then tag ∷ [] else []) ++ [])
last_count true tag index = refl
last_count false tag index = omega arith

module _ (fields : Fields) where
  next_at-Indexed :
      (iter : Iter) (pos : Fields)
      → Indexed fields iter
      → IndexedAt fields iter.start pos iter.required_field_index
      → Indexed fields (iter_next_at iter pos).1
  next_at-Indexed iter last h hp = h
  next_at-Indexed iter (field info ptr last) h hp =
      subst (λ (start : Fields). Indexed fields (iter_at start iter.dest_struct)) (sym h.from_start)
        (iter_at-Indexed fields iter.dest_struct)
  next_at-Indexed iter (field info ptr (field next nptr rest)) h hp = record {
    from_start = h.from_start;
    before = hp.before ++ required_tag info;
    counted =
        next_counted info hp.before iter.required_field_index hp.counted
        ∙ sym (
            union_index info.htype (is_oneof next.htype) (next.data_offset == size_max)
              iter.required_field_index);
    parted = next_parted fields info ptr (field next nptr rest) hp.before hp.parted;
  }

  pub next-Indexed :
      (iter : Iter) → Indexed fields iter → Indexed fields (pb_field_iter_next iter).1
  unfolding pb_field_iter_next
  next-Indexed iter h = next_at-Indexed iter iter.pos h h

  -- The element of the tags that the index counts up to.
  pub get_elem?-required :
      {start pos : Fields} {index : ℕ} (h : IndexedAt fields start pos index)
      → get_elem? (required_tags fields) index ≡ get_elem? (required_tags pos) 0
  get_elem?-required {pos = pos} {index} h =
      ap (λ (tags : List ℕ). get_elem? tags index) h.parted
      ∙ ap (get_elem? (h.before ++ required_tags pos)) (omega (arith, h.counted))
      ∙ get_elem?-append h.before (required_tags pos) 0

  module _ (dest : ℕ) (tagged : has_tag fields ≡ true) where
    abbrev iter_of : Fields → ℕ → ℕ → ℕ → Iter
    iter_of pos index data_at size_at = record {
      start = fields;
      pos = pos;
      required_field_index = index;
      dest_struct = dest;
      data_at = data_at;
      size_at = size_at;
    }

    -- The fields that are left are counted up to the last.
    seek_end-count :
        (pos : Fields) (index p z : ℕ)
        → counted_last (seek_end (remaining pos) (iter_of pos index p z))
          ≡ index + length (required_tags pos)
    unfolding seek_end pb_field_iter_next
    seek_end-count last index p z = omega arith
    seek_end-count (field info ptr last) index p z =
        rw tagged (last_count (is_required info.htype) info.tag index)
    seek_end-count (field info ptr (field next nptr rest)) index p z =
        let next_iter =
          (pb_field_iter_next (iter_of (field info ptr (field next nptr rest)) index p z)).1 in
        omega (
          arith,
          seek_end-count (field next nptr rest) next_iter.required_field_index next_iter.data_at
              next_iter.size_at,
          union_index info.htype (is_oneof next.htype) (next.data_offset == size_max) index,
          length-append (required_tag info) (required_tags (field next nptr rest)),
          length-required_tag info,
        )

  seek_end-Indexed :
      (iter : Iter)
      → has_tag fields ≡ true
      → Indexed fields iter
      → counted_last (seek_end (remaining iter.pos) iter) ≡ length (required_tags fields)
  seek_end-Indexed iter tagged h =
      subst
        (λ (start : Fields).
          counted_last (seek_end (remaining iter.pos) (record iter { start = start }))
          ≡ length (required_tags fields))
        (sym h.from_start)
        (omega (
          arith,
          seek_end-count iter.dest_struct tagged iter.pos iter.required_field_index iter.data_at
              iter.size_at,
          h.counted,
          ap length h.parted,
          length-append h.before (required_tags iter.pos),
        ))

  -- The number of required fields that pb_decode_noinit checks, from wherever the iterator was left by the
  -- steps and searches before, is that of all required fields of the message type, or 64 if there are
  -- more. The message type has a first field, whose tag is not 0.
  pub required_count_lem :
      (iter : Iter)
      → has_tag fields ≡ true
      → Indexed fields iter
      → required_count iter ≡ min 64 (length (required_tags fields))
  unfolding required_count
  required_count_lem iter tagged h = ap (at_most 64) (seek_end-Indexed iter tagged h) ∙ ground arith

  -- The required fields up to the 64th are among those.
  pub required_count-above :
      (iter : Iter) (i t : ℕ)
      → StartsTagged fields
      → Indexed fields iter
      → i < 64
      → get_elem? (required_tags fields) i ≡ some t
      → i < required_count iter
  required_count-above iter i t tagged h lt at = omega (
    arith,
    required_count_lem iter (starts fields tagged at) h,
    get_elem?-bound (required_tags fields) i t at,
  )
    where
      starts :
          (start : Fields)
          → StartsTagged start
          → get_elem? (required_tags start) i ≡ some t
          → has_tag start ≡ true
      starts last tagged' at' = absurd (none-ne-some t at')
      starts (field info ptr rest) tagged' at' = ground arith
