-- ===== src/Nanopb/Fields.antt =====
-- Field descriptors of Kasei/Pods/nanopb/pb.h, and the iterator of Kasei/Pods/nanopb/pb_common.c.
-- A descriptor array is a list that ends in PB_LAST_FIELD, and the arrays that its `ptr` members
-- lead to are parts of it. So a message type that contains itself is unrolled to a finite depth.
pub mod Find
use kaseiapp.Base.{ℕ, zero, suc, ◌+◌, ◌*◌, Bool, true, false, not, ◌&&◌, ◌==◌, if◌then◌else◌}
use kaseiapp.Base.Memory.{offset_by}
use kaseiapp.Nanopb.Pb.{
  FieldInfo, Ltype, extension, Htype, required, repeated, oneof, Atype, static, pointer, size_max,
}

-- The member `ptr`: NULL, the address of a default value, the array of a submessage, or, at the
-- placeholder for extensions, the `pb_extension_t`s that are chained to it: the addresses of the
-- `encode` and the `decode` function of the type, or 0 for NULL, the field descriptor, `dest`, and the
-- address of the member `dest`.
mutual
  pub data Fields : Type 0 where
    last : Fields
    field : FieldInfo → Ptr → Fields → Fields

  pub data Ptr : Type 0 where
    null : Ptr
    value : ℕ → Ptr
    submsg : Fields → Ptr
    chain : Extensions → Ptr

  pub data Extensions : Type 0 where
    no_more : Extensions
    linked : ℕ → ℕ → FieldInfo → Ptr → ℕ → ℕ → Extensions → Extensions

abbrev pub is_extension : Ltype → Bool
is_extension extension = true
is_extension _ = false

abbrev pub is_oneof : Htype → Bool
is_oneof oneof = true
is_oneof _ = false

abbrev pub is_repeated : Htype → Bool
is_repeated repeated = true
is_repeated _ = false

abbrev pub is_required : Htype → Bool
is_required required = true
is_required _ = false

abbrev pub is_static : Atype → Bool
is_static static = true
is_static _ = false

abbrev pub is_pointer : Atype → Bool
is_pointer pointer = true
is_pointer _ = false

-- `sizeof(void*)`
abbrev pub pointer_size : ℕ
pointer_size = 8

-- The room that a field takes in the struct.
abbrev pub prev_size : FieldInfo → ℕ
prev_size prev =
    if is_static prev.atype && is_repeated prev.htype
    then prev.data_size * prev.array_size
    else if is_pointer prev.atype
    then pointer_size
    else prev.data_size

-- The address of the next field's data: the members of a union share theirs.
abbrev pub next_data : FieldInfo → FieldInfo → ℕ → ℕ
next_data prev next p =
    if is_oneof prev.htype && is_oneof next.htype && (next.data_offset == size_max)
    then p
    else p + prev_size prev + next.data_offset

-- The address of the data of the first of these fields, in a struct at `p`.
abbrev pub begin_data : Fields → ℕ → ℕ
begin_data last p = p
begin_data (field info ptr rest) p = p + info.data_offset

-- The address of the data of the first of these fields, behind the field `prev` at `p`.
abbrev pub data_after : FieldInfo → Fields → ℕ → ℕ
data_after prev last p = p
data_after prev (field next ptr rest) p = next_data prev next p

-- The address of the count or `has_` member of the first of these fields, by that of the field `prev`
-- before it.
abbrev pub size_after : FieldInfo → Fields → ℕ → ℕ → ℕ
size_after prev last p z = z
size_after prev (field next ptr rest) p z =
    if is_oneof prev.htype && is_oneof next.htype && (next.data_offset == size_max)
    then z
    else offset_by (next_data prev next p) next.size_offset

-- `pb_field_iter_t`. The pointer `pos` is the part of the array from it on.
pub record Iter : Type 0 where
  pub start : Fields
  pub pos : Fields
  pub required_field_index : ℕ
  pub dest_struct : ℕ
  pub data_at : ℕ
  pub size_at : ℕ

abbrev pub size_address : Fields → ℕ → ℕ
size_address last p = p
size_address (field info ptr rest) p = offset_by p info.size_offset

abbrev pub is_last : Fields → Bool
is_last last = true
is_last (field info ptr rest) = false

abbrev pub iter_at : Fields → ℕ → Iter
iter_at fields dest = record {
  start = fields;
  pos = fields;
  required_field_index = 0;
  dest_struct = dest;
  data_at = begin_data fields dest;
  size_at = size_address fields (begin_data fields dest);
}

unfoldable pub pb_field_iter_begin : Fields → ℕ → Bool × Iter
pb_field_iter_begin fields dest = (not (is_last fields), iter_at fields dest)

-- The members of an extension: `found`, and the fields of the iterator that iter_from_extension makes.
abbrev pub found_address : ℕ → ℕ
found_address dest_member = dest_member + 16

abbrev pub extension_data : FieldInfo → ℕ → ℕ → ℕ
extension_data info dest dest_member = if is_pointer info.atype then dest_member else dest

abbrev pub iter_from_extension : FieldInfo → Ptr → ℕ → ℕ → Iter
iter_from_extension info ptr dest dest_member = record (iter_at (field info ptr last) dest) {
  data_at = extension_data info dest dest_member;
  size_at = found_address dest_member;
}

-- The step from the field `prev` to what follows it; at the end the iterator starts again.
abbrev pub iter_step : Iter → FieldInfo → Fields → Bool × Iter
iter_step iter prev last = (false, iter_at iter.start iter.dest_struct)
iter_step iter prev (field next ptr rest) = (
  true,
  record iter {
    pos = field next ptr rest;
    required_field_index =
        if is_oneof prev.htype && is_oneof next.htype && (next.data_offset == size_max)
        then iter.required_field_index
        else iter.required_field_index + (if is_required prev.htype then 1 else 0);
    data_at = next_data prev next iter.data_at;
    size_at =
        if is_oneof prev.htype && is_oneof next.htype && (next.data_offset == size_max)
        then iter.size_at
        else offset_by (next_data prev next iter.data_at) next.size_offset;
  },
)

abbrev pub iter_next_at : Iter → Fields → Bool × Iter
iter_next_at iter last = (false, iter)
iter_next_at iter (field prev ptr rest) = iter_step iter prev rest

unfoldable pub pb_field_iter_next : Iter → Bool × Iter
pb_field_iter_next iter = iter_next_at iter iter.pos

-- `iter->pos->tag == tag && PB_LTYPE(iter->pos->type) != PB_LTYPE_EXTENSION`; PB_LAST_FIELD has the
-- tag 0 and the type 0.
abbrev pub matches : ℕ → Fields → Bool
matches tag last = tag == 0
matches tag (field info ptr rest) = (info.tag == tag) && not (is_extension info.ltype)

-- The fields from a position on; two positions of an array are the same if these are as many.
abbrev pub remaining : Fields → ℕ
remaining last = 0
remaining (field info ptr rest) = suc (remaining rest)

-- The do loop of pb_field_iter_find, which ends when it is back at the position where it began.
unfoldable pub find_loop : ℕ → ℕ → ℕ → Iter → Bool × Iter
unfolding pb_field_iter_next
find_loop zero begun tag iter = (false, iter)
find_loop (suc rounds) begun tag iter =
    let next = (pb_field_iter_next iter).1 in
    let more = find_loop rounds begun tag next in
    if matches tag iter.pos
    then (true, iter)
    else if remaining next.pos == begun
    then (false, next)
    else more

-- The positions of an array are one more than its fields.
unfoldable pub pb_field_iter_find : ℕ → Iter → Bool × Iter
unfolding find_loop
pb_field_iter_find tag iter = find_loop (suc (remaining iter.start)) (remaining iter.pos) tag iter
