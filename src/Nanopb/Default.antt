-- ===== src/Nanopb/Default.antt =====
-- pb_field_set_to_default and pb_message_set_to_defaults of Kasei/Pods/nanopb/pb_decode.c. Only memory
-- is written. Where `ptr` does not fit the type of a field (a submessage without descriptors, or
-- descriptors for another type), nothing is copied.
use kaseiapp.Base.{ℕ, ◌||◌, ◌==◌, if◌then◌else◌}
use kaseiapp.Base.Memory.{Memory}
use kaseiapp.Nanopb.Pb.{
  FieldInfo, Htype, required, optional, repeated, oneof, Atype, static, pointer, callback, invalid,
}
use kaseiapp.Nanopb.Fields.{
  Fields, last, field, Ptr, null, value, submsg, chain, Extensions, no_more, linked, is_extension,
  is_repeated, is_oneof, begin_data, data_after, size_address, size_after, found_address,
  extension_data,
}
use kaseiapp.Nanopb.Encode.{is_submessage}
use kaseiapp.Nanopb.Store.{put, clear, copy}

-- The initial value of a field that is no submessage.
abbrev pub copy_default : FieldInfo → Ptr → ℕ → Memory → Memory
copy_default info null p mem = clear p info.data_size mem
copy_default info (value a) p mem = copy p a info.data_size mem
copy_default info (submsg fields) p mem = mem
copy_default info (chain exts) p mem = mem

-- `sub` sets the fields of a submessage.
abbrev pub init_data : FieldInfo → Ptr → (ℕ → Memory → Memory) → ℕ → Memory → Memory
init_data info ptr sub p mem =
    if is_submessage info.ltype then sub p mem else copy_default info ptr p mem

abbrev pub static_by_rule :
    FieldInfo → Ptr → (ℕ → Memory → Memory) → ℕ → ℕ → Htype → Memory → Memory
static_by_rule info ptr sub p z required mem = init_data info ptr sub p mem
static_by_rule info ptr sub p z optional mem =
    init_data info ptr sub p (if z == p then mem else put z 1 0 mem)
static_by_rule info ptr sub p z repeated mem = put z 4 0 mem
static_by_rule info ptr sub p z oneof mem = put z 4 0 mem

abbrev pub default_by_allocation :
    FieldInfo → Ptr → (ℕ → Memory → Memory) → ℕ → ℕ → Atype → Memory → Memory
default_by_allocation info ptr sub p z static mem = static_by_rule info ptr sub p z info.htype mem
default_by_allocation info ptr sub p z pointer mem =
    if is_repeated info.htype || is_oneof info.htype
    then put z 4 0 (put p 8 0 mem)
    else put p 8 0 mem
default_by_allocation info ptr sub p z callback mem = mem
default_by_allocation info ptr sub p z invalid mem = mem

-- The fields from the data at `p` and the count or `has_` member at `z` on, what a `ptr` leads to, and
-- the extensions at a placeholder.
unfoldable mutual
  unfolding put clear copy

  pub set_fields : Fields → ℕ → ℕ → Memory → Memory
  set_fields last p z mem = mem
  set_fields (field info ptr rest) p z mem =
      set_fields rest (data_after info rest p) (size_after info rest p z) (
        if is_extension info.ltype
        then set_extensions ptr mem
        else default_by_allocation info ptr (set_submessage ptr) p z info.atype mem)

  pub set_submessage : Ptr → ℕ → Memory → Memory
  set_submessage null p mem = mem
  set_submessage (value a) p mem = mem
  set_submessage (submsg fields) p mem =
      set_fields fields (begin_data fields p) (size_address fields (begin_data fields p)) mem
  set_submessage (chain exts) p mem = mem

  pub set_extensions : Ptr → Memory → Memory
  set_extensions null mem = mem
  set_extensions (value a) mem = mem
  set_extensions (submsg fields) mem = mem
  set_extensions (chain exts) mem = set_chain exts mem

  pub set_chain : Extensions → Memory → Memory
  set_chain no_more mem = mem
  set_chain (linked encode decode info ptr dest dest_member next) mem = set_chain next (
      default_by_allocation info ptr (set_submessage ptr) (extension_data info dest dest_member)
        (found_address dest_member) info.atype (put (found_address dest_member) 1 0 mem))

unfoldable pub pb_message_set_to_defaults : Fields → ℕ → Memory → Memory
unfolding set_fields
pb_message_set_to_defaults fields dest =
    set_fields fields (begin_data fields dest) (size_address fields (begin_data fields dest))
