-- ===== src/Nanopb/Release.antt =====
-- pb_release_single_field and pb_release of Kasei/Pods/nanopb/pb_decode.c: the blocks of a message are
-- given to free(), and the pointers to them set to NULL.
use kaseiapp.Base.{ℕ, zero, suc, ◌+◌, Bool, true, false, not, ◌&&◌, ◌||◌, ltb, ◌==◌, if◌then◌else◌}
use kaseiapp.Base.Memory.{Memory, load}
use kaseiapp.Nanopb.Pb.{FieldInfo, Atype, callback}
use kaseiapp.Nanopb.Fields.{
  Fields, last, field, Ptr, null, value, submsg, chain, Extensions, no_more, linked, is_extension,
  is_repeated, is_oneof, is_static, is_pointer, begin_data, data_after, size_address, size_after,
  found_address, extension_data,
}
use kaseiapp.Nanopb.Encode.{is_submessage, is_string_or_bytes}
use kaseiapp.Nanopb.Store.{Store, User, put, free_block}

abbrev pub is_callback : Atype → Bool
is_callback callback = true
is_callback _ = false

abbrev pub store_at : ℕ → ℕ → ℕ → Store → Store
store_at p n v st = record st { mem = put p n v st.mem }

-- `while (count--) { pb_release(fields, pItem); pItem += data_size; }`
unfoldable pub release_items : (ℕ → Store → Store) → ℕ → ℕ → ℕ → Store → Store
release_items sub step zero item st = st
release_items sub step (suc count) item st =
    release_items sub step count (item + step) (sub item st)

-- `while (count--) { pb_free(*pItem); *pItem++ = NULL; }`
unfoldable pub free_entries : User → ℕ → ℕ → Store → Store
unfolding free_block put
free_entries user zero item st = st
free_entries user (suc count) item st =
    free_entries user count (item + 8) (store_at item 8 0 (free_block user (load st.mem item 8) st))

-- How many submessages the field has.
abbrev pub release_count : FieldInfo → ℕ → ℕ → Memory → ℕ
release_count info p z mem =
    if not (is_repeated info.htype)
    then 1
    else if is_static info.atype && ((z == p) || ltb info.array_size (load mem z 4))
    then info.array_size
    else load mem z 4

abbrev pub first_item : FieldInfo → ℕ → Memory → ℕ
first_item info p mem = if is_pointer info.atype then load mem p 8 else p

abbrev pub release_submessages : FieldInfo → (ℕ → Store → Store) → ℕ → ℕ → Store → Store
release_submessages info sub p z st =
    if first_item info p st.mem == 0
    then st
    else release_items sub info.data_size (release_count info p z st.mem) (first_item info p st.mem)
        st

-- The block of a pointer field, and the entries of an array of strings or byte arrays.
unfoldable pub release_pointer : User → FieldInfo → ℕ → ℕ → Store → Store
unfolding free_entries free_block put
release_pointer user info p z st =
    let entries =
      if is_repeated info.htype && is_string_or_bytes info.ltype
      then free_entries user (load st.mem z 4) (load st.mem p 8) st
      else st in
    let counted = if is_repeated info.htype then store_at z 4 0 entries else entries in
    store_at p 8 0 (free_block user (load counted.mem p 8) counted)

-- `sub` releases a submessage, and `exts` the extensions of a placeholder.
unfoldable pub release_field :
    User → FieldInfo → (ℕ → Store → Store) → (Store → Store) → ℕ → ℕ → Store → Store
unfolding release_items release_pointer
release_field user info sub exts p z st =
    let inner =
      if is_extension info.ltype
      then exts st
      else if is_submessage info.ltype && not (is_callback info.atype)
      then release_submessages info sub p z st
      else st in
    let whole = if is_pointer info.atype then release_pointer user info p z inner else inner in
    if is_oneof info.htype && not (load st.mem z 4 == info.tag) then st else whole

module _ (user : User) where
  unfoldable mutual
    unfolding release_field

    pub release_fields : Fields → ℕ → ℕ → Store → Store
    release_fields last p z st = st
    release_fields (field info ptr rest) p z st =
        release_fields rest (data_after info rest p) (size_after info rest p z)
          (release_field user info (release_submessage ptr) (release_extensions ptr) p z st)

    pub release_submessage : Ptr → ℕ → Store → Store
    release_submessage null p st = st
    release_submessage (value a) p st = st
    release_submessage (submsg fields) p st =
        if p == 0
        then st
        else release_fields fields (begin_data fields p) (size_address fields (begin_data fields p))
            st
    release_submessage (chain exts) p st = st

    pub release_extensions : Ptr → Store → Store
    release_extensions null st = st
    release_extensions (value a) st = st
    release_extensions (submsg fields) st = st
    release_extensions (chain exts) st = release_chain exts st

    pub release_chain : Extensions → Store → Store
    release_chain no_more st = st
    release_chain (linked encode decode info ptr dest dest_member next) st = release_chain next (
        release_field user info (release_submessage ptr) (release_extensions ptr)
          (extension_data info dest dest_member) (found_address dest_member) st)

  unfoldable pub pb_release : Fields → ℕ → Store → Store
  unfolding release_fields
  pb_release fields dest = release_submessage (submsg fields) dest

  unfoldable pub release_single : FieldInfo → Ptr → ℕ → ℕ → Store → Store
  unfolding release_field release_fields
  release_single info ptr p z =
      release_field user info (release_submessage ptr) (release_extensions ptr) p z
