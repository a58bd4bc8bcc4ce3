-- ===== src/Nanopb/DecodeField.antt =====
-- decode_static_field, decode_pointer_field, decode_callback_field, decode_field and
-- pb_release_union_field of Kasei/Pods/nanopb/pb_decode.c.
use kaseiapp.Base.{ℕ, zero, suc, ◌+◌, ◌-◌, ◌*◌, ◌/◌, ◌%◌, ◌^◌, Bool, not, ◌&&◌}
use kaseiapp.Base.{some, ltb, leb, ◌==◌, if◌then◌else◌}
use kaseiapp.Base.Memory.{Memory, load}
use kaseiapp.Nanopb.Pb.{
  FieldInfo, Htype, required, optional, repeated, oneof, is_packable, size_max, array_overflow,
  too_many_entries,
}
use kaseiapp.Nanopb.Pb.WireType
use kaseiapp.Nanopb.Istream.{Istream}
use kaseiapp.Nanopb.Read.{pb_make_string_substream}
use kaseiapp.Nanopb.Fields.{Ptr, is_oneof}
use kaseiapp.Nanopb.Encode.{is_submessage, is_string_or_bytes}
use kaseiapp.Nanopb.Store.{
  Store, good, bad, hangs, Result, Step, succeed, fail, ◌>>◌, reading, writing, looking, put, clear,
  User,
}
use kaseiapp.Nanopb.Item.{allocate_field, close_after}
use kaseiapp.Nanopb.Default.{set_submessage}
use kaseiapp.Nanopb.Release.{release_single}

-- The address of the entry at the end of the array at `base`, by the count at `z`. The product is a
-- pb_size_t.
abbrev pub next_entry : FieldInfo → ℕ → ℕ → Memory → ℕ
next_entry info base z mem = base + info.data_size * load mem z 4 % 2 ^ 32

-- `(*size)++`
abbrev pub count_up : ℕ → Step
count_up z = writing (λ mem. put z 4 (load mem z 4 + 1) mem)

abbrev pub has_room : FieldInfo → ℕ → Istream → Store → Bool
has_room info z sub st = ltb 0 sub.bytes_left && ltb (load st.mem z 4) info.array_size

-- The while loop over a packed array in the struct. An entry takes a byte at least, so `bytes_left`
-- rounds are enough.
unfoldable pub packed_items : FieldInfo → (ℕ → Step) → ℕ → ℕ → ℕ → Step
unfolding put
packed_items info func p z zero sub st =
    if has_room info z sub st then (hangs, sub, st) else succeed sub st
packed_items info func p z (suc rounds) sub st =
    let more =
      (looking (λ mem. func (next_entry info p z mem))
          >> count_up z
          >> packed_items info func p z rounds)
        sub st in
    if has_room info z sub st then more else succeed sub st

-- What is left in the substream is an overflow, whether the loop broke off or the array is full.
abbrev pub packed_end : Istream → Result → Result
packed_end s (hangs, sub, st) = (hangs, s, st)
packed_end s (good, sub, st) =
    if sub.bytes_left == 0 then close_after s (good, sub, st) else fail array_overflow s st
packed_end s (bad, sub, st) =
    if sub.bytes_left == 0 then close_after s (bad, sub, st) else fail array_overflow s st

unfoldable pub static_packed : FieldInfo → (ℕ → Step) → ℕ → ℕ → Step
unfolding packed_items
static_packed info func p z =
    reading pb_make_string_substream
      λ sub s st. packed_end s (packed_items info func p z sub.bytes_left sub st)

-- The count goes up before it is known whether the entry has room.
unfoldable pub static_entry : FieldInfo → (ℕ → Step) → ℕ → ℕ → Step
unfolding put
static_entry info func p z = looking λ mem.
    count_up z
    >> (if leb info.array_size (load mem z 4)
        then fail array_overflow
        else func (next_entry info p z mem))

-- memset() to zero, and the default values of a submessage.
unfoldable pub fresh_submessage : FieldInfo → Ptr → ℕ → Memory → Memory
unfolding clear set_submessage
fresh_submessage info ptr q mem = set_submessage ptr q (clear q info.data_size mem)

abbrev pub static_by_rule : FieldInfo → Ptr → (ℕ → Step) → ℕ → ℕ → ℕ → Htype → Step
static_by_rule info ptr func wire_type p z required = func p
static_by_rule info ptr func wire_type p z optional =
    (if z == p then succeed else writing (put z 1 1)) >> func p
static_by_rule info ptr func wire_type p z repeated =
    if wire_type == WireType.string && is_packable info.ltype
    then static_packed info func p z
    else static_entry info func p z
static_by_rule info ptr func wire_type p z oneof =
    writing (put z 4 info.tag)
    >> (if is_submessage info.ltype then writing (fresh_submessage info ptr p) else succeed)
    >> func p

unfoldable pub decode_static_field : FieldInfo → Ptr → (ℕ → Step) → ℕ → ℕ → ℕ → Step
unfolding put static_packed static_entry fresh_submessage
decode_static_field info ptr func wire_type p z =
    static_by_rule info ptr func wire_type p z info.htype

unfoldable pub initialize_pointer_field : FieldInfo → Ptr → ℕ → Memory → Memory
unfolding put fresh_submessage
initialize_pointer_field info ptr q mem =
    if is_string_or_bytes info.ltype
    then put q 8 0 mem
    else if is_submessage info.ltype
    then fresh_submessage info ptr q mem
    else mem

abbrev pub new_item : FieldInfo → Ptr → (ℕ → Step) → ℕ → Step
new_item info ptr func q = writing (initialize_pointer_field info ptr q) >> func q

-- An old submessage is released before the new one is made.
abbrev pub release_duplicate : User → FieldInfo → Ptr → ℕ → ℕ → Step
release_duplicate user info ptr p z s st =
    if is_submessage info.ltype && not (load st.mem p 8 == 0)
    then (good, s, release_single user info ptr p z st)
    else (good, s, st)

unfoldable pub pointer_single : User → FieldInfo → Ptr → (ℕ → Step) → ℕ → ℕ → Step
unfolding put initialize_pointer_field allocate_field release_single
pointer_single user info ptr func p z =
    release_duplicate user info ptr p z
    >> (if is_oneof info.htype then writing (put z 4 info.tag) else succeed)
    >> (if is_string_or_bytes info.ltype
        then func p
        else allocate_field user p info.data_size 1
          >> looking (λ mem. new_item info ptr func (load mem p 8)))

-- The entries to reserve: a guess by the bytes that are left. The difference is a size_t.
abbrev pub grown : FieldInfo → ℕ → ℕ → ℕ
grown info allocated bytes_left =
    let remain = (bytes_left - 1) / info.data_size + 1 in
    if ltb remain ((2 ^ 64 + size_max - allocated) % 2 ^ 64)
    then (allocated + remain) % 2 ^ 64
    else (allocated + 1) % 2 ^ 64

abbrev pub enlarged : FieldInfo → ℕ → ℕ → ℕ → ℕ
enlarged info size allocated bytes_left =
    if ltb allocated (size + 1) then grown info allocated bytes_left else allocated

-- Room for one more entry, and the entry.
abbrev pub pointer_entry : User → FieldInfo → Ptr → (ℕ → Step) → ℕ → ℕ → ℕ → ℕ → ℕ → Step
pointer_entry user info ptr func p z size allocated bytes_left =
    (if ltb allocated (size + 1)
      then allocate_field user p info.data_size (grown info allocated bytes_left)
      else succeed)
    >> looking (λ mem. new_item info ptr func (next_entry info (load mem p 8) z mem))
    >> count_up z

abbrev pub continue_or_close : Istream → Result → Step → Result
continue_or_close s (good, sub, st) next = next sub st
continue_or_close s (bad, sub, st) next = close_after s (bad, sub, st)
continue_or_close s (hangs, sub, st) next = (hangs, s, st)

-- The while loop over a packed array behind a pointer, and the closing of the substream into `s`.
unfoldable pub pointer_items : User → FieldInfo → Ptr → (ℕ → Step) → ℕ → ℕ → ℕ → ℕ → Istream → Step
unfolding put initialize_pointer_field allocate_field
pointer_items user info ptr func p z zero allocated s sub st =
    if sub.bytes_left == 0 then close_after s (good, sub, st) else (hangs, s, st)
pointer_items user info ptr func p z (suc rounds) allocated s sub st =
    let size = load st.mem z 4 in
    let next =
      pointer_items user info ptr func p z rounds (enlarged info size allocated sub.bytes_left) s in
    let more =
      continue_or_close s
        (pointer_entry user info ptr func p z size allocated sub.bytes_left sub st) next in
    if sub.bytes_left == 0
    then close_after s (good, sub, st)
    else if size == size_max
    then close_after (record s { errmsg = some too_many_entries }) (bad, sub, st)
    else more

unfoldable pub pointer_packed : User → FieldInfo → Ptr → (ℕ → Step) → ℕ → ℕ → Step
unfolding pointer_items
pointer_packed user info ptr func p z = looking λ mem.
    reading pb_make_string_substream
      λ sub s. pointer_items user info ptr func p z sub.bytes_left (load mem z 4) s sub

unfoldable pub pointer_repeated : User → FieldInfo → Ptr → (ℕ → Step) → ℕ → ℕ → Step
unfolding put initialize_pointer_field allocate_field
pointer_repeated user info ptr func p z = looking λ mem.
    if load mem z 4 == size_max
    then fail too_many_entries
    else allocate_field user p info.data_size (load mem z 4 + 1)
      >> looking λ grown_mem.
        count_up z >> new_item info ptr func (next_entry info (load grown_mem p 8) z grown_mem)

abbrev pub pointer_by_rule : User → FieldInfo → Ptr → (ℕ → Step) → ℕ → ℕ → ℕ → Htype → Step
pointer_by_rule user info ptr func wire_type p z repeated =
    if wire_type == WireType.string && is_packable info.ltype
    then pointer_packed user info ptr func p z
    else pointer_repeated user info ptr func p z
pointer_by_rule user info ptr func wire_type p z _ = pointer_single user info ptr func p z

unfoldable pub decode_pointer_field : User → FieldInfo → Ptr → (ℕ → Step) → ℕ → ℕ → ℕ → Step
unfolding pointer_single pointer_packed pointer_repeated
decode_pointer_field user info ptr func wire_type p z =
    pointer_by_rule user info ptr func wire_type p z info.htype
