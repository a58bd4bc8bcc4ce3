-- ===== src/Nanopb/Wire.antt =====
-- The protocol buffers encoding of a message in memory with no streams, in the terms of
-- Kasei/Pods/nanopb/pb_encode.c: what its tests and conversions say it writes.
pub mod Values
mod Tests
pub mod Submessage
pub mod Array
pub mod Rules
pub mod Message
use kaseiapp.Base.{ℕ, zero, suc, ◌+◌, Bool, not, ◌&&◌, Option, none, some, []}
use kaseiapp.Base.{ltb, ◌==◌, if◌then◌else◌}
use kaseiapp.Base.Memory.{Memory, load, bytes_at, offset_by}
use kaseiapp.Nanopb.Pb.{
  FieldInfo, Ltype, bool, varint, uvarint, svarint, fixed32, fixed64, bytes, string, submessage,
  extension, fixed_length_bytes, is_packable, Htype, required, optional, repeated, oneof, Atype,
  static, pointer, callback, invalid,
}
use kaseiapp.Nanopb.Pb.WireType
use kaseiapp.Nanopb.Ostream.Emits.{Wire, emitted, stopped, join}
use kaseiapp.Nanopb.Write.{zigzag, fixed_bytes}
use kaseiapp.Nanopb.Write.Varint.{varint_bytes}
use kaseiapp.Nanopb.Write.Scalars.{tag_bytes, field_tag_bytes, string_bytes}
use kaseiapp.Nanopb.Fields.{
  Fields, last, field, Ptr, null, value, submsg, chain, Extensions, no_more, linked, is_extension,
  is_static, is_pointer, begin_data, data_after, extension_data,
}
use kaseiapp.Nanopb.Field.{safe_read_bool, sign_extend, is_int_size, string_size}
use kaseiapp.Nanopb.Encode.{item_address, is_present, field_data, item_count, sub_all_default}

-- Behind its length.
abbrev pub delimited : Wire → Wire
delimited (emitted bs) = emitted (string_bytes bs)
delimited (stopped bs) = stopped bs

-- The values at `p`, `p + step` and so on, `count` of them.
unfoldable pub items_wire : (ℕ → Wire) → ℕ → ℕ → ℕ → Wire
items_wire item step zero p = emitted []
items_wire item step (suc count) p = join (item p) (items_wire item step count (p + step))

module _ (mem : Memory) where
  -- The value of a field's type at `src`, without a tag.
  unfoldable pub value_wire : FieldInfo → Option (ℕ → Wire) → Ltype → ℕ → Wire
  value_wire info sub bool src = emitted (varint_bytes (if safe_read_bool mem src then 1 else 0))
  value_wire info sub varint src =
      if is_int_size info.data_size
      then emitted (varint_bytes (sign_extend info.data_size (load mem src info.data_size)))
      else stopped []
  value_wire info sub uvarint src =
      if is_int_size info.data_size
      then emitted (varint_bytes (load mem src info.data_size))
      else stopped []
  value_wire info sub svarint src =
      if is_int_size info.data_size
      then emitted
          (varint_bytes (zigzag (sign_extend info.data_size (load mem src info.data_size))))
      else stopped []
  value_wire info sub fixed32 src = emitted (fixed_bytes 4 (load mem src 4))
  value_wire info sub fixed64 src = emitted (fixed_bytes 8 (load mem src 8))
  value_wire info sub bytes src =
      if src == 0
      then emitted (string_bytes [])
      else if is_static info.atype && ltb info.data_size (load mem src 4 + 4)
      then stopped []
      else emitted (string_bytes (bytes_at mem (src + 4) (load mem src 4)))
  value_wire info sub string src =
      emitted (string_bytes (bytes_at mem src (string_size mem info src)))
  value_wire info none submessage src = stopped []
  value_wire info (some sub) submessage src = delimited (sub src)
  value_wire info sub extension src = stopped []
  value_wire info sub fixed_length_bytes src =
      emitted (string_bytes (bytes_at mem src info.data_size))

  abbrev pub tagged_wire : FieldInfo → (ℕ → Wire) → ℕ → Wire
  tagged_wire info item p = join (field_tag_bytes info) (item p)

  -- Numbers are packed under one tag; other values have a tag each.
  unfoldable pub array_wire : FieldInfo → (ℕ → Wire) → ℕ → ℕ → Wire
  array_wire info item count p =
      if count == 0
      then emitted []
      else if not (is_pointer info.atype) && ltb info.array_size count
      then stopped []
      else if is_packable info.ltype
      then join (emitted (tag_bytes WireType.string info.tag))
          (delimited (items_wire item info.data_size count p))
      else items_wire (λ q. tagged_wire info item (item_address mem info q)) info.data_size count p

  abbrev pub wire_by_rule : FieldInfo → (ℕ → Bool) → (ℕ → Wire) → ℕ → Htype → Wire
  wire_by_rule info sub_default item p required =
      if field_data mem info p == 0
      then stopped []
      else tagged_wire info item (field_data mem info p)
  wire_by_rule info sub_default item p optional =
      if is_present mem info sub_default p
      then tagged_wire info item (field_data mem info p)
      else emitted []
  wire_by_rule info sub_default item p repeated =
      array_wire info item (item_count mem info p) (field_data mem info p)
  wire_by_rule info sub_default item p oneof =
      if load mem (offset_by p info.size_offset) 4 == info.tag
      then tagged_wire info item (field_data mem info p)
      else emitted []

  -- What the user's functions write, by their addresses and arguments.
  module _ (callback_wire extension_wire : ℕ → ℕ → Wire) where
    abbrev pub wire_by_allocation : FieldInfo → Option (ℕ → Wire) → (ℕ → Bool) → ℕ → Atype → Wire
    wire_by_allocation info sub sub_default p static =
        wire_by_rule info sub_default (value_wire info sub info.ltype) p info.htype
    wire_by_allocation info sub sub_default p pointer =
        wire_by_rule info sub_default (value_wire info sub info.ltype) p info.htype
    wire_by_allocation info sub sub_default p callback =
        if load mem p 8 == 0 then emitted [] else callback_wire (load mem p 8) (p + 8)
    wire_by_allocation info sub sub_default p invalid = stopped []

    abbrev pub field_wire : FieldInfo → Option (ℕ → Wire) → (ℕ → Bool) → ℕ → Wire
    field_wire info sub sub_default p = wire_by_allocation info sub sub_default p info.atype

    -- A message: its fields one after another.
    unfoldable mutual
      pub fields_wire : Fields → ℕ → Wire
      fields_wire last p = emitted []
      fields_wire (field info ptr rest) p =
          join
            (if is_extension info.ltype
              then placeholder_wire ptr
              else field_wire info (sub_wire ptr) (sub_all_default mem ptr) p)
            (fields_wire rest (data_after info rest p))

      pub sub_wire : Ptr → Option (ℕ → Wire)
      sub_wire null = none
      sub_wire (value a) = none
      sub_wire (submsg fields) = some (λ p. fields_wire fields (begin_data fields p))
      sub_wire (chain exts) = none

      pub placeholder_wire : Ptr → Wire
      placeholder_wire null = emitted []
      placeholder_wire (value a) = emitted []
      placeholder_wire (submsg fields) = emitted []
      placeholder_wire (chain exts) = extensions_wire exts

      pub extensions_wire : Extensions → Wire
      extensions_wire no_more = emitted []
      extensions_wire (linked encode decode info ptr dest dest_member next) =
          join
            (if encode == 0
              then field_wire info (sub_wire ptr) (sub_all_default mem ptr)
                  (extension_data info dest dest_member)
              else extension_wire encode dest_member)
            (extensions_wire next)

    -- The encoding of the message at `src`.
    unfoldable pub message_wire : Fields → ℕ → Wire
    unfolding fields_wire
    message_wire fields src = fields_wire fields (begin_data fields src)
