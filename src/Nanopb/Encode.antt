-- ===== src/Nanopb/Encode.antt =====
-- encode_array, pb_check_proto3_default_value, encode_field and pb_encode of
-- Kasei/Pods/nanopb/pb_encode.c, over a message in memory.
use kaseiapp.Base.{ℕ, zero, suc, ◌+◌, ◌*◌, Bool, true, false, not, ◌&&◌}
use kaseiapp.Base.{Option, none, some, [], ◌∷◌, ltb, ◌==◌, if◌then◌else◌}
use kaseiapp.Base.Memory.{Memory, load, offset_by, is_zero_offset}
use kaseiapp.Nanopb.Pb.{
  FieldInfo, Ltype, bytes, string, submessage, fixed32, fixed64, fixed_length_bytes, is_packable,
  Htype, required, optional, repeated, oneof, Atype, static, pointer, callback, invalid,
  array_max_size_exceeded, missing_required_field, invalid_field_type, callback_error,
}
use kaseiapp.Nanopb.Pb.WireType
use kaseiapp.Nanopb.Ostream.{
  Ostream, Writer, done, fail, ◌>>◌, is_null, pb_write, pb_ostream_sizing,
}
use kaseiapp.Nanopb.Write.{pb_encode_varint, pb_encode_tag, pb_encode_tag_for_field}
use kaseiapp.Nanopb.Fields.{
  Fields, last, field, Ptr, null, value, submsg, chain, Extensions, no_more, linked, is_extension,
  is_static, is_pointer, extension_data, begin_data, data_after,
}
use kaseiapp.Nanopb.Field.{safe_read_bool, encoder_for, pb_encode_submessage}

-- `for (i = 0; i < count; i++) { if (!func(stream, p)) return false; p += step; }`
unfoldable pub encode_items : (ℕ → Writer) → ℕ → ℕ → ℕ → Writer
encode_items func step zero p = done
encode_items func step (suc count) p = func p >> encode_items func step count (p + step)

-- The bytes that a sizing stream has counted, if the pass succeeded.
abbrev pub counted : Bool × Ostream → Option ℕ
counted (true, s) = some s.bytes_written
counted (false, s) = none

-- The size of a packed array.
abbrev pub packed_size : FieldInfo → (ℕ → Writer) → ℕ → ℕ → Ltype → Option ℕ
packed_size info func count p fixed32 = some (4 * count)
packed_size info func count p fixed64 = some (8 * count)
packed_size info func count p _ =
    counted (encode_items func info.data_size count p pb_ostream_sizing)

abbrev pub packed_data : FieldInfo → (ℕ → Writer) → ℕ → ℕ → ℕ → Writer
packed_data info func count p size s =
    if is_null s.callback then pb_write [] size s else encode_items func info.data_size count p s

abbrev pub packed_body : FieldInfo → (ℕ → Writer) → ℕ → ℕ → Option ℕ → Writer
packed_body info func count p none = λ s. (false, s)
packed_body info func count p (some size) =
    pb_encode_varint size >> packed_data info func count p size

unfoldable pub encode_packed : FieldInfo → (ℕ → Writer) → ℕ → ℕ → Writer
unfolding encode_items
encode_packed info func count p =
    pb_encode_tag WireType.string info.tag
    >> packed_body info func count p (packed_size info func count p info.ltype)

abbrev pub is_string_or_bytes : Ltype → Bool
is_string_or_bytes string = true
is_string_or_bytes bytes = true
is_string_or_bytes _ = false

abbrev pub is_submessage : Ltype → Bool
is_submessage submessage = true
is_submessage _ = false

-- `p[0] == 0 && ... && p[n - 1] == 0`
unfoldable pub all_zero : Memory → ℕ → ℕ → Bool
all_zero mem p zero = true
all_zero mem p (suc n) = (mem p == 0) && all_zero mem (p + 1) n

abbrev pub callback_result : Bool × Ostream → Bool × Ostream
callback_result (true, s) = (true, s)
callback_result (false, s) = fail callback_error s

module _ (mem : Memory) where
  -- The entries of an array of strings or byte arrays behind a pointer are themselves pointers.
  abbrev pub item_address : FieldInfo → ℕ → ℕ
  item_address info p =
      if is_pointer info.atype && is_string_or_bytes info.ltype then load mem p 8 else p

  unfoldable pub encode_unpacked : FieldInfo → (ℕ → Writer) → ℕ → ℕ → Writer
  unfolding encode_items
  encode_unpacked info func count p =
      encode_items (λ q. pb_encode_tag_for_field info >> func (item_address info q)) info.data_size
        count p

  unfoldable pub encode_array : FieldInfo → (ℕ → Writer) → ℕ → ℕ → Writer
  unfolding encode_packed encode_unpacked
  encode_array info func count p =
      if count == 0
      then done
      else if not (is_pointer info.atype) && ltb info.array_size count
      then fail array_max_size_exceeded
      else if is_packable info.ltype
      then encode_packed info func count p
      else encode_unpacked info func count p

  -- The part of pb_check_proto3_default_value for singular fields of static allocation;
  -- `sub_default` is the walk over the fields of a submessage.
  abbrev pub static_default : FieldInfo → (ℕ → Bool) → ℕ → Ltype → Bool
  static_default info sub_default p bytes = load mem p 4 == 0
  static_default info sub_default p string = mem p == 0
  static_default info sub_default p fixed_length_bytes = info.data_size == 0
  static_default info sub_default p submessage = sub_default p
  static_default info sub_default p _ = all_zero mem p info.data_size

  -- Its part for all singular fields.
  abbrev pub singular_default : FieldInfo → (ℕ → Bool) → ℕ → Bool
  singular_default info sub_default p =
      if is_static info.atype
      then static_default info sub_default p info.ltype
      else if is_pointer info.atype && not (is_packable info.ltype)
      then load mem p 8 == 0
      else all_zero mem p info.data_size

  abbrev pub default_by_rule : FieldInfo → (ℕ → Bool) → ℕ → Htype → Bool
  default_by_rule info sub_default p required = false
  default_by_rule info sub_default p repeated =
      if not (is_zero_offset info.size_offset)
      then load mem (offset_by p info.size_offset) 4 == 0
      else if is_static info.atype
      then false
      else singular_default info sub_default p
  default_by_rule info sub_default p oneof = load mem (offset_by p info.size_offset) 4 == 0
  default_by_rule info sub_default p optional =
      if not (is_zero_offset info.size_offset)
      then not (safe_read_bool mem (offset_by p info.size_offset))
      else singular_default info sub_default p

  unfoldable pub check_default : FieldInfo → (ℕ → Bool) → ℕ → Bool
  unfolding all_zero safe_read_bool
  check_default info sub_default p = default_by_rule info sub_default p info.htype

  -- pb_check_proto3_default_value, recursive over the fields of submessages.
  unfoldable mutual
    unfolding check_default

    pub all_default : Fields → ℕ → Bool
    all_default last p = true
    all_default (field info ptr rest) p =
        check_default info (sub_all_default ptr) p && all_default rest (data_after info rest p)

    pub sub_all_default : Ptr → ℕ → Bool
    sub_all_default null p = true
    sub_all_default (value a) p = true
    sub_all_default (submsg fields) p = all_default fields (begin_data fields p)
    sub_all_default (chain exts) p = true

  -- Whether an optional field is present: its `has_` member, its pointer, or its value.
  abbrev pub is_present : FieldInfo → (ℕ → Bool) → ℕ → Bool
  is_present info sub_default p =
      if not (is_zero_offset info.size_offset)
      then safe_read_bool mem (offset_by p info.size_offset)
      else if is_pointer info.atype
      then not (load mem p 8 == 0)
      else not (check_default info sub_default p)

  -- `pData`, behind the pointer if the field is one.
  abbrev pub field_data : FieldInfo → ℕ → ℕ
  field_data info p = if is_pointer info.atype then load mem p 8 else p

  abbrev pub item_count : FieldInfo → ℕ → ℕ
  item_count info p =
      if not (is_zero_offset info.size_offset)
      then load mem (offset_by p info.size_offset) 4
      else info.array_size

  abbrev pub tag_and_data : FieldInfo → (ℕ → Writer) → ℕ → Writer
  tag_and_data info func p = pb_encode_tag_for_field info >> func p

  -- The `switch` of encode_basic_field.
  abbrev pub encode_by_rule : FieldInfo → (ℕ → Bool) → (ℕ → Writer) → ℕ → Htype → Writer
  encode_by_rule info sub_default func p required =
      if field_data info p == 0
      then fail missing_required_field
      else tag_and_data info func (field_data info p)
  encode_by_rule info sub_default func p optional =
      if is_present info sub_default p then tag_and_data info func (field_data info p) else done
  encode_by_rule info sub_default func p repeated =
      encode_array info func (item_count info p) (field_data info p)
  encode_by_rule info sub_default func p oneof =
      if load mem (offset_by p info.size_offset) 4 == info.tag
      then tag_and_data info func (field_data info p)
      else done

  unfoldable pub encode_basic_field : FieldInfo → Option (ℕ → Writer) → (ℕ → Bool) → ℕ → Writer
  unfolding encode_array check_default safe_read_bool
  encode_basic_field info encode sub_default p =
      encode_by_rule info sub_default (encoder_for mem info encode info.ltype) p info.htype

  module _ (callbacks : ℕ → ℕ → Writer) where
    -- `funcs.encode` is a function address, which `callbacks` takes with the address of `arg`.
    unfoldable pub encode_callback_field : ℕ → Writer
    encode_callback_field p = if load mem p 8 == 0 then done else λ s.
        callback_result (callbacks (load mem p 8) (p + 8) s)

    abbrev pub encode_by_allocation :
        FieldInfo → Option (ℕ → Writer) → (ℕ → Bool) → ℕ → Atype → Writer
    encode_by_allocation info encode sub_default p static =
        encode_basic_field info encode sub_default p
    encode_by_allocation info encode sub_default p pointer =
        encode_basic_field info encode sub_default p
    encode_by_allocation info encode sub_default p callback = encode_callback_field p
    encode_by_allocation info encode sub_default p invalid = fail invalid_field_type

    unfoldable pub encode_field : FieldInfo → Option (ℕ → Writer) → (ℕ → Bool) → ℕ → Writer
    unfolding encode_basic_field encode_callback_field
    encode_field info encode sub_default p =
        encode_by_allocation info encode sub_default p info.atype

    -- The user's `encode` functions of extension types, by address, take the extension: here the
    -- address of its member `dest`.
    module _ (extension_encoders : ℕ → ℕ → Writer) where
      -- pb_encode from a field on, the encoder of the fields at a `ptr`, and encode_extension_field.
      unfoldable mutual
        unfolding encode_field

        pub encode_fields : Fields → ℕ → Writer
        encode_fields last p = done
        encode_fields (field info ptr rest) p =
            (if is_extension info.ltype
              then encode_extension_field ptr
              else encode_field info (sub_encoder ptr) (sub_all_default ptr) p)
            >> encode_fields rest (data_after info rest p)

        pub sub_encoder : Ptr → Option (ℕ → Writer)
        sub_encoder null = none
        sub_encoder (value a) = none
        sub_encoder (submsg fields) = some (λ p. encode_fields fields (begin_data fields p))
        sub_encoder (chain exts) = none

        pub encode_extension_field : Ptr → Writer
        encode_extension_field null = done
        encode_extension_field (value a) = done
        encode_extension_field (submsg fields) = done
        encode_extension_field (chain exts) = encode_extensions exts

        pub encode_extensions : Extensions → Writer
        encode_extensions no_more = done
        encode_extensions (linked encode decode info ptr dest dest_member next) =
            (if encode == 0
              then encode_field info (sub_encoder ptr) (sub_all_default ptr)
                  (extension_data info dest dest_member)
              else extension_encoders encode dest_member)
            >> encode_extensions next

      -- pb_encode; an empty message type writes nothing.
      unfoldable pub pb_encode : Fields → ℕ → Writer
      unfolding encode_fields
      pb_encode fields src = encode_fields fields (begin_data fields src)

      unfoldable pub pb_encode_delimited : Fields → ℕ → Writer
      unfolding pb_encode
      pb_encode_delimited fields src = pb_encode_submessage (pb_encode fields src)

      unfoldable pub pb_encode_nullterminated : Fields → ℕ → Writer
      unfolding pb_encode
      pb_encode_nullterminated fields src = pb_encode fields src >> pb_write (0 ∷ []) 1

      unfoldable pub pb_get_encoded_size : Fields → ℕ → Option ℕ
      unfolding pb_encode
      pb_get_encoded_size fields src = counted (pb_encode fields src pb_ostream_sizing)
