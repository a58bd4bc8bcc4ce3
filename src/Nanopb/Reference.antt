-- ===== src/Nanopb/Reference.antt =====
-- The protocol buffers encoding of a message in memory, as the format and the layout of nanopb's structs
-- describe it, in terms of its own: none of the tests and conversions of Kasei/Pods/nanopb/pb_encode.c is
-- used. Only the addresses of the fields are those that the iterator of pb_common.c computes.
pub mod Values
pub mod Presence
pub mod Messages
use kaseiapp.Base.{
  ℕ, zero, suc, ◌+◌, ◌-◌, ◌*◌, ◌^◌, Bool, true, false, not, ◌&&◌, ◌||◌, Option, none, some, List,
  [], ◌∷◌, ltb, ◌==◌, if◌then◌else◌,
}
use kaseiapp.Base.Memory.{Memory, ℤ, pos, negsuc, load, bytes_at, offset_by}
use kaseiapp.Nanopb.Pb.{
  FieldInfo, Ltype, bool, varint, uvarint, svarint, fixed32, fixed64, bytes, string, submessage,
  extension, fixed_length_bytes, Htype, required, optional, repeated, oneof, Atype, static, pointer,
  callback, invalid,
}
use kaseiapp.Nanopb.Ostream.Emits.{Wire, emitted, stopped, join}
use kaseiapp.Nanopb.Write.Varint.{varint_bytes}
use kaseiapp.Nanopb.Write.Scalars.{string_bytes}
use kaseiapp.Nanopb.Fields.{
  Fields, last, field, Ptr, null, value, submsg, chain, Extensions, no_more, linked, begin_data,
  data_after, extension_data,
}
use kaseiapp.Nanopb.Wire.{delimited, items_wire}

-- The wire types of the format.
abbrev pub wire_type_number : Ltype → Option ℕ
wire_type_number fixed64 = some 1
wire_type_number string = some 2
wire_type_number bytes = some 2
wire_type_number submessage = some 2
wire_type_number fixed_length_bytes = some 2
wire_type_number fixed32 = some 5
wire_type_number extension = none
wire_type_number _ = some 0

-- A key is the number of the field above three bits of wire type.
abbrev pub key_of : ℕ → Option ℕ → Wire
key_of tag none = stopped []
key_of tag (some wire_type) = emitted (varint_bytes (8 * tag + wire_type))

-- The types whose arrays are packed.
abbrev pub is_number : Ltype → Bool
is_number string = false
is_number bytes = false
is_number submessage = false
is_number extension = false
is_number fixed_length_bytes = false
is_number _ = true

abbrev pub is_placeholder : Ltype → Bool
is_placeholder extension = true
is_placeholder _ = false

-- The sizes of integers.
abbrev pub is_one_of : ℕ → List ℕ → Bool
is_one_of n [] = false
is_one_of n (k ∷ ks) = (n == k) || is_one_of n ks

abbrev pub has_int_size : ℕ → Bool
has_int_size n = is_one_of n (1 ∷ 2 ∷ 4 ∷ 8 ∷ [])

-- The negative numbers of `n` bytes are those from 2 ^ (8 * n - 1) on, each 2 ^ (8 * n) less than its
-- bytes say. In 64 bits -m is 2 ^ 64 - m, and its zigzag code is 2 * m - 1.
abbrev pub is_negative : ℕ → ℕ → Bool
is_negative n v = not (ltb v (2 ^ (8 * n - 1)))

abbrev pub two_complement : ℕ → ℕ → ℕ
two_complement n v = if is_negative n v then 2 ^ 64 - (2 ^ (8 * n) - v) else v

abbrev pub zigzag_code : ℕ → ℕ → ℕ
zigzag_code n v = if is_negative n v then 2 * (2 ^ (8 * n) - v) - 1 else 2 * v

-- Whether a count, `has_` or `which_` member lies elsewhere than the data.
abbrev pub has_member : ℤ → Bool
has_member (pos n) = ltb 0 n
has_member (negsuc n) = true

-- The most bytes that a text has: its array's size, or no limit behind a pointer.
abbrev pub text_limit : FieldInfo → Atype → ℕ
text_limit info pointer = 2 ^ 64 - 1
text_limit info _ = info.data_size

abbrev pub is_too_long : FieldInfo → ℕ → Atype → Bool
is_too_long info count static = ltb info.data_size (count + 4)
is_too_long info count _ = false

-- The limit on the count of an array, which there is not behind a pointer.
abbrev pub is_too_many : FieldInfo → ℕ → Atype → Bool
is_too_many info count pointer = false
is_too_many info count _ = ltb info.array_size count

module _ (mem : Memory) where
  -- The bytes before the first zero byte.
  unfoldable pub text_bytes : ℕ → ℕ → List ℕ
  text_bytes p zero = []
  text_bytes p (suc n) = if mem p == 0 then [] else mem p ∷ text_bytes (p + 1) n

  unfoldable pub value_encoding : FieldInfo → Option (ℕ → Wire) → Ltype → ℕ → Wire
  unfolding text_bytes
  value_encoding info sub bool src = emitted (varint_bytes (if mem src == 0 then 0 else 1))
  value_encoding info sub varint src =
      if has_int_size info.data_size
      then emitted (varint_bytes (two_complement info.data_size (load mem src info.data_size)))
      else stopped []
  value_encoding info sub uvarint src =
      if has_int_size info.data_size
      then emitted (varint_bytes (load mem src info.data_size))
      else stopped []
  value_encoding info sub svarint src =
      if has_int_size info.data_size
      then emitted (varint_bytes (zigzag_code info.data_size (load mem src info.data_size)))
      else stopped []
  value_encoding info sub fixed32 src = emitted (bytes_at mem src 4)
  value_encoding info sub fixed64 src = emitted (bytes_at mem src 8)
  value_encoding info sub bytes src =
      if src == 0
      then emitted (string_bytes [])
      else if is_too_long info (load mem src 4) info.atype
      then stopped []
      else emitted (string_bytes (bytes_at mem (src + 4) (load mem src 4)))
  value_encoding info sub string src =
      emitted (string_bytes (if src == 0 then [] else text_bytes src (text_limit info info.atype)))
  value_encoding info none submessage src = stopped []
  value_encoding info (some sub) submessage src = delimited (sub src)
  value_encoding info sub extension src = stopped []
  value_encoding info sub fixed_length_bytes src =
      emitted (string_bytes (bytes_at mem src info.data_size))

  abbrev pub tagged_encoding : FieldInfo → (ℕ → Wire) → ℕ → Wire
  tagged_encoding info item p = join (key_of info.tag (wire_type_number info.ltype)) (item p)

  -- Arrays of texts and of byte arrays behind a pointer are arrays of pointers.
  abbrev pub entry_at : Atype → Ltype → ℕ → ℕ
  entry_at pointer string p = load mem p 8
  entry_at pointer bytes p = load mem p 8
  entry_at _ _ p = p

  unfoldable pub array_encoding : FieldInfo → (ℕ → Wire) → ℕ → ℕ → Wire
  array_encoding info item count p =
      if count == 0
      then emitted []
      else if is_too_many info count info.atype
      then stopped []
      else if is_number info.ltype
      then join (key_of info.tag (some 2)) (delimited (items_wire item info.data_size count p))
      else items_wire (λ q. tagged_encoding info item (entry_at info.atype info.ltype q))
          info.data_size count p

  unfoldable pub has_nonzero : ℕ → ℕ → Bool
  has_nonzero p zero = false
  has_nonzero p (suc n) = not (mem p == 0) || has_nonzero (p + 1) n

  -- Whether a value in the struct itself is another than that of an empty message.
  abbrev pub has_content : FieldInfo → (ℕ → Bool) → ℕ → Ltype → Bool
  has_content info sub_set p bytes = ltb 0 (load mem p 4)
  has_content info sub_set p string = not (mem p == 0)
  has_content info sub_set p fixed_length_bytes = ltb 0 info.data_size
  has_content info sub_set p submessage = sub_set p
  has_content info sub_set p _ = has_nonzero p info.data_size

  -- The same with regard to the field's allocation. Behind a pointer to a number as many bytes of the
  -- pointer count as the number has.
  abbrev pub has_data : FieldInfo → (ℕ → Bool) → ℕ → Atype → Bool
  has_data info sub_set p static = has_content info sub_set p info.ltype
  has_data info sub_set p pointer =
      if is_number info.ltype then has_nonzero p info.data_size else not (load mem p 8 == 0)
  has_data info sub_set p _ = has_nonzero p info.data_size

  abbrev pub array_set : FieldInfo → (ℕ → Bool) → ℕ → Atype → Bool
  array_set info sub_set p static = true
  array_set info sub_set p a = has_data info sub_set p a

  -- Whether a field makes the submessage that it is in one that is not empty.
  abbrev pub is_set : FieldInfo → (ℕ → Bool) → ℕ → Htype → Bool
  is_set info sub_set p required = true
  is_set info sub_set p optional =
      if has_member info.size_offset
      then not (mem (offset_by p info.size_offset) == 0)
      else has_data info sub_set p info.atype
  is_set info sub_set p repeated =
      if has_member info.size_offset
      then not (load mem (offset_by p info.size_offset) 4 == 0)
      else array_set info sub_set p info.atype
  is_set info sub_set p oneof = not (load mem (offset_by p info.size_offset) 4 == 0)

  unfoldable mutual
    unfolding has_nonzero

    pub any_set : Fields → ℕ → Bool
    any_set last p = false
    any_set (field info ptr rest) p =
        is_set info (sub_any_set ptr) p info.htype || any_set rest (data_after info rest p)

    pub sub_any_set : Ptr → ℕ → Bool
    sub_any_set null p = false
    sub_any_set (value a) p = false
    sub_any_set (submsg fields) p = any_set fields (begin_data fields p)
    sub_any_set (chain exts) p = false

  -- An optional field is there if its `has_` member is true, or its pointer is set, or, with neither, if it
  -- has another value than zero.
  abbrev pub is_there_by : FieldInfo → (ℕ → Bool) → ℕ → Atype → Bool
  is_there_by info sub_set p pointer = not (load mem p 8 == 0)
  is_there_by info sub_set p a = has_data info sub_set p a

  abbrev pub is_there : FieldInfo → (ℕ → Bool) → ℕ → Bool
  is_there info sub_set p =
      if has_member info.size_offset
      then not (mem (offset_by p info.size_offset) == 0)
      else is_there_by info sub_set p info.atype

  abbrev pub data_of : ℕ → Atype → ℕ
  data_of p pointer = load mem p 8
  data_of p _ = p

  abbrev pub count_of : FieldInfo → ℕ → ℕ
  count_of info p =
      if has_member info.size_offset
      then load mem (offset_by p info.size_offset) 4
      else info.array_size

  abbrev pub rule_encoding : FieldInfo → (ℕ → Bool) → (ℕ → Wire) → ℕ → Htype → Wire
  rule_encoding info sub_set item p required =
      if data_of p info.atype == 0
      then stopped []
      else tagged_encoding info item (data_of p info.atype)
  rule_encoding info sub_set item p optional =
      if is_there info sub_set p
      then tagged_encoding info item (data_of p info.atype)
      else emitted []
  rule_encoding info sub_set item p repeated =
      array_encoding info item (count_of info p) (data_of p info.atype)
  rule_encoding info sub_set item p oneof =
      if load mem (offset_by p info.size_offset) 4 == info.tag
      then tagged_encoding info item (data_of p info.atype)
      else emitted []

  -- What the user's functions write, by their addresses and arguments.
  module _ (callback_wire extension_wire : ℕ → ℕ → Wire) where
    abbrev pub allocation_encoding : FieldInfo → Option (ℕ → Wire) → (ℕ → Bool) → ℕ → Atype → Wire
    allocation_encoding info sub sub_set p callback =
        if load mem p 8 == 0 then emitted [] else callback_wire (load mem p 8) (p + 8)
    allocation_encoding info sub sub_set p invalid = stopped []
    allocation_encoding info sub sub_set p _ =
        rule_encoding info sub_set (value_encoding info sub info.ltype) p info.htype

    abbrev pub field_encoding : FieldInfo → Option (ℕ → Wire) → (ℕ → Bool) → ℕ → Wire
    field_encoding info sub sub_set p = allocation_encoding info sub sub_set p info.atype

    unfoldable mutual
      pub fields_encoding : Fields → ℕ → Wire
      fields_encoding last p = emitted []
      fields_encoding (field info ptr rest) p =
          join
            (if is_placeholder info.ltype
              then placeholder_encoding ptr
              else field_encoding info (sub_encoding ptr) (sub_any_set ptr) p)
            (fields_encoding rest (data_after info rest p))

      pub sub_encoding : Ptr → Option (ℕ → Wire)
      sub_encoding null = none
      sub_encoding (value a) = none
      sub_encoding (submsg fields) = some (λ p. fields_encoding fields (begin_data fields p))
      sub_encoding (chain exts) = none

      pub placeholder_encoding : Ptr → Wire
      placeholder_encoding null = emitted []
      placeholder_encoding (value a) = emitted []
      placeholder_encoding (submsg fields) = emitted []
      placeholder_encoding (chain exts) = extensions_encoding exts

      pub extensions_encoding : Extensions → Wire
      extensions_encoding no_more = emitted []
      extensions_encoding (linked encode decode info ptr dest dest_member next) =
          join
            (if encode == 0
              then field_encoding info (sub_encoding ptr) (sub_any_set ptr)
                  (extension_data info dest dest_member)
              else extension_wire encode dest_member)
            (extensions_encoding next)

    -- The encoding of the message at `src`.
    unfoldable pub message_encoding : Fields → ℕ → Wire
    unfolding fields_encoding
    message_encoding fields src = fields_encoding fields (begin_data fields src)
