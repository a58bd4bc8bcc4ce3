-- ===== src/Nanopb/Wire/Message.antt =====
-- pb_encode, pb_encode_delimited, pb_encode_nullterminated and pb_get_encoded_size of
-- Kasei/Pods/nanopb/pb_encode.c against the encoding of Nanopb/Wire, and of Nanopb/Reference.
use kaseiapp.Base.{ℕ, ◌+◌, ◌≡◌, Bool}
use kaseiapp.Base.{Option, none, List, [], length, IsByte, IsU64, ◌==◌, if◌then◌else◌}
use kaseiapp.Base.Memory.{Memory, load}
use kaseiapp.Nanopb.Pb.{FieldInfo, Atype, static, pointer, callback, invalid, invalid_field_type}
use kaseiapp.Nanopb.Ostream.{Ostream, Writer, done}
use kaseiapp.Nanopb.Ostream.Emits.{Emits, Implements, Wire, emitted, stopped}
use kaseiapp.Nanopb.Ostream.Emits.Sequence.{>>-Implements, done-Emits, fail-Implements}
use kaseiapp.Nanopb.Fields.{
  Fields, last, field, Ptr, null, value, submsg, chain, Extensions, no_more, linked, is_extension,
  begin_data, data_after, extension_data,
}
use kaseiapp.Nanopb.Encode
use mathlib.Core.Path.{subst}
use kaseiapp.Nanopb.Wire.Array.{counted_stopped}
use kaseiapp.Nanopb.Wire.{
  wire_by_allocation, field_wire, fields_wire, sub_wire, placeholder_wire, extensions_wire,
  message_wire,
}
use kaseiapp.Nanopb.Reference.{message_encoding}
use kaseiapp.Nanopb.Reference.Messages.{message_encoding_lem}
use kaseiapp.Nanopb.Wire.Values.{Implements-if, SubImplements}
use kaseiapp.Nanopb.Wire.Rules.{
  IsDescriptor, encode_basic_field-Implements, callback_result-Implements,
}

-- Every descriptor of a message type, its submessages and its extensions is in range.
abbrev mutual
  pub AllDescriptors : Fields → Type 0
  AllDescriptors last = Unit {0}
  AllDescriptors (field info ptr rest) = IsDescriptor info × BelowPtr ptr × AllDescriptors rest

  pub BelowPtr : Ptr → Type 0
  BelowPtr null = Unit {0}
  BelowPtr (value a) = Unit {0}
  BelowPtr (submsg fields) = AllDescriptors fields
  BelowPtr (chain exts) = AllExtensions exts

  pub AllExtensions : Extensions → Type 0
  AllExtensions no_more = Unit {0}
  AllExtensions (linked encode decode info ptr dest dest_member next) =
      IsDescriptor info × BelowPtr ptr × AllExtensions next

-- `callbacks` and `extension_encoders` are the user's functions, which write what the wires say.
module _ (mem : Memory) (is_memory : (p : ℕ) → IsByte (mem p))
    (callbacks extension_encoders : ℕ → ℕ → Writer) (callback_wire extension_wire : ℕ → ℕ → Wire)
    (callbacks_lem : (f arg : ℕ) → Implements (callbacks f arg) (callback_wire f arg))
    (extensions_lem : (f arg : ℕ)
      → Implements (extension_encoders f arg) (extension_wire f arg)) where
  encode_callback_field-Implements :
      (p : ℕ)
      → Implements
          (Encode.encode_callback_field mem callbacks p)
          (if load mem p 8 == 0 then emitted [] else callback_wire (load mem p 8) (p + 8))
  unfolding Encode.encode_callback_field
  encode_callback_field-Implements p =
      Implements-if (load mem p 8 == 0) done _ (emitted []) _ done-Emits (
        callback_result-Implements (callbacks (load mem p 8) (p + 8)) _
          (callbacks_lem (load mem p 8) (p + 8)))

  by_allocation-Implements :
      (info : FieldInfo) (encode : Option (ℕ → Writer)) (sub : Option (ℕ → Wire))
      (sub_default : ℕ → Bool) (p : ℕ) (a : Atype)
      → IsDescriptor info
      → SubImplements mem is_memory encode sub
      → Implements
          (Encode.encode_by_allocation mem callbacks info encode sub_default p a)
          (wire_by_allocation mem callback_wire extension_wire info sub sub_default p a)
  by_allocation-Implements info encode sub sub_default p static d h =
      encode_basic_field-Implements mem is_memory info encode sub sub_default p d h
  by_allocation-Implements info encode sub sub_default p pointer d h =
      encode_basic_field-Implements mem is_memory info encode sub sub_default p d h
  by_allocation-Implements info encode sub sub_default p callback d h =
      encode_callback_field-Implements p
  by_allocation-Implements info encode sub sub_default p invalid d h =
      fail-Implements invalid_field_type

  encode_field-Implements :
      (info : FieldInfo) (encode : Option (ℕ → Writer)) (sub : Option (ℕ → Wire))
      (sub_default : ℕ → Bool) (p : ℕ)
      → IsDescriptor info
      → SubImplements mem is_memory encode sub
      → Implements
          (Encode.encode_field mem callbacks info encode sub_default p)
          (field_wire mem callback_wire extension_wire info sub sub_default p)
  unfolding Encode.encode_field
  encode_field-Implements info encode sub sub_default p d h =
      by_allocation-Implements info encode sub sub_default p info.atype d h

  mutual
    unfolding Encode.encode_fields fields_wire

    pub encode_fields-Implements :
        (fields : Fields) (p : ℕ)
        → AllDescriptors fields
        → Implements
            (Encode.encode_fields mem callbacks extension_encoders fields p)
            (fields_wire mem callback_wire extension_wire fields p)
    encode_fields-Implements last p h = done-Emits
    encode_fields-Implements (field info ptr rest) p h =
        >>-Implements _
          (Encode.encode_fields mem callbacks extension_encoders rest (data_after info rest p)) _
          (fields_wire mem callback_wire extension_wire rest (data_after info rest p))
          (Implements-if (is_extension info.ltype) _ _ _ _ (placeholder-Implements ptr h.1) (
            encode_field-Implements info _ _ (Encode.sub_all_default mem ptr) p h.0
              (sub_encoder-Implements ptr h.1)))
          (encode_fields-Implements rest (data_after info rest p) h.2)

    sub_encoder-Implements :
        (ptr : Ptr)
        → BelowPtr ptr
        → SubImplements mem is_memory
            (Encode.sub_encoder mem callbacks extension_encoders ptr)
            (sub_wire mem callback_wire extension_wire ptr)
    sub_encoder-Implements null h = tt
    sub_encoder-Implements (value a) h = tt
    sub_encoder-Implements (submsg fields) h =
        λ p. encode_fields-Implements fields (begin_data fields p) h
    sub_encoder-Implements (chain exts) h = tt

    placeholder-Implements :
        (ptr : Ptr)
        → BelowPtr ptr
        → Implements
            (Encode.encode_extension_field mem callbacks extension_encoders ptr)
            (placeholder_wire mem callback_wire extension_wire ptr)
    placeholder-Implements null h = done-Emits
    placeholder-Implements (value a) h = done-Emits
    placeholder-Implements (submsg fields) h = done-Emits
    placeholder-Implements (chain exts) h = extensions-Implements exts h

    extensions-Implements :
        (exts : Extensions)
        → AllExtensions exts
        → Implements
            (Encode.encode_extensions mem callbacks extension_encoders exts)
            (extensions_wire mem callback_wire extension_wire exts)
    extensions-Implements no_more h = done-Emits
    extensions-Implements (linked encode decode info ptr dest dest_member next) h =
        >>-Implements _ (Encode.encode_extensions mem callbacks extension_encoders next) _
          (extensions_wire mem callback_wire extension_wire next)
          (Implements-if (encode == 0) _ _ _ _
            (encode_field-Implements info _ _ (Encode.sub_all_default mem ptr)
              (extension_data info dest dest_member) h.0 (sub_encoder-Implements ptr h.1))
            (extensions_lem encode dest_member))
          (extensions-Implements next h.2)

  pub pb_encode-Implements :
      (fields : Fields) (src : ℕ)
      → AllDescriptors fields
      → Implements
          (Encode.pb_encode mem callbacks extension_encoders fields src)
          (message_wire mem callback_wire extension_wire fields src)
  unfolding Encode.pb_encode message_wire
  pb_encode-Implements fields src h = encode_fields-Implements fields (begin_data fields src) h

  -- So it does the reference encoding.
  pb_encode-Encodes :
      (fields : Fields) (src : ℕ)
      → AllDescriptors fields
      → Implements
          (Encode.pb_encode mem callbacks extension_encoders fields src)
          (message_encoding mem callback_wire extension_wire fields src)
  pb_encode-Encodes fields src h =
      subst (Implements (Encode.pb_encode mem callbacks extension_encoders fields src))
        (message_encoding_lem mem is_memory callback_wire extension_wire fields src)
        (pb_encode-Implements fields src h)

  -- pb_get_encoded_size returns false where the reference encoding is an error behind fewer than 2 ^ 64
  -- bytes, for descriptors in range, and user functions that write what their wires say.
  pub pb_get_encoded_size_failed :
      (fields : Fields) (src : ℕ) (bs : List ℕ)
      → AllDescriptors fields
      → message_encoding mem callback_wire extension_wire fields src ≡ stopped bs
      → IsU64 (length bs)
      → Encode.pb_get_encoded_size mem callbacks extension_encoders fields src ≡ none
  unfolding Encode.pb_get_encoded_size
  pb_get_encoded_size_failed fields src bs h e fit =
      counted_stopped (Encode.pb_encode mem callbacks extension_encoders fields src) _ bs
        (pb_encode-Encodes fields src h) e fit
