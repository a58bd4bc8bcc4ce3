-- ===== src/Nanopb/Reference/Messages.antt =====
-- The reference encoding of a message is the one in the terms of the encoder, Kasei/Pods/nanopb/pb_encode.c,
-- to which the encoder is related.
use kaseiapp.Base.{
  ℕ, ◌≡◌, refl, ap, ap₂, ◌∙◌, Bool, not, Option, some, IsByte, [], ◌==◌, if◌then◌else◌,
}
use kaseiapp.Base.Memory.{Memory, load, offset_by}
use kaseiapp.Nanopb.Pb.{
  FieldInfo, Ltype, bool, varint, uvarint, svarint, fixed32, fixed64, bytes, string, submessage,
  extension, fixed_length_bytes, Htype, required, optional, repeated, oneof, Atype, static, pointer,
  callback, invalid,
}
use kaseiapp.Nanopb.Ostream.Emits.{Wire, emitted, stopped, join}
use kaseiapp.Nanopb.Fields.{
  Fields, last, field, Ptr, null, value, submsg, chain, Extensions, no_more, linked, is_extension,
  begin_data, data_after, extension_data,
}
use kaseiapp.Nanopb.Encode.{sub_all_default, item_count, field_data}
use kaseiapp.Nanopb.Wire.{
  value_wire, tagged_wire, wire_by_rule, wire_by_allocation, field_wire, fields_wire, sub_wire,
  placeholder_wire, extensions_wire, message_wire,
}
use kaseiapp.Nanopb.Reference.{
  is_placeholder, value_encoding, tagged_encoding, array_encoding, data_of, sub_any_set,
  rule_encoding, allocation_encoding, field_encoding, fields_encoding, sub_encoding,
  placeholder_encoding, extensions_encoding, message_encoding,
}
use kaseiapp.Nanopb.Reference.Values.{tagged_lem, array_encoding_lem, value_encoding_lem}
use kaseiapp.Nanopb.Reference.Presence.{is_there_lem, sub_any_set_lem, data_of_lem, count_of_lem}

is_placeholder_lem : (t : Ltype) → is_extension t ≡ is_placeholder t
is_placeholder_lem bool = refl
is_placeholder_lem varint = refl
is_placeholder_lem uvarint = refl
is_placeholder_lem svarint = refl
is_placeholder_lem fixed32 = refl
is_placeholder_lem fixed64 = refl
is_placeholder_lem bytes = refl
is_placeholder_lem string = refl
is_placeholder_lem submessage = refl
is_placeholder_lem extension = refl
is_placeholder_lem fixed_length_bytes = refl

module _ (mem : Memory) (is_memory : (p : ℕ) → IsByte (mem p)) where
  module _ (info : FieldInfo) (sub_default sub_set : ℕ → Bool)
      (h : (q : ℕ) → sub_default q ≡ not (sub_set q)) (item : ℕ → Wire) (p : ℕ) where
    tagged_data :
        tagged_wire mem info item (field_data mem info p)
        ≡ tagged_encoding mem info item (data_of mem p info.atype)
    tagged_data =
        tagged_lem mem info item (field_data mem info p)
        ∙ ap (tagged_encoding mem info item) (data_of_lem mem info p)

    rule_encoding_lem :
        (rule : Htype)
        → info.htype ≡ rule
        → wire_by_rule mem info sub_default item p rule ≡ rule_encoding mem info sub_set item p rule
    rule_encoding_lem required e =
        λ i. if data_of_lem mem info p i == 0 then stopped [] else tagged_data i
    rule_encoding_lem optional e =
        λ i. if is_there_lem mem info sub_default sub_set h p e i then tagged_data i else emitted []
    rule_encoding_lem repeated e =
        array_encoding_lem mem info item (item_count mem info p) (field_data mem info p)
        ∙ ap₂ (array_encoding mem info item) (count_of_lem mem info p) (data_of_lem mem info p)
    rule_encoding_lem oneof e = λ i.
        if load mem (offset_by p info.size_offset) 4 == info.tag then tagged_data i else emitted []

  module _ (callback_wire extension_wire : ℕ → ℕ → Wire) where
    module _ (info : FieldInfo) (sub : Option (ℕ → Wire)) (sub_default sub_set : ℕ → Bool)
        (h : (q : ℕ) → sub_default q ≡ not (sub_set q)) (p : ℕ) where
      in_struct_lem :
          wire_by_rule mem info sub_default (value_wire mem info sub info.ltype) p info.htype
          ≡ rule_encoding mem info sub_set (value_encoding mem info sub info.ltype) p info.htype
      in_struct_lem =
          rule_encoding_lem info sub_default sub_set h (value_wire mem info sub info.ltype) p
            info.htype refl
          ∙ ap (λ (item : ℕ → Wire). rule_encoding mem info sub_set item p info.htype)
              (λ i q. value_encoding_lem mem is_memory info sub info.ltype q i)

      allocation_lem :
          (a : Atype)
          → wire_by_allocation mem callback_wire extension_wire info sub sub_default p a
            ≡ allocation_encoding mem callback_wire extension_wire info sub sub_set p a
      allocation_lem static = in_struct_lem
      allocation_lem pointer = in_struct_lem
      allocation_lem callback = refl
      allocation_lem invalid = refl

      field_encoding_lem :
          field_wire mem callback_wire extension_wire info sub sub_default p
          ≡ field_encoding mem callback_wire extension_wire info sub sub_set p
      field_encoding_lem = allocation_lem info.atype

      -- A field, and what is below it.
      of_sub_lem :
          (sub' : Option (ℕ → Wire))
          → sub ≡ sub'
          → field_wire mem callback_wire extension_wire info sub sub_default p
            ≡ field_encoding mem callback_wire extension_wire info sub' sub_set p
      of_sub_lem sub' e =
          field_encoding_lem
          ∙ ap
              (λ (s : Option (ℕ → Wire)).
                field_encoding mem callback_wire extension_wire info s sub_set p)
              e

    mutual
      unfolding fields_wire fields_encoding

      fields_encoding_lem :
          (fields : Fields) (p : ℕ)
          → fields_wire mem callback_wire extension_wire fields p
            ≡ fields_encoding mem callback_wire extension_wire fields p
      fields_encoding_lem last p = refl
      fields_encoding_lem (field info ptr rest) p = λ i.
          join
            (if is_placeholder_lem info.ltype i
              then placeholder_encoding_lem ptr i
              else of_sub_lem info (sub_wire mem callback_wire extension_wire ptr)
                  (sub_all_default mem ptr) (sub_any_set mem ptr) (sub_any_set_lem mem ptr) p
                  (sub_encoding mem callback_wire extension_wire ptr) (sub_encoding_lem ptr) i)
            (fields_encoding_lem rest (data_after info rest p) i)

      sub_encoding_lem :
          (ptr : Ptr)
          → sub_wire mem callback_wire extension_wire ptr
            ≡ sub_encoding mem callback_wire extension_wire ptr
      sub_encoding_lem null = refl
      sub_encoding_lem (value a) = refl
      sub_encoding_lem (submsg fields) =
          λ i. some (λ p. fields_encoding_lem fields (begin_data fields p) i)
      sub_encoding_lem (chain exts) = refl

      placeholder_encoding_lem :
          (ptr : Ptr)
          → placeholder_wire mem callback_wire extension_wire ptr
            ≡ placeholder_encoding mem callback_wire extension_wire ptr
      placeholder_encoding_lem null = refl
      placeholder_encoding_lem (value a) = refl
      placeholder_encoding_lem (submsg fields) = refl
      placeholder_encoding_lem (chain exts) = extensions_encoding_lem exts

      extensions_encoding_lem :
          (exts : Extensions)
          → extensions_wire mem callback_wire extension_wire exts
            ≡ extensions_encoding mem callback_wire extension_wire exts
      extensions_encoding_lem no_more = refl
      extensions_encoding_lem (linked encode decode info ptr dest dest_member next) = λ i.
          join
            (if encode == 0
              then of_sub_lem info (sub_wire mem callback_wire extension_wire ptr)
                  (sub_all_default mem ptr) (sub_any_set mem ptr) (sub_any_set_lem mem ptr)
                  (extension_data info dest dest_member)
                  (sub_encoding mem callback_wire extension_wire ptr) (sub_encoding_lem ptr) i
              else extension_wire encode dest_member)
            (extensions_encoding_lem next i)

    pub message_encoding_lem :
        (fields : Fields) (src : ℕ)
        → message_wire mem callback_wire extension_wire fields src
          ≡ message_encoding mem callback_wire extension_wire fields src
    unfolding message_wire message_encoding
    message_encoding_lem fields src = fields_encoding_lem fields (begin_data fields src)
