-- ===== src/Nanopb/Wire/Rules.antt =====
-- encode_basic_field and encode_callback_field of Kasei/Pods/nanopb/pb_encode.c against the fields of the
-- encoding of Nanopb/Wire, by their type and repetition rule.
use kaseiapp.Base.{ℕ, ◌≡◌, refl, ap, Bool, true, false}
use kaseiapp.Base.{Option, none, some, List, length, IsByte, IsU32, ◌==◌}
use kaseiapp.Base.Memory.{Memory, load, offset_by}
use kaseiapp.Nanopb.Pb.{
  FieldInfo, Ltype, bool, varint, uvarint, svarint, fixed32, fixed64, bytes, string, submessage,
  extension, fixed_length_bytes, Htype, required, optional, repeated, oneof, invalid_field_type,
  missing_required_field, invalid_field_descriptor,
}
use kaseiapp.Nanopb.Ostream.{Ostream, Writer}
use kaseiapp.Nanopb.Ostream.Emits.{Outcome, fits, Implements, Wire, emitted, stopped}
use kaseiapp.Nanopb.Ostream.Emits.Sequence.{>>-Implements, done-Emits, fail-Implements}
use kaseiapp.Nanopb.Write.Scalars.{
  field_tag_bytes, pb_encode_fixed32-Emits, pb_encode_fixed64-Emits,
  pb_encode_tag_for_field-Implements,
}
use kaseiapp.Nanopb.Write.{pb_encode_tag_for_field}
use kaseiapp.Nanopb.Field.{pb_enc_fixed32, pb_enc_fixed64, encoder_for}
use kaseiapp.Nanopb.Encode
use kaseiapp.Nanopb.Wire.{value_wire, tagged_wire, wire_by_rule}
use kaseiapp.Nanopb.Wire.Values
use kaseiapp.Nanopb.Wire.Values.{Implements-if, SubImplements}
use kaseiapp.Nanopb.Wire.Submessage.{pb_encode_submessage-Implements}
use kaseiapp.Nanopb.Wire.Array.{encode_array-Implements}

-- The ranges of the members of a descriptor.
pub record IsDescriptor (info : FieldInfo) : Type 0 where
  pub tag_u32 : IsU32 info.tag
  pub size_u32 : IsU32 info.data_size

module _ (mem : Memory) (is_memory : (p : ℕ) → IsByte (mem p)) where
  pub encoder_for-Implements :
      (info : FieldInfo) (encode : Option (ℕ → Writer)) (sub : Option (ℕ → Wire)) (t : Ltype)
      (src : ℕ)
      → IsDescriptor info
      → SubImplements mem is_memory encode sub
      → Implements (encoder_for mem info encode t src) (value_wire mem info sub t src)
  unfolding encoder_for value_wire pb_enc_fixed32 pb_enc_fixed64
  encoder_for-Implements info encode sub bool src d h =
      Values.pb_enc_bool-Implements mem is_memory info sub src
  encoder_for-Implements info encode sub varint src d h =
      Values.pb_enc_varint-Implements mem is_memory info sub src
  encoder_for-Implements info encode sub uvarint src d h =
      Values.pb_enc_uvarint-Implements mem is_memory info sub src
  encoder_for-Implements info encode sub svarint src d h =
      Values.pb_enc_svarint-Implements mem is_memory info sub src
  encoder_for-Implements info encode sub fixed32 src d h = pb_encode_fixed32-Emits (load mem src 4)
  encoder_for-Implements info encode sub fixed64 src d h = pb_encode_fixed64-Emits (load mem src 8)
  encoder_for-Implements info encode sub bytes src d h =
      Values.pb_enc_bytes-Implements mem is_memory info sub src
  encoder_for-Implements info encode sub string src d h =
      Values.pb_enc_string-Implements mem is_memory info sub src d.size_u32
  encoder_for-Implements info none none submessage src d h =
      fail-Implements invalid_field_descriptor
  encoder_for-Implements info none (some sub) submessage src d h = absurd h
  encoder_for-Implements info (some encode) none submessage src d h = absurd h
  encoder_for-Implements info (some encode) (some sub) submessage src d h =
      pb_encode_submessage-Implements (encode src) (sub src) (h src)
  encoder_for-Implements info encode sub extension src d h = fail-Implements invalid_field_type
  encoder_for-Implements info encode sub fixed_length_bytes src d h =
      Values.pb_enc_fixed_length_bytes-Implements mem is_memory info sub src d.size_u32

  module _ (info : FieldInfo) (encode : Option (ℕ → Writer)) (sub : Option (ℕ → Wire))
      (sub_default : ℕ → Bool) (p : ℕ) (d : IsDescriptor info)
      (h : SubImplements mem is_memory encode sub) where
    tagged-Implements :
        Implements
          (Encode.tag_and_data mem info
            (encoder_for mem info encode info.ltype)
            (Encode.field_data mem info p))
          (tagged_wire mem info (value_wire mem info sub info.ltype) (Encode.field_data mem info p))
    tagged-Implements =
        let q = Encode.field_data mem info p in
        >>-Implements (pb_encode_tag_for_field info) (encoder_for mem info encode info.ltype q)
          (field_tag_bytes info) (value_wire mem info sub info.ltype q)
          (pb_encode_tag_for_field-Implements info d.tag_u32)
          (encoder_for-Implements info encode sub info.ltype q d h)

    by_rule-Implements :
        (rule : Htype)
        → Implements
            (Encode.encode_by_rule mem info sub_default
              (encoder_for mem info encode info.ltype)
              p
              rule)
            (wire_by_rule mem info sub_default (value_wire mem info sub info.ltype) p rule)
    by_rule-Implements required =
        Implements-if (Encode.field_data mem info p == 0) _ _ _ _
          (fail-Implements missing_required_field) tagged-Implements
    by_rule-Implements optional =
        Implements-if (Encode.is_present mem info sub_default p) _ _ _ _ tagged-Implements
          done-Emits
    by_rule-Implements repeated =
        encode_array-Implements mem info encode sub (Encode.item_count mem info p)
          (Encode.field_data mem info p) d.tag_u32
          (λ q. encoder_for-Implements info encode sub info.ltype q d h)
    by_rule-Implements oneof =
        Implements-if (load mem (offset_by p info.size_offset) 4 == info.tag) _ _ _ _
          tagged-Implements done-Emits

    pub encode_basic_field-Implements :
        Implements
          (Encode.encode_basic_field mem info encode sub_default p)
          (wire_by_rule mem info sub_default (value_wire mem info sub info.ltype) p info.htype)
    unfolding Encode.encode_basic_field
    encode_basic_field-Implements = by_rule-Implements info.htype

callback_result-Outcome :
    (b : Bool) (s : Ostream) (r : Bool × Ostream) (bs : List ℕ)
    → Outcome b s r bs
    → Outcome b s (Encode.callback_result r) bs
callback_result-Outcome true s r bs h = ap Encode.callback_result h
callback_result-Outcome false s (true, t) bs h = cc
callback_result-Outcome false s (false, t) bs h = (refl, rw h.1)

callback_failed : (r : Bool × Ostream) → r.0 ≡ false → (Encode.callback_result r).0 ≡ false
callback_failed (true, t) h = cc
callback_failed (false, t) h = refl

pub callback_result-Implements :
    (run : Writer) (w : Wire)
    → Implements run w
    → Implements (λ s. Encode.callback_result (run s)) w
callback_result-Implements run (emitted bs) h =
    λ s ready small. callback_result-Outcome (fits s (length bs)) s (run s) bs (h s ready small)
callback_result-Implements run (stopped bs) h =
    λ s ready small. callback_failed (run s) (h s ready small)
