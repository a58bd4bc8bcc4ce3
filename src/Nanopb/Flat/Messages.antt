-- ===== src/Nanopb/Flat/Messages.antt =====
-- Messages of single values: the bytes of one, and the memory that they are decoded to, described with
-- no loop over tags, for pb_encode of Kasei/Pods/nanopb/pb_encode.c and pb_decode of
-- Kasei/Pods/nanopb/pb_decode.c.
use kaseiapp.Base.{
  ℕ, ◌^◌, ◌<◌, ◌≤◌, ◌&&◌, if-holds, ◌≡◌, ◌≢◌, refl, ap, ap₂, ◌∙◌, arith, Bool, true, false, not,
  ◌==◌, List, [], ◌++◌, if◌then◌else◌, Option, some, none,
}
use kaseiapp.Base.Memory.{Memory, load, bytes_at, store_bytes, pos, is_zero_offset}
use kaseiapp.Nanopb.Pb.{
  FieldInfo, Ltype, bool, varint, uvarint, svarint, fixed32, fixed64, bytes, string, submessage,
  extension, fixed_length_bytes, Atype, Htype, required, optional, repeated, oneof, static,
  size_max,
}
use kaseiapp.Nanopb.Pb.WireType
use kaseiapp.Nanopb.Ostream.Emits.{Wire, emitted, stopped, join}
use kaseiapp.Nanopb.Write.{wire_type_of}
use kaseiapp.Nanopb.Write.Scalars.{tag_bytes}
use kaseiapp.Nanopb.Fields.{
  Fields, last, field, null, is_extension, is_pointer, is_static, is_oneof, data_after,
}
use kaseiapp.Nanopb.Fields.Find.{has_field}
use kaseiapp.Nanopb.Encode.{
  all_zero, default_by_rule, static_default, check_default, sub_all_default,
}
use kaseiapp.Nanopb.Wire.{
  value_wire, fields_wire, sub_wire, tagged_wire, wire_by_rule, wire_by_allocation, field_wire,
}
use kaseiapp.Nanopb.Flat.Values.{
  Fits, for_scalar, IsValue, value_size, scalar_bytes, scalar-value_wire,
}

-- Required, or optional without a `has_` member, as in proto3.
abbrev pub IsSingle : Htype → Type 0
IsSingle required = Unit
IsSingle optional = Unit
IsSingle repeated = ⊥
IsSingle oneof = ⊥

-- A value in the struct itself.
pub record IsScalar (info : FieldInfo) : Type 0 where
  pub in_struct : info.atype ≡ static
  pub single : IsSingle info.htype
  pub no_has : info.size_offset ≡ pos 0
  pub fits : Fits info.ltype info.data_size
  pub tag_pos : 0 < info.tag
  pub tag_bound : info.tag < 2 ^ 29

-- All fields are single values without a default value, of different tags.
abbrev pub AllScalars : Fields → Type 0
AllScalars last = Unit
AllScalars (field info ptr rest) =
    IsScalar info × (ptr ≡ null) × (has_field info.tag rest ≡ false) × AllScalars rest

-- Every field of the message at `p` holds a value of its type.
abbrev pub AllValues : Memory → Fields → ℕ → Type 0
AllValues mem last p = Unit
AllValues mem (field info ptr rest) p =
    IsValue mem info.ltype info.data_size p × AllValues mem rest (data_after info rest p)

-- The value that stands for no value: zero, no bytes, or no text.
abbrev pub is_zero : Memory → Ltype → ℕ → ℕ → Bool
is_zero mem bytes n p = load mem p 4 == 0
is_zero mem string n p = mem p == 0
is_zero mem fixed_length_bytes n p = n == 0
is_zero mem _ n p = all_zero mem p n

-- An optional value is left out if it is that.
abbrev pub is_sent : Memory → FieldInfo → ℕ → Htype → Bool
is_sent mem info p optional = not (is_zero mem info.ltype info.data_size p)
is_sent mem info p _ = true

abbrev pub scalar_wire_type : Ltype → ℕ
scalar_wire_type fixed32 = WireType.fixed32
scalar_wire_type fixed64 = WireType.fixed64
scalar_wire_type bytes = WireType.string
scalar_wire_type string = WireType.string
scalar_wire_type fixed_length_bytes = WireType.string
scalar_wire_type _ = WireType.varint

abbrev pub field_bytes : Memory → FieldInfo → ℕ → List ℕ
field_bytes mem info p =
    tag_bytes (scalar_wire_type info.ltype) info.tag ++ scalar_bytes mem info.ltype info.data_size p

-- The fields that are sent, from the data at `p` on.
abbrev pub flat_bytes : Memory → Fields → ℕ → List ℕ
flat_bytes mem last p = []
flat_bytes mem (field info ptr rest) p =
    (if is_sent mem info p info.htype then field_bytes mem info p else [])
    ++ flat_bytes mem rest (data_after info rest p)

-- The fields of a message whose data begin at `p`, copied to one whose data begin at `q`.
abbrev pub restored : Memory → Fields → ℕ → ℕ → Memory → Memory
restored mem last p q m = m
restored mem (field info ptr rest) p q m =
    restored mem rest (data_after info rest p) (data_after info rest q) (
      if is_sent mem info p info.htype
      then store_bytes m q (bytes_at mem p (value_size mem info.ltype info.data_size p))
      else m)

-- By the type, which is that of a single value.
wire_type-scalar : (lt : Ltype) (n : ℕ) → Fits lt n → wire_type_of lt ≡ some (scalar_wire_type lt)
wire_type-scalar lt n h =
    for_scalar (λ t. wire_type_of t ≡ some (scalar_wire_type t)) lt n h refl refl refl refl refl
      refl refl refl refl

pub scalar-is_no_extension : (lt : Ltype) (n : ℕ) → Fits lt n → is_extension lt ≡ false
scalar-is_no_extension lt n h =
    for_scalar (λ t. is_extension t ≡ false) lt n h refl refl refl refl refl refl refl refl refl

pub scalar-wire_type-lt : (lt : Ltype) → scalar_wire_type lt < 8
scalar-wire_type-lt bool = omega arith
scalar-wire_type-lt varint = omega arith
scalar-wire_type-lt uvarint = omega arith
scalar-wire_type-lt svarint = omega arith
scalar-wire_type-lt fixed32 = omega arith
scalar-wire_type-lt fixed64 = omega arith
scalar-wire_type-lt bytes = omega arith
scalar-wire_type-lt string = omega arith
scalar-wire_type-lt submessage = omega arith
scalar-wire_type-lt extension = omega arith
scalar-wire_type-lt fixed_length_bytes = omega arith

pub not_pointer : (info : FieldInfo) → IsScalar info → is_pointer info.atype ≡ false
not_pointer info h = ap is_pointer h.in_struct

-- The fields lie one behind another.
pub data_after-le : (info : FieldInfo) (rest : Fields) (p : ℕ) → p ≤ data_after info rest p
data_after-le info last p = omega arith
data_after-le info (field next ptr rest) p =
    if-holds (λ (q : ℕ). p ≤ q)
      (is_oneof info.htype && is_oneof next.htype && (next.data_offset == size_max)) _ _
      (λ e. omega arith) (λ e. omega arith)

if_emitted :
    (b : Bool) (bs : List ℕ)
    → (if b then emitted bs else emitted []) ≡ emitted (if b then bs else [])
if_emitted true bs = refl
if_emitted false bs = refl

module _ (mem : Memory) where
  static_default-scalar :
      (info : FieldInfo) (sub_default : ℕ → Bool) (p : ℕ) (lt : Ltype)
      → Fits lt info.data_size
      → static_default mem info sub_default p lt ≡ is_zero mem lt info.data_size p
  static_default-scalar info sub_default p lt h =
      for_scalar (λ t. static_default mem info sub_default p t ≡ is_zero mem t info.data_size p) lt
        info.data_size h refl refl refl refl refl refl refl refl refl

  tagged-scalar :
      (info : FieldInfo) (sub : Option (ℕ → Wire)) (p : ℕ)
      → IsScalar info
      → IsValue mem info.ltype info.data_size p
      → p ≢ 0
      → tagged_wire mem info (value_wire mem info sub info.ltype) p
        ≡ emitted (field_bytes mem info p)
  tagged-scalar info sub p h valid nonzero =
      ap₂ join
        (ap
          (λ (o : Option ℕ). elim o as (λ x. Wire) [
            | some wiretype ↦ emitted (tag_bytes wiretype info.tag)
            | none ↦ stopped []
          ])
          (wire_type-scalar info.ltype info.data_size h.fits))
        (scalar-value_wire mem info sub info.ltype p h.fits valid (not_pointer info h) nonzero)

  -- By the rule.
  rule-wire :
      (info : FieldInfo) (sub : Option (ℕ → Wire)) (sub_default : ℕ → Bool) (p : ℕ) (rule : Htype)
      → IsScalar info
      → IsValue mem info.ltype info.data_size p
      → p ≢ 0
      → info.htype ≡ rule
      → IsSingle rule
      → wire_by_rule mem info sub_default (value_wire mem info sub info.ltype) p rule
        ≡ emitted (if is_sent mem info p rule then field_bytes mem info p else [])
  unfolding check_default
  rule-wire info sub sub_default p required h valid nonzero e single =
      rw (not_pointer info h, not_zero) (tagged-scalar info sub p h valid nonzero)
    where
      not_zero : (p == 0) ≡ false
      not_zero = ground arith
  rule-wire info sub sub_default p optional h valid nonzero e single =
      rw
        (
          ap is_zero_offset h.no_has,
          not_pointer info h,
          by_default,
          tagged-scalar info sub p h valid nonzero,
        )
        (if_emitted (not (is_zero mem info.ltype info.data_size p)) (field_bytes mem info p))
    where
      by_default : check_default mem info sub_default p ≡ is_zero mem info.ltype info.data_size p
      by_default =
          ap (default_by_rule mem info sub_default p) e
          ∙ rw (ap is_zero_offset h.no_has, ap is_static h.in_struct)
              (static_default-scalar info sub_default p info.ltype h.fits)
  rule-wire info sub sub_default p repeated h valid nonzero e single = elim single [ ]
  rule-wire info sub sub_default p oneof h valid nonzero e single = elim single [ ]

  module _ (callback_wire extension_wire : ℕ → ℕ → Wire) where
    field-wire :
        (info : FieldInfo) (sub : Option (ℕ → Wire)) (sub_default : ℕ → Bool) (p : ℕ)
        → IsScalar info
        → IsValue mem info.ltype info.data_size p
        → p ≢ 0
        → field_wire mem callback_wire extension_wire info sub sub_default p
          ≡ emitted (if is_sent mem info p info.htype then field_bytes mem info p else [])
    field-wire info sub sub_default p h valid nonzero =
        ap
          (λ (a : Atype).
            wire_by_allocation mem callback_wire extension_wire info sub sub_default p a)
          h.in_struct
        ∙ rule-wire info sub sub_default p info.htype h valid nonzero refl h.single

    pub fields-wire :
        (fields : Fields) (p : ℕ)
        → AllScalars fields
        → AllValues mem fields p
        → p ≢ 0
        → fields_wire mem callback_wire extension_wire fields p ≡ emitted (flat_bytes mem fields p)
    unfolding fields_wire
    fields-wire last p all values nonzero = refl
    fields-wire (field info ptr rest) p (h, no_default, other, all) (valid, values) nonzero =
        rw
          (
            scalar-is_no_extension info.ltype info.data_size h.fits,
            field-wire info (sub_wire mem callback_wire extension_wire ptr)
                (sub_all_default mem ptr) p h valid nonzero,
            fields-wire rest (data_after info rest p) all values
                (λ z. nonzero (omega (arith, data_after-le info rest p))),
          )
          refl
