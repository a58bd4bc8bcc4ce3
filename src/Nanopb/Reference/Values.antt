-- ===== src/Nanopb/Reference/Values.antt =====
-- The values, keys and arrays of the reference encoding are those in the terms of the encoder,
-- Kasei/Pods/nanopb/pb_encode.c.
use kaseiapp.Base.{
  ℕ, zero, suc, ◌+◌, ◌-◌, ◌*◌, ◌^◌, ◌<◌, ◌≡◌, refl, sym, ap, ◌∙◌, arith, Bool, true, false, not,
  ◌&&◌, ◌||◌, Option, none, some, List, [], ◌∷◌, IsByte, Bool-cases, inl, inr, ltb, leb, ◌==◌,
  if◌then◌else◌,
}
use kaseiapp.Base.Memory.{Memory, load, bytes_at}
use kaseiapp.Nanopb.Pb.{
  FieldInfo, Ltype, bool, varint, uvarint, svarint, fixed32, fixed64, bytes, string, submessage,
  extension, fixed_length_bytes, Atype, static, pointer, callback, invalid, is_packable,
}
use kaseiapp.Nanopb.Ostream.Emits.{Wire, emitted, stopped, join}
use kaseiapp.Nanopb.Write.{zigzag, wire_type_of}
use kaseiapp.Nanopb.Write.Varint.{varint_bytes}
use kaseiapp.Nanopb.Write.Scalars.{tag_bytes, field_tag_bytes, string_bytes, zigzag_lem}
use kaseiapp.Nanopb.Fields.{is_static, is_pointer}
use kaseiapp.Nanopb.Field.{safe_read_bool, sign_extend, is_int_size, strnlen, string_size}
use kaseiapp.Nanopb.Encode.{item_address, is_string_or_bytes}
use kaseiapp.Nanopb.Wire.{delimited, items_wire, value_wire, tagged_wire, array_wire}
use kaseiapp.Nanopb.Wire.Values.{for_int_size, sign_extend-IsU64, load_bound}
use kaseiapp.Nanopb.Flat.Numbers.{fixed_bytes-load}
use kaseiapp.Nanopb.Reference.{
  wire_type_number, key_of, is_number, has_int_size, two_complement, zigzag_code, text_limit,
  is_too_long, is_too_many, text_bytes, value_encoding, tagged_encoding, entry_at, array_encoding,
}

or_false : (b : Bool) → (b || false) ≡ b
or_false true = refl
or_false false = refl

has_int_size_lem : (n : ℕ) → is_int_size n ≡ has_int_size n
has_int_size_lem n =
    ap (λ (b : Bool). (n == 1) || ((n == 2) || ((n == 4) || b))) (sym (or_false (n == 8)))

two_complement_lem :
    (n v : ℕ) → is_int_size n ≡ true → v < 256 ^ n → sign_extend n v ≡ two_complement n v
unfolding sign_extend
two_complement_lem n v h =
    for_int_size (λ k. v < 256 ^ k → sign_extend k v ≡ two_complement k v) n h (λ b. ground arith)
      (λ b. ground arith) (λ b. ground arith) (λ b. ground arith)

-- The zigzag code of the 64-bit pattern.
abbrev zigzag_pattern : ℕ → ℕ
zigzag_pattern w = if leb (2 ^ 63) w then 2 * (2 ^ 64 - 1 - w) + 1 else 2 * w

zigzag_code_lem :
    (n v : ℕ) → is_int_size n ≡ true → v < 256 ^ n → zigzag (sign_extend n v) ≡ zigzag_code n v
zigzag_code_lem n v h b =
    zigzag_lem (sign_extend n v) (sign_extend-IsU64 n v h b)
    ∙ ap zigzag_pattern (two_complement_lem n v h b)
    ∙ for_int_size (λ k. v < 256 ^ k → zigzag_pattern (two_complement k v) ≡ zigzag_code k v) n h
        (λ c. ground arith) (λ c. ground arith) (λ c. ground arith) (λ c. ground arith) b

-- A value of an integer, which is met only at a size that integers have.
integer_lem :
    (n v w : ℕ)
    → (is_int_size n ≡ true → v ≡ w)
    → (if is_int_size n then emitted (varint_bytes v) else stopped [])
      ≡ (if has_int_size n then emitted (varint_bytes w) else stopped [])
integer_lem n v w h = elim (Bool-cases (is_int_size n)) [
  | inl good ↦
      rw (sym (has_int_size_lem n), good) (ap (λ (k : ℕ). emitted (varint_bytes k)) (h good))
  | inr bad ↦ rw (sym (has_int_size_lem n), bad) refl
]

if_not : (b : Bool) → ◌≡◌ {A = ℕ} (if not b then 1 else 0) (if b then 0 else 1)
if_not true = refl
if_not false = refl

text_limit_lem :
    (info : FieldInfo) (a : Atype)
    → (if is_pointer a then 2 ^ 64 - 1 else info.data_size) ≡ text_limit info a
text_limit_lem info static = refl
text_limit_lem info pointer = refl
text_limit_lem info callback = refl
text_limit_lem info invalid = refl

is_too_long_lem :
    (info : FieldInfo) (count : ℕ) (a : Atype)
    → (is_static a && ltb info.data_size (count + 4)) ≡ is_too_long info count a
is_too_long_lem info count static = refl
is_too_long_lem info count pointer = refl
is_too_long_lem info count callback = refl
is_too_long_lem info count invalid = refl

is_too_many_lem :
    (info : FieldInfo) (count : ℕ) (a : Atype)
    → (not (is_pointer a) && ltb info.array_size count) ≡ is_too_many info count a
is_too_many_lem info count static = refl
is_too_many_lem info count pointer = refl
is_too_many_lem info count callback = refl
is_too_many_lem info count invalid = refl

pub is_number_lem : (t : Ltype) → is_packable t ≡ is_number t
is_number_lem bool = refl
is_number_lem varint = refl
is_number_lem uvarint = refl
is_number_lem svarint = refl
is_number_lem fixed32 = refl
is_number_lem fixed64 = refl
is_number_lem bytes = refl
is_number_lem string = refl
is_number_lem submessage = refl
is_number_lem extension = refl
is_number_lem fixed_length_bytes = refl

wire_type_number_lem : (t : Ltype) → wire_type_of t ≡ wire_type_number t
wire_type_number_lem bool = refl
wire_type_number_lem varint = refl
wire_type_number_lem uvarint = refl
wire_type_number_lem svarint = refl
wire_type_number_lem fixed32 = refl
wire_type_number_lem fixed64 = refl
wire_type_number_lem bytes = refl
wire_type_number_lem string = refl
wire_type_number_lem submessage = refl
wire_type_number_lem extension = refl
wire_type_number_lem fixed_length_bytes = refl

key_lem : (tag wire_type : ℕ) → emitted (tag_bytes wire_type tag) ≡ key_of tag (some wire_type)
key_lem tag wire_type = ap (λ (k : ℕ). emitted (varint_bytes k)) (omega arith)

key_of_lem :
    (tag : ℕ) (o : Option ℕ)
    → (elim o as (λ x. Wire) [
      | some wiretype ↦ emitted (tag_bytes wiretype tag)
      | none ↦ stopped []
    ])
      ≡ key_of tag o
key_of_lem tag none = refl
key_of_lem tag (some wire_type) = key_lem tag wire_type

field_tag_lem :
    (info : FieldInfo) → field_tag_bytes info ≡ key_of info.tag (wire_type_number info.ltype)
field_tag_lem info =
    key_of_lem info.tag (wire_type_of info.ltype)
    ∙ ap (key_of info.tag) (wire_type_number_lem info.ltype)

module _ (mem : Memory) where
  text_bytes_lem : (p n : ℕ) → bytes_at mem p (strnlen mem p n) ≡ text_bytes mem p n
  unfolding text_bytes strnlen bytes_at
  text_bytes_lem p zero = refl
  text_bytes_lem p (suc n) = elim (Bool-cases (mem p == 0)) [
    | inl end ↦ rw (end, strnlen) refl
    | inr more ↦ rw (more, strnlen) (ap (λ bs. mem p ∷ bs) (text_bytes_lem (p + 1) n))
  ]

  string_lem :
      (info : FieldInfo) (src : ℕ)
      → bytes_at mem src (string_size mem info src)
        ≡ (if src == 0 then [] else text_bytes mem src (text_limit info info.atype))
  unfolding string_size bytes_at
  string_lem info src = elim (Bool-cases (src == 0)) [
    | inl empty ↦ rw empty refl
    | inr text ↦ rw text (
        ap (λ (n : ℕ). bytes_at mem src (strnlen mem src n)) (text_limit_lem info info.atype)
        ∙ text_bytes_lem src (text_limit info info.atype))
  ]

  pub tagged_lem :
      (info : FieldInfo) (item : ℕ → Wire) (p : ℕ)
      → tagged_wire mem info item p ≡ tagged_encoding mem info item p
  tagged_lem info item p = ap (λ (w : Wire). join w (item p)) (field_tag_lem info)

  entry_at_lem :
      (a : Atype) (t : Ltype) (p : ℕ)
      → (if is_pointer a && is_string_or_bytes t then load mem p 8 else p) ≡ entry_at mem a t p
  entry_at_lem static t p = refl
  entry_at_lem callback t p = refl
  entry_at_lem invalid t p = refl
  entry_at_lem pointer bool p = refl
  entry_at_lem pointer varint p = refl
  entry_at_lem pointer uvarint p = refl
  entry_at_lem pointer svarint p = refl
  entry_at_lem pointer fixed32 p = refl
  entry_at_lem pointer fixed64 p = refl
  entry_at_lem pointer bytes p = refl
  entry_at_lem pointer string p = refl
  entry_at_lem pointer submessage p = refl
  entry_at_lem pointer extension p = refl
  entry_at_lem pointer fixed_length_bytes p = refl

  one_by_one_lem :
      (info : FieldInfo) (item : ℕ → Wire) (q : ℕ)
      → tagged_wire mem info item (item_address mem info q)
        ≡ tagged_encoding mem info item (entry_at mem info.atype info.ltype q)
  one_by_one_lem info item q =
      tagged_lem info item (item_address mem info q)
      ∙ ap (tagged_encoding mem info item) (entry_at_lem info.atype info.ltype q)

  pub array_encoding_lem :
      (info : FieldInfo) (item : ℕ → Wire) (count p : ℕ)
      → array_wire mem info item count p ≡ array_encoding mem info item count p
  unfolding array_wire array_encoding
  array_encoding_lem info item count p =
      rw (is_too_many_lem info count info.atype, is_number_lem info.ltype)
        (λ i.
          if count == 0
          then emitted []
          else if is_too_many info count info.atype
          then stopped []
          else if is_number info.ltype
          then join (key_lem info.tag 2 i) (delimited (items_wire item info.data_size count p))
          else items_wire (λ q. one_by_one_lem info item q i) info.data_size count p)

  module _ (is_memory : (p : ℕ) → IsByte (mem p)) where
    pub value_encoding_lem :
        (info : FieldInfo) (sub : Option (ℕ → Wire)) (t : Ltype) (src : ℕ)
        → value_wire mem info sub t src ≡ value_encoding mem info sub t src
    unfolding value_wire value_encoding safe_read_bool
    value_encoding_lem info sub bool src =
        ap (λ (k : ℕ). emitted (varint_bytes k)) (if_not (mem src == 0))
    value_encoding_lem info sub varint src =
        integer_lem info.data_size _ _
          (λ h. two_complement_lem info.data_size _ h (load_bound mem is_memory src info.data_size))
    value_encoding_lem info sub uvarint src = integer_lem info.data_size _ _ (λ h. refl)
    value_encoding_lem info sub svarint src =
        integer_lem info.data_size _ _
          (λ h. zigzag_code_lem info.data_size _ h (load_bound mem is_memory src info.data_size))
    value_encoding_lem info sub fixed32 src = ap emitted (fixed_bytes-load mem is_memory 4 src)
    value_encoding_lem info sub fixed64 src = ap emitted (fixed_bytes-load mem is_memory 8 src)
    value_encoding_lem info sub bytes src =
        rw (is_too_long_lem info (load mem src 4) info.atype) refl
    value_encoding_lem info sub string src =
        ap (λ (bs : List ℕ). emitted (string_bytes bs)) (string_lem info src)
    value_encoding_lem info none submessage src = refl
    value_encoding_lem info (some sub) submessage src = refl
    value_encoding_lem info sub extension src = refl
    value_encoding_lem info sub fixed_length_bytes src = refl
