-- ===== src/Nanopb/Wire/Values.antt =====
-- The pb_enc_ functions of Kasei/Pods/nanopb/pb_encode.c against the values of the encoding of Nanopb/Wire.
use kaseiapp.Base.{
  none, some, ℕ, zero, suc, ◌+◌, ◌-◌, ◌%◌, ◌^◌, ◌<◌, ◌≡◌, refl, arith, Bool, true, false,
}
use kaseiapp.Base.{
  sym, ◌&&◌, ◌≤◌, IsU32, ◌⊎◌, Option, List, [], length, IsByte, IsU64, Bool-cases, inl, inr,
  if◌then◌else◌, ltb, ◌==◌,
}
use kaseiapp.Base.Memory.{Memory, load, bytes_at, length-bytes_at}
use kaseiapp.Nanopb.Pb.{
  FieldInfo, bool, varint, uvarint, svarint, bytes, string, fixed_length_bytes, invalid_data_size,
  bytes_size_exceeded,
}
use kaseiapp.Nanopb.Ostream.{Writer, fail}
use kaseiapp.Nanopb.Ostream.Emits.{Emits, Implements, Wire, emitted, stopped}
use kaseiapp.Nanopb.Ostream.Emits.Sequence.{fail-Implements}
use kaseiapp.Nanopb.Write.{pb_encode_string}
use kaseiapp.Nanopb.Write.Varint.{pb_encode_varint-Emits}
use kaseiapp.Nanopb.Write.Scalars.{string_bytes, pb_encode_svarint-Emits, pb_encode_string-Emits}
use kaseiapp.Nanopb.Fields.{is_static, is_pointer}
use kaseiapp.Nanopb.Field
use kaseiapp.Nanopb.Wire.{value_wire}
use mathlib.Core.Path.{subst}
use native.Mathlib.Nat.{pow-suc}

-- A test that both sides make.
pub Implements-if :
    (b : Bool) (f g : Writer) (v w : Wire)
    → Implements f v
    → Implements g w
    → Implements (if b then f else g) (if b then v else w)
Implements-if true f g v w hf hg = hf
Implements-if false f g v w hf hg = hg

-- A string is emitted whatever its length; a length past 64 bits is not met by the premise of Emits.
pub string-Implements :
    (bs : List ℕ) (n : ℕ)
    → length bs ≡ n
    → IsU64 n
    → Emits (pb_encode_string bs n) (string_bytes bs)
string-Implements bs n e h =
    subst (λ (k : ℕ). Emits (pb_encode_string bs k) (string_bytes bs)) e
      (pb_encode_string-Emits bs (omega arith))

int_sizes : (n : ℕ) → Field.is_int_size n ≡ true → (n ≡ 1) ⊎ ((n ≡ 2) ⊎ ((n ≡ 4) ⊎ (n ≡ 8)))
int_sizes n h = elim (Bool-cases (n == 1)) [
  | inl e ↦ inl (ground arith)
  | inr n1 ↦ elim (Bool-cases (n == 2)) [
    | inl e ↦ inr (inl (ground arith))
    | inr n2 ↦ elim (Bool-cases (n == 4)) [
      | inl e ↦ inr (inr (inl (ground arith)))
      | inr n4 ↦ inr (inr (inr (ground arith)))
    ]
  ]
]

-- A property of the four sizes holds of every size that the encoders accept.
pub for_int_size :
    (P : ℕ → Type 0) (n : ℕ) → Field.is_int_size n ≡ true → P 1 → P 2 → P 4 → P 8 → P n
for_int_size P n h p1 p2 p4 p8 = elim (int_sizes n h) [
  | inl e ↦ subst P (sym e) p1
  | inr (inl e) ↦ subst P (sym e) p2
  | inr (inr (inl e)) ↦ subst P (sym e) p4
  | inr (inr (inr e)) ↦ subst P (sym e) p8
]

pub sign_extend-IsU64 :
    (n v : ℕ) → Field.is_int_size n ≡ true → v < 256 ^ n → IsU64 (Field.sign_extend n v)
unfolding Field.sign_extend
sign_extend-IsU64 n v h =
    for_int_size (λ k. v < 256 ^ k → IsU64 (Field.sign_extend k v)) n h (λ b. ground arith)
      (λ b. ground arith) (λ b. ground arith) (λ b. ground arith)

pub small_size : (n v : ℕ) → Field.is_int_size n ≡ true → v < 256 ^ n → IsU64 v
small_size n v h =
    for_int_size (λ k. v < 256 ^ k → IsU64 v) n h (λ b. omega arith) (λ b. omega arith)
      (λ b. omega arith) (λ b. omega arith)

pub when_int_size :
    (info : FieldInfo) (run : Writer) (bs : List ℕ)
    → (Field.is_int_size info.data_size ≡ true → Emits run bs)
    → Implements
        (if Field.is_int_size info.data_size then run else fail invalid_data_size)
        (if Field.is_int_size info.data_size then emitted bs else stopped [])
when_int_size info run bs h = elim (Bool-cases (Field.is_int_size info.data_size)) [
  | inl good ↦ rw good (h good)
  | inr bad ↦ rw bad (fail-Implements invalid_data_size)
]

module _ (mem : Memory) (is_memory : (p : ℕ) → IsByte (mem p)) where
  pub load_bound : (p n : ℕ) → load mem p n < 256 ^ n
  unfolding load
  load_bound p zero = omega arith
  load_bound p (suc n) = omega (arith, pow-suc 256 n, is_memory p, load_bound (p + 1) n)

  pub pb_enc_varint-Implements :
      (info : FieldInfo) (sub : Option (ℕ → Wire)) (src : ℕ)
      → Implements (Field.pb_enc_varint mem info src) (value_wire mem info sub varint src)
  unfolding Field.pb_enc_varint value_wire
  pb_enc_varint-Implements info sub src = when_int_size info _ _ λ good.
      (pb_encode_varint-Emits _
        (sign_extend-IsU64 info.data_size _ good (load_bound src info.data_size))).0

  pub pb_enc_uvarint-Implements :
      (info : FieldInfo) (sub : Option (ℕ → Wire)) (src : ℕ)
      → Implements (Field.pb_enc_uvarint mem info src) (value_wire mem info sub uvarint src)
  unfolding Field.pb_enc_uvarint value_wire
  pb_enc_uvarint-Implements info sub src = when_int_size info _ _ λ good.
      (pb_encode_varint-Emits _
        (small_size info.data_size _ good (load_bound src info.data_size))).0

  pub pb_enc_svarint-Implements :
      (info : FieldInfo) (sub : Option (ℕ → Wire)) (src : ℕ)
      → Implements (Field.pb_enc_svarint mem info src) (value_wire mem info sub svarint src)
  unfolding Field.pb_enc_svarint value_wire
  pb_enc_svarint-Implements info sub src = when_int_size info _ _ λ good.
      pb_encode_svarint-Emits _
        (sign_extend-IsU64 info.data_size _ good (load_bound src info.data_size))

  pub pb_enc_bytes-Implements :
      (info : FieldInfo) (sub : Option (ℕ → Wire)) (src : ℕ)
      → Implements (Field.pb_enc_bytes mem info src) (value_wire mem info sub bytes src)
  unfolding Field.pb_enc_bytes value_wire
  pb_enc_bytes-Implements info sub src =
      let small : load mem src 4 < 256 ^ 4 = load_bound src 4 in
      let no_wrap : ltb ((load mem src 4 + 4) % 2 ^ 64) (load mem src 4) ≡ false = ground arith in
      let exact : (load mem src 4 + 4) % 2 ^ 64 ≡ load mem src 4 + 4 = omega arith in
      rw no_wrap (
        rw exact (
          Implements-if (src == 0) _ _ _ _ (string-Implements [] 0 refl (omega arith)) (
            Implements-if (is_static info.atype && ltb info.data_size (load mem src 4 + 4))
              (fail bytes_size_exceeded) _ (stopped [])
              (emitted (string_bytes (bytes_at mem (src + 4) (load mem src 4))))
              (fail-Implements bytes_size_exceeded)
              (string-Implements _ _ (length-bytes_at mem (src + 4) (load mem src 4))
                (omega arith)))))

  strnlen-le : (p n : ℕ) → Field.strnlen mem p n ≤ n
  unfolding Field.strnlen
  strnlen-le p zero = omega arith
  strnlen-le p (suc n) = elim (Bool-cases (mem p == 0)) [
    | inl end ↦ rw (end, Field.strnlen) (omega arith)
    | inr more ↦ rw (more, Field.strnlen) (omega (arith, strnlen-le (p + 1) n))
  ]

  string_size-IsU64 :
      (info : FieldInfo) (src : ℕ) → IsU32 info.data_size → IsU64 (Field.string_size mem info src)
  unfolding Field.string_size
  string_size-IsU64 info src h = elim (Bool-cases (src == 0)) [
    | inl empty ↦ rw empty (omega arith)
    | inr some_data ↦ rw some_data (
        omega (
          arith,
          strnlen-le src (if is_pointer info.atype then 2 ^ 64 - 1 else info.data_size),
          limit (is_pointer info.atype),
        ))
  ]
    where
      limit : (b : Bool) → (if b then 2 ^ 64 - 1 else info.data_size) < 2 ^ 64
      limit true = omega arith
      limit false = omega arith

  pub pb_enc_string-Implements :
      (info : FieldInfo) (sub : Option (ℕ → Wire)) (src : ℕ)
      → IsU32 info.data_size
      → Implements (Field.pb_enc_string mem info src) (value_wire mem info sub string src)
  unfolding Field.pb_enc_string value_wire
  pb_enc_string-Implements info sub src h =
      string-Implements _ _ (length-bytes_at mem src (Field.string_size mem info src))
        (string_size-IsU64 info src h)

  pub pb_enc_fixed_length_bytes-Implements :
      (info : FieldInfo) (sub : Option (ℕ → Wire)) (src : ℕ)
      → IsU32 info.data_size
      → Implements
          (Field.pb_enc_fixed_length_bytes mem info src)
          (value_wire mem info sub fixed_length_bytes src)
  unfolding Field.pb_enc_fixed_length_bytes value_wire
  pb_enc_fixed_length_bytes-Implements info sub src h =
      string-Implements _ _ (length-bytes_at mem src info.data_size) (omega arith)

  pub pb_enc_bool-Implements :
      (info : FieldInfo) (sub : Option (ℕ → Wire)) (src : ℕ)
      → Implements (Field.pb_enc_bool mem src) (value_wire mem info sub bool src)
  unfolding Field.pb_enc_bool value_wire
  pb_enc_bool-Implements info sub src =
      (pb_encode_varint-Emits (if Field.safe_read_bool mem src then 1 else 0) (ground arith)).0

  -- What the encoder of a submessage's fields does, where there is one.
  abbrev pub SubImplements : Option (ℕ → Writer) → Option (ℕ → Wire) → Type 0
  SubImplements none none = Unit {0}
  SubImplements (some encode) (some sub) = (p : ℕ) → Implements (encode p) (sub p)
  SubImplements none (some sub) = ⊥
  SubImplements (some encode) none = ⊥
