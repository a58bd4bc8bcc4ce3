-- ===== src/Nanopb/Flat/Values.antt =====
-- Single values: the bytes that the pb_enc_ functions of Kasei/Pods/nanopb/pb_encode.c write.
use kaseiapp.Base.{
  ℕ, ◌+◌, ◌<◌, ◌≡◌, refl, ap, arith, Bool, true, false, Option, List, [], ◌==◌, if◌then◌else◌,
  IsU32, ◌≤◌, ◌≢◌, ◌&&◌, ltb,
}
use kaseiapp.Base.Memory.{Memory, load, bytes_at}
use kaseiapp.Nanopb.Pb.{
  FieldInfo, Ltype, bool, varint, uvarint, svarint, fixed32, fixed64, bytes, string, submessage,
  extension, fixed_length_bytes,
}
use kaseiapp.Nanopb.Ostream.Emits.{Wire, emitted, stopped}
use kaseiapp.Nanopb.Write.{zigzag, fixed_bytes}
use kaseiapp.Nanopb.Write.Scalars.{string_bytes}
use kaseiapp.Nanopb.Fields.{is_pointer, is_static}
use kaseiapp.Nanopb.Write.Varint.{varint_bytes}
use kaseiapp.Nanopb.Field.{strnlen, string_size, safe_read_bool, sign_extend, is_int_size}
use kaseiapp.Nanopb.Wire.{value_wire}

-- The sizes that values of a type have.
abbrev pub Fits : Ltype → ℕ → Type 0
Fits bool n = n ≡ 1
Fits varint n = is_int_size n ≡ true
Fits uvarint n = is_int_size n ≡ true
Fits svarint n = is_int_size n ≡ true
Fits fixed32 n = n ≡ 4
Fits fixed64 n = n ≡ 8
Fits bytes n = (4 ≤ n) × IsU32 n
Fits string n = (0 < n) × IsU32 n
Fits fixed_length_bytes n = (0 < n) × IsU32 n
Fits _ n = ⊥

-- What holds of all types of single values.
pub for_scalar {ℓ} :
    (P : Ltype → Type ℓ) (lt : Ltype) (n : ℕ)
    → Fits lt n
    → P bool
    → P varint
    → P uvarint
    → P svarint
    → P fixed32
    → P fixed64
    → P bytes
    → P string
    → P fixed_length_bytes
    → P lt
for_scalar P bool n h b v u s f g y t l = b
for_scalar P varint n h b v u s f g y t l = v
for_scalar P uvarint n h b v u s f g y t l = u
for_scalar P svarint n h b v u s f g y t l = s
for_scalar P fixed32 n h b v u s f g y t l = f
for_scalar P fixed64 n h b v u s f g y t l = g
for_scalar P bytes n h b v u s f g y t l = y
for_scalar P string n h b v u s f g y t l = t
for_scalar P submessage n h b v u s f g y t l = elim h [ ]
for_scalar P extension n h b v u s f g y t l = elim h [ ]
for_scalar P fixed_length_bytes n h b v u s f g y t l = l

-- A `bool` is 0 or 1, a byte array is not longer than its room, and a text ends in its array.
abbrev pub IsValue : Memory → Ltype → ℕ → ℕ → Type 0
IsValue mem bool n src = mem src < 2
IsValue mem bytes n src = load mem src 4 + 4 ≤ n
IsValue mem string n src = strnlen mem src n < n
IsValue mem _ n src = Unit

-- The bytes of the struct that a value takes: the count and the bytes of an array, and a text with its
-- terminator.
abbrev pub value_size : Memory → Ltype → ℕ → ℕ → ℕ
value_size mem bytes n src = 4 + load mem src 4
value_size mem string n src = strnlen mem src n + 1
value_size mem _ n src = n

-- The encoding of the value at `src`, without its tag.
abbrev pub scalar_bytes : Memory → Ltype → ℕ → ℕ → List ℕ
scalar_bytes mem bool n src = varint_bytes (if safe_read_bool mem src then 1 else 0)
scalar_bytes mem varint n src = varint_bytes (sign_extend n (load mem src n))
scalar_bytes mem uvarint n src = varint_bytes (load mem src n)
scalar_bytes mem svarint n src = varint_bytes (zigzag (sign_extend n (load mem src n)))
scalar_bytes mem fixed32 n src = fixed_bytes 4 (load mem src 4)
scalar_bytes mem fixed64 n src = fixed_bytes 8 (load mem src 8)
scalar_bytes mem bytes n src = string_bytes (bytes_at mem (src + 4) (load mem src 4))
scalar_bytes mem string n src = string_bytes (bytes_at mem src (strnlen mem src n))
scalar_bytes mem fixed_length_bytes n src = string_bytes (bytes_at mem src n)
scalar_bytes mem _ n src = []

string_size_lem :
    (mem : Memory) (info : FieldInfo) (src : ℕ)
    → is_pointer info.atype ≡ false
    → src ≢ 0
    → string_size mem info src ≡ strnlen mem src info.data_size
unfolding string_size
string_size_lem mem info src in_struct nonzero = rw (not_zero, in_struct) refl
  where
    not_zero : (src == 0) ≡ false
    not_zero = ground arith

none_stopped : (b : Bool) (w : Wire) → (if b && false then stopped [] else w) ≡ w
none_stopped true w = refl
none_stopped false w = refl

pub scalar-value_wire :
    (mem : Memory) (info : FieldInfo) (sub : Option (ℕ → Wire)) (lt : Ltype) (src : ℕ)
    → Fits lt info.data_size
    → IsValue mem lt info.data_size src
    → is_pointer info.atype ≡ false
    → src ≢ 0
    → value_wire mem info sub lt src ≡ emitted (scalar_bytes mem lt info.data_size src)
unfolding value_wire
scalar-value_wire mem info sub bool src h v in_struct nonzero = refl
scalar-value_wire mem info sub varint src h v in_struct nonzero = rw h refl
scalar-value_wire mem info sub uvarint src h v in_struct nonzero = rw h refl
scalar-value_wire mem info sub svarint src h v in_struct nonzero = rw h refl
scalar-value_wire mem info sub fixed32 src h v in_struct nonzero = refl
scalar-value_wire mem info sub fixed64 src h v in_struct nonzero = refl
scalar-value_wire mem info sub bytes src h v in_struct nonzero =
    rw (not_zero, over) (none_stopped (is_static info.atype) _)
  where
    not_zero : (src == 0) ≡ false
    not_zero = ground arith

    over : ltb info.data_size (load mem src 4 + 4) ≡ false
    over = ground arith
scalar-value_wire mem info sub string src h v in_struct nonzero =
    ap (λ (k : ℕ). emitted (string_bytes (bytes_at mem src k)))
      (string_size_lem mem info src in_struct nonzero)
scalar-value_wire mem info sub submessage src h v in_struct nonzero = elim h [ ]
scalar-value_wire mem info sub extension src h v in_struct nonzero = elim h [ ]
scalar-value_wire mem info sub fixed_length_bytes src h v in_struct nonzero = refl
