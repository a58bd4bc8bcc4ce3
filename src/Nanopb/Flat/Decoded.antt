-- ===== src/Nanopb/Flat/Decoded.antt =====
-- Single values, at the pb_dec_ functions of Kasei/Pods/nanopb/pb_decode.c.
use mathlib.Core.Path.{subst}
use kaseiapp.Base.{
  ℕ, ◌+◌, ◌*◌, ◌^◌, ◌<◌, ◌≡◌, refl, sym, ap, ◌∙◌, arith, true, false, not, Option, [], ◌==◌, ==_iff,
  if◌then◌else◌, IsByte,
}
use kaseiapp.Base.Memory.{Memory, load, bytes_at, store_bytes}
use kaseiapp.Nanopb.Pb.{
  FieldInfo, Ltype, bool, varint, uvarint, svarint, fixed32, fixed64, bytes, string, submessage,
  extension, fixed_length_bytes,
}
use kaseiapp.Nanopb.Write.{fixed_bytes}
use kaseiapp.Nanopb.Fields.{is_pointer}
use kaseiapp.Nanopb.Read.{
  pb_decode_varint, pb_decode_varint32, pb_decode_svarint, pb_decode_fixed32, pb_decode_fixed64,
}
use kaseiapp.Nanopb.Read.Varint.{pb_decode_varint-Reads}
use kaseiapp.Nanopb.Read.Varint32.{pb_decode_varint32-Reads}
use kaseiapp.Nanopb.Read.Scalars.{
  pb_decode_svarint-Reads, pb_decode_fixed32-Reads, pb_decode_fixed64-Reads,
}
use kaseiapp.Nanopb.Field.{safe_read_bool, sign_extend, is_int_size}
use kaseiapp.Nanopb.Store.{put, User}
use kaseiapp.Nanopb.Item.{
  Sub, clamp_signed, clamp_unsigned, store_int, pb_dec_bool, pb_dec_varint, pb_dec_uvarint,
  pb_dec_svarint, pb_dec_fixed32, pb_dec_fixed64, decoder_for,
}
use kaseiapp.Nanopb.Stores.{Stores}
use kaseiapp.Nanopb.Wire.Values.{load_bound, sign_extend-IsU64, small_size}
use kaseiapp.Nanopb.Flat.Numbers.{
  fixed_bytes-load, fixed_bytes-sign_extend, clamp-sign_extend, clamp-unsigned, narrowed,
}
use kaseiapp.Nanopb.Flat.Values.{Fits, IsValue, value_size, scalar_bytes}
use kaseiapp.Nanopb.Flat.Arrays.{
  read_only-Stores, writing-Stores, text-Stores, bytes-Stores, fixed_length-Stores,
}

store_int-Stores :
    (clamp : ℕ → ℕ → ℕ) (info : FieldInfo) (dest value : ℕ) (change : Memory → Memory)
    → is_int_size info.data_size ≡ true
    → clamp info.data_size value ≡ value
    → ((m : Memory) → put dest info.data_size value m ≡ change m)
    → Stores (store_int clamp info dest value) [] change
unfolding store_int
store_int-Stores clamp info dest value change fits same stored s st rest buf e =
    rw (fits, (==_iff (clamp info.data_size value) value).1 same)
      (writing-Stores (put dest info.data_size value) change stored s st rest buf e)

bool_value : (x : ℕ) → x < 2 → (if (if not (x == 0) then 1 else 0) == 0 then 0 else 1) ≡ x + 256 * 0
bool_value x h = ground arith

module _ (user : User) (mem : Memory) (is_memory : (a : ℕ) → IsByte (mem a)) (info : FieldInfo)
    (src dest : ℕ) where
  -- The same bytes as at `src`.
  abbrev whole : Memory → Memory
  whole m = store_bytes m dest (bytes_at mem src info.data_size)

  -- The bytes of the value at `src`.
  abbrev pub copied : Ltype → Memory → Memory
  copied lt m = store_bytes m dest (bytes_at mem src (value_size mem lt info.data_size src))

  -- Numbers by their bytes.
  abbrev value : ℕ
  value = load mem src info.data_size

  put_width : (n : ℕ) → info.data_size ≡ n → (m : Memory) → put dest n (load mem src n) m ≡ whole m
  unfolding put
  put_width n h m =
      ap (store_bytes m dest) (fixed_bytes-load mem is_memory n src ∙ ap (bytes_at mem src) (sym h))

  put-value : (m : Memory) → put dest info.data_size value m ≡ whole m
  put-value = put_width info.data_size refl

  put_signed :
      is_int_size info.data_size ≡ true
      → (m : Memory) → put dest info.data_size (sign_extend info.data_size value) m ≡ whole m
  unfolding put
  put_signed h m = ap (store_bytes m dest) (
      fixed_bytes-sign_extend info.data_size value h
      ∙ fixed_bytes-load mem is_memory info.data_size src)

  bound : value < 256 ^ info.data_size
  bound = load_bound mem is_memory src info.data_size

  signed-Stores :
      is_int_size info.data_size ≡ true
      → Stores (store_int clamp_signed info dest (sign_extend info.data_size value)) [] whole
  signed-Stores h =
      store_int-Stores clamp_signed info dest _ whole h
        (clamp-sign_extend info.data_size value h bound) (put_signed h)

  bool-Stores :
      info.data_size ≡ 1
      → mem src < 2
      → Stores (pb_dec_bool dest) (scalar_bytes mem bool 1 src) whole
  unfolding pb_dec_bool put safe_read_bool load bytes_at
  bool-Stores h v =
      read_only-Stores pb_decode_varint32 _ _ (if safe_read_bool mem src then 1 else 0) whole
        (pb_decode_varint32-Reads _ (ground arith))
        (writing-Stores _ whole λ m. ap (store_bytes m dest) (same ∙ ap (bytes_at mem src) (sym h)))
    where
      same :
          fixed_bytes 1 (if (if safe_read_bool mem src then 1 else 0) == 0 then 0 else 1)
          ≡ bytes_at mem src 1
      same = ap (fixed_bytes 1) (bool_value (mem src) v) ∙ fixed_bytes-load mem is_memory 1 src

  pub scalar-Stores :
      (sub : Option Sub) (lt : Ltype)
      → Fits lt info.data_size
      → IsValue mem lt info.data_size src
      → is_pointer info.atype ≡ false
      → Stores
          (decoder_for user info sub lt dest)
          (scalar_bytes mem lt info.data_size src)
          (copied lt)
  unfolding decoder_for pb_dec_varint pb_dec_uvarint pb_dec_svarint pb_dec_fixed32 pb_dec_fixed64
  scalar-Stores sub bool h v in_struct = bool-Stores h v
  scalar-Stores sub varint h v in_struct =
      read_only-Stores pb_decode_varint _ _ (sign_extend info.data_size value) whole
        (pb_decode_varint-Reads _ (sign_extend-IsU64 info.data_size value h bound))
        (subst (λ (w : ℕ). Stores (store_int clamp_signed info dest w) [] whole)
          (sym (narrowed info.data_size value h bound)) (signed-Stores h))
  scalar-Stores sub uvarint h v in_struct =
      read_only-Stores pb_decode_varint _ _ value whole
        (pb_decode_varint-Reads _ (small_size info.data_size value h bound))
        (store_int-Stores clamp_unsigned info dest value whole h
          (clamp-unsigned info.data_size value h bound) put-value)
  scalar-Stores sub svarint h v in_struct =
      read_only-Stores pb_decode_svarint _ _ (sign_extend info.data_size value) whole
        (pb_decode_svarint-Reads _ (sign_extend-IsU64 info.data_size value h bound))
        (signed-Stores h)
  scalar-Stores sub fixed32 h v in_struct =
      read_only-Stores pb_decode_fixed32 _ _ (load mem src 4) whole
        (pb_decode_fixed32-Reads _ (load_bound mem is_memory src 4))
        (writing-Stores _ whole (put_width 4 h))
  scalar-Stores sub fixed64 h v in_struct =
      read_only-Stores pb_decode_fixed64 _ _ (load mem src 8) whole
        (pb_decode_fixed64-Reads _ (load_bound mem is_memory src 8))
        (writing-Stores _ whole (put_width 8 h))
  scalar-Stores sub bytes h v in_struct =
      bytes-Stores user mem info src dest in_struct is_memory v h.1
  scalar-Stores sub string h v in_struct = text-Stores user mem info src dest in_struct v h.1
  scalar-Stores sub submessage h v in_struct = elim h [ ]
  scalar-Stores sub extension h v in_struct = elim h [ ]
  scalar-Stores sub fixed_length_bytes h v in_struct =
      fixed_length-Stores user mem info src dest in_struct h.0 h.1
