-- ===== src/Nanopb/Keeps/Item.antt =====
-- The memory that the pb_dec_ functions of Kasei/Pods/nanopb/pb_decode.c write, for fields in the struct.
use kaseiapp.Base.{ℕ, ◌+◌, ◌%◌, ◌^◌, ◌≤◌, ◌≡◌, refl, ◌∙◌, arith, false, Option, none, some}
use kaseiapp.Base.{List, ltb, ◌==◌, if◌then◌else◌, if-holds, length, inl, inr}
use kaseiapp.Base.Memory.{Memory, store_bytes, length-bytes_at}
use kaseiapp.Nanopb.Pb.{
  FieldInfo, size_max, invalid_data_size, integer_too_large, bytes_overflow, size_too_large,
  string_overflow, incorrect_fixed_length,
}
use kaseiapp.Nanopb.Ostream.{add_size}
use kaseiapp.Nanopb.Istream.{
  Cursor, Source, buf_read, custom, Istream, read_bytes, filled, call_source, finish_read,
}
use kaseiapp.Nanopb.Read.{
  pb_decode_varint, pb_decode_varint32, pb_decode_fixed32, pb_decode_fixed64, pb_decode_svarint,
}
use kaseiapp.Nanopb.Fields.{is_pointer}
use kaseiapp.Nanopb.Field.{is_int_size}
use kaseiapp.Nanopb.Store.{Store, Result, after_read, writing, User}
use kaseiapp.Nanopb.Item.{
  read_into, pb_dec_bool, clamp_signed, clamp_unsigned, store_int, pb_dec_varint, pb_dec_uvarint,
  pb_dec_svarint, pb_dec_fixed32, pb_dec_fixed64, fill_bytes, bytes_of_size, pb_dec_bytes,
  terminated, fill_string, string_of_size, pb_dec_string, fixed_bytes_of_size,
  pb_dec_fixed_length_bytes,
}
use kaseiapp.Nanopb.Keeps.{
  Outside, Keeps, Avoids, succeed-Keeps, fail-Keeps, if-Keeps, >>-Keeps, reading-Keeps, put-Keeps,
  put-Outside, clear-Keeps, store-Keeps,
}

-- A successful read has the bytes asked for.
abbrev HasLength : ℕ → Option (List ℕ) × Istream → Type 0
HasLength n (some bs, t) = length bs ≡ n
HasLength n (none, t) = Unit

finish_read-HasLength :
    (n : ℕ) (s : Istream) (r : Option Memory × Cursor) → HasLength n (finish_read n s (filled n r))
finish_read-HasLength n s (some buf, c) = length-bytes_at buf 0 n
finish_read-HasLength n s (none, c) = tt

source-HasLength :
    (n : ℕ) (s : Istream) (source : Source)
    → HasLength n (finish_read n s (call_source source s.state n))
source-HasLength n s buf_read = length-bytes_at s.state.mem s.state.ptr n
source-HasLength n s (custom f) = finish_read-HasLength n s (f s.state n)

read_bytes-HasLength : (n : ℕ) (s : Istream) → HasLength n (read_bytes n s)
unfolding read_bytes
read_bytes-HasLength n s =
    if-holds (HasLength n) (n == 0) _ _ (λ e. ground arith)
      (λ e.
        if-holds (HasLength n) (ltb s.bytes_left n) _ _ (λ e'. tt)
          (λ e'. source-HasLength n s s.callback))

module _ {kept : ℕ → Type 0} where
  -- A smaller part of the data is avoided too.
  pub smaller : (p n m k : ℕ) → m + k ≤ n → Avoids kept p n → Avoids kept (p + m) k
  smaller p n m k le av a ka = elim (av a ka) [
    | inl below ↦ inl (omega arith)
    | inr above ↦ inr (omega arith)
  ]

  pub prefix : (p n k : ℕ) → k ≤ n → Avoids kept p n → Avoids kept p k
  prefix p n k le av a ka = elim (av a ka) [ inl below ↦ inl below | inr above ↦ inr (omega arith) ]

  read_into-Keeps : (p n : ℕ) → Avoids kept p n → Keeps kept (read_into p n)
  read_into-Keeps p n av = record {
    at = λ s st a k. by_outcome (read_bytes n s) st a k (read_bytes-HasLength n s);
  }
    where
      by_outcome :
          (r : Option (List ℕ) × Istream) (st : Store) (a : ℕ)
          → kept a
          → HasLength n r
          → (after_read r (λ bs. writing (λ mem. store_bytes mem p bs)) st).2.mem a ≡ st.mem a
      by_outcome (some bs, t) st a k len =
          (store-Keeps p bs (prefix p n (length bs) (omega (arith, len)) av)).at t st a k
      by_outcome (none, t) st a k len = refl

  module _ (info : FieldInfo) (dest : ℕ) (av : Avoids kept dest info.data_size) where
    pub dec_bool-Keeps : 1 ≤ info.data_size → Keeps kept (pb_dec_bool dest)
    unfolding pb_dec_bool
    dec_bool-Keeps le =
        reading-Keeps pb_decode_varint32 _ λ value.
          put-Keeps dest 1 (if value == 0 then 0 else 1) (prefix dest info.data_size 1 le av)

    store_int-Keeps : (clamp : ℕ → ℕ → ℕ) (value : ℕ) → Keeps kept (store_int clamp info dest value)
    unfolding store_int
    store_int-Keeps clamp value =
        if-Keeps (is_int_size info.data_size) _ _
          (λ e. >>-Keeps _ _ (put-Keeps dest info.data_size value av) (
            if-Keeps (clamp info.data_size value == value) _ _ (λ e'. succeed-Keeps)
              (λ e'. fail-Keeps integer_too_large)))
          (λ e. fail-Keeps invalid_data_size)

    pub dec_varint-Keeps : Keeps kept (pb_dec_varint info dest)
    unfolding pb_dec_varint
    dec_varint-Keeps = reading-Keeps pb_decode_varint _ λ value.
        store_int-Keeps clamp_signed (if info.data_size == 8 then value else clamp_signed 4 value)

    pub dec_uvarint-Keeps : Keeps kept (pb_dec_uvarint info dest)
    unfolding pb_dec_uvarint
    dec_uvarint-Keeps = reading-Keeps pb_decode_varint _ (store_int-Keeps clamp_unsigned)

    pub dec_svarint-Keeps : Keeps kept (pb_dec_svarint info dest)
    unfolding pb_dec_svarint
    dec_svarint-Keeps = reading-Keeps pb_decode_svarint _ (store_int-Keeps clamp_signed)

    pub dec_fixed32-Keeps : 4 ≤ info.data_size → Keeps kept (pb_dec_fixed32 dest)
    unfolding pb_dec_fixed32
    dec_fixed32-Keeps le =
        reading-Keeps pb_decode_fixed32 _
          λ value. put-Keeps dest 4 value (prefix dest info.data_size 4 le av)

    pub dec_fixed64-Keeps : 8 ≤ info.data_size → Keeps kept (pb_dec_fixed64 dest)
    unfolding pb_dec_fixed64
    dec_fixed64-Keeps le =
        reading-Keeps pb_decode_fixed64 _
          λ value. put-Keeps dest 8 value (prefix dest info.data_size 8 le av)

    fill_bytes-Keeps : (size : ℕ) → size + 4 ≤ info.data_size → Keeps kept (fill_bytes size dest)
    fill_bytes-Keeps size le =
        >>-Keeps _ _ (put-Keeps dest 4 size (prefix dest info.data_size 4 (omega arith) av))
          (read_into-Keeps (dest + 4) size (smaller dest info.data_size 4 size (omega arith) av))

    terminated-Keeps :
        (p : ℕ) (r : Result) (a : ℕ) → Outside p 1 a → (terminated p r).2.mem a ≡ r.2.mem a
    terminated-Keeps p (status, s, st) a out = put-Outside p 1 0 st.mem a out

    fill_string-Keeps : (size : ℕ) → size + 1 ≤ info.data_size → Keeps kept (fill_string size dest)
    fill_string-Keeps size le = record {
      at = λ s st a k.
          terminated-Keeps (dest + size) (read_into dest size s st) a
            (smaller dest info.data_size size 1 le av a k)
          ∙ (read_into-Keeps dest size (prefix dest info.data_size size (omega arith) av)).at s st a
              k;
    }

    pub dec_fixed_length_bytes-Keeps : Keeps kept (pb_dec_fixed_length_bytes info dest)
    unfolding pb_dec_fixed_length_bytes fixed_bytes_of_size
    dec_fixed_length_bytes-Keeps = reading-Keeps pb_decode_varint32 _ λ size.
        if-Keeps (ltb size_max size) _ _ (λ e. fail-Keeps bytes_overflow)
          λ e.
            if-Keeps (size == 0) _ _ (λ e'. clear-Keeps dest info.data_size av)
              λ e'.
                if-Keeps (size == info.data_size) _ _
                  (λ e''. read_into-Keeps dest info.data_size av)
                  (λ e''. fail-Keeps incorrect_fixed_length)

    module _ (user : User) (no_pointer : is_pointer info.atype ≡ false) where
      pub dec_bytes-Keeps : Keeps kept (pb_dec_bytes user info dest)
      unfolding pb_dec_bytes bytes_of_size
      dec_bytes-Keeps = reading-Keeps pb_decode_varint32 _ λ size.
          if-Keeps (ltb size_max size) _ _ (λ e. fail-Keeps bytes_overflow)
            λ e.
              if-Keeps (ltb (add_size size 4) size) _ _ (λ e'. fail-Keeps size_too_large)
                λ e'. rw no_pointer (
                  if-Keeps (ltb info.data_size (add_size size 4)) _ _
                    (λ e''. fail-Keeps bytes_overflow)
                    (λ e''. fill_bytes-Keeps size (ground arith)))

      pub dec_string-Keeps : Keeps kept (pb_dec_string user info dest)
      unfolding pb_dec_string string_of_size
      dec_string-Keeps = reading-Keeps pb_decode_varint32 _ λ size.
          if-Keeps (ltb ((size + 1) % 2 ^ 32) size) _ _ (λ e. fail-Keeps size_too_large)
            λ e. rw no_pointer (
              if-Keeps (ltb info.data_size ((size + 1) % 2 ^ 32)) _ _
                (λ e'. fail-Keeps string_overflow) (λ e'. fill_string-Keeps size (ground arith)))
