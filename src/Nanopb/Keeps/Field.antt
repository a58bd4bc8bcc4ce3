-- ===== src/Nanopb/Keeps/Field.antt =====
-- The memory that decode_static_field of Kasei/Pods/nanopb/pb_decode.c writes.
use kaseiapp.Base.{ℕ, zero, suc, ◌+◌, ◌*◌, ◌%◌, ◌^◌, ◌≤◌, ◌<◌, ◌≡◌, refl, ◌∙◌, arith, false, ◌&&◌}
use kaseiapp.Base.{Option, none, some, leb, ◌==◌, if-holds}
use kaseiapp.Base.Memory.{Memory, load}
use kaseiapp.Nanopb.Pb.{
  FieldInfo, Ltype, bool, varint, uvarint, svarint, fixed32, fixed64, bytes, string, submessage,
  extension, fixed_length_bytes, Htype, required, optional, repeated, oneof, is_packable,
  array_overflow, invalid_field_type, invalid_field_descriptor,
}
use kaseiapp.Nanopb.Pb.WireType
use kaseiapp.Nanopb.Istream.{Istream}
use kaseiapp.Nanopb.Read.{pb_make_string_substream, pb_close_string_substream}
use kaseiapp.Nanopb.Fields.{Ptr, is_pointer, is_repeated}
use kaseiapp.Nanopb.Encode.{is_submessage}
use kaseiapp.Nanopb.Store.{Store, good, bad, hangs, Result, Step, after_read, User}
use kaseiapp.Nanopb.Item.{close_after, in_substream, Sub, pb_dec_submessage, decoder_for}
use kaseiapp.Nanopb.DecodeField.{
  next_entry, count_up, has_room, packed_items, packed_end, static_packed, static_entry,
  fresh_submessage, static_by_rule, decode_static_field,
}
use kaseiapp.Nanopb.Keeps.{
  Keeps, Avoids, succeed-Keeps, fail-Keeps, writing-Keeps, looking-Keeps, if-Keeps, >>-Keeps,
  after_read-Keeps, reading-Keeps, put-Keeps, put-Outside,
}
use kaseiapp.Nanopb.Keeps.Item.{
  smaller, dec_bool-Keeps, dec_varint-Keeps, dec_uvarint-Keeps, dec_svarint-Keeps,
  dec_fixed32-Keeps, dec_fixed64-Keeps, dec_bytes-Keeps, dec_string-Keeps,
  dec_fixed_length_bytes-Keeps,
}
use native.Mathlib.Nat.{mul-le-mul_left, mul-suc}

-- The data of these types has a fixed size.
abbrev pub HasRoom : ℕ → Ltype → Type 0
HasRoom data_size bool = 1 ≤ data_size
HasRoom data_size fixed32 = 4 ≤ data_size
HasRoom data_size fixed64 = 8 ≤ data_size
HasRoom data_size _ = Unit

-- The decoders of a submessage at `dest` keep these addresses.
pub data SubKeeps (kept : ℕ → Type 0) (dest : ℕ) : Option Sub → Type 0 where
  no_sub : SubKeeps kept dest none
  both :
      (sub : Sub)
      → Keeps kept (sub.whole dest)
      → Keeps kept (sub.noinit dest)
      → SubKeeps kept dest (some sub)

closed-kept :
    (sub s : Istream) (st : Store) (status : Unit {0} → Step) (a : ℕ)
    → ((done : Unit {0}) → Keeps (λ b. Unit) (status done))
    → (after_read (pb_close_string_substream sub s) status st).2.mem a ≡ st.mem a
closed-kept sub s st status a h =
    after_read-Keeps {kept = λ b. Unit} (pb_close_string_substream sub s) status st a tt h

-- Closing a substream changes no memory.
pub close_after-kept : (s : Istream) (r : Result) (a : ℕ) → (close_after s r).2.mem a ≡ r.2.mem a
close_after-kept s (good, sub, st) a =
    closed-kept sub s st _ a (λ done. record { at = λ s' st' b k. refl })
close_after-kept s (bad, sub, st) a =
    closed-kept sub s st _ a (λ done. record { at = λ s' st' b k. refl })
close_after-kept s (hangs, sub, st) a = refl

packed_end-kept : (s : Istream) (r : Result) (a : ℕ) → (packed_end s r).2.mem a ≡ r.2.mem a
packed_end-kept s (good, sub, st) a =
    if-holds (λ (r : Result). r.2.mem a ≡ st.mem a) (sub.bytes_left == 0) _ _
      (λ e. close_after-kept s (good, sub, st) a) (λ e. refl)
packed_end-kept s (bad, sub, st) a =
    if-holds (λ (r : Result). r.2.mem a ≡ st.mem a) (sub.bytes_left == 0) _ _
      (λ e. close_after-kept s (bad, sub, st) a) (λ e. refl)
packed_end-kept s (hangs, sub, st) a = refl

-- The place of the field in the struct, and its count, `has_` or `which_` member where it has one, are
-- outside the set.
abbrev pub RuleFits : (ℕ → Type 0) → FieldInfo → ℕ → ℕ → Htype → Type 0
RuleFits kept info p z required = Avoids kept p info.data_size
RuleFits kept info p z optional =
    Avoids kept p info.data_size × ((z == p) ≡ false → Avoids kept z 1)
RuleFits kept info p z repeated =
    Avoids kept p (info.data_size * info.array_size)
    × (info.data_size * info.array_size < 2 ^ 32)
    × Avoids kept z 4
RuleFits kept info p z oneof = Avoids kept p info.data_size × Avoids kept z 4

entry_room : (d c n : ℕ) → c < n → d * n < 2 ^ 32 → d * c % 2 ^ 32 + d ≤ d * n
entry_room d c n lt small =
    let next = mul-le-mul_left {m = suc c} {n = n} d (omega arith) in
    let expanded = mul-suc d c in omega (arith, next, expanded)

module _ {kept : ℕ → Type 0} where
  pub in_substream-Keeps : (use_sub : Step) → Keeps kept use_sub → Keeps kept (in_substream use_sub)
  in_substream-Keeps use_sub h =
      reading-Keeps pb_make_string_substream _
        λ sub. record { at = λ s st a k. close_after-kept s (use_sub sub st) a ∙ h.at sub st a k }

  dec_submessage-Keeps :
      (info : FieldInfo) (sub : Option Sub) (dest : ℕ)
      → SubKeeps kept dest sub
      → Keeps kept (pb_dec_submessage info sub dest)
  dec_submessage-Keeps info none dest h =
      reading-Keeps pb_make_string_substream _ (λ sub. fail-Keeps invalid_field_descriptor)
  dec_submessage-Keeps info (some sub) dest (both _ hw hn) =
      in_substream-Keeps _ (if-Keeps (is_repeated info.htype) _ _ (λ e. hw) (λ e. hn))

  -- The decoder of a type writes to the data at `dest` only.
  pub decoder_for-Keeps :
      (user : User) (info : FieldInfo) (sub : Option Sub) (ltype : Ltype) (dest : ℕ)
      → is_pointer info.atype ≡ false
      → HasRoom info.data_size ltype
      → Avoids kept dest info.data_size
      → SubKeeps kept dest sub
      → Keeps kept (decoder_for user info sub ltype dest)
  unfolding decoder_for
  decoder_for-Keeps user info sub bool dest e room av h = dec_bool-Keeps info dest av room
  decoder_for-Keeps user info sub varint dest e room av h = dec_varint-Keeps info dest av
  decoder_for-Keeps user info sub uvarint dest e room av h = dec_uvarint-Keeps info dest av
  decoder_for-Keeps user info sub svarint dest e room av h = dec_svarint-Keeps info dest av
  decoder_for-Keeps user info sub fixed32 dest e room av h = dec_fixed32-Keeps info dest av room
  decoder_for-Keeps user info sub fixed64 dest e room av h = dec_fixed64-Keeps info dest av room
  decoder_for-Keeps user info sub bytes dest e room av h = dec_bytes-Keeps info dest av user e
  decoder_for-Keeps user info sub string dest e room av h = dec_string-Keeps info dest av user e
  decoder_for-Keeps user info sub submessage dest e room av h = dec_submessage-Keeps info sub dest h
  decoder_for-Keeps user info sub extension dest e room av h = fail-Keeps invalid_field_type
  decoder_for-Keeps user info sub fixed_length_bytes dest e room av h =
      dec_fixed_length_bytes-Keeps info dest av

  count_up-Keeps : (z : ℕ) → Avoids kept z 4 → Keeps kept (count_up z)
  count_up-Keeps z av =
      writing-Keeps _ (λ mem a k. put-Outside z 4 (load mem z 4 + 1) mem a (av a k))

  module _ (info : FieldInfo) (func : ℕ → Step)
      (hf : (q : ℕ) → Avoids kept q info.data_size → Keeps kept (func q)) (p z : ℕ) where
    module _ (av : Avoids kept p (info.data_size * info.array_size))
        (small : info.data_size * info.array_size < 2 ^ 32) (avz : Avoids kept z 4) where
      -- An entry below the size of the array.
      entry-Keeps :
          (mem : Memory)
          → load mem z 4 < info.array_size
          → Keeps kept (func (next_entry info p z mem))
      entry-Keeps mem lt = hf (next_entry info p z mem) (
          smaller p (info.data_size * info.array_size) (info.data_size * load mem z 4 % 2 ^ 32)
            info.data_size (entry_room info.data_size (load mem z 4) info.array_size lt small) av)

      packed_items-Keeps : (rounds : ℕ) → Keeps kept (packed_items info func p z rounds)
      unfolding packed_items
      packed_items-Keeps zero = record {
        at = λ s st a k.
            if-holds (λ (r : Result). r.2.mem a ≡ st.mem a) (has_room info z s st) _ _ (λ e. refl)
              (λ e. refl);
      }
      packed_items-Keeps (suc rounds) = record {
        at = λ s st a k.
            if-holds (λ (r : Result). r.2.mem a ≡ st.mem a) (has_room info z s st) _ _
              (λ e.
                (>>-Keeps _ _
                    (>>-Keeps (func (next_entry info p z st.mem)) (count_up z)
                      (entry-Keeps st.mem (ground arith)) (count_up-Keeps z avz))
                    (packed_items-Keeps rounds)).at
                  s st a k)
              (λ e. refl);
      }

      static_packed-Keeps : Keeps kept (static_packed info func p z)
      unfolding static_packed
      static_packed-Keeps = reading-Keeps pb_make_string_substream _ λ sub. record {
        at = λ s st a k.
            packed_end-kept s (packed_items info func p z sub.bytes_left sub st) a
            ∙ (packed_items-Keeps sub.bytes_left).at sub st a k;
      }

      static_entry-Keeps : Keeps kept (static_entry info func p z)
      unfolding static_entry
      static_entry-Keeps = looking-Keeps _ λ mem. >>-Keeps (count_up z) _ (count_up-Keeps z avz) (
          if-Keeps (leb info.array_size (load mem z 4)) _ _ (λ e. fail-Keeps array_overflow)
            (λ e. entry-Keeps mem (ground arith)))

    module _ (ptr : Ptr)
        (fresh : (mem : Memory) (a : ℕ)
          → Avoids kept p info.data_size
          → kept a
          → fresh_submessage info ptr p mem a ≡ mem a) where
      static_rule-Keeps :
          (wire_type : ℕ) (rule : Htype)
          → RuleFits kept info p z rule
          → Keeps kept (static_by_rule info ptr func wire_type p z rule)
      static_rule-Keeps wire_type required av = hf p av
      static_rule-Keeps wire_type optional (av, avz) =
          >>-Keeps _ (func p)
            (if-Keeps (z == p) _ _ (λ e. succeed-Keeps) (λ e. put-Keeps z 1 1 (avz e))) (hf p av)
      static_rule-Keeps wire_type repeated (av, small, avz) =
          if-Keeps ((wire_type == WireType.string) && is_packable info.ltype) _ _
            (λ e. static_packed-Keeps av small avz) (λ e. static_entry-Keeps av small avz)
      static_rule-Keeps wire_type oneof (av, avz) =
          >>-Keeps _ (func p)
            (>>-Keeps _ _ (put-Keeps z 4 info.tag avz) (
              if-Keeps (is_submessage info.ltype) _ _
                (λ e. writing-Keeps _ (λ mem a k. fresh mem a av k)) (λ e. succeed-Keeps)))
            (hf p av)

      pub decode_static_field-Keeps :
          (wire_type : ℕ)
          → RuleFits kept info p z info.htype
          → Keeps kept (decode_static_field info ptr func wire_type p z)
      unfolding decode_static_field
      decode_static_field-Keeps wire_type fits = static_rule-Keeps wire_type info.htype fits
