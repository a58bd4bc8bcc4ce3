-- ===== src/Nanopb/Flat/Arrays.antt =====
-- Texts and byte arrays in the struct itself, at pb_dec_string, pb_dec_bytes and
-- pb_dec_fixed_length_bytes of Kasei/Pods/nanopb/pb_decode.c.
use mathlib.Core.Path.{subst}
use kaseiapp.Base.{
  ℕ, zero, suc, ap₂, Bool, Bool-cases, ◌∷◌, inl, inr, ◌++◌, length, ◌+◌, ◌<◌, ◌≡◌, refl, sym, ap,
  ◌∙◌, arith, true, false, List, [], append-nil, ◌==◌, ==_iff, if◌then◌else◌, IsByte, IsU32, ◌≤◌,
  ltb,
}
use kaseiapp.Base.Memory.{store_bytes-append, length-bytes_at, Memory, load, bytes_at, store_bytes}
use kaseiapp.Nanopb.Pb.{FieldInfo}
use kaseiapp.Nanopb.Istream.{Reader}
use kaseiapp.Nanopb.Istream.Reads.{Reads, consume, consume-zero}
use kaseiapp.Nanopb.Write.{fixed_bytes}
use kaseiapp.Nanopb.Write.Scalars.{string_bytes}
use kaseiapp.Nanopb.Fields.{is_pointer}
use kaseiapp.Nanopb.Write.Varint.{varint_bytes}
use kaseiapp.Nanopb.Read.{pb_decode_varint32}
use kaseiapp.Nanopb.Read.Varint32.{pb_decode_varint32-Reads}
use kaseiapp.Nanopb.Field.{strnlen}
use kaseiapp.Nanopb.Store.{fail, good, Step, reading, writing, put, User}
use kaseiapp.Nanopb.Stores.{Stores, reading-Stores}
use kaseiapp.Nanopb.Flat.Numbers.{fixed_bytes-load}
use kaseiapp.Nanopb.Pb.{incorrect_fixed_length, size_max}
use kaseiapp.Nanopb.Item.{
  pb_dec_string, pb_dec_bytes, pb_dec_fixed_length_bytes, fixed_bytes_of_size, read_into,
}
use kaseiapp.Nanopb.Stores.{decided, read_into-Stores, pb_dec_string-Stores, pb_dec_bytes-Stores}

-- A reader, and a step that takes nothing more.
pub read_only-Stores :
    {A : Type 0} (read : Reader A) (k : A → Step) (xs : List ℕ) (a : A) (change : Memory → Memory)
    → Reads read xs a
    → Stores (k a) [] change
    → Stores (reading read k) xs change
read_only-Stores read k xs a change hread hk =
    subst (λ (ys : List ℕ). Stores (reading read k) ys change) (append-nil xs)
      (reading-Stores read k xs [] a change hread hk)

pub writing-Stores :
    (change change' : Memory → Memory)
    → ((m : Memory) → change m ≡ change' m)
    → Stores (writing change) [] change'
writing-Stores change change' same s st rest buf e =
    λ i. (good, sym (consume-zero s) i, record st { mem = same st.mem i })

-- The bytes are the same for a change that is.
same-Stores :
    (f : Step) (xs : List ℕ) (change change' : Memory → Memory)
    → ((m : Memory) → change m ≡ change' m)
    → Stores f xs change
    → Stores f xs change'
same-Stores f xs change change' same h s st rest buf e =
    h s st rest buf e ∙ λ i. (good, consume s (length xs), record st { mem = same st.mem i })

bytes_at-add :
    (mem : Memory) (p n k : ℕ) → bytes_at mem p (n + k) ≡ bytes_at mem p n ++ bytes_at mem (p + n) k
unfolding bytes_at
bytes_at-add mem p zero k = ap₂ (bytes_at mem) (omega arith) (omega arith)
bytes_at-add mem p (suc n) k =
    let longer : suc n + k ≡ suc (n + k) = omega arith in
    let moved : p + 1 + n ≡ p + suc n = omega arith in
    ap (bytes_at mem p) longer
    ∙ ap (λ t. mem p ∷ t)
        (bytes_at-add mem (p + 1) n k
          ∙ ap (λ (q : ℕ). bytes_at mem (p + 1) n ++ bytes_at mem q k) moved)

pub byte_at : (mem : Memory) (p : ℕ) → bytes_at mem p 1 ≡ mem p ∷ []
unfolding bytes_at
byte_at mem p = refl

-- The text ends in a zero.
pub strnlen-here : (mem : Memory) (p n : ℕ) → (mem p == 0) ≡ true → strnlen mem p (suc n) ≡ 0
unfolding strnlen
strnlen-here mem p n e = rw (strnlen, e) refl

strnlen-on :
    (mem : Memory) (p n : ℕ)
    → (mem p == 0) ≡ false
    → strnlen mem p (suc n) ≡ suc (strnlen mem (p + 1) n)
unfolding strnlen
strnlen-on mem p n e = rw (strnlen, e) refl

strnlen-end : (mem : Memory) (n p : ℕ) → strnlen mem p n < n → mem (p + strnlen mem p n) ≡ 0
strnlen-end mem zero p h = absurd (omega arith)
strnlen-end mem (suc n) p h = elim (Bool-cases (mem p == 0)) [
  | inl e ↦
      let first : p + strnlen mem p (suc n) ≡ p = omega (arith, strnlen-here mem p n e) in
      ap mem first ∙ (==_iff (mem p) 0).0 e
  | inr e ↦
      let later : p + strnlen mem p (suc n) ≡ p + 1 + strnlen mem (p + 1) n =
        omega (arith, strnlen-on mem p n e) in
      ap mem later ∙ strnlen-end mem n (p + 1) (omega (arith, strnlen-on mem p n e))
]

module _ (user : User) (mem : Memory) (info : FieldInfo) (src dest : ℕ)
    (in_struct : is_pointer info.atype ≡ false) where
  pub text-Stores :
      strnlen mem src info.data_size < info.data_size
      → IsU32 info.data_size
      → Stores
          (pb_dec_string user info dest)
          (string_bytes (bytes_at mem src (strnlen mem src info.data_size)))
          (λ m. store_bytes m dest (bytes_at mem src (strnlen mem src info.data_size + 1)))
  unfolding put fixed_bytes
  text-Stores h small =
      same-Stores (pb_dec_string user info dest) (string_bytes bs) _ _
        (λ m. sym (store_bytes-append m dest bs (0 ∷ [])) ∙ ap (store_bytes m dest) (sym ended))
        (pb_dec_string-Stores user info dest in_struct bs (omega (arith, count))
          (omega (arith, count)))
    where
      k : ℕ
      k = strnlen mem src info.data_size

      bs : List ℕ
      bs = bytes_at mem src k

      count : length bs ≡ k
      count = length-bytes_at mem src k

      ended : bytes_at mem src (k + 1) ≡ bs ++ 0 ∷ []
      ended =
          bytes_at-add mem src k 1
          ∙ ap (λ t. bs ++ t)
              (byte_at mem (src + k)
                ∙ ap (λ (b : ℕ). b ∷ []) (strnlen-end mem info.data_size src h))

  pub bytes-Stores :
      ((a : ℕ) → IsByte (mem a))
      → load mem src 4 + 4 ≤ info.data_size
      → IsU32 info.data_size
      → Stores
          (pb_dec_bytes user info dest)
          (string_bytes (bytes_at mem (src + 4) (load mem src 4)))
          (λ m. store_bytes m dest (bytes_at mem src (4 + load mem src 4)))
  unfolding put
  bytes-Stores is_memory h small =
      same-Stores (pb_dec_bytes user info dest) (string_bytes bs) _ _
        (λ m.
          ap (λ (xs : List ℕ). store_bytes (store_bytes m dest xs) (dest + 4) bs) front
          ∙ ap (λ (d : ℕ). store_bytes (store_bytes m dest (bytes_at mem src 4)) d bs)
              (omega (arith, length-bytes_at mem src 4))
          ∙ sym (store_bytes-append m dest (bytes_at mem src 4) bs)
          ∙ ap (store_bytes m dest) (sym (bytes_at-add mem src 4 (load mem src 4))))
        (pb_dec_bytes-Stores user info dest in_struct bs (omega (arith, count))
          (omega (arith, count)))
    where
      bs : List ℕ
      bs = bytes_at mem (src + 4) (load mem src 4)

      count : length bs ≡ load mem src 4
      count = length-bytes_at mem (src + 4) (load mem src 4)

      front : fixed_bytes 4 (length bs) ≡ bytes_at mem src 4
      front = ap (fixed_bytes 4) count ∙ fixed_bytes-load mem is_memory 4 src

  pub fixed_length-Stores :
      0 < info.data_size
      → IsU32 info.data_size
      → Stores
          (pb_dec_fixed_length_bytes info dest)
          (string_bytes (bytes_at mem src info.data_size))
          (λ m. store_bytes m dest (bytes_at mem src info.data_size))
  unfolding pb_dec_fixed_length_bytes fixed_bytes_of_size
  fixed_length-Stores h small =
      reading-Stores pb_decode_varint32 (fixed_bytes_of_size info dest) (varint_bytes (length bs))
        bs (length bs) _ (pb_decode_varint32-Reads (length bs) (omega (arith, count)))
        (decided _ _ (ltb size_max (length bs)) _ _ (ground (arith, count)) (
          decided _ _ (length bs == 0) _ _ (ground (arith, count)) (
            subst
              (λ (b : Bool).
                Stores (if b then read_into dest info.data_size else fail incorrect_fixed_length) bs
                  (λ m. store_bytes m dest bs))
              (sym ((==_iff (length bs) info.data_size).1 count))
              (subst (λ (n : ℕ). Stores (read_into dest n) bs (λ m. store_bytes m dest bs)) count
                (read_into-Stores dest bs)))))
    where
      bs : List ℕ
      bs = bytes_at mem src info.data_size

      count : length bs ≡ info.data_size
      count = length-bytes_at mem src info.data_size
