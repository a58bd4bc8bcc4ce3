-- ===== src/Nanopb/Stores.antt =====
-- The pb_dec_ functions of Kasei/Pods/nanopb/pb_decode.c for strings and byte arrays, at the bytes that
-- encode a value.
mod Tests
use kaseiapp.Base.{
  ℕ, zero, suc, ◌≢◌, ap₂, ==_iff, ◌+◌, ◌%◌, ◌^◌, ◌≤◌, ◌<◌, ◌≡◌, refl, sym, ap, ◌∙◌, arith, Bool,
  true, false, Option, some,
}
use kaseiapp.Base.{
  List, [], ◌∷◌, ◌++◌, append_assoc, append-nil, length, length-append, ltb, ◌==◌, if◌then◌else◌,
  if-holds, IsU32, IsU64,
}
use mathlib.Core.Path.{subst}
use mathlib.Core.Bool.{true≢false}
use kaseiapp.Base.Memory.{Memory, load, store_bytes, bytes_at, length-bytes_at}
use kaseiapp.Nanopb.Pb.{FieldInfo, size_max, bytes_overflow}
use kaseiapp.Nanopb.Ostream.{add_size}
use kaseiapp.Nanopb.Istream.{Istream, Reader, buf_read, read_bytes, pb_istream_from_buffer}
use kaseiapp.Nanopb.Istream.Reads.{
  Reads, input, consume, consume-add, input-consume, read_bytes-Reads,
}
use kaseiapp.Nanopb.Write.{fixed_bytes, pb_encode_string}
use kaseiapp.Nanopb.Write.Scalars.{string_bytes, pb_encode_string-Emits}
use kaseiapp.Nanopb.Write.Varint.{varint_bytes, length-base128}
use kaseiapp.Nanopb.Read.{pb_decode_varint32, pb_decode_fixed32, pb_decode_fixed64}
use kaseiapp.Nanopb.Read.Varint32.{pb_decode_varint32-Reads}
use kaseiapp.Nanopb.Read.Scalars.{pb_decode_fixed32-Reads, pb_decode_fixed64-Reads}
use kaseiapp.Nanopb.Fields.{is_pointer}
use kaseiapp.Nanopb.Field.{strnlen, string_size, pb_enc_string}
use kaseiapp.Nanopb.Ostream.{pb_ostream_from_buffer}
use kaseiapp.Nanopb.Ostream.Emits.{Emits}
use kaseiapp.Nanopb.RoundTrip.{reopened, written, run_buffer, reopened-input}
use kaseiapp.Nanopb.Store.{
  Store, good, Result, Step, succeed, fail, ◌>>◌, after, after_read, reading, writing, looking, put,
  clear, User,
}
use kaseiapp.Nanopb.Item.{
  read_into, fill_bytes, bytes_of_size, pb_dec_bytes, terminated, fill_string, string_of_size,
  pb_dec_string, fixed_bytes_of_size, pb_dec_fixed_length_bytes, pb_dec_fixed32, pb_dec_fixed64,
}

-- At an input over a buffer that begins with `xs`, the step succeeds, takes `xs` and changes the memory.
abbrev pub Stores : Step → List ℕ → (Memory → Memory) → Type 0
Stores step xs change =
    (s : Istream) (st : Store) (rest : List ℕ)
    → s.callback ≡ buf_read
    → input s ≡ xs ++ rest
    → step s st ≡ (good, consume s (length xs), record st { mem = change st.mem })

pub reading-Stores :
    {A : Type 0} (read : Reader A) (k : A → Step) (xs ys : List ℕ) (a : A)
    (change : Memory → Memory)
    → Reads read xs a
    → Stores (k a) ys change
    → Stores (reading read k) (xs ++ ys) change
reading-Stores read k xs ys a change hread hk s st rest buf e =
    let e' = e ∙ append_assoc xs ys rest in
    rw (hread s (ys ++ rest) buf e')
      (hk (consume s (length xs)) st rest buf (input-consume s xs (ys ++ rest) e') ∙ joined)
  where
    joined :
        ◌≡◌ {A = Result}
          (good, consume (consume s (length xs)) (length ys), record st { mem = change st.mem })
          (good, consume s (length (xs ++ ys)), record st { mem = change st.mem })
    joined = λ i. (
      good,
      (consume-add s (length xs) (length ys) ∙ ap (consume s) (sym (length-append xs ys))) i,
      record st { mem = change st.mem },
    )

pub read_into-Stores :
    (p : ℕ) (bs : List ℕ) → Stores (read_into p (length bs)) bs (λ mem. store_bytes mem p bs)
read_into-Stores p bs s st rest buf e = rw (read_bytes-Reads bs s rest buf e)

fill_string-Stores :
    (dest : ℕ) (bs : List ℕ)
    → Stores
        (fill_string (length bs) dest)
        bs
        (λ mem. put (dest + length bs) 1 0 (store_bytes mem dest bs))
fill_string-Stores dest bs s st rest buf e =
    ap (terminated (dest + length bs)) (read_into-Stores dest bs s st rest buf e)

fill_bytes-Stores :
    (dest : ℕ) (bs : List ℕ)
    → Stores
        (fill_bytes (length bs) dest)
        bs
        (λ mem. store_bytes (put dest 4 (length bs) mem) (dest + 4) bs)
fill_bytes-Stores dest bs s st rest buf e =
    read_into-Stores (dest + 4) bs s (record st { mem = put dest 4 (length bs) st.mem }) rest buf e

-- The test is decided by the size.
pub decided :
    (xs : List ℕ) (change : Memory → Memory) (b : Bool) (f g : Step)
    → b ≡ false
    → Stores g xs change
    → Stores (if b then f else g) xs change
decided xs change true f g e hg = absurd (true≢false e)
decided xs change false f g e hg = hg

module _ (user : User) (info : FieldInfo) (dest : ℕ)
    (in_struct : is_pointer info.atype ≡ false) where
  -- pb_dec_string, into a field in the struct that has room for the text and its terminator, at a length below
  -- 2 ^ 32 - 1 and that many bytes, stores the bytes and a zero behind them, and nothing else.
  pub pb_dec_string-Stores :
      (bs : List ℕ)
      → length bs + 1 ≤ info.data_size
      → length bs + 1 < 2 ^ 32
      → Stores
          (pb_dec_string user info dest)
          (string_bytes bs)
          (λ mem. put (dest + length bs) 1 0 (store_bytes mem dest bs))
  unfolding pb_dec_string string_of_size
  pb_dec_string-Stores bs room small =
      reading-Stores pb_decode_varint32 (string_of_size user info dest) (varint_bytes (length bs))
        bs (length bs) _ (pb_decode_varint32-Reads (length bs) (omega arith))
        (decided _ _ (ltb ((length bs + 1) % 2 ^ 32) (length bs)) _ _ (ground arith) (
          decided _ _ (is_pointer info.atype) _ _ in_struct (
            decided _ _ (ltb info.data_size ((length bs + 1) % 2 ^ 32)) _ _ (ground arith)
              (fill_string-Stores dest bs))))

  -- pb_dec_bytes, into a field that is not a pointer and has room for the bytes and their count, at a
  -- length below 2 ^ 32 and that many bytes on a stream over a buffer, succeeds, takes them, stores the
  -- count and the bytes behind it, and changes nothing else.
  pub pb_dec_bytes-Stores :
      (bs : List ℕ)
      → length bs + 4 ≤ info.data_size
      → length bs < 2 ^ 32
      → Stores
          (pb_dec_bytes user info dest)
          (string_bytes bs)
          (λ mem. store_bytes (put dest 4 (length bs) mem) (dest + 4) bs)
  unfolding pb_dec_bytes bytes_of_size
  pb_dec_bytes-Stores bs room small =
      reading-Stores pb_decode_varint32 (bytes_of_size user info dest) (varint_bytes (length bs)) bs
        (length bs) _ (pb_decode_varint32-Reads (length bs) (omega arith))
        (decided _ _ (ltb size_max (length bs)) _ _ (ground arith) (
          decided _ _ (ltb (add_size (length bs) 4) (length bs)) _ _ (ground arith) (
            decided _ _ (is_pointer info.atype) _ _ in_struct (
              decided _ _ (ltb info.data_size (add_size (length bs) 4)) _ _ (ground arith)
                (fill_bytes-Stores dest bs)))))

enc_string-Emits :
    (mem : Memory) (info : FieldInfo) (src : ℕ)
    → IsU64 (string_size mem info src)
    → Emits
        (pb_enc_string mem info src)
        (string_bytes (bytes_at mem src (string_size mem info src)))
unfolding pb_enc_string
enc_string-Emits mem info src h =
    let n = string_size mem info src in
    let bs = bytes_at mem src n in
    subst (λ (k : ℕ). Emits (pb_encode_string bs k) (string_bytes bs)) (length-bytes_at mem src n)
      (pb_encode_string-Emits bs (omega (arith, length-bytes_at mem src n)))

-- The text `bs` at an address: its bytes, none of which is zero, and a zero byte.
abbrev pub IsText : Memory → ℕ → List ℕ → Type 0
IsText mem p [] = mem p ≡ 0
IsText mem p (b ∷ bs) = (mem p ≡ b) × (b ≢ 0) × IsText mem (p + 1) bs

strnlen-IsText :
    (mem : Memory) (bs : List ℕ) (p n : ℕ)
    → IsText mem p bs
    → length bs < n
    → strnlen mem p n ≡ length bs
unfolding strnlen
strnlen-IsText mem bs p zero h room = absurd (omega arith)
strnlen-IsText mem [] p (suc n) h room = rw ((==_iff (mem p) 0).1 h, strnlen) refl
strnlen-IsText mem (b ∷ bs) p (suc n) (here, nonzero, h) room =
    let more : (mem p == 0) ≡ false = ground (arith, here) in
    rw (more, strnlen) (ap suc (strnlen-IsText mem bs (p + 1) n h (omega (arith, room))))

bytes_at-IsText :
    (mem : Memory) (bs : List ℕ) (p : ℕ) → IsText mem p bs → bytes_at mem p (length bs) ≡ bs
unfolding bytes_at
bytes_at-IsText mem [] p h = refl
bytes_at-IsText mem (b ∷ bs) p (here, nonzero, h) = ap₂ ◌∷◌ here (bytes_at-IsText mem bs (p + 1) h)

string_size-IsText :
    (mem : Memory) (info : FieldInfo) (src : ℕ) (bs : List ℕ)
    → is_pointer info.atype ≡ false
    → src ≢ 0
    → IsText mem src bs
    → length bs < info.data_size
    → string_size mem info src ≡ length bs
unfolding string_size
string_size-IsText mem info src bs in_struct nonzero text room =
    let set : (src == 0) ≡ false = ground arith in
    rw (set, in_struct) (strnlen-IsText mem bs src info.data_size text room)

-- pb_enc_string at the address, not 0, of a text, which ends with the first zero byte, into a buffer that
-- has room for it and its length succeeds, and pb_dec_string over the bytes that it wrote stores exactly
-- that text at `dest` with a zero behind it, takes all bytes, and changes nothing else. The field is not
-- a pointer, its array has room for the text and the zero, the text is shorter than 2 ^ 32 - 1, and the
-- buffer, of fewer than 2 ^ 64 bytes, has ten bytes more than it.
pub decode-encode_string :
    (user : User) (info : FieldInfo) (mem out : Memory) (bs : List ℕ) (src dest buf size : ℕ)
    (st : Store)
    → is_pointer info.atype ≡ false
    → src ≢ 0
    → IsText mem src bs
    → length bs + 1 ≤ info.data_size
    → length bs + 1 < 2 ^ 32
    → IsU64 size
    → length bs + 10 ≤ size
    → let run = pb_enc_string mem info src in
      let s = reopened (written run out buf size) buf in
      ((run (pb_ostream_from_buffer out buf size)).0 ≡ true)
      × (pb_dec_string user info dest s st ≡ (
        good,
        consume s (length (string_bytes bs)),
        record st { mem = put (dest + length bs) 1 0 (store_bytes st.mem dest bs) },
      ))
unfolding pb_istream_from_buffer
decode-encode_string user info mem out bs src dest buf size st in_struct nonzero text room small
      fits enough_room =
    let run = pb_enc_string mem info src in
    let count = string_size-IsText mem info src bs in_struct nonzero text (omega arith) in
    let emits : Emits run (string_bytes bs) =
      subst (λ (cs : List ℕ). Emits run (string_bytes cs))
        (ap (bytes_at mem src) count ∙ bytes_at-IsText mem bs src text)
        (enc_string-Emits mem info src (omega (arith, count))) in
    let short : length (string_bytes bs) ≤ size =
      omega
        (arith, length-append {0} (varint_bytes (length bs)) bs, length-base128 9 (length bs)) in
    (
      ap (λ r. r.0) (run_buffer out buf size fits run (string_bytes bs) emits short),
      pb_dec_string-Stores user info dest in_struct bs room small
          (reopened (written run out buf size) buf) st [] refl
          (reopened-input out buf size fits run (string_bytes bs) emits short
            ∙ sym (append-nil (string_bytes bs))),
    )
