-- ===== src/Nanopb/Istream/Reads.antt =====
-- What a function on input streams does to a stream over a buffer: it takes certain bytes from the
-- front and gives a value, whatever follows.
use kaseiapp.Base.{ℕ, suc, ◌+◌, ◌-◌, ◌≤◌, ◌≡◌, sym, ap, ◌∙◌, arith}
use kaseiapp.Base.{Option, some, List, [], ◌∷◌, ◌++◌, append_assoc, length, length-append}
use kaseiapp.Base.{ltb, ◌==◌, false}
use native.Mathlib.Nat.{add-zero, add_assoc, sub-add-eq, sub-zero}
use mathlib.Core.Path.{subst}
use kaseiapp.Base.Memory.{bytes_at, bytes_at-append, length-bytes_at}
use kaseiapp.Nanopb.Istream.{
  Cursor, Source, Istream, Reader, buf_read, give, ◌>>=◌, call_source, read_bytes, pb_readbyte,
}

-- The bytes that the stream has left.
abbrev pub input : Istream → List ℕ
input s = bytes_at s.state.mem s.state.ptr s.bytes_left

-- The stream with `n` bytes taken.
abbrev pub consume : Istream → ℕ → Istream
consume s n = record s {
  state = record s.state { ptr = s.state.ptr + n };
  bytes_left = s.bytes_left - n;
}

abbrev pub Reads {ℓ} : {A : Type ℓ} → Reader A → List ℕ → A → Type ℓ
Reads run xs a =
    (s : Istream) (rest : List ℕ)
    → s.callback ≡ buf_read
    → input s ≡ xs ++ rest
    → run s ≡ (some a, consume s (length xs))

pub length-input : (s : Istream) → length (input s) ≡ s.bytes_left
length-input s = length-bytes_at s.state.mem s.state.ptr s.bytes_left

pub input-consume :
    (s : Istream) (xs rest : List ℕ) → input s ≡ xs ++ rest → input (consume s (length xs)) ≡ rest
input-consume s xs rest e = (bytes_at-append s.state.mem s.state.ptr s.bytes_left xs rest e).1

pub consume-add : (s : Istream) (n k : ℕ) → consume (consume s n) k ≡ consume s (n + k)
consume-add s n k = λ i. record s {
  state = record s.state { ptr = add_assoc s.state.ptr n k i };
  bytes_left = sym (sub-add-eq s.bytes_left n k) i;
}

pub consume-zero : (s : Istream) → consume s 0 ≡ s
consume-zero s = λ i. record s {
  state = record s.state { ptr = add-zero s.state.ptr i };
  bytes_left = sub-zero s.bytes_left i;
}

call-buf :
    (c : Source) (st : Cursor) (n : ℕ)
    → c ≡ buf_read
    → call_source c st n ≡ (some (bytes_at st.mem st.ptr n), record st { ptr = st.ptr + n })
call-buf c st n e = rw e

pub enough : (s : Istream) (xs rest : List ℕ) → input s ≡ xs ++ rest → length xs ≤ s.bytes_left
enough s xs rest e = omega (arith, length-input s, ap length e, length-append {0} xs rest)

-- The bytes of a list read by pb_read, whatever their number.
pub read_bytes-Reads : (xs : List ℕ) → Reads (read_bytes (length xs)) xs xs
unfolding read_bytes
read_bytes-Reads [] s rest buf e = λ i. (some [], sym (consume-zero s) i)
read_bytes-Reads (x ∷ xs) s rest buf e =
    rw (here, roomy, call-buf s.callback s.state (suc (length xs)) buf)
      (rw (bytes_at-append s.state.mem s.state.ptr s.bytes_left (x ∷ xs) rest e).0)
  where
    here : (suc (length xs) == 0) ≡ false
    here = ground arith

    roomy : ltb s.bytes_left (suc (length xs)) ≡ false
    roomy = ground (arith, enough s (x ∷ xs) rest e)

pub read_bytes-Reads_of : (n : ℕ) (xs : List ℕ) → length xs ≡ n → Reads (read_bytes n) xs xs
read_bytes-Reads_of n xs e = subst (λ (k : ℕ). Reads (read_bytes k) xs xs) e (read_bytes-Reads xs)

pub pb_readbyte-Reads : (b : ℕ) → Reads pb_readbyte (b ∷ []) b
unfolding pb_readbyte
pb_readbyte-Reads b s rest buf e =
    rw (roomy, call-buf s.callback s.state 1 buf)
      (rw (bytes_at-append s.state.mem s.state.ptr s.bytes_left (b ∷ []) rest e).0)
  where
    roomy : (s.bytes_left == 0) ≡ false
    roomy = ground (arith, enough s (b ∷ []) rest e)

pub give-Reads {ℓ} : {A : Type ℓ} (a : A) → Reads (give a) [] a
give-Reads a s rest buf e = λ i. (some a, sym (consume-zero s) i)

-- Readers in a row take their bytes in a row.
pub >>=-Reads {ℓ κ} :
    {A : Type ℓ} {B : Type κ} {f : Reader A} (k : A → Reader B) (xs ys : List ℕ) (a : A) (b : B)
    → Reads f xs a
    → Reads (k a) ys b
    → Reads (f >>= k) (xs ++ ys) b
>>=-Reads k xs ys a b hf hk s rest buf e =
    let e' = e ∙ append_assoc xs ys rest in
    rw (hf s (ys ++ rest) buf e')
      (hk (consume s (length xs)) rest buf (input-consume s xs (ys ++ rest) e') ∙ joined)
  where
    joined :
        ◌≡◌ {A = Option _ × Istream}
          (some b, consume (consume s (length xs)) (length ys))
          (some b, consume s (length (xs ++ ys)))
    joined = λ i. (
      some b,
      (consume-add s (length xs) (length ys) ∙ ap (consume s) (sym (length-append xs ys))) i,
    )

-- A value computed from the one that was read.
pub map-Reads {ℓ κ} :
    {A : Type ℓ} {B : Type κ} (f : Reader A) (g : A → B) (xs : List ℕ) (a : A)
    → Reads f xs a
    → Reads (f >>= λ x. give (g x)) xs (g a)
map-Reads f g xs a hf s rest buf e = rw (hf s rest buf e)
