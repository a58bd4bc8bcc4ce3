-- ===== src/Nanopb/Istream/Takes.antt =====
-- How many bytes the functions on input streams of Kasei/Pods/nanopb/pb_decode.c take.
use kaseiapp.Base.{ℕ, zero, suc, ◌+◌, ◌-◌, ◌≤◌, ◌≡◌, refl, arith, Bool, true, false}
use kaseiapp.Base.{Option, none, some, List, ltb, ◌==◌, if◌then◌else◌}
use kaseiapp.Nanopb.Pb.{Message}
use kaseiapp.Nanopb.Istream.{
  Cursor, Istream, Reader, give, refuse, stop, proceed, ◌>>=◌, ◌>>◌, is_buf_read, call_source,
  finish_read, read_bytes, skip_chunks, pb_skip, first_byte, pb_readbyte,
}

-- Of `n` bytes, `least` at least were taken where the function succeeded.
abbrev pub Took {ℓ} : {A : Type ℓ} → ℕ → ℕ → Option A × Istream → Type 0
Took least n (some a, t) = t.bytes_left ≤ n - least
Took least n (none, t) = t.bytes_left ≤ n

pub record Takes {ℓ} {A : Type ℓ} (least : ℕ) (read : Reader A) : Type ℓ where
  pub at : (s : Istream) → Took least s.bytes_left (read s)

pub give-Takes {ℓ} : {A : Type ℓ} (a : A) → Takes 0 (give a)
give-Takes a = record { at = λ s. omega arith }

pub refuse-Takes {ℓ} : {A : Type ℓ} (least : ℕ) (msg : Message) → Takes least (refuse {A = A} msg)
refuse-Takes least msg = record { at = λ s. omega arith }

pub stop-Takes {ℓ} : {A : Type ℓ} (least : ℕ) → Takes least (stop {A = A})
stop-Takes least = record { at = λ s. omega arith }

pub if-Takes {ℓ} :
    {A : Type ℓ} {least : ℕ} (b : Bool) {f g : Reader A}
    → Takes least f
    → Takes least g
    → Takes least (if b then f else g)
if-Takes true hf hg = hf
if-Takes false hf hg = hg

more-Took {ℓ} :
    {A : Type ℓ} (least more n : ℕ) (t : Istream) (r : Option A × Istream)
    → t.bytes_left ≤ n - least
    → Took more t.bytes_left r
    → Took (least + more) n r
more-Took least more n t (some b, u) h h' = omega arith
more-Took least more n t (none, u) h h' = omega arith

pub proceed-Took {ℓ κ} :
    {A : Type ℓ} {B : Type κ} (least more n : ℕ) (r : Option A × Istream) (k : A → Reader B)
    → Took least n r
    → ((a : A) → Takes more (k a))
    → Took (least + more) n (proceed r k)
proceed-Took least more n (none, t) k h hk = h
proceed-Took least more n (some a, t) k h hk = more-Took least more n t (k a t) h ((hk a).at t)

pub >>=-Takes {ℓ κ} :
    {A : Type ℓ} {B : Type κ} {least more : ℕ} (f : Reader A) (k : A → Reader B)
    → Takes least f
    → ((a : A) → Takes more (k a))
    → Takes (least + more) (f >>= k)
>>=-Takes {least = least} {more} f k hf hk = record {
  at = λ s. proceed-Took least more s.bytes_left (f s) k (hf.at s) hk;
}

fewer-Took {ℓ} :
    {A : Type ℓ} (least fewer n : ℕ) (r : Option A × Istream)
    → fewer ≤ least
    → Took least n r
    → Took fewer n r
fewer-Took least fewer n (some a, t) le h = omega arith
fewer-Took least fewer n (none, t) le h = h

-- Fewer bytes are taken, if more are.
pub fewer-Takes {ℓ} :
    {A : Type ℓ} {least : ℕ} (fewer : ℕ) (f : Reader A)
    → fewer ≤ least
    → Takes least f
    → Takes fewer f
fewer-Takes {least = least} fewer f le hf = record {
  at = λ s. fewer-Took least fewer s.bytes_left (f s) le (hf.at s);
}

finish_read-Took :
    (count : ℕ) (s : Istream) (r : Option (List ℕ) × Cursor)
    → Took count s.bytes_left (finish_read count s r)
finish_read-Took count s (some bs, c) = omega arith
finish_read-Took count s (none, c) = omega arith

-- The branches of a test on a computed outcome.
pub if-Took {ℓ} :
    {A : Type ℓ} (least n : ℕ) (b : Bool) (r r' : Option A × Istream)
    → (b ≡ true → Took least n r)
    → (b ≡ false → Took least n r')
    → Took least n (if b then r else r')
if-Took least n true r r' h h' = h refl
if-Took least n false r r' h h' = h' refl

pub read_bytes-Takes : (count : ℕ) → Takes count (read_bytes count)
unfolding read_bytes
read_bytes-Takes count = record {
  at = λ s.
      if-Took _ _ (count == 0) _ _ (λ e. ground arith)
        (λ e.
          if-Took _ _ (ltb s.bytes_left count) _ _ (λ e'. omega arith)
            (λ e'. finish_read-Took count s (call_source s.callback s.state count)));
}

pub pb_readbyte-Takes : Takes 1 pb_readbyte
unfolding pb_readbyte
pb_readbyte-Takes = record {
  at = λ s.
      if-Took _ _ (s.bytes_left == 0) _ _ (λ e. omega arith)
        (λ e.
          proceed-Took _ _ s.bytes_left (finish_read 1 s (call_source s.callback s.state 1))
            (λ bs. give (first_byte bs)) (finish_read-Took 1 s (call_source s.callback s.state 1))
            (λ bs. give-Takes (first_byte bs)));
}

skip_chunks-Takes : (rounds count : ℕ) → Takes 0 (skip_chunks rounds count)
unfolding skip_chunks
skip_chunks-Takes zero count =
    fewer-Takes 0 (read_bytes count) (omega arith) (read_bytes-Takes count)
skip_chunks-Takes (suc rounds) count = record {
  at = λ s.
      if-Took _ _ (ltb 16 count) _ _
        (λ e.
          (fewer-Takes 0 (read_bytes 16 >> skip_chunks rounds (count - 16)) (omega arith) (
              >>=-Takes (read_bytes 16) (λ bs. skip_chunks rounds (count - 16))
                (read_bytes-Takes 16) (λ bs. skip_chunks-Takes rounds (count - 16)))).at
            s)
        (λ e. (fewer-Takes 0 (read_bytes count) (omega arith) (read_bytes-Takes count)).at s);
}

pub pb_skip-Takes : (count : ℕ) → Takes 0 (pb_skip count)
unfolding pb_skip
pb_skip-Takes count = record {
  at = λ s.
      if-Took _ _ (count == 0) _ _ (λ e. omega arith)
        (λ e.
          if-Took _ _ (is_buf_read s.callback) _ _
            (λ e'. (fewer-Takes 0 (read_bytes count) (omega arith) (read_bytes-Takes count)).at s)
            (λ e'. (skip_chunks-Takes count count).at s));
}
