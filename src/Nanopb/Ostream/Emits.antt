-- ===== src/Nanopb/Ostream/Emits.antt =====
-- What a function on output streams does to a sizing stream and to a stream over a buffer: it
-- appends its bytes and succeeds, or it fails for want of room.
pub mod Write
pub mod Sequence
use kaseiapp.Base.{ℕ, ◌+◌, ◌^◌, ◌<◌, ◌≡◌, Bool, true, false, some, none, List, ◌++◌, IsU64}
use kaseiapp.Base.{leb, length}
use kaseiapp.Base.Memory.{store_bytes}
use kaseiapp.Nanopb.Pb.{stream_full}
use kaseiapp.Nanopb.Ostream.{Dest, Sink, null, buf_write, custom, Ostream, Writer, add_size}

abbrev pub IsPlain : Sink → Type 0
IsPlain null = Unit {0}
IsPlain buf_write = Unit {0}
IsPlain (custom f) = ⊥

-- Whether `n` more bytes fit: always, on a sizing stream.
abbrev pub room : Sink → ℕ → ℕ → Bool
room null total max_size = true
room buf_write total max_size = leb total max_size
room (custom f) total max_size = leb total max_size

abbrev pub fits : Ostream → ℕ → Bool
fits s n = room s.callback (s.bytes_written + n) s.max_size

abbrev pub push : Sink → Dest → List ℕ → Dest
push null d bs = d
push buf_write d bs = record { mem = store_bytes d.mem d.ptr bs; ptr = d.ptr + length bs }
push (custom f) d bs = d

-- The stream after `bs` has been written to it.
abbrev pub advance : Ostream → List ℕ → Ostream
advance s bs = record s {
  state = push s.callback s.state bs;
  bytes_written = add_size s.bytes_written (length bs);
}

-- A sizing stream or one over a buffer, with no error yet, and counters within `size_t`.
pub record IsReady (s : Ostream) : Type 0 where
  pub plain : IsPlain s.callback
  pub max_fits : s.max_size < 2 ^ 64
  pub written : s.bytes_written < 2 ^ 64
  pub within : fits s 0 ≡ true
  pub no_error : s.errmsg ≡ none

abbrev pub Outcome : Bool → Ostream → Bool × Ostream → List ℕ → Type 0
Outcome true s r bs = r ≡ (true, advance s bs)
Outcome false s r bs = (r.0 ≡ false) × (r.1.errmsg ≡ some stream_full)

-- For encodings with which the count of the bytes written stays a `size_t`.
abbrev pub Emits : Writer → List ℕ → Type 0
Emits run bs =
    (s : Ostream)
    → IsReady s
    → IsU64 (s.bytes_written + length bs)
    → Outcome (fits s (length bs)) s (run s) bs

-- An encoding: its bytes, or the bytes written or counted in front of a step that fails whatever
-- the room is.
pub data Wire : Type 0 where
  emitted : List ℕ → Wire
  stopped : List ℕ → Wire

abbrev pub Implements : Writer → Wire → Type 0
Implements run (emitted bs) = Emits run bs
Implements run (stopped bs) =
    (s : Ostream) → IsReady s → IsU64 (s.bytes_written + length bs) → (run s).0 ≡ false

abbrev pub wire_bytes : Wire → List ℕ
wire_bytes (emitted bs) = bs
wire_bytes (stopped bs) = bs

-- The outcome `r` of a function on the stream `s`, by what it has to write: the bytes, if they fit,
-- or "stream full"; and a failure where the encoding is an error.
abbrev pub Behaves : Wire → Ostream → Bool × Ostream → Type 0
Behaves (emitted bs) s r = Outcome (fits s (length bs)) s r bs
Behaves (stopped bs) s r = r.0 ≡ false

-- The encoding of one function after another.
abbrev pub join : Wire → Wire → Wire
join (emitted xs) (emitted ys) = emitted (xs ++ ys)
join (emitted xs) (stopped ys) = stopped (xs ++ ys)
join (stopped xs) w = stopped xs
