-- ===== src/Nanopb/Wire/Submessage.antt =====
-- pb_encode_submessage of Kasei/Pods/nanopb/pb_encode.c, and the data of a packed array: a pass that
-- counts, the length, and a pass that writes.
use kaseiapp.Base.{ℕ, ◌+◌, ◌%◌, ◌^◌, ◌≡◌, refl, sym, arith, Bool, true, false}
use kaseiapp.Base.{
  Option, none, List, [], length, length-append, IsU64, Bool-cases, inl, inr, leb, ltb, ◌==◌,
  if◌then◌else◌,
}
use kaseiapp.Nanopb.Pb.{Message, stream_full}
use kaseiapp.Nanopb.Ostream.{
  Dest, Sink, null, buf_write, custom, is_null, Ostream, Writer, fail, ◌>>◌, add_size, pb_write,
  pb_ostream_sizing,
}
use kaseiapp.Nanopb.Ostream.Emits.{
  wire_bytes, Behaves, Outcome, IsReady, fits, advance, Emits, Implements, Wire, emitted, stopped,
}
use kaseiapp.Nanopb.Ostream.Emits.Write.{stream_of}
use kaseiapp.Nanopb.Ostream.Emits.Sequence.{Implements-Behaves, >>-Emits, continue-true}
use kaseiapp.Nanopb.Write.Varint.{varint_bytes, pb_encode_varint-Emits}
use kaseiapp.Nanopb.Write.{pb_encode_varint}
use kaseiapp.Nanopb.Write.Scalars.{string_bytes}
use mathlib.Core.Path.{subst}
use kaseiapp.Nanopb.Field.{pb_encode_submessage, write_submessage, finish_submessage, after_sizing}
use kaseiapp.Nanopb.Wire.{delimited}

pub sizing-IsReady : IsReady pb_ostream_sizing
unfolding pb_ostream_sizing
sizing-IsReady = record {
  plain = tt;
  max_fits = omega arith;
  written = omega arith;
  within = refl;
  no_error = refl;
}

-- A counting pass over an emitter succeeds with the number of its bytes.
pub sizing_lem :
    (run : Writer) (bs : List ℕ)
    → Emits run bs
    → IsU64 (length bs)
    → run pb_ostream_sizing ≡ (true, advance pb_ostream_sizing bs)
unfolding pb_ostream_sizing
sizing_lem run bs emits h =
    continue-true bs pb_ostream_sizing emits sizing-IsReady (omega arith) refl

-- What an emitter does to streams over a buffer.
abbrev OverBuffer : Writer → List ℕ → Type 0
OverBuffer run bs =
    (d : Dest) (m w : ℕ) (e : Option Message)
    → IsReady (stream_of buf_write d m w e)
    → IsU64 (w + length bs)
    → Outcome (fits (stream_of buf_write d m w e) (length bs)) (stream_of buf_write d m w e)
        (run (stream_of buf_write d m w e)) bs

pub sizing_count :
    (bs : List ℕ)
    → IsU64 (length bs)
    → add_size pb_ostream_sizing.bytes_written (length bs) ≡ length bs
unfolding pb_ostream_sizing
sizing_count bs h = omega arith

counting_at :
    (c : Sink) (d : Dest) (m w : ℕ) (e : Option Message) (run : Writer) (bs : List ℕ)
    → IsU64 (w + length bs)
    → IsReady (stream_of c d m w e)
    → OverBuffer run bs
    → Outcome
        (fits (stream_of c d m w e) (length bs))
        (stream_of c d m w e)
        (if is_null c
          then pb_write [] (length bs) (stream_of c d m w e)
          else run (stream_of c d m w e))
        bs
unfolding pb_write
counting_at null d m w e run bs small ready h = ground arith
counting_at buf_write d m w e run bs small ready h = h d m w e ready small
counting_at (custom f) d m w e run bs small ready h = absurd ready.plain

-- A counting stream is told the number of the bytes at once; a stream over a buffer gets them.
pub counting-Emits :
    (run : Writer) (bs : List ℕ)
    → OverBuffer run bs
    → Emits (λ s. if is_null s.callback then pb_write [] (length bs) s else run s) bs
counting-Emits run bs h s ready small =
    counting_at s.callback s.state s.max_size s.bytes_written s.errmsg run bs small ready h

-- The second pass of pb_encode_submessage, on a stream over a buffer.
second_pass :
    (encode : Writer) (bs : List ℕ) (d : Dest) (m w : ℕ) (e : Option Message)
    → Emits encode bs
    → IsReady (stream_of buf_write d m w e)
    → IsU64 (w + length bs)
    → Outcome
        (fits (stream_of buf_write d m w e) (length bs))
        (stream_of buf_write d m w e)
        (if ltb m (add_size w (length bs))
          then fail stream_full (stream_of buf_write d m w e)
          else finish_submessage
              (length bs)
              (stream_of buf_write d m w e)
              (encode (stream_of buf_write d (length bs) 0 none)))
        bs
second_pass encode bs d m w e emits ready small = elim (Bool-cases (leb (w + length bs) m)) [
  | inl roomy ↦ rw roomy (rw (enough roomy, ran) (rw exact (rw (itself, ready.no_error))))
  | inr full ↦ rw full (rw (too_much full) (refl, rw ready.no_error))
]
  where
    sub : Ostream
    sub = stream_of buf_write d (length bs) 0 none

    enough : leb (w + length bs) m ≡ true → ltb m (add_size w (length bs)) ≡ false
    enough h = ground arith

    too_much : leb (w + length bs) m ≡ false → ltb m (add_size w (length bs)) ≡ true
    too_much h = ground arith

    sub_IsReady : IsReady sub
    sub_IsReady = record {
      plain = tt;
      max_fits = omega arith;
      written = omega arith;
      within = ground arith;
      no_error = refl;
    }

    ran : encode sub ≡ (true, advance sub bs)
    ran = continue-true bs sub emits sub_IsReady (omega arith) (ground arith)

    exact : (0 + length bs) % 2 ^ 64 ≡ length bs
    exact = omega arith

    itself : (length bs == length bs) ≡ true
    itself = ground arith

write_submessage-Emits :
    (encode : Writer) (bs : List ℕ)
    → Emits encode bs
    → Emits (write_submessage encode (length bs)) bs
unfolding write_submessage
write_submessage-Emits encode bs emits =
    counting-Emits _ bs (λ d m w e. second_pass encode bs d m w e emits)

after_sizing_failed :
    (encode : Writer) (r : Bool × Ostream) (s : Ostream)
    → r.0 ≡ false
    → (after_sizing encode r s).0 ≡ false
after_sizing_failed encode (true, sized) s h = cc
after_sizing_failed encode (false, sized) s h = refl

pub pb_encode_submessage-Implements :
    (encode : Writer) (w : Wire)
    → Implements encode w
    → Implements (pb_encode_submessage encode) (delimited w)
unfolding pb_encode_submessage pb_ostream_sizing
pb_encode_submessage-Implements encode (emitted bs) h = λ s ready small.
    let fit : IsU64 (length bs) = omega (arith, length-append {0} (varint_bytes (length bs)) bs) in
    rw (sizing_lem encode bs h fit) (
      subst
        (λ (n : ℕ).
          Outcome (fits s (length (string_bytes bs))) s
            ((pb_encode_varint n >> write_submessage encode n) s) (string_bytes bs))
        (sym (sizing_count bs fit))
        (>>-Emits (pb_encode_varint (length bs)) (write_submessage encode (length bs))
          (varint_bytes (length bs)) bs (pb_encode_varint-Emits (length bs) fit).0
          (write_submessage-Emits encode bs h) s ready small))
pb_encode_submessage-Implements encode (stopped bs) h = λ s ready small.
    after_sizing_failed encode (encode pb_ostream_sizing) s
      (h pb_ostream_sizing sizing-IsReady (omega arith))

-- pb_encode_submessage, around an encoder that implements a wire, writes the length of the encoding and
-- the encoding, on a counting stream or one over a buffer that has no error yet, and with the count of
-- bytes below 2 ^ 64. If both fit, exactly these bytes are appended and the call succeeds, so the second
-- pass counts as many bytes as the first; if not, it fails with "stream full". Where the encoding is an
-- error, it fails.
pub pb_encode_submessage_lem :
    (encode : Writer) (w : Wire) (s : Ostream)
    → Implements encode w
    → IsReady s
    → IsU64 (s.bytes_written + length (wire_bytes (delimited w)))
    → Behaves (delimited w) s (pb_encode_submessage encode s)
pb_encode_submessage_lem encode w s h =
    Implements-Behaves (pb_encode_submessage encode) (delimited w)
      (pb_encode_submessage-Implements encode w h) s
