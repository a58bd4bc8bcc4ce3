-- ===== src/Nanopb/RoundTrip.antt =====
-- Writing to a buffer by an output stream, and reading that memory by an input stream over the bytes
-- written: Kasei/Pods/nanopb/pb_encode.c against pb_decode.c.
use kaseiapp.Base.{
  ℕ, ◌+◌, ◌*◌, ◌%◌, ◌^◌, ◌≤◌, ◌<◌, ◌≡◌, refl, sym, ap, ◌∙◌, arith, true, some, List, [], append-nil,
}
use kaseiapp.Base.{length, IsU32, IsU64}
use kaseiapp.Base.Memory.{Memory, bytes_at, store_bytes, bytes_at-store_bytes}
use kaseiapp.Nanopb.Ostream.{Ostream, Writer, pb_ostream_from_buffer}
use kaseiapp.Nanopb.Ostream.Emits.{Emits, IsReady, advance}
use kaseiapp.Nanopb.Ostream.Emits.Sequence.{continue-true}
use kaseiapp.Nanopb.Istream.{Istream, Reader, pb_istream_from_buffer}
use kaseiapp.Nanopb.Istream.Reads.{Reads, input, consume}
use kaseiapp.Nanopb.Write.{
  pb_encode_varint, pb_encode_svarint, pb_encode_fixed32, pb_encode_fixed64, pb_encode_tag, zigzag,
  fixed_bytes,
}
use kaseiapp.Nanopb.Write.Varint.{length-base128, varint_bytes, pb_encode_varint-Emits}
use kaseiapp.Nanopb.Write.Scalars.{
  length-fixed_bytes, pb_encode_svarint-Emits, pb_encode_fixed32-Emits, pb_encode_fixed64-Emits,
  pb_encode_tag-Emits, tag_bytes,
}
use kaseiapp.Nanopb.Read.{
  pb_decode_varint, pb_decode_varint32, pb_decode_svarint, pb_decode_fixed32, pb_decode_fixed64,
  pb_decode_tag, found,
}
use kaseiapp.Nanopb.Read.Varint.{pb_decode_varint-Reads}
use kaseiapp.Nanopb.Read.Varint32.{pb_decode_varint32-Reads}
use kaseiapp.Nanopb.Read.Scalars.{
  pb_decode_svarint-Reads, pb_decode_fixed32-Reads, pb_decode_fixed64-Reads,
  pb_decode_tag-tag_bytes,
}

pub from_buffer-IsReady :
    (mem : Memory) (buf size : ℕ) → IsU64 size → IsReady (pb_ostream_from_buffer mem buf size)
unfolding pb_ostream_from_buffer
from_buffer-IsReady mem buf size h = record {
  plain = tt;
  max_fits = h;
  written = omega arith;
  within = ground arith;
  no_error = refl;
}

-- The output stream over a buffer of `size` bytes at `buf` after `run`, and the input stream over the
-- bytes that were written.
abbrev pub written : Writer → Memory → ℕ → ℕ → Ostream
written run mem buf size = (run (pb_ostream_from_buffer mem buf size)).1

abbrev pub reopened : Ostream → ℕ → Istream
reopened s buf = pb_istream_from_buffer s.state.mem buf s.bytes_written

module _ (mem : Memory) (buf size : ℕ) (small : IsU64 size) where
  pub run_buffer :
      (run : Writer) (bs : List ℕ)
      → Emits run bs
      → length bs ≤ size
      → run (pb_ostream_from_buffer mem buf size)
        ≡ (true, advance (pb_ostream_from_buffer mem buf size) bs)
  unfolding pb_ostream_from_buffer
  run_buffer run bs emits h =
      continue-true bs (pb_ostream_from_buffer mem buf size) emits
        (from_buffer-IsReady mem buf size small) (omega arith) (ground arith)

  -- The stream over what was written holds exactly the bytes emitted.
  pub reopened-input :
      (run : Writer) (bs : List ℕ)
      → Emits run bs
      → length bs ≤ size
      → input (reopened (written run mem buf size) buf) ≡ bs
  unfolding pb_ostream_from_buffer pb_istream_from_buffer
  reopened-input run bs emits h =
      ap (λ r. input (reopened r.1 buf)) (run_buffer run bs emits h)
      ∙ ap (bytes_at (store_bytes mem buf bs) buf) count
      ∙ bytes_at-store_bytes mem buf bs
    where
      count : (0 + length bs) % 2 ^ 64 ≡ length bs
      count = omega arith

  -- A reader for the bytes emitted gives its value and leaves nothing.
  pub read_written {ℓ} :
      {A : Type ℓ} (run : Writer) (bs : List ℕ) (read : Reader A) (a : A)
      → Emits run bs
      → length bs ≤ size
      → Reads read bs a
      → let s = reopened (written run mem buf size) buf in
        ((run (pb_ostream_from_buffer mem buf size)).0 ≡ true)
        × (read s ≡ (some a, consume s (length bs)))
  unfolding pb_istream_from_buffer
  read_written run bs read a emits h reads = (
    ap (λ r. r.0) (run_buffer run bs emits h),
    reads _ [] refl (reopened-input run bs emits h ∙ sym (append-nil bs)),
  )

  -- `pb_encode_varint` into a buffer of at least ten bytes succeeds, and `pb_decode_varint` over the
  -- bytes that it wrote gives the 64-bit number back and takes all of them.
  pub decode-encode_varint :
      (v : ℕ)
      → IsU64 v
      → 10 ≤ size
      → let s = reopened (written (pb_encode_varint v) mem buf size) buf in
        ((pb_encode_varint v (pb_ostream_from_buffer mem buf size)).0 ≡ true)
        × (pb_decode_varint s ≡ (some v, consume s (length (varint_bytes v))))
  decode-encode_varint v h room =
      let (emits, short) = pb_encode_varint-Emits v h in
      read_written (pb_encode_varint v) (varint_bytes v) pb_decode_varint v emits
        (omega (arith, short)) (pb_decode_varint-Reads v h)

  -- `pb_encode_varint` of a 32-bit number into a buffer of at least ten bytes succeeds, and
  -- `pb_decode_varint32` over the bytes that it wrote gives the number back and takes all of them.
  pub decode-encode_varint32 :
      (v : ℕ)
      → IsU32 v
      → 10 ≤ size
      → let s = reopened (written (pb_encode_varint v) mem buf size) buf in
        ((pb_encode_varint v (pb_ostream_from_buffer mem buf size)).0 ≡ true)
        × (pb_decode_varint32 s ≡ (some v, consume s (length (varint_bytes v))))
  decode-encode_varint32 v h room =
      let (emits, short) = pb_encode_varint-Emits v (omega arith) in
      read_written (pb_encode_varint v) (varint_bytes v) pb_decode_varint32 v emits
        (omega (arith, short)) (pb_decode_varint32-Reads v h)

  -- `pb_encode_svarint` into a buffer of at least ten bytes succeeds, and `pb_decode_svarint` over the
  -- bytes that it wrote gives the 64-bit pattern back, negative numbers included.
  pub decode-encode_svarint :
      (v : ℕ)
      → IsU64 v
      → 10 ≤ size
      → let s = reopened (written (pb_encode_svarint v) mem buf size) buf in
        ((pb_encode_svarint v (pb_ostream_from_buffer mem buf size)).0 ≡ true)
        × (pb_decode_svarint s ≡ (some v, consume s (length (varint_bytes (zigzag v)))))
  decode-encode_svarint v h room =
      read_written (pb_encode_svarint v) (varint_bytes (zigzag v)) pb_decode_svarint v
        (pb_encode_svarint-Emits v h) (omega (arith, length-base128 9 (zigzag v)))
        (pb_decode_svarint-Reads v h)

  -- `pb_encode_fixed32` and `pb_encode_fixed64` into a buffer of at least eight bytes succeed, and the
  -- decoders over the bytes written give the 32-bit and the 64-bit number back.
  pub decode-encode_fixed :
      (v w : ℕ)
      → IsU32 v
      → IsU64 w
      → 8 ≤ size
      → let s = reopened (written (pb_encode_fixed32 v) mem buf size) buf in
        let t = reopened (written (pb_encode_fixed64 w) mem buf size) buf in
        ((pb_encode_fixed32 v (pb_ostream_from_buffer mem buf size)).0 ≡ true)
        × ((pb_decode_fixed32 s).0 ≡ some v)
        × ((pb_encode_fixed64 w (pb_ostream_from_buffer mem buf size)).0 ≡ true)
        × ((pb_decode_fixed64 t).0 ≡ some w)
  decode-encode_fixed v w hv hw room =
      let (wrote, read) =
        read_written (pb_encode_fixed32 v) (fixed_bytes 4 v) pb_decode_fixed32 v
          (pb_encode_fixed32-Emits v) (omega (arith, length-fixed_bytes 4 v))
          (pb_decode_fixed32-Reads v hv) in
      let (wrote', read') =
        read_written (pb_encode_fixed64 w) (fixed_bytes 8 w) pb_decode_fixed64 w
          (pb_encode_fixed64-Emits w) (omega (arith, length-fixed_bytes 8 w))
          (pb_decode_fixed64-Reads w hw) in
      (wrote, ap (λ r. r.0) read, wrote', ap (λ r. r.0) read')

  -- `pb_encode_tag` into a buffer of at least ten bytes succeeds, and `pb_decode_tag` over the bytes
  -- that it wrote gives the wire type, below 8, and the field number, from 1 to 2 ^ 29 - 1, back.
  pub decode-encode_tag :
      (wiretype number : ℕ)
      → wiretype < 8
      → 0 < number
      → number < 2 ^ 29
      → 10 ≤ size
      → let s = reopened (written (pb_encode_tag wiretype number) mem buf size) buf in
        ((pb_encode_tag wiretype number (pb_ostream_from_buffer mem buf size)).0 ≡ true)
        × (pb_decode_tag s
            ≡ (found wiretype number, consume s (length (tag_bytes wiretype number))))
  unfolding pb_istream_from_buffer
  decode-encode_tag wiretype number hw pos hn room =
      let bs = tag_bytes wiretype number in
      let run = pb_encode_tag wiretype number in
      let emits : Emits run bs = pb_encode_tag-Emits wiretype number hw (omega arith) in
      let short : length bs ≤ size = omega (arith, length-base128 9 (number * 8 + wiretype)) in
      (
        ap (λ r. r.0) (run_buffer run bs emits short),
        pb_decode_tag-tag_bytes wiretype number _ [] hw pos hn refl
            (reopened-input run bs emits short ∙ sym (append-nil bs)),
      )
