-- ===== src/Nanopb/Ostream/Emits/Write.antt =====
-- pb_write as an emitter: it writes its bytes if they fit, and refuses them as a whole if not.
use kaseiapp.Base.{
  IsU64, ℕ, suc, ◌+◌, ◌^◌, ◌<◌, ◌≡◌, refl, arith, true, false, ◌||◌, Option, List, [], ◌∷◌,
}
use kaseiapp.Base.{Bool-cases, inl, inr, ltb, leb, length, take_all}
use kaseiapp.Base.Memory.{store_bytes}
use kaseiapp.Nanopb.Pb.{Message}
use kaseiapp.Nanopb.Ostream.{
  Dest, Sink, null, buf_write, custom, Ostream, add_size, buf_write_to, pb_write,
}
use kaseiapp.Nanopb.Ostream.Emits.{Outcome, IsReady, fits}

abbrev pub stream_of : Sink → Dest → ℕ → ℕ → Option Message → Ostream
stream_of c d m w e = record {
  callback = c;
  state = d;
  max_size = m;
  bytes_written = w;
  errmsg = e;
}

pb_write_at :
    (c : Sink) (d : Dest) (m w : ℕ) (e : Option Message) (bs : List ℕ)
    → length bs < 2 ^ 64
    → IsReady (stream_of c d m w e)
    → Outcome
        (fits (stream_of c d m w e) (length bs))
        (stream_of c d m w e)
        (pb_write bs (length bs) (stream_of c d m w e))
        bs
unfolding pb_write buf_write_to store_bytes
pb_write_at null d m w e bs small ready = ground arith
pb_write_at buf_write d m w e [] small ready = rw ready.within (λ i. (
  true,
  record (stream_of buf_write d m w e) {
    state = record d { ptr = end i };
    bytes_written = add_size w 0;
  },
))
  where
    end : d.ptr ≡ d.ptr + 0
    end = omega arith
pb_write_at buf_write d m w e (b ∷ bs) small ready =
    elim (Bool-cases (leb (w + suc (length bs)) m)) [
      | inl roomy ↦ rw roomy (rw (fresh roomy, some_count, take_all bs))
      | inr full ↦ rw full (rw (stale full, some_count) (refl, rw ready.no_error))
    ]
  where
    some_count : ltb 0 (suc (length bs)) ≡ true
    some_count = ground arith

    fresh :
        leb (w + suc (length bs)) m ≡ true
        → (ltb (add_size w (suc (length bs))) w || ltb m (add_size w (suc (length bs)))) ≡ false
    fresh h = ground arith

    stale :
        leb (w + suc (length bs)) m ≡ false
        → (ltb (add_size w (suc (length bs))) w || ltb m (add_size w (suc (length bs)))) ≡ true
    stale h = ground arith
pb_write_at (custom f) d m w e bs small ready = absurd ready.plain

-- `pb_write` of all of `bs`, on a counting stream or one over a buffer that has no error yet, and with
-- the count of bytes below 2 ^ 64: if they fit, it appends them and succeeds; if not, it fails with
-- "stream full".
pub pb_write-Emits :
    (bs : List ℕ) (s : Ostream)
    → IsReady s
    → IsU64 (s.bytes_written + length bs)
    → Outcome (fits s (length bs)) s (pb_write bs (length bs) s) bs
pb_write-Emits bs s ready small =
    pb_write_at s.callback s.state s.max_size s.bytes_written s.errmsg bs (omega arith) ready
