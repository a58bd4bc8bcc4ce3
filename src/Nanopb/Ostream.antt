-- ===== src/Nanopb/Ostream.antt =====
-- Output streams: `pb_ostream_t` of pb_encode.h, and buf_write, pb_ostream_from_buffer and pb_write
-- of Kasei/Pods/nanopb/pb_encode.c.
pub mod Emits
use kaseiapp.Base.{ℕ, ◌+◌, ◌%◌, ◌^◌, Bool, true, false, not, ◌&&◌, ◌||◌}
use kaseiapp.Base.{Option, none, List, ltb, if◌then◌else◌, length, take}
use kaseiapp.Base.Memory.{Memory, store_bytes}
use kaseiapp.Nanopb.Pb.{Message, stream_full, io_error, first_error}

-- What the stream's `state` pointer leads to: the memory that is written, and the pointer.
pub record Dest : Type 0 where
  pub mem : Memory
  pub ptr : ℕ

-- The `callback` member: NULL (a sizing stream), `&buf_write`, or a function of the program's user.
pub data Sink : Type 0 where
  null : Sink
  buf_write : Sink
  custom : (Dest → List ℕ → Bool × Dest) → Sink

pub record Ostream : Type 0 where
  pub callback : Sink
  pub state : Dest
  pub max_size : ℕ
  pub bytes_written : ℕ
  pub errmsg : Option Message

-- A function that takes a stream, and returns its `bool` and the stream.
abbrev pub Writer : Type 0
Writer = Ostream → Bool × Ostream

-- `return true`, and PB_RETURN_ERROR.
abbrev pub done : Writer
done s = (true, s)

abbrev pub fail : Message → Writer
fail msg s = (false, record s { errmsg = first_error s.errmsg msg })

-- `if (!f(stream)) return false; return g(stream);`
abbrev pub continue : Bool × Ostream → Writer → Bool × Ostream
continue (true, s) g = g s
continue (false, s) g = (false, s)

infixl 5 ◌>>◌
abbrev pub ◌>>◌ : Writer → Writer → Writer
(f >> g) s = continue (f s) g

-- size_t addition.
abbrev pub add_size : ℕ → ℕ → ℕ
add_size a b = (a + b) % 2 ^ 64

unfoldable pub buf_write_to : Dest → List ℕ → Bool × Dest
buf_write_to d buf = (true, record { mem = store_bytes d.mem d.ptr buf; ptr = d.ptr + length buf })

unfoldable pub pb_ostream_from_buffer : Memory → ℕ → ℕ → Ostream
pb_ostream_from_buffer mem buf bufsize = record {
  callback = buf_write;
  state = record { mem = mem; ptr = buf };
  max_size = bufsize;
  bytes_written = 0;
  errmsg = none;
}

-- PB_OSTREAM_SIZING. Its state is NULL, and nothing reads or writes through it.
unfoldable pub pb_ostream_sizing : Ostream
pb_ostream_sizing = record {
  callback = null;
  state = record { mem = λ _. 0; ptr = 0 };
  max_size = 0;
  bytes_written = 0;
  errmsg = none;
}

abbrev pub is_null : Sink → Bool
is_null null = true
is_null _ = false

abbrev pub call_sink : Sink → Dest → List ℕ → Bool × Dest
call_sink null d buf = (true, d)
call_sink buf_write d buf = buf_write_to d buf
call_sink (custom f) d buf = f d buf

-- The callback's answer: its new state, or "io error".
abbrev pub finish_write : Ostream → Bool × Dest → Bool × Ostream
finish_write s (true, d) = (true, record s { state = d })
finish_write s (false, d) = fail io_error (record s { state = d })

-- The checks and the call before `stream->bytes_written += count`.
unfoldable pub write_through : List ℕ → ℕ → Writer
write_through buf count s =
    if ltb (add_size s.bytes_written count) s.bytes_written
      || ltb s.max_size (add_size s.bytes_written count)
    then fail stream_full s
    else finish_write s (call_sink s.callback s.state (take count buf))

-- `buf` may be shorter than `count` only where the callback is NULL.
unfoldable pub pb_write : List ℕ → ℕ → Writer
unfolding write_through
pb_write buf count s =
    continue
      (if ltb 0 count && not (is_null s.callback) then write_through buf count s else (true, s))
      (λ t. (true, record t { bytes_written = add_size t.bytes_written count }))
