-- ===== src/Nanopb/Istream.antt =====
-- Input streams: `pb_istream_t` of pb_decode.h, and buf_read, pb_read, pb_readbyte and
-- pb_istream_from_buffer of Kasei/Pods/nanopb/pb_decode.c.
pub mod Reads
pub mod Takes
use kaseiapp.Base.{ℕ, zero, suc, ◌+◌, ◌-◌, Bool, true, false, Option, none, some, List, []}
use kaseiapp.Base.{ltb, ◌==◌, if◌then◌else◌, get_or}
use kaseiapp.Base.Memory.{Memory, bytes_at}
use kaseiapp.Nanopb.Pb.{Message, end_of_stream, io_error, first_error}

-- What the stream's `state` pointer leads to: the memory that is read, and the pointer.
pub record Cursor : Type 0 where
  pub mem : Memory
  pub ptr : ℕ

-- The `callback` member: `&buf_read`, or a function of the program's user, which is given the count
-- and leaves the buffer, here a memory from 0 on, with what it put there.
pub data Source : Type 0 where
  buf_read : Source
  custom : (Cursor → ℕ → Option Memory × Cursor) → Source

pub record Istream : Type 0 where
  pub callback : Source
  pub state : Cursor
  pub bytes_left : ℕ
  pub errmsg : Option Message

-- A function that takes a stream and fills an output parameter: `none` is `return false`.
abbrev pub Reader {ℓ} : Type ℓ → Type ℓ
Reader A = Istream → Option A × Istream

abbrev pub give {ℓ} : {A : Type ℓ} → A → Reader A
give a s = (some a, s)

abbrev pub refuse {ℓ} : {A : Type ℓ} → Message → Reader A
refuse msg s = (none, record s { errmsg = first_error s.errmsg msg })

abbrev pub stop {ℓ} : {A : Type ℓ} → Reader A
stop s = (none, s)

abbrev pub proceed {ℓ κ} :
    {A : Type ℓ} {B : Type κ} → Option A × Istream → (A → Reader B) → Option B × Istream
proceed (some a, s) k = k a s
proceed (none, s) k = (none, s)

infixl 5 ◌>>=◌ ◌>>◌
abbrev pub ◌>>=◌ {ℓ κ} : {A : Type ℓ} {B : Type κ} → Reader A → (A → Reader B) → Reader B
(f >>= k) s = proceed (f s) k

abbrev pub ◌>>◌ {ℓ κ} : {A : Type ℓ} {B : Type κ} → Reader A → Reader B → Reader B
f >> g = f >>= λ _. g

abbrev pub is_buf_read : Source → Bool
is_buf_read buf_read = true
is_buf_read (custom f) = false

-- The bytes asked for, at the start of the buffer.
abbrev pub filled : ℕ → Option Memory × Cursor → Option (List ℕ) × Cursor
filled count (some buf, c) = (some (bytes_at buf 0 count), c)
filled count (none, c) = (none, c)

abbrev pub call_source : Source → Cursor → ℕ → Option (List ℕ) × Cursor
call_source buf_read c count = (some (bytes_at c.mem c.ptr count), record c { ptr = c.ptr + count })
call_source (custom f) c count = filled count (f c count)

-- The callback's answer: the bytes and `stream->bytes_left -= count`, or "io error".
abbrev pub finish_read : ℕ → Istream → Option (List ℕ) × Cursor → Option (List ℕ) × Istream
finish_read count s (some bs, c) =
    (some bs, record s { state = c; bytes_left = s.bytes_left - count })
finish_read count s (none, c) = refuse io_error (record s { state = c })

-- pb_read with a buffer to fill, or with NULL on a buf_read stream.
unfoldable pub read_bytes : ℕ → Reader (List ℕ)
read_bytes count s =
    if count == 0
    then give [] s
    else if ltb s.bytes_left count
    then refuse end_of_stream s
    else finish_read count s (call_source s.callback s.state count)

-- The loop that skips bytes of a stream with another callback, 16 at a time; `rounds` covers it
-- when it is at least `count / 16`.
unfoldable pub skip_chunks : ℕ → ℕ → Reader (List ℕ)
unfolding read_bytes
skip_chunks zero count s = read_bytes count s
skip_chunks (suc rounds) count s =
    let more = (read_bytes 16 >> skip_chunks rounds (count - 16)) s in
    if ltb 16 count then more else read_bytes count s

-- `pb_read(stream, NULL, count)`.
unfoldable pub pb_skip : ℕ → Reader (List ℕ)
unfolding read_bytes skip_chunks
pb_skip count s =
    let chunks = skip_chunks count count s in
    if count == 0 then give [] s else if is_buf_read s.callback then read_bytes count s else chunks

-- `*buf`, after a read of one byte.
abbrev pub first_byte : List ℕ → ℕ
first_byte bs = get_or bs 0 0

unfoldable pub pb_readbyte : Reader ℕ
pb_readbyte s =
    if s.bytes_left == 0
    then refuse end_of_stream s
    else proceed (finish_read 1 s (call_source s.callback s.state 1)) (λ bs. give (first_byte bs))

unfoldable pub pb_istream_from_buffer : Memory → ℕ → ℕ → Istream
pb_istream_from_buffer mem buf bufsize = record {
  callback = buf_read;
  state = record { mem = mem; ptr = buf };
  bytes_left = bufsize;
  errmsg = none;
}
