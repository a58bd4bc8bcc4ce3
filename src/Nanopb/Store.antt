-- ===== src/Nanopb/Store.antt =====
-- The state of the message decoder of Kasei/Pods/nanopb/pb_decode.c: the memory that it fills, and
-- the calls of realloc() and free() that it makes.
use kaseiapp.Base.{ℕ, Option, none, some, List, ◌∷◌, replicate}
use kaseiapp.Base.Memory.{Memory, store_bytes, bytes_at}
use kaseiapp.Nanopb.Pb.{Message, FieldInfo, first_error}
use kaseiapp.Nanopb.Istream.{Istream, Reader}
use kaseiapp.Nanopb.Write.{fixed_bytes}

pub data HeapCall : Type 0 where
  realloc_call : ℕ → ℕ → HeapCall
  free_call : ℕ → HeapCall

-- `calls` has the last call first.
pub record Store : Type 0 where
  pub mem : Memory
  pub calls : List HeapCall

-- `true`, `false`, or a loop that made more rounds than the model gives it.
pub data Status : Type 0 where
  good bad hangs : Status

abbrev pub Result : Type 0
Result = Status × Istream × Store

-- A function that takes an input stream and writes to memory.
abbrev pub Step : Type 0
Step = Istream → Store → Result

abbrev pub succeed : Step
succeed s st = (good, s, st)

abbrev pub fail : Message → Step
fail msg s st = (bad, record s { errmsg = first_error s.errmsg msg }, st)

-- `if (!f(stream)) return false; return g(stream);`
abbrev pub after : Result → Step → Result
after (good, s, st) g = g s st
after (bad, s, st) g = (bad, s, st)
after (hangs, s, st) g = (hangs, s, st)

infixl 5 ◌>>◌
abbrev pub ◌>>◌ : Step → Step → Step
(f >> g) s st = after (f s st) g

abbrev pub after_read : {A : Type 0} → Option A × Istream → (A → Step) → Store → Result
after_read (some a, s) k st = k a s st
after_read (none, s) k st = (bad, s, st)

-- `if (!read(stream, &a)) return false;`
abbrev pub reading : {A : Type 0} → Reader A → (A → Step) → Step
reading read k s st = after_read (read s) k st

abbrev pub writing : (Memory → Memory) → Step
writing change s st = (good, s, record st { mem = change st.mem })

-- The memory as it stands.
abbrev pub looking : (Memory → Step) → Step
looking k s st = k st.mem s st

-- An unsigned integer of `n` bytes at `p`, lowest byte first; higher bits are lost.
unfoldable pub put : ℕ → ℕ → ℕ → Memory → Memory
put p n v mem = store_bytes mem p (fixed_bytes n v)

-- memset() to zero, and memcpy().
unfoldable pub clear : ℕ → ℕ → Memory → Memory
clear p n mem = store_bytes mem p (replicate n 0)

unfoldable pub copy : ℕ → ℕ → ℕ → Memory → Memory
copy p from n mem = store_bytes mem p (bytes_at mem from n)

-- What is not in the library: the allocator, by the calls made so far and the memory, and the user's
-- functions by their addresses. A callback takes the field and the address of its argument; the decoder
-- of an extension takes the address of the extension's member `dest`, the tag and the wire type.
pub record User : Type 0 where
  pub realloc : List HeapCall → Memory → ℕ → ℕ → ℕ × Memory
  pub free : List HeapCall → Memory → ℕ → Memory
  pub callbacks : ℕ → FieldInfo → ℕ → Step
  pub extension_decoders : ℕ → ℕ → ℕ → ℕ → Step

unfoldable pub free_block : User → ℕ → Store → Store
free_block user ptr st = record {
  mem = user.free st.calls st.mem ptr;
  calls = free_call ptr ∷ st.calls;
}
