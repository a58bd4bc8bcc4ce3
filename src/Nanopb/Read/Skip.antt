-- ===== src/Nanopb/Read/Skip.antt =====
-- pb_skip_field of Kasei/Pods/nanopb/pb_decode.c, and the bytes of a field.
use kaseiapp.Base.{
  ℕ, zero, suc, ◌+◌, ◌/◌, ◌%◌, ◌^◌, ◌≤◌, ◌<◌, ◌≡◌, refl, sym, ap, ◌∙◌, arith, inl, inr,
}
use kaseiapp.Base.{
  Option, some, List, [], ◌∷◌, ◌++◌, append-nil, length, ltb, ◌==◌, Bool-cases, if-holds, IsU32,
  IsU64,
}
use mathlib.Core.Path.{subst}
use mathlib.Core.Bool.{true≢false}
use kaseiapp.Nanopb.Pb.WireType
use kaseiapp.Nanopb.Istream.{Istream, give, ◌>>◌, pb_skip, is_buf_read}
use kaseiapp.Nanopb.Istream.Reads.{
  Reads, consume, consume-zero, enough, read_bytes-Reads, >>=-Reads, give-Reads,
}
use kaseiapp.Nanopb.Write.Varint.{base128, varint_bytes}
use kaseiapp.Nanopb.Read.{skip_varint_loop, pb_skip_varint, pb_skip_string, pb_skip_field}
use kaseiapp.Nanopb.Read.Varint.{has_more_last, has_more_inner}
use kaseiapp.Nanopb.Read.Varint32.{pb_decode_varint32-Reads}

-- The bytes behind the tag of a field, by its wire type.
pub data FieldBytes : ℕ → List ℕ → Type 0 where
  varint_field : (v : ℕ) → IsU64 v → FieldBytes WireType.varint (varint_bytes v)
  fixed64_field : (bs : List ℕ) → length bs ≡ 8 → FieldBytes WireType.fixed64 bs
  string_field :
      (bs : List ℕ)
      → IsU32 (length bs)
      → FieldBytes WireType.string (varint_bytes (length bs) ++ bs)
  fixed32_field : (bs : List ℕ) → length bs ≡ 4 → FieldBytes WireType.fixed32 bs

last_byte : (rounds w : ℕ) → w < 128 → Reads (skip_varint_loop (suc rounds)) (w ∷ []) tt
unfolding skip_varint_loop
last_byte rounds w h =
    >>=-Reads _ (w ∷ []) [] (w ∷ []) tt (read_bytes-Reads (w ∷ []))
      (rw (has_more_last w h) (give-Reads tt))

inner_byte :
    (rounds g : ℕ) (ys : List ℕ)
    → g < 128
    → Reads (skip_varint_loop rounds) ys tt
    → Reads (skip_varint_loop (suc rounds)) ((g + 128) ∷ ys) tt
unfolding skip_varint_loop
inner_byte rounds g ys h later =
    >>=-Reads _ ((g + 128) ∷ []) ys ((g + 128) ∷ []) tt (read_bytes-Reads ((g + 128) ∷ []))
      (rw (has_more_inner g h) later)

skip-base128 :
    (k rounds w : ℕ)
    → w < 128 ^ suc k
    → length (base128 k w) ≤ rounds
    → Reads (skip_varint_loop rounds) (base128 k w) tt
unfolding base128
skip-base128 zero zero w h le = absurd (omega arith)
skip-base128 zero (suc rounds) w h le = last_byte rounds w (omega arith)
skip-base128 (suc k) zero w h le = absurd (ground arith)
skip-base128 (suc k) (suc rounds) w h le = elim (Bool-cases (ltb w 128)) [
  | inl small ↦ rw small (last_byte rounds w (ground arith))
  | inr large ↦ rw large (
      inner_byte rounds (w % 128) (base128 k (w / 128)) (omega arith)
        (skip-base128 k rounds (w / 128) (omega arith) (ground arith)))
]

pb_skip-Reads : (xs : List ℕ) → Reads (pb_skip (length xs)) xs xs
unfolding pb_skip
pb_skip-Reads [] s rest buf e = λ i. (some [], sym (consume-zero s) i)
pb_skip-Reads (x ∷ xs) s rest buf e =
    if-holds Done (suc (length xs) == 0) _ _ (λ zero_length. absurd (ground arith))
      (λ more.
        if-holds Done (is_buf_read s.callback) _ _
          (λ by_buffer. read_bytes-Reads (x ∷ xs) s rest buf e)
          (λ other. absurd (true≢false (sym (ap is_buf_read buf) ∙ other))))
  where
    Done : Option (List ℕ) × Istream → Type 0
    Done r = r ≡ (some (x ∷ xs), consume s (suc (length xs)))

skip_varint-Reads : (v : ℕ) → IsU64 v → Reads pb_skip_varint (varint_bytes v) tt
unfolding pb_skip_varint
skip_varint-Reads v h s rest buf e =
    skip-base128 9 s.bytes_left v (omega arith) (enough s (varint_bytes v) rest e) s rest buf e

skip_then-Reads : (n : ℕ) (xs : List ℕ) → length xs ≡ n → Reads (pb_skip n >> give (tt {0})) xs tt
skip_then-Reads n xs len =
    subst (λ (t : List ℕ). Reads (pb_skip n >> give (tt {0})) t tt) (append-nil xs)
      (>>=-Reads _ xs [] xs tt (subst (λ (k : ℕ). Reads (pb_skip k) xs xs) len (pb_skip-Reads xs))
        (give-Reads tt))

skip_string-Reads :
    (bs : List ℕ) → IsU32 (length bs) → Reads pb_skip_string (varint_bytes (length bs) ++ bs) tt
unfolding pb_skip_string
skip_string-Reads bs h =
    >>=-Reads _ (varint_bytes (length bs)) bs (length bs) tt
      (pb_decode_varint32-Reads (length bs) h) (skip_then-Reads (length bs) bs refl)

-- pb_skip_field, at the bytes of a field of its wire type and whatever follows them, on a stream over a
-- buffer, succeeds and takes exactly those bytes.
pub pb_skip_field-Reads :
    (wire_type : ℕ) (bs : List ℕ) → FieldBytes wire_type bs → Reads (pb_skip_field wire_type) bs tt
unfolding pb_skip_field
pb_skip_field-Reads _ _ (varint_field v h) = skip_varint-Reads v h
pb_skip_field-Reads _ _ (fixed64_field bs len) = skip_then-Reads 8 bs len
pb_skip_field-Reads _ _ (string_field bs h) = skip_string-Reads bs h
pb_skip_field-Reads _ _ (fixed32_field bs len) = skip_then-Reads 4 bs len
