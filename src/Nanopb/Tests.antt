-- ===== src/Nanopb/Tests.antt =====
-- Runs of the code of Kasei/Pods/nanopb at concrete inputs, and the theorems applied to them.
use kaseiapp.Base.{ℕ, ◌≡◌, refl, arith, true, some, [], ◌∷◌, length}
use kaseiapp.Base.Memory.{Memory}
use kaseiapp.Nanopb.Ostream.{pb_ostream_from_buffer}
use kaseiapp.Base.{◌==◌, if◌then◌else◌}
use kaseiapp.Base.Memory.{bytes_at}
use kaseiapp.Nanopb.Read.Overlong.{pb_decode_varint32-overlong}
use kaseiapp.Nanopb.Istream.{Istream, pb_istream_from_buffer}
use kaseiapp.Nanopb.Istream.Reads.{consume}
use kaseiapp.Nanopb.Write.{
  pb_encode_varint, pb_encode_svarint, pb_encode_fixed32, pb_encode_fixed64, pb_encode_tag,
  varint_buffer, zigzag,
}
use kaseiapp.Nanopb.Write.Varint.{varint_bytes}
use kaseiapp.Nanopb.Write.Scalars.{tag_bytes}
use kaseiapp.Nanopb.Read.{
  pb_decode_varint, pb_decode_varint32, pb_decode_svarint, pb_decode_fixed32, pb_decode_fixed64,
  pb_decode_tag, found,
}
use kaseiapp.Nanopb.RoundTrip.{
  written, reopened, decode-encode_varint, decode-encode_varint32, decode-encode_svarint,
  decode-encode_fixed, decode-encode_tag,
}

abbrev zeros : Memory
zeros = λ _. 0

varint_300 : varint_buffer 300 ≡ 0xac ∷ 0x02 ∷ []
unfolding varint_buffer
varint_300 = refl

decode-encode_varint_example :
    let s = reopened (written (pb_encode_varint 300) zeros 64 16) 64 in
    ((pb_encode_varint 300 (pb_ostream_from_buffer zeros 64 16)).0 ≡ true)
    × (pb_decode_varint s ≡ (some 300, consume s (length (varint_bytes 300))))
decode-encode_varint_example =
    decode-encode_varint zeros 64 16 (omega arith) 300 (omega arith) (omega arith)

decode-encode_varint32_example :
    let s = reopened (written (pb_encode_varint 70000) zeros 64 16) 64 in
    ((pb_encode_varint 70000 (pb_ostream_from_buffer zeros 64 16)).0 ≡ true)
    × (pb_decode_varint32 s ≡ (some 70000, consume s (length (varint_bytes 70000))))
decode-encode_varint32_example =
    decode-encode_varint32 zeros 64 16 (omega arith) 70000 (omega arith) (omega arith)

-- The number is -2.
decode-encode_svarint_example :
    let v : ℕ = 0xfffffffffffffffe in
    let s = reopened (written (pb_encode_svarint v) zeros 64 16) 64 in
    ((pb_encode_svarint v (pb_ostream_from_buffer zeros 64 16)).0 ≡ true)
    × (pb_decode_svarint s ≡ (some v, consume s (length (varint_bytes (zigzag v)))))
decode-encode_svarint_example =
    decode-encode_svarint zeros 64 16 (omega arith) 0xfffffffffffffffe (omega arith) (omega arith)

decode-encode_fixed_example :
    let s = reopened (written (pb_encode_fixed32 300) zeros 64 16) 64 in
    let t = reopened (written (pb_encode_fixed64 70000) zeros 64 16) 64 in
    ((pb_encode_fixed32 300 (pb_ostream_from_buffer zeros 64 16)).0 ≡ true)
    × ((pb_decode_fixed32 s).0 ≡ some 300)
    × ((pb_encode_fixed64 70000 (pb_ostream_from_buffer zeros 64 16)).0 ≡ true)
    × ((pb_decode_fixed64 t).0 ≡ some 70000)
decode-encode_fixed_example =
    decode-encode_fixed zeros 64 16 (omega arith) 300 70000 (omega arith) (omega arith)
      (omega arith)

decode-encode_tag_example :
    let s = reopened (written (pb_encode_tag 2 100) zeros 64 16) 64 in
    ((pb_encode_tag 2 100 (pb_ostream_from_buffer zeros 64 16)).0 ≡ true)
    × (pb_decode_tag s ≡ (found 2 100, consume s (length (tag_bytes 2 100))))
decode-encode_tag_example =
    decode-encode_tag zeros 64 16 (omega arith) 2 100 (omega arith) (omega arith) (omega arith)
      (omega arith)

-- 37 bytes of padding and a 5.
abbrev padded_five : Istream
padded_five = pb_istream_from_buffer (λ a. if a == 101 then 5 else 0x80) 64 38

pb_decode_varint32-overlong_example :
    pb_decode_varint32 padded_five ≡ (some 40, consume padded_five 38)
unfolding pb_istream_from_buffer bytes_at
pb_decode_varint32-overlong_example =
    pb_decode_varint32-overlong 5 padded_five [] (omega arith) refl refl
