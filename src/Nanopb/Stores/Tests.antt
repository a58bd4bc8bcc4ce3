-- ===== src/Nanopb/Stores/Tests.antt =====
-- The theorems on strings and byte arrays of Kasei/Pods/nanopb/pb_decode.c at a text of two bytes.
use kaseiapp.Base.{◌+◌, ◌≡◌, refl, arith, true, [], ◌∷◌, ◌==◌, if◌then◌else◌, length}
use kaseiapp.Base.Memory.{Memory, store_bytes, pos}
use kaseiapp.Nanopb.Pb.{FieldInfo, string, required, static}
use kaseiapp.Nanopb.Ostream.{pb_ostream_from_buffer}
use kaseiapp.Nanopb.Istream.Reads.{consume}
use kaseiapp.Nanopb.Write.Scalars.{string_bytes}
use kaseiapp.Nanopb.Field.{pb_enc_string}
use kaseiapp.Nanopb.RoundTrip.{reopened, written}
use kaseiapp.Nanopb.Store.{Store, good, succeed, put, User}
use kaseiapp.Nanopb.Item.{pb_dec_string, pb_dec_bytes}
use kaseiapp.Nanopb.Stores.{Stores, pb_dec_bytes-Stores, decode-encode_string}

abbrev no_heap : User
no_heap = record {
  realloc = λ calls mem ptr size. (0, mem);
  free = λ calls mem ptr. mem;
  callbacks = λ f info arg. succeed;
  extension_decoders = λ f arg tag wire_type. succeed;
}

abbrev text_field : FieldInfo
text_field = record {
  tag = 1;
  ltype = string;
  htype = required;
  atype = static;
  data_offset = 0;
  size_offset = pos 0;
  data_size = 8;
  array_size = 0;
}

-- The text "hi" at 1.
abbrev text_at_1 : Memory
text_at_1 a = if a == 1 then 104 else if a == 2 then 105 else 0

abbrev zeros : Store
zeros = record { mem = λ a. 0; calls = [] }

decode-encode_string_example :
    let run = pb_enc_string text_at_1 text_field 1 in
    let s = reopened (written run (λ a. 0) 0 20) 0 in
    ((run (pb_ostream_from_buffer (λ a. 0) 0 20)).0 ≡ true)
    × (pb_dec_string no_heap text_field 100 s zeros ≡ (
      good,
      consume s (length (string_bytes (104 ∷ 105 ∷ []))),
      record zeros { mem = put (100 + 2) 1 0 (store_bytes zeros.mem 100 (104 ∷ 105 ∷ [])) },
    ))
decode-encode_string_example =
    decode-encode_string no_heap text_field text_at_1 (λ a. 0) (104 ∷ 105 ∷ []) 1 100 0 20 zeros
      refl (omega arith) (refl, omega arith, (refl, omega arith, refl)) (omega arith) (omega arith)
      (omega arith) (omega arith)

pb_dec_bytes-Stores_example :
    Stores
      (pb_dec_bytes no_heap text_field 100)
      (string_bytes (104 ∷ 105 ∷ []))
      (λ mem. store_bytes (put 100 4 2 mem) (100 + 4) (104 ∷ 105 ∷ []))
pb_dec_bytes-Stores_example =
    pb_dec_bytes-Stores no_heap text_field 100 refl (104 ∷ 105 ∷ []) (omega arith) (omega arith)
