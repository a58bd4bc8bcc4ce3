-- ===== src/Lib.antt =====
-- Verification of the C code that the Kasei app is built with: the nanopb protocol buffers library
-- (Kasei/Pods/nanopb), by which the Firebase pods encode their reports, and the Base64 coder of the
-- database pod's web socket (Kasei/Pods/FirebaseDatabase/FirebaseDatabase/Sources/third_party/
-- SocketRocket/fbase64.c).
--
-- The parts. An output stream (pb_encode.h) counts bytes, writes them to a buffer, or hands them to a
-- callback. The encoder (pb_encode.c) walks over the field descriptors of a message type (pb.h) with an
-- iterator (pb_common.c), reads the message from memory and writes it to an output stream; a submessage
-- and a packed array are passed over twice, to count and to write. An input stream (pb_decode.h) gives
-- bytes from a buffer or a callback, and the decoder (pb_decode.c) reads varints, tags and fixed-width
-- integers from it, skips fields and makes substreams. pb_decode sets a struct to its defaults, finds
-- the field of each tag with the iterator, and decodes it into the struct, into a block of realloc(), or
-- by a callback; after a failure it releases the blocks of the struct.
--
-- The files. Base: shared names, lists, bits, and memory, which is a function from addresses to bytes,
-- little-endian with 8-byte pointers. Nanopb/Pb: the types of pb.h. Nanopb/Ostream: streams as records,
-- and a function on a stream as a function to its `bool` and the new stream; a message of
-- PB_RETURN_ERROR is a constructor. Nanopb/Write: the varint, tag, integer and string writers of
-- pb_encode.c. Nanopb/Fields: descriptors as a list that ends in PB_LAST_FIELD, whose submessages are
-- parts of it, and the iterator of pb_common.c; Nanopb/Fields/Find: its search. Nanopb/Field and
-- Nanopb/Encode: the pb_enc_ functions, encode_array, encode_field, pb_encode and its variants.
-- Nanopb/Reference: the reference encoding of a message, with no streams and with presence tests, counts,
-- conversions, wire types and keys of its own. Nanopb/Wire: the same in the terms of the encoder, to
-- which its children relate the encoder; the children of Nanopb/Reference lead from one to the other.
-- Nanopb/Istream and Nanopb/Read: input streams, and the scalar readers of pb_decode.c.
-- Nanopb/Store: what the message decoder works on, the memory and the calls of realloc() and free(); a
-- function of the decoder takes the input stream and the store to a status and the new ones.
-- Nanopb/Item: allocate_field and the pb_dec_ functions. Nanopb/Default: pb_message_set_to_defaults.
-- Nanopb/Release: pb_release. Nanopb/DecodeField and Nanopb/DecodeCallback: decode_static_field,
-- decode_pointer_field, decode_callback_field, pb_release_union_field and decode_field.
-- Nanopb/Required: the bits of the required fields, which its children read as sets of numbers.
-- Nanopb/Moves: what the steps of the iterator keep. Nanopb/Progress and Nanopb/Decode: pb_decode_noinit,
-- the decoders of extensions, pb_decode and its variants.
-- Base64: f_b64_ntop and f_b64_pton; a target is what is stored to it, or a memory. Base64/Text: the text
-- of RFC 4648.
-- Nanopb/Istream/Takes, Nanopb/Read/Takes and Nanopb/Ends: the bytes that are taken, and the ends of loops.
-- Nanopb/Keeps: the memory that is written; Nanopb/Keeps/Layout: where the fields of a struct lie, and
-- where the field of tag 0 is stored that an empty message finds at PB_LAST_FIELD. Nanopb/Stores:
-- strings and byte arrays.
-- Nanopb/Decode/Run: the rounds of the loop of pb_decode_noinit as a relation between its states, and
-- beside it the lemmas that lead from a run of the decoder to such rounds.
-- Nanopb/RoundTrip: the writers and the readers together. Nanopb/Flat: messages of single values in the
-- struct itself, encoded and decoded: their values, the searches for their tags, the rounds of the loop
-- and the memory. Nanopb/Tests, Nanopb/Wire/Tests,
-- Nanopb/Decode/Tests, Nanopb/Decode/Complete/Tests, Nanopb/Stores/Tests, Nanopb/Flat/RoundTrip/Tests,
-- Base64/Tests: runs.
--
-- The configuration is that of the project's build settings: PB_FIELD_32BIT, PB_ENABLE_MALLOC, error
-- messages on, a 64-bit size_t; uint_fast8_t has 8 bits. Numbers are natural numbers, with the
-- wrap-around of the C types written out.
--
-- Bounds. The loop of pb_encode_varint is a recursion on the accessibility of the value. That of
-- pb_decode_varint has eleven rounds, and its test of `bitpos` ends it in the eleventh at the latest.
-- The other reading loops take a byte in each round and have as many rounds as the stream has bytes.
-- A message type that contains itself is unrolled to a finite depth.
--
-- The loops of the message decoder have as many rounds as their stream has bytes, since a tag and an
-- entry of a packed array take a byte at least. A loop that would need more has the status `hangs`,
-- which is neither true nor false. The loop of a callback field has one round more; a callback that
-- takes nothing in a round may need still more, which `hangs` stands for.
--
-- User code is a parameter: callbacks of streams, callback fields, encoders and decoders of extensions,
-- realloc() and free(). A callback of a stream decides what is written or read and whether it succeeds; it
-- does not change bytes_left or errmsg of the stream that it is given. The list of extensions of a
-- placeholder is a finite part of the descriptor, where the source reads a pointer in the struct: it is the
-- same for all items of an array of submessages, has no cycle, and stays when the struct is cleared.
-- The bytes that are read and the memory that is written are apart, and the local
-- variable fixed_count_size is written past the 64-bit addresses. Not modelled: the macros for generated
-- descriptors and the generated files, the app in Swift, and the other pods, which are copies of
-- libraries in Objective-C and C++.
pub mod Base
pub mod Nanopb
pub mod Base64
