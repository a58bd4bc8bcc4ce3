-- ===== src/Nanopb/Flat.antt =====
-- Messages whose fields are single values in the struct itself, as pb_encode of
-- Kasei/Pods/nanopb/pb_encode.c writes them and pb_decode of Kasei/Pods/nanopb/pb_decode.c reads them.
pub mod Numbers
pub mod Values
pub mod Arrays
pub mod Decoded
pub mod Messages
pub mod Seek
pub mod Step
pub mod Seen
pub mod Ready
pub mod Loop
pub mod Zeroed
pub mod Unsent
pub mod Copied
pub mod RoundTrip
