-- ===== src/Nanopb.antt =====
-- The nanopb library: Kasei/Pods/nanopb.
pub mod Pb
pub mod Ostream
pub mod Write
pub mod Istream
pub mod Read
pub mod RoundTrip
pub mod Fields
pub mod Field
pub mod Encode
pub mod Wire
pub mod Reference
pub mod Store
pub mod Item
pub mod Default
pub mod Release
pub mod DecodeField
pub mod DecodeCallback
pub mod Required
pub mod Progress
pub mod Decode
pub mod Moves
pub mod Ends
pub mod Keeps
pub mod Stores
pub mod Flat
mod Tests
