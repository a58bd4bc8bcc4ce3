-- ===== src/Nanopb/Pb/WireType.antt =====
-- `pb_wire_type_t` of Kasei/Pods/nanopb/pb.h; a decoded wire type is any number from 0 to 7.
use kaseiapp.Base.{ℕ}

abbrev pub varint : ℕ
varint = 0

abbrev pub fixed64 : ℕ
fixed64 = 1

abbrev pub string : ℕ
string = 2

abbrev pub fixed32 : ℕ
fixed32 = 5
