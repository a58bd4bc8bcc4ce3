-- ===== src/Nanopb/Flat/Unsent.antt =====
-- Single values that encode_basic_field of Kasei/Pods/nanopb/pb_encode.c leaves out, and how much of the
-- struct a value takes.
use mathlib.Core.Bool.{true≢false}
use kaseiapp.Base.{
  ℕ, zero, suc, ◌+◌, ◌≤◌, ◌<◌, ◌≡◌, refl, ap, ap₂, ◌∙◌, arith, Bool, true, false, not, List, [],
  ◌∷◌, get_or, replicate, ◌==◌, ==_iff, both_true,
}
use kaseiapp.Base.Memory.{Memory, load, bytes_at}
use kaseiapp.Nanopb.Pb.{
  FieldInfo, Ltype, bool, varint, uvarint, svarint, fixed32, fixed64, bytes, string, submessage,
  extension, fixed_length_bytes, Htype, required, optional, repeated, oneof,
}
use kaseiapp.Nanopb.Encode.{all_zero}
use kaseiapp.Nanopb.Field.{strnlen}
use kaseiapp.Nanopb.Flat.Values.{Fits, IsValue, value_size}
use kaseiapp.Nanopb.Flat.Arrays.{strnlen-here, byte_at}
use kaseiapp.Nanopb.Flat.Messages.{is_zero, is_sent}

-- A value lies in the field.
pub value_size-le :
    (mem : Memory) (lt : Ltype) (n p : ℕ)
    → Fits lt n
    → IsValue mem lt n p
    → value_size mem lt n p ≤ n
value_size-le mem bool n p h v = omega arith
value_size-le mem varint n p h v = omega arith
value_size-le mem uvarint n p h v = omega arith
value_size-le mem svarint n p h v = omega arith
value_size-le mem fixed32 n p h v = omega arith
value_size-le mem fixed64 n p h v = omega arith
value_size-le mem bytes n p h v = omega (arith, v)
value_size-le mem string n p h v = omega (arith, v)
value_size-le mem submessage n p h v = elim h [ ]
value_size-le mem extension n p h v = elim h [ ]
value_size-le mem fixed_length_bytes n p h v = omega arith

all_zero-bytes :
    (mem : Memory) (n p : ℕ) → all_zero mem p n ≡ true → bytes_at mem p n ≡ replicate n 0
unfolding all_zero bytes_at
all_zero-bytes mem zero p e = refl
all_zero-bytes mem (suc n) p e =
    let (zero_here, zeros) = both_true (mem p == 0) (all_zero mem (p + 1) n) e in
    ap₂ ◌∷◌ ((==_iff (mem p) 0).0 zero_here) (all_zero-bytes mem n (p + 1) zeros)

-- A number is zero when its bytes are.
load-zeros : (mem : Memory) (n p : ℕ) → load mem p n ≡ 0 → bytes_at mem p n ≡ replicate n 0
unfolding load bytes_at
load-zeros mem zero p e = refl
load-zeros mem (suc n) p e =
    ap₂ ◌∷◌ (omega (arith, e)) (load-zeros mem n (p + 1) (omega (arith, e)))

abbrev behind_first : List ℕ → List ℕ
behind_first [] = []
behind_first (b ∷ bs) = bs

pub zero_prefix :
    (m : Memory) (k n q : ℕ)
    → k ≤ n
    → bytes_at m q n ≡ replicate n 0
    → bytes_at m q k ≡ replicate k 0
unfolding bytes_at
zero_prefix m zero n q h e = refl
zero_prefix m (suc k) zero q h e = absurd (omega arith)
zero_prefix m (suc k) (suc n) q h e =
    ap₂ ◌∷◌ (ap (λ (bs : List ℕ). get_or bs 0 0) e)
      (zero_prefix m k n (q + 1) (omega arith) (ap behind_first e))

text-zero :
    (mem : Memory) (n p : ℕ)
    → 0 < n
    → (mem p == 0) ≡ true
    → bytes_at mem p (strnlen mem p n + 1) ≡ replicate (strnlen mem p n + 1) 0
text-zero mem zero p h e = absurd (omega arith)
text-zero mem (suc n) p h e =
    rw (strnlen-here mem p n e) (byte_at mem p ∙ ap (λ (b : ℕ). b ∷ []) ((==_iff (mem p) 0).0 e))

is_zero-bytes :
    (mem : Memory) (lt : Ltype) (n p : ℕ)
    → Fits lt n
    → is_zero mem lt n p ≡ true
    → bytes_at mem p (value_size mem lt n p) ≡ replicate (value_size mem lt n p) 0
is_zero-bytes mem bool n p h e = all_zero-bytes mem n p e
is_zero-bytes mem varint n p h e = all_zero-bytes mem n p e
is_zero-bytes mem uvarint n p h e = all_zero-bytes mem n p e
is_zero-bytes mem svarint n p h e = all_zero-bytes mem n p e
is_zero-bytes mem fixed32 n p h e = all_zero-bytes mem n p e
is_zero-bytes mem fixed64 n p h e = all_zero-bytes mem n p e
is_zero-bytes mem bytes n p h e =
    let none : load mem p 4 ≡ 0 = (==_iff (load mem p 4) 0).0 e in rw none (load-zeros mem 4 p none)
is_zero-bytes mem string n p h e = text-zero mem n p h.0 e
is_zero-bytes mem submessage n p h e = elim h [ ]
is_zero-bytes mem extension n p h e = elim h [ ]
is_zero-bytes mem fixed_length_bytes n p h e = absurd (omega (arith, h.0, (==_iff n 0).0 e))

-- What is left out is zero.
pub unsent-bytes :
    (mem : Memory) (info : FieldInfo) (p : ℕ) (rule : Htype)
    → Fits info.ltype info.data_size
    → is_sent mem info p rule ≡ false
    → let k = value_size mem info.ltype info.data_size p in bytes_at mem p k ≡ replicate k 0
unsent-bytes mem info p optional h e =
    is_zero-bytes mem info.ltype info.data_size p h
      (of_not (is_zero mem info.ltype info.data_size p) e)
  where
    of_not : (b : Bool) → not b ≡ false → b ≡ true
    of_not true e = refl
    of_not false e = absurd (true≢false e)
unsent-bytes mem info p required h e = absurd (true≢false e)
unsent-bytes mem info p repeated h e = absurd (true≢false e)
unsent-bytes mem info p oneof h e = absurd (true≢false e)
