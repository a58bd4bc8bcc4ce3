-- ===== src/Base/Memory.antt =====
-- Byte-addressed memory of a little-endian machine with 8-byte pointers, and signed offsets.
use Prim.Native.Nat.{ℕ, zero, suc, ◌+◌, ◌-◌, ◌*◌, ◌<◌}
use mathlib.Core.Path.{◌≡◌, refl, ap, ap₂, ◌∙◌}
use mathlib.Core.Bool.{Bool, false}
use mathlib.Core.List.{List, [], ◌∷◌, ◌++◌}
use native.Mathlib.Omega.{arith}
use kaseiapp.Base.Tests.{◌==◌, if◌then◌else◌}
use kaseiapp.Base.Lists.{length}

-- The byte at each address.
abbrev pub Memory : Type 0
Memory = ℕ → ℕ

-- The unsigned integer in the `n` bytes from `p` on, lowest byte first.
unfoldable pub load : Memory → ℕ → ℕ → ℕ
load mem p zero = 0
load mem p (suc n) = mem p + 256 * load mem (p + 1) n

-- The `n` bytes from `p` on.
unfoldable pub bytes_at : Memory → ℕ → ℕ → List ℕ
bytes_at mem p zero = []
bytes_at mem p (suc n) = mem p ∷ bytes_at mem (p + 1) n

unfoldable pub update : Memory → ℕ → ℕ → Memory
update mem p b a = if a == p then b else mem a

-- A copy of the bytes to the addresses from `p` on, in order.
unfoldable pub store_bytes : Memory → ℕ → List ℕ → Memory
store_bytes mem p [] = mem
store_bytes mem p (b ∷ bs) = store_bytes (update mem p b) (p + 1) bs

pub length-bytes_at : (mem : Memory) (p n : ℕ) → length (bytes_at mem p n) ≡ n
unfolding bytes_at
length-bytes_at mem p zero = refl
length-bytes_at mem p (suc n) = ap suc (length-bytes_at mem (p + 1) n)

pub bytes_at-append :
    (mem : ℕ → ℕ) (p n : ℕ) (xs ys : List ℕ)
    → bytes_at mem p n ≡ xs ++ ys
    → (bytes_at mem p (length xs) ≡ xs) × (bytes_at mem (p + length xs) (n - length xs) ≡ ys)
unfolding bytes_at
bytes_at-append mem p n [] ys e = (refl, ap₂ (bytes_at mem) (omega arith) (omega arith) ∙ e)
bytes_at-append mem p zero (x ∷ xs) ys e = cc
bytes_at-append mem p (suc n) (x ∷ xs) ys e =
    let (front, back) = bytes_at-append mem (p + 1) n xs ys (cc) in
    (ap₂ ◌∷◌ (cc) front, ap₂ (bytes_at mem) (omega arith) (omega arith) ∙ back)

pub store_bytes-append :
    (mem : Memory) (p : ℕ) (xs ys : List ℕ)
    → store_bytes mem p (xs ++ ys) ≡ store_bytes (store_bytes mem p xs) (p + length xs) ys
unfolding store_bytes
store_bytes-append mem p [] ys = ap (λ (t : ℕ). store_bytes mem t ys) (omega arith)
store_bytes-append mem p (x ∷ xs) ys =
    store_bytes-append (update mem p x) (p + 1) xs ys
    ∙ ap (λ (t : ℕ). store_bytes (store_bytes (update mem p x) (p + 1) xs) t ys) (omega arith)

-- What lies below the copied bytes is kept.
pub store_bytes_below :
    (mem : Memory) (p a : ℕ) (bs : List ℕ) → a < p → store_bytes mem p bs a ≡ mem a
unfolding store_bytes update
store_bytes_below mem p a [] h = refl
store_bytes_below mem p a (b ∷ bs) h =
    ground (arith, store_bytes_below (update mem p b) (p + 1) a bs)

-- The bytes stored are the bytes read back.
pub bytes_at-store_bytes :
    (mem : Memory) (p : ℕ) (bs : List ℕ) → bytes_at (store_bytes mem p bs) p (length bs) ≡ bs
unfolding bytes_at store_bytes
bytes_at-store_bytes mem p [] = refl
bytes_at-store_bytes mem p (b ∷ bs) =
    ap₂ ◌∷◌ first (bytes_at-store_bytes (update mem p b) (p + 1) bs)
  where
    first : store_bytes (update mem p b) (p + 1) bs p ≡ b
    first =
        store_bytes_below (update mem p b) (p + 1) p bs (omega arith)
        ∙ unfold update in ground arith

-- `int32_t` offsets; `negsuc n` is -(n + 1).
pub data ℤ : Type 0 where
  pos : ℕ → ℤ
  negsuc : ℕ → ℤ

abbrev pub offset_by : ℕ → ℤ → ℕ
offset_by p (pos n) = p + n
offset_by p (negsuc n) = p - suc n

abbrev pub is_zero_offset : ℤ → Bool
is_zero_offset (pos n) = n == 0
is_zero_offset (negsuc n) = false
