-- ===== src/Nanopb/Flat/Copied.antt =====
-- The struct of a message of single values after the loop of pb_decode_noinit of Kasei/Pods/nanopb/pb_decode.c.
use kaseiapp.Base.{ℕ, ◌+◌, ◌≤◌, ◌<◌, ◌≡◌, refl, sym, ap, ◌∙◌, arith, if◌then◌else◌, if-holds, inr}
use kaseiapp.Base.Memory.{
  Memory, bytes_at, store_bytes, store_bytes_below, bytes_at-store_bytes, length-bytes_at,
}
use kaseiapp.Nanopb.Pb.{FieldInfo}
use kaseiapp.Nanopb.Fields.{Fields, last, field, data_after}
use kaseiapp.Nanopb.Keeps.{store_bytes-Outside}
use kaseiapp.Nanopb.Flat.Messages.{
  IsScalar, AllScalars, AllValues, is_sent, restored, data_after-le,
}
use kaseiapp.Nanopb.Flat.Values.{value_size}
use kaseiapp.Nanopb.Flat.Unsent.{value_size-le, zero_prefix, unsent-bytes}
use kaseiapp.Nanopb.Flat.Zeroed.{AllZero, EndsBelow, bytes_at-same, next_behind, zero_in}

-- Every field of the message whose data begin at `q` has the bytes of that whose data begin at `p`.
abbrev pub AllCopied : Memory → Memory → Fields → ℕ → ℕ → Type 0
AllCopied mem mem' last p q = Unit
AllCopied mem mem' (field info ptr rest) p q =
    (bytes_at mem' q (value_size mem info.ltype info.data_size p)
      ≡ bytes_at mem p (value_size mem info.ltype info.data_size p))
    × AllCopied mem mem' rest (data_after info rest p) (data_after info rest q)

-- What is below the fields is kept.
restored-below :
    (mem : Memory) (cur : Fields) (p q a : ℕ) (m : Memory) → a < q → restored mem cur p q m a ≡ m a
restored-below mem last p q a m h = refl
restored-below mem (field info ptr rest) p q a m h =
    restored-below mem rest (data_after info rest p) (data_after info rest q) a _
      (omega (arith, data_after-le info rest q))
    ∙ if-holds (λ (m' : Memory). m' a ≡ m a) (is_sent mem info p info.htype) _ m
        (λ e.
          store_bytes_below m q a (bytes_at mem p (value_size mem info.ltype info.data_size p)) h)
        (λ e. refl)

-- So is the field before them.
restored-before :
    (mem : Memory) (info : FieldInfo) (rest : Fields) (p q a : ℕ) (m : Memory)
    → IsScalar info
    → a < q + info.data_size
    → restored mem rest p (data_after info rest q) m a ≡ m a
restored-before mem info last p q a m scalar h = refl
restored-before mem info (field next ptr rest) p q a m scalar h =
    restored-below mem (field next ptr rest) p (data_after info (field next ptr rest) q) a m
      (omega (arith, next_behind info next ptr rest q scalar))

bytes_at-stored :
    (mem m : Memory) (p q n : ℕ)
    → bytes_at (store_bytes m q (bytes_at mem p n)) q n ≡ bytes_at mem p n
bytes_at-stored mem m p q n =
    ap (bytes_at (store_bytes m q (bytes_at mem p n)) q) (sym (length-bytes_at mem p n))
    ∙ bytes_at-store_bytes m q (bytes_at mem p n)

pub copied_in :
    (bound : ℕ) (mem : Memory) (cur : Fields) (p q : ℕ) (m m' : Memory)
    → AllScalars cur
    → AllValues mem cur p
    → EndsBelow bound cur q
    → ((a : ℕ) → q ≤ a → a < bound → m' a ≡ m a)
    → AllCopied mem m cur p q
    → AllCopied mem m' cur p q
copied_in bound mem last p q m m' all values ends same copied = tt
copied_in bound mem (field info ptr rest) p q m m' (scalar, no_default, other, all) (valid, values)
      (ends_here, ends) same (copied_here, copied) =
    (
      bytes_at-same m' m (value_size mem info.ltype info.data_size p) q (λ a ge lt.
            same a ge
              (omega (arith, value_size-le mem info.ltype info.data_size p scalar.fits valid)))
          ∙ copied_here,
      copied_in bound mem rest (data_after info rest p) (data_after info rest q) m m' all values
          ends (λ a ge lt. same a (omega (arith, ge, data_after-le info rest q)) lt) copied,
    )

-- The decoded fields, over a struct of zeros.
pub restored-AllCopied :
    (bound : ℕ) (mem : Memory) (cur : Fields) (p q : ℕ) (m : Memory)
    → AllScalars cur
    → AllValues mem cur p
    → EndsBelow bound cur q
    → AllZero m cur q
    → AllCopied mem (restored mem cur p q m) cur p q
restored-AllCopied bound mem last p q m all values ends zeros = tt
restored-AllCopied bound mem (field info ptr rest) p q m (scalar, no_default, other, all)
      (valid, values) (ends_here, ends) (zeros_here, zeros) =
    (
      bytes_at-same _ m1 size q (λ a ge lt.
            restored-before mem info rest (data_after info rest p) q a m1 scalar
              (omega (arith, fits)))
          ∙ here,
      restored-AllCopied bound mem rest (data_after info rest p) (data_after info rest q) m1 all
          values ends (zeros_behind rest all ends zeros),
    )
  where
    size : ℕ
    size = value_size mem info.ltype info.data_size p

    fits : size ≤ info.data_size
    fits = value_size-le mem info.ltype info.data_size p scalar.fits valid

    m1 : Memory
    m1 = if is_sent mem info p info.htype then store_bytes m q (bytes_at mem p size) else m

    here : bytes_at m1 q size ≡ bytes_at mem p size
    here =
        if-holds (λ (m' : Memory). bytes_at m' q size ≡ bytes_at mem p size)
          (is_sent mem info p info.htype) _ m (λ sent. bytes_at-stored mem m p q size)
          (λ unsent.
            zero_prefix m size info.data_size q fits zeros_here
            ∙ sym (unsent-bytes mem info p info.htype scalar.fits unsent))

    behind : (a : ℕ) → q + info.data_size ≤ a → m1 a ≡ m a
    behind a ge =
        if-holds (λ (m' : Memory). m' a ≡ m a) (is_sent mem info p info.htype) _ m
          (λ sent.
            store_bytes-Outside m q a (bytes_at mem p size)
              (inr (omega (arith, fits, length-bytes_at mem p size))))
          (λ unsent. refl)

    zeros_behind :
        (rest : Fields)
        → AllScalars rest
        → EndsBelow bound rest (data_after info rest q)
        → AllZero m rest (data_after info rest q)
        → AllZero m1 rest (data_after info rest q)
    zeros_behind last all ends zeros = tt
    zeros_behind (field next nptr rest) all ends zeros =
        zero_in bound (field next nptr rest) _ m m1 ends
          (λ a ge lt. behind a (omega (arith, next_behind info next nptr rest q scalar))) zeros
