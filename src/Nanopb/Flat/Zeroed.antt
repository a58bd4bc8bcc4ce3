-- ===== src/Nanopb/Flat/Zeroed.antt =====
-- The struct of a message of single values after pb_message_set_to_defaults of Kasei/Pods/nanopb/pb_decode.c.
use mathlib.Core.Path.{subst}
use kaseiapp.Base.{
  ℕ, zero, suc, ◌+◌, ◌≤◌, ◌<◌, ◌≡◌, refl, sym, ap, ap₂, ◌∙◌, arith, false, ◌∷◌, replicate, ==_iff,
  inl,
}
use kaseiapp.Base.Memory.{Memory, bytes_at, store_bytes, bytes_at-store_bytes}
use kaseiapp.Nanopb.Pb.{FieldInfo, Atype, Htype, required, optional, repeated, oneof}
use kaseiapp.Nanopb.Fields.{
  Fields, last, field, Ptr, null, is_static, prev_size, data_after, size_after,
}
use kaseiapp.Nanopb.Encode.{is_submessage}
use kaseiapp.Nanopb.Store.{clear}
use kaseiapp.Nanopb.Default.{
  set_fields, set_submessage, static_by_rule, copy_default, init_data, default_by_allocation,
}
use kaseiapp.Nanopb.Keeps.{length-replicate, clear-Outside}
use kaseiapp.Nanopb.Flat.Ready.{same_after}
use kaseiapp.Nanopb.Flat.Values.{for_scalar}
use kaseiapp.Nanopb.Flat.Messages.{
  IsSingle, IsScalar, AllScalars, data_after-le, not_pointer, scalar-is_no_extension,
}
use kaseiapp.Nanopb.Flat.Step.{single-not_oneof, single-not_repeated}

-- Every field of the message is zero.
abbrev pub AllZero : Memory → Fields → ℕ → Type 0
AllZero mem last q = Unit
AllZero mem (field info ptr rest) q =
    (bytes_at mem q info.data_size ≡ replicate info.data_size 0)
    × AllZero mem rest (data_after info rest q)

-- All fields lie below an address.
abbrev pub EndsBelow : ℕ → Fields → ℕ → Type 0
EndsBelow bound last q = Unit
EndsBelow bound (field info ptr rest) q =
    (q + info.data_size ≤ bound) × EndsBelow bound rest (data_after info rest q)

pub bytes_at-same :
    (m m' : Memory) (n p : ℕ)
    → ((a : ℕ) → p ≤ a → a < p + n → m a ≡ m' a)
    → bytes_at m p n ≡ bytes_at m' p n
unfolding bytes_at
bytes_at-same m m' zero p h = refl
bytes_at-same m m' (suc n) p h =
    ap₂ ◌∷◌ (h p (omega arith) (omega arith))
      (bytes_at-same m m' n (p + 1) (λ a ge lt. h a (omega arith) (omega arith)))

-- The next field begins behind this one.
pub next_behind :
    (info next : FieldInfo) (ptr : Ptr) (rest : Fields) (q : ℕ)
    → IsScalar info
    → q + info.data_size ≤ data_after info (field next ptr rest) q
next_behind info next ptr rest q scalar =
    rw (single-not_oneof info.htype scalar.single, size) (omega arith)
  where
    size : prev_size info ≡ info.data_size
    size =
        rw
          (
            single-not_repeated info.htype scalar.single,
            ap is_static scalar.in_struct,
            not_pointer info scalar,
          )
          refl

bytes_at-clear : (q n : ℕ) (m : Memory) → bytes_at (clear q n m) q n ≡ replicate n 0
unfolding clear
bytes_at-clear q n m =
    ap (bytes_at (store_bytes m q (replicate n 0)) q) (sym (length-replicate n 0))
    ∙ bytes_at-store_bytes m q (replicate n 0)

-- Where two memories agree from a field on, so do the fields.
pub zero_in :
    (bound : ℕ) (cur : Fields) (q : ℕ) (m m' : Memory)
    → EndsBelow bound cur q
    → ((a : ℕ) → q ≤ a → a < bound → m' a ≡ m a)
    → AllZero m cur q
    → AllZero m' cur q
zero_in bound last q m m' ends same zeros = tt
zero_in bound (field info ptr rest) q m m' (ends_here, ends) same (zeros_here, zeros) = (
  bytes_at-same m' m info.data_size q (λ a ge lt. same a ge (omega arith)) ∙ zeros_here,
  zero_in bound rest (data_after info rest q) m m' ends
      (λ a ge lt. same a (omega (arith, ge, data_after-le info rest q)) lt) zeros,
)

-- The default of a value is zero.
data-cleared :
    (info : FieldInfo) (ptr : Ptr) (sub : ℕ → Memory → Memory) (q : ℕ) (m : Memory)
    → IsScalar info
    → ptr ≡ null
    → init_data info ptr sub q m ≡ clear q info.data_size m
data-cleared info ptr sub q m scalar no_default =
    rw
      (for_scalar (λ t. is_submessage t ≡ false) info.ltype info.data_size scalar.fits refl refl
        refl refl refl refl refl refl refl)
      (ap (λ (pt : Ptr). copy_default info pt q m) no_default)

rule-cleared :
    (info : FieldInfo) (ptr : Ptr) (sub : ℕ → Memory → Memory) (q z : ℕ) (m : Memory) (rule : Htype)
    → IsScalar info
    → ptr ≡ null
    → z ≡ q
    → IsSingle rule
    → static_by_rule info ptr sub q z rule m ≡ clear q info.data_size m
rule-cleared info ptr sub q z m required scalar no_default same single =
    data-cleared info ptr sub q m scalar no_default
rule-cleared info ptr sub q z m optional scalar no_default same single =
    rw ((==_iff z q).1 same) (data-cleared info ptr sub q m scalar no_default)
rule-cleared info ptr sub q z m repeated scalar no_default same single = elim single [ ]
rule-cleared info ptr sub q z m oneof scalar no_default same single = elim single [ ]

default-cleared :
    (info : FieldInfo) (ptr : Ptr) (sub : ℕ → Memory → Memory) (q z : ℕ) (m : Memory)
    → IsScalar info
    → ptr ≡ null
    → z ≡ q
    → default_by_allocation info ptr sub q z info.atype m ≡ clear q info.data_size m
default-cleared info ptr sub q z m scalar no_default same =
    ap (λ (a : Atype). default_by_allocation info ptr sub q z a m) scalar.in_struct
    ∙ rule-cleared info ptr sub q z m info.htype scalar no_default same scalar.single

default-scalar :
    (info : FieldInfo) (ptr : Ptr) (rest : Fields) (q z : ℕ) (m : Memory)
    → IsScalar info
    → ptr ≡ null
    → z ≡ q
    → set_fields (field info ptr rest) q z m
      ≡ set_fields rest
          (data_after info rest q)
          (size_after info rest q z)
          (clear q info.data_size m)
unfolding set_fields
default-scalar info ptr rest q z m scalar no_default same =
    rw (scalar-is_no_extension info.ltype info.data_size scalar.fits) (
      ap (set_fields rest (data_after info rest q) (size_after info rest q z))
        (default-cleared info ptr (set_submessage ptr) q z m scalar no_default same))

-- The defaults of fields behind an address leave it alone.
set_fields-below :
    (cur : Fields) (q z a : ℕ) (m : Memory)
    → AllScalars cur
    → z ≡ q
    → a < q
    → set_fields cur q z m a ≡ m a
unfolding set_fields
set_fields-below last q z a m all same h = refl
set_fields-below (field info ptr rest) q z a m (scalar, no_default, other, all) same h =
    ap (λ (m' : Memory). m' a) (default-scalar info ptr rest q z m scalar no_default same)
    ∙ set_fields-below rest (data_after info rest q) (size_after info rest q z) a _ all
        (same_after info rest q z scalar all same) (omega (arith, data_after-le info rest q))
    ∙ clear-Outside q info.data_size m a (inl h)

set_fields-before :
    (info : FieldInfo) (rest : Fields) (q z a : ℕ) (m : Memory)
    → IsScalar info
    → AllScalars rest
    → z ≡ q
    → a < q + info.data_size
    → set_fields rest (data_after info rest q) (size_after info rest q z) m a ≡ m a
unfolding set_fields
set_fields-before info last q z a m scalar all same h = refl
set_fields-before info (field next ptr rest) q z a m scalar all same h =
    set_fields-below (field next ptr rest) _ _ a m all
      (same_after info (field next ptr rest) q z scalar all same)
      (omega (arith, next_behind info next ptr rest q scalar))

pub set_fields-AllZero :
    (cur : Fields) (q z : ℕ) (m : Memory)
    → AllScalars cur
    → z ≡ q
    → AllZero (set_fields cur q z m) cur q
set_fields-AllZero last q z m all same = tt
set_fields-AllZero (field info ptr rest) q z m (scalar, no_default, other, all) same =
    subst (λ (m' : Memory). AllZero m' (field info ptr rest) q)
      (sym (default-scalar info ptr rest q z m scalar no_default same))
      (
        bytes_at-same _ (clear q info.data_size m) info.data_size q (λ a ge lt.
              set_fields-before info rest q z a (clear q info.data_size m) scalar all same lt)
            ∙ bytes_at-clear q info.data_size m,
        set_fields-AllZero rest (data_after info rest q) (size_after info rest q z)
            (clear q info.data_size m) all (same_after info rest q z scalar all same),
      )
