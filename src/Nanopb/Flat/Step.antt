-- ===== src/Nanopb/Flat/Step.antt =====
-- A value in a message, from its tag on, at decode_field and the loop of pb_decode_noinit of
-- Kasei/Pods/nanopb/pb_decode.c.
use mathlib.Core.Path.{subst}
use kaseiapp.Base.{
  ℕ, suc, ◌≡◌, refl, sym, ap, ◌∙◌, arith, Bool, true, false, Option, List, ◌++◌, length, ◌==◌,
  if◌then◌else◌, IsByte,
}
use kaseiapp.Base.Memory.{Memory}
use kaseiapp.Nanopb.Pb.{FieldInfo, Htype, required, optional, repeated, oneof}
use kaseiapp.Nanopb.Istream.{Istream, buf_read}
use kaseiapp.Nanopb.Istream.Reads.{input, consume}
use kaseiapp.Nanopb.Fields.{Fields, field, Ptr, Iter, is_oneof, is_repeated, remaining}
use kaseiapp.Nanopb.Fields.Find.{iter_of}
use kaseiapp.Nanopb.Store.{Store, Result, Step, after, ◌>>◌, writing, succeed, put, User}
use kaseiapp.Nanopb.Item.{Sub, decoder_for}
use kaseiapp.Nanopb.DecodeField.{static_by_rule, decode_static_field}
use kaseiapp.Nanopb.DecodeCallback.{by_allocation, decode_field, iter_after_release}
use kaseiapp.Nanopb.Required.{mark_seen}
use kaseiapp.Nanopb.Progress.{Progress}
use kaseiapp.Nanopb.Decode.{Nested, noted, decode_known}
use kaseiapp.Nanopb.Stores.{Stores}
use kaseiapp.Nanopb.Flat.Values.{IsValue, scalar_bytes}
use kaseiapp.Nanopb.Flat.Decoded.{copied, scalar-Stores}
use kaseiapp.Nanopb.Flat.Messages.{IsSingle, IsScalar, not_pointer}

else_branch {ℓ} : {A : Type ℓ} {b : Bool} (x y : A) → b ≡ false → (if b then x else y) ≡ y
else_branch x y e = ap (λ (c : Bool). if c then x else y) e

pub single-not_oneof : (rule : Htype) → IsSingle rule → is_oneof rule ≡ false
single-not_oneof required h = refl
single-not_oneof optional h = refl
single-not_oneof repeated h = elim h [ ]
single-not_oneof oneof h = elim h [ ]

pub single-not_repeated : (rule : Htype) → IsSingle rule → is_repeated rule ≡ false
single-not_repeated required h = refl
single-not_repeated optional h = refl
single-not_repeated repeated h = elim h [ ]
single-not_repeated oneof h = elim h [ ]

rule-Stores :
    (info : FieldInfo) (ptr : Ptr) (func : ℕ → Step) (wire_type q z : ℕ) (rule : Htype)
    (xs : List ℕ) (change : Memory → Memory)
    → IsSingle rule
    → z ≡ q
    → Stores (func q) xs change
    → Stores (static_by_rule info ptr func wire_type q z rule) xs change
rule-Stores info ptr func wire_type q z required xs change single e h = h
rule-Stores info ptr func wire_type q z optional xs change single e h =
    subst (λ (b : Bool). Stores ((if b then succeed else writing (put z 1 1)) >> func q) xs change)
      (sym same) h
  where
    same : (z == q) ≡ true
    same = ground arith
rule-Stores info ptr func wire_type q z repeated xs change single e h = elim single [ ]
rule-Stores info ptr func wire_type q z oneof xs change single e h = elim single [ ]

module _ (user : User) (mem : Memory) (is_memory : (a : ℕ) → IsByte (mem a)) (fields : Fields)
    (dest : ℕ) (info : FieldInfo) (ptr : Ptr) (rest : Fields) (scalar : IsScalar info)
    (p index q z : ℕ) (same : z ≡ q) (valid : IsValue mem info.ltype info.data_size p) where
  abbrev pub here : Iter
  here = iter_of fields (field info ptr rest) index dest q z

  decode_field-Stores :
      (sub_at : ℕ → Option Sub) (wire_type : ℕ)
      → Stores
          (decode_field user sub_at wire_type here)
          (scalar_bytes mem info.ltype info.data_size p)
          (copied user mem is_memory info p q info.ltype)
  unfolding decode_field decode_static_field
  decode_field-Stores sub_at wire_type =
      let func = decoder_for user info (sub_at (suc (remaining rest))) info.ltype in
      subst
        (λ (f : Step).
          Stores f (scalar_bytes mem info.ltype info.data_size p)
            (copied user mem is_memory info p q info.ltype))
        (sym (by_rule sub_at wire_type))
        (rule-Stores info ptr func wire_type q z info.htype _ _ scalar.single same (
          scalar-Stores user mem is_memory info p q (sub_at (suc (remaining rest))) info.ltype
            scalar.fits valid (not_pointer info scalar)))
    where
      by_rule :
          (sub_at : ℕ → Option Sub) (wire_type : ℕ)
          → decode_field user sub_at wire_type here
            ≡ static_by_rule info ptr
                (decoder_for user info (sub_at (suc (remaining rest))) info.ltype)
                wire_type
                q
                z
                info.htype
      by_rule sub_at wire_type =
          else_branch _ _ (single-not_oneof info.htype scalar.single)
          ∙ ap
              (by_allocation user info ptr
                (decoder_for user info (sub_at (suc (remaining rest))) info.ltype) wire_type q z)
              scalar.in_struct

  -- The field is decoded, marked, and the iterator stays at it.
  pub known-step :
      (nested : ℕ → Nested) (wire_type : ℕ) (pr : Progress) (k : Progress → Step) (s : Istream)
      (st : Store) (more : List ℕ)
      → s.callback ≡ buf_read
      → input s ≡ scalar_bytes mem info.ltype info.data_size p ++ more
      → decode_known user nested wire_type (record pr { iter = here }) k s st
        ≡ k
            (record pr { iter = here; fields_seen = mark_seen here pr.fields_seen })
            (consume s (length (scalar_bytes mem info.ltype info.data_size p)))
            (record st { mem = copied user mem is_memory info p q info.ltype st.mem })
  unfolding decode_known iter_after_release
  known-step nested wire_type pr k s st more buf e =
      rw (single-not_repeated info.htype scalar.single) (
        ap (λ (r : Result). after r (k (noted user st.mem (record pr { iter = here }))))
          (decode_field-Stores (λ position. (nested position).sub) wire_type s st more buf e)
        ∙ ap
            (λ (it : Iter).
              k (record pr { iter = it; fields_seen = mark_seen here pr.fields_seen })
                (consume s (length (scalar_bytes mem info.ltype info.data_size p)))
                (record st { mem = copied user mem is_memory info p q info.ltype st.mem }))
            stays)
    where
      stays : iter_after_release st.mem here ≡ here
      stays = rw (single-not_oneof info.htype scalar.single) refl
