-- ===== src/Nanopb/Keeps/Dispatch.antt =====
-- The memory that decode_field of Kasei/Pods/nanopb/pb_decode.c writes, for messages whose fields are in
-- the struct itself.
use kaseiapp.Base.{ℕ, suc, ◌≤◌, ◌≡◌, refl, sym, ap, ◌∙◌, arith, Bool, true, false}
use kaseiapp.Base.{◌==◌, if◌then◌else◌, if-holds}
use mathlib.Core.Path.{subst}
use kaseiapp.Base.Memory.{load}
use kaseiapp.Nanopb.Pb.{FieldInfo, Atype, invalid_union_tag, iterator_error}
use kaseiapp.Nanopb.Fields.{
  Fields, last, field, Ptr, null, value, submsg, chain, Iter, is_pointer, remaining,
  pb_field_iter_find,
}
use kaseiapp.Nanopb.Store.{Store, Step, User}
use kaseiapp.Nanopb.Item.{pb_dec_bool, decoder_for}
use kaseiapp.Nanopb.DecodeCallback.{
  by_allocation, tag_at, oneof_at, release_at, holds_other, after_restore, after_find_old,
  pb_release_union_field, decode_at, decode_field,
}
use kaseiapp.Nanopb.Decode.{Nested, nested_at, sub_decoder, decode_extension}
use kaseiapp.Nanopb.Read.{pb_decode_varint32}
use kaseiapp.Nanopb.Keeps.{
  Keeps, Avoids, succeed-Keeps, fail-Keeps, looking-Keeps, if-Keeps, reading-Keeps, put-Keeps,
}
use kaseiapp.Nanopb.Keeps.Field.{SubKeeps, RuleFits, decoder_for-Keeps, decode_static_field-Keeps}
use kaseiapp.Nanopb.Keeps.Layout.{
  Suffix, whole, behind, IsPlain, FieldsFit, AllPlain, PtrPlain, fresh-kept, release_single-same,
}
use kaseiapp.Nanopb.Keeps.Placed.{Placed, find-Placed}

module _ (user : User) (kept : ℕ → Type 0) where
  -- The submessages of these fields keep the set, wherever their data lies outside of it.
  unfoldable pub AllSubs : Fields → Type 0
  AllSubs last = Unit
  AllSubs (field info ptr rest) =
      ((q : ℕ) → Avoids kept q info.data_size → SubKeeps kept q (sub_decoder user ptr))
      × AllSubs rest

  pos-IsPlain :
      (fields : Fields) {info : FieldInfo} {ptr : Ptr} {rest : Fields}
      → Suffix (field info ptr rest) fields
      → AllPlain kept fields
      → IsPlain info × PtrPlain kept info ptr
  unfolding AllPlain
  pos-IsPlain _ (whole _) (plain, sub, plains) = (plain, sub)
  pos-IsPlain _ (behind info ptr s) (plain, sub, plains) = pos-IsPlain _ s plains

  remaining_less :
      (fields : Fields) {info : FieldInfo} {ptr : Ptr} {rest : Fields}
      → Suffix (field info ptr rest) fields
      → suc (remaining rest) ≤ remaining fields
  remaining_less _ (whole _) = omega arith
  remaining_less _ (behind info ptr s) = omega (arith, remaining_less _ s)

  sub_at :
      (fields : Fields) {info : FieldInfo} {ptr : Ptr} {rest : Fields} (q : ℕ)
      → Suffix (field info ptr rest) fields
      → AllSubs fields
      → Avoids kept q info.data_size
      → SubKeeps kept q (nested_at user fields (suc (remaining rest))).sub
  unfolding nested_at AllSubs
  sub_at _ {info} {ptr} {rest} q (whole _) (sub, subs) av =
      if-holds (λ (n : Nested). SubKeeps kept q n.sub)
        (suc (remaining rest) == suc (remaining rest)) _ _ (λ e. sub q av)
        (λ e. absurd (ground arith))
  sub_at _ {info} {ptr} {rest} q (behind info' ptr' {rest = rest'} s) (sub, subs) av =
      if-holds (λ (n : Nested). SubKeeps kept q n.sub)
        (suc (remaining rest) == suc (remaining rest')) _ _
        (λ e. absurd (ground (arith, remaining_less rest' s))) (λ e. sub_at rest' q s subs av)

  extension-Keeps :
      (info : FieldInfo) (ptr : Ptr) (tag wire_type : ℕ)
      → PtrPlain kept info ptr
      → Keeps kept (decode_extension user ptr tag wire_type)
  unfolding nested_at AllPlain
  extension-Keeps info null tag wire_type plain = succeed-Keeps
  extension-Keeps info (value a) tag wire_type plain = succeed-Keeps
  extension-Keeps info (submsg fields) tag wire_type plain = succeed-Keeps
  extension-Keeps info (chain exts) tag wire_type plain = absurd plain

  pub extensions_at-Keeps :
      (fields : Fields) (position tag wire_type : ℕ)
      → AllPlain kept fields
      → Keeps kept ((nested_at user fields position).extensions tag wire_type)
  unfolding nested_at AllPlain
  extensions_at-Keeps last position tag wire_type plain = succeed-Keeps
  extensions_at-Keeps (field info ptr rest) position tag wire_type (plain, sub, plains) =
      if-holds (λ (n : Nested). Keeps kept (n.extensions tag wire_type))
        (position == suc (remaining rest)) _ _ (λ e. extension-Keeps info ptr tag wire_type sub)
        (λ e. extensions_at-Keeps rest position tag wire_type plains)

  module _ (fields : Fields) (plain : AllPlain kept fields) (subs : AllSubs fields) where
    static_field-Keeps :
        (wire_type : ℕ) (iter : Iter) (info : FieldInfo) (ptr : Ptr) (rest : Fields)
        → Suffix (field info ptr rest) fields
        → RuleFits kept info iter.data_at iter.size_at info.htype
        → Keeps kept (
            by_allocation user info ptr
              (decoder_for user info (nested_at user fields (suc (remaining rest))).sub info.ltype)
              wire_type
              iter.data_at
              iter.size_at
              info.atype)
    static_field-Keeps wire_type iter info ptr rest s fits =
        let (here, sub) = pos-IsPlain fields s plain in
        subst
          (λ (atype : Atype). Keeps kept (
            by_allocation user info ptr
              (decoder_for user info (nested_at user fields (suc (remaining rest))).sub info.ltype)
              wire_type iter.data_at iter.size_at atype))
          (sym here.in_struct)
          (decode_static_field-Keeps info _
            (λ q av.
              decoder_for-Keeps user info _ info.ltype q (ap is_pointer here.in_struct) here.room av
                (sub_at fields q s subs av))
            iter.data_at iter.size_at ptr
            (λ mem a av k. fresh-kept kept info ptr iter.data_at mem a sub av k) wire_type fits)

    decode_at-Keeps :
        (wire_type : ℕ) (iter : Iter) (pos : Fields)
        → Suffix pos fields
        → FieldsFit kept pos iter.data_at iter.size_at
        → Keeps kept
            (decode_at user (λ position. (nested_at user fields position).sub) wire_type iter pos)
    unfolding FieldsFit pb_dec_bool
    decode_at-Keeps wire_type iter last s fits =
        reading-Keeps pb_decode_varint32 _
          λ number. put-Keeps iter.data_at 1 (if number == 0 then 0 else 1) fits
    decode_at-Keeps wire_type iter (field info ptr rest) s (fits, later) =
        static_field-Keeps wire_type iter info ptr rest s fits

    release_at-same :
        (iter : Iter) (pos : Fields) (st : Store)
        → Suffix pos fields
        → release_at user iter pos st ≡ st
    release_at-same iter last st s = refl
    release_at-same iter (field info ptr rest) st s =
        let (here, sub) = pos-IsPlain fields s plain in
        release_single-same user kept info ptr iter.data_at iter.size_at st here sub

    after_restore-Keeps :
        (r : Bool × Iter) (k : Iter → Step)
        → Placed kept fields r.1
        → ((it : Iter) → Placed kept fields it → Keeps kept (k it))
        → Keeps kept (after_restore r k)
    after_restore-Keeps (true, iter) k h hk = hk iter h
    after_restore-Keeps (false, iter) k h hk = fail-Keeps iterator_error

    after_find_old-Keeps :
        (new_tag : ℕ) (r : Bool × Iter) (k : Iter → Step)
        → Placed kept fields r.1
        → ((it : Iter) → Placed kept fields it → Keeps kept (k it))
        → Keeps kept (after_find_old user new_tag r k)
    after_find_old-Keeps new_tag (true, iter) k h hk = record {
      at = λ s st a ka.
          (after_restore-Keeps (pb_field_iter_find new_tag iter) k
              (find-Placed kept fields new_tag iter h) hk).at
            s (release_at user iter iter.pos st) a ka
          ∙ ap (λ (t : Store). t.mem a) (release_at-same iter iter.pos st h.suffix);
    }
    after_find_old-Keeps new_tag (false, iter) k h hk = fail-Keeps invalid_union_tag

    release_union-Keeps :
        (iter : Iter) (k : Iter → Step)
        → Placed kept fields iter
        → ((it : Iter) → Placed kept fields it → Keeps kept (k it))
        → Keeps kept (pb_release_union_field user iter k)
    unfolding pb_release_union_field
    release_union-Keeps iter k h hk = looking-Keeps _ λ mem.
        if-Keeps (holds_other mem iter) _ _
          (λ e.
            after_find_old-Keeps (tag_at iter.pos)
              (pb_field_iter_find (load mem iter.size_at 4) iter) k
              (find-Placed kept fields (load mem iter.size_at 4) iter h) hk)
          (λ e. hk iter h)

    pub decode_field-Keeps :
        (wire_type : ℕ) (iter : Iter)
        → Placed kept fields iter
        → Keeps kept
            (decode_field user (λ position. (nested_at user fields position).sub) wire_type iter)
    unfolding decode_field
    decode_field-Keeps wire_type iter h =
        if-Keeps (oneof_at iter.pos) _ _
          (λ e.
            release_union-Keeps iter _ h
              (λ it hit. decode_at-Keeps wire_type it it.pos hit.suffix hit.rest_fits))
          (λ e. decode_at-Keeps wire_type iter iter.pos h.suffix h.rest_fits)
