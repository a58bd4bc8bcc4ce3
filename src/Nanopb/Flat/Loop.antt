-- ===== src/Nanopb/Flat/Loop.antt =====
-- The loop of pb_decode_noinit of Kasei/Pods/nanopb/pb_decode.c over the bytes of a message of single
-- values.
use mathlib.Core.Path.{subst}
use mathlib.Core.Bool.{true≢false}
use kaseiapp.Base.{
  ℕ, zero, suc, ◌+◌, ◌-◌, ◌*◌, ◌≤◌, ◌<◌, ◌≡◌, refl, sym, ap, ◌∙◌, arith, Bool, true, false, List,
  [], ◌++◌, append_assoc, length, length-append, ◌==◌, if◌then◌else◌, IsByte, Bool-cases, inl, inr,
}
use kaseiapp.Base.Memory.{Memory, bytes_at, store_bytes}
use kaseiapp.Nanopb.Pb.{FieldInfo, Htype, required, optional, repeated, oneof}
use kaseiapp.Nanopb.Istream.{Istream, buf_read}
use kaseiapp.Nanopb.Istream.Reads.{
  input, consume, consume-add, consume-zero, input-consume, length-input, enough,
}
use kaseiapp.Nanopb.Read.Scalars.{pb_decode_tag-tag_bytes}
use kaseiapp.Nanopb.Write.Varint.{length-base128_pos}
use kaseiapp.Nanopb.Write.Scalars.{tag_bytes}
use kaseiapp.Nanopb.Fields.{Fields, last, field, Ptr, is_required, data_after, size_after}
use kaseiapp.Nanopb.Fields.Find.{has_field, iter_of}
use kaseiapp.Nanopb.Store.{Store, good, Step, User}
use kaseiapp.Nanopb.Required.{mark_seen, has_tag}
use kaseiapp.Nanopb.Progress.{Progress, finish_message}
use kaseiapp.Nanopb.Decode.{Nested, after_tag, after_find, decode_loop}
use kaseiapp.Nanopb.Flat.Values.{IsValue, value_size, scalar_bytes}
use kaseiapp.Nanopb.Flat.Messages.{
  IsScalar, AllScalars, AllValues, is_sent, scalar_wire_type, scalar-wire_type-lt, field_bytes,
  flat_bytes, restored,
}
use kaseiapp.Nanopb.Flat.Seek.{index_after}
use kaseiapp.Nanopb.Flat.Step.{known-step}
use kaseiapp.Nanopb.Flat.Seen.{SeenTo, finish-good}
use kaseiapp.Nanopb.Flat.Ready.{same_after, Ready, located, left_out, taken}

field_bytes_pos : (mem : Memory) (info : FieldInfo) (p : ℕ) → 0 < length (field_bytes mem info p)
field_bytes_pos mem info p = omega (
  arith,
  length-append (tag_bytes (scalar_wire_type info.ltype) info.tag)
      (scalar_bytes mem info.ltype info.data_size p),
  length-base128_pos 9 (info.tag * 8 + scalar_wire_type info.ltype),
)

-- An optional field only is left out.
free :
    (mem : Memory) (info : FieldInfo) (p : ℕ) (rule : Htype)
    → is_sent mem info p rule ≡ false
    → is_required rule ≡ false
free mem info p required e = absurd (true≢false e)
free mem info p optional e = refl
free mem info p repeated e = refl
free mem info p oneof e = refl

loop_end :
    (user : User) (nested : ℕ → Nested) (rounds : ℕ) (pr : Progress) (s : Istream) (st : Store)
    → s.bytes_left ≡ 0
    → decode_loop user nested rounds pr s st ≡ finish_message pr s st
unfolding decode_loop
loop_end user nested zero pr s st e = rw e refl
loop_end user nested (suc rounds) pr s st e = rw e refl

module _ (fields : Fields) (dest : ℕ) where
  module _ (user : User) (nested : ℕ → Nested) (mem : Memory)
      (is_memory : (a : ℕ) → IsByte (mem a)) where
    -- One round of the loop decodes one field.
    sent-step :
        (info : FieldInfo) (ptr : Ptr) (rest : Fields) (p index q z rounds : ℕ) (pr : Progress)
        (s : Istream) (st : Store) (more : List ℕ)
        → IsScalar info
        → IsValue mem info.ltype info.data_size p
        → has_field info.tag rest ≡ false
        → Ready fields dest (field info ptr rest) index q z pr
        → z ≡ q
        → s.callback ≡ buf_read
        → input s ≡ field_bytes mem info p ++ more
        → let it = iter_of fields (field info ptr rest) index dest q z in
          decode_loop user nested (suc rounds) pr s st
          ≡ decode_loop user nested rounds
              (record pr { iter = it; fields_seen = mark_seen it pr.fields_seen })
              (consume s (length (field_bytes mem info p)))
              (record st {
                mem =
                    store_bytes st.mem q
                      (bytes_at mem p (value_size mem info.ltype info.data_size p));
              })
    unfolding decode_loop
    sent-step info ptr rest p index q z rounds pr s st more scalar valid other ready same buf e =
        rw nonempty (
          ap (λ r. after_tag user nested r pr k st)
            (pb_decode_tag-tag_bytes wt info.tag s (value ++ more) (scalar-wire_type-lt info.ltype)
              scalar.tag_pos scalar.tag_bound buf e')
          ∙ ap (λ r. after_find user nested info.tag wt r pr k s1 st)
              (located fields dest scalar other ready)
          ∙ known-step user mem is_memory fields dest info ptr rest scalar p index q z same valid
              nested wt pr k s1 st more buf (input-consume s tag (value ++ more) e')
          ∙ ap
              (λ (t : Istream).
                k
                  (record pr {
                    iter = iter_of fields (field info ptr rest) index dest q z;
                    fields_seen =
                        mark_seen (iter_of fields (field info ptr rest) index dest q z)
                          pr.fields_seen;
                  })
                  t
                  (record st {
                    mem =
                        store_bytes st.mem q
                          (bytes_at mem p (value_size mem info.ltype info.data_size p));
                  }))
              joined)
      where
        wt : ℕ
        wt = scalar_wire_type info.ltype

        tag : List ℕ
        tag = tag_bytes wt info.tag

        value : List ℕ
        value = scalar_bytes mem info.ltype info.data_size p

        k : Progress → Step
        k = decode_loop user nested rounds

        s1 : Istream
        s1 = consume s (length tag)

        e' : input s ≡ tag ++ (value ++ more)
        e' = e ∙ append_assoc tag value more

        nonempty : (s.bytes_left == 0) ≡ false
        nonempty = ground (
          arith,
          length-input s,
          ap length e',
          length-append tag (value ++ more),
          length-base128_pos 9 (info.tag * 8 + wt),
        )

        joined : consume s1 (length value) ≡ consume s (length (tag ++ value))
        joined =
            consume-add s (length tag) (length value)
            ∙ ap (consume s) (sym (length-append tag value))

    -- The loop decodes the fields that are left, and the checks behind it pass.
    pub flat-loop :
        (cur : Fields) (rounds p index q z : ℕ) (pr : Progress) (s : Istream) (st : Store)
        → has_tag fields ≡ true
        → AllScalars cur
        → AllValues mem cur p
        → Ready fields dest cur index q z pr
        → z ≡ q
        → s.callback ≡ buf_read
        → input s ≡ flat_bytes mem cur p
        → s.bytes_left ≤ rounds
        → decode_loop user nested rounds pr s st ≡ (
          good,
          consume s (length (flat_bytes mem cur p)),
          record st { mem = restored mem cur p q st.mem },
        )
    flat-loop last rounds p index q z pr s st tagged all values ready same buf e le =
        loop_end user nested rounds pr s st (omega (arith, length-input s, ap length e))
        ∙ finish-good fields pr s st tagged ready.no_count ready.indexed
            (subst (λ (n : ℕ). SeenTo n pr.fields_seen) (omega (arith, ready.total)) ready.seen)
        ∙ λ i. (good, sym (consume-zero s) i, st)
    flat-loop (field info ptr rest) rounds p index q z pr s st tagged
          (scalar, no_default, other, all) (valid, values) ready same buf e le =
        elim (Bool-cases (is_sent mem info p info.htype)) [
          | inl sent ↦
              let bs = field_bytes mem info p in
              let more = flat_bytes mem rest (data_after info rest p) in
              let e' : input s ≡ bs ++ more =
                e ∙ ap (λ (b : Bool). (if b then bs else []) ++ more) sent in
              let st' = record st {
                mem =
                    store_bytes st.mem q
                      (bytes_at mem p (value_size mem info.ltype info.data_size p));
              } in
              rw sent (
                ap (λ (n : ℕ). decode_loop user nested n pr s st)
                  (omega (arith, le, enough s bs more e', field_bytes_pos mem info p))
                ∙ sent-step info ptr rest p index q z (rounds - 1) pr s st more scalar valid other
                    ready same buf e'
                ∙ flat-loop rest (rounds - 1) (data_after info rest p) (index_after info rest index)
                    (data_after info rest q) (size_after info rest q z) _ (consume s (length bs))
                    st' tagged all values (taken fields dest scalar other ready)
                    (same_after info rest q z scalar all same) buf (input-consume s bs more e')
                    (omega (arith, le, enough s bs more e', field_bytes_pos mem info p))
                ∙ λ i. (
                  good,
                  (consume-add s (length bs) (length more)
                        ∙ ap (consume s) (sym (length-append bs more)))
                      i,
                  record st {
                    mem =
                        restored mem rest (data_after info rest p) (data_after info rest q) st'.mem;
                  },
                ))
          | inr unsent ↦
              let more = flat_bytes mem rest (data_after info rest p) in
              rw unsent (
                flat-loop rest rounds (data_after info rest p) (index_after info rest index)
                  (data_after info rest q) (size_after info rest q z) pr s st tagged all values
                  (left_out fields dest scalar other ready (free mem info p info.htype unsent))
                  (same_after info rest q z scalar all same) buf
                  (e ∙ ap (λ (b : Bool). (if b then field_bytes mem info p else []) ++ more) unsent)
                  le)
        ]
