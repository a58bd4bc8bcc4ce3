-- ===== src/Nanopb/Ends/Field.antt =====
-- The ends of decode_static_field and decode_pointer_field of Kasei/Pods/nanopb/pb_decode.c.
use kaseiapp.Base.{ℕ, zero, suc, ◌+◌, ◌-◌, ◌≤◌, arith, ◌&&◌, not}
use kaseiapp.Base.{some, ◌==◌, if-holds}
use kaseiapp.Base.Memory.{load}
use kaseiapp.Nanopb.Pb.{
  FieldInfo, Htype, required, optional, repeated, oneof, size_max, array_overflow, too_many_entries,
}
use kaseiapp.Nanopb.Istream.{Istream}
use kaseiapp.Nanopb.Fields.{Ptr}
use kaseiapp.Nanopb.Encode.{is_submessage}
use kaseiapp.Nanopb.Store.{Store, good, bad, hangs, Result, Step, ◌>>◌, looking, put, User}
use kaseiapp.Nanopb.DecodeField.{
  next_entry, count_up, has_room, packed_items, packed_end, static_packed, static_entry,
  fresh_submessage, static_by_rule, decode_static_field, initialize_pointer_field, new_item,
  release_duplicate, pointer_single, grown, pointer_entry, continue_or_close, pointer_items,
  pointer_packed, pointer_repeated, pointer_by_rule, decode_pointer_field,
}
use kaseiapp.Nanopb.Ends.{
  Ended, Ends, succeed-Ends, fail-Ends, writing-Ends, looking-Ends, if-Ends, >>-Ends, after-Ended,
  fewer-Ended,
}
use kaseiapp.Nanopb.Ends.Item.{allocate_field-Ends, close_after-Ended, substream-Ends}

pub count_up-Ends : (z : ℕ) → Ends 0 (count_up z)
count_up-Ends z = writing-Ends _

packed_end-Ended :
    (n : ℕ) (s : Istream) (r : Result) → Ended 0 n r → Ended 0 s.bytes_left (packed_end s r)
packed_end-Ended n s (good, sub, st) h =
    if-holds (Ended 0 s.bytes_left) (sub.bytes_left == 0) _ _
      (λ e. close_after-Ended n s (good, sub, st) h) (λ e. omega arith)
packed_end-Ended n s (bad, sub, st) h =
    if-holds (Ended 0 s.bytes_left) (sub.bytes_left == 0) _ _
      (λ e. close_after-Ended n s (bad, sub, st) h) (λ e. omega arith)
packed_end-Ended n s (hangs, sub, st) h = h

continue-Ended :
    (n : ℕ) (s : Istream) (r : Result) (next : Step)
    → Ended 1 n r
    → ((t : Istream) (st : Store) → t.bytes_left ≤ n - 1 → Ended 0 s.bytes_left (next t st))
    → Ended 0 s.bytes_left (continue_or_close s r next)
continue-Ended n s (good, t, st) next h hnext = hnext t st h
continue-Ended n s (bad, t, st) next h hnext = close_after-Ended n s (bad, t, st) h
continue-Ended n s (hangs, t, st) next h hnext = h

module _ (info : FieldInfo) (ptr : Ptr) (func : ℕ → Step) (h : (q : ℕ) → Ends 1 (func q)) where
  -- As many rounds as there are bytes are enough, since an entry takes one.
  packed_items-Ended :
      (p z rounds : ℕ) (sub : Istream) (st : Store)
      → sub.bytes_left ≤ rounds
      → Ended 0 sub.bytes_left (packed_items info func p z rounds sub st)
  unfolding packed_items
  packed_items-Ended p z zero sub st le =
      if-holds (Ended 0 sub.bytes_left) (has_room info z sub st) _ _ (λ e. ground arith)
        (λ e. omega arith)
  packed_items-Ended p z (suc rounds) sub st le =
      if-holds (Ended 0 sub.bytes_left) (has_room info z sub st) _ _
        (λ e. fewer-Ended 1 0 sub.bytes_left _ (omega arith) (
          after-Ended 1 0 sub.bytes_left (entry sub st) (packed_items info func p z rounds)
            (entry-Ends.at sub st)
            (λ t st' le'. packed_items-Ended p z rounds t st' (omega arith))))
        (λ e. omega arith)
    where
      entry : Step
      entry = looking (λ mem. func (next_entry info p z mem)) >> count_up z

      entry-Ends : Ends 1 entry
      entry-Ends =
          >>-Ends _ (count_up z) (looking-Ends _ (λ mem. h (next_entry info p z mem)))
            (count_up-Ends z)

  static_packed-Ends : (p z : ℕ) → Ends 1 (static_packed info func p z)
  unfolding static_packed
  static_packed-Ends p z = substream-Ends _ λ sub s st.
      packed_end-Ended sub.bytes_left s (packed_items info func p z sub.bytes_left sub st)
        (packed_items-Ended p z sub.bytes_left sub st (omega arith))

  static_entry-Ends : (p z : ℕ) → Ends 1 (static_entry info func p z)
  unfolding static_entry
  static_entry-Ends p z = looking-Ends _ λ mem.
      >>-Ends (count_up z) _ (count_up-Ends z)
        (if-Ends _ (fail-Ends 1 array_overflow) (h (next_entry info p z mem)))

  static_rule-Ends :
      (wire_type p z : ℕ) (rule : Htype) → Ends 1 (static_by_rule info ptr func wire_type p z rule)
  static_rule-Ends wire_type p z required = h p
  static_rule-Ends wire_type p z optional =
      >>-Ends _ _ (if-Ends _ succeed-Ends (writing-Ends (put z 1 1))) (h p)
  static_rule-Ends wire_type p z repeated =
      if-Ends _ (static_packed-Ends p z) (static_entry-Ends p z)
  static_rule-Ends wire_type p z oneof =
      >>-Ends _ _
        (>>-Ends _ _ (writing-Ends (put z 4 info.tag))
          (if-Ends _ (writing-Ends (fresh_submessage info ptr p)) succeed-Ends))
        (h p)

  pub decode_static_field-Ends :
      (wire_type p z : ℕ) → Ends 1 (decode_static_field info ptr func wire_type p z)
  unfolding decode_static_field
  decode_static_field-Ends wire_type p z = static_rule-Ends wire_type p z info.htype

  new_item-Ends : (q : ℕ) → Ends 1 (new_item info ptr func q)
  new_item-Ends q = >>-Ends _ (func q) (writing-Ends (initialize_pointer_field info ptr q)) (h q)

  module _ (user : User) where
    release_duplicate-Ends : (p z : ℕ) → Ends 0 (release_duplicate user info ptr p z)
    release_duplicate-Ends p z = record {
      at = λ s st.
          if-holds (Ended 0 s.bytes_left) (is_submessage info.ltype && not (load st.mem p 8 == 0)) _
            _ (λ e. omega arith) (λ e. omega arith);
    }

    pointer_single-Ends : (p z : ℕ) → Ends 1 (pointer_single user info ptr func p z)
    unfolding pointer_single
    pointer_single-Ends p z =
        >>-Ends _ _
          (>>-Ends _ _ (release_duplicate-Ends p z)
            (if-Ends _ (writing-Ends (put z 4 info.tag)) succeed-Ends))
          (if-Ends _ (h p) (
            >>-Ends _ _ (allocate_field-Ends user p info.data_size 1)
              (looking-Ends _ (λ mem. new_item-Ends (load mem p 8)))))

    pointer_entry-Ends :
        (p z size allocated bytes_left : ℕ)
        → Ends 1 (pointer_entry user info ptr func p z size allocated bytes_left)
    pointer_entry-Ends p z size allocated bytes_left =
        >>-Ends _ (count_up z)
          (>>-Ends _ _
            (if-Ends _ (allocate_field-Ends user p info.data_size (grown info allocated bytes_left))
              succeed-Ends)
            (looking-Ends _ (λ mem. new_item-Ends (next_entry info (load mem p 8) z mem))))
          (count_up-Ends z)

    pointer_items-Ended :
        (p z rounds allocated : ℕ) (s sub : Istream) (st : Store)
        → sub.bytes_left ≤ rounds
        → Ended 0 s.bytes_left (pointer_items user info ptr func p z rounds allocated s sub st)
    unfolding pointer_items
    pointer_items-Ended p z zero allocated s sub st le =
        if-holds (Ended 0 s.bytes_left) (sub.bytes_left == 0) _ _
          (λ e. close_after-Ended sub.bytes_left s (good, sub, st) (omega arith))
          (λ e. ground arith)
    pointer_items-Ended p z (suc rounds) allocated s sub st le =
        if-holds (Ended 0 s.bytes_left) (sub.bytes_left == 0) _ _
          (λ e. close_after-Ended sub.bytes_left s (good, sub, st) (omega arith))
          (λ e.
            if-holds (Ended 0 s.bytes_left) (load st.mem z 4 == size_max) _ _
              (λ e'.
                close_after-Ended sub.bytes_left (record s { errmsg = some too_many_entries })
                  (bad, sub, st) (omega arith))
              (λ e'.
                continue-Ended sub.bytes_left s _ _
                  ((pointer_entry-Ends p z (load st.mem z 4) allocated sub.bytes_left).at sub st)
                  (λ t st' le'. pointer_items-Ended p z rounds _ s t st' (ground arith))))

    pointer_packed-Ends : (p z : ℕ) → Ends 1 (pointer_packed user info ptr func p z)
    unfolding pointer_packed
    pointer_packed-Ends p z = looking-Ends _ λ mem.
        substream-Ends _
          λ sub s st. pointer_items-Ended p z sub.bytes_left (load mem z 4) s sub st (omega arith)

    pointer_repeated-Ends : (p z : ℕ) → Ends 1 (pointer_repeated user info ptr func p z)
    unfolding pointer_repeated
    pointer_repeated-Ends p z = looking-Ends _ λ mem. if-Ends _ (fail-Ends 1 too_many_entries) (
        >>-Ends _ _ (allocate_field-Ends user p info.data_size (load mem z 4 + 1)) (
          looking-Ends _ λ grown_mem.
            >>-Ends (count_up z) _ (count_up-Ends z)
              (new_item-Ends (next_entry info (load grown_mem p 8) z grown_mem))))

    pointer_rule-Ends :
        (wire_type p z : ℕ) (rule : Htype)
        → Ends 1 (pointer_by_rule user info ptr func wire_type p z rule)
    pointer_rule-Ends wire_type p z repeated =
        if-Ends _ (pointer_packed-Ends p z) (pointer_repeated-Ends p z)
    pointer_rule-Ends wire_type p z required = pointer_single-Ends p z
    pointer_rule-Ends wire_type p z optional = pointer_single-Ends p z
    pointer_rule-Ends wire_type p z oneof = pointer_single-Ends p z

    pub decode_pointer_field-Ends :
        (wire_type p z : ℕ) → Ends 1 (decode_pointer_field user info ptr func wire_type p z)
    unfolding decode_pointer_field
    decode_pointer_field-Ends wire_type p z = pointer_rule-Ends wire_type p z info.htype
