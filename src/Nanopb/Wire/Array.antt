-- ===== src/Nanopb/Wire/Array.antt =====
-- encode_array of Kasei/Pods/nanopb/pb_encode.c against the arrays of the encoding of Nanopb/Wire.
use kaseiapp.Base.{
  ℕ, zero, suc, ◌+◌, ◌*◌, ◌≡◌, refl, sym, ap, ◌∙◌, arith, Bool, true, false, not, ◌&&◌,
}
use kaseiapp.Base.{
  Option, none, some, List, [], ◌++◌, length, length-append, IsU32, IsU64, Bool-cases, inl, inr,
  ltb, ◌==◌,
}
use kaseiapp.Base.Memory.{Memory, load}
use kaseiapp.Nanopb.Pb.{
  FieldInfo, Ltype, bool, varint, uvarint, svarint, fixed32, fixed64, bytes, string, submessage,
  extension, fixed_length_bytes, is_packable, array_max_size_exceeded,
}
use kaseiapp.Nanopb.Pb.WireType
use kaseiapp.Nanopb.Ostream.{buf_write, Ostream, Writer, fail, pb_ostream_sizing}
use kaseiapp.Nanopb.Ostream.Emits.{Emits, Implements, Wire, emitted, stopped, join}
use kaseiapp.Nanopb.Ostream.Emits.Sequence.{>>-Emits, >>-Implements, done-Emits, fail-Implements}
use kaseiapp.Nanopb.Write.{pb_encode_varint, pb_encode_tag, pb_encode_tag_for_field, fixed_bytes}
use kaseiapp.Nanopb.Write.Varint.{varint_bytes, pb_encode_varint-Emits}
use kaseiapp.Nanopb.Write.Scalars.{
  tag_bytes, field_tag_bytes, pb_encode_tag-Emits, pb_encode_tag_for_field-Implements,
  length-fixed_bytes,
}
use kaseiapp.Nanopb.Fields.{is_pointer}
use kaseiapp.Nanopb.Field.{encoder_for}
use kaseiapp.Nanopb.Encode.{
  encode_items, counted, packed_size, packed_data, packed_body, encode_array, item_address,
}
use kaseiapp.Nanopb.Wire.{items_wire, value_wire, delimited, array_wire}
use kaseiapp.Nanopb.Wire.Values.{Implements-if}
use mathlib.Core.Path.{subst}
use kaseiapp.Nanopb.Ostream.Emits.Write.{stream_of}
use kaseiapp.Nanopb.Wire.Submessage.{sizing_lem, sizing_count, sizing-IsReady, counting-Emits}

-- The loop over the items writes their encodings in a row.
pub encode_items-Implements :
    (func : ℕ → Writer) (item : ℕ → Wire) (step : ℕ)
    → ((q : ℕ) → Implements (func q) (item q))
    → (count p : ℕ) → Implements (encode_items func step count p) (items_wire item step count p)
unfolding encode_items items_wire
encode_items-Implements func item step h zero p = done-Emits
encode_items-Implements func item step h (suc count) p =
    >>-Implements (func p) (encode_items func step count (p + step)) (item p)
      (items_wire item step count (p + step)) (h p)
      (encode_items-Implements func item step h count (p + step))

items_length :
    (f : ℕ → List ℕ) (n : ℕ)
    → ((q : ℕ) → length (f q) ≡ n)
    → (step count p : ℕ)
    → (bs : List ℕ) × (items_wire (λ q. emitted (f q)) step count p ≡ emitted bs)
      × (length bs ≡ n * count)
unfolding items_wire
items_length f n h step zero p = ([], refl, omega arith)
items_length f n h step (suc count) p =
    let (bs, e, total) = items_length f n h step count (p + step) in
    (f p ++ bs, ap (join (emitted (f p))) e, grind (arith, length-append (f p) bs, h p))

emitted_inj : {xs ys : List ℕ} → emitted xs ≡ emitted ys → xs ≡ ys
emitted_inj e = cc

not_stopped : {xs ys : List ℕ} → emitted xs ≡ stopped ys → ⊥
not_stopped e = cc

-- A counting pass over a function that implements an encoding.
pub counted_emitted :
    (run : Writer) (w : Wire) (bs : List ℕ)
    → Implements run w
    → w ≡ emitted bs
    → IsU64 (length bs)
    → counted (run pb_ostream_sizing) ≡ some (length bs)
counted_emitted run w bs h e fit =
    ap counted (sizing_lem run bs (subst (Implements run) e h) fit) ∙ ap some (sizing_count bs fit)

counted_failed : (r : Bool × Ostream) → r.0 ≡ false → counted r ≡ none
counted_failed (true, s) h = cc
counted_failed (false, s) h = refl

pub counted_stopped :
    (run : Writer) (w : Wire) (bs : List ℕ)
    → Implements run w
    → w ≡ stopped bs
    → IsU64 (length bs)
    → counted (run pb_ostream_sizing) ≡ none
unfolding pb_ostream_sizing
counted_stopped run w bs h e fit =
    counted_failed (run pb_ostream_sizing)
      (subst (Implements run) e h pb_ostream_sizing sizing-IsReady (omega arith))

module _ (mem : Memory) (info : FieldInfo) (encode : Option (ℕ → Writer))
    (sub : Option (ℕ → Wire)) where
  abbrev items : Ltype → ℕ → ℕ → Wire
  items t count p = items_wire (value_wire mem info sub t) info.data_size count p

  abbrev loop : Ltype → ℕ → ℕ → Writer
  loop t count p = encode_items (encoder_for mem info encode t) info.data_size count p

  items32_total :
      (count p : ℕ) (bs : List ℕ) → items fixed32 count p ≡ emitted bs → length bs ≡ 4 * count
  unfolding value_wire
  items32_total count p bs e =
      let (cs, same, total) =
        items_length (λ q. fixed_bytes 4 (load mem q 4)) 4
          (λ q. length-fixed_bytes 4 (load mem q 4)) info.data_size count p in
      ap length (emitted_inj (sym e ∙ same)) ∙ total

  items64_total :
      (count p : ℕ) (bs : List ℕ) → items fixed64 count p ≡ emitted bs → length bs ≡ 8 * count
  unfolding value_wire
  items64_total count p bs e =
      let (cs, same, total) =
        items_length (λ q. fixed_bytes 8 (load mem q 8)) 8
          (λ q. length-fixed_bytes 8 (load mem q 8)) info.data_size count p in
      ap length (emitted_inj (sym e ∙ same)) ∙ total

  items32_run : (count p : ℕ) (bs : List ℕ) → items fixed32 count p ≡ stopped bs → ⊥
  unfolding value_wire
  items32_run count p bs e =
      let (cs, same, total) =
        items_length (λ q. fixed_bytes 4 (load mem q 4)) 4
          (λ q. length-fixed_bytes 4 (load mem q 4)) info.data_size count p in
      not_stopped (sym same ∙ e)

  items64_run : (count p : ℕ) (bs : List ℕ) → items fixed64 count p ≡ stopped bs → ⊥
  unfolding value_wire
  items64_run count p bs e =
      let (cs, same, total) =
        items_length (λ q. fixed_bytes 8 (load mem q 8)) 8
          (λ q. length-fixed_bytes 8 (load mem q 8)) info.data_size count p in
      not_stopped (sym same ∙ e)

  -- The size that encode_array computes ahead is that of the items.
  packed_size_emitted :
      (t : Ltype) (count p : ℕ) (bs : List ℕ)
      → is_packable t ≡ true
      → Implements (loop t count p) (items t count p)
      → items t count p ≡ emitted bs
      → IsU64 (length bs)
      → packed_size info (encoder_for mem info encode t) count p t ≡ some (length bs)
  packed_size_emitted bool count p bs ok h e fit = counted_emitted _ _ bs h e fit
  packed_size_emitted varint count p bs ok h e fit = counted_emitted _ _ bs h e fit
  packed_size_emitted uvarint count p bs ok h e fit = counted_emitted _ _ bs h e fit
  packed_size_emitted svarint count p bs ok h e fit = counted_emitted _ _ bs h e fit
  packed_size_emitted fixed32 count p bs ok h e fit = ap some (sym (items32_total count p bs e))
  packed_size_emitted fixed64 count p bs ok h e fit = ap some (sym (items64_total count p bs e))
  packed_size_emitted bytes count p bs ok h e fit = cc
  packed_size_emitted string count p bs ok h e fit = cc
  packed_size_emitted submessage count p bs ok h e fit = cc
  packed_size_emitted extension count p bs ok h e fit = cc
  packed_size_emitted fixed_length_bytes count p bs ok h e fit = cc

  packed_size_stopped :
      (t : Ltype) (count p : ℕ) (bs : List ℕ)
      → is_packable t ≡ true
      → Implements (loop t count p) (items t count p)
      → items t count p ≡ stopped bs
      → IsU64 (length bs)
      → packed_size info (encoder_for mem info encode t) count p t ≡ none
  packed_size_stopped bool count p bs ok h e fit = counted_stopped _ _ bs h e fit
  packed_size_stopped varint count p bs ok h e fit = counted_stopped _ _ bs h e fit
  packed_size_stopped uvarint count p bs ok h e fit = counted_stopped _ _ bs h e fit
  packed_size_stopped svarint count p bs ok h e fit = counted_stopped _ _ bs h e fit
  packed_size_stopped fixed32 count p bs ok h e fit = absurd (items32_run count p bs e)
  packed_size_stopped fixed64 count p bs ok h e fit = absurd (items64_run count p bs e)
  packed_size_stopped bytes count p bs ok h e fit = cc
  packed_size_stopped string count p bs ok h e fit = cc
  packed_size_stopped submessage count p bs ok h e fit = cc
  packed_size_stopped extension count p bs ok h e fit = cc
  packed_size_stopped fixed_length_bytes count p bs ok h e fit = cc

  packed_body-Implements :
      (t : Ltype) (count p : ℕ) (w : Wire)
      → is_packable t ≡ true
      → Implements (loop t count p) (items t count p)
      → items t count p ≡ w
      → Implements
          (packed_body info
            (encoder_for mem info encode t)
            count
            p
            (packed_size info (encoder_for mem info encode t) count p t))
          (delimited w)
  packed_body-Implements t count p (emitted bs) ok h e = λ s ready small.
      let fit : IsU64 (length bs) =
        omega (arith, length-append {0} (varint_bytes (length bs)) bs) in
      let run : Emits (loop t count p) bs = subst (Implements (loop t count p)) e h in
      rw (packed_size_emitted t count p bs ok h e fit) (
        >>-Emits (pb_encode_varint (length bs))
          (packed_data info (encoder_for mem info encode t) count p (length bs))
          (varint_bytes (length bs)) bs (pb_encode_varint-Emits (length bs) fit).0
          (counting-Emits (loop t count p) bs (λ d m w' msg. run (stream_of buf_write d m w' msg)))
          s ready small)
  packed_body-Implements t count p (stopped bs) ok h e =
      λ s ready small. rw (packed_size_stopped t count p bs ok h e (omega arith)) refl

  -- encode_array: packed under one tag, or one value after another.
  pub encode_array-Implements :
      (count p : ℕ)
      → IsU32 info.tag
      → ((q : ℕ)
          → Implements
              (encoder_for mem info encode info.ltype q)
              (value_wire mem info sub info.ltype q))
      → Implements
          (encode_array mem info (encoder_for mem info encode info.ltype) count p)
          (array_wire mem info (value_wire mem info sub info.ltype) count p)
  unfolding encode_array array_wire
  encode_array-Implements count p tag h = Implements-if (count == 0) _ _ _ _ done-Emits (
      Implements-if (not (is_pointer info.atype) && ltb info.array_size count)
        (fail array_max_size_exceeded) _ (stopped []) _ (fail-Implements array_max_size_exceeded)
        (elim (Bool-cases (is_packable info.ltype)) [
          | inl packed ↦ rw packed (
              >>-Implements (pb_encode_tag WireType.string info.tag) _
                (emitted (tag_bytes WireType.string info.tag))
                (delimited (items info.ltype count p))
                (pb_encode_tag-Emits WireType.string info.tag (omega arith) tag)
                (packed_body-Implements info.ltype count p (items info.ltype count p) packed
                  (encode_items-Implements _ _ info.data_size h count p) refl))
          | inr one_by_one ↦ rw one_by_one (
              encode_items-Implements _ _ info.data_size
                (λ q.
                  >>-Implements (pb_encode_tag_for_field info)
                    (encoder_for mem info encode info.ltype (item_address mem info q))
                    (field_tag_bytes info)
                    (value_wire mem info sub info.ltype (item_address mem info q))
                    (pb_encode_tag_for_field-Implements info tag) (h (item_address mem info q)))
                count p)
        ]))
