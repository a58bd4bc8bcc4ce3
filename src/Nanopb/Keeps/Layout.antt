-- ===== src/Nanopb/Keeps/Layout.antt =====
-- Message types all of whose fields are in the struct itself, and where they lie in it.
use kaseiapp.Base.{ℕ, zero, suc, ◌+◌, ◌≡◌, refl, sym, ap, ◌∙◌, false, ◌&&◌, not, ◌==◌, if-holds}
use mathlib.Core.Bool.{true≢false}
use kaseiapp.Base.Memory.{Memory, load}
use kaseiapp.Nanopb.Pb.{FieldInfo, Htype, required, optional, repeated, oneof, static}
use kaseiapp.Nanopb.Fields.{
  Fields, last, field, Ptr, null, value, submsg, chain, is_extension, is_oneof, is_pointer,
  begin_data, data_after, size_address, size_after,
}
use kaseiapp.Nanopb.Encode.{is_submessage}
use kaseiapp.Nanopb.Store.{Store, User, put}
use kaseiapp.Nanopb.Default.{
  copy_default, init_data, static_by_rule, default_by_allocation, set_fields, set_submessage,
}
use kaseiapp.Nanopb.Release.{
  release_items, release_submessages, release_field, release_fields, release_submessage,
  release_extensions, release_single, release_count, first_item, is_callback, pb_release,
}
use kaseiapp.Nanopb.DecodeField.{fresh_submessage}
use kaseiapp.Nanopb.Keeps.{Avoids, put-Outside, clear-Outside, copy-Outside}
use kaseiapp.Nanopb.Keeps.Field.{HasRoom, RuleFits}

-- The later part of a descriptor array.
pub data Suffix : Fields → Fields → Type 0 where
  whole : (fields : Fields) → Suffix fields fields
  behind :
      (info : FieldInfo) (ptr : Ptr) {pos rest : Fields}
      → Suffix pos rest
      → Suffix pos (field info ptr rest)

-- A field that is no extension, of static allocation, with room for its type.
pub record IsPlain (info : FieldInfo) : Type 0 where
  pub in_struct : info.atype ≡ static
  pub room : HasRoom info.data_size info.ltype
  pub no_extension : is_extension info.ltype ≡ false

module _ (kept : ℕ → Type 0) where
  -- The fields from the data at `p` and the count or `has_` member at `z` on lie outside the set. So does
  -- one byte where they end, at the data of the last field, which an empty message writes to.
  unfoldable pub FieldsFit : Fields → ℕ → ℕ → Type 0
  FieldsFit last p z = Avoids kept p 1
  FieldsFit (field info ptr rest) p z =
      RuleFits kept info p z info.htype
      × FieldsFit rest (data_after info rest p) (size_after info rest p z)

  abbrev pub StructFits : Fields → ℕ → Type 0
  StructFits fields dest =
      FieldsFit fields (begin_data fields dest) (size_address fields (begin_data fields dest))

  -- All fields are plain, and a submessage lies outside the set wherever its data does.
  unfoldable mutual
    unfolding FieldsFit

    pub AllPlain : Fields → Type 0
    AllPlain last = Unit
    AllPlain (field info ptr rest) = IsPlain info × PtrPlain info ptr × AllPlain rest

    pub PtrPlain : FieldInfo → Ptr → Type 0
    PtrPlain info null = Unit
    PtrPlain info (value a) = Unit
    PtrPlain info (submsg fields) =
        AllPlain fields × ((q : ℕ) → Avoids kept q info.data_size → StructFits fields q)
    PtrPlain info (chain exts) = ⊥

module _ {kept : ℕ → Type 0} where
  copy_default-kept :
      (info : FieldInfo) (ptr : Ptr) (p : ℕ) (mem : Memory) (a : ℕ)
      → Avoids kept p info.data_size
      → kept a
      → copy_default info ptr p mem a ≡ mem a
  copy_default-kept info null p mem a av k = clear-Outside p info.data_size mem a (av a k)
  copy_default-kept info (value b) p mem a av k = copy-Outside p b info.data_size mem a (av a k)
  copy_default-kept info (submsg fields) p mem a av k = refl
  copy_default-kept info (chain exts) p mem a av k = refl

  module _ (info : FieldInfo) (ptr : Ptr) (sub : ℕ → Memory → Memory)
      (h : (q : ℕ) (mem : Memory) (a : ℕ)
        → Avoids kept q info.data_size
        → kept a
        → sub q mem a ≡ mem a) where
    init_data-kept :
        (p : ℕ) (mem : Memory) (a : ℕ)
        → Avoids kept p info.data_size
        → kept a
        → init_data info ptr sub p mem a ≡ mem a
    init_data-kept p mem a av k =
        if-holds (λ (m : Memory). m a ≡ mem a) (is_submessage info.ltype) _ _ (λ e. h p mem a av k)
          (λ e. copy_default-kept info ptr p mem a av k)

    default_rule-kept :
        (p z : ℕ) (rule : Htype) (mem : Memory) (a : ℕ)
        → RuleFits kept info p z rule
        → kept a
        → static_by_rule info ptr sub p z rule mem a ≡ mem a
    default_rule-kept p z required mem a av k = init_data-kept p mem a av k
    default_rule-kept p z optional mem a (av, avz) k =
        init_data-kept p _ a av k
        ∙ if-holds (λ (m : Memory). m a ≡ mem a) (z == p) mem (put z 1 0 mem) (λ e. refl)
            (λ e. put-Outside z 1 0 mem a (avz e a k))
    default_rule-kept p z repeated mem a (av, small, avz) k = put-Outside z 4 0 mem a (avz a k)
    default_rule-kept p z oneof mem a (av, avz) k = put-Outside z 4 0 mem a (avz a k)

  default-kept :
      (info : FieldInfo) (ptr : Ptr) (sub : ℕ → Memory → Memory) (p z : ℕ) (mem : Memory) (a : ℕ)
      → ((q : ℕ) (m : Memory) (b : ℕ) → Avoids kept q info.data_size → kept b → sub q m b ≡ m b)
      → info.atype ≡ static
      → RuleFits kept info p z info.htype
      → kept a
      → default_by_allocation info ptr sub p z info.atype mem a ≡ mem a
  default-kept info ptr sub p z mem a h e fits k =
      rw e (default_rule-kept info ptr sub h p z info.htype mem a fits k)

module _ (kept : ℕ → Type 0) where
  mutual
    unfolding set_fields AllPlain FieldsFit

    pub set_fields-kept :
        (fields : Fields) (p z : ℕ) (mem : Memory) (a : ℕ)
        → AllPlain kept fields
        → FieldsFit kept fields p z
        → kept a
        → set_fields fields p z mem a ≡ mem a
    set_fields-kept last p z mem a plain fits k = refl
    set_fields-kept (field info ptr rest) p z mem a (plain, sub, plains) (fits, later) k =
        set_fields-kept rest (data_after info rest p) (size_after info rest p z) _ a plains later k
        ∙ rw plain.no_extension (
            default-kept info ptr (set_submessage ptr) p z mem a
              (λ q m b av kb. set_submessage-kept info ptr q m b sub av kb) plain.in_struct fits k)

    pub set_submessage-kept :
        (info : FieldInfo) (ptr : Ptr) (q : ℕ) (mem : Memory) (a : ℕ)
        → PtrPlain kept info ptr
        → Avoids kept q info.data_size
        → kept a
        → set_submessage ptr q mem a ≡ mem a
    set_submessage-kept info null q mem a plain av k = refl
    set_submessage-kept info (value b) q mem a plain av k = refl
    set_submessage-kept info (submsg fields) q mem a (plain, fits) av k =
        set_fields-kept fields (begin_data fields q) (size_address fields (begin_data fields q)) mem
          a plain (fits q av) k
    set_submessage-kept info (chain exts) q mem a plain av k = refl

  pub fresh-kept :
      (info : FieldInfo) (ptr : Ptr) (q : ℕ) (mem : Memory) (a : ℕ)
      → PtrPlain kept info ptr
      → Avoids kept q info.data_size
      → kept a
      → fresh_submessage info ptr q mem a ≡ mem a
  unfolding fresh_submessage
  fresh-kept info ptr q mem a plain av k =
      set_submessage-kept info ptr q _ a plain av k ∙ clear-Outside q info.data_size mem a (av a k)

release_items-same :
    (sub : ℕ → Store → Store) (step count item : ℕ) (st : Store)
    → ((q : ℕ) (s : Store) → sub q s ≡ s)
    → release_items sub step count item st ≡ st
unfolding release_items
release_items-same sub step zero item st h = refl
release_items-same sub step (suc count) item st h =
    release_items-same sub step count (item + step) (sub item st) h ∙ h item st

-- Releasing plain fields changes nothing: there is no block.
module _ (user : User) (kept : ℕ → Type 0) where
  release_plain-same :
      (info : FieldInfo) (sub : ℕ → Store → Store) (exts : Store → Store) (p z : ℕ) (st : Store)
      → IsPlain info
      → ((q : ℕ) (s : Store) → sub q s ≡ s)
      → release_field user info sub exts p z st ≡ st
  unfolding release_field
  release_plain-same info sub exts p z st plain h =
      if-holds Same (is_oneof info.htype && not (load st.mem z 4 == info.tag)) _ _ (λ e. refl)
        (λ e.
          if-holds Same (is_pointer info.atype) _ _
            (λ e'. absurd (true≢false (sym e' ∙ no_pointer)))
            (λ e'.
              if-holds Same (is_extension info.ltype) _ _
                (λ e''. absurd (true≢false (sym e'' ∙ plain.no_extension)))
                (λ e''.
                  if-holds Same (is_submessage info.ltype && not (is_callback info.atype)) _ _
                    (λ x. submessages) (λ x. refl))))
    where
      Same : Store → Type 0
      Same s = s ≡ st

      no_pointer : is_pointer info.atype ≡ false
      no_pointer = ap is_pointer plain.in_struct

      submessages : release_submessages info sub p z st ≡ st
      submessages =
          if-holds (λ (s : Store). s ≡ st) (first_item info p st.mem == 0) _ _ (λ e. refl)
            (λ e.
              release_items-same sub info.data_size (release_count info p z st.mem)
                (first_item info p st.mem) st h)

  mutual
    unfolding release_fields AllPlain

    release_fields-same :
        (fields : Fields) (p z : ℕ) (st : Store)
        → AllPlain kept fields
        → release_fields user fields p z st ≡ st
    release_fields-same last p z st plain = refl
    release_fields-same (field info ptr rest) p z st (plain, sub, plains) =
        release_fields-same rest (data_after info rest p) (size_after info rest p z) _ plains
        ∙ release_plain-same info (release_submessage user ptr) (release_extensions user ptr) p z st
            plain (λ q s. release_submessage-same info ptr q s sub)

    pub release_submessage-same :
        (info : FieldInfo) (ptr : Ptr) (q : ℕ) (st : Store)
        → PtrPlain kept info ptr
        → release_submessage user ptr q st ≡ st
    release_submessage-same info null q st plain = refl
    release_submessage-same info (value b) q st plain = refl
    release_submessage-same info (submsg fields) q st (plain, fits) =
        if-holds (λ (s : Store). s ≡ st) (q == 0) _ _ (λ e. refl)
          (λ e.
            release_fields-same fields (begin_data fields q)
              (size_address fields (begin_data fields q)) st plain)
    release_submessage-same info (chain exts) q st plain = refl

  -- There is nothing to release below plain fields.
  pub pb_release-same :
      (fields : Fields) (dest : ℕ) (st : Store)
      → AllPlain kept fields
      → pb_release user fields dest st ≡ st
  unfolding pb_release release_fields
  pb_release-same fields dest st plain =
      if-holds (λ (s : Store). s ≡ st) (dest == 0) _ _ (λ e. refl)
        (λ e.
          release_fields-same fields (begin_data fields dest)
            (size_address fields (begin_data fields dest)) st plain)

  pub release_single-same :
      (info : FieldInfo) (ptr : Ptr) (p z : ℕ) (st : Store)
      → IsPlain info
      → PtrPlain kept info ptr
      → release_single user info ptr p z st ≡ st
  unfolding release_single
  release_single-same info ptr p z st plain sub =
      release_plain-same info (release_submessage user ptr) (release_extensions user ptr) p z st
        plain (λ q s. release_submessage-same info ptr q s sub)
