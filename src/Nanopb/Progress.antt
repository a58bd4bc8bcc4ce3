-- ===== src/Nanopb/Progress.antt =====
-- The local variables of pb_decode_noinit of Kasei/Pods/nanopb/pb_decode.c, its count of a repeated
-- field of fixed size, the checks at the end of a message, and find_extension_field.
use kaseiapp.Base.{ℕ, zero, suc, ◌^◌, Bool, true, false, not, ◌&&◌}
use kaseiapp.Base.{Option, none, some, ◌==◌, if◌then◌else◌}
use kaseiapp.Base.Memory.{Memory, load}
use kaseiapp.Nanopb.Pb.{wrong_fixed_count, missing_required_field}
use kaseiapp.Nanopb.Fields.{
  Fields, last, field, Iter, is_extension, is_repeated, remaining, pb_field_iter_next,
}
use kaseiapp.Nanopb.Store.{Step, succeed, fail, ◌>>◌, writing, looking, put}
use kaseiapp.Nanopb.Required.{
  Words, htype_at, seek_end, counted_last, at_most, max_required_fields, all_seen,
}

abbrev pub is_extension_at : Fields → Bool
is_extension_at last = false
is_extension_at (field info ptr rest) = is_extension info.ltype

abbrev pub extension_next : ℕ → Iter → (Iter → Bool × Iter) → Bool × Iter
extension_next begun next more = if remaining next.pos == begun then (false, next) else more next

-- The do loop of find_extension_field, which ends when it is back at the position where it began.
unfoldable pub find_extension_loop : ℕ → ℕ → Iter → Bool × Iter
unfolding pb_field_iter_next
find_extension_loop zero begun iter = (false, iter)
find_extension_loop (suc rounds) begun iter =
    let more =
      extension_next begun (pb_field_iter_next iter).1 (find_extension_loop rounds begun) in
    if is_extension_at iter.pos then (true, iter) else more

unfoldable pub find_extension_field : Iter → Bool × Iter
unfolding find_extension_loop
find_extension_field iter =
    find_extension_loop (suc (remaining iter.start)) (remaining iter.pos) iter

-- The address of `fixed_count_size`, which is not on the heap: past all 64-bit addresses.
abbrev pub fixed_count_at : ℕ
fixed_count_at = 2 ^ 64

-- The local variables of pb_decode_noinit. `fixed_count_field` is the number of fields from its
-- position on, with its `array_size`.
pub record Progress : Type 0 where
  pub iter : Iter
  pub extension_range_start : ℕ
  pub fixed_count_field : Option (ℕ × ℕ)
  pub fields_seen : Words

abbrev pub wrong_count : Option (ℕ × ℕ) → Memory → Bool
wrong_count none mem = false
wrong_count (some (position, array_size)) mem = not (load mem fixed_count_at 4 == array_size)

abbrev pub is_same : Option (ℕ × ℕ) → ℕ → Bool
is_same none position = false
is_same (some (other, array_size)) position = other == position

abbrev pub array_size_at : Fields → ℕ
array_size_at last = 0
array_size_at (field info ptr rest) = info.array_size

-- A repeated field without a counter in the struct.
abbrev pub is_fixed_count : Iter → Bool
is_fixed_count iter = is_repeated (htype_at iter.pos) && (iter.size_at == iter.data_at)

abbrev pub use_fixed_count : Progress → Progress
use_fixed_count pr = record pr { iter = record pr.iter { size_at = fixed_count_at } }

-- The counter for a repeated field of fixed count; `k` is what follows.
abbrev pub count_fixed : Progress → (Progress → Step) → Step
count_fixed pr k =
    if not (is_fixed_count pr.iter)
    then k pr
    else if is_same pr.fixed_count_field (remaining pr.iter.pos)
    then k (use_fixed_count pr)
    else looking λ mem.
      if wrong_count pr.fixed_count_field mem
      then fail wrong_fixed_count
      else writing (put fixed_count_at 4 0)
        >> k (
            use_fixed_count (record pr {
              fixed_count_field = some (remaining pr.iter.pos, array_size_at pr.iter.pos);
            }))

-- The checks at the end of the message.
unfoldable pub required_count : Iter → ℕ
unfolding seek_end
required_count iter =
    at_most max_required_fields (counted_last (seek_end (remaining iter.pos) iter))

unfoldable pub check_required : Progress → Step
unfolding required_count all_seen
check_required pr =
    if all_seen pr.fields_seen (required_count pr.iter)
    then succeed
    else fail missing_required_field

unfoldable pub finish_message : Progress → Step
unfolding check_required
finish_message pr = looking λ mem.
    if wrong_count pr.fixed_count_field mem then fail wrong_fixed_count else check_required pr
