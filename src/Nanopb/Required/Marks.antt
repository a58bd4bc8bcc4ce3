-- ===== src/Nanopb/Required/Marks.antt =====
-- The check of the required fields of pb_decode_noinit of Kasei/Pods/nanopb/pb_decode.c, against the
-- list of the fields that were marked.
use mathlib.Core.List.{Memᴰ}
use kaseiapp.Base.{ℕ, ◌/◌, ◌%◌, ◌≤◌, ◌<◌, ◌≡◌, sym, ap, ◌∙◌, ◌↔◌, arith, true, List, [], ◌∷◌, All}
use native.Mathlib.Decide.{ℕ_discrete}
use kaseiapp.Base.BitAt.{bit_at-le_one}
use kaseiapp.Nanopb.Required.Seen.{
  seen_bit, none-seen_bit, set_seen-itself, set_seen-other, all_seen-seen_bit, AreU32,
  set_seen-AreU32, all_seen_of_marks,
}
use kaseiapp.Nanopb.Required.{Words, none_seen, word, set_seen, all_seen}

-- The words after the fields of these indices are marked, the last of them first.
abbrev pub marks : List ℕ → Words
marks [] = none_seen
marks (i ∷ indices) = set_seen i (marks indices)

marks-AreU32 : (indices : List ℕ) → AreU32 (marks indices)
marks-AreU32 [] = (omega arith, omega arith)
marks-AreU32 (i ∷ indices) = set_seen-AreU32 i (marks indices) (marks-AreU32 indices)

seen_bit-le_one : (seen : Words) (j : ℕ) → seen_bit seen j ≤ 1
seen_bit-le_one seen j = bit_at-le_one (j % 32) (word seen (j / 32))

module _ (count : ℕ) (le : count ≤ 64) where
  marked_of_Mem :
      (indices : List ℕ) (j : ℕ)
      → All (λ i. i < count) indices
      → j < count
      → Memᴰ j indices
      → seen_bit (marks indices) j ≡ 1
  marked_of_Mem [] j below h m = elim m [ ]
  marked_of_Mem (i ∷ indices) j (lt, below) h (Memᴰ.head e) =
      ap (λ (k : ℕ). seen_bit (marks (i ∷ indices)) k) e ∙ set_seen-itself i (marks indices)
  marked_of_Mem (i ∷ indices) j (lt, below) h (Memᴰ.tail m) = elim (ℕ_discrete i j) [
    | yes e ↦
        ap (λ (k : ℕ). seen_bit (marks (i ∷ indices)) k) (sym e) ∙ set_seen-itself i (marks indices)
    | no ne ↦
        set_seen-other i j (marks indices) (omega arith) (omega arith) ne
        ∙ marked_of_Mem indices j below h m
  ]

  Mem_of_marked :
      (indices : List ℕ) (j : ℕ)
      → All (λ i. i < count) indices
      → j < 64
      → seen_bit (marks indices) j ≡ 1
      → (j < count) × Memᴰ j indices
  Mem_of_marked [] j below h e = absurd (omega (arith, none-seen_bit j))
  Mem_of_marked (i ∷ indices) j (lt, below) h e = elim (ℕ_discrete i j) [
    | yes same ↦ (omega arith, Memᴰ.head (sym same))
    | no ne ↦
        let (less, m) =
          Mem_of_marked indices j below h
            (sym (set_seen-other i j (marks indices) (omega arith) h ne) ∙ e) in
        (less, Memᴰ.tail m)
  ]

  -- The check at the end of pb_decode_noinit, of `count` required fields, 64 at most, after the fields
  -- of some indices below `count` were marked in any order and number, passes if all indices below
  -- `count` are among those, and only then.
  pub all_seen-marks :
      (indices : List ℕ)
      → All (λ i. i < count) indices
      → (all_seen (marks indices) count ≡ true) ↔ ((i : ℕ) → i < count → Memᴰ i indices)
  all_seen-marks indices below = (
    λ e i h.
        (Mem_of_marked indices i below (omega arith)
          (all_seen-seen_bit (marks indices) count i e h)).1,
    λ all.
        all_seen_of_marks (marks indices) count (marks-AreU32 indices) le
          (λ i h. marked_of_Mem indices i below h (all i h))
          (λ i ge h. elim (ℕ_discrete (seen_bit (marks indices) i) 1) [
            | yes e ↦ absurd (omega (arith, (Mem_of_marked indices i below h e).0))
            | no ne ↦ omega (arith, seen_bit-le_one (marks indices) i)
          ]),
  )
