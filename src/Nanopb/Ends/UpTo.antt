-- ===== src/Nanopb/Ends/UpTo.antt =====
-- The end of steps on streams of a bounded length, by which the loop of pb_decode_noinit of
-- Kasei/Pods/nanopb/pb_decode.c is bounded, and its count of a field of fixed size.
use kaseiapp.Base.{ℕ, ◌≤◌, arith, Bool, true, false, not, Option, none, some}
use kaseiapp.Base.{if◌then◌else◌}
use kaseiapp.Base.Memory.{Memory}
use kaseiapp.Nanopb.Pb.{wrong_fixed_count}
use kaseiapp.Nanopb.Istream.{Istream, Reader}
use kaseiapp.Nanopb.Istream.Takes.{Took, Takes}
use kaseiapp.Nanopb.Fields.{remaining}
use kaseiapp.Nanopb.Store.{Store, Step, ◌>>◌, after_read, reading, looking, put}
use kaseiapp.Nanopb.Progress.{
  Progress, fixed_count_at, wrong_count, is_same, is_fixed_count, count_fixed,
}
use kaseiapp.Nanopb.Ends.{Ended, Ends, fail-Ends, writing-Ends, later-Ended, after-Ended}

-- The step ends on streams of at most `bound` bytes.
pub record EndsUpTo (bound : ℕ) (step : Step) : Type 0 where
  pub at : (s : Istream) (st : Store) → s.bytes_left ≤ bound → Ended 0 s.bytes_left (step s st)

module _ {bound : ℕ} where
  pub from-Ends : {step : Step} → Ends 0 step → EndsUpTo bound step
  from-Ends h = record { at = λ s st le. h.at s st }

  pub looking-EndsUpTo :
      (k : Memory → Step) → ((mem : Memory) → EndsUpTo bound (k mem)) → EndsUpTo bound (looking k)
  looking-EndsUpTo k hk = record { at = λ s st le. (hk st.mem).at s st le }

  pub if-EndsUpTo :
      (b : Bool) {f g : Step}
      → EndsUpTo bound f
      → EndsUpTo bound g
      → EndsUpTo bound (if b then f else g)
  if-EndsUpTo true hf hg = hf
  if-EndsUpTo false hf hg = hg

  pub >>-EndsUpTo : (f g : Step) → Ends 0 f → EndsUpTo bound g → EndsUpTo bound (f >> g)
  >>-EndsUpTo f g hf hg = record {
    at = λ s st le.
        after-Ended 0 0 s.bytes_left (f s st) g (hf.at s st)
          (λ t st' le'. hg.at t st' (omega arith));
  }

  pub reading-EndsUpTo :
      {A : Type 0} (read : Reader A) (k : A → Step)
      → Takes 0 read
      → ((a : A) → EndsUpTo bound (k a))
      → EndsUpTo bound (reading read k)
  reading-EndsUpTo read k hread hk = record {
    at = λ s st le. by_outcome s.bytes_left (read s) st (hread.at s) le;
  }
    where
      by_outcome :
          (n : ℕ) (r : Option _ × Istream) (st : Store)
          → Took 0 n r
          → n ≤ bound
          → Ended 0 n (after_read r k st)
      by_outcome n (some a, t) st h le =
          later-Ended 0 0 n t (k a t st) h ((hk a).at t st (omega arith))
      by_outcome n (none, t) st h le = h

  -- The counter of a field of fixed count.
  pub count_fixed-EndsUpTo :
      (pr : Progress) (k : Progress → Step)
      → ((pr' : Progress) → EndsUpTo bound (k pr'))
      → EndsUpTo bound (count_fixed pr k)
  count_fixed-EndsUpTo pr k hk = if-EndsUpTo (not (is_fixed_count pr.iter)) (hk pr) (
      if-EndsUpTo (is_same pr.fixed_count_field (remaining pr.iter.pos)) (hk _) (
        looking-EndsUpTo _ λ mem.
          if-EndsUpTo (wrong_count pr.fixed_count_field mem)
            (from-Ends (fail-Ends 0 wrong_fixed_count))
            (>>-EndsUpTo _ _ (writing-Ends (put fixed_count_at 4 0)) (hk _))))
