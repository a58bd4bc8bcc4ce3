-- ===== src/Nanopb/Ends.antt =====
-- What it means that a step of the message decoder of Kasei/Pods/nanopb/pb_decode.c comes to an end,
-- with a lemma for each way to build a step.
pub mod Item
pub mod Field
pub mod Callback
pub mod UpTo
pub mod Whole
use kaseiapp.Base.{ℕ, ◌+◌, ◌-◌, ◌≤◌, arith, Bool, true, false, Option, none, some, if◌then◌else◌}
use kaseiapp.Base.Memory.{Memory}
use kaseiapp.Nanopb.Pb.{FieldInfo, Message}
use kaseiapp.Nanopb.Istream.{Istream, Reader}
use kaseiapp.Nanopb.Istream.Takes.{Took, Takes}
use kaseiapp.Nanopb.Store.{
  Store, Status, good, bad, hangs, Result, Step, succeed, fail, after, ◌>>◌, after_read, reading,
  writing, looking, User,
}

abbrev pub Ended : ℕ → ℕ → Result → Type 0
Ended least n (good, t, st) = t.bytes_left ≤ n - least
Ended least n (bad, t, st) = t.bytes_left ≤ n
Ended least n (hangs, t, st) = ⊥

pub record Ends (least : ℕ) (step : Step) : Type 0 where
  pub at : (s : Istream) (st : Store) → Ended least s.bytes_left (step s st)

pub succeed-Ends : Ends 0 succeed
succeed-Ends = record { at = λ s st. omega arith }

pub fail-Ends : (least : ℕ) (msg : Message) → Ends least (fail msg)
fail-Ends least msg = record { at = λ s st. omega arith }

pub writing-Ends : (change : Memory → Memory) → Ends 0 (writing change)
writing-Ends change = record { at = λ s st. omega arith }

pub looking-Ends :
    {least : ℕ} (k : Memory → Step) → ((mem : Memory) → Ends least (k mem)) → Ends least (looking k)
looking-Ends k hk = record { at = λ s st. (hk st.mem).at s st }

pub if-Ends :
    {least : ℕ} (b : Bool) {f g : Step}
    → Ends least f
    → Ends least g
    → Ends least (if b then f else g)
if-Ends true hf hg = hf
if-Ends false hf hg = hg

pub fewer-Ended :
    (least fewer n : ℕ) (r : Result) → fewer ≤ least → Ended least n r → Ended fewer n r
fewer-Ended least fewer n (good, t, st) le h = omega arith
fewer-Ended least fewer n (bad, t, st) le h = h
fewer-Ended least fewer n (hangs, t, st) le h = h

pub fewer-Ends : {least : ℕ} (fewer : ℕ) {f : Step} → fewer ≤ least → Ends least f → Ends fewer f
fewer-Ends {least} fewer {f} le hf = record {
  at = λ s st. fewer-Ended least fewer s.bytes_left (f s st) le (hf.at s st);
}

-- What comes after `t`, which has less than there was.
pub later-Ended :
    (least more n : ℕ) (t : Istream) (r : Result)
    → t.bytes_left ≤ n - least
    → Ended more t.bytes_left r
    → Ended (least + more) n r
later-Ended least more n t (good, u, st) h h' = omega arith
later-Ended least more n t (bad, u, st) h h' = omega arith
later-Ended least more n t (hangs, u, st) h h' = h'

pub after-Ended :
    (least more n : ℕ) (r : Result) (g : Step)
    → Ended least n r
    → ((t : Istream) (st : Store) → t.bytes_left ≤ n - least → Ended more t.bytes_left (g t st))
    → Ended (least + more) n (after r g)
after-Ended least more n (good, t, st) g h hg = later-Ended least more n t (g t st) h (hg t st h)
after-Ended least more n (bad, t, st) g h hg = h
after-Ended least more n (hangs, t, st) g h hg = h

pub >>-Ends :
    {least more : ℕ} (f g : Step) → Ends least f → Ends more g → Ends (least + more) (f >> g)
>>-Ends {least} {more} f g hf hg = record {
  at = λ s st. after-Ended least more s.bytes_left (f s st) g (hf.at s st) (λ t st' h. hg.at t st');
}

pub after_read-Ended :
    {A : Type 0} (least more n : ℕ) (r : Option A × Istream) (k : A → Step) (st : Store)
    → Took least n r
    → ((a : A) → Ends more (k a))
    → Ended (least + more) n (after_read r k st)
after_read-Ended least more n (some a, t) k st h hk =
    later-Ended least more n t (k a t st) h ((hk a).at t st)
after_read-Ended least more n (none, t) k st h hk = h

pub reading-Ends :
    {A : Type 0} {least more : ℕ} (read : Reader A) (k : A → Step)
    → Takes least read
    → ((a : A) → Ends more (k a))
    → Ends (least + more) (reading read k)
reading-Ends {least = least} {more} read k hread hk = record {
  at = λ s st. after_read-Ended least more s.bytes_left (read s) k st (hread.at s) hk;
}

-- The user's functions come to an end, and a callback that succeeds takes a byte, if there is one.
pub record UserEnds (user : User) : Type 0 where
  pub callbacks : (f : ℕ) (info : FieldInfo) (arg : ℕ) → Ends 1 (user.callbacks f info arg)
  pub extension_decoders :
      (f arg tag wire_type : ℕ) → Ends 0 (user.extension_decoders f arg tag wire_type)
