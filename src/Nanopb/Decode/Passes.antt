-- ===== src/Nanopb/Decode/Passes.antt =====
-- One round of the loop of pb_decode_noinit of Kasei/Pods/nanopb/pb_decode.c, by where it goes on.
use kaseiapp.Base.{◌≡◌, refl, Bool, true, false, Option, none, some, if◌then◌else◌}
use kaseiapp.Base.Memory.{Memory}
use kaseiapp.Nanopb.Pb.{Message}
use kaseiapp.Nanopb.Istream.{Istream, Reader}
use kaseiapp.Nanopb.Store.{
  Store, Status, good, bad, hangs, Result, Step, fail, after, ◌>>◌, after_read, reading, looking,
}
use kaseiapp.Nanopb.Progress.{Progress}

-- What is done before a continuation.
abbrev pub Round : Type 0
Round = (Progress → Step) → Step

-- From `s` and `st` the round goes on at `pr`, `t` and `st'`, whatever follows it.
abbrev pub Passes : Round → Istream → Store → Progress → Istream → Store → Type 0
Passes round s st pr t st' = (k : Progress → Step) → round k s st ≡ k pr t st'

pub record Passed (Q : Progress → Type 0) (result : (Progress → Step) → Result) : Type 0 where
  pub pr : Progress
  pub stream : Istream
  pub store : Store
  pub holds : Q pr
  pub passes : (k : Progress → Step) → result k ≡ k pr stream store

-- `true` was returned.
abbrev pub IsGood : Status → Type 0
IsGood good = Unit
IsGood bad = ⊥
IsGood hangs = ⊥

-- Whenever the whole returns true, the round has gone on, at local variables of which `Q` holds.
pub record Through (Q : Progress → Type 0) (round : Round) : Type 0 where
  pub at :
      (k : Progress → Step) (s : Istream) (st : Store)
      → IsGood (round k s st).0
      → Passed Q (λ k'. round k' s st)

module _ {Q : Progress → Type 0} where
  pub here-Through : (pr : Progress) → Q pr → Through Q (λ k. k pr)
  here-Through pr h = record {
    at = λ k s st e. record { pr = pr; stream = s; store = st; holds = h; passes = λ k'. refl };
  }

  pub looking-Through :
      (round : Memory → Round)
      → ((mem : Memory) → Through Q (round mem))
      → Through Q (λ k. looking (λ mem. round mem k))
  looking-Through round h = record { at = λ k s st e. (h st.mem).at k s st e }

  pub at_stream-Through :
      (round : Istream → Round)
      → ((s : Istream) → Through Q (round s))
      → Through Q (λ k s. round s k s)
  at_stream-Through round h = record { at = λ k s st e. (h s).at k s st e }

  pub if-Through :
      (b : Bool) (f g : Round)
      → (b ≡ true → Through Q f)
      → (b ≡ false → Through Q g)
      → Through Q (λ k. if b then f k else g k)
  if-Through true f g h h' = h refl
  if-Through false f g h h' = h' refl

  pub if_at-Through :
      (b : Bool) (f g : Round)
      → Through Q f
      → Through Q g
      → Through Q (λ k s st. if b then f k s st else g k s st)
  if_at-Through true f g h h' = h
  if_at-Through false f g h h' = h'

  pub fail-Through : (msg : Message) → Through Q (λ k. fail msg)
  fail-Through msg = record { at = λ k s st e. absurd e }

  after-Passed :
      (r : Result) (round : Round) (k : Progress → Step)
      → Through Q round
      → IsGood (after r (round k)).0
      → Passed Q (λ k'. after r (round k'))
  after-Passed (good, t, st) round k h e = h.at k t st e
  after-Passed (bad, t, st) round k h e = absurd e
  after-Passed (hangs, t, st) round k h e = absurd e

  pub >>-Through : (f : Step) (round : Round) → Through Q round → Through Q (λ k. f >> round k)
  >>-Through f round h = record { at = λ k s st e. after-Passed (f s st) round k h e }

  read-Passed :
      {A : Type 0} (r : Option A × Istream) (round : A → Round) (k : Progress → Step) (st : Store)
      → ((a : A) → Through Q (round a))
      → IsGood (after_read r (λ a. round a k) st).0
      → Passed Q (λ k'. after_read r (λ a. round a k') st)
  read-Passed (some a, t) round k st h e = (h a).at k t st e
  read-Passed (none, t) round k st h e = absurd e

  pub reading-Through :
      {A : Type 0} (read : Reader A) (round : A → Round)
      → ((a : A) → Through Q (round a))
      → Through Q (λ k. reading read (λ a. round a k))
  reading-Through read round h = record { at = λ k s st e. read-Passed (read s) round k st h e }
