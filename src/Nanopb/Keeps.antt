-- ===== src/Nanopb/Keeps.antt =====
-- What the steps of the message decoder leave alone in memory: the bytes at the addresses of a set.
pub mod Item
pub mod Field
pub mod Layout
pub mod Placed
pub mod Dispatch
pub mod Whole
use kaseiapp.Base.{
  ℕ, zero, suc, ◌+◌, ◌-◌, ◌≤◌, ◌<◌, ◌≡◌, refl, sym, ap, ◌∙◌, arith, Bool, true, false, Option, none,
  some, List,
}
use kaseiapp.Base.{[], ◌∷◌, if◌then◌else◌, length, ◌==◌, ◌⊎◌, inl, inr, replicate}
use kaseiapp.Base.Memory.{Memory, store_bytes, update, bytes_at, length-bytes_at}
use kaseiapp.Nanopb.Pb.{Message}
use kaseiapp.Nanopb.Istream.{Istream, Reader}
use kaseiapp.Nanopb.Write.{fixed_bytes}
use kaseiapp.Nanopb.Write.Scalars.{length-fixed_bytes}
use mathlib.Core.Path.{subst}
use kaseiapp.Nanopb.Store.{
  Store, Status, good, bad, hangs, Result, Step, succeed, fail, after, ◌>>◌, after_read, reading,
  writing, looking, put, clear, copy,
}

-- The addresses outside the `n` bytes from `p` on.
abbrev pub Outside : ℕ → ℕ → ℕ → Type 0
Outside p n a = (a < p) ⊎ (p + n ≤ a)

-- The memory that the step leaves has the same bytes in `kept`, whatever the outcome.
pub record Keeps (kept : ℕ → Type 0) (step : Step) : Type 0 where
  pub at : (s : Istream) (st : Store) (a : ℕ) → kept a → (step s st).2.mem a ≡ st.mem a

module _ {kept : ℕ → Type 0} where
  pub succeed-Keeps : Keeps kept succeed
  succeed-Keeps = record { at = λ s st a k. refl }

  pub fail-Keeps : (msg : Message) → Keeps kept (fail msg)
  fail-Keeps msg = record { at = λ s st a k. refl }

  pub writing-Keeps :
      (change : Memory → Memory)
      → ((mem : Memory) (a : ℕ) → kept a → change mem a ≡ mem a)
      → Keeps kept (writing change)
  writing-Keeps change h = record { at = λ s st a k. h st.mem a k }

  pub looking-Keeps :
      (f : Memory → Step) → ((mem : Memory) → Keeps kept (f mem)) → Keeps kept (looking f)
  looking-Keeps f h = record { at = λ s st a k. (h st.mem).at s st a k }

  pub if-Keeps :
      (b : Bool) (f g : Step)
      → (b ≡ true → Keeps kept f)
      → (b ≡ false → Keeps kept g)
      → Keeps kept (if b then f else g)
  if-Keeps true f g hf hg = hf refl
  if-Keeps false f g hf hg = hg refl

  after-Keeps :
      (r : Result) (g : Step) (a : ℕ) → kept a → Keeps kept g → (after r g).2.mem a ≡ r.2.mem a
  after-Keeps (good, s, st) g a k hg = hg.at s st a k
  after-Keeps (bad, s, st) g a k hg = refl
  after-Keeps (hangs, s, st) g a k hg = refl

  pub >>-Keeps : (f g : Step) → Keeps kept f → Keeps kept g → Keeps kept (f >> g)
  >>-Keeps f g hf hg = record { at = λ s st a k. after-Keeps (f s st) g a k hg ∙ hf.at s st a k }

  pub after_read-Keeps :
      {A : Type 0} (r : Option A × Istream) (f : A → Step) (st : Store) (a : ℕ)
      → kept a
      → ((x : A) → Keeps kept (f x))
      → (after_read r f st).2.mem a ≡ st.mem a
  after_read-Keeps (some x, s) f st a k h = (h x).at s st a k
  after_read-Keeps (none, s) f st a k h = refl

  pub reading-Keeps :
      {A : Type 0} (read : Reader A) (f : A → Step)
      → ((x : A) → Keeps kept (f x))
      → Keeps kept (reading read f)
  reading-Keeps read f h = record { at = λ s st a k. after_read-Keeps (read s) f st a k h }

pub store_bytes-Outside :
    (mem : Memory) (p a : ℕ) (bs : List ℕ)
    → Outside p (length bs) a
    → store_bytes mem p bs a ≡ mem a
unfolding store_bytes update
store_bytes-Outside mem p a [] out = refl
store_bytes-Outside mem p a (b ∷ bs) out =
    ground (arith, store_bytes-Outside (update mem p b) (p + 1) a bs)

pub put-Outside : (p n v : ℕ) (mem : Memory) (a : ℕ) → Outside p n a → put p n v mem a ≡ mem a
unfolding put
put-Outside p n v mem a out =
    store_bytes-Outside mem p a (fixed_bytes n v)
      (subst (λ (k : ℕ). Outside p k a) (sym (length-fixed_bytes n v)) out)

pub length-replicate : (n b : ℕ) → length (replicate n b) ≡ n
length-replicate zero b = refl
length-replicate (suc n) b = ap suc (length-replicate n b)

pub clear-Outside : (p n : ℕ) (mem : Memory) (a : ℕ) → Outside p n a → clear p n mem a ≡ mem a
unfolding clear
clear-Outside p n mem a out =
    store_bytes-Outside mem p a (replicate n 0)
      (subst (λ (k : ℕ). Outside p k a) (sym (length-replicate n 0)) out)

pub copy-Outside :
    (p from n : ℕ) (mem : Memory) (a : ℕ) → Outside p n a → copy p from n mem a ≡ mem a
unfolding copy
copy-Outside p from n mem a out =
    store_bytes-Outside mem p a (bytes_at mem from n)
      (subst (λ (k : ℕ). Outside p k a) (sym (length-bytes_at mem from n)) out)

-- A set of addresses that has none of the `n` bytes from `p` on.
abbrev pub Avoids : (ℕ → Type 0) → ℕ → ℕ → Type 0
Avoids kept p n = (a : ℕ) → kept a → Outside p n a

module _ {kept : ℕ → Type 0} where
  pub put-Keeps : (p n v : ℕ) → Avoids kept p n → Keeps kept (writing (put p n v))
  put-Keeps p n v av = writing-Keeps (put p n v) (λ mem a k. put-Outside p n v mem a (av a k))

  pub clear-Keeps : (p n : ℕ) → Avoids kept p n → Keeps kept (writing (clear p n))
  clear-Keeps p n av = writing-Keeps (clear p n) (λ mem a k. clear-Outside p n mem a (av a k))

  pub store-Keeps :
      (p : ℕ) (bs : List ℕ)
      → Avoids kept p (length bs)
      → Keeps kept (writing (λ mem. store_bytes mem p bs))
  store-Keeps p bs av = writing-Keeps _ (λ mem a k. store_bytes-Outside mem p a bs (av a k))
