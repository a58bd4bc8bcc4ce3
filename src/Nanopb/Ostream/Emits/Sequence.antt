-- ===== src/Nanopb/Ostream/Emits/Sequence.antt =====
-- Emitters in a row: `if (!f(stream)) return false; return g(stream);`
use kaseiapp.Base.{ℕ, ◌+◌, ◌^◌, ◌<◌, ◌≡◌, refl, sym, ap, ◌∙◌, arith, Bool, true, false}
use kaseiapp.Base.{some, IsU64, List, [], ◌++◌, Bool-cases, inl, inr, length, length-append}
use kaseiapp.Base.Memory.{store_bytes, store_bytes-append}
use kaseiapp.Nanopb.Pb.{Message, stream_full}
use kaseiapp.Nanopb.Ostream.{
  Dest, Sink, null, buf_write, custom, Ostream, Writer, done, fail, continue, ◌>>◌, add_size,
}
use kaseiapp.Nanopb.Ostream.Emits.{
  IsPlain, room, fits, push, advance, IsReady, Outcome, Emits, Implements, Wire, emitted, stopped,
  wire_bytes, Behaves, join,
}
use mathlib.Core.Path.{subst}

push-append :
    (c : Sink) (d : Dest) (xs ys : List ℕ)
    → IsPlain c
    → push c (push c d xs) ys ≡ push c d (xs ++ ys)
push-append null d xs ys plain = refl
push-append buf_write d xs ys plain = λ i. record {
  mem = sym (store_bytes-append d.mem d.ptr xs ys) i;
  ptr =
      (let e : d.ptr + length xs + length ys ≡ d.ptr + length (xs ++ ys) =
            omega (arith, length-append {0} xs ys) in
          e)
        i;
}
push-append (custom f) d xs ys plain = absurd plain

room_moved :
    (c : Sink) (w k n m : ℕ)
    → m < 2 ^ 64
    → room c (w + k) m ≡ true
    → room c (add_size w k + n) m ≡ room c (w + (k + n)) m
room_moved null w k n m hm h = refl
room_moved buf_write w k n m hm h = ground arith
room_moved (custom f) w k n m hm h = ground arith

advance-append :
    (s : Ostream) (xs ys : List ℕ)
    → IsPlain s.callback
    → advance (advance s xs) ys ≡ advance s (xs ++ ys)
advance-append s xs ys plain =
    λ i. record s { state = push-append s.callback s.state xs ys plain i; bytes_written = total i }
  where
    total :
        add_size (add_size s.bytes_written (length xs)) (length ys)
        ≡ add_size s.bytes_written (length (xs ++ ys))
    total = omega (arith, length-append {0} xs ys)

fits-advance :
    (s : Ostream) (xs : List ℕ) (n : ℕ)
    → IsReady s
    → fits s (length xs) ≡ true
    → fits (advance s xs) n ≡ fits s (length xs + n)
fits-advance s xs n ready h =
    room_moved s.callback s.bytes_written (length xs) n s.max_size ready.max_fits h

advance-IsReady :
    (s : Ostream) (xs : List ℕ) → IsReady s → fits s (length xs) ≡ true → IsReady (advance s xs)
advance-IsReady s xs ready h = record {
  plain = ready.plain;
  max_fits = ready.max_fits;
  written = omega arith;
  within = fits-advance s xs 0 ready h ∙ ap (fits s) (omega arith) ∙ h;
  no_error = ready.no_error;
}

room_less : (c : Sink) (w k n m : ℕ) → room c (w + k) m ≡ false → room c (w + (k + n)) m ≡ false
room_less null w k n m h = cc
room_less buf_write w k n m h = ground arith
room_less (custom f) w k n m h = ground arith

fits-append :
    (s : Ostream) (xs ys : List ℕ) → fits s (length (xs ++ ys)) ≡ fits s (length xs + length ys)
fits-append s xs ys = ap (fits s) (length-append xs ys)

pub continue-true :
    {f : Writer} (xs : List ℕ) (s : Ostream)
    → Emits f xs
    → IsReady s
    → IsU64 (s.bytes_written + length xs)
    → fits s (length xs) ≡ true
    → f s ≡ (true, advance s xs)
continue-true {f} xs s hf ready small roomy =
    subst (λ (b : Bool). Outcome b s (f s) xs) roomy (hf s ready small)

continue-false :
    {f : Writer} (xs : List ℕ) (s : Ostream)
    → Emits f xs
    → IsReady s
    → IsU64 (s.bytes_written + length xs)
    → fits s (length xs) ≡ false
    → ((f s).0 ≡ false) × ((f s).1.errmsg ≡ some stream_full)
continue-false {f} xs s hf ready small full =
    subst (λ (b : Bool). Outcome b s (f s) xs) full (hf s ready small)

continue_failed : (r : Bool × Ostream) (g : Writer) → r.0 ≡ false → continue r g ≡ (false, r.1)
continue_failed (true, s) g h = cc
continue_failed (false, s) g h = refl

Outcome-advance :
    (b : Bool) (s : Ostream) (r : Bool × Ostream) (xs ys : List ℕ)
    → IsPlain s.callback
    → Outcome b (advance s xs) r ys
    → Outcome b s r (xs ++ ys)
Outcome-advance true s r xs ys plain h = h ∙ ap (λ t. (true, t)) (advance-append s xs ys plain)
Outcome-advance false s r xs ys plain h = h

left_small : (w : ℕ) (xs ys : List ℕ) → IsU64 (w + length (xs ++ ys)) → IsU64 (w + length xs)
left_small w xs ys h = omega (arith, length-append {0} xs ys)

right_small :
    (w : ℕ) (xs ys : List ℕ)
    → IsU64 (w + length (xs ++ ys))
    → IsU64 (add_size w (length xs) + length ys)
right_small w xs ys h = omega (arith, length-append {0} xs ys)

-- What two emitters do in a row is to emit the bytes of both; a failure of either is one of both.
pub >>-Emits : (f g : Writer) (xs ys : List ℕ) → Emits f xs → Emits g ys → Emits (f >> g) (xs ++ ys)
>>-Emits f g xs ys hf hg s ready total = elim (Bool-cases (fits s (length xs))) [
  | inl roomy ↦
      rw
        (
          continue-true xs s hf ready (left_small s.bytes_written xs ys total) roomy,
          fits-append s xs ys,
          ← fits-advance s xs (length ys) ready roomy,
        )
        (Outcome-advance (fits (advance s xs) (length ys)) s (g (advance s xs)) xs ys ready.plain (
          hg (advance s xs) (advance-IsReady s xs ready roomy)
            (right_small s.bytes_written xs ys total)))
  | inr full ↦
      let (failed, message) =
        continue-false xs s hf ready (left_small s.bytes_written xs ys total) full in
      rw
        (
          fits-append s xs ys,
          room_less s.callback s.bytes_written (length xs) (length ys) s.max_size full,
        )
        (rw (continue_failed (f s) g failed) (refl, message))
]

>>-fails :
    (f g : Writer) (xs ys : List ℕ)
    → Emits f xs
    → Implements g (stopped ys)
    → Implements (f >> g) (stopped (xs ++ ys))
>>-fails f g xs ys hf hg s ready total = elim (Bool-cases (fits s (length xs))) [
  | inl roomy ↦ rw (continue-true xs s hf ready (left_small s.bytes_written xs ys total) roomy) (
      hg (advance s xs) (advance-IsReady s xs ready roomy)
        (right_small s.bytes_written xs ys total))
  | inr full ↦ rw (
      continue_failed (f s) g
        (continue-false xs s hf ready (left_small s.bytes_written xs ys total) full).0)
]

pub >>-Implements :
    (f g : Writer) (v w : Wire) → Implements f v → Implements g w → Implements (f >> g) (join v w)
>>-Implements f g (stopped xs) w hf hg =
    λ s ready small. rw (continue_failed (f s) g (hf s ready small))
>>-Implements f g (emitted xs) (stopped ys) hf hg = >>-fails f g xs ys hf hg
>>-Implements f g (emitted xs) (emitted ys) hf hg = >>-Emits f g xs ys hf hg

push-nil : (c : Sink) (d : Dest) → push c d [] ≡ d
unfolding store_bytes
push-nil null d = refl
push-nil buf_write d = λ i. record d { ptr = end i }
  where
    end : d.ptr + 0 ≡ d.ptr
    end = omega arith
push-nil (custom f) d = refl

pub done-Emits : Emits done []
done-Emits s ready small =
    rw ready.within (λ i.
      (true, record s { state = sym (push-nil s.callback s.state) i; bytes_written = total i }))
  where
    total : s.bytes_written ≡ add_size s.bytes_written 0
    total = omega arith

pub fail-Implements : (msg : Message) → Implements (fail msg) (stopped [])
fail-Implements msg s ready small = refl

pub Implements-Behaves :
    (run : Writer) (w : Wire)
    → Implements run w
    → (s : Ostream) → IsReady s
    → IsU64 (s.bytes_written + length (wire_bytes w))
    → Behaves w s (run s)
Implements-Behaves run (emitted bs) h = h
Implements-Behaves run (stopped bs) h = h
