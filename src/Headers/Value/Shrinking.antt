-- ===== src/Headers/Value/Shrinking.antt =====
-- No reader of the iterator makes the stream longer.
use rust_http.Base.{
  ℕ, zero, suc, ◌≤◌, ◌≡◌, refl, sym, ap, subst, Bool, true, false, Option, none, some, [], ◌∷◌,
  length, Bytes, Run, returns, fails, runs_out, and_then, if◌then◌else◌, arith,
}
use rust_http.Headers.Value.{
  HeaderValueByteIterator, HeaderValueByteIteratorState, normal, got_lf, finished, Action, yield,
  skip, stop, on_byte, next_from, next_in, next, kept, pending, put_back, put_back_in, Turn, again,
  again_back, leave, leave_back, each_byte,
}
use rust_http.Headers.Readers.{Reading, ◌>>=◌, pure, read_next}

-- The iterator that a run returns has at most `n` bytes before it.
abbrev pub IsWithin : {A : Type 0} → ℕ → Run (A × HeaderValueByteIterator) → Type 0
IsWithin n (returns p) = length (pending p.1) ≤ n
IsWithin n fails = Unit
IsWithin n runs_out = Unit

pub record IsShrinking {A : Type 0} (m : Reading A) : Type 0 where
  pub within : (n : ℕ) (it : HeaderValueByteIterator) → length (pending it) ≤ n → IsWithin n (m it)

-- After `next`: a byte that is returned is gone, and none is kept.
abbrev NextIsWithin : ℕ → Option ℕ × HeaderValueByteIterator → Type 0
NextIsWithin n (none, it) = length (pending it) ≤ n
NextIsWithin n (some b, it) = (suc (length (pending it)) ≤ n) × (it.next_byte ≡ none)

action_within :
    (x : Action) (n : ℕ) (b : ℕ) (bs : Bytes) (a : Bool)
    → suc (length bs) ≤ n
    → ((s : HeaderValueByteIteratorState) → NextIsWithin n (next_from a s bs))
    → NextIsWithin n (elim x [
      | yield start ↦
          (some b, record { reader = bs; next_byte = none; at_start = start; state = normal })
      | skip state' ↦ next_from a state' bs
      | stop ↦ (none, record { reader = bs; next_byte = some b; at_start = a; state = finished })
    ])
action_within (yield start) n b bs a h go = (h, refl)
action_within (skip s) n b bs a h go = go s
action_within stop n b bs a h go = h

next_from_within :
    (n : ℕ) (a : Bool) (s : HeaderValueByteIteratorState) (l : Bytes)
    → length l ≤ n
    → NextIsWithin n (next_from a s l)
unfolding next_from
next_from_within n a s [] h = omega arith
next_from_within n a s (b ∷ bs) h =
    action_within (on_byte a s b) n b bs a (omega arith)
      (λ s'. next_from_within n a s' bs (omega arith))

next_in_within :
    (s : HeaderValueByteIteratorState) (n : ℕ) (it : HeaderValueByteIterator)
    → length (pending it) ≤ n
    → NextIsWithin n (next_in s it)
unfolding next_in
next_in_within finished n it h = h
next_in_within normal n it h = next_from_within n it.at_start normal (pending it) h
next_in_within got_lf n it h = next_from_within n it.at_start got_lf (pending it) h

next_within :
    (n : ℕ) (it : HeaderValueByteIterator) → length (pending it) ≤ n → NextIsWithin n (next it)
unfolding next
next_within n it h = next_in_within it.state n it h

pub put_back-none :
    (b : ℕ) (it : HeaderValueByteIterator)
    → it.next_byte ≡ none
    → put_back b it ≡ returns (record it { next_byte = some b })
unfolding put_back put_back_in
put_back-none b it e = ap (λ o. put_back_in o b it) e

pub pending-none : (it : HeaderValueByteIterator) → it.next_byte ≡ none → pending it ≡ it.reader
pending-none it e = ap (λ o. kept o it.reader) e

-- Going on with a byte put back that was just returned.
back_within :
    {A : Type 0} (n b : ℕ) (it : HeaderValueByteIterator)
    (go_on : HeaderValueByteIterator → Run (A × HeaderValueByteIterator))
    → suc (length (pending it)) ≤ n
    → it.next_byte ≡ none
    → ((it' : HeaderValueByteIterator) → length (pending it') ≤ n → IsWithin n (go_on it'))
    → IsWithin n (and_then (put_back b it) go_on)
back_within n b it go_on h e go =
    subst (λ r. IsWithin n (and_then r go_on)) (sym (put_back-none b it e))
      (go (record it { next_byte = some b })
        (subst (λ l. suc (length l) ≤ n) (pending-none it e) h))

module _ {S A : Type 0} (body : S → ℕ → Turn S A) (at_end : S → A) where
  turn_within :
      (fuel n b : ℕ) (t : Turn S A) (it : HeaderValueByteIterator)
      → suc (length (pending it)) ≤ n
      → it.next_byte ≡ none
      → ((s : S) → IsShrinking (each_byte fuel body at_end s))
      → IsWithin n (elim t [
        | again s' ↦ each_byte fuel body at_end s' it
        | again_back s' ↦ and_then (put_back b it) (λ it''. each_byte fuel body at_end s' it'')
        | leave a ↦ returns (a, it)
        | leave_back a ↦ and_then (put_back b it) (λ it''. returns (a, it''))
      ])
  turn_within fuel n b (again s) it h e go = (go s).within n it (omega arith)
  turn_within fuel n b (again_back s) it h e go =
      back_within n b it (each_byte fuel body at_end s) h e (λ it' k. (go s).within n it' k)
  turn_within fuel n b (leave a) it h e go = omega arith
  turn_within fuel n b (leave_back a) it h e go =
      back_within n b it (λ it'. returns (a, it')) h e (λ it' k. k)

  each_byte_within :
      (fuel : ℕ) (s : S) (n : ℕ) (it : HeaderValueByteIterator)
      → length (pending it) ≤ n
      → IsWithin n (each_byte fuel body at_end s it)
  unfolding each_byte
  each_byte_within zero s n it h = tt
  each_byte_within (suc fuel) s n it h =
      found (next it) (next_within n it h) (λ t. record { within = each_byte_within fuel t })
    where
      found :
          (p : Option ℕ × HeaderValueByteIterator)
          → NextIsWithin n p
          → ((s : S) → IsShrinking (each_byte fuel body at_end s))
          → IsWithin n (elim p.0 [
            | none ↦ returns (at_end s, p.1)
            | some b ↦ elim (body s b) [
              | again s' ↦ each_byte fuel body at_end s' p.1
              | again_back s' ↦
                  and_then (put_back b p.1) (λ it''. each_byte fuel body at_end s' it'')
              | leave a ↦ returns (a, p.1)
              | leave_back a ↦ and_then (put_back b p.1) (λ it''. returns (a, it''))
            ]
          ])
      found (none, it') k go = k
      found (some b, it') (k, e) go = turn_within fuel n b (body s b) it' k e go

  pub each_byte-IsShrinking : (fuel : ℕ) (s : S) → IsShrinking (each_byte fuel body at_end s)
  each_byte-IsShrinking fuel s = record { within = each_byte_within fuel s }

run_within :
    {A B : Type 0} (n : ℕ) (r : Run (A × HeaderValueByteIterator)) (f : A → Reading B)
    → IsWithin n r
    → ((a : A) → IsShrinking (f a))
    → IsWithin n (elim r [ returns p ↦ f p.0 p.1 | fails ↦ fails | runs_out ↦ runs_out ])
run_within n (returns p) f h g = (g p.0).within n p.1 h
run_within n fails f h g = tt
run_within n runs_out f h g = tt

pub bind-IsShrinking :
    {A B : Type 0} (m : Reading A) (f : A → Reading B)
    → IsShrinking m
    → ((a : A) → IsShrinking (f a))
    → IsShrinking (m >>= f)
bind-IsShrinking m f h g = record { within = λ n it k. run_within n (m it) f (h.within n it k) g }

pub pure-IsShrinking : {A : Type 0} (a : A) → IsShrinking (pure a)
pure-IsShrinking a = record { within = λ n it k. k }

pub if-IsShrinking :
    {A : Type 0} (b : Bool) (m m' : Reading A)
    → IsShrinking m
    → IsShrinking m'
    → IsShrinking (if b then m else m')
if-IsShrinking true m m' h h' = h
if-IsShrinking false m m' h h' = h'

-- `next` and what is done with its byte: the byte can be kept again.
pub next-IsShrinking :
    {A : Type 0} (f : Option ℕ → Reading A)
    → IsShrinking (f none)
    → ((b n : ℕ) (it : HeaderValueByteIterator)
        → suc (length (pending it)) ≤ n
        → it.next_byte ≡ none
        → IsWithin n (f (some b) it))
    → IsShrinking (read_next >>= f)
next-IsShrinking f h g = record { within = λ n it k. go n (next it) (next_within n it k) }
  where
    go :
        (n : ℕ) (p : Option ℕ × HeaderValueByteIterator) → NextIsWithin n p → IsWithin n (f p.0 p.1)
    go n (none, it') l = h.within n it' l
    go n (some b, it') (l, e) = g b n it' l e

-- Where it is not kept.
pub after_next-IsShrinking :
    {A : Type 0} (f : Option ℕ → Reading A)
    → ((o : Option ℕ) → IsShrinking (f o))
    → IsShrinking (read_next >>= f)
after_next-IsShrinking f h =
    next-IsShrinking f (h none) (λ b n it l e. (h (some b)).within n it (omega arith))

pub Option-IsShrinking :
    {A B : Type 0} (m : Reading B) (f : A → Reading B)
    → IsShrinking m
    → ((a : A) → IsShrinking (f a))
    → (o : Option A) → IsShrinking (elim o [ none ↦ m | some a ↦ f a ])
Option-IsShrinking m f h g none = h
Option-IsShrinking m f h g (some a) = g a
