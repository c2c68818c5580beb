-- ===== src/Headers/Value/View.antt =====
-- The iterator as the list of the bytes that it will return, and what it leaves behind.
use rust_http.Base.{
  ℕ, ◌≡◌, ap, ◌∙◌, ◌≢◌, refl, Bool, true, false, Option, none, some, [], ◌∷◌, ◌⊎◌, inl, inr, Bytes,
  returns, arith,
}
use rust_http.Rfc2616.{cr, lf}
use rust_http.Headers.Value.{
  HeaderValueByteIteratorState, normal, got_lf, finished, HeaderValueByteIterator, new, is_blank,
  Action, yield, skip, stop, on_byte, next_from, pending, next_in, next, put_back,
}

-- Not code of the source: what calls of `next` come to, by the rounds of its loop over `on_byte`.
-- These are the bytes that the loop returns one after the other, and those that it has not taken at
-- its end.
unfoldable pub value_from : Bool → HeaderValueByteIteratorState → Bytes → Bytes × Bytes
unfolding on_byte
value_from at_start state [] = ([], [])
value_from at_start state (b ∷ bs) = elim (on_byte at_start state b) [
  | yield start ↦ let (v, rest) = value_from start normal bs in (b ∷ v, rest)
  | skip state' ↦ value_from at_start state' bs
  | stop ↦ ([], b ∷ bs)
]

value_in : HeaderValueByteIteratorState → HeaderValueByteIterator → Bytes × Bytes
value_in finished it = ([], pending it)
value_in normal it = value_from it.at_start normal (pending it)
value_in got_lf it = value_from it.at_start got_lf (pending it)

pub value : HeaderValueByteIterator → Bytes × Bytes
unfolding value_in value_from
value it = value_in it.state it

-- The next byte is no white space while the iterator has returned nothing else yet.
abbrev pub StartsAt : Bool → Bytes → Type 0
StartsAt true (b ∷ _) = is_blank b ≡ false
StartsAt _ _ = Unit

abbrev pub IsSteady : HeaderValueByteIterator → Type 0
IsSteady it = StartsAt it.at_start (value it).0

-- `next`, on the bytes `l` in a state, returned `b`.
pub record Yields (at_start : Bool) (found : Option ℕ × HeaderValueByteIterator)
    (seen : Bytes × Bytes) (b : ℕ) (it' : HeaderValueByteIterator) : Type 0 where
  pub found_eq : found ≡ (some b, it')
  pub seen_eq : seen ≡ (b ∷ (value it').0, (value it').1)
  pub no_byte : it'.next_byte ≡ none
  pub is_normal : it'.state ≡ normal
  pub ne_cr : b ≢ cr
  pub ne_lf : b ≢ lf
  pub started : StartsAt at_start (b ∷ []) → it'.at_start ≡ false

-- `next` ended.
pub record Ends (found : Option ℕ × HeaderValueByteIterator) (seen : Bytes × Bytes)
    (it' : HeaderValueByteIterator) : Type 0 where
  pub found_eq : found ≡ (none, it')
  pub seen_eq : seen ≡ ([], pending it')
  pub is_finished : it'.state ≡ finished

abbrev pub Next : Bool → Option ℕ × HeaderValueByteIterator → Bytes × Bytes → Type 0
Next at_start found seen =
    ((it' : HeaderValueByteIterator) × Ends found seen it')
    ⊎ ((b : ℕ) × (it' : HeaderValueByteIterator) × Yields at_start found seen b it')

Action-cases :
    (x : Action)
    → ((start : Bool) × (x ≡ yield start))
      ⊎ ((s : HeaderValueByteIteratorState) × (x ≡ skip s))
      ⊎ (x ≡ stop)
Action-cases (yield start) = inl (start, refl)
Action-cases (skip s) = inr (inl (s, refl))
Action-cases stop = inr (inr refl)

on_byte-yield :
    (a start : Bool) (s : HeaderValueByteIteratorState) (b : ℕ)
    → on_byte a s b ≡ yield start
    → (b ≢ cr) × (b ≢ lf) × (StartsAt a (b ∷ []) → start ≡ false)
unfolding on_byte
on_byte-yield true start normal b e = ground arith
on_byte-yield false start normal b e = ground arith
on_byte-yield true start got_lf b e = ground arith
on_byte-yield false start got_lf b e = ground arith
on_byte-yield a start finished b e = cc

next_from-Next :
    (a : Bool) (s : HeaderValueByteIteratorState) (l : Bytes)
    → Next a (next_from a s l) (value_from a s l)
unfolding next_from value_from
next_from-Next a s [] = inl (_, record { found_eq = refl; seen_eq = refl; is_finished = refl })
next_from-Next a s (b ∷ bs) = elim (Action-cases (on_byte a s b)) [
  | inl (start, e) ↦ inr (
    b,
    record { reader = bs; next_byte = none; at_start = start; state = normal },
    rw (e, next_from, value_from)
        (record {
          found_eq = refl;
          seen_eq = unfold value in refl;
          no_byte = refl;
          is_normal = refl;
          ne_cr = (on_byte-yield a start s b e).0;
          ne_lf = (on_byte-yield a start s b e).1;
          started = (on_byte-yield a start s b e).2;
        }),
  )
  | inr (inl (s', e)) ↦ rw (e, next_from, value_from) (next_from-Next a s' bs)
  | inr (inr e) ↦ inl (
    record { reader = bs; next_byte = some b; at_start = a; state = finished },
    rw (e, next_from, value_from) (record { found_eq = refl; seen_eq = refl; is_finished = refl }),
  )
]

next_in-Next :
    (s : HeaderValueByteIteratorState) (it : HeaderValueByteIterator)
    → it.state ≡ s
    → Next it.at_start (next_in s it) (value_in s it)
unfolding next_in value_in
next_in-Next finished it e = inl (it, record { found_eq = refl; seen_eq = refl; is_finished = e })
next_in-Next normal it e = next_from-Next it.at_start normal (pending it)
next_in-Next got_lf it e = next_from-Next it.at_start got_lf (pending it)

-- `next` returns the head of the value and leaves its tail, or ends at the value's end.
pub next-Next : (it : HeaderValueByteIterator) → Next it.at_start (next it) (value it)
unfolding next value
next-Next it = next_in-Next it.state it refl

pub value_from-plain :
    (b : ℕ) (r : Bytes)
    → b ≢ cr
    → b ≢ lf
    → value_from false normal (b ∷ r)
      ≡ (b ∷ (value_from false normal r).0, (value_from false normal r).1)
unfolding value_from on_byte
value_from-plain b r h k = ground arith

pub value_finished :
    (it : HeaderValueByteIterator) → it.state ≡ finished → value it ≡ ([], pending it)
unfolding value
value_finished it s = ap (λ t. value_in t it) s

value_live :
    (it : HeaderValueByteIterator)
    → it.state ≡ normal
    → it.at_start ≡ false
    → value it ≡ value_from false normal (pending it)
unfolding value
value_live it s a = ap (λ t. value_in t it) s ∙ ap (λ t. value_from t normal (pending it)) a

-- A byte that was just returned can be put back: the value is as it was before.
pub put_back-value :
    (it' : HeaderValueByteIterator) (b : ℕ)
    → it'.next_byte ≡ none
    → it'.state ≡ normal
    → b ≢ cr
    → b ≢ lf
    → it'.at_start ≡ false
    → (it'' : HeaderValueByteIterator) × (put_back b it' ≡ returns it'')
      × (value it'' ≡ (b ∷ (value it').0, (value it').1))
      × (it''.at_start ≡ false)
unfolding put_back
put_back-value it' b e s h k started =
    (record it' { next_byte = some b }, rw (e, put_back), value_eq, started)
  where
    value_eq : value (record it' { next_byte = some b }) ≡ (b ∷ (value it').0, (value it').1)
    value_eq =
        value_live (record it' { next_byte = some b }) s started
        ∙ value_from-plain b it'.reader h k
        ∙ rw (value_live it' s started, e)

pub value_new : (l : Bytes) → value (new l) ≡ value_from true normal l
unfolding value
value_new l = refl
