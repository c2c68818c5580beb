-- ===== src/Headers/Value/Wire.antt =====
-- A header value as it stands in the stream, and what the iterator makes of it.
use rust_http.Base.{
  none, some, inl, inr, ℕ, ◌≡◌, ◌≢◌, refl, sym, ap, subst, append_assoc, ◌∙◌, true, false, [], ◌∷◌,
  ◌++◌, All, Bytes, arith,
}
use rust_http.Rfc2616.{cr, lf}
use rust_http.Headers.Value.{
  normal, finished, HeaderValueByteIterator, new, is_blank, on_byte, pending, next_in, next,
}
use rust_http.Headers.Value.View.{
  value, value_from, value_from-plain, value_new, next-Next, StartsAt, IsSteady,
}

-- The bytes `w` of the stream, up to the line's end, are the bytes `v` of the value: a CR is
-- dropped, and a line feed is dropped before white space that goes on with the value on the next
-- line.
pub data Folded : Bytes → Bytes → Type 0 where
  nothing : Folded [] []
  byte : {b : ℕ} {w v : Bytes} → b ≢ cr → b ≢ lf → Folded w v → Folded (b ∷ w) (b ∷ v)
  stray_cr : {w v : Bytes} → Folded w v → Folded (cr ∷ w) v
  fold : {b : ℕ} {w v : Bytes} → is_blank b ≡ true → Folded w v → Folded (lf ∷ b ∷ w) (b ∷ v)

abbrev pub IsBlank : ℕ → Type 0
IsBlank b = is_blank b ≡ true

value_from-Folded :
    {w v : Bytes} (c : ℕ) (rest : Bytes)
    → is_blank c ≡ false
    → Folded w v
    → value_from false normal (w ++ lf ∷ c ∷ rest) ≡ (v, c ∷ rest)
unfolding value_from on_byte
value_from-Folded c rest h nothing = ground arith
value_from-Folded c rest h (byte {b} {w} {v} k l f) =
    value_from-plain b (w ++ lf ∷ c ∷ rest) k l
    ∙ ap (λ p. (b ∷ p.0, p.1)) (value_from-Folded c rest h f)
value_from-Folded c rest h (stray_cr f) = value_from-Folded c rest h f
value_from-Folded c rest h (fold {b} {w} {v} k f) =
    rw (k, value_from) (ap (λ p. (b ∷ p.0, p.1)) (value_from-Folded c rest h f))

value_from_blanks :
    (blanks l : Bytes)
    → All IsBlank blanks
    → value_from true normal (blanks ++ l) ≡ value_from true normal l
unfolding value_from on_byte
value_from_blanks [] l h = refl
value_from_blanks (b ∷ bs) l (hb, h) = rw (hb, value_from) (value_from_blanks bs l h)

value_from_first :
    (b : ℕ) (l : Bytes)
    → b ≢ cr
    → b ≢ lf
    → is_blank b ≡ false
    → value_from true normal (b ∷ l)
      ≡ (b ∷ (value_from false normal l).0, (value_from false normal l).1)
unfolding value_from on_byte
value_from_first b l h k n = ground arith

pub value-line :
    {w v : Bytes} (blanks : Bytes) (first c : ℕ) (rest : Bytes)
    → All IsBlank blanks
    → first ≢ cr
    → first ≢ lf
    → is_blank first ≡ false
    → Folded w v
    → is_blank c ≡ false
    → value (new (blanks ++ first ∷ (w ++ lf ∷ c ∷ rest))) ≡ (first ∷ v, c ∷ rest)
value-line {w} blanks first c rest hb h k n f hc =
    value_new (blanks ++ first ∷ (w ++ lf ∷ c ∷ rest))
    ∙ value_from_blanks blanks (first ∷ (w ++ lf ∷ c ∷ rest)) hb
    ∙ value_from_first first (w ++ lf ∷ c ∷ rest) h k n
    ∙ ap (λ p. (first ∷ p.0, p.1)) (value_from-Folded c rest hc f)

-- Calls of `next`, one after the other, return the bytes of a list and then `None`, which is what
-- any later call returns too.
pub data Returned : HeaderValueByteIterator → Bytes → HeaderValueByteIterator → Type 0 where
  at_end :
      {it it' : HeaderValueByteIterator}
      → next it ≡ (none, it')
      → next it' ≡ (none, it')
      → Returned it [] it'
  one_more :
      {it it1 it' : HeaderValueByteIterator} {b : ℕ} {v : Bytes}
      → next it ≡ (some b, it1)
      → Returned it1 v it'
      → Returned it (b ∷ v) it'

next_finished : (it : HeaderValueByteIterator) → it.state ≡ finished → next it ≡ (none, it)
unfolding next next_in
next_finished it e = ap (λ s. next_in s it) e

value-Returned :
    (it : HeaderValueByteIterator) (v rest : Bytes)
    → value it ≡ (v, rest)
    → (it' : HeaderValueByteIterator) × Returned it v it' × (pending it' ≡ rest)
value-Returned it [] rest e = elim (next-Next it) [
  | inl (it', d) ↦
      (it', at_end d.found_eq (next_finished it' d.is_finished), ap (λ p. p.1) (sym d.seen_eq ∙ e))
  | inr (b, it', y) ↦ absurd (cc (y.seen_eq, e))
]
value-Returned it (b ∷ v) rest e = elim (next-Next it) [
  | inl (it', d) ↦ absurd (cc (d.seen_eq, e))
  | inr (c, it1, y) ↦
      let same = sym y.seen_eq ∙ e in
      let head : c ≡ b = ap (λ p. elim p.0 [ [] ↦ c | x ∷ xs ↦ x ]) same in
      let tail : value it1 ≡ (v, rest) = ap (λ p. (elim p.0 [ [] ↦ [] | x ∷ xs ↦ xs ], p.1)) same in
      let (it', more, left) = value-Returned it1 v rest tail in
      (it', one_more (y.found_eq ∙ ap (λ x. (some x, it1)) head) more, left)
]

-- On a new iterator and a line `blanks first w LF c …`, where `blanks` is white space, `first` is
-- neither that nor CR nor LF, `w` folds to `v` and `c` is no white space: the calls of `next`
-- return `first` and the bytes of `v`, then `None` for ever, and `c` and what stands behind it is
-- left.
pub next-Folded :
    {w v : Bytes} (blanks : Bytes) (first c : ℕ) (rest : Bytes)
    → All IsBlank blanks
    → first ≢ cr
    → first ≢ lf
    → is_blank first ≡ false
    → Folded w v
    → is_blank c ≡ false
    → (it' : HeaderValueByteIterator) × Returned
        (new (blanks ++ first ∷ (w ++ lf ∷ c ∷ rest)))
        (first ∷ v)
        it'
      × (pending it' ≡ c ∷ rest)
next-Folded {w} {v} blanks first c rest hb h k n f hc =
    value-Returned (new (blanks ++ first ∷ (w ++ lf ∷ c ∷ rest))) (first ∷ v) (c ∷ rest)
      (value-line blanks first c rest hb h k n f hc)

abbrev pub IsClean : ℕ → Type 0
IsClean b = (b ≢ cr) × (b ≢ lf)

-- A text with no CR or LF, ended by CR LF.
pub Folded-IsClean : (v : Bytes) → All IsClean v → Folded (v ++ cr ∷ []) v
Folded-IsClean [] h = stray_cr nothing
Folded-IsClean (b ∷ v) ((k, l), h) = byte k l (Folded-IsClean v h)

-- A text with no CR or LF that does not start with white space, ended by CR LF: the iterator
-- returns just that text.
pub value-text :
    (first : ℕ) (t : Bytes) (c : ℕ) (rest : Bytes)
    → is_blank first ≡ false
    → All IsClean (first ∷ t)
    → is_blank c ≡ false
    → value (new ((first ∷ t) ++ cr ∷ lf ∷ c ∷ rest)) ≡ (first ∷ t, c ∷ rest)
value-text first t c rest h ((k, l), clean) hc =
    ap (λ r. value (new (first ∷ r))) (sym (append_assoc t (cr ∷ []) (lf ∷ c ∷ rest)))
    ∙ value-line [] first c rest tt k l h (Folded-IsClean t clean) hc

pub IsSteady-new :
    (l : Bytes) (first : ℕ) (t rest : Bytes)
    → value (new l) ≡ (first ∷ t, rest)
    → is_blank first ≡ false
    → IsSteady (new l)
IsSteady-new l first t rest e h = subst (λ v. StartsAt true v) (sym (ap (λ p. p.0) e)) h
