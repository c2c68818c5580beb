-- ===== src/Headers/Value/Loops.antt =====
-- A loop over `next` as a loop over the list of the bytes that it returns.
use rust_http.Base.{
  ℕ, zero, suc, ◌<◌, ◌≡◌, ◌≢◌, refl, sym, ap, subst, ◌∙◌, Bool, true, false, none, some, [], ◌∷◌,
  ◌⊎◌, inl, inr, length, Bytes, Run, returns, arith,
}
use rust_http.Headers.Value.{
  HeaderValueByteIterator, next, put_back, Turn, again, again_back, leave, leave_back, each_byte,
}
use rust_http.Headers.Value.View.{
  value, StartsAt, IsSteady, next-Next, value_finished, put_back-value,
}

unfoldable pub each_in : {S A : Type 0} → (S → ℕ → Turn S A) → (S → A) → S → Bytes → A × Bytes
each_in body at_end s [] = (at_end s, [])
each_in body at_end s (b ∷ bs) = elim (body s b) [
  | again s' ↦ each_in body at_end s' bs
  | again_back s' ↦ (at_end s', b ∷ bs)
  | leave a ↦ (a, bs)
  | leave_back a ↦ (a, b ∷ bs)
]

-- `run` returns `r.0`, and the iterator then has the value `r.1` before it; `rest` is what the
-- whole header value leaves in the reader.
pub record Returns {A : Type 0} (run : Run (A × HeaderValueByteIterator)) (r : A × Bytes)
    (rest : Bytes) : Type 0 where
  pub after : HeaderValueByteIterator
  pub returned : run ≡ returns (r.0, after)
  pub left : value after ≡ (r.1, rest)
  pub steady : IsSteady after

pub IsSteady-started : (it : HeaderValueByteIterator) → it.at_start ≡ false → IsSteady it
IsSteady-started it e = subst (λ a. StartsAt a (value it).0) (sym e) tt

pub IsSteady-nil : (it : HeaderValueByteIterator) (l : Bytes) → value it ≡ ([], l) → IsSteady it
IsSteady-nil it l e = subst (λ v. StartsAt it.at_start v) (sym (ap (λ p. p.0) e)) (go it.at_start)
  where
    go : (a : Bool) → StartsAt a []
    go true = tt
    go false = tt

StartsAt-head : (a : Bool) (b : ℕ) (l : Bytes) → StartsAt a (b ∷ l) → StartsAt a (b ∷ [])
StartsAt-head true b l h = h
StartsAt-head false b l h = tt

Turn-cases :
    {S A : Type 0} (t : Turn S A)
    → ((s : S) × (t ≡ again s))
      ⊎ ((s : S) × (t ≡ again_back s))
      ⊎ ((a : A) × (t ≡ leave a))
      ⊎ ((a : A) × (t ≡ leave_back a))
Turn-cases (again s) = inl (s, refl)
Turn-cases (again_back s) = inr (inl (s, refl))
Turn-cases (leave a) = inr (inr (inl (a, refl)))
Turn-cases (leave_back a) = inr (inr (inr (a, refl)))

-- `next` on a value that starts with `b`.
pub next_cons :
    (it : HeaderValueByteIterator) (b : ℕ) (v rest : Bytes)
    → value it ≡ (b ∷ v, rest)
    → IsSteady it
    → (it' : HeaderValueByteIterator) × (next it ≡ (some b, it'))
      × (value it' ≡ (v, rest))
      × (it'.at_start ≡ false)
      × ((it'' : HeaderValueByteIterator) × (put_back b it' ≡ returns it'')
          × (value it'' ≡ (b ∷ v, rest))
          × (it''.at_start ≡ false))
next_cons it b v rest e steady = elim (next-Next it) [
  | inl (it', n) ↦ cc (n.seen_eq, e)
  | inr (c, it', y) ↦
      let same : c ≡ b = cc (y.seen_eq, e) in
      let left : value it' ≡ (v, rest) = ground (arith, y.seen_eq, e) in
      let starts : StartsAt it.at_start (c ∷ []) = StartsAt-head it.at_start c v (
        subst (λ l. StartsAt it.at_start l) (ap (λ p. p.0) e ∙ ap (λ x. x ∷ v) (sym same))
          steady) in
      let started : it'.at_start ≡ false = y.started starts in
      let (it'', back, value_eq, started') =
        put_back-value it' c y.no_byte y.is_normal y.ne_cr y.ne_lf started in
      (
        it',
        y.found_eq ∙ ap (λ x. (some x, it')) same,
        left,
        started,
        (
          it'',
          ap (λ x. put_back x it') (sym same) ∙ back,
          value_eq ∙ ground (arith, left, same),
          started',
        ),
      )
]

pub next_nil :
    (it : HeaderValueByteIterator) (rest : Bytes)
    → value it ≡ ([], rest)
    → (it' : HeaderValueByteIterator) × (next it ≡ (none, it')) × (value it' ≡ ([], rest))
next_nil it rest e = elim (next-Next it) [
  | inl (it', n) ↦
      (it', n.found_eq, value_finished it' n.is_finished ∙ ground (arith, n.seen_eq, e))
  | inr (c, it', y) ↦ cc (y.seen_eq, e)
]

-- The loop, on a steady iterator and with more fuel than the value has bytes, computes as over the
-- list. Its body must not put a byte back and go on.
pub each_byte-Returns :
    {S A : Type 0} (fuel : ℕ) (body : S → ℕ → Turn S A) (at_end : S → A) (s : S)
    (it : HeaderValueByteIterator) (v rest : Bytes)
    → ((t t' : S) (b : ℕ) → body t b ≢ again_back t')
    → value it ≡ (v, rest)
    → IsSteady it
    → length v < fuel
    → Returns (each_byte fuel body at_end s it) (each_in body at_end s v) rest
unfolding each_byte each_in
each_byte-Returns zero body at_end s it v rest moves e steady room = absurd (omega arith)
each_byte-Returns (suc fuel) body at_end s it [] rest moves e steady room =
    let (it', found, left) = next_nil it rest e in
    record {
      after = it';
      returned = ground (arith, found);
      left = left;
      steady = IsSteady-nil it' rest left;
    }
each_byte-Returns (suc fuel) body at_end s it (b ∷ v) rest moves e steady room =
    let (it', found, left, started, (it'', back, left', started')) =
      next_cons it b v rest e steady in
    elim (Turn-cases (body s b)) [
      | inl (s', t) ↦
          let r =
            each_byte-Returns fuel body at_end s' it' v rest moves left
              (IsSteady-started it' started) (omega arith) in
          record {
            after = r.after;
            returned = ground (arith, found, t, r.returned);
            left = rw (t, each_in) r.left;
            steady = r.steady;
          }
      | inr (inl (s', t)) ↦ absurd (moves s s' b t)
      | inr (inr (inl (a, t))) ↦ record {
        after = it';
        returned = ground (arith, found, t);
        left = rw (t, each_in) left;
        steady = IsSteady-started it' started;
      }
      | inr (inr (inr (a, t))) ↦ record {
        after = it'';
        returned = ground (arith, found, t, back);
        left = rw (t, each_in) left';
        steady = IsSteady-started it'' started';
      }
    ]
