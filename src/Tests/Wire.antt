-- ===== src/Tests/Wire.antt =====
-- A stream that holds what arrives and what was sent, and two small buffered streams over it.
use rust_http.Base.{
  ℕ, suc, ◌≤◌, ◌≡◌, ◌≢◌, refl, sym, ap, ap₂, subst, ◌∙◌, Bool, true, false, Option, none, some, [],
  ◌∷◌, ◌++◌, length, take, drop, take-append-drop, length-take, replicate, Bytes, arith,
}
use rust_http.Stream.{Stream, ReadLaws, NeverEmpty, WriteLaws}
use rust_http.Buffer.{BufferedStream}

pub record Wire : Type 0 where
  pub arriving : Bytes
  pub sent_out : Bytes

unfoldable pub read_from : Bytes → Wire → ℕ → Option Bytes × Wire
read_from [] w n = (none, w)
read_from (b ∷ bs) w n = (some (take n (b ∷ bs)), record w { arriving = drop n (b ∷ bs) })

unfoldable pub wire : Stream Wire
unfolding read_from
wire = record {
  read = λ w n. read_from w.arriving w n;
  eof = λ w. (elim w.arriving [ [] ↦ true | _ ∷ _ ↦ false ], w);
  write = λ w buf. record w { sent_out = w.sent_out ++ buf };
  flush = λ w. w;
}

read_from-some :
    (l : Bytes) (w w' : Wire) (n : ℕ) (c : Bytes)
    → read_from l w n ≡ (some c, w')
    → (l ≡ c ++ w'.arriving) × (length c ≤ n)
unfolding read_from
read_from-some [] w w' n c e =
    absurd (subst (λ o. elim o [ none ↦ Unit {0} | some _ ↦ ⊥ ]) (ap (λ p. p.0) e) tt)
read_from-some (b ∷ bs) w w' n c e =
    let taken : take n (b ∷ bs) ≡ c = ap (λ p. elim p.0 [ some x ↦ x | none ↦ [] ]) e in
    let left : drop n (b ∷ bs) ≡ w'.arriving = ap (λ p. p.1.arriving) e in
    (
      sym (take-append-drop n (b ∷ bs)) ∙ ap₂ (λ x y. x ++ y) taken left,
      omega (arith, length-take n (b ∷ bs), ap length taken),
    )

read_from-none :
    (l : Bytes) (w w' : Wire) (n : ℕ) → read_from l w n ≡ (none, w') → (l ≡ []) × (w ≡ w')
unfolding read_from
read_from-none [] w w' n e = (refl, ap (λ p. p.1) e)
read_from-none (b ∷ bs) w w' n e =
    absurd (subst (λ o. elim o [ none ↦ ⊥ | some _ ↦ Unit {0} ]) (ap (λ p. p.0) e) tt)

unfoldable pub wire-ReadLaws : ReadLaws wire
unfolding wire read_from-some read_from-none
wire-ReadLaws = record {
  incoming = λ w. w.arriving;
  read_some = λ w w' n c e. read_from-some w.arriving w w' n c e;
  read_none = λ w w' n e.
      let (none_left, same) = read_from-none w.arriving w w' n e in
      (none_left, sym (ap (λ v. v.arriving) same) ∙ none_left);
}

read_from-NeverEmpty : (l : Bytes) (w w' : Wire) (n : ℕ) → read_from l w (suc n) ≢ (some [], w')
unfolding read_from
read_from-NeverEmpty [] w w' n e =
    absurd (subst (λ o. elim o [ none ↦ Unit {0} | some _ ↦ ⊥ ]) (ap (λ p. p.0) e) tt)
read_from-NeverEmpty (b ∷ bs) w w' n e = absurd (
    subst (λ l. elim l [ [] ↦ ⊥ | _ ∷ _ ↦ Unit {0} ])
      (ap (λ p. elim p.0 [ some x ↦ x | none ↦ b ∷ [] ]) e) tt)

pub wire-NeverEmpty : NeverEmpty wire
unfolding wire
wire-NeverEmpty w w' n e = read_from-NeverEmpty w.arriving w w' n e

unfoldable pub wire-WriteLaws : WriteLaws wire
unfolding wire
wire-WriteLaws = record {
  outgoing = λ w. w.sent_out;
  write_outgoing = λ w buf. refl;
  flush_outgoing = λ w. refl;
}

-- A stream with a buffer of four bytes each way, and `arriving` to come.
abbrev pub small_stream : Bytes → Bool → BufferedStream Wire
small_stream arriving chunked = record {
  wrapped = record { arriving = arriving; sent_out = [] };
  read_buffer = replicate 4 0;
  read_pos = 0;
  read_max = 0;
  write_buffer = replicate 4 0;
  write_len = 0;
  call_wrapped_flush = true;
  writing_chunked_body = chunked;
}
