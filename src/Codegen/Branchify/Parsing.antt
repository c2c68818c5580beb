-- ===== src/Codegen/Branchify/Parsing.antt =====
-- The generated parser on a text that ends as it should: it gives what the tree holds for the text.
use rust_http.Base.{
  ℕ, ◌+◌, ◌≤◌, ◌<◌, ◌≡◌, refl, ap, subst, ◌∙◌, inl, inr, Bool, true, false, Option, none, some, [],
  ◌∷◌, ◌++◌, append_assoc, append-nil, ◌==◌, ==_iff, Bool-cases, All, All-append, as_bytes_ascii,
  length, length-append, Bytes, Text, as_bytes, arith,
}
use rust_http.Rfc2616.{sp}
use rust_http.Codegen.Branchify.{
  Branches, nil, cons, parse_branch, mem, Matched, result_or_unknown, other_arms, inner_match, arms,
  rest_loop, after_match, outer_arms, branchified_method,
}
use rust_http.Codegen.Branchify.Lookup.{under, find, IsPlain}

module _ {M : Type 0} (valid : ℕ → Bool) (unknown : Text → M) (max_len : ℕ)
    (ascii : (b : ℕ) → valid b ≡ true → b < 128) (not_sp : valid sp ≡ false) where
  abbrev IsValid : ℕ → Type 0
  IsValid b = valid b ≡ true

  ne_sp : (b : ℕ) → valid b ≡ true → (b == sp) ≡ false
  ne_sp b h = elim (Bool-cases (b == sp)) [
    | inl same ↦ absurd (cc (h, not_sp, ap valid ((==_iff b sp).0 same)))
    | inr other ↦ other
  ]

  sp_ne : (b : ℕ) → valid b ≡ true → (sp == b) ≡ false
  sp_ne b h = ground (arith, ne_sp b h)

  rest_loop_lem :
      (s t : Text) (stream : Bytes)
      → All (λ b. b < 128) s
      → All IsValid t
      → length s + length t ≤ max_len
      → rest_loop valid unknown sp max_len s (t ++ sp ∷ stream) ≡ (some (unknown (s ++ t)), stream)
  unfolding rest_loop
  rest_loop_lem s [] stream hs h room = rw append-nil refl
  rest_loop_lem s (b ∷ t) stream hs (hb, h) room =
      let low = ascii b hb in
      let other : (b == sp) ≡ false = ne_sp b hb in
      let short : (length (as_bytes s) == max_len) ≡ false =
        ground (arith, ap length (as_bytes_ascii s hs), room) in
      let ih =
        rest_loop_lem (s ++ b ∷ []) t stream (All-append (λ b. b < 128) s (b ∷ []) hs (low, tt)) h
          (omega (arith, length-append s (b ∷ []))) in
      rw (other, hb, short) (ih ∙ ap (λ u. (some (unknown u), stream)) (append_assoc s (b ∷ []) t))

  arms-sp :
      (bs : Branches M) (prefix : Text) (stream : Bytes)
      → IsPlain IsValid bs
      → arms valid unknown bs prefix sp stream ≡ none
  unfolding arms mem
  arms-sp nil prefix stream h = refl
  arms-sp (cons (parse_branch [] result bs) more) prefix stream h = absurd h.0
  arms-sp (cons (parse_branch (a ∷ b ∷ ms) result bs) more) prefix stream h = absurd h.0
  arms-sp (cons (parse_branch (a ∷ []) result bs) more) prefix stream (ha, (hbs, hmore)) =
      let other : (sp == a) ≡ false = sp_ne a ha in rw (other) (arms-sp more prefix stream hmore)

  abbrev answer : Option M → Text → Bytes → Option M × Bytes
  answer found t stream = (some (result_or_unknown valid unknown found t), stream)

  -- What the arms do, where `found` is what the tree holds for the text `t` read so far and to
  -- come.
  abbrev Answers : Option (Matched M) → Option M → Text → Bytes → Type 0
  Answers none found t stream = found ≡ none
  Answers (some m) found t stream = after_match valid unknown sp max_len m ≡ answer found t stream

  abbrev AllAnswer : Branches M → Bytes → Type 0
  AllAnswer bs stream =
      (prefix : Text) (b : ℕ) (t : Text)
      → All (λ c. c < 128) prefix
      → All IsValid (b ∷ t)
      → length prefix + length (b ∷ t) ≤ max_len
      → Answers (arms valid unknown bs prefix b (t ++ sp ∷ stream)) (find bs b t) (prefix ++ b ∷ t)
          stream

  other_arms_lem :
      (result : Option M) (found : Option M) (prefix : Text) (b : ℕ) (t : Text) (stream : Bytes)
      (o : Option (Matched M))
      → All (λ c. c < 128) prefix
      → All IsValid (b ∷ t)
      → length prefix + length (b ∷ t) ≤ max_len
      → Answers o found (prefix ++ b ∷ t) stream
      → after_match valid unknown sp max_len
          (other_arms valid unknown result prefix b (t ++ sp ∷ stream) o)
        ≡ answer found (prefix ++ b ∷ t) stream
  unfolding other_arms after_match
  other_arms_lem result found prefix b t stream (some m) low h room a = a
  other_arms_lem result found prefix b t stream none low (hb, h) room a =
      rw (ne_sp b hb, hb, a)
        (rest_loop_lem (prefix ++ b ∷ []) t stream
            (All-append (λ c. c < 128) prefix (b ∷ []) low (ascii b hb, tt)) h
            (omega (arith, length-append prefix (b ∷ [])))
          ∙ ap (λ u. (some (unknown u), stream)) (append_assoc prefix (b ∷ []) t))

  inner_match_lem :
      (result : Option M) (bs : Branches M) (prefix t : Text) (stream : Bytes)
      → IsPlain IsValid bs
      → AllAnswer bs stream
      → All (λ c. c < 128) prefix
      → All IsValid t
      → length prefix + length t ≤ max_len
      → after_match valid unknown sp max_len
          (inner_match valid unknown result (arms valid unknown bs) prefix (t ++ sp ∷ stream))
        ≡ answer (under result (find bs) t) (prefix ++ t) stream
  unfolding inner_match
  inner_match_lem result bs prefix [] stream plain ih low h room =
      rw (arms-sp bs prefix stream plain, append-nil) (unfold other_arms after_match in refl)
  inner_match_lem result bs prefix (b ∷ t) stream plain ih low h room =
      other_arms_lem result (find bs b t) prefix b t stream _ low h room (ih prefix b t low h room)

  arms_lem : (bs : Branches M) (stream : Bytes) → IsPlain IsValid bs → AllAnswer bs stream
  unfolding arms find mem
  arms_lem nil stream plain prefix b t low h room = refl
  arms_lem (cons (parse_branch [] result bs) more) stream plain prefix b t low h room =
      absurd plain.0
  arms_lem (cons (parse_branch (x ∷ y ∷ ms) result bs) more) stream plain prefix b t low h room =
      absurd plain.0
  arms_lem (cons (parse_branch (a ∷ []) result bs) more) stream (ha, (hbs, hmore)) prefix b t low h
        room =
      elim (Bool-cases (b == a)) [
        | inl same ↦ rw same (
            subst
              (λ u.
                after_match valid unknown sp max_len (
                  inner_match valid unknown result (arms valid unknown bs) (prefix ++ b ∷ [])
                    (t ++ sp ∷ stream))
                ≡ answer (under result (find bs) t) u stream)
              (append_assoc prefix (b ∷ []) t)
              (inner_match_lem result bs (prefix ++ b ∷ []) t stream hbs (arms_lem bs stream hbs)
                (All-append (λ c. c < 128) prefix (b ∷ []) low (ascii b h.0, tt)) h.1
                (omega (arith, length-append prefix (b ∷ []), room))))
        | inr other ↦ rw other (arms_lem more stream hmore prefix b t low h room)
      ]

  outer_arms_lem :
      (found : Option M) (b : ℕ) (t : Text) (stream : Bytes) (o : Option (Matched M))
      → All IsValid (b ∷ t)
      → length (b ∷ t) ≤ max_len
      → Answers o found (b ∷ t) stream
      → after_match valid unknown sp max_len
          (outer_arms valid unknown sp max_len b (t ++ sp ∷ stream) o)
        ≡ answer found (b ∷ t) stream
  unfolding outer_arms after_match
  outer_arms_lem found b t stream (some m) h room a = a
  outer_arms_lem found b t stream none (hb, h) room a =
      rw (hb, a) (rest_loop_lem (b ∷ []) t stream (ascii b hb, tt) h (omega arith))

  -- On a text of valid bytes that is not empty and no longer than `max_len`, and a space behind it,
  -- the parser that is generated for a tree with one valid byte to a branch gives what the tree
  -- holds for the text, or the text as an unknown one, and leaves what stands behind the space.
  pub branchified_method_lem :
      (bs : Branches M) (b : ℕ) (t : Text) (stream : Bytes)
      → IsPlain IsValid bs
      → All IsValid (b ∷ t)
      → length (b ∷ t) ≤ max_len
      → branchified_method valid unknown sp max_len bs (b ∷ (t ++ sp ∷ stream))
        ≡ (some (result_or_unknown valid unknown (find bs b t) (b ∷ t)), stream)
  unfolding branchified_method
  branchified_method_lem bs b t stream plain h room =
      outer_arms_lem (find bs b t) b t stream _ h room
        (arms_lem bs stream plain [] b t tt h (omega arith))
