-- ===== src/Headers/Serialization/Names.antt =====
-- `normalise_header_name` and the comma lists of serialization_utils.rs.
use rust_http.Base.{
  ℕ, ◌≡◌, ◌↔◌, refl, sym, ap, ap₂, ◌∙◌, Bool, true, false, [], ◌∷◌, ◌++◌, append-nil, append_assoc,
  ◌==◌, ltb, ltb→lt, lt→ltb, Bool-cases, inl, inr, Text, IsAscii, to_upper, to_lower,
  to_ascii_lower, to_lower-to_upper, to_upper-to_lower, to_lower_idem, returns, fails, arith,
}
use rust_http.Headers.Serialization.{cased, normalise_loop, normalise_header_name}

-- The name with the character at the start and after each hyphen in upper case, the rest in lower
-- case.
unfoldable pub normalised : Bool → Text → Text
normalised capitalise [] = []
normalised capitalise (c ∷ cs) = cased capitalise c ∷ normalised (c == b'-') cs

cased-hyphen : (capitalise : Bool) (c : ℕ) → (cased capitalise c == 45) ≡ (c == b'-')
unfolding to_upper to_lower
cased-hyphen true c = ground arith
cased-hyphen false c = ground arith

normalise_loop-normalised :
    (s result : Text) (capitalise : Bool)
    → IsAscii s
    → normalise_loop result capitalise s ≡ returns (result ++ normalised capitalise s)
unfolding normalise_loop normalised
normalise_loop-normalised [] result capitalise h = ap returns (sym (append-nil result))
normalise_loop-normalised (c ∷ cs) result capitalise (hc, h) =
    rw (lt→ltb c 128 hc, cased-hyphen capitalise c)
      (normalise_loop-normalised cs (result ++ cased capitalise c ∷ []) (c == b'-') h
        ∙ ap returns (append_assoc result (cased capitalise c ∷ []) (normalised (c == b'-') cs)))

-- An ASCII name is normalised to `normalised true` of it.
pub normalise_header_name-normalised :
    (s : Text) → IsAscii s → normalise_header_name s ≡ returns (normalised true s)
unfolding normalise_header_name
normalise_header_name-normalised s h = normalise_loop-normalised s [] true h

normalise_loop_fails :
    (s result : Text) (capitalise : Bool)
    → (IsAscii s → ⊥)
    → normalise_loop result capitalise s ≡ fails
unfolding normalise_loop
normalise_loop_fails [] result capitalise h = absurd (h tt)
normalise_loop_fails (c ∷ cs) result capitalise h = elim (Bool-cases (ltb c 128)) [
  | inl low ↦ rw low (
      normalise_loop_fails cs (result ++ cased capitalise c ∷ []) (cased capitalise c == 45)
        (λ hs. h (ltb→lt c 128 low, hs)))
  | inr high ↦ rw high
]

-- A name with a character that is not ASCII makes `normalise_header_name` fail.
normalise_header_name_fails : (s : Text) → ¬ IsAscii s → normalise_header_name s ≡ fails
unfolding normalise_header_name
normalise_header_name_fails s h = normalise_loop_fails s [] true h

cased-to_lower : (capitalise : Bool) (c : ℕ) → cased capitalise (to_lower c) ≡ cased capitalise c
cased-to_lower true c = to_upper-to_lower c
cased-to_lower false c = to_lower_idem c

to_lower-cased : (capitalise : Bool) (c : ℕ) → to_lower (cased capitalise c) ≡ to_lower c
to_lower-cased true c = to_lower-to_upper c
to_lower-cased false c = to_lower_idem c

to_ascii_lower-normalised :
    (s : Text) (capitalise : Bool) → to_ascii_lower (normalised capitalise s) ≡ to_ascii_lower s
unfolding normalised
to_ascii_lower-normalised [] capitalise = refl
to_ascii_lower-normalised (c ∷ cs) capitalise =
    ap₂ ◌∷◌ (to_lower-cased capitalise c) (to_ascii_lower-normalised cs (c == b'-'))

normalised-to_ascii_lower :
    (s : Text) (capitalise : Bool)
    → normalised capitalise (to_ascii_lower s) ≡ normalised capitalise s
unfolding normalised
normalised-to_ascii_lower [] capitalise = refl
normalised-to_ascii_lower (c ∷ cs) capitalise =
    ap₂ ◌∷◌ (cased-to_lower capitalise c)
      (rw (cased-hyphen false c) (normalised-to_ascii_lower cs (c == b'-')))

-- Two ASCII names are normalised alike exactly if they are equal but for the case of letters.
pub normalise_header_name_iff :
    (s t : Text)
    → IsAscii s
    → IsAscii t
    → (normalise_header_name s ≡ normalise_header_name t) ↔ (to_ascii_lower s ≡ to_ascii_lower t)
normalise_header_name_iff s t hs ht = (same_lower, same_name)
  where
    same_text : {a b : Text} → returns a ≡ returns b → a ≡ b
    same_text h = cc

    same_lower :
        normalise_header_name s ≡ normalise_header_name t → to_ascii_lower s ≡ to_ascii_lower t
    same_lower e =
        sym (to_ascii_lower-normalised s true)
        ∙ ap to_ascii_lower (
            same_text (
              sym (normalise_header_name-normalised s hs)
              ∙ e
              ∙ normalise_header_name-normalised t ht))
        ∙ to_ascii_lower-normalised t true

    same_name :
        to_ascii_lower s ≡ to_ascii_lower t → normalise_header_name s ≡ normalise_header_name t
    same_name e =
        normalise_header_name-normalised s hs
        ∙ ap returns (
            sym (normalised-to_ascii_lower s true)
            ∙ ap (normalised true) e
            ∙ normalised-to_ascii_lower t true)
        ∙ sym (normalise_header_name-normalised t ht)

normalise_loop-returns :
    (s result r : Text) (capitalise : Bool)
    → normalise_loop result capitalise s ≡ returns r
    → r ≡ result ++ normalised capitalise s
unfolding normalise_loop normalised
normalise_loop-returns [] result r capitalise e = ground (arith, e, append-nil result)
normalise_loop-returns (c ∷ cs) result r capitalise e = elim (Bool-cases (ltb c 128)) [
  | inl low ↦
      normalise_loop-returns cs (result ++ cased capitalise c ∷ []) r (cased capitalise c == 45)
        (ground (arith, low, e))
      ∙ ap (λ k. (result ++ cased capitalise c ∷ []) ++ normalised k cs) (cased-hyphen capitalise c)
      ∙ append_assoc result (cased capitalise c ∷ []) (normalised (c == b'-') cs)
  | inr high ↦ absurd (ground (arith, high, e))
]

pub normalise_header_name-returns :
    (s r : Text) → normalise_header_name s ≡ returns r → r ≡ normalised true s
unfolding normalise_header_name
normalise_header_name-returns s r e = normalise_loop-returns s [] r true e
