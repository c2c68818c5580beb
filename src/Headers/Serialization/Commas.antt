-- ===== src/Headers/Serialization/Commas.antt =====
-- `comma_split` and `comma_join` of serialization_utils.rs.
use rust_http.Base.{
  ℕ, ◌≡◌, refl, ap, ap₂, ◌∙◌, Bool, true, false, List, [], ◌∷◌, ◌++◌, map, ◌==◌, All, Text, arith,
}
use rust_http.Headers.Serialization.{
  split, trim_left, comma_split, connect, comma_join, add_to_first,
}

abbrev pub HasNo : ℕ → Text → Type 0
HasNo c = All (λ x. (x == c) ≡ false)

split-HasNo : (c : ℕ) (v : Text) → HasNo c v → split c v ≡ v ∷ []
unfolding split
split-HasNo c [] h = refl
split-HasNo c (x ∷ v) (hx, h) = rw (hx, split-HasNo c v h)

split-append : (c : ℕ) (v rest : Text) → HasNo c v → split c (v ++ c ∷ rest) ≡ v ∷ split c rest
unfolding split
split-append c [] rest h = ground arith
split-append c (x ∷ v) rest (hx, h) = rw (hx, split-append c v rest h)

-- A piece keeps the space that `comma_join` put in front of it.
split-connect :
    (v : Text) (vs : List Text)
    → HasNo b',' v
    → All (HasNo b',') vs
    → split b',' (connect (b',' ∷ b' ' ∷ []) (v ∷ vs)) ≡ v ∷ map (λ w. b' ' ∷ w) vs
unfolding connect
split-connect v [] h hs = split-HasNo b',' v h
split-connect v (w ∷ vs) h (hw, hs) =
    split-append b',' v (b' ' ∷ connect (b',' ∷ b' ' ∷ []) (w ∷ vs)) h
    ∙ ap (λ r. v ∷ r)
        (split_space (connect (b',' ∷ b' ' ∷ []) (w ∷ vs))
          ∙ ap (add_to_first b' ') (split-connect w vs hw hs))
  where
    split_space : (t : Text) → split b',' (b' ' ∷ t) ≡ add_to_first b' ' (split b',' t)
    split_space t = unfold split in refl

module _ (is_whitespace : ℕ → Bool) where
  -- The text does not start with white space.
  abbrev pub IsTrimmed : Text → Type 0
  IsTrimmed [] = Unit
  IsTrimmed (c ∷ _) = is_whitespace c ≡ false

  trim_left-IsTrimmed : (v : Text) → IsTrimmed v → trim_left is_whitespace v ≡ v
  unfolding trim_left
  trim_left-IsTrimmed [] h = refl
  trim_left-IsTrimmed (c ∷ v) h = rw h

  trim_left_space :
      (v : Text) → is_whitespace b' ' ≡ true → IsTrimmed v → trim_left is_whitespace (b' ' ∷ v) ≡ v
  unfolding trim_left
  trim_left_space v space h = rw space (trim_left-IsTrimmed v h)

  map-trim_left :
      (vs : List Text)
      → is_whitespace b' ' ≡ true
      → All IsTrimmed vs
      → map (trim_left is_whitespace) (map (λ w. b' ' ∷ w) vs) ≡ vs
  map-trim_left [] space h = refl
  map-trim_left (v ∷ vs) space (hv, h) =
      ap₂ ◌∷◌ (trim_left_space v space hv) (map-trim_left vs space h)

  -- Splitting what `comma_join` made gives the values back, for at least one value, if none holds a
  -- comma or starts with white space, and a space counts as white space.
  pub comma_split-comma_join :
      (v : Text) (vs : List Text)
      → is_whitespace b' ' ≡ true
      → All (HasNo b',') (v ∷ vs)
      → All IsTrimmed (v ∷ vs)
      → comma_split is_whitespace (comma_join (v ∷ vs)) ≡ v ∷ vs
  unfolding comma_split comma_join
  comma_split-comma_join v vs space (hv, h) (tv, ts) =
      ap (map (trim_left is_whitespace)) (split-connect v vs hv h)
      ∙ ap₂ ◌∷◌ (trim_left-IsTrimmed v tv) (map-trim_left vs space ts)
