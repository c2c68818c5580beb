-- ===== src/Headers/Table/Dispatch.antt =====
-- Which row `value_from_stream` gives a header's value to, and what it makes of it.
use rust_http.Base.{
  ℕ, ◌<◌, ◌≡◌, refl, sym, ap, ◌∙◌, subst, inl, inr, true, false, Option, none, some, List, [], ◌∷◌,
  ◌++◌, append_assoc, append-nil, length, Bytes, Text, equal, equal_refl, arith,
}
use rust_http.Headers.Readers.{Reading, pure, collect_body, collect_to_str}
use rust_http.Headers.Value.Loops.{each_in}
use rust_http.Headers.Readers.Steps.{Reads, Reads-bind, Reads-pure, Reads-each_byte}
use rust_http.Headers.Table.{
  Row, OneOf, known, extension_header, known_from_stream, value_from_stream,
}

each_in-collect : (v out : Text) → each_in collect_body (λ o. o) out v ≡ (out ++ v, [])
unfolding each_in
each_in-collect [] out = ap (λ o. (o, [])) (sym (append-nil out))
each_in-collect (b ∷ v) out =
    each_in-collect v (out ++ b ∷ []) ∙ ap (λ o. (o, [])) (append_assoc out (b ∷ []) v)

pub Reads-collect_to_str :
    (fuel : ℕ) (v : Text) → length v < fuel → Reads (collect_to_str fuel) v v []
unfolding collect_to_str
Reads-collect_to_str fuel v room =
    subst (λ p. Reads (collect_to_str fuel) v p.0 p.1) (each_in-collect v [])
      (Reads-each_byte fuel collect_body (λ o. o) [] v (λ t t' b e. ground arith) room)

-- A header is the first row of its name, and its row reads the value from the line.
abbrev pub ReadsAs : (rows : List Row) → OneOf rows → ℕ → Text → Bytes → Type 0
ReadsAs [] v fuel name line = ⊥
ReadsAs (r ∷ rs) (inl v) fuel name line =
    (name ≡ r.input_name) × Reads (r.convertible.from_stream fuel) line (some v) []
ReadsAs (r ∷ rs) (inr v) fuel name line =
    (equal name r.input_name ≡ false) × ReadsAs rs v fuel name line

-- No row has the name.
abbrev pub HasNoRow : List Row → Text → Type 0
HasNoRow [] name = Unit
HasNoRow (r ∷ rs) name = (equal name r.input_name ≡ false) × HasNoRow rs name

known-Reads :
    (rows : List Row) (v : OneOf rows) (fuel : ℕ) (name : Text) (line : Bytes)
    → ReadsAs rows v fuel name line
    → (m : Reading (Option (OneOf rows))) × (known_from_stream rows fuel name ≡ some m)
      × Reads m line (some v) []
unfolding known_from_stream
known-Reads [] v fuel name line h = absurd h
known-Reads (r ∷ rs) (inl v) fuel name line (same, reads) =
    let found : equal name r.input_name ≡ true =
      subst (λ n. equal name n ≡ true) same (equal_refl name) in
    (
      _,
      rw found refl,
      Reads-bind (r.convertible.from_stream fuel)
          (λ v. pure (elim v [ some x ↦ some (inl x) | none ↦ none ])) reads
          (Reads-pure (some (inl v)) []),
    )
known-Reads (r ∷ rs) (inr v) fuel name line (other, h) =
    let (m, found, reads) = known-Reads rs v fuel name line h in
    (
      _,
      rw (other, found) refl,
      Reads-bind m (λ v. pure (elim v [ some x ↦ some (inr x) | none ↦ none ])) reads
          (Reads-pure (some (inr v)) []),
    )

known-none :
    (rows : List Row) (fuel : ℕ) (name : Text)
    → HasNoRow rows name
    → known_from_stream rows fuel name ≡ none
unfolding known_from_stream
known-none [] fuel name h = refl
known-none (r ∷ rs) fuel name (other, h) = rw (other, known-none rs fuel name h) refl

module _ (rows : List Row) where
  pub known-value_from_stream :
      (v : OneOf rows) (fuel : ℕ) (name : Text) (line : Bytes)
      → ReadsAs rows v fuel name line
      → Reads (value_from_stream rows fuel name) line (some (known v)) []
  unfolding value_from_stream
  known-value_from_stream v fuel name line h =
      let (m, found, reads) = known-Reads rows v fuel name line h in
      rw found (
        Reads-bind m (λ v. pure (elim v [ some x ↦ some (known x) | none ↦ none ])) reads
          (Reads-pure (some (known v)) []))

  pub extension-value_from_stream :
      (fuel : ℕ) (name line : Text)
      → HasNoRow rows name
      → length line < fuel
      → Reads (value_from_stream rows fuel name) line (some (extension_header name line)) []
  unfolding value_from_stream
  extension-value_from_stream fuel name line h room = rw (known-none rows fuel name h) (
      Reads-bind (collect_to_str fuel) (λ value. pure (some (extension_header name value)))
        (Reads-collect_to_str fuel line room) (Reads-pure _ []))
