-- ===== src/Headers/Table/Iteration.antt =====
-- The iterator over a collection of headers, and `write_all`: which headers, and in which order.
use rust_http.Base.{
  ℕ, zero, suc, ◌+◌, ◌≤◌, ◌<◌, ◌≡◌, refl, sym, ap, ◌∙◌, ◌⊎◌, inl, inr, true, false, Option, none,
  some, List, [], ◌∷◌, ◌++◌, map, if◌then◌else◌, Option-cases, leb, subst, length, Bytes, Text, Run,
  returns, and_then, arith,
}
use mathlib.Core.Path.{fun_ext, subst₂}
use rust_http.Headers.Serialization.{write}
use rust_http.Headers.Table.{
  Row, Table, OneOf, Header, known, extension_header, Fields, TreeMap, HeaderCollection, field_at,
  write_header, crlf, HeaderCollectionIterator, next_extension, next, write_loop, write_all,
}

-- A field that is set, in front of a list.
abbrev pub with_field : {A B : Type 0} → Option A → (A → B) → List B → List B
with_field none f bs = bs
with_field (some a) f bs = f a ∷ bs

-- The fields that are set, from the row with a number on.
unfoldable pub fields_from : (rows : List Row) → Fields rows → ℕ → List (OneOf rows)
fields_from [] fs i = []
fields_from (r ∷ rs) (f, fs) zero = with_field f inl (map inr (fields_from rs fs zero))
fields_from (r ∷ rs) (f, fs) (suc i) = map inr (fields_from rs fs i)

fields_from_step :
    (rows : List Row) (fs : Fields rows) (i : ℕ)
    → fields_from rows fs i ≡ with_field (field_at rows fs i) (λ v. v) (fields_from rows fs (suc i))
unfolding fields_from field_at
fields_from_step [] fs i = refl
fields_from_step (r ∷ rs) (none, fs) zero = refl
fields_from_step (r ∷ rs) (some v, fs) zero = refl
fields_from_step (r ∷ rs) (f, fs) (suc i) = elim (Option-cases (field_at rs fs i)) [
  | inl missing ↦ rw missing (
      ap (map inr) (
        fields_from_step rs fs i
        ∙ ap (λ o. with_field o (λ v. v) (fields_from rs fs (suc i))) missing))
  | inr (v, found) ↦ rw found (
      ap (map inr) (
        fields_from_step rs fs i
        ∙ ap (λ o. with_field o (λ v. v) (fields_from rs fs (suc i))) found))
]

fields_from_end :
    (rows : List Row) (fs : Fields rows) (i : ℕ) → length rows ≤ i → fields_from rows fs i ≡ []
unfolding fields_from
fields_from_end [] fs i h = refl
fields_from_end (r ∷ rs) (f, fs) zero h = absurd (omega arith)
fields_from_end (r ∷ rs) (f, fs) (suc i) h = ap (map inr) (fields_from_end rs fs i (omega arith))

-- What the loop of `write_all` writes, on a list of headers.
unfoldable pub write_each : (rows : List Row) → List (Header rows) → Bytes → Run Bytes
write_each rows [] writer = returns writer
write_each rows (h ∷ hs) writer = and_then (write_header rows h writer) (write_each rows hs)

module _ (table : Table) (tree : TreeMap) (coll : HeaderCollection table.rows tree) where
  unfoldable pub as_header : Text × Text → Header table.rows
  as_header (k, v) = extension_header k v

  -- The headers of the collection: the fields that are set, in the order of the table, then the
  -- extensions in the order of the map.
  unfoldable pub headers_of : List (Header table.rows)
  unfolding fields_from as_header
  headers_of =
      map known (fields_from table.rows coll.fields 0) ++ map as_header (tree.iter coll.extensions)

  lt-cases : (a b : ℕ) → (a < b) ⊎ ((a ≡ b) ⊎ (b < a))
  lt-cases a b = ground arith

  abbrev row_count : ℕ
  row_count = length table.rows

  extensions : List (Header table.rows)
  extensions = map as_header (tree.iter coll.extensions)

  -- What the iterator has left.
  left_at : ℕ → Option (List (Text × Text)) → List (Header table.rows)
  left_at pos ext =
      if leb pos row_count
      then map known (fields_from table.rows coll.fields pos) ++ extensions
      else (elim ext [ none ↦ [] | some l ↦ map as_header l ])

  with_field-known :
      (o : Option (OneOf table.rows)) (l : List (OneOf table.rows))
      → map known (with_field o (λ v. v) l) ++ extensions
        ≡ with_field o known (map known l ++ extensions)
  with_field-known none l = refl
  with_field-known (some v) l = refl

  left_at_field :
      (pos : ℕ) (ext : Option (List (Text × Text)))
      → pos < row_count
      → left_at pos ext
        ≡ with_field (field_at table.rows coll.fields pos) known (left_at (pos + 1) ext)
  unfolding left_at
  left_at_field pos ext h =
      let here : leb pos row_count ≡ true = ground arith in
      let there : leb (pos + 1) row_count ≡ true = ground arith in
      let after : pos + 1 ≡ suc pos = omega arith in
      rw (here, there, after)
        (ap (λ l. map known l ++ extensions) (fields_from_step table.rows coll.fields pos)
          ∙ with_field-known (field_at table.rows coll.fields pos)
              (fields_from table.rows coll.fields (suc pos)))

  left_at_end :
      (ext : Option (List (Text × Text)))
      → left_at row_count ext ≡ left_at (row_count + 1) (some (tree.iter coll.extensions))
  unfolding left_at extensions
  left_at_end ext =
      let here : leb row_count row_count ≡ true = ground arith in
      let there : leb (row_count + 1) row_count ≡ false = ground arith in
      rw (here, there, fields_from_end table.rows coll.fields row_count (omega arith)) refl

  left_at_past :
      (pos : ℕ) (l : List (Text × Text)) → row_count < pos → left_at pos (some l) ≡ map as_header l
  unfolding left_at
  left_at_past pos l h = let past : leb pos row_count ≡ false = ground arith in rw past refl

  left_at_start : left_at 0 none ≡ headers_of
  unfolding left_at headers_of extensions
  left_at_start = let here : leb 0 row_count ≡ true = ground arith in rw here refl

  -- The iterator is before the extensions, or goes through them.
  abbrev IsStarted : ℕ → Option (List (Text × Text)) → Type 0
  IsStarted pos ext = (pos ≤ row_count) ⊎ ((l : List (Text × Text)) × (ext ≡ some l))

  abbrev NextIs :
      List (Header table.rows)
      → Run (Option (Header table.rows) × HeaderCollectionIterator)
      → Type 0
  NextIs [] r = (it : HeaderCollectionIterator) × (r ≡ returns (none, it))
  NextIs (h ∷ hs) r =
      (it : HeaderCollectionIterator) × (r ≡ returns (some h, it))
      × (left_at it.pos it.ext_iter ≡ hs)
      × IsStarted it.pos it.ext_iter

  next_extension-NextIs :
      (pos : ℕ) (l : List (Text × Text))
      → row_count < pos
      → NextIs (map as_header l) (next_extension table tree coll pos (some l))
  unfolding next_extension as_header
  next_extension-NextIs pos [] h = (record { pos = pos; ext_iter = some [] }, refl)
  next_extension-NextIs pos ((k, v) ∷ l) h =
      (record { pos = pos; ext_iter = some l }, refl, left_at_past pos l h, inr (l, refl))

  abbrev at : ℕ → Option (List (Text × Text)) → HeaderCollectionIterator
  at pos ext = record { pos = pos; ext_iter = ext }

  next_field :
      (fuel pos : ℕ) (ext : Option (List (Text × Text)))
      → pos < row_count
      → next table tree coll (suc fuel) (at pos ext) ≡ (elim (field_at table.rows coll.fields pos) [
        | some v ↦ returns (some (known v), at (pos + 1) ext)
        | none ↦ next table tree coll fuel (at (pos + 1) ext)
      ])
  unfolding next
  next_field fuel pos ext h = ground arith

  next_end :
      (fuel : ℕ) (ext : Option (List (Text × Text)))
      → table.num_headers ≡ row_count
      → next table tree coll (suc fuel) (at row_count ext)
        ≡ next table tree coll fuel (at (row_count + 1) (some (tree.iter coll.extensions)))
  unfolding next
  next_end fuel ext n = ground arith

  next_past :
      (fuel pos : ℕ) (ext : Option (List (Text × Text)))
      → table.num_headers ≡ row_count
      → row_count < pos
      → next table tree coll (suc fuel) (at pos ext) ≡ next_extension table tree coll (pos + 1) ext
  unfolding next
  next_past fuel pos ext n h = ground arith

  field-NextIs :
      (o : Option (OneOf table.rows)) (pos : ℕ) (ext : Option (List (Text × Text)))
      (after : Run (Option (Header table.rows) × HeaderCollectionIterator))
      → pos < row_count
      → NextIs (left_at (pos + 1) ext) after
      → NextIs
          (with_field o known (left_at (pos + 1) ext))
          (elim o [ some v ↦ returns (some (known v), at (pos + 1) ext) | none ↦ after ])
  field-NextIs none pos ext after h rest = rest
  field-NextIs (some v) pos ext after h rest = (at (pos + 1) ext, refl, refl, inl (omega arith))

  -- With more fuel than there are rows and one, `next` gives the first header that is left.
  next-NextIs :
      (fuel pos : ℕ) (ext : Option (List (Text × Text)))
      → table.num_headers ≡ row_count
      → IsStarted pos ext
      → 0 < fuel
      → row_count + 1 < fuel + pos
      → NextIs (left_at pos ext) (next table tree coll fuel (at pos ext))
  next-NextIs zero pos ext n s room room' = absurd (omega arith)
  next-NextIs (suc fuel) pos ext n s room room' = elim (lt-cases pos row_count) [
    | inl h ↦ subst₂ NextIs (sym (left_at_field pos ext h)) (sym (next_field fuel pos ext h)) (
        field-NextIs (field_at table.rows coll.fields pos) pos ext _ h
          (next-NextIs fuel (pos + 1) ext n (inl (omega arith)) (omega arith) (omega arith)))
    | inr (inl e) ↦
        subst (λ p. NextIs (left_at p ext) (next table tree coll (suc fuel) (at p ext))) (sym e)
          (subst₂ NextIs (sym (left_at_end ext)) (sym (next_end fuel ext n)) (
            next-NextIs fuel (row_count + 1) (some (tree.iter coll.extensions)) n
              (inr (tree.iter coll.extensions, refl)) (omega arith) (omega arith)))
    | inr (inr h) ↦ elim s [
      | inl low ↦ absurd (omega arith)
      | inr (l, e) ↦
          subst (λ x. NextIs (left_at pos x) (next table tree coll (suc fuel) (at pos x))) (sym e)
            (subst₂ NextIs (sym (left_at_past pos l h)) (sym (next_past fuel pos (some l) n h))
              (next_extension-NextIs (pos + 1) l (omega arith)))
    ]
  ]

  write_loop-write_each :
      (fuel rounds pos : ℕ) (ext : Option (List (Text × Text))) (hs : List (Header table.rows))
      (writer : Bytes)
      → table.num_headers ≡ row_count
      → row_count + 1 < fuel
      → IsStarted pos ext
      → left_at pos ext ≡ hs
      → length hs < rounds
      → write_loop table tree coll fuel rounds (at pos ext) writer ≡ write_each table.rows hs writer
  unfolding write_loop write_each
  write_loop-write_each fuel zero pos ext hs writer n room s e turns = absurd (omega arith)
  write_loop-write_each fuel (suc rounds) pos ext [] writer n room s e turns =
      let (it, r) =
        subst (λ l. NextIs l (next table tree coll fuel (at pos ext))) e
          (next-NextIs fuel pos ext n s (omega arith) (omega arith)) in
      rw r refl
  write_loop-write_each fuel (suc rounds) pos ext (h ∷ hs) writer n room s e turns =
      let (it, r, left, s') =
        subst (λ l. NextIs l (next table tree coll fuel (at pos ext))) e
          (next-NextIs fuel pos ext n s (omega arith) (omega arith)) in
      rw r (
        ap (and_then (write_header table.rows h writer)) (
          fun_ext (λ w.
            write_loop-write_each fuel rounds it.pos it.ext_iter hs w n room s' left
              (omega arith))))

  -- `write_all`, with more rounds than there are headers in the collection and more fuel in each
  -- than there are rows and one, writes the fields that are set, in the order of the table, then
  -- the extensions in the order of the map, each once, and an empty line.
  pub write_all-write_each :
      (fuel rounds : ℕ) (writer : Bytes)
      → table.num_headers ≡ length table.rows
      → length table.rows + 1 < fuel
      → length headers_of < rounds
      → write_all table tree coll fuel rounds writer
        ≡ and_then (write_each table.rows headers_of writer) (λ w. returns (write w crlf))
  unfolding write_all
  write_all-write_each fuel rounds writer n room turns =
      ap (λ r. and_then r (λ w. returns (write w crlf)))
        (write_loop-write_each fuel rounds 0 none headers_of writer n room (inl (omega arith))
          left_at_start turns)
