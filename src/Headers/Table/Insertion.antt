-- ===== src/Headers/Table/Insertion.antt =====
-- What `HeaderCollection::insert` changes, and what it leaves.
use rust_http.Base.{
  ℕ, zero, suc, ◌≡◌, refl, inl, inr, Option, none, some, List, [], ◌∷◌, ◌==◌, if◌then◌else◌, Text,
  equal, arith,
}
use rust_http.Headers.Table.{
  Row, OneOf, Header, known, extension_header, Fields, TreeMap, TreeMapLaws, HeaderCollection,
  lookup, new_fields, insert_field, insert, field_at,
}

-- The number of a value's row.
unfoldable pub index : (rows : List Row) → OneOf rows → ℕ
index [] v = 0
index (r ∷ rs) (inl v) = 0
index (r ∷ rs) (inr v) = suc (index rs v)

field_at-insert_field :
    (rows : List Row) (v : OneOf rows) (fs : Fields rows) (i : ℕ)
    → field_at rows (insert_field rows v fs) i
      ≡ (if i == index rows v then some v else field_at rows fs i)
unfolding field_at insert_field index
field_at-insert_field [] v fs i = absurd v
field_at-insert_field (r ∷ rs) (inl v) (f, fs) zero = refl
field_at-insert_field (r ∷ rs) (inl v) (f, fs) (suc i) = ground arith
field_at-insert_field (r ∷ rs) (inr v) (f, fs) zero = ground arith
field_at-insert_field (r ∷ rs) (inr v) (f, fs) (suc i) =
    ground (arith, field_at-insert_field rs v fs i)

-- The first of two answers.
abbrev pub or_before : {A : Type 0} → Option A → Option A → Option A
or_before (some a) b = some a
or_before none b = b

module _ (rows : List Row) (tree : TreeMap) (laws : TreeMapLaws tree) where
  -- Whether a header sets the field of a row, and whether it sets the extension of a name.
  pub sets_field : Header rows → ℕ → Option (OneOf rows)
  unfolding index
  sets_field (known v) i = if i == index rows v then some v else none
  sets_field (extension_header k v) i = none

  pub sets_extension : Header rows → Text → Option Text
  sets_extension (known v) name = none
  sets_extension (extension_header k v) name = if equal name k then some v else none

  -- After `insert`, the field of each row and the extension of each name is what the inserted
  -- header sets it to, or else as before: a later header of a row or of a name replaces an earlier
  -- one, and all the others stay.
  pub insert_lem :
      (coll : HeaderCollection rows tree) (h : Header rows)
      → ((i : ℕ)
          → field_at rows (insert rows tree coll h).fields i
            ≡ or_before (sets_field h i) (field_at rows coll.fields i))
        × ((name : Text)
            → lookup name (tree.iter (insert rows tree coll h).extensions)
              ≡ or_before (sets_extension h name) (lookup name (tree.iter coll.extensions)))
  unfolding insert sets_field sets_extension
  insert_lem coll (known v) =
      ((λ i. ground (arith, field_at-insert_field rows v coll.fields i)), λ name. refl)
  insert_lem coll (extension_header k v) =
      ((λ i. refl), λ name. ground (arith, laws.iter_insert coll.extensions k v name))

  field_at-new_fields : (rs : List Row) (i : ℕ) → field_at rs (new_fields rs) i ≡ none
  unfolding field_at new_fields
  field_at-new_fields [] i = refl
  field_at-new_fields (r ∷ rs) zero = refl
  field_at-new_fields (r ∷ rs) (suc i) = rw (field_at-new_fields rs i) refl
