-- ===== src/Headers/Table/Rebuilt.antt =====
-- The headers of a collection, inserted one by one into a new one, build the same collection again.
use rust_http.Base.{
  ◌≡◌, refl, sym, ap, ◌∙◌, inl, inr, Option, none, some, List, [], ◌∷◌, ◌++◌, map, Text, equal,
  equal_iff, Bool-cases, subst, arith,
}
use rust_http.Headers.Table.{
  Row, Table, OneOf, Header, known, extension_header, Fields, TreeMap, TreeMapLaws, IsDistinct,
  HeaderCollection, lookup, new_fields, new, insert_field, insert,
}
use rust_http.Headers.Table.Insertion.{or_before}
use rust_http.Headers.Table.Iteration.{fields_from, as_header, headers_of}

-- The insertions of a list, in order.
unfoldable pub insert_all {ℓ κ} : {C : Type ℓ} {H : Type κ} → (C → H → C) → C → List H → C
insert_all f c [] = c
insert_all f c (h ∷ hs) = insert_all f (f c h) hs

insert_all-append {ℓ κ} :
    {C : Type ℓ} {H : Type κ} (f : C → H → C) (c : C) (xs ys : List H)
    → insert_all f c (xs ++ ys) ≡ insert_all f (insert_all f c xs) ys
unfolding insert_all
insert_all-append f c [] ys = refl
insert_all-append f c (x ∷ xs) ys = insert_all-append f (f c x) xs ys

-- The fields, after values of some rows.
insert_fields : (rows : List Row) → Fields rows → List (OneOf rows) → Fields rows
insert_fields rows fs [] = fs
insert_fields rows fs (v ∷ vs) = insert_fields rows (insert_field rows v fs) vs

insert_fields-below :
    (r : Row) (rs : List Row) (f : Option r.Value) (fs : Fields rs) (vs : List (OneOf rs))
    → insert_fields (r ∷ rs) (f, fs) (map inr vs) ≡ (f, insert_fields rs fs vs)
unfolding insert_fields insert_field
insert_fields-below r rs f fs [] = refl
insert_fields-below r rs f fs (v ∷ vs) = insert_fields-below r rs f (insert_field rs v fs) vs

insert_fields-fields_from :
    (rows : List Row) (fs : Fields rows)
    → insert_fields rows (new_fields rows) (fields_from rows fs 0) ≡ fs
unfolding insert_fields new_fields fields_from insert_field
insert_fields-fields_from [] fs = refl
insert_fields-fields_from (r ∷ rs) (none, fs) =
    insert_fields-below r rs none (new_fields rs) (fields_from rs fs 0)
    ∙ ap (λ x. (none, x)) (insert_fields-fields_from rs fs)
insert_fields-fields_from (r ∷ rs) (some v, fs) =
    insert_fields-below r rs (some v) (new_fields rs) (fields_from rs fs 0)
    ∙ ap (λ x. (some v, x)) (insert_fields-fields_from rs fs)

module _ (table : Table) (tree : TreeMap) (laws : TreeMapLaws tree)
    (coll : HeaderCollection table.rows tree) where
  abbrev put :
      HeaderCollection table.rows tree → Header table.rows → HeaderCollection table.rows tree
  put = insert table.rows tree

  insert_all-known :
      (c : HeaderCollection table.rows tree) (vs : List (OneOf table.rows))
      → insert_all put c (map known vs) ≡ record c { fields = insert_fields table.rows c.fields vs }
  unfolding insert_all insert_fields insert
  insert_all-known c [] = refl
  insert_all-known c (v ∷ vs) = insert_all-known (insert table.rows tree c (known v)) vs

  insert_all-extensions :
      (c : HeaderCollection table.rows tree) (l : List (Text × Text))
      → (insert_all put c (map (as_header table tree coll) l)).fields ≡ c.fields
  unfolding insert_all insert as_header
  insert_all-extensions c [] = refl
  insert_all-extensions c ((k, v) ∷ l) = insert_all-extensions (put c (extension_header k v)) l

  lookup-insert_all :
      (c : HeaderCollection table.rows tree) (l : List (Text × Text)) (j : Text)
      → IsDistinct l
      → lookup j (tree.iter (insert_all put c (map (as_header table tree coll) l)).extensions)
        ≡ or_before (lookup j l) (lookup j (tree.iter c.extensions))
  unfolding insert_all insert as_header lookup
  lookup-insert_all c [] j d = refl
  lookup-insert_all c ((k, v) ∷ l) j (only, d) =
      lookup-insert_all (put c (extension_header k v)) l j d
      ∙ ap (or_before (lookup j l)) (laws.iter_insert c.extensions k v j)
      ∙ elim (Bool-cases (equal j k)) [
        | inl same ↦
            let e : j ≡ k = (equal_iff j k).0 same in
            let missing : lookup j l ≡ none = subst (λ n. lookup n l ≡ none) (sym e) only in
            rw (same, missing) refl
        | inr other ↦ rw other refl
      ]

  or_before_none :
      (name : Text) (l : List (Text × Text))
      → or_before (lookup name l) (lookup name []) ≡ lookup name l
  unfolding lookup
  or_before_none name [] = refl
  or_before_none name ((k, v) ∷ l) = ground (arith, or_before_none name l)

  -- The headers that the iterator gives of a collection, inserted in this order into a new
  -- collection, set each field to what it is in the first one, and each extension likewise.
  pub insert_all-headers_of :
      let again =
        insert_all (insert table.rows tree) (new table.rows tree) (headers_of table tree coll) in
      (again.fields ≡ coll.fields)
      × ((name : Text)
          → lookup name (tree.iter again.extensions) ≡ lookup name (tree.iter coll.extensions))
  unfolding headers_of new
  insert_all-headers_of =
      let vs = fields_from table.rows coll.fields 0 in
      let l = tree.iter coll.extensions in
      let start = new table.rows tree in
      let middle = insert_all put start (map known vs) in
      let e = insert_all-append put start (map known vs) (map (as_header table tree coll) l) in
      let m = insert_all-known start vs in
      (
        ap (λ c. c.fields) e
            ∙ insert_all-extensions middle l
            ∙ ap (λ c. c.fields) m
            ∙ insert_fields-fields_from table.rows coll.fields,
        λ name.
            ap (λ c. lookup name (tree.iter c.extensions)) e
            ∙ lookup-insert_all middle l name (laws.iter_distinct coll.extensions)
            ∙ ap (λ c. or_before (lookup name l) (lookup name (tree.iter c.extensions))) m
            ∙ ap (λ x. or_before (lookup name l) (lookup name x)) laws.iter_new
            ∙ or_before_none name l,
      )
