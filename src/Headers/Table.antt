-- ===== src/Headers/Table.antt =====
-- src/libhttp/headers/mod.rs: what the macro `headers_mod!` makes of a table of headers: the type
-- `Header`, the `HeaderCollection` and its iterator, and `HeaderEnum` for a header. The macro's
-- rows are an argument here. `extra::treemap` is not in this repository: it is a parameter.
pub mod Iteration
pub mod Insertion
pub mod Dispatch
pub mod Rebuilt
use mathlib.Core.Option
use rust_http.Base.{
  ℕ, zero, suc, ◌+◌, ◌≡◌, ◌⊎◌, inl, inr, Bool, true, false, Option, none, some, List, [], ◌∷◌, ◌++◌,
  ltb, ◌==◌, if◌then◌else◌, length, Bytes, Text, codes, equal, as_bytes, Run, returns, fails,
  runs_out, and_then,
}
use rust_http.Headers.Readers.{Reading, ◌>>=◌, pure, collect_to_str}
use rust_http.Headers.Serialization.{write}
use rust_http.Headers.Convertible.{HeaderConvertible}

-- One line of the table. Its number is its place, and its two identifiers have no counterpart here.
pub record Row : Type 1 where
  pub output_name : Text
  pub input_name : Text
  pub Value : Type 0
  pub convertible : HeaderConvertible Value

pub record Table : Type 1 where
  pub num_headers : ℕ
  pub rows : List Row

-- A value of one of the rows: a constructor of `Header` other than the last.
abbrev pub OneOf : List Row → Type 0
OneOf [] = ⊥
OneOf (r ∷ rs) = r.Value ⊎ OneOf rs

pub data Header (rows : List Row) : Type 0 where
  known : OneOf rows → Header rows
  extension_header : Text → Text → Header rows

-- The fields of `HeaderCollection` but the last.
abbrev pub Fields : List Row → Type 0
Fields [] = Unit
Fields (r ∷ rs) = Option r.Value × Fields rs

-- `TreeMap<~str, ~str>`: `iter` goes through the entries.
pub record TreeMap : Type 1 where
  pub Map : Type 0
  pub new : Map
  pub insert : Map → Text → Text → Map
  pub iter : Map → List (Text × Text)

unfoldable pub lookup : Text → List (Text × Text) → Option Text
lookup k [] = none
lookup k ((j, v) ∷ m) = if equal k j then some v else lookup k m

-- No key stands twice.
abbrev pub IsDistinct : List (Text × Text) → Type 0
IsDistinct [] = Unit
IsDistinct ((k, v) ∷ m) = (lookup k m ≡ none) × IsDistinct m

-- What its documentation promises: `iter` shows each key once, and an entry replaces the one of the
-- same key, if there is one.
pub record TreeMapLaws (tree : TreeMap) : Type 0 where
  pub iter_new : tree.iter tree.new ≡ []
  pub iter_insert :
      (m : tree.Map) (k v j : Text)
      → lookup j (tree.iter (tree.insert m k v))
        ≡ (if equal j k then some v else lookup j (tree.iter m))
  pub iter_distinct : (m : tree.Map) → IsDistinct (tree.iter m)

pub record HeaderCollection (rows : List Row) (tree : TreeMap) : Type 0 where
  pub fields : Fields rows
  pub extensions : tree.Map

unfoldable pub new_fields : (rows : List Row) → Fields rows
new_fields [] = tt
new_fields (r ∷ rs) = (none, new_fields rs)

unfoldable pub new : (rows : List Row) (tree : TreeMap) → HeaderCollection rows tree
unfolding new_fields
new rows tree = record { fields = new_fields rows; extensions = tree.new }

unfoldable pub insert_field : (rows : List Row) → OneOf rows → Fields rows → Fields rows
insert_field [] v fs = tt
insert_field (r ∷ rs) (inl v) (f, fs) = (some v, fs)
insert_field (r ∷ rs) (inr v) (f, fs) = (f, insert_field rs v fs)

-- The field of the row with a number.
unfoldable pub field_at : (rows : List Row) → Fields rows → ℕ → Option (OneOf rows)
field_at [] fs i = none
field_at (r ∷ rs) (f, fs) zero = elim f [ some v ↦ some (inl v) | none ↦ none ]
field_at (r ∷ rs) (f, fs) (suc i) = elim (field_at rs fs i) [ some v ↦ some (inr v) | none ↦ none ]

unfoldable pub known_name : (rows : List Row) → OneOf rows → Text
known_name [] v = []
known_name (r ∷ rs) (inl v) = r.output_name
known_name (r ∷ rs) (inr v) = known_name rs v

unfoldable pub known_value : (rows : List Row) → OneOf rows → Text
known_value [] v = []
known_value (r ∷ rs) (inl v) = r.convertible.http_value v
known_value (r ∷ rs) (inr v) = known_value rs v

abbrev pub crlf : Bytes
crlf = 13 ∷ 10 ∷ []

unfoldable pub write_known : (rows : List Row) → OneOf rows → Bytes → Run Bytes
unfolding write
write_known [] v writer = returns writer
write_known (r ∷ rs) (inl v) writer =
    and_then (r.convertible.to_stream v (write writer (r.output_name ++ codes ": ")))
      (λ w. returns (write w crlf))
write_known (r ∷ rs) (inr v) writer = write_known rs v writer

-- The arms for the rows in `value_from_stream`, the first of a name; `None` where there is none.
unfoldable pub known_from_stream :
    (rows : List Row) → ℕ → Text → Option (Reading (Option (OneOf rows)))
known_from_stream [] fuel name = none
known_from_stream (r ∷ rs) fuel name =
    let rest = known_from_stream rs fuel name in
    if equal name r.input_name
    then some (do
      v ← r.convertible.from_stream fuel
      pure (elim v [ some x ↦ some (inl x) | none ↦ none ]))
    else elim rest [
      | some m ↦ some (do v ← m; pure (elim v [ some x ↦ some (inr x) | none ↦ none ]))
      | none ↦ none
    ]

module _ (rows : List Row) where
  unfoldable pub header_name : Header rows → Text
  unfolding known_name
  header_name (known v) = known_name rows v
  header_name (extension_header name value) = name

  unfoldable pub header_value : Header rows → Text
  unfolding known_value
  header_value (known v) = known_value rows v
  header_value (extension_header name value) = value

  unfoldable pub write_header : Header rows → Bytes → Run Bytes
  unfolding write_known write
  write_header (known v) writer = write_known rows v writer
  write_header (extension_header name value) writer =
      returns (write (write writer (as_bytes ((name ++ codes ": ") ++ value))) crlf)

  unfoldable pub or_extension :
      ℕ → Text → Option (Reading (Option (OneOf rows))) → Reading (Option (Header rows))
  or_extension fuel name (some m) = do
    v ← m
    pure (elim v [ some x ↦ some (known x) | none ↦ none ])
  or_extension fuel name none = do
    value ← collect_to_str fuel
    pure (some (extension_header name value))

  unfoldable pub value_from_stream : ℕ → Text → Reading (Option (Header rows))
  unfolding known_from_stream or_extension
  value_from_stream fuel name = or_extension fuel name (known_from_stream rows fuel name)

  module _ (tree : TreeMap) where
    unfoldable pub insert : HeaderCollection rows tree → Header rows → HeaderCollection rows tree
    unfolding insert_field
    insert coll (known v) = record coll { fields = insert_field rows v coll.fields }
    insert coll (extension_header key value) = record coll {
      extensions = tree.insert coll.extensions key value;
    }

-- `coll` is an argument of the functions. What is left of the iterator over the extensions is a
-- list.
pub record HeaderCollectionIterator : Type 0 where
  pub pos : ℕ
  pub ext_iter : Option (List (Text × Text))

abbrev pub iter : HeaderCollectionIterator
iter = record { pos = 0; ext_iter = none }

module _ (table : Table) (tree : TreeMap) (coll : HeaderCollection table.rows tree) where
  -- The last arm of `next`: `get_mut_ref` fails on `None`.
  unfoldable pub next_extension :
      ℕ → Option (List (Text × Text)) → Run (Option (Header table.rows) × HeaderCollectionIterator)
  next_extension pos none = fails
  next_extension pos (some []) = returns (none, record { pos = pos; ext_iter = some [] })
  next_extension pos (some ((k, v) ∷ more)) =
      returns (some (extension_header k v), record { pos = pos; ext_iter = some more })

  -- The `loop` of `next`; a collection has less than 2 ^ 64 headers, so `pos` does not wrap.
  unfoldable pub next :
      ℕ → HeaderCollectionIterator → Run (Option (Header table.rows) × HeaderCollectionIterator)
  unfolding field_at next_extension
  next zero it = runs_out
  next (suc fuel) it =
      let pos = it.pos in
      elim (ltb pos (length table.rows)) [
        | true ↦ elim (field_at table.rows coll.fields pos) [
          | some v ↦ returns (some (known v), record it { pos = pos + 1 })
          | none ↦ next fuel (record it { pos = pos + 1 })
        ]
        | false ↦ elim (pos == table.num_headers) [
          | true ↦ next fuel (record { pos = pos + 1; ext_iter = some (tree.iter coll.extensions) })
          | false ↦ next_extension (pos + 1) it.ext_iter
        ]
      ]

  -- The `for` of `write_all`; `rounds` bounds its rounds, `fuel` the loop of `next`.
  unfoldable pub write_loop : ℕ → ℕ → HeaderCollectionIterator → Bytes → Run Bytes
  unfolding next write_header
  write_loop fuel zero it writer = runs_out
  write_loop fuel (suc rounds) it writer = and_then (next fuel it) (λ p. elim p.0 [
    | none ↦ returns writer
    | some h ↦ and_then (write_header table.rows h writer) (write_loop fuel rounds p.1)
  ])

  unfoldable pub write_all : ℕ → ℕ → Bytes → Run Bytes
  unfolding write_loop write
  write_all fuel rounds writer =
      and_then (write_loop fuel rounds iter writer) (λ w. returns (write w crlf))
