-- ===== src/Tests/Maps.antt =====
-- A map of texts as a list of entries, texts for URLs and times, and unary numbers.
use rust_http.Base.{
  subst, ◌≡◌, refl, sym, inl, inr, none, some, List, [], ◌∷◌, if◌then◌else◌, Text, length,
  replicate, equal, equal_iff, Bool-cases, arith,
}
use rust_http.Headers.Types.{TextFormats}
use rust_http.Headers.Table.{TreeMap, TreeMapLaws, IsDistinct, lookup}

unfoldable pub insert : List (Text × Text) → Text → Text → List (Text × Text)
insert [] k v = (k, v) ∷ []
insert ((j, w) ∷ m) k v = if equal k j then (k, v) ∷ m else (j, w) ∷ insert m k v

lookup-insert :
    (m : List (Text × Text)) (k v j : Text)
    → lookup j (insert m k v) ≡ (if equal j k then some v else lookup j m)
unfolding lookup insert
lookup-insert [] k v j = refl
lookup-insert ((i, w) ∷ m) k v j =
    ground (arith, equal_iff k i, equal_iff j k, equal_iff j i, lookup-insert m k v j)

insert-IsDistinct : (m : List (Text × Text)) (k v : Text) → IsDistinct m → IsDistinct (insert m k v)
unfolding insert
insert-IsDistinct [] k v d = (unfold lookup in refl, tt)
insert-IsDistinct ((i, w) ∷ m) k v (only, d) = elim (Bool-cases (equal k i)) [
  | inl same ↦ rw same (subst (λ n. lookup n m ≡ none) (sym ((equal_iff k i).0 same)) only, d)
  | inr other ↦ rw other (
    ground (arith, lookup-insert m k v i, equal_iff i k, equal_iff k i, only, other),
    insert-IsDistinct m k v d,
  )
]

unfoldable pub insert_distinct :
    (m : List (Text × Text)) × IsDistinct m → Text → Text → (m : List (Text × Text)) × IsDistinct m
unfolding insert insert-IsDistinct lookup lookup-insert
insert_distinct (m, d) k v = (insert m k v, insert-IsDistinct m k v d)

abbrev pub tree : TreeMap
tree = record {
  Map = (m : List (Text × Text)) × IsDistinct m;
  new = ([], tt);
  insert = insert_distinct;
  iter = λ m. m.0;
}

pub tree-TreeMapLaws : TreeMapLaws tree
unfolding insert_distinct
tree-TreeMapLaws = record {
  iter_new = refl;
  iter_insert = λ m. lookup-insert m.0;
  iter_distinct = λ m. m.1;
}

abbrev pub formats : TextFormats
formats = record {
  Url = Text;
  Tm = Text;
  parse_uint = λ s. some (length s);
  print_uint = λ n. replicate n b'1';
  parse_u16 = λ s. some (length s);
  print_u16 = λ n. replicate n b'1';
  parse_url = λ s. some s;
  print_url = λ s. s;
  strptime = λ s format. some s;
  to_utc = λ t. t;
  strftime = λ t format. t;
}
