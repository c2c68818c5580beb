-- ===== src/Codegen/Branchify/Lookup.antt =====
-- What the tree of `branchify` holds: a look-up of a text in it, against one in the list of
-- options.
use rust_http.Base.{
  ℕ, ◌<◌, ◌%◌, subst, ◌≡◌, refl, sym, ap, ◌∙◌, inl, inr, true, Option, none, some, List, [], ◌∷◌,
  ◌==◌, ==_iff, if◌then◌else◌, Bool-cases, All, Bytes, Text, equal, Run, returns, arith,
}
use mathlib.Core.Path.{fun_ext}
use rust_http.Codegen.Branchify.{
  Branches, ParseBranch, nil, cons, parse_branch, mem, in_children, go_down_moses, insert_all,
  branchify,
}

-- A text behind a branch, whose own result is that of the empty text.
abbrev pub under : {M : Type 0} → Option M → (ℕ → Text → Option M) → Text → Option M
under result rest [] = result
under result rest (c ∷ cs) = rest c cs

unfoldable pub find : {M : Type 0} → Branches M → ℕ → Text → Option M
unfolding mem
find nil c cs = none
find (cons (parse_branch ms result bs) more) c cs =
    let here = under result (find bs) cs in
    let there = find more c cs in if mem c ms then here else there

-- A map of texts with one more, and with a list of them, the last of a text first.
abbrev pub extended : {M : Type 0} → (Text → Option M) → Text → M → Text → Option M
extended seen key m t = if equal t key then some m else seen t

abbrev pub extended_by : {M : Type 0} → List (Text × M) → (Text → Option M) → Text → Option M
extended_by [] seen = seen
extended_by ((key, m) ∷ options) seen = extended_by options (extended seen key m)

-- No text of the list is in the map or twice in the list.
abbrev pub IsFresh : {M : Type 0} → List (Text × M) → (Text → Option M) → Type 0
IsFresh [] seen = Unit
IsFresh ((key, m) ∷ options) seen = (seen key ≡ none) × IsFresh options (extended seen key m)

-- Trees in which a branch has one byte, for which `P` holds.
abbrev pub IsOne : (ℕ → Type 0) → Bytes → Type 0
IsOne P [] = ⊥
IsOne P (m ∷ []) = P m
IsOne P (m ∷ _ ∷ _) = ⊥

abbrev pub IsPlain : {M : Type 0} → (ℕ → Type 0) → Branches M → Type 0
IsPlain P nil = Unit
IsPlain P (cons (parse_branch ms result bs) more) = IsOne P ms × (IsPlain P bs × IsPlain P more)

under-nil : {M : Type 0} (ks : Text) → under {M = M} none (find nil) ks ≡ none
unfolding find
under-nil [] = refl
under-nil (k ∷ ks) = refl

module _ {M : Type 0} (P : ℕ → Type 0) where
  -- What `f`, the insertion of a text, makes of a branch.
  record Inserted (f : ParseBranch M → Run (ParseBranch M)) (ms : Bytes) (result : Option M)
      (bs : Branches M) (key : Text) (m : M) : Type 0 where
    result' : Option M
    children' : Branches M
    goes : f (parse_branch ms result bs) ≡ returns (parse_branch ms result' children')
    plain : IsPlain P children'
    finds :
        (t : Text)
        → under result' (find children') t
          ≡ (if equal t key then some m else under result (find bs) t)

  -- The same of the list of children.
  record InsertedBelow (f : Branches M → Run (Branches M)) (bs : Branches M) (k : ℕ) (ks : Text)
      (m : M) : Type 0 where
    children' : Branches M
    goes : f bs ≡ returns children'
    plain : IsPlain P children'
    finds :
        (c : ℕ) (cs : Text)
        → find children' c cs ≡ (if equal (c ∷ cs) (k ∷ ks) then some m else find bs c cs)

  module _ (f : ParseBranch M → Run (ParseBranch M)) (k : ℕ) (ks : Text) (m : M)
      (ih : (ms : Bytes) (result : Option M) (bs : Branches M)
        → IsPlain P bs
        → under result (find bs) ks ≡ none
        → Inserted f ms result bs ks m)
      (hk : P k) where
    in_children-Inserted :
        (bs : Branches M)
        → IsPlain P bs
        → find bs k ks ≡ none
        → InsertedBelow (in_children f k (k ∷ [])) bs k ks m
    unfolding in_children find mem equal
    in_children-Inserted nil h missing =
        let i = ih (k ∷ []) none nil tt (under-nil ks) in
        record {
          children' = cons (parse_branch (k ∷ []) i.result' i.children') nil;
          goes = rw i.goes;
          plain = (hk, (i.plain, tt));
          finds = λ c cs. ground (arith, i.finds cs);
        }
    in_children-Inserted (cons (parse_branch [] result bs) more) h missing = absurd h.0
    in_children-Inserted (cons (parse_branch (a ∷ b ∷ ms) result bs) more) h missing = absurd h.0
    in_children-Inserted (cons (parse_branch (a ∷ []) result bs) more) (ha, (hbs, hmore)) missing =
        elim (Bool-cases (a == k)) [
          | inl same ↦
              let e : a ≡ k = (==_iff a k).0 same in
              let i = ih (a ∷ []) result bs hbs (ground (arith, missing, ==_iff k k, e)) in
              record {
                children' = cons (parse_branch (a ∷ []) i.result' i.children') more;
                goes = rw (same, i.goes) refl;
                plain = (ha, (i.plain, hmore));
                finds = λ c cs. ground (arith, i.finds cs, e);
              }
          | inr other ↦
              let i = in_children-Inserted more hmore (ground (arith, missing, other)) in
              record {
                children' = cons (parse_branch (a ∷ []) result bs) i.children';
                goes = rw (other, i.goes) refl;
                plain = (ha, (hbs, i.plain));
                finds = λ c cs. ground (arith, i.finds c cs, other);
              }
        ]

  at_empty :
      (m : M) {result : Option M} (bs : Branches M) (t : Text)
      → result ≡ none
      → under (some m) (find bs) t ≡ (if equal t [] then some m else under result (find bs) t)
  unfolding equal
  at_empty m bs [] h = refl
  at_empty m bs (c ∷ cs) h = refl

  below :
      (k : ℕ) (ks : Text) (m : M) (result : Option M) (bs bs' : Branches M)
      → ((c : ℕ) (cs : Text)
          → find bs' c cs ≡ (if equal (c ∷ cs) (k ∷ ks) then some m else find bs c cs))
      → (t : Text)
      → under result (find bs') t ≡ (if equal t (k ∷ ks) then some m else under result (find bs) t)
  unfolding equal
  below k ks m result bs bs' h [] = refl
  below k ks m result bs bs' h (c ∷ cs) = h c cs

  go_down_moses-Inserted :
      (key : Text) (m : M) (ms : Bytes) (result : Option M) (bs : Branches M)
      → All (λ c. (c < 256) × P c) key
      → IsPlain P bs
      → under result (find bs) key ≡ none
      → Inserted (go_down_moses key m true) ms result bs key m
  unfolding go_down_moses equal
  go_down_moses-Inserted [] m ms result bs h plain missing = record {
    result' = some m;
    children' = bs;
    goes = rw missing refl;
    plain = plain;
    finds = λ t. at_empty m bs t missing;
  }
  go_down_moses-Inserted (k ∷ ks) m ms result bs ((low, hk), h) plain missing =
      let i =
        in_children-Inserted (go_down_moses ks m true) k ks m
          (λ ms' result' bs' plain' missing'.
            go_down_moses-Inserted ks m ms' result' bs' h plain' missing')
          hk bs plain missing in
      let same : k % 256 ≡ k = omega arith in
      record {
        result' = result;
        children' = i.children';
        goes = rw (same, i.goes) refl;
        plain = i.plain;
        finds = below k ks m result bs i.children' i.finds;
      }

  insert_all-find :
      (options : List (Text × M)) (ms : Bytes) (result : Option M) (bs : Branches M)
      → All (λ o. All (λ c. (c < 256) × P c) o.0) options
      → IsPlain P bs
      → IsFresh options (under result (find bs))
      → (result' : Option M) × (bs' : Branches M) × (insert_all options true
            (parse_branch ms result bs)
          ≡ returns (parse_branch ms result' bs'))
        × (IsPlain P bs')
        × (under result' (find bs') ≡ extended_by options (under result (find bs)))
  unfolding insert_all
  insert_all-find [] ms result bs h plain fresh = (result, bs, refl, plain, refl)
  insert_all-find ((key, m) ∷ options) ms result bs (hk, h) plain (missing, fresh) =
      let i = go_down_moses-Inserted key m ms result bs hk plain missing in
      let finds : under i.result' (find i.children') ≡ extended (under result (find bs)) key m =
        fun_ext i.finds in
      let (result', bs', goes, plain', finds') =
        insert_all-find options ms i.result' i.children' h i.plain
          (subst (IsFresh options) (sym finds) fresh) in
      (result', bs', rw i.goes goes, plain', finds' ∙ ap (extended_by options) finds)

  -- Where no text stands twice among the options, and every character is a byte for which `P`
  -- holds, `branchify` with case builds a tree without failing; every branch of it has one byte,
  -- with `P`, and what it holds for a text that is not empty is what the options say of that text.
  pub branchify-find :
      (options : List (Text × M))
      → All (λ o. All (λ c. (c < 256) × P c) o.0) options
      → IsFresh options (λ _. none)
      → (bs : Branches M) × (branchify options true ≡ returns bs)
        × (IsPlain P bs)
        × ((c : ℕ) (cs : Text) → find bs c cs ≡ extended_by options (λ _. none) (c ∷ cs))
  unfolding branchify
  branchify-find options h fresh =
      let start : under {M = M} none (find nil) ≡ (λ _. none) = fun_ext under-nil in
      let (result', bs, goes, plain, finds) =
        insert_all-find options [] none nil h tt (subst (IsFresh options) (sym start) fresh) in
      (
        bs,
        rw goes refl,
        plain,
        λ c cs. ap (λ f. f (c ∷ cs)) finds ∙ ap (λ f. extended_by options f (c ∷ cs)) start,
      )
