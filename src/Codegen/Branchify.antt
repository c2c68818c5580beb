-- ===== src/Codegen/Branchify.antt =====
-- src/libhttp/codegen/branchify.rs: a tree of the texts that a parser knows, and the parser that is
-- generated from it. The generator prints Rust; here the parser is what that Rust does, as a
-- function of the tree, on the list of the bytes to come. What a text is read as, the source's
-- identifier after `=>`, is a value of any type `M`.
pub mod Lookup
pub mod Parsing
use rust_http.Base.{
  ℕ, ◌%◌, Bool, true, false, ◌||◌, Option, none, some, List, [], ◌∷◌, ◌++◌, ltb, ◌==◌,
  if◌then◌else◌, length, Bytes, Text, as_bytes, to_upper, to_lower, Run, returns, fails, ◌>>=◌,
}
use rust_http.Rfc2616.{sp}

mutual
  pub data ParseBranch (M : Type 0) : Type 0 where
    parse_branch : Bytes → Option M → Branches M → ParseBranch M

  pub data Branches (M : Type 0) : Type 0 where
    nil : Branches M
    cons : ParseBranch M → Branches M → Branches M

-- `ParseBranch::new()`
abbrev pub new : {M : Type 0} → ParseBranch M
new = parse_branch [] none nil

-- `c as u8`, or the upper case of a character that has to be ASCII.
unfoldable pub first_case : Bool → ℕ → Run ℕ
first_case true c = returns (c % 256)
first_case false c = if ltb c 128 then returns (to_upper c) else fails

-- The bytes of a new branch.
unfoldable pub matches_of : Bool → ℕ → ℕ → Bytes
matches_of true first c = first ∷ []
matches_of false first c = if first == to_lower c then first ∷ [] else first ∷ to_lower c ∷ []

-- The loop over the children, and the new child where none of them fits: `go_on` is the call on the
-- child.
unfoldable pub in_children :
    {M : Type 0} → (ParseBranch M → Run (ParseBranch M)) → ℕ → Bytes → Branches M → Run (Branches M)
in_children go_on first matches nil =
    go_on (parse_branch matches none nil) >>= λ b. returns (cons b nil)
in_children go_on first matches (cons (parse_branch [] result children) more) = fails
in_children go_on first matches (cons (parse_branch (m ∷ ms) result children) more) =
    let rest = in_children go_on first matches more in
    if m == first
    then (go_on (parse_branch (m ∷ ms) result children) >>= λ b. returns (cons b more))
    else (rest >>= λ bs. returns (cons (parse_branch (m ∷ ms) result children) bs))

-- `assert!(branch.result.is_none()); branch.result = Some(result)`
unfoldable pub set_result : {M : Type 0} → M → ParseBranch M → Run (ParseBranch M)
set_result result (parse_branch ms none children) = returns (parse_branch ms (some result) children)
set_result result (parse_branch ms (some _) children) = fails

with_children : {M : Type 0} → (Branches M → Run (Branches M)) → ParseBranch M → Run (ParseBranch M)
with_children f (parse_branch ms result children) =
    f children >>= λ bs. returns (parse_branch ms result bs)

unfoldable pub go_down_moses : {M : Type 0} → Text → M → Bool → ParseBranch M → Run (ParseBranch M)
unfolding first_case matches_of in_children set_result with_children
go_down_moses [] result case_sensitive branch = set_result result branch
go_down_moses (c ∷ chariter) result case_sensitive branch = first_case case_sensitive c >>= λ first.
    with_children
      (in_children (go_down_moses chariter result case_sensitive) first
        (matches_of case_sensitive first c))
      branch

unfoldable pub insert_all :
    {M : Type 0} → List (Text × M) → Bool → ParseBranch M → Run (ParseBranch M)
unfolding go_down_moses
insert_all [] case_sensitive root = returns root
insert_all ((key, result) ∷ options) case_sensitive root =
    go_down_moses key result case_sensitive root >>= λ root'.
    insert_all options case_sensitive root'

abbrev pub children : {M : Type 0} → ParseBranch M → Branches M
children (parse_branch ms result bs) = bs

unfoldable pub branchify : {M : Type 0} → List (Text × M) → Bool → Run (Branches M)
unfolding insert_all
branchify options case_sensitive =
    insert_all options case_sensitive new >>= λ root. returns (children root)

-- Where the generated `match` on the first bytes leads: it returns, or it gives the text that was
-- matched and the byte behind it.
pub data Matched (M : Type 0) : Type 0 where
  returned : Option M → Bytes → Matched M
  unmatched : Text → ℕ → Bytes → Matched M

unfoldable pub mem : ℕ → Bytes → Bool
mem b [] = false
mem b (c ∷ cs) = b == c || mem b cs

module _ {M : Type 0} (valid : ℕ → Bool) (unknown : Text → M) where
  abbrev pub result_or_unknown : Option M → Text → M
  result_or_unknown (some result) prefix = result
  result_or_unknown none prefix = unknown prefix

  -- The arms behind those of the children, and the inner `match` with the children's arms first.
  unfoldable pub other_arms : Option M → Text → ℕ → Bytes → Option (Matched M) → Matched M
  other_arms result prefix b stream (some m) = m
  other_arms result prefix b stream none =
      if b == sp
      then returned (some (result_or_unknown result prefix)) stream
      else if valid b
      then unmatched prefix b stream
      else returned none stream

  unfoldable pub inner_match :
      Option M → (Text → ℕ → Bytes → Option (Matched M)) → Text → Bytes → Matched M
  unfolding other_arms
  inner_match result arms prefix [] = returned none []
  inner_match result arms prefix (b ∷ stream) =
      other_arms result prefix b stream (arms prefix b stream)

  -- The arms that `r` prints for a list of branches, `None` where no arm takes the byte.
  unfoldable pub arms : Branches M → Text → ℕ → Bytes → Option (Matched M)
  unfolding mem inner_match
  arms nil prefix b stream = none
  arms (cons (parse_branch ms result bs) more) prefix b stream =
      let here = inner_match result (arms bs) (prefix ++ b ∷ []) stream in
      let there = arms more prefix b stream in if mem b ms then some here else there

  module _ (end max_len : ℕ) where
    -- The `loop` that reads the rest.
    unfoldable pub rest_loop : Text → Bytes → Option M × Bytes
    rest_loop s [] = (none, [])
    rest_loop s (b ∷ stream) =
        let rest = rest_loop (s ++ b ∷ []) stream in
        if b == end
        then (some (unknown s), stream)
        else if valid b
        then (if length (as_bytes s) == max_len then (none, stream) else rest)
        else (none, stream)

    unfoldable pub after_match : Matched M → Option M × Bytes
    unfolding rest_loop
    after_match (returned m stream) = (m, stream)
    after_match (unmatched s next_byte stream) = rest_loop (s ++ next_byte ∷ []) stream

    -- The last arms of the outer `match`: it has none for the end.
    unfoldable pub outer_arms : ℕ → Bytes → Option (Matched M) → Matched M
    outer_arms b stream (some m) = m
    outer_arms b stream none = if valid b then unmatched [] b stream else returned none stream

    unfoldable pub branchified_method : Branches M → Bytes → Option M × Bytes
    unfolding arms outer_arms after_match
    branchified_method branches [] = (none, [])
    branchified_method branches (b ∷ stream) =
        after_match (outer_arms b stream (arms branches [] b stream))
