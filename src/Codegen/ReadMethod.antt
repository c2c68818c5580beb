-- ===== src/Codegen/ReadMethod.antt =====
-- src/libhttp/codegen/read_method.rs: the parser of methods that the build generates, and its use
-- in src/libhttp/server/request.rs.
use rust_http.Base.{
  false, ℕ, ◌≤◌, ◌<◌, ◌≡◌, refl, sym, ap, ◌∙◌, subst, [], ◌∷◌, ◌++◌, List, All, length, Option,
  none, some, true, Bytes, Text, codes, equal, equal_iff, arith, returns, fails, runs_out,
}
use rust_http.Rfc2616.{sp, is_token_item, is_token}
use rust_http.Rfc2616.Classes.{is_token-cons, is_token-IsAscii, is_token_item-IsPlain}
use rust_http.Method.{
  Method, connect, delete, get, head, options, patch, post, put, trace, extension_method, is_ascii,
  from_str_or_new,
}
use rust_http.Method.Names.{IsAscii-is_ascii}
use rust_http.Codegen.Branchify.{Branches, nil, branchify, branchified_method, result_or_unknown}
use rust_http.Codegen.Branchify.Lookup.{extended_by, IsFresh, IsPlain, find, branchify-find}
use rust_http.Codegen.Branchify.Parsing.{branchified_method_lem}

abbrev pub max_method_len : ℕ
max_method_len = 64

abbrev pub known_methods : List (Text × Method)
known_methods =
    (codes "CONNECT", connect)
    ∷ (codes "DELETE", delete)
    ∷ (codes "GET", get)
    ∷ (codes "HEAD", head)
    ∷ (codes "OPTIONS", options)
    ∷ (codes "PATCH", patch)
    ∷ (codes "POST", post)
    ∷ (codes "PUT", put)
    ∷ (codes "TRACE", trace)
    ∷ []

-- What `branchify!` gives; it does not fail, by `method_branches_lem`.
unfoldable pub method_branches : Branches Method
unfolding branchify
method_branches = elim (branchify known_methods true) [
  | returns bs ↦ bs
  | fails ↦ nil
  | runs_out ↦ nil
]

unfoldable pub read_method : Bytes → Option Method × Bytes
unfolding method_branches branchified_method
read_method = branchified_method is_token_item extension_method sp max_method_len method_branches

token-IsValid : (t : Text) → is_token t ≡ true → All (λ b. is_token_item b ≡ true) t
token-IsValid [] h = tt
token-IsValid (c ∷ t) h = let (item, more) = is_token-cons c t h in (item, token-IsValid t more)

is_token_item_ascii : (b : ℕ) → is_token_item b ≡ true → b < 128
is_token_item_ascii b h = (is_token_item-IsPlain b h).ascii

token_key : (t : Text) → is_token t ≡ true → All (λ c. (c < 256) × (is_token_item c ≡ true)) t
token_key [] h = tt
token_key (c ∷ t) h =
    let (item, more) = is_token-cons c t h in
    ((omega (arith, is_token_item_ascii c item), item), token_key t more)

known_methods-IsFresh : IsFresh known_methods (λ _. none)
unfolding equal
known_methods-IsFresh = (refl, (refl, (refl, (refl, (refl, (refl, (refl, (refl, (refl, tt)))))))))

known_methods-valid : All (λ o. All (λ c. (c < 256) × (is_token_item c ≡ true)) o.0) known_methods
unfolding is_token
known_methods-valid = (
  token_key (codes "CONNECT") refl,
  (
    token_key (codes "DELETE") refl,
    (
      token_key (codes "GET") refl,
      (
        token_key (codes "HEAD") refl,
        (
          token_key (codes "OPTIONS") refl,
          (
            token_key (codes "PATCH") refl,
            (
              token_key (codes "POST") refl,
              (token_key (codes "PUT") refl, (token_key (codes "TRACE") refl, tt)),
            ),
          ),
        ),
      ),
    ),
  ),
)

from_known_methods :
    (t : Text)
    → is_ascii t ≡ true
    → from_str_or_new t
      ≡ returns (
          some (
            result_or_unknown is_token_item extension_method
              (extended_by known_methods (λ _. none) t)
              t))
unfolding from_str_or_new
from_known_methods t h = ground (
  arith,
  equal_iff t (codes "OPTIONS"),
  equal_iff t (codes "GET"),
  equal_iff t (codes "HEAD"),
  equal_iff t (codes "POST"),
  equal_iff t (codes "PUT"),
  equal_iff t (codes "DELETE"),
  equal_iff t (codes "TRACE"),
  equal_iff t (codes "CONNECT"),
  equal_iff t (codes "PATCH"),
)

-- The tree of methods is built without a failure, and holds what the list says.
method_branches_lem :
    (branchify known_methods true ≡ returns method_branches)
    × IsPlain (λ c. is_token_item c ≡ true) method_branches
    × ((b : ℕ) (t : Text)
        → find method_branches b t ≡ extended_by known_methods (λ _. none) (b ∷ t))
unfolding method_branches
method_branches_lem =
    let (bs, goes, plain, finds) =
      branchify-find (λ c. is_token_item c ≡ true) known_methods known_methods-valid
        known_methods-IsFresh in
    let same : method_branches ≡ bs =
      ap (λ r. elim r [ returns x ↦ x | fails ↦ nil | runs_out ↦ nil ]) goes in
    (
      goes ∙ ap returns (sym same),
      subst (IsPlain (λ c. is_token_item c ≡ true)) (sym same) plain,
      λ b t. ap (λ x. find x b t) same ∙ finds b t,
    )

not_sp : is_token_item sp ≡ false
unfolding is_token_item
not_sp = refl

-- `read_method` on a token of up to 64 characters that is not empty, with a space behind it,
-- returns the method that `from_str_or_new` takes the token for, and leaves what stands behind the
-- space.
pub read_method-from_str_or_new :
    (b : ℕ) (t stream : Text)
    → is_token (b ∷ t) ≡ true
    → length (b ∷ t) ≤ 64
    → (m : Method) × (read_method (b ∷ (t ++ sp ∷ stream)) ≡ (some m, stream))
      × (from_str_or_new (b ∷ t) ≡ returns (some m))
unfolding read_method
read_method-from_str_or_new b t stream h room =
    let found =
      result_or_unknown is_token_item extension_method (find method_branches b t) (b ∷ t) in
    (
      found,
      branchified_method_lem is_token_item extension_method max_method_len is_token_item_ascii
          not_sp method_branches b t stream method_branches_lem.1 (token-IsValid (b ∷ t) h) room,
      from_known_methods (b ∷ t) (IsAscii-is_ascii (b ∷ t) (is_token-IsAscii (b ∷ t) h))
          ∙ ap (λ f. returns (some (result_or_unknown is_token_item extension_method f (b ∷ t))))
              (sym (method_branches_lem.2 b t)),
    )
