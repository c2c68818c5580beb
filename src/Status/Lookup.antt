-- ===== src/Status/Lookup.antt =====
-- What the generated functions of `http::status` do for every code and reason.
use rust_http.Base.{
  ℕ, ◌≡◌, refl, sym, ap, ap₂, ◌∙◌, ◌⊎◌, ◌≢◌, Bool, true, false, ◌&&◌, none, some, List, [], ◌∷◌,
  ◌==◌, Text, equal, equal_iff, to_upper, to_lower, to_ascii_lower, arith, Option-cases, Bool-cases,
  inl, inr,
}
use rust_http.Status.{
  Entry, cleaned, camel_loop, camel_case, ident, entries, statuses, find, Status, variant,
  unregistered_status, code, reason, from_code_and_reason, contains, number_arms, from_u64,
}

-- A test that holds of all entries.
every : (Entry → Bool) → List Entry → Bool
every test [] = true
every test (e ∷ es) = test e && every test es

-- Whether the name of an entry leads back to its code and its reason.
names_itself : Entry → Bool
names_itself e = elim (find (λ e'. equal (ident e') (ident e)) (statuses entries)) [
  | some e' ↦ e'.code_ == e.code_ && equal e'.phrase e.phrase
  | none ↦ false
]

all_name_themselves : every names_itself (statuses entries) ≡ true
unfolding every names_itself find ident camel_case camel_loop cleaned statuses entries equal
    to_upper to_lower
all_name_themselves = refl

find_sound :
    (test : Entry → Bool) (es : List Entry) (e : Entry)
    → find test es ≡ some e
    → (test e ≡ true) × ((q : Entry → Bool) → every q es ≡ true → q e ≡ true)
unfolding find every
find_sound test [] e h = cc
find_sound test (d ∷ es) e h = elim (Bool-cases (test d)) [
  | inl hit ↦ (ground (arith, h, hit), λ q all. ground (arith, h, hit, all))
  | inr miss ↦
      let below = find_sound test es e (ground (arith, h, miss)) in
      (below.0, λ q all. below.1 q (ground (arith, all)))
]

code-found :
    (name : Text) (e : Entry)
    → find (λ e'. equal (ident e') name) (statuses entries) ≡ some e
    → code (variant name) ≡ some e.code_
unfolding code
code-found name e h = ap (λ o. elim o [ some d ↦ some d.code_ | none ↦ none ]) h

reason-found :
    (name : Text) (e : Entry)
    → find (λ e'. equal (ident e') name) (statuses entries) ≡ some e
    → reason (variant name) ≡ some e.phrase
unfolding reason
reason-found name e h = ap (λ o. elim o [ some d ↦ some d.phrase | none ↦ none ]) h

-- The entry that a name's arm comes from.
record ArmOf (name : Text) : Type 0 where
  entry : Entry
  named : ident entry ≡ name
  has_code : code (variant name) ≡ some entry.code_
  has_reason : reason (variant name) ≡ some entry.phrase
  in_table : (q : Entry → Bool) → every q (statuses entries) ≡ true → q entry ≡ true

ArmOf-code : (name : Text) (c : ℕ) → code (variant name) ≡ some c → ArmOf name
unfolding code reason
ArmOf-code name c h = elim (Option-cases (find (λ e. equal (ident e) name) (statuses entries))) [
  | inl missing ↦ absurd (ground (arith, missing, h))
  | inr (e, found) ↦
      let (test, all) = find_sound (λ e. equal (ident e) name) (statuses entries) e found in
      record {
        entry = e;
        named = (equal_iff (ident e) name).0 test;
        has_code = code-found name e found;
        has_reason = reason-found name e found;
        in_table = all;
      }
]

own_arm :
    (e : Entry)
    → ((q : Entry → Bool) → every q (statuses entries) ≡ true → q e ≡ true)
    → (code (variant (ident e)) ≡ some e.code_) × (reason (variant (ident e)) ≡ some e.phrase)
unfolding code reason names_itself
own_arm e all = elim (Option-cases (find (λ e'. equal (ident e') (ident e)) (statuses entries))) [
  | inl missing ↦ absurd (ground (arith, missing, all names_itself all_name_themselves))
  | inr (e', found) ↦
      let t = all names_itself all_name_themselves in
      (
        code-found (ident e) e' found ∙ ground (arith, found, t),
        reason-found (ident e) e' found ∙ ground (arith, found, t, equal_iff e'.phrase e.phrase),
      )
]

-- Whether an entry answers to a code and a reason.
answers : ℕ → Text → Entry → Bool
answers c r e = e.code_ == c && equal (to_ascii_lower e.phrase) (to_ascii_lower r)

from_code_and_reason-none :
    (c : ℕ) (r : Text)
    → find (answers c r) (statuses entries) ≡ none
    → from_code_and_reason c r ≡ unregistered_status c r
unfolding from_code_and_reason answers
from_code_and_reason-none c r h =
    ap (λ o. elim o [ some e ↦ variant (ident e) | none ↦ unregistered_status c r ]) h

from_code_and_reason-some :
    (c : ℕ) (r : Text) (e : Entry)
    → find (answers c r) (statuses entries) ≡ some e
    → from_code_and_reason c r ≡ variant (ident e)
unfolding from_code_and_reason answers
from_code_and_reason-some c r e h =
    ap (λ o. elim o [ some d ↦ variant (ident d) | none ↦ unregistered_status c r ]) h

-- A status made from any code and reason has that code, and that reason but for the case of its
-- letters.
pub from_code_and_reason_lem :
    (c : ℕ) (r : Text)
    → (code (from_code_and_reason c r) ≡ some c)
      × ((r' : Text) × (reason (from_code_and_reason c r) ≡ some r')
          × (to_ascii_lower r' ≡ to_ascii_lower r))
unfolding answers
from_code_and_reason_lem c r = elim (Option-cases (find (answers c r) (statuses entries))) [
  | inl missing ↦
      rw (from_code_and_reason-none c r missing) (unfold code reason in (refl, (r, refl, refl)))
  | inr (e, found) ↦
      let (hit, all) = find_sound (answers c r) (statuses entries) e found in
      let (own_code, own_reason) = own_arm e all in
      rw (from_code_and_reason-some c r e found) (
        ground (arith, own_code, hit),
        (
          e.phrase,
          own_reason,
          ground (arith, hit, equal_iff (to_ascii_lower e.phrase) (to_ascii_lower r)),
        ),
      )
]

-- Whether the code and the reason of an entry give its own variant.
is_read_back : Entry → Bool
is_read_back e = elim (from_code_and_reason e.code_ e.phrase) [
  | variant name ↦ equal name (ident e)
  | unregistered_status _ _ ↦ false
]

all_are_read_back : every is_read_back (statuses entries) ≡ true
unfolding every is_read_back from_code_and_reason find ident camel_case camel_loop cleaned statuses
    entries equal to_upper to_lower
all_are_read_back = refl

has_number : Entry → Bool
has_number e = elim (from_u64 e.code_) [ some s ↦ true | none ↦ false ]

all_have_numbers : every has_number (statuses entries) ≡ true
unfolding every has_number from_u64 number_arms contains find ident camel_case camel_loop cleaned
    statuses entries equal to_upper to_lower
all_have_numbers = refl

variant_of :
    (s : Status) (n : Text)
    → elim s [ variant name ↦ equal name n | unregistered_status _ _ ↦ false ] ≡ true
    → s ≡ variant n
variant_of (variant name) n h = ap variant ((equal_iff name n).0 h)
variant_of (unregistered_status c r) n h = cc

-- Every registered status is read back from its own code and reason.
pub from_code_and_reason-registered :
    (name : Text) (c : ℕ) (r : Text)
    → code (variant name) ≡ some c
    → reason (variant name) ≡ some r
    → from_code_and_reason c r ≡ variant name
unfolding is_read_back
from_code_and_reason-registered name c r h k =
    let arm = ArmOf-code name c h in
    let e = arm.entry in
    let same_code : e.code_ ≡ c = ground (arith, arm.has_code, h) in
    let same_reason : e.phrase ≡ r = ground (arith, arm.has_reason, k) in
    ap₂ from_code_and_reason (sym same_code) (sym same_reason)
    ∙ variant_of _ (ident e) (arm.in_table is_read_back all_are_read_back)
    ∙ ap variant arm.named

every-number_arms :
    (q : Entry → Bool) (ms : List ℕ) (es : List Entry)
    → every q es ≡ true
    → every q (number_arms ms es) ≡ true
unfolding every number_arms
every-number_arms q ms [] h = refl
every-number_arms q ms (e ∷ es) h = elim (Bool-cases (contains e.code_ ms)) [
  | inl seen ↦ rw seen (every-number_arms q ms es (ground (arith, h)))
  | inr new ↦ rw new (ground (arith, h, every-number_arms q (e.code_ ∷ ms) es))
]

-- `from_u64` gives a registered status of that code, for every code that has one, and `None` for
-- any other.
from_u64_lem :
    (n : ℕ)
    → ((name : Text) × (from_u64 n ≡ some (variant name)) × (code (variant name) ≡ some n))
      ⊎ ((from_u64 n ≡ none) × ((name : Text) → code (variant name) ≢ some n))
unfolding from_u64 has_number
from_u64_lem n =
    elim (Option-cases (find (λ e. e.code_ == n) (number_arms [] (statuses entries)))) [
      | inl missing ↦
          let nothing : from_u64 n ≡ none =
            ap (λ o. elim o [ some e ↦ some (variant (ident e)) | none ↦ none ]) missing in
          inr (
            nothing,
            λ name h.
                let arm = ArmOf-code name n h in
                let same : arm.entry.code_ ≡ n = ground (arith, arm.has_code, h) in
                ground (arith, arm.in_table has_number all_have_numbers, ap from_u64 same, nothing),
          )
      | inr (e, found) ↦
          let (hit, all) =
            find_sound (λ e. e.code_ == n) (number_arms [] (statuses entries)) e found in
          inl (
            ident e,
            ap (λ o. elim o [ some d ↦ some (variant (ident d)) | none ↦ none ]) found,
            (own_arm e (λ q h. all q (every-number_arms q [] (statuses entries) h))).0
                ∙ ground (arith, hit),
          )
    ]
