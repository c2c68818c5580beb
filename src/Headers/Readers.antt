-- ===== src/Headers/Readers.antt =====
-- src/libhttp/headers/mod.rs: what the header parsers read a value with. A loop takes fuel; the
-- modules below show how much is enough. Text read from the iterator has one character for each
-- byte (`b as char`).
pub mod Steps
pub mod Quoted
pub mod Commas
pub mod Endless
pub mod Shrinking
use rust_http.Base.{
  ℕ, zero, suc, Bool, true, false, not, ◌&&◌, ◌||◌, Option, none, some, List, [], ◌∷◌, ◌++◌, ◌==◌,
  if◌then◌else◌, Bytes, Text, Run, returns, runs_out, fails,
}
use rust_http.Rfc2616.{is_separator, is_token_item, double_quote, backslash}
use rust_http.Headers.Value.{
  HeaderValueByteIterator, is_blank, next, put_back, Turn, again, again_back, leave, leave_back,
  each_byte,
}

-- A method on `&mut self`.
abbrev pub Reading : Type 0 → Type 0
Reading A = HeaderValueByteIterator → Run (A × HeaderValueByteIterator)

infixl 5 ◌>>=◌ ◌>>◌
abbrev pub ◌>>=◌ : {A B : Type 0} → Reading A → (A → Reading B) → Reading B
◌>>=◌ m f it = elim (m it) [ returns p ↦ f p.0 p.1 | fails ↦ fails | runs_out ↦ runs_out ]

abbrev pub ◌>>◌ : {A B : Type 0} → Reading A → Reading B → Reading B
m >> n = m >>= λ _. n

abbrev pub pure : {A : Type 0} → A → Reading A
pure a it = returns (a, it)

abbrev pub read_next : Reading (Option ℕ)
read_next it = returns (next it)

-- `self.next_byte = Some(b)`, where the code does not assert that there was none.
abbrev pub set_next_byte : ℕ → Reading (Unit {0})
set_next_byte b it = returns (tt, record it { next_byte = some b })

-- `assert_eq!(self.next_byte, None); self.next_byte = Some(b)`
abbrev pub put_back_byte : ℕ → Reading (Unit {0})
put_back_byte b it = elim (put_back b it) [
  | returns it' ↦ returns (tt, it')
  | fails ↦ fails
  | runs_out ↦ runs_out
]

-- `self.next() == Some(c)`
abbrev pub is_next : ℕ → Option ℕ → Bool
is_next c none = false
is_next c (some b) = b == c

-- `self.next() == None`
abbrev pub is_end : Option ℕ → Bool
is_end none = true
is_end (some _) = false

pub data ConsumeCommaLwsResult : Type 0 where
  comma_consumed end_of_value err_comma_not_found : ConsumeCommaLwsResult

abbrev pub lws_body : Bool → ℕ → Turn Bool Bool
lws_body gobbled b = if is_blank b then again true else leave_back gobbled

abbrev pub collect_body : Text → ℕ → Turn Text Text
collect_body out b = again (out ++ b ∷ [])

pub data QuoteState : Type 0 where
  start normal escaping : QuoteState

abbrev pub quoted_body : QuoteState × Text → ℕ → Turn (QuoteState × Text) (Option Text)
quoted_body (start, out) b = if b == double_quote then again (normal, out) else leave none
quoted_body (normal, out) b =
    if b == backslash
    then again (escaping, out)
    else if b == double_quote
    then leave (some out)
    else again (normal, out ++ b ∷ [])
quoted_body (escaping, out) b = again (normal, out ++ b ∷ [])

-- `if output.len() == 0 { None } else { Some(output) }`
abbrev pub some_if_any : Text → Option Text
some_if_any [] = none
some_if_any (b ∷ bs) = some (b ∷ bs)

-- A byte that neither ends a token nor belongs to one is reported with `println!` and dropped.
abbrev pub token_body : Text → ℕ → Turn Text (Option Text)
token_body out b =
    if is_separator b
    then leave_back (some_if_any out)
    else if is_token_item b
    then again (out ++ b ∷ [])
    else again out

-- The same loop in `read_token_or_quoted_string`, which has no `break` after the separator.
abbrev pub token_or_body : Text → ℕ → Turn Text (Option Text)
token_or_body out b =
    if is_separator b
    then again_back out
    else if is_token_item b
    then again (out ++ b ∷ [])
    else again out

module _ (fuel : ℕ) where
  unfoldable pub consume_lws : Reading Bool
  consume_lws = each_byte fuel lws_body (λ gobbled. gobbled) false

  unfoldable pub consume_optional_lws : Reading (Unit {0})
  unfolding consume_lws
  consume_optional_lws = do _ ← consume_lws; pure tt

  unfoldable pub verify_consumed : Reading Bool
  unfolding consume_optional_lws
  verify_consumed = do consume_optional_lws; b ← read_next; pure (is_end b)

  unfoldable pub some_if_consumed : {T : Type 0} → T → Reading (Option T)
  unfolding verify_consumed
  some_if_consumed t = do consumed ← verify_consumed; pure (if consumed then some t else none)

  unfoldable pub collect_to_str : Reading Text
  collect_to_str = each_byte fuel collect_body (λ out. out) []

  after_comma : Option ℕ → Reading ConsumeCommaLwsResult
  unfolding consume_optional_lws
  after_comma none = pure end_of_value
  after_comma (some b) =
      if b == b',' then (do consume_optional_lws; pure comma_consumed) else pure err_comma_not_found

  unfoldable pub consume_comma_lws : Reading ConsumeCommaLwsResult
  unfolding consume_optional_lws after_comma
  consume_comma_lws = do consume_optional_lws; b ← read_next; after_comma b

  unfoldable pub read_quoted_string : Bool → Reading (Option Text)
  read_quoted_string already_opened =
      each_byte fuel quoted_body (λ _. none) (if already_opened then normal else start, [])

  unfoldable pub read_token : Reading (Option Text)
  read_token = each_byte fuel token_body some_if_any []

  token_or_quoted : Option ℕ → Reading (Option Text)
  token_or_quoted none = pure none
  token_or_quoted (some b) =
      if b == double_quote
      then each_byte fuel quoted_body (λ _. none) (normal, [])
      else (do set_next_byte b; each_byte fuel token_or_body some_if_any [])

  unfoldable pub read_token_or_quoted_string : Reading (Option Text)
  unfolding token_or_quoted
  read_token_or_quoted_string = do b ← read_next; token_or_quoted b

  -- The part of `read_parameter` behind the key, and that behind the semicolon.
  parameter_value : Text → Reading (Option (Text × Text))
  unfolding consume_optional_lws read_token_or_quoted_string
  parameter_value key = do
    consume_optional_lws
    value ← read_token_or_quoted_string
    elim value [ none ↦ pure none | some v ↦ (do consume_optional_lws; pure (some (key, v))) ]

  parameter_key : Reading (Option (Text × Text))
  unfolding consume_optional_lws read_token parameter_value
  parameter_key = do
    consume_optional_lws
    key ← read_token
    elim key [
      | none ↦ pure none
      | some k ↦ (do
        consume_optional_lws
        b ← read_next
        if is_next b'=' b then parameter_value k else pure none)
    ]

  unfoldable pub read_parameter : Bool → Reading (Option (Text × Text))
  unfolding parameter_key
  read_parameter true = parameter_key
  read_parameter false = do b ← read_next; if is_next b';' b then parameter_key else pure none

  -- The `loop` of `read_parameters`; `rounds` bounds its rounds, `fuel` the loops inside one.
  unfoldable pub read_parameters_loop :
      ℕ → List (Text × Text) → Reading (Option (List (Text × Text)))
  unfolding read_parameter
  read_parameters_loop zero result it = runs_out
  read_parameters_loop (suc rounds) result it =
      (do
        b ← read_next
        elim b [
          | none ↦ pure (some result)
          | some c ↦
              if c == b';'
              then (do
                parameter ← read_parameter true
                elim parameter [
                  | none ↦ pure none
                  | some p ↦ read_parameters_loop rounds (result ++ p ∷ [])
                ])
              else (do put_back_byte c; pure (some result))
        ])
        it

  unfoldable pub read_parameters : Reading (Option (List (Text × Text)))
  unfolding read_parameters_loop
  read_parameters = read_parameters_loop fuel []
