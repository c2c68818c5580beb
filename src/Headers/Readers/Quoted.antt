-- ===== src/Headers/Readers/Quoted.antt =====
-- `read_quoted_string` and `read_token` on the header values that they are meant for.
use rust_http.Base.{
  ℕ, ◌<◌, ◌≡◌, ◌≢◌, sym, ap, subst, ◌∙◌, true, none, some, [], ◌∷◌, ◌++◌, inl, inr, length,
  append-nil, append_assoc, Bytes, Text, arith, Bool-cases,
}
use rust_http.Rfc2616.{is_separator, is_token, double_quote}
use rust_http.Rfc2616.Classes.{is_token_item-IsPlain, is_token-cons}
use rust_http.Headers.Value.{again_back}
use rust_http.Headers.Value.Loops.{each_in}
use rust_http.Headers.Serialization.Quoting.{is_special, escaped}
use rust_http.Headers.Readers.{
  QuoteState, start, normal, escaping, token_body, quoted_body, some_if_any, read_quoted_string,
  read_token,
}
use rust_http.Headers.Readers.Steps.{Reads, Reads-each_byte}

quoted_moves : (t t' : QuoteState × Text) (b : ℕ) → quoted_body t b ≢ again_back t'
quoted_moves (start, out) t' b e = ground arith
quoted_moves (normal, out) t' b e = ground arith
quoted_moves (escaping, out) t' b e = cc

each_in-escaped :
    (s out left : Text)
    → each_in quoted_body (λ _. none) (normal, out) (escaped s ++ double_quote ∷ left)
      ≡ (some (out ++ s), left)
unfolding each_in escaped
each_in-escaped [] out left = ap (λ r. (some r, left)) (sym (append-nil out))
each_in-escaped (c ∷ cs) out left = elim (Bool-cases (is_special c)) [
  | inl h ↦ rw h (
      each_in-escaped cs (out ++ c ∷ []) left
      ∙ ap (λ r. (some r, left)) (append_assoc out (c ∷ []) cs))
  | inr h ↦ ground (arith, each_in-escaped cs (out ++ c ∷ []) left, append_assoc out (c ∷ []) cs)
]

-- The rest of a quoted string, and the text after it.
pub Reads-read_quoted_string :
    (fuel : ℕ) (s left : Text)
    → length (escaped s ++ double_quote ∷ left) < fuel
    → Reads (read_quoted_string fuel true) (escaped s ++ double_quote ∷ left) (some s) left
unfolding read_quoted_string
Reads-read_quoted_string fuel s left room =
    subst (λ r. Reads (read_quoted_string fuel true) (escaped s ++ double_quote ∷ left) r.0 r.1)
      (each_in-escaped s [] left)
      (Reads-each_byte fuel quoted_body (λ _. none) (normal, []) (escaped s ++ double_quote ∷ left)
        quoted_moves room)

token_moves : (t t' : Text) (b : ℕ) → token_body t b ≢ again_back t'
token_moves t t' b e = ground arith

-- What may stand behind a token: nothing, or a separator.
abbrev pub EndsToken : Bytes → Type 0
EndsToken [] = Unit
EndsToken (b ∷ _) = is_separator b ≡ true

each_in-token :
    (t out left : Text)
    → is_token t ≡ true
    → EndsToken left
    → each_in token_body some_if_any out (t ++ left) ≡ (some_if_any (out ++ t), left)
unfolding each_in
each_in-token [] out [] h e = ap (λ r. (some_if_any r, [])) (sym (append-nil out))
each_in-token [] out (b ∷ bs) h e =
    rw (e, each_in) (ap (λ r. (some_if_any r, b ∷ bs)) (sym (append-nil out)))
each_in-token (c ∷ cs) out left h e =
    let (item, more) = is_token-cons c cs h in
    let plain = is_token_item-IsPlain c item in
    ground (
      arith,
      item,
      plain.not_separator,
      each_in-token cs (out ++ c ∷ []) left more e,
      append_assoc out (c ∷ []) cs,
    )

-- A token is read up to its end.
pub Reads-read_token :
    (fuel : ℕ) (t left : Text)
    → is_token t ≡ true
    → EndsToken left
    → length (t ++ left) < fuel
    → Reads (read_token fuel) (t ++ left) (some_if_any t) left
unfolding read_token
Reads-read_token fuel t left h e room =
    subst (λ r. Reads (read_token fuel) (t ++ left) r.0 r.1) (each_in-token t [] left h e)
      (Reads-each_byte fuel token_body some_if_any [] (t ++ left) token_moves room)
