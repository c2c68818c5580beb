-- ===== src/Headers/Serialization/Quoting.antt =====
-- Quoted strings of serialization_utils.rs: written and read back.
use rust_http.Base.{
  ℕ, ◌≡◌, ◌↔◌, refl, sym, ap, subst, ◌∙◌, Bool, false, ◌||◌, some, List, [], ◌∷◌, ◌++◌, append-nil,
  append_assoc, ◌==◌, if◌then◌else◌, Bool-cases, inl, inr, All, Bytes, Text, IsAscii, as_bytes,
  as_bytes_ascii, arith,
}
use rust_http.Rfc2616.{is_token, double_quote, backslash}
use rust_http.Headers.Serialization.{
  push_escaped, push_quoted_string, quoted_string, maybe_quoted_string, push_maybe_quoted_string,
  start, normal, end, unquote_loop, unquote_string, maybe_unquote_string, push_parameter,
  push_parameters, write, write_escaped, write_quoted_string, write_maybe_quoted_string,
  write_parameter, write_parameters,
}

abbrev pub is_special : ℕ → Bool
is_special c = c == backslash || c == double_quote

-- A text with a backslash before each backslash and double quote.
unfoldable pub escaped : Text → Text
escaped [] = []
escaped (c ∷ cs) = if is_special c then backslash ∷ c ∷ escaped cs else c ∷ escaped cs

push_escaped-escaped : (s t : Text) → push_escaped s t ≡ s ++ escaped t
unfolding push_escaped escaped
push_escaped-escaped s [] = sym (append-nil s)
push_escaped-escaped s (c ∷ cs) = elim (Bool-cases (is_special c)) [
  | inl h ↦ rw h (
      push_escaped-escaped (s ++ backslash ∷ c ∷ []) cs
      ∙ append_assoc s (backslash ∷ c ∷ []) (escaped cs))
  | inr h ↦ rw h (push_escaped-escaped (s ++ c ∷ []) cs ∙ append_assoc s (c ∷ []) (escaped cs))
]

-- What `push_quoted_string` puts behind `s`.
pub push_quoted_string-escaped :
    (s t : Text) → push_quoted_string s t ≡ s ++ double_quote ∷ (escaped t ++ double_quote ∷ [])
unfolding push_quoted_string
push_quoted_string-escaped s t = simp (push_escaped-escaped, append_assoc)

pub quoted_string-escaped :
    (s : Text) → quoted_string s ≡ double_quote ∷ (escaped s ++ double_quote ∷ [])
unfolding quoted_string
quoted_string-escaped s = push_quoted_string-escaped [] s

unquote_loop-escaped :
    (output t : Text)
    → unquote_loop normal output (escaped t ++ double_quote ∷ []) ≡ some (output ++ t)
unfolding unquote_loop escaped
unquote_loop-escaped output [] = ap some (sym (append-nil output))
unquote_loop-escaped output (c ∷ cs) = elim (Bool-cases (is_special c)) [
  | inl h ↦
      rw h (unquote_loop-escaped (output ++ c ∷ []) cs ∙ ap some (append_assoc output (c ∷ []) cs))
  | inr h ↦
      ground (arith, unquote_loop-escaped (output ++ c ∷ []) cs, append_assoc output (c ∷ []) cs)
]

-- Unquoting a quoted string gives the string back, whatever characters it holds.
unquote_string-quoted_string : (s : Text) → unquote_string (quoted_string s) ≡ some s
unfolding unquote_string
unquote_string-quoted_string s =
    rw quoted_string-escaped (unfold unquote_loop in unquote_loop-escaped [] s)

not_token-quoted_string : (s : Text) → is_token (as_bytes (quoted_string s)) ≡ false
unfolding as_bytes
not_token-quoted_string s = rw quoted_string-escaped (unfold as_bytes is_token in refl)

-- `maybe_unquote_string` gives back any string that `maybe_quoted_string` made, a token as it is or
-- a quoted string.
maybe_unquote_string-maybe_quoted_string :
    (s : Text) → maybe_unquote_string (maybe_quoted_string s) ≡ some s
unfolding maybe_unquote_string maybe_quoted_string
maybe_unquote_string-maybe_quoted_string s = elim (Bool-cases (is_token (as_bytes s))) [
  | inl token ↦ rw (token, token)
  | inr other ↦ rw (other, not_token-quoted_string s) (unquote_string-quoted_string s)
]

-- `body` stands for `s`: backslash pairs for any character, and plain characters for themselves.
pub data Escapes : Text → Text → Type 0 where
  nothing : Escapes [] []
  pair : {c : ℕ} {body s : Text} → Escapes body s → Escapes (backslash ∷ c ∷ body) (c ∷ s)
  plain :
      {c : ℕ} {body s : Text} → is_special c ≡ false → Escapes body s → Escapes (c ∷ body) (c ∷ s)

unquote_loop-Escapes :
    {body s : Text} (output : Text)
    → Escapes body s
    → unquote_loop normal output (body ++ double_quote ∷ []) ≡ some (output ++ s)
unfolding unquote_loop
unquote_loop-Escapes output nothing = ap some (sym (append-nil output))
unquote_loop-Escapes output (pair {c} {body} {s} t) =
    unquote_loop-Escapes (output ++ c ∷ []) t ∙ ap some (append_assoc output (c ∷ []) s)
unquote_loop-Escapes output (plain {c} {body} {s} h t) =
    ground (arith, unquote_loop-Escapes (output ++ c ∷ []) t, append_assoc output (c ∷ []) s)

unquote_loop_end :
    (output l s : Text) → unquote_loop end output l ≡ some s → (l ≡ []) × (output ≡ s)
unfolding unquote_loop
unquote_loop_end output [] s e = (refl, ground arith)
unquote_loop_end output (c ∷ l) s e = cc

abbrev Ending : Text → Text → Text → Type 0
Ending output l s =
    (body : Text) × (t : Text) × (l ≡ body ++ double_quote ∷ [])
    × Escapes body t
    × (s ≡ output ++ t)

Ending-pair :
    (output l s : Text) (d : ℕ)
    → Ending (output ++ d ∷ []) l s
    → Ending output (backslash ∷ d ∷ l) s
Ending-pair output l s d (body, t, e, x, v) = (
  backslash ∷ d ∷ body,
  d ∷ t,
  ap (λ r. backslash ∷ d ∷ r) e,
  pair x,
  v ∙ append_assoc output (d ∷ []) t,
)

Ending-plain :
    (output l s : Text) (c : ℕ)
    → is_special c ≡ false
    → Ending (output ++ c ∷ []) l s
    → Ending output (c ∷ l) s
Ending-plain output l s c h (body, t, e, x, v) =
    (c ∷ body, c ∷ t, ap (λ r. c ∷ r) e, plain h x, v ∙ append_assoc output (c ∷ []) t)

Ending-quote :
    (output l s : Text) (c : ℕ)
    → c ≡ double_quote
    → unquote_loop end output l ≡ some s
    → Ending output (c ∷ l) s
Ending-quote output l s c h e =
    let (empty, same) = unquote_loop_end output l s e in
    ([], [], rw (h, empty), nothing, sym same ∙ sym (append-nil output))

unquote_loop_sound : (output l s : Text) → unquote_loop normal output l ≡ some s → Ending output l s
unfolding unquote_loop
unquote_loop_sound output [] s e = cc
unquote_loop_sound output (c ∷ []) s e = elim (Bool-cases (c == double_quote)) [
  | inl q ↦ Ending-quote output [] s c (ground arith) (ground arith)
  | inr n ↦ ground arith
]
unquote_loop_sound output (c ∷ d ∷ l) s e = elim (Bool-cases (c == backslash)) [
  | inl b ↦
      subst (λ x. Ending output (x ∷ d ∷ l) s) (ground arith)
        (Ending-pair output l s d (unquote_loop_sound (output ++ d ∷ []) l s (ground arith)))
  | inr n ↦ elim (Bool-cases (c == double_quote)) [
    | inl q ↦ Ending-quote output (d ∷ l) s c (ground arith) (ground arith)
    | inr m ↦
        Ending-plain output (d ∷ l) s c (ground arith)
          (unquote_loop_sound (output ++ c ∷ []) (d ∷ l) s (ground arith))
  ]
]

-- `unquote_string` returns a text exactly for the strings between two double quotes whose inside
-- stands for that text.
pub unquote_string_iff :
    (q s : Text)
    → (unquote_string q ≡ some s)
      ↔ ((body : Text) × (q ≡ double_quote ∷ (body ++ double_quote ∷ [])) × Escapes body s)
unfolding unquote_string
unquote_string_iff q s = (sound q, complete)
  where
    sound :
        (l : Text)
        → unquote_loop start [] l ≡ some s
        → (body : Text) × (l ≡ double_quote ∷ (body ++ double_quote ∷ [])) × Escapes body s
    sound [] e = unfold unquote_loop in cc
    sound (c ∷ l) e =
        let first : (c ≡ double_quote) × (unquote_loop normal [] l ≡ some s) =
          unfold unquote_loop in ground arith in
        let (body, t, ends, x, same) = unquote_loop_sound [] l s first.1 in
        (body, ground (arith, first.0, ends), subst (Escapes body) (sym same) x)

    complete :
        ((body : Text) × (q ≡ double_quote ∷ (body ++ double_quote ∷ [])) × Escapes body s)
        → unquote_loop start [] q ≡ some s
    complete (body, e, x) = rw e (unfold unquote_loop in unquote_loop-Escapes [] x)

write_escaped-escaped : (w bs : Bytes) → write_escaped w bs ≡ w ++ escaped bs
unfolding write_escaped write escaped
write_escaped-escaped w [] = sym (append-nil w)
write_escaped-escaped w (b ∷ bs) = elim (Bool-cases (is_special b)) [
  | inl h ↦ rw h (write_escaped-escaped ((w ++ backslash ∷ []) ++ b ∷ []) bs ∙ simp append_assoc)
  | inr h ↦ rw h (write_escaped-escaped (w ++ b ∷ []) bs ∙ append_assoc w (b ∷ []) (escaped bs))
]

-- What `write_quoted_string` writes behind `w`.
pub write_quoted_string-escaped :
    (w : Bytes) (s : Text)
    → write_quoted_string w s ≡ w ++ double_quote ∷ (escaped (as_bytes s) ++ double_quote ∷ [])
unfolding write_quoted_string write
write_quoted_string-escaped w s = simp (write_escaped-escaped, append_assoc)

write_quoted-push :
    (w : Bytes) (s : Text) → IsAscii s → write_quoted_string w s ≡ push_quoted_string w s
write_quoted-push w s h =
    rw (write_quoted_string-escaped, as_bytes_ascii s h, push_quoted_string-escaped)

write_maybe-push :
    (w : Bytes) (s : Text)
    → IsAscii s
    → write_maybe_quoted_string w s ≡ push_maybe_quoted_string w s
unfolding write_maybe_quoted_string push_maybe_quoted_string write
write_maybe-push w s h = elim (Bool-cases (is_token (as_bytes s))) [
  | inl token ↦ rw token (ap (λ r. w ++ r) (as_bytes_ascii s h))
  | inr other ↦ rw other (write_quoted-push w s h)
]

abbrev pub IsAsciiPair : Text × Text → Type 0
IsAsciiPair (k, v) = IsAscii k × IsAscii v

write_parameter-push :
    (w : Bytes) (k v : Text) → IsAsciiPair (k, v) → write_parameter w k v ≡ push_parameter w k v
unfolding write_parameter push_parameter write
write_parameter-push w k v h =
    rw (as_bytes_ascii k h.0) (write_maybe-push ((w ++ k) ++ b'=' ∷ []) v h.1)

-- On ASCII keys and values, writing parameters to a stream and pushing them on a string give the
-- same bytes.
pub write_parameters-push_parameters :
    (ps : List (Text × Text)) (w : Bytes)
    → All IsAsciiPair ps
    → write_parameters w ps ≡ push_parameters w ps
unfolding write_parameters push_parameters write
write_parameters-push_parameters [] w h = refl
write_parameters-push_parameters ((k, v) ∷ ps) w (hp, h) =
    write_parameters-push_parameters ps (write_parameter (w ++ b';' ∷ []) k v) h
    ∙ ap (λ r. push_parameters r ps) (write_parameter-push (w ++ b';' ∷ []) k v hp)
