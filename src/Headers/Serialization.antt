-- ===== src/Headers/Serialization.antt =====
-- src/libhttp/headers/serialization_utils.rs: header text out of and into values. A `Writer` is the
-- list of the bytes written so far; storage reservations have no effect on what is computed.
pub mod Quoting
pub mod Commas
pub mod Names
use rust_http.Base.{
  ℕ, ◌+◌, Bool, true, false, ◌||◌, Option, none, some, List, [], ◌∷◌, ◌++◌, map, ltb, ◌==◌,
  if◌then◌else◌, Bytes, Text, codes, as_bytes, to_upper, to_lower, Run, returns, fails,
}
use rust_http.Rfc2616.{is_token, double_quote, backslash}

-- One character of `normalise_header_name`.
abbrev pub cased : Bool → ℕ → ℕ
cased true c = to_upper c
cased false c = to_lower c

-- `c.to_ascii()` fails on a character that is not ASCII.
unfoldable pub normalise_loop : Text → Bool → Text → Run Text
normalise_loop result capitalise [] = returns result
normalise_loop result capitalise (c ∷ cs) =
    let c' = cased capitalise c in
    let rest = normalise_loop (result ++ c' ∷ []) (c' == 45) cs in if ltb c 128 then rest else fails

unfoldable pub normalise_header_name : Text → Run Text
unfolding normalise_loop
normalise_header_name name = normalise_loop [] true name

-- `split_iter(',')`: always one piece more than there are separators.
abbrev pub add_to_first : ℕ → List Text → List Text
add_to_first x [] = (x ∷ []) ∷ []
add_to_first x (p ∷ ps) = (x ∷ p) ∷ ps

unfoldable pub split : ℕ → Text → List Text
split c [] = [] ∷ []
split c (x ∷ xs) = let ps = split c xs in if x == c then [] ∷ ps else add_to_first x ps

-- `is_whitespace` is the Unicode test of the standard library.
module _ (is_whitespace : ℕ → Bool) where
  unfoldable pub trim_left : Text → Text
  trim_left [] = []
  trim_left (c ∷ cs) = let rest = trim_left cs in if is_whitespace c then rest else c ∷ cs

  unfoldable pub comma_split : Text → List Text
  unfolding split trim_left
  comma_split value = map trim_left (split b',' value)

-- `values.connect(sep)`
unfoldable pub connect : Text → List Text → Text
connect sep [] = []
connect sep (v ∷ []) = v
connect sep (v ∷ w ∷ vs) = v ++ (sep ++ connect sep (w ∷ vs))

unfoldable pub comma_join : List Text → Text
unfolding connect
comma_join values = connect (codes ", ") values

-- The loop over the characters in `push_quoted_string`, with the backslashes that it puts in.
unfoldable pub push_escaped : Text → Text → Text
push_escaped s [] = s
push_escaped s (c ∷ cs) =
    push_escaped
      (if c == backslash || c == double_quote then s ++ backslash ∷ c ∷ [] else s ++ c ∷ []) cs

unfoldable pub push_quoted_string : Text → Text → Text
unfolding push_escaped
push_quoted_string s t = push_escaped (s ++ double_quote ∷ []) t ++ double_quote ∷ []

unfoldable pub quoted_string : Text → Text
unfolding push_quoted_string
quoted_string s = push_quoted_string [] s

unfoldable pub push_maybe_quoted_string : Text → Text → Text
unfolding push_quoted_string
push_maybe_quoted_string s t = if is_token (as_bytes t) then s ++ t else push_quoted_string s t

unfoldable pub maybe_quoted_string : Text → Text
unfolding quoted_string
maybe_quoted_string s = if is_token (as_bytes s) then s else quoted_string s

pub data State : Type 0 where
  start normal escaping end : State

-- The `loop` of `unquote_string`; the characters left are what `iter.next()` hands out.
unfoldable pub unquote_loop : State → Text → Text → Option Text
unquote_loop start output [] = none
unquote_loop start output (c ∷ cs) =
    let rest = unquote_loop normal output cs in if c == double_quote then rest else none
unquote_loop normal output [] = none
unquote_loop normal output (c ∷ cs) = elim (c == backslash) [
  | true ↦ unquote_loop escaping output cs
  | false ↦ elim (c == double_quote) [
    | true ↦ unquote_loop end output cs
    | false ↦ unquote_loop normal (output ++ c ∷ []) cs
  ]
]
unquote_loop escaping output [] = none
unquote_loop escaping output (c ∷ cs) = unquote_loop normal (output ++ c ∷ []) cs
unquote_loop end output [] = some output
unquote_loop end output (c ∷ cs) = none

unfoldable pub unquote_string : Text → Option Text
unfolding unquote_loop
unquote_string s = unquote_loop start [] s

unfoldable pub maybe_unquote_string : Text → Option Text
unfolding unquote_string
maybe_unquote_string s = if is_token (as_bytes s) then some s else unquote_string s

unfoldable pub push_parameter : Text → Text → Text → Text
unfolding push_maybe_quoted_string
push_parameter s k v = push_maybe_quoted_string ((s ++ k) ++ b'=' ∷ []) v

unfoldable pub push_parameters : Text → List (Text × Text) → Text
unfolding push_parameter
push_parameters s [] = s
push_parameters s ((k, v) ∷ ps) = push_parameters (push_parameter (s ++ b';' ∷ []) k v) ps

-- `WriterUtil`, on what was written before.
unfoldable pub write : Bytes → Bytes → Bytes
write w buf = w ++ buf

unfoldable pub write_escaped : Bytes → Bytes → Bytes
unfolding write
write_escaped w [] = w
write_escaped w (b ∷ bs) =
    write_escaped
      (write (if b == backslash || b == double_quote then write w (backslash ∷ []) else w) (b ∷ []))
      bs

unfoldable pub write_quoted_string : Bytes → Text → Bytes
unfolding write write_escaped
write_quoted_string w s =
    write (write_escaped (write w (double_quote ∷ [])) (as_bytes s)) (double_quote ∷ [])

unfoldable pub write_maybe_quoted_string : Bytes → Text → Bytes
unfolding write write_quoted_string
write_maybe_quoted_string w s =
    if is_token (as_bytes s) then write w (as_bytes s) else write_quoted_string w s

unfoldable pub write_parameter : Bytes → Text → Text → Bytes
unfolding write write_maybe_quoted_string
write_parameter w k v = write_maybe_quoted_string (write (write w (as_bytes k)) (b'=' ∷ [])) v

unfoldable pub write_parameters : Bytes → List (Text × Text) → Bytes
unfolding write write_parameter
write_parameters w [] = w
write_parameters w ((k, v) ∷ ps) = write_parameters (write_parameter (write w (b';' ∷ [])) k v) ps

-- `assert!(is_token(token))`
unfoldable pub write_token : Bytes → Text → Run Bytes
unfolding write
write_token w token =
    if is_token (as_bytes token) then returns (write w (as_bytes token)) else fails
