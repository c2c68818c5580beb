-- ===== src/Headers/Lines/Names.antt =====
-- The name of a header line, as `header_enum_from_stream` reads it.
use rust_http.Base.{
  ℕ, ◌≡◌, refl, sym, ap, ◌∙◌, true, [], ◌∷◌, ◌++◌, append_assoc, append-nil, Bytes, Text, arith,
}
use rust_http.Rfc2616.{cr, lf, colon, is_token_item, is_token}
use rust_http.Rfc2616.Classes.{is_token-cons}
use rust_http.Headers.Lines.{
  State, start, reading_name, named, line_err, reads_name, end_of_headers, name_loop,
}

name_loop_push :
    (state : State) (c : ℕ) (name : Text) (l : Bytes)
    → reads_name state ≡ true
    → is_token_item c ≡ true
    → name_loop state name (c ∷ l) ≡ name_loop reading_name (name ++ c ∷ []) l
unfolding name_loop
name_loop_push state c name l h item = ground (arith, h, item)

name_loop_reading :
    (t name : Text) (l : Bytes)
    → is_token t ≡ true
    → name_loop reading_name name (t ++ colon ∷ l) ≡ named (name ++ t) l
name_loop_reading [] name l h =
    unfold name_loop is_token_item in ap (λ n. named n l) (sym (append-nil name))
name_loop_reading (c ∷ t) name l h =
    let (item, more) = is_token-cons c t h in
    name_loop_push reading_name c name (t ++ colon ∷ l) refl item
    ∙ name_loop_reading t (name ++ c ∷ []) l more
    ∙ ap (λ n. named n l) (append_assoc name (c ∷ []) t)

-- A token and a colon are read as the name of a header, and the line goes on behind the colon.
pub name_loop-token :
    (c : ℕ) (t : Text) (l : Bytes)
    → is_token (c ∷ t) ≡ true
    → name_loop start [] ((c ∷ t) ++ colon ∷ l) ≡ named (c ∷ t) l
name_loop-token c t l h =
    let (item, more) = is_token-cons c t h in
    name_loop_push start c [] (t ++ colon ∷ l) refl item ∙ name_loop_reading t (c ∷ []) l more

-- An empty line ends the headers, whether a CR stands before its LF or not.
pub name_loop-empty_line :
    (l : Bytes)
    → (name_loop start [] (cr ∷ lf ∷ l) ≡ line_err end_of_headers l)
      × (name_loop start [] (lf ∷ l) ≡ line_err end_of_headers l)
unfolding name_loop is_token_item
name_loop-empty_line l = (refl, refl)
