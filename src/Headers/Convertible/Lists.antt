-- ===== src/Headers/Convertible/Lists.antt =====
-- A list of header values, written with commas and read back.
use rust_http.Base.{
  ℕ, zero, suc, ◌≤◌, ◌<◌, ◌≡◌, refl, sym, ap, subst, ◌∙◌, some, List, [], ◌∷◌, ◌++◌, append-nil,
  append_assoc, All, length, length-append, Bytes, codes, arith, returns, and_then,
}
use rust_http.Headers.Readers.{consume_comma_lws}
use rust_http.Headers.Readers.Steps.{Reads, Reads-bind, Reads-pure, drop_blanks}
use rust_http.Headers.Readers.Commas.{Reads-comma, Reads-list_end}
use rust_http.Headers.Serialization.{write}
use rust_http.Headers.Convertible.{
  list_comma, list_item, HeaderConvertible, list_loop, list_to_stream, write_more,
}

-- What may stand behind an item of a list: nothing, or a comma.
abbrev pub EndsItem : Bytes → Type 0
EndsItem [] = Unit
EndsItem (b ∷ _) = b ≡ b','

module _ {T : Type 0} (item : HeaderConvertible T) where
  -- An item that is written as `line` and read back from it.
  pub record RoundTrips (t : T) : Type 0 where
    pub line : Bytes
    pub written : (writer : Bytes) → item.to_stream t writer ≡ returns (writer ++ line)
    pub starts : (left : Bytes) → drop_blanks (line ++ left) ≡ line ++ left
    pub read_back :
        (fuel : ℕ) (left : Bytes)
        → EndsItem left
        → length (line ++ left) < fuel
        → Reads (item.from_stream fuel) (line ++ left) (some t) left

  -- The line of the items after the first, and that of them all.
  unfoldable pub more_line : (ts : List T) → All RoundTrips ts → Bytes
  more_line [] h = []
  more_line (t ∷ ts) (r, h) = b',' ∷ b' ' ∷ (r.line ++ more_line ts h)

  more_line-EndsItem : (ts : List T) (h : All RoundTrips ts) → EndsItem (more_line ts h)
  unfolding more_line
  more_line-EndsItem [] h = tt
  more_line-EndsItem (t ∷ ts) h = refl

  pub length-more_line : (ts : List T) (h : All RoundTrips ts) → length ts ≤ length (more_line ts h)
  unfolding more_line
  length-more_line [] h = omega arith
  length-more_line (t ∷ ts) (r, h) =
      omega (arith, length-more_line ts h, length-append r.line (more_line ts h))

  write_more-line :
      (ts : List T) (h : All RoundTrips ts) (writer : Bytes)
      → write_more item ts writer ≡ returns (writer ++ more_line ts h)
  unfolding write_more more_line write
  write_more-line [] h writer = ap returns (sym (append-nil writer))
  write_more-line (t ∷ ts) (r, h) writer =
      ap (λ w. and_then w (write_more item ts)) (r.written (writer ++ codes ", "))
      ∙ write_more-line ts h ((writer ++ codes ", ") ++ r.line)
      ∙ ap returns (
          append_assoc (writer ++ codes ", ") r.line (more_line ts h)
          ∙ append_assoc writer (codes ", ") (r.line ++ more_line ts h))

  pub list_to_stream-line :
      (t : T) (ts : List T) (r : RoundTrips t) (h : All RoundTrips ts) (writer : Bytes)
      → list_to_stream item (t ∷ ts) writer ≡ returns (writer ++ (r.line ++ more_line ts h))
  unfolding list_to_stream write
  list_to_stream-line t ts r h writer =
      ap (λ w. and_then w (write_more item ts)) (r.written writer)
      ∙ write_more-line ts h (writer ++ r.line)
      ∙ ap returns (append_assoc writer r.line (more_line ts h))

  pub Reads-list_loop :
      (fuel rounds : ℕ) (result : List T) (t : T) (ts : List T) (r : RoundTrips t)
      (h : All RoundTrips ts)
      → length (r.line ++ more_line ts h) < fuel
      → length ts < rounds
      → Reads
          (list_loop item fuel rounds result)
          (r.line ++ more_line ts h)
          (some (result ++ t ∷ ts))
          []
  unfolding list_loop list_item list_comma more_line
  Reads-list_loop fuel zero result t ts r h room turns = absurd (omega arith)
  Reads-list_loop fuel (suc rounds) result t [] r h room turns =
      Reads-bind (item.from_stream fuel) (list_item item fuel (list_loop item fuel rounds) result)
        (r.read_back fuel [] tt room)
        (Reads-bind (consume_comma_lws fuel) (list_comma item (list_loop item fuel rounds) result t)
          (Reads-list_end fuel (omega arith)) (Reads-pure (some (result ++ t ∷ [])) []))
  Reads-list_loop fuel (suc rounds) result t (u ∷ us) r (s, h) room turns =
      let after = s.line ++ more_line us h in
      let size = length-append r.line (b',' ∷ b' ' ∷ after) in
      Reads-bind (item.from_stream fuel) (list_item item fuel (list_loop item fuel rounds) result)
        (r.read_back fuel (b',' ∷ b' ' ∷ after) refl room)
        (Reads-bind (consume_comma_lws fuel) (list_comma item (list_loop item fuel rounds) result t)
          (Reads-comma fuel after (s.starts (more_line us h)) (omega arith))
          (subst (λ l. Reads (list_loop item fuel rounds (result ++ t ∷ [])) after (some l) [])
            (append_assoc result (t ∷ []) (u ∷ us))
            (Reads-list_loop fuel rounds (result ++ t ∷ []) u us s h (omega arith) (omega arith))))
