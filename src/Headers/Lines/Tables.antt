-- ===== src/Headers/Lines/Tables.antt =====
-- The headers of a table, written as lines and read back.
use rust_http.Base.{
  ℕ, ◌<◌, ◌≡◌, sym, ap, subst, ◌∙◌, true, false, some, List, [], ◌∷◌, ◌++◌, append_assoc, All, inl,
  inr, length, Bytes, Text, codes, returns, ok, IsAscii, as_bytes, as_bytes_ascii, All-append,
  arith,
}
use rust_http.Rfc2616.{is_token}
use rust_http.Rfc2616.Classes.{is_token-IsAscii}
use rust_http.Headers.Value.{is_blank}
use rust_http.Headers.Value.Wire.{IsClean}
use rust_http.Headers.Readers.Steps.{Reads}
use rust_http.Headers.Serialization.{write}
use rust_http.Headers.Serialization.Names.{normalised}
use rust_http.Headers.Table.{
  value_from_stream, Row, OneOf, known, extension_header, known_name, write_known, write_header,
  crlf,
}
use rust_http.Headers.Table.Dispatch.{
  ReadsAs, HasNoRow, known-value_from_stream, extension-value_from_stream,
}
use rust_http.Headers.Lines.{header_enum, read_header}
use rust_http.Headers.Lines.RoundTrip.{line_then, read_header-line}

-- A line as the macro writes it.
abbrev pub header_line : Text → Bytes → Bytes
header_line name value = name ++ (codes ": " ++ (value ++ crlf))

-- The value of a row is written as `line`, whatever was written before.
abbrev pub WritesAs : (rows : List Row) → OneOf rows → Bytes → Type 0
WritesAs [] v line = ⊥
WritesAs (r ∷ rs) (inl v) line = (w : Bytes) → r.convertible.to_stream v w ≡ returns (w ++ line)
WritesAs (r ∷ rs) (inr v) line = WritesAs rs v line

write_known-line :
    (rows : List Row) (v : OneOf rows) (line w : Bytes)
    → WritesAs rows v line
    → write_known rows v w ≡ returns (w ++ header_line (known_name rows v) line)
unfolding write_known known_name write
write_known-line [] v line w h = absurd h
write_known-line (r ∷ rs) (inl v) line w h = rw (h (w ++ (r.output_name ++ codes ": "))) (
    ap returns (
      append_assoc (w ++ (r.output_name ++ codes ": ")) line crlf
      ∙ append_assoc w (r.output_name ++ codes ": ") (line ++ crlf)
      ∙ ap (λ l. w ++ l) (append_assoc r.output_name (codes ": ") (line ++ crlf))))
write_known-line (r ∷ rs) (inr v) line w h = write_known-line rs v line w h

line_shape : (name value rest : Bytes) → header_line name value ++ rest ≡ line_then name value rest
line_shape name value rest =
    append_assoc name (codes ": " ++ (value ++ crlf)) rest
    ∙ ap (λ l. name ++ (codes ": " ++ l)) (append_assoc value crlf rest)

module _ (rows : List Row) where
  -- A header of a row, whose name is a token, and whose value is written as a line that starts with
  -- no white space, has no line break and is read back by the first row of the normalised name:
  -- `write_header` writes it as one header line, and `read_header` on that line, with a byte behind
  -- it that is no white space, returns the header and leaves that byte and the rest.
  pub read_header-write_header_known :
      (v : OneOf rows) (n : ℕ) (name : Text) (first : ℕ) (line : Bytes) (fuel c : ℕ)
      (w rest : Bytes)
      → known_name rows v ≡ n ∷ name
      → is_token (n ∷ name) ≡ true
      → WritesAs rows v (first ∷ line)
      → is_blank first ≡ false
      → All IsClean (first ∷ line)
      → ReadsAs rows v fuel (normalised true (n ∷ name)) (first ∷ line)
      → is_blank c ≡ false
      → 0 < fuel
      → (write_header rows (known v) w ≡ returns (w ++ header_line (n ∷ name) (first ∷ line)))
        × (read_header (header_enum rows) fuel (header_line (n ∷ name) (first ∷ line) ++ c ∷ rest)
            ≡ returns (ok (known v), c ∷ rest))
  unfolding write_header
  read_header-write_header_known v n name first line fuel c w rest named token writes solid clean
        reads hc room =
      (
        write_known-line rows v (first ∷ line) w writes
            ∙ ap (λ t. returns (w ++ header_line t (first ∷ line))) named,
        ap (read_header (header_enum rows) fuel) (line_shape (n ∷ name) (first ∷ line) (c ∷ rest))
            ∙ read_header-line (header_enum rows) fuel n name first line c rest [] (known v) token
                solid clean hc room
                (known-value_from_stream rows v fuel (normalised true (n ∷ name)) (first ∷ line)
                  reads),
      )

  -- An extension header, whose name is a normalised token that no row has, and whose value is ASCII
  -- with no line break and does not start with white space: written as one header line by
  -- `write_header`, and read back from it by `read_header`, if a byte that is no white space
  -- follows, which is left with the rest.
  pub read_header-write_header_extension :
      (n : ℕ) (name : Text) (first : ℕ) (value : Text) (fuel c : ℕ) (w rest : Bytes)
      → is_token (n ∷ name) ≡ true
      → normalised true (n ∷ name) ≡ n ∷ name
      → HasNoRow rows (n ∷ name)
      → IsAscii (first ∷ value)
      → is_blank first ≡ false
      → All IsClean (first ∷ value)
      → is_blank c ≡ false
      → length (first ∷ value) < fuel
      → (write_header rows (extension_header (n ∷ name) (first ∷ value)) w
          ≡ returns (w ++ header_line (n ∷ name) (first ∷ value)))
        × (read_header (header_enum rows) fuel (header_line (n ∷ name) (first ∷ value) ++ c ∷ rest)
            ≡ returns (ok (extension_header (n ∷ name) (first ∷ value)), c ∷ rest))
  unfolding write_header write
  read_header-write_header_extension n name first value fuel c w rest token normal no_row ascii
        solid clean hc room =
      let whole = ((n ∷ name) ++ codes ": ") ++ first ∷ value in
      let plain : as_bytes whole ≡ whole = as_bytes_ascii whole (
        All-append (λ b. b < 128) ((n ∷ name) ++ codes ": ") (first ∷ value)
          (All-append (λ b. b < 128) (n ∷ name) (codes ": ") (is_token-IsAscii (n ∷ name) token)
            (omega arith))
          ascii) in
      (
        ap (λ l. returns ((w ++ l) ++ crlf)) plain
            ∙ ap returns (
                append_assoc w whole crlf
                ∙ ap (λ l. w ++ l)
                    (append_assoc ((n ∷ name) ++ codes ": ") (first ∷ value) crlf
                      ∙ append_assoc (n ∷ name) (codes ": ") ((first ∷ value) ++ crlf))),
        ap (read_header (header_enum rows) fuel) (line_shape (n ∷ name) (first ∷ value) (c ∷ rest))
            ∙ read_header-line (header_enum rows) fuel n name first value c rest []
                (extension_header (n ∷ name) (first ∷ value)) token solid clean hc (omega arith)
                (subst
                  (λ m.
                    Reads (value_from_stream rows fuel m) (first ∷ value)
                      (some (extension_header (n ∷ name) (first ∷ value))) [])
                  (sym normal)
                  (extension-value_from_stream rows fuel (n ∷ name) (first ∷ value) no_row room)),
      )
