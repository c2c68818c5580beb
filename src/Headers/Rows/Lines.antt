-- ===== src/Headers/Rows/Lines.antt =====
-- Header lines that are written and read back: the Connection header, and the extension headers.
use rust_http.Base.{
  ℕ, ◌<◌, ◌≡◌, refl, subst, true, false, List, [], ◌∷◌, ◌++◌, inl, inr, All, length, Bytes, Text,
  returns, output, ok, IsAscii, arith,
}
use rust_http.Rfc2616.{is_token}
use rust_http.Rfc2616.Classes.{is_token-cons, is_token_item-IsPlain}
use rust_http.Headers.Value.{is_blank}
use rust_http.Headers.Value.Wire.{IsClean}
use rust_http.Headers.Serialization.Names.{normalised}
use rust_http.Headers.Convertible.{list_to_stream}
use rust_http.Headers.Connection.{Connection, convertible}
use rust_http.Headers.Connection.Values.{IsReadable}
use rust_http.Headers.Connection.RoundTrip.{connections_line}
use rust_http.Headers.Table.{Row, OneOf, Header, known, extension_header, write_header}
use rust_http.Headers.Table.Dispatch.{HasNoRow}
use rust_http.Headers.Lines.{header_enum, read_header}
use rust_http.Headers.Lines.Tables.{header_line, WritesAs, read_header-write_header_extension}
use rust_http.Headers.Types.{TextFormats}
use rust_http.Headers.Rows.{request_rows}
use rust_http.Headers.Rows.Checks.{
  are_named, tables-are_named, RowReads, read_header-write_header, token_of,
}

-- A header that `write_header` writes as the bytes `first ∷ bytes`, and that `read_header` reads
-- back from them.
pub record ReadBack (rows : List Row) (fuel : ℕ) (h : Header rows) : Type 0 where
  pub first : ℕ
  pub bytes : Bytes
  pub solid : is_blank first ≡ false
  pub written : (w : Bytes) → write_header rows h w ≡ returns (w ++ first ∷ bytes)
  pub read :
      (c : ℕ) (rest : Bytes)
      → is_blank c ≡ false
      → read_header (header_enum rows) fuel ((first ∷ bytes) ++ c ∷ rest) ≡ returns (ok h, c ∷ rest)

token_solid : (n : ℕ) (name : Text) → is_token (n ∷ name) ≡ true → is_blank n ≡ false
token_solid n name h =
    let plain = is_token_item-IsPlain n (is_token-cons n name h).0 in
    ground (arith, plain.ne_sp, plain.ne_ht)

-- From its line as the macro writes it.
line-ReadBack :
    (rows : List Row) (fuel : ℕ) (h : Header rows) (n : ℕ) (name : Text) (value : Bytes)
    → is_token (n ∷ name) ≡ true
    → ((w : Bytes) → write_header rows h w ≡ returns (w ++ header_line (n ∷ name) value))
    → ((c : ℕ) (rest : Bytes)
        → is_blank c ≡ false
        → read_header (header_enum rows) fuel (header_line (n ∷ name) value ++ c ∷ rest)
          ≡ returns (ok h, c ∷ rest))
    → ReadBack rows fuel h
line-ReadBack rows fuel h n name value token written read = record {
  first = n;
  bytes = header_line name value;
  solid = token_solid n name token;
  written = written;
  read = read;
}

-- A header of a row, in a table of good names.
pub known-ReadBack :
    (rows : List Row) (v : OneOf rows) (first : ℕ) (line : Bytes) (fuel : ℕ)
    → are_named rows ≡ true
    → WritesAs rows v (first ∷ line)
    → RowReads rows v fuel (first ∷ line)
    → is_blank first ≡ false
    → All IsClean (first ∷ line)
    → 0 < fuel
    → ReadBack rows fuel (known v)
known-ReadBack rows v first line fuel h writes reads solid clean room =
    let (n, name, named, token) = token_of rows v h in
    let both = λ (c : ℕ) (w : Bytes) (rest : Bytes) (hc : is_blank c ≡ false).
      read_header-write_header rows v first line fuel c w rest h writes reads solid clean hc room in
    line-ReadBack rows fuel (known v) n name (first ∷ line) token
      (λ w.
        subst (λ t. write_header rows (known v) w ≡ returns (w ++ header_line t (first ∷ line)))
          named (both 0 w [] refl).0)
      (λ c rest hc.
        subst
          (λ t.
            read_header (header_enum rows) fuel (header_line t (first ∷ line) ++ c ∷ rest)
            ≡ returns (ok (known v), c ∷ rest))
          named (both c [] rest hc).1)

pub extension-ReadBack :
    (rows : List Row) (n : ℕ) (name : Text) (first : ℕ) (value : Text) (fuel : ℕ)
    → is_token (n ∷ name) ≡ true
    → normalised true (n ∷ name) ≡ n ∷ name
    → HasNoRow rows (n ∷ name)
    → IsAscii (first ∷ value)
    → is_blank first ≡ false
    → All IsClean (first ∷ value)
    → length (first ∷ value) < fuel
    → ReadBack rows fuel (extension_header (n ∷ name) (first ∷ value))
extension-ReadBack rows n name first value fuel token normal no_row ascii solid clean room =
    let both = λ (c : ℕ) (w : Bytes) (rest : Bytes) (hc : is_blank c ≡ false).
      read_header-write_header_extension rows n name first value fuel c w rest token normal no_row
        ascii solid clean hc room in
    line-ReadBack rows fuel (extension_header (n ∷ name) (first ∷ value)) n name (first ∷ value)
      token (λ w. (both 0 w [] refl).0) (λ c rest hc. (both c [] rest hc).1)

-- The Connection header of a request, with a list of values each of which is `close` or a token in
-- header case other than `Close`.
pub connection-ReadBack :
    (formats : TextFormats) (h : Connection) (hs : List Connection) (fuel : ℕ)
    → IsReadable h
    → All IsReadable hs
    → length (output (list_to_stream convertible (h ∷ hs) [])) < fuel
    → ReadBack (request_rows formats) fuel (known (inr (inl (h ∷ hs))))
connection-ReadBack formats h hs fuel r rs room =
    let l = connections_line h hs r rs in
    let room' = subst (λ o. length (output o) < fuel) (l.written []) room in
    known-ReadBack (request_rows formats) (inr (inl (h ∷ hs))) l.first l.line fuel
      (tables-are_named formats).0 l.written (l.read_back fuel room') l.solid l.clean (omega arith)
