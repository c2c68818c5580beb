-- ===== src/Headers/Rows/Block.antt =====
-- The lines of a list of headers, one behind the other, and the empty line that ends them.
use rust_http.Base.{
  ℕ, ◌≡◌, refl, sym, ap, subst, ◌∙◌, false, List, [], ◌∷◌, ◌++◌, append_assoc, append-nil, All,
  Bytes, returns, and_then, ok, err,
}
use rust_http.Rfc2616.{cr, lf}
use rust_http.Headers.Value.{is_blank}
use rust_http.Headers.Table.{Row, Header}
use rust_http.Headers.Table.Iteration.{write_each}
use rust_http.Headers.Lines.{end_of_headers, header_enum, read_header, header_enum_from_stream}
use rust_http.Headers.Lines.Names.{name_loop-empty_line}
use rust_http.Headers.Rows.Lines.{ReadBack}

module _ (rows : List Row) (fuel : ℕ) where
  -- The lines of a list of headers.
  unfoldable pub lines_of : (hs : List (Header rows)) → All (ReadBack rows fuel) hs → Bytes
  lines_of [] ls = []
  lines_of (h ∷ hs) (l, ls) = (l.first ∷ l.bytes) ++ lines_of hs ls

  pub write_each-lines_of :
      (hs : List (Header rows)) (ls : All (ReadBack rows fuel) hs) (w : Bytes)
      → write_each rows hs w ≡ returns (w ++ lines_of hs ls)
  unfolding write_each lines_of
  write_each-lines_of [] ls w = ap returns (sym (append-nil w))
  write_each-lines_of (h ∷ hs) (l, ls) w =
      ap (λ o. and_then o (write_each rows hs)) (l.written w)
      ∙ write_each-lines_of hs ls (w ++ l.first ∷ l.bytes)
      ∙ ap returns (append_assoc w (l.first ∷ l.bytes) (lines_of hs ls))

  pub read_header-empty_line :
      (body : Bytes)
      → read_header (header_enum rows) fuel (cr ∷ lf ∷ body) ≡ returns (err end_of_headers, body)
  unfolding read_header header_enum_from_stream
  read_header-empty_line body = rw ((name_loop-empty_line body).0) refl

  pub after_line :
      (hs : List (Header rows)) (ls : All (ReadBack rows fuel) hs) (body : Bytes)
      → (b : ℕ) × (rest : Bytes) × (lines_of hs ls ++ cr ∷ lf ∷ body ≡ b ∷ rest)
        × (is_blank b ≡ false)
  unfolding lines_of
  after_line [] ls body = (cr, lf ∷ body, refl, refl)
  after_line (h ∷ hs) (l, ls) body =
      (l.first, (l.bytes ++ lines_of hs ls) ++ cr ∷ lf ∷ body, refl, l.solid)

  pub read_header-lines_of :
      (h : Header rows) (hs : List (Header rows)) (l : ReadBack rows fuel h)
      (ls : All (ReadBack rows fuel) hs) (body : Bytes)
      → read_header (header_enum rows) fuel (lines_of (h ∷ hs) (l, ls) ++ cr ∷ lf ∷ body)
        ≡ returns (ok h, lines_of hs ls ++ cr ∷ lf ∷ body)
  unfolding lines_of
  read_header-lines_of h hs l ls body =
      let (b, rest, shape, solid) = after_line hs ls body in
      ap (read_header (header_enum rows) fuel)
        (append_assoc (l.first ∷ l.bytes) (lines_of hs ls) (cr ∷ lf ∷ body))
      ∙ subst
          (λ t. read_header (header_enum rows) fuel ((l.first ∷ l.bytes) ++ t) ≡ returns (ok h, t))
          (sym shape) (l.read b rest solid)
