-- ===== src/Headers/Rows/Checks.antt =====
-- The names in the two tables, and what follows from them for every header that has a row.
use rust_http.Base.{
  ℕ, ◌<◌, ◌≡◌, refl, sym, ap, subst, ◌∙◌, Bool, true, false, not, ◌&&◌, ◌||◌, some, List, [], ◌∷◌,
  ◌++◌, inl, inr, All, Bytes, Text, equal, equal_iff, to_upper, to_lower, returns, ok, arith,
}
use rust_http.Rfc2616.{is_token}
use rust_http.Headers.Value.{is_blank}
use rust_http.Headers.Value.Wire.{IsClean}
use rust_http.Headers.Readers.Steps.{Reads}
use rust_http.Headers.Serialization.Names.{normalised}
use rust_http.Headers.Table.{Row, OneOf, known, known_name, write_header}
use rust_http.Headers.Table.Dispatch.{ReadsAs}
use rust_http.Headers.Lines.{header_enum, read_header}
use rust_http.Headers.Lines.Tables.{header_line, WritesAs, read_header-write_header_known}
use rust_http.Headers.Types.{TextFormats}
use rust_http.Headers.Rows.{request_rows, response_rows}

-- The name that is written is a token, and the name that is looked for is its normal form.
unfoldable pub is_named : Row → Bool
is_named r =
    not (equal r.output_name [])
    && is_token r.output_name
    && equal (normalised true r.output_name) r.input_name

unfoldable pub has_row : List Row → Text → Bool
has_row [] name = false
has_row (r ∷ rs) name = equal r.input_name name || has_row rs name

-- Every row is named so, and no two rows have the same name.
unfoldable pub are_named : List Row → Bool
unfolding is_named has_row
are_named [] = true
are_named (r ∷ rs) = is_named r && not (has_row rs r.input_name) && are_named rs

-- In both tables every name that is written is a token, and its normal form is the name that is
-- looked for; and no two rows have the same name.
pub tables-are_named :
    (formats : TextFormats)
    → (are_named (request_rows formats) ≡ true) × (are_named (response_rows formats) ≡ true)
unfolding are_named equal normalised is_token to_upper to_lower
tables-are_named formats = (refl, refl)

-- The row of a value reads it from the line.
abbrev pub RowReads : (rows : List Row) → OneOf rows → ℕ → Bytes → Type 0
RowReads [] v fuel line = ⊥
RowReads (r ∷ rs) (inl v) fuel line = Reads (r.convertible.from_stream fuel) line (some v) []
RowReads (r ∷ rs) (inr v) fuel line = RowReads rs v fuel line

-- The parts of `are_named`.
record Named (r : Row) (rs : List Row) : Type 0 where
  not_empty : equal r.output_name [] ≡ false
  token : is_token r.output_name ≡ true
  normal : normalised true r.output_name ≡ r.input_name
  only : has_row rs r.input_name ≡ false
  others : are_named rs ≡ true

are_named-Named : (r : Row) (rs : List Row) → are_named (r ∷ rs) ≡ true → Named r rs
unfolding are_named
are_named-Named r rs h = record {
  not_empty = ground (arith, h);
  token = ground (arith, h);
  normal = (equal_iff (normalised true r.output_name) r.input_name).0 (ground (arith, h));
  only = ground (arith, h);
  others = ground (arith, h);
}

pub token_of :
    (rows : List Row) (v : OneOf rows)
    → are_named rows ≡ true
    → (n : ℕ) × (name : Text) × (known_name rows v ≡ n ∷ name) × (is_token (n ∷ name) ≡ true)
unfolding known_name equal
token_of [] v h = absurd v
token_of (r ∷ rs) (inl v) h =
    let d = are_named-Named r rs h in first_of r.output_name d.not_empty d.token
  where
    first_of :
        (t : Text)
        → equal t [] ≡ false
        → is_token t ≡ true
        → (n : ℕ) × (name : Text) × (t ≡ n ∷ name) × (is_token (n ∷ name) ≡ true)
    first_of [] e k = absurd (cc)
    first_of (n ∷ name) e k = (n, name, refl, k)
token_of (r ∷ rs) (inr v) h = token_of rs v (are_named-Named r rs h).others

other_name :
    (rows : List Row) (v : OneOf rows) (name : Text)
    → are_named rows ≡ true
    → has_row rows name ≡ false
    → equal (normalised true (known_name rows v)) name ≡ false
unfolding known_name has_row
other_name [] v name h none_has = absurd v
other_name (r ∷ rs) (inl v) name h none_has =
    subst (λ n. equal n name ≡ false) (sym (are_named-Named r rs h).normal)
      (ground (arith, none_has))
other_name (r ∷ rs) (inr v) name h none_has =
    other_name rs v name (are_named-Named r rs h).others (ground (arith, none_has))

RowReads-ReadsAs :
    (rows : List Row) (v : OneOf rows) (fuel : ℕ) (line : Bytes)
    → are_named rows ≡ true
    → RowReads rows v fuel line
    → ReadsAs rows v fuel (normalised true (known_name rows v)) line
unfolding known_name
RowReads-ReadsAs [] v fuel line h reads = absurd v
RowReads-ReadsAs (r ∷ rs) (inl v) fuel line h reads = ((are_named-Named r rs h).normal, reads)
RowReads-ReadsAs (r ∷ rs) (inr v) fuel line h reads =
    let d = are_named-Named r rs h in
    (other_name rs v r.input_name d.others d.only, RowReads-ReadsAs rs v fuel line d.others reads)

-- In a table whose rows are named so: a header whose value is written as a line that starts with no
-- white space, has no line break and is read back by the header's type, is written by
-- `write_header` as its name, a colon, a space, that line and CR LF; and `read_header`, on these
-- bytes with one behind them that is no white space, returns the header and leaves that byte and
-- the rest.
pub read_header-write_header :
    (rows : List Row) (v : OneOf rows) (first : ℕ) (line : Bytes) (fuel c : ℕ) (w rest : Bytes)
    → are_named rows ≡ true
    → WritesAs rows v (first ∷ line)
    → RowReads rows v fuel (first ∷ line)
    → is_blank first ≡ false
    → All IsClean (first ∷ line)
    → is_blank c ≡ false
    → 0 < fuel
    → (write_header rows (known v) w
        ≡ returns (w ++ header_line (known_name rows v) (first ∷ line)))
      × (read_header
            (header_enum rows)
            fuel
            (header_line (known_name rows v) (first ∷ line) ++ c ∷ rest)
          ≡ returns (ok (known v), c ∷ rest))
read_header-write_header rows v first line fuel c w rest h writes reads solid clean hc room =
    let (n, name, named, token) = token_of rows v h in
    let (written, read_back) =
      read_header-write_header_known rows v n name first line fuel c w rest named token writes solid
        clean
        (subst (λ t. ReadsAs rows v fuel (normalised true t) (first ∷ line)) named
          (RowReads-ReadsAs rows v fuel (first ∷ line) h reads))
        hc room in
    (
      written ∙ ap (λ t. returns (w ++ header_line t (first ∷ line))) (sym named),
      ap (λ t. read_header (header_enum rows) fuel (header_line t (first ∷ line) ++ c ∷ rest)) named
          ∙ read_back,
    )
