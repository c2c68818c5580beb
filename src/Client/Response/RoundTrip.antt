-- ===== src/Client/Response/RoundTrip.antt =====
-- The client reads what the server writes: a status line, the headers, and the body behind them.
use rust_http.Base.{
  ℕ, zero, suc, ◌≤◌, ◌<◌, ◌≡◌, ◌≢◌, refl, ap, ◌∙◌, some, List, [], ◌∷◌, ◌++◌, append_assoc, All,
  length, Bytes, Text, codes, as_bytes, as_bytes_ascii, IsAscii, All-append, returns, ◌>>=◌, ok,
  arith,
}
use rust_http.Rfc2616.{cr, lf, sp}
use rust_http.Common.{read_http_version, read_digits}
use rust_http.Common.Decimal.{IsDecimal, decimal}
use rust_http.Status.{Status, variant, code, reason, to_str, from_code_and_reason}
use rust_http.Status.Lookup.{from_code_and_reason-registered}
use rust_http.Headers.Table.{Row, Header}
use rust_http.Headers.Table.Rebuilt.{insert_all}
use rust_http.Headers.Lines.{header_enum, read_header}
use rust_http.Headers.Rows.Lines.{ReadBack}
use rust_http.Headers.Rows.Block.{lines_of, read_header-empty_line, read_header-lines_of}
use rust_http.Server.Response.{status_line}
use rust_http.Client.Response.{header_in, headers_loop, construct}
use rust_http.Client.Response.Digits.{status_loop_iff, reason_loop_lem}

-- The start of the status line is read as version 1.1.
version_read : (l : Bytes) → read_http_version sp (codes "HTTP/1.1 " ++ l) ≡ (some (1, 1), l)
unfolding read_http_version read_digits
version_read l = refl

to_str_lem :
    (print_u16 : ℕ → Text) (s : Status) (c : ℕ) (phrase : Text)
    → code s ≡ some c
    → reason s ≡ some phrase
    → to_str print_u16 s ≡ some ((print_u16 c ++ codes " ") ++ phrase)
unfolding to_str
to_str_lem print_u16 s c phrase h k = ground (arith, h, k)

status_line_lem :
    (print_u16 : ℕ → Text) (s : Status) (t : Text)
    → to_str print_u16 s ≡ some t
    → status_line print_u16 s ≡ returns (as_bytes ((codes "HTTP/1.1 " ++ t) ++ codes "\r\n"))
unfolding status_line
status_line_lem print_u16 s t h = ground (arith, h)

module _ {C : Type 0} (empty : C) (rows : List Row) (insert : C → Header rows → C) (fuel : ℕ) where
  headers_loop-lines_of :
      (rounds : ℕ) (c : C) (hs : List (Header rows)) (ls : All (ReadBack rows fuel) hs)
      (body : Bytes)
      → length hs < rounds
      → headers_loop empty insert
          (read_header (header_enum rows) fuel)
          rounds
          c
          (lines_of rows fuel hs ls ++ cr ∷ lf ∷ body)
        ≡ returns (some (insert_all insert c hs, body))
  unfolding headers_loop header_in lines_of insert_all
  headers_loop-lines_of zero c hs ls body room = absurd (omega arith)
  headers_loop-lines_of (suc rounds) c [] ls body room =
      rw (read_header-empty_line rows fuel body) refl
  headers_loop-lines_of (suc rounds) c (h ∷ hs) (l, ls) body room =
      ap
        (λ r.
          r
          >>= header_in empty insert (read_header (header_enum rows) fuel)
              (headers_loop empty insert (read_header (header_enum rows) fuel) rounds) c)
        (read_header-lines_of rows fuel h hs l ls body)
      ∙ headers_loop-lines_of rounds (insert c h) hs ls body (omega arith)

  -- What the server writes of a status and its headers.
  abbrev pub message :
      Bytes → Text → (hs : List (Header rows)) → All (ReadBack rows fuel) hs → Bytes → Bytes
  message digits phrase hs ls body =
      codes "HTTP/1.1 "
      ++ (digits ++ sp ∷ (phrase ++ cr ∷ lf ∷ (lines_of rows fuel hs ls ++ cr ∷ lf ∷ body)))

  construct-message :
      {R : Type 0} (request : R) (digits : Bytes) (phrase : Text) (hs : List (Header rows))
      (ls : All (ReadBack rows fuel) hs) (body : Bytes) (rounds : ℕ)
      → IsDecimal digits
      → length digits ≤ 3
      → All (λ b. b ≢ cr) phrase
      → length hs < rounds
      → construct empty insert
          (read_header (header_enum rows) fuel)
          rounds
          (message digits phrase hs ls body)
          request
        ≡ returns (
            ok (record {
              stream = body;
              version = (1, 1);
              status = from_code_and_reason (decimal 0 digits) phrase;
              headers = insert_all insert empty hs;
            }))
  unfolding construct
  construct-message request digits phrase hs ls body rounds dec short clean room =
      let block = lines_of rows fuel hs ls ++ cr ∷ lf ∷ body in
      let after = phrase ++ cr ∷ lf ∷ block in
      let status = (status_loop_iff (digits ++ sp ∷ after) (decimal 0 digits) after).1 (record {
        written = digits;
        splits = refl;
        all_digits = dec;
        fits = short;
        value = refl;
      }) in
      rw
        (
          version_read (digits ++ sp ∷ after),
          status,
          reason_loop_lem phrase [] block clean,
          headers_loop-lines_of rounds empty hs ls body room,
        )
        refl

  decimal-IsAscii : (ds : Bytes) → IsDecimal ds → IsAscii ds
  decimal-IsAscii [] h = tt
  decimal-IsAscii (d ∷ ds) (h, hs) = (ground (arith, h), decimal-IsAscii ds hs)

  -- A registered status whose code is printed with at most three digits, and whose phrase is ASCII
  -- with no CR, and headers each of which is read back from its line: from the status line that the
  -- server writes, the lines of the headers, an empty line and a body, the client makes a response
  -- of version 1.1 with this status and with these headers, inserted in order into an empty
  -- collection, and leaves the body.
  pub construct-status_line :
      {R : Type 0} (request : R) (print_u16 : ℕ → Text) (name : Text) (c : ℕ) (phrase : Text)
      (hs : List (Header rows)) (ls : All (ReadBack rows fuel) hs) (body : Bytes) (rounds : ℕ)
      → code (variant name) ≡ some c
      → reason (variant name) ≡ some phrase
      → IsDecimal (print_u16 c)
      → length (print_u16 c) ≤ 3
      → decimal 0 (print_u16 c) ≡ c
      → IsAscii phrase
      → All (λ b. b ≢ cr) phrase
      → length hs < rounds
      → (s : Bytes) × (status_line print_u16 (variant name) ≡ returns s)
        × (construct empty insert
              (read_header (header_enum rows) fuel)
              rounds
              (s ++ (lines_of rows fuel hs ls ++ cr ∷ lf ∷ body))
              request
            ≡ returns (
                ok (record {
                  stream = body;
                  version = (1, 1);
                  status = variant name;
                  headers = insert_all insert empty hs;
                })))
  construct-status_line request print_u16 name c phrase hs ls body rounds has_code has_reason dec
        short value ascii clean room =
      let digits = print_u16 c in
      let text = (codes "HTTP/1.1 " ++ ((digits ++ codes " ") ++ phrase)) ++ codes "\r\n" in
      let block = lines_of rows fuel hs ls ++ cr ∷ lf ∷ body in
      let text_ascii : IsAscii text = (
        omega arith,
        (
          omega arith,
          (
            omega arith,
            (
              omega arith,
              (
                omega arith,
                (
                  omega arith,
                  (
                    omega arith,
                    (
                      omega arith,
                      (
                        omega arith,
                        All-append (λ b. b < 128) ((digits ++ codes " ") ++ phrase) (codes "\r\n")
                            (All-append (λ b. b < 128) (digits ++ codes " ") phrase
                              (All-append (λ b. b < 128) digits (codes " ")
                                (decimal-IsAscii digits dec) (omega arith))
                              ascii)
                            (omega arith),
                      ),
                    ),
                  ),
                ),
              ),
            ),
          ),
        ),
      ) in
      (
        text,
        status_line_lem print_u16 (variant name) ((digits ++ codes " ") ++ phrase)
              (to_str_lem print_u16 (variant name) c phrase has_code has_reason)
            ∙ ap returns (as_bytes_ascii text text_ascii),
        ap
              (λ l.
                construct empty insert (read_header (header_enum rows) fuel) rounds
                  (codes "HTTP/1.1 " ++ l) request)
              (append_assoc ((digits ++ codes " ") ++ phrase) (codes "\r\n") block
                ∙ append_assoc (digits ++ codes " ") phrase (cr ∷ lf ∷ block)
                ∙ append_assoc digits (codes " ") (phrase ++ cr ∷ lf ∷ block))
            ∙ construct-message request digits phrase hs ls body rounds dec short clean room
            ∙ ap
                (λ t. returns (
                  ok (record {
                    stream = body;
                    version = (1, 1);
                    status = t;
                    headers = insert_all insert empty hs;
                  })))
                (ap (λ n. from_code_and_reason n phrase) value
                  ∙ from_code_and_reason-registered name c phrase has_code has_reason),
      )
