-- ===== src/Headers/Media/Writing.antt =====
-- How media types, transfer codings, ranges and hosts are written; `print_u16` is `to_str` of a
-- `u16`.
use rust_http.Base.{
  ℕ, ◌≡◌, refl, ap, ◌∙◌, true, false, ◌==◌, Option, none, some, List, [], ◌∷◌, ◌++◌, append_assoc,
  Bytes, Text, codes, as_bytes, as_bytes_ascii, All, Run, returns, ◌>>=◌,
}
use rust_http.Rfc2616.{is_token}
use rust_http.Rfc2616.Classes.{is_token-IsAscii}
use rust_http.Headers.Serialization.{write, write_token, write_parameters, push_parameters}
use rust_http.Headers.Serialization.Quoting.{IsAsciiPair, write_parameters-push_parameters}
use rust_http.Headers.Media.{
  MediaType, TransferCoding, chunked, transfer_extension, RangeUnit, bytes, other_range_unit,
  AcceptableRanges, range_units, no_acceptable_ranges, Host, host_of, split_colon,
}

unfoldable pub media_to_str : MediaType → Text
media_to_str m = push_parameters ((m.type_ ++ codes "/") ++ m.subtype) m.parameters

-- `write_token` asserts that it is given a token.
unfoldable pub media_to_stream : MediaType → Bytes → Run Bytes
media_to_stream m writer = write_token writer m.type_ >>= λ w1.
    write_token (write w1 (codes "/")) m.subtype >>= λ w2.
    returns (write_parameters w2 m.parameters)

unfoldable pub transfer_to_stream : TransferCoding → Bytes → Run Bytes
transfer_to_stream chunked writer = returns (write writer (codes "chunked"))
transfer_to_stream (transfer_extension token parameters) writer =
    write_token writer token >>= λ w. returns (write_parameters w parameters)

unfoldable pub transfer_http_value : TransferCoding → Text
transfer_http_value chunked = codes "chunked"
transfer_http_value (transfer_extension token parameters) = push_parameters token parameters

unfoldable pub units_to_stream : List RangeUnit → Bytes → Bytes
units_to_stream [] writer = writer
units_to_stream (bytes ∷ us) writer = units_to_stream us (write writer (codes "bytes"))
units_to_stream (other_range_unit u ∷ us) writer = units_to_stream us (write writer (as_bytes u))

unfoldable pub ranges_to_stream : AcceptableRanges → Bytes → Bytes
unfolding units_to_stream
ranges_to_stream no_acceptable_ranges writer = write writer (codes "none")
ranges_to_stream (range_units us) writer = units_to_stream us writer

unfoldable pub units_value : List RangeUnit → Text → Text
units_value [] result = result
units_value (bytes ∷ us) result = units_value us (result ++ codes "bytes")
units_value (other_range_unit u ∷ us) result = units_value us (result ++ u)

unfoldable pub ranges_http_value : AcceptableRanges → Text
unfolding units_value
ranges_http_value no_acceptable_ranges = codes "none"
ranges_http_value (range_units us) = units_value us []

unfoldable pub host_to_str : (ℕ → Text) → Host → Text
host_to_str print_u16 h = elim h.port [
  | some port ↦ (h.name ++ codes ":") ++ print_u16 port
  | none ↦ h.name
]

write_token_ascii : (w : Bytes) (t : Text) → is_token t ≡ true → write_token w t ≡ returns (w ++ t)
unfolding write_token write
write_token_ascii w t h = rw (as_bytes_ascii t (is_token-IsAscii t h), h) refl

-- A media type whose type and subtype are tokens and whose parameters are ASCII is written to a
-- stream as its text, with no failed assertion.
media_to_stream-media_to_str :
    (m : MediaType)
    → is_token m.type_ ≡ true
    → is_token m.subtype ≡ true
    → All IsAsciiPair m.parameters
    → media_to_stream m [] ≡ returns (media_to_str m)
unfolding media_to_stream media_to_str write
media_to_stream-media_to_str m ht hs hp =
    ap
      (λ r. r >>= λ w1. write_token (w1 ++ codes "/") m.subtype >>= λ w2.
        returns (write_parameters w2 m.parameters))
      (write_token_ascii [] m.type_ ht)
    ∙ ap (λ r. r >>= λ w2. returns (write_parameters w2 m.parameters))
        (write_token_ascii (m.type_ ++ codes "/") m.subtype hs)
    ∙ ap returns
        (write_parameters-push_parameters m.parameters ((m.type_ ++ codes "/") ++ m.subtype) hp)

split_colon-append :
    (name port : Text)
    → All (λ c. (c == b':') ≡ false) name
    → split_colon (name ++ b':' ∷ port) ≡ (name, some port)
unfolding split_colon
split_colon-append [] port h = refl
split_colon-append (c ∷ cs) port (hc, h) = rw (hc, split_colon-append cs port h) refl

split_colon-none :
    (name : Text) → All (λ c. (c == b':') ≡ false) name → split_colon name ≡ (name, none)
unfolding split_colon
split_colon-none [] h = refl
split_colon-none (c ∷ cs) (hc, h) = rw (hc, split_colon-none cs h) refl

host_of-at :
    (print_u16 : ℕ → Text) (parse_u16 : Text → Option ℕ) (name : Text) (port : Option ℕ)
    → ((n : ℕ) → parse_u16 (print_u16 n) ≡ some n)
    → All (λ c. (c == b':') ≡ false) name
    → host_of parse_u16 (host_to_str print_u16 (record { name = name; port = port }))
      ≡ record { name = name; port = port }
unfolding host_of host_to_str
host_of-at print_u16 parse_u16 name none reads plain =
    ap (λ p. record { name = p.0; port = elim p.1 [ some q ↦ parse_u16 q | none ↦ none ] })
      (split_colon-none name plain)
host_of-at print_u16 parse_u16 name (some n) reads plain =
    ap (λ p. record { name = p.0; port = elim p.1 [ some q ↦ parse_u16 q | none ↦ none ] })
      (ap split_colon (append_assoc name (codes ":") (print_u16 n))
        ∙ split_colon-append name (print_u16 n) plain)
    ∙ ap (λ o. record { name = name; port = o }) (reads n)

-- A host whose name has no colon, written as text, is read for itself, if the parser of ports reads
-- back what the printer writes.
host_of-host_to_str :
    (print_u16 : ℕ → Text) (parse_u16 : Text → Option ℕ) (h : Host)
    → ((n : ℕ) → parse_u16 (print_u16 n) ≡ some n)
    → All (λ c. (c == b':') ≡ false) h.name
    → host_of parse_u16 (host_to_str print_u16 h) ≡ h
host_of-host_to_str print_u16 parse_u16 h reads plain =
    host_of-at print_u16 parse_u16 h.name h.port reads plain
