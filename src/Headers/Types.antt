-- ===== src/Headers/Types.antt =====
-- The types of the headers' values as instances of `HeaderConvertible`: src/libhttp/headers/mod.rs
-- for numbers, URLs and times, etag.rs, content_type.rs, transfer_encoding.rs, accept_ranges.rs and
-- host.rs for their own. What the standard library and `extra` do with texts is a record of
-- parameters.
use rust_http.Base.{ℕ, Option, none, some, Text, codes, as_bytes, returns}
use rust_http.Headers.Readers.{Reading, ◌>>=◌, pure, collect_to_str}
use rust_http.Headers.Serialization.{write}
use rust_http.Headers.Convertible.{HeaderConvertible, default_to_stream}
use rust_http.Headers.Etag
use rust_http.Headers.Etag.{EntityTag}
use rust_http.Headers.Media.{
  MediaType, media_from_stream, TransferCoding, transfer_from_stream, AcceptableRanges,
  ranges_from_stream, Host, host_from_stream,
}
use rust_http.Headers.Media.Writing.{
  media_to_str, media_to_stream, transfer_to_stream, transfer_http_value, ranges_to_stream,
  ranges_http_value, host_to_str,
}

-- `from_str` and `to_str` of numbers and of `extra::url`, and `strptime`, `to_utc` and `strftime`
-- of `extra::time`.
pub record TextFormats : Type 1 where
  pub Url : Type 0
  pub Tm : Type 0
  pub parse_uint : Text → Option ℕ
  pub print_uint : ℕ → Text
  pub parse_u16 : Text → Option ℕ
  pub print_u16 : ℕ → Text
  pub parse_url : Text → Option Url
  pub print_url : Url → Text
  pub strptime : Text → Text → Option Tm
  pub to_utc : Tm → Tm
  pub strftime : Tm → Text → Text

-- An instance that reads the whole value with `from_str` and writes `to_str`.
unfoldable pub parsed_from_stream : {T : Type 0} → (Text → Option T) → ℕ → Reading (Option T)
parsed_from_stream parse fuel = do s ← collect_to_str fuel; pure (parse s)

abbrev pub parsed_convertible : {T : Type 0} → (Text → Option T) → (T → Text) → HeaderConvertible T
parsed_convertible parse print = record {
  from_stream = parsed_from_stream parse;
  to_stream = default_to_stream print;
  http_value = print;
}

abbrev pub etag_convertible : HeaderConvertible EntityTag
etag_convertible = record {
  from_stream = Etag.from_stream;
  to_stream = λ e writer. returns (Etag.to_stream e writer);
  http_value = Etag.to_str;
}

abbrev pub media_convertible : HeaderConvertible MediaType
media_convertible = record {
  from_stream = media_from_stream;
  to_stream = media_to_stream;
  http_value = media_to_str;
}

abbrev pub transfer_convertible : HeaderConvertible TransferCoding
transfer_convertible = record {
  from_stream = transfer_from_stream;
  to_stream = transfer_to_stream;
  http_value = transfer_http_value;
}

abbrev pub ranges_convertible : HeaderConvertible AcceptableRanges
ranges_convertible = record {
  from_stream = ranges_from_stream;
  to_stream = λ r writer. returns (ranges_to_stream r writer);
  http_value = ranges_http_value;
}

module _ (formats : TextFormats) where
  open formats use {
    Url, Tm, parse_uint, print_uint, parse_u16, print_u16, parse_url, print_url, strptime, to_utc,
    strftime,
  }

  abbrev pub uint_convertible : HeaderConvertible ℕ
  uint_convertible = parsed_convertible parse_uint print_uint

  abbrev pub url_convertible : HeaderConvertible Url
  url_convertible = parsed_convertible parse_url print_url

  abbrev pub host_convertible : HeaderConvertible Host
  host_convertible = record {
    from_stream = λ fuel. host_from_stream fuel parse_u16;
    to_stream = default_to_stream (host_to_str print_u16);
    http_value = host_to_str print_u16;
  }

  -- The three formats are tried in turn.
  unfoldable pub parse_tm : Text → Option Tm
  parse_tm value = elim (strptime value (codes "%a, %d %b %Y %T %Z")) [
    | some time ↦ some time
    | none ↦ elim (strptime value (codes "%A, %d-%b-%y %T %Z")) [
      | some time ↦ some time
      | none ↦ strptime value (codes "%c")
    ]
  ]

  unfoldable pub print_tm : Tm → Text
  print_tm t = strftime (to_utc t) (codes "%a, %d %b %Y %T GMT")

  abbrev pub tm_convertible : HeaderConvertible Tm
  tm_convertible = record {
    from_stream = parsed_from_stream parse_tm;
    to_stream = λ t writer. returns (write writer (as_bytes (print_tm t)));
    http_value = print_tm;
  }
