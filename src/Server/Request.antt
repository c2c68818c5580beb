-- ===== src/Server/Request.antt =====
-- src/libhttp/server/request.rs: the request line, and the loading of a request. The stream is the
-- list of the bytes to come, as in Common. Not in this repository, and so parameters: the parser of
-- `extra::net::url`. The method parser that the build generates is a parameter too, and is that of
-- Codegen/ReadMethod; so are the collection of headers and `read_header`, of any type of header,
-- which Request/Block fills.
pub mod Uri
pub mod Load
pub mod KeepAlive
pub mod Progress
pub mod Block
pub mod Whole
use rust_http.Base.{
  ℕ, zero, suc, Bool, true, false, not, ◌&&◌, ◌||◌, Option, none, some, List, [], ◌∷◌, ◌++◌, ◌==◌,
  if◌then◌else◌, length, Bytes, Text, codes, equal, as_bytes, Run, returns, fails, runs_out, ◌>>=◌,
}
pub use rust_http.Base.{Result, ok, err}
pub use rust_http.Headers.Lines.{
  HeaderLineErr, end_of_file, end_of_headers, malformed_header_value, malformed_header_syntax,
}
use rust_http.Rfc2616.{cr, lf, sp}
use rust_http.Common.{read_http_version}
use rust_http.Method.{Method, options}
use rust_http.Status.{Status, variant}
use rust_http.Headers.Connection.{Connection, close, token}

abbrev pub max_request_uri_len : ℕ
max_request_uri_len = 1024

abbrev pub bad_request : Status
bad_request = variant (codes "BadRequest")

abbrev pub request_uri_too_long : Status
request_uri_too_long = variant (codes "RequestUriTooLong")

abbrev pub http_version_not_supported : Status
http_version_not_supported = variant (codes "HttpVersionNotSupported")

-- `s.starts_with("/")` and `s.contains("/")`
unfoldable pub starts_with_slash : Text → Bool
starts_with_slash [] = false
starts_with_slash (c ∷ cs) = c == b'/'

unfoldable pub contains_slash : Text → Bool
contains_slash [] = false
contains_slash (c ∷ cs) = c == b'/' || contains_slash cs

pub data RequestUri (Url : Type 0) : Type 0 where
  star : RequestUri Url
  absolute_uri : Url → RequestUri Url
  absolute_path authority : Text → RequestUri Url

-- The loop of `read_request_uri`. `len` counts the bytes of the text.
unfoldable pub uri_loop : Text → Bytes → Result Text Status × Bytes
uri_loop request_uri [] = (err bad_request, [])
uri_loop request_uri (b ∷ bs) =
    let rest = uri_loop (request_uri ++ b ∷ []) bs in
    if b == sp
    then (ok request_uri, bs)
    else if length (as_bytes request_uri) == max_request_uri_len
    then (err request_uri_too_long, bs)
    else rest

-- `self.stream.read_byte()`
abbrev pub read_byte : Bytes → Option ℕ × Bytes
read_byte [] = (none, [])
read_byte (b ∷ bs) = (some b, bs)

module _ {Url : Type 0} (parse_url : Text → Option Url) where
  unfoldable pub from_str : Text → Option (RequestUri Url)
  unfolding starts_with_slash contains_slash
  from_str request_uri =
      if equal request_uri (codes "*")
      then some star
      else if starts_with_slash request_uri
      then some (absolute_path request_uri)
      else if contains_slash request_uri
      then (elim (parse_url request_uri) [ some url ↦ some (absolute_uri url) | none ↦ none ])
      else some (authority request_uri)

  uri_of : Result Text Status → Result (RequestUri Url) Status
  unfolding from_str
  uri_of (ok s) = elim (from_str s) [ some r ↦ ok r | none ↦ err bad_request ]
  uri_of (err e) = err e

  unfoldable pub read_request_uri : Bytes → Result (RequestUri Url) Status × Bytes
  unfolding uri_loop uri_of
  read_request_uri stream = let (r, rest) = uri_loop [] stream in (uri_of r, rest)

  abbrev pub RequestLine : Type 0
  RequestLine = Method × (RequestUri Url × (ℕ × ℕ))

  -- The last `match` of `read_request_line`.
  line_of : Method → RequestUri Url → Option (ℕ × ℕ) → Option ℕ → Result RequestLine Status
  line_of method request_uri (some vv) (some b) =
      if b == lf then ok (method, (request_uri, vv)) else err bad_request
  line_of method request_uri _ _ = err bad_request

  version_in : Method → Result (RequestUri Url) Status × Bytes → Result RequestLine Status × Bytes
  unfolding line_of
  version_in method (err e, stream) = (err e, stream)
  version_in method (ok request_uri, stream) =
      let (vv, stream') = read_http_version cr stream in
      let (b, rest) = read_byte stream' in (line_of method request_uri vv b, rest)

  uri_in : Option Method × Bytes → Result RequestLine Status × Bytes
  unfolding version_in read_request_uri
  uri_in (none, stream) = (err bad_request, stream)
  uri_in (some method, stream) = version_in method (read_request_uri stream)

  unfoldable pub read_request_line :
      (Bytes → Option Method × Bytes) → Bytes → Result RequestLine Status × Bytes
  unfolding uri_in
  read_request_line read_method stream = uri_in (read_method stream)

-- What `load` asks of the collection of headers.
pub record HeaderCollection (C H : Type 0) : Type 0 where
  pub empty : C
  pub insert : C → H → C
  pub host_is_none : C → Bool
  pub connection : C → Option (List Connection)

-- The loop over the Connection header.
unfoldable pub close_loop : Bool → List Connection → Bool
close_loop close_connection [] = close_connection
close_loop close_connection (close ∷ vs) = true
close_loop close_connection (token s ∷ vs) =
    close_loop (if equal s (codes "keep-alive") then false else close_connection) vs

pub record Request (Url C : Type 0) : Type 0 where
  pub headers : C
  pub method : Method
  pub request_uri : RequestUri Url
  pub close_connection : Bool
  pub version : ℕ × ℕ

-- The dummy values that `load` starts with; `load` keeps `close_connection` as `true` until the
-- end.
abbrev pub dummy : {Url C H : Type 0} → HeaderCollection C H → Request Url C
dummy collection = record {
  headers = collection.empty;
  method = options;
  request_uri = star;
  close_connection = true;
  version = (0, 0);
}

-- Where the loop over the headers ends: with the end of the headers, or with a bad request.
pub data Headers (C : Type 0) : Type 0 where
  all_read given_up : C → Bytes → Headers C

-- The stream behind the loop.
abbrev pub left_by : {C : Type 0} → Headers C → Bytes
left_by (all_read headers stream) = stream
left_by (given_up headers stream) = stream

-- What the loop does with the outcome of `read_header`; `continue_with` is its next round.
unfoldable pub header_in :
    {C H : Type 0}
    → HeaderCollection C H
    → (C → Bytes → Run (Headers C))
    → C
    → Result H HeaderLineErr × Bytes
    → Run (Headers C)
header_in collection continue_with headers (err end_of_file, stream) = fails
header_in collection continue_with headers (err end_of_headers, stream) =
    returns (all_read headers stream)
header_in collection continue_with headers (err malformed_header_syntax, stream) =
    returns (given_up headers stream)
header_in collection continue_with headers (err malformed_header_value, stream) =
    continue_with headers stream
header_in collection continue_with headers (ok header, stream) =
    continue_with (collection.insert headers header) stream

unfoldable pub headers_loop :
    {C H : Type 0}
    → HeaderCollection C H
    → (Bytes → Run (Result H HeaderLineErr × Bytes))
    → ℕ
    → C
    → Bytes
    → Run (Headers C)
unfolding header_in
headers_loop collection read_header zero headers stream = runs_out
headers_loop collection read_header (suc fuel) headers stream =
    read_header stream >>= header_in collection (headers_loop collection read_header fuel) headers

module _ {Url C H : Type 0} (parse_url : Text → Option Url)
    (read_method : Bytes → Option Method × Bytes) (collection : HeaderCollection C H)
    (read_header : Bytes → Run (Result H HeaderLineErr × Bytes)) where
  abbrev pub Loaded : Type 0
  Loaded = Request Url C × Result (Unit {0}) Status

  -- What `load` does once the headers are read.
  unfoldable pub finish_load : Bool → Request Url C → Headers C → Loaded
  unfolding close_loop
  finish_load close_connection request (given_up headers stream) =
      (record request { headers = headers }, err bad_request)
  finish_load close_connection request (all_read headers stream) =
      let full = record request { headers = headers } in
      if (request.version.0 == 1 && request.version.1 == 1) && collection.host_is_none headers
      then (full, err bad_request)
      else (
        record full {
          close_connection = elim (collection.connection headers) [
            | some vs ↦ close_loop close_connection vs
            | none ↦ close_connection
          ];
        },
        ok tt,
      )

  -- The first `close_connection`, or `None` where the version is not supported.
  unfoldable pub close_for : ℕ × ℕ → Option Bool
  close_for (major, minor) =
      if major == 1 && minor == 0
      then some true
      else if major == 1 && minor == 1
      then some false
      else none

  unfoldable pub with_version : ℕ → Request Url C → Bytes → Option Bool → Run (Loaded × Bytes)
  unfolding headers_loop finish_load
  with_version fuel request stream none =
      returns ((request, err http_version_not_supported), stream)
  with_version fuel request stream (some close_connection) =
      headers_loop collection read_header fuel collection.empty stream >>= λ headers.
      returns (finish_load close_connection request headers, left_by headers)

  unfoldable pub with_line :
      ℕ → Result (RequestLine parse_url) Status × Bytes → Run (Loaded × Bytes)
  unfolding with_version close_for
  with_line fuel (err e, stream) = returns ((dummy collection, err e), stream)
  with_line fuel (ok (method, (request_uri, version)), stream) =
      with_version fuel
        (record (dummy collection) {
          method = method;
          request_uri = request_uri;
          version = version;
        })
        stream (close_for version)

  -- With what is left of the stream.
  unfoldable pub load : ℕ → Bytes → Run (Loaded × Bytes)
  unfolding with_line read_request_line
  load fuel stream = with_line fuel (read_request_line parse_url read_method stream)
