-- ===== src/Tests/Messages.antt =====
-- Methods, statuses and requests.
use rust_http.Base.{
  Run, output, ℕ, zero, suc, ◌<◌, ◌≡◌, ◌↔◌, refl, Bool, true, false, ◌||◌, Option, none, some, List,
  [], ◌∷◌, ◌++◌, length, drop, replicate, All, Bytes, Text, codes, returns, arith, leb,
  to_ascii_lower, as_bytes, to_upper, to_lower, equal, length-replicate, char_bytes, if◌then◌else◌,
}
use rust_http.Rfc2616.{cr, lf, sp}
use rust_http.Method.{Method, get, to_str, from_str}
use rust_http.Method.Names.{is_known, from_str_iff}
use rust_http.Status.{
  variant, code, reason, find, ident, camel_case, camel_loop, cleaned, statuses, entries,
  from_code_and_reason,
}
use rust_http.Status.Lookup.{from_code_and_reason_lem, from_code_and_reason-registered}
use rust_http.Headers.Value.{HeaderValueByteIterator, new}
use rust_http.Headers.Convertible.{list_loop, list_to_stream, write_more}
use rust_http.Headers.Value.View.{value}
use rust_http.Headers.Serialization.{write}
use rust_http.Headers.Connection
use rust_http.Headers.Connection.Values.{IsReadable}
use rust_http.Headers.Connection.RoundTrip.{connections-from_stream-to_stream}
use rust_http.Common.{read_http_version, read_digits}
use rust_http.Headers.Connection.{Connection, close, token, convertible}
use rust_http.Server.Request
use rust_http.Server.Request.{
  Result, ok, err, HeaderLineErr, end_of_file, end_of_headers, HeaderCollection, RequestUri, star,
  Request, Headers, headers_loop, load, with_line, with_version, close_for, header_in, finish_load,
  read_request_line, read_request_uri, starts_with_slash, contains_slash, close_loop, uri_loop,
  max_request_uri_len, request_uri_too_long,
}
use rust_http.Server.Request.Load.{IsSettled, load-IsSettled, has_close}
use rust_http.Server.Request.KeepAlive.{close_loop-read}
use rust_http.Server.Request.Uri.{IsUriByte, uri_loop_limit, uri_loop_past_limit}

from_str_iff_example :
    (from_str (codes "GET") ≡ some get) ↔ ((is_known get ≡ true) × (codes "GET" ≡ to_str get))
from_str_iff_example = from_str_iff (codes "GET") get

from_code_and_reason_lem_example :
    (code (from_code_and_reason 418 (codes "I'M A TEAPOT")) ≡ some 418)
    × ((r' : Text) × (reason (from_code_and_reason 418 (codes "I'M A TEAPOT")) ≡ some r')
        × (to_ascii_lower r' ≡ to_ascii_lower (codes "I'M A TEAPOT")))
from_code_and_reason_lem_example = from_code_and_reason_lem 418 (codes "I'M A TEAPOT")

failure_code : code (variant (codes "MethodFailure")) ≡ some 424
unfolding code find ident camel_case camel_loop cleaned statuses entries equal to_upper to_lower
failure_code = refl

failure_reason : reason (variant (codes "MethodFailure")) ≡ some (codes "Method Failure")
unfolding reason find ident camel_case camel_loop cleaned statuses entries equal to_upper to_lower
failure_reason = refl

from_code_and_reason-registered_example :
    from_code_and_reason 424 (codes "Method Failure") ≡ variant (codes "MethodFailure")
from_code_and_reason-registered_example =
    from_code_and_reason-registered (codes "MethodFailure") 424 (codes "Method Failure")
      failure_code failure_reason

-- A collection of headers that only knows its Connection values, and a reader of one byte a header.
abbrev collection : HeaderCollection (List Connection) Connection
collection = record {
  empty = [];
  insert = λ c h. c ++ h ∷ [];
  host_is_none = λ c. false;
  connection = λ c. some c;
}

abbrev read_header : Bytes → Run (Result Connection HeaderLineErr × Bytes)
read_header [] = returns (err end_of_file, [])
read_header (b ∷ bs) = returns (if leb b lf then err end_of_headers else ok close, bs)

abbrev read_method : Bytes → Option Method × Bytes
read_method l = (some get, drop 4 l)

abbrev no_url : Text → Option Bool
no_url s = none

abbrev loaded : Request Bool (List Connection)
loaded = record {
  headers = close ∷ [];
  method = get;
  request_uri = star;
  close_connection = true;
  version = (1, 1);
}

is_loaded :
    load no_url read_method collection read_header 9 (codes "GET * HTTP/1.1\r\nx\n")
    ≡ returns ((loaded, ok tt), [])
unfolding load read_request_line read_request_uri starts_with_slash contains_slash Request.from_str
    uri_loop read_http_version read_digits with_line with_version close_for headers_loop header_in
    finish_load close_loop equal as_bytes char_bytes
is_loaded = refl

load-IsSettled_example : IsSettled no_url read_method collection read_header loaded (ok tt)
load-IsSettled_example =
    load-IsSettled no_url read_method collection read_header 9 (codes "GET * HTTP/1.1\r\nx\n")
      loaded (ok tt) [] is_loaded

uri_loop_limit_example : uri_loop [] (codes "/a" ++ sp ∷ codes "HTTP") ≡ (
    if leb (length (codes "/a")) max_request_uri_len
    then (ok (codes "/a"), codes "HTTP")
    else (err request_uri_too_long, drop 1025 (codes "/a" ++ sp ∷ codes "HTTP")))
uri_loop_limit_example =
    uri_loop_limit (codes "/a") (codes "HTTP")
      ((omega arith, omega arith), ((omega arith, omega arith), tt))

letters : (n : ℕ) → All IsUriByte (replicate n b'a')
letters zero = tt
letters (suc n) = ((omega arith, omega arith), letters n)

uri_loop_past_limit_example :
    uri_loop [] (replicate 1023 b'a' ++ 233 ∷ (codes "more" ++ sp ∷ codes "HTTP"))
    ≡ (ok (replicate 1023 b'a' ++ 233 ∷ codes "more"), codes "HTTP")
uri_loop_past_limit_example =
    uri_loop_past_limit (replicate 1023 b'a') (codes "more") 233 (codes "HTTP") (letters 1023)
      (length-replicate {A = ℕ} 1023 b'a') (omega arith) (omega arith) (omega arith)

close_room : length (output (list_to_stream convertible (close ∷ []) [])) < 50
unfolding list_to_stream write_more Connection.to_stream write
close_room = omega arith

-- A Connection header with the value `close`, read.
close_read :
    (list_to_stream convertible (close ∷ []) []
      ≡ returns (output (list_to_stream convertible (close ∷ []) [])))
    × (it : HeaderValueByteIterator) × (list_loop convertible 50 50 []
          (new (output (list_to_stream convertible (close ∷ []) []) ++ cr ∷ lf ∷ b'X' ∷ []))
        ≡ returns (some (close ∷ []), it))
    × (value it ≡ ([], b'X' ∷ []))
unfolding IsReadable
close_read = connections-from_stream-to_stream close [] 50 b'X' [] tt tt refl close_room

close_loop-read_example : close_loop false (close ∷ []) ≡ (has_close (close ∷ []) || false)
close_loop-read_example =
    close_loop-read 50
      (new (output (list_to_stream convertible (close ∷ []) []) ++ cr ∷ lf ∷ b'X' ∷ []))
      close_read.1 (close ∷ []) false close_read.2
