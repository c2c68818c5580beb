-- ===== src/Client/Response.antt =====
-- src/libhttp/client/response.rs: the response that a client reads. The stream is the list of the
-- bytes to come, as in Server/Request. Where the code raises a condition and returns
-- `Err(request)`, the model has `err`: the condition is handled.
pub mod Digits
pub mod RoundTrip
use rust_http.Base.{
  ℕ, zero, suc, ◌+◌, ◌-◌, ◌*◌, ◌%◌, ◌^◌, Bool, true, false, ◌&&◌, Option, none, some, List, [], ◌∷◌,
  ◌++◌, ◌==◌, leb, if◌then◌else◌, Bytes, Text, Run, returns, fails, runs_out, ◌>>=◌, Result, ok,
  err,
}
use rust_http.Rfc2616.{cr, lf, sp}
use rust_http.Common.{read_http_version}
use rust_http.Status.{Status, from_code_and_reason}
use rust_http.Headers.Lines.{
  HeaderLineErr, end_of_file, end_of_headers, malformed_header_value, malformed_header_syntax,
}

-- What `construct` makes of the stream; the request that it keeps beside it is left as it is.
pub record ResponseReader (C : Type 0) : Type 0 where
  pub stream : Bytes
  pub version : ℕ × ℕ
  pub status : Status
  pub headers : C

-- The loop over the status code: `digits` is a `u8`, `status_code` a `u16`.
unfoldable pub status_loop : ℕ → ℕ → Bytes → Option (ℕ × Bytes)
status_loop digits status_code [] = none
status_loop digits status_code (b ∷ stream) =
    let rest =
      status_loop ((digits + 1) % 2 ^ 8) ((status_code * 10 + b + 2 ^ 16 - b'0') % 2 ^ 16) stream in
    if digits == 4
    then none
    else if leb b'0' b && leb b b'9'
    then rest
    else if b == sp
    then some (status_code, stream)
    else none

-- The byte behind a CR.
abbrev pub line_end : Text → Bytes → Option (Text × Bytes)
line_end reason [] = none
line_end reason (b ∷ stream) = if b == lf then some (reason, stream) else none

-- The loop over the reason.
unfoldable pub reason_loop : Text → Bytes → Option (Text × Bytes)
reason_loop reason [] = none
reason_loop reason (b ∷ stream) =
    let rest = reason_loop (reason ++ b ∷ []) stream in
    if b == cr then line_end reason stream else rest

module _ {C H : Type 0} (empty : C) (insert : C → H → C)
    (read_header : Bytes → Run (Result H HeaderLineErr × Bytes)) where
  -- What the loop over the headers does with the outcome of `read_header`.
  unfoldable pub header_in :
      (C → Bytes → Run (Option (C × Bytes)))
      → C
      → Result H HeaderLineErr × Bytes
      → Run (Option (C × Bytes))
  header_in continue_with headers (err end_of_file, stream) = returns none
  header_in continue_with headers (err end_of_headers, stream) = returns (some (headers, stream))
  header_in continue_with headers (err malformed_header_syntax, stream) = returns none
  header_in continue_with headers (err malformed_header_value, stream) =
      continue_with headers stream
  header_in continue_with headers (ok header, stream) = continue_with (insert headers header) stream

  unfoldable pub headers_loop : ℕ → C → Bytes → Run (Option (C × Bytes))
  unfolding header_in
  headers_loop zero headers stream = runs_out
  headers_loop (suc fuel) headers stream =
      read_header stream >>= header_in (headers_loop fuel) headers

  -- The parts of `construct`, each with what the one before it read.
  with_headers : ℕ × ℕ → ℕ → Text → Option (C × Bytes) → Option (ResponseReader C)
  with_headers version status_code reason none = none
  with_headers version status_code reason (some (headers, stream)) = some (record {
    stream = stream;
    version = version;
    status = from_code_and_reason status_code reason;
    headers = headers;
  })

  with_reason : ℕ → ℕ × ℕ → ℕ → Option (Text × Bytes) → Run (Option (ResponseReader C))
  unfolding headers_loop with_headers
  with_reason fuel version status_code none = returns none
  with_reason fuel version status_code (some (reason, stream)) =
      headers_loop fuel empty stream >>= λ h. returns (with_headers version status_code reason h)

  with_status : ℕ → ℕ × ℕ → Option (ℕ × Bytes) → Run (Option (ResponseReader C))
  unfolding with_reason reason_loop
  with_status fuel version none = returns none
  with_status fuel version (some (status_code, stream)) =
      with_reason fuel version status_code (reason_loop [] stream)

  with_version : ℕ → Option (ℕ × ℕ) × Bytes → Run (Option (ResponseReader C))
  unfolding with_status status_loop
  with_version fuel (none, stream) = returns none
  with_version fuel (some version, stream) = with_status fuel version (status_loop 0 0 stream)

  or_request : {R : Type 0} → R → Option (ResponseReader C) → Result (ResponseReader C) R
  or_request request none = err request
  or_request request (some r) = ok r

  unfoldable pub construct : {R : Type 0} → ℕ → Bytes → R → Run (Result (ResponseReader C) R)
  unfolding with_version or_request
  construct fuel stream request =
      with_version fuel (read_http_version sp stream) >>= λ r. returns (or_request request r)
