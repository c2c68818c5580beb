-- ===== src/Status.antt =====
-- src/libhttp/codegen/status.rs: the table of status codes, and the functions of the generated
-- `http::status`, each of which is a `match` with one arm for each entry of the table. A variant of
-- the generated enum is known by its name; an arm is looked up by walking the entries in order.
pub mod Lookup
use rust_http.Base.{
  ℕ, Bool, true, false, not, ◌&&◌, ◌||◌, Option, none, some, List, [], ◌∷◌, ◌++◌, ◌==◌,
  if◌then◌else◌, Text, codes, equal, to_upper, to_lower, to_ascii_lower, Bytes, as_bytes,
}

pub record Entry : Type 0 where
  pub code_ : ℕ
  pub phrase : Text
  pub comment : Option Text

pub data HeadingOrStatus : Type 0 where
  left : Text → HeadingOrStatus
  right : Entry → HeadingOrStatus

abbrev pub status_c : ℕ → Text → Text → HeadingOrStatus
status_c code_ phrase comment =
    right (record { code_ = code_; phrase = phrase; comment = some comment })

abbrev pub status_n : ℕ → Text → HeadingOrStatus
status_n code_ phrase = right (record { code_ = code_; phrase = phrase; comment = none })

-- `msg.replace("-", " ").replace("'", "")`
unfoldable pub cleaned : Text → Text
cleaned [] = []
cleaned (c ∷ cs) =
    let rest = cleaned cs in if c == b'-' then b' ' ∷ rest else if c == 39 then rest else c ∷ rest

-- The loop of `camel_case`. `to_ascii` does not fail: the phrases are ASCII.
unfoldable pub camel_loop : Bool → Text → Text
camel_loop capitalise [] = []
camel_loop capitalise (c ∷ cs) =
    let c' = if capitalise then to_upper c else to_lower c in
    let rest = camel_loop (c' == b' ') cs in if c' == b' ' then rest else c' ∷ rest

unfoldable pub camel_case : Text → Text
unfolding cleaned camel_loop
camel_case msg = camel_loop true (cleaned msg)

unfoldable pub ident : Entry → Text
unfolding camel_case
ident e = camel_case e.phrase

unfoldable pub entries : List HeadingOrStatus
entries =
    left (codes "1xx Informational")
    ∷ status_n 100 (codes "Continue")
    ∷ status_n 101 (codes "Switching Protocols")
    ∷ status_c 102 (codes "Processing") (codes "WebDAV; RFC 2518")
    ∷ left (codes "2xx Success")
    ∷ status_n 200 (codes "OK")
    ∷ status_n 201 (codes "Created")
    ∷ status_n 202 (codes "Accepted")
    ∷ status_c 203 (codes "Non-Authoritative Information") (codes "since HTTP/1.1")
    ∷ status_n 204 (codes "No Content")
    ∷ status_n 205 (codes "Reset Content")
    ∷ status_n 206 (codes "Partial Content")
    ∷ status_c 207 (codes "Multi-Status") (codes "WebDAV; RFC 4918")
    ∷ status_c 208 (codes "Already Reported") (codes "WebDAV; RFC 5842")
    ∷ status_c 226 (codes "IM Used") (codes "RFC 3229")
    ∷ left (codes "3xx Redirection")
    ∷ status_n 300 (codes "Multiple Choices")
    ∷ status_n 301 (codes "Moved Permanently")
    ∷ status_n 302 (codes "Found")
    ∷ status_c 303 (codes "See Other") (codes "since HTTP/1.1")
    ∷ status_n 304 (codes "Not Modified")
    ∷ status_c 305 (codes "Use Proxy") (codes "since HTTP/1.1")
    ∷ status_n 306 (codes "Switch Proxy")
    ∷ status_c 307 (codes "Temporary Redirect") (codes "since HTTP/1.1")
    ∷ status_c 308 (codes "Permanent Redirect") (
        codes
          "approved as experimental RFC: http://tools.ietf.org/html/draft-reschke-http-status-308")
    ∷ left (codes "4xx Client Error")
    ∷ status_n 400 (codes "Bad Request")
    ∷ status_n 401 (codes "Unauthorized")
    ∷ status_n 402 (codes "Payment Required")
    ∷ status_n 403 (codes "Forbidden")
    ∷ status_n 404 (codes "Not Found")
    ∷ status_n 405 (codes "Method Not Allowed")
    ∷ status_n 406 (codes "Not Acceptable")
    ∷ status_n 407 (codes "Proxy Authentication Required")
    ∷ status_n 408 (codes "Request Timeout")
    ∷ status_n 409 (codes "Conflict")
    ∷ status_n 410 (codes "Gone")
    ∷ status_n 411 (codes "Length Required")
    ∷ status_n 412 (codes "Precondition Failed")
    ∷ status_n 413 (codes "Request Entity Too Large")
    ∷ status_n 414 (codes "Request-URI Too Long")
    ∷ status_n 415 (codes "Unsupported Media Type")
    ∷ status_n 416 (codes "Requested Range Not Satisfiable")
    ∷ status_n 417 (codes "Expectation Failed")
    ∷ status_c 418 (codes "I'm a teapot") (codes "RFC 2324")
    ∷ status_n 419 (codes "Authentication Timeout")
    ∷ status_c 422 (codes "Unprocessable Entity") (codes "WebDAV; RFC 4918")
    ∷ status_c 423 (codes "Locked") (codes "WebDAV; RFC 4918")
    ∷ status_c 424 (codes "Failed Dependency") (codes "WebDAV; RFC 4918")
    ∷ status_c 424 (codes "Method Failure") (codes "WebDAV")
    ∷ status_c 425 (codes "Unordered Collection") (codes "Internet draft")
    ∷ status_c 426 (codes "Upgrade Required") (codes "RFC 2817")
    ∷ status_c 428 (codes "Precondition Required") (codes "RFC 6585")
    ∷ status_c 429 (codes "Too Many Requests") (codes "RFC 6585")
    ∷ status_c 431 (codes "Request Header Fields Too Large") (codes "RFC 6585")
    ∷ status_c 451 (codes "Unavailable For Legal Reasons") (codes "Internet draft")
    ∷ left (codes "5xx Server Error")
    ∷ status_n 500 (codes "Internal Server Error")
    ∷ status_n 501 (codes "Not Implemented")
    ∷ status_n 502 (codes "Bad Gateway")
    ∷ status_n 503 (codes "Service Unavailable")
    ∷ status_n 504 (codes "Gateway Timeout")
    ∷ status_n 505 (codes "HTTP Version Not Supported")
    ∷ status_c 506 (codes "Variant Also Negotiates") (codes "RFC 2295")
    ∷ status_c 507 (codes "Insufficient Storage") (codes "WebDAV; RFC 4918")
    ∷ status_c 508 (codes "Loop Detected") (codes "WebDAV; RFC 5842")
    ∷ status_c 510 (codes "Not Extended") (codes "RFC 2774")
    ∷ status_c 511 (codes "Network Authentication Required") (codes "RFC 6585")
    ∷ []

-- The entries that the loops of `generate` write an arm for.
unfoldable pub statuses : List HeadingOrStatus → List Entry
statuses [] = []
statuses (left heading ∷ es) = statuses es
statuses (right e ∷ es) = e ∷ statuses es

-- The first arm that a test picks.
unfoldable pub find : (Entry → Bool) → List Entry → Option Entry
find test [] = none
find test (e ∷ es) = let rest = find test es in if test e then some e else rest

-- The generated enum.
pub data Status : Type 0 where
  variant : Text → Status
  unregistered_status : ℕ → Text → Status

-- An arm for each variant; a name that is none of the enum's has no value.
unfoldable pub code : Status → Option ℕ
unfolding find ident
code (variant name) = elim (find (λ e. equal (ident e) name) (statuses entries)) [
  | some e ↦ some e.code_
  | none ↦ none
]
code (unregistered_status c _) = some c

unfoldable pub reason : Status → Option Text
unfolding find ident
reason (variant name) = elim (find (λ e. equal (ident e) name) (statuses entries)) [
  | some e ↦ some e.phrase
  | none ↦ none
]
reason (unregistered_status _ r) = some r

unfoldable pub from_code_and_reason : ℕ → Text → Status
unfolding find ident
from_code_and_reason status phrase =
    let lower = to_ascii_lower phrase in
    elim (find (λ e. e.code_ == status && equal (to_ascii_lower e.phrase) lower)
      (statuses entries)) [ some e ↦ variant (ident e) | none ↦ unregistered_status status phrase ]

-- `matched_numbers`: the arms of `from_u64`, where an entry whose number has an arm gets none.
unfoldable pub contains : ℕ → List ℕ → Bool
contains n [] = false
contains n (m ∷ ms) = n == m || contains n ms

unfoldable pub number_arms : List ℕ → List Entry → List Entry
unfolding contains
number_arms matched_numbers [] = []
number_arms matched_numbers (e ∷ es) =
    let without = number_arms matched_numbers es in
    let with_it = e ∷ number_arms (e.code_ ∷ matched_numbers) es in
    if not (contains e.code_ matched_numbers) then with_it else without

unfoldable pub from_u64 : ℕ → Option Status
unfolding number_arms find ident
from_u64 n = elim (find (λ e. e.code_ == n) (number_arms [] (statuses entries))) [
  | some e ↦ some (variant (ident e))
  | none ↦ none
]

-- `to_str`, with `to_str` of a `u16`.
unfoldable pub to_str : (ℕ → Text) → Status → Option Text
to_str print_u16 s = elim (code s) [
  | none ↦ none
  | some c ↦ elim (reason s) [ none ↦ none | some r ↦ some ((print_u16 c ++ codes " ") ++ r) ]
]

-- The numbers of an `i64`: `pos n`, and `negsuc n` for the number below zero by `n + 1`.
pub data ℤ : Type 0 where
  pos negsuc : ℕ → ℤ

-- `self.code() as i64` and `as u64`, of a `u16`; every status of the source's type has a code.
unfoldable pub to_i64 : Status → Option ℤ
unfolding code
to_i64 s = elim (code s) [ some c ↦ some (pos c) | none ↦ none ]

unfoldable pub to_u64 : Status → Option ℕ
unfolding code
to_u64 s = code s

unfoldable pub from_i64 : ℤ → Option Status
unfolding from_u64
from_i64 (negsuc n) = none
from_i64 (pos n) = from_u64 n

-- The two instances of formatting, onto the bytes that were written before; `print_u16` and
-- `fmt_u16` are those of a `u16`.
unfoldable pub fmt_default : (ℕ → Text) → Status → Bytes → Option Bytes
unfolding to_str
fmt_default print_u16 s buf = elim (to_str print_u16 s) [
  | some t ↦ some (buf ++ as_bytes t)
  | none ↦ none
]

unfoldable pub fmt_unsigned : (ℕ → Bytes → Bytes) → Status → Bytes → Option Bytes
unfolding code
fmt_unsigned fmt_u16 s buf = elim (code s) [ some c ↦ some (fmt_u16 c buf) | none ↦ none ]
