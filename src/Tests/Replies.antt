-- ===== src/Tests/Replies.antt =====
-- Responses of the server, and requests of the client, over the small streams.
use rust_http.Base.{
  ℕ, ◌+◌, ◌/◌, ◌%◌, subst, equal, to_upper, to_lower, as_bytes, char_bytes, ◌≡◌, refl, Bool, true,
  false, Option, none, some, List, [], ◌∷◌, ◌++◌, Bytes, Text, codes, Run, returns, Result, ok, err,
  arith,
}
use rust_http.Buffer.{BufferedStream}
use rust_http.Buffer.Output.{sent, pending}
use rust_http.Buffer.Chunks.{ChunkedBody, concat}
use rust_http.Method.{get}
use rust_http.Status.{
  Status, variant, to_str, code, reason, statuses, entries, ident, cleaned, camel_case, camel_loop,
  find,
}
use rust_http.Headers.Media.{TransferCoding, chunked}
use rust_http.Server.Request.{Request, star}
use rust_http.Server.Response.{
  ResponseHeaders, ResponseHeadersLaws, ResponseWriter, new, status_line, flush, write_headers,
  try_write_headers,
}
use rust_http.Server.Response.Invariant.{
  unsent, in_chunks, sent_with, call_write_headers, IsSound, Reach, here, next, call_flush,
  new-IsSound, Reach-IsSound,
}
use rust_http.Server.Loop.{respond, keep_alive_loop, PerfData, Totals, perf_dumper}
use rust_http.Server.Loop.Perf.{IsBalanced, IsOrdered, perf_dumper-IsBalanced}
use rust_http.Server.Loop.Ready.{IsReady, IsHandler, keep_alive_loop-IsReady, respond-err}
use rust_http.Server.Loop.Served.{serve, respond-with_length, respond-chunked}
use rust_http.Tests.Wire.{Wire, wire, wire-WriteLaws, small_stream}

-- Headers of a length and a coding, written in two pieces.
pub record SmallHeaders : Type 0 where
  pub length_field : Option ℕ
  pub coding : Option (List TransferCoding)

abbrev small_writes : Option (List TransferCoding) → List Bytes
small_writes none = codes "Length: 5\r\n" ∷ codes "\r\n" ∷ []
small_writes (some _) = codes "Coding: chunked\r\n" ∷ codes "\r\n" ∷ []

abbrev small : ResponseHeaders SmallHeaders
small = record {
  empty = record { length_field = none; coding = none };
  content_length = λ c. c.length_field;
  set_content_type = λ m c. c;
  set_content_length = λ n c. record c { length_field = some n };
  set_transfer_encoding = λ t c. record c { coding = t };
  writes = λ c. returns (small_writes c.coding);
}

returns_same : {A : Type 0} {a b : A} → returns a ≡ returns b → a ≡ b
returns_same e = cc

small-ResponseHeadersLaws : ResponseHeadersLaws small
small-ResponseHeadersLaws = record { length_set = λ n c. refl; length_kept = λ t c. refl }

-- The codes of the statuses below, in decimal.
abbrev pub print_u16 : ℕ → Text
print_u16 n = (n / 100 + b'0') ∷ (n / 10 % 10 + b'0') ∷ (n % 10 + b'0') ∷ []

abbrev is_ok : Status
is_ok = variant (codes "Ok")

abbrev request : Request Bool Bool
request = record {
  headers = true;
  method = get;
  request_uri = star;
  close_connection = true;
  version = (1, 1);
}

abbrev ready : BufferedStream Wire
ready = small_stream [] false

ready-IsReady : IsReady ready
ready-IsReady = record { writable = omega arith; plain = refl }

ok_line : status_line print_u16 is_ok ≡ returns (codes "HTTP/1.1 200 OK\r\n")
unfolding status_line to_str code statuses entries equal to_upper to_lower reason as_bytes
    char_bytes ident cleaned camel_case camel_loop find
ok_line = refl

abbrev hello : List Bytes
hello = codes "Hel" ∷ codes "lo" ∷ []

abbrev with_five : SmallHeaders
with_five = record { length_field = some 5; coding = some (chunked ∷ []) }

respond-with_length_example :
    (b' : BufferedStream Wire) × (respond wire small print_u16
        (serve wire wire-WriteLaws small small-ResponseHeadersLaws print_u16 is_ok with_five hello)
        (request, ok tt)
        ready
      ≡ returns b')
    × (sent wire wire-WriteLaws b'
        ≡ sent wire wire-WriteLaws ready
          ++ (pending ready
              ++ (codes "HTTP/1.1 200 OK\r\n" ++ (concat (small_writes none) ++ concat hello))))
respond-with_length_example =
    respond-with_length wire wire-WriteLaws small small-ResponseHeadersLaws print_u16 is_ok
      with_five hello request ready 5 (codes "HTTP/1.1 200 OK\r\n") (small_writes none)
      ready-IsReady ok_line refl refl

respond-chunked_example :
    (b' : BufferedStream Wire) × (out : Bytes) × (respond wire small print_u16
        (serve wire wire-WriteLaws small small-ResponseHeadersLaws print_u16 is_ok small.empty
          hello)
        (request, ok tt)
        ready
      ≡ returns b')
    × (sent wire wire-WriteLaws b'
        ≡ sent wire wire-WriteLaws ready
          ++ (pending ready
              ++ (codes "HTTP/1.1 200 OK\r\n" ++ (concat (small_writes (some [])) ++ out))))
    × ChunkedBody out (concat hello)
respond-chunked_example =
    respond-chunked wire wire-WriteLaws small small-ResponseHeadersLaws print_u16 is_ok small.empty
      hello request ready (codes "HTTP/1.1 200 OK\r\n") (small_writes (some [])) ready-IsReady
      ok_line refl refl (unfold concat in omega arith)

-- A handler that only flushes.
abbrev flushing :
    Request Bool Bool
    → ResponseWriter Wire SmallHeaders (Request Bool Bool)
    → Run (ResponseWriter Wire SmallHeaders (Request Bool Bool))
flushing q r = returns (flush wire small print_u16 r)

flushing-IsHandler : IsHandler wire wire-WriteLaws small print_u16 flushing
flushing-IsHandler q r r' e = (
  unsent,
  subst (Reach wire wire-WriteLaws small print_u16 unsent r unsent) (returns_same e)
      (next here (call_flush unsent r)),
)

-- Two requests, of which the second closes the connection; the first is not even a request.
abbrev loads : List (Run (Request Bool Bool × Result (Unit {0}) Status))
loads =
    returns (record request { close_connection = false }, err (variant (codes "BadRequest")))
    ∷ returns (request, ok tt)
    ∷ []

abbrev both_answered : BufferedStream Wire
both_answered = elim (keep_alive_loop wire small print_u16 flushing loads ready) [
  | returns b ↦ b
  | _ ↦ ready
]

loop_returns : keep_alive_loop wire small print_u16 flushing loads ready ≡ returns both_answered
unfolding keep_alive_loop write_headers new to_str code statuses entries equal to_upper to_lower
    reason try_write_headers flush
loop_returns = refl

keep_alive_loop-IsReady_example : IsReady both_answered
keep_alive_loop-IsReady_example =
    keep_alive_loop-IsReady wire wire-WriteLaws small print_u16 flushing loads ready both_answered
      flushing-IsHandler ready-IsReady loop_returns

respond-err_example :
    (b' : BufferedStream Wire) × (respond wire small print_u16 flushing (request, err is_ok) ready
      ≡ returns b')
    × (sent wire wire-WriteLaws b'
        ≡ sent wire wire-WriteLaws ready
          ++ (pending ready ++ (codes "HTTP/1.1 200 OK\r\n" ++ concat (small_writes none))))
    × IsReady b'
respond-err_example =
    respond-err wire wire-WriteLaws small print_u16 flushing small-ResponseHeadersLaws request is_ok
      ready (codes "HTTP/1.1 200 OK\r\n") (small_writes none) ready-IsReady ok_line refl

abbrev fresh : ResponseWriter Wire SmallHeaders (Request Bool Bool)
fresh = new wire small print_u16 ready request

-- Its headers, without a length, are written.
abbrev framed : ResponseWriter Wire SmallHeaders (Request Bool Bool)
framed = elim (write_headers wire small print_u16 fresh) [ returns r ↦ r | _ ↦ fresh ]

framed_returns : write_headers wire small print_u16 fresh ≡ returns framed
unfolding write_headers new to_str code statuses entries equal to_upper to_lower reason
framed_returns = refl

Reach-IsSound_example :
    IsSound wire wire-WriteLaws small print_u16
      (sent_with none unsent)
      (flush wire small print_u16 framed)
unfolding write_headers new to_str code statuses entries equal to_upper to_lower reason
Reach-IsSound_example =
    Reach-IsSound wire wire-WriteLaws small print_u16
      (new-IsSound wire wire-WriteLaws small print_u16 ready request (omega arith) refl)
      (next (next here (call_write_headers unsent framed_returns)) (call_flush in_chunks framed))

abbrev measured : PerfData
measured = record { start = 5; spawned = 7; request_made = 9; response_made = 10; finished = 30 }

abbrev zero_totals : Totals
zero_totals = record {
  td_spawn = 0;
  td_request = 0;
  td_response = 0;
  td_handle = 0;
  td_total = 0;
  i = 0;
}

measured-IsOrdered : IsOrdered measured
measured-IsOrdered = omega arith

perf_dumper-IsBalanced_example : IsBalanced (perf_dumper (measured ∷ measured ∷ []) zero_totals)
perf_dumper-IsBalanced_example =
    perf_dumper-IsBalanced (measured ∷ measured ∷ []) zero_totals (omega arith)
      (measured-IsOrdered, (measured-IsOrdered, tt))
