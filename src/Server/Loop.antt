-- ===== src/Server/Loop.antt =====
-- src/libhttp/server/mod.rs: how the requests of one connection are answered, and the totals that
-- `perf_dumper` keeps. Accepting connections, tasks, the clock and the printing are not modelled.
-- What the successive calls of `Request::load` on the connection return is a list; the handler, the
-- server's `handle_request`, is a function that may fail.
pub mod Ready
pub mod Perf
pub mod Served
use rust_http.Base.{
  ℕ, ◌+◌, ◌-◌, ◌%◌, ◌^◌, Bool, List, [], ◌∷◌, if◌then◌else◌, Run, returns, runs_out, ◌>>=◌, Result,
  ok, err, Text,
}
use rust_http.Stream.{Stream}
use rust_http.Buffer.{BufferedStream}
use rust_http.Status.{Status}
use rust_http.Server.Request.{Request}
use rust_http.Server.Response.{
  ResponseHeaders, ResponseWriter, new, write_headers, try_write_headers, finish_response,
}

module _ {W C Url RC : Type 0} (io : Stream W) (collection : ResponseHeaders C)
    (print_u16 : ℕ → Text)
    (handle_request : Request Url RC
      → ResponseWriter W C (Request Url RC)
      → Run (ResponseWriter W C (Request Url RC))) where
  -- The `match err_status`.
  unfoldable pub answer :
      Request Url RC
      → Result (Unit {0}) Status
      → ResponseWriter W C (Request Url RC)
      → Run (ResponseWriter W C (Request Url RC))
  answer request (ok _) response =
      handle_request request response >>= try_write_headers io collection print_u16
  answer request (err status) response = write_headers io collection print_u16 (record response {
    status = status;
    headers = collection.set_content_length 0 response.headers;
  })

  -- One round of the keep-alive loop, behind `load`.
  unfoldable pub respond :
      Request Url RC × Result (Unit {0}) Status → BufferedStream W → Run (BufferedStream W)
  unfolding answer
  respond (request, err_status) stream =
      answer request err_status (new io collection print_u16 stream request) >>= λ response.
      returns (finish_response io collection print_u16 response).writer

  -- The keep-alive loop.
  unfoldable pub keep_alive_loop :
      List (Run (Request Url RC × Result (Unit {0}) Status))
      → BufferedStream W
      → Run (BufferedStream W)
  unfolding respond
  keep_alive_loop [] stream = runs_out
  keep_alive_loop (load ∷ loads) stream = load >>= λ p. respond p stream >>= λ stream'.
      (if p.0.close_connection then returns stream' else keep_alive_loop loads stream')

-- The variables of `perf_dumper`, and a round of its loop behind `recv`: all are `u64`.
pub record Totals : Type 0 where
  pub td_spawn : ℕ
  pub td_request : ℕ
  pub td_response : ℕ
  pub td_handle : ℕ
  pub td_total : ℕ
  pub i : ℕ

abbrev pub u64_mod : ℕ
u64_mod = 2 ^ 64

abbrev pub sub64 : ℕ → ℕ → ℕ
sub64 a b = (a + u64_mod - b) % u64_mod

abbrev pub add64 : ℕ → ℕ → ℕ
add64 a b = (a + b) % u64_mod

pub record PerfData : Type 0 where
  pub start : ℕ
  pub spawned : ℕ
  pub request_made : ℕ
  pub response_made : ℕ
  pub finished : ℕ

unfoldable pub perf_step : Totals → PerfData → Totals
perf_step t d = record {
  td_spawn = add64 t.td_spawn (sub64 d.spawned d.start);
  td_request = add64 t.td_request (sub64 d.request_made d.spawned);
  td_response = add64 t.td_response (sub64 d.response_made d.request_made);
  td_handle = add64 t.td_handle (sub64 d.finished d.response_made);
  td_total = add64 t.td_total (sub64 d.finished d.start);
  i = add64 t.i 1;
}

unfoldable pub perf_dumper : List PerfData → Totals → Totals
unfolding perf_step
perf_dumper [] t = t
perf_dumper (d ∷ ds) t = perf_dumper ds (perf_step t d)
