-- ===== src/Server/Loop/Served.antt =====
-- A request that was read, answered by a handler that sets the status and the headers and writes
-- pieces of a body.
use rust_http.Base.{
  ℕ, ◌<◌, ◌^◌, ◌≡◌, refl, ap, ◌∙◌, false, none, some, List, [], ◌∷◌, ◌++◌, length, Bytes, Text, Run,
  returns, ◌>>=◌, ok,
}
use rust_http.Stream.{Stream, WriteLaws}
use rust_http.Buffer.{BufferedStream}
use rust_http.Buffer.Output.{pending, sent}
use rust_http.Buffer.Chunks.{concat, ChunkedBody}
use rust_http.Status.{Status}
use rust_http.Headers.Media.{chunked}
use rust_http.Server.Request.{Request}
use rust_http.Server.Response.{
  ResponseHeaders, ResponseHeadersLaws, ResponseWriter, new, status_line, with_coding,
  finish_response,
}
use rust_http.Server.Response.Coding.{coding_some, coding_none}
use rust_http.Server.Response.Sent.{
  write_pieces, body_written, write_pieces-try_write_headers, finished-with_length,
  finished-chunked,
}
use rust_http.Server.Loop.{answer, respond}
use rust_http.Server.Loop.Ready.{IsReady}

module _ {W C Url RC : Type 0} (io : Stream W) (laws : WriteLaws io)
    (collection : ResponseHeaders C) (fields : ResponseHeadersLaws collection)
    (print_u16 : ℕ → Text) (status : Status) (headers : C) (bufs : List Bytes) where
  -- The handler.
  unfoldable pub serve :
      Request Url RC
      → ResponseWriter W C (Request Url RC)
      → Run (ResponseWriter W C (Request Url RC))
  unfolding write_pieces
  serve request r =
      write_pieces io collection print_u16 bufs (record r { status = status; headers = headers })

  answered : Request Url RC → BufferedStream W → ResponseWriter W C (Request Url RC)
  answered request b = record {
    writer = b;
    headers_written = false;
    request = request;
    headers = headers;
    status = status;
  }

  respond-serve :
      (request : Request Url RC) (b : BufferedStream W) (s : Bytes) (pieces : List Bytes)
      → status_line print_u16 status ≡ returns s
      → collection.writes (with_coding collection headers) ≡ returns pieces
      → respond io collection print_u16 serve (request, ok tt) b
        ≡ returns
            (finish_response io collection print_u16
              (body_written io collection print_u16 (answered request b) s pieces bufs)).writer
  unfolding respond answer serve new answered
  respond-serve request b s pieces hs hp =
      ap (λ m. m >>= λ response. returns (finish_response io collection print_u16 response).writer)
        (write_pieces-try_write_headers io collection print_u16 (answered request b) s pieces bufs
          refl hs hp)

  -- A request that `load` returned without an error, answered on a ready stream by a handler that
  -- sets a status and headers with a Content-Length and writes the pieces `bufs`, which may be
  -- none: the status line, the headers, with the transfer coding cleared, and the pieces are sent
  -- in this order behind what had waited, and nothing else.
  pub respond-with_length :
      (request : Request Url RC) (b : BufferedStream W) (n : ℕ) (s : Bytes) (pieces : List Bytes)
      → IsReady b
      → status_line print_u16 status ≡ returns s
      → collection.content_length headers ≡ some n
      → collection.writes (collection.set_transfer_encoding none headers) ≡ returns pieces
      → (b' : BufferedStream W) × (respond io collection print_u16 serve (request, ok tt) b
          ≡ returns b')
        × (sent io laws b' ≡ sent io laws b ++ (pending b ++ (s ++ (concat pieces ++ concat bufs))))
  unfolding answered
  respond-with_length request b n s pieces i hs len hp = (
    _,
    respond-serve request b s pieces hs
        (ap collection.writes (coding_some collection headers n len) ∙ hp),
    finished-with_length io laws collection fields print_u16 (answered request b) n s pieces bufs
        i.writable i.plain len,
  )

  -- The same with headers without a Content-Length, and less than 2 ^ 64 bytes of body: behind the
  -- status line and the headers, with the transfer coding set to `chunked`, one well-formed chunked
  -- body, its last chunk included, carries the pieces.
  pub respond-chunked :
      (request : Request Url RC) (b : BufferedStream W) (s : Bytes) (pieces : List Bytes)
      → IsReady b
      → status_line print_u16 status ≡ returns s
      → collection.content_length headers ≡ none
      → collection.writes (collection.set_transfer_encoding (some (chunked ∷ [])) headers)
        ≡ returns pieces
      → length (concat bufs) < 2 ^ 64
      → (b' : BufferedStream W) × (wire : Bytes) × (respond io collection print_u16 serve
            (request, ok tt)
            b
          ≡ returns b')
        × (sent io laws b' ≡ sent io laws b ++ (pending b ++ (s ++ (concat pieces ++ wire))))
        × ChunkedBody wire (concat bufs)
  unfolding answered
  respond-chunked request b s pieces i hs len hp small =
      let (wire, e, coded) =
        finished-chunked io laws collection fields print_u16 (answered request b) s pieces bufs
          i.writable i.plain len small in
      (
        _,
        wire,
        respond-serve request b s pieces hs
            (ap collection.writes (coding_none collection headers len) ∙ hp),
        e,
        coded,
      )
