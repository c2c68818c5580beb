-- ===== src/Server/Loop/Ready.antt =====
-- What a response leaves of the connection's stream, and the response to a request that was not
-- read.
use rust_http.Base.{
  ℕ, ◌≡◌, refl, ap, subst, ◌∙◌, false, List, [], ◌∷◌, ◌++◌, append-nil, Bytes, Text, Run, returns,
  ◌>>=◌, >>=-eq-returns, Result, none, ok, err, Bool-cases, inl, inr, arith,
}
use rust_http.Stream.{Stream, WriteLaws}
use rust_http.Buffer.{BufferedStream}
use rust_http.Buffer.Output.{IsWritable, pending, sent}
use rust_http.Buffer.Chunks.{concat}
use rust_http.Status.{Status}
use rust_http.Server.Request.{Request}
use rust_http.Server.Response.{
  ResponseHeaders, ResponseHeadersLaws, ResponseWriter, new, status_line, write_headers,
  try_write_headers, finish_response,
}
use rust_http.Server.Response.Coding.{coding_some}
use rust_http.Server.Response.Invariant.{
  Framing, unsent, finish_response-IsWritable, IsSound, set, call_write_headers,
  call_try_write_headers, Reach, next, here, new-IsSound, Reach-IsSound,
}
use rust_http.Server.Response.Sent.{
  write_pieces, body_written, write_pieces-try_write_headers, finished-with_length,
}
use rust_http.Server.Loop.{answer, respond, keep_alive_loop}

-- The stream between two responses: it can be written to, and is in no chunked body.
pub record IsReady {W : Type 0} (b : BufferedStream W) : Type 0 where
  pub writable : IsWritable b
  pub plain : b.writing_chunked_body ≡ false

returns_same : {A : Type 0} {a b : A} → returns a ≡ returns b → a ≡ b
returns_same e = cc

module _ {W C Url RC : Type 0} (io : Stream W) (laws : WriteLaws io)
    (collection : ResponseHeaders C) (print_u16 : ℕ → Text)
    (handle_request : Request Url RC
      → ResponseWriter W C (Request Url RC)
      → Run (ResponseWriter W C (Request Url RC))) where
  -- A handler that works on the response by its public fields and its methods.
  abbrev pub IsHandler : Type 0
  IsHandler =
      (request : Request Url RC) (r r' : ResponseWriter W C (Request Url RC))
      → handle_request request r ≡ returns r'
      → (f : Framing) × Reach io laws collection print_u16 unsent r f r'

  answer-Reach :
      (request : Request Url RC) (outcome : Result (Unit {0}) Status)
      (r r' : ResponseWriter W C (Request Url RC))
      → IsHandler
      → answer io collection print_u16 handle_request request outcome r ≡ returns r'
      → (f : Framing) × Reach io laws collection print_u16 unsent r f r'
  unfolding answer
  answer-Reach request (ok u) r r' h e =
      let (m, em, e') =
        >>=-eq-returns (handle_request request r) (try_write_headers io collection print_u16) e in
      let (f, reach) = h request r m em in (_, next reach (call_try_write_headers f e'))
  answer-Reach request (err status) r r' h e = (
    _,
    next (next here (set unsent r status (collection.set_content_length 0 r.headers)))
        (call_write_headers unsent e),
  )

  finish_response-IsReady :
      (r : ResponseWriter W C (Request Url RC))
      → IsWritable r.writer
      → IsReady (finish_response io collection print_u16 r).writer
  unfolding finish_response
  finish_response-IsReady r v = record {
    writable = finish_response-IsWritable io laws r.writer v;
    plain = refl;
  }

  respond-IsReady :
      (p : Request Url RC × Result (Unit {0}) Status) (b b' : BufferedStream W)
      → IsHandler
      → IsReady b
      → respond io collection print_u16 handle_request p b ≡ returns b'
      → IsReady b'
  unfolding respond finish_response
  respond-IsReady (request, outcome) b b' h i e =
      let start = new io collection print_u16 b request in
      let (r, er, e') =
        >>=-eq-returns (answer io collection print_u16 handle_request request outcome start) _ e in
      let sound =
        Reach-IsSound io laws collection print_u16
          (new-IsSound io laws collection print_u16 b request i.writable i.plain)
          (answer-Reach request outcome start r h er).1 in
      subst IsReady (returns_same e') (finish_response-IsReady r sound.writable)

  -- On a stream that is ready, and with a handler that only sets the public fields of the response
  -- and calls its methods: whatever requests or errors the calls of `load` return, and however
  -- their responses are framed, the keep-alive loop leaves the stream ready, the chunked coding
  -- off.
  pub keep_alive_loop-IsReady :
      (loads : List (Run (Request Url RC × Result (Unit {0}) Status))) (b b' : BufferedStream W)
      → IsHandler
      → IsReady b
      → keep_alive_loop io collection print_u16 handle_request loads b ≡ returns b'
      → IsReady b'
  unfolding keep_alive_loop
  keep_alive_loop-IsReady [] b b' h i e = absurd (cc)
  keep_alive_loop-IsReady (load ∷ loads) b b' h i e =
      let (p, ep, e1) = >>=-eq-returns load _ e in
      let (m, em, e2) = >>=-eq-returns (respond io collection print_u16 handle_request p b) _ e1 in
      let ready = respond-IsReady p b m h i em in
      elim (Bool-cases p.0.close_connection) [
        | inl last ↦
            let same : m ≡ b' = returns_same (ground (arith, e2, last)) in subst IsReady same ready
        | inr more ↦ keep_alive_loop-IsReady loads m b' h ready (ground (arith, e2, more))
      ]

  -- A request that `load` returns with an error is answered, on a ready stream, with the status
  -- line of that error and headers of Content-Length 0, with the transfer coding cleared, both sent
  -- at once behind what had waited, and no body; the stream is ready again.
  pub respond-err :
      (fields : ResponseHeadersLaws collection) (request : Request Url RC) (status : Status)
      (b : BufferedStream W) (s : Bytes) (pieces : List Bytes)
      → IsReady b
      → status_line print_u16 status ≡ returns s
      → collection.writes
          (collection.set_transfer_encoding none (collection.set_content_length 0 collection.empty))
        ≡ returns pieces
      → (b' : BufferedStream W) × (respond io collection print_u16 handle_request
            (request, err status)
            b
          ≡ returns b')
        × (sent io laws b' ≡ sent io laws b ++ (pending b ++ (s ++ concat pieces)))
        × IsReady b'
  unfolding respond answer new concat write_pieces try_write_headers write_headers
  respond-err fields request status b s pieces i hs hp =
      let r : ResponseWriter W C (Request Url RC) = record {
        writer = b;
        headers_written = false;
        request = request;
        headers = collection.set_content_length 0 collection.empty;
        status = status;
      } in
      let len = fields.length_set 0 collection.empty in
      let hp' = ap collection.writes (coding_some collection r.headers 0 len) ∙ hp in
      let whole = body_written io collection print_u16 r s pieces [] in
      let e : write_headers io collection print_u16 r ≡ returns whole =
        write_pieces-try_write_headers io collection print_u16 r s pieces [] refl hs hp' in
      let start : IsSound io laws collection print_u16 unsent r = record {
        writable = i.writable;
        written = refl;
        mode = i.plain;
      } in
      let sound =
        Reach-IsSound io laws collection print_u16 start
          (next here (call_write_headers unsent e)) in
      (
        (finish_response io collection print_u16 whole).writer,
        ap
            (λ m.
              m >>= λ response. returns (finish_response io collection print_u16 response).writer)
            e,
        finished-with_length io laws collection fields print_u16 r 0 s pieces [] i.writable i.plain
              len
            ∙ ap (λ l. sent io laws b ++ (pending b ++ (s ++ l))) (append-nil (concat pieces)),
        finish_response-IsReady whole sound.writable,
      )
