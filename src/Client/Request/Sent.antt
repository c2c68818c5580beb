-- ===== src/Client/Request/Sent.antt =====
-- The bytes of a whole request: the request line, the headers and what is written, in order.
use rust_http.Base.{
  ◌≡◌, refl, sym, ap, ◌∙◌, true, false, none, some, List, [], ◌∷◌, ◌++◌, Bytes, Run, returns, ◌>>=◌,
  Result, arith,
}
use rust_http.Stream.{Stream, WriteLaws}
use rust_http.Buffer
use rust_http.Buffer.{BufferedStream}
use rust_http.Buffer.Output.{IsWritable, pending, sent}
use rust_http.Buffer.Chunks.{write_all, concat, flush-write_all}
use rust_http.Server.Response.Sent.{write_all-append, concat-append}
use rust_http.Client.Request.{
  Network, RequestHeaders, RequestWriter, request_line, on_stream, connected, write_headers,
  try_write_headers, write, flush, read_response,
}

module _ {W C : Type 0} (io : Stream W) (laws : WriteLaws io) (net : Network W)
    (collection : RequestHeaders C) where
  -- The calls of `write` on a request.
  unfoldable pub write_pieces :
      List Bytes → RequestWriter io net collection → Run (RequestWriter io net collection)
  write_pieces [] r = returns r
  write_pieces (buf ∷ bufs) r = write io net collection buf r >>= write_pieces bufs

  abbrev on : RequestWriter io net collection → BufferedStream W → RequestWriter io net collection
  on r b = record r { stream = some b; headers_written = true }

  write_pieces-written :
      (bufs : List Bytes) (r : RequestWriter io net collection) (b : BufferedStream W)
      → write_pieces bufs (on r b) ≡ returns (on r (write_all io b bufs))
  unfolding write_pieces write try_write_headers on_stream write_all
  write_pieces-written [] r b = refl
  write_pieces-written (buf ∷ bufs) r b = write_pieces-written bufs r (Buffer.write io b buf)

  write_headers_lem :
      (r : RequestWriter io net collection) (b : BufferedStream W) (pieces : List Bytes)
      → r.headers_written ≡ false
      → connected io net collection r ≡ returns (record r { stream = some b })
      → collection.writes r.headers ≡ returns pieces
      → write_headers io net collection r
        ≡ returns (on r (write_all io b (request_line io net collection r ∷ pieces)))
  unfolding write_headers on_stream write_all request_line
  write_headers_lem r b pieces unsent link wrote = ground (arith, unsent, link, wrote)

  module _ {A : Type 0}
      (construct : BufferedStream W
        → RequestWriter io net collection
        → Run (Result A (RequestWriter io net collection))) where
    read_written :
        (r : RequestWriter io net collection) (b : BufferedStream W)
        → read_response io net collection construct (on r b)
          ≡ construct (Buffer.flush io b) (record r { stream = none; headers_written = true })
    unfolding read_response try_write_headers flush on_stream
    read_written r b = refl

    read_unsent :
        (r : RequestWriter io net collection) (b : BufferedStream W)
        → r.headers_written ≡ false
        → write_headers io net collection r ≡ returns (on r b)
        → read_response io net collection construct r
          ≡ construct (Buffer.flush io b) (record r { stream = none; headers_written = true })
    unfolding read_response try_write_headers flush on_stream
    read_unsent r b unsent sent_now = ground (arith, unsent, sent_now)

    write_unsent :
        (buf : Bytes) (r : RequestWriter io net collection) (b : BufferedStream W)
        → r.headers_written ≡ false
        → write_headers io net collection r ≡ returns (on r b)
        → write io net collection buf r ≡ returns (on r (Buffer.write io b buf))
    unfolding write try_write_headers on_stream
    write_unsent buf r b unsent sent_now = ground (arith, unsent, sent_now)

    pieces_read :
        (bufs : List Bytes) (r : RequestWriter io net collection) (b : BufferedStream W)
        → r.headers_written ≡ false
        → write_headers io net collection r ≡ returns (on r b)
        → (write_pieces bufs r >>= read_response io net collection construct)
          ≡ construct
              (Buffer.flush io (write_all io b bufs))
              (record r { stream = none; headers_written = true })
    unfolding write_pieces write_all
    pieces_read [] r b unsent sent_now = read_unsent r b unsent sent_now
    pieces_read (buf ∷ bufs) r b unsent sent_now =
        ap (λ m. (m >>= write_pieces bufs) >>= read_response io net collection construct)
          (write_unsent buf r b unsent sent_now)
        ∙ ap (λ m. m >>= read_response io net collection construct)
            (write_pieces-written bufs r (Buffer.write io b buf))
        ∙ read_written r (write_all io (Buffer.write io b buf) bufs)

  -- Where the request is not yet sent and is connected, or gets connected, as `b`, with room in its
  -- buffer: writing the pieces `bufs` and reading the response calls `construct` on a stream on
  -- which the request line, the headers and the pieces were sent in this order behind what had
  -- waited, with the request left without its stream; this holds without any pieces too.
  pub read_response-sent :
      {A : Type 0}
      (construct : BufferedStream W
        → RequestWriter io net collection
        → Run (Result A (RequestWriter io net collection)))
      (r : RequestWriter io net collection) (b : BufferedStream W) (pieces bufs : List Bytes)
      → r.headers_written ≡ false
      → connected io net collection r ≡ returns (record r { stream = some b })
      → collection.writes r.headers ≡ returns pieces
      → IsWritable b
      → b.writing_chunked_body ≡ false
      → (b' : BufferedStream W) × ((write_pieces bufs r
            >>= read_response io net collection construct)
          ≡ construct b' (record r { stream = none; headers_written = true }))
        × (sent io laws b'
            ≡ sent io laws b
              ++ (pending b
                  ++ (request_line io net collection r ++ (concat pieces ++ concat bufs))))
  unfolding concat write_all
  read_response-sent construct r b pieces bufs unsent link wrote v mode =
      let line = request_line io net collection r in
      (
        Buffer.flush io (write_all io (write_all io b (line ∷ pieces)) bufs),
        pieces_read construct bufs r (write_all io b (line ∷ pieces)) unsent
            (write_headers_lem r b pieces unsent link wrote),
        ap (λ x. sent io laws (Buffer.flush io x))
              (sym (write_all-append io b (line ∷ pieces) bufs))
            ∙ flush-write_all io laws b (line ∷ (pieces ++ bufs)) v mode
            ∙ ap (λ x. sent io laws b ++ (pending b ++ (line ++ x))) (concat-append pieces bufs),
      )
