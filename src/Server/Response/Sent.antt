-- ===== src/Server/Response/Sent.antt =====
-- The bytes of a whole response: what is sent from a new response to `finish_response`.
use rust_http.Base.{
  ℕ, ◌<◌, ◌^◌, ◌≡◌, refl, sym, ap, subst, ◌∙◌, true, false, none, some, List, [], ◌∷◌, ◌++◌,
  append_assoc, length, take, Bytes, Text, Run, returns, ◌>>=◌, arith,
}
use rust_http.Stream.{Stream, WriteLaws}
use rust_http.Buffer.{BufferedStream}
use rust_http.Buffer
use rust_http.Buffer.Output.{IsWritable, pending, sent, flush-Emits, flush_empties}
use rust_http.Buffer.Chunks.{
  write_all, concat, ChunkedBody, flush-write_all, finish_response-write_all,
}
use rust_http.Server.Response.{
  ResponseHeaders, ResponseHeadersLaws, ResponseWriter, status_line, with_coding, enter_body,
  send_headers, write_headers, try_write_headers, write, finish_response,
}
use rust_http.Server.Response.Coding.{write_all-IsWritable, write_all_mode, length-with_coding}

pub concat-append : (xs ys : List Bytes) → concat (xs ++ ys) ≡ concat xs ++ concat ys
unfolding concat
concat-append [] ys = refl
concat-append (x ∷ xs) ys =
    ap (λ l. x ++ l) (concat-append xs ys) ∙ sym (append_assoc x (concat xs) (concat ys))

module _ {W : Type 0} (io : Stream W) where
  pub write_all-append :
      (b : BufferedStream W) (xs ys : List Bytes)
      → write_all io b (xs ++ ys) ≡ write_all io (write_all io b xs) ys
  unfolding write_all
  write_all-append b [] ys = refl
  write_all-append b (x ∷ xs) ys = write_all-append (Buffer.write io b x) xs ys

module _ {W C R : Type 0} (io : Stream W) (collection : ResponseHeaders C)
    (print_u16 : ℕ → Text) where
  -- A handler that writes a list of pieces.
  unfoldable pub write_pieces : List Bytes → ResponseWriter W C R → Run (ResponseWriter W C R)
  write_pieces [] r = returns r
  write_pieces (buf ∷ bufs) r = write io collection print_u16 buf r >>= write_pieces bufs

  write_written :
      (buf : Bytes) (r : ResponseWriter W C R)
      → r.headers_written ≡ true
      → write io collection print_u16 buf r
        ≡ returns (record r { writer = Buffer.write io r.writer buf })
  unfolding write try_write_headers
  write_written buf r h = ground (arith, h)

  write_pieces-written :
      (bufs : List Bytes) (r : ResponseWriter W C R)
      → r.headers_written ≡ true
      → write_pieces bufs r ≡ returns (record r { writer = write_all io r.writer bufs })
  unfolding write_pieces write_all
  write_pieces-written [] r h = refl
  write_pieces-written (buf ∷ bufs) r h =
      ap (λ m. m >>= write_pieces bufs) (write_written buf r h)
      ∙ write_pieces-written bufs (record r { writer = Buffer.write io r.writer buf }) h

  -- The response behind its headers, of which `pieces` were written behind the line `s`.
  abbrev pub headed : ResponseWriter W C R → Bytes → List Bytes → ResponseWriter W C R
  headed r s pieces = record r {
    headers = with_coding collection r.headers;
    headers_written = true;
    writer =
        enter_body io (collection.content_length (with_coding collection r.headers))
          (write_all io (Buffer.write io r.writer s) pieces);
  }

  abbrev pub body_written :
      ResponseWriter W C R → Bytes → List Bytes → List Bytes → ResponseWriter W C R
  body_written r s pieces bufs =
      let h = headed r s pieces in record h { writer = write_all io h.writer bufs }

  send_headers_lem :
      (r : ResponseWriter W C R) (s : Bytes) (pieces : List Bytes)
      → status_line print_u16 r.status ≡ returns s
      → collection.writes (with_coding collection r.headers) ≡ returns pieces
      → send_headers io collection print_u16 r ≡ returns (headed r s pieces)
  unfolding send_headers
  send_headers_lem r s pieces hs hp = rw (hs, hp) refl

  -- Whether the handler writes or not, the headers are sent once, in front of what it writes.
  pub write_pieces-try_write_headers :
      (r : ResponseWriter W C R) (s : Bytes) (pieces bufs : List Bytes)
      → r.headers_written ≡ false
      → status_line print_u16 r.status ≡ returns s
      → collection.writes (with_coding collection r.headers) ≡ returns pieces
      → (write_pieces bufs r >>= try_write_headers io collection print_u16)
        ≡ returns (body_written r s pieces bufs)
  unfolding write_pieces write try_write_headers write_headers write_all
  write_pieces-try_write_headers r s pieces [] unsent hs hp =
      rw (unsent, send_headers_lem r s pieces hs hp) refl
  write_pieces-try_write_headers r s pieces (buf ∷ bufs) unsent hs hp =
      let h = headed r s pieces in
      let rest =
        write_pieces-written bufs (record h { writer = Buffer.write io h.writer buf }) refl in
      rw (unsent, send_headers_lem r s pieces hs hp)
        (ap (λ m. m >>= try_write_headers io collection print_u16) rest)

module _ {W : Type 0} (io : Stream W) (laws : WriteLaws io) where
  finish_response_plain :
      (b : BufferedStream W)
      → IsWritable b
      → b.writing_chunked_body ≡ false
      → Buffer.finish_response io b ≡ Buffer.flush io b
  unfolding Buffer.finish_response
  finish_response_plain b v mode = ground (arith, (flush-Emits io laws b v).same_mode, mode)

  pending_flushed : (b : BufferedStream W) → pending (Buffer.flush io b) ≡ []
  pending_flushed b = ap (λ n. take n (Buffer.flush io b).write_buffer) (flush_empties io laws b)

  -- The bytes that are sent by a list of writes, some more, and the end of the response.
  sent_plain :
      (b : BufferedStream W) (s : Bytes) (pieces bufs : List Bytes)
      → IsWritable b
      → b.writing_chunked_body ≡ false
      → sent io laws (
          Buffer.finish_response io (write_all io (write_all io (Buffer.write io b s) pieces) bufs))
        ≡ sent io laws b ++ (pending b ++ (s ++ (concat pieces ++ concat bufs)))
  unfolding write_all concat
  sent_plain b s pieces bufs v mode =
      let all = s ∷ (pieces ++ bufs) in
      ap (λ x. sent io laws (Buffer.finish_response io x))
        (sym (write_all-append io (Buffer.write io b s) pieces bufs))
      ∙ ap (sent io laws) (
          finish_response_plain (write_all io b all) (write_all-IsWritable io laws b all v)
            (write_all_mode io laws b all v ∙ mode))
      ∙ flush-write_all io laws b all v mode
      ∙ ap (λ x. sent io laws b ++ (pending b ++ (s ++ x))) (concat-append pieces bufs)

  -- The same with the chunked coding turned on between the two lists.
  sent_chunked :
      (b : BufferedStream W) (s : Bytes) (pieces bufs : List Bytes)
      → IsWritable b
      → b.writing_chunked_body ≡ false
      → length (concat bufs) < 2 ^ 64
      → let head = write_all io (Buffer.write io b s) pieces in
        (wire : Bytes) × (sent io laws
            (Buffer.finish_response io (write_all io (enter_body io none head) bufs))
          ≡ sent io laws b ++ (pending b ++ (s ++ (concat pieces ++ wire))))
        × ChunkedBody wire (concat bufs)
  unfolding write_all concat enter_body
  sent_chunked b s pieces bufs v mode small =
      let head = write_all io b (s ∷ pieces) in
      let body = enter_body io none head in
      let nothing : pending body ≡ [] = pending_flushed head in
      let carried : pending body ++ concat bufs ≡ concat bufs =
        ap (λ x. x ++ concat bufs) nothing in
      let (wire, e, coded) =
        finish_response-write_all io laws body bufs
          (flush-Emits io laws head (write_all-IsWritable io laws b (s ∷ pieces) v)).writable refl
          (subst (λ x. length x < 2 ^ 64) (sym carried) small) in
      (
        wire,
        e
            ∙ ap (λ x. x ++ wire) (flush-write_all io laws b (s ∷ pieces) v mode)
            ∙ append_assoc (sent io laws b) (pending b ++ (s ++ concat pieces)) wire
            ∙ ap (λ x. sent io laws b ++ x)
                (append_assoc (pending b) (s ++ concat pieces) wire
                  ∙ ap (λ x. pending b ++ x) (append_assoc s (concat pieces) wire)),
        subst (ChunkedBody wire) carried coded,
      )

module _ {W C R : Type 0} (io : Stream W) (laws : WriteLaws io) (collection : ResponseHeaders C)
    (fields : ResponseHeadersLaws collection) (print_u16 : ℕ → Text) where
  -- The whole response: what `finish_response` leaves.
  abbrev pub finished : ResponseWriter W C R → Bytes → List Bytes → List Bytes → BufferedStream W
  finished r s pieces bufs =
      (finish_response io collection print_u16
        (body_written io collection print_u16 r s pieces bufs)).writer

  -- A response with a Content-Length: the status line, the headers and what the handler writes are
  -- sent in this order behind what had waited in the stream, and nothing else.
  pub finished-with_length :
      (r : ResponseWriter W C R) (n : ℕ) (s : Bytes) (pieces bufs : List Bytes)
      → IsWritable r.writer
      → r.writer.writing_chunked_body ≡ false
      → collection.content_length r.headers ≡ some n
      → sent io laws (finished r s pieces bufs)
        ≡ sent io laws r.writer ++ (pending r.writer ++ (s ++ (concat pieces ++ concat bufs)))
  unfolding finish_response
  finished-with_length r n s pieces bufs v mode len =
      ap
        (λ o. sent io laws (
          Buffer.finish_response io (
            write_all io (enter_body io o (write_all io (Buffer.write io r.writer s) pieces))
              bufs)))
        (length-with_coding collection fields r.headers ∙ len)
      ∙ unfold enter_body in sent_plain io laws r.writer s pieces bufs v mode

  -- A response without one: the same line and headers, then one well-formed chunked body, its last
  -- chunk included, of what the handler writes, if that is less than 2 ^ 64 bytes.
  pub finished-chunked :
      (r : ResponseWriter W C R) (s : Bytes) (pieces bufs : List Bytes)
      → IsWritable r.writer
      → r.writer.writing_chunked_body ≡ false
      → collection.content_length r.headers ≡ none
      → length (concat bufs) < 2 ^ 64
      → (wire : Bytes) × (sent io laws (finished r s pieces bufs)
          ≡ sent io laws r.writer ++ (pending r.writer ++ (s ++ (concat pieces ++ wire))))
        × ChunkedBody wire (concat bufs)
  unfolding finish_response
  finished-chunked r s pieces bufs v mode len small =
      let (wire, e, coded) = sent_chunked io laws r.writer s pieces bufs v mode small in
      (
        wire,
        ap
              (λ o. sent io laws (
                Buffer.finish_response io (
                  write_all io (enter_body io o (write_all io (Buffer.write io r.writer s) pieces))
                    bufs)))
              (length-with_coding collection fields r.headers ∙ len)
            ∙ e,
        coded,
      )
