-- ===== src/Buffer/Chunks.antt =====
-- A body written through `BufferedStream`, in one piece or in the chunked transfer coding.
use rust_http.Base.{
  ◌^◌, ◌<◌, ◌≡◌, sym, ap, ◌∙◌, subst, Bool, true, false, List, [], ◌∷◌, ◌++◌, append-nil,
  append_assoc, All, length, length-append, take, Bytes, codes, arith,
}
use rust_http.Stream.{Stream, WriteLaws}
use rust_http.Buffer.{BufferedStream, to_hex, crlf, write, flush, finish_response}
use rust_http.Buffer.Output.{
  framed, framed_plain, pending, IsWritable, sent, Emits, write-Emits, flush-Emits, flush_empties,
}
use rust_http.Buffer.Hex.{hex_value, IsHex, hex_value-to_hex, to_hex-IsHex}

-- RFC 2616, 3.6.1: chunks of a hexadecimal size and that many bytes, and one of size 0 at the end.
pub data ChunkedBody : Bytes → Bytes → Type 0 where
  last : ChunkedBody (codes "0\r\n\r\n") []
  chunk :
      (size data_ wire body : Bytes)
      → All IsHex size
      → hex_value size ≡ length data_
      → 0 < length data_
      → ChunkedBody wire body
      → ChunkedBody (size ++ (crlf ++ (data_ ++ (crlf ++ wire)))) (data_ ++ body)

framed-ChunkedBody :
    (piece wire body : Bytes)
    → length piece < 2 ^ 64
    → ChunkedBody wire body
    → ChunkedBody (framed true piece ++ wire) (piece ++ body)
unfolding framed
framed-ChunkedBody [] wire body h c = c
framed-ChunkedBody (b ∷ bs) wire body h c =
    let n = length (b ∷ bs) in
    subst (λ w. ChunkedBody w (b ∷ bs ++ body)) (simp append_assoc)
      (chunk (to_hex n) (b ∷ bs) wire body (to_hex-IsHex n) (hex_value-to_hex n h) (omega arith) c)

-- The calls of `write` with which a body is written.
unfoldable pub write_all :
    {W : Type 0} → Stream W → BufferedStream W → List Bytes → BufferedStream W
write_all io b [] = b
write_all io b (buf ∷ bufs) = write_all io (write io b buf) bufs

unfoldable pub concat : List Bytes → Bytes
concat [] = []
concat (buf ∷ bufs) = buf ++ concat bufs

framed_in_one : (chunked : Bool) (c : Bytes) → chunked ≡ false → framed chunked c ≡ c
framed_in_one chunked c h = ap (λ m. framed m c) h ∙ framed_plain c

module _ {W : Type 0} (io : Stream W) (laws : WriteLaws io) where
  flush_piece :
      (b : BufferedStream W) (v : IsWritable b) → (flush-Emits io laws b v).piece ≡ pending b
  flush_piece b v =
      let e = flush-Emits io laws b v in
      sym (append-nil e.piece)
      ∙ ap (λ n. e.piece ++ take n (flush io b).write_buffer) (sym (flush_empties io laws b))
      ∙ e.keeps
      ∙ append-nil (pending b)

  -- What is sent first and what is left, put together.
  emits_then :
      (b : BufferedStream W) (buf : Bytes) (b' : BufferedStream W) (e : Emits io laws b buf b')
      (later : Bytes)
      → e.piece ++ (pending b' ++ later) ≡ pending b ++ (buf ++ later)
  emits_then b buf b' e later =
      sym (append_assoc e.piece (pending b') later)
      ∙ ap (λ x. x ++ later) e.keeps
      ∙ append_assoc (pending b) buf later

  -- Outside a chunked body, any list of writes and a flush send what had waited in the buffer and
  -- the bytes written, in order and once each, if the buffer has room for a byte at the start.
  pub flush-write_all :
      (b : BufferedStream W) (bufs : List Bytes)
      → IsWritable b
      → b.writing_chunked_body ≡ false
      → sent io laws (flush io (write_all io b bufs)) ≡ sent io laws b ++ (pending b ++ concat bufs)
  unfolding write_all concat
  flush-write_all b [] v mode =
      (flush-Emits io laws b v).sends
      ∙ ap (λ x. sent io laws b ++ x)
          (framed_in_one _ _ mode ∙ flush_piece b v ∙ sym (append-nil (pending b)))
  flush-write_all b (buf ∷ bufs) v mode =
      let e = write-Emits io laws b buf v in
      flush-write_all (write io b buf) bufs e.writable (e.same_mode ∙ mode)
      ∙ ap (λ x. x ++ (pending (write io b buf) ++ concat bufs))
          (e.sends ∙ ap (λ x. sent io laws b ++ x) (framed_in_one _ e.piece mode))
      ∙ append_assoc (sent io laws b) e.piece (pending (write io b buf) ++ concat bufs)
      ∙ ap (λ x. sent io laws b ++ x) (emits_then b buf (write io b buf) e (concat bufs))

  finish_response-sent :
      (b : BufferedStream W)
      → IsWritable b
      → b.writing_chunked_body ≡ true
      → sent io laws (finish_response io b)
        ≡ sent io laws b ++ (framed true (pending b) ++ codes "0\r\n\r\n")
  unfolding finish_response
  finish_response-sent b v mode =
      let e = flush-Emits io laws b v in
      rw (e.same_mode ∙ mode) (
        laws.write_outgoing _ _
        ∙ ap (λ x. x ++ codes "0\r\n\r\n")
            (e.sends
              ∙ ap (λ x. sent io laws b ++ x)
                  (ap (λ m. framed m e.piece) mode ∙ ap (framed true) (flush_piece b v)))
        ∙ append_assoc (sent io laws b) _ _)

  -- In a chunked body, any list of writes and `finish_response` send one well-formed chunked body,
  -- its last chunk included, that carries what had waited in the buffer and the bytes written, if
  -- the buffer has room for a byte at the start and these bytes are fewer than 2 ^ 64.
  pub finish_response-write_all :
      (b : BufferedStream W) (bufs : List Bytes)
      → IsWritable b
      → b.writing_chunked_body ≡ true
      → length (pending b ++ concat bufs) < 2 ^ 64
      → (wire : Bytes) × (sent io laws (finish_response io (write_all io b bufs))
          ≡ sent io laws b ++ wire)
        × ChunkedBody wire (pending b ++ concat bufs)
  unfolding write_all concat
  finish_response-write_all b [] v mode small = (
    _,
    finish_response-sent b v mode,
    framed-ChunkedBody (pending b) (codes "0\r\n\r\n") []
        (omega (arith, length-append (pending b) [])) last,
  )
  finish_response-write_all b (buf ∷ bufs) v mode small =
      let e = write-Emits io laws b buf v in
      let b' = write io b buf in
      let whole = emits_then b buf b' e (concat bufs) in
      let size = length-append e.piece (pending b' ++ concat bufs) in
      let rest =
        finish_response-write_all (write io b buf) bufs e.writable (e.same_mode ∙ mode)
          (omega (arith, size, ap length whole)) in
      (
        framed true e.piece ++ rest.0,
        rest.1
            ∙ ap (λ x. x ++ rest.0) (e.sends ∙ ap (λ m. sent io laws b ++ framed m e.piece) mode)
            ∙ append_assoc (sent io laws b) (framed true e.piece) rest.0,
        subst (λ x. ChunkedBody (framed true e.piece ++ rest.0) x) whole
            (framed-ChunkedBody e.piece rest.0 (pending b' ++ concat bufs)
              (omega (arith, size, ap length whole)) rest.2),
      )
