-- ===== src/Server/Response/Coding.antt =====
-- The Transfer-Encoding that `write_headers` sets, and what its calls of `write` leave of the
-- stream.
use rust_http.Base.{
  ℕ, ◌≡◌, refl, ◌∙◌, none, some, Option-cases, inl, inr, List, [], ◌∷◌, Bytes, arith,
}
use rust_http.Stream.{Stream, WriteLaws}
use rust_http.Buffer.{BufferedStream}
use rust_http.Buffer
use rust_http.Buffer.Output.{IsWritable, write-Emits}
use rust_http.Buffer.Chunks.{write_all}
use rust_http.Headers.Media.{chunked}
use rust_http.Server.Response.{ResponseHeaders, ResponseHeadersLaws, with_coding}

module _ {C : Type 0} (collection : ResponseHeaders C) (headers : C) where
  -- With a length the coding is cleared.
  pub coding_some :
      (n : ℕ)
      → collection.content_length headers ≡ some n
      → with_coding collection headers ≡ collection.set_transfer_encoding none headers
  unfolding with_coding
  coding_some n h = ground (arith, h)

  -- Without one it is `chunked`.
  pub coding_none :
      collection.content_length headers ≡ none
      → with_coding collection headers
        ≡ collection.set_transfer_encoding (some (chunked ∷ [])) headers
  unfolding with_coding
  coding_none h = ground (arith, h)

-- Setting the transfer coding leaves the length.
pub length-with_coding :
    {C : Type 0} (collection : ResponseHeaders C)
    → ResponseHeadersLaws collection
    → (headers : C)
    → collection.content_length (with_coding collection headers) ≡ collection.content_length headers
unfolding with_coding
length-with_coding collection fields headers =
    elim (Option-cases (collection.content_length headers)) [
      | inl missing ↦ ground (arith, missing, fields.length_kept (some (chunked ∷ [])) headers)
      | inr (n, found) ↦ ground (arith, found, fields.length_kept none headers)
    ]

module _ {W : Type 0} (io : Stream W) (laws : WriteLaws io) where
  pub write_all-IsWritable :
      (b : BufferedStream W) (bufs : List Bytes) → IsWritable b → IsWritable (write_all io b bufs)
  unfolding write_all
  write_all-IsWritable b [] v = v
  write_all-IsWritable b (buf ∷ bufs) v =
      write_all-IsWritable (Buffer.write io b buf) bufs (write-Emits io laws b buf v).writable

  -- A call of `write` leaves the mode of the stream.
  pub write_all_mode :
      (b : BufferedStream W) (bufs : List Bytes)
      → IsWritable b
      → (write_all io b bufs).writing_chunked_body ≡ b.writing_chunked_body
  unfolding write_all
  write_all_mode b [] v = refl
  write_all_mode b (buf ∷ bufs) v =
      let e = write-Emits io laws b buf v in
      write_all_mode (Buffer.write io b buf) bufs e.writable ∙ e.same_mode
