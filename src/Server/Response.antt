-- ===== src/Server/Response.antt =====
-- src/libhttp/server/response.rs: the response that a request is answered with, over
-- `BufferedStream`. The collection of headers is an interface: its fields that the code uses, and
-- the calls of `write` that `write_all` makes. `print_u16` is `to_str` of a `u16`.
pub mod Coding
pub mod Invariant
pub mod Sent
pub mod Collection
use rust_http.Base.{
  ℕ, Bool, true, false, Option, none, some, List, [], ◌∷◌, ◌++◌, ◌≡◌, if◌then◌else◌, length, Bytes,
  Text, codes, as_bytes, Run, returns, fails, ◌>>=◌,
}
use rust_http.Stream.{Stream}
use rust_http.Buffer.{BufferedStream}
use rust_http.Buffer
use rust_http.Buffer.Chunks.{write_all}
use rust_http.Status.{Status, variant, to_str}
use rust_http.Headers.Media.{MediaType, TransferCoding, chunked}

pub record ResponseHeaders (C : Type 0) : Type 0 where
  pub empty : C
  pub content_length : C → Option ℕ
  pub set_content_type : MediaType → C → C
  pub set_content_length : ℕ → C → C
  pub set_transfer_encoding : Option (List TransferCoding) → C → C
  pub writes : C → Run (List Bytes)

-- The fields are apart.
pub record ResponseHeadersLaws {C : Type 0} (h : ResponseHeaders C) : Type 0 where
  pub length_set : (n : ℕ) (c : C) → h.content_length (h.set_content_length n c) ≡ some n
  pub length_kept :
      (t : Option (List TransferCoding)) (c : C)
      → h.content_length (h.set_transfer_encoding t c) ≡ h.content_length c

pub record ResponseWriter (W C R : Type 0) : Type 0 where
  pub writer : BufferedStream W
  pub headers_written : Bool
  pub request : R
  pub headers : C
  pub status : Status

abbrev pub status_ok : Status
status_ok = variant (codes "Ok")

-- `format!("HTTP/1.1 {}\r\n", …)`; every status of the source's type has a text.
unfoldable pub status_line : (ℕ → Text) → Status → Run Bytes
status_line print_u16 status = elim (to_str print_u16 status) [
  | some s ↦ returns (as_bytes ((codes "HTTP/1.1 " ++ s) ++ codes "\r\n"))
  | none ↦ fails
]

-- The headers with Transfer-Encoding set or cleared.
unfoldable pub with_coding : {C : Type 0} → ResponseHeaders C → C → C
with_coding collection headers = elim (collection.content_length headers) [
  | none ↦ collection.set_transfer_encoding (some (chunked ∷ [])) headers
  | some _ ↦ collection.set_transfer_encoding none headers
]

-- The end of `write_headers`.
unfoldable pub enter_body : {W : Type 0} → Stream W → Option ℕ → BufferedStream W → BufferedStream W
enter_body io none writer = record (Buffer.flush io writer) { writing_chunked_body = true }
enter_body io (some _) writer = writer

module _ {W C R : Type 0} (io : Stream W) (collection : ResponseHeaders C)
    (print_u16 : ℕ → Text) where
  unfoldable pub new : BufferedStream W → R → ResponseWriter W C R
  new writer request = record {
    writer = writer;
    headers_written = false;
    request = request;
    headers = collection.empty;
    status = status_ok;
  }

  -- `write_headers` behind its guard.
  unfoldable pub send_headers : ResponseWriter W C R → Run (ResponseWriter W C R)
  unfolding status_line with_coding enter_body
  send_headers r = status_line print_u16 r.status >>= λ s.
      collection.writes (with_coding collection r.headers) >>= λ pieces. returns (record r {
        headers = with_coding collection r.headers;
        headers_written = true;
        writer =
            enter_body io (collection.content_length (with_coding collection r.headers))
              (write_all io (Buffer.write io r.writer s) pieces);
      })

  unfoldable pub write_headers : ResponseWriter W C R → Run (ResponseWriter W C R)
  unfolding send_headers
  write_headers r = if r.headers_written then fails else send_headers r

  unfoldable pub try_write_headers : ResponseWriter W C R → Run (ResponseWriter W C R)
  unfolding write_headers
  try_write_headers r = if r.headers_written then returns r else write_headers r

  -- `Writer::write`, whose test is that of `try_write_headers`, and `Writer::flush`
  unfoldable pub write : Bytes → ResponseWriter W C R → Run (ResponseWriter W C R)
  unfolding try_write_headers
  write buf r = (if r.headers_written then returns r else write_headers r) >>= λ r'.
      returns (record r' { writer = Buffer.write io r'.writer buf })

  unfoldable pub flush : ResponseWriter W C R → ResponseWriter W C R
  flush r = record r { writer = Buffer.flush io r.writer }

  unfoldable pub write_content_auto :
      MediaType → Text → ResponseWriter W C R → Run (ResponseWriter W C R)
  unfolding write_headers write
  write_content_auto content_type content r =
      let cbytes = as_bytes content in
      write_headers (record r {
        headers =
            collection.set_content_length (length cbytes)
              (collection.set_content_type content_type r.headers);
      })
      >>= write cbytes

  unfoldable pub finish_response : ResponseWriter W C R → ResponseWriter W C R
  finish_response r = record r {
    writer = record (Buffer.finish_response io r.writer) { writing_chunked_body = false };
  }
