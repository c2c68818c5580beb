-- ===== src/Server/Request/Whole.antt =====
-- A whole request, as `load` reads it: the method by the generated parser, the URI, the version,
-- and the headers by `read_header`.
use rust_http.Base.{
  ℕ, ◌≤◌, ◌<◌, ◌≡◌, refl, ap, ◌∙◌, true, false, Option, none, some, List, [], ◌∷◌, ◌++◌, All,
  length, Bytes, Text, codes, returns, ◌>>=◌, ok, err, leb, arith,
}
use rust_http.Rfc2616.{cr, lf, sp, is_token}
use rust_http.Common.{read_http_version, read_digits}
use rust_http.Method.{Method, from_str_or_new}
use rust_http.Codegen.ReadMethod.{read_method, read_method-from_str_or_new}
use rust_http.Headers.Table.{Row, Header}
use rust_http.Headers.Table.Rebuilt.{insert_all}
use rust_http.Headers.Lines.{header_enum, read_header}
use rust_http.Headers.Rows.Lines.{ReadBack}
use rust_http.Headers.Rows.Block.{lines_of}
use rust_http.Server.Request.{
  RequestUri, bad_request, from_str, uri_loop, max_request_uri_len, uri_of, read_request_uri,
  line_of, version_in, uri_in, read_request_line, HeaderCollection, Request, all_read, close_loop,
  close_for, finish_load, left_by, with_version, with_line, load,
}
use rust_http.Server.Request.Uri.{IsUriByte, uri_loop_limit}
use rust_http.Server.Request.Block.{headers_loop-lines_of}

version_read : (l : Bytes) → read_http_version cr (codes "HTTP/1.1" ++ cr ∷ l) ≡ (some (1, 1), l)
unfolding read_http_version read_digits
version_read l = refl

module _ {Url : Type 0} (parse_url : Text → Option Url) where
  uri_of_lem :
      (u : Text) (r : RequestUri Url)
      → from_str parse_url u ≡ some r
      → uri_of parse_url (ok u) ≡ ok r
  unfolding uri_of
  uri_of_lem u r parsed = ap (λ o. elim o [ some x ↦ ok x | none ↦ err bad_request ]) parsed

  taken :
      (u : Text) (rest : Bytes)
      → All IsUriByte u
      → length u ≤ 1024
      → uri_loop [] (u ++ sp ∷ rest) ≡ (ok u, rest)
  taken u rest h room =
      let short : leb (length u) max_request_uri_len ≡ true = ground arith in
      uri_loop_limit u rest h ∙ rw short refl

  uri_read :
      (u : Text) (r : RequestUri Url) (rest : Bytes)
      → All IsUriByte u
      → length u ≤ 1024
      → from_str parse_url u ≡ some r
      → read_request_uri parse_url (u ++ sp ∷ rest) ≡ (ok r, rest)
  unfolding read_request_uri
  uri_read u r rest h room parsed =
      ap (λ p. (uri_of parse_url p.0, p.1)) (taken u rest h room)
      ∙ ap (λ o. (o, rest)) (uri_of_lem u r parsed)

  version_line :
      (m : Method) (r : RequestUri Url) (rest : Bytes)
      → version_in parse_url m (ok r, codes "HTTP/1.1" ++ cr ∷ lf ∷ rest)
        ≡ (ok (m, (r, (1, 1))), rest)
  unfolding version_in line_of
  version_line m r rest = rw (version_read (lf ∷ rest)) refl

  line_read :
      (m : Method) (r : RequestUri Url) (stream after rest : Bytes)
      → read_method stream ≡ (some m, after)
      → read_request_uri parse_url after ≡ (ok r, codes "HTTP/1.1" ++ cr ∷ lf ∷ rest)
      → read_request_line parse_url read_method stream ≡ (ok (m, (r, (1, 1))), rest)
  unfolding read_request_line uri_in
  line_read m r stream after rest found uri =
      ap (uri_in parse_url) found ∙ ap (version_in parse_url m) uri ∙ version_line m r rest

  module _ (rows : List Row) (fuel : ℕ) {C : Type 0}
      (collection : HeaderCollection C (Header rows)) where
    -- What a loaded request of version 1.1 is.
    abbrev pub loaded : Method → RequestUri Url → C → Request Url C
    loaded m r headers = record {
      headers = headers;
      method = m;
      request_uri = r;
      close_connection = elim (collection.connection headers) [
        | some vs ↦ close_loop false vs
        | none ↦ false
      ];
      version = (1, 1);
    }

    finish_lem :
        (m : Method) (r : RequestUri Url) (headers : C) (body : Bytes)
        → collection.host_is_none headers ≡ false
        → finish_load parse_url read_method collection
            (read_header (header_enum rows) fuel)
            false
            (record (loaded m r collection.empty) { close_connection = true })
            (all_read headers body)
          ≡ (loaded m r headers, ok tt)
    unfolding finish_load
    finish_lem m r headers body host = rw host refl

    -- A request that is written as a token of at most 64 bytes, an ASCII URI of at most 1024 bytes,
    -- the version HTTP/1.1 and lines of headers, each of which is read back, with a host among
    -- them: `load` with more rounds than headers returns the request of the method that
    -- `from_str_or_new` makes of the token, of that URI, of that version and with these headers,
    -- inserted in order, with no error, and leaves the body; the request is to be closed if the
    -- loop over the Connection header says so.
    pub load-lines_of :
        (b : ℕ) (t : Text) (u : Text) (r : RequestUri Url) (hs : List (Header rows))
        (ls : All (ReadBack rows fuel) hs) (body : Bytes) (rounds : ℕ)
        → is_token (b ∷ t) ≡ true
        → length (b ∷ t) ≤ 64
        → All IsUriByte u
        → length u ≤ 1024
        → from_str parse_url u ≡ some r
        → length hs < rounds
        → collection.host_is_none (insert_all collection.insert collection.empty hs) ≡ false
        → (m : Method) × (from_str_or_new (b ∷ t) ≡ returns (some m))
          × (load parse_url read_method collection (read_header (header_enum rows) fuel) rounds (
                b
                ∷ (t
                    ++ sp
                      ∷ (u
                          ++ sp
                            ∷ (codes "HTTP/1.1"
                                ++ cr ∷ lf ∷ (lines_of rows fuel hs ls ++ cr ∷ lf ∷ body)))))
              ≡ returns
                  ((loaded m r (insert_all collection.insert collection.empty hs), ok tt), body))
    unfolding load with_line with_version close_for
    load-lines_of b t u r hs ls body rounds token short uri_bytes uri_short parsed room host =
        let block = lines_of rows fuel hs ls ++ cr ∷ lf ∷ body in
        let after = codes "HTTP/1.1" ++ cr ∷ lf ∷ block in
        let (m, found, named) = read_method-from_str_or_new b t (u ++ sp ∷ after) token short in
        (
          m,
          named,
          ap
                (with_line parse_url read_method collection (read_header (header_enum rows) fuel)
                  rounds)
                (line_read m r (b ∷ (t ++ sp ∷ (u ++ sp ∷ after))) (u ++ sp ∷ after) block found
                  (uri_read u r after uri_bytes uri_short parsed))
              ∙ ap
                  (λ o. o >>= λ headers. returns (
                    finish_load parse_url read_method collection
                        (read_header (header_enum rows) fuel) false
                        (record (loaded m r collection.empty) { close_connection = true }) headers,
                    left_by headers,
                  ))
                  (headers_loop-lines_of rows fuel collection rounds collection.empty hs ls body
                    room)
              ∙ ap (λ p. returns (p, body))
                  (finish_lem m r (insert_all collection.insert collection.empty hs) body host),
        )
