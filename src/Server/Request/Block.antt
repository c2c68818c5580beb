-- ===== src/Server/Request/Block.antt =====
-- The headers of a request, from the bytes that `write_header` puts out to the collection that
-- `load` builds: `headers_loop` over `read_header`, with the collection of the table of requests.
use rust_http.Base.{
  ℕ, zero, suc, ◌<◌, ◌≡◌, refl, ap, ◌∙◌, true, false, none, some, List, [], ◌∷◌, ◌++◌, append_assoc,
  All, length, Bytes, Text, returns, and_then, ◌>>=◌, arith,
}
use rust_http.Rfc2616.{cr, lf}
use rust_http.Headers.Table as Table
use rust_http.Headers.Table.{
  Row, Header, TreeMap, TreeMapLaws, lookup, write_header, write_all, crlf,
}
use rust_http.Headers.Table.Rebuilt.{insert_all, insert_all-headers_of}
use rust_http.Headers.Table.Iteration.{headers_of, write_all-write_each}
use rust_http.Headers.Lines.{header_enum, read_header}
use rust_http.Headers.Types.{TextFormats}
use rust_http.Headers.Rows.{request_rows, request}
use rust_http.Headers.Serialization.{write}
use rust_http.Headers.Rows.Lines.{ReadBack}
use rust_http.Headers.Rows.Block.{
  lines_of, write_each-lines_of, read_header-empty_line, read_header-lines_of,
}
use rust_http.Server.Request.{HeaderCollection, all_read, header_in, headers_loop}

-- The collection of the table of requests, as `load` uses it.
abbrev pub request_collection :
    (formats : TextFormats) (tree : TreeMap)
    → HeaderCollection
        (Table.HeaderCollection (request_rows formats) tree)
        (Header (request_rows formats))
request_collection formats tree = record {
  empty = Table.new (request_rows formats) tree;
  insert = Table.insert (request_rows formats) tree;
  host_is_none =
      λ c. elim c.fields.1.1.1.1.1.1.1.1.1.1.1.1.1.1.1.1.0 [ none ↦ true | some _ ↦ false ];
  connection = λ c. c.fields.1.0;
}

module _ (rows : List Row) (fuel : ℕ) where
  module _ {C : Type 0} (collection : HeaderCollection C (Header rows)) where
    pub headers_loop-lines_of :
        (rounds : ℕ) (c : C) (hs : List (Header rows)) (ls : All (ReadBack rows fuel) hs)
        (body : Bytes)
        → length hs < rounds
        → headers_loop collection
            (read_header (header_enum rows) fuel)
            rounds
            c
            (lines_of rows fuel hs ls ++ cr ∷ lf ∷ body)
          ≡ returns (all_read (insert_all collection.insert c hs) body)
    unfolding headers_loop header_in lines_of insert_all
    headers_loop-lines_of zero c hs ls body room = absurd (omega arith)
    headers_loop-lines_of (suc rounds) c [] ls body room =
        rw (read_header-empty_line rows fuel body) refl
    headers_loop-lines_of (suc rounds) c (h ∷ hs) (l, ls) body room =
        ap
          (λ r.
            r
            >>= header_in collection
                (headers_loop collection (read_header (header_enum rows) fuel) rounds) c)
          (read_header-lines_of rows fuel h hs l ls body)
        ∙ headers_loop-lines_of rounds (collection.insert c h) hs ls body (omega arith)

-- The headers of a request, written and read: where each header of a collection is read back from
-- the line that it is written as, `write_all` returns, with more rounds than there are headers, and
-- the loop of `load` over the bytes that it wrote and a body behind them reads all the headers,
-- leaves the body, and builds a collection with the same fields and the same extensions.
pub headers_loop-write_all :
    (formats : TextFormats) (tree : TreeMap) (laws : TreeMapLaws tree)
    (coll : Table.HeaderCollection (request_rows formats) tree) (fuel rounds : ℕ) (body : Bytes)
    → All (ReadBack (request_rows formats) fuel) (headers_of (request formats) tree coll)
    → length (headers_of (request formats) tree coll) < rounds
    → (bytes : Bytes) × (again : Table.HeaderCollection (request_rows formats) tree) × (write_all
          (request formats)
          tree
          coll
          40
          rounds
          []
        ≡ returns bytes)
      × (headers_loop
            (request_collection formats tree)
            (read_header (header_enum (request_rows formats)) fuel)
            rounds
            (Table.new (request_rows formats) tree)
            (bytes ++ body)
          ≡ returns (all_read again body))
      × (again.fields ≡ coll.fields)
      × ((name : Text)
          → lookup name (tree.iter again.extensions) ≡ lookup name (tree.iter coll.extensions))
headers_loop-write_all formats tree laws coll fuel rounds body ls room =
    let rows = request_rows formats in
    let hs = headers_of (request formats) tree coll in
    let lines = lines_of rows fuel hs ls in
    let (same_fields, same_extensions) = insert_all-headers_of (request formats) tree laws coll in
    (
      lines ++ crlf,
      insert_all (Table.insert rows tree) (Table.new rows tree) hs,
      write_all-write_each (request formats) tree coll 40 rounds [] refl (omega arith) room
          ∙ ap (λ o. and_then o (λ w. returns (write w crlf)))
              (write_each-lines_of rows fuel hs ls [])
          ∙ unfold write in refl,
      ap
            (headers_loop (request_collection formats tree) (read_header (header_enum rows) fuel)
              rounds (Table.new rows tree))
            (append_assoc lines crlf body)
          ∙ headers_loop-lines_of rows fuel (request_collection formats tree) rounds
              (Table.new rows tree) hs ls body room,
      same_fields,
      same_extensions,
    )
