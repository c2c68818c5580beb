-- ===== src/Tests/Exchange.antt =====
-- Header lines, tables, names and whole messages on small inputs.
use rust_http.Base.{
  ℕ, ◌≡◌, ◌↔◌, refl, true, false, Option, none, some, List, [], ◌∷◌, ◌++◌, length, inl, inr, Bytes,
  Text, codes, Run, returns, ◌>>=◌, output, Result, ok, and_then, All, equal, to_upper, to_lower,
  arith,
}
use rust_http.Rfc2616.{is_token}
use rust_http.Method.{Method, from_str_or_new}
use rust_http.Codegen.ReadMethod.{read_method, read_method-from_str_or_new}
use rust_http.Codegen.Branchify.{Branches, branchify}
use rust_http.Codegen.Branchify.Lookup.{find, extended_by, IsPlain, branchify-find}
use rust_http.Client.Response.{status_loop}
use rust_http.Client.Response.Digits.{ReadsCode, status_loop_iff}
use rust_http.Headers.Table as Table
use rust_http.Headers.Table.{
  Header, known, extension_header, lookup, field_at, write_all, write_header, crlf, new_fields,
  insert_field,
}
use rust_http.Headers.Serialization.{write}
use rust_http.Headers.Serialization.Names.{normalised}
use rust_http.Headers.Table.Insertion.{or_before, sets_field, sets_extension, insert_lem}
use rust_http.Headers.Table.Iteration.{write_each, headers_of, write_all-write_each}
use rust_http.Headers.Rows.{request, request_rows, response_rows}
use rust_http.Headers.Rows.Checks.{has_row, tables-are_named}
use rust_http.Buffer.{BufferedStream}
use rust_http.Buffer.Output.{sent, pending}
use rust_http.Buffer.Chunks.{concat}
use rust_http.Rfc2616.{cr, lf}
use rust_http.Method.{get}
use rust_http.Status.{
  variant, code, reason, statuses, entries, ident, cleaned, camel_case, camel_loop,
}
use rust_http.Headers.Media.{Host}
use rust_http.Headers.Table.Rebuilt.{insert_all}
use rust_http.Headers.Rows.Block.{lines_of}
use rust_http.Server.Response.{status_line}
use rust_http.Client.Response.{construct}
use rust_http.Client.Response.RoundTrip.{construct-status_line}
use rust_http.Client.Request.{
  Network, RequestHeaders, RequestWriter, request_line, connected, read_response,
}
use rust_http.Client.Request.Sent.{write_pieces, read_response-sent}
use rust_http.Tests.Replies.{print_u16}
use rust_http.Tests.Wire.{Wire, wire, wire-WriteLaws, small_stream}
use rust_http.Base.{equal_iff, subst, sym, ap, as_bytes, char_bytes, ◌<◌}
use rust_http.Headers.Convertible.{list_to_stream, write_more}
use rust_http.Headers.Connection
use rust_http.Headers.Connection.{close, convertible}
use rust_http.Headers.Connection.Values.{IsReadable}
use rust_http.Headers.Connection.RoundTrip.{ConnectionsLine, connections_line}
use rust_http.Headers.Table.{known_name, Row}
use rust_http.Headers.Table.Dispatch.{HasNoRow}
use rust_http.Headers.Lines.{header_enum, read_header}
use rust_http.Headers.Lines.Tables.{header_line, read_header-write_header_extension}
use rust_http.Headers.Rows.Checks.{read_header-write_header}
use rust_http.Headers.Rows.Lines.{ReadBack, extension-ReadBack, connection-ReadBack}
use rust_http.Server.Request.{all_read, headers_loop}
use rust_http.Server.Request.{HeaderCollection, load, from_str, starts_with_slash, absolute_path}
use rust_http.Server.Request.Whole.{loaded, load-lines_of}
use rust_http.Server.Request.Block.{request_collection, headers_loop-write_all}
use rust_http.Tests.Maps.{insert, insert_distinct, tree, tree-TreeMapLaws, formats}

read_method-from_str_or_new_example :
    (m : Method) × (read_method (codes "FROB /") ≡ (some m, codes "/"))
    × (from_str_or_new (codes "FROB") ≡ returns (some m))
read_method-from_str_or_new_example =
    read_method-from_str_or_new b'F' (codes "ROB") (codes "/") (unfold is_token in refl)
      (omega arith)

abbrev options : List (Text × ℕ)
options = (codes "ab", 1) ∷ (codes "ac", 2) ∷ []

branchify-find_example :
    (bs : Branches ℕ) × (branchify options true ≡ returns bs)
    × (IsPlain (λ c. Unit) bs)
    × ((c : ℕ) (cs : Text) → find bs c cs ≡ extended_by options (λ _. none) (c ∷ cs))
unfolding equal
branchify-find_example =
    branchify-find (λ c. Unit) options
      (
        ((omega arith, tt), ((omega arith, tt), tt)),
        (((omega arith, tt), ((omega arith, tt), tt)), tt),
      )
      (refl, (refl, tt))

status_loop_iff_example :
    (status_loop 0 0 (codes "20 x") ≡ some (20, codes "x"))
    ↔ ReadsCode 3 0 (codes "20 x") 20 (codes "x")
status_loop_iff_example = status_loop_iff (codes "20 x") 20 (codes "x")

-- Of a request, with a field and an extension.
abbrev collection : Table.HeaderCollection (request_rows formats) tree
collection =
    Table.insert (request_rows formats) tree
      (Table.insert (request_rows formats) tree (Table.new (request_rows formats) tree)
        (known (inl (codes "no-store"))))
      (extension_header (codes "X-Y") (codes "z"))

two_headers : length (headers_of (request formats) tree collection) ≡ 2
unfolding headers_of Table.insert Table.new new_fields insert_field insert_distinct insert
two_headers = refl

write_all-write_each_example :
    write_all (request formats) tree collection 41 50 []
    ≡ and_then
        (write_each (request_rows formats) (headers_of (request formats) tree collection) [])
        (λ w. returns (write w crlf))
write_all-write_each_example =
    write_all-write_each (request formats) tree collection 41 50 [] refl (omega arith)
      (omega (arith, two_headers))

insert_lem_example :
    ((i : ℕ)
      → field_at
          (request_rows formats)
          (Table.insert (request_rows formats) tree collection (known (inl (codes "x")))).fields
          i
        ≡ or_before
            (sets_field (request_rows formats) tree tree-TreeMapLaws (known (inl (codes "x"))) i)
            (field_at (request_rows formats) collection.fields i))
    × ((name : Text)
        → lookup name (
            tree.iter
              (Table.insert
                (request_rows formats)
                tree
                collection
                (known (inl (codes "x")))).extensions)
          ≡ or_before
              (sets_extension
                (request_rows formats)
                tree
                tree-TreeMapLaws
                (known (inl (codes "x")))
                name)
              (lookup name (tree.iter collection.extensions)))
insert_lem_example =
    insert_lem (request_rows formats) tree tree-TreeMapLaws collection (known (inl (codes "x")))

abbrev connection_close : Header (request_rows formats)
connection_close = known (inr (inl (close ∷ [])))

abbrev short_extension : (rows : List Row) → Header rows
short_extension rows = extension_header (codes "X-Y") (codes "z")

close_room : length (output (list_to_stream convertible (close ∷ []) [])) < 50
unfolding list_to_stream write_more Connection.to_stream write as_bytes char_bytes
close_room = omega arith

close_line : ConnectionsLine (close ∷ [])
unfolding IsReadable
close_line = connections_line close [] tt tt

read_header-write_header_example :
    (write_header (request_rows formats) connection_close []
      ≡ returns (header_line (codes "Connection") (close_line.first ∷ close_line.line)))
    × (read_header
          (header_enum (request_rows formats))
          50
          (header_line (codes "Connection") (close_line.first ∷ close_line.line) ++ b'X' ∷ [])
        ≡ returns (ok connection_close, b'X' ∷ []))
unfolding known_name
read_header-write_header_example =
    read_header-write_header (request_rows formats) (inr (inl (close ∷ []))) close_line.first
      close_line.line 50 b'X' [] [] (tables-are_named formats).0 close_line.written
      (close_line.read_back 50
        (subst (λ o. length (output o) < 50) (close_line.written []) close_room))
      close_line.solid close_line.clean refl (omega arith)

no_row : (rows : List Row) (name : Text) → has_row rows name ≡ false → HasNoRow rows name
unfolding has_row
no_row [] name h = tt
no_row (r ∷ rs) name h = (
  ground (arith, h, equal_iff name r.input_name, equal_iff r.input_name name),
  no_row rs name (ground (arith, h)),
)

unknown_request : HasNoRow (request_rows formats) (codes "X-Y")
unfolding has_row equal
unknown_request = no_row (request_rows formats) (codes "X-Y") refl

unknown_response : HasNoRow (response_rows formats) (codes "X-Y")
unfolding has_row equal
unknown_response = no_row (response_rows formats) (codes "X-Y") refl

read_header-write_header_extension_example :
    (write_header (request_rows formats) (short_extension (request_rows formats)) []
      ≡ returns (header_line (codes "X-Y") (codes "z")))
    × (read_header
          (header_enum (request_rows formats))
          50
          (header_line (codes "X-Y") (codes "z") ++ b'X' ∷ [])
        ≡ returns (ok (short_extension (request_rows formats)), b'X' ∷ []))
read_header-write_header_extension_example =
    read_header-write_header_extension (request_rows formats) b'X' (codes "-Y") b'z' [] 50 b'X' []
      [] (unfold is_token in refl) (unfold normalised to_upper to_lower in refl) unknown_request
      (omega arith, tt) refl (((λ e. cc), (λ e. cc)), tt) refl (omega arith)

extension_line :
    (rows : List Row) → HasNoRow rows (codes "X-Y") → ReadBack rows 50 (short_extension rows)
extension_line rows h =
    extension-ReadBack rows b'X' (codes "-Y") b'z' [] 50 (unfold is_token in refl)
      (unfold normalised to_upper to_lower in refl) h (omega arith, tt) refl
      (((λ e. cc), (λ e. cc)), tt) (omega arith)

close_read_back : ReadBack (request_rows formats) 50 connection_close
unfolding IsReadable
close_read_back = connection-ReadBack formats close [] 50 tt tt close_room

-- Of a request with a Connection header and an extension header.
abbrev closing : Table.HeaderCollection (request_rows formats) tree
closing =
    Table.insert (request_rows formats) tree
      (Table.insert (request_rows formats) tree (Table.new (request_rows formats) tree)
        connection_close)
      (short_extension (request_rows formats))

closing_headers :
    headers_of (request formats) tree closing
    ≡ connection_close ∷ short_extension (request_rows formats) ∷ []
unfolding headers_of Table.insert Table.new new_fields insert_field insert_distinct insert
closing_headers = refl

all_read_back : All (ReadBack (request_rows formats) 50) (headers_of (request formats) tree closing)
all_read_back =
    subst (All (ReadBack (request_rows formats) 50)) (sym closing_headers)
      (close_read_back, (extension_line (request_rows formats) unknown_request, tt))

headers_loop-write_all_example :
    (bytes : Bytes) × (again : Table.HeaderCollection (request_rows formats) tree) × (write_all
        (request formats)
        tree
        closing
        40
        50
        []
      ≡ returns bytes)
    × (headers_loop
          (request_collection formats tree)
          (read_header (header_enum (request_rows formats)) 50)
          50
          (Table.new (request_rows formats) tree)
          (bytes ++ codes "body")
        ≡ returns (all_read again (codes "body")))
    × (again.fields ≡ closing.fields)
    × ((name : Text)
        → lookup name (tree.iter again.extensions) ≡ lookup name (tree.iter closing.extensions))
headers_loop-write_all_example =
    headers_loop-write_all formats tree tree-TreeMapLaws closing 50 50 (codes "body") all_read_back
      (omega (arith, ap length closing_headers))

abbrev response_close : List (Header (response_rows formats))
response_close = short_extension (response_rows formats) ∷ []

response_line : ReadBack (response_rows formats) 50 (short_extension (response_rows formats))
response_line = extension_line (response_rows formats) unknown_response

abbrev added :
    List (Header (response_rows formats))
    → Header (response_rows formats)
    → List (Header (response_rows formats))
added hs h = hs ++ h ∷ []

ok_code : code (variant (codes "Ok")) ≡ some 200
unfolding code statuses entries ident cleaned camel_case camel_loop to_upper to_lower equal
ok_code = refl

ok_reason : reason (variant (codes "Ok")) ≡ some (codes "OK")
unfolding reason statuses entries ident cleaned camel_case camel_loop to_upper to_lower equal
ok_reason = refl

construct-status_line_example :
    (s : Bytes) × (status_line print_u16 (variant (codes "Ok")) ≡ returns s)
    × (construct [] added
          (read_header (header_enum (response_rows formats)) 50)
          50
          (s
            ++ (lines_of (response_rows formats) 50 response_close (response_line, tt)
                ++ cr ∷ lf ∷ codes "body"))
          true
        ≡ returns (
            ok (record {
              stream = codes "body";
              version = (1, 1);
              status = variant (codes "Ok");
              headers = insert_all added [] response_close;
            })))
construct-status_line_example =
    construct-status_line [] (response_rows formats) added 50 true print_u16 (codes "Ok") 200
      (codes "OK") response_close (response_line, tt) (codes "body") 50 ok_code ok_reason
      (refl, (refl, (refl, tt))) (omega arith) refl (omega arith, (omega arith, tt))
      (omega arith, (omega arith, tt)) (omega arith)

-- One host with one address, and no ports.
abbrev network : Network Wire
network = record {
  Url = Text;
  Ip = ℕ;
  url_host = λ u. u;
  url_port = λ u. none;
  print_url = λ u. u;
  parse_u16 = λ t. some (length t);
  get_host_addresses = λ t. some (1 ∷ []);
  is_ipv4 = λ a. true;
  connect = λ a. some (record { arriving = []; sent_out = [] });
}

abbrev no_headers : RequestHeaders (Option Host)
no_headers = record {
  empty = none;
  set_host = λ h c. some h;
  writes = λ c. returns (codes "Host: a\r\n" ∷ codes "\r\n" ∷ []);
}

abbrev asking : RequestWriter wire network no_headers
asking = record {
  stream = some (small_stream [] false);
  headers_written = false;
  remote_addr = none;
  headers = none;
  method = get;
  url = codes "/";
}

abbrev answered :
    BufferedStream Wire
    → RequestWriter wire network no_headers
    → Run (Result Bytes (RequestWriter wire network no_headers))
answered b r = returns (ok (b.wrapped.sent_out))

read_response-sent_example :
    (b' : BufferedStream Wire) × ((write_pieces wire wire-WriteLaws network no_headers
          (codes "Hel" ∷ codes "lo" ∷ [])
          asking
        >>= read_response wire network no_headers answered)
      ≡ answered b' (record asking { stream = none; headers_written = true }))
    × (sent wire wire-WriteLaws b'
        ≡ sent wire wire-WriteLaws (small_stream [] false)
          ++ (pending (small_stream [] false)
              ++ (request_line wire network no_headers asking
                  ++ (concat (codes "Host: a\r\n" ∷ codes "\r\n" ∷ [])
                      ++ concat (codes "Hel" ∷ codes "lo" ∷ [])))))
read_response-sent_example =
    read_response-sent wire wire-WriteLaws network no_headers answered asking
      (small_stream [] false) (codes "Host: a\r\n" ∷ codes "\r\n" ∷ [])
      (codes "Hel" ∷ codes "lo" ∷ []) refl (unfold connected in refl) refl (omega arith) refl

-- A collection that keeps the headers in a list, and has a host.
abbrev hosted :
    HeaderCollection (List (Header (request_rows formats))) (Header (request_rows formats))
hosted = record {
  empty = [];
  insert = λ hs h. hs ++ h ∷ [];
  host_is_none = λ hs. false;
  connection = λ hs. some (close ∷ []);
}

load-lines_of_example :
    (m : Method) × (from_str_or_new (codes "FROB") ≡ returns (some m))
    × (load formats.parse_url read_method hosted
          (read_header (header_enum (request_rows formats)) 50)
          50
          (codes "FROB /a HTTP/1.1"
            ++ cr
              ∷ lf
              ∷ (lines_of (request_rows formats) 50 (connection_close ∷ []) (close_read_back, tt)
                  ++ cr ∷ lf ∷ codes "body"))
        ≡ returns (
          (
            loaded formats.parse_url
                (request_rows formats)
                50
                hosted
                m
                (absolute_path (codes "/a"))
                (insert_all hosted.insert [] (connection_close ∷ [])),
            ok tt,
          ),
          codes "body",
        ))
load-lines_of_example =
    load-lines_of formats.parse_url (request_rows formats) 50 hosted b'F' (codes "ROB") (codes "/a")
      (absolute_path (codes "/a")) (connection_close ∷ []) (close_read_back, tt) (codes "body") 50
      (unfold is_token in refl) (omega arith)
      ((omega arith, (λ e. cc)), ((omega arith, (λ e. cc)), tt)) (omega arith)
      (unfold from_str equal starts_with_slash in refl) (omega arith) refl

-- A media type with a parameter whose value a separator follows: the reader of the value never
-- ends.
abbrev endless_line : Bytes
endless_line = codes "Content-Type: a/b;c=d;\r\nX"
