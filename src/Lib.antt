-- ===== src/Lib.antt =====
-- A model of rust-http, an HTTP library for Rust with a server and a client, and its theorems.
--
-- The server reads requests from a TCP connection through `BufferedStream` (src/libhttp/buffer.rs):
-- `Request::load` (src/libhttp/server/request.rs) takes the request line, with a parser of methods that
-- the build generates (src/libhttp/codegen), then header lines up to the empty one. A header line's
-- value is read through `HeaderValueByteIterator`, which undoes folding and stops at the line's end
-- (src/libhttp/headers/mod.rs); on it stand the readers of tokens, quoted strings, lists and parameters,
-- and on these the header types, which also write themselves (src/libhttp/headers/*.rs). The two tables
-- of headers, of requests and of responses, give each name its type, and a collection holds a field for
-- each row and a map of the other headers. The keep-alive loop (src/libhttp/server/mod.rs) hands each
-- request to a handler, which writes through `ResponseWriter` (src/libhttp/server/response.rs), in one
-- piece or in chunks. A client writes a request with `RequestWriter` and reads the response with
-- `ResponseReader` (src/libhttp/client).
--
-- Files, and the code that each models:
--   Base       shared: tests on native numbers, lists, text as code points, the outcome `Run` of a call
--              that returns, fails (`fail!`, `assert!`, an index out of bounds) or runs out of fuel
--   Rfc2616    src/libhttp/rfc2616.rs, the character classes and the codings
--   Common     src/libhttp/common.rs, `read_uint` and `read_http_version`
--   Headers    src/libhttp/headers: Value is the iterator (`next`, and a loop over it), Readers its
--              methods, Serialization is serialization_utils.rs, Convertible the trait with its
--              instances for lists, strings and methods, Etag and Connection the files of these names,
--              Media content_type.rs, transfer_encoding.rs, accept_ranges.rs and host.rs, Types the
--              other instances of the trait; Table is what the macro `headers_mod` makes of a list of
--              rows (`Header`, `HeaderCollection`, its iterator), Rows the two tables, and Lines
--              `header_enum_from_stream`, with `read_header` of src/libhttp/server/request.rs
--   Stream     the stream that a `BufferedStream` wraps, a parameter with the laws of its contract
--   Buffer     src/libhttp/buffer.rs, `BufferedStream`, and Buffer/Reader its `ChunkedReader`
--   Method     src/libhttp/method.rs
--   Status     src/libhttp/codegen/status.rs: the table, and the functions generated from it
--   Codegen    src/libhttp/codegen/branchify.rs: the prefix tree, and the parser that is printed from
--              it, by what this parser computes; ReadMethod is read_method.rs
--   Server     Request is src/libhttp/server/request.rs: the request URI, the request line, `load`;
--              Response is response.rs; Loop is mod.rs: the loop over the requests of a connection, and
--              the sums of `perf_dumper`
--   Client     src/libhttp/client: Request is request.rs, Response is response.rs
--   Tests      the theorems at concrete inputs
--
-- State is passed explicitly: a method on `&mut self` takes the record and returns it. Bytes, characters
-- and machine integers are native natural numbers; a `uint` is 64 bits wide and wraps around where the
-- code can reach that. A `~str` is the list of its code points, its bytes the UTF-8 of these. A reader
-- of a whole stream (`load`, `construct`, `read_header`) works on the list of the bytes to come, which
-- is what `BufferedStream` is proved to read. A response has the interface `ResponseHeaders` for its
-- headers, which Server/Response/Collection fills with the table of responses.
--
-- The theorems on header values are stated with `value` of Headers/Value/View, which is no code of
-- the source, but the list of the bytes that the calls of `next` return, and what they leave.
--
-- Fuel: a loop over a header value has one unit for each byte that it may read, and more fuel than
-- the value has bytes is enough, but for the loop of `read_token_or_quoted_string`; a loop over a
-- list of values has the same bound on its rounds; the loops over the headers of a request and of a
-- response need more rounds than there are headers, for which more than the stream has bytes is enough
-- on the server; the iterator over a collection needs more than one above the number of rows (40 for
-- requests, 31 for responses), and the loop that writes a collection more rounds than headers. A
-- hexadecimal number has at most 16 digits, as a `uint` has. The other loops are structural.
--
-- Parameters, as their code is not in this repository: the wrapped stream; the Unicode test for white
-- space; the parsers and printers of URLs, numbers and times (`TextFormats`); the map of extensions
-- (`TreeMap`, with its laws); URLs, the look-up of addresses and connecting for the client
-- (`Network`); the decimal printer of status codes; the handler of the server. `load` takes the
-- collection of headers and `read_header` as parameters, which the theorems on whole blocks of headers
-- fill. The loop of the server takes the results of `load`, one for each request.
--
-- Not modelled: listening, tasks, channels and clocks of the server, the printing of its statistics;
-- the raising of conditions in the client; the address of the peer; the writing of the generated files
-- and their layout; quality values (floating point); capacities of strings; src/libhttp/memstream.rs,
-- which passes calls on to readers and writers of the standard library.
pub mod Base
pub mod Rfc2616
pub mod Codegen
pub mod Common
pub mod Headers
pub mod Stream
pub mod Buffer
pub mod Method
pub mod Status
pub mod Server
pub mod Client
pub mod Tests
