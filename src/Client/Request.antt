-- ===== src/Client/Request.antt =====
-- src/libhttp/client/request.rs: the request that a client writes, over `BufferedStream`. Not in
-- this repository, and so parameters: URLs, the look-up of addresses, and the connecting of a
-- stream. The collection of headers is an interface, as in Server/Response.
pub mod Sent
use rust_http.Base.{
  ℕ, Bool, true, false, Option, none, some, List, [], ◌∷◌, ◌++◌, if◌then◌else◌, Bytes, Text, codes,
  as_bytes, Run, returns, fails, ◌>>=◌, Result, ok, err,
}
use rust_http.Stream.{Stream}
use rust_http.Buffer
use rust_http.Buffer.{BufferedStream}
use rust_http.Buffer.Chunks.{write_all}
use rust_http.Method as Method
use rust_http.Method.{Method}
use rust_http.Headers.Media.{Host}

pub record SocketAddr (Ip : Type 0) : Type 0 where
  pub ip : Ip
  pub port : ℕ

-- `extra::url::Url`, `get_host_addresses`, `TcpStream::connect` and `from_str::<u16>`.
pub record Network (W : Type 0) : Type 1 where
  pub Url : Type 0
  pub Ip : Type 0
  pub url_host : Url → Text
  pub url_port : Url → Option Text
  pub print_url : Url → Text
  pub parse_u16 : Text → Option ℕ
  pub get_host_addresses : Text → Option (List Ip)
  pub is_ipv4 : Ip → Bool
  pub connect : SocketAddr Ip → Option W

pub record RequestHeaders (C : Type 0) : Type 0 where
  pub empty : C
  pub set_host : Host → C → C
  pub writes : C → Run (List Bytes)

-- `unwrap` and `expect`
unfoldable pub unwrap : {A : Type 0} → Option A → Run A
unwrap none = fails
unwrap (some a) = returns a

module _ {W C : Type 0} (io : Stream W) (net : Network W) (collection : RequestHeaders C) where
  open net use {
    Url, Ip, url_host, url_port, print_url, parse_u16, get_host_addresses, is_ipv4,
    connect as connect_to,
  }

  pub record RequestWriter : Type 0 where
    pub stream : Option (BufferedStream W)
    pub headers_written : Bool
    pub remote_addr : Option (SocketAddr Ip)
    pub headers : C
    pub method : Method
    pub url : Url

  -- `find` of the first IPv4 address.
  unfoldable pub find_ipv4 : List Ip → Option Ip
  find_ipv4 [] = none
  find_ipv4 (a ∷ as_) = if is_ipv4 a then some a else find_ipv4 as_

  unfoldable pub url_to_socket_addr : Url → Run (SocketAddr Ip)
  unfolding unwrap find_ipv4
  url_to_socket_addr url = unwrap (get_host_addresses (url_host url)) >>= λ addrs.
      unwrap (find_ipv4 addrs) >>= λ addr.
      unwrap (parse_u16 (elim (url_port url) [ some p ↦ p | none ↦ codes "80" ])) >>= λ port.
      returns (record { ip = addr; port = port })

  unfoldable pub host_for : Url → Run Host
  unfolding unwrap
  host_for url = elim (url_port url) [
    | none ↦ returns (record { name = url_host url; port = none })
    | some p ↦
        unwrap (parse_u16 p) >>= λ port. returns (record { name = url_host url; port = some port })
  ]

  unfoldable pub new : Method → Url → Run RequestWriter
  unfolding url_to_socket_addr host_for
  new method url = host_for url >>= λ host. url_to_socket_addr url >>= λ remote_addr.
      returns (record {
        stream = none;
        headers_written = false;
        remote_addr = some remote_addr;
        headers = collection.set_host host collection.empty;
        method = method;
        url = url;
      })

  -- The result is whether it is connected.
  unfoldable pub connect : RequestWriter → Run (Bool × RequestWriter)
  connect r = elim r.stream [
    | some _ ↦ fails
    | none ↦ elim r.remote_addr [
      | none ↦ fails
      | some addr ↦ elim (connect_to addr) [
        | some w ↦ returns (true, record r { stream = some (Buffer.new w false) })
        | none ↦ returns (false, r)
      ]
    ]
  ]

  unfoldable pub try_connect : RequestWriter → Run RequestWriter
  unfolding connect
  try_connect r = elim r.stream [ none ↦ connect r >>= λ p. returns p.1 | some _ ↦ returns r ]

  -- Connected, or failed.
  unfoldable pub connected : RequestWriter → Run RequestWriter
  unfolding connect
  connected r = elim r.stream [
    | none ↦ connect r >>= λ p. if p.0 then returns p.1 else fails
    | some _ ↦ returns r
  ]

  unfoldable pub request_line : RequestWriter → Bytes
  request_line r = as_bytes (
      (((Method.to_str r.method ++ codes " ") ++ print_url r.url) ++ codes " HTTP/1.0")
      ++ codes "\r\n")

  -- A call on the stream, which is there.
  unfoldable pub on_stream :
      (BufferedStream W → BufferedStream W) → RequestWriter → Run RequestWriter
  on_stream f r = elim r.stream [
    | none ↦ fails
    | some b ↦ returns (record r { stream = some (f b) })
  ]

  unfoldable pub write_headers : RequestWriter → Run RequestWriter
  unfolding connected request_line on_stream
  write_headers r =
      if r.headers_written
      then fails
      else (connected r >>= λ r1. on_stream (λ b. Buffer.write io b (request_line r1)) r1 >>= λ r2.
          collection.writes r2.headers >>= λ pieces.
          on_stream (λ b. write_all io b pieces) r2 >>= λ r3.
          returns (record r3 { headers_written = true }))

  unfoldable pub try_write_headers : RequestWriter → Run RequestWriter
  unfolding write_headers
  try_write_headers r = if r.headers_written then returns r else write_headers r

  -- `Writer::write`, whose test is that of `try_write_headers`, and `Writer::flush`
  unfoldable pub write : Bytes → RequestWriter → Run RequestWriter
  unfolding try_write_headers on_stream
  write buf r = try_write_headers r >>= on_stream (λ b. Buffer.write io b buf)

  unfoldable pub flush : RequestWriter → Run RequestWriter
  unfolding on_stream
  flush r = on_stream (Buffer.flush io) r

  -- `construct` is that of the response; it has the stream and the request.
  unfoldable pub read_response :
      {A : Type 0}
      → (BufferedStream W → RequestWriter → Run (Result A RequestWriter))
      → RequestWriter
      → Run (Result A RequestWriter)
  unfolding try_write_headers flush
  read_response construct r = try_write_headers r >>= λ r1. flush r1 >>= λ r2. (elim r2.stream [
    | some stream ↦ construct stream (record r2 { stream = none })
    | none ↦ returns (err r2)
  ])
