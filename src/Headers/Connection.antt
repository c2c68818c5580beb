-- ===== src/Headers/Connection.antt =====
-- src/libhttp/headers/connection.rs: the values of the Connection header.
pub mod Values
pub mod RoundTrip
pub mod Tokens
use rust_http.Base.{
  ℕ, Bool, true, false, Option, none, some, [], ◌∷◌, if◌then◌else◌, Bytes, Text, codes, equal,
  as_bytes, Run, returns,
}
use rust_http.Headers.Readers.{Reading, ◌>>=◌, pure, read_token}
use rust_http.Headers.Serialization.{normalise_header_name, write}
use rust_http.Headers.Convertible.{HeaderConvertible, call}

pub data Connection : Type 0 where
  token : Text → Connection
  close : Connection

unfoldable pub to_str : Connection → Text
to_str (token s) = s
to_str close = codes "close"

unfoldable pub connection_of : Text → Option Connection
connection_of s = if equal s (codes "Close") then some close else some (token s)

unfoldable pub connection_from : Option Text → Reading (Option Connection)
unfolding connection_of
connection_from none = pure none
connection_from (some t) = do s ← call (normalise_header_name t); pure (connection_of s)

unfoldable pub from_stream : ℕ → Reading (Option Connection)
unfolding connection_from
from_stream fuel = read_token fuel >>= connection_from

unfoldable pub to_stream : Connection → Bytes → Bytes
to_stream close writer = write writer (codes "close")
to_stream (token s) writer = write writer (as_bytes s)

unfoldable pub http_value : Connection → Text
http_value close = codes "close"
http_value (token s) = s

abbrev pub convertible : HeaderConvertible Connection
convertible = record {
  from_stream = from_stream;
  to_stream = λ h writer. returns (to_stream h writer);
  http_value = http_value;
}
