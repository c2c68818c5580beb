-- ===== src/Headers/Rows.antt =====
-- src/libhttp/headers/mod.rs: the two tables, `headers::request` and `headers::response`.
pub mod Checks
pub mod Lines
pub mod Block
pub mod Shrinking
use rust_http.Base.{List, [], ◌∷◌, Text, codes}
use rust_http.Headers.Convertible.{
  HeaderConvertible, list_convertible, string_convertible, method_convertible,
}
use rust_http.Headers.Connection
use rust_http.Headers.Types.{
  TextFormats, etag_convertible, media_convertible, transfer_convertible, ranges_convertible,
  uint_convertible, url_convertible, host_convertible, tm_convertible,
}
use rust_http.Headers.Table.{Row, Table}

-- A row of each of the types that the tables name.
abbrev pub row : {T : Type 0} → HeaderConvertible T → Text → Text → Row
row {T} convertible output_name input_name = record {
  output_name = output_name;
  input_name = input_name;
  Value = T;
  convertible = convertible;
}

abbrev pub text_row : Text → Text → Row
text_row = row string_convertible

abbrev pub connection_row : Text → Text → Row
connection_row = row (list_convertible Connection.convertible)

abbrev pub transfer_row : Text → Text → Row
transfer_row = row (list_convertible transfer_convertible)

abbrev pub methods_row : Text → Text → Row
methods_row = row (list_convertible method_convertible)

abbrev pub media_row : Text → Text → Row
media_row = row media_convertible

abbrev pub ranges_row : Text → Text → Row
ranges_row = row ranges_convertible

abbrev pub etag_row : Text → Text → Row
etag_row = row etag_convertible

module _ (formats : TextFormats) where
  abbrev pub uint_row : Text → Text → Row
  uint_row = row (uint_convertible formats)

  abbrev pub url_row : Text → Text → Row
  url_row = row (url_convertible formats)

  abbrev pub host_row : Text → Text → Row
  host_row = row (host_convertible formats)

  abbrev pub tm_row : Text → Text → Row
  tm_row = row (tm_convertible formats)

abbrev pub request_rows : TextFormats → List Row
request_rows formats =
    text_row (codes "Cache-Control") (codes "Cache-Control")
    ∷ connection_row (codes "Connection") (codes "Connection")
    ∷ tm_row formats (codes "Date") (codes "Date")
    ∷ text_row (codes "Pragma") (codes "Pragma")
    ∷ text_row (codes "Trailer") (codes "Trailer")
    ∷ transfer_row (codes "Transfer-Encoding") (codes "Transfer-Encoding")
    ∷ text_row (codes "Upgrade") (codes "Upgrade")
    ∷ text_row (codes "Via") (codes "Via")
    ∷ text_row (codes "Warning") (codes "Warning")
    ∷ text_row (codes "Accept") (codes "Accept")
    ∷ text_row (codes "Accept-Charset") (codes "Accept-Charset")
    ∷ text_row (codes "Accept-Encoding") (codes "Accept-Encoding")
    ∷ text_row (codes "Accept-Language") (codes "Accept-Language")
    ∷ text_row (codes "Authorization") (codes "Authorization")
    ∷ text_row (codes "Expect") (codes "Expect")
    ∷ text_row (codes "From") (codes "From")
    ∷ host_row formats (codes "Host") (codes "Host")
    ∷ text_row (codes "If-Match") (codes "If-Match")
    ∷ tm_row formats (codes "If-Modified-Since") (codes "If-Modified-Since")
    ∷ text_row (codes "If-None-Match") (codes "If-None-Match")
    ∷ text_row (codes "If-Range") (codes "If-Range")
    ∷ tm_row formats (codes "If-Unmodified-Since") (codes "If-Unmodified-Since")
    ∷ uint_row formats (codes "Max-Forwards") (codes "Max-Forwards")
    ∷ text_row (codes "Proxy-Authorization") (codes "Proxy-Authorization")
    ∷ text_row (codes "Range") (codes "Range")
    ∷ text_row (codes "Referer") (codes "Referer")
    ∷ text_row (codes "TE") (codes "Te")
    ∷ text_row (codes "User-Agent") (codes "User-Agent")
    ∷ methods_row (codes "Allow") (codes "Allow")
    ∷ text_row (codes "Content-Encoding") (codes "Content-Encoding")
    ∷ text_row (codes "Content-Language") (codes "Content-Language")
    ∷ uint_row formats (codes "Content-Length") (codes "Content-Length")
    ∷ text_row (codes "Content-Location") (codes "Content-Location")
    ∷ text_row (codes "Content-MD5") (codes "Content-Md5")
    ∷ text_row (codes "Content-Range") (codes "Content-Range")
    ∷ media_row (codes "Content-Type") (codes "Content-Type")
    ∷ tm_row formats (codes "Expires") (codes "Expires")
    ∷ tm_row formats (codes "Last-Modified") (codes "Last-Modified")
    ∷ []

abbrev pub request : TextFormats → Table
request formats = record { num_headers = 38; rows = request_rows formats }

abbrev pub response_rows : TextFormats → List Row
response_rows formats =
    text_row (codes "Cache-Control") (codes "Cache-Control")
    ∷ connection_row (codes "Connection") (codes "Connection")
    ∷ tm_row formats (codes "Date") (codes "Date")
    ∷ text_row (codes "Pragma") (codes "Pragma")
    ∷ text_row (codes "Trailer") (codes "Trailer")
    ∷ transfer_row (codes "Transfer-Encoding") (codes "Transfer-Encoding")
    ∷ text_row (codes "Upgrade") (codes "Upgrade")
    ∷ text_row (codes "Via") (codes "Via")
    ∷ text_row (codes "Warning") (codes "Warning")
    ∷ text_row (codes "Accept-Patch") (codes "Accept-Patch")
    ∷ ranges_row (codes "Accept-Ranges") (codes "Accept-Ranges")
    ∷ text_row (codes "Age") (codes "Age")
    ∷ etag_row (codes "ETag") (codes "Etag")
    ∷ url_row formats (codes "Location") (codes "Location")
    ∷ text_row (codes "Proxy-Authenticate") (codes "Proxy-Authenticate")
    ∷ text_row (codes "Retry-After") (codes "Retry-After")
    ∷ text_row (codes "Server") (codes "Server")
    ∷ text_row (codes "Vary") (codes "Vary")
    ∷ text_row (codes "WWW-Authenticate") (codes "Www-Authenticate")
    ∷ methods_row (codes "Allow") (codes "Allow")
    ∷ text_row (codes "Content-Encoding") (codes "Content-Encoding")
    ∷ text_row (codes "Content-Language") (codes "Content-Language")
    ∷ uint_row formats (codes "Content-Length") (codes "Content-Length")
    ∷ text_row (codes "Content-Location") (codes "Content-Location")
    ∷ text_row (codes "Content-MD5") (codes "Content-Md5")
    ∷ text_row (codes "Content-Range") (codes "Content-Range")
    ∷ media_row (codes "Content-Type") (codes "Content-Type")
    ∷ text_row (codes "Expires") (codes "Expires")
    ∷ tm_row formats (codes "Last-Modified") (codes "Last-Modified")
    ∷ []

abbrev pub response : TextFormats → Table
response formats = record { num_headers = 29; rows = response_rows formats }
