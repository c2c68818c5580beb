-- ===== src/Rfc2616/Codings.antt =====
-- src/libhttp/rfc2616.rs: the tokens of the modules `content_coding` and `transfer_coding`.
pub mod Tokens
use rust_http.Base.{Option, none, some, Text, codes, equal, if◌then◌else◌, to_ascii_lower}

pub data ContentCoding : Type 0 where
  gzip compress deflate identity : ContentCoding

unfoldable pub content_to_str : ContentCoding → Text
content_to_str gzip = codes "gzip"
content_to_str compress = codes "compress"
content_to_str deflate = codes "deflate"
content_to_str identity = codes "identity"

unfoldable pub content_from_str : Text → Option ContentCoding
content_from_str s =
    let lower = to_ascii_lower s in
    if equal lower (codes "gzip")
    then some gzip
    else if equal lower (codes "compress")
    then some compress
    else if equal lower (codes "deflate")
    then some deflate
    else if equal lower (codes "identity")
    then some identity
    else none

pub data TransferToken : Type 0 where
  chunked_token gzip_token compress_token deflate_token : TransferToken

unfoldable pub transfer_to_str : TransferToken → Text
transfer_to_str chunked_token = codes "chunked"
transfer_to_str gzip_token = codes "gzip"
transfer_to_str compress_token = codes "compress"
transfer_to_str deflate_token = codes "deflate"
