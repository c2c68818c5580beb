-- ===== src/Rfc2616/Codings/Tokens.antt =====
-- The content codings, read in any case.
use rust_http.Base.{
  ◌≡◌, ◌↔◌, ap, Option, none, some, Text, codes, equal, equal_iff, if◌then◌else◌, to_ascii_lower,
  arith,
}
use rust_http.Rfc2616.Codings.{
  ContentCoding, gzip, compress, deflate, identity, content_to_str, content_from_str,
}

sound :
    (s : Text) (c : ContentCoding)
    → content_from_str s ≡ some c
    → to_ascii_lower s ≡ content_to_str c
unfolding content_from_str content_to_str
sound s c e = ground (
  arith,
  e,
  equal_iff (to_ascii_lower s) (codes "gzip"),
  equal_iff (to_ascii_lower s) (codes "compress"),
  equal_iff (to_ascii_lower s) (codes "deflate"),
  equal_iff (to_ascii_lower s) (codes "identity"),
)

own_name : ContentCoding → Text → Option ContentCoding
own_name c lower =
    if equal lower (codes "gzip")
    then some gzip
    else if equal lower (codes "compress")
    then some compress
    else if equal lower (codes "deflate")
    then some deflate
    else if equal lower (codes "identity")
    then some identity
    else none

complete :
    (s : Text) (c : ContentCoding)
    → to_ascii_lower s ≡ content_to_str c
    → content_from_str s ≡ some c
unfolding content_from_str content_to_str own_name equal
complete s gzip h = ap (own_name gzip) h
complete s compress h = ap (own_name gzip) h
complete s deflate h = ap (own_name gzip) h
complete s identity h = ap (own_name gzip) h

-- `from_str` of a content coding returns one exactly for its name, in any case of the letters.
content_from_str_iff :
    (s : Text) (c : ContentCoding)
    → (content_from_str s ≡ some c) ↔ (to_ascii_lower s ≡ content_to_str c)
content_from_str_iff s c = (sound s c, complete s c)
