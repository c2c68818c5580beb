-- ===== src/Method.antt =====
-- src/libhttp/method.rs: request methods, and their names.
pub mod Names
use rust_http.Base.{
  ℕ, Bool, true, ◌&&◌, Option, none, some, [], ◌∷◌, ltb, if◌then◌else◌, Bytes, Text, codes, equal,
  as_bytes, ◌++◌, Run, returns, fails,
}

pub data Method : Type 0 where
  options get head post put delete trace connect patch : Method
  extension_method : Text → Method

unfoldable pub to_str : Method → Text
to_str options = codes "OPTIONS"
to_str get = codes "GET"
to_str head = codes "HEAD"
to_str post = codes "POST"
to_str put = codes "PUT"
to_str delete = codes "DELETE"
to_str trace = codes "TRACE"
to_str connect = codes "CONNECT"
to_str patch = codes "PATCH"
to_str (extension_method s) = s

-- `fmt::Default`: the bytes that are put out.
unfoldable pub fmt : Method → Bytes → Bytes
fmt options buf = buf ++ codes "OPTIONS"
fmt get buf = buf ++ codes "GET"
fmt head buf = buf ++ codes "HEAD"
fmt post buf = buf ++ codes "POST"
fmt put buf = buf ++ codes "PUT"
fmt delete buf = buf ++ codes "DELETE"
fmt trace buf = buf ++ codes "TRACE"
fmt connect buf = buf ++ codes "CONNECT"
fmt patch buf = buf ++ codes "PATCH"
fmt (extension_method s) buf = buf ++ as_bytes s

-- `is_ascii`
unfoldable pub is_ascii : Text → Bool
is_ascii [] = true
is_ascii (c ∷ cs) = ltb c 128 && is_ascii cs

unfoldable pub from_str : Text → Option Method
unfolding is_ascii
from_str method =
    if is_ascii method
    then (if equal method (codes "OPTIONS")
        then some options
        else if equal method (codes "GET")
        then some get
        else if equal method (codes "HEAD")
        then some head
        else if equal method (codes "POST")
        then some post
        else if equal method (codes "PUT")
        then some put
        else if equal method (codes "DELETE")
        then some delete
        else if equal method (codes "TRACE")
        then some trace
        else if equal method (codes "CONNECT")
        then some connect
        else if equal method (codes "PATCH")
        then some patch
        else none)
    else none

unfoldable pub from_str_or_new : Text → Run (Option Method)
unfolding is_ascii
from_str_or_new method =
    if is_ascii method
    then returns (
        some (
          if equal method (codes "OPTIONS")
          then options
          else if equal method (codes "GET")
          then get
          else if equal method (codes "HEAD")
          then head
          else if equal method (codes "POST")
          then post
          else if equal method (codes "PUT")
          then put
          else if equal method (codes "DELETE")
          then delete
          else if equal method (codes "TRACE")
          then trace
          else if equal method (codes "CONNECT")
          then connect
          else if equal method (codes "PATCH")
          then patch
          else extension_method method))
    else fails
