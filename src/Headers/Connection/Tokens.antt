-- ===== src/Headers/Connection/Tokens.antt =====
-- Which tokens the Connection header can hold: none in lower case.
use rust_http.Base.{
  ℕ, zero, suc, ◌≡◌, ◌≢◌, refl, sym, ap, subst, ◌∙◌, true, Option, none, some, List, [], ◌∷◌, ◌++◌,
  Text, codes, Run, returns, fails, runs_out, arith, All, All-append,
}
use rust_http.Headers.Value.{HeaderValueByteIterator}
use rust_http.Headers.Readers.{
  Reading, ◌>>=◌, pure, read_token, consume_comma_lws, comma_consumed, end_of_value,
  err_comma_not_found, ConsumeCommaLwsResult,
}
use rust_http.Headers.Serialization.{normalise_header_name}
use rust_http.Headers.Serialization.Names.{normalised, normalise_header_name-returns}
use rust_http.Headers.Convertible.{list_comma, list_item, list_loop, call}
use rust_http.Headers.Connection.{
  Connection, token, connection_of, connection_from, from_stream, convertible,
}
use rust_http.Headers.Connection.Values.{first_letter}

-- Not the token `keep-alive` in lower case.
abbrev pub IsOther : Connection → Type 0
IsOther h = h ≢ token (codes "keep-alive")

-- Inversion of a chain of two readers that returns.
record Continues {A B : Type 0} (r : Run (A × HeaderValueByteIterator)) (f : A → Reading B)
    (p : B × HeaderValueByteIterator) : Type 0 where
  value : A
  between : HeaderValueByteIterator
  first_returns : r ≡ returns (value, between)
  second_returns : f value between ≡ returns p

bind-returns :
    {A B : Type 0} (r : Run (A × HeaderValueByteIterator)) (f : A → Reading B)
    {p : B × HeaderValueByteIterator}
    → elim r [ returns q ↦ f q.0 q.1 | fails ↦ fails | runs_out ↦ runs_out ] ≡ returns p
    → Continues r f p
bind-returns (returns (a, it)) f e = record {
  value = a;
  between = it;
  first_returns = refl;
  second_returns = e;
}
bind-returns fails f e = cc
bind-returns runs_out f e = cc

connection_of-IsOther :
    (t : Text) (h : Connection) → connection_of (normalised true t) ≡ some h → IsOther h
unfolding connection_of
connection_of-IsOther t h e k = ground (arith, e, k, first_letter t)

named-IsOther :
    (t : Text) (m : Run Text) (it it' : HeaderValueByteIterator) (h : Connection)
    → ((s : Text) → m ≡ returns s → s ≡ normalised true t)
    → (call m >>= λ s. pure (connection_of s)) it ≡ returns (some h, it')
    → IsOther h
named-IsOther t (returns s) it it' h same e =
    connection_of-IsOther t h (ap connection_of (sym (same s refl)) ∙ cc)
named-IsOther t fails it it' h same e = cc
named-IsOther t runs_out it it' h same e = cc

connection_from-IsOther :
    (o : Option Text) (it it' : HeaderValueByteIterator) (h : Connection)
    → connection_from o it ≡ returns (some h, it')
    → IsOther h
unfolding connection_from
connection_from-IsOther none it it' h e = cc
connection_from-IsOther (some t) it it' h e =
    named-IsOther t (normalise_header_name t) it it' h (normalise_header_name-returns t) e

from_stream-IsOther :
    (fuel : ℕ) (it it' : HeaderValueByteIterator) (h : Connection)
    → from_stream fuel it ≡ returns (some h, it')
    → IsOther h
unfolding from_stream
from_stream-IsOther fuel it it' h e =
    let r = bind-returns (read_token fuel it) connection_from e in
    connection_from-IsOther r.value r.between it' h r.second_returns

-- The list loop, whose next round `continue_with` keeps to such tokens.
module _ (continue_with : List Connection → Reading (Option (List Connection)))
    (it' : HeaderValueByteIterator) (hs : List Connection)
    (goes_on : (result : List Connection) (it : HeaderValueByteIterator)
      → All IsOther result
      → continue_with result it ≡ returns (some hs, it')
      → All IsOther hs) where
  comma-IsOther :
      (result : List Connection) (t : Connection) (c : ConsumeCommaLwsResult)
      (it : HeaderValueByteIterator)
      → All IsOther (result ++ t ∷ [])
      → list_comma convertible continue_with result t c it ≡ returns (some hs, it')
      → All IsOther hs
  unfolding list_comma
  comma-IsOther result t comma_consumed it h e = goes_on (result ++ t ∷ []) it h e
  comma-IsOther result t end_of_value it h e =
      let same : result ++ t ∷ [] ≡ hs = cc in subst (All IsOther) same h
  comma-IsOther result t err_comma_not_found it h e = cc

  item-IsOther :
      (fuel : ℕ) (result : List Connection) (o : Option Connection) (it : HeaderValueByteIterator)
      → All IsOther result
      → ((t : Connection) → o ≡ some t → IsOther t)
      → list_item convertible fuel continue_with result o it ≡ returns (some hs, it')
      → All IsOther hs
  unfolding list_item
  item-IsOther fuel result none it h other e = cc
  item-IsOther fuel result (some t) it h other e =
      let r =
        bind-returns (consume_comma_lws fuel it) (list_comma convertible continue_with result t)
          e in
      comma-IsOther result t r.value r.between
        (All-append IsOther result (t ∷ []) h (other t refl, tt)) r.second_returns

list_loop-IsOther :
    (fuel rounds : ℕ) (result hs : List Connection) (it it' : HeaderValueByteIterator)
    → All IsOther result
    → list_loop convertible fuel rounds result it ≡ returns (some hs, it')
    → All IsOther hs
unfolding list_loop
list_loop-IsOther fuel zero result hs it it' h e = cc
list_loop-IsOther fuel (suc rounds) result hs it it' h e =
    let next = list_loop convertible fuel rounds in
    let r = bind-returns (from_stream fuel it) (list_item convertible fuel next result) e in
    item-IsOther next it' hs
      (λ result' it1 h' e'. list_loop-IsOther fuel rounds result' hs it1 it' h' e') fuel result
      r.value r.between h
      (λ t found.
        from_stream-IsOther fuel it r.between t
          (r.first_returns ∙ ap (λ o. returns (o, r.between)) found))
      r.second_returns

-- No value of a Connection header that is read from a stream is the token `keep-alive` in lower
-- case.
pub read-IsOther :
    (fuel : ℕ) (hs : List Connection) (it it' : HeaderValueByteIterator)
    → list_loop convertible fuel fuel [] it ≡ returns (some hs, it')
    → All IsOther hs
read-IsOther fuel hs it it' e = list_loop-IsOther fuel fuel [] hs it it' tt e
