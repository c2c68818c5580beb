-- ===== src/Tests/Values.antt =====
-- Header values.
use rust_http.Base.{
  output, runs_out, none, ◌<◌, ◌≡◌, refl, true, some, List, [], ◌∷◌, ◌++◌, length, All, codes,
  returns, arith, as_bytes, char_bytes, to_upper, to_lower,
}
use rust_http.Rfc2616.{cr, lf, sp, is_token, is_token_item, is_char, is_ctl, is_separator}
use rust_http.Headers.Serialization.{write, write_escaped, write_quoted_string}
use rust_http.Headers.Serialization.Names.{normalised}
use rust_http.Headers.Connection
use rust_http.Headers.Value.{HeaderValueByteIterator, new, pending}
use rust_http.Headers.Value.View.{value}
use rust_http.Headers.Value.Wire.{Folded, nothing, byte, stray_cr, fold, Returned, next-Folded}
use rust_http.Headers.Readers.Endless.{inside, read_token_or_quoted_string_endless}
use rust_http.Headers.Readers.{read_token_or_quoted_string}
use rust_http.Headers.Etag.{EntityTag, to_stream, from_stream}
use rust_http.Headers.Etag.RoundTrip.{from_stream-to_stream}
use rust_http.Headers.Convertible.{list_loop, list_to_stream, write_more}
use rust_http.Headers.Connection.{Connection, close, token, convertible}
use rust_http.Headers.Connection.Values.{IsReadable}
use rust_http.Headers.Connection.RoundTrip.{connections-from_stream-to_stream}

a_fold : Folded (cr ∷ lf ∷ sp ∷ b'b' ∷ cr ∷ []) (sp ∷ b'b' ∷ [])
a_fold = stray_cr (fold refl (byte (omega arith) (omega arith) (stray_cr nothing)))

next-Folded_example :
    (it' : HeaderValueByteIterator) × Returned
      (new (sp ∷ [] ++ b'a' ∷ ((cr ∷ lf ∷ sp ∷ b'b' ∷ cr ∷ []) ++ lf ∷ b'H' ∷ codes "ost")))
      (b'a' ∷ sp ∷ b'b' ∷ [])
      it'
    × (pending it' ≡ b'H' ∷ codes "ost")
next-Folded_example =
    next-Folded (sp ∷ []) b'a' b'H' (codes "ost") (refl, tt) (omega arith) (omega arith) refl a_fold
      refl

abbrev weak_tag : EntityTag
weak_tag = record { weak = true; opaque_tag = codes "v\"1" }

weak_room : length (to_stream weak_tag []) < 50
unfolding to_stream write_quoted_string write_escaped write as_bytes char_bytes
weak_room = omega arith

from_stream-to_stream_example :
    (it : HeaderValueByteIterator) × (from_stream 50
        (new (to_stream weak_tag [] ++ cr ∷ lf ∷ b'H' ∷ codes "ost"))
      ≡ returns (some weak_tag, it))
    × (value it ≡ ([], b'H' ∷ codes "ost"))
from_stream-to_stream_example =
    from_stream-to_stream weak_tag 50 b'H' (codes "ost") (omega arith) (omega arith) refl weak_room

abbrev two_values : List Connection
two_values = token (codes "Keep-Alive") ∷ []

two-IsReadable : All IsReadable two_values
unfolding IsReadable is_token is_token_item is_char is_ctl is_separator normalised to_upper to_lower
two-IsReadable = ((refl, (λ e. cc), refl, (λ e. cc)), tt)

two_room : length (output (list_to_stream convertible (close ∷ two_values) [])) < 50
unfolding list_to_stream write_more Connection.to_stream write as_bytes char_bytes
two_room = omega arith

connections-from_stream-to_stream_example :
    (list_to_stream convertible (close ∷ two_values) []
      ≡ returns (output (list_to_stream convertible (close ∷ two_values) [])))
    × (it : HeaderValueByteIterator) × (list_loop convertible 50 50 [] (
          new (
            output (list_to_stream convertible (close ∷ two_values) [])
            ++ cr ∷ lf ∷ b'H' ∷ codes "ost"))
        ≡ returns (some (close ∷ two_values), it))
    × (value it ≡ ([], b'H' ∷ codes "ost"))
unfolding IsReadable
connections-from_stream-to_stream_example =
    connections-from_stream-to_stream close two_values 50 b'H' (codes "ost") tt two-IsReadable refl
      two_room

value_token : is_token (codes "value") ≡ true
unfolding is_token is_token_item is_char is_ctl is_separator
value_token = refl

semicolon : is_separator b';' ≡ true
unfolding is_separator
semicolon = refl

read_token_or_quoted_string_endless_example :
    read_token_or_quoted_string 1000 (inside none (b'v' ∷ (codes "alue" ++ b';' ∷ codes "q=0.1")))
    ≡ runs_out
read_token_or_quoted_string_endless_example =
    read_token_or_quoted_string_endless 1000 b'v' b';' (codes "alue") (codes "q=0.1") value_token
      semicolon
