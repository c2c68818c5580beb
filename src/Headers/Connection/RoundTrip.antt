-- ===== src/Headers/Connection/RoundTrip.antt =====
-- Connection headers: written to a line and read back.
use rust_http.Base.{
  ℕ, ◌<◌, ◌≡◌, sym, subst, true, false, some, List, [], ◌∷◌, ◌++◌, All, All-append, length,
  length-append, Bytes, Text, arith, returns, output, refl,
}
use rust_http.Rfc2616.{is_token, cr, lf}
use rust_http.Rfc2616.Classes.{is_token-cons, is_token_item-IsPlain}
use rust_http.Headers.Value.{HeaderValueByteIterator, new, is_blank}
use rust_http.Headers.Value.View.{value}
use rust_http.Headers.Value.Wire.{IsClean, value-text, IsSteady-new}
use rust_http.Headers.Readers.Steps.{Reads}
use rust_http.Headers.Convertible.{list_to_stream, list_loop}
use rust_http.Headers.Convertible.Lists.{
  RoundTrips, more_line, length-more_line, list_to_stream-line, Reads-list_loop,
}
use rust_http.Headers.Connection.{Connection, convertible}
use rust_http.Headers.Connection.Values.{IsReadable, line-IsTokenFor, connection-RoundTrips}

token-IsClean : (s : Text) → is_token s ≡ true → All IsClean s
token-IsClean [] h = tt
token-IsClean (c ∷ s) h =
    let (item, more) = is_token-cons c s h in
    let plain = is_token_item-IsPlain c item in ((plain.ne_cr, plain.ne_lf), token-IsClean s more)

all_RoundTrips : (hs : List Connection) → All IsReadable hs → All (RoundTrips convertible) hs
all_RoundTrips [] r = tt
all_RoundTrips (h ∷ hs) (r, rs) = (connection-RoundTrips h r, all_RoundTrips hs rs)

more_line-IsClean :
    (hs : List Connection) (r : All IsReadable hs)
    → All IsClean (more_line convertible hs (all_RoundTrips hs r))
unfolding more_line connection-RoundTrips all_RoundTrips
more_line-IsClean [] r = tt
more_line-IsClean (h ∷ hs) (r, rs) =
    let t = line-IsTokenFor h r in
    (
      omega arith,
      (
        omega arith,
        All-append IsClean (t.first ∷ t.others) (more_line convertible hs (all_RoundTrips hs rs))
            (token-IsClean (t.first ∷ t.others) t.is_a_token) (more_line-IsClean hs rs),
      ),
    )

-- The line of such a list: how it is written, and that it is read back.
pub record ConnectionsLine (hs : List Connection) : Type 0 where
  pub first : ℕ
  pub line : Bytes
  pub written : (w : Bytes) → list_to_stream convertible hs w ≡ returns (w ++ first ∷ line)
  pub read_back :
      (fuel : ℕ)
      → length (first ∷ line) < fuel
      → Reads (list_loop convertible fuel fuel []) (first ∷ line) (some hs) []
  pub solid : is_blank first ≡ false
  pub clean : All IsClean (first ∷ line)

pub connections_line :
    (h : Connection) (hs : List Connection)
    → IsReadable h
    → All IsReadable hs
    → ConnectionsLine (h ∷ hs)
unfolding connection-RoundTrips
connections_line h hs r rs =
    let t = line-IsTokenFor h r in
    let more = more_line convertible hs (all_RoundTrips hs rs) in
    let plain = is_token_item-IsPlain t.first (is_token-cons t.first t.others t.is_a_token).0 in
    record {
      first = t.first;
      line = t.others ++ more;
      written = λ w.
          list_to_stream-line convertible h hs (connection-RoundTrips h r) (all_RoundTrips hs rs) w;
      read_back = λ fuel room.
          Reads-list_loop convertible fuel fuel [] h hs (connection-RoundTrips h r)
            (all_RoundTrips hs rs) room
            (omega (
              arith,
              room,
              length-more_line convertible hs (all_RoundTrips hs rs),
              length-append t.others more,
            ));
      solid = ground (arith, plain.ne_sp, plain.ne_ht);
      clean =
          All-append IsClean (t.first ∷ t.others) more
            (token-IsClean (t.first ∷ t.others) t.is_a_token) (more_line-IsClean hs rs);
    }

-- A list of Connection values that has at least one, each `close` or a token in header case other
-- than `Close`, written to a header line that ends in CR LF and is followed by a byte that is no
-- white space, is read back from the line, and that byte and the rest of the stream are left.
pub connections-from_stream-to_stream :
    (h : Connection) (hs : List Connection) (fuel c : ℕ) (rest : Bytes)
    → IsReadable h
    → All IsReadable hs
    → is_blank c ≡ false
    → length (output (list_to_stream convertible (h ∷ hs) [])) < fuel
    → (list_to_stream convertible (h ∷ hs) []
        ≡ returns (output (list_to_stream convertible (h ∷ hs) [])))
      × (it : HeaderValueByteIterator) × (list_loop convertible fuel fuel []
            (new (output (list_to_stream convertible (h ∷ hs) []) ++ cr ∷ lf ∷ c ∷ rest))
          ≡ returns (some (h ∷ hs), it))
      × (value it ≡ ([], c ∷ rest))
connections-from_stream-to_stream h hs fuel c rest r rs hc room =
    let l = connections_line h hs r rs in
    let w = l.first ∷ l.line in
    let seen = value-text l.first l.line c rest l.solid l.clean hc in
    let read =
      l.read_back fuel (subst (λ o. length (output o) < fuel) (l.written []) room)
        (new (w ++ cr ∷ lf ∷ c ∷ rest)) (c ∷ rest) seen (IsSteady-new _ l.first _ _ seen l.solid) in
    subst
      (λ o.
        (o ≡ returns (output o))
        × (it : HeaderValueByteIterator) × (list_loop convertible fuel fuel []
              (new (output o ++ cr ∷ lf ∷ c ∷ rest))
            ≡ returns (some (h ∷ hs), it))
        × (value it ≡ ([], c ∷ rest)))
      (sym (l.written [])) (refl, read.after, read.returned, read.left)
