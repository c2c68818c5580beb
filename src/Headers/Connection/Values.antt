-- ===== src/Headers/Connection/Values.antt =====
-- What the Connection header reads: a list of its values comes back from the line that is written
-- for it, and a token always begins with a letter in upper case or with no letter at all.
use rust_http.Base.{
  returns, ℕ, ◌<◌, ◌≡◌, ◌≢◌, refl, ap, subst, ◌∙◌, true, some, [], ◌∷◌, ◌++◌, length, Bytes, Text,
  codes, equal, equal_iff, as_bytes_ascii, arith, if◌then◌else◌, to_upper, to_lower,
}
use rust_http.Rfc2616.{is_token, is_separator}
use rust_http.Rfc2616.Classes.{is_token-cons, is_token_item-IsPlain, is_token-IsAscii}
use rust_http.Headers.Readers.{read_token}
use rust_http.Headers.Readers.Steps.{Reads, Reads-bind, Reads-pure, drop_blanks}
use rust_http.Headers.Readers.Quoted.{EndsToken, Reads-read_token}
use rust_http.Headers.Serialization.{write}
use rust_http.Headers.Serialization.Names.{normalised, normalise_header_name-normalised}
use rust_http.Headers.Convertible.Lists.{EndsItem, RoundTrips}
use rust_http.Headers.Connection.{
  Connection, token, close, connection_of, connection_from, from_stream, to_stream, convertible,
}

-- The connection that a token stands for.
pub meaning : Text → Connection
meaning t = if equal (normalised true t) (codes "Close") then close else token (normalised true t)

connection_of-meaning : (t : Text) → connection_of (normalised true t) ≡ some (meaning t)
unfolding connection_of meaning
connection_of-meaning t = ground arith

connection_from-meaning :
    (c : ℕ) (t left : Text)
    → is_token (c ∷ t) ≡ true
    → Reads (connection_from (some (c ∷ t))) left (some (meaning (c ∷ t))) left
unfolding connection_from
connection_from-meaning c t left h =
    rw
      (
        normalise_header_name-normalised (c ∷ t) (is_token-IsAscii (c ∷ t) h),
        connection_of-meaning (c ∷ t),
      )
      (Reads-pure (some (meaning (c ∷ t))) left)

ends_token : (left : Bytes) → EndsItem left → EndsToken left
unfolding is_separator
ends_token [] e = tt
ends_token (b ∷ bs) e = rw e refl

-- A token in any case is read for the connection that it stands for.
pub Reads-from_stream :
    (fuel c : ℕ) (t left : Text)
    → is_token (c ∷ t) ≡ true
    → EndsItem left
    → length ((c ∷ t) ++ left) < fuel
    → Reads (from_stream fuel) ((c ∷ t) ++ left) (some (meaning (c ∷ t))) left
unfolding from_stream
Reads-from_stream fuel c t left h e room =
    Reads-bind (read_token fuel) connection_from
      (Reads-read_token fuel (c ∷ t) left h (ends_token left e) room)
      (connection_from-meaning c t left h)

pub starts_plain :
    (c : ℕ) (t left : Text)
    → is_token (c ∷ t) ≡ true
    → drop_blanks ((c ∷ t) ++ left) ≡ (c ∷ t) ++ left
unfolding drop_blanks
starts_plain c t left h =
    let plain = is_token_item-IsPlain c (is_token-cons c t h).0 in
    ground (arith, plain.ne_sp, plain.ne_ht)

-- A value that the writer writes and the reader can read: `close`, or a token in header case other
-- than `Close`.
unfoldable pub IsReadable : Connection → Type 0
IsReadable close = Unit
IsReadable (token s) =
    (is_token s ≡ true) × (s ≢ []) × (normalised true s ≡ s) × (s ≢ codes "Close")

close_meaning : meaning (codes "close") ≡ close
unfolding meaning normalised to_upper to_lower equal
close_meaning = refl

token_meaning : (s : Text) → IsReadable (token s) → meaning s ≡ token s
unfolding meaning IsReadable
token_meaning s (token_s, any, cased_s, other) =
    ap (λ n. if equal n (codes "Close") then close else token n) cased_s
    ∙ ground (arith, other, equal_iff s (codes "Close"))

-- The line of one value.
pub connection_line : Connection → Bytes
connection_line close = codes "close"
connection_line (token s) = s

pub to_stream-line :
    (h : Connection) (writer : Bytes)
    → IsReadable h
    → to_stream h writer ≡ writer ++ connection_line h
unfolding to_stream connection_line write IsReadable
to_stream-line close writer r = refl
to_stream-line (token s) writer r =
    ap (λ l. writer ++ l) (as_bytes_ascii s (is_token-IsAscii s r.0))

-- Such a line is a token, not empty, that stands for the value.
pub record IsTokenFor (h : Connection) (line : Bytes) : Type 0 where
  pub first : ℕ
  pub others : Bytes
  pub shape : line ≡ first ∷ others
  pub is_a_token : is_token (first ∷ others) ≡ true
  pub means : meaning (first ∷ others) ≡ h

pub line-IsTokenFor : (h : Connection) → IsReadable h → IsTokenFor h (connection_line h)
unfolding connection_line is_token IsReadable
line-IsTokenFor close r = record {
  first = b'c';
  others = codes "lose";
  shape = refl;
  is_a_token = refl;
  means = close_meaning;
}
line-IsTokenFor (token []) r = absurd (r.1 refl)
line-IsTokenFor (token (c ∷ s)) r = record {
  first = c;
  others = s;
  shape = refl;
  is_a_token = r.0;
  means = token_meaning (c ∷ s) r;
}

unfoldable pub connection-RoundTrips : (h : Connection) → IsReadable h → RoundTrips convertible h
connection-RoundTrips h r =
    let t = line-IsTokenFor h r in
    record {
      line = t.first ∷ t.others;
      written = λ writer. ap returns (to_stream-line h writer r ∙ ap (λ l. writer ++ l) t.shape);
      starts = λ left. starts_plain t.first t.others left t.is_a_token;
      read_back = λ fuel left e room.
          subst (λ m. Reads (from_stream fuel) ((t.first ∷ t.others) ++ left) (some m) left) t.means
            (Reads-from_stream fuel t.first t.others left t.is_a_token e room);
    }

pub first_letter : (t : Text) → normalised true t ≢ codes "keep-alive"
unfolding normalised to_upper
first_letter [] e = cc
first_letter (c ∷ t) e = absurd (ground (arith, e))

meaning-ne_lower : (t : Text) → meaning t ≢ token (codes "keep-alive")
unfolding meaning
meaning-ne_lower t e = ground (arith, e, first_letter t)
