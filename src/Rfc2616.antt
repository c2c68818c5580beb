-- ===== src/Rfc2616.antt =====
-- src/libhttp/rfc2616.rs: the character classes of RFC 2616 and the content codings.
pub mod Classes
pub mod Codings
use rust_http.Base.{ℕ, Bool, true, not, ◌&&◌, ◌||◌, [], ◌∷◌, ltb, leb, ◌==◌, within, Text}

unfoldable pub is_char : ℕ → Bool
is_char octet = ltb octet 128

unfoldable pub is_upalpha : ℕ → Bool
is_upalpha octet = leb b'A' octet && leb octet b'Z'

unfoldable pub is_loalpha : ℕ → Bool
is_loalpha octet = leb b'a' octet && leb octet b'z'

unfoldable pub is_alpha : ℕ → Bool
unfolding is_upalpha is_loalpha
is_alpha octet = is_upalpha octet || is_loalpha octet

unfoldable pub is_digit : ℕ → Bool
is_digit octet = leb b'0' octet && leb octet b'9'

unfoldable pub is_ctl : ℕ → Bool
is_ctl octet = ltb octet 32 || octet == 127

abbrev pub cr : ℕ
cr = 13

abbrev pub lf : ℕ
lf = 10

abbrev pub sp : ℕ
sp = 32

abbrev pub ht : ℕ
ht = 9

abbrev pub colon : ℕ
colon = 58

abbrev pub double_quote : ℕ
double_quote = 34

abbrev pub backslash : ℕ
backslash = 92

unfoldable pub is_hex : ℕ → Bool
unfolding is_digit
is_hex octet = within b'A' b'F' octet || within b'a' b'f' octet || is_digit octet

unfoldable pub is_separator : ℕ → Bool
is_separator o =
    o == b'('
    || o == b')'
    || o == b'<'
    || o == b'>'
    || o == b'@'
    || o == b','
    || o == b';'
    || o == b':'
    || o == b'\\'
    || o == b'"'
    || o == b'/'
    || o == b'['
    || o == b']'
    || o == b'?'
    || o == b'='
    || o == b'{'
    || o == b'}'
    || o == sp
    || o == ht

unfoldable pub is_token_item : ℕ → Bool
unfolding is_char is_ctl is_separator
is_token_item o = is_char o && (not (is_ctl o) && not (is_separator o))

-- `s.byte_iter().all(is_token_item)`, over the bytes of the text
unfoldable pub is_token : Text → Bool
unfolding is_token_item
is_token [] = true
is_token (b ∷ bs) = is_token_item b && is_token bs
