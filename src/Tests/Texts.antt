-- ===== src/Tests/Texts.antt =====
-- Texts and numbers.
use rust_http.Base.{
  ℕ, ◌+◌, ◌≡◌, ◌↔◌, refl, Bool, some, [], ◌∷◌, ◌++◌, Text, codes, arith, to_ascii_lower, ◌==◌, ◌||◌,
}
use rust_http.Rfc2616.{cr, double_quote}
use rust_http.Common.{read_uint, read_http_version}
use rust_http.Common.Decimal.{Reads, read_uint_iff}
use rust_http.Common.Version.{WritesVersion, read_http_version_iff}
use rust_http.Headers.Serialization.{normalise_header_name, comma_split, comma_join, unquote_string}
use rust_http.Headers.Serialization.Names.{normalise_header_name_iff}
use rust_http.Headers.Serialization.Commas.{comma_split-comma_join}
use rust_http.Headers.Serialization.Quoting.{Escapes, unquote_string_iff}

read_uint_iff_example :
    (read_uint 19 cr (codes "42\r\nx") ≡ (some 42, codes "\nx"))
    ↔ Reads (19 + 1) cr 0 0 (codes "42\r\nx") 42 (codes "\nx")
read_uint_iff_example = read_uint_iff 19 cr 42 (codes "42\r\nx") (codes "\nx") (omega arith) refl

read_http_version_iff_example :
    (read_http_version cr (codes "HTTP/1.1\r\n") ≡ (some (1, 1), codes "\n"))
    ↔ WritesVersion cr (codes "HTTP/1.1\r\n") 1 1 (codes "\n")
read_http_version_iff_example =
    read_http_version_iff cr 1 1 (codes "HTTP/1.1\r\n") (codes "\n") refl

normalise_header_name_iff_example :
    (normalise_header_name (codes "x-FOO") ≡ normalise_header_name (codes "X-foo"))
    ↔ (to_ascii_lower (codes "x-FOO") ≡ to_ascii_lower (codes "X-foo"))
normalise_header_name_iff_example =
    normalise_header_name_iff (codes "x-FOO") (codes "X-foo") (omega arith) (omega arith)

abbrev is_space : ℕ → Bool
is_space c = c == b' ' || c == 9

comma_split-comma_join_example :
    comma_split is_space (comma_join (codes "a" ∷ codes "b c" ∷ [])) ≡ codes "a" ∷ codes "b c" ∷ []
comma_split-comma_join_example =
    comma_split-comma_join is_space (codes "a") (codes "b c" ∷ []) refl
      ((refl, tt), ((refl, (refl, (refl, tt))), tt)) (refl, (refl, tt))

unquote_string_iff_example : (unquote_string (codes "\"a\\b\"") ≡ some (codes "ab")) ↔ (
    (body : Text) × (codes "\"a\\b\"" ≡ double_quote ∷ (body ++ double_quote ∷ []))
    × Escapes body (codes "ab"))
unquote_string_iff_example = unquote_string_iff (codes "\"a\\b\"") (codes "ab")
