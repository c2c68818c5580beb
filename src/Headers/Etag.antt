-- ===== src/Headers/Etag.antt =====
-- src/libhttp/headers/etag.rs: entity tags.
pub mod RoundTrip
use rust_http.Base.{
  ℕ, Bool, true, false, ◌||◌, Option, none, some, [], ◌∷◌, ◌==◌, if◌then◌else◌, Bytes, Text, codes,
}
use rust_http.Rfc2616.{double_quote}
use rust_http.Headers.Readers.{
  Reading, ◌>>=◌, pure, read_next, is_next, read_quoted_string, some_if_consumed,
}
use rust_http.Headers.Serialization.{push_quoted_string, quoted_string, write, write_quoted_string}

pub record EntityTag : Type 0 where
  pub weak : Bool
  pub opaque_tag : Text

abbrev pub weak_etag : Text → EntityTag
weak_etag opaque_tag = record { weak = true; opaque_tag = opaque_tag }

abbrev pub strong_etag : Text → EntityTag
strong_etag opaque_tag = record { weak = false; opaque_tag = opaque_tag }

unfoldable pub to_str : EntityTag → Text
to_str e =
    if e.weak then push_quoted_string (codes "W/") e.opaque_tag else quoted_string e.opaque_tag

unfoldable pub to_stream : EntityTag → Bytes → Bytes
to_stream e writer =
    write_quoted_string (if e.weak then write writer (codes "W/") else writer) e.opaque_tag

-- The first `match`: whether the tag is weak, or `None` to give up.
unfoldable pub after_slash : Bool → Reading (Option Bool)
after_slash false = pure none
after_slash true = do
  quote ← read_next
  pure (if is_next double_quote quote then some true else none)

unfoldable pub read_weak_in : Option ℕ → Reading (Option Bool)
unfolding after_slash
read_weak_in none = pure none
read_weak_in (some b) =
    if b == b'W' || b == b'w'
    then (do slash ← read_next; after_slash (is_next b'/' slash))
    else if b == double_quote
    then pure (some false)
    else pure none

unfoldable pub read_weak : Reading (Option Bool)
unfolding read_weak_in
read_weak = do b ← read_next; read_weak_in b

module _ (fuel : ℕ) where
  unfoldable pub read_tag : Option Bool → Reading (Option EntityTag)
  read_tag none = pure none
  read_tag (some weak) = do
    opaque_tag ← read_quoted_string fuel true
    elim opaque_tag [
      | none ↦ pure none
      | some tag ↦ some_if_consumed fuel (record { weak = weak; opaque_tag = tag })
    ]

  unfoldable pub from_stream : Reading (Option EntityTag)
  unfolding read_weak read_tag
  from_stream = do weak ← read_weak; read_tag weak
