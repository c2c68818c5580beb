-- ===== src/Headers/Etag/RoundTrip.antt =====
-- Entity tags written to a header line and read back.
use rust_http.Base.{
  ℕ, ◌<◌, ◌≡◌, refl, subst, Bool, true, false, Option, none, some, [], ◌∷◌, ◌++◌, append_assoc, All,
  length, length-append, All-append, codes, Bytes, Text, IsAscii, as_bytes_ascii, returns, arith,
  if◌then◌else◌, Bool-cases, inl, inr,
}
use rust_http.Rfc2616.{double_quote, cr, lf}
use rust_http.Headers.Value.{HeaderValueByteIterator, new, is_blank}
use rust_http.Headers.Value.View.{value, IsSteady}
use rust_http.Headers.Value.Wire.{IsClean, value-text, IsSteady-new}
use rust_http.Headers.Readers.{
  Reading, pure, read_next, read_quoted_string, some_if_consumed, is_next,
}
use rust_http.Headers.Readers.Steps.{
  Reads, Reads-bind, Reads-pure, Reads-next_cons, Reads-some_if_consumed, drop_blanks,
}
use rust_http.Headers.Readers.Quoted.{Reads-read_quoted_string}
use rust_http.Headers.Serialization.{write}
use rust_http.Headers.Serialization.Quoting.{
  is_special, escaped, write_quoted_string-escaped, push_quoted_string-escaped,
  quoted_string-escaped,
}
use rust_http.Headers.Etag.{
  EntityTag, to_str, to_stream, from_stream, read_weak, read_weak_in, after_slash, read_tag,
}

-- What stands in front of the tag's quoted text.
abbrev opening : Bool → Bytes
opening true = b'W' ∷ b'/' ∷ double_quote ∷ []
opening false = double_quote ∷ []

-- An entity tag as it is written.
abbrev pub line : EntityTag → Bytes
line e = opening e.weak ++ (escaped e.opaque_tag ++ double_quote ∷ [])

pub to_stream-line :
    (e : EntityTag) (w : Bytes) → IsAscii e.opaque_tag → to_stream e w ≡ w ++ line e
to_stream-line e w h = go e.weak
  where
    go :
        (weak : Bool)
        → to_stream (record { weak = weak; opaque_tag = e.opaque_tag }) w
          ≡ w ++ (opening weak ++ (escaped e.opaque_tag ++ double_quote ∷ []))
    go true =
        unfold to_stream in
        rw (write_quoted_string-escaped, as_bytes_ascii e.opaque_tag h)
          (unfold write in append_assoc w (codes "W/") _)
    go false = unfold to_stream in rw (write_quoted_string-escaped, as_bytes_ascii e.opaque_tag h)

pub to_str-line : (e : EntityTag) → to_str e ≡ line e
to_str-line e = go e.weak
  where
    go :
        (weak : Bool)
        → to_str (record { weak = weak; opaque_tag = e.opaque_tag })
          ≡ opening weak ++ (escaped e.opaque_tag ++ double_quote ∷ [])
    go true = unfold to_str in push_quoted_string-escaped (codes "W/") e.opaque_tag
    go false = unfold to_str in quoted_string-escaped e.opaque_tag

Reads-read_weak : (weak : Bool) (v : Bytes) → Reads read_weak (opening weak ++ v) (some weak) v
unfolding read_weak read_weak_in after_slash
Reads-read_weak true v =
    Reads-bind read_next read_weak_in (Reads-next_cons b'W' (b'/' ∷ double_quote ∷ v)) (
      Reads-bind read_next (λ slash. after_slash (is_next b'/' slash))
        (Reads-next_cons b'/' (double_quote ∷ v))
        (Reads-bind read_next
          (λ quote. pure (if is_next double_quote quote then some true else none))
          (Reads-next_cons double_quote v) (Reads-pure (some true) v)))
Reads-read_weak false v =
    Reads-bind read_next read_weak_in (Reads-next_cons double_quote v) (Reads-pure (some false) v)

-- What `from_stream` does behind the opening.
abbrev finish : ℕ → Bool → Option Text → Reading (Option EntityTag)
finish fuel weak opaque_tag = elim opaque_tag [
  | none ↦ pure none
  | some tag ↦ some_if_consumed fuel (record { weak = weak; opaque_tag = tag })
]

-- The reader of entity tags takes back what was written.
Reads-from_stream :
    (fuel : ℕ) (e : EntityTag)
    → length (line e) < fuel
    → Reads (from_stream fuel) (line e) (some e) []
unfolding from_stream read_tag drop_blanks
Reads-from_stream fuel e room =
    let quoted : Bytes = escaped e.opaque_tag ++ double_quote ∷ [] in
    let inside : length quoted < fuel = omega (arith, length-append (opening e.weak) quoted) in
    Reads-bind read_weak (read_tag fuel) (Reads-read_weak e.weak quoted) (
      Reads-bind (read_quoted_string fuel true) (finish fuel e.weak)
        (Reads-read_quoted_string fuel e.opaque_tag [] inside)
        (Reads-some_if_consumed fuel e [] (omega arith)))

escaped-IsClean : (t : Text) → All IsClean t → All IsClean (escaped t)
unfolding escaped
escaped-IsClean [] h = tt
escaped-IsClean (c ∷ t) (hc, h) = elim (Bool-cases (is_special c)) [
  | inl s ↦ rw s (omega arith, (hc, escaped-IsClean t h))
  | inr s ↦ rw s (hc, escaped-IsClean t h)
]

quoted-IsClean : (t : Text) → All IsClean t → All IsClean (escaped t ++ double_quote ∷ [])
quoted-IsClean t h =
    All-append IsClean (escaped t) (double_quote ∷ []) (escaped-IsClean t h) (omega arith)

-- The iterator over such a line has the written tag for its value.
value-line_of :
    (weak : Bool) (t : Text) (c : ℕ) (rest : Bytes)
    → All IsClean t
    → is_blank c ≡ false
    → let l = line (record { weak = weak; opaque_tag = t }) in
      (value (new (l ++ cr ∷ lf ∷ c ∷ rest)) ≡ (l, c ∷ rest))
      × IsSteady (new (l ++ cr ∷ lf ∷ c ∷ rest))
value-line_of true t c rest h hc =
    let e =
      value-text b'W' (b'/' ∷ double_quote ∷ (escaped t ++ double_quote ∷ [])) c rest refl
        (omega arith, (omega arith, (omega arith, quoted-IsClean t h))) hc in
    (e, IsSteady-new _ b'W' _ _ e refl)
value-line_of false t c rest h hc =
    let e =
      value-text double_quote (escaped t ++ double_quote ∷ []) c rest refl
        (omega arith, quoted-IsClean t h) hc in
    (e, IsSteady-new _ double_quote _ _ e refl)

-- An entity tag whose text is ASCII with no CR or LF, written to a header line that ends in CR LF
-- and is followed by a byte that is no white space, is read back from the line, and that byte and
-- the rest of the stream are left.
pub from_stream-to_stream :
    (e : EntityTag) (fuel c : ℕ) (rest : Bytes)
    → IsAscii e.opaque_tag
    → All IsClean e.opaque_tag
    → is_blank c ≡ false
    → length (to_stream e []) < fuel
    → (it : HeaderValueByteIterator) × (from_stream fuel
          (new (to_stream e [] ++ cr ∷ lf ∷ c ∷ rest))
        ≡ returns (some e, it))
      × (value it ≡ ([], c ∷ rest))
from_stream-to_stream e fuel c rest ascii clean hc room =
    let written : to_stream e [] ≡ line e = to_stream-line e [] ascii in
    let (seen, steady) = value-line_of e.weak e.opaque_tag c rest clean hc in
    let r =
      Reads-from_stream fuel e (subst (λ l. length l < fuel) written room)
        (new (line e ++ cr ∷ lf ∷ c ∷ rest)) (c ∷ rest) seen steady in
    (r.after, rw written r.returned, r.left)
