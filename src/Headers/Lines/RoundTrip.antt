-- ===== src/Headers/Lines/RoundTrip.antt =====
-- A header that is written as one line is read back as that header.
use rust_http.Base.{
  ℕ, zero, suc, ◌<◌, ◌≡◌, refl, sym, ap, ◌∙◌, true, false, some, [], ◌∷◌, ◌++◌, append_assoc, All,
  inl, inr, length, Bytes, Text, returns, ok, arith,
}
use rust_http.Rfc2616.{cr, lf, sp, colon, is_token}
use rust_http.Rfc2616.Classes.{is_token-IsAscii}
use rust_http.Headers.Value.{HeaderValueByteIterator, is_blank, new, pending, each_byte}
use rust_http.Headers.Value.View.{value, IsSteady, next-Next}
use rust_http.Headers.Value.Loops.{next_cons, IsSteady-started}
use rust_http.Headers.Value.Wire.{IsClean, Folded-IsClean, value-line, IsSteady-new}
use rust_http.Headers.Readers.Steps.{Reads}
use rust_http.Headers.Serialization.Names.{normalised, normalise_header_name-normalised}
use rust_http.Headers.Lines.{HeaderEnum, drain, header_enum_from_stream, read_header}
use rust_http.Headers.Lines.Names.{name_loop-token}

-- The loop that consumes the rest of a line leaves what stands behind the line.
drain_lem :
    (fuel : ℕ) (it : HeaderValueByteIterator) (v rest : Bytes)
    → value it ≡ (v, rest)
    → IsSteady it
    → length v < fuel
    → (it' : HeaderValueByteIterator) × (drain fuel it ≡ returns (tt, it')) × (pending it' ≡ rest)
unfolding drain each_byte
drain_lem zero it v rest e steady room = absurd (omega arith)
drain_lem (suc fuel) it [] rest e steady room = elim (next-Next it) [
  | inl (it', n) ↦ (it', ground (arith, n.found_eq), ground (arith, n.seen_eq, e))
  | inr (c, it', y) ↦ cc (y.seen_eq, e)
]
drain_lem (suc fuel) it (b ∷ v) rest e steady room =
    let (it', found, left, started, _) = next_cons it b v rest e steady in
    let (it'', goes, end) =
      drain_lem fuel it' v rest left (IsSteady-started it' started) (omega arith) in
    (it'', ground (arith, found, goes), end)

-- The bytes `name: line`, ended by CR LF and followed by a byte `c`.
abbrev pub line_then : Text → Bytes → Bytes → Bytes
line_then name line rest = name ++ colon ∷ sp ∷ (line ++ cr ∷ lf ∷ rest)

module _ {E : Type 0} (enum : HeaderEnum E) (fuel : ℕ) where
  -- A line of a token, a colon, a space and a value without line breaks that does not start with
  -- white space, is read, if a byte that is no white space follows, as the header that
  -- `value_from_stream` reads from the value for the normalised name; the byte and the rest of the
  -- stream are left.
  pub read_header-line :
      (n : ℕ) (name : Text) (first : ℕ) (line : Bytes) (c : ℕ) (rest left : Bytes) (h : E)
      → is_token (n ∷ name) ≡ true
      → is_blank first ≡ false
      → All IsClean (first ∷ line)
      → is_blank c ≡ false
      → length left < fuel
      → Reads
          (enum.value_from_stream fuel (normalised true (n ∷ name)))
          (first ∷ line)
          (some h)
          left
      → read_header enum fuel (line_then (n ∷ name) (first ∷ line) (c ∷ rest))
        ≡ returns (ok h, c ∷ rest)
  unfolding read_header header_enum_from_stream
  read_header-line n name first line c rest left h token solid ((k, l), clean) hc room reads =
      let body = sp ∷ ((first ∷ line) ++ cr ∷ lf ∷ c ∷ rest) in
      let seen : value (new body) ≡ (first ∷ line, c ∷ rest) =
        ap (λ r. value (new (sp ∷ first ∷ r))) (sym (append_assoc line (cr ∷ []) (lf ∷ c ∷ rest)))
        ∙ value-line (sp ∷ []) first c rest (refl, tt) k l solid (Folded-IsClean line clean) hc in
      let r =
        reads (new body) (c ∷ rest) seen (IsSteady-new body first line (c ∷ rest) seen solid) in
      let (it, drained, end) = drain_lem fuel r.after left (c ∷ rest) r.left r.steady room in
      let named_as = name_loop-token n name body token in
      let normal =
        normalise_header_name-normalised (n ∷ name) (is_token-IsAscii (n ∷ name) token) in
      rw (named_as, normal, r.returned, drained) (ap (λ p. returns (ok h, p)) end)
