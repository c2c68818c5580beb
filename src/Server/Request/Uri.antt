-- ===== src/Server/Request/Uri.antt =====
-- The limit on the length of the request URI.
use rust_http.Base.{
  ℕ, zero, suc, ◌+◌, ◌-◌, ◌≤◌, ◌<◌, ◌≡◌, ◌≢◌, refl, sym, ap, ap₂, ◌∙◌, false, [], ◌∷◌, ◌++◌,
  append-nil, append_assoc, ◌==◌, ==_iff, leb, if◌then◌else◌, length, length-append, drop, All,
  Bytes, Text, as_bytes, as_bytes_ascii, char_bytes, IsAscii, arith, Bool-cases, inl, inr,
  All-append,
}
use rust_http.Rfc2616.{sp}
use rust_http.Status.{Status}
use rust_http.Server.Request.{Result, ok, err, uri_loop, request_uri_too_long, max_request_uri_len}

-- A byte of an ASCII URI.
abbrev pub IsUriByte : ℕ → Type 0
IsUriByte b = (b < 128) × (b ≢ sp)

not_sp : (b : ℕ) → b ≢ sp → (b == sp) ≡ false
not_sp b h = ground arith

drop_step : (n b : ℕ) (l : Bytes) → 0 < n → drop n (b ∷ l) ≡ drop (n - 1) l
drop_step zero b l h = absurd (omega arith)
drop_step (suc n) b l h = ap (λ k. drop k l) (omega arith)

-- How the loop ends on a text of `n` bytes, of which `k` and one more are read at most.
abbrev outcome : ℕ → ℕ → Text → Bytes → Bytes → Result Text Status × Bytes
outcome n k text l rest =
    if leb n 1024 then (ok text, rest) else (err request_uri_too_long, drop k l)

-- How long a text may still become.
uri_loop_in :
    (uri u : Text) (rest : Bytes)
    → IsAscii uri
    → All IsUriByte u
    → length uri ≤ 1024
    → uri_loop uri (u ++ sp ∷ rest) ≡ (
        if leb (length uri + length u) 1024
        then (ok (uri ++ u), rest)
        else (err request_uri_too_long, drop (1025 - length uri) (u ++ sp ∷ rest)))
unfolding uri_loop
uri_loop_in uri [] rest ascii h room = ground (arith, room, append-nil uri)
uri_loop_in uri (b ∷ u) rest ascii ((low, no_sp), h) room = elim (Bool-cases (length uri == 1024)) [
  | inl full ↦
      rw (as_bytes_ascii uri ascii, full)
        (ground (
          arith,
          not_sp b no_sp,
          (==_iff (length uri) 1024).0 full,
          drop_step (1025 - length uri) b (u ++ sp ∷ rest),
        ))
  | inr more ↦
      rw (as_bytes_ascii uri ascii, more)
        (let longer : length (uri ++ b ∷ []) ≡ length uri + 1 = length-append uri (b ∷ []) in
          let below : length uri < 1024 = ground (arith, more, room) in
          let next =
            uri_loop_in (uri ++ b ∷ []) u rest
              (All-append (λ c. c < 128) uri (b ∷ []) ascii (low, tt)) h (omega arith) in
          rw (not_sp b no_sp) (
            next
            ∙ rw
                (
                  longer,
                  append_assoc uri (b ∷ []) u,
                  drop_step (1025 - length uri) b (u ++ sp ∷ rest) (omega arith),
                )
                (ap₂ (λ n k. outcome n k (uri ++ b ∷ u) (u ++ sp ∷ rest) rest) (omega arith)
                  (omega arith))))
]

-- An ASCII request URI that a space ends is taken if it has at most 1024 bytes, and refused as too
-- long at the byte after these otherwise.
pub uri_loop_limit :
    (u : Text) (rest : Bytes)
    → All IsUriByte u
    → uri_loop [] (u ++ sp ∷ rest) ≡ (
        if leb (length u) max_request_uri_len
        then (ok u, rest)
        else (err request_uri_too_long, drop 1025 (u ++ sp ∷ rest)))
uri_loop_limit u rest h =
    uri_loop_in [] u rest tt h (omega arith)
    ∙ ap (λ n. outcome n 1025 u (u ++ sp ∷ rest) rest) (omega arith)

as_bytes-append : (s t : Text) → as_bytes (s ++ t) ≡ as_bytes s ++ as_bytes t
unfolding as_bytes
as_bytes-append [] t = refl
as_bytes-append (c ∷ s) t =
    ap (λ l. char_bytes c ++ l) (as_bytes-append s t)
    ∙ sym (append_assoc (char_bytes c) (as_bytes s) (as_bytes t))

length-as_bytes-append :
    (s t : Text) → length (as_bytes (s ++ t)) ≡ length (as_bytes s) + length (as_bytes t)
length-as_bytes-append s t =
    ap length (as_bytes-append s t) ∙ length-append (as_bytes s) (as_bytes t)

-- A text past the limit is never refused.
past_limit :
    (uri u : Text) (rest : Bytes)
    → 1024 < length (as_bytes uri)
    → All (λ b. b ≢ sp) u
    → uri_loop uri (u ++ sp ∷ rest) ≡ (ok (uri ++ u), rest)
unfolding uri_loop
past_limit uri [] rest long h = ap (λ s. (ok s, rest)) (sym (append-nil uri))
past_limit uri (b ∷ u) rest long (no_sp, h) =
    let longer = length-as_bytes-append uri (b ∷ []) in
    let not_full : (length (as_bytes uri) == 1024) ≡ false = ground (arith, long) in
    rw (not_sp b no_sp, not_full)
      (past_limit (uri ++ b ∷ []) u rest (omega arith) h
        ∙ ap (λ s. (ok s, rest)) (append_assoc uri (b ∷ []) u))

-- ASCII bytes within the limit are put behind the text.
within_limit :
    (uri p l : Text)
    → IsAscii uri
    → All IsUriByte p
    → length uri + length p ≤ 1024
    → uri_loop uri (p ++ l) ≡ uri_loop (uri ++ p) l
unfolding uri_loop
within_limit uri [] l ascii h room = ap (λ s. uri_loop s l) (sym (append-nil uri))
within_limit uri (b ∷ p) l ascii ((low, no_sp), h) room =
    let longer : length (uri ++ b ∷ []) ≡ length uri + 1 = length-append uri (b ∷ []) in
    let not_full : (length (as_bytes uri) == 1024) ≡ false =
      ground (arith, ap length (as_bytes_ascii uri ascii), room) in
    rw (not_sp b no_sp, not_full)
      (within_limit (uri ++ b ∷ []) p l (All-append (λ c. c < 128) uri (b ∷ []) ascii (low, tt)) h
          (omega arith)
        ∙ ap (λ s. uri_loop s l) (append_assoc uri (b ∷ []) p))

uri-IsAscii : (p : Text) → All IsUriByte p → IsAscii p
uri-IsAscii [] h = tt
uri-IsAscii (b ∷ p) (hb, h) = (hb.0, uri-IsAscii p h)

two_bytes : (b : ℕ) → 128 ≤ b → b < 256 → length (as_bytes (b ∷ [])) ≡ 2
unfolding as_bytes char_bytes
two_bytes b h k = ground arith

step :
    (p u : Text) (b : ℕ) (rest : Bytes)
    → (b == sp) ≡ false
    → (length (as_bytes p) == 1024) ≡ false
    → uri_loop p (b ∷ (u ++ sp ∷ rest)) ≡ uri_loop (p ++ b ∷ []) (u ++ sp ∷ rest)
unfolding uri_loop
step p u b rest no_sp not_full = rw (no_sp, not_full) refl

-- The limit is tested for equality on the length in UTF-8: behind 1023 bytes of ASCII, one byte
-- from 128 on takes the text to 1025 bytes, and from there on a URI of any length is taken.
pub uri_loop_past_limit :
    (p u : Text) (b : ℕ) (rest : Bytes)
    → All IsUriByte p
    → length p ≡ 1023
    → 128 ≤ b
    → b < 256
    → All (λ c. c ≢ sp) u
    → uri_loop [] (p ++ b ∷ (u ++ sp ∷ rest)) ≡ (ok (p ++ b ∷ u), rest)
uri_loop_past_limit p u b rest hp size high byte h =
    let bytes : length (as_bytes p) ≡ 1023 =
      ap length (as_bytes_ascii p (uri-IsAscii p hp)) ∙ size in
    let not_full : (length (as_bytes p) == 1024) ≡ false = ground (arith, bytes) in
    within_limit [] p (b ∷ (u ++ sp ∷ rest)) tt hp (omega arith)
    ∙ step p u b rest (ground (arith, high)) not_full
    ∙ past_limit (p ++ b ∷ []) u rest
        (omega (arith, length-as_bytes-append p (b ∷ []), two_bytes b high byte)) h
    ∙ ap (λ s. (ok s, rest)) (append_assoc p (b ∷ []) u)
