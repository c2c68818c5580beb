-- ===== src/Server/Request/KeepAlive.antt =====
-- The token `keep-alive` that `load` looks for, against the tokens that the Connection header can
-- hold.
use rust_http.Base.{
  ℕ, ◌≡◌, refl, ap, ◌∙◌, Bool, false, ◌||◌, some, List, [], ◌∷◌, codes, equal, equal_iff, returns,
  arith, All, Bool-cases, inl, inr,
}
use rust_http.Headers.Value.{HeaderValueByteIterator}
use rust_http.Headers.Convertible.{list_loop}
use rust_http.Headers.Connection.{Connection, close, token, convertible}
use rust_http.Headers.Connection.Tokens.{IsOther, read-IsOther}
use rust_http.Server.Request.{close_loop}
use rust_http.Server.Request.Load.{has_close, has_keep_alive, close_loop_lem}

no_keep_alive : (vs : List Connection) → All IsOther vs → has_keep_alive vs ≡ false
unfolding has_keep_alive
no_keep_alive [] h = refl
no_keep_alive (close ∷ vs) (hc, h) = no_keep_alive vs h
no_keep_alive (token s ∷ vs) (hs, h) = elim (Bool-cases (equal s (codes "keep-alive"))) [
  | inl same ↦ absurd (hs (ap token ((equal_iff s (codes "keep-alive")).0 same)))
  | inr other ↦ rw other (no_keep_alive vs h)
]

-- With a Connection header that was read from a stream, the loop over its values closes the
-- connection if one of them is `close`, and leaves it as the version of HTTP has it otherwise: no
-- token keeps it open, `keep-alive` included.
pub close_loop-read :
    (fuel : ℕ) (it it' : HeaderValueByteIterator) (hs : List Connection) (close_connection : Bool)
    → list_loop convertible fuel fuel [] it ≡ returns (some hs, it')
    → close_loop close_connection hs ≡ (has_close hs || close_connection)
close_loop-read fuel it it' hs b e =
    close_loop_lem b hs ∙ rw (no_keep_alive hs (read-IsOther fuel hs it it' e)) (ground arith)
