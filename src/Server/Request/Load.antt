-- ===== src/Server/Request/Load.antt =====
-- What `load` promises of the request that it returns.
use rust_http.Base.{
  Run, ℕ, ◌≡◌, ◌⊎◌, inl, inr, refl, ap, subst, ◌∙◌, Bool, true, false, ◌&&◌, ◌||◌, Option, none,
  some, List, [], ◌∷◌, ◌==◌, if◌then◌else◌, Bytes, Text, codes, equal, returns, >>=-eq-returns,
  arith, Bool-cases,
}
use rust_http.Method.{Method}
use rust_http.Status.{Status}
use rust_http.Headers.Connection.{Connection, close, token}
use rust_http.Server.Request.{
  Result, ok, err, HeaderLineErr, HeaderCollection, close_loop, Request, Headers, all_read,
  given_up, left_by, headers_loop, Loaded, finish_load, close_for, with_version, with_line, load,
  RequestLine, read_request_line,
}

-- Whether a list of Connection values has `close`, and whether it has the token `keep-alive`.
unfoldable pub has_close : List Connection → Bool
has_close [] = false
has_close (close ∷ vs) = true
has_close (token s ∷ vs) = has_close vs

unfoldable pub has_keep_alive : List Connection → Bool
has_keep_alive [] = false
has_keep_alive (close ∷ vs) = has_keep_alive vs
has_keep_alive (token s ∷ vs) = equal s (codes "keep-alive") || has_keep_alive vs

-- `close` anywhere closes the connection; without it the token `keep-alive` keeps it open; without
-- both it stays as the version of HTTP has it.
pub close_loop_lem :
    (close_connection : Bool) (vs : List Connection)
    → close_loop close_connection vs
      ≡ (if has_close vs then true else if has_keep_alive vs then false else close_connection)
unfolding close_loop has_close has_keep_alive
close_loop_lem b [] = refl
close_loop_lem b (close ∷ vs) = refl
close_loop_lem b (token s ∷ vs) = elim (Bool-cases (equal s (codes "keep-alive"))) [
  | inl same ↦ rw same (close_loop_lem false vs ∙ ground arith)
  | inr other ↦ rw other (close_loop_lem b vs)
]

module _ {Url C H : Type 0} (parse_url : Text → Option Url)
    (read_method : Bytes → Option Method × Bytes) (collection : HeaderCollection C H)
    (read_header : Bytes → Run (Result H HeaderLineErr × Bytes)) where
  -- What holds of a request and the outcome beside it.
  pub IsSettled : Request Url C → Result (Unit {0}) Status → Type 0
  IsSettled r (err e) = r.close_connection ≡ true
  IsSettled r (ok _) =
      ((r.version ≡ (1, 0)) ⊎ ((r.version ≡ (1, 1)) × (collection.host_is_none r.headers ≡ false)))

  finish_load-IsSettled :
      (b : Bool) (r : Request Url C) (h : Headers C)
      → r.close_connection ≡ true
      → (r.version ≡ (1, 0)) ⊎ (r.version ≡ (1, 1))
      → let p = finish_load parse_url read_method collection read_header b r h in IsSettled p.0 p.1
  unfolding finish_load IsSettled
  finish_load-IsSettled b r (given_up h s) c v = c
  finish_load-IsSettled b r (all_read h s) c v =
      elim (Bool-cases ((r.version.0 == 1 && r.version.1 == 1) && collection.host_is_none h)) [
        | inl bad ↦ rw bad c
        | inr good ↦ rw good (elim v [
          | inl old ↦ inl old
          | inr new ↦ inr (new, ground (arith, good, ap (λ p. p.0) new, ap (λ p. p.1) new))
        ])
      ]

  IsSettled-as :
      (p : Loaded parse_url read_method collection read_header × Bytes) (r : Request Url C)
      (outcome : Result (Unit {0}) Status) (left : Bytes)
      → returns p ≡ returns ((r, outcome), left)
      → IsSettled p.0.0 p.0.1
      → IsSettled r outcome
  IsSettled-as p r outcome left e h =
      let same : p ≡ ((r, outcome), left) = cc in subst (λ q. IsSettled q.0.0 q.0.1) same h

  close_for-some :
      (v : ℕ × ℕ) (b : Bool)
      → close_for parse_url read_method collection read_header v ≡ some b
      → (v ≡ (1, 0)) ⊎ (v ≡ (1, 1))
  unfolding close_for
  close_for-some (major, minor) b e = ground (arith, e)

  with_version-IsSettled :
      (fuel : ℕ) (request : Request Url C) (stream : Bytes) (o : Option Bool) (r : Request Url C)
      (outcome : Result (Unit {0}) Status) (left : Bytes)
      → request.close_connection ≡ true
      → ((b : Bool) → o ≡ some b → (request.version ≡ (1, 0)) ⊎ (request.version ≡ (1, 1)))
      → with_version parse_url read_method collection read_header fuel request stream o
        ≡ returns ((r, outcome), left)
      → IsSettled r outcome
  unfolding with_version IsSettled
  with_version-IsSettled fuel request stream none r outcome left c v e =
      IsSettled-as _ r outcome left e c
  with_version-IsSettled fuel request stream (some b) r outcome left c v e =
      let (h, found, same) =
        >>=-eq-returns (headers_loop collection read_header fuel collection.empty stream)
          (λ headers. returns (
            finish_load parse_url read_method collection read_header b request headers,
            left_by headers,
          ))
          e in
      IsSettled-as _ r outcome left same (finish_load-IsSettled b request h c (v b refl))

  with_line-IsSettled :
      (fuel : ℕ) (l : Result (RequestLine parse_url) Status × Bytes) (r : Request Url C)
      (outcome : Result (Unit {0}) Status) (left : Bytes)
      → with_line parse_url read_method collection read_header fuel l ≡ returns ((r, outcome), left)
      → IsSettled r outcome
  unfolding with_line IsSettled
  with_line-IsSettled fuel (err e', s) r outcome left e = IsSettled-as _ r outcome left e refl
  with_line-IsSettled fuel (ok (m, (u, v)), s) r outcome left e =
      with_version-IsSettled fuel _ s (close_for parse_url read_method collection read_header v) r
        outcome left refl (close_for-some v) e

  -- What `load` returns with an error is to be closed; what it returns without one is of version
  -- 1.0, or of version 1.1 with a host.
  pub load-IsSettled :
      (fuel : ℕ) (stream : Bytes) (r : Request Url C) (outcome : Result (Unit {0}) Status)
      (left : Bytes)
      → load parse_url read_method collection read_header fuel stream ≡ returns ((r, outcome), left)
      → IsSettled r outcome
  unfolding load
  load-IsSettled fuel stream r outcome left e =
      with_line-IsSettled fuel (read_request_line parse_url read_method stream) r outcome left e
