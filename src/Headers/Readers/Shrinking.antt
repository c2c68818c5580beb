-- ===== src/Headers/Readers/Shrinking.antt =====
-- No reader of the iterator makes the stream longer.
use rust_http.Base.{
  ap, Run, sym, returns, fails, runs_out, subst, ℕ, zero, suc, ◌≤◌, ◌≡◌, Bool, true, false, Option,
  none, some, List, [], ◌∷◌, ◌++◌, ◌==◌, length, Text, if◌then◌else◌, arith,
}
use rust_http.Rfc2616.{double_quote}
use rust_http.Headers.Value.{HeaderValueByteIterator, pending, each_byte}
use rust_http.Headers.Value.Shrinking.{
  IsWithin, IsShrinking, pending-none, each_byte-IsShrinking, bind-IsShrinking, pure-IsShrinking,
  if-IsShrinking, Option-IsShrinking, put_back-none, next-IsShrinking, after_next-IsShrinking,
}
use rust_http.Headers.Readers.{
  Reading, ◌>>=◌, ◌>>◌, pure, put_back_byte, set_next_byte, lws_body, collect_body, quoted_body,
  token_body, token_or_body, some_if_any, normal, consume_lws, consume_optional_lws,
  verify_consumed, some_if_consumed, collect_to_str, after_comma, consume_comma_lws,
  read_quoted_string, read_token, token_or_quoted, read_token_or_quoted_string, parameter_value,
  parameter_key, read_parameter, read_parameters_loop, read_parameters, is_next, is_end,
}

if_within :
    {A : Type 0} (n : ℕ) (b : Bool) (m m' : Reading A) (it : HeaderValueByteIterator)
    → IsWithin n (m it)
    → IsWithin n (m' it)
    → IsWithin n ((if b then m else m') it)
if_within n true m m' it h h' = h
if_within n false m m' it h h' = h'

put_back_byte_lem :
    (b : ℕ) (it : HeaderValueByteIterator)
    → it.next_byte ≡ none
    → put_back_byte b it ≡ returns (tt, record it { next_byte = some b })
put_back_byte_lem b it e =
    ap (λ r. elim r [ returns it' ↦ returns (tt, it') | fails ↦ fails | runs_out ↦ runs_out ])
      (put_back-none b it e)

-- A byte that was just returned is put back.
put_back_within :
    {A : Type 0} (n b : ℕ) (it : HeaderValueByteIterator) (a : A)
    → suc (length (pending it)) ≤ n
    → it.next_byte ≡ none
    → IsWithin n ((put_back_byte b >> pure a) it)
put_back_within {A} n b it a h e =
    let put : Run (Unit {0} × HeaderValueByteIterator) → Type 0 = λ r.
      IsWithin {A = A} n
        (elim r [ returns p ↦ returns (a, p.1) | fails ↦ fails | runs_out ↦ runs_out ]) in
    subst put (sym (put_back_byte_lem b it e))
      (subst (λ l. suc (length l) ≤ n) (pending-none it e) h)

module _ (fuel : ℕ) where
  pub consume_optional_lws-IsShrinking : IsShrinking (consume_optional_lws fuel)
  unfolding consume_optional_lws consume_lws
  consume_optional_lws-IsShrinking =
      bind-IsShrinking (consume_lws fuel) (λ _. pure tt)
        (each_byte-IsShrinking lws_body (λ g. g) fuel false) (λ _. pure-IsShrinking tt)

  pub some_if_consumed-IsShrinking : {T : Type 0} (t : T) → IsShrinking (some_if_consumed fuel t)
  unfolding some_if_consumed verify_consumed
  some_if_consumed-IsShrinking t =
      bind-IsShrinking (verify_consumed fuel) _
        (bind-IsShrinking (consume_optional_lws fuel) _ consume_optional_lws-IsShrinking
          (λ _. after_next-IsShrinking _ (λ o. pure-IsShrinking (is_end o))))
        (λ consumed. pure-IsShrinking _)

  pub collect_to_str-IsShrinking : IsShrinking (collect_to_str fuel)
  unfolding collect_to_str
  collect_to_str-IsShrinking = each_byte-IsShrinking collect_body (λ out. out) fuel []

  after_comma-IsShrinking : (o : Option ℕ) → IsShrinking (after_comma fuel o)
  unfolding after_comma
  after_comma-IsShrinking none = pure-IsShrinking _
  after_comma-IsShrinking (some b) =
      if-IsShrinking (b == b',') _ _
        (bind-IsShrinking (consume_optional_lws fuel) _ consume_optional_lws-IsShrinking
          (λ _. pure-IsShrinking _))
        (pure-IsShrinking _)

  pub consume_comma_lws-IsShrinking : IsShrinking (consume_comma_lws fuel)
  unfolding consume_comma_lws
  consume_comma_lws-IsShrinking =
      bind-IsShrinking (consume_optional_lws fuel) _ consume_optional_lws-IsShrinking
        (λ _. after_next-IsShrinking (after_comma fuel) after_comma-IsShrinking)

  pub read_quoted_string-IsShrinking : (b : Bool) → IsShrinking (read_quoted_string fuel b)
  unfolding read_quoted_string
  read_quoted_string-IsShrinking b = each_byte-IsShrinking quoted_body (λ _. none) fuel _

  pub read_token-IsShrinking : IsShrinking (read_token fuel)
  unfolding read_token
  read_token-IsShrinking = each_byte-IsShrinking token_body some_if_any fuel []

  -- The byte that is set was just returned.
  token_or_quoted_within :
      (b n : ℕ) (it : HeaderValueByteIterator)
      → suc (length (pending it)) ≤ n
      → it.next_byte ≡ none
      → IsWithin n (token_or_quoted fuel (some b) it)
  unfolding token_or_quoted
  token_or_quoted_within b n it h e =
      if_within n (b == double_quote) (each_byte fuel quoted_body (λ _. none) (normal, []))
        (set_next_byte b >>= λ _. each_byte fuel token_or_body some_if_any []) it
        ((each_byte-IsShrinking quoted_body (λ _. none) fuel (normal, [])).within n it
          (omega arith))
        ((each_byte-IsShrinking token_or_body some_if_any fuel []).within n
          (record it { next_byte = some b })
          (subst (λ l. suc (length l) ≤ n) (pending-none it e) h))

  pub read_token_or_quoted_string-IsShrinking : IsShrinking (read_token_or_quoted_string fuel)
  unfolding read_token_or_quoted_string token_or_quoted
  read_token_or_quoted_string-IsShrinking =
      next-IsShrinking (token_or_quoted fuel) (pure-IsShrinking none) token_or_quoted_within

  parameter_value-IsShrinking : (key : Text) → IsShrinking (parameter_value fuel key)
  unfolding parameter_value
  parameter_value-IsShrinking key =
      bind-IsShrinking (consume_optional_lws fuel) _ consume_optional_lws-IsShrinking (λ _.
        bind-IsShrinking (read_token_or_quoted_string fuel) _
          read_token_or_quoted_string-IsShrinking
          (Option-IsShrinking (pure none) _ (pure-IsShrinking none) (λ v.
            bind-IsShrinking (consume_optional_lws fuel) _ consume_optional_lws-IsShrinking
              (λ _. pure-IsShrinking (some (key, v))))))

  parameter_key-IsShrinking : IsShrinking (parameter_key fuel)
  unfolding parameter_key
  parameter_key-IsShrinking =
      bind-IsShrinking (consume_optional_lws fuel) _ consume_optional_lws-IsShrinking (λ _.
        bind-IsShrinking (read_token fuel) _ read_token-IsShrinking (
          Option-IsShrinking (pure none) _ (pure-IsShrinking none) (λ k.
            bind-IsShrinking (consume_optional_lws fuel) _ consume_optional_lws-IsShrinking (λ _.
              after_next-IsShrinking _ (λ o.
                if-IsShrinking (is_next b'=' o) (parameter_value fuel k) (pure none)
                  (parameter_value-IsShrinking k) (pure-IsShrinking none))))))

  read_parameters_loop_within :
      (rounds : ℕ) (result : List (Text × Text)) (n : ℕ) (it : HeaderValueByteIterator)
      → length (pending it) ≤ n
      → IsWithin n (read_parameters_loop fuel rounds result it)
  unfolding read_parameters_loop read_parameter
  read_parameters_loop_within zero result n it h = tt
  read_parameters_loop_within (suc rounds) result n it h =
      let go : (r : List (Text × Text)) → IsShrinking (read_parameters_loop fuel rounds r) =
        λ r. record { within = read_parameters_loop_within rounds r } in
      let parameter : Reading (Option (List (Text × Text))) = read_parameter fuel true >>= λ found.
      (elim found [
        | none ↦ pure none
        | some p ↦ read_parameters_loop fuel rounds (result ++ p ∷ [])
      ]) in
      let behind : ℕ → Reading (Option (List (Text × Text))) =
        λ c. if c == b';' then parameter else (put_back_byte c >> pure (some result)) in
      let shrinking : IsShrinking parameter =
        bind-IsShrinking (read_parameter fuel true) _ parameter_key-IsShrinking
          (Option-IsShrinking (pure none) _ (pure-IsShrinking none) (λ p. go (result ++ p ∷ []))) in
      (next-IsShrinking (λ o. elim o [ none ↦ pure (some result) | some c ↦ behind c ])
          (pure-IsShrinking (some result))
          (λ c m it' k e.
            if_within m (c == b';') parameter (put_back_byte c >> pure (some result)) it'
              (shrinking.within m it' (omega arith))
              (put_back_within m c it' (some result) k e))).within
        n it h

  pub read_parameters-IsShrinking : IsShrinking (read_parameters fuel)
  unfolding read_parameters
  read_parameters-IsShrinking = record { within = read_parameters_loop_within fuel [] }
