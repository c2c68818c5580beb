-- ===== src/Headers/Convertible.antt =====
-- src/libhttp/headers/mod.rs: `HeaderConvertible`, its instance for comma-separated lists, and the
-- small instances of the same file.
pub mod Lists
use rust_http.Base.{
  ℕ, zero, suc, Option, none, some, List, [], ◌∷◌, ◌++◌, Bytes, Text, codes, as_bytes, Run, returns,
  runs_out, fails, and_then,
}
use rust_http.Method
use rust_http.Method.{Method}
use rust_http.Headers.Readers.{
  Reading, ◌>>=◌, pure, comma_consumed, end_of_value, err_comma_not_found, ConsumeCommaLwsResult,
  consume_comma_lws, collect_to_str, read_token,
}
use rust_http.Headers.Serialization.{write}

pub record HeaderConvertible (T : Type 0) : Type 0 where
  pub from_stream : ℕ → Reading (Option T)
  pub to_stream : T → Bytes → Run Bytes
  pub http_value : T → Text

-- The default implementation of `to_stream`, for the `http_value` that it is given.
abbrev pub default_to_stream : {T : Type 0} → (T → Text) → T → Bytes → Run Bytes
default_to_stream http_value t writer = returns (write writer (as_bytes (http_value t)))

-- A value that a call outside the iterator computes.
abbrev pub call : {A : Type 0} → Run A → Reading A
call (returns a) it = returns (a, it)
call fails it = fails
call runs_out it = runs_out

-- The instance for `~[T]`. `rounds` bounds the rounds of its `loop`, `fuel` the loops inside one.
module _ {T : Type 0} (item : HeaderConvertible T) where
  -- The second `match` of a round, behind the item `t`, and the first one; `continue_with` is the
  -- next round.
  unfoldable pub list_comma :
      (List T → Reading (Option (List T)))
      → List T
      → T
      → ConsumeCommaLwsResult
      → Reading (Option (List T))
  list_comma continue_with result t comma_consumed = continue_with (result ++ t ∷ [])
  list_comma continue_with result t end_of_value = pure (some (result ++ t ∷ []))
  list_comma continue_with result t err_comma_not_found = pure none

  unfoldable pub list_item :
      ℕ → (List T → Reading (Option (List T))) → List T → Option T → Reading (Option (List T))
  unfolding list_comma
  list_item fuel continue_with result none = pure none
  list_item fuel continue_with result (some t) =
      consume_comma_lws fuel >>= list_comma continue_with result t

  unfoldable pub list_loop : ℕ → ℕ → List T → Reading (Option (List T))
  unfolding list_item
  list_loop fuel zero result it = runs_out
  list_loop fuel (suc rounds) result it =
      (item.from_stream fuel >>= list_item fuel (list_loop fuel rounds) result) it

  -- The items after the first.
  unfoldable pub write_more : List T → Bytes → Run Bytes
  write_more [] writer = returns writer
  write_more (t ∷ ts) writer =
      and_then (item.to_stream t (write writer (codes ", "))) (write_more ts)

  unfoldable pub list_to_stream : List T → Bytes → Run Bytes
  unfolding write_more
  list_to_stream [] writer = returns writer
  list_to_stream (t ∷ ts) writer = and_then (item.to_stream t writer) (write_more ts)

  unfoldable pub value_more : List T → Text → Text
  value_more [] out = out
  value_more (t ∷ ts) out = value_more ts ((out ++ codes ", ") ++ item.http_value t)

  unfoldable pub list_http_value : List T → Text
  unfolding value_more
  list_http_value [] = []
  list_http_value (t ∷ ts) = value_more ts (item.http_value t)

  abbrev pub list_convertible : HeaderConvertible (List T)
  list_convertible = record {
    from_stream = λ fuel. list_loop fuel fuel [];
    to_stream = list_to_stream;
    http_value = list_http_value;
  }

-- The instance for `~str`.
abbrev pub string_convertible : HeaderConvertible Text
string_convertible = record {
  from_stream = λ fuel. (do s ← collect_to_str fuel; pure (some s));
  to_stream = λ s writer. returns (write writer (as_bytes s));
  http_value = λ s. s;
}

-- The instance for `Method`.
unfoldable pub method_from : Option Text → Reading (Option Method)
method_from none = pure none
method_from (some s) = call (Method.from_str_or_new s)

unfoldable pub method_from_stream : ℕ → Reading (Option Method)
unfolding method_from
method_from_stream fuel = do s ← read_token fuel; method_from s

abbrev pub method_convertible : HeaderConvertible Method
method_convertible = record {
  from_stream = method_from_stream;
  to_stream = default_to_stream Method.to_str;
  http_value = Method.to_str;
}
