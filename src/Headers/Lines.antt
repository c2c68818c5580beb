-- ===== src/Headers/Lines.antt =====
-- src/libhttp/headers/mod.rs: `HeaderEnum` and `header_enum_from_stream`;
-- src/libhttp/server/request.rs and src/libhttp/client/response.rs: `read_header`. The stream is
-- the list of the bytes to come, as in Headers/Value.
pub mod Names
pub mod RoundTrip
pub mod Tables
pub mod Shrinking
use rust_http.Base.{
  ℕ, Bool, true, false, ◌&&◌, Option, none, some, List, [], ◌∷◌, ◌++◌, ◌==◌, if◌then◌else◌, Bytes,
  Text, Run, returns, ◌>>=◌, Result, ok, err,
}
use rust_http.Rfc2616.{cr, lf, sp, colon, is_token_item}
use rust_http.Headers.Value.{HeaderValueByteIterator, again, each_byte, kept}
use rust_http.Headers.Value as Value
use rust_http.Headers.Readers.{Reading}
use rust_http.Headers.Serialization.{normalise_header_name}
use rust_http.Headers.Table.{
  Row, Header, header_name, header_value, write_header, value_from_stream,
}

pub data HeaderLineErr : Type 0 where
  end_of_file end_of_headers malformed_header_value malformed_header_syntax : HeaderLineErr

-- The trait; the `Writer` is the list of what was written, and `write_header` may fail.
pub record HeaderEnum (E : Type 0) : Type 0 where
  pub header_name : E → Text
  pub header_value : E → Text
  pub write_header : E → Bytes → Run Bytes
  pub value_from_stream : ℕ → Text → Reading (Option E)

-- Its instance for the headers of a table.
abbrev pub header_enum : (rows : List Row) → HeaderEnum (Header rows)
header_enum rows = record {
  header_name = header_name rows;
  header_value = header_value rows;
  write_header = write_header rows;
  value_from_stream = value_from_stream rows;
}

pub data State : Type 0 where
  start reading_name name_finished got_cr : State

-- Where the loop over the name ends: behind the colon, or with an error.
pub data LineName : Type 0 where
  named : Text → Bytes → LineName
  line_err : HeaderLineErr → Bytes → LineName

-- The states in the patterns of the arms.
abbrev pub reads_name : State → Bool
reads_name start = true
reads_name reading_name = true
reads_name _ = false

abbrev pub is_start : State → Bool
is_start start = true
is_start _ = false

abbrev pub may_end : State → Bool
may_end start = true
may_end got_cr = true
may_end _ = false

unfoldable pub name_loop : State → Text → Bytes → LineName
name_loop state name [] = line_err end_of_file []
name_loop state name (b ∷ bs) = elim (reads_name state && is_token_item b) [
  | true ↦ name_loop reading_name (name ++ b ∷ []) bs
  | false ↦ elim (is_start state && b == cr) [
    | true ↦ name_loop got_cr name bs
    | false ↦ elim (may_end state && b == lf) [
      | true ↦ line_err end_of_headers bs
      | false ↦ elim (b == sp) [
        | true ↦ name_loop name_finished name bs
        | false ↦ if b == colon then named name bs else line_err malformed_header_syntax bs
      ]
    ]
  ]
]

-- `for _ in iter { }`
unfoldable pub drain : ℕ → Reading (Unit {0})
drain fuel = each_byte fuel (λ _ _. again tt) (λ _. tt) tt

-- The last `match`, with what the iterator has left.
line_of :
    {E : Type 0} → Option E → HeaderValueByteIterator → (Result E HeaderLineErr × Option ℕ) × Bytes
line_of (some h) it = ((ok h, it.next_byte), it.reader)
line_of none it = ((err malformed_header_value, it.next_byte), it.reader)

module _ {E : Type 0} (enum : HeaderEnum E) (fuel : ℕ) where
  from_name : LineName → Run ((Result E HeaderLineErr × Option ℕ) × Bytes)
  unfolding drain line_of
  from_name (line_err e bs) = returns ((err e, none), bs)
  from_name (named name bs) = normalise_header_name name >>= λ n.
      enum.value_from_stream fuel n (Value.new bs) >>= λ p.
      drain fuel p.1 >>= λ q. returns (line_of p.0 q.1)

  unfoldable pub header_enum_from_stream : Bytes → Run ((Result E HeaderLineErr × Option ℕ) × Bytes)
  unfolding from_name name_loop
  header_enum_from_stream reader = from_name (name_loop start [] reader)

  -- The next byte is poked back, whatever the result.
  unfoldable pub read_header : Bytes → Run (Result E HeaderLineErr × Bytes)
  unfolding header_enum_from_stream
  read_header stream = header_enum_from_stream stream >>= λ p. returns (p.0.0, kept p.0.1 p.1)
