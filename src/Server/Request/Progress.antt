-- ===== src/Server/Request/Progress.antt =====
-- The loop over the headers of a request never takes more rounds than the stream has bytes.
use rust_http.Base.{ℕ, ◌≤◌, ◌≡◌, length, List, Bytes, Run, runs_out, Result}
use rust_http.Headers.Table.{Row, Header}
use rust_http.Headers.Lines.{HeaderLineErr, header_enum, read_header}
use rust_http.Headers.Rows.Shrinking.{AreShrinking}
use rust_http.Server.Request.{HeaderCollection, Headers}

module _ (rows : List Row) (shrinking : AreShrinking rows) (fuel : ℕ) {C : Type 0}
    (collection : HeaderCollection C (Header rows)) where
  abbrev reads : Bytes → Run (Result (Header rows) HeaderLineErr × Bytes)
  reads = read_header (header_enum rows) fuel

  -- A call of `read_header` that runs out of its own fuel, on at most `n` bytes.
  abbrev IsStuck : ℕ → Type 0
  IsStuck n = (l : Bytes) × (length l ≤ n) × (reads l ≡ runs_out)
