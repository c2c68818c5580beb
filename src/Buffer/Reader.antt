-- ===== src/Buffer/Reader.antt =====
-- src/libhttp/buffer.rs: `ChunkedReader`. Its `BufferedStream` is the list of the bytes to come, as
-- in Common; `size` says how many of them one `read` into a buffer of a given length returns, which
-- is up to the buffering, with `None` at the end of the stream.
pub mod Chunk
use rust_http.Base.{
  ℕ, ◌+◌, ◌-◌, ◌%◌, ◌^◌, min, Bool, true, false, not, ◌||◌, Option, none, some, [], ◌∷◌, ltb, ◌==◌,
  if◌then◌else◌, length, take, drop, Bytes, Run, returns, fails,
}
use rust_http.Rfc2616.{cr, lf}
use rust_http.Common.{read_uint}

pub record ChunkedReader : Type 0 where
  pub reader : Bytes
  pub chunk_size : ℕ
  pub finished : Bool

unfoldable pub new : Bytes → ChunkedReader
new reader = record { reader = reader; chunk_size = 0; finished = false }

-- `reader.read_byte() == Some(b)`, and what is left.
abbrev pub next_is : ℕ → Bytes → Bool × Bytes
next_is b [] = (false, [])
next_is b (x ∷ xs) = (x == b, xs)

line_feed : Option ℕ × Bytes → Option ℕ × Bytes
line_feed (none, l) = (none, l)
line_feed (some n, l) = let (found, l') = next_is lf l in (if found then some n else none, l')

unfoldable pub read_chunk_header : Bytes → Option ℕ × Bytes
unfolding line_feed
read_chunk_header reader = line_feed (read_uint 19 cr reader)

-- `uint` arithmetic.
abbrev wrap : ℕ → ℕ
wrap n = n % 2 ^ 64

abbrev wrap_sub : ℕ → ℕ → ℕ
wrap_sub a b = (a + 2 ^ 64 - b) % 2 ^ 64

-- `self.reader.read_byte() != Some(CR) || self.reader.read_byte() == Some(LF)`: the second byte is
-- only read behind a CR.
unfoldable pub chunk_end : Bytes → Bool × Bytes
chunk_end l = let (is_cr, l') = next_is cr l in if is_cr then next_is lf l' else (true, l')

module _ (size : Bytes → ℕ → ℕ) where
  -- `self.reader.read(buf)` for a `buf` of `n` bytes.
  unfoldable pub read_some : ℕ → Bytes → Option Bytes × Bytes
  read_some n [] = (none, [])
  read_some n (b ∷ bs) =
      let taken = min (size (b ∷ bs) n) n in (some (take taken (b ∷ bs)), drop taken (b ∷ bs))

  -- What follows the read of a part of the chunk.
  unfoldable pub after_read :
      ℕ → ChunkedReader → Option Bytes × Bytes → Option Bytes × ChunkedReader
  unfolding chunk_end
  after_read available c (none, l) = (none, record c { reader = l; finished = true })
  after_read available c (some bytes, l) =
      if length bytes == available
      then (let (bad, l') = chunk_end l in
          if bad
          then (none, record c { reader = l'; chunk_size = 0; finished = true })
          else (some bytes, record c { reader = l'; chunk_size = 0 }))
      else (some bytes, record c { reader = l; chunk_size = wrap_sub c.chunk_size (length bytes) })

  -- `read` once there is a chunk: `buf.mut_slice_to(end)` fails where it ends behind the buffer.
  unfoldable pub read_part : ℕ → ℕ → ℕ → ChunkedReader → Run (Option Bytes × ChunkedReader)
  unfolding read_some after_read
  read_part available end buf_len c =
      if ltb buf_len end then fails else returns (after_read available c (read_some end c.reader))

  unfoldable pub read_chunk : ℕ → ChunkedReader → Run (Option Bytes × ChunkedReader)
  unfolding read_part
  read_chunk buf_len c =
      let available = wrap_sub c.chunk_size 2 in
      read_part available (wrap (min available buf_len + 1)) buf_len c

  with_header : ℕ → ChunkedReader → Option ℕ × Bytes → Run (Option Bytes × ChunkedReader)
  unfolding read_chunk
  with_header buf_len c (none, l) = returns (none, record c { reader = l; finished = true })
  with_header buf_len c (some n, l) =
      if n == 0
      then returns (none, record c { reader = l; finished = true })
      else read_chunk buf_len (record c { reader = l; chunk_size = wrap (n + 2) })

  unfoldable pub read : ℕ → ChunkedReader → Run (Option Bytes × ChunkedReader)
  unfolding read_chunk with_header read_chunk_header
  read buf_len c =
      if c.finished
      then returns (none, c)
      else if c.chunk_size == 0
      then with_header buf_len c (read_chunk_header c.reader)
      else read_chunk buf_len c

unfoldable pub eof : ChunkedReader → Bool
eof c = c.finished
