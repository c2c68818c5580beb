-- ===== src/Buffer/Faults.antt =====
-- Where a `BufferedStream` does not read as a list of bytes.
use rust_http.Base.{ℕ, ◌≡◌, some, [], ◌∷◌, length, Bytes, returns, arith}
use rust_http.Stream.{Stream}
use rust_http.Buffer.{BufferedStream, read_byte}

module _ {W : Type 0} (io : Stream W) where
  -- When the buffer is used up and the wrapped stream answers a read with no bytes at all, but not
  -- with its end, `read_byte` returns the first byte that an earlier fill left in the array, and
  -- leaves its position behind the buffer's end.
  read_byte_stale :
      (b : BufferedStream W) (w : W) (old : ℕ) (rest : Bytes)
      → b.read_pos ≡ b.read_max
      → b.read_buffer ≡ old ∷ rest
      → io.read b.wrapped (length b.read_buffer) ≡ (some [], w)
      → read_byte io b ≡ returns (some old, record b { wrapped = w; read_pos = 1; read_max = 0 })
  unfolding read_byte
  read_byte_stale b w old rest same buffer e = ground (arith, same, buffer, e)
