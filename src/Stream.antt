-- ===== src/Stream.antt =====
-- The stream that a `BufferedStream` wraps (`std::rt::io::Stream`, a `TcpStream` in the server):
-- its operations, and what their documentation promises. The program's own code is above it.
use rust_http.Base.{ℕ, suc, ◌≤◌, ◌≡◌, ◌≢◌, Bool, Option, none, some, [], ◌++◌, length, Bytes}

-- `read` is given the length of its buffer and answers with the bytes that it put there.
pub record Stream (W : Type 0) : Type 0 where
  pub read : W → ℕ → Option Bytes × W
  pub eof : W → Bool × W
  pub write : W → Bytes → W
  pub flush : W → W

-- The reading side: `incoming` is all that will ever arrive. A read takes a front part of it that
-- fits the buffer, and answers `None` only at its end.
pub record ReadLaws {W : Type 0} (io : Stream W) : Type 0 where
  pub incoming : W → Bytes
  pub read_some :
      (w w' : W) (n : ℕ) (c : Bytes)
      → io.read w n ≡ (some c, w')
      → (incoming w ≡ c ++ incoming w') × (length c ≤ n)
  pub read_none :
      (w w' : W) (n : ℕ) → io.read w n ≡ (none, w') → (incoming w ≡ []) × (incoming w' ≡ [])

-- A stream that blocks until it has something: a read into a buffer with room gives a byte at
-- least.
abbrev pub NeverEmpty : {W : Type 0} → Stream W → Type 0
NeverEmpty {W} io = (w w' : W) (n : ℕ) → io.read w (suc n) ≢ (some [], w')

-- The writing side: `outgoing` is all that was sent.
pub record WriteLaws {W : Type 0} (io : Stream W) : Type 0 where
  pub outgoing : W → Bytes
  pub write_outgoing : (w : W) (buf : Bytes) → outgoing (io.write w buf) ≡ outgoing w ++ buf
  pub flush_outgoing : (w : W) → outgoing (io.flush w) ≡ outgoing w
