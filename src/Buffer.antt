-- ===== src/Buffer.antt =====
-- src/libhttp/buffer.rs: `BufferedStream`. An array is a list, and a slice of one is taken out of
-- it; an index out of bounds fails. The buffers' sizes are the lengths of the lists, which only
-- `new` sets.
pub mod Input
pub mod Output
pub mod Faults
pub mod Hex
pub mod Chunks
pub mod Reader
use rust_http.Base.{
  ℕ, ◌+◌, ◌-◌, ◌%◌, ◌^◌, ◌/◌, zero, suc, min, Bool, true, false, ◌&&◌, ◌||◌, not, Option, none,
  some, [], ◌∷◌, ◌++◌, ltb, leb, ◌==◌, if◌then◌else◌, length, get_elem?, set, take, drop, replicate,
  Bytes, codes, Run, returns, fails, ◌>>=◌,
}
use rust_http.Rfc2616.{cr, lf}
use rust_http.Stream.{Stream}

abbrev pub read_buf_size : ℕ
read_buf_size = 0x10000

abbrev pub write_buf_size : ℕ
write_buf_size = 0x10000

pub record BufferedStream (W : Type 0) : Type 0 where
  pub wrapped : W
  pub read_buffer : Bytes
  pub read_pos : ℕ
  pub read_max : ℕ
  pub write_buffer : Bytes
  pub write_len : ℕ
  pub call_wrapped_flush : Bool
  pub writing_chunked_body : Bool

unfoldable pub new : {W : Type 0} → W → Bool → BufferedStream W
new stream call_wrapped_flush = record {
  wrapped = stream;
  read_buffer = replicate read_buf_size 0;
  read_pos = 0;
  read_max = 0;
  write_buffer = replicate write_buf_size 0;
  write_len = 0;
  call_wrapped_flush = call_wrapped_flush;
  writing_chunked_body = false;
}

-- `uint` subtraction.
abbrev sub_uint : ℕ → ℕ → ℕ
sub_uint a b = (a + 2 ^ 64 - b) % 2 ^ 64

-- `buf[..src.len()] = src`, for a `src` that fits.
abbrev pub overwrite : Bytes → Bytes → Bytes
overwrite src buf = src ++ drop (length src) buf

-- `vec::bytes::copy_memory(buf.mut_slice_from(at), src, src.len())`
abbrev pub copy_at : ℕ → Bytes → Bytes → Bytes
copy_at at src buf = take at buf ++ overwrite src (drop at buf)

-- `n.to_str_radix(16)`, for a number of at most `fuel` digits.
abbrev pub hex_digit : ℕ → ℕ
hex_digit d = if ltb d 10 then b'0' + d else b'a' + (d - 10)

unfoldable pub hex_digits : ℕ → ℕ → Bytes
hex_digits zero n = []
hex_digits (suc fuel) n =
    let front = hex_digits fuel (n / 16) in
    if ltb n 16 then hex_digit n ∷ [] else front ++ hex_digit (n % 16) ∷ []

-- A `uint` has at most 16 hexadecimal digits.
abbrev pub to_hex : ℕ → Bytes
to_hex n = hex_digits 16 n

abbrev pub crlf : Bytes
crlf = cr ∷ lf ∷ []

module _ {W : Type 0} (io : Stream W) where
  unfoldable pub poke_byte : ℕ → BufferedStream W → Run (BufferedStream W)
  poke_byte byte b = do
    b' ←
        if b.read_pos == 0
        then (if b.read_max == 0 then returns (record b { read_max = 1 }) else fails)
        else returns (record b { read_pos = b.read_pos - 1 })
    if ltb b'.read_pos (length b'.read_buffer)
        then returns (record b' { read_buffer = set b'.read_buffer b'.read_pos byte })
        else fails

  filled : BufferedStream W → Option Bytes × W → Bool × BufferedStream W
  filled b (none, w) = (false, record b { wrapped = w; read_pos = 0; read_max = 0 })
  filled b (some c, w) = (
    true,
    record b {
      wrapped = w;
      read_buffer = overwrite c b.read_buffer;
      read_pos = 0;
      read_max = length c;
    },
  )

  -- `assert_eq!(self.read_pos, self.read_max)` stands at its start.
  unfoldable pub fill_buffer : BufferedStream W → Run (Bool × BufferedStream W)
  unfolding filled
  fill_buffer b =
      if b.read_pos == b.read_max
      then returns (filled b (io.read b.wrapped (length b.read_buffer)))
      else fails

  -- `self.read_pos == self.read_max && !self.fill_buffer()`, the other way round: whether there is
  -- something to read.
  unfoldable pub has_more : BufferedStream W → Run (Bool × BufferedStream W)
  unfolding fill_buffer
  has_more b = if b.read_pos == b.read_max then fill_buffer b else returns (true, b)

  take_byte : BufferedStream W → Run (Option ℕ × BufferedStream W)
  take_byte b = elim (get_elem? b.read_buffer b.read_pos) [
    | some x ↦ returns (some x, record b { read_pos = b.read_pos + 1 })
    | none ↦ fails
  ]

  unfoldable pub read_byte : BufferedStream W → Run (Option ℕ × BufferedStream W)
  unfolding has_more take_byte
  read_byte b = has_more b >>= λ r. if r.0 then take_byte r.1 else returns (none, r.1)

  -- The bytes copied to a buffer of `n`. `copy_memory` asserts that it has as many to copy.
  take_bytes : ℕ → BufferedStream W → Run (Option Bytes × BufferedStream W)
  take_bytes n b =
      let size = min (sub_uint b.read_max b.read_pos) n in
      if leb (b.read_pos + size) (length b.read_buffer)
      then returns (
        some (take size (drop b.read_pos b.read_buffer)),
        record b { read_pos = b.read_pos + size },
      )
      else fails

  unfoldable pub read : ℕ → BufferedStream W → Run (Option Bytes × BufferedStream W)
  unfolding has_more take_bytes
  read n b = has_more b >>= λ r. if r.0 then take_bytes n r.1 else returns (none, r.1)

  unfoldable pub eof : BufferedStream W → Bool × BufferedStream W
  eof b =
      if b.read_pos == b.read_max
      then (let (at_end, w) = io.eof b.wrapped in (at_end, record b { wrapped = w }))
      else (false, b)

  -- The branch of `write` for what does not fit the buffer.
  write_through : BufferedStream W → Bytes → BufferedStream W
  write_through b buf =
      let w1 =
        if b.writing_chunked_body
        then io.write b.wrapped (to_hex (b.write_len + length buf) ++ crlf)
        else b.wrapped in
      let w2 = if ltb 0 b.write_len then io.write w1 (take b.write_len b.write_buffer) else w1 in
      let w3 = io.write w2 buf in
      let w4 = if b.writing_chunked_body then io.write w3 crlf else w3 in
      record b { wrapped = w4; write_len = 0 }

  -- The buffer is full: it goes out, as a chunk of its own in a chunked body.
  write_full : BufferedStream W → BufferedStream W
  write_full b =
      let w =
        if b.writing_chunked_body
        then io.write (io.write (io.write b.wrapped (to_hex b.write_len ++ crlf)) b.write_buffer)
            crlf
        else io.write b.wrapped b.write_buffer in
      record b { wrapped = w; write_len = 0 }

  -- The other branch: the bytes are kept.
  write_kept : BufferedStream W → Bytes → BufferedStream W
  unfolding write_full
  write_kept b buf =
      let b' = record b {
        write_buffer = copy_at b.write_len buf b.write_buffer;
        write_len = b.write_len + length buf;
      } in
      if b'.write_len == length b'.write_buffer then write_full b' else b'

  unfoldable pub write : BufferedStream W → Bytes → BufferedStream W
  unfolding write_through write_kept
  write b buf =
      if ltb (length b.write_buffer) (length buf + b.write_len)
      then write_through b buf
      else write_kept b buf

  flush_buffer : BufferedStream W → BufferedStream W
  flush_buffer b =
      if ltb 0 b.write_len
      then (let w1 =
            if b.writing_chunked_body
            then io.write b.wrapped (to_hex b.write_len ++ crlf)
            else b.wrapped in
          let w2 = io.write w1 (take b.write_len b.write_buffer) in
          let w3 = if b.writing_chunked_body then io.write w2 crlf else w2 in
          record b { wrapped = w3; write_len = 0 })
      else b

  unfoldable pub flush : BufferedStream W → BufferedStream W
  unfolding flush_buffer
  flush b =
      let b' = flush_buffer b in
      if b'.call_wrapped_flush then record b' { wrapped = io.flush b'.wrapped } else b'

  unfoldable pub finish_response : BufferedStream W → BufferedStream W
  unfolding flush
  finish_response b =
      let b' = flush b in
      if b'.writing_chunked_body
      then record b' { wrapped = io.write b'.wrapped (codes "0\r\n\r\n") }
      else b'
