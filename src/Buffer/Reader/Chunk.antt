-- ===== src/Buffer/Reader/Chunk.antt =====
-- How `ChunkedReader` reads a well-formed chunk.
use rust_http.Base.{
  ℕ, ◌+◌, ◌-◌, ◌%◌, ◌^◌, ◌≤◌, ◌<◌, ◌≡◌, refl, sym, ap, ap₂, subst, ◌∙◌, min, true, false, none,
  some, [], ◌∷◌, ◌++◌, ltb, ◌==◌, ==_refl, append_assoc, length, length-append, take-append_length,
  drop-append_length, Bytes, returns, arith,
}
use rust_http.Rfc2616.{cr, lf}
use rust_http.Buffer.Reader.{
  ChunkedReader, chunk_end, read_some, after_read, read_part, read_chunk, read,
}

-- A reader before a chunk of which `n` bytes are left.
abbrev pub at_chunk : ℕ → Bytes → ChunkedReader
at_chunk n l = record { reader = l; chunk_size = n + 2; finished = false }

module _ (size : Bytes → ℕ → ℕ) where
  read_some-front :
      (front back : Bytes) (n : ℕ)
      → 0 < length front
      → length front ≤ n
      → size (front ++ back) n ≡ length front
      → read_some size n (front ++ back) ≡ (some front, back)
  unfolding read_some
  read_some-front [] back n h k e = absurd (omega arith)
  read_some-front (b ∷ bs) back n h k e =
      let taken : min (size (b ∷ (bs ++ back)) n) n ≡ length (b ∷ bs) = omega arith in
      ap₂ (λ x y. (some x, y)) (take-append_length _ (b ∷ bs) back taken)
        (drop-append_length _ (b ∷ bs) back taken)

  read-some_size :
      (buf_len : ℕ) (c : ChunkedReader)
      → c.finished ≡ false
      → (c.chunk_size == 0) ≡ false
      → read size buf_len c ≡ read_chunk size buf_len c
  unfolding read
  read-some_size buf_len c going some_size = ground (arith, going, some_size)

  read_part-fits :
      (available end buf_len : ℕ) (c : ChunkedReader)
      → ltb buf_len end ≡ false
      → read_part size available end buf_len c
        ≡ returns (after_read size available c (read_some size end c.reader))
  unfolding read_part
  read_part-fits available end buf_len c fits = rw fits refl

  read-at_chunk :
      (n buf_len : ℕ) (l : Bytes)
      → n < buf_len
      → buf_len < 2 ^ 63
      → read size buf_len (at_chunk n l)
        ≡ returns (after_read size n (at_chunk n l) (read_some size (n + 1) l))
  unfolding read_chunk
  read-at_chunk n buf_len l room small =
      let left : (n + 2 + 2 ^ 64 - 2) % 2 ^ 64 ≡ n = omega arith in
      let end : (min n buf_len + 1) % 2 ^ 64 ≡ n + 1 = omega arith in
      let some_size : (n + 2 == 0) ≡ false = ground arith in
      let fits : ltb buf_len (n + 1) ≡ false = ground arith in
      read-some_size buf_len (at_chunk n l) refl some_size
      ∙ ap (λ a. read_part size a ((min a buf_len + 1) % 2 ^ 64) buf_len (at_chunk n l)) left
      ∙ ap (λ e. read_part size n e buf_len (at_chunk n l)) end
      ∙ read_part-fits n (n + 1) buf_len (at_chunk n l) fits

  -- On a chunk with CR LF behind it, and a buffer with room for more than the chunk, a read that
  -- the stream answers with all that it is asked for returns a byte too many, the CR, and leaves
  -- the reader inside a chunk of size 1.
  pub read_past_chunk :
      (chunk rest : Bytes) (buf_len : ℕ)
      → length chunk < buf_len
      → buf_len < 2 ^ 63
      → size (chunk ++ cr ∷ lf ∷ rest) (length chunk + 1) ≡ length chunk + 1
      → read size buf_len (at_chunk (length chunk) (chunk ++ cr ∷ lf ∷ rest))
        ≡ returns (
          some (chunk ++ cr ∷ []),
          record { reader = lf ∷ rest; chunk_size = 1; finished = false },
        )
  unfolding after_read
  read_past_chunk chunk rest buf_len room small asked =
      let n = length chunk in
      let more : length (chunk ++ cr ∷ []) ≡ n + 1 = length-append chunk (cr ∷ []) in
      let seen : read_some size (n + 1) (chunk ++ cr ∷ lf ∷ rest)
          ≡ (some (chunk ++ cr ∷ []), lf ∷ rest) =
        subst (λ l. read_some size (n + 1) l ≡ (some (chunk ++ cr ∷ []), lf ∷ rest))
          (append_assoc chunk (cr ∷ []) (lf ∷ rest))
          (read_some-front (chunk ++ cr ∷ []) (lf ∷ rest) (n + 1) (omega arith) (omega arith) (
            ap (λ l. size l (n + 1)) (append_assoc chunk (cr ∷ []) (lf ∷ rest))
            ∙ asked
            ∙ sym more)) in
      read-at_chunk n buf_len (chunk ++ cr ∷ lf ∷ rest) room small ∙ rw seen (ground (arith, more))

  -- On such a chunk, where the stream answers with just the bytes of the chunk, `read` takes the CR
  -- LF behind them for an error: it returns nothing, and the reader is finished.
  pub read_exact_chunk :
      (chunk rest : Bytes) (buf_len : ℕ)
      → 0 < length chunk
      → length chunk < buf_len
      → buf_len < 2 ^ 63
      → size (chunk ++ cr ∷ lf ∷ rest) (length chunk + 1) ≡ length chunk
      → read size buf_len (at_chunk (length chunk) (chunk ++ cr ∷ lf ∷ rest))
        ≡ returns (none, record { reader = rest; chunk_size = 0; finished = true })
  unfolding after_read chunk_end
  read_exact_chunk chunk rest buf_len some_data room small exact =
      let n = length chunk in
      read-at_chunk n buf_len (chunk ++ cr ∷ lf ∷ rest) room small
      ∙ rw (read_some-front chunk (cr ∷ lf ∷ rest) (n + 1) some_data (omega arith) exact, ==_refl n)
          refl
