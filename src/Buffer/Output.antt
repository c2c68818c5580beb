-- ===== src/Buffer/Output.antt =====
-- What a `BufferedStream` sends: its writes in order, in one piece or as chunks.
use rust_http.Base.{
  ℕ, zero, suc, ◌+◌, ◌≤◌, ◌<◌, ◌≡◌, refl, sym, ap, ◌∙◌, Bool, true, false, [], ◌∷◌, ◌++◌,
  append-nil, append_assoc, length, take, drop, length-append, length-drop, length-take,
  take-append_length, take_all, Bytes, arith, if◌then◌else◌, ◌==◌, Bool-cases, ltb, ltb-false,
  ltb→lt, lt→ltb, inl, inr,
}
use rust_http.Stream.{Stream, WriteLaws}
use rust_http.Buffer.{
  BufferedStream, overwrite, copy_at, to_hex, crlf, write_through, write_full, write_kept, write,
  flush_buffer, flush,
}

length-copy_at :
    (at : ℕ) (src buf : Bytes)
    → at + length src ≤ length buf
    → length (copy_at at src buf) ≡ length buf
length-copy_at at src buf h = omega (
  arith,
  length-append (take at buf) (overwrite src (drop at buf)),
  length-append src (drop (length src) (drop at buf)),
  length-drop (length src) (drop at buf),
  length-drop at buf,
  length-take at buf,
)

take-copy_at :
    (at : ℕ) (src buf : Bytes)
    → at + length src ≤ length buf
    → take (at + length src) (copy_at at src buf) ≡ take at buf ++ src
take-copy_at at src buf h =
    ap (take (at + length src))
      (sym (append_assoc (take at buf) src (drop (length src) (drop at buf))))
    ∙ take-append_length (at + length src) (take at buf ++ src) (drop (length src) (drop at buf))
        (omega (arith, length-append (take at buf) src, length-take at buf))

-- How one piece of data is sent: as it is, or as a chunk. Nothing is sent for no data.
unfoldable pub framed : Bool → Bytes → Bytes
framed chunked [] = []
framed false (b ∷ bs) = b ∷ bs
framed true (b ∷ bs) = to_hex (length (b ∷ bs)) ++ (crlf ++ ((b ∷ bs) ++ crlf))

-- The size line in front of a chunk, and the line end behind it.
abbrev size_line : Bool → ℕ → Bytes
size_line true n = to_hex n ++ crlf
size_line false n = []

abbrev line_end : Bool → Bytes
line_end true = crlf
line_end false = []

framed_ne :
    (chunked : Bool) (c : Bytes)
    → 0 < length c
    → framed chunked c ≡ size_line chunked (length c) ++ (c ++ line_end chunked)
unfolding framed
framed_ne chunked [] h = absurd (omega arith)
framed_ne true (b ∷ bs) h = sym (append_assoc (to_hex (length (b ∷ bs))) crlf ((b ∷ bs) ++ crlf))
framed_ne false (b ∷ bs) h = sym (append-nil (b ∷ bs))

pub framed_plain : (c : Bytes) → framed false c ≡ c
unfolding framed
framed_plain [] = refl
framed_plain (b ∷ bs) = refl

-- The bytes that wait in the buffer.
abbrev pub pending : {W : Type 0} → BufferedStream W → Bytes
pending b = take b.write_len b.write_buffer

-- The invariant of the writing side: there is room for a byte more.
abbrev pub IsWritable : {W : Type 0} → BufferedStream W → Type 0
IsWritable b = b.write_len < length b.write_buffer

module _ {W : Type 0} (io : Stream W) (laws : WriteLaws io) where
  abbrev pub sent : BufferedStream W → Bytes
  sent b = laws.outgoing b.wrapped

  -- From `b` to `b'` one piece `piece` was sent, after `buf` had been put behind what waited.
  pub record Emits (b : BufferedStream W) (buf : Bytes) (b' : BufferedStream W) : Type 0 where
    pub piece : Bytes
    pub sends : sent b' ≡ sent b ++ framed b.writing_chunked_body piece
    pub keeps : piece ++ pending b' ≡ pending b ++ buf
    pub writable : IsWritable b'
    pub same_mode : b'.writing_chunked_body ≡ b.writing_chunked_body

  -- The three conditional writes that the code is made of.
  size_line-outgoing :
      (w : W) (chunked : Bool) (n : ℕ)
      → laws.outgoing (if chunked then io.write w (to_hex n ++ crlf) else w)
        ≡ laws.outgoing w ++ size_line chunked n
  size_line-outgoing w true n = laws.write_outgoing w (to_hex n ++ crlf)
  size_line-outgoing w false n = sym (append-nil (laws.outgoing w))

  line_end-outgoing :
      (w : W) (chunked : Bool)
      → laws.outgoing (if chunked then io.write w crlf else w) ≡ laws.outgoing w ++ line_end chunked
  line_end-outgoing w true = laws.write_outgoing w crlf
  line_end-outgoing w false = sym (append-nil (laws.outgoing w))

  pending-outgoing :
      (w : W) (n : ℕ) (buf : Bytes)
      → laws.outgoing (if ltb 0 n then io.write w (take n buf) else w)
        ≡ laws.outgoing w ++ take n buf
  pending-outgoing w zero buf = sym (append-nil (laws.outgoing w))
  pending-outgoing w (suc n) buf =
      rw (lt→ltb 0 (suc n) (omega arith)) (laws.write_outgoing w (take (suc n) buf))

  length-pending :
      (b : BufferedStream W)
      → b.write_len ≤ length b.write_buffer
      → length (pending b) ≡ b.write_len
  length-pending b v = omega (arith, length-take b.write_len b.write_buffer)

  write_through-outgoing :
      (b : BufferedStream W) (buf : Bytes)
      → IsWritable b
      → 0 < length (pending b ++ buf)
      → sent (write_through io b buf) ≡ sent b ++ framed b.writing_chunked_body (pending b ++ buf)
  unfolding write_through
  write_through-outgoing b buf v h =
      let size : b.write_len + length buf ≡ length (pending b ++ buf) =
        omega (arith, length-append (pending b) buf, length-pending b (omega arith)) in
      line_end-outgoing _ b.writing_chunked_body
      ∙ simp (
        laws.write_outgoing,
        pending-outgoing,
        size_line-outgoing,
        framed_ne b.writing_chunked_body (pending b ++ buf) h,
        size,
        append_assoc,
      )

  write_full-outgoing :
      (b : BufferedStream W) (chunked : Bool)
      → b.writing_chunked_body ≡ chunked
      → b.write_len ≡ length b.write_buffer
      → 0 < b.write_len
      → sent (write_full io b) ≡ sent b ++ framed chunked b.write_buffer
  unfolding write_full
  write_full-outgoing b true mode full h =
      rw mode (
        simp (laws.write_outgoing, full, framed_ne true b.write_buffer (omega arith), append_assoc))
  write_full-outgoing b false mode full h = rw mode (simp (laws.write_outgoing, framed_plain))

  -- Nothing is sent.
  emits_nothing :
      (b : BufferedStream W) (buf : Bytes) (b' : BufferedStream W)
      → b'.wrapped ≡ b.wrapped
      → pending b' ≡ pending b ++ buf
      → IsWritable b'
      → b'.writing_chunked_body ≡ b.writing_chunked_body
      → Emits b buf b'
  unfolding framed
  emits_nothing b buf b' same kept v mode = record {
    piece = [];
    sends = ap (λ w. laws.outgoing w) same ∙ sym (append-nil (sent b));
    keeps = kept;
    writable = v;
    same_mode = mode;
  }

  write_kept-Emits :
      (b : BufferedStream W) (buf : Bytes)
      → IsWritable b
      → length buf + b.write_len ≤ length b.write_buffer
      → Emits b buf (write_kept io b buf)
  unfolding write_kept
  write_kept-Emits b buf v h =
      let filled = copy_at b.write_len buf b.write_buffer in
      let at_end = b.write_len + length buf in
      let size = length-copy_at b.write_len buf b.write_buffer (omega arith) in
      let front = take-copy_at b.write_len buf b.write_buffer (omega arith) in
      let b' = record b { write_buffer = filled; write_len = at_end } in
      elim (Bool-cases (at_end == length filled)) [
        | inl full ↦ rw full record {
          piece = filled;
          sends = write_full-outgoing b' b.writing_chunked_body refl (ground arith) (ground arith);
          keeps = append-nil filled ∙ sym (take_all at_end filled (ground arith)) ∙ front;
          writable = ground arith;
          same_mode = refl;
        }
        | inr room ↦ rw room (emits_nothing b buf b' refl front (ground arith) refl)
      ]

  pub write-Emits :
      (b : BufferedStream W) (buf : Bytes) → IsWritable b → Emits b buf (write io b buf)
  unfolding write write_through
  write-Emits b buf v = elim (Bool-cases (ltb (length b.write_buffer) (length buf + b.write_len))) [
    | inl big ↦ rw big record {
      piece = pending b ++ buf;
      sends = write_through-outgoing b buf v (
          omega
            (arith, ltb→lt _ _ big, length-append (pending b) buf, length-pending b (omega arith)));
      keeps = append-nil (pending b ++ buf);
      writable = omega arith;
      same_mode = refl;
    }
    | inr small ↦ rw small (write_kept-Emits b buf v (ltb-false _ _ small))
  ]

  flush_buffer-Emits : (b : BufferedStream W) → IsWritable b → Emits b [] (flush_buffer io b)
  unfolding flush_buffer
  flush_buffer-Emits b v =
      let size = length-pending b (omega arith) in
      elim (Bool-cases (ltb 0 b.write_len)) [
        | inl some_wait ↦ rw some_wait record {
          piece = pending b;
          sends =
              line_end-outgoing _ b.writing_chunked_body
              ∙ simp (
                laws.write_outgoing,
                size_line-outgoing,
                framed_ne b.writing_chunked_body (pending b) (omega (arith, ltb→lt _ _ some_wait)),
                size,
                append_assoc,
              );
          keeps = refl;
          writable = omega arith;
          same_mode = refl;
        }
        | inr none_wait ↦
            rw none_wait (emits_nothing b [] b refl (sym (append-nil (pending b))) v refl)
      ]

  -- A flush keeps nothing back.
  flush_buffer_empties : (b : BufferedStream W) → (flush_buffer io b).write_len ≡ 0
  unfolding flush_buffer
  flush_buffer_empties b = ground arith

  pub flush-Emits : (b : BufferedStream W) → IsWritable b → Emits b [] (flush io b)
  unfolding flush
  flush-Emits b v =
      let e = flush_buffer-Emits b v in
      let b' = flush_buffer io b in
      elim (Bool-cases b'.call_wrapped_flush) [
        | inl passed_on ↦ rw passed_on record {
          piece = e.piece;
          sends = laws.flush_outgoing b'.wrapped ∙ e.sends;
          keeps = e.keeps;
          writable = e.writable;
          same_mode = e.same_mode;
        }
        | inr kept_here ↦ rw kept_here e
      ]

  pub flush_empties : (b : BufferedStream W) → (flush io b).write_len ≡ 0
  unfolding flush
  flush_empties b = ground (arith, flush_buffer_empties b)
