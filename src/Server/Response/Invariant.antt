-- ===== src/Server/Response/Invariant.antt =====
-- The states of a response: whatever a handler does with it, the stream is in a chunked body from
-- the headers without a length on to `finish_response`, and at no other time.
use rust_http.Base.{
  ℕ, ◌≡◌, refl, sym, ap, subst, ◌∙◌, Bool, true, false, Option, none, some, length, Bytes, Text,
  as_bytes, returns, >>=-eq-returns, arith,
}
use rust_http.Stream.{Stream, WriteLaws}
use rust_http.Buffer.{BufferedStream}
use rust_http.Buffer
use rust_http.Buffer.Output.{IsWritable, write-Emits, flush-Emits}
use rust_http.Status.{Status}
use rust_http.Headers.Media.{MediaType}
use rust_http.Server.Response.{
  ResponseHeaders, ResponseWriter, new, status_line, with_coding, enter_body, send_headers,
  write_headers, try_write_headers, write, flush, write_content_auto, finish_response,
}
use rust_http.Server.Response.Coding.{write_all-IsWritable, write_all_mode}

-- How far a response is: its headers are not written; or they are, and its body goes out as it is,
-- or as chunks.
pub data Framing : Type 0 where
  unsent in_plain in_chunks : Framing

abbrev pub is_written : Framing → Bool
is_written unsent = false
is_written in_plain = true
is_written in_chunks = true

abbrev pub is_chunked : Framing → Bool
is_chunked unsent = false
is_chunked in_plain = false
is_chunked in_chunks = true

-- With headers of that length written, where they were not yet.
abbrev pub sent_with : Option ℕ → Framing → Framing
sent_with (some n) unsent = in_plain
sent_with none unsent = in_chunks
sent_with length in_plain = in_plain
sent_with length in_chunks = in_chunks

abbrev pub ended : Framing → Framing
ended unsent = unsent
ended in_plain = in_plain
ended in_chunks = in_plain

-- The headers are written once.
sent_once : (o o' : Option ℕ) (f : Framing) → sent_with o' (sent_with o f) ≡ sent_with o f
sent_once none o' unsent = refl
sent_once (some n) o' unsent = refl
sent_once o o' in_plain = refl
sent_once o o' in_chunks = refl

is_written-sent_with : (o : Option ℕ) (f : Framing) → is_written (sent_with o f) ≡ true
is_written-sent_with none unsent = refl
is_written-sent_with (some n) unsent = refl
is_written-sent_with o in_plain = refl
is_written-sent_with o in_chunks = refl

is_written-ended : (f : Framing) → is_written f ≡ is_written (ended f)
is_written-ended unsent = refl
is_written-ended in_plain = refl
is_written-ended in_chunks = refl

is_chunked-ended : (f : Framing) → false ≡ is_chunked (ended f)
is_chunked-ended unsent = refl
is_chunked-ended in_plain = refl
is_chunked-ended in_chunks = refl

returns_same : {A : Type 0} {a b : A} → returns a ≡ returns b → a ≡ b
returns_same e = cc

module _ {W : Type 0} (io : Stream W) (laws : WriteLaws io) where
  enter_body-IsWritable :
      (o : Option ℕ) (b : BufferedStream W) → IsWritable b → IsWritable (enter_body io o b)
  unfolding enter_body
  enter_body-IsWritable none b v = (flush-Emits io laws b v).writable
  enter_body-IsWritable (some n) b v = v

  enter_body_mode :
      (o : Option ℕ) (b : BufferedStream W)
      → b.writing_chunked_body ≡ false
      → (enter_body io o b).writing_chunked_body ≡ is_chunked (sent_with o unsent)
  unfolding enter_body
  enter_body_mode none b mode = refl
  enter_body_mode (some n) b mode = mode

  pub finish_response-IsWritable :
      (b : BufferedStream W) → IsWritable b → IsWritable (Buffer.finish_response io b)
  unfolding Buffer.finish_response
  finish_response-IsWritable b v = ground (arith, (flush-Emits io laws b v).writable)

module _ {W C R : Type 0} (io : Stream W) (laws : WriteLaws io) (collection : ResponseHeaders C)
    (print_u16 : ℕ → Text) where
  -- The stream can be written to, the headers are written, and the stream is in a chunked body,
  -- just as the framing says.
  pub record IsSound (f : Framing) (r : ResponseWriter W C R) : Type 0 where
    pub writable : IsWritable r.writer
    pub written : r.headers_written ≡ is_written f
    pub mode : r.writer.writing_chunked_body ≡ is_chunked f

  -- What the length is in the headers that stand in a response.
  abbrev pub length_in : ResponseWriter W C R → Option ℕ
  length_in r = collection.content_length r.headers

  -- What a handler can do with a response: set its status and its headers, and call its methods.
  -- The first call that writes the headers frames the body, by the length in the headers as it
  -- leaves them.
  pub data Step : Framing → ResponseWriter W C R → Framing → ResponseWriter W C R → Type 0 where
    set :
        (f : Framing) (r : ResponseWriter W C R) (status : Status) (headers : C)
        → Step f r f (record r { status = status; headers = headers })
    call_write_headers :
        (f : Framing) {r r' : ResponseWriter W C R}
        → write_headers io collection print_u16 r ≡ returns r'
        → Step f r (sent_with (length_in r') f) r'
    call_try_write_headers :
        (f : Framing) {r r' : ResponseWriter W C R}
        → try_write_headers io collection print_u16 r ≡ returns r'
        → Step f r (sent_with (length_in r') f) r'
    call_write :
        (f : Framing) {r r' : ResponseWriter W C R} (buf : Bytes)
        → write io collection print_u16 buf r ≡ returns r'
        → Step f r (sent_with (length_in r') f) r'
    call_write_content_auto :
        (f : Framing) {r r' : ResponseWriter W C R} (m : MediaType) (t : Text)
        → write_content_auto io collection print_u16 m t r ≡ returns r'
        → Step f r (sent_with (length_in r') f) r'
    call_flush :
        (f : Framing) (r : ResponseWriter W C R) → Step f r f (flush io collection print_u16 r)
    call_finish_response :
        (f : Framing) (r : ResponseWriter W C R)
        → Step f r (ended f) (finish_response io collection print_u16 r)

  pub data Reach (f : Framing) (r : ResponseWriter W C R)
      : Framing → ResponseWriter W C R → Type 0 where
    here : Reach f r f r
    next :
        {g h : Framing} {s t : ResponseWriter W C R} → Reach f r g s → Step g s h t → Reach f r h t

  send_headers-IsSound :
      (r r' : ResponseWriter W C R)
      → IsSound unsent r
      → send_headers io collection print_u16 r ≡ returns r'
      → IsSound (sent_with (length_in r') unsent) r'
  unfolding send_headers
  send_headers-IsSound r r' i e =
      let (s, _, e') = >>=-eq-returns (status_line print_u16 r.status) _ e in
      let (pieces, _, e'') =
        >>=-eq-returns (collection.writes (with_coding collection r.headers)) _ e' in
      let b = Buffer.write io r.writer s in
      let o = collection.content_length (with_coding collection r.headers) in
      let v = (write-Emits io laws r.writer s i.writable).writable in
      let mode =
        write_all_mode io laws b pieces v
        ∙ (write-Emits io laws r.writer s i.writable).same_mode
        ∙ i.mode in
      subst (λ x. IsSound (sent_with (length_in x) unsent) x) (returns_same e'')
        (record {
          writable = enter_body-IsWritable io laws o _ (write_all-IsWritable io laws b pieces v);
          written = sym (is_written-sent_with o unsent);
          mode = enter_body_mode io laws o _ mode;
        })

  write_headers-IsSound :
      (f : Framing) (r r' : ResponseWriter W C R)
      → IsSound f r
      → write_headers io collection print_u16 r ≡ returns r'
      → IsSound (sent_with (length_in r') f) r'
  unfolding write_headers
  write_headers-IsSound unsent r r' i e =
      let open_ = i.written in send_headers-IsSound r r' i (ground (arith, e, open_))
  write_headers-IsSound in_plain r r' i e = let over = i.written in absurd (ground (arith, e, over))
  write_headers-IsSound in_chunks r r' i e =
      let over = i.written in absurd (ground (arith, e, over))

  try_write_headers-IsSound :
      (f : Framing) (r r' : ResponseWriter W C R)
      → IsSound f r
      → try_write_headers io collection print_u16 r ≡ returns r'
      → IsSound (sent_with (length_in r') f) r'
  unfolding try_write_headers
  try_write_headers-IsSound unsent r r' i e =
      let open_ = i.written in write_headers-IsSound unsent r r' i (ground (arith, e, open_))
  try_write_headers-IsSound in_plain r r' i e =
      let over = i.written in
      let same : r ≡ r' = returns_same (ground (arith, e, over)) in subst (IsSound in_plain) same i
  try_write_headers-IsSound in_chunks r r' i e =
      let over = i.written in
      let same : r ≡ r' = returns_same (ground (arith, e, over)) in subst (IsSound in_chunks) same i

  write-IsSound :
      (f : Framing) (buf : Bytes) (r r' : ResponseWriter W C R)
      → IsSound f r
      → write io collection print_u16 buf r ≡ returns r'
      → IsSound (sent_with (length_in r') f) r'
  unfolding write
  write-IsSound f buf r r' i e =
      let (m, em, e') = >>=-eq-returns (try_write_headers io collection print_u16 r) _ e in
      let j = try_write_headers-IsSound f r m i em in
      let b = write-Emits io laws m.writer buf j.writable in
      subst (λ x. IsSound (sent_with (length_in x) f) x) (returns_same e')
        (record { writable = b.writable; written = j.written; mode = b.same_mode ∙ j.mode })

  write_written-headers :
      (buf : Bytes) (r r' : ResponseWriter W C R)
      → r.headers_written ≡ true
      → write io collection print_u16 buf r ≡ returns r'
      → r.headers ≡ r'.headers
  unfolding write
  write_written-headers buf r r' h e =
      let same : record r { writer = Buffer.write io r.writer buf } ≡ r' =
        returns_same (ground (arith, e, h)) in
      ap (λ (x : ResponseWriter W C R). x.headers) same

  write_content_auto-IsSound :
      (f : Framing) (m : MediaType) (t : Text) (r r' : ResponseWriter W C R)
      → IsSound f r
      → write_content_auto io collection print_u16 m t r ≡ returns r'
      → IsSound (sent_with (length_in r') f) r'
  unfolding write_content_auto
  write_content_auto-IsSound f m t r r' i e =
      let (mid, em, e') =
        >>=-eq-returns (write_headers io collection print_u16 _)
          (write io collection print_u16 (as_bytes t)) e in
      let full : ResponseWriter W C R = record r {
        headers =
            collection.set_content_length (length (as_bytes t))
              (collection.set_content_type m r.headers);
      } in
      let start : IsSound f full = record {
        writable = i.writable;
        written = i.written;
        mode = i.mode;
      } in
      let j = write_headers-IsSound f full mid start em in
      let k = write-IsSound (sent_with (length_in mid) f) (as_bytes t) mid r' j e' in
      let over = j.written ∙ is_written-sent_with (length_in mid) f in
      let same : length_in mid ≡ length_in r' =
        ap collection.content_length (write_written-headers (as_bytes t) mid r' over e') in
      subst (λ g. IsSound g r')
        (sent_once (length_in mid) (length_in r') f ∙ ap (λ o. sent_with o f) same) k

  -- The invariant holds through every step.
  Step-IsSound :
      {f g : Framing} {r r' : ResponseWriter W C R} → IsSound f r → Step f r g r' → IsSound g r'
  unfolding flush finish_response
  Step-IsSound i (set f r status headers) = record {
    writable = i.writable;
    written = i.written;
    mode = i.mode;
  }
  Step-IsSound i (call_write_headers f {r} {r'} e) = write_headers-IsSound f r r' i e
  Step-IsSound i (call_try_write_headers f {r} {r'} e) = try_write_headers-IsSound f r r' i e
  Step-IsSound i (call_write f {r} {r'} buf e) = write-IsSound f buf r r' i e
  Step-IsSound i (call_write_content_auto f {r} {r'} m t e) =
      write_content_auto-IsSound f m t r r' i e
  Step-IsSound i (call_flush f r) =
      let b = flush-Emits io laws r.writer i.writable in
      record { writable = b.writable; written = i.written; mode = b.same_mode ∙ i.mode }
  Step-IsSound i (call_finish_response f r) =
      let v = finish_response-IsWritable io laws r.writer i.writable in
      record { writable = v; written = i.written ∙ is_written-ended f; mode = is_chunked-ended f }

  -- From a response that is sound, as a new one is, and whatever a handler does that sets the
  -- public fields and calls the methods: the stream can be written to, the headers are written
  -- exactly if one of the calls wrote them, and the stream is in a chunked body exactly if that
  -- call left headers without a length and `finish_response` was not called since.
  pub Reach-IsSound :
      {f : Framing} {r : ResponseWriter W C R} {g : Framing} {r' : ResponseWriter W C R}
      → IsSound f r
      → Reach f r g r'
      → IsSound g r'
  Reach-IsSound i here = i
  Reach-IsSound i (next reach step) = Step-IsSound (Reach-IsSound i reach) step

  pub new-IsSound :
      (b : BufferedStream W) (request : R)
      → IsWritable b
      → b.writing_chunked_body ≡ false
      → IsSound unsent (new io collection print_u16 b request)
  unfolding new
  new-IsSound b request v mode = record { writable = v; written = refl; mode = mode }
