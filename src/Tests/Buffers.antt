-- ===== src/Tests/Buffers.antt =====
-- Buffered streams.
use rust_http.Base.{
  ℕ, ◌≡◌, refl, true, false, none, some, List, [], ◌∷◌, ◌++◌, length, Bytes, codes, returns, arith,
}
use rust_http.Rfc2616.{cr, lf}
use rust_http.Buffer.{flush, finish_response}
use rust_http.Buffer.Input.{IsValid, Takes, read_byte_refines}
use rust_http.Buffer.Output.{sent, pending}
use rust_http.Buffer.Chunks.{
  ChunkedBody, write_all, concat, flush-write_all, finish_response-write_all,
}
use rust_http.Buffer.Reader.{read}
use rust_http.Buffer.Reader.Chunk.{at_chunk, read_past_chunk, read_exact_chunk}
use rust_http.Tests.Wire.{wire, wire-ReadLaws, wire-NeverEmpty, wire-WriteLaws, small_stream}

abbrev hello : List Bytes
hello = codes "hel" ∷ codes "lo, world" ∷ codes "!" ∷ []

finish_response-write_all_example :
    (out : Bytes) × (sent wire wire-WriteLaws
        (finish_response wire (write_all wire (small_stream [] true) hello))
      ≡ sent wire wire-WriteLaws (small_stream [] true) ++ out)
    × ChunkedBody out (pending (small_stream [] true) ++ concat hello)
unfolding concat
finish_response-write_all_example =
    finish_response-write_all wire wire-WriteLaws (small_stream [] true) hello (omega arith) refl
      (omega arith)

flush-write_all_example :
    sent wire wire-WriteLaws (flush wire (write_all wire (small_stream [] false) hello))
    ≡ sent wire wire-WriteLaws (small_stream [] false)
      ++ (pending (small_stream [] false) ++ concat hello)
flush-write_all_example =
    flush-write_all wire wire-WriteLaws (small_stream [] false) hello (omega arith) refl

small-IsValid : (l : Bytes) → IsValid wire wire-ReadLaws wire-NeverEmpty (small_stream l false)
small-IsValid l = record { ordered = omega arith; inside = omega arith; has_room = omega arith }

read_byte_refines_example :
    Takes wire wire-ReadLaws wire-NeverEmpty (small_stream (codes "GET /") false)
read_byte_refines_example =
    read_byte_refines wire wire-ReadLaws wire-NeverEmpty (small_stream (codes "GET /") false)
      (small-IsValid (codes "GET /"))

-- A stream that gives all it is asked for, and one that gives five bytes.
abbrev as_asked : Bytes → ℕ → ℕ
as_asked l n = n

abbrev by_five : Bytes → ℕ → ℕ
by_five l n = 5

read_past_chunk_example :
    read as_asked 64 (at_chunk (length (codes "hello")) (codes "hello" ++ cr ∷ lf ∷ codes "0"))
    ≡ returns (
      some (codes "hello" ++ cr ∷ []),
      record { reader = lf ∷ codes "0"; chunk_size = 1; finished = false },
    )
read_past_chunk_example =
    read_past_chunk as_asked (codes "hello") (codes "0") 64 (omega arith) (omega arith) refl

read_exact_chunk_example :
    read by_five 64 (at_chunk (length (codes "hello")) (codes "hello" ++ cr ∷ lf ∷ codes "0"))
    ≡ returns (none, record { reader = codes "0"; chunk_size = 0; finished = true })
read_exact_chunk_example =
    read_exact_chunk by_five (codes "hello") (codes "0") 64 (omega arith) (omega arith)
      (omega arith) refl
