-- ===== src/Headers/Lines/Shrinking.antt =====
-- Reading a header line takes a byte at least from a stream that has one.
use rust_http.Base.{
  ℕ, ◌≤◌, ◌≡◌, refl, Bool, true, false, ◌&&◌, Option, none, some, [], ◌∷◌, ◌++◌, ◌==◌,
  if◌then◌else◌, length, Bytes, Text, Run, returns, fails, runs_out, ◌>>=◌, Result, err, arith,
}
use rust_http.Rfc2616.{cr, lf, sp, colon, is_token_item}
use rust_http.Headers.Value.{HeaderValueByteIterator, pending, kept, again, each_byte}
use rust_http.Headers.Value as Value
use rust_http.Headers.Value.Shrinking.{IsWithin, IsShrinking, each_byte-IsShrinking}
use rust_http.Headers.Serialization.{normalise_header_name}
use rust_http.Headers.Lines.{
  HeaderLineErr, end_of_file, end_of_headers, malformed_header_syntax, HeaderEnum, State, start,
  reading_name, name_finished, got_cr, LineName, named, line_err, reads_name, is_start, may_end,
  name_loop, drain, line_of, from_name, header_enum_from_stream, read_header,
}

abbrev IsNameWithin : ℕ → LineName → Type 0
IsNameWithin n (named name l) = length l ≤ n
IsNameWithin n (line_err e l) = length l ≤ n

either_within :
    (n : ℕ) (b : Bool) (x y : LineName)
    → IsNameWithin n x
    → IsNameWithin n y
    → IsNameWithin n (elim b [ true ↦ x | false ↦ y ])
either_within n true x y h k = h
either_within n false x y h k = k

if_within :
    (n : ℕ) (b : Bool) (x y : LineName)
    → IsNameWithin n x
    → IsNameWithin n y
    → IsNameWithin n (if b then x else y)
if_within n true x y h k = h
if_within n false x y h k = k

name_step_within :
    (n : ℕ) (state : State) (name : Text) (b : ℕ) (bs : Bytes)
    → length bs ≤ n
    → ((s : State) (t : Text) → IsNameWithin n (name_loop s t bs))
    → IsNameWithin n (name_loop state name (b ∷ bs))
unfolding name_loop
name_step_within n state name b bs h go =
    either_within n (reads_name state && is_token_item b) _ _ (go reading_name (name ++ b ∷ [])) (
      either_within n (is_start state && b == cr) _ _ (go got_cr name) (
        either_within n (may_end state && b == lf) (line_err end_of_headers bs) _ h (
          either_within n (b == sp) _ _ (go name_finished name)
            (if_within n (b == colon) (named name bs) (line_err malformed_header_syntax bs) h h))))

name_loop_within :
    (n : ℕ) (l : Bytes) → length l ≤ n → (s : State) (t : Text) → IsNameWithin n (name_loop s t l)
name_loop_within n [] h s t = unfold name_loop in h
name_loop_within n (b ∷ bs) h s t =
    name_step_within n s t b bs (omega arith) (name_loop_within n bs (omega arith))

module _ {E : Type 0} where
  -- A run that leaves at most `n` bytes, the next byte counted.
  abbrev IsLineWithin : ℕ → Run ((Result E HeaderLineErr × Option ℕ) × Bytes) → Type 0
  IsLineWithin n (returns p) = length (kept p.0.1 p.1) ≤ n
  IsLineWithin n fails = Unit
  IsLineWithin n runs_out = Unit

  abbrev pub IsReadWithin : ℕ → Run (Result E HeaderLineErr × Bytes) → Type 0
  IsReadWithin n (returns p) = length p.1 ≤ n
  IsReadWithin n fails = Unit
  IsReadWithin n runs_out = Unit

  iterated_within :
      {A : Type 0} (n : ℕ) (r : Run (A × HeaderValueByteIterator))
      (f : A × HeaderValueByteIterator → Run ((Result E HeaderLineErr × Option ℕ) × Bytes))
      → IsWithin n r
      → ((a : A) (it : HeaderValueByteIterator)
          → length (pending it) ≤ n
          → IsLineWithin n (f (a, it)))
      → IsLineWithin n (r >>= f)
  iterated_within n (returns (a, it)) f h k = k a it h
  iterated_within n fails f h k = tt
  iterated_within n runs_out f h k = tt

  named_within :
      (n : ℕ) (r : Run Text) (f : Text → Run ((Result E HeaderLineErr × Option ℕ) × Bytes))
      → ((t : Text) → IsLineWithin n (f t))
      → IsLineWithin n (r >>= f)
  named_within n (returns t) f h = h t
  named_within n fails f h = tt
  named_within n runs_out f h = tt

  line_of_within :
      (n : ℕ) (o : Option E) (it : HeaderValueByteIterator)
      → length (pending it) ≤ n
      → IsLineWithin n (returns (line_of o it))
  unfolding line_of
  line_of_within n none it h = h
  line_of_within n (some e) it h = h

  poked_within :
      (n : ℕ) (r : Run ((Result E HeaderLineErr × Option ℕ) × Bytes))
      → IsLineWithin n r
      → IsReadWithin n (r >>= λ p. returns (p.0.0, kept p.0.1 p.1))
  poked_within n (returns p) h = h
  poked_within n fails h = tt
  poked_within n runs_out h = tt

module _ {E : Type 0} (enum : HeaderEnum E) (fuel : ℕ)
    (h : (name : Text) → IsShrinking (enum.value_from_stream fuel name)) where
  from_name_within :
      (n : ℕ) (x : LineName) → IsNameWithin n x → IsLineWithin n (from_name enum fuel x)
  unfolding from_name drain
  from_name_within n (line_err e l) k = k
  from_name_within n (named name l) k = named_within n (normalise_header_name name) _ (λ t.
      iterated_within n (enum.value_from_stream fuel t (Value.new l)) _
        ((h t).within n (Value.new l) k)
        (λ o it m.
          iterated_within n (drain fuel it) _
            ((each_byte-IsShrinking (λ _ _. again tt) (λ _. tt) fuel tt).within n it m)
            (λ _ it' m'. line_of_within n o it' m')))

  pub read_header-IsReadWithin :
      (b : ℕ) (bs : Bytes) → IsReadWithin (length bs) (read_header enum fuel (b ∷ bs))
  unfolding read_header header_enum_from_stream
  read_header-IsReadWithin b bs =
      poked_within (length bs) (from_name enum fuel (name_loop start [] (b ∷ bs))) (
        from_name_within (length bs) (name_loop start [] (b ∷ bs)) (
          name_step_within (length bs) start [] b bs (omega arith)
            (name_loop_within (length bs) bs (omega arith))))

pub read_header-nil :
    {E : Type 0} (enum : HeaderEnum E) (fuel : ℕ)
    → read_header enum fuel [] ≡ returns (err end_of_file, [])
unfolding read_header header_enum_from_stream from_name name_loop
read_header-nil enum fuel = refl
