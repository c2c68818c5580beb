-- ===== src/Headers/Readers/Commas.antt =====
-- `consume_comma_lws`, between the items of a list and at its end.
use rust_http.Base.{ℕ, ◌+◌, ◌<◌, ◌≡◌, subst, [], ◌∷◌, length, Bytes, arith}
use rust_http.Headers.Readers.{
  ◌>>=◌, pure, read_next, comma_consumed, end_of_value, consume_comma_lws, consume_optional_lws,
  after_comma,
}
use rust_http.Headers.Readers.Steps.{
  Reads, Reads-bind, Reads-pure, Reads-next_cons, Reads-next_nil, Reads-consume_optional_lws,
  drop_blanks,
}

-- Reading the comma behind an item, and the end of the list.
pub Reads-comma :
    (fuel : ℕ) (left : Bytes)
    → drop_blanks left ≡ left
    → length left + 2 < fuel
    → Reads (consume_comma_lws fuel) (b',' ∷ b' ' ∷ left) comma_consumed left
unfolding consume_comma_lws after_comma drop_blanks
Reads-comma fuel left starts room =
    Reads-bind (consume_optional_lws fuel) (λ _. read_next >>= λ b. after_comma fuel b)
      (Reads-consume_optional_lws fuel (b',' ∷ b' ' ∷ left) (omega arith))
      (Reads-bind read_next (λ b. after_comma fuel b) (Reads-next_cons b',' (b' ' ∷ left))
        (Reads-bind (consume_optional_lws fuel) (λ _. pure comma_consumed)
          (subst (λ l. Reads (consume_optional_lws fuel) (b' ' ∷ left) tt l) starts
            (Reads-consume_optional_lws fuel (b' ' ∷ left) (omega arith)))
          (Reads-pure comma_consumed left)))

pub Reads-list_end : (fuel : ℕ) → 0 < fuel → Reads (consume_comma_lws fuel) [] end_of_value []
unfolding consume_comma_lws after_comma drop_blanks
Reads-list_end fuel room =
    Reads-bind (consume_optional_lws fuel) (λ _. read_next >>= λ b. after_comma fuel b)
      (Reads-consume_optional_lws fuel [] room)
      (Reads-bind read_next (λ b. after_comma fuel b) Reads-next_nil (Reads-pure end_of_value []))
