-- ===== src/Headers/Readers/Steps.antt =====
-- The readers of a header value, over the list of the bytes that `next` returns: each returns, with
-- more fuel than the value has bytes.
use rust_http.Base.{
  ℕ, ◌<◌, ◌≡◌, ◌≢◌, refl, ap, subst, Bool, true, false, none, some, [], ◌∷◌, inl, inr, length,
  Bytes, returns, arith, if◌then◌else◌, Bool-cases,
}
use rust_http.Headers.Value.{HeaderValueByteIterator, is_blank, Turn, again_back, each_byte}
use rust_http.Headers.Value.View.{value, IsSteady}
use rust_http.Headers.Value.Loops.{
  each_in, Returns, next_cons, next_nil, each_byte-Returns, IsSteady-started, IsSteady-nil,
}
use rust_http.Headers.Readers.{
  Reading, ◌>>=◌, read_next, pure, is_end, lws_body, consume_optional_lws, verify_consumed,
  some_if_consumed,
}

-- A reader, started on any steady iterator whose value is `v`, returns `a` and leaves `left`.
abbrev pub Reads : {A : Type 0} → Reading A → Bytes → A → Bytes → Type 0
Reads m v a left =
    (it : HeaderValueByteIterator) (rest : Bytes)
    → value it ≡ (v, rest)
    → IsSteady it
    → Returns (m it) (a, left) rest

pub Reads-bind :
    {A B : Type 0} (m : Reading A) (f : A → Reading B) {v mid left : Bytes} {a : A} {b : B}
    → Reads m v a mid
    → Reads (f a) mid b left
    → Reads (m >>= f) v b left
Reads-bind m f p q it rest e s =
    let r = p it rest e s in
    let r' = q r.after rest r.left r.steady in
    record {
      after = r'.after;
      returned = ground (arith, r.returned, r'.returned);
      left = r'.left;
      steady = r'.steady;
    }

pub Reads-pure : {A : Type 0} (a : A) (v : Bytes) → Reads (pure a) v a v
Reads-pure a v it rest e s = record { after = it; returned = refl; left = e; steady = s }

pub Reads-next_cons : (b : ℕ) (v : Bytes) → Reads read_next (b ∷ v) (some b) v
Reads-next_cons b v it rest e s =
    let (it', found, left, started, _) = next_cons it b v rest e s in
    record {
      after = it';
      returned = ap returns found;
      left = left;
      steady = IsSteady-started it' started;
    }

pub Reads-next_nil : Reads read_next [] none []
Reads-next_nil it rest e s =
    let (it', found, left) = next_nil it rest e in
    record {
      after = it';
      returned = ap returns found;
      left = left;
      steady = IsSteady-nil it' rest left;
    }

pub Reads-each_byte :
    {S A : Type 0} (fuel : ℕ) (body : S → ℕ → Turn S A) (at_end : S → A) (s : S) (v : Bytes)
    → ((t t' : S) (b : ℕ) → body t b ≢ again_back t')
    → length v < fuel
    → Reads (each_byte fuel body at_end s) v (each_in body at_end s v).0 (each_in body at_end s v).1
Reads-each_byte fuel body at_end s v moves room it rest e steady =
    each_byte-Returns fuel body at_end s it v rest moves e steady room

-- The value behind its leading white space.
unfoldable pub drop_blanks : Bytes → Bytes
drop_blanks [] = []
drop_blanks (b ∷ bs) = let rest = drop_blanks bs in if is_blank b then rest else b ∷ bs

each_in-lws : (v : Bytes) (g : Bool) → (each_in lws_body (λ x. x) g v).1 ≡ drop_blanks v
unfolding each_in drop_blanks
each_in-lws [] g = refl
each_in-lws (b ∷ bs) g = elim (Bool-cases (is_blank b)) [
  | inl h ↦ rw (h, each_in) (each_in-lws bs true)
  | inr h ↦ rw (h, each_in) refl
]

lws_moves : (t t' : Bool) (b : ℕ) → lws_body t b ≢ again_back t'
lws_moves t t' b e = ground arith

pub Reads-consume_optional_lws :
    (fuel : ℕ) (v : Bytes)
    → length v < fuel
    → Reads (consume_optional_lws fuel) v tt (drop_blanks v)
unfolding consume_optional_lws
Reads-consume_optional_lws fuel v room =
    Reads-bind (each_byte fuel lws_body (λ x. x) false) (λ _. pure tt)
      (subst
        (λ l.
          Reads (each_byte fuel lws_body (λ x. x) false) v (each_in lws_body (λ x. x) false v).0 l)
        (each_in-lws v false) (Reads-each_byte fuel lws_body (λ x. x) false v lws_moves room))
      (Reads-pure tt (drop_blanks v))

-- `verify_consumed` answers whether anything but white space is left.
abbrev pub is_empty : Bytes → Bool
is_empty [] = true
is_empty (b ∷ bs) = false

abbrev pub tail : Bytes → Bytes
tail [] = []
tail (b ∷ bs) = bs

Reads-verify_end : (l : Bytes) → Reads (read_next >>= λ b. pure (is_end b)) l (is_empty l) (tail l)
Reads-verify_end [] =
    Reads-bind read_next (λ b. pure (is_end b)) Reads-next_nil (Reads-pure true [])
Reads-verify_end (b ∷ bs) =
    Reads-bind read_next (λ c. pure (is_end c)) (Reads-next_cons b bs) (Reads-pure false bs)

Reads-verify_consumed :
    (fuel : ℕ) (v : Bytes)
    → length v < fuel
    → Reads (verify_consumed fuel) v (is_empty (drop_blanks v)) (tail (drop_blanks v))
unfolding verify_consumed
Reads-verify_consumed fuel v room =
    Reads-bind (consume_optional_lws fuel) (λ _. read_next >>= λ b. pure (is_end b))
      (Reads-consume_optional_lws fuel v room) (Reads-verify_end (drop_blanks v))

-- `some_if_consumed` keeps its value exactly if nothing but white space is left.
pub Reads-some_if_consumed :
    {T : Type 0} (fuel : ℕ) (t : T) (v : Bytes)
    → length v < fuel
    → Reads
        (some_if_consumed fuel t)
        v
        (if is_empty (drop_blanks v) then some t else none)
        (tail (drop_blanks v))
unfolding some_if_consumed
Reads-some_if_consumed fuel t v room =
    Reads-bind (verify_consumed fuel) (λ c. pure (if c then some t else none))
      (Reads-verify_consumed fuel v room) (Reads-pure _ _)
