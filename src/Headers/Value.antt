-- ===== src/Headers/Value.antt =====
-- src/libhttp/headers/mod.rs: `HeaderValueByteIterator`, the bytes of one header value. The reader
-- behind it is the list of the bytes still to come.
pub mod View
pub mod Loops
pub mod Wire
pub mod Shrinking
use rust_http.Base.{
  ℕ, zero, suc, Bool, true, false, ◌||◌, Option, none, some, List, [], ◌∷◌, ◌==◌, if◌then◌else◌,
  Bytes, Run, returns, fails, runs_out, ◌>>=◌,
}
use rust_http.Rfc2616.{cr, lf, sp, ht}

pub data HeaderValueByteIteratorState : Type 0 where
  normal got_lf finished : HeaderValueByteIteratorState

pub record HeaderValueByteIterator : Type 0 where
  pub reader : Bytes
  pub next_byte : Option ℕ
  pub at_start : Bool
  pub state : HeaderValueByteIteratorState

abbrev pub new : Bytes → HeaderValueByteIterator
new reader = record { reader = reader; next_byte = none; at_start = true; state = normal }

-- `b == SP || b == HT`
abbrev pub is_blank : ℕ → Bool
is_blank b = b == sp || b == ht

-- What one round of the loop in `next` does with its byte: return it and leave the two fields so,
-- `continue` in a state, or keep it for later and end.
pub data Action : Type 0 where
  yield : Bool → Action
  skip : HeaderValueByteIteratorState → Action
  stop : Action

-- The `match self.state` of that round. The arm `Finished => unreachable!()` is not reached: `next`
-- returns before its loop in that state, and no `continue` sets it.
unfoldable pub on_byte : Bool → HeaderValueByteIteratorState → ℕ → Action
on_byte at_start normal b =
    if is_blank b
    then (if at_start then skip normal else yield at_start)
    else if b == cr
    then skip normal
    else if b == lf
    then skip got_lf
    else yield false
on_byte at_start got_lf b = if is_blank b then yield at_start else stop
on_byte at_start finished b = stop

-- The loop of `next`, on the bytes to come with a kept byte in front. Every byte that is returned
-- leaves the state `Normal`.
unfoldable pub next_from :
    Bool → HeaderValueByteIteratorState → Bytes → Option ℕ × HeaderValueByteIterator
unfolding on_byte
next_from at_start state [] =
    (none, record { reader = []; next_byte = none; at_start = at_start; state = finished })
next_from at_start state (b ∷ bs) = elim (on_byte at_start state b) [
  | yield start ↦
      (some b, record { reader = bs; next_byte = none; at_start = start; state = normal })
  | skip state' ↦ next_from at_start state' bs
  | stop ↦ (none, record { reader = bs; next_byte = some b; at_start = at_start; state = finished })
]

abbrev pub kept : Option ℕ → Bytes → Bytes
kept none bs = bs
kept (some b) bs = b ∷ bs

-- The bytes that are still to be looked at: the kept one, then the reader's.
abbrev pub pending : HeaderValueByteIterator → Bytes
pending it = kept it.next_byte it.reader

next_in :
    HeaderValueByteIteratorState → HeaderValueByteIterator → Option ℕ × HeaderValueByteIterator
next_in finished it = (none, it)
next_in normal it = next_from it.at_start normal (pending it)
next_in got_lf it = next_from it.at_start got_lf (pending it)

unfoldable pub next : HeaderValueByteIterator → Option ℕ × HeaderValueByteIterator
unfolding next_in next_from
next it = next_in it.state it

-- `assert_eq!(self.next_byte, None); self.next_byte = Some(b)`
put_back_in : Option ℕ → ℕ → HeaderValueByteIterator → Run HeaderValueByteIterator
put_back_in none b it = returns (record it { next_byte = some b })
put_back_in (some _) b it = fails

unfoldable pub put_back : ℕ → HeaderValueByteIterator → Run HeaderValueByteIterator
unfolding put_back_in
put_back b it = put_back_in it.next_byte b it

-- What the body of a `loop { match self.next() … }` does with a byte: go on in a state, return a
-- value, and either of these after putting the byte back.
pub data Turn (S A : Type 0) : Type 0 where
  again : S → Turn S A
  again_back : S → Turn S A
  leave : A → Turn S A
  leave_back : A → Turn S A

-- Such a loop, with fuel: `at_end` is the value that it returns when `next` answers `None`.
unfoldable pub each_byte :
    {S A : Type 0}
    → ℕ
    → (S → ℕ → Turn S A)
    → (S → A)
    → S
    → HeaderValueByteIterator
    → Run (A × HeaderValueByteIterator)
each_byte zero body at_end s it = runs_out
each_byte (suc fuel) body at_end s it =
    let (r, it') = next it in
    elim r [
      | none ↦ returns (at_end s, it')
      | some b ↦ elim (body s b) [
        | again s' ↦ each_byte fuel body at_end s' it'
        | again_back s' ↦ put_back b it' >>= λ it''. each_byte fuel body at_end s' it''
        | leave a ↦ returns (a, it')
        | leave_back a ↦ put_back b it' >>= λ it''. returns (a, it'')
      ]
    ]
