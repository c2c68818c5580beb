-- ===== src/Client/Response/Digits.antt =====
-- The status code and the reason of a response, as `construct` reads them.
use rust_http.Base.{
  ℕ, zero, suc, ◌+◌, ◌-◌, ◌*◌, ◌%◌, ◌^◌, ◌≤◌, ◌<◌, ◌≡◌, ◌≢◌, ◌↔◌, refl, sym, ap, ◌∙◌, inl, inr,
  true, false, ◌&&◌, Option, none, some, [], ◌∷◌, ◌++◌, append_assoc, append-nil, ◌==◌, leb,
  if◌then◌else◌, Bool-cases, All, length, Bytes, Text, arith,
}
use rust_http.Rfc2616.{cr, lf, sp}
use rust_http.Common.Decimal.{IsDecimal, decimal}
use rust_http.Client.Response.{status_loop, reason_loop}

-- What the loop over the status code accepts, with `room` digits to come.
pub record ReadsCode (room code : ℕ) (l : Bytes) (m : ℕ) (rest : Bytes) : Type 0 where
  pub written : Bytes
  pub splits : l ≡ written ++ sp ∷ rest
  pub all_digits : IsDecimal written
  pub fits : length written ≤ room
  pub value : m ≡ decimal code written

-- What the code is below, with so many digits to come.
below : ℕ → ℕ
below zero = 1000
below (suc zero) = 100
below (suc (suc zero)) = 10
below (suc (suc (suc _))) = 1

below_step :
    (k code b : ℕ)
    → suc k ≤ 3
    → code < below (suc k)
    → b'0' ≤ b
    → b ≤ b'9'
    → code * 10 + b - b'0' < below k
unfolding below
below_step zero code b h c lo hi = omega arith
below_step (suc zero) code b h c lo hi = omega arith
below_step (suc (suc zero)) code b h c lo hi = omega arith
below_step (suc (suc (suc k))) code b h c lo hi = absurd (omega arith)

below_max : (k : ℕ) → below k ≤ 1000
unfolding below
below_max zero = omega arith
below_max (suc zero) = omega arith
below_max (suc (suc zero)) = omega arith
below_max (suc (suc (suc k))) = omega arith

-- A digit is taken up without wrapping.
next_code :
    (code b : ℕ)
    → code < 1000
    → b'0' ≤ b
    → b ≤ b'9'
    → (code * 10 + b + 2 ^ 16 - b'0') % 2 ^ 16 ≡ code * 10 + b - b'0'
next_code code b h lo hi = omega arith

-- A byte that is no digit.
abbrev after_code : ℕ → ℕ → Bytes → Option (ℕ × Bytes)
after_code b code l = if b == sp then some (code, l) else none

digit_step :
    (d code b : ℕ) (l : Bytes)
    → d < 4
    → code < 1000
    → (leb b'0' b && leb b b'9') ≡ true
    → status_loop d code (b ∷ l) ≡ status_loop (d + 1) (code * 10 + b - b'0') l
unfolding status_loop
digit_step d code b l h c digit =
    let lo : b'0' ≤ b = ground (arith, digit) in
    let hi : b ≤ b'9' = ground (arith, digit) in
    let count : (d + 1) % 2 ^ 8 ≡ d + 1 = omega arith in
    let value = next_code code b c lo hi in
    let more : (d == 4) ≡ false = ground arith in rw (more, digit, count, value) refl

other_step :
    (d code b : ℕ) (l : Bytes)
    → d < 4
    → (leb b'0' b && leb b b'9') ≡ false
    → status_loop d code (b ∷ l) ≡ after_code b code l
unfolding status_loop
other_step d code b l h other = ground (arith, other)

past_four : (code : ℕ) (l : Bytes) → status_loop 4 code l ≡ none
unfolding status_loop
past_four code [] = refl
past_four code (b ∷ l) = refl

complete :
    (k d code : ℕ) (written rest : Bytes)
    → d + k ≡ 3
    → code < below k
    → IsDecimal written
    → length written ≤ k
    → status_loop d code (written ++ sp ∷ rest) ≡ some (decimal code written, rest)
complete k d code [] rest h c digits fits = other_step d code sp rest (omega arith) refl
complete zero d code (b ∷ bs) rest h c digits fits = absurd (omega arith)
complete (suc k) d code (b ∷ bs) rest h c (digit, digits) fits =
    let lo : b'0' ≤ b = ground (arith, digit) in
    let hi : b ≤ b'9' = ground (arith, digit) in
    digit_step d code b (bs ++ sp ∷ rest) (omega arith) (omega (arith, below_max (suc k))) digit
    ∙ complete k (d + 1) (code * 10 + b - b'0') bs rest (omega arith)
        (below_step k code b (omega arith) c lo hi) digits (omega arith)

ends_here :
    (room code b : ℕ) (l : Bytes) (m : ℕ) (rest : Bytes)
    → after_code b code l ≡ some (m, rest)
    → ReadsCode room code (b ∷ l) m rest
ends_here room code b l m rest e = elim (Bool-cases (b == sp)) [
  | inl stop ↦ record {
    written = [];
    splits = ground (arith, stop, e);
    all_digits = tt;
    fits = omega arith;
    value = ground (arith, stop, e);
  }
  | inr other ↦ absurd (ground (arith, other, e))
]

sound :
    (k d code : ℕ) (l : Bytes) (m : ℕ) (rest : Bytes)
    → d + k ≡ 3
    → code < below k
    → status_loop d code l ≡ some (m, rest)
    → ReadsCode k code l m rest
sound k d code [] m rest h c e = absurd (unfold status_loop in cc e)
sound zero d code (b ∷ l) m rest h c e = elim (Bool-cases (leb b'0' b && leb b b'9')) [
  | inl digit ↦
      let full : d + 1 ≡ 4 = omega arith in
      let none_left =
        sym (past_four (code * 10 + b - b'0') l)
        ∙ ap (λ n. status_loop n (code * 10 + b - b'0') l) (sym full)
        ∙ sym (digit_step d code b l (omega arith) (omega (arith, below_max 0)) digit)
        ∙ e in
      absurd (cc none_left)
  | inr other ↦ ends_here 0 code b l m rest (sym (other_step d code b l (omega arith) other) ∙ e)
]
sound (suc k) d code (b ∷ l) m rest h c e = elim (Bool-cases (leb b'0' b && leb b b'9')) [
  | inl digit ↦
      let lo : b'0' ≤ b = ground (arith, digit) in
      let hi : b ≤ b'9' = ground (arith, digit) in
      let r =
        sound k (d + 1) (code * 10 + b - b'0') l m rest (omega arith)
          (below_step k code b (omega arith) c lo hi)
          (sym (digit_step d code b l (omega arith) (omega (arith, below_max (suc k))) digit)
            ∙ e) in
      record {
        written = b ∷ r.written;
        splits = ap (◌∷◌ b) r.splits;
        all_digits = (digit, r.all_digits);
        fits = omega (arith, r.fits);
        value = r.value;
      }
  | inr other ↦
      ends_here (suc k) code b l m rest (sym (other_step d code b l (omega arith) other) ∙ e)
]

-- The loop over the status code returns a number exactly if the stream starts with at most three
-- digits, which may be none, and a space; the number is their decimal value, and what stands behind
-- the space is left.
pub status_loop_iff :
    (l : Bytes) (m : ℕ) (rest : Bytes)
    → (status_loop 0 0 l ≡ some (m, rest)) ↔ ReadsCode 3 0 l m rest
status_loop_iff l m rest = (
  sound 3 0 0 l m rest refl (unfold below in omega arith),
  λ r.
      ap (status_loop 0 0) r.splits
      ∙ complete 3 0 0 r.written rest refl (unfold below in omega arith) r.all_digits r.fits
      ∙ ap (λ n. some (n, rest)) (sym r.value),
)

-- A reason without a CR, and CR LF behind it.
pub reason_loop_lem :
    (t reason : Text) (rest : Bytes)
    → All (λ b. b ≢ cr) t
    → reason_loop reason (t ++ cr ∷ lf ∷ rest) ≡ some (reason ++ t, rest)
unfolding reason_loop
reason_loop_lem [] reason rest h = ap (λ r. some (r, rest)) (sym (append-nil reason))
reason_loop_lem (b ∷ t) reason rest (hb, h) =
    let more : (b == cr) ≡ false = ground arith in
    rw more (
      reason_loop_lem t (reason ++ b ∷ []) rest h
      ∙ ap (λ r. some (r, rest)) (append_assoc reason (b ∷ []) t))
