-- ===== src/Common/Decimal.antt =====
-- What `read_uint` and the number loops of common.rs accept, against the decimal value of a digit
-- string.
use native.Mathlib.Nat.{pow-suc, pow-le-pow_right}
use native.Mathlib.Decide.{dec_lt}
use rust_http.Base.{
  ℕ, suc, ◌+◌, ◌-◌, ◌*◌, ◌%◌, ◌^◌, ◌≤◌, ◌<◌, ◌≡◌, ◌↔◌, refl, sym, ap, ap₂, ◌∙◌, ◌≢◌, true, false,
  none, some, [], ◌∷◌, ◌++◌, length, All, Bool-cases, inl, inr, Bytes, arith,
}
use rust_http.Common.{u8_mod, add_digit, is_decimal, read_digits, read_uint}

abbrev pub IsDecimal : Bytes → Type 0
IsDecimal = All (λ b. is_decimal b ≡ true)

-- The number that a digit string writes, after the digits already read made `n`.
abbrev pub decimal : ℕ → Bytes → ℕ
decimal n [] = n
decimal n (b ∷ bs) = decimal (n * 10 + b - b'0') bs

-- What a number loop accepts from `digits` digits on.
pub record Reads (limit next digits n : ℕ) (l : Bytes) (m : ℕ) (rest : Bytes) : Type 0 where
  pub written : Bytes
  pub splits : l ≡ written ++ next ∷ rest
  pub all_digits : IsDecimal written
  pub fits : digits + length written < limit
  pub value : m ≡ decimal n written

-- Below 20 digits a step of the loop does not wrap.
add_digit-lt :
    (d n b : ℕ)
    → d < 19
    → n < 10 ^ d
    → is_decimal b ≡ true
    → (add_digit n b ≡ n * 10 + b - b'0') × (add_digit n b < 10 ^ suc d)
add_digit-lt d n b h k e =
    ground (arith, pow-suc 10 d, pow-le-pow_right {n = 10} (omega arith) {i = suc d} {j = 19} h)

next_count : (d limit : ℕ) → limit ≤ 20 → d < limit → (d + 1) % u8_mod ≡ suc d
next_count d limit h k = omega arith

module _ (limit next : ℕ) (small : limit ≤ 20) where
  -- One round on a digit, and the round that ends the loop.
  read_digits-digit :
      (d n b : ℕ) (bs : Bytes)
      → d < limit
      → is_decimal b ≡ true
      → read_digits limit next d n (b ∷ bs) ≡ read_digits limit next (suc d) (add_digit n b) bs
  unfolding read_digits
  read_digits-digit d n b bs h e = ground (arith, next_count d limit small h)

  read_digits-next :
      (d n : ℕ) (bs : Bytes)
      → d < limit
      → is_decimal next ≡ false
      → read_digits limit next d n (next ∷ bs) ≡ (some n, bs)
  unfolding read_digits
  read_digits-next d n bs h e = ground arith

  read_digits-limit : (n : ℕ) (l : Bytes) → read_digits limit next limit n l ≡ (none, l)
  unfolding read_digits
  read_digits-limit n [] = refl
  read_digits-limit n (b ∷ bs) = ground arith

  pub read_digits-accepts :
      (d n : ℕ) (ds rest : Bytes)
      → is_decimal next ≡ false
      → n < 10 ^ d
      → d + length ds < limit
      → IsDecimal ds
      → read_digits limit next d n (ds ++ next ∷ rest) ≡ (some (decimal n ds), rest)
  read_digits-accepts d n [] rest stop below room h = read_digits-next d n rest (omega arith) stop
  read_digits-accepts d n (b ∷ ds) rest stop below room (hb, hds) =
      let (exact, below') = add_digit-lt d n b (omega arith) below hb in
      read_digits-digit d n b (ds ++ next ∷ rest) (omega arith) hb
      ∙ read_digits-accepts (suc d) (add_digit n b) ds rest stop below' (omega arith) hds
      ∙ ap (λ v. (some (decimal v ds), rest)) exact

  read_digits_end :
      (d n b : ℕ) (bs : Bytes)
      → d ≤ limit
      → limit ≤ suc d
      → is_decimal b ≡ true
      → (read_digits limit next d n (b ∷ bs)).0 ≡ none
  read_digits_end d n b bs h k e = elim (dec_lt d limit) [
    | yes p ↦
        let last : suc d ≡ limit = omega arith in
        rw (read_digits-digit d n b bs p e, last) (rw (read_digits-limit (add_digit n b) bs))
    | no p ↦ let full : d ≡ limit = omega arith in rw full (rw (read_digits-limit n (b ∷ bs)))
  ]

  Reads-cons :
      (d n b : ℕ) {bs rest : Bytes} {m : ℕ}
      → is_decimal b ≡ true
      → add_digit n b ≡ n * 10 + b - b'0'
      → Reads limit next (suc d) (add_digit n b) bs m rest
      → Reads limit next d n (b ∷ bs) m rest
  Reads-cons d n b hb exact r = record {
    written = b ∷ r.written;
    splits = ap (◌∷◌ b) r.splits;
    all_digits = (hb, r.all_digits);
    fits = omega (arith, r.fits);
    value = r.value ∙ ap (λ v. decimal v r.written) exact;
  }

  -- The other way the first byte can be read.
  read_digits_other :
      (d n b : ℕ) {bs rest : Bytes} {m : ℕ}
      → is_decimal b ≡ false
      → read_digits limit next d n (b ∷ bs) ≡ (some m, rest)
      → (d ≢ limit) × (b ≡ next) × (m ≡ n) × (rest ≡ bs)
  unfolding read_digits
  read_digits_other d n b hb e = ground arith

  pub read_digits-Reads :
      (d n : ℕ) (l : Bytes) {m : ℕ} {rest : Bytes}
      → d ≤ limit
      → n < 10 ^ d
      → read_digits limit next d n l ≡ (some m, rest)
      → Reads limit next d n l m rest
  read_digits-Reads d n [] room below e = unfold read_digits in cc
  read_digits-Reads d n (b ∷ bs) {m} {rest} room below e = elim (Bool-cases (is_decimal b)) [
    | inl hb ↦ elim (dec_lt (suc d) limit) [
      | yes more ↦
          let (exact, below') = add_digit-lt d n b (omega arith) below hb in
          Reads-cons d n b hb exact (
            read_digits-Reads (suc d) (add_digit n b) bs (omega arith) below'
              (sym (read_digits-digit d n b bs (omega arith) hb) ∙ e))
      | no end ↦ cc (read_digits_end d n b bs room (omega arith) hb)
    ]
    | inr hb ↦
        let (open_, is_next, same, left) = read_digits_other d n b hb e in
        record {
          written = [];
          splits = ap₂ ◌∷◌ is_next (sym left);
          all_digits = tt;
          fits = omega arith;
          value = same;
        }
  ]

-- Both directions for a number loop that starts afresh.
pub read_digits_iff :
    (limit next m : ℕ) (l rest : Bytes)
    → 1 ≤ limit
    → limit ≤ 20
    → is_decimal next ≡ false
    → (read_digits limit next 0 0 l ≡ (some m, rest)) ↔ Reads limit next 0 0 l m rest
read_digits_iff limit next m l rest some_room small stop = (
  read_digits-Reads limit next small 0 0 l (omega arith) (omega arith),
  λ (r : Reads limit next 0 0 l m rest).
      rw (r.splits, r.value)
        (read_digits-accepts limit next small 0 0 r.written rest stop (omega arith) r.fits
          r.all_digits),
)

-- `read_uint` with at most 19 digits and a closing byte that is no digit: it returns a number
-- exactly if the stream begins with at most `max_digits` digits that write the number, with no
-- wrap-around, and the closing byte; what follows is left unread.
pub read_uint_iff :
    (max_digits next_u8 m : ℕ) (l rest : Bytes)
    → max_digits ≤ 19
    → is_decimal next_u8 ≡ false
    → (read_uint max_digits next_u8 l ≡ (some m, rest))
      ↔ Reads (max_digits + 1) next_u8 0 0 l m rest
unfolding read_uint
read_uint_iff max_digits next_u8 m l rest h stop =
    let exact : (max_digits + 1) % u8_mod ≡ max_digits + 1 = omega arith in
    rw exact (read_digits_iff (max_digits + 1) next_u8 m l rest (omega arith) (omega arith) stop)
