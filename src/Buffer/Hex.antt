-- ===== src/Buffer/Hex.antt =====
-- The hexadecimal numbers of chunk sizes, against the value that positional notation gives them.
use rust_http.Base.{
  ℕ, zero, suc, ◌+◌, ◌-◌, ◌*◌, ◌/◌, ◌%◌, ◌^◌, ◌<◌, ◌≡◌, refl, ◌∙◌, true, [], ◌∷◌, ◌++◌, All,
  All-append, Bytes, arith, if◌then◌else◌, Bool-cases, ltb, ltb→lt, inl, inr,
}
use rust_http.Rfc2616.{is_hex}
use rust_http.Buffer.{hex_digit, hex_digits, to_hex}

unfoldable pub digit_value : ℕ → ℕ
digit_value c = if ltb c b'A' then c - b'0' else (if ltb c b'a' then c - 55 else c - 87)

-- The value of a numeral, read on from `acc`.
unfoldable pub hex_value_from : ℕ → Bytes → ℕ
unfolding digit_value
hex_value_from acc [] = acc
hex_value_from acc (c ∷ cs) = hex_value_from (acc * 16 + digit_value c) cs

abbrev pub hex_value : Bytes → ℕ
hex_value cs = hex_value_from 0 cs

abbrev pub IsHex : ℕ → Type 0
IsHex c = is_hex c ≡ true

hex_value_from-snoc :
    (acc : ℕ) (cs : Bytes) (c : ℕ)
    → hex_value_from acc (cs ++ c ∷ []) ≡ hex_value_from acc cs * 16 + digit_value c
unfolding hex_value_from
hex_value_from-snoc acc [] c = refl
hex_value_from-snoc acc (d ∷ cs) c = hex_value_from-snoc (acc * 16 + digit_value d) cs c

digit_value-hex_digit : (d : ℕ) → d < 16 → digit_value (hex_digit d) ≡ d
unfolding digit_value
digit_value-hex_digit d h = ground arith

hex_digit-IsHex : (d : ℕ) → d < 16 → IsHex (hex_digit d)
unfolding is_hex
hex_digit-IsHex d h = ground arith

-- 16 to the power of `k`.
limit : ℕ → ℕ
limit zero = 1
limit (suc k) = 16 * limit k

hex_value-hex_digits : (k n : ℕ) → n < limit k → hex_value (hex_digits k n) ≡ n
unfolding hex_digits hex_value_from limit
hex_value-hex_digits zero n h = omega arith
hex_value-hex_digits (suc k) n h = elim (Bool-cases (ltb n 16)) [
  | inl small ↦ rw small (omega (arith, digit_value-hex_digit n (ltb→lt _ _ small)))
  | inr large ↦ rw large (
      hex_value_from-snoc 0 (hex_digits k (n / 16)) (hex_digit (n % 16))
      ∙ omega (
        arith,
        hex_value-hex_digits k (n / 16) (omega arith),
        digit_value-hex_digit (n % 16) (omega arith),
      ))
]

hex_digits-IsHex : (k n : ℕ) → All IsHex (hex_digits k n)
unfolding hex_digits
hex_digits-IsHex zero n = tt
hex_digits-IsHex (suc k) n = elim (Bool-cases (ltb n 16)) [
  | inl small ↦ rw small ((hex_digit-IsHex n (ltb→lt _ _ small), tt))
  | inr large ↦ rw large (
      All-append IsHex (hex_digits k (n / 16)) _ (hex_digits-IsHex k (n / 16))
        ((hex_digit-IsHex (n % 16) (omega arith), tt)))
]

-- A `uint` reads back as what was written.
pub hex_value-to_hex : (n : ℕ) → n < 2 ^ 64 → hex_value (to_hex n) ≡ n
unfolding limit
hex_value-to_hex n h = hex_value-hex_digits 16 n h

pub to_hex-IsHex : (n : ℕ) → All IsHex (to_hex n)
to_hex-IsHex n = hex_digits-IsHex 16 n
