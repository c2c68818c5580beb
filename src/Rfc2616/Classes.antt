-- ===== src/Rfc2616/Classes.antt =====
-- The token characters of rfc2616.rs, told apart from the other classes.
use rust_http.Base.{
  ℕ, zero, suc, ◌<◌, ◌≡◌, ◌≢◌, refl, Bool, true, false, ◌||◌, [], ◌∷◌, inl, inr, ltb, ◌==◌,
  Bool-cases, Text, IsAscii, arith, if◌then◌else◌,
}
use rust_http.Rfc2616.{is_alpha, is_digit, is_separator, is_token_item, is_token, cr, lf, sp, ht}

-- The 15 marks that RFC 7230 lists as `tchar` beside letters and digits.
is_mark : ℕ → Bool
is_mark o =
    o == b'!'
    || o == b'#'
    || o == b'$'
    || o == b'%'
    || o == b'&'
    || o == 39
    || o == b'*'
    || o == b'+'
    || o == b'-'
    || o == b'.'
    || o == b'^'
    || o == b'_'
    || o == b'`'
    || o == b'|'
    || o == b'~'

same : Bool → Bool → Bool
same true b = b
same false true = false
same false false = true

same_eq : (a b : Bool) → same a b ≡ true → a ≡ b
unfolding same
same_eq a b h = ground arith

-- Whether two tests agree on the numbers under a bound.
agree : (f g : ℕ → Bool) → ℕ → Bool
agree f g zero = true
agree f g (suc top) = let lower = agree f g top in if same (f top) (g top) then lower else false

agree-eq : (f g : ℕ → Bool) (bound o : ℕ) → o < bound → agree f g bound ≡ true → f o ≡ g o
unfolding agree
agree-eq f g zero o small h = absurd (omega arith)
agree-eq f g (suc top) o small h = elim (Bool-cases (o == top)) [
  | inl last ↦ ground (arith, last, h, same_eq (f o) (g o))
  | inr other ↦ agree-eq f g top o (ground (arith, other)) (ground (arith, h))
]

tchar : ℕ → Bool
unfolding is_mark
tchar o = is_alpha o || is_digit o || is_mark o

tchar_table : agree is_token_item tchar 128 ≡ true
unfolding agree same is_token_item tchar is_alpha is_digit is_mark
tchar_table = refl

is_token_item_high : (o : ℕ) → ltb o 128 ≡ false → is_token_item o ≡ false
unfolding is_token_item
is_token_item_high o h = rw h

tchar_high : (o : ℕ) → ltb o 128 ≡ false → tchar o ≡ false
unfolding tchar is_alpha is_digit is_mark
tchar_high o h = ground arith

-- An octet is a token item exactly if it is a letter, a digit or one of fifteen marks.
is_token_item-tchar : (o : ℕ) → is_token_item o ≡ tchar o
is_token_item-tchar o = elim (Bool-cases (ltb o 128)) [
  | inl low ↦ agree-eq is_token_item tchar 128 o (ground arith) tchar_table
  | inr high ↦ rw (is_token_item_high o high, tchar_high o high)
]

-- What a token item is not.
pub record IsPlain (b : ℕ) : Type 0 where
  pub ascii : b < 128
  pub ne_cr : b ≢ cr
  pub ne_lf : b ≢ lf
  pub ne_sp : b ≢ sp
  pub ne_ht : b ≢ ht
  pub not_separator : is_separator b ≡ false

pub is_token_item-IsPlain : (b : ℕ) → is_token_item b ≡ true → IsPlain b
unfolding is_token_item
is_token_item-IsPlain b h = ground arith

pub is_token-IsAscii : (s : Text) → is_token s ≡ true → IsAscii s
unfolding is_token
is_token-IsAscii [] h = tt
is_token-IsAscii (b ∷ bs) h = ground (arith, is_token-IsAscii bs)

pub is_token-cons :
    (b : ℕ) (bs : Text) → is_token (b ∷ bs) ≡ true → (is_token_item b ≡ true) × (is_token bs ≡ true)
unfolding is_token
is_token-cons b bs h = ground arith
