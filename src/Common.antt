-- ===== src/Common.antt =====
-- src/libhttp/common.rs: numbers and the HTTP version, read from a byte stream. A reader is the
-- list of the bytes still to come: `read_byte` takes its head, and answers `None` at its end. Each
-- function returns its result beside the bytes that it has left unread.
pub mod Decimal
pub mod Version
use rust_http.Base.{
  ℕ, ◌+◌, ◌-◌, ◌*◌, ◌%◌, ◌^◌, Bool, ◌&&◌, ◌||◌, Option, none, some, List, [], ◌∷◌, leb, ◌==◌,
  if◌then◌else◌, Bytes,
}

-- Machine widths: `uint` is 64 bits wide, and `digits` is a `u8`.
abbrev pub uint_mod : ℕ
uint_mod = 2 ^ 64

abbrev pub u8_mod : ℕ
u8_mod = 256

-- `n * 10 + b as uint - '0' as uint`, for a digit `b`.
abbrev pub add_digit : ℕ → ℕ → ℕ
add_digit n b = (n * 10 + b - b'0') % uint_mod

abbrev pub is_decimal : ℕ → Bool
is_decimal b = leb b'0' b && leb b b'9'

-- The `loop` that `read_uint` and both numbers of `read_http_version` are: `limit` is the count of
-- digits at which it gives up.
unfoldable pub read_digits : ℕ → ℕ → ℕ → ℕ → Bytes → Option ℕ × Bytes
read_digits limit next_u8 digits n [] = (none, [])
read_digits limit next_u8 digits n (b ∷ bs) =
    let rest = read_digits limit next_u8 ((digits + 1) % u8_mod) (add_digit n b) bs in
    if digits == limit
    then (none, b ∷ bs)
    else if is_decimal b
    then rest
    else if b == next_u8
    then (some n, bs)
    else (none, bs)

unfoldable pub read_uint : ℕ → ℕ → Bytes → Option ℕ × Bytes
unfolding read_digits
read_uint max_digits next_u8 reader = read_digits ((max_digits + 1) % u8_mod) next_u8 0 0 reader

-- One `match reader.read_byte()` over the letters of `HTTP/`, in either case.
abbrev pub expect : ℕ → ℕ → Bytes → Option (Unit {0}) × Bytes
expect lower upper [] = (none, [])
expect lower upper (b ∷ bs) = if b == lower || b == upper then (some tt, bs) else (none, bs)

-- A step that stops the caller with `None` when it answers `None`.
abbrev pub and_then {ℓ κ} :
    {A : Type ℓ} {B : Type κ} → Option A × Bytes → (A → Bytes → Option B × Bytes) → Option B × Bytes
and_then (none, l) f = (none, l)
and_then (some a, l) f = f a l

infixl 5 ◌>>=◌ ◌>>◌
abbrev pub ◌>>=◌ {ℓ κ} :
    {A : Type ℓ} {B : Type κ}
    → (Bytes → Option A × Bytes)
    → (A → Bytes → Option B × Bytes)
    → Bytes
    → Option B × Bytes
◌>>=◌ m f l = and_then (m l) f

abbrev pub ◌>>◌ {κ} :
    {B : Type κ}
    → (Bytes → Option (Unit {0}) × Bytes)
    → (Bytes → Option B × Bytes)
    → Bytes
    → Option B × Bytes
m >> k = m >>= λ _. k

unfoldable pub read_http_version : ℕ → Bytes → Option (ℕ × ℕ) × Bytes
unfolding read_digits
read_http_version next_u8 = do
  expect b'h' b'H'
  expect b't' b'T'
  expect b't' b'T'
  expect b'p' b'P'
  expect b'/' b'/'
  n1 ← read_digits 5 b'.' 0 0
  n2 ← read_digits 5 next_u8 0 0
  λ reader. (some (n1, n2), reader)
