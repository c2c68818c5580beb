-- ===== src/Headers/Readers/Endless.antt =====
-- `read_token_or_quoted_string` on a token with a separator behind it.
use rust_http.Base.{
  ℕ, zero, suc, ◌≡◌, ◌≢◌, refl, true, false, ◌==◌, Option, none, some, [], ◌∷◌, ◌++◌, Bytes, Text,
  runs_out, arith,
}
use rust_http.Rfc2616.{cr, lf, is_separator, is_token, double_quote}
use rust_http.Rfc2616.Classes.{is_token_item-IsPlain, is_token-cons}
use rust_http.Headers.Value.{HeaderValueByteIterator, normal, on_byte, next, put_back, each_byte}
use rust_http.Headers.Readers.{
  token_or_body, some_if_any, token_or_quoted, read_token_or_quoted_string,
}

-- An iterator inside a value, with a kept byte or without one.
abbrev pub inside : Option ℕ → Bytes → HeaderValueByteIterator
inside kept l = record { reader = l; next_byte = kept; at_start = false; state = normal }

separator-ne : (b : ℕ) → is_separator b ≡ true → (b ≢ cr) × (b ≢ lf)
unfolding is_separator
separator-ne b h = ground arith

next-kept :
    (b : ℕ) (l : Bytes) → b ≢ cr → b ≢ lf → next (inside (some b) l) ≡ (some b, inside none l)
unfolding next on_byte
next-kept b l h k = ground arith

next-first :
    (b : ℕ) (l : Bytes) → b ≢ cr → b ≢ lf → next (inside none (b ∷ l)) ≡ (some b, inside none l)
unfolding next on_byte
next-first b l h k = ground arith

on_separator :
    (fuel b : ℕ) (out : Text) (l : Bytes)
    → is_separator b ≡ true
    → each_byte fuel token_or_body some_if_any out (inside (some b) l) ≡ runs_out
unfolding each_byte put_back
on_separator zero b out l h = refl
on_separator (suc fuel) b out l h =
    let (h1, h2) = separator-ne b h in
    ground (arith, next-kept b l h1 h2, h, on_separator fuel b out l h)

on_token :
    (fuel b : ℕ) (t out : Text) (l : Bytes)
    → is_token t ≡ true
    → is_separator b ≡ true
    → each_byte fuel token_or_body some_if_any out (inside none (t ++ b ∷ l)) ≡ runs_out
unfolding each_byte put_back
on_token zero b t out l ht h = refl
on_token (suc fuel) b [] out l ht h =
    let (h1, h2) = separator-ne b h in
    ground (arith, next-first b l h1 h2, h, on_separator fuel b out l h)
on_token (suc fuel) b (c ∷ t) out l ht h =
    let (item, more) = is_token-cons c t ht in
    let plain = is_token_item-IsPlain c item in
    ground (
      arith,
      next-first c (t ++ b ∷ l) plain.ne_cr plain.ne_lf,
      plain.not_separator,
      item,
      on_token fuel b t (out ++ c ∷ []) l more h,
    )

on_kept :
    (fuel c b : ℕ) (t out : Text) (l : Bytes)
    → is_token (c ∷ t) ≡ true
    → is_separator b ≡ true
    → each_byte fuel token_or_body some_if_any out (inside (some c) (t ++ b ∷ l)) ≡ runs_out
unfolding each_byte put_back
on_kept zero c b t out l ht h = refl
on_kept (suc fuel) c b t out l ht h =
    let (item, more) = is_token-cons c t ht in
    let plain = is_token_item-IsPlain c item in
    ground (
      arith,
      next-kept c (t ++ b ∷ l) plain.ne_cr plain.ne_lf,
      plain.not_separator,
      item,
      on_token fuel b t (out ++ c ∷ []) l more h,
    )

not_quote : (c : ℕ) → is_separator c ≡ false → (c == double_quote) ≡ false
unfolding is_separator
not_quote c h = ground arith

-- Inside a value, on a token of one character at least with a separator behind it,
-- `read_token_or_quoted_string` runs out of any fuel: it never ends.
pub read_token_or_quoted_string_endless :
    (fuel c b : ℕ) (t : Text) (l : Bytes)
    → is_token (c ∷ t) ≡ true
    → is_separator b ≡ true
    → read_token_or_quoted_string fuel (inside none (c ∷ (t ++ b ∷ l))) ≡ runs_out
unfolding read_token_or_quoted_string token_or_quoted
read_token_or_quoted_string_endless fuel c b t l ht h =
    let (item, more) = is_token-cons c t ht in
    let plain = is_token_item-IsPlain c item in
    rw
      (
        next-first c (t ++ b ∷ l) plain.ne_cr plain.ne_lf,
        not_quote c plain.not_separator,
        on_kept fuel c b t [] l ht h,
      )
      refl
