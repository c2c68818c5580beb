-- ===== src/Common/Version.antt =====
-- The strings that `read_http_version` accepts.
use rust_http.Base.{ℕ, ◌≡◌, ◌↔◌, refl, false, Option, none, some, [], ◌∷◌, ◌⊎◌, Bytes, arith}
use rust_http.Common.{is_decimal, expect, and_then, read_digits, read_http_version}
use rust_http.Common.Decimal.{Reads, read_digits_iff}

-- A letter of the protocol name, in either case.
abbrev Letter : ℕ → ℕ → ℕ → Type 0
Letter lower upper b = (b ≡ lower) ⊎ (b ≡ upper)

-- `HTTP/` in any case, at most four digits, a dot, at most four digits, and the closing byte.
pub record WritesVersion (next_u8 : ℕ) (l : Bytes) (n1 n2 : ℕ) (rest : Bytes) : Type 0 where
  pub h : ℕ
  pub t1 : ℕ
  pub t2 : ℕ
  pub p : ℕ
  pub major : Bytes
  pub minor : Bytes
  pub splits : l ≡ h ∷ t1 ∷ t2 ∷ p ∷ b'/' ∷ major
  pub is_h : Letter b'h' b'H' h
  pub is_t1 : Letter b't' b'T' t1
  pub is_t2 : Letter b't' b'T' t2
  pub is_p : Letter b'p' b'P' p
  pub first : Reads 5 b'.' 0 0 major n1 minor
  pub second : Reads 5 next_u8 0 0 minor n2 rest

and_then-eq-some {ℓ κ} :
    {A : Type ℓ} {B : Type κ} (r : Option A × Bytes) (f : A → Bytes → Option B × Bytes) {b : B}
    {rest : Bytes}
    → and_then r f ≡ (some b, rest)
    → (a : A) × (mid : Bytes) × (r ≡ (some a, mid)) × (f a mid ≡ (some b, rest))
and_then-eq-some (some a, mid) f h = (a, mid, refl, h)
and_then-eq-some (none, mid) f h = cc

expect-eq-some :
    (lower upper : ℕ) (l mid : Bytes) {u : Unit {0}}
    → expect lower upper l ≡ (some u, mid)
    → (b : ℕ) × (l ≡ b ∷ mid) × Letter lower upper b
expect-eq-some lower upper [] mid e = cc
expect-eq-some lower upper (b ∷ bs) mid e = (b, ground arith, ground arith)

expect-Letter :
    (lower upper b : ℕ) (bs : Bytes)
    → Letter lower upper b
    → expect lower upper (b ∷ bs) ≡ (some tt, bs)
expect-Letter lower upper b bs h = ground arith

version_sound :
    (next_u8 n1 n2 : ℕ) (l rest : Bytes)
    → is_decimal next_u8 ≡ false
    → read_http_version next_u8 l ≡ (some (n1, n2), rest)
    → WritesVersion next_u8 l n1 n2 rest
unfolding read_http_version
version_sound next_u8 n1 n2 l rest stop e =
    let (_, l1, e1, f1) = and_then-eq-some (expect b'h' b'H' l) _ e in
    let (_, l2, e2, f2) = and_then-eq-some (expect b't' b'T' l1) _ f1 in
    let (_, l3, e3, f3) = and_then-eq-some (expect b't' b'T' l2) _ f2 in
    let (_, l4, e4, f4) = and_then-eq-some (expect b'p' b'P' l3) _ f3 in
    let (_, l5, e5, f5) = and_then-eq-some (expect b'/' b'/' l4) _ f4 in
    let (m1, l6, e6, f6) = and_then-eq-some (read_digits 5 b'.' 0 0 l5) _ f5 in
    let (m2, l7, e7, f7) = and_then-eq-some (read_digits 5 next_u8 0 0 l6) _ f6 in
    let (a1, s1, i1) = expect-eq-some _ _ l l1 e1 in
    let (a2, s2, i2) = expect-eq-some _ _ l1 l2 e2 in
    let (a3, s3, i3) = expect-eq-some _ _ l2 l3 e3 in
    let (a4, s4, i4) = expect-eq-some _ _ l3 l4 e4 in
    let (a5, s5, i5) = expect-eq-some _ _ l4 l5 e5 in
    record {
      h = a1;
      t1 = a2;
      t2 = a3;
      p = a4;
      major = l5;
      minor = l6;
      splits = ground arith;
      is_h = i1;
      is_t1 = i2;
      is_t2 = i3;
      is_p = i4;
      first = (read_digits_iff 5 b'.' n1 l5 l6 (omega arith) (omega arith) refl).0 (ground arith);
      second =
          (read_digits_iff 5 next_u8 n2 l6 rest (omega arith) (omega arith) stop).0 (ground arith);
    }

version_complete :
    (next_u8 n1 n2 : ℕ) (l rest : Bytes)
    → is_decimal next_u8 ≡ false
    → WritesVersion next_u8 l n1 n2 rest
    → read_http_version next_u8 l ≡ (some (n1, n2), rest)
unfolding read_http_version
version_complete next_u8 n1 n2 l rest stop w =
    let s1 : Bytes = w.t1 ∷ w.t2 ∷ w.p ∷ b'/' ∷ w.major in
    let s2 : Bytes = w.t2 ∷ w.p ∷ b'/' ∷ w.major in
    let s3 : Bytes = w.p ∷ b'/' ∷ w.major in
    let s4 : Bytes = b'/' ∷ w.major in
    rw (
      w.splits,
      expect-Letter _ _ w.h s1 w.is_h,
      expect-Letter _ _ w.t1 s2 w.is_t1,
      expect-Letter _ _ w.t2 s3 w.is_t2,
      expect-Letter _ _ w.p s4 w.is_p,
      (read_digits_iff 5 b'.' n1 w.major w.minor (omega arith) (omega arith) refl).1 w.first,
      (read_digits_iff 5 next_u8 n2 w.minor rest (omega arith) (omega arith) stop).1 w.second,
    )

-- `read_http_version`, called with a closing byte that is no digit, returns a pair exactly if the
-- stream begins with `HTTP/` in any case, two decimal numbers of at most four digits with a dot
-- between them, and the closing byte; the pair is the numbers written, and what follows is left
-- unread.
pub read_http_version_iff :
    (next_u8 n1 n2 : ℕ) (l rest : Bytes)
    → is_decimal next_u8 ≡ false
    → (read_http_version next_u8 l ≡ (some (n1, n2), rest)) ↔ WritesVersion next_u8 l n1 n2 rest
read_http_version_iff next_u8 n1 n2 l rest stop =
    (version_sound next_u8 n1 n2 l rest stop, version_complete next_u8 n1 n2 l rest stop)
