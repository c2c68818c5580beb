-- ===== src/Method/Names.antt =====
-- The names of methods: which text each function takes for which method.
use rust_http.Base.{
  ◌≡◌, refl, ap, sym, ◌∙◌, ◌↔◌, inl, inr, Bool, true, false, none, some, [], ◌∷◌, ltb,
  if◌then◌else◌, Text, codes, equal, equal_iff, arith, returns, fails, IsAscii, lt→ltb, ltb→lt,
  Bool-cases, Option-cases, as_bytes, ◌++◌, Bytes,
}
use rust_http.Method.{
  Method, options, get, head, post, put, delete, trace, connect, patch, extension_method, to_str,
  fmt, is_ascii, from_str, from_str_or_new,
}

-- A method that RFC 2616 or RFC 5789 names.
pub is_known : Method → Bool
is_known (extension_method _) = false
is_known _ = true

is_ascii-IsAscii : (s : Text) → is_ascii s ≡ true → IsAscii s
unfolding is_ascii
is_ascii-IsAscii [] h = tt
is_ascii-IsAscii (c ∷ cs) h = elim (Bool-cases (ltb c 128)) [
  | inl low ↦ (ltb→lt c 128 low, is_ascii-IsAscii cs (ground (arith, h, low)))
  | inr high ↦ absurd (ground (arith, h, high))
]

pub IsAscii-is_ascii : (s : Text) → IsAscii s → is_ascii s ≡ true
unfolding is_ascii
IsAscii-is_ascii [] h = refl
IsAscii-is_ascii (c ∷ cs) (hc, h) = rw (lt→ltb c 128 hc) (IsAscii-is_ascii cs h)

sound : (s : Text) (m : Method) → from_str s ≡ some m → (is_known m ≡ true) × (s ≡ to_str m)
unfolding from_str to_str is_known
sound s m e = ground (
  arith,
  e,
  equal_iff s (codes "OPTIONS"),
  equal_iff s (codes "GET"),
  equal_iff s (codes "HEAD"),
  equal_iff s (codes "POST"),
  equal_iff s (codes "PUT"),
  equal_iff s (codes "DELETE"),
  equal_iff s (codes "TRACE"),
  equal_iff s (codes "CONNECT"),
  equal_iff s (codes "PATCH"),
)

complete : (m : Method) → is_known m ≡ true → from_str (to_str m) ≡ some m
unfolding from_str to_str equal is_ascii is_known
complete options h = refl
complete get h = refl
complete head h = refl
complete post h = refl
complete put h = refl
complete delete h = refl
complete trace h = refl
complete connect h = refl
complete patch h = refl
complete (extension_method s) h = cc

-- `from_str` returns a method exactly for its name, in upper case, and only for the nine methods
-- that have a constructor of their own.
pub from_str_iff :
    (s : Text) (m : Method) → (from_str s ≡ some m) ↔ ((is_known m ≡ true) × (s ≡ to_str m))
from_str_iff s m = (sound s m, λ h. ap from_str h.1 ∙ complete m h.0)

-- `from_str_or_new` on an ASCII text returns what `from_str` does, or an extension method of that
-- name where `from_str` has none; on any other text it fails.
from_str_or_new-from_str :
    (s : Text)
    → from_str_or_new s ≡ (
        if is_ascii s
        then returns (some (elim (from_str s) [ some m ↦ m | none ↦ extension_method s ]))
        else fails)
unfolding from_str_or_new from_str
from_str_or_new-from_str s = ground arith

to_str-or_new :
    (s : Text) → to_str (elim (from_str s) [ some m ↦ m | none ↦ extension_method s ]) ≡ s
to_str-or_new s = elim (Option-cases (from_str s)) [
  | inl missing ↦ rw missing (unfold to_str in refl)
  | inr (m, found) ↦ rw found (sym (sound s m found).1)
]

-- `from_str_or_new` always takes an ASCII text for a method that has this text for its name.
to_str-from_str_or_new :
    (s : Text) → IsAscii s → (m : Method) × (from_str_or_new s ≡ returns (some m)) × (to_str m ≡ s)
to_str-from_str_or_new s h = (
  elim (from_str s) [ some m ↦ m | none ↦ extension_method s ],
  from_str_or_new-from_str s ∙ rw (IsAscii-is_ascii s h) refl,
  to_str-or_new s,
)

-- A method's formatting puts out the bytes of its name.
fmt-to_str : (m : Method) (buf : Bytes) → fmt m buf ≡ buf ++ as_bytes (to_str m)
unfolding fmt to_str as_bytes
fmt-to_str options buf = refl
fmt-to_str get buf = refl
fmt-to_str head buf = refl
fmt-to_str post buf = refl
fmt-to_str put buf = refl
fmt-to_str delete buf = refl
fmt-to_str trace buf = refl
fmt-to_str connect buf = refl
fmt-to_str patch buf = refl
fmt-to_str (extension_method s) buf = refl
