-- ===== src/Buffer/Input.antt =====
-- A `BufferedStream` reads as the list of the bytes that are still to come.
use rust_http.Base.{
  ℕ, zero, suc, ◌+◌, ◌-◌, ◌≤◌, ◌<◌, ◌≡◌, ◌≢◌, refl, sym, ap, ◌∙◌, Bool, true, false, Option, none,
  some, [], ◌∷◌, ◌++◌, length, get_elem?, set, take, drop, length-append, length-drop, length-set,
  take-append_length, Bytes, returns, ◌>>=◌, inl, inr, arith, if◌then◌else◌, ◌==◌, Bool-cases,
  ==_iff,
}
use rust_http.Stream.{Stream, ReadLaws, NeverEmpty}
use rust_http.Buffer.{BufferedStream, overwrite, poke_byte, filled, has_more, take_byte, read_byte}

-- The bytes of the array between two positions.
abbrev pub window : ℕ → ℕ → Bytes → Bytes
window pos max buf = drop pos (take max buf)

window_cons :
    (pos max : ℕ) (buf : Bytes)
    → pos < max
    → max ≤ length buf
    → (x : ℕ) × (get_elem? buf pos ≡ some x) × (window pos max buf ≡ x ∷ window (suc pos) max buf)
window_cons pos max [] h k = absurd (omega arith)
window_cons pos zero (x ∷ buf) h k = absurd (omega arith)
window_cons zero (suc max) (x ∷ buf) h k = (x, refl, refl)
window_cons (suc pos) (suc max) (x ∷ buf) h k = window_cons pos max buf (omega arith) (omega arith)

window-set :
    (pos max x : ℕ) (buf : Bytes)
    → pos < max
    → max ≤ length buf
    → window pos max (set buf pos x) ≡ x ∷ window (suc pos) max buf
window-set pos max x [] h k = absurd (omega arith)
window-set pos zero x (y ∷ buf) h k = absurd (omega arith)
window-set zero (suc max) x (y ∷ buf) h k = refl
window-set (suc pos) (suc max) x (y ∷ buf) h k =
    window-set pos max x buf (omega arith) (omega arith)

window_nil : (pos : ℕ) (buf : Bytes) → window pos pos buf ≡ []
window_nil zero buf = refl
window_nil (suc pos) [] = refl
window_nil (suc pos) (x ∷ buf) = window_nil pos buf

window-overwrite : (c buf : Bytes) → window 0 (length c) (overwrite c buf) ≡ c
window-overwrite c buf = take-append_length (length c) c (drop (length c) buf) refl

length-overwrite : (c buf : Bytes) → length c ≤ length buf → length (overwrite c buf) ≡ length buf
length-overwrite c buf h =
    omega (arith, length-append c (drop (length c) buf), length-drop (length c) buf)

module _ {W : Type 0} (io : Stream W) (laws : ReadLaws io) (steady : NeverEmpty io) where
  -- What will be read: the rest of the buffer, then what arrives.
  abbrev pub contents : BufferedStream W → Bytes
  contents b = window b.read_pos b.read_max b.read_buffer ++ laws.incoming b.wrapped

  pub record IsValid (b : BufferedStream W) : Type 0 where
    pub ordered : b.read_pos ≤ b.read_max
    pub inside : b.read_max ≤ length b.read_buffer
    pub has_room : 0 < length b.read_buffer

  -- The result of `has_more`: something is in the buffer, or nothing will ever come.
  record HasMore (b : BufferedStream W) : Type 0 where
    more : Bool
    after : BufferedStream W
    returned : has_more io b ≡ returns (more, after)
    kept : contents after ≡ contents b
    valid : IsValid after
    full : more ≡ true → after.read_pos < after.read_max
    empty : more ≡ false → contents after ≡ []

  contents_empty :
      (b : BufferedStream W) → b.read_pos ≡ b.read_max → contents b ≡ laws.incoming b.wrapped
  contents_empty b e =
      ap (λ l. l ++ laws.incoming b.wrapped)
        (ap (λ p. window p b.read_max b.read_buffer) e ∙ window_nil b.read_max b.read_buffer)

  has_more_fills :
      (b : BufferedStream W) {r : Option Bytes × W}
      → b.read_pos ≡ b.read_max
      → io.read b.wrapped (length b.read_buffer) ≡ r
      → has_more io b ≡ returns (filled io b r)
  unfolding has_more
  has_more_fills b same e = rw ((==_iff _ _).1 same) (ap (λ p. returns (filled io b p)) e)

  -- A read of a stream that never answers with nothing brings a byte at least.
  ne_nil_length : (w w' : W) (n : ℕ) (c : Bytes) → 0 < n → io.read w n ≡ (some c, w') → 0 < length c
  ne_nil_length w w' n (x ∷ c) h e = omega arith
  ne_nil_length w w' zero [] h e = absurd (omega arith)
  ne_nil_length w w' (suc n) [] h e = absurd (steady w w' n e)

  fill-HasMore :
      (b : BufferedStream W)
      → IsValid b
      → b.read_pos ≡ b.read_max
      → (r : Option Bytes × W) → io.read b.wrapped (length b.read_buffer) ≡ r
      → HasMore b
  unfolding filled
  fill-HasMore b v same (none, w) e =
      let (before, after) = laws.read_none b.wrapped w (length b.read_buffer) e in
      record {
        more = false;
        after = record b { wrapped = w; read_pos = 0; read_max = 0 };
        returned = has_more_fills b same e;
        kept = after ∙ sym before ∙ sym (contents_empty b same);
        valid = omega arith;
        full = λ h. cc;
        empty = λ _. after;
      }
  fill-HasMore b v same (some c, w) e =
      let (splits, fits) = laws.read_some b.wrapped w (length b.read_buffer) c e in
      record {
        more = true;
        after = record b {
          wrapped = w;
          read_buffer = overwrite c b.read_buffer;
          read_pos = 0;
          read_max = length c;
        };
        returned = has_more_fills b same e;
        kept =
            ap (λ l. l ++ laws.incoming w) (window-overwrite c b.read_buffer)
            ∙ sym splits
            ∙ sym (contents_empty b same);
        valid = omega (arith, length-overwrite c b.read_buffer fits);
        full = λ _. ne_nil_length b.wrapped w (length b.read_buffer) c v.has_room e;
        empty = λ h. cc;
      }

  has_more_lem : (b : BufferedStream W) → IsValid b → HasMore b
  has_more_lem b v = elim (Bool-cases (b.read_pos == b.read_max)) [
    | inl same ↦
        fill-HasMore b v ((==_iff _ _).0 same) (io.read b.wrapped (length b.read_buffer)) refl
    | inr other ↦ record {
      more = true;
      after = b;
      returned = unfold has_more in rw other;
      kept = refl;
      valid = v;
      full = λ _. ground arith;
      empty = λ e. cc;
    }
  ]

  abbrev pub head? : Bytes → Option ℕ
  head? [] = none
  head? (x ∷ xs) = some x

  abbrev pub tail : Bytes → Bytes
  tail [] = []
  tail (x ∷ xs) = xs

  -- `read_byte` behind `has_more`.
  take_byte_lem :
      (a : BufferedStream W)
      → IsValid a
      → a.read_pos < a.read_max
      → (x : ℕ) × (take_byte io a ≡ returns (some x, record a { read_pos = a.read_pos + 1 }))
        × (contents a ≡ x ∷ contents (record a { read_pos = a.read_pos + 1 }))
  unfolding take_byte
  take_byte_lem a v h =
      let (x, found, shape) = window_cons a.read_pos a.read_max a.read_buffer h v.inside in
      let next : a.read_pos + 1 ≡ suc a.read_pos = omega arith in
      (
        x,
        ground (arith, found),
        ap (λ l. l ++ laws.incoming a.wrapped)
            (shape ∙ ap (λ p. x ∷ window p a.read_max a.read_buffer) (sym next)),
      )

  read_byte_more :
      (b a : BufferedStream W) {x : ℕ} {a' : BufferedStream W}
      → has_more io b ≡ returns (true, a)
      → take_byte io a ≡ returns (some x, a')
      → read_byte io b ≡ returns (some x, a')
  unfolding read_byte
  read_byte_more b a e f =
      ap (λ m. m >>= λ r. if r.0 then take_byte io r.1 else returns (none, r.1)) e ∙ f

  read_byte_done :
      (b a : BufferedStream W)
      → has_more io b ≡ returns (false, a)
      → read_byte io b ≡ returns (none, a)
  unfolding read_byte
  read_byte_done b a e =
      ap (λ m. m >>= λ r. if r.0 then take_byte io r.1 else returns (none, r.1)) e

  -- What `read_byte` answers on the bytes to come, and what it leaves.
  pub record Takes (b : BufferedStream W) : Type 0 where
    pub after : BufferedStream W
    pub returned : read_byte io b ≡ returns (head? (contents b), after)
    pub left : contents after ≡ tail (contents b)
    pub valid : IsValid after
    pub unread : contents b ≢ [] → 0 < after.read_pos

  -- Over a wrapped stream that keeps its contract and never answers a read with no bytes,
  -- `read_byte` with a valid buffer returns the first of the bytes to come, or `None` if there is
  -- none, and leaves the rest in a valid buffer.
  pub read_byte_refines : (b : BufferedStream W) → IsValid b → Takes b
  read_byte_refines b v = go (has_more_lem b v)
    where
      go : HasMore b → Takes b
      go r = elim (Bool-cases r.more) [
        | inl more ↦
            let (x, taken, shape) = take_byte_lem r.after r.valid (r.full more) in
            let seen = sym r.kept ∙ shape in
            record {
              after = record r.after { read_pos = r.after.read_pos + 1 };
              returned =
                  read_byte_more b r.after (r.returned ∙ ap (λ m. returns (m, r.after)) more) taken
                  ∙ ap (λ l. returns (head? l, record r.after { read_pos = r.after.read_pos + 1 }))
                      (sym seen);
              left = ap tail (sym seen);
              valid = omega (arith, r.full more, r.valid);
              unread = λ _. omega arith;
            }
        | inr done ↦
            let seen = sym r.kept ∙ r.empty done in
            record {
              after = r.after;
              returned =
                  read_byte_done b r.after (r.returned ∙ ap (λ m. returns (m, r.after)) done)
                  ∙ ap (λ l. returns (head? l, r.after)) (sym seen);
              left = r.empty done ∙ ap tail (sym seen);
              valid = r.valid;
              unread = λ h. absurd (h seen);
            }
      ]

  -- Over such a stream, a byte poked back into a valid buffer whose position is past its start
  -- comes next again, before the bytes that were to come, and the buffer is valid.
  poke_byte_refines :
      (x : ℕ) (b : BufferedStream W)
      → IsValid b
      → 0 < b.read_pos
      → (b' : BufferedStream W) × (poke_byte io x b ≡ returns b')
        × (contents b' ≡ x ∷ contents b)
        × IsValid b'
  unfolding poke_byte
  poke_byte_refines x b v h =
      let pos : ℕ = b.read_pos - 1 in
      let again : suc pos ≡ b.read_pos = omega arith in
      let back = record b { read_pos = pos; read_buffer = set b.read_buffer pos x } in
      (
        back,
        ground arith,
        ap (λ l. l ++ laws.incoming b.wrapped)
            (window-set pos b.read_max x b.read_buffer (omega arith) v.inside
              ∙ ap (λ p. x ∷ window p b.read_max b.read_buffer) again),
        omega (arith, length-set b.read_buffer pos x),
      )
