-- ===== src/Rbs/Printer/Names.antt =====
-- `ident` reads a name that is written in front of a separator.
use itaruby.Base.{
  ℕ, Bool, true, false, ◌&&◌, ◌||◌, [], ◌∷◌, ◌++◌, Text, ◌==◌, ◌≡◌, refl, sym, ap, ◌∙◌, inl, inr,
  nat_eq, eq_of_beq, arith, Bool-cases,
}
use itaruby.Rbs.Outcome.{ok}
use itaruby.Rbs.Scan.{is_lower, is_word, cons_name, read_ident, ident}
use itaruby.Rbs.Printer.{IsName}

-- Two bytes that a test tells apart are not equal.
pub told_apart : (p : ℕ → Bool) (c b : ℕ) → p c ≡ true → p b ≡ false → (c == b) ≡ false
told_apart p c b pc pb = elim (Bool-cases (c == b)) [
  | inl e ↦ absurd (cc (eq_of_beq c b e, pc, pb))
  | inr e ↦ e
]

-- What may follow a name: no byte of a name, but for the single `:` of a keyword.
pub data Stops : Text → Type 0 where
  no_more : Stops []
  at_other : {c : ℕ} {s : Text} → is_word c ≡ false → (c == b':') ≡ false → Stops (c ∷ s)
  at_colon : {s : Text} → Stops (b':' ∷ b' ' ∷ s)

read_ident-word :
    (c : ℕ) (s : Text) → is_word c ≡ true → read_ident (c ∷ s) ≡ cons_name c (read_ident s)
unfolding read_ident
read_ident-word c [] w = rw (read_ident, w) refl
read_ident-word c (d ∷ s) w = rw (read_ident, w) refl

read_ident-path :
    (c d : ℕ) (s : Text)
    → is_word c ≡ false
    → (c == b':' && d == b':') ≡ true
    → read_ident (c ∷ d ∷ s) ≡ cons_name c (cons_name d (read_ident s))
unfolding read_ident
read_ident-path c d s w q = rw (read_ident, w, q) refl

read_ident-other :
    (c d : ℕ) (s : Text)
    → is_word c ≡ false
    → (c == b':' && d == b':') ≡ false
    → read_ident (c ∷ d ∷ s) ≡ ([], c ∷ d ∷ s)
unfolding read_ident
read_ident-other c d s w q = rw (read_ident, w, q) refl

read_ident-last : (c : ℕ) → is_word c ≡ false → read_ident (c ∷ []) ≡ ([], c ∷ [])
unfolding read_ident
read_ident-last c w = rw (read_ident, w) refl

pub read_ident-none : (s : Text) → Stops s → read_ident s ≡ ([], s)
unfolding read_ident is_word is_lower
read_ident-none s no_more = refl
read_ident-none (c ∷ []) (at_other w q) = read_ident-last c w
read_ident-none (c ∷ d ∷ s) (at_other w q) = read_ident-other c d s w (rw q refl)
read_ident-none _ at_colon = refl

pub read_ident-name :
    (name s : Text) → (read_ident name).1 ≡ [] → Stops s → read_ident (name ++ s) ≡ (name, s)
read_ident-name [] s h stop = read_ident-none s stop
read_ident-name (c ∷ []) s h stop = elim (Bool-cases (is_word c)) [
  | inl w ↦ rw (read_ident-word c s w, read_ident-none s stop) refl
  | inr w ↦ absurd (cc (h, read_ident-last c w))
]
read_ident-name (c ∷ d ∷ name) s h stop = elim (Bool-cases (is_word c)) [
  | inl w ↦
      let more : (read_ident (d ∷ name)).1 ≡ [] =
        ap (λ p. p.1) (sym (read_ident-word c (d ∷ name) w)) ∙ h in
      rw (read_ident-word c (d ∷ (name ++ s)) w, read_ident-name (d ∷ name) s more stop) refl
  | inr w ↦ elim (Bool-cases (c == b':' && d == b':')) [
    | inl q ↦
        let more : (read_ident name).1 ≡ [] =
          ap (λ p. p.1) (sym (read_ident-path c d name w q)) ∙ h in
        rw (read_ident-path c d (name ++ s) w q, read_ident-name name s more stop) refl
    | inr q ↦ absurd (cc (h, read_ident-other c d name w q))
  ]
]

pub ident-name : (name s : Text) → IsName name → Stops s → ident (name ++ s) ≡ ok name s
unfolding ident IsName
ident-name [] s (some_byte, h) stop = absurd (omega (arith, some_byte))
ident-name (c ∷ name) s (some_byte, h) stop = rw (read_ident-name (c ∷ name) s h stop) refl

-- The bytes that a name can begin with.
pub begins_name-name : (c : ℕ) (name : Text) → IsName (c ∷ name) → is_word c || c == b':' ≡ true
unfolding IsName
begins_name-name c [] (some_byte, h) = elim (Bool-cases (is_word c)) [
  | inl w ↦ rw w refl
  | inr w ↦ absurd (cc (h, read_ident-last c w))
]
begins_name-name c (d ∷ name) (some_byte, h) = elim (Bool-cases (is_word c)) [
  | inl w ↦ rw w refl
  | inr w ↦ elim (Bool-cases (c == b':')) [
    | inl q ↦ rw (w, q) refl
    | inr q ↦ absurd (cc (h, read_ident-other c d name w (rw q refl)))
  ]
]
