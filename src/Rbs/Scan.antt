-- ===== src/Rbs/Scan.antt =====
-- crates/itaruby_semantic/src/rbs_comment.rs: the steps of `Parser` that read no type. The parser's
-- `s` and `pos` are here the input that is left.
use itaruby.Base.{
  ℕ, ◌+◌, ◌<◌, ◌≤◌, Bool, true, false, ◌&&◌, ◌||◌, [], ◌∷◌, Text, codes, ◌==◌, ◌≡◌, inl, inr, arith,
  if◌then◌else◌, leb, nat_eq, length, Bool-cases,
}
use itaruby.Rbs.Outcome.{
  expected, Outcome, ok, err, Parser, pure, fail, chain, ◌>>=◌, Leaves, left, failed,
}

unfoldable pub skip_ws : Text → Text
skip_ws [] = []
skip_ws (c ∷ s) = if c == b' ' || c == b'\t' then skip_ws s else c ∷ s

-- `self.peek() == Some(b)`
unfoldable pub peeks : ℕ → Text → Bool
peeks b [] = false
peeks b (c ∷ s) = c == b

-- `self.s.get(self.pos + 1) == Some(&b)`
unfoldable pub peeks_second : ℕ → Text → Bool
unfolding peeks
peeks_second b [] = false
peeks_second b (c ∷ s) = peeks b s

-- `self.pos += 1`
unfoldable pub advance : Text → Text
advance [] = []
advance (c ∷ s) = s

-- `advance` as a step of a parser.
unfoldable pub step : Parser (Unit {0})
unfolding advance
step s = ok tt (advance s)

unfoldable pub eat : ℕ → Parser Bool
unfolding peeks advance
eat b s = if peeks b s then ok true (advance s) else ok false s

unfoldable pub spaces : Parser (Unit {0})
unfolding skip_ws
spaces s = ok tt (skip_ws s)

-- `c.is_ascii_alphanumeric() || c == b'_'`
unfoldable pub is_lower : ℕ → Bool
is_lower c = leb b'a' c && leb c b'z'

unfoldable pub is_word : ℕ → Bool
unfolding is_lower
is_word c = is_lower c || (leb b'A' c && leb c b'Z') || (leb b'0' c && leb c b'9') || c == b'_'

abbrev pub cons_name : ℕ → Text × Text → Text × Text
cons_name c (name, rest) = (c ∷ name, rest)

-- The loop of `ident`: what it reads, and what is left.
unfoldable pub read_ident : Text → Text × Text
unfolding is_word
read_ident [] = ([], [])
read_ident (c ∷ []) = if is_word c then (c ∷ [], []) else ([], c ∷ [])
read_ident (c ∷ d ∷ s) = elim (is_word c) [
  | true ↦ cons_name c (read_ident (d ∷ s))
  | false ↦ elim (c == b':' && d == b':') [
    | true ↦ cons_name c (cons_name d (read_ident s))
    | false ↦ ([], c ∷ d ∷ s)
  ]
]

abbrev pub nonempty_ident : Text × Text → Outcome Text
nonempty_ident ([], rest) = err (expected (codes "identifier") rest)
nonempty_ident (c ∷ name, rest) = ok (c ∷ name) rest

unfoldable pub ident : Parser Text
unfolding read_ident
ident s = nonempty_ident (read_ident s)

-- `if self.ident().is_err() { self.pos = save; }`
unfoldable pub skip_param_name : Parser (Unit {0})
unfolding spaces read_ident
skip_param_name s = ok tt (read_ident (skip_ws s)).1

-- `self.eat(b'-') && self.eat(b'>')`
unfoldable pub eat_arrow : Parser Bool
unfolding eat
eat_arrow = do dash ← eat b'-'; if dash then eat b'>' else pure false

-- `if !(self.eat(b'-') && self.eat(b'>')) { return Err(…) }`
unfoldable pub expect_arrow : Text → Parser (Unit {0})
unfolding eat_arrow
expect_arrow what = do arrow ← eat_arrow; if arrow then pure tt else fail what

-- `if !self.eat(b) { return Err(…) }`
unfoldable pub expect : ℕ → Text → Parser (Unit {0})
unfolding eat
expect b what = do eaten ← eat b; if eaten then pure tt else fail what

pub length-skip_ws : (s : Text) → length (skip_ws s) ≤ length s
unfolding skip_ws
length-skip_ws [] = omega arith
length-skip_ws (c ∷ s) = ground (arith, length-skip_ws s)

pub spaces-Leaves : {n : ℕ} (s : Text) → length s < n → Leaves n (spaces s)
unfolding spaces
spaces-Leaves s h = left (omega (arith, length-skip_ws s))

pub length-advance_le : (s : Text) → length (advance s) ≤ length s
unfolding advance
length-advance_le [] = omega arith
length-advance_le (c ∷ s) = omega arith

pub step-Leaves : {n : ℕ} (s : Text) → length s < n → Leaves n (step s)
unfolding step
step-Leaves s h = left (omega (arith, h, length-advance_le s))

-- A byte that is eaten is no longer left.
length-advance : (b : ℕ) (s : Text) → peeks b s ≡ true → length (advance s) < length s
unfolding peeks advance
length-advance b [] h = cc
length-advance b (c ∷ s) h = omega arith

pub eat-Leaves {ℓ} :
    {A : Type ℓ} {n : ℕ} (b : ℕ) (s : Text) (next : Bool → Parser A)
    → (peeks b s ≡ true → length (advance s) < length s → Leaves n (next true (advance s)))
    → (peeks b s ≡ false → Leaves n (next false s))
    → Leaves n (chain (eat b s) next)
unfolding eat
eat-Leaves b s next yes_case no_case = elim (Bool-cases (peeks b s)) [
  | inl h ↦ rw (eat, h) (yes_case h (length-advance b s h))
  | inr h ↦ rw (eat, h) (no_case h)
]

pub eaten-Leaves : {n : ℕ} (b : ℕ) (s : Text) → length s < n → Leaves n (eat b s)
unfolding eat
eaten-Leaves b s h = elim (Bool-cases (peeks b s)) [
  | inl q ↦ rw (eat, q) (left (omega (arith, length-advance b s q)))
  | inr q ↦ rw (eat, q) (left h)
]

pub expect-Leaves : (b : ℕ) (what s : Text) → Leaves (length s) (expect b what s)
unfolding expect
expect-Leaves b what s = eat-Leaves b s _ (λ h l. left l) (λ h. failed)

pub expect_arrow-Leaves : (what s : Text) → Leaves (length s) (expect_arrow what s)
unfolding expect_arrow
expect_arrow-Leaves what s = elim (Bool-cases (peeks b'-' s)) [
  | inr h ↦ rw (eat_arrow, eat, h) failed
  | inl h ↦ elim (Bool-cases (peeks b'>' (advance s))) [
    | inr k ↦ rw (eat_arrow, eat, h, k) failed
    | inl k ↦
        rw (eat_arrow, eat, h, k)
          (left (omega (arith, length-advance b'-' s h, length-advance b'>' (advance s) k)))
  ]
]

pub length-read_ident : (s : Text) → length (read_ident s).0 + length (read_ident s).1 ≡ length s
unfolding read_ident
length-read_ident [] = omega arith
length-read_ident (c ∷ []) = ground arith
length-read_ident (c ∷ d ∷ s) = elim (Bool-cases (is_word c)) [
  | inl w ↦ rw (read_ident, w) (omega (arith, length-read_ident (d ∷ s)))
  | inr w ↦ elim (Bool-cases (c == b':' && d == b':')) [
    | inl q ↦ rw (read_ident, w, q) (omega (arith, length-read_ident s))
    | inr q ↦ rw (read_ident, w, q) (omega arith)
  ]
]

ident_of :
    (name rest : Text) {n : ℕ}
    → length name + length rest ≡ n
    → Leaves n (nonempty_ident (name, rest))
ident_of [] rest h = failed
ident_of (c ∷ name) rest h = left (omega (arith, h))

pub ident-Leaves : (s : Text) → Leaves (length s) (ident s)
unfolding ident
ident-Leaves s = ident_of (read_ident s).0 (read_ident s).1 (length-read_ident s)

pub skip_param_name-Leaves : {n : ℕ} (s : Text) → length s < n → Leaves n (skip_param_name s)
unfolding skip_param_name
skip_param_name-Leaves s h = left (omega (arith, length-skip_ws s, length-read_ident (skip_ws s)))
