-- ===== src/Cli/Location.antt =====
-- `parse_location_arg` accepts exactly `<path>:<line>:<col>`, with any colons in the path.
use mathlib.Core.Path.{subst}
use mathlib.Core.Option.{some-injective}
use itaruby.Base.{
  ℕ, ◌<◌, false, [], ◌∷◌, ◌++◌, none, some, Text, ◌==◌, ◌≡◌, ◌↔◌, refl, ap, ◌∙◌, nat_eq, length,
  arith, Bool-cases, Option-cases, inl, inr, beq_refl, eq_of_beq, Every, every_nil, every_cons,
  bind-eq-some,
}
use itaruby.Cli.{rsplit_once, parse_u32, one_based, parse_location_arg}

abbrev pub OtherThan : ℕ → ℕ → Type 0
OtherThan b c = (c == b) ≡ false

rsplit_once-none : (b : ℕ) (s : Text) → Every (OtherThan b) s → rsplit_once b s ≡ none
unfolding rsplit_once
rsplit_once-none b _ every_nil = refl
rsplit_once-none b _ (every_cons {a = c} {rest = s} h hs) = rw (rsplit_once-none b s hs, h) refl

none-OtherThan : (b : ℕ) (s : Text) → rsplit_once b s ≡ none → Every (OtherThan b) s
unfolding rsplit_once
none-OtherThan b [] e = every_nil
none-OtherThan b (c ∷ s) e = elim (Option-cases (rsplit_once b s)) [
  | inr (p, f) ↦ absurd (cc (rw f at e))
  | inl f ↦ elim (Bool-cases (c == b)) [
    | inl h ↦ absurd (cc (rw (f, h) at e))
    | inr h ↦ every_cons h (none-OtherThan b s f)
  ]
]

rsplit_once-append :
    (b : ℕ) (before after : Text)
    → Every (OtherThan b) after
    → rsplit_once b (before ++ (b ∷ after)) ≡ some (before, after)
unfolding rsplit_once
rsplit_once-append b [] after h = rw (rsplit_once-none b after h, beq_refl b) refl
rsplit_once-append b (c ∷ before) after h = rw (rsplit_once-append b before after h) refl

append-rsplit_once :
    (b : ℕ) (s : Text) (before after : Text)
    → rsplit_once b s ≡ some (before, after)
    → (s ≡ before ++ (b ∷ after)) × Every (OtherThan b) after
unfolding rsplit_once
append-rsplit_once b [] before after e = absurd (cc e)
append-rsplit_once b (c ∷ s) before after e = elim (Option-cases (rsplit_once b s)) [
  | inr ((x, y), f) ↦
      let (whole, free) = append-rsplit_once b s x y f in
      subst (λ q. (c ∷ s ≡ q.0 ++ (b ∷ q.1)) × Every (OtherThan b) q.1)
        (some-injective _ _ (rw f at e)) (ap (λ r. c ∷ r) whole, free)
  | inl f ↦ elim (Bool-cases (c == b)) [
    | inl h ↦
        subst (λ q. (c ∷ s ≡ q.0 ++ (b ∷ q.1)) × Every (OtherThan b) q.1)
          (some-injective _ _ (rw (f, h) at e))
          (ap (λ r. r ∷ s) (eq_of_beq c b h), none-OtherThan b s f)
    | inr h ↦ absurd (cc (rw (f, h) at e))
  ]
]

-- The argument is a path, a line and a column with colons between them.
abbrev pub Location : Text → Text → ℕ → ℕ → Type 0
Location arg path line col =
    (line_str col_str : Text) × (arg ≡ (path ++ (b':' ∷ line_str)) ++ (b':' ∷ col_str))
    × Every (OtherThan b':') line_str
    × Every (OtherThan b':') col_str
    × (parse_u32 line_str ≡ some line)
    × (parse_u32 col_str ≡ some col)
    × (0 < length path)
    × (0 < line)
    × (0 < col)

one_based-some :
    (p : Text) (l c : ℕ) (path : Text) (line col : ℕ)
    → one_based p l c ≡ some (path, (line, col))
    → (p ≡ path) × (l ≡ line) × (c ≡ col) × (0 < length path) × (0 < line) × (0 < col)
one_based-some [] l c path line col e = absurd (cc e)
one_based-some (b ∷ p) l c path line col e = elim (Bool-cases (l == 0)) [
  | inl z ↦ absurd (cc (rw z at e))
  | inr z ↦ elim (Bool-cases (c == 0)) [
    | inl w ↦ absurd (cc (rw (z, w) at e))
    | inr w ↦
        let same = some-injective _ _ (rw (z, w) at e) in
        let same_path : b ∷ p ≡ path = ap (λ q. q.0) same in
        let same_line : l ≡ line = ap (λ q. q.1.0) same in
        let same_col : c ≡ col = ap (λ q. q.1.1) same in
        (
          same_path,
          same_line,
          same_col,
          subst (λ q. 0 < length q) same_path (omega arith),
          ground (arith, z, same_line),
          ground (arith, w, same_col),
        )
  ]
]

not_zero : (n : ℕ) → 0 < n → (n == 0) ≡ false
not_zero n h = ground (arith, h)

some-one_based :
    (path : Text) (line col : ℕ)
    → 0 < length path
    → 0 < line
    → 0 < col
    → one_based path line col ≡ some (path, (line, col))
some-one_based [] line col h k l = absurd (omega (arith, h))
some-one_based (b ∷ path) line col h k l = rw (not_zero line k, not_zero col l) refl

-- parse_location_arg accepts an argument as a path, a line and a column exactly if the argument is
-- the path, a colon, a text that parses to the line, a colon and a text that parses to the column,
-- with no colon in these two texts, the path not empty, and line and column greater than 0; it
-- refuses every other argument.
pub parse_location_arg_iff :
    (arg path : Text) (line col : ℕ)
    → (parse_location_arg arg ≡ some (path, (line, col))) ↔ Location arg path line col
unfolding parse_location_arg
parse_location_arg_iff arg path line col = (
  (λ e.
      let ((rest, col_str), f, g) = bind-eq-some (rsplit_once b':' arg) _ e in
      let (c, h, i) = bind-eq-some (parse_u32 col_str) _ g in
      let ((p, line_str), j, k) = bind-eq-some (rsplit_once b':' rest) _ i in
      let (l, m, n) = bind-eq-some (parse_u32 line_str) _ k in
      let (same_path, same_line, same_col, some_path, some_line, some_col) =
        one_based-some p l c path line col n in
      let (whole, free) = append-rsplit_once b':' arg rest col_str f in
      let (front, clear) = append-rsplit_once b':' rest p line_str j in
      (
        line_str,
        col_str,
        whole
            ∙ ap (λ r. r ++ (b':' ∷ col_str)) (front ∙ ap (λ r. r ++ (b':' ∷ line_str)) same_path),
        clear,
        free,
        m ∙ ap some same_line,
        h ∙ ap some same_col,
        some_path,
        some_line,
        some_col,
      )),
  (λ (line_str, col_str, whole, clear, free, m, h, some_path, some_line, some_col).
      rw
        (
          whole,
          rsplit_once-append b':' (path ++ (b':' ∷ line_str)) col_str free,
          h,
          rsplit_once-append b':' path line_str clear,
          m,
        )
        (some-one_based path line col some_path some_line some_col)),
)
