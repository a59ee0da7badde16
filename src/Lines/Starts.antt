-- ===== src/Lines/Starts.antt =====
-- The starts of the lines on both sides of a place in a text.
use mathlib.Core.Path.{subst}
use mathlib.Core.List.{append-nil, append_assoc}
use itaruby.Base.{
  ℕ, suc, ◌+◌, ◌<◌, ◌≤◌, ◌^◌, true, false, List, [], ◌∷◌, ◌++◌, some, Text, ltb, ◌==◌, ◌≡◌, refl,
  sym, ap, ◌∙◌, nat_eq, eq_of_beq, beq_refl, if◌then◌else◌, get_elem?, arith, Bool-cases, inl, inr,
}
use itaruby.Lines.{u32, len_utf8, byte_len, starts_from, line_at, map_or}
use itaruby.Lines.Slices.{byte_len-append}

pub u32_small : (n : ℕ) → n < 2 ^ 32 → u32 n ≡ n
u32_small n h = omega (arith, h)

newline_len : (c : ℕ) → (c == b'\n') ≡ true → len_utf8 c ≡ 1
newline_len c h = ground (arith, h)

-- The lines that a text completes.
abbrev pub newlines : Text → ℕ
newlines [] = 0
newlines (c ∷ s) = if c == b'\n' then suc (newlines s) else newlines s

starts_from-newline :
    (i c : ℕ) (s : Text)
    → (c == b'\n') ≡ true
    → i + byte_len (c ∷ s) < 2 ^ 32
    → starts_from i (c ∷ s) ≡ suc i ∷ starts_from (suc i) s
unfolding starts_from byte_len
starts_from-newline i c s h small =
    let one = newline_len c h in
    let step : i + len_utf8 c ≡ suc i = omega (arith, one) in
    let exact : u32 (u32 i + 1) ≡ suc i = omega (arith, small, one) in rw (h, step, exact) refl

starts_from-other :
    (i c : ℕ) (s : Text)
    → (c == b'\n') ≡ false
    → starts_from i (c ∷ s) ≡ starts_from (i + len_utf8 c) s
unfolding starts_from
starts_from-other i c s h = rw h refl

line_at-equal : (l x : ℕ) (starts : List ℕ) → line_at l x (x ∷ starts) ≡ l
unfolding line_at
line_at-equal l x starts = rw (beq_refl x) refl

line_at-past :
    (l x start : ℕ) (starts : List ℕ)
    → start < x
    → line_at l x (start ∷ starts) ≡ line_at (suc l) x starts
unfolding line_at
line_at-past l x start starts h =
    let differ : (start == x) ≡ false = ground (arith, h) in
    let after : ltb x start ≡ false = ground (arith, h) in rw (differ, after) refl

line_at-before :
    (l x start : ℕ) (starts : List ℕ) → x < start → line_at (suc l) x (start ∷ starts) ≡ l
unfolding line_at
line_at-before l x start starts h =
    let differ : (start == x) ≡ false = ground (arith, h) in
    let after : ltb x start ≡ true = ground (arith, h) in rw (differ, after) (omega arith)

line_at-none : (l x : ℕ) → line_at (suc l) x [] ≡ l
unfolding line_at
line_at-none l x = omega arith

-- The starts after a place are greater than it.
line_at-later :
    (l x i : ℕ) (s : Text)
    → x ≤ i
    → i + byte_len s < 2 ^ 32
    → line_at (suc l) x (starts_from i s) ≡ l
unfolding starts_from byte_len
line_at-later l x i [] h small = line_at-none l x
line_at-later l x i (c ∷ s) h small = elim (Bool-cases (c == b'\n')) [
  | inl n ↦
      ap (line_at (suc l) x) (starts_from-newline i c s n small)
      ∙ line_at-before l x (suc i) (starts_from (suc i) s) (omega (arith, h))
  | inr n ↦
      ap (line_at (suc l) x) (starts_from-other i c s n)
      ∙ line_at-later l x (i + len_utf8 c) s (omega (arith, h)) (omega (arith, small))
]

-- The line found for the place after `pre`, from a line `l` that starts at `start`, with `i` bytes read.
pub line_at-starts :
    (pre post : Text) (l start i x : ℕ)
    → start ≤ i
    → i + byte_len (pre ++ post) < 2 ^ 32
    → x ≡ i + byte_len pre
    → line_at l x (start ∷ starts_from i (pre ++ post)) ≡ l + newlines pre
unfolding byte_len
line_at-starts [] post l start i x h small e = elim (Bool-cases (start == x)) [
  | inl same ↦
      let here : x ≡ start = sym (eq_of_beq start x same) in
      ap (λ y. line_at l y (start ∷ starts_from i post)) here
      ∙ line_at-equal l start (starts_from i post)
      ∙ omega arith
  | inr differ ↦
      line_at-past l x start (starts_from i post) (ground (arith, differ, h, e))
      ∙ line_at-later l x i post (omega (arith, e)) small
      ∙ omega arith
]
line_at-starts (c ∷ pre) post l start i x h small e = elim (Bool-cases (c == b'\n')) [
  | inl n ↦
      let one = newline_len c n in
      rw n (
        ap (λ r. line_at l x (start ∷ r)) (starts_from-newline i c (pre ++ post) n small)
        ∙ line_at-past l x start (suc i ∷ starts_from (suc i) (pre ++ post))
            (omega (arith, one, e, h))
        ∙ line_at-starts pre post (suc l) (suc i) (suc i) x (omega arith)
            (omega (arith, one, small)) (omega (arith, one, e))
        ∙ omega arith)
  | inr n ↦ rw n (
      ap (λ r. line_at l x (start ∷ r)) (starts_from-other i c (pre ++ post) n)
      ∙ line_at-starts pre post l start (i + len_utf8 c) x (omega (arith, h)) (omega (arith, small))
          (omega (arith, e)))
]

-- The last line of `pre`, of which `read` was read before: what stands before it, and where it starts.
pub record LastLine (pre post read : Text) (start i : ℕ) : Type 0 where
  pub before : Text
  pub line : Text
  pub whole : read ++ pre ≡ before ++ line
  pub start_at :
      get_elem? (start ∷ starts_from i (pre ++ post)) (newlines pre) ≡ some (byte_len before)

byte_len-one : (c : ℕ) → byte_len (c ∷ []) ≡ len_utf8 c
unfolding byte_len
byte_len-one c = omega arith

byte_len-snoc : (s : Text) (c : ℕ) → byte_len (s ++ (c ∷ [])) ≡ byte_len s + len_utf8 c
byte_len-snoc s c = byte_len-append s (c ∷ []) ∙ omega (arith, byte_len-one c)

pub last_line :
    (pre post read done cur : Text)
    → read ≡ done ++ cur
    → byte_len read + byte_len (pre ++ post) < 2 ^ 32
    → LastLine pre post read (byte_len done) (byte_len read)
unfolding byte_len
last_line [] post read done cur e small = record {
  before = done;
  line = cur;
  whole = append-nil read ∙ e;
  start_at = refl;
}
last_line (c ∷ pre) post read done cur e small = elim (Bool-cases (c == b'\n')) [
  | inl n ↦
      let longer = read ++ (c ∷ []) in
      let one = newline_len c n in
      let next : suc (byte_len read) ≡ byte_len longer = omega (arith, one, byte_len-snoc read c) in
      let found =
        last_line pre post longer longer [] (sym (append-nil longer))
          (omega (arith, small, next, one)) in
      record {
        before = found.before;
        line = found.line;
        whole = sym (append_assoc read (c ∷ []) pre) ∙ found.whole;
        start_at = rw n (
            ap (λ r. get_elem? r (newlines pre))
              (starts_from-newline (byte_len read) c (pre ++ post) n small)
            ∙ subst
                (λ k.
                  get_elem? (k ∷ starts_from k (pre ++ post)) (newlines pre)
                  ≡ some (byte_len found.before))
                (sym next) found.start_at);
      }
  | inr n ↦
      let longer = read ++ (c ∷ []) in
      let next : byte_len read + len_utf8 c ≡ byte_len longer =
        omega (arith, byte_len-snoc read c) in
      let grown : longer ≡ done ++ (cur ++ (c ∷ [])) =
        ap (λ r. r ++ (c ∷ [])) e ∙ append_assoc done cur (c ∷ []) in
      let found =
        last_line pre post longer done (cur ++ (c ∷ [])) grown (omega (arith, small, next)) in
      record {
        before = found.before;
        line = found.line;
        whole = sym (append_assoc read (c ∷ []) pre) ∙ found.whole;
        start_at = rw n (
            ap (λ r. get_elem? (byte_len done ∷ r) (newlines pre))
              (starts_from-other (byte_len read) c (pre ++ post) n)
            ∙ subst
                (λ k.
                  get_elem? (byte_len done ∷ starts_from k (pre ++ post)) (newlines pre)
                  ≡ some (byte_len found.before))
                (sym next) found.start_at);
      }
]

-- The rest of a line up to its end, and what follows.
abbrev pub line_end : Text → Text
line_end [] = []
line_end (c ∷ s) = if c == b'\n' then c ∷ [] else c ∷ line_end s

pub line_end-rest : (s : Text) → (rest : Text) × (s ≡ line_end s ++ rest)
line_end-rest [] = ([], refl)
line_end-rest (c ∷ s) = elim (Bool-cases (c == b'\n')) [
  | inl n ↦ (s, rw n refl)
  | inr n ↦ let (rest, e) = line_end-rest s in (rest, rw n (ap (λ r. c ∷ r) e))
]

-- The next start, or the end of the text.
pub map_or-starts :
    (s : Text) (i stop : ℕ)
    → stop ≡ i + byte_len s
    → stop < 2 ^ 32
    → map_or stop (get_elem? (starts_from i s) 0) ≡ i + byte_len (line_end s)
unfolding byte_len starts_from
map_or-starts [] i stop e small = e
map_or-starts (c ∷ s) i stop e small = elim (Bool-cases (c == b'\n')) [
  | inl n ↦
      let one = newline_len c n in
      ap (λ r. map_or stop (get_elem? r 0)) (starts_from-newline i c s n (omega (arith, e, small)))
      ∙ rw n (omega (arith, one))
  | inr n ↦
      ap (λ r. map_or stop (get_elem? r 0)) (starts_from-other i c s n)
      ∙ map_or-starts s (i + len_utf8 c) stop (omega (arith, e)) small
      ∙ rw n (omega arith)
]

-- The index of the next start is past the starts of `pre`.
pub get_elem?-next :
    (pre post : Text) (start i k : ℕ)
    → i + byte_len (pre ++ post) < 2 ^ 32
    → k ≡ i + byte_len pre
    → get_elem? (start ∷ starts_from i (pre ++ post)) (suc (newlines pre))
      ≡ get_elem? (starts_from k post) 0
unfolding byte_len
get_elem?-next [] post start i k small e =
    ap (λ j. get_elem? (starts_from j post) 0) (omega (arith, e))
get_elem?-next (c ∷ pre) post start i k small e = elim (Bool-cases (c == b'\n')) [
  | inl n ↦
      let one = newline_len c n in
      rw n (
        ap (λ r. get_elem? r (suc (newlines pre))) (starts_from-newline i c (pre ++ post) n small)
        ∙ get_elem?-next pre post (suc i) (suc i) k (omega (arith, small, one))
            (omega (arith, e, one)))
  | inr n ↦ rw n (
      ap (λ r. get_elem? (start ∷ r) (suc (newlines pre))) (starts_from-other i c (pre ++ post) n)
      ∙ get_elem?-next pre post start (i + len_utf8 c) k (omega (arith, small)) (omega (arith, e)))
]
