-- ===== src/Lines/RoundTrip.antt =====
-- The position of a place in a text leads back to the place.
use mathlib.Core.List.{append_assoc}
use itaruby.Base.{
  ℕ, suc, ◌+◌, ◌-◌, ◌<◌, ◌≤◌, ◌^◌, true, false, List, [], ◌∷◌, ◌++◌, some, Text, leb, ◌==◌, nat_eq,
  ◌≡◌, refl, sym, ap, ◌∙◌, length, get_elem?, arith, Bool-cases, inl, inr,
}
use itaruby.Lines.{
  u32, len_utf8, len_utf16, byte_len, starts_from, line_starts, slice, line_at, utf16_units, min_of,
  line_col, line_start, column_byte, map_or, offset,
}
use itaruby.Lines.Slices.{
  len_utf8_positive, len_utf16_positive, byte_len-append, utf16_units_le, leb_of_le, slice-append,
}
use itaruby.Lines.Starts.{
  u32_small, newlines, line_at-starts, LastLine, last_line, line_end, line_end-rest, map_or-starts,
  get_elem?-next,
}

-- The loop stops behind the characters whose units make up the column.
column_byte-units :
    (line more : Text) (stop col units at : ℕ)
    → col ≡ units + utf16_units line
    → col < 2 ^ 32
    → stop ≡ at + byte_len (line ++ more)
    → column_byte stop col units at (line ++ more) ≡ at + byte_len line
unfolding column_byte utf16_units byte_len
column_byte-units [] [] stop col units at e small f = f
column_byte-units [] (c ∷ more) stop col units at e small f =
    let reached : leb col units ≡ true = leb_of_le col units (omega (arith, e)) in
    rw reached (omega arith)
column_byte-units (c ∷ line) more stop col units at e small f =
    let ahead : leb col units ≡ false = ground (arith, e, len_utf16_positive c) in
    let exact : u32 (units + len_utf16 c) ≡ units + len_utf16 c =
      u32_small _ (omega (arith, e, small)) in
    rw (ahead, exact)
      (column_byte-units line more stop col (units + len_utf16 c) (at + len_utf8 c)
          (omega (arith, e)) small (omega (arith, f))
        ∙ omega arith)

newlines_le : (s : Text) → newlines s ≤ byte_len s
unfolding byte_len
newlines_le [] = omega arith
newlines_le (c ∷ s) = elim (Bool-cases (c == b'\n')) [
  | inl n ↦ rw n (omega (arith, newlines_le s, len_utf8_positive c))
  | inr n ↦ rw n (omega (arith, newlines_le s))
]

newlines-index : (pre post : Text) (i : ℕ) → newlines pre ≤ length (starts_from i (pre ++ post))
unfolding starts_from
newlines-index [] post i = omega arith
newlines-index (c ∷ pre) post i = elim (Bool-cases (c == b'\n')) [
  | inl n ↦ rw n (omega (arith, newlines-index pre post (i + len_utf8 c)))
  | inr n ↦ rw n (newlines-index pre post (i + len_utf8 c))
]

min_of_left : (a b : ℕ) → a ≤ b → min_of a b ≡ a
min_of_left a b h = rw (leb_of_le a b h) refl

-- The steps of `line_col` and of `offset`, each given what it comes to.
line_col-steps :
    (starts : List ℕ) (text before line : Text) (o l start : ℕ)
    → min_of o (byte_len text) ≡ o
    → line_at 0 (u32 o) starts ≡ l
    → get_elem? starts l ≡ some start
    → slice text start o ≡ some line
    → u32 l ≡ l
    → u32 (utf16_units line) ≡ utf16_units line
    → line_col starts text o ≡ some (l, utf16_units line)
unfolding line_col
line_col-steps starts text before line o l start e f g h i j = rw (e, f, g, h) (ap some (cc (i, j)))

offset-steps :
    (starts : List ℕ) (text chars : Text) (l col start stop o : ℕ)
    → line_start starts l ≡ some start
    → map_or (byte_len text) (get_elem? starts (suc l)) ≡ stop
    → slice text start stop ≡ some chars
    → column_byte stop col 0 start chars ≡ o
    → offset starts text l col ≡ some o
unfolding offset
offset-steps starts text chars l col start stop o e f g h = rw (e, f, g, h) refl

line_start-within :
    (starts : List ℕ) (l start : ℕ)
    → l ≤ length starts - 1
    → get_elem? starts l ≡ some start
    → line_start starts l ≡ some start
unfolding line_start
line_start-within starts l start h e = rw (min_of_left l (length starts - 1) h) e

-- The last line of `pre`, from the beginning of the text.
start_of : (pre post : Text) → byte_len (pre ++ post) < 2 ^ 32 → LastLine pre post [] 0 0
unfolding byte_len
start_of pre post small = last_line pre post [] [] [] refl (omega (arith, small))

-- In a text of fewer than 2^32 bytes, every place between two characters, at either end too, has a
-- position by line_col, and offset leads from that position back to the place.
pub offset-line_col :
    (pre post : Text)
    → byte_len (pre ++ post) < 2 ^ 32
    → (line col : ℕ) × (line_col (line_starts (pre ++ post)) (pre ++ post) (byte_len pre)
        ≡ some (line, col))
      × (offset (line_starts (pre ++ post)) (pre ++ post) line col ≡ some (byte_len pre))
unfolding line_starts
offset-line_col pre post small =
    let text = pre ++ post in
    let starts = 0 ∷ starts_from 0 text in
    let o = byte_len pre in
    let l = newlines pre in
    let total = byte_len-append pre post in
    let found = start_of pre post small in
    let start = byte_len found.before in
    let col = utf16_units found.line in
    let (rest, cut) = line_end-rest post in
    let stop = o + byte_len (line_end post) in
    let place : o ≡ start + byte_len found.line =
      ap byte_len found.whole ∙ byte_len-append found.before found.line in
    let first : text ≡ found.before ++ (found.line ++ post) =
      ap (λ r. r ++ post) found.whole ∙ append_assoc found.before found.line post in
    let second : text ≡ found.before ++ ((found.line ++ line_end post) ++ rest) =
      first
      ∙ ap (λ r. found.before ++ r)
          (ap (λ r. found.line ++ r) cut ∙ sym (append_assoc found.line (line_end post) rest)) in
    let few = newlines_le pre in
    let narrow = utf16_units_le found.line in
    let u32_o = u32_small o (omega (arith, total, small)) in
    let at_l : line_at 0 (u32 o) starts ≡ l =
      ap (λ x. line_at 0 x starts) u32_o
      ∙ line_at-starts pre post 0 0 0 o (omega arith) (omega (arith, small)) (omega arith)
      ∙ omega arith in
    let sliced : slice text start o ≡ some found.line =
      ap (λ r. slice r start o) first
      ∙ slice-append found.before found.line post start o refl place in
    let wider : slice text start stop ≡ some (found.line ++ line_end post) =
      ap (λ r. slice r start stop) second
      ∙ slice-append found.before (found.line ++ line_end post) rest start stop refl
          (omega (arith, place, byte_len-append found.line (line_end post))) in
    let next : map_or (byte_len text) (get_elem? starts (suc l)) ≡ stop =
      ap (map_or (byte_len text))
        (get_elem?-next pre post 0 0 o (omega (arith, small)) (omega arith))
      ∙ map_or-starts post o (byte_len text) total small in
    let started : line_start starts l ≡ some start =
      line_start-within starts l start (omega (arith, newlines-index pre post 0)) found.start_at in
    let back : column_byte stop col 0 start (found.line ++ line_end post) ≡ o =
      column_byte-units found.line (line_end post) stop col 0 start (omega arith)
        (omega (arith, narrow, place, total, small))
        (omega (arith, place, byte_len-append found.line (line_end post)))
      ∙ sym place in
    (
      l,
      col,
      line_col-steps starts text found.before found.line o l start
          (min_of_left o (byte_len text) (omega (arith, total))) at_l found.start_at sliced
          (u32_small l (omega (arith, few, total, small)))
          (u32_small col (omega (arith, narrow, place, total, small))),
      offset-steps starts text (found.line ++ line_end post) l col start stop o started next wider
          back,
    )
