-- ===== src/Suggest.antt =====
-- crates/itaruby_semantic/src/check.rs: the suggestions of a diagnostic, `edit_distance`,
-- `closest_name` and `closest_const_key`. A text is the list of its characters.
pub mod Scripts
pub mod Rows
pub mod Distance
pub mod Order
pub mod Closest
mod Tests
use itaruby.Base.{
  ℕ, zero, suc, ◌+◌, ◌-◌, Bool, true, false, not, ◌&&◌, ◌||◌, List, [], ◌∷◌, Option, none, some,
  Text, ltb, leb, ◌==◌, nat_eq, text_eq, if◌then◌else◌, length,
}

abbrev pub min : ℕ → ℕ → ℕ
min a b = if leb a b then a else b

-- `a.abs_diff(b)`
abbrev pub abs_diff : ℕ → ℕ → ℕ
abs_diff a b = a - b + (b - a)

-- `(i..=i + b.len()).collect()`
unfoldable pub first_row : ℕ → Text → List ℕ
first_row i [] = i ∷ []
first_row i (c ∷ b) = i ∷ first_row (suc i) b

-- `usize::from(ca != *cb)`
abbrev pub cost : ℕ → ℕ → ℕ
cost ca cb = if ca == cb then 0 else 1

-- `cur[1..]`, from `cur[j]`, the rest of `prev` from `prev[j]`, and the rest of `b`.
unfoldable pub next_cells : ℕ → ℕ → List ℕ → Text → List ℕ
next_cells ca left (p ∷ q ∷ prev) (cb ∷ b) =
    let cell = min (min (suc q) (suc left)) (p + cost ca cb) in
    cell ∷ next_cells ca cell (q ∷ prev) b
next_cells ca left _ _ = []

-- `row_min`
unfoldable pub row_min : ℕ → List ℕ → ℕ
row_min least [] = least
row_min least (cell ∷ cells) = row_min (min least cell) cells

-- `prev[n]`
unfoldable pub cell_at : ℕ → List ℕ → ℕ
cell_at n [] = 0
cell_at zero (cell ∷ cells) = cell
cell_at (suc n) (cell ∷ cells) = cell_at n cells

-- The loop over the characters of `a`.
unfoldable pub rows : ℕ → Text → List ℕ → Text → ℕ
unfolding next_cells row_min cell_at
rows i [] prev b = cell_at (length b) prev
rows i (ca ∷ a) prev b =
    let cells = next_cells ca (suc i) prev b in
    let rest = rows (suc i) a (suc i ∷ cells) b in if ltb 2 (row_min (suc i) cells) then 3 else rest

unfoldable pub edit_distance : Text → Text → ℕ
unfolding rows first_row
edit_distance a b = if ltb 2 (abs_diff (length a) (length b)) then 3 else rows 0 a (first_row 0 b) b

-- `Ord` of `str`
abbrev pub text_ltb : Text → Text → Bool
text_ltb [] [] = false
text_ltb [] (d ∷ b) = true
text_ltb (c ∷ a) [] = false
text_ltb (c ∷ a) (d ∷ b) = ltb c d || c == d && text_ltb a b

-- `(d, key) < (bd, bk)`
abbrev pub pair_ltb : ℕ × Text → ℕ × Text → Bool
pair_ltb (d, key) (bd, bk) = ltb d bd || d == bd && text_ltb key bk

-- `best.is_none_or(|(bd, bk)| (d, key) < (bd, bk))`
abbrev pub beats : ℕ × Text → Option (ℕ × Text) → Bool
beats found none = true
beats found (some best) = pair_ltb found best

-- The body of the loop of `closest_const_key`.
unfoldable pub consider_const : Text → Option (ℕ × Text) → Text × Text → Option (ℕ × Text)
consider_const typo best (shown, key) =
    if shown == typo
    then best
    else let d = edit_distance typo shown in
      if ltb 2 d then best else if beats (d, key) best then some (d, key) else best

unfoldable pub const_loop : Text → Option (ℕ × Text) → List (Text × Text) → Option (ℕ × Text)
const_loop typo best [] = best
const_loop typo best (candidate ∷ candidates) =
    const_loop typo (consider_const typo best candidate) candidates

abbrev pub key_of : Option (ℕ × Text) → Option Text
key_of none = none
key_of (some (d, key)) = some key

unfoldable pub closest_const_key : Text → List (Text × Text) → Option Text
closest_const_key typo candidates = key_of (const_loop typo none candidates)

-- The body of the loop of `closest_name`.
unfoldable pub consider_name : Text → Option (ℕ × Text) → Text → Option (ℕ × Text)
consider_name typo best cand =
    if cand == typo
    then best
    else let d = edit_distance typo cand in
      if ltb 2 d then best else if beats (d, cand) best then some (d, cand) else best

unfoldable pub name_loop : Text → Option (ℕ × Text) → List Text → Option (ℕ × Text)
name_loop typo best [] = best
name_loop typo best (cand ∷ candidates) = name_loop typo (consider_name typo best cand) candidates

unfoldable pub closest_name : Text → List Text → Option Text
closest_name typo candidates = key_of (name_loop typo none candidates)
