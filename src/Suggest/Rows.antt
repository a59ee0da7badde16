-- ===== src/Suggest/Rows.antt =====
-- The rows of `edit_distance`: row `i` holds the distances of the first `i` characters of `a` to the
-- beginnings of `b`.
use mathlib.Core.Path.{subst}
use itaruby.Base.{
  ℕ, suc, ◌+◌, ◌≤◌, List, [], ◌∷◌, ◌++◌, Text, ◌==◌, ◌≡◌, refl, sym, ap, ◌⊎◌, inl, inr, nat_eq,
  eq_of_beq, Bool-cases, length, arith,
}
use itaruby.Suggest.{min, cost, first_row, next_cells, row_min, cell_at}
use itaruby.Suggest.Scripts.{Script, done, keep, replace, delete, insert, onto}

-- The distance by recursion on both texts, the row of one more character from the row before.
abbrev pub dist_row : ℕ → (Text → ℕ) → Text → ℕ
dist_row c above [] = suc (above [])
dist_row c above (d ∷ b) =
    min (min (suc (above (d ∷ b))) (suc (dist_row c above b))) (above b + cost c d)

abbrev pub dist : Text → Text → ℕ
dist [] b = length b
dist (c ∷ a) b = dist_row c (dist a) b

least_le : (x y z : ℕ) → (min (min x y) z ≤ x) × (min (min x y) z ≤ y) × (min (min x y) z ≤ z)
least_le x y z = (ground arith, ground arith, ground arith)

least-cases : (x y z : ℕ) → (min (min x y) z ≡ x) ⊎ (min (min x y) z ≡ y) ⊎ (min (min x y) z ≡ z)
least-cases x y z = ground arith

cost-cases : (c d : ℕ) → ((c ≡ d) × (cost c d ≡ 0)) ⊎ (cost c d ≡ 1)
cost-cases c d = elim (Bool-cases (c == d)) [
  | inl h ↦ inl (eq_of_beq c d h, rw h refl)
  | inr h ↦ inr (rw h refl)
]

dist-delete : (c : ℕ) (a b : Text) → dist (c ∷ a) b ≤ suc (dist a b)
dist-delete c a [] = omega arith
dist-delete c a (d ∷ b) =
    (least_le (suc (dist a (d ∷ b))) (suc (dist (c ∷ a) b)) (dist a b + cost c d)).0

dist-insert : (d : ℕ) (a b : Text) → dist a (d ∷ b) ≤ suc (dist a b)
dist-insert d [] b = omega arith
dist-insert d (c ∷ a) b =
    (least_le (suc (dist a (d ∷ b))) (suc (dist (c ∷ a) b)) (dist a b + cost c d)).1

dist-both : (c d : ℕ) (a b : Text) → dist (c ∷ a) (d ∷ b) ≤ dist a b + cost c d
dist-both c d a b = (least_le (suc (dist a (d ∷ b))) (suc (dist (c ∷ a) b)) (dist a b + cost c d)).2

cost_le : (c d : ℕ) → cost c d ≤ 1
cost_le c d = ground arith

cost_same : (c : ℕ) → cost c c ≡ 0
cost_same c = ground arith

-- No script is shorter than the distance.
pub dist-least : (a b : Text) (n : ℕ) → Script a b n → dist a b ≤ n
dist-least _ _ _ done = omega arith
dist-least _ _ _ (keep {a} {b} {n} c s) =
    omega (arith, dist-both c c a b, cost_same c, dist-least a b n s)
dist-least _ _ _ (replace {a} {b} {n} c d s) =
    omega (arith, dist-both c d a b, cost_le c d, dist-least a b n s)
dist-least _ _ _ (delete {a} {b} {n} c s) = omega (arith, dist-delete c a b, dist-least a b n s)
dist-least _ _ _ (insert {a} {b} {n} d s) = omega (arith, dist-insert d a b, dist-least a b n s)

Script-both : (c d : ℕ) (a b : Text) (n : ℕ) → Script a b n → Script (c ∷ a) (d ∷ b) (n + cost c d)
Script-both c d a b n s = elim (cost-cases c d) [
  | inl (same, h) ↦
      rw (sym same) (subst (Script (c ∷ a) (c ∷ b)) (omega (arith, cost_same c)) (keep c s))
  | inr h ↦ subst (Script (c ∷ a) (d ∷ b)) (omega (arith, h)) (replace c d s)
]

-- The distance is the length of a script.
pub Script-dist : (a b : Text) → Script a b (dist a b)
Script-dist [] [] = done
Script-dist [] (d ∷ b) = insert d (Script-dist [] b)
Script-dist (c ∷ a) [] = delete c (Script-dist a [])
Script-dist (c ∷ a) (d ∷ b) =
    elim (least-cases (suc (dist a (d ∷ b))) (suc (dist (c ∷ a) b)) (dist a b + cost c d)) [
      | inl e ↦ subst (Script (c ∷ a) (d ∷ b)) (sym e) (delete c (Script-dist a (d ∷ b)))
      | inr (inl e) ↦ subst (Script (c ∷ a) (d ∷ b)) (sym e) (insert d (Script-dist (c ∷ a) b))
      | inr (inr e) ↦
          subst (Script (c ∷ a) (d ∷ b)) (sym e) (Script-both c d a b (dist a b) (Script-dist a b))
    ]

-- The row of the distances `above` has from the beginnings of a text, the first of them `rb` reversed.
abbrev pub cells : (Text → ℕ) → Text → Text → List ℕ
cells above rb [] = above rb ∷ []
cells above rb (d ∷ b) = above rb ∷ cells above (d ∷ rb) b

pub first_row-cells : (rb b : Text) → first_row (length rb) b ≡ cells (dist []) rb b
unfolding first_row
first_row-cells rb [] = refl
first_row-cells rb (d ∷ b) = ap (λ r. length rb ∷ r) (first_row-cells (d ∷ rb) b)

pub next_cells-row :
    (c : ℕ) (above : Text → ℕ) (rb b : Text)
    → dist_row c above rb ∷ next_cells c (dist_row c above rb) (cells above rb b) b
      ≡ cells (dist_row c above) rb b
unfolding next_cells
next_cells-row c above rb [] = refl
next_cells-row c above rb (d ∷ []) =
    ap (λ r. dist_row c above rb ∷ r) (next_cells-row c above (d ∷ rb) [])
next_cells-row c above rb (d ∷ e ∷ b) =
    ap (λ r. dist_row c above rb ∷ r) (next_cells-row c above (d ∷ rb) (e ∷ b))

pub cell_at-cells :
    (above : Text → ℕ) (rb b : Text) → cell_at (length b) (cells above rb b) ≡ above (onto b rb)
unfolding cell_at
cell_at-cells above rb [] = refl
cell_at-cells above rb (d ∷ b) = cell_at-cells above (d ∷ rb) b

row_min_le : (m : ℕ) (row : List ℕ) → row_min m row ≤ m
unfolding row_min
row_min_le m [] = omega arith
row_min_le m (cell ∷ row) = ground (arith, row_min_le (min m cell) row)

-- No cell of a row is smaller than its minimum.
pub row_min-cells :
    (m : ℕ) (above : Text → ℕ) (rb b₁ b₂ : Text)
    → row_min m (cells above rb (b₁ ++ b₂)) ≤ above (onto b₁ rb)
unfolding row_min
row_min-cells m above rb [] [] = ground arith
row_min-cells m above rb [] (d ∷ b₂) =
    ground (arith, row_min_le (min m (above rb)) (cells above (d ∷ rb) b₂))
row_min-cells m above rb (d ∷ b₁) b₂ = row_min-cells (min m (above rb)) above (d ∷ rb) b₁ b₂

pub row_min_again : (m : ℕ) (row : List ℕ) → row_min m (m ∷ row) ≡ row_min m row
unfolding row_min
row_min_again m row = ap (λ k. row_min k row) (ground arith)
