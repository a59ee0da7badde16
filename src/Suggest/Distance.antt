-- ===== src/Suggest/Distance.antt =====
-- `edit_distance` up to its cutoff.
use mathlib.Core.Path.{subst}
use itaruby.Base.{
  ℕ, suc, ◌<◌, ◌≤◌, List, [], ◌∷◌, ◌++◌, Text, ltb, ◌≡◌, refl, sym, ◌∙◌, ap, ◌⊎◌, inl, inr,
  Bool-cases, if◌then◌else◌, length, arith,
}
use itaruby.Suggest.{abs_diff, next_cells, row_min, rows, edit_distance}
use itaruby.Suggest.Scripts.{
  Script, onto, onto-onto, append_nil, Script-length, Script-reversed, Script-forward, Script-Front,
}
use itaruby.Suggest.Rows.{
  dist, dist-least, Script-dist, cells, first_row-cells, next_cells-row, cell_at-cells,
  row_min-cells, row_min_again,
}

onto-front : (r x a : Text) → onto r x ++ a ≡ onto r (x ++ a)
onto-front [] x a = refl
onto-front (c ∷ r) x a = onto-front r (c ∷ x) a

dist-nil : (a : Text) → dist a [] ≡ length a
dist-nil [] = refl
dist-nil (c ∷ a) = ap suc (dist-nil a)

-- A row whose cells are all above the cutoff rules out every script within it.
row-Script :
    (ra a b : Text) (n : ℕ)
    → Script (onto ra a) b n
    → row_min (length ra) (cells (dist ra) [] b) ≤ n
row-Script ra a b n s =
    let (b₁, b₂, m, e, h, t) =
      Script-Front (onto ra a) b n s (onto ra []) a (sym (onto-front ra [] a)) in
    let back : Script ra (onto b₁ []) m =
      subst (λ r. Script r (onto b₁ []) m) (onto-onto ra [] [] ∙ append_nil ra)
        (Script-reversed (onto ra []) b₁ m t) in
    let low = row_min-cells (length ra) (dist ra) [] b₁ b₂ in
    omega (
      arith,
      h,
      dist-least ra (onto b₁ []) m back,
      subst (λ r. row_min (length ra) (cells (dist ra) [] r) ≤ dist ra (onto b₁ [])) (sym e) low,
    )

-- What the rows from that of `ra` on come to.
abbrev Settled : Text → Text → Text → ℕ → Type 0
Settled ra a b r =
    (r ≡ dist (onto a ra) (onto b [])) ⊎ ((r ≡ 3) × ((n : ℕ) → Script (onto ra a) b n → 2 < n))

rows-step :
    (ra b : Text) (c : ℕ) (a : Text) (row : List ℕ)
    → length (c ∷ ra) ∷ row ≡ cells (dist (c ∷ ra)) [] b
    → Settled (c ∷ ra) a b (rows (length (c ∷ ra)) a (length (c ∷ ra) ∷ row) b)
    → Settled ra (c ∷ a) b (
        if ltb 2 (row_min (length (c ∷ ra)) row)
        then 3
        else rows (length (c ∷ ra)) a (length (c ∷ ra) ∷ row) b)
rows-step ra b c a row e further =
    let i = length (c ∷ ra) in
    let same : row_min i row ≡ row_min i (cells (dist (c ∷ ra)) [] b) =
      sym (row_min_again i row) ∙ ap (row_min i) e in
    elim (Bool-cases (ltb 2 (row_min i row))) [
      | inl h ↦ rw h (inr (refl, λ n s. ground (arith, h, same, row-Script (c ∷ ra) a b n s)))
      | inr h ↦ rw h further
    ]

rows-Settled : (ra a b : Text) → Settled ra a b (rows (length ra) a (cells (dist ra) [] b) b)
unfolding rows
rows-Settled ra [] b = inl (cell_at-cells (dist ra) [] b)
rows-Settled ra (c ∷ a) b =
    let i = length (c ∷ ra) in
    let row = next_cells c i (cells (dist ra) [] b) b in
    let e : i ∷ row ≡ cells (dist (c ∷ ra)) [] b =
      subst
        (λ k. suc k ∷ next_cells c (suc k) (cells (dist ra) [] b) b ≡ cells (dist (c ∷ ra)) [] b)
        (dist-nil ra) (next_cells-row c (dist ra) [] b) in
    rows-step ra b c a row e
      (subst (λ r. Settled (c ∷ ra) a b (rows i a r b)) (sym e) (rows-Settled (c ∷ ra) a b))

dist-reversed : (a b : Text) → Script a b (dist (onto a []) (onto b []))
dist-reversed a b = Script-forward a b _ (Script-dist (onto a []) (onto b []))

Settled-least :
    (a b : Text) (r : ℕ)
    → Settled [] a b r
    → (r ≤ 2 → Script a b r) × ((n : ℕ) → Script a b n → n ≤ 2 → r ≤ n)
Settled-least a b r (inl e) = (
  λ h. subst (Script a b) (sym e) (dist-reversed a b),
  λ n s h. omega (arith, e, dist-least (onto a []) (onto b []) n (Script-reversed a b n s)),
)
Settled-least a b r (inr (e, far)) =
    (λ h. absurd (omega (arith, e, h)), λ n s h. absurd (omega (arith, far n s, h)))

-- edit_distance keeps to its contract up to the cutoff of 2: a distance of at most 2 is the length
-- of an edit script (insertions, deletions and replacements of single characters) from one text to
-- the other, and no script of length 2 or less is shorter than the distance.
pub edit_distance-least :
    (a b : Text)
    → (edit_distance a b ≤ 2 → Script a b (edit_distance a b))
      × ((n : ℕ) → Script a b n → n ≤ 2 → edit_distance a b ≤ n)
unfolding edit_distance
edit_distance-least a b = elim (Bool-cases (ltb 2 (abs_diff (length a) (length b)))) [
  | inl h ↦ rw h (Settled-least a b 3 (inr (refl, λ n s. ground (arith, h, Script-length a b n s))))
  | inr h ↦ rw (h, first_row-cells [] b) (Settled-least a b _ (rows-Settled [] a b))
]
