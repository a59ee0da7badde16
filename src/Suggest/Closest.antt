-- ===== src/Suggest/Closest.antt =====
-- `closest_const_key` and `closest_name` find the smallest candidate, whatever the order in which the
-- map gives the candidates.
use mathlib.Core.Path.{subst}
use itaruby.Base.{
  ℕ, false, List, [], ◌∷◌, map, Memᴰ, Option, none, Text, ltb, ◌==◌, ◌≡◌, ◌↔◌, refl, ap, ◌⊎◌, inl,
  inr, text_eq, Bool-cases,
}
use itaruby.Suggest.{
  edit_distance, consider_const, const_loop, key_of, closest_const_key, consider_name, name_loop,
  closest_name,
}
use itaruby.Suggest.Order.{IsLeast, none_seen, IsLeast-iff, IsLeast-beats, IsLeast-unique}

-- The candidate is not the typo itself, within the cutoff, and its distance and key are the pair.
abbrev pub Offers : Text → Text × Text → ℕ × Text → Type 0
Offers typo (shown, key) p =
    ((shown == typo) ≡ false)
    × (ltb 2 (edit_distance typo shown) ≡ false)
    × (p ≡ (edit_distance typo shown, key))

abbrev pub Suggested : Text → List (Text × Text) → ℕ × Text → Type 0
Suggested typo candidates p = (c : Text × Text) × Memᴰ c candidates × Offers typo c p

consider_const-IsLeast :
    (S : ℕ × Text → Type 0) (typo : Text) (best : Option (ℕ × Text)) (c : Text × Text)
    → IsLeast S best
    → IsLeast (λ p. S p ⊎ Offers typo c p) (consider_const typo best c)
unfolding consider_const
consider_const-IsLeast S typo best (shown, key) least = elim (Bool-cases (shown == typo)) [
  | inl e ↦ rw e (
      IsLeast-iff S _ best
        (λ p. (λ s. inl s, λ t. elim t [ inl s ↦ s | inr (f, g, h) ↦ absurd (cc (e, f)) ])) least)
  | inr e ↦ elim (Bool-cases (ltb 2 (edit_distance typo shown))) [
    | inl d ↦
        rw (e, d)
          (IsLeast-iff S _ best
            (λ p. (λ s. inl s, λ t. elim t [ inl s ↦ s | inr (f, g, h) ↦ absurd (cc (d, g)) ]))
            least)
    | inr d ↦
        rw (e, d)
          (IsLeast-iff _ _ _
            (λ p. (
              λ t. elim t [ inl s ↦ inl s | inr h ↦ inr (refl, refl, h) ],
              λ t. elim t [ inl s ↦ inl s | inr (f, g, h) ↦ inr h ],
            ))
            (IsLeast-beats S best (edit_distance typo shown, key) least))
  ]
]

Suggested-cons :
    (S : ℕ × Text → Type 0) (typo : Text) (c : Text × Text) (candidates : List (Text × Text))
    (p : ℕ × Text)
    → ((S p ⊎ Offers typo c p) ⊎ Suggested typo candidates p)
      ↔ (S p ⊎ Suggested typo (c ∷ candidates) p)
Suggested-cons S typo c candidates p = (
  (λ t. elim t [
    | inl (inl s) ↦ inl s
    | inl (inr o) ↦ inr (c, Memᴰ.head refl, o)
    | inr (x, m, o) ↦ inr (x, Memᴰ.tail m, o)
  ]),
  (λ t. elim t [
    | inl s ↦ inl (inl s)
    | inr (x, Memᴰ.head e, o) ↦ inl (inr (subst (λ r. Offers typo r p) e o))
    | inr (x, Memᴰ.tail m, o) ↦ inr (x, m, o)
  ]),
)

const_loop-IsLeast :
    (typo : Text) (candidates : List (Text × Text)) (S : ℕ × Text → Type 0)
    (best : Option (ℕ × Text))
    → IsLeast S best
    → IsLeast (λ p. S p ⊎ Suggested typo candidates p) (const_loop typo best candidates)
unfolding const_loop
const_loop-IsLeast typo [] S best least =
    IsLeast-iff S _ best (λ p. (λ s. inl s, λ t. elim t [ inl s ↦ s | inr (c, m, o) ↦ elim m [ ] ]))
      least
const_loop-IsLeast typo (c ∷ candidates) S best least =
    IsLeast-iff _ _ _ (Suggested-cons S typo c candidates) (
      const_loop-IsLeast typo candidates _ (consider_const typo best c)
        (consider_const-IsLeast S typo best c least))

pub IsLeast-of_loop :
    (typo : Text) (candidates : List (Text × Text))
    → IsLeast (Suggested typo candidates) (const_loop typo none candidates)
IsLeast-of_loop typo candidates =
    IsLeast-iff _ _ _ (λ p. (λ t. elim t [ inl s ↦ absurd s | inr r ↦ r ], λ r. inr r))
      (const_loop-IsLeast typo candidates (λ p. ⊥) none (none_seen λ p s. s))

-- closest_const_key gives the key of the least pair of a distance and a key among the candidates
-- that differ from the typo and are within distance 2 of it, in the order of distances and then of
-- keys; it gives none exactly if there is no such candidate.
pub closest_const_key-IsLeast :
    (typo : Text) (candidates : List (Text × Text))
    → (best : Option (ℕ × Text)) × (closest_const_key typo candidates ≡ key_of best)
      × IsLeast (Suggested typo candidates) best
unfolding closest_const_key
closest_const_key-IsLeast typo candidates =
    (const_loop typo none candidates, refl, IsLeast-of_loop typo candidates)

-- closest_const_key gives the same key for two lists with the same candidates, in whatever order a
-- hash map iterates over them.
pub closest_const_key_order :
    (typo : Text) (xs ys : List (Text × Text))
    → ((c : Text × Text) → Memᴰ c xs ↔ Memᴰ c ys)
    → closest_const_key typo xs ≡ closest_const_key typo ys
unfolding closest_const_key
closest_const_key_order typo xs ys same =
    let moved =
      IsLeast-iff (Suggested typo xs) (Suggested typo ys) (const_loop typo none xs)
        (λ p. (λ (c, m, o). (c, (same c).0 m, o), λ (c, m, o). (c, (same c).1 m, o)))
        (IsLeast-of_loop typo xs) in
    ap key_of (IsLeast-unique (Suggested typo ys) _ _ moved (IsLeast-of_loop typo ys))

name_loop-const_loop :
    (typo : Text) (best : Option (ℕ × Text)) (names : List Text)
    → name_loop typo best names ≡ const_loop typo best (map (λ c. (c, c)) names)
unfolding name_loop const_loop consider_name consider_const
name_loop-const_loop typo best [] = refl
name_loop-const_loop typo best (c ∷ names) =
    name_loop-const_loop typo (consider_name typo best c) names

-- Names.
pub closest_name-const :
    (typo : Text) (names : List Text)
    → closest_name typo names ≡ closest_const_key typo (map (λ c. (c, c)) names)
unfolding closest_name closest_const_key
closest_name-const typo names = ap key_of (name_loop-const_loop typo none names)
