-- ===== src/Suggest/Order.antt =====
-- The order on pairs of a distance and a key is linear, and a loop that keeps the smallest finds it.
use itaruby.Base.{
  ℕ, true, false, [], ◌∷◌, Option, none, some, Text, ◌≡◌, ◌↔◌, refl, ap, ◌⊎◌, inl, inr, nat_eq,
  Bool-cases, if◌then◌else◌, arith,
}
use itaruby.Suggest.{text_ltb, pair_ltb, beats}

text_ltb_irrefl : (a : Text) → text_ltb a a ≡ false
text_ltb_irrefl [] = refl
text_ltb_irrefl (c ∷ a) = ground (arith, text_ltb_irrefl a)

text_ltb_antisym : (a b : Text) → text_ltb a b ≡ false → text_ltb b a ≡ false → a ≡ b
text_ltb_antisym [] [] h k = refl
text_ltb_antisym [] (d ∷ b) h k = absurd (cc h)
text_ltb_antisym (c ∷ a) [] h k = absurd (cc k)
text_ltb_antisym (c ∷ a) (d ∷ b) h k =
    let first : c ≡ d = ground arith in
    let rest : a ≡ b = text_ltb_antisym a b (ground arith) (ground arith) in cc (first, rest)

text_ltb_trans : (a b c : Text) → text_ltb b a ≡ false → text_ltb c b ≡ false → text_ltb c a ≡ false
text_ltb_trans [] b [] h k = refl
text_ltb_trans [] b (z ∷ c) h k = refl
text_ltb_trans (x ∷ a) [] c h k = absurd (cc h)
text_ltb_trans (x ∷ a) (y ∷ b) [] h k = absurd (cc k)
text_ltb_trans (x ∷ a) (y ∷ b) (z ∷ c) h k = ground (arith, text_ltb_trans a b c)

pair_ltb_irrefl : (a : ℕ × Text) → pair_ltb a a ≡ false
pair_ltb_irrefl (d, key) = ground (arith, text_ltb_irrefl key)

pub pair_ltb_antisym : (a b : ℕ × Text) → pair_ltb a b ≡ false → pair_ltb b a ≡ false → a ≡ b
pair_ltb_antisym (d, key) (e, other) h k =
    let first : d ≡ e = ground arith in
    let rest : key ≡ other = text_ltb_antisym key other (ground arith) (ground arith) in
    cc (first, rest)

pair_ltb_trans :
    (a b c : ℕ × Text) → pair_ltb b a ≡ false → pair_ltb c b ≡ false → pair_ltb c a ≡ false
pair_ltb_trans (d, k) (e, l) (f, m) h i = ground (arith, text_ltb_trans k l m)

text_ltb_asym : (a b : Text) → text_ltb a b ≡ true → text_ltb b a ≡ false
text_ltb_asym [] [] h = absurd (cc h)
text_ltb_asym [] (d ∷ b) h = refl
text_ltb_asym (c ∷ a) [] h = absurd (cc h)
text_ltb_asym (c ∷ a) (d ∷ b) h = ground (arith, text_ltb_asym a b)

pair_ltb_asym : (a b : ℕ × Text) → pair_ltb a b ≡ true → pair_ltb b a ≡ false
pair_ltb_asym (d, k) (e, l) h = ground (arith, text_ltb_asym k l)

-- What a loop has found among the pairs that it has seen.
pub data IsLeast (seen : ℕ × Text → Type 0) : Option (ℕ × Text) → Type 0 where
  none_seen : ((p : ℕ × Text) → ¬ seen p) → IsLeast seen none
  least_seen :
      {best : ℕ × Text}
      → seen best
      → ((p : ℕ × Text) → seen p → pair_ltb p best ≡ false)
      → IsLeast seen (some best)

pub IsLeast-iff :
    (S T : ℕ × Text → Type 0) (best : Option (ℕ × Text))
    → ((p : ℕ × Text) → S p ↔ T p)
    → IsLeast S best
    → IsLeast T best
IsLeast-iff S T _ same (none_seen h) = none_seen λ p t. h p ((same p).1 t)
IsLeast-iff S T _ same (least_seen {best} s h) =
    least_seen ((same best).0 s) λ p t. h p ((same p).1 t)

-- One more pair is seen.
pub IsLeast-beats :
    (S : ℕ × Text → Type 0) (best : Option (ℕ × Text)) (found : ℕ × Text)
    → IsLeast S best
    → IsLeast (λ p. S p ⊎ (p ≡ found)) (if beats found best then some found else best)
IsLeast-beats S _ found (none_seen h) =
    least_seen (inr refl)
      λ p t. elim t [ inl s ↦ absurd (h p s) | inr e ↦ rw e (pair_ltb_irrefl found) ]
IsLeast-beats S _ found (least_seen {best} s h) = elim (Bool-cases (pair_ltb found best)) [
  | inl b ↦ rw b (
      least_seen (inr refl) λ p t. elim t [
        | inl r ↦ pair_ltb_trans found best p (pair_ltb_asym found best b) (h p r)
        | inr e ↦ rw e (pair_ltb_irrefl found)
      ])
  | inr b ↦ rw b (least_seen (inl s) λ p t. elim t [ inl r ↦ h p r | inr e ↦ rw e b ])
]

pub IsLeast-unique :
    (S : ℕ × Text → Type 0) (a b : Option (ℕ × Text)) → IsLeast S a → IsLeast S b → a ≡ b
IsLeast-unique S _ _ (none_seen h) (none_seen k) = refl
IsLeast-unique S _ _ (none_seen h) (least_seen {best} s k) = absurd (h best s)
IsLeast-unique S _ _ (least_seen {best} s k) (none_seen h) = absurd (h best s)
IsLeast-unique S _ _ (least_seen {best = a} s h) (least_seen {best = b} t k) =
    ap some (pair_ltb_antisym a b (k a s) (h b t))
