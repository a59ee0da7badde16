-- ===== src/Suggest/Scripts.antt =====
-- Edit scripts: what an edit distance is the least length of.
use itaruby.Base.{ℕ, suc, ◌+◌, ◌≤◌, [], ◌∷◌, ◌++◌, Text, ◌≡◌, refl, sym, ap, length, arith}
use mathlib.Core.Path.{subst}
use itaruby.Suggest.{abs_diff}

-- A script of `n` edits that makes `b` of `a`.
pub data Script : Text → Text → ℕ → Type 0 where
  done : Script [] [] 0
  keep : {a b : Text} {n : ℕ} (c : ℕ) → Script a b n → Script (c ∷ a) (c ∷ b) n
  replace : {a b : Text} {n : ℕ} (c d : ℕ) → Script a b n → Script (c ∷ a) (d ∷ b) (suc n)
  delete : {a b : Text} {n : ℕ} (c : ℕ) → Script a b n → Script (c ∷ a) b (suc n)
  insert : {a b : Text} {n : ℕ} (d : ℕ) → Script a b n → Script a (d ∷ b) (suc n)

pub Script-length : (a b : Text) (n : ℕ) → Script a b n → abs_diff (length a) (length b) ≤ n
Script-length _ _ _ done = omega arith
Script-length _ _ _ (keep {a} {b} {n} c s) = omega (arith, Script-length a b n s)
Script-length _ _ _ (replace {a} {b} {n} c d s) = omega (arith, Script-length a b n s)
Script-length _ _ _ (delete {a} {b} {n} c s) = omega (arith, Script-length a b n s)
Script-length _ _ _ (insert {a} {b} {n} d s) = omega (arith, Script-length a b n s)

-- A text in reverse order in front of another.
abbrev pub onto : Text → Text → Text
onto [] r = r
onto (c ∷ a) r = onto a (c ∷ r)

pub onto-onto : (a r s : Text) → onto (onto a r) s ≡ onto r (a ++ s)
onto-onto [] r s = refl
onto-onto (c ∷ a) r s = onto-onto a (c ∷ r) s

pub onto-append : (a b r : Text) → onto (a ++ b) r ≡ onto b (onto a r)
onto-append [] b r = refl
onto-append (c ∷ a) b r = onto-append a b (c ∷ r)

-- A script can be run from the other end.
Script-onto :
    (a b : Text) (n : ℕ) (x y : Text) (m : ℕ)
    → Script a b n
    → Script x y m
    → Script (onto a x) (onto b y) (n + m)
Script-onto _ _ _ x y m done t = subst (Script x y) (omega arith) t
Script-onto _ _ _ x y m (keep {a} {b} {n} c s) t = Script-onto a b n (c ∷ x) (c ∷ y) m s (keep c t)
Script-onto _ _ _ x y m (replace {a} {b} {n} c d s) t =
    subst (Script (onto a (c ∷ x)) (onto b (d ∷ y))) (omega arith)
      (Script-onto a b n (c ∷ x) (d ∷ y) (suc m) s (replace c d t))
Script-onto _ _ _ x y m (delete {a} {b} {n} c s) t =
    subst (Script (onto a (c ∷ x)) (onto b y)) (omega arith)
      (Script-onto a b n (c ∷ x) y (suc m) s (delete c t))
Script-onto _ _ _ x y m (insert {a} {b} {n} d s) t =
    subst (Script (onto a x) (onto b (d ∷ y))) (omega arith)
      (Script-onto a b n x (d ∷ y) (suc m) s (insert d t))

pub Script-reversed : (a b : Text) (n : ℕ) → Script a b n → Script (onto a []) (onto b []) n
Script-reversed a b n s =
    subst (Script (onto a []) (onto b [])) (omega arith) (Script-onto a b n [] [] 0 s done)

pub append_nil : (a : Text) → a ++ [] ≡ a
append_nil [] = refl
append_nil (c ∷ a) = ap (λ r. c ∷ r) (append_nil a)

pub Script-forward : (a b : Text) (n : ℕ) → Script (onto a []) (onto b []) n → Script a b n
Script-forward a b n s =
    rw (sym (append_nil a), sym (append_nil b), sym (onto-onto a [] []), sym (onto-onto b [] []))
      (Script-reversed (onto a []) (onto b []) n s)

-- What a script does to the front of a text.
abbrev pub Front : Text → Text → ℕ → Type 0
Front a b n = (b₁ b₂ : Text) × (m : ℕ) × (b ≡ b₁ ++ b₂) × (m ≤ n) × Script a b₁ m

pub Script-Front :
    (whole b : Text) (n : ℕ) → Script whole b n → (a c : Text) → whole ≡ a ++ c → Front a b n
Script-Front whole b n s [] c e = ([], b, 0, refl, omega arith, done)
Script-Front _ _ _ done (x ∷ a) c e = absurd (cc e)
Script-Front _ _ n (keep {a = whole} {b} d s) (x ∷ a) c e =
    let (b₁, b₂, m, f, h, t) = Script-Front whole b n s a c (cc e) in
    let same : d ≡ x = cc e in (x ∷ b₁, b₂, m, cc (f, same), h, keep x t)
Script-Front _ _ _ (replace {a = whole} {b} {n} x' d s) (x ∷ a) c e =
    let (b₁, b₂, m, f, h, t) = Script-Front whole b n s a c (cc e) in
    (d ∷ b₁, b₂, suc m, ap (λ r. d ∷ r) f, omega (arith, h), replace x d t)
Script-Front _ b _ (delete {a = whole} {n} x' s) (x ∷ a) c e =
    let (b₁, b₂, m, f, h, t) = Script-Front whole b n s a c (cc e) in
    (b₁, b₂, suc m, f, omega (arith, h), delete x t)
Script-Front whole _ _ (insert {b} {n} d s) (x ∷ a) c e =
    let (b₁, b₂, m, f, h, t) = Script-Front whole b n s (x ∷ a) c e in
    (d ∷ b₁, b₂, suc m, ap (λ r. d ∷ r) f, omega (arith, h), insert d t)
