-- ===== src/Base/Lists.antt =====
-- Lists measured and indexed by native numbers, and the Boolean searches of Rust's iterators.
use Prim.Native.Nat.{ℕ, zero, suc, ◌+◌}
use mathlib.Core.Path.{◌≡◌, refl, sym}
use mathlib.Core.Logic.{inl, inr, ◌↔◌}
use mathlib.Core.Bool.{Bool, true, false, ◌&&◌, ◌||◌}
use mathlib.Core.List.{List, [], ◌∷◌, ◌++◌, Memᴰ}
use mathlib.Core.Option.{Option, none, some}
use native.Mathlib.Omega.{arith}
use itaruby.Base.Tests.{PartialEq, ◌==◌, if◌then◌else◌, beq_refl, beq-cases, Bool-cases}

module _ {ℓ} {A : Type ℓ} where
  abbrev pub length : List A → ℕ
  length [] = 0
  length (x ∷ xs) = suc (length xs)

  abbrev pub get_elem? : List A → ℕ → Option A
  get_elem? [] i = none
  get_elem? (x ∷ xs) zero = some x
  get_elem? (x ∷ xs) (suc i) = get_elem? xs i

  abbrev pub drop : ℕ → List A → List A
  drop zero xs = xs
  drop (suc n) [] = []
  drop (suc n) (x ∷ xs) = drop n xs

  abbrev pub take : ℕ → List A → List A
  take zero xs = []
  take (suc n) [] = []
  take (suc n) (x ∷ xs) = x ∷ take n xs

  pub length-append : (xs ys : List A) → length (xs ++ ys) ≡ length xs + length ys
  length-append [] ys = omega arith
  length-append (x ∷ xs) ys = omega (arith, length-append xs ys)

  -- `iter().any` and `iter().all`.
  abbrev pub any : (A → Bool) → List A → Bool
  any p [] = false
  any p (x ∷ xs) = p x || any p xs

  abbrev pub all : (A → Bool) → List A → Bool
  all p [] = true
  all p (x ∷ xs) = p x && all p xs

  -- `filter` keeps what passes the test.
  abbrev pub filter : (A → Bool) → List A → List A
  filter p [] = []
  filter p (x ∷ xs) = if p x then x ∷ filter p xs else filter p xs

  pub any_of_mem : (p : A → Bool) (x : A) (xs : List A) → Memᴰ x xs → p x ≡ true → any p xs ≡ true
  any_of_mem p x [] m h = elim m [ ]
  any_of_mem p x (y ∷ xs) (Memᴰ.head e) h = rw (← e) (rw h)
  any_of_mem p x (y ∷ xs) (Memᴰ.tail m) h = ground (arith, any_of_mem p x xs m h)

  pub mem_of_any :
      (p : A → Bool) (xs : List A) → any p xs ≡ true → (x : A) × Memᴰ x xs × (p x ≡ true)
  mem_of_any p [] h = absurd (ground arith)
  mem_of_any p (x ∷ xs) h = elim (Bool-cases (p x)) [
    | inl t ↦ (x, Memᴰ.head refl, t)
    | inr f ↦ let (y, m, q) = mem_of_any p xs (ground arith) in (y, Memᴰ.tail m, q)
  ]

  pub all_of_mem : (p : A → Bool) (x : A) (xs : List A) → all p xs ≡ true → Memᴰ x xs → p x ≡ true
  all_of_mem p x [] h m = elim m [ ]
  all_of_mem p x (y ∷ xs) h (Memᴰ.head e) = rw e (ground arith)
  all_of_mem p x (y ∷ xs) h (Memᴰ.tail m) = all_of_mem p x xs (ground arith) m

  pub mem-filter :
      (p : A → Bool) (x : A) (xs : List A) → Memᴰ x xs → p x ≡ true → Memᴰ x (filter p xs)
  mem-filter p x [] m h = elim m [ ]
  mem-filter p x (y ∷ xs) (Memᴰ.head e) h = rw (← e) (rw h (Memᴰ.head refl))
  mem-filter p x (y ∷ xs) (Memᴰ.tail m) h = elim (Bool-cases (p y)) [
    | inl t ↦ rw t (Memᴰ.tail (mem-filter p x xs m h))
    | inr f ↦ rw f (mem-filter p x xs m h)
  ]

  pub mem_of_filter :
      (p : A → Bool) (x : A) (xs : List A) → Memᴰ x (filter p xs) → Memᴰ x xs × (p x ≡ true)
  mem_of_filter p x [] m = elim m [ ]
  mem_of_filter p x (y ∷ xs) m = elim (Bool-cases (p y)) [
    | inl t ↦ cons_case t (mem_of_filter p x xs) (rw t at m)
    | inr f ↦ let r = mem_of_filter p x xs (rw f at m) in (Memᴰ.tail r.0, r.1)
  ]
    where
      cons_case :
          p y ≡ true
          → (Memᴰ x (filter p xs) → Memᴰ x xs × (p x ≡ true))
          → Memᴰ x (y ∷ filter p xs)
          → Memᴰ x (y ∷ xs) × (p x ≡ true)
      cons_case t ih (Memᴰ.head e) = (Memᴰ.head e, rw e t)
      cons_case t ih (Memᴰ.tail r) = let q = ih r in (Memᴰ.tail q.0, q.1)

-- `contains` on a slice.
module _ {ℓ} {A : Type ℓ} ⦃law : PartialEq A⦄ where
  abbrev pub contains : List A → A → Bool
  contains [] a = false
  contains (x ∷ xs) a = x == a || contains xs a

  pub contains_iff : (xs : List A) (a : A) → (contains xs a ≡ true) ↔ Memᴰ a xs
  contains_iff [] a = (λ h. absurd (ground arith), λ m. elim m [ ])
  contains_iff (x ∷ xs) a = (
    (λ h. elim (beq-cases x a) [
      | inl t ↦ Memᴰ.head (sym t)
      | inr f ↦ Memᴰ.tail ((contains_iff xs a).0 (rw f at h))
    ]),
    (λ m. of_cons (contains_iff xs a).1 m),
  )
    where
      of_cons : (Memᴰ a xs → contains xs a ≡ true) → Memᴰ a (x ∷ xs) → contains (x ∷ xs) a ≡ true
      of_cons ih (Memᴰ.head q) = rw q (rw (beq_refl x))
      of_cons ih (Memᴰ.tail m) = ground (arith, ih m)

-- Every element has the property, each with its own evidence.
pub data Every {ℓ κ} {A : Type ℓ} (P : A → Type κ) : List A → Type (ℓ ⊔ κ) where
  every_nil : Every P []
  every_cons : {a : A} {rest : List A} → P a → Every P rest → Every P (a ∷ rest)
