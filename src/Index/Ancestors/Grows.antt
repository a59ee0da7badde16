-- ===== src/Index/Ancestors/Grows.antt =====
-- What a part of the walk of `linearize` does to the walk's state.
use itaruby.Base.{
  true, false, ◌||◌, List, [], ◌∷◌, ◌++◌, reverse, Option, none, some, Text, ◌==◌, ◌≡◌, ◌⊎◌, inl,
  inr, refl, arith, contains, nat_eq, nat_beq_iff, Bool-cases,
}
use itaruby.Types.{ClassId}
use itaruby.Index.{ClassDef, ProjectIndex}
use itaruby.Index.Resolve.{class, resolve_const}
use itaruby.Index.Ancestors.{Walk, incomplete}

abbrev pub In : ClassId → List ClassId → Type 0
In x xs = contains xs x ≡ true

abbrev pub Distinct : List ClassId → Type 0
Distinct [] = Unit
Distinct (x ∷ xs) = (contains xs x ≡ false) × Distinct xs

pub contains-concat :
    (xs : List ClassId) (a x : ClassId) → contains (xs ++ (a ∷ [])) x ≡ (contains xs x || a == x)
contains-concat [] a x = ground arith
contains-concat (y ∷ xs) a x = rw (contains-concat xs a x) (ground arith)

pub Distinct-concat :
    (xs : List ClassId) (a : ClassId)
    → Distinct xs
    → contains xs a ≡ false
    → Distinct (xs ++ (a ∷ []))
Distinct-concat [] a d h = (refl, tt)
Distinct-concat (x ∷ xs) a d h = (
  rw (contains-concat xs a x) (ground (arith, d.0, nat_beq_iff x a, nat_beq_iff a x)),
  Distinct-concat xs a d.1 (ground arith),
)

module _ (resolve : ClassId → List Text → Text → Option (Option ClassId))
    (index : ProjectIndex) where
  -- Each of the mixins resolves to a class of the list.
  abbrev pub AllResolve : List Text → List Text → List ClassId → Type 0
  AllResolve nesting [] ids = Unit
  AllResolve nesting (name ∷ names) ids =
      ((m : ClassId) × (resolve_const index nesting name ≡ some (some m)) × In m ids)
      × AllResolve nesting names ids

  abbrev pub SuperResolves : ClassId → List Text → Option Text → List ClassId → Type 0
  SuperResolves id nesting none ids = Unit
  SuperResolves id nesting (some sc) ids =
      (s : ClassId) × (resolve id nesting sc ≡ some (some s)) × In s ids

  pub AllResolve-mono :
      (nesting names : List Text) (ids ids' : List ClassId)
      → ((x : ClassId) → In x ids → In x ids')
      → AllResolve nesting names ids
      → AllResolve nesting names ids'
  AllResolve-mono nesting [] ids ids' sub h = tt
  AllResolve-mono nesting (name ∷ names) ids ids' sub h =
      ((h.0.0, h.0.1, sub h.0.0 h.0.2), AllResolve-mono nesting names ids ids' sub h.1)

  pub SuperResolves-mono :
      (id : ClassId) (nesting : List Text) (sc : Option Text) (ids ids' : List ClassId)
      → ((x : ClassId) → In x ids → In x ids')
      → SuperResolves id nesting sc ids
      → SuperResolves id nesting sc ids'
  SuperResolves-mono id nesting none ids ids' sub h = tt
  SuperResolves-mono id nesting (some sc) ids ids' sub h = (h.0, h.1, sub h.0 h.2)

  -- The class is unambiguous, and each of its written parents resolves to a class of the list.
  pub record Closed (ids : List ClassId) (x : ClassId) : Type 0 where
    pub def : ClassDef
    pub is_class : class index x ≡ some def
    pub unambiguous : contains index.ambiguous_ancestry x ≡ false
    pub prepends : AllResolve def.nesting (reverse def.prepends) ids
    pub includes : AllResolve def.nesting (reverse def.includes) ids
    pub super : SuperResolves x def.nesting def.superclass ids

  pub Closed-mono :
      (ids ids' : List ClassId) (x : ClassId)
      → ((y : ClassId) → In y ids → In y ids')
      → Closed ids x
      → Closed ids' x
  Closed-mono ids ids' x sub h = record {
    def = h.def;
    is_class = h.is_class;
    unambiguous = h.unambiguous;
    prepends = AllResolve-mono _ _ ids ids' sub h.prepends;
    includes = AllResolve-mono _ _ ids ids' sub h.includes;
    super = SuperResolves-mono x _ _ ids ids' sub h.super;
  }

  -- A class whose own walk is over.
  pub record Settled (w : Walk) (x : ClassId) : Type 0 where
    pub in_out : In x w.out
    pub is_class : (c : ClassDef) × (class index x ≡ some c)
    pub closed : w.complete ≡ true → Closed w.visited x

  pub record Grows (w w' : Walk) : Type 0 where
    pub visited : (x : ClassId) → In x w.visited → In x w'.visited
    pub out : (x : ClassId) → In x w.out → In x w'.out
    pub complete : w'.complete ≡ true → w.complete ≡ true
    pub settled : (x : ClassId) → In x w'.visited → In x w.visited ⊎ Settled w' x
    pub fresh : (x : ClassId) → In x w'.out → In x w.out ⊎ (contains w.visited x ≡ false)
    pub seen : (x : ClassId) → In x w'.out → In x w.out ⊎ In x w'.visited
    pub distinct : ((x : ClassId) → In x w.out → In x w.visited) → Distinct w.out → Distinct w'.out

  pub Settled-mono :
      (w w' : Walk) (x : ClassId)
      → ((y : ClassId) → In y w.visited → In y w'.visited)
      → ((y : ClassId) → In y w.out → In y w'.out)
      → (w'.complete ≡ true → w.complete ≡ true)
      → Settled w x
      → Settled w' x
  Settled-mono w w' x v o c s = record {
    in_out = o x s.in_out;
    is_class = s.is_class;
    closed = λ e. Closed-mono w.visited w'.visited x v (s.closed (c e));
  }

  pub Grows-refl : (w : Walk) → Grows w w
  Grows-refl w = record {
    visited = λ x h. h;
    out = λ x h. h;
    complete = λ h. h;
    settled = λ x h. inl h;
    fresh = λ x h. inl h;
    seen = λ x h. inl h;
    distinct = λ h d. d;
  }

  pub Grows-incomplete : (w : Walk) → Grows w (incomplete w)
  Grows-incomplete w = record {
    visited = λ x h. h;
    out = λ x h. h;
    complete = λ h. cc;
    settled = λ x h. inl h;
    fresh = λ x h. inl h;
    seen = λ x h. inl h;
    distinct = λ h d. d;
  }

  fresh_trans :
      (w w₁ w₂ : Walk) (x : ClassId)
      → Grows w w₁
      → In x w₁.out ⊎ (contains w₁.visited x ≡ false)
      → In x w.out ⊎ (contains w.visited x ≡ false)
  fresh_trans w w₁ w₂ x g (inl h) = g.fresh x h
  fresh_trans w w₁ w₂ x g (inr h) = elim (Bool-cases (contains w.visited x)) [
    | inl t ↦ cc (g.visited x t)
    | inr f ↦ inr f
  ]

  pub Grows-trans : (w w₁ w₂ : Walk) → Grows w w₁ → Grows w₁ w₂ → Grows w w₂
  Grows-trans w w₁ w₂ g k = record {
    visited = λ x h. k.visited x (g.visited x h);
    out = λ x h. k.out x (g.out x h);
    complete = λ h. g.complete (k.complete h);
    settled = λ x h. elim (k.settled x h) [
      | inl v ↦ elim (g.settled x v) [
        | inl u ↦ inl u
        | inr s ↦ inr (Settled-mono w₁ w₂ x k.visited k.out k.complete s)
      ]
      | inr s ↦ inr s
    ];
    fresh = λ x h. fresh_trans w w₁ w₂ x g (k.fresh x h);
    seen = λ x h. elim (k.seen x h) [
      | inl o ↦ elim (g.seen x o) [ inl u ↦ inl u | inr v ↦ inr (k.visited x v) ]
      | inr v ↦ inr v
    ];
    distinct = λ h d.
        k.distinct (λ x o. elim (g.seen x o) [ inl u ↦ g.visited x (h x u) | inr v ↦ v ])
          (g.distinct h d);
  }
