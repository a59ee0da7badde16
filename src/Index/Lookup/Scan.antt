-- ===== src/Index/Lookup/Scan.antt =====
-- What the loop over the ancestors finds: the first class that blocks the search or has the method.
use itaruby.Base.{
  Bool, true, false, List, [], ◌∷◌, ◌++◌, Option, none, some, Text, ◌≡◌, refl, inl, inr, ap, arith,
  lookup, nat_eq, text_eq, bind-eq-some, Bool-cases, Option-cases, beq-cases, beq_refl,
}
use mathlib.Core.Option.{some-injective}
use mathlib.Core.Path.{subst}
use itaruby.Types.{ClassId}
use itaruby.Index.{MethodSig, ClassDef, ProjectIndex, MethodLookup, found, not_found, inconclusive}
use itaruby.Index.Resolve.{class}
use itaruby.Index.Ancestors.Grows.{In}
use itaruby.Index.Lookup.{scan}

module _ (index : ProjectIndex) (blocks : ClassDef → Bool)
    (methods : ClassDef → List (Text × MethodSig)) (name : Text) where
  -- The class lets the search pass and does not have the method.
  pub record IsSkipped (x : ClassId) : Type 0 where
    pub def : ClassDef
    pub is_class : class index x ≡ some def
    pub passes : blocks def ≡ false
    pub lacks : lookup name (methods def) ≡ none

  -- A class of the chain with all before it skipped.
  pub record IsFirst (chain : List ClassId) (x : ClassId) (def : ClassDef) : Type 0 where
    pub before : List ClassId
    pub after : List ClassId
    pub split : chain ≡ before ++ (x ∷ after)
    pub skipped : (y : ClassId) → In y before → IsSkipped y
    pub is_class : class index x ≡ some def

  -- What a result of the loop says of the chain.
  abbrev pub Verdict : List ClassId → Option MethodLookup → Type 0
  Verdict chain none = (x : ClassId) → In x chain → IsSkipped x
  Verdict chain (some (found m a)) =
      (c : ClassDef) × IsFirst chain a c × (blocks c ≡ false) × (lookup name (methods c) ≡ some m)
  Verdict chain (some inconclusive) =
      (a : ClassId) × (c : ClassDef) × IsFirst chain a c × (blocks c ≡ true)
  Verdict chain (some not_found) = ⊥

  cons-IsSkipped :
      (x : ClassId) (chain : List ClassId)
      → IsSkipped x
      → ((y : ClassId) → In y chain → IsSkipped y)
      → (y : ClassId) → In y (x ∷ chain)
      → IsSkipped y
  cons-IsSkipped x chain s all y h = elim (beq-cases x y) [
    | inl e ↦ subst IsSkipped e s
    | inr d ↦ all y (ground (arith, h, d))
  ]

  IsFirst-head :
      (x : ClassId) (chain : List ClassId) (c : ClassDef)
      → class index x ≡ some c
      → IsFirst (x ∷ chain) x c
  IsFirst-head x chain c is = record {
    before = [];
    after = chain;
    split = refl;
    skipped = λ y h. cc;
    is_class = is;
  }

  IsFirst-cons :
      (x : ClassId) (chain : List ClassId) {a : ClassId} {c : ClassDef}
      → IsSkipped x
      → IsFirst chain a c
      → IsFirst (x ∷ chain) a c
  IsFirst-cons x chain s f = record {
    before = x ∷ f.before;
    after = f.after;
    split = ap (λ l. x ∷ l) f.split;
    skipped = cons-IsSkipped x f.before s f.skipped;
    is_class = f.is_class;
  }

  Verdict-cons :
      (x : ClassId) (chain : List ClassId) (r : Option MethodLookup)
      → IsSkipped x
      → Verdict chain r
      → Verdict (x ∷ chain) r
  Verdict-cons x chain none s v = cons-IsSkipped x chain s v
  Verdict-cons x chain (some (found m a)) s (c, f, p, l) = (c, IsFirst-cons x chain s f, p, l)
  Verdict-cons x chain (some inconclusive) s (a, c, f, b) = (a, c, IsFirst-cons x chain s f, b)
  Verdict-cons x chain (some not_found) s v = elim v [ ]

  pub scan-Verdict :
      (chain : List ClassId) (r : Option MethodLookup)
      → scan index blocks methods name chain ≡ some r
      → Verdict chain r
  unfolding scan
  scan-Verdict [] r e = subst (Verdict []) (some-injective _ _ e) (λ x h. cc)
  scan-Verdict (x ∷ chain) r e =
      let (c, is, e₁) = bind-eq-some (class index x) _ e in
      elim (Bool-cases (blocks c)) [
        | inl b ↦
            subst (Verdict (x ∷ chain)) (some-injective _ _ (rw b at e₁))
              (x, c, IsFirst-head x chain c is, b)
        | inr p ↦ elim (Option-cases (lookup name (methods c))) [
          | inr (m, l) ↦
              subst (Verdict (x ∷ chain)) (some-injective _ _ (rw (p, l) at e₁))
                (c, IsFirst-head x chain c is, p, l)
          | inl l ↦
              Verdict-cons x chain r (record { def = c; is_class = is; passes = p; lacks = l })
                (scan-Verdict chain r (rw (p, l) at e₁))
        ]
      ]

  pub scan_total :
      (chain : List ClassId)
      → ((x : ClassId) → In x chain → (c : ClassDef) × (class index x ≡ some c))
      → (r : Option MethodLookup) × (scan index blocks methods name chain ≡ some r)
  unfolding scan
  scan_total [] is = (none, refl)
  scan_total (x ∷ chain) is =
      let (c, q) = is x (ground (arith, beq_refl x)) in
      elim (Bool-cases (blocks c)) [
        | inl b ↦ (some inconclusive, rw (q, b) refl)
        | inr p ↦ elim (Option-cases (lookup name (methods c))) [
          | inr (m, l) ↦ (some (found m x), rw (q, p, l) refl)
          | inl l ↦ rw (q, p, l) (scan_total chain (λ y h. is y (ground (arith, h))))
        ]
      ]
