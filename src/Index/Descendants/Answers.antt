-- ===== src/Index/Descendants/Answers.antt =====
-- What the two tests of a descendant say of it.
use itaruby.Base.{
  Bool, true, false, List, [], ◌∷◌, Option, some, Text, ◌≡◌, ◌⊎◌, inl, inr, ap, ◌∙◌, arith, nat_eq,
  text_eq, bind-eq-some, Bool-cases, beq-cases,
}
use mathlib.Core.Option.{some-injective}
use itaruby.Types.{ClassId}
use itaruby.Index.{ClassDef, ProjectIndex}
use itaruby.Index.Resolve.{class}
use itaruby.Index.Ancestors.{Chain}
use itaruby.Index.Ancestors.Grows.{In}
use itaruby.Index.Descendants.{is_unreadable, answers_family, answers_any_name, any_class, supplies}

any_class-false :
    (index : ProjectIndex) (f : ClassDef → Bool) (chain : List ClassId)
    → any_class index f chain ≡ some false
    → (x : ClassId) → In x chain
    → (c : ClassDef) × (class index x ≡ some c) × (f c ≡ false)
unfolding any_class
any_class-false index f [] e x h = cc
any_class-false index f (a ∷ chain) e x h =
    let (c, is, e₁) = bind-eq-some (class index a) _ e in
    elim (Bool-cases (f c)) [
      | inl t ↦ cc (rw t at e₁)
      | inr n ↦ elim (beq-cases a x) [
        | inl q ↦ (c, rw (← q) is, n)
        | inr d ↦ any_class-false index f chain (rw n at e₁) x (ground (arith, h, d))
      ]
    ]

module _ (ancestors : ClassId → Option Chain) (index : ProjectIndex) (name : Text) where
  -- A descendant that cannot answer the method: it does not define it, nor a method that answers any
  -- name, and it is open only for an abstract method, or its whole ancestry is known and no class of
  -- it has the method or is open otherwise.
  pub record CannotAnswer (d : ClassId) : Type 0 where
    pub def : ClassDef
    pub is_class : class index d ≡ some def
    pub lacks : answers_any_name name def ≡ false
    pub surface :
        ((def.is_open ≡ true) × (is_unreadable def ≡ false))
        ⊎ ((chain : List ClassId) × (ancestors d ≡ some (chain, true))
            × ((x : ClassId)
                → In x chain
                → (c : ClassDef) × (class index x ≡ some c) × (supplies name c ≡ false)))

  pub answers_family-false :
      (d : ClassId) → answers_family ancestors index name d ≡ some false → CannotAnswer d
  unfolding answers_family
  answers_family-false d e =
      let (c, is, e₁) = bind-eq-some (class index d) _ e in
      elim (Bool-cases (answers_any_name name c)) [
        | inl a ↦ cc (rw a at e₁)
        | inr l ↦ elim (Bool-cases c.is_open) [
          | inl o ↦ record {
            def = c;
            is_class = is;
            lacks = l;
            surface = inl (o, rw o (some-injective _ _ (rw (l, o) at e₁)));
          }
          | inr o ↦
              let (chain, a, e₂) = bind-eq-some (ancestors d) _ (rw (l, o) at e₁) in
              elim (Bool-cases chain.1) [
                | inr w ↦ cc (rw w at e₂)
                | inl w ↦ record {
                  def = c;
                  is_class = is;
                  lacks = l;
                  surface = inr (
                    chain.0,
                    a ∙ ap (λ b. some (chain.0, b)) w,
                    any_class-false index (supplies name) chain.0 (rw w at e₂),
                  );
                }
              ]
        ]
      ]
