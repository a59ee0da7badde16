-- ===== src/Index/Descendants/Passes.antt =====
-- The test of the classes of a list, `iter().any(…)`.
use itaruby.Base.{
  Bool, true, false, some, List, [], ◌∷◌, ◌≡◌, ◌↔◌, inl, inr, sym, arith, bind-eq-some, Bool-cases,
  nat_eq, beq-cases,
}
use mathlib.Core.Option.{some-injective}
use itaruby.Types.{ClassId}
use itaruby.Index.{ClassDef, ProjectIndex}
use itaruby.Index.Resolve.{class}
use itaruby.Index.Ancestors.Grows.{In}
use itaruby.Index.Descendants.{any_class}

-- One of the classes passes the test.
pub record Passes (index : ProjectIndex) (test : ClassDef → Bool) (ids : List ClassId)
    : Type 0 where
  pub at : ClassId
  pub member : In at ids
  pub def : ClassDef
  pub is_class : class index at ≡ some def
  pub holds : test def ≡ true

pub any_class_iff :
    (index : ProjectIndex) (test : ClassDef → Bool) (ids : List ClassId) (b : Bool)
    → any_class index test ids ≡ some b
    → (b ≡ true) ↔ Passes index test ids
unfolding any_class
any_class_iff index test [] b e =
    let off : false ≡ b = some-injective _ _ e in (λ t. cc (off, t), λ p. cc (p.member))
any_class_iff index test (a ∷ ids) b e =
    let (c, is, e₁) = bind-eq-some (class index a) _ e in
    elim (Bool-cases (test c)) [
      | inl t ↦
          let on : true ≡ b = some-injective _ _ (rw t at e₁) in
          (
            λ h. record { at = a; member = ground arith; def = c; is_class = is; holds = t },
            λ p. sym on,
          )
      | inr f ↦
          let rest = any_class_iff index test ids b (rw f at e₁) in
          (
            λ h.
                let p = rest.0 h in
                record {
                  at = p.at;
                  member = ground (arith, p.member);
                  def = p.def;
                  is_class = p.is_class;
                  holds = p.holds;
                },
            λ p. elim (beq-cases a p.at) [
              | inl q ↦ cc (q, is, p.is_class, f, p.holds)
              | inr d ↦ rest.1 (record {
                at = p.at;
                member = ground (arith, p.member, d);
                def = p.def;
                is_class = p.is_class;
                holds = p.holds;
              })
            ],
          )
    ]
