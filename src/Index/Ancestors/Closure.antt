-- ===== src/Index/Ancestors/Closure.antt =====
-- What a finished walk of `linearize` has done.
use itaruby.Base.{
  ℕ, zero, suc, true, false, List, [], ◌∷◌, reverse, Option, none, some, Text, ◌≡◌, inl, inr, refl,
  ◌∙◌, arith, contains, nat_eq, Bool-cases, length, bind-eq-some,
}
use mathlib.Core.Option.{some-injective}
use mathlib.Core.Path.{subst}
use itaruby.Types.{ClassId}
use itaruby.Index.{ClassDef, ProjectIndex}
use itaruby.Index.Resolve.{class, resolve_const}
use itaruby.Index.Ancestors.{
  Walk, Chain, enter, push, start, walk_parent, walk_mixins, walk_superclass, walk_class, linearize,
  ancestors, resolve_superclass_const,
}
use itaruby.Index.Ancestors.Class.{class-Grows}
use itaruby.Index.Ancestors.Grows.{
  In, Distinct, AllResolve, AllResolve-mono, SuperResolves, Closed, Closed-mono, Settled, Grows,
  Grows-refl, Grows-incomplete, Grows-trans,
}

module _ (resolve : ClassId → List Text → Text → Option (Option ClassId))
    (index : ProjectIndex) where
  -- What is shown of `linearize` by induction on its fuel.
  abbrev WalkSpec : (ClassId → Walk → Option Walk) → Type 0
  WalkSpec walk =
      (id : ClassId) (w w' : Walk)
      → walk id w ≡ some w'
      → Grows resolve index w w' × In id w'.visited

  -- The parent, if there is one, is visited, and the chain stays complete only if there is one.
  abbrev ParentDone : Option ClassId → Walk → Type 0
  ParentDone parent w = w.complete ≡ true → (m : ClassId) × (parent ≡ some m) × In m w.visited

  walk_parent-Grows :
      (walk : ClassId → Walk → Option Walk)
      → WalkSpec walk
      → (parent : Option ClassId) (w w' : Walk) → walk_parent walk parent w ≡ some w'
      → Grows resolve index w w' × ParentDone parent w'
  walk_parent-Grows walk spec (some m) w w' e =
      let (g, v) = spec m w w' e in (g, (λ c. (m, refl, v)))
  walk_parent-Grows walk spec none w w' e =
      let q = some-injective _ _ e in
      (subst (Grows resolve index w) q (Grows-incomplete resolve index w), (λ c. cc))

  walk_mixins-Grows :
      (walk : ClassId → Walk → Option Walk)
      → WalkSpec walk
      → (nesting names : List Text) (w w' : Walk) → walk_mixins walk index nesting names w ≡ some w'
      → Grows resolve index w w'
        × (w'.complete ≡ true → AllResolve resolve index nesting names w'.visited)
  unfolding walk_mixins
  walk_mixins-Grows walk spec nesting [] w w' e =
      (subst (Grows resolve index w) (some-injective _ _ e) (Grows-refl resolve index w), (λ c. tt))
  walk_mixins-Grows walk spec nesting (name ∷ names) w w' e =
      let (parent, r, e₁) = bind-eq-some (resolve_const index nesting name) _ e in
      let (v, s, e₂) = bind-eq-some (walk_parent walk parent w) _ e₁ in
      let (g, d) = walk_parent-Grows walk spec parent w v s in
      let (k, a) = walk_mixins-Grows walk spec nesting names v w' e₂ in
      (
        Grows-trans resolve index w v w' g k,
        (λ c. let (m, q, i) = d (k.complete c) in ((m, r ∙ rw q, k.visited m i), a c)),
      )

  walk_superclass-Grows :
      (walk : ClassId → Walk → Option Walk)
      → WalkSpec walk
      → (id : ClassId) (c : ClassDef) (sc : Option Text) (w w' : Walk)
      → walk_superclass walk resolve id c sc w ≡ some w'
      → Grows resolve index w w'
        × (w'.complete ≡ true → SuperResolves resolve index id c.nesting sc w'.visited)
  unfolding walk_superclass
  walk_superclass-Grows walk spec id c none w w' e =
      (subst (Grows resolve index w) (some-injective _ _ e) (Grows-refl resolve index w), (λ q. tt))
  walk_superclass-Grows walk spec id c (some sc) w w' e =
      let (parent, r, e₁) = bind-eq-some (resolve id c.nesting sc) _ e in
      let (g, d) = walk_parent-Grows walk spec parent w w' e₁ in
      (g, (λ q. let (m, p, i) = d q in (m, r ∙ rw p, i)))

  walk_class-Grows :
      (walk : ClassId → Walk → Option Walk)
      → WalkSpec walk
      → (id : ClassId) (c : ClassDef) (w w' : Walk) → contains w.visited id ≡ false
      → class index id ≡ some c
      → walk_class walk resolve index id c w ≡ some w'
      → Grows resolve index w w' × In id w'.visited
  unfolding walk_class
  walk_class-Grows walk spec id c w w' new is e =
      let (v, s₁, e₁) =
        bind-eq-some (walk_mixins walk index c.nesting (reverse c.prepends) (enter index id w)) _
          e in
      let (u, s₂, e₂) =
        bind-eq-some (walk_mixins walk index c.nesting (reverse c.includes) (push id v)) _ e₁ in
      let (g, a) =
        walk_mixins-Grows walk spec c.nesting (reverse c.prepends) (enter index id w) v s₁ in
      let (k, b) = walk_mixins-Grows walk spec c.nesting (reverse c.includes) (push id v) u s₂ in
      let (l, d) = walk_superclass-Grows walk spec id c c.superclass u w' e₂ in
      let grown = Grows-trans resolve index (push id v) u w' k l in
      class-Grows resolve index id w v w' (c, is) new g grown
        (λ q. record {
          def = c;
          is_class = is;
          unambiguous = ground (arith, g.complete (k.complete (l.complete q)));
          prepends =
              AllResolve-mono resolve index c.nesting (reverse c.prepends) v.visited w'.visited
                grown.visited (a (k.complete (l.complete q)));
          includes =
              AllResolve-mono resolve index c.nesting (reverse c.includes) u.visited w'.visited
                l.visited (b (l.complete q));
          super = d q;
        })

  pub linearize-Grows :
      (fuel : ℕ) (id : ClassId) (w w' : Walk)
      → linearize resolve index fuel id w ≡ some w'
      → Grows resolve index w w' × In id w'.visited
  unfolding linearize
  linearize-Grows zero id w w' e = cc
  linearize-Grows (suc fuel) id w w' e = elim (Bool-cases (contains w.visited id)) [
    | inl old ↦
        let q = some-injective _ _ (rw old at e) in
        (
          subst (Grows resolve index w) q (Grows-refl resolve index w),
          subst (λ x. In id x.visited) q old,
        )
    | inr new ↦
        let (c, is, e₁) = bind-eq-some (class index id) _ (rw new at e) in
        walk_class-Grows (linearize resolve index fuel) (linearize-Grows fuel) id c w w' new is e₁
  ]

-- A method resolution order: it has the class itself, no class twice, and, if it claims to be
-- complete, every parent that one of its classes names.
pub record IsMro (resolve : ClassId → List Text → Text → Option (Option ClassId))
    (index : ProjectIndex) (id : ClassId) (chain : Chain) : Type 0 where
  pub self : In id chain.0
  pub distinct : Distinct chain.0
  pub are_classes : (x : ClassId) → In x chain.0 → (c : ClassDef) × (class index x ≡ some c)
  pub closed : chain.1 ≡ true → (x : ClassId) → In x chain.0 → Closed resolve index chain.0 x

linearize-IsMro :
    (resolve : ClassId → List Text → Text → Option (Option ClassId)) (index : ProjectIndex)
    (fuel : ℕ) (id : ClassId) (w : Walk)
    → linearize resolve index fuel id start ≡ some w
    → IsMro resolve index id (w.out, w.complete)
linearize-IsMro resolve index fuel id w e = record {
  self = (settled id v).in_out;
  distinct = g.distinct (λ x h. h) tt;
  are_classes = λ x h. (settled x (seen x h)).is_class;
  closed = λ q x h.
      Closed-mono resolve index w.visited w.out x (λ y u. (settled y u).in_out)
        ((settled x (seen x h)).closed q);
}
  where
    g : Grows resolve index start w
    g = (linearize-Grows resolve index fuel id start w e).0

    v : In id w.visited
    v = (linearize-Grows resolve index fuel id start w e).1

    settled : (x : ClassId) → In x w.visited → Settled resolve index w x
    settled x h = elim (g.settled x h) [ inl i ↦ cc | inr s ↦ s ]

    seen : (x : ClassId) → In x w.out → In x w.visited
    seen x h = elim (g.seen x h) [ inl i ↦ cc | inr s ↦ s ]

-- Whatever ancestors returns for a class has the class itself, has no class twice, has only classes
-- of the table, and, when it says it is complete, resolves every mixin and superclass that one of
-- its classes names to a class of the result, none of them of ambiguous ancestry.
pub ancestors-IsMro :
    (depth : ℕ) (index : ProjectIndex) (id : ClassId) {chain : Chain}
    → ancestors (suc depth) index id ≡ some chain
    → IsMro (resolve_superclass_const (ancestors depth index) index) index id chain
unfolding ancestors
ancestors-IsMro depth index id {chain} e =
    let resolve = resolve_superclass_const (ancestors depth index) index in
    let (w, l, q) =
      bind-eq-some (linearize resolve index (suc (length index.classes)) id start) _ e in
    subst (IsMro resolve index id) (some-injective _ _ q)
      (linearize-IsMro resolve index (suc (length index.classes)) id w l)
