-- ===== src/Index/Descendants/Search.antt =====
-- What the worklist finds: the descendants of a class, each of which is asked.
pub mod Complete
pub mod Total
use itaruby.Base.{
  ℕ, zero, suc, Bool, true, false, ◌||◌, List, [], ◌∷◌, Option, none, some, ◌==◌, ◌≡◌, ◌⊎◌, inl,
  inr, refl, arith, if◌then◌else◌, nat_eq, contains, lookup, ◌>>=◌, bind-eq-some, beq_refl,
  beq-cases, eq_of_beq, Bool-cases, Option-cases,
}
use mathlib.Core.Option.{some-injective}
use mathlib.Core.Path.{subst}
use itaruby.Types.{ClassId}
use itaruby.Index.Ancestors.Grows.{In}
use itaruby.Index.Descendants.{push_kids, search, search_from, total_kids}

module _ (subclasses : List (ClassId × List ClassId)) where
  abbrev pub Kid : ClassId → ClassId → Type 0
  Kid x k = (kids : List ClassId) × (lookup x subclasses ≡ some kids) × In k kids

  -- A class and its descendants.
  pub data Reaches (id : ClassId) : ClassId → Type 0 where
    self : Reaches id id
    kid : {x k : ClassId} → Reaches id x → Kid x k → Reaches id k

  abbrev pub Descendant : ClassId → ClassId → Type 0
  Descendant id d = (x : ClassId) × Reaches id x × Kid x d

module _ (test : ClassId → Option Bool) (subclasses : List (ClassId × List ClassId)) where
  -- What the loop over the kids has done when it goes on.
  pub record Pushed (kids stack stack' : List ClassId) : Type 0 where
    pub tested : (k : ClassId) → In k kids → test k ≡ some false
    pub pushed : (k : ClassId) → In k kids → In k stack'
    pub kept : (k : ClassId) → In k stack → In k stack'
    pub from : (k : ClassId) → In k stack' → In k kids ⊎ In k stack

  Pushed-cons :
      (x : ClassId) (kids stack stack' : List ClassId)
      → test x ≡ some false
      → Pushed kids (x ∷ stack) stack'
      → Pushed (x ∷ kids) stack stack'
  Pushed-cons x kids stack stack' t p = record {
    tested = λ k h. elim (beq-cases x k) [
      | inl e ↦ rw (← e) t
      | inr d ↦ p.tested k (ground (arith, h, d))
    ];
    pushed = λ k h. elim (Bool-cases (x == k)) [
      | inl e ↦ p.kept k (ground (arith, e))
      | inr d ↦ p.pushed k (ground (arith, h, d))
    ];
    kept = λ k h. p.kept k (ground (arith, h));
    from = λ k h. ground (arith, p.from k h);
  }

  pub push_kids-Pushed :
      (kids stack stack' : List ClassId)
      → push_kids test subclasses kids stack ≡ some (some stack')
      → Pushed kids stack stack'
  unfolding push_kids
  push_kids-Pushed [] stack stack' e = record {
    tested = λ k h. cc;
    pushed = λ k h. cc;
    kept = λ k h. rw (← some-injective _ _ (some-injective _ _ e)) h;
    from = λ k h. inr (rw (some-injective _ _ (some-injective _ _ e)) h);
  }
  push_kids-Pushed (x ∷ kids) stack stack' e =
      let (hit, t, e₁) = bind-eq-some (test x) _ e in
      elim (Bool-cases hit) [
        | inl q ↦ cc (rw q at e₁)
        | inr q ↦
            Pushed-cons x kids stack stack' (rw q at t)
              (push_kids-Pushed kids (x ∷ stack) stack' (rw q at e₁))
      ]

  push_kids_hit :
      (kids stack : List ClassId)
      → push_kids test subclasses kids stack ≡ some none
      → (k : ClassId) × In k kids × (test k ≡ some true)
  unfolding push_kids
  push_kids_hit [] stack e = cc
  push_kids_hit (x ∷ kids) stack e =
      let (hit, t, e₁) = bind-eq-some (test x) _ e in
      elim (Bool-cases hit) [
        | inl q ↦ (x, ground (arith, beq_refl x), rw q at t)
        | inr q ↦
            let (k, h, y) = push_kids_hit kids (x ∷ stack) (rw q at e₁) in (k, ground (arith, h), y)
      ]

  module _ (id : ClassId) where
    abbrev pub AllReach : List ClassId → Type 0
    AllReach stack = (x : ClassId) → In x stack → Reaches subclasses id x

    pub AllReach-Pushed :
        (cur : ClassId) (kids stack stack' : List ClassId)
        → lookup cur subclasses ≡ some kids
        → Pushed kids stack stack'
        → AllReach (cur ∷ stack)
        → AllReach stack'
    AllReach-Pushed cur kids stack stack' l p r x h = elim (p.from x h) [
      | inl k ↦ kid (r cur (ground (arith, beq_refl cur))) (kids, l, k)
      | inr s ↦ r x (ground (arith, s))
    ]

    pub search-true :
        (fuel : ℕ) (stack seen : List ClassId)
        → AllReach stack
        → search test subclasses fuel stack seen ≡ some true
        → (d : ClassId) × Descendant subclasses id d × (test d ≡ some true)
    unfolding search
    search-true zero stack seen r e = cc
    search-true (suc fuel) [] seen r e = cc
    search-true (suc fuel) (cur ∷ stack) seen r e = elim (Bool-cases (contains seen cur)) [
      | inl old ↦
          search-true fuel stack seen (λ x h. r x (ground (arith, h))) (rw (search, old) at e)
      | inr new ↦ elim (Option-cases (lookup cur subclasses)) [
        | inl l ↦
            search-true fuel stack (cur ∷ seen) (λ x h. r x (ground (arith, h)))
              (rw (search, new, l) at e)
        | inr (kids, l) ↦
            let (pushed, q, e₁) =
              bind-eq-some (push_kids test subclasses kids stack) _ (rw (search, new, l) at e) in
            elim (Option-cases pushed) [
              | inl n ↦
                  let (k, h, t) = push_kids_hit kids stack (rw n at q) in
                  (k, (cur, r cur (ground (arith, beq_refl cur)), (kids, l, h)), t)
              | inr (stack', s) ↦
                  search-true fuel stack' (cur ∷ seen)
                    (AllReach-Pushed cur kids stack stack' l
                      (push_kids-Pushed kids stack stack' (rw s at q)) r)
                    (rw s at e₁)
            ]
      ]
    ]

    pub AllReach-start : AllReach (id ∷ [])
    AllReach-start x h = elim (beq-cases id x) [ inl e ↦ rw (← e) self | inr d ↦ cc (rw d at h) ]
