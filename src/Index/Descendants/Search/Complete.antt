-- ===== src/Index/Descendants/Search/Complete.antt =====
-- A search that says `false` has asked every descendant, and a search comes to an end.
use itaruby.Base.{
  ℕ, zero, suc, Bool, true, false, List, [], ◌∷◌, Option, none, some, ◌≡◌, sym, ◌∙◌, ◌⊎◌, inl, inr,
  arith, nat_eq, contains, lookup, bind-eq-some, beq_refl, beq-cases, Bool-cases, Option-cases,
}
use mathlib.Core.Option.{some-injective}
use itaruby.Types.{ClassId}
use itaruby.Index.Ancestors.Grows.{In}
use itaruby.Index.Descendants.{push_kids, search, search_from}
use itaruby.Index.Descendants.Search.{
  Kid, Reaches, self, kid, Descendant, Pushed, push_kids-Pushed, AllReach-start, search-true,
}

module _ (test : ClassId → Option Bool) (subclasses : List (ClassId × List ClassId)) where
  -- Every kid of a class in `seen` is asked, and is seen or on the stack.
  abbrev Asked : List ClassId → List ClassId → Type 0
  Asked seen stack =
      (x k : ClassId)
      → In x seen
      → Kid subclasses x k
      → (test k ≡ some false) × (In k seen ⊎ In k stack)

  -- A set of classes with all their kids, none of which passes the test.
  record Exhausted (seen stack : List ClassId) : Type 0 where
    classes : List ClassId
    seen_in : (x : ClassId) → In x seen → In x classes
    stack_in : (x : ClassId) → In x stack → In x classes
    asked :
        (x k : ClassId) → In x classes → Kid subclasses x k → (test k ≡ some false) × In k classes

  Asked-seen :
      (cur : ClassId) (stack seen : List ClassId)
      → contains seen cur ≡ true
      → Asked seen (cur ∷ stack)
      → Asked seen stack
  Asked-seen cur stack seen old a x k h q =
      let (t, i) = a x k h q in
      (t, elim (beq-cases cur k) [ inl e ↦ inl (rw (← e) old) | inr d ↦ ground (arith, i, d) ])

  Asked-leaf :
      (cur : ClassId) (stack seen : List ClassId)
      → lookup cur subclasses ≡ none
      → Asked seen (cur ∷ stack)
      → Asked (cur ∷ seen) stack
  Asked-leaf cur stack seen l a x k h (kids, q, i) = elim (beq-cases cur x) [
    | inl e ↦ cc (rw (← e) at q)
    | inr d ↦ let (t, j) = a x k (ground (arith, h, d)) (kids, q, i) in (t, ground (arith, j))
  ]

  Asked-Pushed :
      (cur : ClassId) (kids stack stack' seen : List ClassId)
      → lookup cur subclasses ≡ some kids
      → Pushed test subclasses kids stack stack'
      → Asked seen (cur ∷ stack)
      → Asked (cur ∷ seen) stack'
  Asked-Pushed cur kids stack stack' seen l p a x k h (ks, q, i) = elim (beq-cases cur x) [
    | inl e ↦
        let same : kids ≡ ks = some-injective _ _ (sym l ∙ rw (← e) at q) in
        let i' : In k kids = rw same i in (p.tested k i', inr (p.pushed k i'))
    | inr d ↦
        let (t, j) = a x k (ground (arith, h, d)) (ks, q, i) in (t, ground (arith, j, p.kept k))
  ]

  Exhausted-from :
      (seen stack seen' stack' : List ClassId)
      → ((x : ClassId) → In x seen' → In x seen ⊎ In x stack)
      → ((x : ClassId) → In x stack' → In x seen ⊎ In x stack)
      → Exhausted seen stack
      → Exhausted seen' stack'
  Exhausted-from seen stack seen' stack' f g e = record {
    classes = e.classes;
    seen_in = λ x h. elim (f x h) [ inl i ↦ e.seen_in x i | inr i ↦ e.stack_in x i ];
    stack_in = λ x h. elim (g x h) [ inl i ↦ e.seen_in x i | inr i ↦ e.stack_in x i ];
    asked = e.asked;
  }

  search-Exhausted :
      (fuel : ℕ) (stack seen : List ClassId)
      → Asked seen stack
      → search test subclasses fuel stack seen ≡ some false
      → Exhausted seen stack
  unfolding search
  search-Exhausted zero stack seen a e = cc
  search-Exhausted (suc fuel) [] seen a e = record {
    classes = seen;
    seen_in = λ x h. h;
    stack_in = λ x h. cc;
    asked = λ x k h q. let (t, i) = a x k h q in (t, ground (arith, i));
  }
  search-Exhausted (suc fuel) (cur ∷ stack) seen a e = elim (Bool-cases (contains seen cur)) [
    | inl old ↦
        Exhausted-from seen stack seen (cur ∷ stack) (λ x h. inl h)
          (λ x h. elim (beq-cases cur x) [
            | inl q ↦ inl (rw (← q) old)
            | inr d ↦ inr (ground (arith, h, d))
          ])
          (search-Exhausted fuel stack seen (Asked-seen cur stack seen old a)
            (rw (search, old) at e))
    | inr new ↦ elim (Option-cases (lookup cur subclasses)) [
      | inl l ↦
          Exhausted-from (cur ∷ seen) stack seen (cur ∷ stack) (λ x h. inl (ground (arith, h)))
            (λ x h. ground (arith, h))
            (search-Exhausted fuel stack (cur ∷ seen) (Asked-leaf cur stack seen l a)
              (rw (search, new, l) at e))
      | inr (kids, l) ↦
          let (pushed, q, e₁) =
            bind-eq-some (push_kids test subclasses kids stack) _ (rw (search, new, l) at e) in
          elim (Option-cases pushed) [
            | inl n ↦ cc (rw n at e₁)
            | inr (stack', s) ↦
                let p = push_kids-Pushed test subclasses kids stack stack' (rw s at q) in
                Exhausted-from (cur ∷ seen) stack' seen (cur ∷ stack)
                  (λ x h. inl (ground (arith, h))) (λ x h. ground (arith, h, p.kept x))
                  (search-Exhausted fuel stack' (cur ∷ seen)
                    (Asked-Pushed cur kids stack stack' seen l p a) (rw s at e₁))
          ]
    ]
  ]

  Exhausted-Reaches :
      (id : ClassId) {x : ClassId} (e : Exhausted [] (id ∷ []))
      → Reaches subclasses id x
      → In x e.classes
  Exhausted-Reaches id e self = e.stack_in id (ground (arith, beq_refl id))
  Exhausted-Reaches id e (kid r k) = (e.asked _ _ (Exhausted-Reaches id e r) k).1

  pub search_false :
      (id : ClassId)
      → search_from test subclasses id ≡ some false
      → (d : ClassId) → Descendant subclasses id d
      → test d ≡ some false
  search_false id h d (x, r, k) =
      let e = search-Exhausted _ (id ∷ []) [] (λ x k i q. cc) h in
      (e.asked x d (Exhausted-Reaches id e r) k).0

  pub search_from-true :
      (id : ClassId)
      → search_from test subclasses id ≡ some true
      → (d : ClassId) × Descendant subclasses id d × (test d ≡ some true)
  search_from-true id h =
      search-true test subclasses id _ (id ∷ []) [] (AllReach-start test subclasses id) h
