-- ===== src/Index/Descendants/Search/Total.antt =====
-- The search comes to an end: each class's kids are pushed once.
use itaruby.Base.{
  ℕ, zero, suc, ◌+◌, ◌<◌, ◌≤◌, Bool, true, false, List, [], ◌∷◌, Option, none, some, ◌==◌, ◌≡◌, ◌⊎◌,
  inl, inr, refl, arith, if◌then◌else◌, nat_eq, contains, lookup, length, beq_refl, beq-cases,
  Bool-cases, Option-cases,
}
use mathlib.Core.Option.{some-injective}
use itaruby.Types.{ClassId}
use itaruby.Index.Ancestors.Grows.{In}
use itaruby.Index.Descendants.{push_kids, search, search_from, total_kids}
use itaruby.Index.Descendants.Search.{
  Descendant, push_kids-Pushed, AllReach, AllReach-Pushed, AllReach-start,
}

-- The kids of the classes that are not seen.
pending : List (ClassId × List ClassId) → List ClassId → ℕ
pending [] seen = 0
pending ((k, kids) ∷ m) seen = (if contains seen k then 0 else length kids) + pending m seen

pending_anti :
    (m : List (ClassId × List ClassId)) (cur : ClassId) (seen : List ClassId)
    → pending m (cur ∷ seen) ≤ pending m seen
unfolding pending
pending_anti [] cur seen = omega arith
pending_anti ((k, kids) ∷ m) cur seen = ground (arith, pending_anti m cur seen)

pending_enter :
    (m : List (ClassId × List ClassId)) (cur : ClassId) (kids seen : List ClassId)
    → contains seen cur ≡ false
    → lookup cur m ≡ some kids
    → length kids + pending m (cur ∷ seen) ≤ pending m seen
unfolding pending
pending_enter [] cur kids seen new l = cc
pending_enter ((k, ks) ∷ m) cur kids seen new l = elim (beq-cases k cur) [
  | inr d ↦ let below = pending_enter m cur kids seen new (rw d at l) in ground (arith, below)
  | inl e ↦
      let same : (k == cur) ≡ true = rw e (beq_refl cur) in
      let is : ks ≡ kids = some-injective _ _ (rw same at l) in
      let unseen : contains seen k ≡ false = rw e new in
      let here : (cur == k) ≡ true = rw e (beq_refl cur) in
      rw (unseen, here, is) (omega (arith, pending_anti m cur seen))
]

pending-total : (m : List (ClassId × List ClassId)) → pending m [] ≡ total_kids m
unfolding pending total_kids
pending-total [] = refl
pending-total ((k, kids) ∷ m) = omega (arith, pending-total m)

module _ (test : ClassId → Option Bool) (subclasses : List (ClassId × List ClassId)) where
  push_kids_total :
      (kids stack : List ClassId)
      → ((k : ClassId) → In k kids → (b : Bool) × (test k ≡ some b))
      → (push_kids test subclasses kids stack ≡ some none)
        ⊎ ((stack' : List ClassId) × (push_kids test subclasses kids stack ≡ some (some stack'))
            × (length stack' ≡ length kids + length stack))
  unfolding push_kids
  push_kids_total [] stack t = inr (stack, refl, omega arith)
  push_kids_total (x ∷ kids) stack t =
      let (hit, q) = t x (ground (arith, beq_refl x)) in
      elim (Bool-cases hit) [
        | inl h ↦ inl (rw (q, h) refl)
        | inr h ↦ elim (push_kids_total kids (x ∷ stack) (λ k i. t k (ground (arith, i)))) [
          | inl e ↦ inl (rw (q, h) e)
          | inr (stack', e, l) ↦ inr (stack', rw (q, h) e, omega (arith, l))
        ]
      ]

  module _ (id : ClassId)
      (returns : (d : ClassId) → Descendant subclasses id d → (b : Bool) × (test d ≡ some b)) where
    search_by_fuel :
        (fuel : ℕ) (stack seen : List ClassId)
        → AllReach test subclasses id stack
        → length stack + pending subclasses seen < fuel
        → (b : Bool) × (search test subclasses fuel stack seen ≡ some b)
    unfolding search
    search_by_fuel zero stack seen r f = absurd (omega arith)
    search_by_fuel (suc fuel) [] seen r f = (false, refl)
    search_by_fuel (suc fuel) (cur ∷ stack) seen r f = elim (Bool-cases (contains seen cur)) [
      | inl old ↦
          rw (search, old)
            (search_by_fuel fuel stack seen (λ x h. r x (ground (arith, h))) (omega (arith, f)))
      | inr new ↦ elim (Option-cases (lookup cur subclasses)) [
        | inl l ↦
            rw (search, new, l)
              (search_by_fuel fuel stack (cur ∷ seen) (λ x h. r x (ground (arith, h)))
                (omega (arith, f, pending_anti subclasses cur seen)))
        | inr (kids, l) ↦
            let here = r cur (ground (arith, beq_refl cur)) in
            elim (push_kids_total kids stack (λ k i. returns k (cur, here, (kids, l, i)))) [
              | inl e ↦ (true, rw (search, new, l, e) refl)
              | inr (stack', e, n) ↦
                  rw (search, new, l, e)
                    (search_by_fuel fuel stack' (cur ∷ seen)
                      (AllReach-Pushed test subclasses id cur kids stack stack' l
                        (push_kids-Pushed test subclasses kids stack stack' e) r)
                      (omega (arith, f, n, pending_enter subclasses cur kids seen new l)))
            ]
      ]
    ]

    pub search_total : (b : Bool) × (search_from test subclasses id ≡ some b)
    search_total =
        search_by_fuel _ (id ∷ []) [] (AllReach-start test subclasses id)
          (omega (arith, pending-total subclasses))
