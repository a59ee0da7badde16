-- ===== src/Index/Ancestors/Class.antt =====
-- The walk of one class, put together from those of its prepended modules, its included modules and
-- its superclass.
use itaruby.Base.{
  true, false, List, [], ◌∷◌, ◌++◌, Option, some, Text, ◌≡◌, ◌⊎◌, inl, inr, arith, contains, nat_eq,
  nat_beq_iff, beq_refl, beq-cases, Bool-cases,
}
use itaruby.Types.{ClassId}
use itaruby.Index.{ClassDef, ProjectIndex}
use itaruby.Index.Resolve.{class}
use itaruby.Index.Ancestors.{Walk, enter, push}
use itaruby.Index.Ancestors.Grows.{
  In, Distinct, Distinct-concat, contains-concat, Closed, Settled, Settled-mono, Grows,
}

In-concat : (xs : List ClassId) (a x : ClassId) → In x xs → In x (xs ++ (a ∷ []))
In-concat xs a x h = rw (contains-concat xs a x) (ground arith)

In-concat_self : (xs : List ClassId) (a : ClassId) → In a (xs ++ (a ∷ []))
In-concat_self xs a = rw (contains-concat xs a a) (ground arith)

In-concat-cases : (xs : List ClassId) (a x : ClassId) → In x (xs ++ (a ∷ [])) → In x xs ⊎ (a ≡ x)
In-concat-cases xs a x h = elim (Bool-cases (contains xs x)) [
  | inl t ↦ inl t
  | inr f ↦ inr ((nat_beq_iff a x).0 (rw f at (rw (contains-concat xs a x) at h)))
]

In-cons : (a x : ClassId) (xs : List ClassId) → In x xs → In x (a ∷ xs)
In-cons a x xs h = ground arith

In-cons-cases : (a x : ClassId) (xs : List ClassId) → In x (a ∷ xs) → (a ≡ x) ⊎ In x xs
In-cons-cases a x xs h = elim (beq-cases a x) [ inl e ↦ inl e | inr n ↦ inr (rw n at h) ]

-- The three walks of a class that was not visited: over its prepends from `enter id w` to `v`, and
-- over its includes and its superclass from `push id v` to `w'`.
module _ (resolve : ClassId → List Text → Text → Option (Option ClassId)) (index : ProjectIndex)
    (id : ClassId) (w v w' : Walk) (is : (c : ClassDef) × (class index id ≡ some c))
    (new : contains w.visited id ≡ false) (g : Grows resolve index (enter index id w) v)
    (k : Grows resolve index (push id v) w')
    (closed : w'.complete ≡ true → Closed resolve index w'.visited id) where
  id_visited : In id w'.visited
  id_visited = k.visited id (g.visited id (rw (beq_refl id)))

  class-Settled_self : Settled resolve index w' id
  class-Settled_self = record {
    in_out = k.out id (In-concat_self v.out id);
    is_class = is;
    closed = closed;
  }

  class-visited : (x : ClassId) → In x w.visited → In x w'.visited
  class-visited x h = k.visited x (g.visited x (In-cons id x w.visited h))

  class-Settled : (x : ClassId) → In x w'.visited → In x w.visited ⊎ Settled resolve index w' x
  class-Settled x h = elim (k.settled x h) [
    | inr s ↦ inr s
    | inl u ↦ elim (g.settled x u) [
      | inr s ↦ inr (
          Settled-mono resolve index v w' x k.visited (λ y o. k.out y (In-concat v.out id y o))
            k.complete s)
      | inl t ↦ elim (In-cons-cases id x w.visited t) [
        | inl e ↦ inr (rw (← e) class-Settled_self)
        | inr i ↦ inl i
      ]
    ]
  ]

  not_before : (x : ClassId) → contains v.visited x ≡ false → contains w.visited x ≡ false
  not_before x h = elim (Bool-cases (contains w.visited x)) [
    | inl t ↦ cc (g.visited x (In-cons id x w.visited t))
    | inr f ↦ f
  ]

  class-fresh : (x : ClassId) → In x w'.out → In x w.out ⊎ (contains w.visited x ≡ false)
  class-fresh x h = elim (k.fresh x h) [
    | inr n ↦ inr (not_before x n)
    | inl o ↦ elim (In-concat-cases v.out id x o) [
      | inl u ↦ elim (g.fresh x u) [ inl t ↦ inl t | inr n ↦ inr (ground arith) ]
      | inr e ↦ inr (rw (← e) new)
    ]
  ]

  class-seen : (x : ClassId) → In x w'.out → In x w.out ⊎ In x w'.visited
  class-seen x h = elim (k.seen x h) [
    | inr n ↦ inr n
    | inl o ↦ elim (In-concat-cases v.out id x o) [
      | inl u ↦ elim (g.seen x u) [ inl t ↦ inl t | inr n ↦ inr (k.visited x n) ]
      | inr e ↦ inr (rw (← e) id_visited)
    ]
  ]

  -- Before its own push the class is in no part of the chain.
  not_pushed : ((x : ClassId) → In x w.out → In x w.visited) → contains v.out id ≡ false
  not_pushed h = elim (Bool-cases (contains v.out id)) [
    | inr f ↦ f
    | inl t ↦ elim (g.fresh id t) [ inl o ↦ cc (new, h id o) | inr n ↦ cc (rw (beq_refl id) at n) ]
  ]

  out_visited :
      ((x : ClassId) → In x w.out → In x w.visited)
      → (x : ClassId) → In x (push id v).out
      → In x v.visited
  out_visited h x o = elim (In-concat-cases v.out id x o) [
    | inl u ↦ elim (g.seen x u) [ inl t ↦ g.visited x (In-cons id x w.visited (h x t)) | inr n ↦ n ]
    | inr e ↦ rw (← e) (g.visited id (rw (beq_refl id)))
  ]

  class-Distinct : ((x : ClassId) → In x w.out → In x w.visited) → Distinct w.out → Distinct w'.out
  class-Distinct h d = k.distinct (out_visited h) (
      Distinct-concat v.out id (g.distinct (λ x o. In-cons id x w.visited (h x o)) d)
        (not_pushed h))

  pub class-Grows : Grows resolve index w w' × In id w'.visited
  class-Grows = (
    record {
      visited = class-visited;
      out = λ x h. k.out x (In-concat v.out id x (g.out x h));
      complete = λ h. ground (arith, g.complete (k.complete h));
      settled = class-Settled;
      fresh = class-fresh;
      seen = class-seen;
      distinct = class-Distinct;
    },
    id_visited,
  )
