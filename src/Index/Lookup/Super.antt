-- ===== src/Index/Lookup/Super.antt =====
-- `super` goes on strictly after the class that defines the running method.
use itaruby.Base.{
  ℕ, suc, Bool, true, false, List, [], ◌∷◌, ◌++◌, Option, none, some, Text, ◌==◌, ◌≡◌, ◌≢◌, refl,
  ◌⊎◌, inl, inr, ap, ◌∙◌, arith, contains, drop, nat_eq, text_eq, Bool-cases, Option-cases,
  beq_refl, eq_of_beq,
}
use mathlib.Core.Option.{some-injective}
use itaruby.Types.{ClassId}
use itaruby.Index.{ClassDef, ProjectIndex, MethodLookup, found, not_found, inconclusive}
use itaruby.Index.Resolve.{class}
use itaruby.Index.Ancestors.{Chain, ancestors}
use itaruby.Index.Ancestors.Closure.{ancestors-IsMro}
use itaruby.Index.Ancestors.Grows.{In, Distinct}
use itaruby.Index.Descendants.{own_methods}
use itaruby.Index.Lookup.{position, lookup_from, not_found_if, super_lookup}
use itaruby.Index.Lookup.Scan.{Verdict, scan-Verdict, scan_total}

-- The chain splits at the position of a class.
position-split :
    (id : ClassId) (chain : List ClassId) (n : ℕ)
    → position id chain ≡ some n
    → (before : List ClassId) × (chain ≡ before ++ (id ∷ drop (suc n) chain))
unfolding position
position-split id [] n e = cc
position-split id (a ∷ chain) n e = elim (Bool-cases (a == id)) [
  | inl h ↦ let z : 0 ≡ n = some-injective _ _ (rw h at e) in ([], rw (← z, eq_of_beq a id h) refl)
  | inr h ↦ elim (Option-cases (position id chain)) [
    | inl q ↦ cc (rw (h, q) at e)
    | inr (k, q) ↦
        let s : suc k ≡ n = some-injective _ _ (rw (h, q) at e) in
        let (before, split) = position-split id chain k q in
        (a ∷ before, rw (← s) (ap (λ l. a ∷ l) split))
  ]
]

position_total :
    (id : ClassId) (chain : List ClassId) → In id chain → (n : ℕ) × (position id chain ≡ some n)
unfolding position
position_total id [] h = cc
position_total id (a ∷ chain) h = elim (Bool-cases (a == id)) [
  | inl e ↦ (0, rw e refl)
  | inr d ↦ let (n, q) = position_total id chain (ground (arith, h, d)) in (suc n, rw (d, q) refl)
]

Distinct-after :
    (before after : List ClassId) (id : ClassId)
    → Distinct (before ++ (id ∷ after))
    → contains after id ≡ false
Distinct-after [] after id d = d.0
Distinct-after (x ∷ before) after id d = Distinct-after before after id d.1

contains_after : (before after : List ClassId) (id : ClassId) → In id (before ++ (id ∷ after))
contains_after [] after id = ground (arith, beq_refl id)
contains_after (x ∷ before) after id = ground (arith, contains_after before after id)

contains_later :
    (before after : List ClassId) (id x : ClassId) → In x after → In x (before ++ (id ∷ after))
contains_later [] after id x h = ground (arith, h)
contains_later (y ∷ before) after id x h = ground (arith, contains_later before after id x h)

module _ (index : ProjectIndex) (singleton : Bool) (name : Text) where
  abbrev open_class : ClassDef → Bool
  open_class c = c.is_open

  -- What an answer says of the classes after the owner; `whole` is that the chain is complete.
  abbrev pub Continues : ClassId → List ClassId → Bool → MethodLookup → Type 0
  Continues owner after whole (found m a) =
      (a ≢ owner) × Verdict index open_class (own_methods singleton) name after (some (found m a))
  Continues owner after whole not_found =
      (whole ≡ true) × Verdict index open_class (own_methods singleton) name after none
  Continues owner after whole inconclusive =
      Verdict index open_class (own_methods singleton) name after (some inconclusive)
      ⊎ (whole ≡ false)

  absent-Continues :
      (owner : ClassId) (after : List ClassId) (whole : Bool)
      → Verdict index open_class (own_methods singleton) name after none
      → Continues owner after whole (not_found_if whole)
  absent-Continues owner after true v = (refl, v)
  absent-Continues owner after false v = inr refl

  decided-Continues :
      (owner : ClassId) (after : List ClassId) (whole : Bool) (decided : MethodLookup)
      → contains after owner ≡ false
      → Verdict index open_class (own_methods singleton) name after (some decided)
      → Continues owner after whole decided
  decided-Continues owner after whole (found m a) new (c, f, p, l) =
      let inside : In a after = rw f.split (contains_after f.before f.after a) in
      ((λ q. cc (inside, rw (← q) at new)), (c, f, p, l))
  decided-Continues owner after whole inconclusive new v = inl v
  decided-Continues owner after whole not_found new v = elim v [ ]

  lookup_from-Continues :
      (owner : ClassId) (chain : List ClassId) (whole : Bool) (start : ℕ)
      → contains (drop start chain) owner ≡ false
      → ((x : ClassId) → In x (drop start chain) → (c : ClassDef) × (class index x ≡ some c))
      → (r : MethodLookup) × (lookup_from index chain whole start name singleton ≡ some r)
        × Continues owner (drop start chain) whole r
  unfolding lookup_from
  lookup_from-Continues owner chain whole start new is =
      let (decided, s) =
        scan_total index open_class (own_methods singleton) name (drop start chain) is in
      let v =
        scan-Verdict index open_class (own_methods singleton) name (drop start chain) decided s in
      elim (Option-cases decided) [
        | inl n ↦ (
          not_found_if whole,
          rw (s, n) refl,
          absent-Continues owner (drop start chain) whole (rw n at v),
        )
        | inr (r, q) ↦
            (r, rw (s, q) refl, decided-Continues owner (drop start chain) whole r new (rw q at v))
      ]

  super_lookup-position :
      (anc : ClassId → Option Chain) (owner : ClassId) (c : ClassDef) (chain : List ClassId)
      (whole : Bool) (n : ℕ)
      → class index owner ≡ some c
      → c.is_module ≡ false
      → anc owner ≡ some (chain, whole)
      → position owner chain ≡ some n
      → super_lookup anc index owner singleton name
        ≡ lookup_from index chain whole (suc n) name singleton
  unfolding super_lookup position lookup_from
  super_lookup-position anc owner c chain whole n is class_owner a p =
      rw (is, class_owner, a)
        (ap
          (elim [
            | none ↦ some inconclusive
            | some pos ↦ lookup_from index chain whole (suc pos) name singleton
          ])
          p)

  -- In a class that is no module and has a linearization, super_lookup returns, and it answers from
  -- the classes strictly after the owner: `found` is the first of them that has the method, never
  -- the owner itself; `not_found` means that the chain is complete and none of them is open or has
  -- it; otherwise one of them is open before any definition, or the chain is incomplete.
  pub super_lookup-Continues :
      (depth : ℕ) (owner : ClassId) (c : ClassDef) (chain : Chain)
      → class index owner ≡ some c
      → c.is_module ≡ false
      → ancestors (suc depth) index owner ≡ some chain
      → (r : MethodLookup) × (before : List ClassId) × (after : List ClassId) × (super_lookup
            (ancestors (suc depth) index)
            index
            owner
            singleton
            name
          ≡ some r)
        × (chain.0 ≡ before ++ (owner ∷ after))
        × Continues owner after chain.1 r
  super_lookup-Continues depth owner c chain is class_owner a =
      let mro = ancestors-IsMro depth index owner a in
      let (n, p) = position_total owner chain.0 mro.self in
      let (before, split) = position-split owner chain.0 n p in
      let after = drop (suc n) chain.0 in
      let (r, e, k) =
        lookup_from-Continues owner chain.0 chain.1 (suc n)
          (Distinct-after before after owner (rw split at mro.distinct))
          (λ x h. mro.are_classes x (rw split (contains_later before after owner x h))) in
      (
        r,
        before,
        after,
        super_lookup-position (ancestors (suc depth) index) owner c chain.0 chain.1 n is class_owner
              a p
            ∙ e,
        split,
        k,
      )
