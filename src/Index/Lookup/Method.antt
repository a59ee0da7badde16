-- ===== src/Index/Lookup/Method.antt =====
-- What `lookup_method` claims: the first definition in the method resolution order, or that neither
-- the ancestors nor the descendants of the receiver have the method, or neither.
use itaruby.Base.{
  Bool, true, false, List, Option, none, some, Text, ◌≡◌, ◌⊎◌, inl, inr, nat_eq, text_eq,
  bind-eq-some, Bool-cases,
}
use mathlib.Core.Option.{some-injective}
use mathlib.Core.Path.{subst}
use itaruby.Types.{ClassId}
use itaruby.Index.{MethodSig, ClassDef, ProjectIndex, MethodLookup, found, not_found, inconclusive}
use itaruby.Index.Resolve.{class}
use itaruby.Index.Ancestors.{Chain}
use itaruby.Index.Ancestors.Grows.{In}
use itaruby.Index.Descendants.{is_unreadable, answers_family, abstract_family_defines}
use itaruby.Index.Descendants.Answers.{CannotAnswer, answers_family-false}
use itaruby.Index.Descendants.Search.{Descendant}
use itaruby.Index.Descendants.Search.Complete.{search_false, search_from-true}
use itaruby.Index.Lookup.{scan, when_absent, lookup_method}
use itaruby.Index.Lookup.Scan.{IsSkipped, Verdict, scan-Verdict}

module _ (ancestors : ClassId → Option Chain) (index : ProjectIndex) (name : Text) where
  abbrev pub instance_methods : ClassDef → List (Text × MethodSig)
  instance_methods c = c.methods

  -- What `lookup_method` claims with its answer.
  abbrev pub Claim : ClassId → List ClassId → Bool → MethodLookup → Type 0
  Claim id chain whole (found m a) =
      Verdict index is_unreadable instance_methods name chain (some (found m a))
  Claim id chain whole not_found =
      (whole ≡ true)
      × ((x : ClassId) → In x chain → IsSkipped index is_unreadable instance_methods name x)
      × ((c : ClassDef) × (class index id ≡ some c) × (c.is_module ≡ false))
      × ((d : ClassId) → Descendant index.subclasses id d → CannotAnswer ancestors index name d)
  Claim id chain whole inconclusive =
      Verdict index is_unreadable instance_methods name chain (some inconclusive)
      ⊎ (whole ≡ false)
      ⊎ ((c : ClassDef) × (class index id ≡ some c) × (c.is_module ≡ true))
      ⊎ ((d : ClassId) × Descendant index.subclasses id d
          × (answers_family ancestors index name d ≡ some true))

  when_absent-Claim :
      (id : ClassId) (chain : List ClassId) (whole : Bool) (r : MethodLookup)
      → ((x : ClassId) → In x chain → IsSkipped index is_unreadable instance_methods name x)
      → when_absent ancestors index id name whole ≡ some r
      → Claim id chain whole r
  unfolding when_absent abstract_family_defines
  when_absent-Claim id chain whole r skipped e =
      let (c, is, e₁) = bind-eq-some (class index id) _ e in
      elim (Bool-cases whole) [
        | inr w ↦ subst (Claim id chain whole) (some-injective _ _ (rw w at e₁)) (inr (inl w))
        | inl w ↦ elim (Bool-cases c.is_module) [
          | inl m ↦
              subst (Claim id chain whole) (some-injective _ _ (rw (w, m) at e₁))
                (inr (inr (inl (c, is, m))))
          | inr m ↦
              let (b, f, e₂) =
                bind-eq-some (abstract_family_defines ancestors index id name) _
                  (rw (w, m) at e₁) in
              elim (Bool-cases b) [
                | inl t ↦ subst (Claim id chain whole) (some-injective _ _ (rw t at e₂)) (
                    inr (
                      inr (
                        inr (
                          search_from-true (answers_family ancestors index name) index.subclasses id
                            (rw t at f)))))
                | inr n ↦ subst (Claim id chain whole) (some-injective _ _ (rw n at e₂)) (
                  w,
                  skipped,
                  (c, is, m),
                  (λ d h. answers_family-false ancestors index name d (
                      search_false (answers_family ancestors index name) index.subclasses id
                        (rw n at f) d h)),
                )
              ]
        ]
      ]

  decided-Claim :
      (id : ClassId) (chain : List ClassId) (whole : Bool) (decided : Option MethodLookup)
      (r : MethodLookup)
      → Verdict index is_unreadable instance_methods name chain decided
      → elim decided [ some r ↦ some r | none ↦ when_absent ancestors index id name whole ] ≡ some r
      → Claim id chain whole r
  decided-Claim id chain whole none r v e = when_absent-Claim id chain whole r v e
  decided-Claim id chain whole (some (found m a)) r v e =
      subst (Claim id chain whole) (some-injective _ _ e) v
  decided-Claim id chain whole (some inconclusive) r v e =
      subst (Claim id chain whole) (some-injective _ _ e) (inl v)
  decided-Claim id chain whole (some not_found) r v e = elim v [ ]

  -- Whatever lookup_method returns holds of the index: `found m a` is the first class of the
  -- linearization that has the method, with all classes before it readable and without it;
  -- `not_found` means that the chain is complete, that no class of it is open (but for abstract
  -- methods) or has the method, that the receiver is no module, and that no descendant can answer;
  -- `inconclusive` names its obstacle: an open class before any definition, an incomplete chain, a
  -- module, or a descendant that may answer.
  pub lookup_method-Claim :
      (id : ClassId) {r : MethodLookup}
      → lookup_method ancestors index id name ≡ some r
      → (chain : List ClassId) × (whole : Bool) × (ancestors id ≡ some (chain, whole))
        × Claim id chain whole r
  unfolding lookup_method
  lookup_method-Claim id {r} e =
      let ((chain, whole), a, e₁) = bind-eq-some (ancestors id) _ e in
      let (decided, s, e₂) =
        bind-eq-some (scan index is_unreadable (λ c. c.methods) name chain) _ e₁ in
      (
        chain,
        whole,
        a,
        decided-Claim id chain whole decided r
            (scan-Verdict index is_unreadable instance_methods name chain decided s) e₂,
      )
