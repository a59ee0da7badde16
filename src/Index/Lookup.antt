-- ===== src/Index/Lookup.antt =====
-- crates/itaruby_semantic/src/index.rs: the lookup of a method along the ancestors of a class, and
-- of `super`. `none` of the outer `Option` is no result: a panic, or a bound that is reached.
pub mod Scan
pub mod Method
pub mod Super
pub mod Tests
use itaruby.Base.{
  ℕ, zero, suc, Bool, true, false, not, ◌&&◌, List, [], ◌∷◌, Option, none, some, Text, codes, ◌==◌,
  text_eq, nat_eq, if◌then◌else◌, lookup, drop, length, contains, any, ◌>>=◌, nat_beq,
}
use itaruby.Types.{ClassId}
use itaruby.Index.{
  OpenReason, MethodSig, ClassDef, ProjectIndex, MethodLookup, found, not_found, inconclusive,
}
use itaruby.Index.Resolve.{class, resolve_const}
use itaruby.Index.Ancestors.{Chain}
use itaruby.Index.Descendants.{
  is_unreadable, own_methods, descendant_defines, abstract_family_defines,
}

-- The loop over the ancestors: `some none` when no ancestor decides. `blocks` is the test of an
-- ancestor that stops the search, `methods` the map that is searched.
unfoldable pub scan :
    ProjectIndex
    → (ClassDef → Bool)
    → (ClassDef → List (Text × MethodSig))
    → Text
    → List ClassId
    → Option (Option MethodLookup)
scan index blocks methods name [] = some none
scan index blocks methods name (a ∷ chain) =
    let rest = scan index blocks methods name chain in
    class index a >>= λ c.
    if blocks c
    then some (some inconclusive)
    else elim (lookup name (methods c)) [ some m ↦ some (some (found m a)) | none ↦ rest ]

-- `chain.iter().position(|&a| a == id)`
unfoldable pub position : ClassId → List ClassId → Option ℕ
position id [] = none
position id (a ∷ chain) =
    if a == id then some 0 else elim (position id chain) [ none ↦ none | some n ↦ some (suc n) ]

abbrev pub not_found_if : Bool → MethodLookup
not_found_if b = if b then not_found else inconclusive

unfoldable pub lookup_from :
    ProjectIndex → List ClassId → Bool → ℕ → Text → Bool → Option MethodLookup
unfolding scan
lookup_from index chain complete start name singleton =
    scan index (λ c. c.is_open) (own_methods singleton) name (drop start chain)
    >>= elim [ some r ↦ some r | none ↦ some (not_found_if complete) ]

-- `Ok` of a definition and its class, or `Err(())` when the method is not found.
abbrev pub Outcome : Type 0
Outcome = Option (MethodSig × ClassId)

-- `(pm.file, pm.name_span) == (m.file, m.name_span)`
abbrev pub same_definition : MethodSig → MethodSig → Bool
same_definition pm m =
    pm.file == m.file && (pm.name_span.0 == m.name_span.0 && pm.name_span.1 == m.name_span.1)

unfoldable pub outcomes_agree : Option Outcome → Outcome → Bool
outcomes_agree none here = true
outcomes_agree (some (some (pm, _))) (some (m, _)) = same_definition pm m
outcomes_agree (some none) none = true
outcomes_agree (some _) _ = false

-- What one class answers in `super_lookup_module`: it is no consumer, it is inconclusive, or it has
-- an outcome.
pub data Consumer : Type 0 where
  skip unclear : Consumer
  says : Outcome → Consumer

abbrev pub says_lookup : MethodLookup → Consumer
says_lookup inconclusive = unclear
says_lookup not_found = says none
says_lookup (found m a) = says (some (m, a))

abbrev pub outcome_lookup : Option Outcome → MethodLookup
outcome_lookup none = inconclusive
outcome_lookup (some none) = not_found
outcome_lookup (some (some (m, a))) = found m a

module _ (ancestors : ClassId → Option Chain) (index : ProjectIndex) where
  -- What `lookup_method` answers when no ancestor decides.
  pub when_absent : ClassId → Text → Bool → Option MethodLookup
  unfolding abstract_family_defines
  when_absent id name complete = class index id >>= λ c.
      if complete && not c.is_module
      then (abstract_family_defines ancestors index id name >>= λ b. some (not_found_if (not b)))
      else some inconclusive

  unfoldable pub lookup_method : ClassId → Text → Option MethodLookup
  unfolding scan when_absent
  lookup_method id name = ancestors id >>= λ chain.
      scan index is_unreadable (λ c. c.methods) name chain.0
      >>= elim [ some r ↦ some r | none ↦ when_absent id name chain.1 ]

  -- The body of the loop of `super_lookup_module`.
  pub consumer : ClassId → Text → ClassId → Option Consumer
  unfolding position lookup_from
  consumer mixin name id = class index id >>= λ c.
      if c.is_module
      then some skip
      else (ancestors id >>= λ chain. elim (position mixin chain.0) [
        | none ↦ some skip
        | some pos ↦
            lookup_from index chain.0 chain.1 (suc pos) name false >>= λ r. some (says_lookup r)
      ])

  -- The loop over the ids from `i` on, `n` of which are left.
  pub consumers : ClassId → Text → ℕ → ClassId → Option Outcome → Option MethodLookup
  unfolding consumer outcomes_agree
  consumers mixin name zero i outcome = some (outcome_lookup outcome)
  consumers mixin name (suc n) i outcome = consumer mixin name i >>= elim [
    | skip ↦ consumers mixin name n (suc i) outcome
    | unclear ↦ some inconclusive
    | says here ↦
        let rest = consumers mixin name n (suc i) (some here) in
        if outcomes_agree outcome here then rest else some inconclusive
  ]

  unfoldable pub super_lookup_module : ClassId → Text → Option MethodLookup
  unfolding consumers
  super_lookup_module mixin name = consumers mixin name (length index.classes) 0 none

  unfoldable pub super_lookup : ClassId → Bool → Text → Option MethodLookup
  unfolding super_lookup_module position lookup_from
  super_lookup owner singleton name = class index owner >>= λ c.
      if c.is_module
      then (if singleton then some inconclusive else super_lookup_module owner name)
      else (ancestors owner >>= λ chain. elim (position owner chain.0) [
        | some pos ↦ lookup_from index chain.0 chain.1 (suc pos) name singleton
        | none ↦ some inconclusive
      ])
