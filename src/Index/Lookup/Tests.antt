-- ===== src/Index/Lookup/Tests.antt =====
-- Lookups at the index of the application: `Base` defines `save`, `Model` inherits it.
use itaruby.Base.{
  zero, suc, arith, Bool, true, false, List, [], ◌∷◌, ◌++◌, some, codes, ◌≡◌, ◌↔◌, refl, text_eq,
  nat_eq, beq-cases, inl, inr,
}
use mathlib.Core.Option.{some-injective}
use itaruby.Types.{ClassId}
use itaruby.Index.{MethodLookup, found, not_found}
use itaruby.Index.Names.{strip_prefix, has_separator}
use itaruby.Index.Resolve.{resolve_const, shadowed, conflicting_const_scope}
use itaruby.Index.Ancestors.{ancestors}
use itaruby.Index.Ancestors.Grows.{In}
use itaruby.Index.Descendants.{descendant_defines, abstract_family_defines}
use itaruby.Index.Descendants.Search.{Descendant}
use itaruby.Index.Descendants.Singleton.{KidsAreClasses, Answers, descendant_defines-decides}
use itaruby.Index.Lookup.{lookup_method, super_lookup}
use itaruby.Index.Lookup.Method.{Claim, lookup_method-Claim}
use itaruby.Index.Lookup.Super.{Continues, super_lookup-Continues}
use itaruby.Index.Tests.{save_method, model_class, app}

finds_inherited : lookup_method (ancestors 1 app) app 2 (codes "save") ≡ some (found save_method 0)
unfolding lookup_method ancestors resolve_const strip_prefix has_separator shadowed
    conflicting_const_scope
finds_inherited = refl

finds_nothing : lookup_method (ancestors 1 app) app 2 (codes "load") ≡ some not_found
unfolding lookup_method ancestors resolve_const strip_prefix has_separator shadowed
    conflicting_const_scope abstract_family_defines
finds_nothing = refl

lookup_method-Claim_example :
    (chain : List ClassId) × (whole : Bool) × (ancestors 1 app 2 ≡ some (chain, whole))
    × Claim (ancestors 1 app) app (codes "load") 2 chain whole not_found
lookup_method-Claim_example =
    lookup_method-Claim (ancestors 1 app) app (codes "load") 2 finds_nothing

pub app-KidsAreClasses : KidsAreClasses app
app-KidsAreClasses zero k (kids, l, i) =
    let only : In k (2 ∷ []) = rw (← some-injective _ _ l) at i in
    elim (beq-cases 2 k) [ inl e ↦ (model_class, rw (← e) refl) | inr d ↦ cc (rw d at only) ]
app-KidsAreClasses (suc x) k (kids, l, i) = absurd (ground (arith, l))

descendant_defines-decides_example :
    (b : Bool) × (descendant_defines app 0 (codes "save") true ≡ some b)
    × ((b ≡ true)
        ↔ ((d : ClassId) × Descendant app.subclasses 0 d × Answers app (codes "save") true d))
descendant_defines-decides_example =
    descendant_defines-decides app (codes "save") true 0 app-KidsAreClasses

super_lookup-Continues_example :
    (r : MethodLookup) × (before : List ClassId) × (after : List ClassId) × (super_lookup
        (ancestors 1 app)
        app
        2
        false
        (codes "save")
      ≡ some r)
    × ((2 ∷ 1 ∷ 0 ∷ []) ≡ before ++ (2 ∷ after))
    × Continues app false (codes "save") 2 after true r
unfolding ancestors resolve_const strip_prefix has_separator shadowed conflicting_const_scope
super_lookup-Continues_example =
    super_lookup-Continues app false (codes "save") 0 2 model_class (2 ∷ 1 ∷ 0 ∷ [], true) refl refl
      refl
