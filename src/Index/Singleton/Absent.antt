-- ===== src/Index/Singleton/Absent.antt =====
-- A `not_found` of the lookup on a class object comes from the end of the search alone.
use itaruby.Base.{
  Bool, true, false, not, List, [], ◌∷◌, reverse, Option, none, some, Text, ◌≡◌, refl, sym, inl,
  inr, ◌∙◌, ap, nat_eq, text_eq, lookup, contains, if◌then◌else◌, ◌>>=◌, bind-eq-some, Bool-cases,
  Option-cases,
}
use mathlib.Core.Option.{some-injective}
use itaruby.Types.{ClassId}
use itaruby.Index.{MethodSig, ClassDef, ProjectIndex, MethodLookup, found, not_found, inconclusive}
use itaruby.Index.Resolve.{class, resolve_const}
use itaruby.Index.Ancestors.{Chain}
use itaruby.Index.Ancestors.Grows.{In}
use itaruby.Index.Descendants.{descendant_defines}
use itaruby.Index.Descendants.Search.{Descendant}
use itaruby.Index.Descendants.Singleton.{Answers, KidsAreClasses, descendant_defines-decides}
use itaruby.Index.Lookup.{scan, not_found_if}
use itaruby.Index.Lookup.Scan.{scan-Verdict}
use itaruby.Index.Singleton.{
  extended_modules, extended_module_surface, core_mixin_definition, core_surface, core_paths,
  core_object_instance_surface, scan_singleton, when_no_singleton, lookup_singleton,
}
use itaruby.Index.Singleton.Closed.{HasNone, scan_singleton-HasNone}

-- A loop that does not itself answer `not_found`.
abbrev Silent : Option (Option MethodLookup) → Type 0
Silent o = o ≡ some (some not_found) → ⊥

or_rest :
    (first : Option (Option MethodLookup)) (rest : Option (Option MethodLookup))
    → Silent first
    → Silent rest
    → Silent (first >>= elim [ some r ↦ some (some r) | none ↦ rest ])
or_rest none rest f s e = cc
or_rest (some none) rest f s e = s e
or_rest (some (some r)) rest f s e = f e

if_rest :
    (b : Bool) (rest : Option (Option MethodLookup))
    → Silent rest
    → Silent (if b then rest else some (some inconclusive))
if_rest true rest s e = s e
if_rest false rest s e = cc

not_first :
    (decided : Option MethodLookup) (rest : Option MethodLookup)
    → (decided ≡ some not_found → ⊥)
    → elim decided [ some r ↦ some r | none ↦ rest ] ≡ some not_found
    → (decided ≡ none) × (rest ≡ some not_found)
not_first none rest s e = (refl, e)
not_first (some r) rest s e = absurd (s e)

scan-Silent :
    (index : ProjectIndex) (blocks : ClassDef → Bool) (methods : ClassDef → List (Text × MethodSig))
    (name : Text) (chain : List ClassId)
    → Silent (scan index blocks methods name chain)
scan-Silent index blocks methods name chain e =
    scan-Verdict index blocks methods name chain (some not_found) e

module _ (ancestors : ClassId → Option Chain) (index : ProjectIndex) (name : Text) where
  extended_modules-Silent :
      (nesting extends : List Text) → Silent (extended_modules ancestors index name nesting extends)
  unfolding extended_modules
  extended_modules-Silent nesting [] e = cc
  extended_modules-Silent nesting (ext ∷ extends) e =
      let (parent, r, e₁) = bind-eq-some (resolve_const index nesting ext) _ e in
      elim (Option-cases parent) [
        | inl n ↦ cc (rw n at e₁)
        | inr (mid, q) ↦
            let (chain, a, e₂) = bind-eq-some (ancestors mid) _ (rw q at e₁) in
            or_rest (scan index (λ c. c.is_open) (λ c. c.methods) name chain.0) _
              (scan-Silent index _ _ name chain.0)
              (if_rest chain.1 _ (extended_modules-Silent nesting extends)) e₂
      ]

  core_mixin_definition-Silent :
      (nesting mixins : List Text)
      → Silent (core_mixin_definition ancestors index nesting name mixins)
  unfolding core_mixin_definition
  core_mixin_definition-Silent nesting [] e = cc
  core_mixin_definition-Silent nesting (mixin ∷ mixins) e =
      let (parent, r, e₁) = bind-eq-some (resolve_const index nesting mixin) _ e in
      elim (Option-cases parent) [
        | inl n ↦ core_mixin_definition-Silent nesting mixins (rw n at e₁)
        | inr (mid, q) ↦
            let (chain, a, e₂) = bind-eq-some (ancestors mid) _ (rw q at e₁) in
            or_rest (scan index (λ c. false) (λ c. c.methods) name chain.0) _
              (scan-Silent index (λ c. false) (λ c. c.methods) name chain.0)
              (core_mixin_definition-Silent nesting mixins) e₂
      ]

  own_or_rest :
      (cid : ClassId) (core : ClassDef) (rest : Option (Option MethodLookup))
      → Silent rest
      → (own : Option MethodSig)
      → Silent (elim own [
        | some m ↦ some (some (found m cid))
        | none ↦
            core_mixin_definition ancestors index core.nesting name (reverse core.includes)
            >>= elim [ some r ↦ some (some r) | none ↦ rest ]
      ])
  own_or_rest cid core rest s (some m) h = cc
  own_or_rest cid core rest s none h =
      or_rest (core_mixin_definition ancestors index core.nesting name (reverse core.includes)) rest
        (core_mixin_definition-Silent core.nesting (reverse core.includes)) s h

  core_surface-Silent : (paths : List Text) → Silent (core_surface ancestors index name paths)
  unfolding core_surface
  core_surface-Silent [] e = cc
  core_surface-Silent (path ∷ paths) e = elim (Option-cases (lookup path index.by_path)) [
    | inl n ↦ core_surface-Silent paths (rw (core_surface, n) at e)
    | inr (cid, q) ↦
        let (core, is, e₁) = bind-eq-some (class index cid) _ (rw (core_surface, q) at e) in
        or_rest (core_mixin_definition ancestors index core.nesting name (reverse core.prepends)) _
          (core_mixin_definition-Silent core.nesting (reverse core.prepends))
          (own_or_rest cid core (core_surface ancestors index name paths)
            (core_surface-Silent paths) (lookup name core.methods))
          e₁
  ]

  core_object-Silent :
      (id : ClassId) → Silent (core_object_instance_surface ancestors index id name)
  unfolding core_object_instance_surface
  core_object-Silent id e = elim (Bool-cases (contains index.ambiguous_ancestry id)) [
    | inl b ↦ cc (rw (core_object_instance_surface, b) at e)
    | inr b ↦
        let (c, is, e₁) =
          bind-eq-some (class index id) _ (rw (core_object_instance_surface, b) at e) in
        core_surface-Silent (core_paths c.is_module) e₁
  ]

  scan_singleton-Silent :
      (chain : List ClassId) → Silent (scan_singleton ancestors index (λ c. false) name chain)
  unfolding scan_singleton
  scan_singleton-Silent [] e = cc
  scan_singleton-Silent (a ∷ chain) e =
      let (c, is, e₁) = bind-eq-some (class index a) _ e in
      elim (Bool-cases c.is_open) [
        | inl o ↦ cc (rw o at e₁)
        | inr o ↦ elim (Option-cases (lookup name c.singleton_methods)) [
          | inr (m, l) ↦ cc (rw (o, l) at e₁)
          | inl l ↦
              or_rest (extended_module_surface ancestors index c name) _
                (extended_modules-Silent c.nesting c.extends) (scan_singleton-Silent chain)
                (rw (o, l) at e₁)
        ]
      ]

  quiet_of :
      (id : ClassId) (b : Bool)
      → KidsAreClasses index
      → descendant_defines index id name true ≡ some b
      → not_found_if (not b) ≡ not_found
      → (d : ClassId) → Descendant index.subclasses id d
      → Answers index name true d
      → ⊥
  quiet_of id true kids e q d h k = cc
  quiet_of id false kids e q d h k =
      let (b, e₁, iff) = descendant_defines-decides index name true id kids in
      cc (iff.1 (d, h, k), some-injective _ _ (sym e₁ ∙ e))

  plain_of :
      (id : ClassId)
      → core_object_instance_surface ancestors index id name ≡ some none
      → contains index.ambiguous_ancestry id ≡ false
  unfolding core_object_instance_surface
  plain_of id e = elim (Bool-cases (contains index.ambiguous_ancestry id)) [
    | inl b ↦ cc (rw (core_object_instance_surface, b) at e)
    | inr b ↦ b
  ]

  when_no_singleton-quiet :
      (id : ClassId) (whole : Bool)
      → KidsAreClasses index
      → when_no_singleton ancestors index id name whole ≡ some not_found
      → (whole ≡ true)
        × (contains index.ambiguous_ancestry id ≡ false)
        × ((d : ClassId) → Descendant index.subclasses id d → Answers index name true d → ⊥)
  unfolding when_no_singleton
  when_no_singleton-quiet id false kids e =
      let (decided, s, e₁) =
        bind-eq-some (core_object_instance_surface ancestors index id name) _ e in
      let (d, e₂) = not_first decided _ (λ q. core_object-Silent id (s ∙ ap some q)) e₁ in cc e₂
  when_no_singleton-quiet id true kids e =
      let (decided, s, e₁) =
        bind-eq-some (core_object_instance_surface ancestors index id name) _ e in
      let (d, e₂) = not_first decided _ (λ q. core_object-Silent id (s ∙ ap some q)) e₁ in
      let (b, f, e₃) = bind-eq-some (descendant_defines index id name true) _ e₂ in
      (refl, plain_of id (s ∙ ap some d), quiet_of id b kids f (some-injective _ _ e₃))

  -- What `not_found` of the lookup on a class object claims.
  pub record NoSingleton (id : ClassId) : Type 0 where
    pub chain : List ClassId
    pub complete : ancestors id ≡ some (chain, true)
    pub none_has : (x : ClassId) → In x chain → HasNone ancestors index name x
    pub unambiguous : contains index.ambiguous_ancestry id ≡ false
    pub no_descendant :
        (d : ClassId) → Descendant index.subclasses id d → Answers index name true d → ⊥

  -- When every subclass in the map stands for a class and lookup_singleton answers not_found: the
  -- chain is complete, the class has no ambiguous ancestry, each class of the chain is closed and
  -- has no such singleton method, each module that one of them extends resolves and has a complete
  -- and closed chain without the method, and no proper descendant is open or has it.
  pub lookup_singleton-NoSingleton :
      (id : ClassId)
      → KidsAreClasses index
      → lookup_singleton ancestors index id name ≡ some not_found
      → NoSingleton id
  unfolding lookup_singleton
  lookup_singleton-NoSingleton id kids e =
      let (chain, a, e₁) = bind-eq-some (ancestors id) _ e in
      let (decided, s, e₂) =
        bind-eq-some (scan_singleton ancestors index (λ c. false) name chain.0) _ e₁ in
      let (d, e₃) = not_first decided _ (λ q. scan_singleton-Silent chain.0 (s ∙ ap some q)) e₂ in
      let (whole, plain, quiet) = when_no_singleton-quiet id chain.1 kids e₃ in
      record {
        chain = chain.0;
        complete = a ∙ ap (λ b. some (chain.0, b)) whole;
        none_has = scan_singleton-HasNone ancestors index name chain.0 (s ∙ ap some d);
        unambiguous = plain;
        no_descendant = quiet;
      }
