-- ===== src/Index/Singleton.antt =====
-- crates/itaruby_semantic/src/index.rs: the lookup of a method of a class object, and what softens
-- `not_found` to `inconclusive` in both lookups. `none` of the outer `Option` is no result. What the
-- embedded text files and a client's RBI files say is a parameter: a test of names.
pub mod Closed
pub mod Absent
pub mod Reasons
pub mod Softened
mod Tests
use itaruby.Base.{
  ℕ, Bool, true, false, not, ◌&&◌, ◌||◌, List, [], ◌∷◌, reverse, Option, none, some, Text, codes,
  ◌==◌, text_eq, nat_eq, if◌then◌else◌, lookup, contains, ◌>>=◌,
}
use itaruby.Types.{ClassId}
use itaruby.Index.{
  OpenReason, declared_external, MethodSig, ClassDef, ProjectIndex, MethodLookup, found, not_found,
  inconclusive,
}
use itaruby.Index.Resolve.{class, resolve_const}
use itaruby.Index.Ancestors.{Chain}
use itaruby.Index.Descendants.{any_class, has_key, descendant_defines}
use itaruby.Index.Lookup.{scan, not_found_if, lookup_method}
use itaruby.Core.{kernel_object_instance_method, kernel_object_singleton_method}
use itaruby.Core.Names.{
  kernel_private_instance_methods, gem_kernel_methods, test_framework_object_mixin_methods,
  active_support_object_mixin_methods, class_module_only_methods,
}

-- `Some(OpenReason::DeclaredExternal)`
abbrev pub is_declared_external : Option OpenReason → Bool
is_declared_external (some declared_external) = true
is_declared_external _ = false

abbrev pub core_paths : Bool → List Text
core_paths true = codes "Module" ∷ codes "Object" ∷ codes "Kernel" ∷ codes "BasicObject" ∷ []
core_paths false =
    codes "Class" ∷ codes "Module" ∷ codes "Object" ∷ codes "Kernel" ∷ codes "BasicObject" ∷ []

module _ (ancestors : ClassId → Option Chain) (index : ProjectIndex) where
  -- The loop over `class.extends`.
  pub extended_modules : Text → List Text → List Text → Option (Option MethodLookup)
  unfolding scan
  extended_modules name nesting [] = some none
  extended_modules name nesting (ext ∷ extends) =
      let rest = extended_modules name nesting extends in
      resolve_const index nesting ext >>= elim [
        | none ↦ some (some inconclusive)
        | some mid ↦ ancestors mid >>= λ chain.
            scan index (λ c. c.is_open) (λ c. c.methods) name chain.0 >>= elim [
              | some r ↦ some (some r)
              | none ↦ if chain.1 then rest else some (some inconclusive)
            ]
      ]

  pub extended_module_surface : ClassDef → Text → Option (Option MethodLookup)
  unfolding extended_modules
  extended_module_surface c name = extended_modules name c.nesting c.extends

  unfoldable pub core_mixin_definition : List Text → Text → List Text → Option (Option MethodLookup)
  unfolding scan
  core_mixin_definition nesting name [] = some none
  core_mixin_definition nesting name (mixin ∷ mixins) =
      let rest = core_mixin_definition nesting name mixins in
      resolve_const index nesting mixin >>= elim [
        | none ↦ rest
        | some mid ↦ ancestors mid >>= λ chain.
            scan index (λ c. false) (λ c. c.methods) name chain.0
            >>= elim [ some r ↦ some (some r) | none ↦ rest ]
      ]

  -- The loop over `object_class`.
  pub core_surface : Text → List Text → Option (Option MethodLookup)
  unfolding core_mixin_definition
  core_surface name [] = some none
  core_surface name (path ∷ paths) =
      let rest = core_surface name paths in
      elim (lookup path index.by_path) [
        | none ↦ rest
        | some cid ↦ class index cid >>= λ core.
            core_mixin_definition core.nesting name (reverse core.prepends) >>= elim [
              | some r ↦ some (some r)
              | none ↦ elim (lookup name core.methods) [
                | some m ↦ some (some (found m cid))
                | none ↦
                    core_mixin_definition core.nesting name (reverse core.includes)
                    >>= elim [ some r ↦ some (some r) | none ↦ rest ]
              ]
            ]
      ]

  unfoldable pub core_object_instance_surface : ClassId → Text → Option (Option MethodLookup)
  unfolding core_surface
  core_object_instance_surface id name =
      if contains index.ambiguous_ancestry id
      then some (some inconclusive)
      else (class index id >>= λ c. core_surface name (core_paths c.is_module))

  -- The loop over the ancestors in `lookup_singleton` and `lookup_singleton_own`; `skips` is the test
  -- of an open ancestor that is passed over.
  pub scan_singleton : (ClassDef → Bool) → Text → List ClassId → Option (Option MethodLookup)
  unfolding extended_module_surface
  scan_singleton skips name [] = some none
  scan_singleton skips name (a ∷ chain) =
      let rest = scan_singleton skips name chain in
      class index a >>= λ c.
      if c.is_open
      then (if skips c then rest else some (some inconclusive))
      else elim (lookup name c.singleton_methods) [
        | some m ↦ some (some (found m a))
        | none ↦ extended_module_surface c name >>= elim [ some r ↦ some (some r) | none ↦ rest ]
      ]

  -- What `lookup_singleton` answers when no ancestor decides.
  pub when_no_singleton : ClassId → Text → Bool → Option MethodLookup
  unfolding core_object_instance_surface
  when_no_singleton id name complete = core_object_instance_surface id name >>= elim [
    | some r ↦ some r
    | none ↦
        if complete
        then (descendant_defines index id name true >>= λ b. some (not_found_if (not b)))
        else some inconclusive
  ]

  unfoldable pub lookup_singleton : ClassId → Text → Option MethodLookup
  unfolding scan_singleton when_no_singleton
  lookup_singleton id name = ancestors id >>= λ chain.
      scan_singleton (λ c. false) name chain.0
      >>= elim [ some r ↦ some r | none ↦ when_no_singleton id name chain.1 ]

  unfoldable pub lookup_singleton_own : ClassId → Text → Option MethodLookup
  unfolding scan_singleton
  lookup_singleton_own id name = ancestors id >>= λ chain.
      scan_singleton (λ c. is_declared_external c.open_reason) name chain.0 >>= elim [
        | some r ↦ some r
        | none ↦
            if contains index.ambiguous_ancestry id
            then some inconclusive
            else (descendant_defines index id name true >>= λ b. some (not_found_if (not b)))
      ]

  unfoldable pub declared_by : ClassId → Text → Option Bool
  declared_by id path = ancestors id >>= λ chain.
      if not chain.1
      then some false
      else any_class index (λ c. is_declared_external c.open_reason && c.path == path) chain.0

  pub includes_singleton_mixin : ClassId → Option Bool
  includes_singleton_mixin id =
      ancestors id >>= λ chain. any_class index (λ c. c.path == codes "Singleton") chain.0

  pub dynamic_mixin_covers : List ClassId → Text → Option Bool
  dynamic_mixin_covers targets name = any_class index (λ c. has_key name c.methods) targets

  -- `declares` says of which paths the RBI files have a declaration.
  pub gem_reopens : ClassId → (Text → Bool) → Option Bool
  gem_reopens id declares = ancestors id >>= λ chain. any_class index (λ c. declares c.path) chain.0

  module _ (inventory tail : Text → Bool) (stdlib_singleton : Text → Text → Bool) where
    -- `tail` says which names the inventory has as private methods.
    pub kernel_bare_call_method : Text → Bool
    kernel_bare_call_method name =
        tail name
        || contains kernel_private_instance_methods name
        || contains class_module_only_methods name
        || contains gem_kernel_methods name
        || contains test_framework_object_mixin_methods name
        || contains active_support_object_mixin_methods name

    pub singleton_surface_softens : ClassId → Text → Option Bool
    unfolding includes_singleton_mixin dynamic_mixin_covers
    singleton_surface_softens id name = class index id >>= λ c.
        if stdlib_singleton c.path name
        then some true
        else (if contains (codes "instance" ∷ codes "_load" ∷ codes "clone" ∷ []) name
            then includes_singleton_mixin id
            else some false)
          >>= λ mixin.
              if mixin || contains index.mock_singleton_methods name
              then some true
              else dynamic_mixin_covers index.dynamic_mixin_singleton_targets name

    pub kernel_hit : Text → Bool → Bool
    unfolding kernel_bare_call_method
    kernel_hit name true =
        kernel_object_singleton_method inventory name || kernel_bare_call_method name
    kernel_hit name false = kernel_object_instance_method inventory name

    pub surface_softens : ClassId → Text → Bool → Option Bool
    unfolding singleton_surface_softens
    surface_softens id name true = singleton_surface_softens id name
    surface_softens id name false = dynamic_mixin_covers index.dynamic_mixin_instance_targets name

    -- `rbi` is `none` if the client has no RBI files.
    pub reopened : ClassId → Option (Text → Bool) → Option Bool
    unfolding gem_reopens
    reopened id none = some false
    reopened id (some declares) = gem_reopens id declares

    unfoldable pub soften_not_found :
        ClassId → Text → Bool → Option (Text → Bool) → Option MethodLookup
    unfolding reopened kernel_hit surface_softens
    soften_not_found id name singleton rbi = reopened id rbi >>= λ gem.
        if gem || kernel_hit name singleton
        then some inconclusive
        else (surface_softens id name singleton >>= λ softened. some (not_found_if (not softened)))

    -- `match lookup { NotFound => self.soften_not_found(…), other => other }`
    pub soften : ClassId → Text → Bool → Option (Text → Bool) → MethodLookup → Option MethodLookup
    unfolding soften_not_found
    soften id name singleton rbi not_found = soften_not_found id name singleton rbi
    soften id name singleton rbi other = some other

    unfoldable pub lookup_method_rbi : ClassId → Text → Option (Text → Bool) → Option MethodLookup
    unfolding lookup_method soften
    lookup_method_rbi id name rbi =
        lookup_method ancestors index id name >>= soften id name false rbi

    unfoldable pub lookup_singleton_rbi :
        ClassId → Text → Option (Text → Bool) → Option MethodLookup
    unfolding lookup_singleton soften
    lookup_singleton_rbi id name rbi = lookup_singleton id name >>= soften id name true rbi
