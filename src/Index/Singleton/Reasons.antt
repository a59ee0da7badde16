-- ===== src/Index/Singleton/Reasons.antt =====
-- Why a method that no class of the chain has may exist all the same: what `soften_not_found` asks.
use itaruby.Base.{
  Bool, true, false, ◌||◌, Option, some, Option-cases, List, [], ◌∷◌, Text, codes, ◌==◌, ◌≡◌, ◌⊎◌,
  ◌↔◌, refl, inl, inr, sym, ◌∙◌, bind-eq-some, Bool-cases, contains, nat_eq, text_eq, if◌then◌else◌,
}
use mathlib.Core.Option.{some-injective}
use mathlib.Core.Path.{subst}
use itaruby.Core.{kernel_object_instance_method, kernel_object_singleton_method}
use itaruby.Core.Names.{
  kernel_private_instance_methods, gem_kernel_methods, test_framework_object_mixin_methods,
  active_support_object_mixin_methods, class_module_only_methods,
}
use itaruby.Types.{ClassId}
use itaruby.Index.{ClassDef, ProjectIndex}
use itaruby.Index.Resolve.{class}
use itaruby.Index.Ancestors.{Chain}
use itaruby.Index.Descendants.{any_class, has_key}
use itaruby.Index.Descendants.Passes.{Passes, any_class_iff}
use itaruby.Index.Singleton.{
  reopened, kernel_bare_call_method, singleton_surface_softens, includes_singleton_mixin,
  dynamic_mixin_covers,
}

pub or-cases : (a b : Bool) → (a || b) ≡ true → (a ≡ true) ⊎ (b ≡ true)
or-cases true b h = inl refl
or-cases false b h = inr h

pub or_left : (a b : Bool) → a ≡ true → (a || b) ≡ true
or_left a b h = rw h

pub or_right : (a b : Bool) → b ≡ true → (a || b) ≡ true
or_right true b h = refl
or_right false b h = h

module _ (ancestors : ClassId → Option Chain) (index : ProjectIndex) (id : ClassId) where
  -- One of the class's ancestors passes the test.
  pub record AncestorPasses (test : ClassDef → Bool) : Type 0 where
    pub chain : Chain
    pub of_id : ancestors id ≡ some chain
    pub passes : Passes index test chain.0

  ancestor_iff :
      (test : ClassDef → Bool) (chain : Chain) (b : Bool)
      → ancestors id ≡ some chain
      → any_class index test chain.0 ≡ some b
      → (b ≡ true) ↔ AncestorPasses test
  ancestor_iff test chain b a e =
      let here = any_class_iff index test chain.0 b e in
      (
        λ h. record { chain = chain; of_id = a; passes = here.0 h },
        λ p.
            here.1
              (subst (λ c. Passes index test c.0) (some-injective _ _ (sym p.of_id ∙ a)) p.passes),
      )

  module _ (inventory tail : Text → Bool) (stdlib_singleton : Text → Text → Bool) (name : Text)
      (rbi : Option (Text → Bool)) where
    -- An RBI file of the client declares an ancestor of the class.
    pub data IsReopened : Type 0 where
      by_rbi :
          (declares : Text → Bool)
          → rbi ≡ some declares
          → AncestorPasses (λ c. declares c.path)
          → IsReopened

    -- One of the lists of names that are called without a receiver has the name.
    pub data IsBareCall : Type 0 where
      by_tail : tail name ≡ true → IsBareCall
      of_kernel : contains kernel_private_instance_methods name ≡ true → IsBareCall
      of_class_module : contains class_module_only_methods name ≡ true → IsBareCall
      of_gem : contains gem_kernel_methods name ≡ true → IsBareCall
      of_test_framework : contains test_framework_object_mixin_methods name ≡ true → IsBareCall
      of_active_support : contains active_support_object_mixin_methods name ≡ true → IsBareCall

    -- A definition that the project makes at run time covers the name.
    abbrev pub IsMixedIn : List ClassId → Type 0
    IsMixedIn targets = Passes index (λ c. has_key name c.methods) targets

    abbrev pub singleton_names : List Text
    singleton_names = codes "instance" ∷ codes "_load" ∷ codes "clone" ∷ []

    -- Why a method of an instance may exist all the same.
    pub data InstanceReason : Type 0 where
      reopens : IsReopened → InstanceReason
      on_object : kernel_object_instance_method inventory name ≡ true → InstanceReason
      mixes_in : IsMixedIn index.dynamic_mixin_instance_targets → InstanceReason

    pub reopened_iff :
        (b : Bool)
        → reopened ancestors index inventory tail stdlib_singleton id rbi ≡ some b
        → (b ≡ true) ↔ IsReopened
    unfolding reopened
    reopened_iff b e = elim (Option-cases rbi) [
      | inl n ↦
          let off : false ≡ b = some-injective _ _ (rw n at e) in
          (λ t. cc (off, t), λ k. elim k [ by_rbi declares r p ↦ cc (r, n) ])
      | inr (declares, r) ↦
          let (chain, a, e₁) = bind-eq-some (ancestors id) _ (rw r at e) in
          let here = ancestor_iff (λ c. declares c.path) chain b a e₁ in
          (
            λ h. by_rbi declares r (here.0 h),
            λ k. elim k [
              | by_rbi other q p ↦
                  here.1
                    (subst (λ f. AncestorPasses (λ c. f c.path)) (some-injective _ _ (sym q ∙ r)) p)
            ],
          )
    ]

    pub bare_call-IsBareCall :
        kernel_bare_call_method ancestors index inventory tail stdlib_singleton name ≡ true
        → IsBareCall
    unfolding kernel_bare_call_method
    bare_call-IsBareCall h = elim (or-cases _ _ h) [
      | inr l ↦ of_active_support l
      | inl h₁ ↦ elim (or-cases _ _ h₁) [
        | inr l ↦ of_test_framework l
        | inl h₂ ↦ elim (or-cases _ _ h₂) [
          | inr l ↦ of_gem l
          | inl h₃ ↦ elim (or-cases _ _ h₃) [
            | inr l ↦ of_class_module l
            | inl h₄ ↦ elim (or-cases _ _ h₄) [ inr l ↦ of_kernel l | inl l ↦ by_tail l ]
          ]
        ]
      ]
    ]

    pub bare_call_of :
        IsBareCall
        → kernel_bare_call_method ancestors index inventory tail stdlib_singleton name ≡ true
    unfolding kernel_bare_call_method
    bare_call_of (by_tail l) = or_left _ _ (or_left _ _ (or_left _ _ (or_left _ _ (or_left _ _ l))))
    bare_call_of (of_kernel l) =
        or_left _ _ (or_left _ _ (or_left _ _ (or_left _ _ (or_right _ _ l))))
    bare_call_of (of_class_module l) = or_left _ _ (or_left _ _ (or_left _ _ (or_right _ _ l)))
    bare_call_of (of_gem l) = or_left _ _ (or_left _ _ (or_right _ _ l))
    bare_call_of (of_test_framework l) = or_left _ _ (or_right _ _ l)
    bare_call_of (of_active_support l) = or_right _ _ l

    -- What a class object has beside the lists of names.
    pub data SingletonSurface : Type 0 where
      of_stdlib :
          (c : ClassDef)
          → class index id ≡ some c
          → stdlib_singleton c.path name ≡ true
          → SingletonSurface
      of_mixin :
          contains singleton_names name ≡ true
          → AncestorPasses (λ c. c.path == codes "Singleton")
          → SingletonSurface
      of_mock : contains index.mock_singleton_methods name ≡ true → SingletonSurface
      of_targets : IsMixedIn index.dynamic_mixin_singleton_targets → SingletonSurface

    -- Why a method of a class object may exist all the same.
    pub data SingletonReason : Type 0 where
      reopens : IsReopened → SingletonReason
      on_object : kernel_object_singleton_method inventory name ≡ true → SingletonReason
      bare_call : IsBareCall → SingletonReason
      on_surface : SingletonSurface → SingletonReason

    mixin_iff :
        (b : Bool)
        → (if contains singleton_names name
            then includes_singleton_mixin ancestors index id
            else some false)
          ≡ some b
        → (b ≡ true) ↔ (
            (contains singleton_names name ≡ true)
            × AncestorPasses (λ c. c.path == codes "Singleton"))
    unfolding includes_singleton_mixin
    mixin_iff b e = elim (Bool-cases (contains singleton_names name)) [
      | inl t ↦
          let (chain, a, e₁) = bind-eq-some (ancestors id) _ (rw t at e) in
          let here = ancestor_iff (λ c. c.path == codes "Singleton") chain b a e₁ in
          (λ h. (t, here.0 h), λ k. here.1 k.1)
      | inr f ↦
          let off : false ≡ b = some-injective _ _ (rw f at e) in
          (λ h. cc (off, h), λ k. cc (f, k.0))
    ]

    -- After the test of the standard library's methods.
    surface_rest_iff :
        (c : ClassDef) (mixin b : Bool)
        → class index id ≡ some c
        → stdlib_singleton c.path name ≡ false
        → (mixin ≡ true) ↔ (
            (contains singleton_names name ≡ true)
            × AncestorPasses (λ d. d.path == codes "Singleton"))
        → (if mixin || contains index.mock_singleton_methods name
            then some true
            else dynamic_mixin_covers ancestors index index.dynamic_mixin_singleton_targets name)
          ≡ some b
        → (b ≡ true) ↔ SingletonSurface
    unfolding dynamic_mixin_covers
    surface_rest_iff c true b is f mixes e =
        let on : true ≡ b = some-injective _ _ e in
        (λ h. let k = mixes.0 refl in of_mixin k.0 k.1, λ k. sym on)
    surface_rest_iff c false b is f mixes e =
        elim (Bool-cases (contains index.mock_singleton_methods name)) [
          | inl t ↦
              let on : true ≡ b = some-injective _ _ (rw t at e) in (λ h. of_mock t, λ k. sym on)
          | inr n ↦
              let here =
                any_class_iff index (λ d. has_key name d.methods)
                  index.dynamic_mixin_singleton_targets b (rw n at e) in
              (
                λ h. of_targets (here.0 h),
                λ k. elim k [
                  | of_stdlib d q h ↦ cc (q, is, f, h)
                  | of_mixin l p ↦ cc (mixes.1 (l, p))
                  | of_mock t ↦ cc (t, n)
                  | of_targets p ↦ here.1 p
                ],
              )
        ]

    pub surface_iff :
        (b : Bool)
        → singleton_surface_softens ancestors index inventory tail stdlib_singleton id name ≡ some b
        → (b ≡ true) ↔ SingletonSurface
    unfolding singleton_surface_softens
    surface_iff b e =
        let (c, is, e₁) = bind-eq-some (class index id) _ e in
        elim (Bool-cases (stdlib_singleton c.path name)) [
          | inl t ↦
              let on : true ≡ b = some-injective _ _ (rw t at e₁) in
              (λ h. of_stdlib c is t, λ k. sym on)
          | inr f ↦
              let (mixin, m, e₂) = bind-eq-some _ _ (rw f at e₁) in
              surface_rest_iff c mixin b is f (mixin_iff mixin m) e₂
        ]
