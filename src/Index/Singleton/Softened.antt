-- ===== src/Index/Singleton/Softened.antt =====
-- What turns `not_found` into `inconclusive` in the lookups that the checker asks.
use itaruby.Base.{
  Bool, true, false, not, Option, some, Text, ◌≡◌, ◌≢◌, ◌⊎◌, ◌↔◌, refl, inl, inr, sym, bind-eq-some,
  Bool-cases, nat_eq, text_eq,
}
use mathlib.Core.Option.{some-injective}
use mathlib.Core.Path.{subst}
use itaruby.Core.{kernel_object_singleton_method}
use itaruby.Types.{ClassId}
use itaruby.Index.{ProjectIndex, MethodLookup, found, not_found, inconclusive}
use itaruby.Index.Ancestors.{Chain}
use itaruby.Index.Lookup.{not_found_if}
use itaruby.Index.Singleton.Reasons.{
  or-cases, or_left, or_right, IsReopened, IsBareCall, SingletonSurface, SingletonReason,
  reopened_iff, bare_call-IsBareCall, bare_call_of, surface_iff, reopens, on_object, bare_call,
  on_surface,
}
use itaruby.Index.Singleton.{
  soften_not_found, soften, reopened, kernel_hit, surface_softens, lookup_singleton,
  lookup_singleton_rbi,
}

module _ (ancestors : ClassId → Option Chain) (index : ProjectIndex) (id : ClassId) where
  module _ (inventory tail : Text → Bool) (stdlib_singleton : Text → Text → Bool) (name : Text)
      (rbi : Option (Text → Bool)) where
    -- The answer to a lookup that has come to `not_found`.
    abbrev pub Answers : Type 0 → MethodLookup → Type 0
    Answers Reason r = ((r ≡ inconclusive) × Reason) ⊎ ((r ≡ not_found) × (Reason → ⊥))

    -- What the lookup without softening gives, and what the reasons make of it.
    abbrev pub Softened : Type 0 → MethodLookup → MethodLookup → Type 0
    Softened Reason base r =
        ((base ≡ not_found) × Answers Reason r) ⊎ ((base ≢ not_found) × (r ≡ base))

    decided :
        (Reason : Type 0) (b : Bool) → (b ≡ true) ↔ Reason → Answers Reason (not_found_if (not b))
    decided Reason true k = inl (refl, k.0 refl)
    decided Reason false k = inr (refl, λ q. cc (k.1 q))

    -- The reasons, in the three groups of the function.
    soften_not_found-Answers :
        (singleton : Bool) (Kernel Surface : Type 0) (r : MethodLookup)
        → (kernel_hit ancestors index inventory tail stdlib_singleton name singleton ≡ true)
          ↔ Kernel
        → ((b : Bool)
            → surface_softens ancestors index inventory tail stdlib_singleton id name singleton
              ≡ some b
            → (b ≡ true) ↔ Surface)
        → soften_not_found ancestors index inventory tail stdlib_singleton id name singleton rbi
          ≡ some r
        → Answers
            ((IsReopened ancestors index id inventory tail stdlib_singleton name rbi)
              ⊎ (Kernel ⊎ Surface))
            r
    unfolding soften_not_found
    soften_not_found-Answers singleton Kernel Surface r kernel surface e =
        let (gem, g, e₁) =
          bind-eq-some (reopened ancestors index inventory tail stdlib_singleton id rbi) _ e in
        let reopens =
          reopened_iff ancestors index id inventory tail stdlib_singleton name rbi gem g in
        elim (Bool-cases gem) [
          | inl t ↦ inl (sym (some-injective _ _ (rw t at e₁)), inl (reopens.0 t))
          | inr f ↦
              elim (Bool-cases
                (kernel_hit ancestors index inventory tail stdlib_singleton name singleton)) [
                  | inl t ↦ inl (sym (some-injective _ _ (rw (f, t) at e₁)), inr (inl (kernel.0 t)))
                  | inr n ↦
                      let (b, q, e₂) =
                        bind-eq-some
                          (surface_softens ancestors index inventory tail stdlib_singleton id name
                            singleton)
                          _ (rw (f, n) at e₁) in
                      subst
                        (Answers (
                          (IsReopened ancestors index id inventory tail stdlib_singleton name rbi)
                          ⊎ (Kernel ⊎ Surface)))
                        (some-injective _ _ e₂)
                        (decided
                          ((IsReopened ancestors index id inventory tail stdlib_singleton name rbi)
                            ⊎ (Kernel ⊎ Surface))
                          b
                          (
                            λ h. inr (inr ((surface b q).0 h)),
                            λ k. elim k [
                              | inl p ↦ cc (f, reopens.1 p)
                              | inr (inl p) ↦ cc (n, kernel.1 p)
                              | inr (inr p) ↦ (surface b q).1 p
                            ],
                          ))
                ]
        ]

    Answers-iff : (P Q : Type 0) (r : MethodLookup) → P ↔ Q → Answers P r → Answers Q r
    Answers-iff P Q r k (inl (e, p)) = inl (e, k.0 p)
    Answers-iff P Q r k (inr (e, n)) = inr (e, λ q. n (k.1 q))

    singleton_reasons :
        ((IsReopened ancestors index id inventory tail stdlib_singleton name rbi)
          ⊎ (((kernel_object_singleton_method inventory name ≡ true)
                ⊎ IsBareCall ancestors index id inventory tail stdlib_singleton name rbi)
              ⊎ (SingletonSurface ancestors index id inventory tail stdlib_singleton name rbi)))
        ↔ (SingletonReason ancestors index id inventory tail stdlib_singleton name rbi)
    singleton_reasons = (
      λ k. elim k [
        | inl p ↦ reopens p
        | inr (inl (inl p)) ↦ on_object p
        | inr (inl (inr p)) ↦ bare_call p
        | inr (inr p) ↦ on_surface p
      ],
      λ k. elim k [
        | reopens p ↦ inl p
        | on_object p ↦ inr (inl (inl p))
        | bare_call p ↦ inr (inl (inr p))
        | on_surface p ↦ inr (inr p)
      ],
    )

    kernel_iff : (kernel_hit ancestors index inventory tail stdlib_singleton name true ≡ true) ↔ (
        (kernel_object_singleton_method inventory name ≡ true)
        ⊎ IsBareCall ancestors index id inventory tail stdlib_singleton name rbi)
    unfolding kernel_hit
    kernel_iff = (
      λ h. elim (or-cases _ _ h) [
        | inl l ↦ inl l
        | inr l ↦
            inr (bare_call-IsBareCall ancestors index id inventory tail stdlib_singleton name rbi l)
      ],
      λ k. elim k [
        | inl l ↦ or_left _ _ l
        | inr p ↦
            or_right _ _
              (bare_call_of ancestors index id inventory tail stdlib_singleton name rbi p)
      ],
    )

    singleton-Answers :
        (r : MethodLookup)
        → soften_not_found ancestors index inventory tail stdlib_singleton id name true rbi ≡ some r
        → Answers (SingletonReason ancestors index id inventory tail stdlib_singleton name rbi) r
    unfolding surface_softens
    singleton-Answers r e = Answers-iff _ _ r singleton_reasons (
        soften_not_found-Answers true
          ((kernel_object_singleton_method inventory name ≡ true)
            ⊎ IsBareCall ancestors index id inventory tail stdlib_singleton name rbi)
          (SingletonSurface ancestors index id inventory tail stdlib_singleton name rbi) r
          kernel_iff
          (λ b q. surface_iff ancestors index id inventory tail stdlib_singleton name rbi b q) e)

    soften-Softened :
        (singleton : Bool) (Reason : Type 0) (base r : MethodLookup)
        → ((s : MethodLookup)
            → soften_not_found ancestors index inventory tail stdlib_singleton id name singleton rbi
              ≡ some s
            → Answers Reason s)
        → soften ancestors index inventory tail stdlib_singleton id name singleton rbi base ≡ some r
        → Softened Reason base r
    unfolding soften
    soften-Softened singleton Reason not_found r k e = inl (refl, k r e)
    soften-Softened singleton Reason (found m a) r k e = inr (λ q. cc q, sym (some-injective _ _ e))
    soften-Softened singleton Reason inconclusive r k e =
        inr (λ q. cc q, sym (some-injective _ _ e))

    -- If lookup_singleton_rbi returns, then lookup_singleton returns too, and its answer stands
    -- unless it is not_found; not_found becomes inconclusive if there is a reason that the method
    -- may exist, and stays if there is none. The reasons: an RBI file of the client declares an
    -- ancestor; the name is one of the embedded inventory on every class object, or of the lists of
    -- names called without a receiver; the standard library defines it on the class of that path;
    -- it is `instance`, `_load` or `clone` and an ancestor is Singleton; it is mocked; or a module
    -- that is mixed in at run time has it.
    pub lookup_singleton_rbi-Softened :
        {r : MethodLookup}
        → lookup_singleton_rbi ancestors index inventory tail stdlib_singleton id name rbi ≡ some r
        → (base : MethodLookup) × (lookup_singleton ancestors index id name ≡ some base)
          × Softened
              (SingletonReason ancestors index id inventory tail stdlib_singleton name rbi)
              base
              r
    unfolding lookup_singleton_rbi
    lookup_singleton_rbi-Softened {r} e =
        let (base, l, s) = bind-eq-some (lookup_singleton ancestors index id name) _ e in
        (
          base,
          l,
          soften-Softened true
              (SingletonReason ancestors index id inventory tail stdlib_singleton name rbi) base r
              singleton-Answers s,
        )
