-- ===== src/Index/Singleton/Closed.antt =====
-- What the loops of the lookup on a class object have read when no ancestor decides.
use itaruby.Base.{
  Bool, true, false, List, [], ◌∷◌, Option, none, some, Text, ◌≡◌, refl, inl, inr, ◌∙◌, ap, arith,
  nat_eq, text_eq, lookup, beq-cases, if◌then◌else◌, bind-eq-some, ◌>>=◌, Bool-cases, Option-cases,
}
use mathlib.Core.Path.{subst}
use itaruby.Types.{ClassId}
use itaruby.Index.{MethodSig, ClassDef, ProjectIndex, MethodLookup, inconclusive}
use itaruby.Index.Resolve.{class, resolve_const}
use itaruby.Index.Ancestors.{Chain}
use itaruby.Index.Ancestors.Grows.{In}
use itaruby.Index.Lookup.{scan}
use itaruby.Index.Lookup.Scan.{IsSkipped, scan-Verdict}
use itaruby.Index.Singleton.{extended_modules, extended_module_surface, scan_singleton}

module _ (ancestors : ClassId → Option Chain) (index : ProjectIndex) (name : Text) where
  abbrev open_class : ClassDef → Bool
  open_class c = c.is_open

  abbrev own_map : ClassDef → List (Text × MethodSig)
  own_map c = c.methods

  -- The module that the name stands for has a complete and closed ancestry without the method.
  pub record IsSilent (nesting : List Text) (ext : Text) : Type 0 where
    pub module_id : ClassId
    pub chain : List ClassId
    pub resolves : resolve_const index nesting ext ≡ some (some module_id)
    pub complete : ancestors module_id ≡ some (chain, true)
    pub skipped : (y : ClassId) → In y chain → IsSkipped index open_class own_map name y

  abbrev pub AllSilent : List Text → List Text → Type 0
  AllSilent nesting [] = Unit
  AllSilent nesting (ext ∷ extends) = IsSilent nesting ext × AllSilent nesting extends

  -- A closed class whose class object does not have the method.
  pub record HasNone (x : ClassId) : Type 0 where
    pub def : ClassDef
    pub is_class : class index x ≡ some def
    pub closed : def.is_open ≡ false
    pub lacks : lookup name def.singleton_methods ≡ none
    pub extended : AllSilent def.nesting def.extends

  -- The end of the loop for one module, after its chain has been scanned.
  module_rest :
      (rest : Option (Option MethodLookup)) (chain : Chain) (decided : Option MethodLookup)
      → elim decided [
        | some r ↦ some (some r)
        | none ↦ if chain.1 then rest else some (some inconclusive)
      ]
        ≡ some none
      → (decided ≡ none) × (chain.1 ≡ true) × (rest ≡ some none)
  module_rest rest chain (some r) e = cc
  module_rest rest chain none e = elim (Bool-cases chain.1) [
    | inl w ↦ (refl, w, rw w at e)
    | inr w ↦ cc (rw w at e)
  ]

  -- The loop for one module that a name stands for.
  scanned_module :
      (rest : Option (Option MethodLookup)) (mid : ClassId)
      → (ancestors mid >>= λ chain. scan index open_class own_map name chain.0 >>= elim [
        | some r ↦ some (some r)
        | none ↦ if chain.1 then rest else some (some inconclusive)
      ])
        ≡ some none
      → ((chain : List ClassId) × (ancestors mid ≡ some (chain, true))
          × ((y : ClassId) → In y chain → IsSkipped index open_class own_map name y))
        × (rest ≡ some none)
  scanned_module rest mid e =
      let (chain, a, e₂) = bind-eq-some (ancestors mid) _ e in
      let (decided, s, e₃) = bind-eq-some (scan index open_class own_map name chain.0) _ e₂ in
      let (d, w, more) = module_rest rest chain decided e₃ in
      (
        (
          chain.0,
          a ∙ ap (λ b. some (chain.0, b)) w,
          scan-Verdict index open_class own_map name chain.0 none (s ∙ ap some d),
        ),
        more,
      )

  IsSilent-module :
      (nesting : List Text) (ext : Text) (rest : Option (Option MethodLookup))
      (parent : Option ClassId)
      → resolve_const index nesting ext ≡ some parent
      → elim parent [
        | none ↦ some (some inconclusive)
        | some mid ↦ ancestors mid >>= λ chain.
            scan index open_class own_map name chain.0 >>= elim [
              | some r ↦ some (some r)
              | none ↦ if chain.1 then rest else some (some inconclusive)
            ]
      ]
        ≡ some none
      → IsSilent nesting ext × (rest ≡ some none)
  IsSilent-module nesting ext rest none r e = cc
  IsSilent-module nesting ext rest (some mid) r e =
      let ((chain, complete, skipped), more) = scanned_module rest mid e in
      (
        record {
          module_id = mid;
          chain = chain;
          resolves = r;
          complete = complete;
          skipped = skipped;
        },
        more,
      )

  extended_modules-AllSilent :
      (nesting extends : List Text)
      → extended_modules ancestors index name nesting extends ≡ some none
      → AllSilent nesting extends
  unfolding extended_modules
  extended_modules-AllSilent nesting [] e = tt
  extended_modules-AllSilent nesting (ext ∷ extends) e =
      let (parent, r, e₁) = bind-eq-some (resolve_const index nesting ext) _ e in
      let (silent, more) =
        IsSilent-module nesting ext (extended_modules ancestors index name nesting extends) parent r
          e₁ in
      (silent, extended_modules-AllSilent nesting extends more)

  surface_rest :
      (rest : Option (Option MethodLookup)) (decided : Option MethodLookup)
      → elim decided [ some r ↦ some (some r) | none ↦ rest ] ≡ some none
      → (decided ≡ none) × (rest ≡ some none)
  surface_rest rest (some r) e = cc
  surface_rest rest none e = (refl, e)

  -- closed
  pub scan_singleton-HasNone :
      (chain : List ClassId)
      → scan_singleton ancestors index (λ c. false) name chain ≡ some none
      → (x : ClassId) → In x chain
      → HasNone x
  unfolding scan_singleton
  scan_singleton-HasNone [] e x h = cc
  scan_singleton-HasNone (a ∷ chain) e x h =
      let (c, is, e₁) = bind-eq-some (class index a) _ e in
      elim (Bool-cases c.is_open) [
        | inl o ↦ cc (rw o at e₁)
        | inr o ↦ elim (Option-cases (lookup name c.singleton_methods)) [
          | inr (m, l) ↦ cc (rw (o, l) at e₁)
          | inl l ↦
              let (decided, s, e₂) =
                bind-eq-some (extended_module_surface ancestors index c name) _ (rw (o, l) at e₁) in
              let (d, more) =
                surface_rest (scan_singleton ancestors index (λ c. false) name chain) decided e₂ in
              elim (beq-cases a x) [
                | inr n ↦ scan_singleton-HasNone chain more x (ground (arith, h, n))
                | inl q ↦ subst HasNone q (record {
                  def = c;
                  is_class = is;
                  closed = o;
                  lacks = l;
                  extended = extended_modules-AllSilent c.nesting c.extends (s ∙ ap some d);
                })
              ]
        ]
      ]
