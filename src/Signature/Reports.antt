-- ===== src/Signature/Reports.antt =====
-- What `check_sig_args` reports is a mismatch, and the names of a signature's own type parameters are
-- not looked up.
use itaruby.Base.{
  ℕ, zero, suc, Bool, true, false, List, [], ◌∷◌, Option, some, Text, ◌≡◌, refl, sym, inl, inr,
  Memᴰ, if◌then◌else◌, contains, text_eq, bind-eq-some, get_elem?, Bool-cases, Option-cases, Every,
  every_cons,
}
use mathlib.Core.Option.{some-injective}
use mathlib.Core.Path.{subst}
use itaruby.Types.{ClassId, Ty}
use itaruby.Rbs.{RbsTy, RbsTys, RbsSig}
use itaruby.Index.{Span, MethodSig, ProjectIndex}
use itaruby.Index.Resolve.{resolve_const}
use itaruby.Index.Ancestors.{Chain}
use itaruby.Signature.{
  compatible, mismatches, check_sig_args, positional, types_of, rbs_to_ty, rbs_to_tys, named_ty,
}
use itaruby.Signature.Values.{Value, HasType}
use itaruby.Signature.Containers.{IsProper}
use itaruby.Signature.Mismatch.{compatible-Separated}

-- The argument at some place and the parameter's type at that place do not fit.
abbrev pub Refused : (ClassId → Option Chain) → List (Ty × Span) → List Ty → Span → Type 0
Refused ancestors args params span =
    (i : ℕ) × (arg param : Ty) × (get_elem? args i ≡ some (arg, span))
    × (get_elem? params i ≡ some param)
    × (compatible ancestors arg param ≡ some false)

reported :
    (ancestors : ClassId → Option Chain) (arg param : Ty) (here : Span) (args : List (Ty × Span))
    (params : List Ty) (span : Span) (fits : Bool) (rest : List Span)
    → compatible ancestors arg param ≡ some fits
    → (Memᴰ span rest → Refused ancestors args params span)
    → Memᴰ span (if fits then rest else here ∷ rest)
    → Refused ancestors ((arg, here) ∷ args) (param ∷ params) span
reported ancestors arg param here args params span false rest f ih (Memᴰ.head q) =
    (zero, arg, param, cc q, refl, f)
reported ancestors arg param here args params span false rest f ih (Memᴰ.tail r) =
    let (i, a, p, at_a, at_p, no_fit) = ih r in (suc i, a, p, at_a, at_p, no_fit)
reported ancestors arg param here args params span true rest f ih r =
    let (i, a, p, at_a, at_p, no_fit) = ih r in (suc i, a, p, at_a, at_p, no_fit)

mismatches-Refused :
    (ancestors : ClassId → Option Chain) (args : List (Ty × Span)) (params : List Ty)
    {spans : List Span} (span : Span)
    → mismatches ancestors args params ≡ some spans
    → Memᴰ span spans
    → Refused ancestors args params span
unfolding mismatches
mismatches-Refused ancestors [] params span e m =
    elim (subst (Memᴰ span) (sym (some-injective _ _ e)) m) [ ]
mismatches-Refused ancestors (arg ∷ args) [] span e m =
    elim (subst (Memᴰ span) (sym (some-injective _ _ e)) m) [ ]
mismatches-Refused ancestors ((arg, here) ∷ args) (param ∷ params) span e m =
    let (fits, f, g) = bind-eq-some (compatible ancestors arg param) _ e in
    let (rest, h, k) = bind-eq-some (mismatches ancestors args params) _ g in
    reported ancestors arg param here args params span fits rest f
      (mismatches-Refused ancestors args params span h)
      (subst (Memᴰ span) (sym (some-injective _ _ k)) m)

get_elem?-Every :
    (args : List (Ty × Span)) (i : ℕ) {arg : Ty} {span : Span}
    → Every (λ a. IsProper a.0) args
    → get_elem? args i ≡ some (arg, span)
    → IsProper arg
get_elem?-Every [] i all e = absurd (cc e)
get_elem?-Every (a ∷ args) zero (every_cons p all) e =
    subst (λ b. IsProper b.0) (some-injective _ _ e) p
get_elem?-Every (a ∷ args) (suc i) (every_cons p all) e = get_elem?-Every args i all e

-- An argument at the place of a positional parameter, and a value that shows that it does not fit.
abbrev pub Counterexample :
    (ClassId → Option Chain)
    → ProjectIndex
    → RbsSig
    → Option ClassId
    → List Text
    → List (Ty × Span)
    → Span
    → Type 0
Counterexample ancestors index sig owner scope args span =
    (i : ℕ) × (arg param : Ty) × (params : List Ty) × (get_elem? args i ≡ some (arg, span))
    × (types_of (rbs_to_ty index owner scope sig.type_params) (positional sig.params) ≡ some params)
    × (get_elem? params i ≡ some param)
    × (v : Value) × HasType ancestors arg v
    × ¬ HasType ancestors param v

-- Each span that check_sig_args reports is that of an argument whose place has a positional
-- parameter in the signature of the method, and some value of the type of the argument is no value
-- of the type that rbs_to_ty gives the parameter, provided that no argument type has an empty
-- union.
pub check_sig_args-Counterexample :
    (ancestors : ClassId → Option Chain) (index : ProjectIndex) (m : MethodSig)
    (args : List (Ty × Span)) (owner : Option ClassId) (scope : List Text) (spans : List Span)
    (span : Span)
    → Every (λ a. IsProper a.0) args
    → check_sig_args ancestors index m args owner scope ≡ some spans
    → Memᴰ span spans
    → (sig : RbsSig) × (m.sig ≡ some sig) × Counterexample ancestors index sig owner scope args span
unfolding check_sig_args
check_sig_args-Counterexample ancestors index m args owner scope spans span proper e r =
    elim (Option-cases m.sig) [
      | inl q ↦ elim (subst (Memᴰ span) (sym (some-injective _ _ (rw q at e))) r) [ ]
      | inr (sig, q) ↦
          let (params, f, g) =
            bind-eq-some
              (types_of (rbs_to_ty index owner scope sig.type_params) (positional sig.params)) _
              (rw q at e) in
          let (i, arg, param, at_a, at_p, no_fit) =
            mismatches-Refused ancestors args params span g r in
          let (v, has, has_not) =
            compatible-Separated ancestors arg (get_elem?-Every args i proper at_a) param no_fit in
          (sig, q, (i, arg, param, params, at_a, f, at_p, v, has, has_not))
    ]

module _ (first second : ProjectIndex) (self_class : Option ClassId) (scope type_params : List Text)
    (agree : (name : Text)
      → contains type_params name ≡ false
      → resolve_const first scope name ≡ resolve_const second scope name) where
  mutual
    unfolding rbs_to_ty

    type_agrees :
        (t : RbsTy)
        → rbs_to_ty first self_class scope type_params t
          ≡ rbs_to_ty second self_class scope type_params t
    type_agrees (RbsTy.simple name) = elim (Bool-cases (contains type_params name)) [
      | inl h ↦ rw h refl
      | inr h ↦ rw (named_ty, h, agree name h) refl
    ]
    type_agrees (RbsTy.generic name args) = rw (types_agree args) refl
    type_agrees (RbsTy.nilable inner) = rw (type_agrees inner) refl
    type_agrees (RbsTy.union parts) = rw (types_agree parts) refl

    types_agree :
        (ts : RbsTys)
        → rbs_to_tys first self_class scope type_params ts
          ≡ rbs_to_tys second self_class scope type_params ts
    types_agree RbsTys.end = refl
    types_agree (RbsTys.arg t ts) = rw (type_agrees t, types_agree ts) refl

  -- rbs_to_ty gives every type the same result in two indexes that resolve each name that is none
  -- of the signature's type parameters in the same way: a type parameter is never looked up.
  pub rbs_to_ty-type_params :
      (t : RbsTy)
      → rbs_to_ty first self_class scope type_params t
        ≡ rbs_to_ty second self_class scope type_params t
  rbs_to_ty-type_params t = type_agrees t
