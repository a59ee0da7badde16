-- ===== src/Signature/Tests.antt =====
-- Runs of the checks against a signature, and the instances of their theorems.
use itaruby.Base.{
  true, false, not, List, [], ◌∷◌, Option, none, some, Text, codes, ◌≡◌, ◌↔◌, refl, ap, sym as flip,
  Option-cases, Bool-cases, inl, inr, Memᴰ, every_nil, every_cons, text_eq, ◌==◌, contains, nat_eq,
}
use itaruby.Types.{ClassId, Ty, int, str, nil, sym, instance_of, array, union_of, end, part}
use itaruby.Rbs.{RbsTy, RbsTys, RbsParam, RbsSig}
use itaruby.Index.{Span, MethodSig, ClassDef, ProjectIndex}
use itaruby.Index.Ancestors.{Chain}
use itaruby.Index.Names.{strip_prefix, separator, has_separator}
use itaruby.Index.Resolve.{resolve_const, conflicting_const_scope, shadowed, new_class}
use itaruby.Index.Tests.{save_method, app}
use itaruby.Signature.{compatible, check_sig_args, rbs_to_ty, check_arity, fold_ivar_writes}
use itaruby.Signature.Values.{Value, HasType}
use itaruby.Signature.Mismatch.{compatible-Separated}
use itaruby.Signature.Reports.{Counterexample, check_sig_args-Counterexample, rbs_to_ty-type_params}
use itaruby.Signature.Ivars.{OneType, fold_ivar_writes_iff}

-- Class 2 is a subclass of class 1; the chain of class 3 is not known to its end.
abbrev chains : ClassId → Option Chain
chains c = elim (c == 2) [ true ↦ some (2 ∷ 1 ∷ [], true) | false ↦ some (c ∷ [], not (c == 3)) ]

subclass_fits : compatible chains (instance_of 2) (instance_of 1) ≡ some true
unfolding compatible
subclass_fits = refl

superclass_does_not_fit : compatible chains (instance_of 1) (instance_of 2) ≡ some false
unfolding compatible
superclass_does_not_fit = refl

incomplete_fits : compatible chains (instance_of 3) (instance_of 1) ≡ some true
unfolding compatible
incomplete_fits = refl

abbrev int_or_nil : Ty
int_or_nil = union_of (part int (part nil end))

union_does_not_fit : compatible chains (array int_or_nil) (array int) ≡ some false
unfolding compatible
union_does_not_fit = refl

compatible-Separated_example :
    (v : Value) × HasType chains (array int_or_nil) v × ¬ HasType chains (array int) v
compatible-Separated_example =
    compatible-Separated chains (array int_or_nil) (tt, (tt, tt)) (array int) union_does_not_fit

abbrev store_sig : RbsSig
store_sig = record {
  params =
      RbsParam.required (RbsTy.simple (codes "T"))
      ∷ RbsParam.required (RbsTy.simple (codes "String"))
      ∷ [];
  ret = RbsTy.simple (codes "T");
  type_params = codes "T" ∷ [];
}

abbrev store_method : MethodSig
store_method = record save_method { required = 2; sig = some store_sig }

abbrev store_args : List (Ty × Span)
store_args = (sym, (0, 1)) ∷ (int, (2, 3)) ∷ []

one_report : check_sig_args chains app store_method store_args none [] ≡ some ((2, 3) ∷ [])
unfolding check_sig_args compatible rbs_to_ty
one_report = refl

check_sig_args-Counterexample_example :
    (sig : RbsSig) × (some store_sig ≡ some sig)
    × Counterexample chains app sig none [] store_args (2, 3)
check_sig_args-Counterexample_example =
    check_sig_args-Counterexample chains app store_method store_args none [] ((2, 3) ∷ []) (2, 3)
      (every_cons tt (every_cons tt every_nil)) one_report (Memᴰ.head refl)

-- With a class `T` outside, which a constant of `Model` hides in the second index alone.
abbrev plain_app : ProjectIndex
plain_app = record app {
  classes = new_class (codes "Model") ∷ new_class (codes "T") ∷ [];
  by_path = (codes "Model", 0) ∷ (codes "T", 1) ∷ [];
}

abbrev hiding_model : ClassDef
hiding_model = record (new_class (codes "Model")) { consts = codes "T" ∷ [] }

abbrev hiding_app : ProjectIndex
hiding_app = record plain_app { classes = hiding_model ∷ new_class (codes "T") ∷ [] }

resolves_t : resolve_const plain_app (codes "Model" ∷ []) (codes "T") ≡ some (some 1)
unfolding resolve_const conflicting_const_scope strip_prefix has_separator shadowed
resolves_t = refl

hides_t : resolve_const hiding_app (codes "Model" ∷ []) (codes "T") ≡ some none
unfolding resolve_const conflicting_const_scope strip_prefix has_separator shadowed
hides_t = refl

abbrev sample_ty : RbsTy
sample_ty =
    RbsTy.union
      (RbsTys.arg (RbsTy.simple (codes "T")) (RbsTys.arg (RbsTy.simple (codes "Model")) RbsTys.end))

same_shadowed :
    (name : Text)
    → contains (codes "T" ∷ []) name ≡ false
    → shadowed plain_app (codes "Model") name ≡ shadowed hiding_app (codes "Model") name
unfolding shadowed
same_shadowed name h = ap (λ b. some b) (flip h)

same_resolution :
    (name : Text)
    → contains (codes "T" ∷ []) name ≡ false
    → resolve_const plain_app (codes "Model" ∷ []) name
      ≡ resolve_const hiding_app (codes "Model" ∷ []) name
unfolding resolve_const conflicting_const_scope
same_resolution name h = elim (Option-cases (strip_prefix separator name)) [
  | inr (rest, e) ↦ rw (resolve_const, e) refl
  | inl e ↦ elim (Bool-cases (has_separator name)) [
    | inl s ↦ rw (resolve_const, e, s) refl
    | inr s ↦ rw (resolve_const, e, s, same_shadowed name h) refl
  ]
]

rbs_to_ty-type_params_example :
    rbs_to_ty plain_app none (codes "Model" ∷ []) (codes "T" ∷ []) sample_ty
    ≡ rbs_to_ty hiding_app none (codes "Model" ∷ []) (codes "T" ∷ []) sample_ty
rbs_to_ty-type_params_example =
    rbs_to_ty-type_params plain_app hiding_app none (codes "Model" ∷ []) (codes "T" ∷ [])
      same_resolution sample_ty

arity_bounds : check_arity store_method 3 ≡ some (2, 2)
unfolding check_arity
arity_bounds = refl

abbrev writes : List (Text × List Ty)
writes = (codes "@a", str ∷ str ∷ []) ∷ []

abbrev a_str : Text × Ty
a_str = (codes "@a", str)

fold_ivar_writes_iff_example : Memᴰ a_str (fold_ivar_writes writes) ↔ (
    (values : List Ty) × Memᴰ {A = Text × List Ty} (codes "@a", values) writes × OneType str values)
fold_ivar_writes_iff_example = fold_ivar_writes_iff (codes "@a") str writes (λ e. cc e)
