-- ===== src/Signature.antt =====
-- crates/itaruby_semantic/src/check.rs: what a call is checked for against a signature: `compatible`,
-- `rbs_to_ty`, `check_sig_args`, `check_arity`. `ancestors` is that of the index, which may give no
-- result: then there is none here.
pub mod Values
pub mod Containers
pub mod Mismatch
pub mod Reports
pub mod Ivars
mod Tests
use itaruby.Base.{
  ℕ, zero, suc, ◌+◌, Bool, true, false, not, ◌&&◌, ◌||◌, List, [], ◌∷◌, Option, none, some, Text,
  codes, ltb, leb, ◌==◌, nat_eq, text_eq, if◌then◌else◌, contains, any, map, ◌>>=◌,
}
use itaruby.Types.{
  ClassId, Ty, Tys, unknown, nil, bool, int, float, str, sym, instance_of, class_of, array, hash,
  union_of, end, part, ty_beq,
}
use itaruby.Types.Equality.{ty_eq}
use itaruby.Types.Union.{union}
use itaruby.Rbs.{RbsTy, RbsTys, RbsParam}
use itaruby.Index.{Span, MethodSig, ProjectIndex}
use itaruby.Index.Resolve.{resolve_const}
use itaruby.Index.Ancestors.{Chain}

-- The arms of `compatible` for a parameter of any type, where `test` is that for one that is known
-- and no union.
unfoldable mutual
  pub against : (Ty → Option Bool) → Ty → Option Bool
  against test unknown = some true
  against test (union_of ps) = any_against test ps
  against test p = test p

  pub any_against : (Ty → Option Bool) → Tys → Option Bool
  any_against test end = some false
  any_against test (part p ps) =
      against test p >>= λ fits. if fits then some true else any_against test ps

-- The arms for an array and for a hash, from those for what they hold.
abbrev pub array_test : Ty → (Ty → Option Bool) → Ty → Option Bool
array_test a elements (array p) = elements p
array_test a elements p = some (array a == p)

abbrev pub hash_test : Ty → Ty → (Ty → Option Bool) → (Ty → Option Bool) → Ty → Option Bool
hash_test k v keys values (hash pk pv) = keys pk >>= λ fits. if fits then values pv else some false
hash_test k v keys values p = some (hash k v == p)

module _ (ancestors : ClassId → Option Chain) where
  -- `(Ty::Instance(a), Ty::Instance(p))`
  abbrev pub instances_compatible : ClassId → ClassId → Option Bool
  instances_compatible a p =
      if a == p
      then some true
      else (ancestors a >>= λ (chain, complete). some (contains chain p || not complete))

  abbrev pub instance_test : ClassId → Ty → Option Bool
  instance_test a (instance_of p) = instances_compatible a p
  instance_test a p = some (instance_of a == p)

  unfoldable mutual
    unfolding against ty_beq

    pub compatible : Ty → Ty → Option Bool
    compatible unknown p = some true
    compatible (union_of ts) unknown = some true
    compatible (union_of ts) p = all_compatible ts p
    compatible (array a) p = against (array_test a (compatible a)) p
    compatible (hash k v) p = against (hash_test k v (compatible k) (compatible v)) p
    compatible (instance_of a) p = against (instance_test a) p
    compatible a p = against (λ q. some (a == q)) p

    pub all_compatible : Tys → Ty → Option Bool
    all_compatible end p = some true
    all_compatible (part t ts) p =
        compatible t p >>= λ fits. if fits then all_compatible ts p else some false

-- `type_params.iter().any(|p| p == name)` and the arms of `RbsTy::Simple`
abbrev pub unknown_or : Option ClassId → Ty
unknown_or none = unknown
unknown_or (some c) = instance_of c

abbrev pub names_one_of : List Text → Text → Bool
names_one_of names name = any (λ n. n == name) names

unfoldable pub named_ty : ProjectIndex → Option ClassId → List Text → Text → Option Ty
named_ty index self_class scope name =
    if name == codes "Integer"
    then some int
    else if name == codes "Float"
    then some float
    else if name == codes "String"
    then some str
    else if name == codes "Symbol"
    then some sym
    else if names_one_of (map codes ("bool" ∷ "true" ∷ "false" ∷ "TrueClass" ∷ "FalseClass" ∷ []))
        name
    then some bool
    else if names_one_of (map codes ("nil" ∷ "NilClass" ∷ [])) name
    then some nil
    else if names_one_of (map codes ("void" ∷ "untyped" ∷ "top" ∷ "bot" ∷ [])) name
    then some unknown
    else if name == codes "self"
    then some (unknown_or self_class)
    else (resolve_const index scope name >>= λ found. some (unknown_or found))

-- `.reduce(Ty::union).unwrap_or(Ty::Unknown)`
unfoldable pub union_all : Ty → List Ty → Ty
union_all t [] = t
union_all t (u ∷ us) = union_all (union t u) us

abbrev pub reduce_union : List Ty → Ty
unfolding union_all
reduce_union [] = unknown
reduce_union (t ∷ ts) = union_all t ts

-- The arms of `RbsTy::Generic`, with the types of the arguments.
abbrev pub generic_ty : Text → List Ty → Ty
generic_ty name (e ∷ []) = if name == codes "Array" then array e else unknown
generic_ty name (k ∷ v ∷ []) = if name == codes "Hash" then hash k v else unknown
generic_ty name _ = unknown

-- The arguments of a generic type are read only if it is an array or a hash; what they come to is
-- not used otherwise.
abbrev pub reads_arguments : Text → RbsTys → Bool
reads_arguments name (RbsTys.arg e RbsTys.end) = name == codes "Array"
reads_arguments name (RbsTys.arg k (RbsTys.arg v RbsTys.end)) = name == codes "Hash"
reads_arguments name _ = false

module _ (index : ProjectIndex) (self_class : Option ClassId) (scope type_params : List Text) where
  unfoldable mutual
    unfolding named_ty

    pub rbs_to_ty : RbsTy → Option Ty
    rbs_to_ty (RbsTy.simple name) =
        if contains type_params name then some unknown else named_ty index self_class scope name
    rbs_to_ty (RbsTy.generic name args) = elim (reads_arguments name args) [
      | true ↦ rbs_to_tys args >>= λ ts. some (generic_ty name ts)
      | false ↦ some unknown
    ]
    rbs_to_ty (RbsTy.nilable inner) = rbs_to_ty inner >>= λ t. some (union t nil)
    rbs_to_ty (RbsTy.union parts) = rbs_to_tys parts >>= λ ts. some (reduce_union ts)

    pub rbs_to_tys : RbsTys → Option (List Ty)
    rbs_to_tys RbsTys.end = some []
    rbs_to_tys (RbsTys.arg t ts) = rbs_to_ty t >>= λ u. rbs_to_tys ts >>= λ us. some (u ∷ us)

-- The `filter_map` of `check_sig_args`.
abbrev pub positional : List RbsParam → List RbsTy
positional [] = []
positional (RbsParam.required t ∷ ps) = t ∷ positional ps
positional (RbsParam.optional t ∷ ps) = t ∷ positional ps
positional (RbsParam.keyword name t r ∷ ps) = positional ps

abbrev pub types_of : (RbsTy → Option Ty) → List RbsTy → Option (List Ty)
types_of to_ty [] = some []
types_of to_ty (t ∷ ts) = to_ty t >>= λ u. types_of to_ty ts >>= λ us. some (u ∷ us)

-- The loop of `check_sig_args`: the spans that are reported.
unfoldable pub mismatches :
    (ClassId → Option Chain) → List (Ty × Span) → List Ty → Option (List Span)
mismatches ancestors [] params = some []
mismatches ancestors (arg ∷ args) [] = some []
mismatches ancestors ((arg, span) ∷ args) (param ∷ params) = do
  fits ← compatible ancestors arg param
  rest ← mismatches ancestors args params
  some (if fits then rest else span ∷ rest)

unfoldable pub check_sig_args :
    (ClassId → Option Chain)
    → ProjectIndex
    → MethodSig
    → List (Ty × Span)
    → Option ClassId
    → List Text
    → Option (List Span)
unfolding mismatches
check_sig_args ancestors index m args owner scope = elim m.sig [
  | none ↦ some []
  | some sig ↦ do
    params ← types_of (rbs_to_ty index owner scope sig.type_params) (positional sig.params)
    mismatches ancestors args params
]

-- `check_arity`: the bounds that a report names, when there is one.
unfoldable pub check_arity : MethodSig → ℕ → Option (ℕ × ℕ)
check_arity m given =
    if m.arity_unknown || m.rest
    then none
    else let min = m.required in
      let max = min + m.optional in if leb min given && leb given max then none else some (min, max)

-- The loop of `fold_ivar_writes` over the values written to one variable.
abbrev pub fold_write : Option Ty → Ty → Option Ty
fold_write none t = some t
fold_write (some prev) t = if prev == t then some prev else some unknown

unfoldable pub fold_values : Option Ty → List Ty → Option Ty
fold_values result [] = result
fold_values result (t ∷ ts) = fold_values (fold_write result t) ts

abbrev pub type_or_unknown : Option Ty → Ty
type_or_unknown none = unknown
type_or_unknown (some t) = t

unfoldable pub fold_ivar_writes : List (Text × List Ty) → List (Text × Ty)
unfolding fold_values
fold_ivar_writes [] = []
fold_ivar_writes ((name, values) ∷ collected) =
    (name, type_or_unknown (fold_values none values)) ∷ fold_ivar_writes collected
