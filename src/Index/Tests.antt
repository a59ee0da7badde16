-- ===== src/Index/Tests.antt =====
-- The class table and the ancestors at a concrete index: `class Base; end`, `module Mixin; end` and
-- `class Model < Base; include Mixin; end`.
use itaruby.Base.{
  ℕ, zero, suc, true, false, [], ◌∷◌, none, some, Text, codes, lookup, ◌≡◌, refl, ◌==◌, text_eq,
  nat_eq, get_elem?, all, arith, List, Option, Bool, ◌∙◌, beq_refl, beq-cases, Option-cases, inl,
  inr, eq_of_beq,
}
use mathlib.Core.Option.{some-injective}
use itaruby.Types.{ClassId}
use itaruby.Index.{MethodSig, ClassDef, ProjectIndex}
use itaruby.Index.Names.{strip_prefix, has_separator, second_last}
use itaruby.Index.Resolve.{
  shadowed, conflicting_const_scope, class, new_class, intern, resolve_const,
}
use itaruby.Index.Valid.{IsValid, Interned, intern-Interned}
use itaruby.Index.Resolve.Lexical.{Lexical, resolve_const-Lexical}
use itaruby.Index.Ancestors.{Chain, ancestors, resolve_superclass_const}
use itaruby.Index.Ancestors.Closure.{IsMro, ancestors-IsMro}
use itaruby.Index.Ancestors.Total.{IsRanked, ancestors_total}

abbrev pub save_method : MethodSig
save_method = record {
  required = 0;
  optional = 0;
  rest = false;
  keywords = [];
  kwrest = false;
  sig = none;
  sorbet_ret = none;
  arity_unknown = false;
  abstract_stub = false;
  file = 0;
  def_span = (12, 20);
  name_span = (16, 20);
  schema_col_type = none;
}

abbrev base_class : ClassDef
base_class = record (new_class (codes "Base")) { methods = (codes "save", save_method) ∷ [] }

abbrev mixin_module : ClassDef
mixin_module = record (new_class (codes "Mixin")) { is_module = true }

abbrev pub model_class : ClassDef
model_class = record (new_class (codes "Model")) {
  nesting = codes "Model" ∷ [];
  superclass = some (codes "Base");
  includes = codes "Mixin" ∷ [];
}

abbrev pub app : ProjectIndex
app = record {
  classes = base_class ∷ mixin_module ∷ model_class ∷ [];
  by_path = (codes "Base", 0) ∷ (codes "Mixin", 1) ∷ (codes "Model", 2) ∷ [];
  superclass_nesting = [];
  ambiguous_ancestry = [];
  subclasses = (0, 2 ∷ []) ∷ [];
  const_aliases = [];
  mock_singleton_methods = [];
  dynamic_mixin_instance_targets = [];
  dynamic_mixin_singleton_targets = [];
}

model_ancestors : ancestors 1 app 2 ≡ some (2 ∷ 1 ∷ 0 ∷ [], true)
unfolding ancestors resolve_const strip_prefix has_separator shadowed conflicting_const_scope
model_ancestors = refl

-- An executable test of the class table.
is_entry : List ClassDef → Text × ClassId → Bool
is_entry classes (path, id) = elim (get_elem? classes id) [ none ↦ false | some c ↦ c.path == path ]

named_of_entries :
    (classes : List ClassDef) (table : List (Text × ClassId))
    → all (is_entry classes) table ≡ true
    → (path : Text) (id : ClassId) → lookup path table ≡ some id
    → (c : ClassDef) × (get_elem? classes id ≡ some c) × (c.path ≡ path)
unfolding is_entry
named_of_entries classes [] h path id l = cc
named_of_entries classes ((p, i) ∷ table) h path id l = elim (beq-cases p path) [
  | inr d ↦ named_of_entries classes table (ground (arith, h)) path id (rw d at l)
  | inl e ↦ elim (Option-cases (get_elem? classes i)) [
    | inl q ↦ cc (rw (is_entry, q) at h)
    | inr (c, q) ↦
        let named : (c.path == p) ≡ true = ground (arith, rw (is_entry, q) at h) in
        let same : (p == path) ≡ true = rw e (beq_refl path) in
        (c, rw (← some-injective _ _ (rw same at l)) q, eq_of_beq c.path p named ∙ e)
  ]
]

pub app-IsValid : IsValid app
unfolding is_entry
app-IsValid = record { named = named_of_entries app.classes app.by_path refl }

abbrev flat_rank : ClassId → ℕ
flat_rank x = 0

no_outer_scope : (x : ClassId) (c : ClassDef) → class app x ≡ some c → second_last c.nesting ≡ none
no_outer_scope zero c is = rw (← some-injective _ _ is) refl
no_outer_scope (suc zero) c is = rw (← some-injective _ _ is) refl
no_outer_scope (suc (suc zero)) c is = rw (← some-injective _ _ is) refl
no_outer_scope (suc (suc (suc x))) c is = cc

app-IsRanked : IsRanked app flat_rank
app-IsRanked = record {
  mixins = λ x m c name is mem r. omega arith;
  superclass = λ depth x s c sc is has r. omega arith;
  enclosing = λ x eid c sc e is has r s l. cc (no_outer_scope x c is);
}

intern-Interned_example : Interned app (codes "New") (intern app (codes "New"))
intern-Interned_example = intern-Interned app (codes "New") app-IsValid (omega arith)

resolve_const-Lexical_example :
    (r : Option ClassId) × (resolve_const app (codes "Model" ∷ []) (codes "Mixin") ≡ some r)
    × Lexical app (codes "Mixin") (codes "Model" ∷ []) r
resolve_const-Lexical_example =
    resolve_const-Lexical app (codes "Mixin") app-IsValid (codes "Model" ∷ [])

ancestors-IsMro_example :
    IsMro (resolve_superclass_const (ancestors 0 app) app) app 2 (2 ∷ 1 ∷ 0 ∷ [], true)
unfolding ancestors resolve_const strip_prefix has_separator shadowed conflicting_const_scope
ancestors-IsMro_example = ancestors-IsMro 0 app 2 refl

ancestors_total_example : (chain : Chain) × (ancestors 1 app 2 ≡ some chain)
ancestors_total_example =
    ancestors_total app flat_rank 1 2 model_class app-IsValid app-IsRanked refl (omega arith)
