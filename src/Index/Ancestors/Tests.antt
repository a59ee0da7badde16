-- ===== src/Index/Ancestors/Tests.antt =====
-- The index of `class X < ::X::A; class A < B; end; end`.
use itaruby.Base.{[], ◌∷◌, none, some, codes, ◌≡◌, refl, text_eq, nat_eq}
use itaruby.Index.{ClassDef, ProjectIndex}
use itaruby.Index.Names.{strip_prefix, has_separator}
use itaruby.Index.Resolve.{new_class, shadowed}
use itaruby.Index.Ancestors.{ancestors, resolve_superclass_lexical}
use itaruby.Index.Ancestors.Cycle.{IsKnot, ancestors-diverges}

abbrev outer_class : ClassDef
outer_class = record (new_class (codes "X")) {
  nesting = codes "X" ∷ [];
  superclass = some (codes "::X::A");
}

abbrev inner_class : ClassDef
inner_class = record (new_class (codes "X::A")) {
  nesting = codes "X" ∷ codes "X::A" ∷ [];
  superclass = some (codes "B");
}

abbrev knot : ProjectIndex
knot = record {
  classes = outer_class ∷ inner_class ∷ [];
  by_path = (codes "X", 0) ∷ (codes "X::A", 1) ∷ [];
  superclass_nesting = [];
  ambiguous_ancestry = [];
  subclasses = [];
  const_aliases = [];
  mock_singleton_methods = [];
  dynamic_mixin_instance_targets = [];
  dynamic_mixin_singleton_targets = [];
}

knot-IsKnot : IsKnot knot 0 1 outer_class inner_class (codes "::X::A") (codes "B") (codes "X")
unfolding resolve_superclass_lexical strip_prefix has_separator shadowed
knot-IsKnot = record {
  outer = record { is_class = refl; no_prepends = refl; no_includes = refl; has_superclass = refl };
  inner = record { is_class = refl; no_prepends = refl; no_includes = refl; has_superclass = refl };
  above = refl;
  missing = refl;
  enclosing = refl;
  encloses = refl;
}

ancestors-diverges_example : ancestors 5 knot 0 ≡ none
ancestors-diverges_example =
    ancestors-diverges knot 0 1 outer_class inner_class (codes "::X::A") (codes "B") (codes "X") 5
      knot-IsKnot refl
