-- ===== src/Index/Ancestors/Cycle.antt =====
-- A class whose superclass is nested in it, and which is asked for the superclass of that class:
-- `class X < ::X::A; class A < B; end; end`, where no lexical scope of `A` has a `B`.
use itaruby.Base.{
  ℕ, zero, suc, false, List, [], Option, none, some, Text, ◌==◌, ◌≡◌, refl, ◌∙◌, contains, lookup,
  length, nat_eq, text_eq, ◌>>=◌, arith,
}
use itaruby.Types.{ClassId}
use itaruby.Index.{ClassDef, ProjectIndex}
use itaruby.Index.Names.{second_last}
use itaruby.Index.Resolve.{class}
use itaruby.Index.Ancestors.{
  Walk, enter, push, start, walk_parent, walk_class, walk_mixins, walk_superclass, linearize,
  ancestors, header_nesting, resolve_superclass_lexical, resolve_superclass_const,
  resolve_superclass_fallback, resolve_superclass_ancestor,
}

-- A class without mixins and with this superclass.
pub record IsPlain (index : ProjectIndex) (x : ClassId) (c : ClassDef) (name : Text) : Type 0 where
  pub is_class : class index x ≡ some c
  pub no_prepends : c.prepends ≡ []
  pub no_includes : c.includes ≡ []
  pub has_superclass : c.superclass ≡ some name

walk_class-plain :
    (walk : ClassId → Walk → Option Walk)
    (resolve : ClassId → List Text → Text → Option (Option ClassId)) (index : ProjectIndex)
    (x : ClassId) (c : ClassDef) (name : Text) (w : Walk)
    → IsPlain index x c name
    → walk_class walk resolve index x c w
      ≡ (resolve x c.nesting name >>= λ parent. walk_parent walk parent (push x (enter index x w)))
unfolding walk_class walk_mixins walk_superclass
walk_class-plain walk resolve index x c name w p =
    rw (p.no_prepends, p.no_includes, p.has_superclass) refl

module _ (index : ProjectIndex) (x a : ClassId) (cx ca : ClassDef) (sx sa e : Text) where
  -- `x` is a class under `a`, and `a` needs the ancestors of `x`, which encloses it.
  pub record IsKnot : Type 0 where
    pub outer : IsPlain index x cx sx
    pub inner : IsPlain index a ca sa
    pub above :
        resolve_superclass_lexical index x (header_nesting index x cx.nesting) sx ≡ some (some a)
    pub missing :
        resolve_superclass_lexical index a (header_nesting index a ca.nesting) sa ≡ some none
    pub enclosing : second_last (header_nesting index a ca.nesting) ≡ some e
    pub encloses : lookup e index.by_path ≡ some x

  asks_outer :
      (depth : ℕ)
      → IsKnot
      → ancestors depth index x ≡ none
      → resolve_superclass_const (ancestors depth index) index a ca.nesting sa ≡ none
  unfolding resolve_superclass_const
  asks_outer depth k ih = rw (k.missing) (
      rw (resolve_superclass_fallback, resolve_superclass_ancestor, k.enclosing)
        (rw (k.encloses) (rw ih refl)))

  finds_inner :
      (depth : ℕ)
      → IsKnot
      → resolve_superclass_const (ancestors depth index) index x cx.nesting sx ≡ some (some a)
  unfolding resolve_superclass_const
  finds_inner depth k = rw (k.above) refl

  inner_walk :
      (depth fuel : ℕ) (w : Walk)
      → IsKnot
      → ancestors depth index x ≡ none
      → contains w.visited a ≡ false
      → linearize (resolve_superclass_const (ancestors depth index) index) index fuel a w ≡ none
  unfolding linearize
  inner_walk depth zero w k ih new = refl
  inner_walk depth (suc fuel) w k ih new =
      let resolve = resolve_superclass_const (ancestors depth index) index in
      rw (linearize, new, k.inner.is_class)
        (walk_class-plain (linearize resolve index fuel) resolve index a ca sa w k.inner
          ∙ rw (asks_outer depth k ih) refl)

  -- At a knot, a class x whose superclass is found lexically to be another class a, which has a
  -- superclass that is not found lexically and is enclosed by x, neither class having mixins,
  -- ancestors gives no result for x at any depth: the program calls itself without end.
  pub ancestors-diverges : (depth : ℕ) → IsKnot → (x == a) ≡ false → ancestors depth index x ≡ none
  unfolding ancestors linearize
  ancestors-diverges zero k d = refl
  ancestors-diverges (suc depth) k d =
      let resolve = resolve_superclass_const (ancestors depth index) index in
      let walk = linearize resolve index (length index.classes) in
      let inner =
        inner_walk depth (length index.classes) (push x (enter index x start)) k
          (ancestors-diverges depth k d) (ground (arith, d)) in
      rw (linearize, k.outer.is_class)
        (rw (walk_class-plain walk resolve index x cx sx start k.outer, finds_inner depth k)
          (rw inner refl))
