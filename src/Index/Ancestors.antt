-- ===== src/Index/Ancestors.antt =====
-- crates/itaruby_semantic/src/index.rs: superclass resolution and the linearization of ancestors.
-- Resolving a superclass may ask for the ancestors of the enclosing class, so the walk is bounded
-- twice: `depth` bounds how often `ancestors` calls itself through a superclass, and one walk visits
-- each class once. `none` of the outer `Option` is no result: a panic, or a bound that is reached.
pub mod Grows
pub mod Super
pub mod Total
pub mod Class
pub mod Closure
pub mod Cycle
mod Tests
use itaruby.Base.{
  ℕ, zero, suc, Bool, true, false, not, ◌&&◌, List, [], ◌∷◌, ◌++◌, reverse, Option, none, some,
  Text, ◌==◌, if◌then◌else◌, nat_eq, text_eq, contains, lookup, length, ◌>>=◌,
}
use itaruby.Types.{ClassId}
use itaruby.Index.{ClassDef, ProjectIndex}
use itaruby.Index.Names.{strip_prefix, separator, has_separator, qualified, second_last}
use itaruby.Index.Resolve.{class, shadowed, resolve_const}

-- `.filter(|&r| r != id)`
abbrev pub other_than : ClassId → Option ClassId → Option ClassId
other_than id none = none
other_than id (some r) = if r == id then none else some r

-- The loop over `nesting.iter().rev()` in `resolve_superclass_lexical`.
pub superclass_levels : ProjectIndex → ClassId → Text → List Text → Option (Option ClassId)
superclass_levels index id name [] = some none
superclass_levels index id name (level ∷ levels) =
    let rest = superclass_levels index id name levels in
    elim (lookup (qualified level name) index.by_path) [
      | some found ↦ if found == id then rest else some (some found)
      | none ↦
          if has_separator name
          then rest
          else (shadowed index level name >>= λ hit. if hit then some none else rest)
    ]

unfoldable pub resolve_superclass_lexical :
    ProjectIndex → ClassId → List Text → Text → Option (Option ClassId)
unfolding superclass_levels
resolve_superclass_lexical index id nesting name = elim (strip_prefix separator name) [
  | some rest ↦ some (other_than id (lookup rest index.by_path))
  | none ↦ superclass_levels index id name (reverse nesting)
]

abbrev pub Chain : Type 0
Chain = List ClassId × Bool

-- `chain.into_iter().find_map(…)` in `resolve_superclass_ancestor`
pub find_nested : ProjectIndex → ClassId → Text → List ClassId → Option (Option ClassId)
find_nested index id name [] = some none
find_nested index id name (a ∷ chain) =
    let rest = find_nested index id name chain in
    class index a >>= λ c. elim (other_than id (lookup (qualified c.path name) index.by_path)) [
      | some r ↦ some (some r)
      | none ↦ rest
    ]

-- `self.superclass_nesting.get(&id).map_or(nesting, Vec::as_slice)`
abbrev pub header_nesting : ProjectIndex → ClassId → List Text → List Text
header_nesting index id nesting = elim (lookup id index.superclass_nesting) [
  | none ↦ nesting
  | some n ↦ n
]

-- `ancestors` is the linearization that the enclosing class is given.
module _ (ancestors : ClassId → Option Chain) (index : ProjectIndex) where
  unfoldable pub resolve_superclass_ancestor : ClassId → List Text → Text → Option (Option ClassId)
  unfolding find_nested
  resolve_superclass_ancestor id nesting name = elim (second_last nesting) [
    | none ↦ some none
    | some enclosing ↦ elim (lookup enclosing index.by_path) [
      | none ↦ some none
      | some enclosing_id ↦ ancestors enclosing_id >>= λ chain. find_nested index id name chain.0
    ]
  ]

  unfoldable pub resolve_superclass_fallback : ClassId → List Text → Text → Option (Option ClassId)
  unfolding resolve_superclass_ancestor
  resolve_superclass_fallback id nesting name =
      resolve_superclass_ancestor id nesting name
      >>= elim [ some r ↦ some (some r) | none ↦ some (other_than id (lookup name index.by_path)) ]

  unfoldable pub resolve_superclass_header : ClassId → List Text → Text → Option (Option ClassId)
  unfolding resolve_superclass_fallback resolve_superclass_lexical
  resolve_superclass_header id nesting name =
      resolve_superclass_lexical index id nesting name
      >>= elim [ some r ↦ some (some r) | none ↦ resolve_superclass_fallback id nesting name ]

  unfoldable pub resolve_superclass_const : ClassId → List Text → Text → Option (Option ClassId)
  unfolding resolve_superclass_header
  resolve_superclass_const id nesting name =
      resolve_superclass_header id (header_nesting index id nesting) name

-- `out`, `visited` and `complete` of `linearize`.
pub record Walk : Type 0 where
  pub out : List ClassId
  pub visited : List ClassId
  pub complete : Bool

abbrev pub incomplete : Walk → Walk
incomplete w = record w { complete = false }

-- A resolved parent is walked; an unresolved one makes the chain incomplete.
abbrev pub walk_parent : (ClassId → Walk → Option Walk) → Option ClassId → Walk → Option Walk
walk_parent walk (some m) w = walk m w
walk_parent walk none w = some (incomplete w)

-- The loops over `prepends` and over `includes`.
pub walk_mixins :
    (ClassId → Walk → Option Walk) → ProjectIndex → List Text → List Text → Walk → Option Walk
walk_mixins walk index nesting [] w = some w
walk_mixins walk index nesting (name ∷ names) w = do
  parent ← resolve_const index nesting name
  w' ← walk_parent walk parent w
  walk_mixins walk index nesting names w'

abbrev pub enter : ProjectIndex → ClassId → Walk → Walk
enter index id w = record w {
  visited = id ∷ w.visited;
  complete = w.complete && not (contains index.ambiguous_ancestry id);
}

abbrev pub push : ClassId → Walk → Walk
push id w = record w { out = w.out ++ (id ∷ []) }

pub walk_superclass :
    (ClassId → Walk → Option Walk)
    → (ClassId → List Text → Text → Option (Option ClassId))
    → ClassId
    → ClassDef
    → Option Text
    → Walk
    → Option Walk
walk_superclass walk resolve id c none w = some w
walk_superclass walk resolve id c (some sc) w = do
  parent ← resolve id c.nesting sc
  walk_parent walk parent w

-- The body of `linearize` for a class that is not visited yet.
pub walk_class :
    (ClassId → Walk → Option Walk)
    → (ClassId → List Text → Text → Option (Option ClassId))
    → ProjectIndex
    → ClassId
    → ClassDef
    → Walk
    → Option Walk
walk_class walk resolve index id c w = do
  w₁ ← walk_mixins walk index c.nesting (reverse c.prepends) (enter index id w)
  w₂ ← walk_mixins walk index c.nesting (reverse c.includes) (push id w₁)
  walk_superclass walk resolve id c c.superclass w₂

unfoldable pub linearize :
    (ClassId → List Text → Text → Option (Option ClassId))
    → ProjectIndex
    → ℕ
    → ClassId
    → Walk
    → Option Walk
unfolding walk_class walk_mixins walk_superclass
linearize resolve index zero id w = none
linearize resolve index (suc fuel) id w =
    if contains w.visited id
    then some w
    else (class index id >>= λ c. walk_class (linearize resolve index fuel) resolve index id c w)

abbrev pub start : Walk
start = record { out = []; visited = []; complete = true }

unfoldable pub ancestors : ℕ → ProjectIndex → ClassId → Option Chain
unfolding linearize resolve_superclass_const
ancestors zero index id = none
ancestors (suc depth) index id =
    linearize (resolve_superclass_const (ancestors depth index) index) index
      (suc (length index.classes)) id start
    >>= λ w. some (w.out, w.complete)
