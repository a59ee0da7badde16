-- ===== src/Index/Resolve.antt =====
-- crates/itaruby_semantic/src/index.rs: the class table and the lexical resolution of constants.
-- `none` of the outer `Option` is the panic of an index out of range.
pub mod Total
pub mod Lexical
use itaruby.Base.{
  ℕ, Bool, true, false, not, ◌&&◌, List, [], ◌∷◌, reverse, Option, none, some, Text, ◌==◌,
  if◌then◌else◌, nat_eq, text_eq, contains, lookup, insert, get_elem?, length, ◌++◌, ◌>>=◌, ◌%◌,
  ◌^◌,
}
use itaruby.Types.{ClassId}
use itaruby.Index.{ClassDef, ProjectIndex}
use itaruby.Index.Names.{strip_prefix, separator, has_separator, qualified, last}

abbrev pub new_class : Text → ClassDef
new_class path = record {
  path = path;
  nesting = [];
  is_module = false;
  is_open = false;
  open_reason = none;
  superclass = none;
  includes = [];
  prepends = [];
  extends = [];
  methods = [];
  singleton_methods = [];
  consts = [];
  table_name = none;
}

-- `as u32`
abbrev pub as_u32 : ℕ → ℕ
as_u32 n = n % 2 ^ 32

-- The id of the class with this path, which is added if it is not there.
unfoldable pub intern : ProjectIndex → Text → ProjectIndex × ClassId
intern index path = elim (lookup path index.by_path) [
  | some id ↦ (index, id)
  | none ↦
      let id = as_u32 (length index.classes) in
      (
        record index {
          classes = index.classes ++ (new_class path ∷ []);
          by_path = insert path id index.by_path;
        },
        id,
      )
]

-- `&self.classes[id.0 as usize]`
abbrev pub class : ProjectIndex → ClassId → Option ClassDef
class index id = get_elem? index.classes id

unfoldable pub conflicting_const_scope : ProjectIndex → List Text → Bool
conflicting_const_scope index nesting = elim (last nesting) [
  | none ↦ false
  | some scope ↦ elim (lookup scope index.by_path) [
    | none ↦ false
    | some id ↦ contains index.ambiguous_ancestry id
  ]
]

-- Whether the class at this lexical level has a plain constant `name`, which shadows outer scopes.
unfoldable pub shadowed : ProjectIndex → Text → Text → Option Bool
shadowed index level name = elim (lookup level index.by_path) [
  | none ↦ some false
  | some sid ↦ class index sid >>= λ c. some (contains c.consts name)
]

-- The loop over `nesting.iter().rev()` in `resolve_const`; `outside` is what follows the loop.
pub resolve_levels : ProjectIndex → Text → Option ClassId → List Text → Option (Option ClassId)
resolve_levels index name outside [] = some outside
resolve_levels index name outside (level ∷ levels) =
    let rest = resolve_levels index name outside levels in
    elim (lookup (qualified level name) index.by_path) [
      | some id ↦ some (some id)
      | none ↦
          if has_separator name
          then rest
          else (shadowed index level name >>= λ hit. if hit then some none else rest)
    ]

unfoldable pub resolve_const : ProjectIndex → List Text → Text → Option (Option ClassId)
unfolding resolve_levels
resolve_const index nesting name = elim (strip_prefix separator name) [
  | some rest ↦ some (lookup rest index.by_path)
  | none ↦
      let outside =
        if conflicting_const_scope index nesting then none else lookup name index.by_path in
      resolve_levels index name outside (reverse nesting)
]
