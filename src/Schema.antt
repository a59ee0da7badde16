-- ===== src/Schema.antt =====
-- crates/itaruby_semantic/src/schema.rs: the attributes that the columns of a table give a model, from
-- the tables that were read. The case of a character is Unicode's, of which the three functions that the
-- program calls are parameters. A string is the list of its characters.
pub mod Columns
pub mod Attributes
mod Tests
use itaruby.Base.{
  ℕ, zero, suc, ◌+◌, Bool, true, false, not, ◌&&◌, ◌||◌, List, [], ◌∷◌, ◌++◌, Option, none, some,
  Text, codes, leb, ◌==◌, nat_eq, text_eq, if◌then◌else◌, contains, lookup, insert, map, any,
  reverse,
}
use itaruby.Rbs.{RbsTy, simple, RbsSig}
use itaruby.Index.{SourceFile, Span, MethodSig, TableNameDecl, ClassDef, ProjectIndex}
use itaruby.Index.Names.{last, separator}

pub record SchemaColumn : Type 0 where
  pub type_name : Text
  pub span : Span

pub record SchemaTable : Type 0 where
  pub columns : List (Text × SchemaColumn)

pub record SchemaIndex : Type 0 where
  pub tables : List (Text × SchemaTable)

abbrev pub one_of_names : List Text → Text → Bool
one_of_names names name = any (λ n. n == name) names

unfoldable pub col_rbs_ty : Text → RbsTy
col_rbs_ty type_name =
    if one_of_names (codes "string" ∷ codes "text" ∷ []) type_name
    then simple (codes "String")
    else if one_of_names (codes "integer" ∷ codes "bigint" ∷ []) type_name
    then simple (codes "Integer")
    else if type_name == codes "boolean"
    then simple (codes "bool")
    else simple (codes "untyped")

abbrev pub reader : SourceFile → SchemaColumn → MethodSig
reader schema_file col = record {
  required = 0;
  optional = 0;
  rest = false;
  keywords = [];
  kwrest = false;
  sig = some (record { params = []; ret = col_rbs_ty col.type_name; type_params = [] });
  sorbet_ret = none;
  arity_unknown = false;
  abstract_stub = false;
  file = schema_file;
  def_span = col.span;
  name_span = col.span;
  schema_col_type = none;
}

abbrev pub writer : SourceFile → SchemaColumn → MethodSig
writer schema_file col = record {
  required = 1;
  optional = 0;
  rest = false;
  keywords = [];
  kwrest = false;
  sig = some (record { params = []; ret = simple (codes "void"); type_params = [] });
  sorbet_ret = none;
  arity_unknown = false;
  abstract_stub = false;
  file = schema_file;
  def_span = col.span;
  name_span = col.span;
  schema_col_type = some col.type_name;
}

-- `entry(name).or_insert_with(…)`
abbrev pub or_insert : Text → MethodSig → List (Text × MethodSig) → List (Text × MethodSig)
or_insert name m methods = elim (lookup name methods) [
  | some old ↦ methods
  | none ↦ insert name m methods
]

-- `format!("{col_name}=")`
abbrev pub setter_name : Text → Text
setter_name col_name = col_name ++ codes "="

-- The loop over the columns of a table.
unfoldable pub add_columns :
    SourceFile → List (Text × SchemaColumn) → List (Text × MethodSig) → List (Text × MethodSig)
add_columns schema_file [] methods = methods
add_columns schema_file ((col_name, col) ∷ columns) methods = add_columns schema_file columns (
    or_insert (setter_name col_name) (writer schema_file col)
      (or_insert col_name (reader schema_file col) methods))

-- `pluralize`
abbrev pub is_vowel : ℕ → Bool
is_vowel c = contains (codes "aeiou") c

-- The plural of a word, from its characters in reverse order, in reverse order.
abbrev pub plural_reversed : Text → Text
plural_reversed (c ∷ d ∷ word) =
    if c == b'y' && not (is_vowel d)
    then codes "sei" ++ (d ∷ word)
    else if contains (codes "sxz") c || c == b'h' && (d == b'c' || d == b's')
    then codes "se" ++ (c ∷ d ∷ word)
    else b's' ∷ c ∷ d ∷ word
plural_reversed (c ∷ []) =
    if contains (codes "sxz") c then codes "se" ++ (c ∷ []) else b's' ∷ c ∷ []
plural_reversed [] = codes "s"

unfoldable pub pluralize : Text → Text
pluralize word = reverse (plural_reversed (reverse word))

-- `class_path.rsplit("::").next()`, from the end of the path.
unfoldable pub last_segment : Text → Text → Text
last_segment segment [] = segment
last_segment segment (c ∷ []) = c ∷ segment
last_segment segment (c ∷ d ∷ path) = elim (c == b':' && d == b':') [
  | true ↦ segment
  | false ↦ last_segment (c ∷ segment) (d ∷ path)
]

abbrev pub is_ar_model : ClassDef → Bool
is_ar_model class = elim class.superclass [
  | none ↦ false
  | some superclass ↦
      one_of_names (codes "ApplicationRecord" ∷ codes "ActiveRecord::Base" ∷ []) superclass
]

module _ (is_uppercase is_lowercase : ℕ → Bool) (to_lowercase : ℕ → Text) where
  abbrev pub next_is_lower : Text → Bool
  next_is_lower [] = false
  next_is_lower (c ∷ name) = is_lowercase c

  -- `i > 0 && …` for the character before
  abbrev pub word_break : Option ℕ → Text → Bool
  word_break none name = false
  word_break (some before) name =
      is_lowercase before || (leb b'0' before && leb before b'9') || next_is_lower name

  -- The loop of `snake_case`.
  unfoldable pub snake_from : Option ℕ → Text → Text
  snake_from before [] = []
  snake_from before (c ∷ name) =
      let rest = snake_from (some c) name in
      if is_uppercase c
      then (if word_break before name
          then b'_' ∷ (to_lowercase c ++ rest)
          else to_lowercase c ++ rest)
      else c ∷ rest

  unfoldable pub derive_table_name : Text → Text
  unfolding snake_from pluralize last_segment
  derive_table_name class_path = pluralize (snake_from none (last_segment [] (reverse class_path)))

  abbrev pub table_of : ClassDef → Option Text
  table_of class = elim class.table_name [
    | some TableNameDecl.dynamic ↦ none
    | some (TableNameDecl.literal name) ↦ some name
    | none ↦ some (derive_table_name class.path)
  ]

  -- The columns that the loop over the classes gives a class: none where it continues.
  abbrev pub columns_of : SchemaIndex → ClassDef → List (Text × SchemaColumn)
  columns_of schema class =
      if class.is_module || not (is_ar_model class) then [] else elim (table_of class) [
        | none ↦ []
        | some table_name ↦ elim (lookup table_name schema.tables) [
          | none ↦ []
          | some table ↦ table.columns
        ]
      ]

  abbrev pub with_columns : SchemaIndex → SourceFile → ClassDef → ClassDef
  with_columns schema schema_file class = record class {
    methods = add_columns schema_file (columns_of schema class) class.methods;
  }

  unfoldable pub apply_schema_attributes : ProjectIndex → SchemaIndex → SourceFile → ProjectIndex
  unfolding add_columns
  apply_schema_attributes index schema schema_file = elim schema.tables [
    | [] ↦ index
    | ◌∷◌ table tables ↦ record index {
      classes = map (with_columns schema schema_file) index.classes;
    }
  ]
