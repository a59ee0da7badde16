-- ===== src/Schema/Tests.antt =====
-- Runs of the table names and of the attributes of a model, with the case of the ASCII letters.
use itaruby.Base.{
  ℕ, ◌+◌, Bool, true, false, ◌&&◌, List, [], ◌∷◌, Option, none, some, Text, codes, leb, nat_eq,
  text_eq, lookup, ◌≡◌, refl, get_elem?,
}
use itaruby.Index.{MethodSig, ClassDef, ProjectIndex}
use itaruby.Index.Resolve.{new_class}
use itaruby.Index.Tests.{save_method, app}
use itaruby.Schema.{
  SchemaColumn, SchemaIndex, reader, derive_table_name, apply_schema_attributes, pluralize,
}
use itaruby.Schema.Columns.{HasColumns}
use itaruby.Schema.Attributes.{Attribute, apply_schema_attributes-Attribute}

abbrev is_ascii_upper : ℕ → Bool
is_ascii_upper c = leb b'A' c && leb c b'Z'

abbrev is_ascii_lower : ℕ → Bool
is_ascii_lower c = leb b'a' c && leb c b'z'

abbrev ascii_lower : ℕ → Text
ascii_lower c = elim (is_ascii_upper c) [ true ↦ (c + 32) ∷ [] | false ↦ c ∷ [] ]

table_of_blog_post :
    derive_table_name is_ascii_upper is_ascii_lower ascii_lower (codes "Shop::BlogPost")
    ≡ codes "blog_posts"
unfolding derive_table_name
table_of_blog_post = refl

table_of_acronym :
    derive_table_name is_ascii_upper is_ascii_lower ascii_lower (codes "HTMLPage")
    ≡ codes "html_pages"
unfolding derive_table_name
table_of_acronym = refl

plural_in_ies : pluralize (codes "category") ≡ codes "categories"
unfolding pluralize
plural_in_ies = refl

plural_in_ys : pluralize (codes "day") ≡ codes "days"
unfolding pluralize
plural_in_ys = refl

plural_in_es : pluralize (codes "box") ≡ codes "boxes"
unfolding pluralize
plural_in_es = refl

abbrev user_class : ClassDef
user_class = record (new_class (codes "User")) {
  superclass = some (codes "ApplicationRecord");
  methods = (codes "name", save_method) ∷ [];
}

abbrev shop : ProjectIndex
shop = record app { classes = user_class ∷ [] }

abbrev name_column : SchemaColumn
name_column = record { type_name = codes "string"; span = (3, 7) }

abbrev age_column : SchemaColumn
age_column = record { type_name = codes "integer"; span = (13, 16) }

abbrev schema : SchemaIndex
schema = record {
  tables =
      (
        codes "users",
        record { columns = (codes "name", name_column) ∷ (codes "age", age_column) ∷ [] },
      )
      ∷ [];
}

abbrev attribute_of : Text → Option (Option MethodSig)
attribute_of name =
    elim (get_elem?
      (apply_schema_attributes is_ascii_upper is_ascii_lower ascii_lower shop schema 7).classes 0) [
        | none ↦ none
        | some c ↦ some (lookup name c.methods)
      ]

own_method_kept : attribute_of (codes "name") ≡ some (some save_method)
unfolding apply_schema_attributes derive_table_name
own_method_kept = refl

reader_added : attribute_of (codes "age") ≡ some (some (reader 7 age_column))
unfolding apply_schema_attributes derive_table_name
reader_added = refl

apply_schema_attributes-Attribute_example :
    (columns : List (Text × SchemaColumn)) × (methods : List (Text × MethodSig)) × HasColumns
      is_ascii_upper is_ascii_lower ascii_lower schema user_class columns
    × (get_elem?
          (apply_schema_attributes is_ascii_upper is_ascii_lower ascii_lower shop schema 7).classes
          0
        ≡ some (record user_class { methods = methods }))
    × Attribute 7 columns
        (codes "age")
        (lookup (codes "age") user_class.methods)
        (lookup (codes "age") methods)
apply_schema_attributes-Attribute_example =
    apply_schema_attributes-Attribute is_ascii_upper is_ascii_lower ascii_lower shop schema 7 0
      user_class (codes "age") refl
