-- ===== src/Schema/Columns.antt =====
-- Which columns apply_schema_attributes of crates/itaruby_semantic/src/schema.rs gives a class.
use itaruby.Base.{
  ℕ, Bool, true, false, List, [], ◌∷◌, none, some, Text, codes, text_eq, lookup, ◌≡◌, ◌↔◌, refl,
  sym, inl, inr, Bool-cases, Option-cases, beq-cases, ◌⊎◌,
}
use itaruby.Index.{ClassDef, TableNameDecl}
use itaruby.Schema.{
  SchemaColumn, SchemaTable, SchemaIndex, one_of_names, derive_table_name, table_of, is_ar_model,
  columns_of,
}

-- An ActiveRecord model, by what it names as its superclass.
abbrev pub IsModelSuperclass : Text → Type 0
IsModelSuperclass name = (name ≡ codes "ApplicationRecord") ⊎ (name ≡ codes "ActiveRecord::Base")

IsModelSuperclass-iff :
    (name : Text)
    → (one_of_names (codes "ApplicationRecord" ∷ codes "ActiveRecord::Base" ∷ []) name ≡ true)
      ↔ IsModelSuperclass name
IsModelSuperclass-iff name = (
  λ h. elim (beq-cases (codes "ApplicationRecord") name) [
    | inl e ↦ inl (sym e)
    | inr d ↦ elim (beq-cases (codes "ActiveRecord::Base") name) [
      | inl e ↦ inr (sym e)
      | inr f ↦ cc (rw (one_of_names, d, f) at h)
    ]
  ],
  λ k. elim k [ inl e ↦ rw e refl | inr e ↦ rw e refl ],
)

module _ (is_uppercase is_lowercase : ℕ → Bool) (to_lowercase : ℕ → Text) (schema : SchemaIndex)
    (c : ClassDef) where
  -- The table that the class names, or else the one of the convention.
  pub data IsTable (name : Text) : Type 0 where
    named : c.table_name ≡ some (TableNameDecl.literal name) → IsTable name
    derived :
        c.table_name ≡ none
        → name ≡ derive_table_name is_uppercase is_lowercase to_lowercase c.path
        → IsTable name

  -- Why a class has no columns.
  pub data NoColumns : Type 0 where
    a_module : c.is_module ≡ true → NoColumns
    no_superclass : c.superclass ≡ none → NoColumns
    no_model : (name : Text) → c.superclass ≡ some name → (IsModelSuperclass name → ⊥) → NoColumns
    dynamic_table : c.table_name ≡ some TableNameDecl.dynamic → NoColumns
    no_table : (name : Text) → IsTable name → lookup name schema.tables ≡ none → NoColumns

  -- The columns of the class.
  pub data HasColumns (columns : List (Text × SchemaColumn)) : Type 0 where
    none_of : NoColumns → columns ≡ [] → HasColumns columns
    of_table :
        c.is_module ≡ false
        → (superclass name : Text) → c.superclass ≡ some superclass
        → IsModelSuperclass superclass
        → IsTable name
        → (table : SchemaTable) → lookup name schema.tables ≡ some table
        → columns ≡ table.columns
        → HasColumns columns

  table_of-cases :
      (c.table_name ≡ some TableNameDecl.dynamic)
        × (table_of is_uppercase is_lowercase to_lowercase c ≡ none)
      ⊎ ((name : Text) × IsTable name
          × (table_of is_uppercase is_lowercase to_lowercase c ≡ some name))
  table_of-cases = elim (Option-cases c.table_name) [
    | inl e ↦ inr (
      derive_table_name is_uppercase is_lowercase to_lowercase c.path,
      derived e refl,
      rw (table_of, e) refl,
    )
    | inr (TableNameDecl.dynamic, e) ↦ inl (e, rw (table_of, e) refl)
    | inr (TableNameDecl.literal name, e) ↦ inr (name, named e, rw (table_of, e) refl)
  ]

  pub columns_of-HasColumns :
      HasColumns (columns_of is_uppercase is_lowercase to_lowercase schema c)
  columns_of-HasColumns = elim (Bool-cases c.is_module) [
    | inl m ↦ none_of (a_module m) (rw (columns_of, m) refl)
    | inr m ↦ elim (Option-cases c.superclass) [
      | inl n ↦ none_of (no_superclass n) (rw (columns_of, m, is_ar_model, n) refl)
      | inr (sup, s) ↦
          elim (Bool-cases
            (one_of_names (codes "ApplicationRecord" ∷ codes "ActiveRecord::Base" ∷ []) sup)) [
              | inr f ↦
                  none_of (no_model sup s (λ k. cc (f, (IsModelSuperclass-iff sup).1 k)))
                    (rw (columns_of, m, is_ar_model, s, f) refl)
              | inl t ↦ elim table_of-cases [
                | inl (d, q) ↦
                    none_of (dynamic_table d) (rw (columns_of, m, is_ar_model, s, t, q) refl)
                | inr (name, is, q) ↦ elim (Option-cases (lookup name schema.tables)) [
                  | inl l ↦
                      none_of (no_table name is l)
                        (rw (columns_of, m, is_ar_model, s, t, q, l) refl)
                  | inr (table, l) ↦
                      of_table m sup name s ((IsModelSuperclass-iff sup).0 t) is table l
                        (rw (columns_of, m, is_ar_model, s, t, q, l) refl)
                ]
              ]
            ]
    ]
  ]
