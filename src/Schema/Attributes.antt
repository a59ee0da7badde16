-- ===== src/Schema/Attributes.antt =====
-- What apply_schema_attributes of crates/itaruby_semantic/src/schema.rs does to the methods of a class.
use itaruby.Base.{
  ℕ, zero, suc, Bool, false, not, ◌||◌, List, [], ◌∷◌, Option, none, some, Text, ◌==◌, nat_eq,
  text_eq, lookup, lookup-insert, map, any, ◌≡◌, refl, ◌∙◌, inl, inr, Bool-cases, Option-cases,
  beq-cases, beq_refl, Memᴰ, get_elem?, arith, ◌⊎◌,
}
use mathlib.Core.Option.{some-injective}
use itaruby.Index.{SourceFile, MethodSig, ClassDef, ProjectIndex}
use itaruby.Schema.Columns.{HasColumns, columns_of-HasColumns}
use itaruby.Schema.{
  SchemaColumn, SchemaIndex, reader, writer, or_insert, setter_name, add_columns, table_of,
  is_ar_model, columns_of, with_columns, apply_schema_attributes,
}

abbrev pub is_attribute : Text → Text × SchemaColumn → Bool
is_attribute name (col_name, col) = (col_name == name) || (setter_name col_name == name)

-- What a name of the class stands for before and after the columns are added.
pub data Attribute (file : SourceFile) (columns : List (Text × SchemaColumn)) (name : Text)
    (before after : Option MethodSig) : Type 0 where
  kept :
      (m : MethodSig) → before ≡ some m → after ≡ some m → Attribute file columns name before after
  read :
      (col : SchemaColumn)
      → Memᴰ (name, col) columns
      → before ≡ none
      → after ≡ some (reader file col)
      → Attribute file columns name before after
  written :
      (col_name : Text) (col : SchemaColumn)
      → Memᴰ (col_name, col) columns
      → setter_name col_name ≡ name
      → before ≡ none
      → after ≡ some (writer file col)
      → Attribute file columns name before after
  absent :
      any (is_attribute name) columns ≡ false
      → before ≡ none
      → after ≡ none
      → Attribute file columns name before after

lookup-or_insert_kept :
    (k n : Text) (m old : MethodSig) (methods : List (Text × MethodSig))
    → lookup n methods ≡ some old
    → lookup n (or_insert k m methods) ≡ some old
lookup-or_insert_kept k n m old methods h = elim (Option-cases (lookup k methods)) [
  | inr (w, q) ↦ rw (or_insert, q) h
  | inl q ↦ elim (beq-cases k n) [
    | inl e ↦ cc
    | inr d ↦ rw (or_insert, q) (lookup-insert k n m methods ∙ rw d h)
  ]
]

lookup-or_insert_same :
    (n : Text) (m : MethodSig) (methods : List (Text × MethodSig))
    → lookup n methods ≡ none
    → lookup n (or_insert n m methods) ≡ some m
lookup-or_insert_same n m methods h =
    rw (or_insert, h) (lookup-insert n n m methods ∙ rw (beq_refl n) refl)

lookup-or_insert_other :
    (k n : Text) (m : MethodSig) (methods : List (Text × MethodSig))
    → (k == n) ≡ false
    → lookup n (or_insert k m methods) ≡ lookup n methods
lookup-or_insert_other k n m methods d = elim (Option-cases (lookup k methods)) [
  | inr (w, q) ↦ rw (or_insert, q) refl
  | inl q ↦ rw (or_insert, q) (lookup-insert k n m methods ∙ rw d refl)
]

List-cases : {A : Type 0} (xs : List A) → (xs ≡ []) ⊎ ((y : A) × (ys : List A) × (xs ≡ y ∷ ys))
List-cases [] = inl refl
List-cases (y ∷ ys) = inr (y, ys, refl)

get_elem?-map :
    {A : Type 0} (f : A → A) (xs : List A) (i : ℕ) {x : A}
    → get_elem? xs i ≡ some x
    → get_elem? (map f xs) i ≡ some (f x)
get_elem?-map f [] i h = cc
get_elem?-map f (y ∷ xs) zero h = rw (some-injective _ _ h) refl
get_elem?-map f (y ∷ xs) (suc i) h = get_elem?-map f xs i h

add_columns-keeps :
    (file : SourceFile) (columns : List (Text × SchemaColumn)) (methods : List (Text × MethodSig))
    (n : Text) (old : MethodSig)
    → lookup n methods ≡ some old
    → lookup n (add_columns file columns methods) ≡ some old
unfolding add_columns
add_columns-keeps file [] methods n old h = h
add_columns-keeps file ((x, col) ∷ columns) methods n old h =
    add_columns-keeps file columns _ n old (
      lookup-or_insert_kept (setter_name x) n (writer file col) old _
        (lookup-or_insert_kept x n (reader file col) old methods h))

later :
    (file : SourceFile) (columns : List (Text × SchemaColumn)) (c : Text × SchemaColumn) (n : Text)
    (between before after : Option MethodSig)
    → between ≡ none
    → before ≡ none
    → is_attribute n c ≡ false
    → Attribute file columns n between after
    → Attribute file (c ∷ columns) n before after
later file columns c n between before after h b other (kept m p q) = cc
later file columns c n between before after h b other (read col m p q) = read col (Memᴰ.tail m) b q
later file columns c n between before after h b other (written x col m e p q) =
    written x col (Memᴰ.tail m) e b q
later file columns c n between before after h b other (absent a p q) =
    absent (ground (arith, a, other)) b q

add_columns-Attribute :
    (file : SourceFile) (columns : List (Text × SchemaColumn)) (methods : List (Text × MethodSig))
    (n : Text)
    → lookup n methods ≡ none
    → Attribute file columns n (lookup n methods) (lookup n (add_columns file columns methods))
unfolding add_columns
add_columns-Attribute file [] methods n h = absent refl h h
add_columns-Attribute file ((x, col) ∷ columns) methods n h = elim (beq-cases x n) [
  | inl e ↦ read col (Memᴰ.head (rw e refl)) h (
      add_columns-keeps file columns _ n (reader file col) (
        lookup-or_insert_kept (setter_name x) n (writer file col) (reader file col) _
          (rw e (lookup-or_insert_same n (reader file col) methods h))))
  | inr d ↦
      let unread = lookup-or_insert_other x n (reader file col) methods d ∙ h in
      elim (beq-cases (setter_name x) n) [
        | inl e ↦ written x col (Memᴰ.head refl) e h (
            add_columns-keeps file columns _ n (writer file col)
              (rw e (lookup-or_insert_same n (writer file col) _ unread)))
        | inr w ↦
            let unwritten =
              lookup-or_insert_other (setter_name x) n (writer file col)
                (or_insert x (reader file col) methods) w
              ∙ unread in
            later file columns (x, col) n _ _ _ unwritten h (ground (arith, d, w))
              (add_columns-Attribute file columns _ n unwritten)
      ]
]

add_columns-Attribute_of :
    (file : SourceFile) (columns : List (Text × SchemaColumn)) (methods : List (Text × MethodSig))
    (n : Text)
    → Attribute file columns n (lookup n methods) (lookup n (add_columns file columns methods))
add_columns-Attribute_of file columns methods n = elim (Option-cases (lookup n methods)) [
  | inl h ↦ add_columns-Attribute file columns methods n h
  | inr (old, h) ↦ kept old h (add_columns-keeps file columns methods n old h)
]

module _ (is_uppercase is_lowercase : ℕ → Bool) (to_lowercase : ℕ → Text) where
  columns_of-no_tables :
      (schema : SchemaIndex) (c : ClassDef)
      → schema.tables ≡ []
      → columns_of is_uppercase is_lowercase to_lowercase schema c ≡ []
  columns_of-no_tables schema c h = elim (Bool-cases (c.is_module || not (is_ar_model c))) [
    | inl t ↦ rw (columns_of, t) refl
    | inr f ↦ elim (Option-cases (table_of is_uppercase is_lowercase to_lowercase c)) [
      | inl q ↦ rw (columns_of, f, q) refl
      | inr (name, q) ↦ rw (columns_of, f, q, h) refl
    ]
  ]

  -- If a place of the class table holds a class, then after apply_schema_attributes it holds a
  -- class like it but for its methods, in which a method name stands for what it stood for before;
  -- or, if it stood for nothing, for the reader of a column of the class if it is the column's
  -- name, or for the writer if it is the name of the setter; or for nothing if no column has it.
  -- The columns are those of the table that the class names, or of the one of the convention if it
  -- names none; a module, a class that is no model, one with a dynamic table name, and one whose
  -- table is not in the schema have none.
  pub apply_schema_attributes-Attribute :
      (index : ProjectIndex) (schema : SchemaIndex) (file : SourceFile) (i : ℕ) (c : ClassDef)
      (name : Text)
      → get_elem? index.classes i ≡ some c
      → (columns : List (Text × SchemaColumn)) × (methods : List (Text × MethodSig)) × HasColumns
          is_uppercase is_lowercase to_lowercase schema c columns
        × (get_elem?
              (apply_schema_attributes is_uppercase is_lowercase to_lowercase index schema
                file).classes
              i
            ≡ some (record c { methods = methods }))
        × Attribute file columns name (lookup name c.methods) (lookup name methods)
  unfolding apply_schema_attributes
  apply_schema_attributes-Attribute index schema file i c name h =
      let columns = columns_of is_uppercase is_lowercase to_lowercase schema c in
      let has = columns_of-HasColumns is_uppercase is_lowercase to_lowercase schema c in
      elim (List-cases schema.tables) [
        | inl q ↦ (
          columns,
          c.methods,
          has,
          rw (apply_schema_attributes, q) h,
          rw (columns_of-no_tables schema c q) (add_columns-Attribute_of file [] c.methods name),
        )
        | inr (t, ts, q) ↦ (
          columns,
          add_columns file columns c.methods,
          has,
          rw (apply_schema_attributes, q)
              (get_elem?-map (with_columns is_uppercase is_lowercase to_lowercase schema file)
                index.classes i h),
          add_columns-Attribute_of file columns c.methods name,
        )
      ]
