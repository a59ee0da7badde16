-- ===== src/Index/Resolve/Lexical.antt =====
-- The lexical rule of Ruby that `resolve_const` follows: the innermost level that has the name decides.
use itaruby.Base.{
  true, false, List, [], ◌∷◌, ◌++◌, reverse, Option, none, some, Text, ◌≡◌, ◌⊎◌, inl, inr, refl,
  sym, ◌∙◌, ap, contains, lookup, nat_eq, text_eq, Bool-cases, Option-cases, Every, every_nil,
  every_cons,
}
use mathlib.Core.List.{reverse-cons, reverse-reverse, append_assoc, append-nil}
use itaruby.Types.{ClassId}
use itaruby.Index.{ClassDef, ProjectIndex}
use itaruby.Index.Names.{strip_prefix, separator, has_separator, qualified}
use itaruby.Index.Resolve.{class, conflicting_const_scope, shadowed, resolve_levels, resolve_const}
use itaruby.Index.Valid.{IsValid}

module _ (index : ProjectIndex) (name : Text) where
  -- The class or module at this level has a constant of the name that is no class.
  pub record HasConst (level : Text) : Type 0 where
    pub id : ClassId
    pub def : ClassDef
    pub of_level : lookup level index.by_path ≡ some id
    pub is_class : class index id ≡ some def
    pub has : contains def.consts name ≡ true

  -- No class at this level, or one that has no such constant.
  pub data LacksConst (level : Text) : Type 0 where
    no_class : lookup level index.by_path ≡ none → LacksConst level
    lacks :
        (id : ClassId) (def : ClassDef)
        → lookup level index.by_path ≡ some id
        → class index id ≡ some def
        → contains def.consts name ≡ false
        → LacksConst level

  -- A level that has nothing of the name; of a path with `::` only the whole counts.
  pub record IsPassed (level : Text) : Type 0 where
    pub no_class : lookup (qualified level name) index.by_path ≡ none
    pub no_const : (has_separator name ≡ true) ⊎ LacksConst level

  -- The answer for a name without `::` at its head; `outside` is the answer outside every level.
  pub data Relative (nesting : List Text) (outside r : Option ClassId) : Type 0 where
    at_level :
        (outer inner : List Text) (level : Text) (id : ClassId)
        → nesting ≡ outer ++ (level ∷ inner)
        → Every IsPassed inner
        → lookup (qualified level name) index.by_path ≡ some id
        → r ≡ some id
        → Relative nesting outside r
    hidden :
        (outer inner : List Text) (level : Text)
        → nesting ≡ outer ++ (level ∷ inner)
        → Every IsPassed inner
        → lookup (qualified level name) index.by_path ≡ none
        → has_separator name ≡ false
        → HasConst level
        → r ≡ none
        → Relative nesting outside r
    beyond : Every IsPassed nesting → r ≡ outside → Relative nesting outside r

  pub data Lexical (nesting : List Text) (r : Option ClassId) : Type 0 where
    absolute :
        (rest : Text)
        → strip_prefix separator name ≡ some rest
        → r ≡ lookup rest index.by_path
        → Lexical nesting r
    conflicting :
        strip_prefix separator name ≡ none
        → conflicting_const_scope index nesting ≡ true
        → Relative nesting none r
        → Lexical nesting r
    plain :
        strip_prefix separator name ≡ none
        → conflicting_const_scope index nesting ≡ false
        → Relative nesting (lookup name index.by_path) r
        → Lexical nesting r

  module _ (valid : IsValid index) where
    const-cases :
        (level : Text)
        → (HasConst level × (shadowed index level name ≡ some true))
          ⊎ (LacksConst level × (shadowed index level name ≡ some false))
    unfolding shadowed
    const-cases level = elim (Option-cases (lookup level index.by_path)) [
      | inl e ↦ inr (no_class e, rw (shadowed, e))
      | inr (id, e) ↦
          let (c, is, p) = valid.named level id e in
          elim (Bool-cases (contains c.consts name)) [
            | inl h ↦ inl (
              record { id = id; def = c; of_level = e; is_class = is; has = h },
              rw (shadowed, e, is, h),
            )
            | inr h ↦ inr (lacks id c e is h, rw (shadowed, e, is, h))
          ]
    ]

    -- One level on, the level is the first of the inner ones.
    one_in :
        (nesting levels inner : List Text) (level : Text)
        → nesting ≡ reverse (level ∷ levels) ++ inner
        → nesting ≡ reverse levels ++ (level ∷ inner)
    one_in nesting levels inner level e =
        e
        ∙ ap (λ l. l ++ inner) (reverse-cons level levels)
        ∙ append_assoc (reverse levels) (level ∷ []) inner

    resolve_levels-Relative :
        (nesting inner levels : List Text) (outside : Option ClassId)
        → nesting ≡ reverse levels ++ inner
        → Every IsPassed inner
        → (r : Option ClassId) × (resolve_levels index name outside levels ≡ some r)
          × Relative nesting outside r
    unfolding resolve_levels
    resolve_levels-Relative nesting inner [] outside e passed =
        (outside, refl, beyond (rw e passed) refl)
    resolve_levels-Relative nesting inner (level ∷ levels) outside e passed =
        let split = one_in nesting levels inner level e in
        elim (Option-cases (lookup (qualified level name) index.by_path)) [
          | inr (id, l) ↦ (
            some id,
            rw (resolve_levels, l),
            at_level (reverse levels) inner level id split passed l refl,
          )
          | inl l ↦ elim (Bool-cases (has_separator name)) [
            | inl s ↦
                let here : IsPassed level = record { no_class = l; no_const = inl s } in
                let (r, q, k) =
                  resolve_levels-Relative nesting (level ∷ inner) levels outside split
                    (every_cons here passed) in
                (r, rw (resolve_levels, l, s) q, k)
            | inr s ↦ elim (const-cases level) [
              | inl (has, t) ↦ (
                none,
                rw (resolve_levels, l, s, t),
                hidden (reverse levels) inner level split passed l s has refl,
              )
              | inr (lack, t) ↦
                  let here : IsPassed level = record { no_class = l; no_const = inr lack } in
                  let (r, q, k) =
                    resolve_levels-Relative nesting (level ∷ inner) levels outside split
                      (every_cons here passed) in
                  (r, rw (resolve_levels, l, s, t) q, k)
            ]
          ]
        ]

    resolve-Relative :
        (nesting : List Text) (outside : Option ClassId)
        → (r : Option ClassId) × (resolve_levels index name outside (reverse nesting) ≡ some r)
          × Relative nesting outside r
    resolve-Relative nesting outside =
        resolve_levels-Relative nesting [] (reverse nesting) outside
          (sym (append-nil (reverse (reverse nesting)) ∙ reverse-reverse nesting)) every_nil

    -- In a table whose paths stand for classes with these paths, resolve_const returns for any
    -- nesting and name, and its answer is that of the lexical rule: a name with `::` at its head is
    -- looked up as the path that follows; else the innermost level decides that has a class of the
    -- name, or, for a name without `::`, a plain constant of it, which gives none; and if every
    -- level has neither, the answer is the class of that path outside all levels, but none if the
    -- innermost level has an ambiguous ancestry.
    pub resolve_const-Lexical :
        (nesting : List Text)
        → (r : Option ClassId) × (resolve_const index nesting name ≡ some r) × Lexical nesting r
    unfolding resolve_const
    resolve_const-Lexical nesting = elim (Option-cases (strip_prefix separator name)) [
      | inr (rest, e) ↦ (lookup rest index.by_path, rw (resolve_const, e), absolute rest e refl)
      | inl e ↦ elim (Bool-cases (conflicting_const_scope index nesting)) [
        | inl t ↦
            let (r, q, k) = resolve-Relative nesting none in
            (r, rw (resolve_const, e, t) q, conflicting e t k)
        | inr f ↦
            let (r, q, k) = resolve-Relative nesting (lookup name index.by_path) in
            (r, rw (resolve_const, e, f) q, plain e f k)
      ]
    ]
