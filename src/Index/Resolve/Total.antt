-- ===== src/Index/Resolve/Total.antt =====
-- In a valid index the resolution of a constant does not panic, and what it finds is a class.
use itaruby.Base.{
  Bool, false, List, [], ◌∷◌, reverse, Option, none, some, Text, if◌then◌else◌, ◌≡◌, inl, inr, refl,
  contains, lookup, nat_eq, text_eq, Bool-cases, Option-cases, ◌>>=◌,
}
use itaruby.Types.{ClassId}
use itaruby.Index.{ClassDef, ProjectIndex}
use itaruby.Index.Names.{strip_prefix, separator, has_separator, qualified}
use itaruby.Index.Resolve.{class, conflicting_const_scope, shadowed, resolve_levels, resolve_const}
use itaruby.Index.Valid.{IsValid}

module _ (index : ProjectIndex) (valid : IsValid index) where
  abbrev pub IsClass : ClassId → Type 0
  IsClass id = (c : ClassDef) × (class index id ≡ some c)

  abbrev pub AreClass : Option ClassId → Type 0
  AreClass none = Unit
  AreClass (some id) = IsClass id

  -- A resolution that comes to an answer, and to none but a class.
  abbrev pub Resolves : Option (Option ClassId) → Type 0
  Resolves o = (r : Option ClassId) × (o ≡ some r) × AreClass r

  pub lookup-AreClass : (path : Text) → AreClass (lookup path index.by_path)
  lookup-AreClass path = elim (Option-cases (lookup path index.by_path)) [
    | inl e ↦ rw e tt
    | inr (id, e) ↦ rw e (let (c, is, p) = valid.named path id e in (c, is))
  ]

  pub shadowed_total : (level name : Text) → (b : Bool) × (shadowed index level name ≡ some b)
  unfolding shadowed
  shadowed_total level name = elim (Option-cases (lookup level index.by_path)) [
    | inl e ↦ (false, rw (shadowed, e))
    | inr (id, e) ↦
        let (c, is, p) = valid.named level id e in (contains c.consts name, rw (shadowed, e, is))
  ]

  -- One level of the two lexical loops, when the level has no class of the name.
  pub level-Resolves :
      (level name : Text) (rest : Option (Option ClassId))
      → Resolves rest
      → Resolves (
          if has_separator name
          then rest
          else (shadowed index level name >>= λ hit. if hit then some none else rest))
  level-Resolves level name rest h = elim (Bool-cases (has_separator name)) [
    | inl s ↦ rw s h
    | inr s ↦
        let (b, e) = shadowed_total level name in
        rw (s, e) (elim (Bool-cases b) [ inl t ↦ rw t (none, refl, tt) | inr f ↦ rw f h ])
  ]

  resolve_levels-Resolves :
      (name : Text) (outside : Option ClassId) (levels : List Text)
      → AreClass outside
      → Resolves (resolve_levels index name outside levels)
  unfolding resolve_levels
  resolve_levels-Resolves name outside [] h = (outside, refl, h)
  resolve_levels-Resolves name outside (level ∷ levels) h =
      elim (Option-cases (lookup (qualified level name) index.by_path)) [
        | inr (id, e) ↦
            rw (resolve_levels, e) (some id, refl, rw e at (lookup-AreClass (qualified level name)))
        | inl e ↦
            rw (resolve_levels, e)
              (level-Resolves level name _ (resolve_levels-Resolves name outside levels h))
      ]

  -- In a table whose paths stand for classes with these paths, resolve_const never reads outside
  -- the table, for any nesting and name, and if it gives an id, the id is that of a class.
  pub resolve_const-Resolves :
      (nesting : List Text) (name : Text) → Resolves (resolve_const index nesting name)
  unfolding resolve_const
  resolve_const-Resolves nesting name = elim (Option-cases (strip_prefix separator name)) [
    | inr (rest, e) ↦ rw (resolve_const, e) (lookup rest index.by_path, refl, lookup-AreClass rest)
    | inl e ↦
        rw (resolve_const, e)
          (resolve_levels-Resolves name _ (reverse nesting)
            (elim (Bool-cases (conflicting_const_scope index nesting)) [
              | inl t ↦ rw t tt
              | inr f ↦ rw f (lookup-AreClass name)
            ]))
  ]
