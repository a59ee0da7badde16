-- ===== src/Index/Ancestors/Super.antt =====
-- In a valid index the resolution of a superclass comes to an answer, if the enclosing class has
-- a linearization.
use itaruby.Base.{
  List, [], ◌∷◌, reverse, Option, none, some, Text, ◌==◌, ◌≡◌, inl, inr, refl, ◌∙◌, arith, lookup,
  nat_eq, text_eq, Bool-cases, beq_refl, Option-cases, ◌>>=◌,
}
use itaruby.Types.{ClassId}
use itaruby.Index.{ProjectIndex}
use itaruby.Index.Names.{strip_prefix, separator, qualified, second_last}
use itaruby.Index.Valid.{IsValid}
use itaruby.Index.Resolve.Total.{IsClass, AreClass, Resolves, lookup-AreClass, level-Resolves}
use itaruby.Index.Ancestors.{
  Chain, other_than, superclass_levels, resolve_superclass_lexical, find_nested,
  resolve_superclass_ancestor, resolve_superclass_fallback, resolve_superclass_header,
}
use itaruby.Index.Ancestors.Grows.{In}

module _ (index : ProjectIndex) (valid : IsValid index) where
  other_than-AreClass :
      (id : ClassId) (r : Option ClassId)
      → AreClass index valid r
      → AreClass index valid (other_than id r)
  other_than-AreClass id none h = tt
  other_than-AreClass id (some r) h = elim (Bool-cases (r == id)) [
    | inl e ↦ rw (other_than, e) tt
    | inr n ↦ rw (other_than, n) h
  ]

  superclass_levels-Resolves :
      (id : ClassId) (name : Text) (levels : List Text)
      → Resolves index valid (superclass_levels index id name levels)
  unfolding superclass_levels
  superclass_levels-Resolves id name [] = (none, refl, tt)
  superclass_levels-Resolves id name (level ∷ levels) =
      let later = superclass_levels-Resolves id name levels in
      elim (Option-cases (lookup (qualified level name) index.by_path)) [
        | inl e ↦ rw (superclass_levels, e) (level-Resolves index valid level name _ later)
        | inr (found, e) ↦ elim (Bool-cases (found == id)) [
          | inl q ↦ rw (superclass_levels, e, q) later
          | inr q ↦
              rw (superclass_levels, e, q)
                (some found, refl, rw e at (lookup-AreClass index valid (qualified level name)))
        ]
      ]

  resolve_superclass_lexical-Resolves :
      (id : ClassId) (nesting : List Text) (name : Text)
      → Resolves index valid (resolve_superclass_lexical index id nesting name)
  unfolding resolve_superclass_lexical
  resolve_superclass_lexical-Resolves id nesting name =
      elim (Option-cases (strip_prefix separator name)) [
        | inr (rest, e) ↦
            rw (resolve_superclass_lexical, e)
              (
                other_than id (lookup rest index.by_path),
                refl,
                other_than-AreClass id _ (lookup-AreClass index valid rest),
              )
        | inl e ↦
            rw (resolve_superclass_lexical, e)
              (superclass_levels-Resolves id name (reverse nesting))
      ]

  find_nested-Resolves :
      (id : ClassId) (name : Text) (chain : List ClassId)
      → ((x : ClassId) → In x chain → IsClass index valid x)
      → Resolves index valid (find_nested index id name chain)
  unfolding find_nested
  find_nested-Resolves id name [] h = (none, refl, tt)
  find_nested-Resolves id name (a ∷ chain) h =
      let later = find_nested-Resolves id name chain (λ x i. h x (ground arith)) in
      let (c, is) = h a (rw (beq_refl a)) in
      let hit = other_than id (lookup (qualified c.path name) index.by_path) in
      elim (Option-cases hit) [
        | inl e ↦ rw (find_nested, is, ◌>>=◌, e) later
        | inr (r, e) ↦
            rw (find_nested, is, ◌>>=◌, e)
              (
                some r,
                refl,
                rw e at (
                    other_than-AreClass id _ (lookup-AreClass index valid (qualified c.path name))),
              )
      ]

  module _ (ancestors : ClassId → Option Chain) where
    -- The enclosing class, if the superclass has one, has a linearization, of classes.
    abbrev pub EnclosingDone : List Text → Type 0
    EnclosingDone nesting =
        (e : Text) (eid : ClassId)
        → second_last nesting ≡ some e
        → lookup e index.by_path ≡ some eid
        → (chain : Chain) × (ancestors eid ≡ some chain)
          × ((x : ClassId) → In x chain.0 → IsClass index valid x)

    resolve_superclass_ancestor-Resolves :
        (id : ClassId) (nesting : List Text) (name : Text)
        → EnclosingDone nesting
        → Resolves index valid (resolve_superclass_ancestor ancestors index id nesting name)
    unfolding resolve_superclass_ancestor
    resolve_superclass_ancestor-Resolves id nesting name done =
        elim (Option-cases (second_last nesting)) [
          | inl s ↦ rw (resolve_superclass_ancestor, s) (none, refl, tt)
          | inr (e, s) ↦ elim (Option-cases (lookup e index.by_path)) [
            | inl l ↦ rw (resolve_superclass_ancestor, s, l) (none, refl, tt)
            | inr (eid, l) ↦
                let (chain, a, h) = done e eid s l in
                rw (resolve_superclass_ancestor, s, l, a) (find_nested-Resolves id name chain.0 h)
          ]
        ]

    resolve_superclass_fallback-Resolves :
        (id : ClassId) (nesting : List Text) (name : Text)
        → EnclosingDone nesting
        → Resolves index valid (resolve_superclass_fallback ancestors index id nesting name)
    unfolding resolve_superclass_fallback
    resolve_superclass_fallback-Resolves id nesting name done =
        let (r, e, h) = resolve_superclass_ancestor-Resolves id nesting name done in
        elim (Option-cases r) [
          | inl n ↦
              rw (resolve_superclass_fallback, e, n)
                (
                  other_than id (lookup name index.by_path),
                  refl,
                  other_than-AreClass id _ (lookup-AreClass index valid name),
                )
          | inr (s, n) ↦ rw (resolve_superclass_fallback, e, n) (some s, refl, rw n at h)
        ]

    pub resolve_superclass_header-Resolves :
        (id : ClassId) (nesting : List Text) (name : Text)
        → (resolve_superclass_lexical index id nesting name ≡ some none → EnclosingDone nesting)
        → Resolves index valid (resolve_superclass_header ancestors index id nesting name)
    unfolding resolve_superclass_header
    resolve_superclass_header-Resolves id nesting name done =
        let (r, e, h) = resolve_superclass_lexical-Resolves id nesting name in
        elim (Option-cases r) [
          | inl n ↦
              rw (resolve_superclass_header, e, n)
                (resolve_superclass_fallback-Resolves id nesting name (done (e ∙ rw n)))
          | inr (s, n) ↦ rw (resolve_superclass_header, e, n) (some s, refl, rw n at h)
        ]
