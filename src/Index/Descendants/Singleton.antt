-- ===== src/Index/Descendants/Singleton.antt =====
-- `descendant_defines` decides whether a descendant has the method or is open.
use itaruby.Base.{
  Bool, true, false, ◌||◌, some, Text, ◌≡◌, ◌↔◌, refl, inl, inr, bind-eq-some, Bool-cases,
}
use mathlib.Core.Option.{some-injective}
use itaruby.Types.{ClassId}
use itaruby.Index.{ClassDef, ProjectIndex}
use itaruby.Index.Resolve.{class}
use itaruby.Index.Descendants.{answers_descendant, descendant_defines, has_key, own_methods}
use itaruby.Index.Descendants.Search.{Kid, Descendant}
use itaruby.Index.Descendants.Search.Complete.{search_false, search_from-true}
use itaruby.Index.Descendants.Search.Total.{search_total}

-- Every entry of the subclass map stands for a class.
abbrev pub KidsAreClasses : ProjectIndex → Type 0
KidsAreClasses index =
    (x k : ClassId) → Kid index.subclasses x k → (c : ClassDef) × (class index k ≡ some c)

module _ (index : ProjectIndex) (name : Text) (singleton : Bool) where
  -- The class is open, or has the method.
  abbrev pub Answers : ClassId → Type 0
  Answers d =
      (c : ClassDef) × (class index d ≡ some c)
      × ((c.is_open || has_key name (own_methods singleton c)) ≡ true)

  Answers-Answers :
      (d : ClassId) → answers_descendant index name singleton d ≡ some true → Answers d
  unfolding answers_descendant
  Answers-Answers d e =
      let (c, is, q) = bind-eq-some (class index d) _ e in (c, is, some-injective _ _ q)

  not-Answers :
      (d : ClassId) → answers_descendant index name singleton d ≡ some false → Answers d → ⊥
  unfolding answers_descendant
  not-Answers d e (c, is, t) = cc (rw (is, t) at e)

  test_total :
      (d : ClassId)
      → (c : ClassDef) × (class index d ≡ some c)
      → (b : Bool) × (answers_descendant index name singleton d ≡ some b)
  unfolding answers_descendant
  test_total d (c, is) = (c.is_open || has_key name (own_methods singleton c), rw is refl)

  -- When every subclass in the map stands for a class, descendant_defines comes to an answer within
  -- its bound, and it answers true exactly if some proper descendant of the class, at any depth, is
  -- open or has the method.
  pub descendant_defines-decides :
      (id : ClassId)
      → KidsAreClasses index
      → (b : Bool) × (descendant_defines index id name singleton ≡ some b)
        × ((b ≡ true) ↔ ((d : ClassId) × Descendant index.subclasses id d × Answers d))
  unfolding descendant_defines
  descendant_defines-decides id kids =
      let test = answers_descendant index name singleton in
      let (b, e) =
        search_total test index.subclasses id (λ d (x, r, k). test_total d (kids x d k)) in
      (
        b,
        e,
        (
          (λ t.
              let (d, h, q) = search_from-true test index.subclasses id (rw t at e) in
              (d, h, Answers-Answers d q)),
          (λ (d, h, a). elim (Bool-cases b) [
            | inl t ↦ t
            | inr f ↦
                absurd (not-Answers d (search_false test index.subclasses id (rw f at e) d h) a)
          ]),
        ),
      )
