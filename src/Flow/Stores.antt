-- ===== src/Flow/Stores.antt =====
-- A store gives each local variable its value. It agrees with an environment if each variable has
-- a value of its type; a variable without an entry is one that no branch has assigned, so it is nil.
use itaruby.Base.{
  Text, inl, inr, lookup, insert, lookup-insert, Option-cases, beq-cases, beq_refl, text_eq,
}
use itaruby.Types.{Ty, unknown, nil}
use itaruby.Types.Union.Meaning.{Has}
use itaruby.Flow.{Env, get_or}

module _ {V : Type 0} (Leaf : Ty → V → Type 0) where
  abbrev pub Agrees : (Text → V) → Env → Type 0
  Agrees σ env = (x : Text) → Has Leaf (get_or env x nil) (σ x)

  pub Agrees-insert :
      (σ : Text → V) (env : Env) (x : Text) (t : Ty)
      → Agrees σ env
      → Has Leaf t (σ x)
      → Agrees σ (insert x t env)
  Agrees-insert σ env x t h k y =
      rw (get_or, lookup-insert x y t env)
        (elim (beq-cases x y) [ inl e ↦ rw (← e) (rw (beq_refl x) k) | inr d ↦ rw d (h y) ])

  -- With `Unknown` in place of `Nil` for a variable that has no entry.
  pub Has-get_or_unknown :
      (σ : Text → V) (env : Env) (x : Text) → Agrees σ env → Has Leaf (get_or env x unknown) (σ x)
  Has-get_or_unknown σ env x h = elim (Option-cases (lookup x env)) [
    | inl e ↦ rw (get_or, e) tt
    | inr (t, e) ↦ rw (get_or, e) (rw (get_or, e) at (h x))
  ]
