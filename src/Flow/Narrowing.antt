-- ===== src/Flow/Narrowing.antt =====
-- Narrowing is sound: what a store satisfied before a test, it satisfies in the branch that the
-- test selects, with the narrowed types.
use itaruby.Base.{
  Bool, true, false, not, List, [], ◌∷◌, some, Text, ◌==◌, ◌≡◌, inl, inr, arith, any, filter,
  mem-filter, contains, Option-cases, Bool-cases, eq_of_beq, insert, text_eq,
}
use mathlib.Core.Path.{subst}
use mathlib.Core.Option.{some-injective}
use itaruby.Types.{Ty, unknown, nil, union_of, to_list}
use itaruby.Types.Equality.{ty_eq}
use itaruby.Types.Union.Meaning.{
  Has, HasIn, HasIn-of_mem, mem_of_HasIn, HasPart-iff, HasPart-from_list_iff,
}
use itaruby.Flow.{
  Env, ty_class_eq, remaining_member, remaining_type, eliminate_part, eliminate_union_member,
  strip_nil, NarrowKind, is_a, nil_check, truthy, nil_check_or_guard, Narrow, get_or, narrow_true,
  narrow_false, apply_narrow_true, apply_narrow_false,
}
use itaruby.Flow.Stores.{Agrees, Agrees-insert, Has-get_or_unknown}

module _ {V : Type 0} (Leaf : Ty → V → Type 0) where
  -- A value of no type that counts as the class of `tested`.
  abbrev pub IsNotA : Ty → V → Type 0
  IsNotA tested v = (p : Ty) → ty_class_eq p tested ≡ true → Has Leaf p v → ⊥

  Has-remaining_type : (ts : List Ty) (v : V) → HasIn Leaf ts v → Has Leaf (remaining_type ts) v
  Has-remaining_type [] v h = tt
  Has-remaining_type (t ∷ []) v h = elim h [ inl k ↦ k | inr k ↦ absurd k ]
  Has-remaining_type (t ∷ u ∷ ts) v h = (HasPart-from_list_iff Leaf (t ∷ u ∷ ts) v).1 h

  Has-remaining_member :
      (ts : List Ty) (v : V) {t : Ty}
      → remaining_member ts ≡ some t
      → HasIn Leaf ts v
      → Has Leaf t v
  Has-remaining_member [] v e h = absurd h
  Has-remaining_member (t ∷ []) v e h = elim h [
    | inl k ↦ subst (λ x. Has Leaf x v) (some-injective _ _ e) k
    | inr k ↦ absurd k
  ]
  Has-remaining_member (t ∷ u ∷ ts) v e h =
      subst (λ x. Has Leaf x v) (some-injective _ _ e)
        ((HasPart-from_list_iff Leaf (t ∷ u ∷ ts) v).1 h)

  -- Members that fail the test can be dropped.
  HasIn-filter :
      (keep : Ty → Bool) (ts : List Ty) (v : V)
      → ((p : Ty) → keep p ≡ false → Has Leaf p v → ⊥)
      → HasIn Leaf ts v
      → HasIn Leaf (filter keep ts) v
  HasIn-filter keep ts v out h =
      let (p, m, k) = mem_of_HasIn Leaf ts v h in
      elim (Bool-cases (keep p)) [
        | inl t ↦ HasIn-of_mem Leaf p (filter keep ts) v (mem-filter keep p ts m t) k
        | inr f ↦ absurd (out p f k)
      ]

  -- strip_nil keeps every value of a type but nil.
  pub Has-strip_nil :
      (t : Ty) (v : V) → Has Leaf t v → (Has Leaf nil v → ⊥) → Has Leaf (strip_nil t) v
  unfolding strip_nil
  Has-strip_nil nil v h other = tt
  Has-strip_nil (union_of ts) v h other = Has-remaining_type _ v (
      HasIn-filter (λ p. not (p == nil)) (to_list ts) v
        (λ p f k. other (rw (eq_of_beq p nil (ground arith)) at k)) ((HasPart-iff Leaf ts v).0 h))
  Has-strip_nil _ v h other = h

  eliminate_part-eq_some :
      (ts : List Ty) (tested : Ty) {t : Ty}
      → eliminate_part ts tested ≡ some t
      → remaining_member (filter (λ p. not (ty_class_eq p tested)) ts) ≡ some t
  unfolding eliminate_part
  eliminate_part-eq_some ts tested e = elim (Bool-cases (contains ts unknown)) [
    | inl c ↦ cc (rw c at e)
    | inr c ↦ elim (Bool-cases (any (λ p. ty_class_eq p tested) ts)) [
      | inl a ↦ rw (c, a) at e
      | inr a ↦ cc (rw (c, a) at e)
    ]
  ]

  pub Has-eliminate :
      (cur tested : Ty) (v : V) {t : Ty}
      → eliminate_union_member cur tested ≡ some t
      → Has Leaf cur v
      → IsNotA tested v
      → Has Leaf t v
  unfolding eliminate_union_member
  Has-eliminate (union_of ts) tested v e h out =
      Has-remaining_member _ v (eliminate_part-eq_some (to_list ts) tested e) (
        HasIn-filter (λ p. not (ty_class_eq p tested)) (to_list ts) v
          (λ p f k. out p (ground arith) k) ((HasPart-iff Leaf ts v).0 h))
  Has-eliminate _ tested v e h out = cc

  -- What the variable's value satisfies if the predicate is true, and if it is false.
  abbrev pub HoldsTrue : NarrowKind → V → Type 0
  HoldsTrue (is_a t) v = Has Leaf t v
  HoldsTrue nil_check v = Has Leaf nil v
  HoldsTrue truthy v = Has Leaf nil v → ⊥
  HoldsTrue nil_check_or_guard v = Unit

  abbrev pub HoldsFalse : NarrowKind → V → Type 0
  HoldsFalse (is_a t) v = IsNotA t v
  HoldsFalse nil_check v = Has Leaf nil v → ⊥
  HoldsFalse truthy v = Unit
  HoldsFalse nil_check_or_guard v = Has Leaf nil v → ⊥

  narrow_true-Agrees :
      (kind : NarrowKind) (x : Text) (σ : Text → V) (env : Env)
      → Agrees Leaf σ env
      → HoldsTrue kind (σ x)
      → Agrees Leaf σ (narrow_true kind x env)
  unfolding narrow_true
  narrow_true-Agrees (is_a t) x σ env h k = Agrees-insert Leaf σ env x t h k
  narrow_true-Agrees nil_check x σ env h k = Agrees-insert Leaf σ env x nil h k
  narrow_true-Agrees truthy x σ env h k =
      Agrees-insert Leaf σ env x _ h (Has-strip_nil _ (σ x) (Has-get_or_unknown Leaf σ env x h) k)
  narrow_true-Agrees nil_check_or_guard x σ env h k = h

  -- If a store agrees with an environment and the predicate of a narrowing fact is true of the
  -- variable's value, the store agrees with the environment that apply_narrow_true makes.
  pub apply_narrow_true-Agrees :
      (σ : Text → V) (env : Env) (nw : Narrow)
      → Agrees Leaf σ env
      → HoldsTrue nw.kind (σ nw.var)
      → Agrees Leaf σ (apply_narrow_true env nw)
  unfolding apply_narrow_true
  apply_narrow_true-Agrees σ env nw h k = narrow_true-Agrees nw.kind nw.var σ env h k

  strip-Agrees :
      (x : Text) (σ : Text → V) (env base : Env)
      → Agrees Leaf σ env
      → Agrees Leaf σ base
      → (Has Leaf nil (σ x) → ⊥)
      → Agrees Leaf σ (insert x (strip_nil (get_or base x unknown)) env)
  strip-Agrees x σ env base h b k =
      Agrees-insert Leaf σ env x _ h (Has-strip_nil _ (σ x) (Has-get_or_unknown Leaf σ base x b) k)

  narrow_false-Agrees :
      (kind : NarrowKind) (x : Text) (σ : Text → V) (env base : Env)
      → Agrees Leaf σ env
      → Agrees Leaf σ base
      → HoldsFalse kind (σ x)
      → Agrees Leaf σ (narrow_false kind x env base)
  unfolding narrow_false
  narrow_false-Agrees nil_check x σ env base h b k = strip-Agrees x σ env base h b k
  narrow_false-Agrees nil_check_or_guard x σ env base h b k = strip-Agrees x σ env base h b k
  narrow_false-Agrees truthy x σ env base h b k = h
  narrow_false-Agrees (is_a t) x σ env base h b k =
      elim (Option-cases (eliminate_union_member (get_or base x unknown) t)) [
        | inl e ↦ rw (narrow_false, e) h
        | inr (u, e) ↦
            rw (narrow_false, e)
              (Agrees-insert Leaf σ env x u h
                (Has-eliminate _ t (σ x) e (Has-get_or_unknown Leaf σ base x b) k))
      ]

  -- If a store agrees with an environment and with the one before the branch, and the predicate of
  -- a narrowing fact is false of the variable's value, the store agrees with the environment that
  -- apply_narrow_false makes.
  pub apply_narrow_false-Agrees :
      (σ : Text → V) (env : Env) (nw : Narrow) (base : Env)
      → Agrees Leaf σ env
      → Agrees Leaf σ base
      → HoldsFalse nw.kind (σ nw.var)
      → Agrees Leaf σ (apply_narrow_false env nw base)
  unfolding apply_narrow_false
  apply_narrow_false-Agrees σ env nw base h b k =
      narrow_false-Agrees nw.kind nw.var σ env base h b k
