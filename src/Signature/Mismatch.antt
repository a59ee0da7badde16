-- ===== src/Signature/Mismatch.antt =====
-- An argument that `compatible` refuses is refused for a reason: some value of its type is no value of
-- the type of the parameter.
use mathlib.Core.Path.{ap}
use mathlib.Core.Option.{some-injective}
use itaruby.Base.{
  Bool, true, false, not, ◌||◌, List, Option, some, ◌==◌, ◌≡◌, refl, inl, inr, nat_eq, contains,
  contains_iff, beq_refl, beq-cases, bind-eq-some, arith,
}
use itaruby.Types.{
  ClassId, Ty, Tys, unknown, nil, bool, int, float, str, sym, instance_of, class_of, array, hash,
  union_of, end, part,
}
use itaruby.Types.Equality.{ty_eq}
use itaruby.Types.Union.Normal.{IsMember}
use itaruby.Index.Ancestors.{Chain}
use itaruby.Signature.{instance_test, compatible, all_compatible}
use itaruby.Signature.Values.{
  Value, the_nil, a_bool, an_int, a_float, a_str, a_sym, an_object, a_class, an_array, a_hash, IsA,
  HasType, HasOne,
}
use itaruby.Signature.Containers.{
  IsProper, AreProper, one_refuses, against-refutes, array-refutes, hash-refutes, Separated,
}

-- The values that have one known type only, and that type.
abbrev ty_of : Value → Ty
ty_of the_nil = nil
ty_of a_bool = bool
ty_of an_int = int
ty_of a_float = float
ty_of a_str = str
ty_of a_sym = sym
ty_of (a_class c) = class_of c
ty_of _ = unknown

abbrev IsPlain : Value → Type 0
IsPlain (an_object c) = ⊥
IsPlain (an_array vs) = ⊥
IsPlain (a_hash es) = ⊥
IsPlain _ = Unit

module _ (ancestors : ClassId → Option Chain) where
  outside_chain :
      (a p : ClassId) (chain : List ClassId) (complete : Bool)
      → ancestors a ≡ some (chain, complete)
      → contains chain p || not complete ≡ false
      → (a == p) ≡ false
      → ¬ IsA ancestors a p
  outside_chain a p chain false f g differ h = absurd (ground (arith, g))
  outside_chain a p chain true f g differ h = elim (h chain f) [
    | inl same ↦ cc (same, differ, beq_refl p)
    | inr m ↦ cc (g, (contains_iff chain p).1 m)
  ]

  instance-refutes :
      (a : ClassId) (q : Ty)
      → IsMember q
      → instance_test ancestors a q ≡ some false
      → ¬ HasType ancestors q (an_object a)
  instance-refutes a (instance_of p) m e h = elim (beq-cases a p) [
    | inl same ↦ absurd (cc (e, same, beq_refl p))
    | inr differ ↦
        let ((chain, complete), f, g) = bind-eq-some (ancestors a) _ (rw differ at e) in
        outside_chain a p chain complete f (some-injective _ _ g) differ h
  ]
  instance-refutes a unknown m e h = m
  instance-refutes a (union_of ps) m e h = m
  instance-refutes a _ m e h = h

  only_type : (v : Value) (q : Ty) → IsPlain v → IsMember q → HasType ancestors q v → ty_of v ≡ q
  only_type v unknown p m h = absurd m
  only_type v (union_of ts) p m h = absurd m
  only_type the_nil nil p m h = refl
  only_type a_bool bool p m h = refl
  only_type an_int int p m h = refl
  only_type a_float float p m h = refl
  only_type a_str str p m h = refl
  only_type a_sym sym p m h = refl
  only_type (a_class c) (class_of d) p m h = ap class_of h
  only_type (an_object c) q p m h = absurd p
  only_type (an_array vs) q p m h = absurd p
  only_type (a_hash es) q p m h = absurd p
  only_type _ _ p m h = absurd h

  plain-refutes :
      (v : Value)
      → IsPlain v
      → (q : Ty) → IsMember q
      → some (ty_of v == q) ≡ some false
      → ¬ HasType ancestors q v
  plain-refutes v p q m e h =
      let same = only_type v q p m h in cc (some-injective _ _ e, same, beq_refl q)

  mutual
    unfolding compatible

    refused : (t : Ty) → IsProper t → Separated ancestors t
    refused unknown proper q e = absurd (cc e)
    refused (union_of end) proper q e = absurd proper
    refused (union_of (part t ts)) proper unknown e = absurd (cc e)
    refused (union_of (part t ts)) proper q e = refused_members (part t ts) proper q e
    refused (array t) proper q e =
        let (vs, h, excluded) = array-refutes ancestors t (refused t proper) q e in
        (an_array vs, h, excluded vs (λ P all. all))
    refused (hash k v) proper q e =
        let (es, h, excluded) =
          hash-refutes ancestors k v proper.0 proper.1 (refused k proper.0) (refused v proper.1) q
            e in
        (a_hash es, h, excluded es (λ P Q all. all))
    refused (instance_of c) proper q e = (
      an_object c,
      (λ chain f. inl refl),
      against-refutes ancestors _ (an_object c) (instance-refutes c) q e,
    )
    refused (class_of c) proper q e = (
      a_class c,
      refl,
      against-refutes ancestors _ (a_class c) (plain-refutes (a_class c) tt) q e,
    )
    refused nil proper q e =
        (the_nil, tt, against-refutes ancestors _ the_nil (plain-refutes the_nil tt) q e)
    refused bool proper q e =
        (a_bool, tt, against-refutes ancestors _ a_bool (plain-refutes a_bool tt) q e)
    refused int proper q e =
        (an_int, tt, against-refutes ancestors _ an_int (plain-refutes an_int tt) q e)
    refused float proper q e =
        (a_float, tt, against-refutes ancestors _ a_float (plain-refutes a_float tt) q e)
    refused str proper q e =
        (a_str, tt, against-refutes ancestors _ a_str (plain-refutes a_str tt) q e)
    refused sym proper q e =
        (a_sym, tt, against-refutes ancestors _ a_sym (plain-refutes a_sym tt) q e)

    refused_members :
        (ts : Tys)
        → AreProper ts
        → (q : Ty) → all_compatible ancestors ts q ≡ some false
        → (v : Value) × HasOne ancestors ts v × ¬ HasType ancestors q v
    refused_members end proper q e = absurd (cc e)
    refused_members (part t ts) proper q e =
        elim (one_refuses (compatible ancestors t q) (all_compatible ancestors ts q) e) [
          | inl f ↦ let (v, h, excluded) = refused t proper.0 q f in (v, inl h, excluded)
          | inr f ↦ let (v, h, excluded) = refused_members ts proper.1 q f in (v, inr h, excluded)
        ]

  -- When compatible refuses an argument type without empty unions for a parameter type, some value
  -- of the argument type is no value of the parameter type, where an object belongs to its own
  -- class and to those of a complete chain of it, and to every class when its chain is incomplete
  -- or there is none.
  pub compatible-Separated :
      (t : Ty)
      → IsProper t
      → (p : Ty) → compatible ancestors t p ≡ some false
      → (v : Value) × HasType ancestors t v × ¬ HasType ancestors p v
  compatible-Separated t proper p e = refused t proper p e
