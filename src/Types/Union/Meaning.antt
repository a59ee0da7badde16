-- ===== src/Types/Union/Meaning.antt =====
-- What types mean: a set of values for each type that is no union, given from outside. The union
-- of two types is then the union of their sets.
use itaruby.Base.{List, [], ◌∷◌, ◌++◌, Memᴰ, ◌↔◌, ◌⊎◌, inl, inr, refl, beq-cases, beq_refl}
use itaruby.Types.{
  Ty, Tys, unknown, nil, bool, int, float, str, sym as symbol, instance_of, class_of, array, hash,
  union_of, end, part, to_list, from_list, ty_beq,
}
use itaruby.Types.Equality.{ty_eq}
use itaruby.Types.Union.Members.{mem-uniq_iff}
use itaruby.Types.Union.{parts_of, dedup, push_unique, of_parts, union}

module _ {V : Type 0} (Leaf : Ty → V → Type 0) where
  abbrev mutual
    -- A value that the type allows. `Unknown` allows every value.
    pub Has : Ty → V → Type 0
    Has unknown v = Unit
    Has (union_of ts) v = HasPart ts v
    Has nil v = Leaf nil v
    Has bool v = Leaf bool v
    Has int v = Leaf int v
    Has float v = Leaf float v
    Has str v = Leaf str v
    Has symbol v = Leaf symbol v
    Has (instance_of c) v = Leaf (instance_of c) v
    Has (class_of c) v = Leaf (class_of c) v
    Has (array t) v = Leaf (array t) v
    Has (hash k w) v = Leaf (hash k w) v

    pub HasPart : Tys → V → Type 0
    HasPart end v = ⊥
    HasPart (part t ts) v = Has t v ⊎ HasPart ts v

  -- The same over a list.
  abbrev pub HasIn : List Ty → V → Type 0
  HasIn [] v = ⊥
  HasIn (t ∷ ts) v = Has t v ⊎ HasIn ts v

  pub HasIn-of_mem : (t : Ty) (ts : List Ty) (v : V) → Memᴰ t ts → Has t v → HasIn ts v
  HasIn-of_mem t [] v m h = elim m [ ]
  HasIn-of_mem t (u ∷ us) v (Memᴰ.head e) h = inl (rw (← e) h)
  HasIn-of_mem t (u ∷ us) v (Memᴰ.tail m) h = inr (HasIn-of_mem t us v m h)

  pub mem_of_HasIn : (ts : List Ty) (v : V) → HasIn ts v → (t : Ty) × Memᴰ t ts × Has t v
  mem_of_HasIn [] v h = absurd h
  mem_of_HasIn (t ∷ ts) v (inl h) = (t, Memᴰ.head refl, h)
  mem_of_HasIn (t ∷ ts) v (inr h) = let (u, m, k) = mem_of_HasIn ts v h in (u, Memᴰ.tail m, k)

  pub HasPart-iff : (ts : Tys) (v : V) → HasPart ts v ↔ HasIn (to_list ts) v
  HasPart-iff end v = (λ h. h, λ h. h)
  HasPart-iff (part t ts) v = (
    (λ h. elim h [ inl k ↦ inl k | inr k ↦ inr ((HasPart-iff ts v).0 k) ]),
    (λ h. elim h [ inl k ↦ inl k | inr k ↦ inr ((HasPart-iff ts v).1 k) ]),
  )

  pub HasPart-from_list_iff : (ts : List Ty) (v : V) → HasPart (from_list ts) v ↔ HasIn ts v
  HasPart-from_list_iff [] v = (λ h. h, λ h. h)
  HasPart-from_list_iff (t ∷ ts) v = (
    (λ h. elim h [ inl k ↦ inl k | inr k ↦ inr ((HasPart-from_list_iff ts v).0 k) ]),
    (λ h. elim h [ inl k ↦ inl k | inr k ↦ inr ((HasPart-from_list_iff ts v).1 k) ]),
  )

  abbrev just : {P : Type 0} → P ↔ (P ⊎ ⊥)
  just = (λ h. inl h, λ h. elim h [ inl k ↦ k | inr k ↦ absurd k ])

  pub Has-parts_of_iff : (t : Ty) (v : V) → Has t v ↔ HasIn (parts_of t) v
  Has-parts_of_iff (union_of ts) v = HasPart-iff ts v
  Has-parts_of_iff _ v = just

  pub Has-of_parts_iff : (ts : List Ty) (v : V) → Has (of_parts ts) v ↔ HasIn ts v
  Has-of_parts_iff [] v = (λ h. h, λ h. h)
  Has-of_parts_iff (t ∷ []) v = just
  Has-of_parts_iff (t ∷ u ∷ ts) v = HasPart-from_list_iff (t ∷ u ∷ ts) v

  uniq_iff :
      (xs ys : List Ty) (v : V)
      → HasIn (push_unique [] (dedup (xs ++ ys))) v ↔ (HasIn xs v ⊎ HasIn ys v)
  uniq_iff xs ys v = (from, to)
    where
      side : (t : Ty) → Has t v → Memᴰ t xs ⊎ Memᴰ t ys → HasIn xs v ⊎ HasIn ys v
      side t k m = elim m [
        | inl r ↦ inl (HasIn-of_mem t xs v r k)
        | inr r ↦ inr (HasIn-of_mem t ys v r k)
      ]

      from : HasIn (push_unique [] (dedup (xs ++ ys))) v → HasIn xs v ⊎ HasIn ys v
      from h = let (t, m, k) = mem_of_HasIn _ v h in side t k ((mem-uniq_iff t xs ys).0 m)

      to : HasIn xs v ⊎ HasIn ys v → HasIn (push_unique [] (dedup (xs ++ ys))) v
      to h = elim h [
        | inl l ↦
            let (t, m, k) = mem_of_HasIn xs v l in
            HasIn-of_mem t _ v ((mem-uniq_iff t xs ys).1 (inl m)) k
        | inr r ↦
            let (t, m, k) = mem_of_HasIn ys v r in
            HasIn-of_mem t _ v ((mem-uniq_iff t xs ys).1 (inr m)) k
      ]

  of_parts-uniq_iff :
      (a b : Ty) (v : V)
      → Has (of_parts (push_unique [] (dedup (parts_of a ++ parts_of b)))) v ↔ (Has a v ⊎ Has b v)
  of_parts-uniq_iff a b v = (
    (λ h. elim ((uniq_iff (parts_of a) (parts_of b) v).0 ((Has-of_parts_iff _ v).0 h)) [
      | inl l ↦ inl ((Has-parts_of_iff a v).1 l)
      | inr r ↦ inr ((Has-parts_of_iff b v).1 r)
    ]),
    (λ h. (Has-of_parts_iff _ v).1 (
        (uniq_iff (parts_of a) (parts_of b) v).1 (elim h [
          | inl l ↦ inl ((Has-parts_of_iff a v).0 l)
          | inr r ↦ inr ((Has-parts_of_iff b v).0 r)
        ]))),
  )

  -- For every reading of the types that are no unions under which unknown has every value, a value
  -- has the type union a b exactly if it has type a or type b.
  pub Has-union_iff : (a b : Ty) (v : V) → Has (union a b) v ↔ (Has a v ⊎ Has b v)
  unfolding union ty_beq
  Has-union_iff a b v = elim (beq-cases a b) [
    | inl e ↦ rw (← e) (rw (beq_refl a) ((λ h. inl h), (λ h. elim h [ inl k ↦ k | inr k ↦ k ])))
    | inr d ↦ rw d (elim (beq-cases a unknown) [
      | inl e ↦ rw e ((λ h. inl tt), (λ h. tt))
      | inr na ↦ rw na (elim (beq-cases b unknown) [
        | inl e ↦ rw e ((λ h. inr tt), (λ h. tt))
        | inr nb ↦ rw nb (of_parts-uniq_iff a b v)
      ])
    ])
  ]
