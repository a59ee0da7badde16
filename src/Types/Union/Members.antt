-- ===== src/Types/Union/Members.antt =====
-- Deduplication keeps exactly the members.
use itaruby.Base.{
  List, [], ◌∷◌, ◌++◌, ◌==◌, if◌then◌else◌, contains, contains_iff, Memᴰ, ◌≡◌, ◌↔◌, ◌⊎◌, inl, inr,
  refl, sym, ◌∙◌, Bool-cases, beq-cases,
}
use itaruby.Types.{Ty}
use itaruby.Types.Equality.{ty_eq}
use itaruby.Types.Union.{dedup, dedup_after, push_unique}
use mathlib.Core.List.Memᴰ as Member

mem_of_dedup_after : (t p : Ty) (ts : List Ty) → Memᴰ t (dedup_after p ts) → Memᴰ t ts
unfolding dedup_after
mem_of_dedup_after t p [] m = m
mem_of_dedup_after t p (u ∷ us) m = elim (Bool-cases (p == u)) [
  | inl same ↦ Memᴰ.tail (mem_of_dedup_after t p us (rw same at m))
  | inr new ↦ of_cons (mem_of_dedup_after t u us) (rw new at m)
]
  where
    of_cons :
        (Memᴰ t (dedup_after u us) → Memᴰ t us) → Memᴰ t (u ∷ dedup_after u us) → Memᴰ t (u ∷ us)
    of_cons ih (Memᴰ.head e) = Memᴰ.head e
    of_cons ih (Memᴰ.tail r) = Memᴰ.tail (ih r)

mem-dedup_after : (t p : Ty) (ts : List Ty) → Memᴰ t ts → (t ≡ p) ⊎ Memᴰ t (dedup_after p ts)
unfolding dedup_after
mem-dedup_after t p [] m = inr m
mem-dedup_after t p (u ∷ us) (Memᴰ.head e) = elim (beq-cases p u) [
  | inl same ↦ inl (e ∙ sym same)
  | inr new ↦ rw new (inr (Memᴰ.head e))
]
mem-dedup_after t p (u ∷ us) (Memᴰ.tail m) = elim (Bool-cases (p == u)) [
  | inl same ↦ rw same (mem-dedup_after t p us m)
  | inr new ↦ elim (mem-dedup_after t u us m) [
    | inl e ↦ rw new (inr (Memᴰ.head e))
    | inr r ↦ rw new (inr (Memᴰ.tail r))
  ]
]

pub mem-dedup_iff : (t : Ty) (ts : List Ty) → Memᴰ t (dedup ts) ↔ Memᴰ t ts
unfolding dedup
mem-dedup_iff t [] = (λ m. m, λ m. m)
mem-dedup_iff t (u ∷ us) = (from, to)
  where
    from : Memᴰ t (u ∷ dedup_after u us) → Memᴰ t (u ∷ us)
    from (Memᴰ.head e) = Memᴰ.head e
    from (Memᴰ.tail m) = Memᴰ.tail (mem_of_dedup_after t u us m)

    to : Memᴰ t (u ∷ us) → Memᴰ t (u ∷ dedup_after u us)
    to (Memᴰ.head e) = Memᴰ.head e
    to (Memᴰ.tail m) = elim (mem-dedup_after t u us m) [ inl e ↦ Memᴰ.head e | inr r ↦ Memᴰ.tail r ]

abbrev push_one : List Ty → Ty → List Ty
push_one uniq t = if contains uniq t then uniq else uniq ++ (t ∷ [])

mem_of_push_one : (x t : Ty) (uniq : List Ty) → Memᴰ x (push_one uniq t) → Memᴰ x uniq ⊎ (x ≡ t)
mem_of_push_one x t uniq m = elim (Bool-cases (contains uniq t)) [
  | inl old ↦ inl (rw old at m)
  | inr new ↦ elim (Member.append_cases uniq (rw new at m)) [
    | inl r ↦ inl r
    | inr s ↦ inr (Member.eq_of_singleton s)
  ]
]

mem-push_one : (x t : Ty) (uniq : List Ty) → Memᴰ x uniq → Memᴰ x (push_one uniq t)
mem-push_one x t uniq m = elim (Bool-cases (contains uniq t)) [
  | inl old ↦ rw old m
  | inr new ↦ rw new (Member.append_left (t ∷ []) m)
]

mem-push_one_self : (t : Ty) (uniq : List Ty) → Memᴰ t (push_one uniq t)
mem-push_one_self t uniq = elim (Bool-cases (contains uniq t)) [
  | inl old ↦ rw old ((contains_iff uniq t).0 old)
  | inr new ↦ rw new (Member.append_right uniq (Memᴰ.head refl))
]

mem_of_push_unique :
    (x : Ty) (uniq ts : List Ty) → Memᴰ x (push_unique uniq ts) → Memᴰ x uniq ⊎ Memᴰ x ts
unfolding push_unique
mem_of_push_unique x uniq [] m = inl m
mem_of_push_unique x uniq (t ∷ ts) m = elim (mem_of_push_unique x (push_one uniq t) ts m) [
  | inl r ↦ elim (mem_of_push_one x t uniq r) [ inl s ↦ inl s | inr e ↦ inr (Memᴰ.head e) ]
  | inr r ↦ inr (Memᴰ.tail r)
]

mem-push_unique_left : (x : Ty) (uniq ts : List Ty) → Memᴰ x uniq → Memᴰ x (push_unique uniq ts)
unfolding push_unique
mem-push_unique_left x uniq [] m = m
mem-push_unique_left x uniq (t ∷ ts) m =
    mem-push_unique_left x (push_one uniq t) ts (mem-push_one x t uniq m)

mem-push_unique_right : (x : Ty) (uniq ts : List Ty) → Memᴰ x ts → Memᴰ x (push_unique uniq ts)
unfolding push_unique
mem-push_unique_right x uniq [] m = elim m [ ]
mem-push_unique_right x uniq (t ∷ ts) (Memᴰ.head e) =
    mem-push_unique_left x (push_one uniq t) ts (rw e (mem-push_one_self t uniq))
mem-push_unique_right x uniq (t ∷ ts) (Memᴰ.tail m) = mem-push_unique_right x (push_one uniq t) ts m

-- The members of `uniq` are those of the two lists that were joined.
pub mem-uniq_iff :
    (x : Ty) (xs ys : List Ty)
    → Memᴰ x (push_unique [] (dedup (xs ++ ys))) ↔ (Memᴰ x xs ⊎ Memᴰ x ys)
mem-uniq_iff x xs ys = (from, to)
  where
    from : Memᴰ x (push_unique [] (dedup (xs ++ ys))) → Memᴰ x xs ⊎ Memᴰ x ys
    from m = elim (mem_of_push_unique x [] (dedup (xs ++ ys)) m) [
      | inl r ↦ absurd (Member.not-nil r)
      | inr r ↦ Member.append_cases xs ((mem-dedup_iff x (xs ++ ys)).0 r)
    ]

    into : Memᴰ x (xs ++ ys) → Memᴰ x (push_unique [] (dedup (xs ++ ys)))
    into m = mem-push_unique_right x [] _ ((mem-dedup_iff x (xs ++ ys)).1 m)

    to : Memᴰ x xs ⊎ Memᴰ x ys → Memᴰ x (push_unique [] (dedup (xs ++ ys)))
    to m = elim m [
      | inl r ↦ into (Member.append_left ys r)
      | inr r ↦ into (Member.append_right xs r)
    ]
