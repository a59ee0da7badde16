-- ===== src/Types/Union/Normal.antt =====
-- The shape of a union that `Ty::union` builds: flat, without `Unknown`, without repetitions.
use itaruby.Base.{
  ◌≤◌, List, [], ◌∷◌, ◌++◌, if◌then◌else◌, contains, contains_iff, Memᴰ, ◌≡◌, ◌≢◌, ne_of_beq, ◌↔◌,
  ◌⊎◌, inl, inr, refl, sym, arith, length, Bool-cases, beq-cases, beq_refl,
}
use itaruby.Types.{Ty, unknown, union_of, end, part, to_list, from_list, ty_beq}
use itaruby.Types.Equality.{ty_eq}
use itaruby.Types.Union.Members.{mem-uniq_iff}
use itaruby.Types.Union.{parts_of, dedup, push_unique, of_parts, union}
use mathlib.Core.List.Memᴰ as Member

-- What may stand in a union.
abbrev pub IsMember : Ty → Type 0
IsMember unknown = ⊥
IsMember (union_of ts) = ⊥
IsMember _ = Unit

abbrev pub Distinct : List Ty → Type 0
Distinct [] = Unit
Distinct (t ∷ ts) = (Memᴰ t ts → ⊥) × Distinct ts

pub record IsFlat (ts : List Ty) : Type 0 where
  pub at_least_two : 2 ≤ length ts
  pub members : (t : Ty) → Memᴰ t ts → IsMember t
  pub distinct : Distinct ts

-- A union has at least two members; they are distinct, and none is `Unknown` or a union.
abbrev pub IsNormal : Ty → Type 0
IsNormal (union_of ts) = IsFlat (to_list ts)
IsNormal _ = Unit

IsMember-IsNormal : (t : Ty) → IsMember t → IsNormal t
IsMember-IsNormal unknown h = absurd h
IsMember-IsNormal (union_of ts) h = absurd h
IsMember-IsNormal _ h = tt

IsMember-ne-unknown : (t : Ty) → IsMember t → t ≡ unknown → ⊥
IsMember-ne-unknown unknown h e = h
IsMember-ne-unknown _ h e = cc

to_list-from_list : (ts : List Ty) → to_list (from_list ts) ≡ ts
to_list-from_list [] = refl
to_list-from_list (t ∷ ts) = rw (to_list-from_list ts)

parts_of-IsMember : (a t : Ty) → IsNormal a → a ≢ unknown → Memᴰ t (parts_of a) → IsMember t
parts_of-IsMember (union_of ts) t n d m = n.members t m
parts_of-IsMember unknown t n d m = absurd (d refl)
parts_of-IsMember a t n d m = rw (Member.eq_of_singleton m) tt

parts_of_nonempty : (a : Ty) → IsNormal a → (t : Ty) × Memᴰ t (parts_of a)
parts_of_nonempty (union_of (part t ts)) n = (t, Memᴰ.head refl)
parts_of_nonempty (union_of end) n = absurd (omega (arith, n.at_least_two))
parts_of_nonempty a n = (a, Memᴰ.head refl)

Distinct-concat :
    (ts : List Ty) (t : Ty) → Distinct ts → (Memᴰ t ts → ⊥) → Distinct (ts ++ (t ∷ []))
Distinct-concat [] t d h = (Member.not-nil, tt)
Distinct-concat (u ∷ us) t d h = (
  (λ m. elim (Member.append_cases us m) [
    | inl r ↦ d.0 r
    | inr s ↦ h (Memᴰ.head (sym (Member.eq_of_singleton s)))
  ]),
  Distinct-concat us t d.1 (λ m. h (Memᴰ.tail m)),
)

push_unique-Distinct : (uniq ts : List Ty) → Distinct uniq → Distinct (push_unique uniq ts)
unfolding push_unique
push_unique-Distinct uniq [] d = d
push_unique-Distinct uniq (t ∷ ts) d =
    push_unique-Distinct (if contains uniq t then uniq else uniq ++ (t ∷ [])) ts
      (elim (Bool-cases (contains uniq t)) [
        | inl old ↦ rw old d
        | inr new ↦ rw new (Distinct-concat uniq t d (λ m. cc ((contains_iff uniq t).1 m)))
      ])

-- A nonempty list of distinct members makes a normal type that is not `Unknown`.
of_parts-IsNormal :
    (ts : List Ty)
    → ts ≢ []
    → ((t : Ty) → Memᴰ t ts → IsMember t)
    → Distinct ts
    → IsNormal (of_parts ts) × (of_parts ts ≢ unknown)
of_parts-IsNormal [] ne ms d = absurd (ne refl)
of_parts-IsNormal (t ∷ []) ne ms d =
    let m = ms t (Memᴰ.head refl) in (IsMember-IsNormal t m, IsMember-ne-unknown t m)
of_parts-IsNormal (t ∷ u ∷ ts) ne ms d = (
  rw (to_list-from_list ts) (record { at_least_two = omega arith; members = ms; distinct = d }),
  (λ e. cc),
)

uniq-IsNormal :
    (a b : Ty)
    → IsNormal a
    → IsNormal b
    → a ≢ unknown
    → b ≢ unknown
    → let t = of_parts (push_unique [] (dedup (parts_of a ++ parts_of b))) in
      IsNormal t × (t ≢ unknown)
uniq-IsNormal a b na nb da db = of_parts-IsNormal _ ne ms (push_unique-Distinct [] _ tt)
  where
    ne : push_unique [] (dedup (parts_of a ++ parts_of b)) ≢ []
    ne e =
        let (t, m) = parts_of_nonempty a na in
        Member.not-nil (rw e at ((mem-uniq_iff t (parts_of a) (parts_of b)).1 (inl m)))

    ms : (t : Ty) → Memᴰ t (push_unique [] (dedup (parts_of a ++ parts_of b))) → IsMember t
    ms t m = elim ((mem-uniq_iff t (parts_of a) (parts_of b)).0 m) [
      | inl r ↦ parts_of-IsMember a t na da r
      | inr r ↦ parts_of-IsMember b t nb db r
    ]

-- The union of two types in normal form is in normal form (a union has at least two members, none
-- of them equal to another, a union or unknown), and it is unknown exactly if one of the two is.
pub union-IsNormal :
    (a b : Ty)
    → IsNormal a
    → IsNormal b
    → IsNormal (union a b) × ((union a b ≡ unknown) ↔ ((a ≡ unknown) ⊎ (b ≡ unknown)))
unfolding union ty_beq
union-IsNormal a b na nb = elim (beq-cases a b) [
  | inl e ↦ rw (← e) (rw (beq_refl a) (na, ((λ h. inl h), (λ h. elim h [ inl k ↦ k | inr k ↦ k ]))))
  | inr d ↦ rw d (elim (beq-cases a unknown) [
    | inl e ↦ rw e (tt, ((λ h. inl refl), (λ h. refl)))
    | inr da ↦ rw da (elim (beq-cases b unknown) [
      | inl e ↦ rw e (tt, ((λ h. inr refl), (λ h. refl)))
      | inr db ↦
          let pa = ne_of_beq a unknown da in
          let pb = ne_of_beq b unknown db in
          let (n, u) = uniq-IsNormal a b na nb pa pb in
          rw db (
            n,
            ((λ h. absurd (u h)), (λ h. elim h [ inl k ↦ absurd (pa k) | inr k ↦ absurd (pb k) ])),
          )
    ])
  ])
]
