-- ===== src/Index/Ancestors/Total.antt =====
-- `linearize` comes to an end: each walk visits a class once, and `ancestors` calls itself through a
-- superclass only for an enclosing class of smaller rank.
use itaruby.Base.{
  ℕ, zero, suc, ◌+◌, ◌<◌, ◌≤◌, false, List, [], ◌∷◌, reverse, Option, none, some, Text,
  if◌then◌else◌, ◌≡◌, ◌⊎◌, inl, inr, refl, ◌∙◌, arith, contains, lookup, length, nat_eq,
  nat_beq_iff, text_eq, Bool-cases, beq_refl, beq-cases, ◌>>=◌, Memᴰ,
}
use itaruby.Types.{ClassId}
use itaruby.Index.{ClassDef, ProjectIndex}
use itaruby.Index.Names.{second_last}
use itaruby.Index.Resolve.{class, resolve_const}
use itaruby.Index.Valid.{IsValid, lt_of_get_elem?}
use itaruby.Index.Resolve.Total.{IsClass, AreClass, Resolves, resolve_const-Resolves}
use itaruby.Index.Ancestors.{
  Chain, Walk, enter, push, incomplete, start, walk_parent, walk_mixins, walk_superclass,
  walk_class, linearize, ancestors, resolve_superclass_const, resolve_superclass_lexical,
  header_nesting,
}
use itaruby.Index.Ancestors.Grows.{In}
use itaruby.Index.Ancestors.Closure.{linearize-Grows, ancestors-IsMro}
use itaruby.Index.Ancestors.Super.{resolve_superclass_header-Resolves}

-- How many of the first `n` classes are not visited.
unvisited : ℕ → List ClassId → ℕ
unvisited zero visited = 0
unvisited (suc n) visited = (if contains visited n then 0 else 1) + unvisited n visited

unvisited-le : (n : ℕ) (visited : List ClassId) → unvisited n visited ≤ n
unfolding unvisited
unvisited-le zero visited = omega arith
unvisited-le (suc n) visited = ground (arith, unvisited-le n visited)

unvisited_anti :
    (n : ℕ) (visited visited' : List ClassId)
    → ((x : ClassId) → In x visited → In x visited')
    → unvisited n visited' ≤ unvisited n visited
unfolding unvisited
unvisited_anti zero visited visited' sub = omega arith
unvisited_anti (suc n) visited visited' sub =
    ground (arith, sub n, unvisited_anti n visited visited' sub)

unvisited_enter :
    (n : ℕ) (visited : List ClassId) (id : ClassId)
    → id < n
    → contains visited id ≡ false
    → unvisited n (id ∷ visited) < unvisited n visited
unfolding unvisited
unvisited_enter zero visited id h new = elim h [ ]
unvisited_enter (suc n) visited id h new = elim (beq-cases id n) [
  | inl e ↦ rw (← e) (
      rw (beq_refl id, new)
        (omega (arith, unvisited_anti id visited (id ∷ visited) (λ x i. ground arith))))
  | inr d ↦
      rw d (omega (arith, unvisited_enter n visited id (ground (arith, nat_beq_iff id n)) new))
]

-- A rank that no parent exceeds, and that is smaller at the class that encloses a class whose
-- superclass is not found lexically: no class needs, for a superclass, its own linearization.
pub record IsRanked (index : ProjectIndex) (rank : ClassId → ℕ) : Type 0 where
  pub mixins :
      (x m : ClassId) (c : ClassDef) (name : Text)
      → class index x ≡ some c
      → Memᴰ name (reverse c.prepends) ⊎ Memᴰ name (reverse c.includes)
      → resolve_const index c.nesting name ≡ some (some m)
      → rank m ≤ rank x
  pub superclass :
      (depth : ℕ) (x s : ClassId) (c : ClassDef) (sc : Text)
      → class index x ≡ some c
      → c.superclass ≡ some sc
      → resolve_superclass_const (ancestors depth index) index x c.nesting sc ≡ some (some s)
      → rank s ≤ rank x
  pub enclosing :
      (x eid : ClassId) (c : ClassDef) (sc e : Text)
      → class index x ≡ some c
      → c.superclass ≡ some sc
      → resolve_superclass_lexical index x (header_nesting index x c.nesting) sc ≡ some none
      → second_last (header_nesting index x c.nesting) ≡ some e
      → lookup e index.by_path ≡ some eid
      → rank eid < rank x

ancestors-IsClass :
    (index : ProjectIndex) (valid : IsValid index) (depth : ℕ) (id : ClassId) (chain : Chain)
    → ancestors depth index id ≡ some chain
    → (x : ClassId) → In x chain.0
    → IsClass index valid x
unfolding ancestors
ancestors-IsClass index valid zero id chain e x h = cc
ancestors-IsClass index valid (suc depth) id chain e x h =
    (ancestors-IsMro depth index id e).are_classes x h

module _ (index : ProjectIndex) (valid : IsValid index) (rank : ClassId → ℕ)
    (ranked : IsRanked index rank) where
  abbrev Returns {ℓ} : {A : Type ℓ} → Option A → Type ℓ
  Returns {A} o = (a : A) × (o ≡ some a)

  abbrev AncestorsTotal : ℕ → Type 0
  AncestorsTotal depth =
      (id : ClassId) → IsClass index valid id → rank id < depth → Returns (ancestors depth index id)

  super_total :
      (depth : ℕ)
      → AncestorsTotal depth
      → (x : ClassId) (c : ClassDef) (sc : Text) → class index x ≡ some c
      → c.superclass ≡ some sc
      → rank x ≤ depth
      → Resolves index valid (resolve_superclass_const (ancestors depth index) index x c.nesting sc)
  unfolding resolve_superclass_const
  super_total depth ih x c sc is has r =
      resolve_superclass_header-Resolves index valid (ancestors depth index) x
        (header_nesting index x c.nesting) sc
        (λ miss e eid s l.
          let (d, is_e, p) = valid.named e eid l in
          let lower = ranked.enclosing x eid c sc e is has miss s l in
          let (chain, a) = ih eid (d, is_e) (omega arith) in
          (chain, a, ancestors-IsClass index valid depth eid chain a))

  -- What is shown of `linearize` by induction on its fuel.
  abbrev WalkTotal : ℕ → ℕ → (ClassId → Walk → Option Walk) → Type 0
  WalkTotal depth fuel walk =
      (id : ClassId) (w : Walk)
      → IsClass index valid id
      → rank id ≤ depth
      → unvisited (length index.classes) w.visited < fuel
      → (w' : Walk) × (walk id w ≡ some w') × ((x : ClassId) → In x w.visited → In x w'.visited)

  walk_parent_total :
      (depth fuel : ℕ) (walk : ClassId → Walk → Option Walk)
      → WalkTotal depth fuel walk
      → (parent : Option ClassId) (w : Walk) → AreClass index valid parent
      → ((m : ClassId) → parent ≡ some m → rank m ≤ depth)
      → unvisited (length index.classes) w.visited < fuel
      → (w' : Walk) × (walk_parent walk parent w ≡ some w')
        × ((x : ClassId) → In x w.visited → In x w'.visited)
  walk_parent_total depth fuel walk total none w is r u = (incomplete w, refl, (λ x h. h))
  walk_parent_total depth fuel walk total (some m) w is r u = total m w is (r m refl) u

  walk_mixins_total :
      (depth fuel : ℕ) (walk : ClassId → Walk → Option Walk)
      → WalkTotal depth fuel walk
      → (nesting names : List Text) (w : Walk)
      → ((name : Text) (m : ClassId)
          → Memᴰ name names
          → resolve_const index nesting name ≡ some (some m)
          → rank m ≤ depth)
      → unvisited (length index.classes) w.visited < fuel
      → (w' : Walk) × (walk_mixins walk index nesting names w ≡ some w')
        × ((x : ClassId) → In x w.visited → In x w'.visited)
  unfolding walk_mixins
  walk_mixins_total depth fuel walk total nesting [] w r u = (w, refl, (λ x h. h))
  walk_mixins_total depth fuel walk total nesting (name ∷ names) w r u =
      let (parent, e, is) = resolve_const-Resolves index valid nesting name in
      let (v, s, sub) =
        walk_parent_total depth fuel walk total parent w is
          (λ m q. r name m (Memᴰ.head refl) (e ∙ rw q)) u in
      let fewer = unvisited_anti (length index.classes) w.visited v.visited sub in
      let (w', t, sub') =
        walk_mixins_total depth fuel walk total nesting names v (λ n m i. r n m (Memᴰ.tail i))
          (omega arith) in
      (w', rw (e, ◌>>=◌, s) t, (λ x h. sub' x (sub x h)))

  walk_superclass_total :
      (depth fuel : ℕ) (walk : ClassId → Walk → Option Walk)
      → AncestorsTotal depth
      → WalkTotal depth fuel walk
      → (id : ClassId) (c : ClassDef) (sc : Option Text) (w : Walk) → class index id ≡ some c
      → c.superclass ≡ sc
      → rank id ≤ depth
      → unvisited (length index.classes) w.visited < fuel
      → Returns
          (walk_superclass walk (resolve_superclass_const (ancestors depth index) index) id c sc w)
  unfolding walk_superclass
  walk_superclass_total depth fuel walk ih total id c none w is has r u = (w, refl)
  walk_superclass_total depth fuel walk ih total id c (some sc) w is has r u =
      let (parent, e, ok) = super_total depth ih id c sc is has r in
      let (w', s, sub) =
        walk_parent_total depth fuel walk total parent w ok
          (λ m q. omega (arith, ranked.superclass depth id m c sc is has (e ∙ rw q))) u in
      (w', rw (e, ◌>>=◌) s)

  walk_class_total :
      (depth fuel : ℕ) (walk : ClassId → Walk → Option Walk)
      → AncestorsTotal depth
      → WalkTotal depth fuel walk
      → (id : ClassId) (c : ClassDef) (w : Walk) → class index id ≡ some c
      → contains w.visited id ≡ false
      → rank id ≤ depth
      → unvisited (length index.classes) w.visited < suc fuel
      → Returns
          (walk_class walk (resolve_superclass_const (ancestors depth index) index) index id c w)
  unfolding walk_class
  walk_class_total depth fuel walk ih total id c w is new r u =
      let n = length index.classes in
      let entered = unvisited_enter n w.visited id (lt_of_get_elem? index.classes c id is) new in
      let (v, s, sub) =
        walk_mixins_total depth fuel walk total c.nesting (reverse c.prepends) (enter index id w)
          (λ name m i q. omega (arith, ranked.mixins id m c name is (inl i) q)) (omega arith) in
      let fewer = unvisited_anti n (id ∷ w.visited) v.visited sub in
      let (v', t, sub') =
        walk_mixins_total depth fuel walk total c.nesting (reverse c.includes) (push id v)
          (λ name m i q. omega (arith, ranked.mixins id m c name is (inr i) q)) (omega arith) in
      let fewer' = unvisited_anti n v.visited v'.visited sub' in
      let (w', p) =
        walk_superclass_total depth fuel walk ih total id c c.superclass v' is refl r
          (omega arith) in
      (w', rw (s, ◌>>=◌, t) p)

  linearize_total :
      (depth : ℕ)
      → AncestorsTotal depth
      → (fuel : ℕ)
      → WalkTotal depth fuel
          (linearize (resolve_superclass_const (ancestors depth index) index) index fuel)
  unfolding linearize
  linearize_total depth ih zero id w is r u = elim u [ ]
  linearize_total depth ih (suc fuel) id w is r u = elim (Bool-cases (contains w.visited id)) [
    | inl old ↦ (w, rw old, (λ x h. h))
    | inr new ↦
        let resolve = resolve_superclass_const (ancestors depth index) index in
        let (c, e) = is in
        let (w', p) =
          walk_class_total depth fuel (linearize resolve index fuel) ih
            (linearize_total depth ih fuel) id c w e new r u in
        let q : linearize resolve index (suc fuel) id w ≡ some w' =
          rw (linearize, new, e, ◌>>=◌) p in
        (w', q, (linearize-Grows resolve index (suc fuel) id w w' q).0.visited)
  ]

  total_by_depth : (depth : ℕ) → AncestorsTotal depth
  unfolding ancestors
  total_by_depth zero id is r = elim r [ ]
  total_by_depth (suc depth) id is r =
      let n = length index.classes in
      let (w', e, sub) =
        linearize_total depth (total_by_depth depth) (suc n) id start is (omega arith)
          (omega (arith, unvisited-le n [])) in
      ((w'.out, w'.complete), rw (ancestors, e, ◌>>=◌))

-- ancestors returns a chain for every class of a valid table that has a rank which no parent
-- exceeds and which is smaller at the class that encloses a class whose superclass is not found
-- lexically, when the depth of its calls of itself exceeds the rank: the inner walk needs one unit
-- of fuel more than there are classes.
pub ancestors_total :
    (index : ProjectIndex) (rank : ClassId → ℕ) (depth : ℕ) (id : ClassId) (c : ClassDef)
    → IsValid index
    → IsRanked index rank
    → class index id ≡ some c
    → rank id < depth
    → (chain : Chain) × (ancestors depth index id ≡ some chain)
ancestors_total index rank depth id c valid ranked is h =
    total_by_depth index valid rank ranked depth id (c, is) h
