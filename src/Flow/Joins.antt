-- ===== src/Flow/Joins.antt =====
-- The joins are sound: a store that agrees with the environment of one of the paths that meet
-- agrees with the joined environment.
use itaruby.Base.{
  true, false, List, [], ◌∷◌, Option, none, some, Text, ◌==◌, if◌then◌else◌, ◌≡◌, ◌≢◌, inl, inr,
  refl, ◌∙◌, arith, Memᴰ, contains, Option-cases, Bool-cases, beq-cases, beq_refl, lookup,
  lookup-insert, text_eq,
}
use itaruby.Types.{Ty, nil}
use itaruby.Types.Equality.{ty_eq}
use itaruby.Types.Union.{union}
use itaruby.Types.Union.Meaning.{Has, Has-union_iff}
use itaruby.Flow.{
  Env, get_or, branch_ty, join_ty, join_key, join_keys, extend_keys, branch_keys, join_envs,
}
use itaruby.Flow.Stores.{Agrees}

-- The environment after the joins, at one key: order plays no part.
abbrev pub or_else {ℓ} : {A : Type ℓ} → Option A → Option A → Option A
or_else (some a) o = some a
or_else none o = o

lookup-join_key :
    (key x : Text) (bs : List Env) (base : Env)
    → lookup x (join_key key bs base)
      ≡ (if key == x then or_else (join_ty key base none bs) (lookup x base) else lookup x base)
unfolding join_key
lookup-join_key key x bs base = elim (Option-cases (join_ty key base none bs)) [
  | inl e ↦ rw (join_key, e) (elim (Bool-cases (key == x)) [ inl k ↦ rw k | inr k ↦ rw k ])
  | inr (t, e) ↦ rw (join_key, e) (lookup-insert key x t base)
]

-- The type that a branch gives to `x` depends on the environment before it at `x` alone.
branch_ty_congr :
    (x : Text) (base base' b : Env)
    → lookup x base ≡ lookup x base'
    → branch_ty x base b ≡ branch_ty x base' b
branch_ty_congr x base base' b e = elim (Option-cases (lookup x b)) [
  | inl n ↦ rw (branch_ty, n, get_or, e)
  | inr (t, s) ↦ rw (branch_ty, s)
]

join_ty_congr :
    (x : Text) (base base' : Env) (ty : Option Ty) (bs : List Env)
    → lookup x base ≡ lookup x base'
    → join_ty x base ty bs ≡ join_ty x base' ty bs
unfolding join_ty
join_ty_congr x base base' ty [] e = refl
join_ty_congr x base base' none (b ∷ bs) e =
    rw (branch_ty_congr x base base' b e)
      (join_ty_congr x base base' (some (branch_ty x base' b)) bs e)
join_ty_congr x base base' (some prev) (b ∷ bs) e =
    rw (branch_ty_congr x base base' b e)
      (join_ty_congr x base base' (some (union prev (branch_ty x base' b))) bs e)

-- A key stands once in the list.
abbrev pub IsKeySet : List Text → Type 0
IsKeySet [] = Unit
IsKeySet (k ∷ ks) = (contains ks k ≡ false) × IsKeySet ks

lookup-join_keys :
    (keys : List Text) (x : Text) (bs : List Env) (base : Env)
    → IsKeySet keys
    → lookup x (join_keys keys bs base) ≡ (
        if contains keys x then or_else (join_ty x base none bs) (lookup x base) else lookup x base)
unfolding join_keys
lookup-join_keys [] x bs base d = refl
lookup-join_keys (k ∷ ks) x bs base d = elim (beq-cases k x) [
  | inl e ↦ rw (← e) (
      rw (beq_refl k) (
        rw d.0 at (lookup-join_keys ks k bs (join_key k bs base) d.1)
        ∙ rw (beq_refl k) at (lookup-join_key k k bs base)))
  | inr n ↦
      let same : lookup x (join_key k bs base) ≡ lookup x base =
        rw n at (lookup-join_key k x bs base) in
      rw n (
        rw (same, join_ty_congr x (join_key k bs base) base none bs same) at
          (lookup-join_keys ks x bs (join_key k bs base) d.1))
]

-- The variables' types after a join do not depend on the order in which the hash set gives its
-- keys: for two key lists without repetitions, each variable that stands in both or in neither is
-- looked up with the same result after join_keys.
pub join_keys_order :
    (ks ks' : List Text) (branches : List Env) (base : Env) (x : Text)
    → IsKeySet ks
    → IsKeySet ks'
    → contains ks x ≡ contains ks' x
    → lookup x (join_keys ks branches base) ≡ lookup x (join_keys ks' branches base)
join_keys_order ks ks' branches base x d d' e =
    rw (lookup-join_keys ks x branches base d, lookup-join_keys ks' x branches base d', e)

extend_keys-IsKeySet : (ks : List Text) (b : Env) → IsKeySet ks → IsKeySet (extend_keys ks b)
unfolding extend_keys
extend_keys-IsKeySet ks [] d = d
extend_keys-IsKeySet ks ((k, t) ∷ b) d = elim (Bool-cases (contains ks k)) [
  | inl c ↦ rw c (extend_keys-IsKeySet ks b d)
  | inr c ↦ rw c (extend_keys-IsKeySet (k ∷ ks) b (c, d))
]

branch_keys-IsKeySet : (ks : List Text) (bs : List Env) → IsKeySet ks → IsKeySet (branch_keys ks bs)
unfolding branch_keys
branch_keys-IsKeySet ks [] d = d
branch_keys-IsKeySet ks (b ∷ bs) d =
    branch_keys-IsKeySet (extend_keys ks b) bs (extend_keys-IsKeySet ks b d)

extend_keys-keeps :
    (ks : List Text) (b : Env) (x : Text)
    → contains ks x ≡ true
    → contains (extend_keys ks b) x ≡ true
unfolding extend_keys
extend_keys-keeps ks [] x h = h
extend_keys-keeps ks ((k, t) ∷ b) x h = elim (Bool-cases (contains ks k)) [
  | inl c ↦ rw c (extend_keys-keeps ks b x h)
  | inr c ↦ rw c (extend_keys-keeps (k ∷ ks) b x (ground arith))
]

branch_keys-keeps :
    (ks : List Text) (bs : List Env) (x : Text)
    → contains ks x ≡ true
    → contains (branch_keys ks bs) x ≡ true
unfolding branch_keys
branch_keys-keeps ks [] x h = h
branch_keys-keeps ks (b ∷ bs) x h =
    branch_keys-keeps (extend_keys ks b) bs x (extend_keys-keeps ks b x h)

extend_keys-holds :
    (ks : List Text) (b : Env) (x : Text) → lookup x b ≢ none → contains (extend_keys ks b) x ≡ true
unfolding extend_keys
extend_keys-holds ks [] x h = absurd (h refl)
extend_keys-holds ks ((k, t) ∷ b) x h = elim (beq-cases k x) [
  | inl e ↦ elim (Bool-cases (contains ks k)) [
    | inl c ↦ rw c (extend_keys-keeps ks b x (rw e at c))
    | inr c ↦ rw c (extend_keys-keeps (k ∷ ks) b x (rw (← e) (rw (beq_refl k))))
  ]
  | inr n ↦ extend_keys-holds (if contains ks k then ks else k ∷ ks) b x (rw n at h)
]

branch_keys-holds :
    (ks : List Text) (bs : List Env) (b : Env) (x : Text)
    → Memᴰ b bs
    → lookup x b ≢ none
    → contains (branch_keys ks bs) x ≡ true
unfolding branch_keys
branch_keys-holds ks [] b x m h = elim m [ ]
branch_keys-holds ks (c ∷ bs) b x (Memᴰ.head e) h =
    branch_keys-keeps (extend_keys ks c) bs x (extend_keys-holds ks c x (rw e at h))
branch_keys-holds ks (c ∷ bs) b x (Memᴰ.tail m) h = branch_keys-holds (extend_keys ks c) bs b x m h

module _ {V : Type 0} (Leaf : Ty → V → Type 0) where
  join_ty-keeps :
      (x : Text) (base : Env) (t : Ty) (bs : List Env) (v : V)
      → Has Leaf t v
      → (u : Ty) × (join_ty x base (some t) bs ≡ some u) × Has Leaf u v
  unfolding join_ty
  join_ty-keeps x base t [] v h = (t, refl, h)
  join_ty-keeps x base t (b ∷ bs) v h =
      join_ty-keeps x base (union t (branch_ty x base b)) bs v
        ((Has-union_iff Leaf t (branch_ty x base b) v).1 (inl h))

  -- The joined type allows what any branch's type allows.
  join_ty-Has :
      (x : Text) (base b : Env) (ty : Option Ty) (bs : List Env) (v : V)
      → Memᴰ b bs
      → Has Leaf (branch_ty x base b) v
      → (u : Ty) × (join_ty x base ty bs ≡ some u) × Has Leaf u v
  unfolding join_ty
  join_ty-Has x base b ty [] v m h = elim m [ ]
  join_ty-Has x base b none (c ∷ bs) v (Memᴰ.head e) h = join_ty-keeps x base _ bs v (rw e at h)
  join_ty-Has x base b (some t) (c ∷ bs) v (Memᴰ.head e) h =
      join_ty-keeps x base _ bs v
        ((Has-union_iff Leaf t (branch_ty x base c) v).1 (inr (rw e at h)))
  join_ty-Has x base b none (c ∷ bs) v (Memᴰ.tail m) h =
      join_ty-Has x base b (some (branch_ty x base c)) bs v m h
  join_ty-Has x base b (some t) (c ∷ bs) v (Memᴰ.tail m) h =
      join_ty-Has x base b (some (union t (branch_ty x base c))) bs v m h

  -- What a store has after a branch: where the branch's environment has a variable, a value of its
  -- type there; elsewhere a value of the type from before the branches, or nil if there is none.
  pub record AgreesAfter (σ : Text → V) (base b : Env) : Type 0 where
    pub written : (x : Text) (t : Ty) → lookup x b ≡ some t → Has Leaf t (σ x)
    pub unwritten : (x : Text) → lookup x b ≡ none → Has Leaf (get_or base x nil) (σ x)

  Has-branch_ty :
      (σ : Text → V) (base b : Env) (x : Text)
      → AgreesAfter σ base b
      → Has Leaf (branch_ty x base b) (σ x)
  Has-branch_ty σ base b x h = elim (Option-cases (lookup x b)) [
    | inl e ↦ rw (branch_ty, e) (h.unwritten x e)
    | inr (t, e) ↦ rw (branch_ty, e) (h.written x t e)
  ]

  -- If, for one of the branches, a store has a value of its type at each variable of the branch
  -- environment, and at each other variable a value of the type from before the branches (nil if
  -- there is none), the store agrees with the environment after join_envs.
  pub join_envs-Agrees :
      (σ : Text → V) (base b : Env) (branches : List Env)
      → Memᴰ b branches
      → AgreesAfter σ base b
      → Agrees Leaf σ (join_envs base branches)
  unfolding join_envs
  join_envs-Agrees σ base b branches m h x =
      let ks = branch_keys [] branches in
      let at_x = lookup-join_keys ks x branches base (branch_keys-IsKeySet [] branches tt) in
      elim (Bool-cases (contains ks x)) [
        | inl c ↦
            let (u, e, k) =
              join_ty-Has x base b none branches (σ x) m (Has-branch_ty σ base b x h) in
            rw (get_or, at_x, c, e) k
        | inr c ↦ elim (Option-cases (lookup x b)) [
          | inl e ↦ rw (get_or, at_x, c) (h.unwritten x e)
          | inr (t, e) ↦ cc (c, branch_keys-holds [] branches b x m (λ q. cc))
        ]
      ]
