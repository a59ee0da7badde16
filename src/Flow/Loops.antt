-- ===== src/Flow/Loops.antt =====
-- After a loop or a block, and after a construct that may rebind anything.
use itaruby.Base.{
  true, [], ◌∷◌, Option, none, some, Text, ◌==◌, if◌then◌else◌, ◌≡◌, ◌≢◌, ◌⊎◌, inl, inr, refl, ◌∙◌,
  Option-cases, Bool-cases, beq-cases, beq_refl, lookup, lookup-insert, text_eq,
}
use itaruby.Types.{Ty, nil}
use itaruby.Types.Equality.{ty_eq}
use itaruby.Types.Union.{union}
use itaruby.Types.Union.Meaning.{Has, Has-union_iff}
use itaruby.Flow.{Env, get_or, merge_var, merge_loop_env, spill_var, spill_block_writes}
use itaruby.Flow.Stores.{Agrees}

-- Each variable has one entry, as in a hash map.
abbrev pub IsMap : Env → Type 0
IsMap [] = Unit
IsMap ((k, v) ∷ m) = (lookup k m ≡ none) × IsMap m

-- The type after the loop of a variable with type `v` in the body.
abbrev pub merged : Option Ty → Ty → Ty
merged (some prev) v = if prev == v then prev else union prev v
merged none v = union nil v

abbrev pub after_loop : Option Ty → Option Ty → Option Ty
after_loop before (some v) = some (merged before v)
after_loop before none = before

lookup-merge_var :
    (base : Env) (k x : Text) (v : Ty)
    → lookup x (merge_var base k v)
      ≡ (if k == x then some (merged (lookup x base) v) else lookup x base)
unfolding merge_var
lookup-merge_var base k x v = elim (beq-cases k x) [
  | inl e ↦ rw (← e) (
      rw (beq_refl k) (elim (Option-cases (lookup k base)) [
        | inl n ↦ rw (merge_var, n) (lookup-insert k k (union nil v) base ∙ rw (beq_refl k))
        | inr (p, s) ↦ elim (Bool-cases (p == v)) [
          | inl t ↦ rw (merge_var, s, t) s
          | inr f ↦ rw (merge_var, s, f) (lookup-insert k k (union p v) base ∙ rw (beq_refl k))
        ]
      ]))
  | inr d ↦ rw d (elim (Option-cases (lookup k base)) [
    | inl n ↦ rw (merge_var, n) (lookup-insert k x (union nil v) base ∙ rw d)
    | inr (p, s) ↦ elim (Bool-cases (p == v)) [
      | inl t ↦ rw (merge_var, s, t)
      | inr f ↦ rw (merge_var, s, f) (lookup-insert k x (union p v) base ∙ rw d)
    ]
  ])
]

lookup-merge_loop_env :
    (body base : Env) (x : Text)
    → IsMap body
    → lookup x (merge_loop_env base body) ≡ after_loop (lookup x base) (lookup x body)
unfolding merge_loop_env
lookup-merge_loop_env [] base x d = refl
lookup-merge_loop_env ((k, v) ∷ body) base x d = elim (beq-cases k x) [
  | inl e ↦ rw (← e) (
      rw (beq_refl k) (
        lookup-merge_loop_env body (merge_var base k v) k d.1
        ∙ rw d.0 (rw (beq_refl k) at (lookup-merge_var base k k v))))
  | inr n ↦ rw n (
      lookup-merge_loop_env body (merge_var base k v) x d.1
      ∙ rw (rw n at (lookup-merge_var base k x v)))
]

-- The type after the block of an outer variable with type `v` in the block.
abbrev pub spilled : Option Ty → Option Ty → Option Ty
spilled (some prev) (some v) = some (merged (some prev) v)
spilled none v = none
spilled outer none = outer

lookup-spill_var :
    (outer : Env) (k x : Text) (v : Ty)
    → lookup x (spill_var outer k v)
      ≡ (if k == x then spilled (lookup x outer) (some v) else lookup x outer)
unfolding spill_var
lookup-spill_var outer k x v = elim (Option-cases (lookup k outer)) [
  | inl n ↦ elim (beq-cases k x) [
    | inl e ↦ rw (← e) (rw (spill_var, n, beq_refl k) n)
    | inr d ↦ rw (spill_var, n, d)
  ]
  | inr (p, s) ↦ elim (Bool-cases (p == v)) [
    | inl t ↦ elim (beq-cases k x) [
      | inl e ↦ rw (← e) (rw (spill_var, s, t, beq_refl k) s)
      | inr d ↦ rw (spill_var, s, t, d)
    ]
    | inr f ↦
        rw (spill_var, s, f)
          (lookup-insert k x (union p v) outer
            ∙ elim (beq-cases k x) [ inl e ↦ rw (← e) (rw (beq_refl k, s, f)) | inr d ↦ rw d ])
  ]
]

spilled_again : (o : Option Ty) (v : Ty) → spilled (spilled o (some v)) none ≡ spilled o (some v)
spilled_again none v = refl
spilled_again (some p) v = refl

lookup-spill_block_writes :
    (block outer : Env) (x : Text)
    → IsMap block
    → lookup x (spill_block_writes outer block) ≡ spilled (lookup x outer) (lookup x block)
unfolding spill_block_writes
lookup-spill_block_writes [] outer x d = elim (Option-cases (lookup x outer)) [
  | inl e ↦ rw e
  | inr (t, e) ↦ rw e
]
lookup-spill_block_writes ((k, v) ∷ block) outer x d = elim (beq-cases k x) [
  | inl e ↦ rw (← e) (
      rw (beq_refl k) (
        lookup-spill_block_writes block (spill_var outer k v) k d.1
        ∙ rw (d.0, rw (beq_refl k) at (lookup-spill_var outer k k v))
            (spilled_again (lookup k outer) v)))
  | inr n ↦ rw n (
      lookup-spill_block_writes block (spill_var outer k v) x d.1
      ∙ rw (rw n at (lookup-spill_var outer k x v)))
]

module _ {V : Type 0} (Leaf : Ty → V → Type 0) where
  Has-merged :
      (before : Option Ty) (v : Ty) (w : V)
      → Has Leaf (elim before [ none ↦ nil | some t ↦ t ]) w ⊎ Has Leaf v w
      → Has Leaf (merged before v) w
  Has-merged none v w h = (Has-union_iff Leaf nil v w).1 h
  Has-merged (some p) v w h = elim (beq-cases p v) [
    | inl e ↦
        let same : (p == v) ≡ true = rw (← e) (beq_refl p) in
        rw (merged, same) (elim h [ inl k ↦ k | inr k ↦ rw e k ])
    | inr d ↦ rw (merged, d) ((Has-union_iff Leaf p v w).1 h)
  ]

  -- For a body environment that has each variable once and all variables from before the loop, a
  -- store that agrees with the environment before the loop, or with that of the body, agrees with
  -- the environment after merge_loop_env.
  pub merge_loop_env-Agrees :
      (σ : Text → V) (base body : Env)
      → IsMap body
      → ((x : Text) → lookup x body ≡ none → lookup x base ≡ none)
      → Agrees Leaf σ base ⊎ Agrees Leaf σ body
      → Agrees Leaf σ (merge_loop_env base body)
  merge_loop_env-Agrees σ base body d keeps h x =
      let at_x = lookup-merge_loop_env body base x d in
      elim (Option-cases (lookup x body)) [
        | inl e ↦
            rw (get_or, at_x, e, keeps x e)
              (elim h [ inl k ↦ rw (get_or, keeps x e) at (k x) | inr k ↦ rw (get_or, e) at (k x) ])
        | inr (v, e) ↦
            rw (get_or, at_x, e)
              (Has-merged (lookup x base) v (σ x)
                (elim h [ inl k ↦ inl (k x) | inr k ↦ inr (rw (get_or, e) at (k x)) ]))
      ]

  -- For a block environment that has each variable once and all outer variables, and a store that
  -- is nil at variables without an outer entry: if the store agrees with the outer environment, or
  -- gives each outer variable a value of its type in the block, it agrees with the outer
  -- environment after spill_block_writes.
  pub spill_block_writes-Agrees :
      (σ : Text → V) (outer block : Env)
      → IsMap block
      → ((x : Text) → lookup x block ≡ none → lookup x outer ≡ none)
      → ((x : Text) → lookup x outer ≡ none → Has Leaf nil (σ x))
      → Agrees Leaf σ outer
        ⊎ ((x : Text) → lookup x outer ≢ none → Has Leaf (get_or block x nil) (σ x))
      → Agrees Leaf σ (spill_block_writes outer block)
  spill_block_writes-Agrees σ outer block d keeps fresh h x =
      let at_x = lookup-spill_block_writes block outer x d in
      elim (Option-cases (lookup x outer)) [
        | inl e ↦ rw (get_or, at_x, e) (fresh x e)
        | inr (p, e) ↦ elim (Option-cases (lookup x block)) [
          | inl n ↦ cc (keeps x n)
          | inr (v, b) ↦
              rw (get_or, at_x, e, b)
                (Has-merged (some p) v (σ x) (elim h [
                  | inl k ↦ inl (rw (get_or, e) at (k x))
                  | inr k ↦ inr (rw (get_or, b) at (k x (λ q. cc)))
                ]))
        ]
      ]
