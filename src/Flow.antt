-- ===== src/Flow.antt =====
-- crates/itaruby_semantic/src/check.rs: the environment of local variables, `is_a?`/`nil?`
-- narrowing, and the joins after branches, loops and blocks. `Env` is a hash map from a variable's
-- name to its type; a loop over a hash map is a loop over the list, in some order of the keys.
pub mod Stores
pub mod Narrowing
pub mod Joins
pub mod Loops
mod Tests
use itaruby.Base.{
  Bool, true, false, not, List, [], ◌∷◌, map, Option, none, some, Text, ◌==◌, if◌then◌else◌, any,
  filter, contains, nat_beq, text_eq, lookup, insert,
}
use itaruby.Types.{
  Ty, unknown, nil, instance_of, class_of, array, hash, union_of, to_list, from_list, ty_beq,
}
use itaruby.Types.Equality.{ty_eq}
use itaruby.Types.Union.{union}

abbrev pub Env : Type 0
Env = List (Text × Ty)

-- Element types are ignored.
unfoldable pub ty_class_eq : Ty → Ty → Bool
ty_class_eq (array _) (array _) = true
ty_class_eq (hash _ _) (hash _ _) = true
ty_class_eq (instance_of x) (instance_of y) = nat_beq x y
ty_class_eq (class_of x) (class_of y) = nat_beq x y
ty_class_eq a b = ty_beq a b

-- `match remaining.as_slice()` in `eliminate_union_member`
abbrev pub remaining_member : List Ty → Option Ty
remaining_member [] = none
remaining_member (single ∷ []) = some single
remaining_member remaining = some (union_of (from_list remaining))

pub eliminate_part : List Ty → Ty → Option Ty
eliminate_part parts tested =
    if contains parts unknown
    then none
    else if not (any (λ p. ty_class_eq p tested) parts)
    then none
    else remaining_member (filter (λ p. not (ty_class_eq p tested)) parts)

unfoldable pub eliminate_union_member : Ty → Ty → Option Ty
unfolding eliminate_part
eliminate_union_member (union_of ts) tested = eliminate_part (to_list ts) tested
eliminate_union_member cur tested = none

-- `match remaining.as_slice()` in `strip_nil`
abbrev pub remaining_type : List Ty → Ty
remaining_type [] = unknown
remaining_type (single ∷ []) = single
remaining_type remaining = union_of (from_list remaining)

unfoldable pub strip_nil : Ty → Ty
strip_nil nil = unknown
strip_nil (union_of ts) = remaining_type (filter (λ p. not (p == nil)) (to_list ts))
strip_nil other = other

pub data NarrowKind : Type 0 where
  is_a : Ty → NarrowKind
  nil_check truthy nil_check_or_guard : NarrowKind

pub record Narrow : Type 0 where
  pub var : Text
  pub kind : NarrowKind

-- `env.get(name).cloned().unwrap_or(default)`
abbrev pub get_or : Env → Text → Ty → Ty
get_or env name default = elim (lookup name env) [ none ↦ default | some t ↦ t ]

pub narrow_true : NarrowKind → Text → Env → Env
narrow_true (is_a t) var env = insert var t env
narrow_true nil_check var env = insert var nil env
narrow_true truthy var env = insert var (strip_nil (get_or env var unknown)) env
narrow_true nil_check_or_guard var env = env

unfoldable pub apply_narrow_true : Env → Narrow → Env
unfolding narrow_true
apply_narrow_true env nw = narrow_true nw.kind nw.var env

pub narrow_false : NarrowKind → Text → Env → Env → Env
narrow_false nil_check var env base = insert var (strip_nil (get_or base var unknown)) env
narrow_false nil_check_or_guard var env base = insert var (strip_nil (get_or base var unknown)) env
narrow_false (is_a tested) var env base =
    elim (eliminate_union_member (get_or base var unknown) tested) [
      | none ↦ env
      | some narrowed ↦ insert var narrowed env
    ]
narrow_false truthy var env base = env

unfoldable pub apply_narrow_false : Env → Narrow → Env → Env
unfolding narrow_false
apply_narrow_false env nw base = narrow_false nw.kind nw.var env base

-- The type that a branch gives to a variable: its own, the one before the branch, or `Nil`.
abbrev pub branch_ty : Text → Env → Env → Ty
branch_ty key base b = elim (lookup key b) [ some t ↦ t | none ↦ get_or base key nil ]

pub join_ty : Text → Env → Option Ty → List Env → Option Ty
join_ty key base ty [] = ty
join_ty key base ty (b ∷ bs) =
    join_ty key base
      (some
        (elim ty [ some prev ↦ union prev (branch_ty key base b) | none ↦ branch_ty key base b ]))
      bs

pub join_key : Text → List Env → Env → Env
join_key key branches base = elim (join_ty key base none branches) [
  | some t ↦ insert key t base
  | none ↦ base
]

-- The loop `for key in keys`, for the keys in a given order.
unfoldable pub join_keys : List Text → List Env → Env → Env
unfolding join_key join_ty
join_keys [] branches base = base
join_keys (key ∷ keys) branches base = join_keys keys branches (join_key key branches base)

-- `keys.extend(b.keys().cloned())`, on a hash set.
unfoldable pub extend_keys : List Text → Env → List Text
extend_keys keys [] = keys
extend_keys keys ((k, _) ∷ b) = extend_keys (if contains keys k then keys else k ∷ keys) b

unfoldable pub branch_keys : List Text → List Env → List Text
unfolding extend_keys
branch_keys keys [] = keys
branch_keys keys (b ∷ bs) = branch_keys (extend_keys keys b) bs

unfoldable pub join_envs : Env → List Env → Env
unfolding join_keys branch_keys
join_envs base branches = join_keys (branch_keys [] branches) branches base

abbrev widen_env : Env → Env
widen_env env = map (λ entry. (entry.0, unknown)) env

pub merge_var : Env → Text → Ty → Env
merge_var base k v = elim (lookup k base) [
  | some prev ↦ if prev == v then base else insert k (union prev v) base
  | none ↦ insert k (union nil v) base
]

unfoldable pub merge_loop_env : Env → Env → Env
unfolding merge_var
merge_loop_env base [] = base
merge_loop_env base ((k, v) ∷ body) = merge_loop_env (merge_var base k v) body

pub spill_var : Env → Text → Ty → Env
spill_var outer k v = elim (lookup k outer) [
  | some prev ↦ if prev == v then outer else insert k (union prev v) outer
  | none ↦ outer
]

unfoldable pub spill_block_writes : Env → Env → Env
unfolding spill_var
spill_block_writes outer [] = outer
spill_block_writes outer ((k, v) ∷ block_env) = spill_block_writes (spill_var outer k v) block_env
