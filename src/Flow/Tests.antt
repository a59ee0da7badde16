-- ===== src/Flow/Tests.antt =====
-- Narrowing and the joins at concrete inputs.
use itaruby.Base.{
  [], ◌∷◌, none, Text, codes, ◌==◌, if◌then◌else◌, ◌≡◌, inl, inr, refl, Bool-cases, beq-cases, Memᴰ,
  lookup, text_eq,
}
use mathlib.Core.Option.{some-injective}
use itaruby.Types.{Ty, nil, int, str, ty_beq}
use itaruby.Types.Tests.{Value, nil_value, str_value, Leaf, int_or_str}
use itaruby.Types.Union.Meaning.{Has}
use itaruby.Flow.{
  get_or, Env, is_a, truthy, ty_class_eq, apply_narrow_true, apply_narrow_false, join_keys,
  join_envs, merge_loop_env, spill_block_writes,
}
use itaruby.Flow.Stores.{Agrees}
use itaruby.Flow.Narrowing.{IsNotA, apply_narrow_true-Agrees, apply_narrow_false-Agrees}
use itaruby.Flow.Joins.{AgreesAfter, join_keys_order, join_envs-Agrees}
use itaruby.Flow.Loops.{merge_loop_env-Agrees, spill_block_writes-Agrees}

abbrev x_name : Text
x_name = codes "x"

abbrev str_store : Text → Value
str_store name = if x_name == name then str_value [] else nil_value

abbrev before : Env
before = (x_name, int_or_str) ∷ []

abbrev x_is_int : Env
x_is_int = (x_name, int) ∷ []

abbrev x_is_str : Env
x_is_str = (x_name, str) ∷ []

str_is_not_int : IsNotA Leaf int (str_value [])
unfolding ty_class_eq ty_beq
str_is_not_int int e h = h
str_is_not_int _ e h = cc

str_store-Agrees_one :
    (t : Ty) → Has Leaf t (str_value []) → Agrees Leaf str_store ((x_name, t) ∷ [])
str_store-Agrees_one t h x = elim (Bool-cases (x_name == x)) [
  | inl e ↦ rw (get_or, lookup, e, str_store) h
  | inr n ↦ rw (get_or, lookup, n, str_store) tt
]

str_store-Agrees : Agrees Leaf str_store before
str_store-Agrees = str_store-Agrees_one int_or_str (inr (inl tt))

apply_narrow_true-Agrees_example :
    Agrees Leaf str_store (apply_narrow_true before (record { var = x_name; kind = truthy }))
apply_narrow_true-Agrees_example =
    apply_narrow_true-Agrees Leaf str_store before (record { var = x_name; kind = truthy })
      str_store-Agrees (λ h. h)

apply_narrow_false-Agrees_example :
    Agrees Leaf str_store
      (apply_narrow_false before (record { var = x_name; kind = is_a int }) before)
apply_narrow_false-Agrees_example =
    apply_narrow_false-Agrees Leaf str_store before (record { var = x_name; kind = is_a int })
      before str_store-Agrees str_store-Agrees str_is_not_int

join_keys_order_example :
    lookup x_name (join_keys (x_name ∷ codes "y" ∷ []) (x_is_int ∷ x_is_str ∷ []) [])
    ≡ lookup x_name (join_keys (codes "y" ∷ x_name ∷ []) (x_is_int ∷ x_is_str ∷ []) [])
join_keys_order_example =
    join_keys_order (x_name ∷ codes "y" ∷ []) (codes "y" ∷ x_name ∷ []) (x_is_int ∷ x_is_str ∷ [])
      [] x_name (refl, (refl, tt)) (refl, (refl, tt)) refl

y_is_nil : AgreesAfter Leaf str_store before ((codes "y", nil) ∷ [])
y_is_nil = record {
  written = λ x t e. elim (beq-cases (codes "y") x) [
    | inl q ↦ rw (← q) (rw (← some-injective _ _ (rw (← q) at e)) tt)
    | inr n ↦ cc (rw (lookup, n) at e)
  ];
  unwritten = λ x e. str_store-Agrees x;
}

-- The branch does not assign `x`, which keeps its type from before.
join_envs-Agrees_example :
    Agrees Leaf str_store (join_envs before (x_is_int ∷ ((codes "y", nil) ∷ []) ∷ []))
join_envs-Agrees_example =
    join_envs-Agrees Leaf str_store before ((codes "y", nil) ∷ [])
      (x_is_int ∷ ((codes "y", nil) ∷ []) ∷ []) (Memᴰ.tail (Memᴰ.head refl)) y_is_nil

same_variables :
    (t u : Ty) (x : Text) → lookup x ((x_name, t) ∷ []) ≡ none → lookup x ((x_name, u) ∷ []) ≡ none
same_variables t u x e = elim (Bool-cases (x_name == x)) [
  | inl b ↦ cc (rw (lookup, b) at e)
  | inr b ↦ rw (lookup, b)
]

str_store_fresh : (x : Text) → lookup x before ≡ none → Has Leaf nil (str_store x)
str_store_fresh x e = elim (Bool-cases (x_name == x)) [
  | inl b ↦ cc (rw (lookup, b) at e)
  | inr b ↦ rw (str_store, b) tt
]

merge_loop_env-Agrees_example : Agrees Leaf str_store (merge_loop_env x_is_int x_is_str)
merge_loop_env-Agrees_example =
    merge_loop_env-Agrees Leaf str_store x_is_int x_is_str (refl, tt) (same_variables str int)
      (inr (str_store-Agrees_one str tt))

spill_block_writes-Agrees_example : Agrees Leaf str_store (spill_block_writes before x_is_str)
spill_block_writes-Agrees_example =
    spill_block_writes-Agrees Leaf str_store before x_is_str (refl, tt)
      (same_variables str int_or_str) str_store_fresh (inl str_store-Agrees)
