-- ===== src/Core/Methods.antt =====
-- What the tables of the core methods promise to the code that reads them.
use itaruby.Base.{
  ℕ, ◌≤◌, ◌<◌, Bool, true, false, ◌&&◌, List, [], ◌∷◌, Option, none, some, Text, ◌≡◌, ◌↔◌, ◌⊎◌, inl,
  inr, refl, arith, ap, ◌∙◌, text_eq, contains, leb, all, Bool-cases, Option-cases,
}
use mathlib.Core.Option.{some-injective}
use mathlib.Core.Path.{subst}
use itaruby.Types.{Ty, unknown, array, hash}
use itaruby.Core.Data.{CoreClass, CoreRet, CoreMethod, Arm, arm}
use itaruby.Core.{
  find_arm, arms_of, core_method, core_class_of, elem_of, key_array_of, val_array_of,
  core_ret_to_ty, outside, check_core_arity,
}

-- The return shapes that look into the receiver stand only with the class that has what they read.
abbrev ret_fits : CoreClass → CoreRet → Bool
ret_fits CoreClass.array CoreRet.elem = true
ret_fits CoreClass.hash CoreRet.key_array = true
ret_fits CoreClass.hash CoreRet.val_array = true
ret_fits _ CoreRet.elem = false
ret_fits _ CoreRet.key_array = false
ret_fits _ CoreRet.val_array = false
ret_fits _ _ = true

abbrev ordered : ℕ → Option ℕ → Bool
ordered min none = true
ordered min (some max) = leb min max

abbrev arm_fits : CoreClass → Arm → Bool
arm_fits class (arm names m) = ret_fits class m.ret && ordered m.min_args m.max_args

find_arm-fits :
    (class : CoreClass) (name : Text) (arms : List Arm) {m : CoreMethod}
    → all (arm_fits class) arms ≡ true
    → find_arm name arms ≡ some m
    → (ret_fits class m.ret && ordered m.min_args m.max_args) ≡ true
unfolding find_arm
find_arm-fits class name [] a e = cc
find_arm-fits class name (arm names n ∷ arms) a e = elim (Bool-cases (contains names name)) [
  | inl h ↦ rw (← some-injective _ _ (rw (find_arm, h) at e)) (ground (arith, a))
  | inr h ↦ find_arm-fits class name arms (ground (arith, a)) (rw (find_arm, h) at e)
]

tables_fit : (class : CoreClass) → all (arm_fits class) (arms_of class) ≡ true
tables_fit CoreClass.integer = refl
tables_fit CoreClass.float = refl
tables_fit CoreClass.str = refl
tables_fit CoreClass.sym = refl
tables_fit CoreClass.array = refl
tables_fit CoreClass.hash = refl
tables_fit CoreClass.nil = refl
tables_fit CoreClass.bool = refl
tables_fit CoreClass.object = refl

core_method-fits :
    (class : CoreClass) (name : Text) {m : CoreMethod}
    → core_method class name ≡ some m
    → (ret_fits class m.ret && ordered m.min_args m.max_args) ≡ true
unfolding core_method
core_method-fits class name e = find_arm-fits class name (arms_of class) (tables_fit class) e

elem_fits : (class : CoreClass) → ret_fits class CoreRet.elem ≡ true → class ≡ CoreClass.array
elem_fits CoreClass.array f = refl
elem_fits _ f = cc

key_fits : (class : CoreClass) → ret_fits class CoreRet.key_array ≡ true → class ≡ CoreClass.hash
key_fits CoreClass.hash f = refl
key_fits _ f = cc

val_fits : (class : CoreClass) → ret_fits class CoreRet.val_array ≡ true → class ≡ CoreClass.hash
val_fits CoreClass.hash f = refl
val_fits _ f = cc

elem_known :
    {P : Type 0} (recv : Ty)
    → core_class_of recv ≡ some CoreClass.array
    → elem_of recv ≡ unknown
    → P ⊎ (recv ≡ array unknown)
elem_known (array e) c u = inr (rw u)
elem_known _ c u = cc

key_known :
    {P : Type 0} (recv : Ty)
    → core_class_of recv ≡ some CoreClass.hash
    → key_array_of recv ≡ unknown
    → P
key_known (hash k v) c u = cc
key_known _ c u = cc

val_known :
    {P : Type 0} (recv : Ty)
    → core_class_of recv ≡ some CoreClass.hash
    → val_array_of recv ≡ unknown
    → P
val_known (hash k v) c u = cc
val_known _ c u = cc

ret_known :
    (class : CoreClass) (ret : CoreRet) (recv : Ty)
    → ret_fits class ret ≡ true
    → core_class_of recv ≡ some class
    → core_ret_to_ty ret recv ≡ unknown
    → (ret ≡ CoreRet.unknown) ⊎ (recv ≡ array unknown)
unfolding core_ret_to_ty
ret_known class CoreRet.int recv f c u = cc
ret_known class CoreRet.float recv f c u = cc
ret_known class CoreRet.str recv f c u = cc
ret_known class CoreRet.sym recv f c u = cc
ret_known class CoreRet.bool recv f c u = cc
ret_known class CoreRet.nil recv f c u = cc
ret_known class CoreRet.self_same recv f c u = cc (rw u at c)
ret_known class CoreRet.elem recv f c u = elem_known recv (c ∙ ap some (elem_fits class f)) u
ret_known class CoreRet.key_array recv f c u = key_known recv (c ∙ ap some (key_fits class f)) u
ret_known class CoreRet.val_array recv f c u = val_known recv (c ∙ ap some (val_fits class f)) u
ret_known class CoreRet.str_array recv f c u = cc
ret_known class CoreRet.unknown recv f c u = inl refl

-- For every method in the table of the core class of a receiver, the return type that
-- core_ret_to_ty gives is unknown only if the table says unknown, or if the receiver is an array of
-- unknown elements: no entry reads an element, a key or a value of a receiver that has none.
pub core_ret_to_ty-known :
    (class : CoreClass) (name : Text) {m : CoreMethod} (recv : Ty)
    → core_method class name ≡ some m
    → core_class_of recv ≡ some class
    → core_ret_to_ty m.ret recv ≡ unknown
    → (m.ret ≡ CoreRet.unknown) ⊎ (recv ≡ array unknown)
core_ret_to_ty-known class name {m} recv e c u =
    ret_known class m.ret recv (ground (arith, core_method-fits class name e)) c u

outside_iff : (lo hi n : ℕ) → (outside lo hi n ≡ none) ↔ ((lo ≤ n) × (n ≤ hi))
outside_iff lo hi n = elim (Bool-cases (leb lo n && leb n hi)) [
  | inl h ↦ rw h ((λ q. (ground (arith, h), ground (arith, h))), (λ q. refl))
  | inr h ↦ rw h ((λ q. cc), (λ (a, b). absurd (ground (arith, h, a, b))))
]

-- What a report of the bounds `lo` and `hi` promises.
abbrev pub Report : CoreMethod → ℕ → ℕ × ℕ → Type 0
Report m given (lo, hi) =
    (lo ≤ hi)
    × (given < lo ⊎ hi < given)
    × ((n : ℕ) → (check_core_arity m n ≡ none) ↔ ((lo ≤ n) × (n ≤ hi)))

-- When check_core_arity reports bounds for a method of the tables, the lower bound is at most the
-- upper one, the given number of arguments lies outside of them, and exactly the numbers within
-- them are accepted.
pub check_core_arity-reports :
    (class : CoreClass) (name : Text) {m : CoreMethod} (given : ℕ) {bounds : ℕ × ℕ}
    → core_method class name ≡ some m
    → check_core_arity m given ≡ some bounds
    → Report m given bounds
unfolding check_core_arity
check_core_arity-reports class name {m} given e r =
    let f = core_method-fits class name e in
    elim (Option-cases m.max_args) [
      | inl q ↦ cc (rw (check_core_arity, q) at r)
      | inr (hi, q) ↦
          let o : leb m.min_args hi ≡ true = ground (arith, rw (ordered, q) at f) in
          elim (Bool-cases (leb m.min_args given && leb given hi)) [
            | inl inside ↦ cc (rw (check_core_arity, q, inside) at r)
            | inr out ↦
                subst (Report m given) (some-injective _ _ (rw (check_core_arity, q, out) at r)) (
                  ground (arith, o),
                  ground (arith, out),
                  λ n. rw (check_core_arity, q) (outside_iff m.min_args hi n),
                )
          ]
    ]
