-- ===== src/Core.antt =====
-- crates/itaruby_semantic/src/core.rs: the tables of the core methods, and of check.rs what reads
-- them: the return type of a core method and the test of its number of arguments. The inventory of
-- the core methods and constants, an embedded text file, is a parameter: a set of lines.
pub mod Data
pub mod Tables
pub mod Names
pub mod Methods
pub mod Constants
mod Tests
use itaruby.Base.{
  ℕ, Bool, true, false, ◌&&◌, ◌||◌, List, [], ◌∷◌, ◌++◌, Option, none, some, Text, codes, ◌==◌,
  if◌then◌else◌, text_eq, nat_eq, contains, leb, zero, suc, ◌+◌,
}
use itaruby.Types.{Ty, unknown, array, hash, instance_of, class_of, union_of}
use itaruby.Index.Names.{strip_prefix, separator}
use itaruby.Core.Data.{CoreClass, CoreRet, CoreMethod, Arm, arm}
use itaruby.Core.Tables.{
  integer_arms, float_arms, str_arms, sym_arms, array_arms, hash_arms, nil_arms, bool_arms,
  object_arms, lexical_self_methods,
}
use itaruby.Core.Names.{
  kernel_private_instance_methods, gem_kernel_methods, test_framework_object_mixin_methods,
  active_support_object_mixin_methods, class_module_only_methods, core_namespaces,
  known_core_constants,
}

-- The first arm that has the name.
unfoldable pub find_arm : Text → List Arm → Option CoreMethod
find_arm name [] = none
find_arm name (arm names m ∷ arms) = if contains names name then some m else find_arm name arms

abbrev pub arms_of : CoreClass → List Arm
arms_of CoreClass.integer = integer_arms
arms_of CoreClass.float = float_arms
arms_of CoreClass.str = str_arms
arms_of CoreClass.sym = sym_arms
arms_of CoreClass.array = array_arms
arms_of CoreClass.hash = hash_arms
arms_of CoreClass.nil = nil_arms
arms_of CoreClass.bool = bool_arms
arms_of CoreClass.object = object_arms

unfoldable pub core_method : CoreClass → Text → Option CoreMethod
unfolding find_arm
core_method class name = find_arm name (arms_of class)

abbrev pub core_class_of : Ty → Option CoreClass
core_class_of Ty.int = some CoreClass.integer
core_class_of Ty.float = some CoreClass.float
core_class_of Ty.str = some CoreClass.str
core_class_of Ty.sym = some CoreClass.sym
core_class_of (array _) = some CoreClass.array
core_class_of (hash _ _) = some CoreClass.hash
core_class_of Ty.nil = some CoreClass.nil
core_class_of Ty.bool = some CoreClass.bool
core_class_of _ = none

pub core_block_keeps_lexical_self : Text → Bool
core_block_keeps_lexical_self name = contains lexical_self_methods name

-- `match recv` in the three arms of `core_ret_to_ty` that look into the receiver.
abbrev pub elem_of : Ty → Ty
elem_of (array e) = e
elem_of _ = unknown

abbrev pub key_array_of : Ty → Ty
key_array_of (hash k _) = array k
key_array_of _ = unknown

abbrev pub val_array_of : Ty → Ty
val_array_of (hash _ v) = array v
val_array_of _ = unknown

unfoldable pub core_ret_to_ty : CoreRet → Ty → Ty
core_ret_to_ty CoreRet.int recv = Ty.int
core_ret_to_ty CoreRet.float recv = Ty.float
core_ret_to_ty CoreRet.str recv = Ty.str
core_ret_to_ty CoreRet.sym recv = Ty.sym
core_ret_to_ty CoreRet.bool recv = Ty.bool
core_ret_to_ty CoreRet.nil recv = Ty.nil
core_ret_to_ty CoreRet.self_same recv = recv
core_ret_to_ty CoreRet.elem recv = elem_of recv
core_ret_to_ty CoreRet.key_array recv = key_array_of recv
core_ret_to_ty CoreRet.val_array recv = val_array_of recv
core_ret_to_ty CoreRet.str_array recv = array Ty.str
core_ret_to_ty CoreRet.unknown recv = unknown

-- What `check_core_arity` reports: the bounds of the message, or nothing.
abbrev pub outside : ℕ → ℕ → ℕ → Option (ℕ × ℕ)
outside min max given = if leb min given && leb given max then none else some (min, max)

unfoldable pub check_core_arity : CoreMethod → ℕ → Option (ℕ × ℕ)
check_core_arity m given = elim m.max_args [ none ↦ none | some max ↦ outside m.min_args max given ]

-- `name.trim_start_matches("::")`
unfoldable pub trim_separators : Text → Text
trim_separators (c ∷ d ∷ s) = if c == b':' && d == b':' then trim_separators s else c ∷ d ∷ s
trim_separators s = s

unfoldable pub core_const_ty : Text → Option Ty
unfolding trim_separators
core_const_ty name =
    let trimmed = trim_separators name in
    if trimmed == codes "Integer"
    then some Ty.int
    else if trimmed == codes "Float"
    then some Ty.float
    else if trimmed == codes "String"
    then some Ty.str
    else if trimmed == codes "Symbol"
    then some Ty.sym
    else if trimmed == codes "NilClass"
    then some Ty.nil
    else if trimmed == codes "TrueClass" || trimmed == codes "FalseClass"
    then some Ty.bool
    else if trimmed == codes "Array"
    then some (array unknown)
    else if trimmed == codes "Hash"
    then some (hash unknown unknown)
    else none

unfoldable pub is_core_namespace : Text → Bool
is_core_namespace name = contains core_namespaces name

module _ (inventory : Text → Bool) where
  unfoldable pub core_inventory_has : Text → Text → Bool
  core_inventory_has class method = inventory (class ++ (b'#' ∷ method))

  unfoldable pub core_inventory_has_const : Text → Bool
  core_inventory_has_const name = inventory (separator ++ name)

  unfoldable pub kernel_object_instance_method : Text → Bool
  unfolding core_inventory_has
  kernel_object_instance_method name =
      core_inventory_has (codes "Object") name
      || contains kernel_private_instance_methods name
      || contains gem_kernel_methods name
      || contains test_framework_object_mixin_methods name
      || contains active_support_object_mixin_methods name

  unfoldable pub kernel_object_singleton_method : Text → Bool
  unfolding kernel_object_instance_method
  kernel_object_singleton_method name =
      kernel_object_instance_method name || contains class_module_only_methods name

  unfoldable pub is_known_core_constant : Text → Bool
  unfolding core_inventory_has_const
  is_known_core_constant name = core_inventory_has_const name || contains known_core_constants name
