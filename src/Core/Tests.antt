-- ===== src/Core/Tests.antt =====
-- The core tables at concrete inputs.
use itaruby.Base.{true, some, codes, ◌≡◌, ◌⊎◌, refl, contains, text_eq}
use itaruby.Types.{unknown, array, int}
use itaruby.Core.Data.{CoreClass, CoreRet, method}
use itaruby.Core.{
  core_method, core_ret_to_ty, check_core_arity, core_const_ty, trim_separators, is_core_namespace,
}
use itaruby.Core.Names.{core_inventory_names, core_pollution_names, core_namespace_names}
use itaruby.Core.Methods.{Report, core_ret_to_ty-known, check_core_arity-reports}
use itaruby.Core.Constants.{Named, core_pollution_names-namespace, core_const_ty-Named}

finds_pop : core_method CoreClass.array (codes "pop") ≡ some (method 0 (some 1) CoreRet.elem)
unfolding core_method
finds_pop = refl

reports_two : check_core_arity (method 0 (some 1) CoreRet.elem) 2 ≡ some (0, 1)
unfolding check_core_arity
reports_two = refl

absolute_integer : core_const_ty (codes "::Integer") ≡ some int
unfolding core_const_ty
absolute_integer = refl

pops_unknown : core_ret_to_ty CoreRet.elem (array unknown) ≡ unknown
unfolding core_ret_to_ty
pops_unknown = refl

core_ret_to_ty-known_example : (CoreRet.elem ≡ CoreRet.unknown) ⊎ (array unknown ≡ array unknown)
core_ret_to_ty-known_example =
    core_ret_to_ty-known CoreClass.array (codes "pop") (array unknown) finds_pop refl pops_unknown

check_core_arity-reports_example : Report (method 0 (some 1) CoreRet.elem) 2 (0, 1)
check_core_arity-reports_example =
    check_core_arity-reports CoreClass.array (codes "pop") 2 finds_pop reports_two

core_const_ty-Named_example : Named (trim_separators (codes "::Integer")) int
core_const_ty-Named_example = core_const_ty-Named (codes "::Integer") absolute_integer

core_pollution_names-namespace_example :
    ((contains (core_inventory_names CoreClass.str) (codes "Kernel") ≡ true)
      → contains (core_pollution_names CoreClass.str) (codes "Kernel") ≡ true)
    × ((contains (core_pollution_names CoreClass.str) (codes "Kernel") ≡ true)
        → is_core_namespace (codes "Kernel") ≡ true)
    × (is_core_namespace (codes "Kernel") ≡ contains core_namespace_names (codes "Kernel"))
core_pollution_names-namespace_example =
    core_pollution_names-namespace CoreClass.str (codes "Kernel")
