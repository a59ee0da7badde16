-- ===== src/Core/Constants.antt =====
-- How the lists of core names agree with each other and with the types.
use itaruby.Base.{
  true, ◌||◌, List, Option, some, Text, codes, ◌==◌, ◌≡◌, inl, inr, refl, if◌then◌else◌, text_eq,
  contains, contains_iff, all, all_of_mem, eq_of_beq, Bool-cases,
}
use mathlib.Core.Option.{some-injective}
use mathlib.Core.Path.{subst}
use itaruby.Types.{Ty, unknown, array, hash}
use itaruby.Core.Data.{CoreClass}
use itaruby.Core.Names.{core_inventory_names, core_pollution_names, core_namespace_names}
use itaruby.Core.{core_class_of, trim_separators, core_const_ty, is_core_namespace}

contains-all :
    (xs ys : List Text) (n : Text)
    → all (contains ys) xs ≡ true
    → contains xs n ≡ true
    → contains ys n ≡ true
contains-all xs ys n a h = all_of_mem (contains ys) n xs a ((contains_iff xs n).0 h)

own_pollutes :
    (class : CoreClass)
    → all (contains (core_pollution_names class)) (core_inventory_names class) ≡ true
own_pollutes CoreClass.integer = refl
own_pollutes CoreClass.float = refl
own_pollutes CoreClass.str = refl
own_pollutes CoreClass.sym = refl
own_pollutes CoreClass.array = refl
own_pollutes CoreClass.hash = refl
own_pollutes CoreClass.nil = refl
own_pollutes CoreClass.bool = refl
own_pollutes CoreClass.object = refl

pollution_in :
    (class : CoreClass) → all (contains core_namespace_names) (core_pollution_names class) ≡ true
pollution_in CoreClass.integer = refl
pollution_in CoreClass.float = refl
pollution_in CoreClass.str = refl
pollution_in CoreClass.sym = refl
pollution_in CoreClass.array = refl
pollution_in CoreClass.hash = refl
pollution_in CoreClass.nil = refl
pollution_in CoreClass.bool = refl
pollution_in CoreClass.object = refl

-- For every core class and every name: an inventory name of the class is one of its pollution
-- names, a pollution name is a core namespace, and is_core_namespace accepts exactly the names that
-- core_namespace_names lists.
pub core_pollution_names-namespace :
    (class : CoreClass) (n : Text)
    → ((contains (core_inventory_names class) n ≡ true)
        → contains (core_pollution_names class) n ≡ true)
      × ((contains (core_pollution_names class) n ≡ true) → is_core_namespace n ≡ true)
      × (is_core_namespace n ≡ contains core_namespace_names n)
unfolding is_core_namespace
core_pollution_names-namespace class n = (
  contains-all (core_inventory_names class) (core_pollution_names class) n (own_pollutes class),
  contains-all (core_pollution_names class) core_namespace_names n (pollution_in class),
  refl,
)

-- A core class that the type has and that the name names.
abbrev pub Named : Text → Ty → Type 0
Named name t =
    (class : CoreClass) × (core_class_of t ≡ some class)
    × (contains (core_inventory_names class) name ≡ true)

Named-if :
    (name key : Text) (class : CoreClass) (t : Ty) (rest : Option Ty) {u : Ty}
    → core_class_of t ≡ some class
    → contains (core_inventory_names class) key ≡ true
    → (if name == key then some t else rest) ≡ some u
    → (rest ≡ some u → Named name u)
    → Named name u
Named-if name key class t rest c k e next = elim (Bool-cases (name == key)) [
  | inr d ↦ next (rw d at e)
  | inl h ↦
      subst (Named name) (some-injective _ _ (rw h at e)) (class, c, rw (eq_of_beq name key h) k)
]

bool_name :
    (name : Text)
    → (name == codes "TrueClass" || name == codes "FalseClass") ≡ true
    → contains (core_inventory_names CoreClass.bool) name ≡ true
bool_name name h = elim (Bool-cases (name == codes "TrueClass")) [
  | inl e ↦ rw (eq_of_beq name (codes "TrueClass") e) refl
  | inr d ↦ rw (eq_of_beq name (codes "FalseClass") (rw d at h)) refl
]

Named-bool :
    (name : Text) (rest : Option Ty) {u : Ty}
    → (if name == codes "TrueClass" || name == codes "FalseClass" then some Ty.bool else rest)
      ≡ some u
    → (rest ≡ some u → Named name u)
    → Named name u
Named-bool name rest e next =
    elim (Bool-cases (name == codes "TrueClass" || name == codes "FalseClass")) [
      | inr d ↦ next (rw d at e)
      | inl h ↦
          subst (Named name) (some-injective _ _ (rw h at e))
            (CoreClass.bool, refl, bool_name name h)
    ]

-- A name that core_const_ty gives a type is, without leading separators, one of the inventory names
-- of the core class of that type.
pub core_const_ty-Named :
    (name : Text) {t : Ty} → core_const_ty name ≡ some t → Named (trim_separators name) t
unfolding core_const_ty
core_const_ty-Named name e =
    Named-if _ (codes "Integer") CoreClass.integer Ty.int _ refl refl e (λ e₁.
      Named-if _ (codes "Float") CoreClass.float Ty.float _ refl refl e₁ (λ e₂.
        Named-if _ (codes "String") CoreClass.str Ty.str _ refl refl e₂ (λ e₃.
          Named-if _ (codes "Symbol") CoreClass.sym Ty.sym _ refl refl e₃ (λ e₄.
            Named-if _ (codes "NilClass") CoreClass.nil Ty.nil _ refl refl e₄ (λ e₅.
              Named-bool _ _ e₅ (λ e₆.
                Named-if _ (codes "Array") CoreClass.array (array unknown) _ refl refl e₆ (λ e₇.
                  Named-if _ (codes "Hash") CoreClass.hash (hash unknown unknown) _ refl refl e₇
                    (λ e₈. cc))))))))
