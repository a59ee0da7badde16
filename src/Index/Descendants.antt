-- ===== src/Index/Descendants.antt =====
-- crates/itaruby_semantic/src/index.rs: the worklist over the subclasses of a class, which
-- `descendant_defines` and `abstract_family_defines` share. The stack's top is the list's head.
-- `none` of the outer `Option` is no result: a panic, or the bound on the iterations is reached.
pub mod Search
pub mod Answers
pub mod Passes
pub mod Singleton
use itaruby.Base.{
  ℕ, zero, suc, ◌+◌, Bool, true, false, ◌||◌, List, [], ◌∷◌, Option, none, some, Text, codes, ◌==◌,
  if◌then◌else◌, nat_eq, text_eq, contains, lookup, length, ◌>>=◌,
}
use itaruby.Types.{ClassId}
use itaruby.Index.{OpenReason, abstract_raise, MethodSig, ClassDef, ProjectIndex}
use itaruby.Index.Resolve.{class}
use itaruby.Index.Ancestors.{Chain}

-- `test` is what the loop over `kids` asks of a kid: whether to return `true` at once.
module _ (test : ClassId → Option Bool) (subclasses : List (ClassId × List ClassId)) where
  -- The loop over `kids`: `some none` is the early return, else the stack with the kids.
  pub push_kids : List ClassId → List ClassId → Option (Option (List ClassId))
  push_kids [] stack = some (some stack)
  push_kids (kid ∷ kids) stack =
      let rest = push_kids kids (kid ∷ stack) in test kid >>= λ hit. if hit then some none else rest

  pub search : ℕ → List ClassId → List ClassId → Option Bool
  unfolding push_kids
  search zero stack seen = none
  search (suc fuel) [] seen = some false
  search (suc fuel) (cur ∷ stack) seen = elim (contains seen cur) [
    | true ↦ search fuel stack seen
    | false ↦ elim (lookup cur subclasses) [
      | none ↦ search fuel stack (cur ∷ seen)
      | some kids ↦
          push_kids kids stack
          >>= elim [ none ↦ some true | some stack' ↦ search fuel stack' (cur ∷ seen) ]
    ]
  ]

-- How many kids there are to push.
unfoldable pub total_kids : List (ClassId × List ClassId) → ℕ
total_kids [] = 0
total_kids ((k, kids) ∷ m) = length kids + total_kids m

-- One class is pushed at the start, and each class's kids once.
abbrev pub search_from :
    (ClassId → Option Bool) → List (ClassId × List ClassId) → ClassId → Option Bool
search_from test subclasses id =
    search test subclasses (suc (suc (total_kids subclasses))) (id ∷ []) []

-- `map.contains_key(name)`
abbrev pub has_key : Text → List (Text × MethodSig) → Bool
has_key name m = elim (lookup name m) [ none ↦ false | some _ ↦ true ]

-- `Some(OpenReason::AbstractRaise)`
abbrev pub is_abstract_raise : Option OpenReason → Bool
is_abstract_raise (some abstract_raise) = true
is_abstract_raise _ = false

-- The class is open for another reason than an abstract method's `raise`.
abbrev pub is_unreadable : ClassDef → Bool
is_unreadable c =
    if c.is_open then (if is_abstract_raise c.open_reason then false else true) else false

abbrev pub own_methods : Bool → ClassDef → List (Text × MethodSig)
own_methods singleton c = if singleton then c.singleton_methods else c.methods

-- `chain.iter().any(…)` over the classes of a chain.
pub any_class : ProjectIndex → (ClassDef → Bool) → List ClassId → Option Bool
any_class index f [] = some false
any_class index f (a ∷ chain) =
    let rest = any_class index f chain in class index a >>= λ c. if f c then some true else rest

pub answers_descendant : ProjectIndex → Text → Bool → ClassId → Option Bool
answers_descendant index name singleton kid =
    class index kid >>= λ c. some (c.is_open || has_key name (own_methods singleton c))

unfoldable pub descendant_defines : ProjectIndex → ClassId → Text → Bool → Option Bool
unfolding answers_descendant search
descendant_defines index id name singleton =
    search_from (answers_descendant index name singleton) index.subclasses id

abbrev pub supplies : Text → ClassDef → Bool
supplies name c = has_key name c.methods || is_unreadable c

abbrev pub answers_any_name : Text → ClassDef → Bool
answers_any_name name c =
    has_key name c.methods
    || has_key (codes "method_missing") c.methods
    || has_key (codes "respond_to_missing?") c.methods

module _ (ancestors : ClassId → Option Chain) (index : ProjectIndex) where
  pub answers_family : Text → ClassId → Option Bool
  unfolding any_class
  answers_family name kid = class index kid >>= λ c.
      if answers_any_name name c
      then some true
      else if c.is_open
      then some (is_unreadable c)
      else (ancestors kid >>= λ chain.
          if chain.1 then any_class index (supplies name) chain.0 else some true)

  unfoldable pub abstract_family_defines : ClassId → Text → Option Bool
  unfolding answers_family search
  abstract_family_defines receiver name =
      search_from (answers_family name) index.subclasses receiver
