-- ===== src/Index/Names.antt =====
-- Constant paths such as `Outer::Inner`, as texts.
use itaruby.Base.{
  Bool, false, ◌&&◌, ◌||◌, List, [], ◌∷◌, ◌++◌, Option, none, some, Text, ◌==◌, if◌then◌else◌,
  nat_eq,
}

-- `str::strip_prefix`
unfoldable pub strip_prefix : Text → Text → Option Text
strip_prefix [] s = some s
strip_prefix (c ∷ p) [] = none
strip_prefix (c ∷ p) (d ∷ s) = if c == d then strip_prefix p s else none

abbrev pub separator : Text
separator = b':' ∷ b':' ∷ []

-- `name.contains("::")`
unfoldable pub has_separator : Text → Bool
has_separator [] = false
has_separator (c ∷ []) = false
has_separator (c ∷ d ∷ s) = (c == b':' && d == b':') || has_separator (d ∷ s)

-- `format!("{level}::{name}")`
abbrev pub qualified : Text → Text → Text
qualified level name = level ++ (separator ++ name)

-- `nesting.last()`
abbrev pub last {ℓ} : {A : Type ℓ} → List A → Option A
last [] = none
last (x ∷ []) = some x
last (x ∷ y ∷ xs) = last (y ∷ xs)

-- `nesting.get(nesting.len().checked_sub(2)?)`
abbrev pub second_last {ℓ} : {A : Type ℓ} → List A → Option A
second_last [] = none
second_last (x ∷ []) = none
second_last (x ∷ y ∷ []) = some x
second_last (x ∷ y ∷ z ∷ xs) = second_last (y ∷ z ∷ xs)
