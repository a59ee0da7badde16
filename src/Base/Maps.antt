-- ===== src/Base/Maps.antt =====
-- A hash map as an association list: `insert` overwrites, so a key stands once.
use mathlib.Core.Path.{◌≡◌, refl}
use mathlib.Core.List.{List, [], ◌∷◌}
use mathlib.Core.Option.{Option, none, some}
use native.Mathlib.Omega.{arith}
use itaruby.Base.Tests.{PartialEq, ◌==◌, if◌then◌else◌}

module _ {ℓ κ} {K : Type ℓ} {V : Type κ} ⦃law : PartialEq K⦄ where
  abbrev pub lookup : K → List (K × V) → Option V
  lookup key ((at, value) ∷ entries) = if at == key then some value else lookup key entries
  lookup key [] = none

  abbrev pub insert : K → V → List (K × V) → List (K × V)
  insert key new ((at, value) ∷ entries) =
      if at == key then (key, new) ∷ entries else (at, value) ∷ insert key new entries
  insert key new [] = (key, new) ∷ []

  pub lookup-insert :
      (k j : K) (v : V) (m : List (K × V))
      → lookup j (insert k v m) ≡ (if k == j then some v else lookup j m)
  lookup-insert k j v [] = refl
  lookup-insert k j v ((i, w) ∷ m) =
      ground (arith, law.eq_iff k j, law.eq_iff i k, law.eq_iff i j, lookup-insert k j v m)
