-- ===== src/Types/Tests.antt =====
-- The union at concrete inputs, over a small set of runtime values.
use itaruby.Base.{ℕ, [], ◌∷◌, Text, ◌≡◌, ◌↔◌, ◌⊎◌, refl}
use itaruby.Types.{Ty, unknown, nil, int, str, union_of, from_list}
use itaruby.Types.Union.{union}
use itaruby.Types.Union.Meaning.{Has, Has-union_iff}
use itaruby.Types.Union.Normal.{IsNormal, union-IsNormal}

pub data Value : Type 0 where
  nil_value : Value
  int_value : ℕ → Value
  str_value : Text → Value

abbrev pub Leaf : Ty → Value → Type 0
Leaf nil nil_value = Unit
Leaf int (int_value n) = Unit
Leaf str (str_value s) = Unit
Leaf _ _ = ⊥

abbrev pub int_or_str : Ty
int_or_str = union_of (from_list (int ∷ str ∷ []))

union_flattens :
    union (union_of (from_list (nil ∷ int ∷ []))) int_or_str
    ≡ union_of (from_list (nil ∷ int ∷ str ∷ []))
unfolding union
union_flattens = refl

union_absorbs : union int unknown ≡ unknown
unfolding union
union_absorbs = refl

Has-union_iff_example :
    Has Leaf (union nil int) (int_value 3)
    ↔ (Has Leaf nil (int_value 3) ⊎ Has Leaf int (int_value 3))
Has-union_iff_example = Has-union_iff Leaf nil int (int_value 3)

union-IsNormal_example :
    IsNormal (union (union int nil) str)
    × ((union (union int nil) str ≡ unknown) ↔ ((union int nil ≡ unknown) ⊎ (str ≡ unknown)))
union-IsNormal_example = union-IsNormal (union int nil) str (union-IsNormal int nil tt tt).0 tt
