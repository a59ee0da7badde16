-- ===== src/Suggest/Tests.antt =====
-- Runs of the suggestions, and the instances of their theorems.
use itaruby.Base.{ℕ, ◌≤◌, List, [], ◌∷◌, Memᴰ, Option, none, some, Text, codes, ◌≡◌, ◌↔◌, refl}
use itaruby.Suggest.{
  edit_distance, key_of, consider_name, name_loop, closest_name, consider_const, const_loop,
  closest_const_key,
}
use itaruby.Suggest.Scripts.{Script}
use itaruby.Suggest.Distance.{edit_distance-least}
use itaruby.Suggest.Order.{IsLeast}
use itaruby.Suggest.Closest.{
  Suggested, closest_const_key-IsLeast, closest_const_key_order, closest_name-const,
}

distance_of_a_swap : edit_distance (codes "nmae") (codes "name") ≡ 2
unfolding edit_distance
distance_of_a_swap = refl

distance_of_strangers : edit_distance (codes "abc") (codes "xyz") ≡ 3
unfolding edit_distance
distance_of_strangers = refl

-- Not saturated: neither the lengths nor a row's minimum tell these two apart.
distance_above_the_cutoff : edit_distance (codes "ab") (codes "wxyz") ≡ 4
unfolding edit_distance
distance_above_the_cutoff = refl

closest_of_two :
    closest_name (codes "calcu") (codes "zalcu" ∷ codes "calc" ∷ []) ≡ some (codes "calc")
unfolding closest_name name_loop consider_name edit_distance
closest_of_two = refl

not_itself : closest_name (codes "calc") (codes "calc" ∷ []) ≡ none
unfolding closest_name name_loop consider_name edit_distance
not_itself = refl

abbrev forward : List (Text × Text)
forward = (codes "Bar", codes "Zzz::Bar") ∷ (codes "Bar", codes "Aaa::Bar") ∷ []

abbrev backward : List (Text × Text)
backward = (codes "Bar", codes "Aaa::Bar") ∷ (codes "Bar", codes "Zzz::Bar") ∷ []

smaller_key : closest_const_key (codes "Barr") forward ≡ some (codes "Aaa::Bar")
unfolding closest_const_key const_loop consider_const edit_distance
smaller_key = refl

edit_distance-least_example :
    (edit_distance (codes "nmae") (codes "name") ≤ 2
      → Script (codes "nmae") (codes "name") (edit_distance (codes "nmae") (codes "name")))
    × ((n : ℕ)
        → Script (codes "nmae") (codes "name") n
        → n ≤ 2
        → edit_distance (codes "nmae") (codes "name") ≤ n)
edit_distance-least_example = edit_distance-least (codes "nmae") (codes "name")

closest_const_key-IsLeast_example :
    (best : Option (ℕ × Text)) × (closest_const_key (codes "Barr") forward ≡ key_of best)
    × IsLeast (Suggested (codes "Barr") forward) best
closest_const_key-IsLeast_example = closest_const_key-IsLeast (codes "Barr") forward

same_candidates : (c : Text × Text) → Memᴰ c forward ↔ Memᴰ c backward
same_candidates c = (
  (λ m. elim m [
    | Memᴰ.head e ↦ Memᴰ.tail (Memᴰ.head e)
    | Memᴰ.tail (Memᴰ.head e) ↦ Memᴰ.head e
    | Memᴰ.tail (Memᴰ.tail r) ↦ elim r [ ]
  ]),
  (λ m. elim m [
    | Memᴰ.head e ↦ Memᴰ.tail (Memᴰ.head e)
    | Memᴰ.tail (Memᴰ.head e) ↦ Memᴰ.head e
    | Memᴰ.tail (Memᴰ.tail r) ↦ elim r [ ]
  ]),
)

closest_const_key_order_example :
    closest_const_key (codes "Barr") forward ≡ closest_const_key (codes "Barr") backward
closest_const_key_order_example =
    closest_const_key_order (codes "Barr") forward backward same_candidates

closest_name_agrees :
    closest_name (codes "calcu") (codes "calc" ∷ [])
    ≡ closest_const_key (codes "calcu") ((codes "calc", codes "calc") ∷ [])
closest_name_agrees = closest_name-const (codes "calcu") (codes "calc" ∷ [])
