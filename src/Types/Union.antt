-- ===== src/Types/Union.antt =====
-- crates/itaruby_semantic/src/types.rs, `Ty::union`: flattened and deduplicated; `Unknown` absorbs.
pub mod Members
pub mod Meaning
pub mod Normal
use itaruby.Base.{Bool, true, false, ◌||◌, List, [], ◌∷◌, ◌++◌, ◌==◌, if◌then◌else◌, contains}
use itaruby.Types.{Ty, unknown, union_of, to_list, from_list, ty_beq}
use itaruby.Types.Equality.{ty_eq}

-- `match t { Union(ts) => parts.extend(ts), t => parts.push(t) }`
abbrev pub parts_of : Ty → List Ty
parts_of (union_of ts) = to_list ts
parts_of t = t ∷ []

-- `Vec::dedup`: of equal neighbours the first stays.
unfoldable pub dedup_after : Ty → List Ty → List Ty
dedup_after t [] = []
dedup_after t (u ∷ us) = if t == u then dedup_after t us else u ∷ dedup_after u us

unfoldable pub dedup : List Ty → List Ty
unfolding dedup_after
dedup [] = []
dedup (t ∷ ts) = t ∷ dedup_after t ts

-- The loop that fills `uniq`.
unfoldable pub push_unique : List Ty → List Ty → List Ty
push_unique uniq [] = uniq
push_unique uniq (t ∷ ts) = push_unique (if contains uniq t then uniq else uniq ++ (t ∷ [])) ts

-- `match uniq.len()`
abbrev pub of_parts : List Ty → Ty
of_parts (t ∷ []) = t
of_parts uniq = union_of (from_list uniq)

unfoldable pub union : Ty → Ty → Ty
unfolding dedup push_unique ty_beq
union a b =
    if a == b
    then a
    else if a == unknown || b == unknown
    then unknown
    else of_parts (push_unique [] (dedup (parts_of a ++ parts_of b)))
