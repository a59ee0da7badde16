-- ===== src/Types.antt =====
-- crates/itaruby_semantic/src/types.rs: the type model. A union's `Vec<Ty>` is the list type `Tys`,
-- and a `ClassId` is the index that it wraps.
pub mod Equality
pub mod Union
pub mod Tests
use itaruby.Base.{
  ℕ, Bool, true, false, ◌&&◌, ◌||◌, List, [], ◌∷◌, ◌++◌, PartialEq, ◌==◌, if◌then◌else◌, nat_beq,
  contains,
}

abbrev pub ClassId : Type 0
ClassId = ℕ

mutual
  pub data Ty : Type 0 where
    unknown nil bool int float str sym : Ty
    instance_of : ClassId → Ty
    class_of : ClassId → Ty
    array : Ty → Ty
    hash : Ty → Ty → Ty
    union_of : Tys → Ty

  pub data Tys : Type 0 where
    end : Tys
    part : Ty → Tys → Tys

abbrev pub to_list : Tys → List Ty
to_list end = []
to_list (part t ts) = t ∷ to_list ts

abbrev pub from_list : List Ty → Tys
from_list [] = end
from_list (t ∷ ts) = part t (from_list ts)

-- The derived `PartialEq`.
unfoldable mutual
  pub ty_beq : Ty → Ty → Bool
  ty_beq unknown unknown = true
  ty_beq nil nil = true
  ty_beq bool bool = true
  ty_beq int int = true
  ty_beq float float = true
  ty_beq str str = true
  ty_beq sym sym = true
  ty_beq (instance_of c) (instance_of d) = nat_beq c d
  ty_beq (class_of c) (class_of d) = nat_beq c d
  ty_beq (array t) (array u) = ty_beq t u
  ty_beq (hash k v) (hash l w) = ty_beq k l && ty_beq v w
  ty_beq (union_of ts) (union_of us) = tys_beq ts us
  ty_beq _ _ = false

  pub tys_beq : Tys → Tys → Bool
  tys_beq end end = true
  tys_beq (part t ts) (part u us) = ty_beq t u && tys_beq ts us
  tys_beq _ _ = false
