-- ===== src/Types/Equality.antt =====
-- The derived equality of `Ty` decides equality.
use itaruby.Base.{Bool, true, ◌&&◌, ◌≡◌, ◌↔◌, arith, nat_beq_iff, PartialEq}
use itaruby.Types.{Ty, Tys, instance_of, class_of, array, hash, union_of, part, ty_beq, tys_beq}

part_iff :
    (t u : Ty) (ts us : Tys) (b c : Bool)
    → (b ≡ true) ↔ (t ≡ u)
    → (c ≡ true) ↔ (ts ≡ us)
    → ((b && c) ≡ true) ↔ (part t ts ≡ part u us)
part_iff t u ts us b c p q = ground arith

mutual
  unfolding ty_beq tys_beq

  ty_iff : (t u : Ty) → (ty_beq t u ≡ true) ↔ (t ≡ u)
  ty_iff (instance_of c) (instance_of d) = ground (arith, nat_beq_iff c d)
  ty_iff (class_of c) (class_of d) = ground (arith, nat_beq_iff c d)
  ty_iff (array t) (array u) = ground (arith, ty_iff t u)
  ty_iff (hash k v) (hash l w) = ground (arith, ty_iff k l, ty_iff v w)
  ty_iff (union_of ts) (union_of us) = ground (arith, tys_iff ts us)
  ty_iff _ _ = ground arith

  tys_iff : (t u : Tys) → (tys_beq t u ≡ true) ↔ (t ≡ u)
  tys_iff (part t ts) (part u us) = part_iff t u ts us _ _ (ty_iff t u) (tys_iff ts us)
  tys_iff _ _ = ground arith

pub ty_beq_iff : (t u : Ty) → (ty_beq t u ≡ true) ↔ (t ≡ u)
ty_beq_iff t u = ty_iff t u

instance abbrev pub ty_eq : PartialEq Ty
ty_eq = record { eq = ty_beq; eq_iff = ty_beq_iff }
