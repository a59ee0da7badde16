-- ===== src/Signature/Containers.antt =====
-- The arms of `compatible` for a parameter that is a union, for arrays and for hashes: values that no
-- member of the parameter's type has.
use itaruby.Base.{
  Bool, true, false, Option, none, some, ◌≡◌, refl, ◌⊎◌, inl, inr, nat_eq, if◌then◌else◌, ◌>>=◌,
}
use itaruby.Types.{
  ClassId, Ty, Tys, unknown, nil, bool, int, float, str, sym, instance_of, class_of, array, hash,
  union_of, end, part,
}
use itaruby.Types.Equality.{ty_eq}
use itaruby.Types.Union.Normal.{IsMember}
use itaruby.Index.Ancestors.{Chain}
use itaruby.Signature.{against, any_against, array_test, hash_test, compatible}
use itaruby.Signature.Values.{
  Value, the_nil, a_bool, an_int, a_float, a_str, a_sym, an_object, a_class, an_array, a_hash,
  Values, no_values, value, Entries, no_entries, entry, EachValue, EachEntry, append_values,
  append_entries, EachValue-append, EachEntry-append, append-EachValue, append-EachEntry, HasType,
  HasOne,
}

-- No union in the type is empty.
abbrev mutual
  pub IsProper : Ty → Type 0
  IsProper (array t) = IsProper t
  IsProper (hash k v) = IsProper k × IsProper v
  IsProper (union_of end) = ⊥
  IsProper (union_of (part t ts)) = IsProper t × AreProper ts
  IsProper _ = Unit

  pub AreProper : Tys → Type 0
  AreProper end = Unit
  AreProper (part t ts) = IsProper t × AreProper ts

pub both_refuse :
    (o rest : Option Bool)
    → (o >>= λ fits. if fits then some true else rest) ≡ some false
    → (o ≡ some false) × (rest ≡ some false)
both_refuse none rest e = absurd (cc e)
both_refuse (some true) rest e = absurd (cc e)
both_refuse (some false) rest e = (refl, e)

pub one_refuses :
    (o rest : Option Bool)
    → (o >>= λ fits. if fits then rest else some false) ≡ some false
    → (o ≡ some false) ⊎ (rest ≡ some false)
one_refuses none rest e = absurd (cc e)
one_refuses (some true) rest e = inr e
one_refuses (some false) rest e = inl refl

module _ (ancestors : ClassId → Option Chain) where
  -- A value of the type.
  pub inhabited : (t : Ty) → IsProper t → (v : Value) × HasType ancestors t v
  inhabited unknown p = (the_nil, tt)
  inhabited nil p = (the_nil, tt)
  inhabited bool p = (a_bool, tt)
  inhabited int p = (an_int, tt)
  inhabited float p = (a_float, tt)
  inhabited str p = (a_str, tt)
  inhabited sym p = (a_sym, tt)
  inhabited (instance_of c) p = (an_object c, λ chain e. inl refl)
  inhabited (class_of c) p = (a_class c, refl)
  inhabited (array t) p = (an_array no_values, tt)
  inhabited (hash k v) p = (a_hash no_entries, tt)
  inhabited (union_of end) p = absurd p
  inhabited (union_of (part t ts)) p = let (v, h) = inhabited t p.0 in (v, inl h)

  -- A value that each arm's test refuses is refused.
  mutual
    unfolding against

    pub against-refutes :
        (test : Ty → Option Bool) (v : Value)
        → ((q : Ty) → IsMember q → test q ≡ some false → ¬ HasType ancestors q v)
        → (p : Ty) → against test p ≡ some false
        → ¬ HasType ancestors p v
    against-refutes test v refute unknown e h = absurd (cc e)
    against-refutes test v refute (union_of ps) e h = any_against-refutes test v refute ps e h
    against-refutes test v refute p e h = refute p tt e h

    any_against-refutes :
        (test : Ty → Option Bool) (v : Value)
        → ((q : Ty) → IsMember q → test q ≡ some false → ¬ HasType ancestors q v)
        → (ps : Tys) → any_against test ps ≡ some false
        → ¬ HasOne ancestors ps v
    any_against-refutes test v refute end e h = h
    any_against-refutes test v refute (part p ps) e h =
        let (first, others) = both_refuse (against test p) (any_against test ps) e in
        elim h [
          | inl k ↦ against-refutes test v refute p first k
          | inr k ↦ any_against-refutes test v refute ps others k
        ]

  -- Values of an array's element type that no array type among the parameter's holds, whatever else is
  -- in the array.
  abbrev pub NoArray : Ty → Values → Type 1
  NoArray p vs =
      (ws : Values)
      → ((P : Value → Type 0) → EachValue P ws → EachValue P vs)
      → ¬ HasType ancestors p (an_array ws)

  abbrev pub NoArrays : Tys → Values → Type 1
  NoArrays ps vs =
      (ws : Values)
      → ((P : Value → Type 0) → EachValue P ws → EachValue P vs)
      → ¬ HasOne ancestors ps (an_array ws)

  abbrev pub Separates : Ty → Ty → Type 0
  Separates t p = (v : Value) × HasType ancestors t v × ¬ HasType ancestors p v

  mutual
    unfolding against

    pub array-refutes :
        (t : Ty)
        → ((q : Ty) → compatible ancestors t q ≡ some false → Separates t q)
        → (p : Ty) → against (array_test t (compatible ancestors t)) p ≡ some false
        → (vs : Values) × EachValue (HasType ancestors t) vs × NoArray p vs
    array-refutes t ih unknown e = absurd (cc e)
    array-refutes t ih (union_of ps) e = arrays-refute t ih ps e
    array-refutes t ih (array q) e =
        let (v, h, excluded) = ih q e in
        (value v no_values, (h, tt), λ ws within k. excluded (within (HasType ancestors q) k).0)
    array-refutes t ih _ e = (no_values, tt, λ ws within k. k)

    arrays-refute :
        (t : Ty)
        → ((q : Ty) → compatible ancestors t q ≡ some false → Separates t q)
        → (ps : Tys) → any_against (array_test t (compatible ancestors t)) ps ≡ some false
        → (vs : Values) × EachValue (HasType ancestors t) vs × NoArrays ps vs
    arrays-refute t ih end e = (no_values, tt, λ ws within k. k)
    arrays-refute t ih (part p ps) e =
        let (first, others) =
          both_refuse (against (array_test t (compatible ancestors t)) p)
            (any_against (array_test t (compatible ancestors t)) ps) e in
        let (vs, h, excluded) = array-refutes t ih p first in
        let (us, k, none_of) = arrays-refute t ih ps others in
        (
          append_values vs us,
          append-EachValue _ vs us h k,
          λ ws within one. elim one [
            | inl x ↦ excluded ws (λ P all. (EachValue-append P vs us (within P all)).0) x
            | inr x ↦ none_of ws (λ P all. (EachValue-append P vs us (within P all)).1) x
          ],
        )

  abbrev pub NoHash : Ty → Entries → Type 1
  NoHash p es =
      (fs : Entries)
      → ((P Q : Value → Type 0) → EachEntry P Q fs → EachEntry P Q es)
      → ¬ HasType ancestors p (a_hash fs)

  abbrev pub NoHashes : Tys → Entries → Type 1
  NoHashes ps es =
      (fs : Entries)
      → ((P Q : Value → Type 0) → EachEntry P Q fs → EachEntry P Q es)
      → ¬ HasOne ancestors ps (a_hash fs)

  abbrev pub Separated : Ty → Type 0
  Separated t = (q : Ty) → compatible ancestors t q ≡ some false → Separates t q

  abbrev pub hash_arms : Ty → Ty → Ty → Option Bool
  hash_arms k v = hash_test k v (compatible ancestors k) (compatible ancestors v)

  -- An entry whose key or whose value does not fit.
  hash_entry :
      (k v pk pv : Ty)
      → IsProper k
      → IsProper v
      → Separated k
      → Separated v
      → hash_arms k v (hash pk pv) ≡ some false
      → (es : Entries) × EachEntry (HasType ancestors k) (HasType ancestors v) es
        × NoHash (hash pk pv) es
  hash_entry k v pk pv proper_k proper_v ih_k ih_v e =
      elim (one_refuses (compatible ancestors k pk) (compatible ancestors v pv) e) [
        | inl f ↦
            let (key, h, excluded) = ih_k pk f in
            let (val, g) = inhabited v proper_v in
            (
              entry key val no_entries,
              (h, g, tt),
              λ fs within all.
                  excluded (within (HasType ancestors pk) (HasType ancestors pv) all).0,
            )
        | inr f ↦
            let (key, g) = inhabited k proper_k in
            let (val, h, excluded) = ih_v pv f in
            (
              entry key val no_entries,
              (g, h, tt),
              λ fs within all.
                  excluded (within (HasType ancestors pk) (HasType ancestors pv) all).1,
            )
      ]

  mutual
    unfolding against

    pub hash-refutes :
        (k v : Ty)
        → IsProper k
        → IsProper v
        → Separated k
        → Separated v
        → (p : Ty) → against (hash_arms k v) p ≡ some false
        → (es : Entries) × EachEntry (HasType ancestors k) (HasType ancestors v) es × NoHash p es
    hash-refutes k v pk pv ih_k ih_v unknown e = absurd (cc e)
    hash-refutes k v pk pv ih_k ih_v (union_of ps) e = hashes-refute k v pk pv ih_k ih_v ps e
    hash-refutes k v pk pv ih_k ih_v (hash q r) e = hash_entry k v q r pk pv ih_k ih_v e
    hash-refutes k v pk pv ih_k ih_v _ e = (no_entries, tt, λ fs within h. h)

    hashes-refute :
        (k v : Ty)
        → IsProper k
        → IsProper v
        → Separated k
        → Separated v
        → (ps : Tys) → any_against (hash_arms k v) ps ≡ some false
        → (es : Entries) × EachEntry (HasType ancestors k) (HasType ancestors v) es × NoHashes ps es
    hashes-refute k v pk pv ih_k ih_v end e = (no_entries, tt, λ fs within h. h)
    hashes-refute k v pk pv ih_k ih_v (part p ps) e =
        let (first, others) =
          both_refuse (against (hash_arms k v) p) (any_against (hash_arms k v) ps) e in
        let (es, h, excluded) = hash-refutes k v pk pv ih_k ih_v p first in
        let (fs, g, none_of) = hashes-refute k v pk pv ih_k ih_v ps others in
        (
          append_entries es fs,
          append-EachEntry _ _ es fs h g,
          λ ws within one. elim one [
            | inl x ↦ excluded ws (λ P Q all. (EachEntry-append P Q es fs (within P Q all)).0) x
            | inr x ↦ none_of ws (λ P Q all. (EachEntry-append P Q es fs (within P Q all)).1) x
          ],
        )
