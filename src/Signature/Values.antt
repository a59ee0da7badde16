-- ===== src/Signature/Values.antt =====
-- The values that a type stands for, given the linearization of each class.
use itaruby.Base.{true, List, Option, some, ◌≡◌, ◌⊎◌, Memᴰ}
use itaruby.Types.{
  ClassId, Ty, Tys, unknown, nil, bool, int, float, str, sym, instance_of, class_of, array, hash,
  union_of, end, part,
}
use itaruby.Index.Ancestors.{Chain}

mutual
  pub data Value : Type 0 where
    the_nil a_bool an_int a_float a_str a_sym : Value
    an_object a_class : ClassId → Value
    an_array : Values → Value
    a_hash : Entries → Value

  pub data Values : Type 0 where
    no_values : Values
    value : Value → Values → Values

  pub data Entries : Type 0 where
    no_entries : Entries
    entry : Value → Value → Entries → Entries

-- An object has the type of its class and of every class of the chain of that class: of any class at
-- all, when the chain is incomplete or there is none.
abbrev pub IsA : (ClassId → Option Chain) → ClassId → ClassId → Type 0
IsA ancestors d c =
    (chain : List ClassId) → ancestors d ≡ some (chain, true) → (d ≡ c) ⊎ Memᴰ c chain

abbrev pub EachValue : (Value → Type 0) → Values → Type 0
EachValue P no_values = Unit
EachValue P (value v vs) = P v × EachValue P vs

abbrev pub EachEntry : (Value → Type 0) → (Value → Type 0) → Entries → Type 0
EachEntry P Q no_entries = Unit
EachEntry P Q (entry k v es) = P k × Q v × EachEntry P Q es

abbrev pub append_values : Values → Values → Values
append_values no_values ws = ws
append_values (value v vs) ws = value v (append_values vs ws)

abbrev pub append_entries : Entries → Entries → Entries
append_entries no_entries fs = fs
append_entries (entry k v es) fs = entry k v (append_entries es fs)

pub EachValue-append :
    (P : Value → Type 0) (vs ws : Values)
    → EachValue P (append_values vs ws)
    → EachValue P vs × EachValue P ws
EachValue-append P no_values ws h = (tt, h)
EachValue-append P (value v vs) ws h = let r = EachValue-append P vs ws h.1 in ((h.0, r.0), r.1)

pub EachEntry-append :
    (P Q : Value → Type 0) (es fs : Entries)
    → EachEntry P Q (append_entries es fs)
    → EachEntry P Q es × EachEntry P Q fs
EachEntry-append P Q no_entries fs h = (tt, h)
EachEntry-append P Q (entry k v es) fs h =
    let (p, q, rest) = h in let r = EachEntry-append P Q es fs rest in ((p, q, r.0), r.1)

pub append-EachValue :
    (P : Value → Type 0) (vs ws : Values)
    → EachValue P vs
    → EachValue P ws
    → EachValue P (append_values vs ws)
append-EachValue P no_values ws h k = k
append-EachValue P (value v vs) ws h k = (h.0, append-EachValue P vs ws h.1 k)

pub append-EachEntry :
    (P Q : Value → Type 0) (es fs : Entries)
    → EachEntry P Q es
    → EachEntry P Q fs
    → EachEntry P Q (append_entries es fs)
append-EachEntry P Q no_entries fs h k = k
append-EachEntry P Q (entry k v es) fs h l =
    let (p, q, rest) = h in (p, q, append-EachEntry P Q es fs rest l)

module _ (ancestors : ClassId → Option Chain) where
  abbrev mutual
    pub HasType : Ty → Value → Type 0
    HasType unknown v = Unit
    HasType nil the_nil = Unit
    HasType bool a_bool = Unit
    HasType int an_int = Unit
    HasType float a_float = Unit
    HasType str a_str = Unit
    HasType sym a_sym = Unit
    HasType (instance_of c) (an_object d) = IsA ancestors d c
    HasType (class_of c) (a_class d) = d ≡ c
    HasType (array t) (an_array vs) = EachValue (HasType t) vs
    HasType (hash k v) (a_hash es) = EachEntry (HasType k) (HasType v) es
    HasType (union_of ts) v = HasOne ts v
    HasType _ _ = ⊥

    pub HasOne : Tys → Value → Type 0
    HasOne end v = ⊥
    HasOne (part t ts) v = HasType t v ⊎ HasOne ts v
