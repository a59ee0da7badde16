-- ===== src/Index/Valid.antt =====
-- The class table: each path stands for the class with that path.
use itaruby.Base.{
  ℕ, zero, suc, ◌<◌, ◌^◌, true, false, List, [], ◌∷◌, ◌++◌, some, Text, ◌==◌, ◌≡◌, inl, inr, refl,
  ◌∙◌, arith, lookup, insert, lookup-insert, text_eq, beq-cases, beq_refl, Option-cases, get_elem?,
  length,
}
use mathlib.Core.Option.{some-injective}
use itaruby.Types.{ClassId}
use itaruby.Index.{ClassDef, ProjectIndex}
use itaruby.Index.Resolve.{class, intern, new_class, as_u32}

pub record IsValid (index : ProjectIndex) : Type 0 where
  pub named :
      (path : Text) (id : ClassId)
      → lookup path index.by_path ≡ some id
      → (c : ClassDef) × (class index id ≡ some c) × (c.path ≡ path)

get_elem?-append :
    (xs : List ClassDef) (y x : ClassDef) (i : ℕ)
    → get_elem? xs i ≡ some x
    → get_elem? (xs ++ (y ∷ [])) i ≡ some x
get_elem?-append [] y x i h = cc
get_elem?-append (z ∷ xs) y x zero h = h
get_elem?-append (z ∷ xs) y x (suc i) h = get_elem?-append xs y x i h

get_elem?-length :
    (xs : List ClassDef) (y : ClassDef) → get_elem? (xs ++ (y ∷ [])) (length xs) ≡ some y
get_elem?-length [] y = refl
get_elem?-length (z ∷ xs) y = get_elem?-length xs y

pub lt_of_get_elem? {ℓ} :
    {A : Type ℓ} (xs : List A) (x : A) (i : ℕ) → get_elem? xs i ≡ some x → i < length xs
lt_of_get_elem? [] x i h = cc
lt_of_get_elem? (z ∷ xs) x zero h = omega arith
lt_of_get_elem? (z ∷ xs) x (suc i) h = omega (arith, lt_of_get_elem? xs x i h)

-- Interning a path keeps the table valid, keeps every class under its id, and gives the id that the
-- path stands for from then on.
pub record Interned (index : ProjectIndex) (path : Text) (result : ProjectIndex × ClassId)
    : Type 0 where
  pub valid : IsValid result.0
  pub found : lookup path result.0.by_path ≡ some result.1
  pub kept : (id : ClassId) (c : ClassDef) → class index id ≡ some c → class result.0 id ≡ some c
  pub others : (p : Text) → (path == p) ≡ false → lookup p result.0.by_path ≡ lookup p index.by_path

intern-named :
    (index : ProjectIndex) (path : Text)
    → IsValid index
    → (p : Text) (i : ClassId)
    → lookup p (insert path (length index.classes) index.by_path) ≡ some i
    → (c : ClassDef) × (get_elem? (index.classes ++ (new_class path ∷ [])) i ≡ some c)
      × (c.path ≡ p)
intern-named index path v p i h =
    let at_p = rw (lookup-insert path p (length index.classes) index.by_path) at h in
    elim (beq-cases path p) [
      | inl e ↦
          let same : (path == p) ≡ true = rw (← e) (beq_refl path) in
          (
            new_class path,
            rw (← some-injective _ _ (rw same at at_p))
                (get_elem?-length index.classes (new_class path)),
            e,
          )
      | inr d ↦
          let (c, is, named) = v.named p i (rw d at at_p) in
          (c, get_elem?-append index.classes (new_class path) c i is, named)
    ]

as_u32_small : (n : ℕ) → n < 2 ^ 32 → as_u32 n ≡ n
as_u32_small n h = omega (arith, h)

-- For a table of less than 2^32 classes whose paths stand for classes with these paths, intern
-- gives such a table again, in which the path stands for the id it returns, every class keeps its
-- id, and every other path stands for what it stood for.
pub intern-Interned :
    (index : ProjectIndex) (path : Text)
    → IsValid index
    → length index.classes < 2 ^ 32
    → Interned index path (intern index path)
unfolding intern
intern-Interned index path v room = elim (Option-cases (lookup path index.by_path)) [
  | inr (id, e) ↦
      rw (intern, e) (record { valid = v; found = e; kept = λ i c h. h; others = λ p d. refl })
  | inl e ↦
      rw (intern, e, as_u32_small (length index.classes) room)
        (record {
          valid = record { named = λ p i h. intern-named index path v p i h };
          found = lookup-insert path path (length index.classes) index.by_path ∙ rw (beq_refl path);
          kept = λ i c h. get_elem?-append index.classes (new_class path) c i h;
          others = λ p d. lookup-insert path p (length index.classes) index.by_path ∙ rw d;
        })
]
