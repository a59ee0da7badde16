-- ===== src/Server/Paths.antt =====
-- What `normalize_path` does to a path: it takes the `.` and `..` away by syntax alone.
use itaruby.Base.{
  List, [], ◌∷◌, ◌++◌, reverse, Text, ◌≡◌, ◌⊎◌, inl, inr, refl, ◌∙◌, ap, Every, every_nil,
  every_cons,
}
use mathlib.Core.Path.{subst}
use mathlib.Core.List.{reverse-cons, append-nil, append_assoc}
use itaruby.Server.{
  Component, prefix, root_dir, cur_dir, parent_dir, normal, pop, prefix_of, normalize_from,
  normalize_path,
}

-- A path in reverse order that is normalized.
pub data IsNormalized : List Component → Type 0 where
  empty : IsNormalized []
  at_prefix : {p : Text} → IsNormalized (prefix p ∷ [])
  at_root : IsNormalized (root_dir ∷ [])
  at_root_of : {p : Text} → IsNormalized (root_dir ∷ prefix p ∷ [])
  below : {name : Text} {out : List Component} → IsNormalized out → IsNormalized (normal name ∷ out)

abbrev pub IsPlace : Component → Type 0
IsPlace (prefix p) = ⊥
IsPlace _ = Unit

-- One way to write a path shorter, anywhere in it.
pub data Step : List Component → List Component → Type 0 where
  here : (xs ys : List Component) → Step (xs ++ (cur_dir ∷ ys)) (xs ++ ys)
  up :
      (xs ys : List Component) (name : Text)
      → Step (xs ++ (normal name ∷ parent_dir ∷ ys)) (xs ++ ys)
  up_from_root :
      (xs ys : List Component) → Step (xs ++ (root_dir ∷ parent_dir ∷ ys)) (xs ++ (root_dir ∷ ys))
  up_from_prefix :
      (p : Text) (ys : List Component) → Step (prefix p ∷ parent_dir ∷ ys) (prefix p ∷ ys)
  up_from_nothing : (ys : List Component) → Step (parent_dir ∷ ys) ys
  to_root :
      (xs ys : List Component) → Every IsPlace xs → Step (xs ++ (root_dir ∷ ys)) (root_dir ∷ ys)
  to_root_of :
      (p : Text) (xs ys : List Component)
      → Step (prefix p ∷ (xs ++ (root_dir ∷ ys))) (prefix p ∷ root_dir ∷ ys)
  to_prefix : (xs ys : List Component) (p : Text) → Step (xs ++ (prefix p ∷ ys)) (prefix p ∷ ys)

pub data Reduces : List Component → List Component → Type 0 where
  done : (xs : List Component) → Reduces xs xs
  next : {xs ys zs : List Component} → Step xs ys → Reduces ys zs → Reduces xs zs

-- How the prefix of a normalized path stands in it.
prefix-cases :
    (out : List Component)
    → IsNormalized out
    → ((prefix_of out ≡ []) × Every IsPlace (reverse out))
      ⊎ ((p : Text) × (xs : List Component) × (prefix_of out ≡ prefix p ∷ [])
          × (reverse out ≡ prefix p ∷ xs))
prefix-cases _ empty = inl (refl, every_nil)
prefix-cases _ (at_prefix {p}) = inr (p, [], refl, refl)
prefix-cases _ at_root = inl (refl, every_cons tt every_nil)
prefix-cases _ (at_root_of {p}) = inr (p, root_dir ∷ [], refl, refl)
prefix-cases _ (below {name} {out} h) = elim (prefix-cases out h) [
  | inl (e, places) ↦ inl (e, rw (reverse-cons (normal name) out) (every_last (reverse out) places))
  | inr (p, xs, e, r) ↦ inr (
    p,
    xs ++ (normal name ∷ []),
    e,
    reverse-cons (normal name) out ∙ ap (λ l. l ++ (normal name ∷ [])) r,
  )
]
  where
    every_last : (xs : List Component) → Every IsPlace xs → Every IsPlace (xs ++ (normal name ∷ []))
    every_last _ every_nil = every_cons tt every_nil
    every_last _ (every_cons {rest = rest} t k) = every_cons t (every_last rest k)

push_root-IsNormalized :
    (out : List Component) → IsNormalized out → IsNormalized (root_dir ∷ prefix_of out)
push_root-IsNormalized out h = elim (prefix-cases out h) [
  | inl (e, places) ↦ rw e at_root
  | inr (p, xs, e, r) ↦ rw e at_root_of
]

pop-IsNormalized : (out : List Component) → IsNormalized out → IsNormalized (pop out)
pop-IsNormalized _ empty = empty
pop-IsNormalized _ at_prefix = at_prefix
pop-IsNormalized _ at_root = at_root
pop-IsNormalized _ at_root_of = at_root_of
pop-IsNormalized _ (below h) = h

pub normalize_from-IsNormalized :
    (out components : List Component)
    → IsNormalized out
    → IsNormalized (normalize_from out components)
unfolding normalize_from
normalize_from-IsNormalized out [] h = h
normalize_from-IsNormalized out (prefix p ∷ components) h =
    normalize_from-IsNormalized _ components at_prefix
normalize_from-IsNormalized out (root_dir ∷ components) h =
    normalize_from-IsNormalized _ components (push_root-IsNormalized out h)
normalize_from-IsNormalized out (cur_dir ∷ components) h =
    normalize_from-IsNormalized _ components h
normalize_from-IsNormalized out (parent_dir ∷ components) h =
    normalize_from-IsNormalized _ components (pop-IsNormalized out h)
normalize_from-IsNormalized out (normal name ∷ components) h =
    normalize_from-IsNormalized _ components (below h)

-- A component moves from what is left to what is read.
reverse-shift :
    (out cs : List Component) (c : Component) → reverse (c ∷ out) ++ cs ≡ reverse out ++ (c ∷ cs)
reverse-shift out cs c =
    ap (λ l. l ++ cs) (reverse-cons c out) ∙ append_assoc (reverse out) (c ∷ []) cs

-- What `..` does after a normalized path.
pop-Step :
    (out cs : List Component)
    → IsNormalized out
    → Step (reverse out ++ (parent_dir ∷ cs)) (reverse (pop out) ++ cs)
pop-Step _ cs empty = up_from_nothing cs
pop-Step _ cs (at_prefix {p}) = up_from_prefix p cs
pop-Step _ cs at_root = up_from_root [] cs
pop-Step _ cs (at_root_of {p}) = up_from_root (prefix p ∷ []) cs
pop-Step _ cs (below {name} {out} h) =
    rw (reverse-shift out (parent_dir ∷ cs) (normal name)) (up (reverse out) cs name)

-- What a root does after a normalized path.
root-Step :
    (out cs : List Component)
    → IsNormalized out
    → Step (reverse out ++ (root_dir ∷ cs)) (reverse (root_dir ∷ prefix_of out) ++ cs)
root-Step out cs h = elim (prefix-cases out h) [
  | inl (e, places) ↦ rw e (to_root (reverse out) cs places)
  | inr (p, xs, e, r) ↦ rw (e, r) (to_root_of p xs cs)
]

normalize_from-Reduces :
    (out components : List Component)
    → IsNormalized out
    → Reduces (reverse out ++ components) (reverse (normalize_from out components))
unfolding normalize_from
normalize_from-Reduces out [] h = rw (append-nil (reverse out)) (done (reverse out))
normalize_from-Reduces out (prefix p ∷ components) h =
    next (to_prefix (reverse out) components p)
      (normalize_from-Reduces (prefix p ∷ []) components at_prefix)
normalize_from-Reduces out (root_dir ∷ components) h =
    next (root-Step out components h)
      (normalize_from-Reduces (root_dir ∷ prefix_of out) components (push_root-IsNormalized out h))
normalize_from-Reduces out (cur_dir ∷ components) h =
    next (here (reverse out) components) (normalize_from-Reduces out components h)
normalize_from-Reduces out (parent_dir ∷ components) h =
    next (pop-Step out components h)
      (normalize_from-Reduces (pop out) components (pop-IsNormalized out h))
normalize_from-Reduces out (normal name ∷ components) h =
    subst (λ l. Reduces l (reverse (normalize_from (normal name ∷ out) components)))
      (reverse-shift out components (normal name))
      (normalize_from-Reduces (normal name ∷ out) components (below h))

-- normalize_path comes from its argument by steps that drop a `.`, a name with the `..` after it, a
-- `..` after a root, after a leading prefix or at the head of the path, or what a root or a prefix
-- replaces; and it has no `.` and no `..`, a prefix only at its head, and a root only at its head
-- or after the prefix.
pub normalize_path-Reduces :
    (components : List Component)
    → Reduces components (normalize_path components)
      × ((out : List Component) × (normalize_path components ≡ reverse out) × IsNormalized out)
unfolding normalize_path
normalize_path-Reduces components = (
  normalize_from-Reduces [] components empty,
  (normalize_from [] components, refl, normalize_from-IsNormalized [] components empty),
)
