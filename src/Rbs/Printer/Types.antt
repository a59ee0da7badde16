-- ===== src/Rbs/Printer/Types.antt =====
-- A type that is written out is read again.
use itaruby.Base.{ℕ, zero, suc, ◌+◌, ◌<◌, ◌≤◌, true, false, ◌∷◌, ◌++◌, Text, ◌≡◌, refl, ◌∙◌, arith}
use itaruby.Rbs.{RbsTy, RbsTys, simple, generic, nilable, union, end, arg}
use itaruby.Rbs.Outcome.{ok}
use itaruby.Rbs.Scan.{is_lower, is_word, peeks, eat, advance}
use itaruby.Rbs.Parser.{
  postfix_nilable, more_than_two, ty, union_parts, primary, bracketed_types, more_types,
}
use itaruby.Rbs.Printer.{
  IsName, print_ty, print_types, print_more, Writable, a_name, one_argument, two_arguments, or_nil,
  one_of, Writables, nothing, more,
}
use itaruby.Rbs.Printer.Names.{Stops, at_other}
use itaruby.Rbs.Printer.Steps.{
  Follows, closed_by, closes, Follows-Stops, Follows-peeks, skip_ws-print, primary-name,
  primary-paren, named-simple, named-generic, group-ty, intersection_ty-primary, ty-intersection,
  ty-union, union_parts-more, bracketed_types-more, more_types-more,
}

-- The fuel that `primary` takes for a written type.
abbrev mutual
  pub weight : RbsTy → ℕ
  weight (simple name) = 2
  weight (generic name args) = 4 + weights args
  weight (nilable t) = 4 + weight t
  weight (union parts) = 4 + weights parts

  pub weights : RbsTys → ℕ
  weights end = 1
  weights (arg t ts) = 3 + weight t + weights ts

weights-some : (ts : RbsTys) → 0 < weights ts
weights-some end = omega arith
weights-some (arg t ts) = omega arith

union_parts-done : (f : ℕ) (s : Text) → union_parts (suc f) (b')' ∷ s) ≡ ok end (b')' ∷ s)
unfolding union_parts eat peeks
union_parts-done f s = refl

more_types-done : (f : ℕ) (s : Text) → more_types (suc f) (b']' ∷ s) ≡ ok end (b']' ∷ s)
unfolding more_types eat peeks
more_types-done f s = refl

-- What a group leaves when no `?` follows, and when one does.
postfix_nilable-plain : (t : RbsTy) (s : Text) → peeks b'?' s ≡ false → postfix_nilable t s ≡ ok t s
unfolding postfix_nilable eat
postfix_nilable-plain t s h = rw h refl

postfix_nilable-mark : (t : RbsTy) (s : Text) → postfix_nilable t (b'?' ∷ s) ≡ ok (nilable t) s
unfolding postfix_nilable eat peeks advance
postfix_nilable-mark t s = refl

pub opening_bracket : (s : Text) → Stops (b'[' ∷ s)
unfolding is_word is_lower
opening_bracket s = at_other refl refl

generic-print :
    (f : ℕ) (name s : Text) (args : RbsTys)
    → IsName name
    → bracketed_types f (print_types b',' args (b']' ∷ s)) ≡ ok args s
    → more_than_two args ≡ false
    → Follows s
    → primary (suc (suc f)) (name ++ b'[' ∷ print_types b',' args (b']' ∷ s))
      ≡ ok (generic name args) s
generic-print f name s args h k few stop =
    primary-name (suc f) name _ h (opening_bracket _)
    ∙ named-generic f name _ s args k few (Follows-peeks b'?' s refl stop)

-- What follows a member of a list.
more-Follows :
    (separator closing : ℕ) (ts : RbsTys) (s : Text)
    → closes separator ≡ true
    → closes closing ≡ true
    → Follows (print_more separator ts (closing ∷ s))
more-Follows separator closing end s h k = closed_by k
more-Follows separator closing (arg t ts) s h k = closed_by h

commas-peeks : (ts : RbsTys) (s : Text) → peeks b'|' (print_more b',' ts (b']' ∷ s)) ≡ false
unfolding peeks
commas-peeks end s = refl
commas-peeks (arg t ts) s = refl

mutual
  unfolding peeks

  primary-print :
      (f : ℕ) (t : RbsTy) (s : Text)
      → Writable t
      → Follows s
      → weight t ≤ f
      → primary f (print_ty t s) ≡ ok t s
  primary-print zero _ s (a_name h) stop enough = absurd (omega (arith, enough))
  primary-print (suc zero) _ s (a_name h) stop enough = absurd (omega (arith, enough))
  primary-print (suc (suc f)) _ s (a_name {name} h) stop enough =
      primary-name (suc f) name s h (Follows-Stops s stop) ∙ named-simple f name s stop
  primary-print (suc (suc f)) _ s (one_argument {name} {t} h a) stop enough =
      generic-print f name s (arg t end) h
        (bracketed-print f t end s a nothing (omega (arith, enough))) refl stop
  primary-print (suc (suc f)) _ s (two_arguments {name} {t} {u} h a b) stop enough =
      generic-print f name s (arg t (arg u end)) h
        (bracketed-print f t (arg u end) s a (more b nothing) (omega (arith, enough))) refl stop
  primary-print (suc (suc f)) _ s (or_nil {t} a) stop enough =
      primary-paren (suc f) _
      ∙ group-ty f _ (b'?' ∷ s) t
          (ty-print f t (b')' ∷ b'?' ∷ s) a (closed_by refl) refl (omega (arith, enough)))
      ∙ postfix_nilable-mark t s
  primary-print (suc (suc f)) _ s (one_of {t} {u} {ts} a b c) stop enough =
      primary-paren (suc f) _
      ∙ group-ty f _ s (union (arg t (arg u ts)))
          (union-print f t u ts s a b c (omega (arith, enough)))
      ∙ postfix_nilable-plain _ s (Follows-peeks b'?' s refl stop)
  primary-print _ _ _ _ _ enough = absurd (omega (arith, enough))

  pub ty-print :
      (f : ℕ) (t : RbsTy) (s : Text)
      → Writable t
      → Follows s
      → peeks b'|' s ≡ false
      → 2 + weight t ≤ f
      → ty f (print_ty t s) ≡ ok t s
  ty-print (suc (suc f)) t s a stop no_bar enough =
      ty-intersection (suc f) _ s t
        (intersection_ty-primary f _ s t (primary-print f t s a stop (omega (arith, enough))) stop)
        stop no_bar
  ty-print _ _ _ _ _ _ enough = absurd (omega (arith, enough))

  bracketed-print :
      (f : ℕ) (t : RbsTy) (ts : RbsTys) (s : Text)
      → Writable t
      → Writables ts
      → 3 + weight t + weights ts ≤ f
      → bracketed_types f (print_types b',' (arg t ts) (b']' ∷ s)) ≡ ok (arg t ts) s
  bracketed-print zero t ts s a qs enough = absurd (omega (arith, enough))
  bracketed-print (suc f) t ts s a qs enough =
      bracketed_types-more f _ _ s t ts (skip_ws-print t _ a)
        (ty-print f t _ a (more-Follows b',' b']' ts s refl refl) (commas-peeks ts s)
          (omega (arith, enough)))
        (more-Follows b',' b']' ts s refl refl) (more_types-print f ts s qs (omega (arith, enough)))

  more_types-print :
      (f : ℕ) (ts : RbsTys) (s : Text)
      → Writables ts
      → weights ts ≤ f
      → more_types f (print_more b',' ts (b']' ∷ s)) ≡ ok ts (b']' ∷ s)
  more_types-print (suc f) _ s nothing enough = more_types-done f s
  more_types-print (suc f) _ s (more {t} {ts} a qs) enough =
      more_types-more f _ _ _ t ts (skip_ws-print t _ a)
        (ty-print f t _ a (more-Follows b',' b']' ts s refl refl) (commas-peeks ts s)
          (omega (arith, enough)))
        (more-Follows b',' b']' ts s refl refl) (more_types-print f ts s qs (omega (arith, enough)))
  more_types-print zero ts s qs enough = absurd (omega (arith, enough, weights-some ts))

  union-print :
      (f : ℕ) (t u : RbsTy) (ts : RbsTys) (s : Text)
      → Writable t
      → Writable u
      → Writables ts
      → 2 + weight t + weights (arg u ts) ≤ f
      → ty f (print_types b'|' (arg t (arg u ts)) (b')' ∷ s))
        ≡ ok (union (arg t (arg u ts))) (b')' ∷ s)
  union-print (suc (suc f)) t u ts s a b c enough =
      ty-union (suc f) _ _ _ t (arg u ts)
        (intersection_ty-primary f _ _ t
          (primary-print f t _ a (closed_by refl) (omega (arith, enough))) (closed_by refl))
        (union_parts-print (suc f) (arg u ts) s (more b c) (omega (arith, enough)))
  union-print _ _ _ _ _ _ _ _ enough = absurd (omega (arith, enough))

  union_parts-print :
      (f : ℕ) (ts : RbsTys) (s : Text)
      → Writables ts
      → weights ts ≤ f
      → union_parts f (print_more b'|' ts (b')' ∷ s)) ≡ ok ts (b')' ∷ s)
  union_parts-print (suc f) _ s nothing enough = union_parts-done f s
  union_parts-print (suc (suc f)) _ s (more {t} {ts} a qs) enough =
      union_parts-more (suc f) _ _ _ t ts (skip_ws-print t _ a)
        (intersection_ty-primary f _ _ t
          (primary-print f t _ a (more-Follows b'|' b')' ts s refl refl) (omega (arith, enough)))
          (more-Follows b'|' b')' ts s refl refl))
        (more-Follows b'|' b')' ts s refl refl)
        (union_parts-print (suc f) ts s qs (omega (arith, enough)))
  union_parts-print zero ts s qs enough = absurd (omega (arith, enough, weights-some ts))
  union_parts-print (suc zero) _ s (more a qs) enough = absurd (omega (arith, enough))
