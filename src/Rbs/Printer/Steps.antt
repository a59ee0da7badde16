-- ===== src/Rbs/Printer/Steps.antt =====
-- What each rule of the parser does in front of a text whose parts it reads.
use itaruby.Base.{
  ℕ, suc, Bool, true, false, ◌&&◌, ◌||◌, [], ◌∷◌, ◌++◌, Text, codes, ◌==◌, ◌≡◌, refl, nat_eq,
  text_eq, arith,
}
use itaruby.Rbs.{RbsTy, RbsTys, simple, generic, union, arg}
use itaruby.Rbs.Outcome.{ok, chain}
use itaruby.Rbs.Scan.{is_lower, is_word, ident, skip_ws, peeks, advance, eat, spaces, expect}
use itaruby.Rbs.Parser.{
  postfix_nilable, more_than_two, ty, union_parts, intersection_ty, primary, group, named,
  bracketed_types, more_types,
}
use itaruby.Rbs.Printer.{
  IsName, print_ty, Writable, a_name, one_argument, two_arguments, or_nil, one_of,
}
use itaruby.Rbs.Printer.Names.{told_apart, Stops, no_more, at_other, ident-name, begins_name-name}

abbrev pub closes : ℕ → Bool
closes c = c == b'|' || c == b')' || c == b']' || c == b','

-- What may follow a type.
pub data Follows : Text → Type 0 where
  end_of_input : Follows []
  closed_by : {c : ℕ} {s : Text} → closes c ≡ true → Follows (c ∷ s)

abbrev pub begins : ℕ → Bool
begins c = is_word c || c == b':'

closes-is_word : (c : ℕ) → closes c ≡ true → is_word c ≡ false
unfolding is_word is_lower
closes-is_word c h = ground (arith, h)

pub Follows-Stops : (s : Text) → Follows s → Stops s
Follows-Stops s end_of_input = no_more
Follows-Stops (c ∷ s) (closed_by h) =
    at_other (closes-is_word c h) (told_apart closes c b':' h refl)

pub Follows-peeks : (b : ℕ) (s : Text) → closes b ≡ false → Follows s → peeks b s ≡ false
unfolding peeks
Follows-peeks b s h end_of_input = refl
Follows-peeks b (c ∷ s) h (closed_by k) = told_apart closes c b k h

pub Follows-skip_ws : (s : Text) → Follows s → skip_ws s ≡ s
unfolding skip_ws
Follows-skip_ws s end_of_input = refl
Follows-skip_ws (c ∷ s) (closed_by k) =
    rw (told_apart closes c b' ' k refl, told_apart closes c b'\t' k refl) refl

pub skip_ws-begins : (c : ℕ) (s : Text) → begins c ≡ true → skip_ws (c ∷ s) ≡ c ∷ s
unfolding skip_ws is_word is_lower
skip_ws-begins c s h = rw (told_apart begins c b' ' h refl, told_apart begins c b'\t' h refl) refl

pub skip_ws-name : (name s : Text) → IsName name → skip_ws (name ++ s) ≡ name ++ s
unfolding IsName
skip_ws-name [] s (some_byte, h) = absurd (omega (arith, some_byte))
skip_ws-name (c ∷ name) s h = skip_ws-begins c (name ++ s) (begins_name-name c name h)

pub skip_ws-print : (t : RbsTy) (s : Text) → Writable t → skip_ws (print_ty t s) ≡ print_ty t s
unfolding skip_ws
skip_ws-print _ s (a_name {name} h) = skip_ws-name name s h
skip_ws-print _ s (one_argument {name} h _) = skip_ws-name name _ h
skip_ws-print _ s (two_arguments {name} h _ _) = skip_ws-name name _ h
skip_ws-print _ s (or_nil _) = refl
skip_ws-print _ s (one_of _ _ _) = refl

-- A name is none of the marks that `primary` looks for.
primary-begins :
    (f c : ℕ) (s : Text)
    → begins c ≡ true
    → primary (suc f) (c ∷ s) ≡ chain (ident (c ∷ s)) (named f)
unfolding primary spaces eat peeks is_word is_lower
primary-begins f c s h =
    rw
      (
        skip_ws-begins c s h,
        told_apart begins c b'?' h refl,
        told_apart begins c b'^' h refl,
        told_apart begins c b'(' h refl,
        told_apart begins c b'{' h refl,
        told_apart begins c b'[' h refl,
      )
      refl

pub primary-name :
    (f : ℕ) (name s : Text) → IsName name → Stops s → primary (suc f) (name ++ s) ≡ named f name s
unfolding IsName
primary-name f [] s (some_byte, h) stop = absurd (omega (arith, some_byte))
primary-name f (c ∷ name) s h stop =
    rw (primary-begins f c (name ++ s) (begins_name-name c name h), ident-name (c ∷ name) s h stop)
      refl

pub primary-paren : (f : ℕ) (s : Text) → primary (suc f) (b'(' ∷ s) ≡ group f s
unfolding primary spaces skip_ws eat peeks advance
primary-paren f s = refl

and_false : (b : Bool) → (b && false) ≡ false
and_false true = refl
and_false false = refl

pub named-simple : (f : ℕ) (name s : Text) → Follows s → named (suc f) name s ≡ ok (simple name) s
unfolding named eat postfix_nilable
named-simple f name s h =
    rw
      (
        Follows-peeks b'(' s refl h,
        and_false (name == codes "singleton"),
        Follows-peeks b'[' s refl h,
        Follows-peeks b'?' s refl h,
      )
      refl

pub named-generic :
    (f : ℕ) (name s w : Text) (args : RbsTys)
    → bracketed_types f s ≡ ok args w
    → more_than_two args ≡ false
    → peeks b'?' w ≡ false
    → named (suc f) name (b'[' ∷ s) ≡ ok (generic name args) w
unfolding named eat postfix_nilable peeks advance
named-generic f name s w args h few k = rw (and_false (name == codes "singleton"), h, few, k) refl

pub group-ty :
    (f : ℕ) (s w : Text) (t : RbsTy)
    → ty f s ≡ ok t (b')' ∷ w)
    → group (suc f) s ≡ postfix_nilable t w
unfolding group spaces skip_ws expect eat peeks advance
group-ty f s w t h = rw h refl

pub intersection_ty-primary :
    (f : ℕ) (s w : Text) (t : RbsTy)
    → primary f s ≡ ok t w
    → Follows w
    → intersection_ty (suc f) s ≡ ok t w
unfolding intersection_ty spaces
intersection_ty-primary f s w t h k = rw (h, Follows-skip_ws w k, Follows-peeks b'&' w refl k) refl

pub ty-intersection :
    (f : ℕ) (s w : Text) (t : RbsTy)
    → intersection_ty f s ≡ ok t w
    → Follows w
    → peeks b'|' w ≡ false
    → ty (suc f) s ≡ ok t w
unfolding ty spaces
ty-intersection f s w t h k no_bar = rw (h, Follows-skip_ws w k, no_bar) refl

pub ty-union :
    (f : ℕ) (s w v : Text) (t : RbsTy) (ts : RbsTys)
    → intersection_ty f s ≡ ok t (b'|' ∷ w)
    → union_parts f (b'|' ∷ w) ≡ ok ts v
    → ty (suc f) s ≡ ok (union (arg t ts)) v
unfolding ty spaces skip_ws peeks
ty-union f s w v t ts h k = rw (h, k) refl

pub union_parts-more :
    (f : ℕ) (s w v : Text) (t : RbsTy) (ts : RbsTys)
    → skip_ws s ≡ s
    → intersection_ty f s ≡ ok t w
    → Follows w
    → union_parts f w ≡ ok ts v
    → union_parts (suc f) (b'|' ∷ s) ≡ ok (arg t ts) v
unfolding union_parts spaces eat peeks advance
union_parts-more f s w v t ts e h k l = rw (e, h, Follows-skip_ws w k, l) refl

pub bracketed_types-more :
    (f : ℕ) (s w v : Text) (t : RbsTy) (ts : RbsTys)
    → skip_ws s ≡ s
    → ty f s ≡ ok t w
    → Follows w
    → more_types f w ≡ ok ts (b']' ∷ v)
    → bracketed_types (suc f) s ≡ ok (arg t ts) v
unfolding bracketed_types spaces expect eat peeks advance
bracketed_types-more f s w v t ts e h k l = rw (e, h, Follows-skip_ws w k, l) refl

pub more_types-more :
    (f : ℕ) (s w v : Text) (t : RbsTy) (ts : RbsTys)
    → skip_ws s ≡ s
    → ty f s ≡ ok t w
    → Follows w
    → more_types f w ≡ ok ts v
    → more_types (suc f) (b',' ∷ s) ≡ ok (arg t ts) v
unfolding more_types spaces eat peeks advance
more_types-more f s w v t ts e h k l = rw (e, h, Follows-skip_ws w k, l) refl
