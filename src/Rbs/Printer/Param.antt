-- ===== src/Rbs/Printer/Param.antt =====
-- A parameter that is written out is read again.
use itaruby.Base.{
  ℕ, zero, suc, ◌+◌, ◌≤◌, true, false, List, [], ◌∷◌, ◌++◌, Text, codes, ◌==◌, ◌≡◌, refl, ◌∙◌,
  nat_eq, arith,
}
use itaruby.Rbs.{RbsTy, RbsParam, required, optional, keyword}
use itaruby.Rbs.Outcome.{expected, ok, err}
use itaruby.Rbs.Scan.{
  is_lower, is_word, read_ident, ident, skip_param_name, skip_ws, peeks, peeks_second, advance,
  step, eat, spaces,
}
use itaruby.Rbs.Parser.{names_keyword, lower_name, keyword_name, ty, param}
use itaruby.Rbs.Printer.{
  IsName, print_ty, Writable, a_name, one_argument, two_arguments, or_nil, one_of, print_param,
  begins_lower, WritableParam, a_required, an_optional, a_required_keyword, an_optional_keyword,
}
use itaruby.Rbs.Printer.Names.{
  told_apart, Stops, at_colon, ident-name, begins_name-name, read_ident-none,
}
use itaruby.Rbs.Printer.Steps.{
  begins, Follows, Follows-Stops, Follows-peeks, Follows-skip_ws, skip_ws-print, skip_ws-name,
}
use itaruby.Rbs.Printer.Types.{weight, opening_bracket, ty-print}

pub name-peeks :
    (b : ℕ) (name s : Text) → begins b ≡ false → IsName name → peeks b (name ++ s) ≡ false
unfolding peeks IsName
name-peeks b [] s h (some_byte, k) = absurd (omega (arith, some_byte))
name-peeks b (c ∷ name) s h k = told_apart begins c b (begins_name-name c name k) h

-- A type begins with a name or with a parenthesis.
pub print_ty-peeks :
    (b : ℕ) (t : RbsTy) (s : Text)
    → begins b ≡ false
    → (b'(' == b) ≡ false
    → Writable t
    → peeks b (print_ty t s) ≡ false
unfolding peeks
print_ty-peeks b _ s h k (a_name {name} a) = name-peeks b name s h a
print_ty-peeks b _ s h k (one_argument {name} a _) = name-peeks b name _ h a
print_ty-peeks b _ s h k (two_arguments {name} a _ _) = name-peeks b name _ h a
print_ty-peeks b _ s h k (or_nil _) = k
print_ty-peeks b _ s h k (one_of _ _ _) = k

ident-paren : (s : Text) → ident (b'(' ∷ s) ≡ err (expected (codes "identifier") (b'(' ∷ s))
unfolding ident read_ident is_word is_lower
ident-paren [] = refl
ident-paren (c ∷ s) = refl

names_keyword-name :
    (name s : Text)
    → IsName name
    → Stops s
    → peeks b':' s ≡ false
    → names_keyword (ident (name ++ s)) ≡ false
names_keyword-name name s h stop k = rw (ident-name name s h stop, k) refl

-- A type is not taken for a keyword.
names_keyword-print :
    (t : RbsTy) (s : Text) → Writable t → Follows s → names_keyword (ident (print_ty t s)) ≡ false
unfolding peeks
names_keyword-print _ s (a_name {name} a) stop =
    names_keyword-name name s a (Follows-Stops s stop) (Follows-peeks b':' s refl stop)
names_keyword-print _ s (one_argument {name} a _) stop =
    names_keyword-name name _ a (opening_bracket _) refl
names_keyword-print _ s (two_arguments {name} a _ _) stop =
    names_keyword-name name _ a (opening_bracket _) refl
names_keyword-print _ s (or_nil _) stop = rw (ident-paren _) refl
names_keyword-print _ s (one_of _ _ _) stop = rw (ident-paren _) refl

skip_param_name-none : (s : Text) → Follows s → skip_param_name s ≡ ok tt s
unfolding skip_param_name
skip_param_name-none s h = rw (Follows-skip_ws s h, read_ident-none s (Follows-Stops s h)) refl

keyword_name-name :
    (name s : Text) → IsName name → keyword_name (name ++ b':' ∷ b' ' ∷ s) ≡ ok name (b' ' ∷ s)
unfolding keyword_name step advance
keyword_name-name name s h = rw (ident-name name (b':' ∷ b' ' ∷ s) h at_colon) refl

-- `ty` skips a space.
ty-space : (f : ℕ) (s : Text) → ty (suc (suc (suc f))) (b' ' ∷ s) ≡ ty (suc (suc (suc f))) s
unfolding ty spaces skip_ws
ty-space f s = refl

ty-spaced :
    (f : ℕ) (t : RbsTy) (s : Text)
    → Writable t
    → Follows s
    → peeks b'|' s ≡ false
    → 3 + weight t ≤ f
    → ty f (b' ' ∷ print_ty t s) ≡ ok t s
ty-spaced (suc (suc (suc f))) t s a stop no_bar enough =
    ty-space f (print_ty t s)
    ∙ ty-print (suc (suc (suc f))) t s a stop no_bar (omega (arith, enough))
ty-spaced _ _ _ _ _ _ enough = absurd (omega (arith, enough))

lower_name-name : (name s : Text) → begins_lower name ≡ true → lower_name (ok name s) ≡ true
lower_name-name [] s h = h
lower_name-name (c ∷ name) s h = h

-- The rules for a parameter, in front of what they read.
param-required :
    (f : ℕ) (s w : Text) (t : RbsTy)
    → skip_ws s ≡ s
    → peeks b'*' s ≡ false
    → peeks b'?' s ≡ false
    → names_keyword (ident s) ≡ false
    → ty f s ≡ ok t w
    → Follows w
    → param (suc (suc f)) s ≡ ok (required t ∷ []) w
unfolding param spaces eat
param-required f s w t e star mark k h stop =
    rw (e, star, mark, k, h, skip_param_name-none w stop) refl

param-optional :
    (f : ℕ) (s w : Text) (t : RbsTy)
    → skip_ws s ≡ s
    → names_keyword (ident s) ≡ false
    → ty f s ≡ ok t w
    → Follows w
    → param (suc (suc f)) (b'?' ∷ s) ≡ ok (optional t ∷ []) w
unfolding param spaces skip_ws eat peeks advance
param-optional f s w t e k h stop = rw (e, k, h, skip_param_name-none w stop) refl

param-required_keyword :
    (f : ℕ) (name s w : Text) (t : RbsTy)
    → IsName name
    → begins_lower name ≡ true
    → ty f (b' ' ∷ s) ≡ ok t w
    → param (suc (suc f)) (name ++ b':' ∷ b' ' ∷ s) ≡ ok (keyword name t true ∷ []) w
unfolding param spaces eat peeks_second is_word is_lower
param-required_keyword f name s w t a lower h =
    let rest = b':' ∷ b' ' ∷ s in
    rw
      (
        skip_ws-name name rest a,
        name-peeks b'*' name rest refl a,
        name-peeks b'?' name rest refl a,
        ident-name name rest a at_colon,
        lower_name-name name rest lower,
        keyword_name-name name s a,
        h,
      )
      refl

param-optional_keyword :
    (f : ℕ) (name s w : Text) (t : RbsTy)
    → IsName name
    → ty f (b' ' ∷ s) ≡ ok t w
    → param (suc (suc f)) (b'?' ∷ (name ++ b':' ∷ b' ' ∷ s)) ≡ ok (keyword name t false ∷ []) w
unfolding param spaces skip_ws eat peeks peeks_second advance
param-optional_keyword f name s w t a h =
    let rest = b':' ∷ b' ' ∷ s in
    rw (skip_ws-name name rest a, ident-name name rest a at_colon, keyword_name-name name s a, h)
      refl

-- The fuel that `param` and `param_loop` take.
abbrev pub param_weight : RbsParam → ℕ
param_weight (required t) = 5 + weight t
param_weight (optional t) = 5 + weight t
param_weight (keyword name t r) = 5 + weight t

abbrev pub loop_weight : List RbsParam → ℕ
loop_weight [] = 0
loop_weight (p ∷ ps) = 1 + (param_weight p + loop_weight ps)

pub param-print :
    (f : ℕ) (p : RbsParam) (s : Text)
    → WritableParam p
    → Follows s
    → peeks b'|' s ≡ false
    → param_weight p ≤ f
    → param f (print_param p s) ≡ ok (p ∷ []) s
unfolding is_word is_lower
param-print (suc (suc f)) _ s (a_required {t} a) stop no_bar enough =
    param-required f _ s t (skip_ws-print t s a) (print_ty-peeks b'*' t s refl refl a)
      (print_ty-peeks b'?' t s refl refl a) (names_keyword-print t s a stop)
      (ty-print f t s a stop no_bar (omega (arith, enough))) stop
param-print (suc (suc f)) _ s (an_optional {t} a) stop no_bar enough =
    param-optional f _ s t (skip_ws-print t s a) (names_keyword-print t s a stop)
      (ty-print f t s a stop no_bar (omega (arith, enough))) stop
param-print (suc (suc f)) _ s (a_required_keyword {name} {t} h lower a) stop no_bar enough =
    param-required_keyword f name _ s t h lower
      (ty-spaced f t s a stop no_bar (omega (arith, enough)))
param-print (suc (suc f)) _ s (an_optional_keyword {name} {t} h a) stop no_bar enough =
    param-optional_keyword f name _ s t h (ty-spaced f t s a stop no_bar (omega (arith, enough)))
param-print (suc zero) (required t) s a stop no_bar enough = absurd (omega (arith, enough))
param-print (suc zero) (optional t) s a stop no_bar enough = absurd (omega (arith, enough))
param-print (suc zero) (keyword name t r) s a stop no_bar enough = absurd (omega (arith, enough))
param-print zero (required t) s a stop no_bar enough = absurd (omega (arith, enough))
param-print zero (optional t) s a stop no_bar enough = absurd (omega (arith, enough))
param-print zero (keyword name t r) s a stop no_bar enough = absurd (omega (arith, enough))
