-- ===== src/Rbs/Printer/Params.antt =====
-- A list of parameters that is written out is read again.
use itaruby.Base.{
  ℕ, zero, suc, ◌+◌, ◌≤◌, Every, every_nil, every_cons, false, List, [], ◌∷◌, ◌++◌, Text, ◌≡◌, refl,
  nat_eq, arith,
}
use itaruby.Rbs.{RbsParam}
use itaruby.Rbs.Outcome.{ok}
use itaruby.Rbs.Scan.{is_lower, is_word, skip_ws, peeks, advance, eat, spaces, expect}
use itaruby.Rbs.Parser.{param_list, param_loop, param}
use itaruby.Rbs.Printer.{
  print_param, print_more_params, print_params, WritableParam, a_required, an_optional,
  a_required_keyword, an_optional_keyword,
}
use itaruby.Rbs.Printer.Steps.{Follows, closed_by, skip_ws-print, skip_ws-name}
use itaruby.Rbs.Printer.Param.{name-peeks, print_ty-peeks, param-print, loop_weight}

-- A parameter begins with no space and with no closing parenthesis.
skip_ws-print_param :
    (p : RbsParam) (s : Text) → WritableParam p → skip_ws (print_param p s) ≡ print_param p s
unfolding skip_ws
skip_ws-print_param _ s (a_required {t} a) = skip_ws-print t s a
skip_ws-print_param _ s (an_optional a) = refl
skip_ws-print_param _ s (a_required_keyword {name} {t} h lower a) = skip_ws-name name _ h
skip_ws-print_param _ s (an_optional_keyword h a) = refl

print_param-peeks :
    (p : RbsParam) (s : Text) → WritableParam p → peeks b')' (print_param p s) ≡ false
unfolding peeks is_word is_lower
print_param-peeks _ s (a_required {t} a) = print_ty-peeks b')' t s refl refl a
print_param-peeks _ s (an_optional a) = refl
print_param-peeks _ s (a_required_keyword {name} {t} h lower a) = name-peeks b')' name _ refl h
print_param-peeks _ s (an_optional_keyword h a) = refl

more_params-Follows : (ps : List RbsParam) (s : Text) → Follows (print_more_params ps s)
more_params-Follows [] s = closed_by refl
more_params-Follows (p ∷ ps) s = closed_by refl

more_params-peeks : (ps : List RbsParam) (s : Text) → peeks b'|' (print_more_params ps s) ≡ false
unfolding peeks
more_params-peeks [] s = refl
more_params-peeks (p ∷ ps) s = refl

param_loop-last :
    (f : ℕ) (s w : Text) (ps : List RbsParam)
    → param f s ≡ ok ps (b')' ∷ w)
    → param_loop (suc f) s ≡ ok ps w
unfolding param_loop spaces skip_ws eat expect peeks advance
param_loop-last f s w ps h = rw h refl

param_loop-more :
    (f : ℕ) (s w v : Text) (ps qs : List RbsParam)
    → param f s ≡ ok ps (b',' ∷ w)
    → skip_ws w ≡ w
    → param_loop f w ≡ ok qs v
    → param_loop (suc f) s ≡ ok (ps ++ qs) v
unfolding param_loop spaces skip_ws eat peeks advance
param_loop-more f s w v ps qs h e k = rw (h, e, k) refl

param_loop-print :
    (f : ℕ) (p : RbsParam) (ps : List RbsParam) (s : Text)
    → WritableParam p
    → Every WritableParam ps
    → loop_weight (p ∷ ps) ≤ f
    → param_loop f (print_params (p ∷ ps) s) ≡ ok (p ∷ ps) s
param_loop-print zero p ps s a qs enough = absurd (omega (arith, enough))
param_loop-print (suc f) p _ s a every_nil enough =
    param_loop-last f _ s (p ∷ []) (
      param-print f p (b')' ∷ s) a (closed_by refl) (more_params-peeks [] s)
        (omega (arith, enough)))
param_loop-print (suc f) p _ s a (every_cons {a = q} {rest = ps} b qs) enough =
    param_loop-more f _ (print_params (q ∷ ps) s) s (p ∷ []) (q ∷ ps)
      (param-print f p _ a (more_params-Follows (q ∷ ps) s) (more_params-peeks (q ∷ ps) s)
        (omega (arith, enough)))
      (skip_ws-print_param q _ b) (param_loop-print f q ps s b qs (omega (arith, enough)))

pub param_list-print :
    (f : ℕ) (ps : List RbsParam) (s : Text)
    → Every WritableParam ps
    → 1 + loop_weight ps ≤ f
    → param_list f (print_params ps s) ≡ ok ps s
unfolding param_list spaces skip_ws eat peeks advance
param_list-print zero ps s qs enough = absurd (omega (arith, enough))
param_list-print (suc f) _ s every_nil enough = refl
param_list-print (suc f) _ s (every_cons {a = p} {rest = ps} a qs) enough =
    rw
      (
        skip_ws-print_param p (print_more_params ps s) a,
        print_param-peeks p (print_more_params ps s) a,
      )
      (param_loop-print f p ps s a qs (omega (arith, enough)))
