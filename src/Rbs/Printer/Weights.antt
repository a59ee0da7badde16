-- ===== src/Rbs/Printer/Weights.antt =====
-- The fuel for what is written out is at most eight for each byte.
use itaruby.Base.{
  ◌+◌, ◌*◌, ◌≤◌, Every, every_nil, every_cons, List, ◌∷◌, ◌++◌, Text, length, length-append, arith,
}
use itaruby.Rbs.{RbsTy, RbsTys, arg, RbsParam}
use itaruby.Rbs.Printer.{
  IsName, print_ty, print_more, Writable, a_name, one_argument, two_arguments, or_nil, one_of,
  Writables, nothing, more, print_param, print_more_params, print_params, print_more_names,
  print_type_params, WritableParam, a_required, an_optional, a_required_keyword,
  an_optional_keyword,
}
use itaruby.Rbs.Printer.Types.{weight, weights}
use itaruby.Rbs.Printer.Param.{param_weight, loop_weight}

name_length : (name s : Text) → IsName name → 1 + length s ≤ length (name ++ s)
unfolding IsName
name_length name s (some_byte, h) = omega (arith, some_byte, length-append name s)

mutual
  pub weight-print :
      (t : RbsTy) (s : Text) → Writable t → weight t + 8 * length s ≤ 8 * length (print_ty t s)
  weight-print _ s (a_name {name} h) = omega (arith, name_length name s h)
  weight-print _ s (one_argument {name} {t} h a) =
      let rest = b']' ∷ s in
      omega (arith, name_length name (b'[' ∷ print_ty t rest) h, weight-print t rest a)
  weight-print _ s (two_arguments {name} {t} {u} h a b) =
      let rest = b']' ∷ s in
      omega (
        arith,
        name_length name (b'[' ∷ print_ty t (b',' ∷ print_ty u rest)) h,
        weight-print t (b',' ∷ print_ty u rest) a,
        weight-print u rest b,
      )
  weight-print _ s (or_nil {t} a) = omega (arith, weight-print t (b')' ∷ b'?' ∷ s) a)
  weight-print _ s (one_of {t} {u} {ts} a b c) =
      let rest = b')' ∷ s in
      omega (
        arith,
        weight-print t (print_more b'|' (arg u ts) rest) a,
        weight-print u (print_more b'|' ts rest) b,
        weights-print ts rest c,
      )

  weights-print :
      (ts : RbsTys) (s : Text)
      → Writables ts
      → weights ts + 8 * length s ≤ 1 + 8 * length (print_more b'|' ts s)
  weights-print _ s nothing = omega arith
  weights-print _ s (more {t} {ts} a qs) =
      omega (arith, weight-print t (print_more b'|' ts s) a, weights-print ts s qs)

param_weight-print :
    (p : RbsParam) (s : Text)
    → WritableParam p
    → param_weight p + 8 * length s ≤ 5 + 8 * length (print_param p s)
param_weight-print _ s (a_required {t} a) = omega (arith, weight-print t s a)
param_weight-print _ s (an_optional {t} a) = omega (arith, weight-print t s a)
param_weight-print _ s (a_required_keyword {name} {t} h lower a) =
    omega (arith, weight-print t s a, name_length name (b':' ∷ b' ' ∷ print_ty t s) h)
param_weight-print _ s (an_optional_keyword {name} {t} h a) =
    omega (arith, weight-print t s a, name_length name (b':' ∷ b' ' ∷ print_ty t s) h)

more_params-weight :
    (ps : List RbsParam) (s : Text)
    → Every WritableParam ps
    → 8 + loop_weight ps + 8 * length s ≤ 8 * length (print_more_params ps s)
more_params-weight _ s every_nil = omega arith
more_params-weight _ s (every_cons {a = p} {rest = ps} a qs) =
    omega (arith, param_weight-print p (print_more_params ps s) a, more_params-weight ps s qs)

pub loop_weight-print :
    (ps : List RbsParam) (s : Text)
    → Every WritableParam ps
    → 1 + loop_weight ps + 8 * length s ≤ 8 * length (print_params ps s)
loop_weight-print _ s every_nil = omega arith
loop_weight-print _ s (every_cons {a = p} {rest = ps} a qs) =
    omega (arith, param_weight-print p (print_more_params ps s) a, more_params-weight ps s qs)

more_names-length :
    (names : List Text) (s : Text)
    → Every IsName names
    → 1 + 2 * length names + length s ≤ length (print_more_names names s)
more_names-length _ s every_nil = omega arith
more_names-length _ s (every_cons {a = name} {rest = names} h hs) =
    omega (arith, name_length name (print_more_names names s) h, more_names-length names s hs)

pub type_params-length :
    (names : List Text) (s : Text)
    → Every IsName names
    → 2 * length names + length s ≤ length (print_type_params names s)
type_params-length _ s every_nil = omega arith
type_params-length _ s (every_cons {a = name} {rest = names} h hs) =
    omega (arith, name_length name (print_more_names names s) h, more_names-length names s hs)
