-- ===== src/Rbs/Printer/RoundTrip.antt =====
-- A signature that is written out is read again.
use itaruby.Base.{
  ℕ, zero, suc, ◌+◌, ◌*◌, ◌≤◌, Every, every_nil, every_cons, true, false, List, [], ◌∷◌, ◌++◌, Text,
  ◌≡◌, refl, ◌∙◌, nat_eq, length, arith,
}
use itaruby.Rbs.{RbsParam, RbsSig}
use itaruby.Rbs.Outcome.{ok, pure, ◌>>=◌}
use itaruby.Rbs.Scan.{
  is_lower, is_word, ident, skip_ws, peeks, peeks_second, advance, eat, spaces, expect_arrow,
  eat_arrow,
}
use itaruby.Rbs.Parser.{ty, param_list}
use itaruby.Rbs.Comment.{
  type_param_names, parse_type_params, optional_params, marked_block, skip_block_type, at_end,
  rbs_comment, parse_rbs_comment,
}
use itaruby.Rbs.Printer.{
  IsName, print_ty, print_params, print_more_names, print_type_params, print_sig, WritableSig,
}
use itaruby.Rbs.Printer.Names.{Stops, at_other, ident-name}
use itaruby.Rbs.Printer.Steps.{end_of_input, skip_ws-name}
use itaruby.Rbs.Printer.Types.{ty-print}
use itaruby.Rbs.Printer.Params.{param_list-print}
use itaruby.Rbs.Printer.Weights.{weight-print, loop_weight-print, type_params-length}

more_names-Stops : (names : List Text) (s : Text) → Stops (print_more_names names s)
unfolding is_word is_lower
more_names-Stops [] s = at_other refl refl
more_names-Stops (name ∷ names) s = at_other refl refl

name-then :
    (u s w name : Text) (f : ℕ) (names : List Text)
    → ident u ≡ ok name s
    → type_param_names f 1 false s ≡ ok names w
    → (ident >>= λ n. type_param_names f 1 false >>= λ ns. pure (n ∷ ns)) u ≡ ok (name ∷ names) w
name-then u s w name f names h k = rw (h, k) refl

names-read :
    (f : ℕ) (name s w : Text) (names : List Text)
    → IsName name
    → Stops s
    → type_param_names f 1 false s ≡ ok names w
    → type_param_names (suc f) 1 true (name ++ s) ≡ ok (name ∷ names) w
unfolding type_param_names spaces
names-read f name s w names h stop k =
    rw (skip_ws-name name s h, ident-name name s h stop)
      (name-then (name ++ s) s w name f names (ident-name name s h stop) k)

names-comma :
    (f : ℕ) (s : Text) → type_param_names (suc f) 1 false (b',' ∷ s) ≡ type_param_names f 1 true s
unfolding type_param_names eat peeks advance
names-comma f s = refl

names-closing : (f : ℕ) (s : Text) → type_param_names (suc (suc f)) 1 false (b']' ∷ s) ≡ ok [] s
unfolding type_param_names eat peeks advance
names-closing f s = refl

more_names-print :
    (f : ℕ) (names : List Text) (s : Text)
    → Every IsName names
    → 2 + 2 * length names ≤ f
    → type_param_names f 1 false (print_more_names names s) ≡ ok names s
more_names-print (suc (suc f)) _ s every_nil enough = names-closing f s
more_names-print (suc (suc f)) _ s (every_cons {a = name} {rest = names} h hs) enough =
    names-comma (suc f) _
    ∙ names-read f name _ s names h (more_names-Stops names s)
        (more_names-print f names s hs (omega (arith, enough)))
more_names-print zero names s hs enough = absurd (omega (arith, enough))
more_names-print (suc zero) names s hs enough = absurd (omega (arith, enough))

skip_ws-type_params :
    (names : List Text) (s : Text)
    → skip_ws (print_type_params names (b'(' ∷ s)) ≡ print_type_params names (b'(' ∷ s)
unfolding skip_ws
skip_ws-type_params [] s = refl
skip_ws-type_params (name ∷ names) s = refl

parse_type_params-print :
    (f : ℕ) (names : List Text) (s : Text)
    → Every IsName names
    → 2 + 2 * length names ≤ f
    → parse_type_params f (print_type_params names (b'(' ∷ s)) ≡ ok names (b'(' ∷ s)
unfolding parse_type_params spaces skip_ws eat peeks advance
parse_type_params-print f _ s every_nil enough = refl
parse_type_params-print (suc f) _ s (every_cons {a = name} {rest = names} h hs) enough =
    names-read f name _ (b'(' ∷ s) names h (more_names-Stops names _)
      (more_names-print f names _ hs (omega (arith, enough)))
parse_type_params-print zero names s hs enough = absurd (omega (arith, enough))

optional_params-print :
    (f : ℕ) (ps : List RbsParam) (s : Text)
    → param_list f (print_params ps s) ≡ ok ps s
    → optional_params f (b'(' ∷ print_params ps s) ≡ ok ps s
unfolding optional_params eat peeks advance
optional_params-print f ps s h = h

rbs_comment-print :
    (f : ℕ) (sig : RbsSig)
    → parse_type_params f (print_sig sig)
      ≡ ok sig.type_params (b'(' ∷ print_params sig.params (b'-' ∷ b'>' ∷ print_ty sig.ret []))
    → optional_params f (b'(' ∷ print_params sig.params (b'-' ∷ b'>' ∷ print_ty sig.ret []))
      ≡ ok sig.params (b'-' ∷ b'>' ∷ print_ty sig.ret [])
    → ty f (print_ty sig.ret []) ≡ ok sig.ret []
    → rbs_comment f (print_sig sig) ≡ ok sig []
unfolding rbs_comment spaces skip_ws skip_block_type marked_block eat peeks peeks_second advance
    expect_arrow eat_arrow at_end
rbs_comment-print f sig h k l = rw (skip_ws-type_params sig.type_params _, h, k, l) refl

-- A signature is parsed back from its written form, with no input left, when every name in it is
-- one that ident reads to its end (a required keyword: one that begins in lower case or with `_`),
-- every generic type has one or two arguments and every union two members or more.
pub parse_rbs_comment-print :
    (sig : RbsSig) → WritableSig sig → parse_rbs_comment (print_sig sig) ≡ ok sig []
unfolding parse_rbs_comment peeks
parse_rbs_comment-print sig writable =
    let result = b'-' ∷ b'>' ∷ print_ty sig.ret [] in
    let params = b'(' ∷ print_params sig.params result in
    let params_weight = loop_weight-print sig.params result writable.params_writable in
    let ret_weight = weight-print sig.ret [] writable.ret_writable in
    let names_length = type_params-length sig.type_params params writable.names_writable in
    let f = 8 * length (print_sig sig) + 16 in
    rbs_comment-print f sig
      (parse_type_params-print f sig.type_params _ writable.names_writable
        (omega (arith, names_length)))
      (optional_params-print f sig.params _ (
        param_list-print f sig.params result writable.params_writable
          (omega (arith, params_weight, names_length))))
      (ty-print f sig.ret [] writable.ret_writable end_of_input refl
        (omega (arith, params_weight, ret_weight, names_length)))
