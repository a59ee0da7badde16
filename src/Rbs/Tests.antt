-- ===== src/Rbs/Tests.antt =====
-- Runs of the parser of signature comments, and the instances of its theorems.
use itaruby.Base.{
  ◌<◌, length, arith, every_nil, every_cons, true, [], ◌∷◌, some, Text, codes, ◌≡◌, ◌≢◌, refl,
}
use itaruby.Rbs.{simple, generic, nilable, union, end, arg, required, optional, keyword, RbsSig}
use itaruby.Rbs.Outcome.{expected, ok, err, out_of_fuel}
use itaruby.Rbs.Scan.{
  skip_ws, peeks, peeks_second, advance, step, eat, spaces, is_lower, is_word, read_ident, ident,
  skip_param_name, eat_arrow, expect_arrow, expect,
}
use itaruby.Rbs.Parser.{postfix_nilable, keyword_name, ty}
use itaruby.Rbs.Comment.{
  type_param_names, parse_type_params, placeholder, block_param_list, skip_block_self_type,
  optional_block_params, block_clause, marked_block, skip_block_type, at_end, any_byte,
  optional_params, rbs_comment, parse_rbs_comment, not_nil, cast_target, cast_words,
  parse_cast_comment,
}
use itaruby.Rbs.Comment.Ends.{parse_rbs_comment-ends}
use itaruby.Rbs.Printer.{
  IsName, a_name, one_argument, or_nil, one_of, nothing, an_optional, a_required_keyword,
  WritableSig,
}
use itaruby.Rbs.Printer.RoundTrip.{parse_rbs_comment-print}

parses_documented_form :
    parse_rbs_comment (codes "(Integer, ?String, foo: Symbol) -> Array[String]")
    ≡ ok
        (record {
          params =
              required (simple (codes "Integer"))
              ∷ optional (simple (codes "String"))
              ∷ keyword (codes "foo") (simple (codes "Symbol")) true
              ∷ [];
          ret = generic (codes "Array") (arg (simple (codes "String")) end);
          type_params = [];
        })
        []
unfolding parse_rbs_comment rbs_comment spaces skip_ws parse_type_params type_param_names any_byte
    optional_params skip_block_type step eat peeks peeks_second advance marked_block block_clause
    optional_block_params block_param_list placeholder skip_block_self_type expect expect_arrow
    eat_arrow at_end ident read_ident is_word is_lower skip_param_name postfix_nilable keyword_name
    ty
parses_documented_form = refl

parses_type_params_and_block :
    parse_rbs_comment (codes "[T, U < Array[T]] (T) ?{ (?) -> void } -> (T | nil)?")
    ≡ ok
        (record {
          params = required (simple (codes "T")) ∷ [];
          ret = nilable (union (arg (simple (codes "T")) (arg (simple (codes "nil")) end)));
          type_params = codes "T" ∷ codes "U" ∷ [];
        })
        []
unfolding parse_rbs_comment rbs_comment spaces skip_ws parse_type_params type_param_names any_byte
    optional_params skip_block_type step eat peeks peeks_second advance marked_block block_clause
    optional_block_params block_param_list placeholder skip_block_self_type expect expect_arrow
    eat_arrow at_end ident read_ident is_word is_lower skip_param_name postfix_nilable keyword_name
    ty
parses_type_params_and_block = refl

refuses_untyped_function :
    parse_rbs_comment (codes "(?) -> T") ≡ err (expected (codes "identifier") (codes ") -> T"))
unfolding parse_rbs_comment rbs_comment spaces skip_ws parse_type_params type_param_names any_byte
    optional_params skip_block_type step eat peeks peeks_second advance marked_block block_clause
    optional_block_params block_param_list placeholder skip_block_self_type expect expect_arrow
    eat_arrow at_end ident read_ident is_word is_lower skip_param_name postfix_nilable keyword_name
    ty
refuses_untyped_function = refl

parses_cast : parse_cast_comment (codes " as  !nil ") ≡ some not_nil
unfolding parse_cast_comment cast_words cast_target
parses_cast = refl

parse_rbs_comment-ends_example : parse_rbs_comment (codes "(Integer) -> String") ≢ out_of_fuel
parse_rbs_comment-ends_example = parse_rbs_comment-ends (codes "(Integer) -> String")

-- `[T](?(T|nil),foo: Array[T])->(T)?`
abbrev sample_sig : RbsSig
sample_sig = record {
  params =
      optional (union (arg (simple (codes "T")) (arg (simple (codes "nil")) end)))
      ∷ keyword (codes "foo") (generic (codes "Array") (arg (simple (codes "T")) end)) true
      ∷ [];
  ret = nilable (simple (codes "T"));
  type_params = codes "T" ∷ [];
}

is_name : (name : Text) → 0 < length name → (read_ident name).1 ≡ [] → IsName name
unfolding IsName
is_name name h k = (h, k)

sample_sig-writable : WritableSig sample_sig
unfolding read_ident is_word is_lower
sample_sig-writable =
    let letter = is_name (codes "T") (omega arith) refl in
    record {
      params_writable =
          every_cons
            (an_optional
              (one_of (a_name letter) (a_name (is_name (codes "nil") (omega arith) refl)) nothing))
            (every_cons
              (a_required_keyword (is_name (codes "foo") (omega arith) refl) refl
                (one_argument (is_name (codes "Array") (omega arith) refl) (a_name letter)))
              every_nil);
      ret_writable = or_nil (a_name letter);
      names_writable = every_cons letter every_nil;
    }

parse_rbs_comment-print_example :
    parse_rbs_comment (codes "[T](?(T|nil),foo: Array[T])->(T)?") ≡ ok sample_sig []
parse_rbs_comment-print_example = parse_rbs_comment-print sample_sig sample_sig-writable
