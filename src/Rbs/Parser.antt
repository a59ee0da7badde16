-- ===== src/Rbs/Parser.antt =====
-- crates/itaruby_semantic/src/rbs_comment.rs: `parse_rbs_comment` and the recursive part of `Parser`.
-- A call that reads a type costs a unit of fuel.
pub mod Ends
use itaruby.Base.{
  ℕ, zero, suc, ◌+◌, ◌*◌, Bool, true, false, not, ◌&&◌, ◌||◌, List, [], ◌∷◌, ◌++◌, Option, none,
  some, Text, codes, ◌==◌, if◌then◌else◌, nat_eq, text_eq, length,
}
use itaruby.Rbs.{
  RbsTy, RbsTys, simple, generic, nilable, union, end, arg, RbsParam, required, optional, keyword,
  RbsSig,
}
use itaruby.Rbs.Outcome.{
  RbsError, trailing_input, unterminated_type_params, too_many_type_args, Outcome, ok, err, Parser,
  pure, fail, exhausted, chain, ◌>>=◌, ◌>>◌,
}
use itaruby.Rbs.Scan.{
  peeks, peeks_second, advance, step, eat, spaces, is_lower, ident, read_ident, skip_param_name,
  eat_arrow, expect_arrow, expect, skip_ws,
}

-- `postfix_nilable`
unfoldable pub postfix_nilable : RbsTy → Parser RbsTy
unfolding eat
postfix_nilable base = do mark ← eat b'?'; if mark then pure (nilable base) else pure base

abbrev pub untyped : RbsTy
untyped = simple (codes "untyped")

-- `args.len() > 2`
abbrev pub more_than_two : RbsTys → Bool
more_than_two (arg _ (arg _ (arg _ _))) = true
more_than_two _ = false

-- `Ok(name)` with a single `:` after it.
abbrev pub names_keyword : Outcome Text → Bool
names_keyword (ok name left) = peeks b':' left && not (peeks_second b':' left)
names_keyword _ = false

-- `name.as_bytes()[0].is_ascii_lowercase() || name.as_bytes()[0] == b'_'`
abbrev pub lower_name : Outcome Text → Bool
lower_name (ok (c ∷ name) left) = is_lower c || c == b'_'
lower_name _ = false

-- The name and the `:` after it are read.
unfoldable pub keyword_name : Parser Text
unfolding ident step
keyword_name = do name ← ident; step; pure name

unfoldable mutual
  pub ty : ℕ → Parser RbsTy
  ty zero = exhausted
  ty (suc f) = do
    first ← intersection_ty f
    spaces
    λ s.
        (if peeks b'|' s
            then (union_parts f >>= λ parts. pure (union (arg first parts)))
            else pure first)
          s

  -- `while self.eat(b'|')`
  pub union_parts : ℕ → Parser RbsTys
  union_parts zero = exhausted
  union_parts (suc f) = do
    bar ← eat b'|'
    if bar
        then (do
          spaces
          part ← intersection_ty f
          spaces
          parts ← union_parts f
          pure (arg part parts))
        else pure end

  pub intersection_ty : ℕ → Parser RbsTy
  intersection_ty zero = exhausted
  intersection_ty (suc f) = do
    first ← primary f
    spaces
    λ s. (if peeks b'&' s then (intersection_parts f >> pure untyped) else pure first) s

  -- `while self.eat(b'&')`
  pub intersection_parts : ℕ → Parser (Unit {0})
  intersection_parts zero = exhausted
  intersection_parts (suc f) = do
    amp ← eat b'&'
    if amp then (do spaces; primary f; spaces; intersection_parts f) else pure tt

  pub primary : ℕ → Parser RbsTy
  primary zero = exhausted
  primary (suc f) = do
    spaces
    mark ← eat b'?'
    if mark then (primary f >>= λ t. pure (nilable t)) else (do
      caret ← eat b'^'
      if caret then proc_type f else (do
        open_paren ← eat b'('
        if open_paren then group f else (do
          open_brace ← eat b'{'
          if open_brace then shape_type f else (do
            open_bracket ← eat b'['
            if open_bracket
                then (bracketed_types f >>= λ args.
                    postfix_nilable (generic (codes "__tuple") args))
                else (ident >>= named f)))))

  -- Parenthesized grouping.
  pub group : ℕ → Parser RbsTy
  group zero = exhausted
  group (suc f) = do inner ← ty f; spaces; expect b')' (codes ")"); postfix_nilable inner

  -- After the name of `primary`.
  pub named : ℕ → Text → Parser RbsTy
  named zero name = exhausted
  named (suc f) name = λ s.
      (if name == codes "singleton" && peeks b'(' s
          then (λ r. singleton_type f (advance r))
          else (do
            open_bracket ← eat b'['
            if open_bracket
                then (do
                  args ← bracketed_types f
                  if more_than_two args
                      then (λ r. err too_many_type_args)
                      else postfix_nilable (generic name args))
                else postfix_nilable (simple name)))
        s

  pub proc_type : ℕ → Parser RbsTy
  proc_type zero = exhausted
  proc_type (suc f) = do
    spaces
    open_paren ← eat b'('
    if open_paren then (param_list f >> spaces) else pure tt
    expect_arrow (codes "-> in proc type")
    ty f
    postfix_nilable untyped

  pub singleton_type : ℕ → Parser RbsTy
  singleton_type zero = exhausted
  singleton_type (suc f) = do
    inner ← ty f
    spaces
    expect b')' (codes ")")
    postfix_nilable (generic (codes "singleton") (arg inner end))

  pub shape_type : ℕ → Parser RbsTy
  shape_type zero = exhausted
  shape_type (suc f) = do
    spaces
    close ← eat b'}'
    if close then postfix_nilable untyped else (shape_fields f >> postfix_nilable untyped)

  -- The loop of `shape_type`.
  pub shape_fields : ℕ → Parser (Unit {0})
  shape_fields zero = exhausted
  shape_fields (suc f) = do
    spaces
    ident
    spaces
    expect b':' (codes ": in shape type")
    ty f
    spaces
    comma ← eat b','
    if comma then shape_fields f else expect b'}' (codes ", or } in shape type")

  pub bracketed_types : ℕ → Parser RbsTys
  bracketed_types zero = exhausted
  bracketed_types (suc f) = do
    spaces
    first ← ty f
    spaces
    args ← more_types f
    expect b']' (codes "]")
    pure (arg first args)

  -- `while self.eat(b',')`
  pub more_types : ℕ → Parser RbsTys
  more_types zero = exhausted
  more_types (suc f) = do
    comma ← eat b','
    if comma
        then (do spaces; t ← ty f; spaces; args ← more_types f; pure (arg t args))
        else pure end

  pub param_list : ℕ → Parser (List RbsParam)
  param_list zero = exhausted
  param_list (suc f) = do spaces; close ← eat b')'; if close then pure [] else param_loop f

  -- The loop of `param_list`.
  pub param_loop : ℕ → Parser (List RbsParam)
  param_loop zero = exhausted
  param_loop (suc f) = do
    p ← param f
    spaces
    comma ← eat b','
    if comma
        then (do spaces; ps ← param_loop f; pure (p ++ ps))
        else (do expect b')' (codes ", or )"); pure p)

  -- A list of one parameter, or of none for `**Type`.
  pub param : ℕ → Parser (List RbsParam)
  param zero = exhausted
  param (suc f) = do
    spaces
    λ s.
        (if peeks b'*' s then rest_param f else (do
          mark ← eat b'?'
          if mark then optional_param f else required_or_keyword_param f))
          s

  pub rest_param : ℕ → Parser (List RbsParam)
  rest_param zero = exhausted
  rest_param (suc f) = λ s.
      (if peeks_second b'*' s
          then (do step; step; ty f; skip_param_name; pure [])
          else (do step; t ← ty f; skip_param_name; pure (optional t ∷ [])))
        s

  pub optional_param : ℕ → Parser (List RbsParam)
  optional_param zero = exhausted
  optional_param (suc f) = do
    spaces
    λ s.
        (if names_keyword (ident s)
            then (do name ← keyword_name; t ← ty f; pure (keyword name t false ∷ []))
            else (do t ← ty f; skip_param_name; pure (optional t ∷ [])))
          s

  pub required_or_keyword_param : ℕ → Parser (List RbsParam)
  required_or_keyword_param zero = exhausted
  required_or_keyword_param (suc f) = λ s.
      (if names_keyword (ident s) && lower_name (ident s)
          then (do name ← keyword_name; t ← ty f; pure (keyword name t true ∷ []))
          else (do t ← ty f; skip_param_name; pure (required t ∷ [])))
        s
