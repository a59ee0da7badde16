-- ===== src/Rbs/Comment.antt =====
-- crates/itaruby_semantic/src/rbs_comment.rs: `parse_rbs_comment` with the type parameters and the block
-- clause of a method, and `parse_cast_comment`.
pub mod Ends
pub mod Cast
use itaruby.Base.{
  ℕ, zero, suc, ◌+◌, ◌*◌, Bool, true, false, ◌&&◌, ◌||◌, List, [], ◌∷◌, Option, none, some, Text,
  codes, ◌==◌, if◌then◌else◌, nat_eq, text_eq, length, leb,
}
use itaruby.Rbs.{RbsParam, RbsSig}
use itaruby.Rbs.Outcome.{
  RbsError, trailing_input, unterminated_type_params, Outcome, ok, err, Parser, pure, fail,
  exhausted, chain, ◌>>=◌, ◌>>◌,
}
use itaruby.Rbs.Scan.{peeks, peeks_second, step, eat, spaces, ident, expect_arrow, expect}
use itaruby.Rbs.Parser.{ty, param_list}

-- `Some(_)` of the match in `parse_type_params`, and `None`
unfoldable pub any_byte : Parser (Unit {0})
any_byte [] = err unterminated_type_params
any_byte (c ∷ s) = ok tt s

abbrev pub is_ok {ℓ} : {A : Type ℓ} → Outcome A → Bool
is_ok (ok a left) = true
is_ok _ = false

-- The loop of `parse_type_params`, with the depth and whether a name may stand here.
unfoldable pub type_param_names : ℕ → ℕ → Bool → Parser (List Text)
type_param_names zero depth at_name = exhausted
type_param_names (suc f) zero at_name = pure []
type_param_names (suc f) (suc d) at_name = do
  if d == 0 && at_name then spaces else pure tt
  λ s.
      (if d == 0 && at_name && is_ok (ident s)
          then (do name ← ident; names ← type_param_names f (suc d) false; pure (name ∷ names))
          else (do
            opening ← eat b'['
            if opening then type_param_names f (suc (suc d)) false else (do
              closing ← eat b']'
              if closing then type_param_names f d false else (do
                comma ← eat b','
                if comma
                    then type_param_names f (suc d) (d == 0)
                    else (any_byte >> type_param_names f (suc d) false)))))
        s

unfoldable pub parse_type_params : ℕ → Parser (List Text)
parse_type_params f = do
  spaces
  opening ← eat b'['
  if opening then type_param_names f 1 true else pure []

-- `(?)`, after the opening parenthesis
unfoldable pub placeholder : Parser Bool
placeholder = do mark ← eat b'?'; if mark then (spaces >> eat b')') else pure false

abbrev pub accepts : Outcome Bool → Bool
accepts (ok true left) = true
accepts _ = false

unfoldable pub block_param_list : ℕ → Parser (Unit {0})
block_param_list f = do
  spaces
  λ s. (if accepts (placeholder s) then (placeholder >> pure tt) else (param_list f >> pure tt)) s

unfoldable pub skip_block_self_type : ℕ → Parser (Unit {0})
skip_block_self_type f = do
  opening ← eat b'['
  if opening
      then (do
        spaces
        name ← ident
        if name == codes "self"
            then (do spaces; expect b':' (codes ":"); ty f; spaces; expect b']' (codes "]"); spaces)
            else fail (codes "self: in block self-type"))
      else pure tt

-- `if self.eat(b'(') { … }`
unfoldable pub optional_block_params : ℕ → Parser (Unit {0})
optional_block_params f = do
  open_paren ← eat b'('
  if open_paren then (block_param_list f >> spaces) else pure tt

-- `skip_block_type` after the opening brace
unfoldable pub block_clause : ℕ → Parser (Unit {0})
block_clause f = do
  spaces
  optional_block_params f
  skip_block_self_type f
  expect_arrow (codes "-> in block type")
  ty f
  spaces
  expect b'}' (codes "}")

-- `skip_block_type` after `optional_marker`
unfoldable pub marked_block : ℕ → Bool → Parser (Unit {0})
marked_block f optional_marker = do
  open_brace ← eat b'{'
  if open_brace
      then block_clause f
      else (if optional_marker then fail (codes "{ after ?") else pure tt)

unfoldable pub skip_block_type : ℕ → Parser (Unit {0})
skip_block_type f = do
  spaces
  λ s.
      (if peeks b'?' s && peeks_second b'{' s
          then (step >> marked_block f true)
          else marked_block f false)
        s

-- `p.pos != p.s.len()`
unfoldable pub at_end : Parser (Unit {0})
at_end [] = ok tt []
at_end (c ∷ s) = err (trailing_input (c ∷ s))

-- `if p.eat(b'(') { p.param_list()? } else { Vec::new() }`
unfoldable pub optional_params : ℕ → Parser (List RbsParam)
optional_params f = do open_paren ← eat b'('; if open_paren then param_list f else pure []

unfoldable pub rbs_comment : ℕ → Parser RbsSig
rbs_comment f = do
  spaces
  type_params ← parse_type_params f
  spaces
  params ← optional_params f
  spaces
  skip_block_type f
  spaces
  expect_arrow (codes "->")
  ret ← ty f
  spaces
  at_end
  pure (record { params = params; ret = ret; type_params = type_params })

-- The fuel is enough for every input.
unfoldable pub parse_rbs_comment : Text → Outcome RbsSig
parse_rbs_comment input = rbs_comment (8 * length input + 16) input

pub data CastTarget : Type 0 where
  not_nil untyped : CastTarget
  named : Text → CastTarget

-- `char::is_whitespace`: the characters with Unicode's property White_Space. A text of
-- `parse_cast_comment` is the list of its characters.
unfoldable pub is_whitespace : ℕ → Bool
is_whitespace c =
    leb 9 c && leb c 13
    || c == 32
    || c == 0x85
    || c == 0xa0
    || c == 0x1680
    || leb 0x2000 c && leb c 0x200a
    || c == 0x2028
    || c == 0x2029
    || c == 0x202f
    || c == 0x205f
    || c == 0x3000

abbrev pub add_to_first : ℕ → List Text → List Text
add_to_first c [] = (c ∷ []) ∷ []
add_to_first c (word ∷ words) = (c ∷ word) ∷ words

abbrev pub nonempty_words : List Text → List Text
nonempty_words [] = []
nonempty_words ([] ∷ words) = nonempty_words words
nonempty_words ((c ∷ word) ∷ words) = (c ∷ word) ∷ nonempty_words words

-- `str::split` at the white space, and the words that are not empty
unfoldable pub split_at_whitespace : Text → List Text
unfolding is_whitespace
split_at_whitespace [] = [] ∷ []
split_at_whitespace (c ∷ s) =
    let rest = split_at_whitespace s in if is_whitespace c then [] ∷ rest else add_to_first c rest

unfoldable pub split_whitespace : Text → List Text
unfolding split_at_whitespace
split_whitespace s = nonempty_words (split_at_whitespace s)

unfoldable pub cast_target : Text → CastTarget
cast_target target =
    if target == codes "!nil"
    then not_nil
    else if target == codes "untyped"
    then untyped
    else named target

unfoldable pub cast_words : List Text → Option CastTarget
unfolding cast_target
cast_words (first ∷ target ∷ []) = if first == codes "as" then some (cast_target target) else none
cast_words _ = none

unfoldable pub parse_cast_comment : Text → Option CastTarget
unfolding split_whitespace
parse_cast_comment input = cast_words (split_whitespace input)
