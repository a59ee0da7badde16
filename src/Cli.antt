-- ===== src/Cli.antt =====
-- crates/itaruby/src/main.rs: the arguments of the command line, `parse_location_arg` and
-- `parse_check_flags`. A string is the list of its bytes.
pub mod Location
mod Tests
use itaruby.Base.{
  ℕ, zero, suc, ◌+◌, ◌-◌, ◌*◌, ◌<◌, ◌^◌, Bool, true, false, ◌&&◌, ◌||◌, List, [], ◌∷◌, ◌++◌, Option,
  none, some, Text, codes, ltb, leb, ◌==◌, nat_eq, text_eq, if◌then◌else◌, any, ◌>>=◌,
}
use itaruby.Index.Names.{strip_prefix}

-- `str::rsplit_once`
unfoldable pub rsplit_once : ℕ → Text → Option (Text × Text)
rsplit_once b [] = none
rsplit_once b (c ∷ s) = elim (rsplit_once b s) [
  | some (before, after) ↦ some (c ∷ before, after)
  | none ↦ if c == b then some ([], s) else none
]

-- The digits of `u32::from_str`, with the checks for an overflow.
unfoldable pub parse_digits : ℕ → Text → Option ℕ
parse_digits value [] = some value
parse_digits value (c ∷ s) =
    let next = 10 * value + (c - b'0') in
    let rest = parse_digits next s in
    if leb b'0' c && leb c b'9' && ltb next (2 ^ 32) then rest else none

abbrev pub some_digits : Text → Option ℕ
unfolding parse_digits
some_digits [] = none
some_digits (c ∷ s) = parse_digits 0 (c ∷ s)

-- `str::parse::<u32>`
unfoldable pub parse_u32 : Text → Option ℕ
parse_u32 [] = none
parse_u32 (c ∷ s) = if c == b'+' then some_digits s else some_digits (c ∷ s)

abbrev pub is_empty : Text → Bool
is_empty [] = true
is_empty (c ∷ s) = false

-- `if path.is_empty() || line == 0 || col == 0`
abbrev pub one_based : Text → ℕ → ℕ → Option (Text × (ℕ × ℕ))
one_based path line col =
    if is_empty path || (line == 0 || col == 0) then none else some (path, (line, col))

unfoldable pub parse_location_arg : Text → Option (Text × (ℕ × ℕ))
parse_location_arg arg = do
  (rest, col_str) ← rsplit_once b':' arg
  col ← parse_u32 col_str
  (path, line_str) ← rsplit_once b':' rest
  line ← parse_u32 line_str
  one_based path line col

pub record CheckFlags : Type 0 where
  pub verbose : Bool
  pub stats : Bool
  pub format_agent : Bool
  pub format_json : Bool
  pub dark : Option Text

-- `format_agent` and `format_json` after one argument.
abbrev pub read_format : Bool × Bool → Option Text → Option (Bool × Bool)
read_format (agent, json) none = some (agent, json)
read_format (agent, json) (some format) =
    if format == codes "agent"
    then some (true, json)
    else if format == codes "json"
    then some (agent, true)
    else none

abbrev pub read_dark : Option Text → Option Text → Option Text
read_dark dark none = dark
read_dark dark (some path) = some path

-- The loop of `parse_check_flags`.
unfoldable pub read_flags :
    Bool × Bool → Option Text → List Text → Option ((Bool × Bool) × Option Text)
read_flags formats dark [] = some (formats, dark)
read_flags formats dark (a ∷ args) =
    read_format formats (strip_prefix (codes "--format=") a) >>= λ next.
    read_flags next (read_dark dark (strip_prefix (codes "--dark-singletons=") a)) args

unfoldable pub parse_check_flags : List Text → Option CheckFlags
unfolding read_flags
parse_check_flags args = read_flags (false, false) none args >>= λ ((agent, json), dark).
    some (record {
      verbose = any (λ a. a == codes "--verbose" || a == codes "-v") args;
      stats = any (λ a. a == codes "--stats") args;
      format_agent = agent;
      format_json = json;
      dark = dark;
    })
