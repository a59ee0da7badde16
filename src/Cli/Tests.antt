-- ===== src/Cli/Tests.antt =====
-- Runs of the readers of the command line, and the instance of their theorem.
use itaruby.Base.{true, false, [], ◌∷◌, none, some, codes, ◌≡◌, ◌↔◌, refl}
use itaruby.Index.Names.{strip_prefix}
use itaruby.Cli.{rsplit_once, parse_digits, parse_u32, parse_location_arg, parse_check_flags}
use itaruby.Cli.Location.{Location, parse_location_arg_iff}

colon_in_path : parse_location_arg (codes "C:/foo.rb:3:1") ≡ some (codes "C:/foo.rb", (3, 1))
unfolding parse_location_arg rsplit_once parse_u32 parse_digits
colon_in_path = refl

line_zero : parse_location_arg (codes "foo.rb:0:1") ≡ none
unfolding parse_location_arg rsplit_once parse_u32 parse_digits
line_zero = refl

line_too_large : parse_location_arg (codes "foo.rb:4294967296:1") ≡ none
unfolding parse_location_arg rsplit_once parse_u32 parse_digits
line_too_large = refl

agent_flags :
    parse_check_flags (codes "lib" ∷ codes "-v" ∷ codes "--format=agent" ∷ [])
    ≡ some (record {
      verbose = true;
      stats = false;
      format_agent = true;
      format_json = false;
      dark = none;
    })
unfolding parse_check_flags strip_prefix
agent_flags = refl

unknown_format : parse_check_flags (codes "--format=xml" ∷ []) ≡ none
unfolding parse_check_flags strip_prefix
unknown_format = refl

parse_location_arg_iff_example :
    (parse_location_arg (codes "C:/foo.rb:3:1") ≡ some (codes "C:/foo.rb", (3, 1)))
    ↔ Location (codes "C:/foo.rb:3:1") (codes "C:/foo.rb") 3 1
parse_location_arg_iff_example =
    parse_location_arg_iff (codes "C:/foo.rb:3:1") (codes "C:/foo.rb") 3 1
