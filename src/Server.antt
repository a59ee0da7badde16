-- ===== src/Server.antt =====
-- crates/itaruby_server/src/main_loop.rs: the paths of `file://` URIs, `percent_encode_path` and
-- `percent_decode`, and `normalize_path`. A string is the list of its bytes; what `percent_decode` is
-- given is ASCII, as the path of a parsed URI is.
pub mod Percent
pub mod Paths
mod Tests
use itaruby.Base.{
  ℕ, zero, suc, ◌+◌, ◌-◌, ◌*◌, ◌/◌, ◌%◌, Bool, true, false, ◌&&◌, ◌||◌, List, [], ◌∷◌, ◌++◌, Option,
  none, some, Text, codes, leb, ltb, ◌==◌, nat_eq, if◌then◌else◌, contains, reverse, ◌>>=◌,
}
use itaruby.Base.Utf8.{from_utf8_lossy}

abbrev pub is_upper : ℕ → Bool
is_upper b = leb b'A' b && leb b b'Z'

abbrev pub is_lower_case : ℕ → Bool
is_lower_case b = leb b'a' b && leb b b'z'

abbrev pub is_digit : ℕ → Bool
is_digit b = leb b'0' b && leb b b'9'

-- The bytes that stay as they are.
unfoldable pub is_plain : ℕ → Bool
is_plain b = is_upper b || is_lower_case b || is_digit b || contains (codes "-_.~/:@!$&'()*+,;=") b

-- `{b:02X}`
abbrev pub hex_digit : ℕ → ℕ
hex_digit n = if ltb n 10 then b'0' + n else b'A' + (n - 10)

unfoldable pub percent_encode_path : Text → Text
percent_encode_path [] = []
percent_encode_path (b ∷ s) =
    let rest = percent_encode_path s in
    if is_plain b then b ∷ rest else b'%' ∷ hex_digit (b / 16) ∷ hex_digit (b % 16) ∷ rest

-- `char::to_digit(16)`
abbrev pub digit_value : ℕ → Option ℕ
digit_value c =
    if is_digit c
    then some (c - b'0')
    else if leb b'a' c && leb c b'f'
    then some (c - b'a' + 10)
    else if leb b'A' c && leb c b'F'
    then some (c - b'A' + 10)
    else none

-- `u8::from_str_radix` of two digits, or of one after a `+`
abbrev pub from_hex : ℕ → ℕ → Option ℕ
from_hex c d =
    if c == b'+'
    then digit_value d
    else (digit_value c >>= λ high. digit_value d >>= λ low. some (16 * high + low))

-- The loop of `percent_decode`: the bytes of `out`.
unfoldable pub decode_bytes : Text → Text
decode_bytes [] = []
decode_bytes (b ∷ []) = b ∷ []
decode_bytes (b ∷ c ∷ []) = b ∷ decode_bytes (c ∷ [])
decode_bytes (b ∷ c ∷ d ∷ s) = elim (b == b'%') [
  | false ↦ b ∷ decode_bytes (c ∷ d ∷ s)
  | true ↦ elim (from_hex c d) [
    | some byte ↦ byte ∷ decode_bytes s
    | none ↦ b ∷ decode_bytes (c ∷ d ∷ s)
  ]
]

unfoldable pub percent_decode : Text → Text
unfolding decode_bytes
percent_decode s = from_utf8_lossy (decode_bytes s)

-- `std::path::Component`; a prefix is the drive of a Windows path.
pub data Component : Type 0 where
  prefix : Text → Component
  root_dir cur_dir parent_dir : Component
  normal : Text → Component

-- `PathBuf::pop` on the components in reverse order: the root and the prefix stay.
abbrev pub pop : List Component → List Component
pop [] = []
pop (root_dir ∷ out) = root_dir ∷ out
pop (prefix p ∷ out) = prefix p ∷ out
pop (_ ∷ out) = out

abbrev pub prefix_of : List Component → List Component
prefix_of [] = []
prefix_of (prefix p ∷ out) = prefix p ∷ []
prefix_of (_ ∷ out) = prefix_of out

-- `PathBuf::push`: a prefix replaces what is there, and a root what is there but its prefix.
abbrev pub push_component : Component → List Component → List Component
push_component (prefix p) out = prefix p ∷ []
push_component root_dir out = root_dir ∷ prefix_of out
push_component c out = c ∷ out

-- The loop of `normalize_path`, with `out` in reverse order.
unfoldable pub normalize_from : List Component → List Component → List Component
normalize_from out [] = out
normalize_from out (parent_dir ∷ components) = normalize_from (pop out) components
normalize_from out (cur_dir ∷ components) = normalize_from out components
normalize_from out (other ∷ components) = normalize_from (push_component other out) components

unfoldable pub normalize_path : List Component → List Component
unfolding normalize_from
normalize_path components = reverse (normalize_from [] components)
