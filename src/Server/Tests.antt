-- ===== src/Server/Tests.antt =====
-- Runs of the path operations of the server, and the instances of their theorems.
use itaruby.Base.{inl, Text, List, [], ◌∷◌, reverse, codes, ◌≡◌, refl, every_nil, every_cons, arith}
use itaruby.Base.Utf8.{encode_str, from_utf8_lossy}
use itaruby.Server.{
  is_plain, percent_encode_path, percent_decode, Component, prefix, root_dir, cur_dir, parent_dir,
  normal, normalize_path,
}
use itaruby.Server.Percent.{percent_decode-encode, IsUriPath}
use itaruby.Server.Paths.{IsNormalized, Reduces, normalize_path-Reduces}

encodes_reserved :
    percent_encode_path (codes "/my project/notes#1.rb") ≡ codes "/my%20project/notes%231.rb"
unfolding percent_encode_path is_plain
encodes_reserved = refl

decodes_only_escapes : percent_decode (codes "100%/%4") ≡ codes "100%/%4"
unfolding percent_decode from_utf8_lossy
decodes_only_escapes = refl

decodes_the_last_escape : percent_decode (codes "a%20") ≡ codes "a "
unfolding percent_decode from_utf8_lossy
decodes_the_last_escape = refl

replaces_a_lone_byte : percent_decode (codes "a%FFb") ≡ 97 ∷ 239 ∷ 191 ∷ 189 ∷ 98 ∷ []
unfolding percent_decode from_utf8_lossy
replaces_a_lone_byte = refl

replaces_a_cut_character : percent_decode (codes "%E2%82a") ≡ 239 ∷ 191 ∷ 189 ∷ 97 ∷ []
unfolding percent_decode from_utf8_lossy
replaces_a_cut_character = refl

-- `# é`
abbrev sharp_e_acute : Text
sharp_e_acute = 35 ∷ 32 ∷ 233 ∷ []

encodes_characters : percent_encode_path (encode_str sharp_e_acute) ≡ codes "%23%20%C3%A9"
unfolding percent_encode_path is_plain encode_str
encodes_characters = refl

percent_decode-encode_example :
    (percent_decode (percent_encode_path (encode_str sharp_e_acute)) ≡ encode_str sharp_e_acute)
    × IsUriPath (percent_encode_path (encode_str sharp_e_acute))
percent_decode-encode_example = percent_decode-encode sharp_e_acute (
    every_cons (inl (omega arith))
      (every_cons (inl (omega arith)) (every_cons (inl (omega arith)) every_nil)))

-- `/../a/./b/..`
abbrev dotted : List Component
dotted = root_dir ∷ parent_dir ∷ normal (codes "a") ∷ cur_dir ∷ normal (codes "b") ∷ parent_dir ∷ []

stays_at_the_root : normalize_path dotted ≡ root_dir ∷ normal (codes "a") ∷ []
unfolding normalize_path
stays_at_the_root = refl

-- `C:` `a` `/` `b` `..`
keeps_the_drive :
    normalize_path
      (prefix (codes "C:") ∷ normal (codes "a") ∷ root_dir ∷ normal (codes "b") ∷ parent_dir ∷ [])
    ≡ prefix (codes "C:") ∷ root_dir ∷ []
unfolding normalize_path
keeps_the_drive = refl

normalize_path-Reduces_example :
    Reduces dotted (normalize_path dotted)
    × ((out : List Component) × (normalize_path dotted ≡ reverse out) × IsNormalized out)
normalize_path-Reduces_example = normalize_path-Reduces dotted
