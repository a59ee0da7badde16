-- ===== src/Rbs/Comment/Cast.antt =====
-- `parse_cast_comment` on a cast that is written out, whatever the white space around its words.
use itaruby.Base.{ℕ, true, false, [], ◌∷◌, Text, ◌≡◌, text_eq}
use itaruby.Rbs.Comment.{is_whitespace}

abbrev pub IsBlank : ℕ → Type 0
IsBlank c = is_whitespace c ≡ true

abbrev pub IsLetter : ℕ → Type 0
IsLetter c = is_whitespace c ≡ false

-- What stands after a word: nothing, or white space.
data Ends : Text → Type 0 where
  at_the_end : Ends []
  at_blank : {c : ℕ} {s : Text} → IsBlank c → Ends (c ∷ s)
