-- ===== src/Lines/Tests.antt =====
-- Runs of the line index, and the instance of its theorem.
use itaruby.Base.{ℕ, ◌<◌, ◌^◌, [], ◌∷◌, ◌++◌, some, Text, ◌≡◌, refl, arith}
use itaruby.Lines.{byte_len, line_starts, line_col, offset}
use itaruby.Lines.RoundTrip.{offset-line_col}

-- A line, and a second one that begins with a character of four bytes and two units.
abbrev first_part : Text
first_part = b'a' ∷ b'\n' ∷ 128512 ∷ b'b' ∷ []

abbrev second_part : Text
second_part = b'c' ∷ b'\n' ∷ []

two_lines : line_starts (first_part ++ second_part) ≡ 0 ∷ 2 ∷ 9 ∷ []
unfolding line_starts
two_lines = refl

counts_units : line_col (0 ∷ 2 ∷ 9 ∷ []) (first_part ++ second_part) 7 ≡ some (1, 3)
unfolding line_col
counts_units = refl

clamps_the_column : offset (0 ∷ 2 ∷ 9 ∷ []) (first_part ++ second_part) 0 9 ≡ some 2
unfolding offset
clamps_the_column = refl

short_text : byte_len (first_part ++ second_part) < 2 ^ 32
unfolding byte_len
short_text = omega arith

offset-line_col_example :
    (line col : ℕ) × (line_col
        (line_starts (first_part ++ second_part))
        (first_part ++ second_part)
        (byte_len first_part)
      ≡ some (line, col))
    × (offset (line_starts (first_part ++ second_part)) (first_part ++ second_part) line col
        ≡ some (byte_len first_part))
offset-line_col_example = offset-line_col first_part second_part short_text
