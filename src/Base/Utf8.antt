-- ===== src/Base/Utf8.antt =====
-- UTF-8: the encoding of a string, and `String::from_utf8_lossy`.
pub mod Kept
use Prim.Native.Nat.{ℕ, ◌+◌, ◌/◌, ◌%◌, ◌≤◌, ◌<◌}
use mathlib.Core.Path.{◌≡◌, refl, ◌∙◌, ap}
use mathlib.Core.Logic.{◌⊎◌, inl, inr}
use mathlib.Core.Bool.{Bool, true, false, ◌&&◌}
use mathlib.Core.List.{List, [], ◌∷◌, ◌++◌}
use mathlib.Core.Option.{Option, none, some}
use native.Mathlib.Omega.{arith}
use itaruby.Base.Tests.{Text, ltb, leb, ◌==◌, nat_eq, if◌then◌else◌, Bool-cases}
use itaruby.Base.Lists.{Every, every_nil, every_cons}

-- `char::encode_utf8`
abbrev pub encode_char : ℕ → Text
encode_char c =
    if ltb c 0x80
    then c ∷ []
    else if ltb c 0x800
    then (0xc0 + c / 64) ∷ (0x80 + c % 64) ∷ []
    else if ltb c 0x10000
    then (0xe0 + c / 4096) ∷ (0x80 + c / 64 % 64) ∷ (0x80 + c % 64) ∷ []
    else (0xf0 + c / 262144) ∷ (0x80 + c / 4096 % 64) ∷ (0x80 + c / 64 % 64) ∷ (0x80 + c % 64) ∷ []

-- The bytes of a `str`, from its characters.
unfoldable pub encode_str : Text → Text
encode_str [] = []
encode_str (c ∷ chars) = encode_char c ++ encode_str chars

-- A `char` is a Unicode scalar value.
abbrev pub IsScalar : ℕ → Type 0
IsScalar c = (c < 0xd800) ⊎ ((0xe000 ≤ c) × (c < 0x110000))

abbrev pub within : ℕ × ℕ → ℕ → Bool
within range b = leb range.0 b && leb b range.1

abbrev pub continuation : ℕ × ℕ
continuation = (0x80, 0xbf)

-- Which second bytes there are, without overlong encodings, surrogates and what is above 0x10ffff.
abbrev pub second : ℕ → ℕ × ℕ
second b =
    if b == 0xe0
    then (0xa0, 0xbf)
    else if b == 0xed
    then (0x80, 0x9f)
    else if b == 0xf0
    then (0x90, 0xbf)
    else if b == 0xf4
    then (0x80, 0x8f)
    else continuation

-- The bytes that follow a first byte.
unfoldable pub lead : ℕ → Option (List (ℕ × ℕ))
lead b =
    if ltb b 0x80
    then some []
    else if within (0xc2, 0xdf) b
    then some (continuation ∷ [])
    else if within (0xe0, 0xef) b
    then some (second b ∷ continuation ∷ [])
    else if within (0xf0, 0xf4) b
    then some (second b ∷ continuation ∷ continuation ∷ [])
    else none

-- U+FFFD
abbrev pub replacement : Text
replacement = 0xef ∷ 0xbf ∷ 0xbd ∷ []

-- The bytes of a character that have been read, and those that are to come.
abbrev pub Pending : Type 0
Pending = Text × List (ℕ × ℕ)

abbrev pub advance : Text → List (ℕ × ℕ) → Text × Pending
advance bytes [] = (bytes, ([], []))
advance bytes (r ∷ ranges) = ([], (bytes, r ∷ ranges))

abbrev pub first_byte : ℕ → Text × Pending
first_byte b = elim (lead b) [
  | none ↦ (replacement, ([], []))
  | some ranges ↦ advance (b ∷ []) ranges
]

-- One byte: what is written, and what is pending. A byte that does not go on begins anew.
pub read_byte : Pending → ℕ → Text × Pending
unfolding lead
read_byte (seen, []) b = first_byte b
read_byte (seen, r ∷ ranges) b =
    if within r b
    then advance (seen ++ (b ∷ [])) ranges
    else (replacement ++ (first_byte b).0, (first_byte b).1)

abbrev pub at_end_of : Pending → Text
at_end_of ([], ranges) = []
at_end_of (b ∷ seen, ranges) = replacement

unfoldable pub lossy_from : Pending → Text → Text
unfolding read_byte
lossy_from pending [] = at_end_of pending
lossy_from pending (b ∷ s) = let r = read_byte pending b in r.0 ++ lossy_from r.1 s

unfoldable pub from_utf8_lossy : Text → Text
unfolding lossy_from
from_utf8_lossy bytes = lossy_from ([], []) bytes
