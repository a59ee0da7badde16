-- ===== src/Lines.antt =====
-- crates/itaruby_syntax/src/lib.rs: `LineIndex`, between byte offsets and positions of a line and a
-- column in UTF-16 units. A text is the list of its characters; a slice that does not begin and end
-- between characters, or an index out of range, is no result, where the program panics.
pub mod Slices
pub mod Starts
pub mod RoundTrip
mod Tests
use itaruby.Base.{
  ℕ, zero, suc, ◌+◌, ◌-◌, ◌%◌, ◌^◌, Bool, true, false, List, [], ◌∷◌, Option, none, some, Text, leb,
  ltb, ◌==◌, nat_eq, if◌then◌else◌, length, get_elem?, ◌>>=◌,
}

-- `as u32`
abbrev pub u32 : ℕ → ℕ
u32 n = n % 2 ^ 32

-- `char::len_utf8`
abbrev pub len_utf8 : ℕ → ℕ
len_utf8 c = if ltb c 128 then 1 else if ltb c 2048 then 2 else if ltb c 65536 then 3 else 4

-- `char::len_utf16`
abbrev pub len_utf16 : ℕ → ℕ
len_utf16 c = if ltb c 65536 then 1 else 2

-- `text.len()`
unfoldable pub byte_len : Text → ℕ
byte_len [] = 0
byte_len (c ∷ s) = len_utf8 c + byte_len s

-- The loop of `new` from byte `i` on: a `\n` is one byte, and no byte of another character is one.
unfoldable pub starts_from : ℕ → Text → List ℕ
starts_from i [] = []
starts_from i (c ∷ s) =
    let rest = starts_from (i + len_utf8 c) s in if c == b'\n' then u32 (u32 i + 1) ∷ rest else rest

unfoldable pub line_starts : Text → List ℕ
unfolding starts_from
line_starts text = 0 ∷ starts_from 0 text

-- `&text[n..]` and `&text[..n]`
unfoldable pub drop_bytes : ℕ → Text → Option Text
drop_bytes zero s = some s
drop_bytes (suc n) [] = none
drop_bytes (suc n) (c ∷ s) =
    if leb (len_utf8 c) (suc n) then drop_bytes (suc n - len_utf8 c) s else none

unfoldable pub take_bytes : ℕ → Text → Option Text
take_bytes zero s = some []
take_bytes (suc n) [] = none
take_bytes (suc n) (c ∷ s) =
    if leb (len_utf8 c) (suc n)
    then (take_bytes (suc n - len_utf8 c) s >>= λ t. some (c ∷ t))
    else none

unfoldable pub slice : Text → ℕ → ℕ → Option Text
unfolding drop_bytes take_bytes
slice text start stop =
    if leb start stop then (drop_bytes start text >>= λ s. take_bytes (stop - start) s) else none

-- `binary_search` on a list in strictly increasing order, then `Ok(l) => l, Err(l) => l - 1`.
unfoldable pub line_at : ℕ → ℕ → List ℕ → ℕ
line_at l x [] = l - 1
line_at l x (start ∷ starts) =
    let rest = line_at (suc l) x starts in
    if start == x then l else if ltb x start then l - 1 else rest

unfoldable pub utf16_units : Text → ℕ
utf16_units [] = 0
utf16_units (c ∷ s) = len_utf16 c + utf16_units s

abbrev pub min_of : ℕ → ℕ → ℕ
min_of a b = if leb a b then a else b

unfoldable pub line_col : List ℕ → Text → ℕ → Option (ℕ × ℕ)
unfolding line_at slice utf16_units byte_len
line_col starts text offset =
    let at = min_of offset (byte_len text) in
    let line = line_at 0 (u32 at) starts in
    get_elem? starts line >>= λ line_start.
    slice text line_start at >>= λ before. some (u32 line, u32 (utf16_units before))

-- `LineIndex::line_start`
unfoldable pub line_start : List ℕ → ℕ → Option ℕ
line_start starts line = get_elem? starts (min_of line (length starts - 1))

-- The loop of `offset`.
unfoldable pub column_byte : ℕ → ℕ → ℕ → ℕ → Text → ℕ
column_byte stop col units at [] = stop
column_byte stop col units at (c ∷ s) =
    let rest = column_byte stop col (u32 (units + len_utf16 c)) (at + len_utf8 c) s in
    if leb col units then at else rest

abbrev pub map_or : ℕ → Option ℕ → ℕ
map_or default none = default
map_or default (some n) = n

unfoldable pub offset : List ℕ → Text → ℕ → ℕ → Option ℕ
unfolding line_start column_byte slice byte_len
offset starts text line col = line_start starts line >>= λ start.
    let stop = map_or (byte_len text) (get_elem? starts (suc line)) in
    slice text start stop >>= λ chars. some (column_byte stop col 0 start chars)
