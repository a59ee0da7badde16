-- ===== src/Lines/Slices.antt =====
-- Slices of a text at the lengths of its parts.
use itaruby.Base.{
  ℕ, zero, suc, ◌+◌, ◌-◌, ◌≤◌, true, [], ◌∷◌, ◌++◌, some, Text, leb, ◌≡◌, refl, ap, ◌∙◌, arith,
  ◌>>=◌,
}
use itaruby.Lines.{len_utf8, len_utf16, byte_len, drop_bytes, take_bytes, slice, utf16_units}

pub len_utf8_positive : (c : ℕ) → 1 ≤ len_utf8 c
len_utf8_positive c = ground arith

pub len_utf16_positive : (c : ℕ) → 1 ≤ len_utf16 c
len_utf16_positive c = ground arith

pub len_utf16_le : (c : ℕ) → len_utf16 c ≤ len_utf8 c
len_utf16_le c = ground arith

pub byte_len-append : (s t : Text) → byte_len (s ++ t) ≡ byte_len s + byte_len t
unfolding byte_len
byte_len-append [] t = omega arith
byte_len-append (c ∷ s) t = omega (arith, byte_len-append s t)

pub utf16_units_le : (s : Text) → utf16_units s ≤ byte_len s
unfolding utf16_units byte_len
utf16_units_le [] = omega arith
utf16_units_le (c ∷ s) = omega (arith, len_utf16_le c, utf16_units_le s)

pub leb_of_le : (a b : ℕ) → a ≤ b → leb a b ≡ true
leb_of_le a b h = ground (arith, h)

drop_bytes-next :
    (n k : ℕ) (c : ℕ) (s : Text) → n ≡ len_utf8 c + k → drop_bytes n (c ∷ s) ≡ drop_bytes k s
unfolding drop_bytes
drop_bytes-next zero k c s e = absurd (omega (arith, e, len_utf8_positive c))
drop_bytes-next (suc n) k c s e =
    let fits : leb (len_utf8 c) (suc n) ≡ true =
      leb_of_le (len_utf8 c) (suc n) (omega (arith, e)) in
    let rest : suc n - len_utf8 c ≡ k = omega (arith, e) in rw (fits, rest) refl

drop_none : (s : Text) → drop_bytes 0 s ≡ some s
unfolding drop_bytes
drop_none [] = refl
drop_none (c ∷ s) = refl

take_none : (s : Text) → take_bytes 0 s ≡ some []
unfolding take_bytes
take_none [] = refl
take_none (c ∷ s) = refl

pub drop_bytes-append : (s t : Text) → drop_bytes (byte_len s) (s ++ t) ≡ some t
unfolding byte_len
drop_bytes-append [] t = drop_none t
drop_bytes-append (c ∷ s) t =
    drop_bytes-next (len_utf8 c + byte_len s) (byte_len s) c (s ++ t) refl ∙ drop_bytes-append s t

take_bytes-next :
    (n k c : ℕ) (s : Text)
    → n ≡ len_utf8 c + k
    → take_bytes n (c ∷ s) ≡ (take_bytes k s >>= λ t. some (c ∷ t))
unfolding take_bytes
take_bytes-next zero k c s e = absurd (omega (arith, e, len_utf8_positive c))
take_bytes-next (suc n) k c s e =
    let fits : leb (len_utf8 c) (suc n) ≡ true =
      leb_of_le (len_utf8 c) (suc n) (omega (arith, e)) in
    let rest : suc n - len_utf8 c ≡ k = omega (arith, e) in rw (fits, rest) refl

pub take_bytes-append : (s t : Text) → take_bytes (byte_len s) (s ++ t) ≡ some s
unfolding byte_len
take_bytes-append [] t = take_none t
take_bytes-append (c ∷ s) t =
    take_bytes-next (len_utf8 c + byte_len s) (byte_len s) c (s ++ t) refl
    ∙ ap (λ o. o >>= λ r. some (c ∷ r)) (take_bytes-append s t)

-- The middle of three parts.
pub slice-append :
    (before middle after : Text) (start stop : ℕ)
    → start ≡ byte_len before
    → stop ≡ start + byte_len middle
    → slice (before ++ (middle ++ after)) start stop ≡ some middle
unfolding slice
slice-append before middle after start stop e f =
    let ordered : leb start stop ≡ true = leb_of_le start stop (omega (arith, f)) in
    let width : stop - start ≡ byte_len middle = omega (arith, f) in
    let dropped : drop_bytes start (before ++ (middle ++ after)) ≡ some (middle ++ after) =
      ap (λ n. drop_bytes n (before ++ (middle ++ after))) e
      ∙ drop_bytes-append before (middle ++ after) in
    rw (ordered, dropped, width) (take_bytes-append middle after)
