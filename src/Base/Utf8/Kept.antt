-- ===== src/Base/Utf8/Kept.antt =====
-- `String::from_utf8_lossy` does not change the bytes of a string.
use Prim.Native.Nat.{ℕ, ◌+◌, ◌/◌, ◌%◌, ◌≤◌, ◌<◌}
use mathlib.Core.Path.{◌≡◌, refl, ◌∙◌, ap}
use mathlib.Core.Logic.{inl, inr}
use mathlib.Core.Bool.{true, false}
use mathlib.Core.List.{[], ◌∷◌, ◌++◌}
use mathlib.Core.Option.{some}
use native.Mathlib.Omega.{arith}
use itaruby.Base.Tests.{Text, ltb, nat_eq, Bool-cases}
use itaruby.Base.Lists.{Every, every_nil, every_cons}
use itaruby.Base.Utf8.{
  encode_char, encode_str, IsScalar, within, continuation, second, lead, first_byte,
  from_utf8_lossy,
}

lead_one : (b : ℕ) → b < 0x80 → lead b ≡ some []
unfolding lead
lead_one b h = ground (arith, h)

lead_two : (b : ℕ) → 0xc2 ≤ b → b ≤ 0xdf → lead b ≡ some (continuation ∷ [])
unfolding lead
lead_two b l h = ground (arith, l, h)

lead_three : (b : ℕ) → 0xe0 ≤ b → b ≤ 0xef → lead b ≡ some (second b ∷ continuation ∷ [])
unfolding lead
lead_three b l h =
    let small : ltb b 0x80 ≡ false = ground (arith, l) in
    let two : within (0xc2, 0xdf) b ≡ false = ground (arith, l) in
    let three : within (0xe0, 0xef) b ≡ true = ground (arith, l, h) in
    rw (lead, small, two, three) refl

lead_four :
    (b : ℕ) → 0xf0 ≤ b → b ≤ 0xf4 → lead b ≡ some (second b ∷ continuation ∷ continuation ∷ [])
unfolding lead
lead_four b l h =
    let small : ltb b 0x80 ≡ false = ground (arith, l) in
    let two : within (0xc2, 0xdf) b ≡ false = ground (arith, l) in
    let three : within (0xe0, 0xef) b ≡ false = ground (arith, l) in
    let four : within (0xf0, 0xf4) b ≡ true = ground (arith, l, h) in
    rw (lead, small, two, three, four) refl

continues : (n : ℕ) → n < 64 → within continuation (0x80 + n) ≡ true
continues n h = ground (arith, h)

read_one : (b : ℕ) (s : Text) → lead b ≡ some [] → from_utf8_lossy (b ∷ s) ≡ b ∷ from_utf8_lossy s
unfolding from_utf8_lossy
read_one b s l = rw (first_byte, l) refl

read_two :
    (b c : ℕ) (r : ℕ × ℕ) (s : Text)
    → lead b ≡ some (r ∷ [])
    → within r c ≡ true
    → from_utf8_lossy (b ∷ c ∷ s) ≡ b ∷ c ∷ from_utf8_lossy s
unfolding from_utf8_lossy
read_two b c r s l h = rw (first_byte, l) (rw h refl)

read_three :
    (b c d : ℕ) (r q : ℕ × ℕ) (s : Text)
    → lead b ≡ some (r ∷ q ∷ [])
    → within r c ≡ true
    → within q d ≡ true
    → from_utf8_lossy (b ∷ c ∷ d ∷ s) ≡ b ∷ c ∷ d ∷ from_utf8_lossy s
unfolding from_utf8_lossy
read_three b c d r q s l h k = rw (first_byte, l) (rw h (rw k refl))

read_four :
    (b c d e : ℕ) (r q p : ℕ × ℕ) (s : Text)
    → lead b ≡ some (r ∷ q ∷ p ∷ [])
    → within r c ≡ true
    → within q d ≡ true
    → within p e ≡ true
    → from_utf8_lossy (b ∷ c ∷ d ∷ e ∷ s) ≡ b ∷ c ∷ d ∷ e ∷ from_utf8_lossy s
unfolding from_utf8_lossy
read_four b c d e r q p s l h k j = rw (first_byte, l) (rw h (rw k (rw j refl)))

-- The second byte of three and of four, from the high and the next six bits of the character.
second_of_three :
    (q m : ℕ)
    → m < 64
    → q < 16
    → (q < 1 → 32 ≤ m)
    → (13 ≤ q → q ≤ 13 → m < 32)
    → within (second (0xe0 + q)) (0x80 + m) ≡ true
second_of_three q m hm hq low surrogate = ground arith

second_of_four :
    (q m : ℕ)
    → m < 64
    → q < 5
    → (q < 1 → 16 ≤ m)
    → (4 ≤ q → m < 16)
    → within (second (0xf0 + q)) (0x80 + m) ≡ true
second_of_four q m hm hq low high = ground arith

-- A lossless character.
abbrev IsKept : Text → Type 0
IsKept bytes = (s : Text) → from_utf8_lossy (bytes ++ s) ≡ bytes ++ from_utf8_lossy s

keeps_two : (c : ℕ) → 0x80 ≤ c → c < 0x800 → IsKept ((0xc0 + c / 64) ∷ (0x80 + c % 64) ∷ [])
keeps_two c l h s =
    read_two (0xc0 + c / 64) (0x80 + c % 64) continuation s
      (lead_two (0xc0 + c / 64) (omega (arith, l)) (omega (arith, h)))
      (continues (c % 64) (omega arith))

keeps_three :
    (c : ℕ)
    → 0x800 ≤ c
    → c < 0x10000
    → IsScalar c
    → IsKept ((0xe0 + c / 4096) ∷ (0x80 + c / 64 % 64) ∷ (0x80 + c % 64) ∷ [])
keeps_three c l h scalar s =
    read_three (0xe0 + c / 4096) (0x80 + c / 64 % 64) (0x80 + c % 64) (second (0xe0 + c / 4096))
      continuation s (lead_three (0xe0 + c / 4096) (omega arith) (omega (arith, h)))
      (second_of_three (c / 4096) (c / 64 % 64) (omega arith) (omega (arith, h))
        (λ z. omega (arith, l, z))
        (λ z w. elim scalar [
          | inl below ↦ omega (arith, below, z, w)
          | inr (above, top) ↦ omega (arith, above, z, w)
        ]))
      (continues (c % 64) (omega arith))

keeps_four :
    (c : ℕ)
    → 0x10000 ≤ c
    → c < 0x110000
    → IsKept
        ((0xf0 + c / 262144) ∷ (0x80 + c / 4096 % 64) ∷ (0x80 + c / 64 % 64) ∷ (0x80 + c % 64) ∷ [])
keeps_four c l h s =
    read_four (0xf0 + c / 262144) (0x80 + c / 4096 % 64) (0x80 + c / 64 % 64) (0x80 + c % 64)
      (second (0xf0 + c / 262144)) continuation continuation s
      (lead_four (0xf0 + c / 262144) (omega arith) (omega (arith, h)))
      (second_of_four (c / 262144) (c / 4096 % 64) (omega arith) (omega (arith, h))
        (λ z. omega (arith, l, z)) (λ z. omega (arith, h, z)))
      (continues (c / 64 % 64) (omega arith)) (continues (c % 64) (omega arith))

below_top : (n : ℕ) → IsScalar n → n < 0x110000
below_top n (inl h) = omega (arith, h)
below_top n (inr h) = h.1

keeps_char : (c : ℕ) → IsScalar c → IsKept (encode_char c)
keeps_char c scalar = elim (Bool-cases (ltb c 0x80)) [
  | inl a ↦ rw (encode_char, a) (λ s. read_one c s (lead_one c (ground (arith, a))))
  | inr a ↦ elim (Bool-cases (ltb c 0x800)) [
    | inl b ↦ rw (encode_char, a, b) (keeps_two c (ground (arith, a)) (ground (arith, b)))
    | inr b ↦ elim (Bool-cases (ltb c 0x10000)) [
      | inl d ↦
          rw (encode_char, a, b, d) (keeps_three c (ground (arith, b)) (ground (arith, d)) scalar)
      | inr d ↦ rw (encode_char, a, b, d) (keeps_four c (ground (arith, d)) (below_top c scalar))
    ]
  ]
]

keeps_nothing : from_utf8_lossy [] ≡ []
unfolding from_utf8_lossy
keeps_nothing = refl

-- The bytes of a string are not changed.
pub from_utf8_lossy-encode_str :
    (chars : Text) → Every IsScalar chars → from_utf8_lossy (encode_str chars) ≡ encode_str chars
unfolding encode_str
from_utf8_lossy-encode_str _ every_nil = keeps_nothing
from_utf8_lossy-encode_str _ (every_cons {a = c} {rest = chars} h hs) =
    keeps_char c h (encode_str chars)
    ∙ ap (λ l. encode_char c ++ l) (from_utf8_lossy-encode_str chars hs)

low_byte : (n : ℕ) → 0x80 + n % 64 < 256
low_byte n = omega arith

encode_char-Every : (c : ℕ) → IsScalar c → Every (λ b. b < 256) (encode_char c)
encode_char-Every c scalar = elim (Bool-cases (ltb c 0x80)) [
  | inl a ↦
      let h : c < 0x80 = ground (arith, a) in
      rw (encode_char, a) (every_cons (omega (arith, h)) every_nil)
  | inr a ↦ elim (Bool-cases (ltb c 0x800)) [
    | inl b ↦
        let h : c < 0x800 = ground (arith, b) in
        rw (encode_char, a, b) (every_cons (omega (arith, h)) (every_cons (low_byte c) every_nil))
    | inr b ↦ elim (Bool-cases (ltb c 0x10000)) [
      | inl d ↦
          let h : c < 0x10000 = ground (arith, d) in
          rw (encode_char, a, b, d)
            (every_cons (omega (arith, h))
              (every_cons (low_byte (c / 64)) (every_cons (low_byte c) every_nil)))
      | inr d ↦
          let h : c < 0x110000 = below_top c scalar in
          rw (encode_char, a, b, d)
            (every_cons (omega (arith, h)) (
              every_cons (low_byte (c / 4096))
                (every_cons (low_byte (c / 64)) (every_cons (low_byte c) every_nil))))
    ]
  ]
]

Every-append : {P : ℕ → Type 0} (xs ys : Text) → Every P xs → Every P ys → Every P (xs ++ ys)
Every-append _ ys every_nil k = k
Every-append _ ys (every_cons {rest = xs} h hs) k = every_cons h (Every-append xs ys hs k)

pub encode_str-Every :
    (chars : Text) → Every IsScalar chars → Every (λ b. b < 256) (encode_str chars)
unfolding encode_str
encode_str-Every _ every_nil = every_nil
encode_str-Every _ (every_cons {a = c} {rest = chars} h hs) =
    Every-append (encode_char c) (encode_str chars) (encode_char-Every c h)
      (encode_str-Every chars hs)
