-- ===== src/Server/Percent.antt =====
-- What `percent_encode_path` writes, `percent_decode` reads, and it is the path of a URI.
use itaruby.Base.{
  ℕ, ◌/◌, ◌%◌, ◌<◌, ◌≤◌, true, false, [], ◌∷◌, some, Text, ltb, ◌==◌, ◌≡◌, refl, ap, ◌∙◌, nat_eq,
  Every, every_nil, every_cons, Bool-cases, codes, contains_iff, Memᴰ, ◌⊎◌, inl, inr, arith,
}
use itaruby.Base.Utf8.{IsScalar, encode_str, from_utf8_lossy}
use itaruby.Base.Utf8.Kept.{from_utf8_lossy-encode_str, encode_str-Every}
use itaruby.Server.{
  percent_decode, is_digit, is_upper, is_lower_case, is_plain, hex_digit, percent_encode_path,
  digit_value, from_hex, decode_bytes,
}

digit_value-hex_digit : (n : ℕ) → n < 16 → digit_value (hex_digit n) ≡ some n
digit_value-hex_digit n h = ground arith

hex_digit-sign : (n : ℕ) → n < 16 → (hex_digit n == b'+') ≡ false
hex_digit-sign n h = ground arith

from_hex-hex_digit : (b : ℕ) → b < 256 → from_hex (hex_digit (b / 16)) (hex_digit (b % 16)) ≡ some b
from_hex-hex_digit b h =
    let high : b / 16 < 16 = omega (arith, h) in
    let low : b % 16 < 16 = omega arith in
    rw
      (
        hex_digit-sign (b / 16) high,
        digit_value-hex_digit (b / 16) high,
        digit_value-hex_digit (b % 16) low,
      )
      (ap some (omega arith))

percent_plain : (b : ℕ) → is_plain b ≡ true → (b == b'%') ≡ false
unfolding is_plain
percent_plain b h = ground (arith, h)

decode_nil : decode_bytes [] ≡ []
unfolding decode_bytes
decode_nil = refl

decode_plain : (b : ℕ) (s : Text) → (b == b'%') ≡ false → decode_bytes (b ∷ s) ≡ b ∷ decode_bytes s
unfolding decode_bytes
decode_plain b [] h = refl
decode_plain b (c ∷ []) h = refl
decode_plain b (c ∷ d ∷ s) h = rw (decode_bytes, h) refl

decode_escape :
    (b : ℕ) (s : Text)
    → b < 256
    → decode_bytes (b'%' ∷ hex_digit (b / 16) ∷ hex_digit (b % 16) ∷ s) ≡ b ∷ decode_bytes s
unfolding decode_bytes
decode_escape b s h = rw (decode_bytes, from_hex-hex_digit b h) refl

decode-encode : (s : Text) → Every (λ b. b < 256) s → decode_bytes (percent_encode_path s) ≡ s
unfolding percent_encode_path
decode-encode _ every_nil = decode_nil
decode-encode _ (every_cons {a = b} {rest = s} h hs) = elim (Bool-cases (is_plain b)) [
  | inl p ↦ rw p (
      decode_plain b (percent_encode_path s) (percent_plain b p)
      ∙ ap (λ r. b ∷ r) (decode-encode s hs))
  | inr p ↦ rw p (decode_escape b (percent_encode_path s) h ∙ ap (λ r. b ∷ r) (decode-encode s hs))
]

-- RFC 3986: `unreserved`, `sub-delims`, `:`, `@` and the `/` between segments.
abbrev pub marks : Text
marks = codes "-._~!$&'()*+,;=:@/"

pub data IsPathChar (b : ℕ) : Type 0 where
  upper : 65 ≤ b → b ≤ 90 → IsPathChar b
  lower : 97 ≤ b → b ≤ 122 → IsPathChar b
  digit : 48 ≤ b → b ≤ 57 → IsPathChar b
  mark : Memᴰ b marks → IsPathChar b

-- `HEXDIG`, in upper case as the RFC wants it.
abbrev pub IsHex : ℕ → Type 0
IsHex b = ((48 ≤ b) × (b ≤ 57)) ⊎ ((65 ≤ b) × (b ≤ 70))

pub data IsUriPath : Text → Type 0 where
  path_end : IsUriPath []
  plain : {b : ℕ} {s : Text} → IsPathChar b → IsUriPath s → IsUriPath (b ∷ s)
  escaped :
      {high low : ℕ} {s : Text}
      → IsHex high
      → IsHex low
      → IsUriPath s
      → IsUriPath (37 ∷ high ∷ low ∷ s)

hex_digit-IsHex : (n : ℕ) → n < 16 → IsHex (hex_digit n)
hex_digit-IsHex n h = elim (Bool-cases (ltb n 10)) [
  | inl d ↦ rw (hex_digit, d) (inl (omega arith, ground (arith, d)))
  | inr d ↦ rw (hex_digit, d) (inr (omega arith, omega (arith, h)))
]

abbrev source_marks : Text
source_marks = codes "-_.~/:@!$&'()*+,;="

same_marks : (b : ℕ) → Memᴰ b source_marks → Memᴰ b marks
same_marks b m = (contains_iff marks b).0 (ground (arith, (contains_iff source_marks b).1 m))

is_plain-IsPathChar : (b : ℕ) → is_plain b ≡ true → IsPathChar b
unfolding is_plain
is_plain-IsPathChar b h = elim (Bool-cases (is_upper b)) [
  | inl u ↦ upper (ground (arith, u)) (ground (arith, u))
  | inr u ↦ elim (Bool-cases (is_lower_case b)) [
    | inl l ↦ lower (ground (arith, l)) (ground (arith, l))
    | inr l ↦ elim (Bool-cases (is_digit b)) [
      | inl d ↦ digit (ground (arith, d)) (ground (arith, d))
      | inr d ↦ mark (same_marks b ((contains_iff source_marks b).0 (rw (u, l, d) at h)))
    ]
  ]
]

encode-IsUriPath : (s : Text) → Every (λ b. b < 256) s → IsUriPath (percent_encode_path s)
unfolding percent_encode_path
encode-IsUriPath _ every_nil = path_end
encode-IsUriPath _ (every_cons {a = b} {rest = s} h hs) = elim (Bool-cases (is_plain b)) [
  | inl p ↦ rw p (plain (is_plain-IsPathChar b p) (encode-IsUriPath s hs))
  | inr p ↦ rw p (
      escaped (hex_digit-IsHex (b / 16) (omega (arith, h))) (hex_digit-IsHex (b % 16) (omega arith))
        (encode-IsUriPath s hs))
]

-- For the UTF-8 bytes of every string of Unicode scalar values, percent_decode undoes
-- percent_encode_path, and what percent_encode_path writes is the path of a URI by RFC 3986:
-- characters that may stand in it, and escapes of two hexadecimal digits in upper case.
pub percent_decode-encode :
    (chars : Text)
    → Every IsScalar chars
    → (percent_decode (percent_encode_path (encode_str chars)) ≡ encode_str chars)
      × IsUriPath (percent_encode_path (encode_str chars))
unfolding percent_decode
percent_decode-encode chars h =
    let bytes = encode_str-Every chars h in
    (
      ap from_utf8_lossy (decode-encode (encode_str chars) bytes)
          ∙ from_utf8_lossy-encode_str chars h,
      encode-IsUriPath (encode_str chars) bytes,
    )
