-- ===== src/Rbs/Outcome.antt =====
-- The outcome of a parser: a value with the input that is left, a message, or no more fuel, which has
-- no counterpart in the program. A message of the program prints an offset: here it carries the
-- input that is left there.
use itaruby.Base.{ℕ, ◌<◌, Bool, true, false, Text, ◌≡◌, ◌≢◌, refl, if◌then◌else◌, length}

pub data RbsError : Type 0 where
  -- what is expected, and the input left
  expected : Text → Text → RbsError
  trailing_input : Text → RbsError
  unterminated_type_params too_many_type_args : RbsError

pub data Outcome {ℓ} (A : Type ℓ) : Type ℓ where
  ok : A → Text → Outcome A
  err : RbsError → Outcome A
  out_of_fuel : Outcome A

abbrev pub Parser {ℓ} : Type ℓ → Type ℓ
Parser A = Text → Outcome A

abbrev pub pure {ℓ} : {A : Type ℓ} → A → Parser A
pure a s = ok a s

abbrev pub fail {ℓ} : {A : Type ℓ} → Text → Parser A
fail what s = err (expected what s)

abbrev pub exhausted {ℓ} : {A : Type ℓ} → Parser A
exhausted s = out_of_fuel

abbrev pub chain {ℓ κ} : {A : Type ℓ} {B : Type κ} → Outcome A → (A → Parser B) → Outcome B
chain out_of_fuel f = out_of_fuel
chain (err e) f = err e
chain (ok a left) f = f a left

infixl 1 ◌>>=◌ ◌>>◌
abbrev pub ◌>>=◌ {ℓ κ} : {A : Type ℓ} {B : Type κ} → Parser A → (A → Parser B) → Parser B
(p >>= f) s = chain (p s) f

abbrev pub ◌>>◌ {ℓ κ} : {A : Type ℓ} {B : Type κ} → Parser A → Parser B → Parser B
p >> q = p >>= λ _. q

-- The run ends, and if it succeeds it leaves fewer than `n` bytes.
pub data Leaves {ℓ} {A : Type ℓ} (n : ℕ) : Outcome A → Type ℓ where
  left : {a : A} {s : Text} → length s < n → Leaves n (ok a s)
  failed : {e : RbsError} → Leaves n (err e)

module _ {ℓ} {A : Type ℓ} where
  pub Leaves-ends : {n : ℕ} {o : Outcome A} → Leaves n o → o ≢ out_of_fuel
  Leaves-ends (left h) = cc
  Leaves-ends failed = cc

  pub Leaves-if :
      {n : ℕ} (b : Bool) (p q : Parser A) (s : Text)
      → (b ≡ true → Leaves n (p s))
      → (b ≡ false → Leaves n (q s))
      → Leaves n ((if b then p else q) s)
  Leaves-if true p q s hp hq = hp refl
  Leaves-if false p q s hp hq = hq refl

  pub Leaves-chain {κ} :
      {B : Type κ} {n k : ℕ} {o : Outcome A} {f : A → Parser B}
      → Leaves n o
      → ((a : A) (s : Text) → length s < n → Leaves k (f a s))
      → Leaves k (chain o f)
  Leaves-chain (left {a} {s} h) next = next a s h
  Leaves-chain failed next = failed
