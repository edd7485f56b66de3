-- ===== src/Text/Number.antt =====
-- Numbers in text: `strconv.Atoi`, and the verbs `%02d`, `%04X` and `%d` of `fmt.Sprintf`.
pub mod Hex
pub mod Decimal
use mathlib.Core.WellFounded.{Acc, WellFounded}
use mathlib.Core.Logic.{dite}
use native.Mathlib.Decide.{dec_lt}
use pixkb.Base.{
  Bytes, ℕ, zero, suc, ◌+◌, ◌-◌, ◌*◌, ◌/◌, ◌%◌, ◌^◌, ◌<◌, Bool, true, false, ◌&&◌, ◌||◌, [], ◌∷◌,
  Option, none, some, ltb, leb, ◌==◌, if◌then◌else◌, arith,
}
use pixkb.Text.Ascii.{is_digit}

-- `negsuc n` is -(n + 1).
pub data ℤ : Type 0 where
  pos : ℕ → ℤ
  negsuc : ℕ → ℤ

-- every byte is a digit; the empty text passes
unfoldable pub digits_only : Bytes → Bool
unfolding is_digit
digits_only [] = true
digits_only (c ∷ s) = is_digit c && digits_only s

-- `acc` followed by the digits of `s`, in base ten
unfoldable pub decimal : ℕ → Bytes → ℕ
decimal acc [] = acc
decimal acc (c ∷ s) = decimal (10 * acc + (c - b'0')) s

-- the digits behind an optional sign
unfoldable pub unsigned : Bytes → Option ℕ
unfolding digits_only decimal
unsigned [] = none
unsigned (c ∷ s) = if digits_only (c ∷ s) then some (decimal 0 (c ∷ s)) else none

unfoldable pub in_positive_range : Option ℕ → Option ℤ
in_positive_range none = none
in_positive_range (some n) = if ltb n (2 ^ 63) then some (pos n) else none

unfoldable pub in_negative_range : Option ℕ → Option ℤ
in_negative_range none = none
in_negative_range (some zero) = some (pos 0)
in_negative_range (some (suc n)) = if ltb n (2 ^ 63) then some (negsuc n) else none

-- `strconv.Atoi` where an `int` has 64 bits
unfoldable pub atoi : Bytes → Option ℤ
unfolding unsigned in_positive_range in_negative_range
atoi [] = none
atoi (c ∷ s) =
    if c == b'-'
    then in_negative_range (unsigned s)
    else if c == b'+'
    then in_positive_range (unsigned s)
    else in_positive_range (unsigned (c ∷ s))

-- `%02d` of a number below 100
unfoldable pub two_digits : ℕ → Bytes
two_digits n = (b'0' + n / 10) ∷ (b'0' + n % 10) ∷ []

unfoldable pub hex_digit : ℕ → ℕ
hex_digit d = if ltb d 10 then b'0' + d else b'A' + (d - 10)

-- `%04X` of a uint16
unfoldable pub hex04 : ℕ → Bytes
hex04 n =
    hex_digit (n / 4096 % 16)
    ∷ hex_digit (n / 256 % 16)
    ∷ hex_digit (n / 16 % 16)
    ∷ hex_digit (n % 16)
    ∷ []

acc_below : (k n : ℕ) → n < k → Acc ◌<◌ n
acc_below zero n h = absurd (omega arith)
acc_below (suc k) n h = Acc.intro n λ m lt. acc_below k m (omega arith)

lt_wf : WellFounded ◌<◌
unfolding acc_below
lt_wf = record { apply = λ n. acc_below (suc n) n (omega arith) }

pub tenth_lt : {n : ℕ} → 0 < n → n / 10 < n
tenth_lt h = omega arith

-- the digits of `n`, in front of `out`; none for 0
pub digits_onto : (n : ℕ) → Acc ◌<◌ n → Bytes → Bytes
digits_onto n (Acc.intro _ smaller) out =
    dite (dec_lt 0 n)
      (λ h. digits_onto (n / 10) (smaller (n / 10) (tenth_lt h)) ((b'0' + n % 10) ∷ out)) (λ _. out)

-- `%d` of a number that is not negative
unfoldable pub itoa : ℕ → Bytes
unfolding digits_onto lt_wf dec_lt
itoa n = if n == 0 then b'0' ∷ [] else digits_onto n (lt_wf.apply n) []
