-- ===== src/Text/Number/Decimal.antt =====
-- `%d` of an int, and what can be read back of it.
use mathlib.Core.WellFounded.{Acc}
use mathlib.Core.Logic.{dite}
use native.Mathlib.Decide.{dec_lt}
use pixkb.Base.{
  Bytes, ℕ, ◌+◌, ◌/◌, ◌%◌, ◌<◌, ◌≡◌, refl, sym, ap, ◌∙◌, false, [], ◌∷◌, ◌==◌, drop, arith,
  Bool-cases, inl, inr,
}
use pixkb.Text.Ascii.{is_digit}
use pixkb.Text.Search.Fence.{has_byte}
use pixkb.Text.Number.{ℤ, pos, negsuc, decimal, digits_onto, itoa, lt_wf, tenth_lt}

-- `%d` of an int
unfoldable pub format_int : ℤ → Bytes
unfolding itoa
format_int (pos n) = itoa n
format_int (negsuc n) = b'-' ∷ itoa (n + 1)

decimal-digits_onto :
    (n : ℕ) (a : Acc ◌<◌ n) (out : Bytes) → decimal 0 (digits_onto n a out) ≡ decimal n out
unfolding digits_onto decimal
decimal-digits_onto n (Acc.intro _ smaller) out =
    elim (dec_lt 0 n)
      as (λ d.
        decimal 0 (
          dite d (λ h. digits_onto (n / 10) (smaller (n / 10) (tenth_lt h)) ((b'0' + n % 10) ∷ out))
            (λ _. out))
        ≡ decimal n out) [
          | yes h ↦
              decimal-digits_onto (n / 10) (smaller (n / 10) (tenth_lt h)) ((b'0' + n % 10) ∷ out)
              ∙ ap (λ k. decimal k out) (omega arith)
          | no h ↦ ap (λ k. decimal k out) (omega (arith, h))
        ]

digits_onto-has_byte :
    (b n : ℕ) (a : Acc ◌<◌ n) (out : Bytes)
    → is_digit b ≡ false
    → has_byte b out ≡ false
    → has_byte b (digits_onto n a out) ≡ false
unfolding digits_onto is_digit
digits_onto-has_byte b n (Acc.intro _ smaller) out d o =
    elim (dec_lt 0 n)
      as (λ d.
        has_byte b (
          dite d (λ h. digits_onto (n / 10) (smaller (n / 10) (tenth_lt h)) ((b'0' + n % 10) ∷ out))
            (λ _. out))
        ≡ false) [
          | yes h ↦
              digits_onto-has_byte b (n / 10) (smaller (n / 10) (tenth_lt h))
                ((b'0' + n % 10) ∷ out) d (ground (arith, d, o))
          | no h ↦ o
        ]

-- Reading the digits gives the number back.
pub decimal-itoa : (n : ℕ) → decimal 0 (itoa n) ≡ n
unfolding itoa decimal
decimal-itoa n = elim (Bool-cases (n == 0)) [
  | inl t ↦ rw t (ground (arith, t))
  | inr f ↦ rw f (decimal-digits_onto n (lt_wf.apply n) [])
]

pub itoa-has_byte : (b n : ℕ) → is_digit b ≡ false → has_byte b (itoa n) ≡ false
unfolding itoa is_digit
itoa-has_byte b n d = elim (Bool-cases (n == 0)) [
  | inl t ↦ rw t (ground (arith, d))
  | inr f ↦ rw f (digits_onto-has_byte b n (lt_wf.apply n) [] d refl)
]

itoa-injective : (m n : ℕ) → itoa m ≡ itoa n → m ≡ n
itoa-injective m n h = sym (decimal-itoa m) ∙ ap (decimal 0) h ∙ decimal-itoa n

pub format_int-has_byte :
    (b : ℕ) (z : ℤ) → is_digit b ≡ false → (b'-' == b) ≡ false → has_byte b (format_int z) ≡ false
unfolding format_int
format_int-has_byte b (pos n) d m = itoa-has_byte b n d
format_int-has_byte b (negsuc n) d m = ground (arith, m, itoa-has_byte b (n + 1) d)

signed : (n : ℕ) (s : Bytes) → itoa n ≡ b'-' ∷ s → ⊥
unfolding is_digit
signed n s h = cc (ap (has_byte b'-') h, itoa-has_byte b'-' n refl)

-- Ints with the same text are equal.
pub format_int-injective : (y z : ℤ) → format_int y ≡ format_int z → y ≡ z
unfolding format_int
format_int-injective (pos m) (pos n) h = ap pos (itoa-injective m n h)
format_int-injective (pos m) (negsuc n) h = absurd (signed m (itoa (n + 1)) h)
format_int-injective (negsuc m) (pos n) h = absurd (signed n (itoa (m + 1)) (sym h))
format_int-injective (negsuc m) (negsuc n) h =
    let same : m + 1 ≡ n + 1 = itoa-injective (m + 1) (n + 1) (ap (drop 1) h) in
    ap negsuc (omega (arith, same))
