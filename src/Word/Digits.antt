-- ===== src/Word/Digits.antt =====
-- The recursion on binary digits behind the native bit operations, without its count of rounds.
use Prim.Native.Nat.{digits}
use pixkb.Base.{ℕ, zero, suc, ◌+◌, ◌*◌, ◌/◌, ◌%◌, ◌≤◌, ◌≡◌, refl, arith}

module _ (rest : ℕ → ℕ) (op : ℕ → ℕ → ℕ) where
  -- Any two counts that cover the number give the same digits.
  digits_enough : (j k x y : ℕ) → x ≤ j → x ≤ k → digits rest op j x y ≡ digits rest op k x y
  digits_enough (suc j) (suc k) (suc x) y p q =
      rw (digits_enough j k (suc x / 2) (y / 2) (omega arith) (omega arith))
  digits_enough (suc j) (suc k) zero y p q = refl
  digits_enough zero zero x y p q = refl
  digits_enough zero (suc k) zero y p q = refl
  digits_enough zero (suc k) (suc x) y p q = absurd (omega arith)
  digits_enough (suc j) zero zero y p q = refl
  digits_enough (suc j) zero (suc x) y p q = absurd (omega arith)

  pub lowest_digit :
      (x y : ℕ)
      → digits rest op (suc x) (suc x) y
        ≡ digits rest op (suc x / 2) (suc x / 2) (y / 2) * 2 + op (suc x % 2) (y % 2)
  lowest_digit x y =
      omega (arith, digits_enough x (suc x / 2) (suc x / 2) (y / 2) (omega arith) (omega arith))
