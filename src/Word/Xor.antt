-- ===== src/Word/Xor.antt =====
-- Exclusive or: it stays within a width, and is undone by the same operand.
use Prim.Native.Nat.{bit_xor, differ, bit_xor-bitwise}
use native.Mathlib.Nat.{pow-suc}
use pixkb.Base.{ℕ, zero, suc, ◌+◌, ◌*◌, ◌/◌, ◌%◌, ◌^◌, ◌<◌, ◌≡◌, refl, arith}
use pixkb.Word.Digits.{lowest_digit}

differ-bits : (x y : ℕ) → x < 2 → y < 2 → differ x y ≡ (x + y) % 2
differ-bits zero y p q = omega arith
differ-bits (suc zero) zero p q = omega arith
differ-bits (suc zero) (suc zero) p q = omega arith
differ-bits (suc zero) (suc (suc y)) p q = absurd (omega arith)
differ-bits (suc (suc x)) y p q = absurd (omega arith)

bit_xor-differ : (x y : ℕ) → bit_xor x y ≡ bit_xor (x / 2) (y / 2) * 2 + differ (x % 2) (y % 2)
bit_xor-differ zero y = simp bit_xor-bitwise (omega arith)
bit_xor-differ (suc x) y = simp bit_xor-bitwise (lowest_digit (λ b. b) differ x y)

pub bit_xor_step : (x y : ℕ) → bit_xor x y ≡ bit_xor (x / 2) (y / 2) * 2 + (x + y) % 2
bit_xor_step x y =
    omega (arith, bit_xor-differ x y, differ-bits (x % 2) (y % 2) (omega arith) (omega arith))

pub bit_xor-lt : (k x y : ℕ) → x < 2 ^ k → y < 2 ^ k → bit_xor x y < 2 ^ k
bit_xor-lt zero zero zero p q = omega arith
bit_xor-lt zero zero (suc y) p q = absurd (omega arith)
bit_xor-lt zero (suc x) y p q = absurd (omega arith)
bit_xor-lt (suc k) x y p q = omega (
  arith,
  bit_xor_step x y,
  pow-suc 2 k,
  bit_xor-lt k (x / 2) (y / 2) (omega (arith, pow-suc 2 k)) (omega (arith, pow-suc 2 k)),
)

bit_xor-halves : (x y : ℕ) → bit_xor x y / 2 ≡ bit_xor (x / 2) (y / 2)
bit_xor-halves x y = omega (arith, bit_xor_step x y)

pub bit_xor_cancel : (k x y : ℕ) → x < 2 ^ k → y < 2 ^ k → bit_xor (bit_xor x y) y ≡ x
bit_xor_cancel zero zero zero p q = refl
bit_xor_cancel zero zero (suc y) p q = absurd (omega arith)
bit_xor_cancel zero (suc x) y p q = absurd (omega arith)
bit_xor_cancel (suc k) x y p q =
    let same =
      bit_xor_cancel k (x / 2) (y / 2) (omega (arith, pow-suc 2 k)) (omega (arith, pow-suc 2 k)) in
    let outer = rw (bit_xor-halves x y) at (bit_xor_step (bit_xor x y) y) in
    omega (arith, bit_xor_step x y, outer, same)

bit_xor_comm_below : (k x y : ℕ) → x < 2 ^ k → y < 2 ^ k → bit_xor x y ≡ bit_xor y x
bit_xor_comm_below zero zero zero p q = refl
bit_xor_comm_below zero zero (suc y) p q = absurd (omega arith)
bit_xor_comm_below zero (suc x) y p q = absurd (omega arith)
bit_xor_comm_below (suc k) x y p q = omega (
  arith,
  bit_xor_step x y,
  bit_xor_step y x,
  bit_xor_comm_below k (x / 2) (y / 2) (omega (arith, pow-suc 2 k)) (omega (arith, pow-suc 2 k)),
)

-- Both operands are determined by the result and the other one.
pub bit_xor-injective_left :
    (k x x' y : ℕ) → x < 2 ^ k → x' < 2 ^ k → y < 2 ^ k → bit_xor x y ≡ bit_xor x' y → x ≡ x'
bit_xor-injective_left k x x' y p p' q e = cc (bit_xor_cancel k x y p q, bit_xor_cancel k x' y p' q)

pub bit_xor-injective_right :
    (k x y y' : ℕ) → x < 2 ^ k → y < 2 ^ k → y' < 2 ^ k → bit_xor x y ≡ bit_xor x y' → y ≡ y'
bit_xor-injective_right k x y y' p q q' e =
    bit_xor-injective_left k y y' x q q' p
      (cc (bit_xor_comm_below k x y p q, bit_xor_comm_below k x y' p q'))
