-- ===== src/Word/TopBit.antt =====
-- The test of one bit by a mask.
use Prim.Native.Nat.{bit_and, min, bit_and-bitwise}
use native.Mathlib.Nat.{pow-suc}
use pixkb.Base.{
  ℕ, zero, suc, ◌+◌, ◌*◌, ◌/◌, ◌%◌, ◌^◌, ◌<◌, ◌≡◌, refl, if◌then◌else◌, ltb, ◌==◌, arith,
}
use pixkb.Word.Digits.{lowest_digit}

bit_and_step : (x y : ℕ) → bit_and x y ≡ bit_and (x / 2) (y / 2) * 2 + min (x % 2) (y % 2)
bit_and_step zero y = simp bit_and-bitwise (omega arith)
bit_and_step (suc x) y = simp bit_and-bitwise (lowest_digit (λ b. 0) min x y)

bit_and-zero_below : (k x : ℕ) → x < 2 ^ k → bit_and x 0 ≡ 0
bit_and-zero_below zero zero p = refl
bit_and-zero_below zero (suc x) p = absurd (omega arith)
bit_and-zero_below (suc k) x p =
    omega (arith, bit_and_step x 0, bit_and-zero_below k (x / 2) (omega (arith, pow-suc 2 k)))

-- Below `2 ^ (k + 1)`, the mask `2 ^ k` keeps exactly the top bit.
bit_and_top : (k x : ℕ) → x < 2 ^ suc k → bit_and x (2 ^ k) ≡ (if ltb x (2 ^ k) then 0 else 2 ^ k)
bit_and_top zero zero p = refl
bit_and_top zero (suc zero) p = refl
bit_and_top zero (suc (suc x)) p = absurd (omega arith)
bit_and_top (suc k) x p =
    let half : 2 ^ suc k / 2 ≡ 2 ^ k = omega (arith, pow-suc 2 k) in
    let below = bit_and_top k (x / 2) (omega (arith, pow-suc 2 (suc k))) in
    let top = rw half at (bit_and_step x (2 ^ suc k)) in ground (arith, pow-suc 2 k, top, below)

-- A 16-bit word has its top bit clear exactly when it is below 32768.
pub bit_and_top16 : (x : ℕ) → x < 65536 → (bit_and x 0x8000 == 0) ≡ ltb x 32768
bit_and_top16 x p = ground (arith, bit_and_top 15 x p)
