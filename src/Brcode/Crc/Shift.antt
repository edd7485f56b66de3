-- ===== src/Brcode/Crc/Shift.antt =====
-- The register of `CRC16`: it keeps 16 bits, and each round can be undone.
use Prim.Native.Nat.{bit_xor}
use pixkb.Base.{
  Bytes, ℕ, zero, suc, ◌*◌, ◌%◌, ◌<◌, ◌≤◌, ◌≡◌, refl, sym, ◌∙◌, [], ◌∷◌, ◌++◌, ltb, if◌then◌else◌,
  arith, Bool-cases, inl, inr, ltb→lt, ltb_false→le,
}
use pixkb.Word.Xor.{bit_xor_step, bit_xor-lt, bit_xor-injective_left, bit_xor-injective_right}
use pixkb.Word.TopBit.{bit_and_top16}
use pixkb.Brcode.Crc.{shift, shift_rounds, add_byte, crc_from}

-- With the top bit clear the register doubles.
shift_low : (x : ℕ) → x < 32768 → shift x ≡ x * 2
unfolding shift
shift_low x p = ground (arith, bit_and_top16 x (omega arith))

shift_high : (x : ℕ) → 32768 ≤ x → x < 65536 → shift x ≡ bit_xor (x * 2 % 65536) 0x1021
unfolding shift
shift_high x p q = ground (arith, bit_and_top16 x q)

shift_bounds : (x : ℕ) → x < 65536 → shift x < 65536
shift_bounds x p = elim (Bool-cases (ltb x 32768)) [
  | inl low ↦ rw (shift_low x (ltb→lt _ _ low)) (omega (arith, ltb→lt _ _ low))
  | inr high ↦
      rw (shift_high x (ltb_false→le _ _ high) p)
        (bit_xor-lt 16 (x * 2 % 65536) 0x1021 (omega arith) (omega arith))
]

-- The parity of the new register tells which branch was taken.
shift_parity : (x : ℕ) → x < 65536 → shift x % 2 ≡ (if ltb x 32768 then 0 else 1)
shift_parity x p = elim (Bool-cases (ltb x 32768)) [
  | inl low ↦ rw (low, shift_low x (ltb→lt _ _ low)) (omega arith)
  | inr high ↦
      rw (high, shift_high x (ltb_false→le _ _ high) p)
        (omega (arith, bit_xor_step (x * 2 % 65536) 0x1021))
]

shift-injective : (x y : ℕ) → x < 65536 → y < 65536 → shift x ≡ shift y → x ≡ y
shift-injective x y p q e = elim (Bool-cases (ltb x 32768)) [
  | inl x_low ↦ elim (Bool-cases (ltb y 32768)) [
    | inl y_low ↦ omega (arith, shift_low x (ltb→lt _ _ x_low), shift_low y (ltb→lt _ _ y_low))
    | inr y_high ↦
        let px = rw x_low at (shift_parity x p) in
        let py = rw y_high at (shift_parity y q) in absurd (omega (arith, px, py))
  ]
  | inr x_high ↦ elim (Bool-cases (ltb y 32768)) [
    | inl y_low ↦
        let px = rw x_high at (shift_parity x p) in
        let py = rw y_low at (shift_parity y q) in absurd (omega (arith, px, py))
    | inr y_high ↦
        let hx = ltb_false→le _ _ x_high in
        let hy = ltb_false→le _ _ y_high in
        let same =
          bit_xor-injective_left 16 (x * 2 % 65536) (y * 2 % 65536) 0x1021 (omega arith)
            (omega arith) (omega arith) (sym (shift_high x hx p) ∙ e ∙ shift_high y hy q) in
        omega (arith, same)
  ]
]

shift_rounds_bounds : (n x : ℕ) → x < 65536 → shift_rounds n x < 65536
unfolding shift_rounds
shift_rounds_bounds zero x p = p
shift_rounds_bounds (suc n) x p = shift_rounds_bounds n (shift x) (shift_bounds x p)

shift_rounds-injective :
    (n x y : ℕ) → x < 65536 → y < 65536 → shift_rounds n x ≡ shift_rounds n y → x ≡ y
unfolding shift_rounds
shift_rounds-injective zero x y p q e = e
shift_rounds-injective (suc n) x y p q e =
    shift-injective x y p q
      (shift_rounds-injective n (shift x) (shift y) (shift_bounds x p) (shift_bounds y q) e)

pub add_byte_bounds : (x b : ℕ) → x < 65536 → add_byte x b < 65536
unfolding add_byte
add_byte_bounds x b p =
    shift_rounds_bounds 8 (bit_xor x (b * 256 % 65536))
      (bit_xor-lt 16 x (b * 256 % 65536) p (omega arith))

-- One byte mixed into two registers keeps them apart.
add_byte-injective_register :
    (x y b : ℕ) → x < 65536 → y < 65536 → add_byte x b ≡ add_byte y b → x ≡ y
unfolding add_byte
add_byte-injective_register x y b p q e =
    let w = b * 256 % 65536 in
    let w_lt : w < 65536 = omega arith in
    bit_xor-injective_left 16 x y w p q w_lt (
      shift_rounds-injective 8 (bit_xor x w) (bit_xor y w) (bit_xor-lt 16 x w p w_lt)
        (bit_xor-lt 16 y w q w_lt) e)

-- Two bytes mixed into one register keep apart.
pub add_byte-injective_byte :
    (x b c : ℕ) → x < 65536 → b < 256 → c < 256 → add_byte x b ≡ add_byte x c → b ≡ c
unfolding add_byte
add_byte-injective_byte x b c p q r e =
    let v = b * 256 % 65536 in
    let w = c * 256 % 65536 in
    let v_lt : v < 65536 = omega arith in
    let w_lt : w < 65536 = omega arith in
    let same = bit_xor-injective_right 16 x v w p v_lt w_lt (
      shift_rounds-injective 8 (bit_xor x v) (bit_xor x w) (bit_xor-lt 16 x v p v_lt)
        (bit_xor-lt 16 x w p w_lt) e) in
    omega (arith, same)

pub crc_from_bounds : (s : Bytes) (x : ℕ) → x < 65536 → crc_from x s < 65536
unfolding crc_from
crc_from_bounds [] x p = p
crc_from_bounds (b ∷ s) x p = crc_from_bounds s (add_byte x b) (add_byte_bounds x b p)

pub crc_from-injective :
    (s : Bytes) (x y : ℕ) → x < 65536 → y < 65536 → crc_from x s ≡ crc_from y s → x ≡ y
unfolding crc_from
crc_from-injective [] x y p q e = e
crc_from-injective (b ∷ s) x y p q e = add_byte-injective_register x y b p q (
    crc_from-injective s (add_byte x b) (add_byte y b) (add_byte_bounds x b p)
      (add_byte_bounds y b q) e)

pub crc_from-append : (s t : Bytes) (x : ℕ) → crc_from x (s ++ t) ≡ crc_from (crc_from x s) t
unfolding crc_from
crc_from-append [] t x = refl
crc_from-append (b ∷ s) t x = crc_from-append s t (add_byte x b)
