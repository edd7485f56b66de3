-- ===== src/Brcode/Crc.antt =====
-- `CRC16` of internal/brcode/brcode.go, on 16-bit words as numbers below 65536.
pub mod Shift
pub mod Detection
use Prim.Native.Nat.{bit_and, bit_xor}
use pixkb.Base.{
  Bytes, codes, ℕ, zero, suc, ◌+◌, ◌*◌, ◌%◌, ◌≡◌, refl, [], ◌∷◌, not, ◌==◌, if◌then◌else◌,
}

-- one round of the inner loop
unfoldable pub shift : ℕ → ℕ
shift crc =
    if not (bit_and crc 0x8000 == 0) then bit_xor (crc * 2 % 65536) 0x1021 else crc * 2 % 65536

-- `for range n`
unfoldable pub shift_rounds : ℕ → ℕ → ℕ
unfolding shift
shift_rounds zero crc = crc
shift_rounds (suc n) crc = shift_rounds n (shift crc)

-- one round of the outer loop
unfoldable pub add_byte : ℕ → ℕ → ℕ
unfolding shift_rounds
add_byte crc b = shift_rounds 8 (bit_xor crc (b * 256 % 65536))

-- the outer loop from a given register
unfoldable pub crc_from : ℕ → Bytes → ℕ
unfolding add_byte
crc_from crc [] = crc
crc_from crc (b ∷ s) = crc_from (add_byte crc b) s

unfoldable pub crc16 : Bytes → ℕ
unfolding crc_from
crc16 s = crc_from 0xffff s

check_value : crc16 (codes "123456789") ≡ 0x29b1
unfolding crc16
check_value = refl
