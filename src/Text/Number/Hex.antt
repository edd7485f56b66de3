-- ===== src/Text/Number/Hex.antt =====
-- The four digits of `%04X` are upper-case ASCII, and determine the word.
use pixkb.Base.{Bytes, ℕ, ◌/◌, ◌%◌, ◌<◌, ◌≡◌, map, arith, ltb, true}
use pixkb.Text.Ascii.{lower_byte, upper_byte, to_upper}
use pixkb.Text.Number.{hex_digit, hex04}
use pixkb.Text.Space.Visible.{IsVisible}

pub hex_digit-IsVisible : (d : ℕ) → d < 16 → IsVisible (hex_digit d)
unfolding hex_digit
hex_digit-IsVisible d p = ground arith

upper_byte-hex_digit : (d : ℕ) → d < 16 → upper_byte (hex_digit d) ≡ hex_digit d
unfolding hex_digit upper_byte
upper_byte-hex_digit d p = ground arith

lower_byte-hex_digit-injective :
    (d e : ℕ) → d < 16 → e < 16 → lower_byte (hex_digit d) ≡ lower_byte (hex_digit e) → d ≡ e
unfolding hex_digit lower_byte
lower_byte-hex_digit-injective d e p q h = ground arith

hex_digit-ascii : (d : ℕ) → d < 16 → ltb (hex_digit d) 128 ≡ true
unfolding hex_digit
hex_digit-ascii d p = ground arith

-- `strings.ToUpper` changes nothing in them.
pub to_upper-hex04 : (up : Bytes → Bytes) (n : ℕ) → to_upper up (hex04 n) ≡ hex04 n
unfolding to_upper hex04
to_upper-hex04 up n = rw (
  hex_digit-ascii (n / 4096 % 16) (omega arith),
  hex_digit-ascii (n / 256 % 16) (omega arith),
  hex_digit-ascii (n / 16 % 16) (omega arith),
  hex_digit-ascii (n % 16) (omega arith),
  upper_byte-hex_digit (n / 4096 % 16) (omega arith),
  upper_byte-hex_digit (n / 256 % 16) (omega arith),
  upper_byte-hex_digit (n / 16 % 16) (omega arith),
  upper_byte-hex_digit (n % 16) (omega arith),
)

-- Words below 65536 with the same digits, up to case, are equal.
pub hex04_fold-injective :
    (m n : ℕ) → m < 65536 → n < 65536 → map lower_byte (hex04 m) ≡ map lower_byte (hex04 n) → m ≡ n
unfolding hex04
hex04_fold-injective m n p q h =
    let digit =
      λ (d e : ℕ) (x : d < 16) (y : e < 16)
          (k : lower_byte (hex_digit d) ≡ lower_byte (hex_digit e)).
        lower_byte-hex_digit-injective d e x y k in
    omega (
      arith,
      digit (m / 4096 % 16) (n / 4096 % 16) (omega arith) (omega arith) (cc h),
      digit (m / 256 % 16) (n / 256 % 16) (omega arith) (omega arith) (cc h),
      digit (m / 16 % 16) (n / 16 % 16) (omega arith) (omega arith) (cc h),
      digit (m % 16) (n % 16) (omega arith) (omega arith) (cc h),
    )
