-- ===== src/Text/Ascii.antt =====
-- Comparison and case of byte strings: `==`, `strings.ToLower`, `strings.ToUpper`,
-- `strings.EqualFold`, `strings.HasPrefix`, `strings.LastIndex`, and the digit test.
pub mod Equal
pub mod LastIndex
use pixkb.Base.{
  Bytes, ℕ, suc, ◌+◌, ◌-◌, Bool, true, false, ◌&&◌, [], ◌∷◌, Option, none, some, map, ltb, ◌==◌,
  within, if◌then◌else◌,
}

-- `a == b` on strings
unfoldable pub equal : Bytes → Bytes → Bool
equal [] [] = true
equal (x ∷ a) (y ∷ b) = x == y && equal a b
equal _ _ = false

-- `s == ""`
abbrev pub is_empty : Bytes → Bool
is_empty [] = true
is_empty (_ ∷ _) = false

unfoldable pub lower_byte : ℕ → ℕ
lower_byte c = if within b'A' b'Z' c then c + 32 else c

unfoldable pub upper_byte : ℕ → ℕ
upper_byte c = if within b'a' b'z' c then c - 32 else c

unfoldable pub is_ascii : Bytes → Bool
is_ascii [] = true
is_ascii (c ∷ s) = ltb c 128 && is_ascii s

-- `strings.ToUpper` works byte by byte on an ASCII text; the Unicode tables are a parameter.
unfoldable pub to_upper : (Bytes → Bytes) → Bytes → Bytes
unfolding is_ascii
to_upper unicode_upper s = if is_ascii s then map upper_byte s else unicode_upper s

-- `strings.EqualFold` where one side is an ASCII text without the letters K and S, or both
-- sides are ASCII: no other character folds to an ASCII letter.
unfoldable pub equal_fold : Bytes → Bytes → Bool
unfolding equal lower_byte
equal_fold a b = equal (map lower_byte a) (map lower_byte b)

unfoldable pub is_prefix : Bytes → Bytes → Bool
is_prefix [] s = true
is_prefix (x ∷ p) [] = false
is_prefix (x ∷ p) (y ∷ s) = x == y && is_prefix p s

-- `strings.LastIndex`, which returns -1 for `none`
unfoldable pub last_index : Bytes → Bytes → Option ℕ
unfolding is_prefix
last_index sep [] = if is_empty sep then some 0 else none
last_index sep (c ∷ s) = elim (last_index sep s) [
  | some i ↦ some (suc i)
  | none ↦ if is_prefix sep (c ∷ s) then some 0 else none
]

unfoldable pub is_digit : ℕ → Bool
is_digit c = within b'0' b'9' c
