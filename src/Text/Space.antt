-- ===== src/Text/Space.antt =====
-- `strings.TrimSpace` on UTF-8 bytes, for every character that `unicode.IsSpace` accepts.
pub mod Visible
use mathlib.Core.List.{reverse}
use pixkb.Base.{Bytes, ℕ, Bool, ◌||◌, ◌&&◌, [], ◌∷◌, ◌==◌, within, if◌then◌else◌}

-- '\t', '\n', '\v', '\f', '\r', ' '
unfoldable pub is_space1 : ℕ → Bool
is_space1 c = within 9 13 c || c == 32

-- U+0085, U+00A0
unfoldable pub is_space2 : ℕ → ℕ → Bool
is_space2 a b = a == 0xc2 && (b == 0x85 || b == 0xa0)

-- U+1680, U+2000 to U+200A, U+2028, U+2029, U+202F, U+205F, U+3000
unfoldable pub is_space3 : ℕ → ℕ → ℕ → Bool
is_space3 a b c =
    (a == 0xe1 && (b == 0x9a && c == 0x80))
    || ((a == 0xe2
          && (b == 0x80 && (within 0x80 0x8a c || (c == 0xa8 || (c == 0xa9 || c == 0xaf)))))
        || ((a == 0xe2 && (b == 0x81 && c == 0x9f)) || (a == 0xe3 && (b == 0x80 && c == 0x80))))

-- `strings.TrimLeftFunc(s, unicode.IsSpace)`
unfoldable pub trim_left : Bytes → Bytes
unfolding is_space1 is_space2 is_space3
trim_left [] = []
trim_left (a ∷ []) = if is_space1 a then [] else a ∷ []
trim_left (a ∷ b ∷ []) =
    let one = trim_left (b ∷ []) in
    if is_space1 a then one else if is_space2 a b then [] else a ∷ b ∷ []
trim_left (a ∷ b ∷ c ∷ s) =
    let one = trim_left (b ∷ c ∷ s) in
    let two = trim_left (c ∷ s) in
    let three = trim_left s in
    if is_space1 a
    then one
    else if is_space2 a b
    then two
    else if is_space3 a b c
    then three
    else a ∷ b ∷ c ∷ s

-- The same from the other end, on the reversed text.
unfoldable pub trim_right_reversed : Bytes → Bytes
unfolding is_space1 is_space2 is_space3
trim_right_reversed [] = []
trim_right_reversed (a ∷ []) = if is_space1 a then [] else a ∷ []
trim_right_reversed (b ∷ a ∷ []) =
    let one = trim_right_reversed (a ∷ []) in
    if is_space1 b then one else if is_space2 a b then [] else b ∷ a ∷ []
trim_right_reversed (c ∷ b ∷ a ∷ s) =
    let one = trim_right_reversed (b ∷ a ∷ s) in
    let two = trim_right_reversed (a ∷ s) in
    let three = trim_right_reversed s in
    if is_space1 c
    then one
    else if is_space2 b c
    then two
    else if is_space3 a b c
    then three
    else c ∷ b ∷ a ∷ s

unfoldable pub trim_space : Bytes → Bytes
unfolding trim_left trim_right_reversed
trim_space s = reverse (trim_right_reversed (reverse (trim_left s)))
