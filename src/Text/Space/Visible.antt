-- ===== src/Text/Space/Visible.antt =====
-- A text with a visible ASCII character at both ends is left alone by `strings.TrimSpace`.
use mathlib.Core.List.{reverse, reverse-append, reverse-reverse}
use pixkb.Base.{Bytes, ℕ, ◌≤◌, ◌<◌, ◌≡◌, sym, ap, ◌∙◌, [], ◌∷◌, ◌++◌, arith}
use pixkb.Text.Space.{trim_left, trim_right_reversed, trim_space}

abbrev pub IsVisible : ℕ → Type 0
IsVisible c = (0x21 ≤ c) × (c < 0x7f)

trim_left_visible : (c : ℕ) (s : Bytes) → IsVisible c → trim_left (c ∷ s) ≡ c ∷ s
unfolding trim_left
trim_left_visible c [] v = ground arith
trim_left_visible c (a ∷ []) v = ground arith
trim_left_visible c (a ∷ b ∷ s) v = ground arith

trim_right_visible : (c : ℕ) (s : Bytes) → IsVisible c → trim_right_reversed (c ∷ s) ≡ c ∷ s
unfolding trim_right_reversed
trim_right_visible c [] v = ground arith
trim_right_visible c (a ∷ []) v = ground arith
trim_right_visible c (a ∷ b ∷ s) v = ground arith

pub trim_space_visible :
    (first last : ℕ) (s : Bytes)
    → IsVisible first
    → IsVisible last
    → trim_space (first ∷ (s ++ last ∷ [])) ≡ first ∷ (s ++ last ∷ [])
unfolding trim_space
trim_space_visible first last s v w =
    let turned = reverse-append (first ∷ s) (last ∷ []) in
    ap (λ u. reverse (trim_right_reversed (reverse u))) (trim_left_visible first (s ++ last ∷ []) v)
    ∙ ap (λ u. reverse (trim_right_reversed u)) turned
    ∙ ap reverse (trim_right_visible last (reverse (first ∷ s)) w ∙ sym turned)
    ∙ reverse-reverse (first ∷ (s ++ last ∷ []))
