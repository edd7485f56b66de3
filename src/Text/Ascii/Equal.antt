-- ===== src/Text/Ascii/Equal.antt =====
-- The comparisons decide equality.
use pixkb.Base.{Bytes, ◌≡◌, ◌↔◌, refl, true, false, [], ◌∷◌, map, arith, inl, inr, Bool-cases}
use pixkb.Text.Ascii.{equal, equal_fold, lower_byte}

pub equal_iff : (a b : Bytes) → (equal a b ≡ true) ↔ (a ≡ b)
unfolding equal
equal_iff [] [] = ground arith
equal_iff [] (y ∷ b) = ground arith
equal_iff (x ∷ a) [] = ground arith
equal_iff (x ∷ a) (y ∷ b) = ground (arith, equal_iff a b)

pub equal_refl : (a : Bytes) → equal a a ≡ true
equal_refl a = (equal_iff a a).1 refl

pub equal_comm : (a b : Bytes) → equal a b ≡ false → equal b a ≡ false
equal_comm a b h = elim (Bool-cases (equal b a)) [
  | inl t ↦ cc (h, (equal_iff b a).0 t, equal_refl a, t)
  | inr f ↦ f
]

pub equal_fold_refl : (a : Bytes) → equal_fold a a ≡ true
unfolding equal_fold
equal_fold_refl a = equal_refl (map lower_byte a)

-- Texts that fold to the same text as a third fold to each other.
pub equal_fold_same :
    (a b c : Bytes)
    → equal_fold a b ≡ true
    → equal_fold a c ≡ true
    → map lower_byte b ≡ map lower_byte c
unfolding equal_fold
equal_fold_same a b c h k = cc (
  (equal_iff (map lower_byte a) (map lower_byte b)).0 h,
  (equal_iff (map lower_byte a) (map lower_byte c)).0 k,
)
