-- ===== src/Text/Members.antt =====
-- Lists of texts as sets: membership, and lists without repetition.
use pixkb.Base.{
  Bytes, ◌≡◌, refl, ◌∙◌, subst, Bool, true, false, ◌||◌, List, [], ◌∷◌, ◌++◌, All, arith,
  Bool-cases, inl, inr,
}
use pixkb.Text.Ascii.{equal}
use pixkb.Text.Ascii.Equal.{equal_iff, equal_comm}

-- the text is in the list
unfoldable pub mem : Bytes → List Bytes → Bool
unfolding equal
mem text [] = false
mem text (t ∷ ts) = equal t text || mem text ts

-- No text stands twice.
abbrev pub Distinct : List Bytes → Type 0
Distinct [] = Unit
Distinct (x ∷ xs) = (mem x xs ≡ false) × Distinct xs

pub mem-append : (x : Bytes) (xs ys : List Bytes) → mem x (xs ++ ys) ≡ mem x xs || mem x ys
unfolding mem
mem-append x [] ys = refl
mem-append x (z ∷ xs) ys = ground (arith, mem-append x xs ys)

pub mem-All : (P : Bytes → Type 0) (x : Bytes) (xs : List Bytes) → mem x xs ≡ true → All P xs → P x
unfolding mem
mem-All P x [] m h = cc
mem-All P x (y ∷ ys) m h = elim (Bool-cases (equal y x)) [
  | inl t ↦ subst P ((equal_iff y x).0 t) h.0
  | inr f ↦ mem-All P x ys (cc (m, f)) h.1
]

pub Distinct-snoc :
    (x : Bytes) (xs : List Bytes) → mem x xs ≡ false → Distinct xs → Distinct (xs ++ (x ∷ []))
unfolding mem
Distinct-snoc x [] m d = (refl, tt)
Distinct-snoc x (y ∷ ys) m d =
    let other : equal x y ≡ false = equal_comm y x (ground arith) in
    (
      mem-append y ys (x ∷ []) ∙ ground (arith, other, d.0),
      Distinct-snoc x ys (ground (arith, m)) d.1,
    )

pub mem-tail : (x y : Bytes) (ys : List Bytes) → mem x (y ∷ ys) ≡ false → mem x ys ≡ false
unfolding mem
mem-tail x y ys h = ground arith

pub mem-cons :
    (x y : Bytes) (ys zs : List Bytes)
    → mem x (y ∷ ys) ≡ false
    → mem x zs ≡ false
    → mem x (y ∷ zs) ≡ false
unfolding mem
mem-cons x y ys zs h k = ground arith
