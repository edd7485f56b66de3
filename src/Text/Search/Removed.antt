-- ===== src/Text/Search/Removed.antt =====
-- What `strings.ReplaceAll` leaves where it removes: a shorter text, with bytes of the text in their
-- order.
use pixkb.Base.{
  Bytes, ℕ, zero, suc, ◌-◌, ◌≤◌, ◌<◌, ◌≡◌, true, [], ◌∷◌, length, arith, inl, inr, Bool-cases,
}
use pixkb.Text.Ascii.{is_prefix}
use pixkb.Text.Search.{contains, remove_from, remove_all}

-- The first text is the second one without some of its bytes.
pub data IsPart : Bytes → Bytes → Type 0 where
  nothing : IsPart [] []
  skipped : {t s : Bytes} (c : ℕ) → IsPart t s → IsPart t (c ∷ s)
  kept : {t s : Bytes} (c : ℕ) → IsPart t s → IsPart (c ∷ t) (c ∷ s)

pub IsPart_refl : (s : Bytes) → IsPart s s
IsPart_refl [] = nothing
IsPart_refl (c ∷ s) = kept c (IsPart_refl s)

pub IsPart_trans : {t s r : Bytes} → IsPart t s → IsPart s r → IsPart t r
IsPart_trans p nothing = p
IsPart_trans p (skipped c q) = skipped c (IsPart_trans p q)
IsPart_trans (skipped d p) (kept c q) = skipped c (IsPart_trans p q)
IsPart_trans (kept d p) (kept c q) = kept c (IsPart_trans p q)

remove_from-IsPart : (old : Bytes) (skip : ℕ) (s : Bytes) → IsPart (remove_from old skip s) s
unfolding remove_from
remove_from-IsPart old zero [] = nothing
remove_from-IsPart old (suc skip) [] = nothing
remove_from-IsPart old (suc skip) (c ∷ s) = skipped c (remove_from-IsPart old skip s)
remove_from-IsPart old zero (c ∷ s) = elim (Bool-cases (is_prefix old (c ∷ s))) [
  | inl t ↦ rw t (skipped c (remove_from-IsPart old (length old - 1) s))
  | inr f ↦ rw f (kept c (remove_from-IsPart old 0 s))
]

pub remove_all-IsPart : (old s : Bytes) → IsPart (remove_all old s) s
unfolding remove_all
remove_all-IsPart [] s = IsPart_refl s
remove_all-IsPart (o ∷ old) s = remove_from-IsPart (o ∷ old) 0 s

length-remove_from :
    (old : Bytes) (skip : ℕ) (s : Bytes) → length (remove_from old skip s) ≤ length s
unfolding remove_from
length-remove_from old zero [] = omega arith
length-remove_from old (suc skip) [] = omega arith
length-remove_from old (suc skip) (c ∷ s) = omega (arith, length-remove_from old skip s)
length-remove_from old zero (c ∷ s) = elim (Bool-cases (is_prefix old (c ∷ s))) [
  | inl t ↦ rw t (omega (arith, length-remove_from old (length old - 1) s))
  | inr f ↦ rw f (omega (arith, length-remove_from old 0 s))
]

length-remove_from-lt :
    (o : ℕ) (old s : Bytes)
    → contains (o ∷ old) s ≡ true
    → length (remove_from (o ∷ old) 0 s) < length s
unfolding remove_from contains is_prefix
length-remove_from-lt o old [] h = cc
length-remove_from-lt o old (c ∷ s) h = elim (Bool-cases (is_prefix (o ∷ old) (c ∷ s))) [
  | inl t ↦ rw t (omega (arith, length-remove_from (o ∷ old) (length (o ∷ old) - 1) s))
  | inr f ↦
      let rest : contains (o ∷ old) s ≡ true = cc (h, f) in
      rw f (omega (arith, length-remove_from-lt o old s rest))
]

-- A text with an occurrence becomes shorter.
pub length-remove_all :
    (old s : Bytes) → 1 ≤ length old → contains old s ≡ true → length (remove_all old s) < length s
unfolding remove_all
length-remove_all [] s h k = absurd (omega arith)
length-remove_all (o ∷ old) s h k = length-remove_from-lt o old s k
