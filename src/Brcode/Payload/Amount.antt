-- ===== src/Brcode/Payload/Amount.antt =====
-- `validAmount` accepts exactly the plain decimals with at most two places.
use pixkb.Base.{
  Bytes, ℕ, ◌≤◌, Bool, true, false, [], ◌∷◌, ◌++◌, ◌≡◌, ◌≢◌, ◌↔◌, ◌⊎◌, inl, inr, refl, length, ◌==◌,
  ok, All, arith,
}
use pixkb.Text.Number.{digits_only}
use pixkb.Brcode.Tlv.{all_digits}
use pixkb.Brcode.Payload.{cut_dot, valid_parts, valid_amount}

abbrev IsDigit : ℕ → Type 0
IsDigit c = (b'0' ≤ c) × (c ≤ b'9')

-- An amount in reais: some digits, and possibly a dot with one or two more.
pub data IsAmount : Bytes → Type 0 where
  whole : {s : Bytes} → s ≢ [] → All IsDigit s → IsAmount s
  cents :
      {s int_part frac : Bytes}
      → s ≡ int_part ++ (b'.' ∷ frac)
      → int_part ≢ []
      → All IsDigit int_part
      → frac ≢ []
      → length frac ≤ 2
      → All IsDigit frac
      → IsAmount s

digits_only→All : (s : Bytes) → digits_only s ≡ true → All IsDigit s
unfolding digits_only
digits_only→All [] h = tt
digits_only→All (c ∷ s) h = ground (arith, digits_only→All s)

All→digits_only : (s : Bytes) → All IsDigit s → digits_only s ≡ true
unfolding digits_only
All→digits_only [] h = refl
All→digits_only (c ∷ s) h = ground (arith, All→digits_only s h.1)

-- The text is put together again from what `strings.Cut` returns.
cut_dot-join :
    (s : Bytes)
    → ((cut_dot s).2 ≡ true) × (s ≡ (cut_dot s).0 ++ (b'.' ∷ (cut_dot s).1))
      ⊎ ((cut_dot s).2 ≡ false) × (s ≡ (cut_dot s).0) × ((cut_dot s).1 ≡ [])
unfolding cut_dot
cut_dot-join [] = inr (refl, refl, refl)
cut_dot-join (c ∷ s) = ground (arith, cut_dot-join s)

-- Digits in front of a dot are cut off there; digits alone have no dot.
cut_dot-digits :
    (int_part frac : Bytes)
    → All IsDigit int_part
    → cut_dot (int_part ++ (b'.' ∷ frac)) ≡ (int_part, frac, true)
unfolding cut_dot
cut_dot-digits [] frac h = refl
cut_dot-digits (c ∷ s) frac h =
    let no_dot : (c == b'.') ≡ false = ground arith in rw (no_dot, cut_dot-digits s frac h.1)

cut_dot-none : (s : Bytes) → All IsDigit s → cut_dot s ≡ (s, [], false)
unfolding cut_dot
cut_dot-none [] h = refl
cut_dot-none (c ∷ s) h =
    let no_dot : (c == b'.') ≡ false = ground arith in rw (no_dot, cut_dot-none s h.1)

all_digits_iff : (s : Bytes) → (all_digits s ≡ true) ↔ ((s ≢ []) × All IsDigit s)
unfolding all_digits
all_digits_iff [] = (λ h. cc, λ h. absurd (h.0 refl))
all_digits_iff (c ∷ s) =
    (λ h. (cc, digits_only→All (c ∷ s) (ground arith)), λ h. rw (All→digits_only (c ∷ s) h.1))

module _ (a : Bytes) where
  valid_parts_dot :
      (int_part frac : Bytes)
      → valid_parts a (int_part, frac, true) ≡ ok tt
      → (all_digits int_part ≡ true) × (all_digits frac ≡ true) × (length frac ≤ 2)
  unfolding valid_parts
  valid_parts_dot int_part frac h = ground arith

  valid_parts_whole :
      (int_part : Bytes) → valid_parts a (int_part, [], false) ≡ ok tt → all_digits int_part ≡ true
  unfolding valid_parts
  valid_parts_whole int_part h = ground arith

  parts_dot-valid :
      (int_part frac : Bytes)
      → int_part ≢ []
      → all_digits int_part ≡ true
      → frac ≢ []
      → all_digits frac ≡ true
      → length frac ≤ 2
      → valid_parts a (int_part, frac, true) ≡ ok tt
  unfolding valid_parts
  parts_dot-valid int_part frac n d m e l = ground arith

  parts_whole-valid :
      (int_part : Bytes)
      → int_part ≢ []
      → all_digits int_part ≡ true
      → valid_parts a (int_part, [], false) ≡ ok tt
  unfolding valid_parts
  parts_whole-valid int_part n d = ground arith

valid_amount-IsAmount : (a : Bytes) → valid_amount a ≡ ok tt → IsAmount a
unfolding valid_amount
valid_amount-IsAmount a h = from_parts (cut_dot a).0 (cut_dot a).1 (cut_dot a).2 (cut_dot-join a) h
  where
    from_parts :
        (int_part frac : Bytes) (dot : Bool)
        → (dot ≡ true) × (a ≡ int_part ++ (b'.' ∷ frac))
          ⊎ (dot ≡ false) × (a ≡ int_part) × (frac ≡ [])
        → valid_parts a (int_part, frac, dot) ≡ ok tt
        → IsAmount a
    from_parts int_part frac dot (inl (is_dot, text)) v =
        let (d, e, l) = valid_parts_dot a int_part frac (rw is_dot at v) in
        let (n, all) = (all_digits_iff int_part).0 d in
        let (m, more) = (all_digits_iff frac).0 e in cents text n all m l more
    from_parts int_part frac dot (inr (no_dot, text, nothing)) v =
        let (n, all) =
          (all_digits_iff int_part).0 (valid_parts_whole a int_part (rw (no_dot, nothing) at v)) in
        rw text (whole n all)

IsAmount-valid_amount : {a : Bytes} → IsAmount a → valid_amount a ≡ ok tt
unfolding valid_amount
IsAmount-valid_amount (whole {s} n all) =
    rw (cut_dot-none s all) (parts_whole-valid s s n ((all_digits_iff s).1 (n, all)))
IsAmount-valid_amount (cents {s} {int_part} {frac} text n all m l more) =
    rw (text, cut_dot-digits int_part frac all)
      (parts_dot-valid _ int_part frac n ((all_digits_iff int_part).1 (n, all)) m
        ((all_digits_iff frac).1 (m, more)) l)

-- `validAmount` accepts a text exactly when it is some digits, or some digits, a dot and one or two
-- digits more.
pub valid_amount_iff : (a : Bytes) → (valid_amount a ≡ ok tt) ↔ IsAmount a
valid_amount_iff a = (valid_amount-IsAmount a, λ h. IsAmount-valid_amount h)
