-- ===== src/Brcode/Payload/Meaning.antt =====
-- `Validate`, read as the list of the Pix requirements.
use pixkb.Base.{
  Bytes, ℕ, ◌≤◌, Bool, true, false, not, ◌&&◌, ◌||◌, [], ◌∷◌, ◌≡◌, ◌≢◌, ◌↔◌, ◌⊎◌, inl, inr, refl,
  length, if◌then◌else◌, Result, ok, ◌>>◌, refuse, All, arith, le→ltb, ltb_false→le,
}
use pixkb.Text.Ascii.{is_empty}
use pixkb.Text.Space.{trim_space}
use pixkb.Brcode.Errors.{Error}
use pixkb.Brcode.Payload.{
  Payload, ascii_fields, check_ascii, is_printable_ascii, valid_amount, validate,
}
use pixkb.Brcode.Payload.Amount.{IsAmount, valid_amount_iff}
use pixkb.Brcode.Payload.Valid.{Checks, validate-Checks, Checks-validate}

-- Space to tilde.
abbrev pub IsPrintable : ℕ → Type 0
IsPrintable c = (0x20 ≤ c) × (c ≤ 0x7e)

pub record IsValid (p : Payload) : Type 0 where
  pub has_target : (trim_space p.key ≢ []) ⊎ (trim_space p.url ≢ [])
  pub one_target : (p.key ≡ []) ⊎ (p.url ≡ [])
  pub has_name : trim_space p.merchant_name ≢ []
  pub has_city : trim_space p.city ≢ []
  pub name_fits : length p.merchant_name ≤ 25
  pub city_fits : length p.city ≤ 15
  pub amount_is : (p.amount ≡ []) ⊎ IsAmount p.amount
  pub key_printable : All IsPrintable p.key
  pub url_printable : All IsPrintable p.url
  pub description_printable : All IsPrintable p.description
  pub name_printable : All IsPrintable p.merchant_name
  pub city_printable : All IsPrintable p.city
  pub txid_printable : All IsPrintable p.txid

printable→All : (s : Bytes) → is_printable_ascii s ≡ true → All IsPrintable s
unfolding is_printable_ascii
printable→All [] h = tt
printable→All (c ∷ s) h = ground (arith, printable→All s)

All→printable : (s : Bytes) → All IsPrintable s → is_printable_ascii s ≡ true
unfolding is_printable_ascii
All→printable [] h = refl
All→printable (c ∷ s) h = ground (arith, All→printable s h.1)

-- One round of the loop over the text fields.
abbrev check_passes : Bytes → Bool
check_passes v = not (is_empty v) && not (is_printable_ascii v)

check_passes_iff : (v : Bytes) → (check_passes v ≡ false) ↔ All IsPrintable v
check_passes_iff [] = (λ h. tt, λ h. refl)
check_passes_iff (c ∷ v) =
    (λ h. printable→All (c ∷ v) (ground arith), λ h. rw (All→printable (c ∷ v) h))

refuse_then :
    (b : Bool) (e : Error) (m : Result Error (Unit {0}))
    → (refuse b e >> m) ≡ ok tt
    → (b ≡ false) × (m ≡ ok tt)
refuse_then true e m h = cc
refuse_then false e m h = (refl, h)

-- The loop passes when every round does.
check_ascii-rounds :
    (p : Payload)
    → (check_ascii p ascii_fields ≡ ok tt) ↔ (
        (check_passes p.key ≡ false)
        × (check_passes p.url ≡ false)
        × (check_passes p.description ≡ false)
        × (check_passes p.merchant_name ≡ false)
        × (check_passes p.city ≡ false)
        × (check_passes p.txid ≡ false))
unfolding check_ascii
check_ascii-rounds p = (
  λ h.
      let (a, h₁) = refuse_then _ _ _ h in
      let (b, h₂) = refuse_then _ _ _ h₁ in
      let (c, h₃) = refuse_then _ _ _ h₂ in
      let (d, h₄) = refuse_then _ _ _ h₃ in
      let (e, h₅) = refuse_then _ _ _ h₄ in (a, b, c, d, e, (refuse_then _ _ _ h₅).0),
  λ (a, b, c, d, e, f). rw (a, b, c, d, e, f),
)

-- The tests on emptiness, as statements.
some_not_empty_iff : (a b : Bytes) → ((is_empty a && is_empty b) ≡ false) ↔ ((a ≢ []) ⊎ (b ≢ []))
some_not_empty_iff [] [] =
    (λ h. cc, λ h. elim h [ inl n ↦ absurd (n refl) | inr n ↦ absurd (n refl) ])
some_not_empty_iff [] (y ∷ b) = (λ h. inr (cc), λ h. refl)
some_not_empty_iff (x ∷ a) b = (λ h. inl (cc), λ h. refl)

one_empty_iff :
    (a b : Bytes) → ((not (is_empty a) && not (is_empty b)) ≡ false) ↔ ((a ≡ []) ⊎ (b ≡ []))
one_empty_iff [] b = (λ h. inl refl, λ h. refl)
one_empty_iff (x ∷ a) [] = (λ h. inr refl, λ h. refl)
one_empty_iff (x ∷ a) (y ∷ b) = (λ h. cc, λ h. elim h [ inl e ↦ cc | inr e ↦ cc ])

both_not_empty_iff : (a b : Bytes) → ((is_empty a || is_empty b) ≡ false) ↔ ((a ≢ []) × (b ≢ []))
both_not_empty_iff [] b = (λ h. cc, λ h. absurd (h.0 refl))
both_not_empty_iff (x ∷ a) [] = (λ h. cc, λ h. absurd (h.1 refl))
both_not_empty_iff (x ∷ a) (y ∷ b) = (λ h. (cc, cc), λ h. refl)

IsAmount-check_iff :
    (a : Bytes) → ((if is_empty a then ok tt else valid_amount a) ≡ ok tt) ↔ ((a ≡ []) ⊎ IsAmount a)
IsAmount-check_iff [] = (λ h. inl refl, λ h. refl)
IsAmount-check_iff (c ∷ a) = (
  λ h. inr ((valid_amount_iff (c ∷ a)).0 h),
  λ h. elim h [ inl e ↦ cc | inr v ↦ (valid_amount_iff (c ∷ a)).1 v ],
)

Checks-IsValid : {p : Payload} → Checks p → IsValid p
Checks-IsValid {p} c =
    let t = (check_ascii-rounds p).0 c.printable in
    let named = (both_not_empty_iff (trim_space p.merchant_name) (trim_space p.city)).0 c.named in
    record {
      has_target = (some_not_empty_iff (trim_space p.key) (trim_space p.url)).0 c.not_blank;
      one_target = (one_empty_iff p.key p.url).0 c.exclusive;
      has_name = named.0;
      has_city = named.1;
      name_fits = ltb_false→le 25 (length p.merchant_name) c.name_fits;
      city_fits = ltb_false→le 15 (length p.city) c.city_fits;
      amount_is = (IsAmount-check_iff p.amount).0 c.amount_valid;
      key_printable = (check_passes_iff p.key).0 t.0;
      url_printable = (check_passes_iff p.url).0 t.1;
      description_printable = (check_passes_iff p.description).0 t.2;
      name_printable = (check_passes_iff p.merchant_name).0 t.3;
      city_printable = (check_passes_iff p.city).0 t.4;
      txid_printable = (check_passes_iff p.txid).0 t.5;
    }

IsValid-Checks : {p : Payload} → IsValid p → Checks p
IsValid-Checks {p} v = record {
  not_blank = (some_not_empty_iff (trim_space p.key) (trim_space p.url)).1 v.has_target;
  exclusive = (one_empty_iff p.key p.url).1 v.one_target;
  named =
      (both_not_empty_iff (trim_space p.merchant_name) (trim_space p.city)).1
        (v.has_name, v.has_city);
  name_fits = le→ltb 25 (length p.merchant_name) v.name_fits;
  city_fits = le→ltb 15 (length p.city) v.city_fits;
  amount_valid = (IsAmount-check_iff p.amount).1 v.amount_is;
  printable = (check_ascii-rounds p).1 (
    (check_passes_iff p.key).1 v.key_printable,
    (check_passes_iff p.url).1 v.url_printable,
    (check_passes_iff p.description).1 v.description_printable,
    (check_passes_iff p.merchant_name).1 v.name_printable,
    (check_passes_iff p.city).1 v.city_printable,
    (check_passes_iff p.txid).1 v.txid_printable,
  );
}

-- `Validate` accepts a payload exactly when it meets every requirement: one of key and URL and not
-- both, a name of at most 25 bytes and a city of at most 15 that are not blank, no amount or a
-- decimal with at most two places, and printable ASCII in the six text fields.
pub validate_iff : (p : Payload) → (validate p ≡ ok tt) ↔ IsValid p
validate_iff p =
    (λ h. Checks-IsValid (validate-Checks p h), λ v. Checks-validate (IsValid-Checks v))
