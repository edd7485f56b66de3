-- ===== src/Brcode/Payload/Valid.antt =====
-- What `Validate` accepts.
use pixkb.Base.{
  Bytes, Bool, true, false, not, ◌&&◌, ◌||◌, [], ◌∷◌, ◌≡◌, refl, length, ltb, if◌then◌else◌, ok,
  refuse, >>=-eq-ok,
}
use pixkb.Text.Ascii.{is_empty}
use pixkb.Text.Space.{trim_space}
use pixkb.Brcode.Payload.{Payload, ascii_fields, check_ascii, valid_amount, validate}

refuse-eq-ok : {E : Type 0} (b : Bool) (e : E) {u : Unit {0}} → refuse b e ≡ ok u → b ≡ false
refuse-eq-ok true e h = cc
refuse-eq-ok false e h = refl

-- Every test of `Validate`, passed.
pub record Checks (p : Payload) : Type 0 where
  pub not_blank : (is_empty (trim_space p.key) && is_empty (trim_space p.url)) ≡ false
  pub exclusive : (not (is_empty p.key) && not (is_empty p.url)) ≡ false
  pub named : (is_empty (trim_space p.merchant_name) || is_empty (trim_space p.city)) ≡ false
  pub name_fits : ltb 25 (length p.merchant_name) ≡ false
  pub city_fits : ltb 15 (length p.city) ≡ false
  pub amount_valid : (if is_empty p.amount then ok tt else valid_amount p.amount) ≡ ok tt
  pub printable : check_ascii p ascii_fields ≡ ok tt

pub validate-Checks : (p : Payload) → validate p ≡ ok tt → Checks p
unfolding validate
validate-Checks p e =
    let (_, e₁, f₁) = >>=-eq-ok (refuse _ _) _ e in
    let (_, e₂, f₂) = >>=-eq-ok (refuse _ _) _ f₁ in
    let (_, e₃, f₃) = >>=-eq-ok (refuse _ _) _ f₂ in
    let (_, e₄, f₄) = >>=-eq-ok (refuse _ _) _ f₃ in
    let (_, e₅, f₅) = >>=-eq-ok (refuse _ _) _ f₄ in
    let (_, e₆, f₆) = >>=-eq-ok (if is_empty p.amount then ok tt else valid_amount p.amount) _ f₅ in
    record {
      not_blank = refuse-eq-ok _ _ e₁;
      exclusive = refuse-eq-ok _ _ e₂;
      named = refuse-eq-ok _ _ e₃;
      name_fits = refuse-eq-ok _ _ e₄;
      city_fits = refuse-eq-ok _ _ e₅;
      amount_valid = e₆;
      printable = f₆;
    }

pub Checks-validate : {p : Payload} → Checks p → validate p ≡ ok tt
unfolding validate
Checks-validate c =
    rw (c.not_blank, c.exclusive, c.named, c.name_fits, c.city_fits, c.amount_valid) c.printable

-- With a URL there is no key.
pub validate_key :
    (p : Payload) → validate p ≡ ok tt → (if is_empty p.url then p.key else []) ≡ p.key
validate_key p e = key_alone p.key p.url (validate-Checks p e).exclusive
  where
    key_alone :
        (key url : Bytes)
        → (not (is_empty key) && not (is_empty url)) ≡ false
        → (if is_empty url then key else []) ≡ key
    key_alone key [] h = refl
    key_alone [] (c ∷ url) h = refl
    key_alone (k ∷ key) (c ∷ url) h = cc
