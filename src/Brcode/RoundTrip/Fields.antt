-- ===== src/Brcode/RoundTrip/Fields.antt =====
-- What `find` reads from the fields that `Encode` writes.
use pixkb.Base.{Bytes, codes, ℕ, List, [], ◌∷◌, ◌++◌, ◌≡◌, arith, All}
use pixkb.Text.Ascii.{equal}
use pixkb.Text.Number.{hex04}
use pixkb.Brcode.Id
use pixkb.Brcode.Tlv.{Tlv, find}
use pixkb.Brcode.Tlv.RoundTrip.{IsFramed}
use pixkb.Brcode.Payload.{Payload}
use pixkb.Brcode.Encode.{field, body_fields, is_dynamic}

-- The fields of a whole code.
abbrev pub code_fields : Payload → Bytes → Bytes → ℕ → List Tlv
code_fields p ma ad checksum = body_fields p ma ad ++ (field Id.crc (hex04 checksum) ∷ [])

-- What each lookup of `Parse` finds.
pub record Lookups (p : Payload) (ma ad crc : Bytes) (fields : List Tlv) : Type 0 where
  pub initiation_is : equal (find fields Id.initiation_point) (codes "12") ≡ is_dynamic p
  pub account_is : find fields Id.merchant_account ≡ ma
  pub amount_is : find fields Id.amount ≡ p.amount
  pub name_is : find fields Id.merchant_name ≡ p.merchant_name
  pub city_is : find fields Id.merchant_city ≡ p.city
  pub additional_is : find fields Id.additional_data ≡ ad
  pub crc_is : find fields Id.crc ≡ crc

pub code_fields-Lookups :
    (p : Payload) (ma ad : Bytes) (checksum : ℕ)
    → Lookups p ma ad (hex04 checksum) (code_fields p ma ad checksum)
unfolding find body_fields equal
code_fields-Lookups p ma ad checksum = ground arith

pub code_fields-IsFramed :
    (p : Payload) (ma ad : Bytes) (checksum : ℕ) → All IsFramed (code_fields p ma ad checksum)
unfolding body_fields
code_fields-IsFramed p ma ad checksum = ground arith
