-- ===== src/Brcode/Encode.antt =====
-- `Encode` of internal/brcode/brcode.go.
use pixkb.Base.{
  Bytes, codes, Bool, not, ◌||◌, List, [], ◌∷◌, ◌++◌, if◌then◌else◌, Result, ok, ◌>>=◌, ◌>>◌,
}
use pixkb.Text.Ascii.{is_empty}
use pixkb.Text.Number.{hex04}
use pixkb.Brcode.Errors.{Error}
use pixkb.Brcode.Id
use pixkb.Brcode.Tlv.{Tlv, encode_tlvs}
use pixkb.Brcode.Crc.{crc16}
use pixkb.Brcode.Payload.{Payload, validate}

abbrev pub field : Bytes → Bytes → Tlv
field id val = record { id = id; val = val }

-- the fields of the nested template 26
unfoldable pub merchant_fields : Payload → List Tlv
merchant_fields p =
    field Id.gui Id.pix_gui
    ∷ (if not (is_empty p.url)
        then field Id.pix_url p.url ∷ []
        else field Id.pix_key p.key
          ∷ (if not (is_empty p.description) then field Id.pix_descr p.description ∷ [] else []))

unfoldable pub is_dynamic : Payload → Bool
is_dynamic p = p.dynamic || not (is_empty p.url)

unfoldable pub txid_value : Payload → Bytes
txid_value p = if is_empty p.txid then codes "***" else p.txid

-- field 01, or nothing where it is omitted
unfoldable pub initiation_fields : Payload → List Tlv
unfolding is_dynamic
initiation_fields p =
    if is_dynamic p || not p.omit_initiation_point
    then field Id.initiation_point (if is_dynamic p then codes "12" else codes "11") ∷ []
    else []

-- field 54, or nothing where the payer sets the value
unfoldable pub amount_fields : Payload → List Tlv
amount_fields p = if not (is_empty p.amount) then field Id.amount p.amount ∷ [] else []

-- the fields of the code but the last, from the two encoded templates
unfoldable pub body_fields : Payload → Bytes → Bytes → List Tlv
unfolding initiation_fields amount_fields
body_fields p ma ad =
    (field Id.payload_format (codes "01") ∷ initiation_fields p)
    ++ (field Id.merchant_account ma
        ∷ field Id.merchant_category (codes "0000")
        ∷ field Id.currency (codes "986")
        ∷ (amount_fields p
            ++ (field Id.country (codes "BR")
                ∷ field Id.merchant_name p.merchant_name
                ∷ field Id.merchant_city p.city
                ∷ field Id.additional_data ad
                ∷ [])))

abbrev pub crc_tag : Bytes
crc_tag = Id.crc ++ codes "04"

unfoldable pub with_crc : Bytes → Bytes
with_crc body = let tagged = body ++ crc_tag in tagged ++ hex04 (crc16 tagged)

unfoldable pub encode : Payload → Result Error Bytes
encode p = do
  validate p
  ma ← encode_tlvs (merchant_fields p)
  ad ← encode_tlvs (field Id.reference_label (txid_value p) ∷ [])
  body ← encode_tlvs (body_fields p ma ad)
  ok (with_crc body)
