-- ===== src/Brcode/RoundTrip/Templates.antt =====
-- The two nested templates of a code, written and read.
use pixkb.Base.{Bytes, ℕ, false, [], ◌∷◌, ◌≡◌, refl, ok, if◌then◌else◌, arith, All, List}
use pixkb.Text.Ascii.{equal, is_empty}
use pixkb.Brcode.Id
use pixkb.Brcode.Tlv.{Tlv, find, encode_tlvs}
use pixkb.Brcode.Tlv.RoundTrip.{IsFramed, encode-Encoded, Encoded, parse_tlvs-encode_tlvs}
use pixkb.Brcode.Payload.{Payload}
use pixkb.Brcode.Encode.{field, merchant_fields, txid_value}
use pixkb.Brcode.Parse.{read_merchant_account, read_additional_data}

-- An encoding of a field whose id is not empty is not empty.
encode-is_empty :
    (a : ℕ) (id val : Bytes) (fields : List Tlv) {s : Bytes}
    → encode_tlvs (field (a ∷ id) val ∷ fields) ≡ ok s
    → is_empty s ≡ false
encode-is_empty a id val fields e =
    rw (Encoded.text_is (encode-Encoded (field (a ∷ id) val) fields e))

merchant_fields-IsFramed : (p : Payload) → All IsFramed (merchant_fields p)
unfolding merchant_fields
merchant_fields-IsFramed p = ground arith

merchant_fields-is_empty :
    (p : Payload) {ma : Bytes} → encode_tlvs (merchant_fields p) ≡ ok ma → is_empty ma ≡ false
unfolding merchant_fields
merchant_fields-is_empty p e = encode-is_empty b'0' (b'0' ∷ []) Id.pix_gui _ e

find-merchant_fields :
    (p : Payload)
    → (find (merchant_fields p) Id.pix_key ≡ (if is_empty p.url then p.key else []))
      × (find (merchant_fields p) Id.pix_url ≡ p.url)
      × (find (merchant_fields p) Id.pix_descr ≡ (if is_empty p.url then p.description else []))
unfolding find merchant_fields equal
find-merchant_fields p = ground arith

-- Template 26 gives back the key or the URL; a description is written beside a key alone.
pub read_merchant_account-encode :
    (p : Payload) {ma : Bytes}
    → encode_tlvs (merchant_fields p) ≡ ok ma
    → read_merchant_account ma
      ≡ ok (
        (if is_empty p.url then p.key else []),
        p.url,
        (if is_empty p.url then p.description else []),
      )
unfolding read_merchant_account
read_merchant_account-encode p e =
    let (key, url, descr) = find-merchant_fields p in
    rw (
      merchant_fields-is_empty p e,
      parse_tlvs-encode_tlvs (merchant_fields p) (merchant_fields-IsFramed p) e,
      key,
      url,
      descr,
    )

-- Template 62 gives back the txid.
pub read_additional_data-encode :
    (p : Payload) {ad : Bytes}
    → encode_tlvs (field Id.reference_label (txid_value p) ∷ []) ≡ ok ad
    → read_additional_data ad ≡ ok (txid_value p)
unfolding read_additional_data
read_additional_data-encode p e =
    rw
      (
        encode-is_empty b'0' (b'5' ∷ []) (txid_value p) [] e,
        parse_tlvs-encode_tlvs (field Id.reference_label (txid_value p) ∷ []) (refl, tt) e,
      )
      (unfold find equal in refl)
