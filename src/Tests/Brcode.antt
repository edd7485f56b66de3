-- ===== src/Tests/Brcode.antt =====
-- The Pix BR Code at fixed payloads.
use pixkb.Base.{
  Bytes, codes, ℕ, ◌≡◌, ◌≢◌, ◌↔◌, [], ◌∷◌, List, take, length, ◌-◌, ◌==◌, if◌then◌else◌, All, ok,
  err, refl, arith,
}
use pixkb.Text.Space.{trim_space}
use pixkb.Text.Number.{hex04, hex_digit, two_digits}
use pixkb.Brcode.Errors.{
  crc_failed, truncated_header, exceeds_payload, non_numeric_length, out_of_fuel, too_many_decimals,
}
use pixkb.Brcode.Tlv.{
  Tlv, field_length, take_value, parse_from, parse_tlvs, encode_tlvs, all_digits,
}
use pixkb.Brcode.Tlv.RoundTrip.{IsFramed, parse_tlvs-eq-ok_iff}
use pixkb.Brcode.Tlv.Total.{parse_tlvs-ne-out_of_fuel}
use pixkb.Brcode.Crc.{crc16}
use pixkb.Brcode.Crc.Detection.{crc16_detects}
use pixkb.Brcode.Payload.{
  Payload, empty_payload, validate, check_ascii, is_printable_ascii, valid_amount,
}
use pixkb.Brcode.Payload.Amount.{IsAmount, valid_amount_iff}
use pixkb.Brcode.Payload.Meaning.{IsValid, validate_iff}
use pixkb.Brcode.Encode.{encode, merchant_fields, txid_value, body_fields, with_crc}
use pixkb.Brcode.Parse.{parse, validate_code}
use pixkb.Brcode.RoundTrip.{as_parsed, parse-encode, validate_code-encode}

abbrev sample : Payload
sample = record empty_payload {
  key = codes "a@b.c";
  merchant_name = codes "Ana";
  city = codes "SP";
  amount = codes "10.00";
  txid = codes "B1PK";
}

-- The checksum of this code is 0x6304.
abbrev sample_code : Bytes
sample_code =
    codes
      "00020101021126270014br.gov.bcb.pix0105a@b.c520400005303986540510.005802BR5903Ana6002SP62080504B1PK63046304"

sample_encoded : encode sample ≡ ok sample_code
unfolding encode validate check_ascii is_printable_ascii valid_amount all_digits trim_space
    merchant_fields txid_value body_fields with_crc encode_tlvs two_digits hex04 hex_digit crc16
sample_encoded = refl

parse-encode_example :
    parse (λ s. s) sample_code
    ≡ ok (as_parsed sample (crc16 (take (length sample_code - 4) sample_code)))
parse-encode_example = parse-encode (λ s. s) sample sample_encoded

validate_code-encode_example : validate_code (λ s. s) sample_code ≡ (
    if crc16 (take (length sample_code - 4) sample_code) == 0x6304 then err crc_failed else ok tt)
validate_code-encode_example = validate_code-encode (λ s. s) sample sample_encoded

abbrev two_fields : List Tlv
two_fields =
    record { id = codes "00"; val = codes "01" } ∷ record { id = codes "58"; val = codes "BR" } ∷ []

parse_tlvs-eq-ok_iff_example :
    (parse_tlvs (codes "0002015802BR") ≡ ok two_fields)
    ↔ (All IsFramed two_fields × (encode_tlvs two_fields ≡ ok (codes "0002015802BR")))
parse_tlvs-eq-ok_iff_example = parse_tlvs-eq-ok_iff (codes "0002015802BR") two_fields

bad_frames :
    (parse_tlvs (codes "000201580") ≡ err (truncated_header 6))
    × (parse_tlvs (codes "0005ab") ≡ err (exceeds_payload (codes "00") 5))
    × (parse_tlvs (codes "00-1ab") ≡ err (non_numeric_length (codes "-1") (codes "00")))
unfolding parse_tlvs parse_from field_length take_value
bad_frames = (refl, refl, refl)

parse_tlvs-ne-out_of_fuel_example : parse_tlvs (codes "0002015802BR") ≢ err out_of_fuel
parse_tlvs-ne-out_of_fuel_example = parse_tlvs-ne-out_of_fuel (codes "0002015802BR")

crc16_detects_example : ◌≡◌ {A = ℕ} b'2' b'2'
crc16_detects_example =
    crc16_detects (codes "1") (codes "3") b'2' b'2' (omega arith) (omega arith) refl

valid_amount_iff_example : (valid_amount (codes "10.50") ≡ ok tt) ↔ IsAmount (codes "10.50")
valid_amount_iff_example = valid_amount_iff (codes "10.50")

three_decimals : valid_amount (codes "1.234") ≡ err (too_many_decimals (codes "1.234"))
unfolding valid_amount all_digits
three_decimals = refl

validate_iff_example : (validate sample ≡ ok tt) ↔ IsValid sample
validate_iff_example = validate_iff sample
