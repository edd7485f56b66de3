-- ===== src/Brcode/Parse.antt =====
-- `Parse` and `ValidateCode` of internal/brcode/brcode.go. The Unicode tables behind
-- `strings.ToUpper` are the parameter `unicode_upper`.
use pixkb.Base.{
  Bytes, codes, ℕ, ◌+◌, Bool, false, not, [], Option, none, some, take, if◌then◌else◌, Result, ok,
  ◌>>=◌, map_err, refuse,
}
use pixkb.Text.Ascii.{equal, is_empty, to_upper, equal_fold, last_index}
use pixkb.Text.Space.{trim_space}
use pixkb.Text.Number.{hex04}
use pixkb.Brcode.Errors.{Error, merchant_account, additional_data, crc_failed}
use pixkb.Brcode.Tlv.{parse_tlvs, find}
use pixkb.Brcode.Crc.{crc16}
use pixkb.Brcode.Payload.{Payload}
use pixkb.Brcode.Encode.{crc_tag}
use pixkb.Brcode.Id

-- what `Parse` reads from a nested template: key, url and description
unfoldable pub read_merchant_account : Bytes → Result Error (Bytes × Bytes × Bytes)
read_merchant_account ma = if is_empty ma then ok ([], [], []) else do
  sub ← map_err merchant_account (parse_tlvs ma)
  ok (find sub Id.pix_key, find sub Id.pix_url, find sub Id.pix_descr)

unfoldable pub read_additional_data : Bytes → Result Error Bytes
read_additional_data ad =
    if is_empty ad
    then ok []
    else do sub ← map_err additional_data (parse_tlvs ad); ok (find sub Id.reference_label)

-- the comparison of the CRC field with the recomputed checksum, from the index of "6304"
unfoldable pub crc_matches : Bytes → Bytes → Option ℕ → Bool
crc_matches code crc none = false
crc_matches code crc (some index) = equal_fold crc (hex04 (crc16 (take (index + 4) code)))

module _ (unicode_upper : Bytes → Bytes) where
  -- `Parse` on the trimmed text
  unfoldable pub parse_trimmed : Bytes → Result Error Payload
  parse_trimmed code = do
    fields ← parse_tlvs code
    account ← read_merchant_account (find fields Id.merchant_account)
    txid ← read_additional_data (find fields Id.additional_data)
    let crc = to_upper unicode_upper (find fields Id.crc)
    ok (record {
      key = account.0;
      url = account.1;
      description = account.2;
      merchant_name = find fields Id.merchant_name;
      city = find fields Id.merchant_city;
      amount = find fields Id.amount;
      txid = txid;
      dynamic = equal (find fields Id.initiation_point) (codes "12");
      crc = crc;
      crc_valid = crc_matches code crc (last_index crc_tag code);
      omit_initiation_point = false;
    })

  unfoldable pub parse : Bytes → Result Error Payload
  unfolding parse_trimmed
  parse code = parse_trimmed (trim_space code)

  unfoldable pub validate_code : Bytes → Result Error (Unit {0})
  validate_code code = do p ← parse code; refuse (not p.crc_valid) crc_failed
