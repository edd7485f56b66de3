-- ===== src/Brcode/RoundTrip.antt =====
-- `Parse` reads back what `Encode` wrote.
mod Fields
mod Templates
pub mod Checksum
use pixkb.Base.{
  Bytes, codes, ℕ, ◌/◌, ◌%◌, subst, ◌-◌, Bool, true, false, not, [], ◌∷◌, ◌++◌, append_assoc, ◌≡◌,
  ◌≢◌, refl, sym, ap, ◌∙◌, length, take, take-append, if◌then◌else◌, ◌==◌, Result, ok, err,
  >>=-eq-ok, refuse, arith, Bool-cases, inl, inr,
}
use pixkb.Text.Ascii.{is_empty}
use pixkb.Text.Space.{trim_space}
use pixkb.Text.Space.Visible.{trim_space_visible}
use pixkb.Text.Number.{hex_digit, hex04, two_digits}
use pixkb.Text.Number.Hex.{hex_digit-IsVisible, to_upper-hex04}
use pixkb.Brcode.Errors.{Error, crc_failed}
use pixkb.Brcode.Id
use pixkb.Brcode.Tlv.{Tlv, encode_tlvs, parse_tlvs}
use pixkb.Brcode.Tlv.Append.{encode_tlvs-append}
use pixkb.Brcode.Tlv.RoundTrip.{parse_tlvs-encode_tlvs, Encoded, encode-Encoded}
use pixkb.Brcode.Crc.{crc16}
use pixkb.Brcode.Payload.{Payload, validate}
use pixkb.Brcode.Payload.Valid.{validate_key}
use pixkb.Brcode.Encode.{
  field, crc_tag, with_crc, encode, merchant_fields, txid_value, body_fields, is_dynamic,
}
use Fields.{code_fields, code_fields-Lookups, code_fields-IsFramed}
use Templates.{read_merchant_account-encode, read_additional_data-encode}
use Checksum.{checksum, take_front, crc_matches-with_crc}
use pixkb.Brcode.Parse.{parse_trimmed, parse, validate_code}

-- The parts of a code that was encoded.
record Built (p : Payload) (code : Bytes) : Type 0 where
  ma : Bytes
  ad : Bytes
  body : Bytes
  valid : validate p ≡ ok tt
  ma_is : encode_tlvs (merchant_fields p) ≡ ok ma
  ad_is : encode_tlvs (field Id.reference_label (txid_value p) ∷ []) ≡ ok ad
  body_is : encode_tlvs (body_fields p ma ad) ≡ ok body
  code_is : code ≡ with_crc body

encode-Built : (p : Payload) {code : Bytes} → encode p ≡ ok code → Built p code
unfolding encode
encode-Built p e =
    let (u, valid, e₁) = >>=-eq-ok (validate p) _ e in
    let (ma, ma_is, e₂) = >>=-eq-ok (encode_tlvs (merchant_fields p)) _ e₁ in
    let (ad, ad_is, e₃) =
      >>=-eq-ok (encode_tlvs (field Id.reference_label (txid_value p) ∷ [])) _ e₂ in
    let (body, body_is, e₄) = >>=-eq-ok (encode_tlvs (body_fields p ma ad)) _ e₃ in
    record {
      ma = ma;
      ad = ad;
      body = body;
      valid = valid;
      ma_is = ma_is;
      ad_is = ad_is;
      body_is = body_is;
      code_is = cc;
    }

-- The last field of a code.
encode_crc_field : (n : ℕ) → encode_tlvs (field Id.crc (hex04 n) ∷ []) ≡ ok (crc_tag ++ hex04 n)
unfolding encode_tlvs two_digits hex04
encode_crc_field n = refl

module _ {p : Payload} {code : Bytes} (b : Built p code) where
  Built-fields : encode_tlvs (code_fields p b.ma b.ad (checksum b.body)) ≡ ok (with_crc b.body)
  unfolding with_crc checksum
  Built-fields = rw append_assoc (
      encode_tlvs-append (body_fields p b.ma b.ad) _ b.body_is (encode_crc_field (checksum b.body)))

  -- The loop reads the fields back.
  Built-parsed : parse_tlvs (with_crc b.body) ≡ ok (code_fields p b.ma b.ad (checksum b.body))
  Built-parsed =
      parse_tlvs-encode_tlvs (code_fields p b.ma b.ad (checksum b.body))
        (code_fields-IsFramed p b.ma b.ad (checksum b.body)) Built-fields

  -- A code starts with the digit 0.
  body_starts : (s : Bytes) × (b.body ≡ b'0' ∷ s)
  unfolding body_fields
  body_starts =
      let c = encode-Encoded (field Id.payload_format (codes "01")) _ b.body_is in (_, c.text_is)

with_crc-trimmed : (s : Bytes) → trim_space (with_crc (b'0' ∷ s)) ≡ with_crc (b'0' ∷ s)
unfolding with_crc hex04
with_crc-trimmed s =
    let n = crc16 (b'0' ∷ (s ++ crc_tag)) in
    let front =
      hex_digit (n / 4096 % 16) ∷ hex_digit (n / 256 % 16) ∷ hex_digit (n / 16 % 16) ∷ [] in
    let last = hex_digit (n % 16) in
    subst (λ t. trim_space (b'0' ∷ t) ≡ b'0' ∷ t) (append_assoc (s ++ crc_tag) front (last ∷ []))
      (trim_space_visible b'0' last ((s ++ crc_tag) ++ front) (omega arith)
        (hex_digit-IsVisible (n % 16) (omega arith)))

-- The payload that `Parse` returns for an encoded one: a missing txid is written as "***", a code
-- with a URL is dynamic and carries no description, and the checksum is filled in.
abbrev pub as_parsed : Payload → ℕ → Payload
as_parsed p n = record {
  key = p.key;
  url = p.url;
  description = if is_empty p.url then p.description else [];
  merchant_name = p.merchant_name;
  city = p.city;
  amount = p.amount;
  txid = txid_value p;
  dynamic = is_dynamic p;
  crc = hex04 n;
  crc_valid = not (n == 0x6304);
  omit_initiation_point = false;
}

parse_trimmed-Built :
    (up : Bytes → Bytes) (p : Payload) {code : Bytes} (b : Built p code)
    → parse_trimmed up (with_crc b.body) ≡ ok (as_parsed p (checksum b.body))
unfolding parse_trimmed
parse_trimmed-Built up p b =
    let look = code_fields-Lookups p b.ma b.ad (checksum b.body) in
    rw
      (
        Built-parsed b,
        look.account_is,
        read_merchant_account-encode p b.ma_is,
        look.additional_is,
        read_additional_data-encode p b.ad_is,
        look.crc_is,
        to_upper-hex04,
        look.name_is,
        look.city_is,
        look.amount_is,
        look.initiation_is,
        crc_matches-with_crc b.body,
      )
      (rw (validate_key p b.valid))

with_crc-checksum :
    (body : Bytes) → crc16 (take (length (with_crc body) - 4) (with_crc body)) ≡ checksum body
unfolding checksum
with_crc-checksum body = ap crc16 (take_front body)

parse-Built :
    (up : Bytes → Bytes) (p : Payload) {code : Bytes} (b : Built p code)
    → parse up (with_crc b.body) ≡ ok (as_parsed p (checksum b.body))
unfolding parse
parse-Built up p b =
    let (s, starts) = body_starts b in
    let trimmed : trim_space (with_crc b.body) ≡ with_crc b.body = rw starts (with_crc-trimmed s) in
    ap (parse_trimmed up) trimmed ∙ parse_trimmed-Built up p b

-- Parsing an encoded payload gives that payload back in the form of a code: a missing txid reads
-- "***", a code with a URL is dynamic and has no description, and the last four bytes are the
-- checksum of what stands before them. It is reported valid unless it is the word 0x6304.
pub parse-encode :
    (up : Bytes → Bytes) (p : Payload) {code : Bytes}
    → encode p ≡ ok code
    → parse up code ≡ ok (as_parsed p (crc16 (take (length code - 4) code)))
parse-encode up p e =
    let b = encode-Built p e in
    subst (λ c. parse up c ≡ ok (as_parsed p (crc16 (take (length c - 4) c)))) (sym b.code_is)
      (parse-Built up p b ∙ ap (λ n. ok (as_parsed p n)) (sym (with_crc-checksum b.body)))

-- `ValidateCode` accepts an encoded payload unless its checksum is the word 0x6304, whose digits
-- spell the tag of the checksum field: then it reports a corrupted code.
pub validate_code-encode :
    (up : Bytes → Bytes) (p : Payload) {code : Bytes}
    → encode p ≡ ok code
    → validate_code up code
      ≡ (if crc16 (take (length code - 4) code) == 0x6304 then err crc_failed else ok tt)
unfolding validate_code
validate_code-encode up p {code} e =
    rw (parse-encode up p e) (refused (crc16 (take (length code - 4) code) == 0x6304))
  where
    refused : (b : Bool) → refuse (not (not b)) crc_failed ≡ (if b then err crc_failed else ok tt)
    refused true = refl
    refused false = refl
