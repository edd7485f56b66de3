-- ===== src/Brcode/Payload.antt =====
-- `Payload`, `Validate` and `validAmount` of internal/brcode/brcode.go.
pub mod Amount
pub mod Valid
pub mod Meaning
use pixkb.Base.{
  Bytes, codes, ℕ, Bool, true, false, not, ◌&&◌, ◌||◌, List, [], ◌∷◌, length, ltb, leb, ◌==◌,
  if◌then◌else◌, Result, ok, err, ◌>>=◌, ◌>>◌, refuse,
}
use pixkb.Text.Ascii.{is_empty}
use pixkb.Text.Space.{trim_space}
use pixkb.Brcode.Errors.{
  Error, key_or_url_required, key_and_url, merchant_required, name_too_long, city_too_long,
  bad_amount, too_many_decimals, not_printable,
}
use pixkb.Brcode.Tlv.{all_digits}

pub record Payload : Type 0 where
  pub key : Bytes
  pub url : Bytes
  pub description : Bytes
  pub merchant_name : Bytes
  pub city : Bytes
  pub amount : Bytes
  pub txid : Bytes
  pub dynamic : Bool
  pub crc : Bytes
  pub crc_valid : Bool
  pub omit_initiation_point : Bool

-- `Payload{}`
abbrev pub empty_payload : Payload
empty_payload = record {
  key = [];
  url = [];
  description = [];
  merchant_name = [];
  city = [];
  amount = [];
  txid = [];
  dynamic = false;
  crc = [];
  crc_valid = false;
  omit_initiation_point = false;
}

unfoldable pub is_printable_ascii : Bytes → Bool
is_printable_ascii [] = true
is_printable_ascii (c ∷ s) = if ltb c 0x20 || ltb 0x7e c then false else is_printable_ascii s

abbrev pub ascii_fields : List (Bytes × (Payload → Bytes))
ascii_fields =
    (codes "key", λ p. p.key)
    ∷ (codes "url", λ p. p.url)
    ∷ (codes "description", λ p. p.description)
    ∷ (codes "merchant_name", λ p. p.merchant_name)
    ∷ (codes "city", λ p. p.city)
    ∷ (codes "txid", λ p. p.txid)
    ∷ []

-- the loop of `Validate` over `asciiFields`
unfoldable pub check_ascii : Payload → List (Bytes × (Payload → Bytes)) → Result Error (Unit {0})
check_ascii p [] = ok tt
check_ascii p ((name, get) ∷ fields) = do
  refuse (not (is_empty (get p)) && not (is_printable_ascii (get p))) (not_printable name (get p))
  check_ascii p fields

-- `strings.Cut(a, ".")`: what stands before the first dot, what stands behind it, and whether
-- there is one
unfoldable pub cut_dot : Bytes → Bytes × Bytes × Bool
cut_dot [] = ([], [], false)
cut_dot (c ∷ s) =
    let (before, after, found) = cut_dot s in
    if c == b'.' then ([], s, true) else (c ∷ before, after, found)

-- `validAmount` on the parts of the amount
unfoldable pub valid_parts : Bytes → Bytes × Bytes × Bool → Result Error (Unit {0})
valid_parts a (int_part, frac, has_dot) = do
  refuse
      (is_empty int_part
        || (not (all_digits int_part) || (has_dot && (is_empty frac || not (all_digits frac)))))
      (bad_amount a)
  refuse (ltb 2 (length frac)) (too_many_decimals a)

unfoldable pub valid_amount : Bytes → Result Error (Unit {0})
unfolding cut_dot valid_parts
valid_amount a = valid_parts a (cut_dot a)

unfoldable pub validate : Payload → Result Error (Unit {0})
validate p = do
  refuse (is_empty (trim_space p.key) && is_empty (trim_space p.url)) key_or_url_required
  refuse (not (is_empty p.key) && not (is_empty p.url)) key_and_url
  refuse (is_empty (trim_space p.merchant_name) || is_empty (trim_space p.city)) merchant_required
  refuse (ltb 25 (length p.merchant_name)) (name_too_long (length p.merchant_name))
  refuse (ltb 15 (length p.city)) (city_too_long (length p.city))
  if is_empty p.amount then ok tt else valid_amount p.amount
  check_ascii p ascii_fields
