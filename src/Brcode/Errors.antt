-- ===== src/Brcode/Errors.antt =====
-- The errors of internal/brcode/brcode.go, one constructor for each `fmt.Errorf`, with the values
-- that its message shows.
use pixkb.Base.{ℕ, Bytes}

pub data Error : Type 0 where
  -- parseTLVs
  truncated_header : ℕ → Error
  non_numeric_length : Bytes → Bytes → Error
  bad_length : Bytes → Bytes → Error
  exceeds_payload : Bytes → ℕ → Error
  -- encodeTLVs
  value_too_long : Bytes → ℕ → Error
  -- Parse
  merchant_account : Error → Error
  additional_data : Error → Error
  -- Validate
  key_or_url_required : Error
  key_and_url : Error
  merchant_required : Error
  name_too_long : ℕ → Error
  city_too_long : ℕ → Error
  bad_amount : Bytes → Error
  too_many_decimals : Bytes → Error
  not_printable : Bytes → Bytes → Error
  -- ValidateCode
  crc_failed : Error
  -- no error of the program: the fuel of the model ran out
  out_of_fuel : Error
